-- ===== src/Rtcp/Fields.antt =====
-- What is written is read again: the fixed parts of src/rtp/rtcp.rs.
use rtp_sip_module.Prelude.{ℕ, ◌+◌, ◌*◌, ◌/◌, ◌%◌, ◌^◌, ◌≤◌, ◌<◌, ◌≡◌, ◌⊎◌, some, List, ◌++◌, arith}
use rtp_sip_module.Prelude.Bytes.{u16_at, u32_at}
use rtp_sip_module.Rtcp.{NtpTimestamp, ReportBlock, VoipMetrics}
use rtp_sip_module.Rtcp.Ntp
use rtp_sip_module.Rtcp.Block
use rtp_sip_module.Rtcp.Metrics

pub word :
    (n : ℕ)
    → n < 2 ^ 32
    → n / 16777216 % 256 * 16777216 + n / 65536 % 256 * 65536 + n / 256 % 256 * 256 + n % 256 ≡ n
word n h = omega arith

pub half : (n : ℕ) → n < 2 ^ 16 → n / 256 % 256 * 256 + n % 256 ≡ n
half n h = omega arith

-- Both words are in range.
abbrev pub NtpIsValid : NtpTimestamp → Type 0
NtpIsValid t = (t.seconds < 2 ^ 32) × (t.fraction < 2 ^ 32)

-- Every field fits its width, and the loss count its 24 bits with a sign.
abbrev pub BlockIsValid : ReportBlock → Type 0
BlockIsValid rb =
    (rb.ssrc < 2 ^ 32)
    × ((rb.cumulative_lost < 8388608)
        ⊎ ((4286578688 ≤ rb.cumulative_lost) × (rb.cumulative_lost < 2 ^ 32)))
    × (rb.extended_highest_seq < 2 ^ 32)
    × (rb.jitter < 2 ^ 32)
    × (rb.last_sr < 2 ^ 32)
    × (rb.delay_since_last_sr < 2 ^ 32)

signed :
    (c : ℕ)
    → (c < 8388608) ⊎ ((4286578688 ≤ c) × (c < 2 ^ 32))
    → Block.sign_extend (c / 65536 % 256 * 65536 + c / 256 % 256 * 256 + c % 256) ≡ c
unfolding Block.sign_extend
signed c h = ground arith

pub parse-write_block :
    (rb : ReportBlock) (rest : List ℕ)
    → BlockIsValid rb
    → Block.parse (Block.write_to rb ++ rest) ≡ rb
unfolding Block.parse Block.write_to Block.cum_raw Block.sign_extend u32_at
parse-write_block rb rest (s, c, e, j, l, d) = λ i. record {
  ssrc = word rb.ssrc s i;
  fraction_lost = rb.fraction_lost;
  cumulative_lost = signed rb.cumulative_lost c i;
  extended_highest_seq = word rb.extended_highest_seq e i;
  jitter = word rb.jitter j i;
  last_sr = word rb.last_sr l i;
  delay_since_last_sr = word rb.delay_since_last_sr d i;
}

-- The widths of the metrics that take two bytes.
abbrev pub MetricsIsValid : VoipMetrics → Type 0
MetricsIsValid m =
    (m.burst_duration < 2 ^ 16)
    × (m.gap_duration < 2 ^ 16)
    × (m.round_trip_delay < 2 ^ 16)
    × (m.end_system_delay < 2 ^ 16)
    × (m.jb_nominal < 2 ^ 16)
    × (m.jb_maximum < 2 ^ 16)
    × (m.jb_abs_max < 2 ^ 16)

pub parse-write_metrics :
    (m : VoipMetrics) → MetricsIsValid m → Metrics.parse (Metrics.write_to m) ≡ some m
unfolding Metrics.parse Metrics.write_to Metrics.fields u16_at
parse-write_metrics m (b, g, r, e, n, x, a) = λ i. some (record m {
  burst_duration = half m.burst_duration b i;
  gap_duration = half m.gap_duration g i;
  round_trip_delay = half m.round_trip_delay r i;
  end_system_delay = half m.end_system_delay e i;
  jb_nominal = half m.jb_nominal n i;
  jb_maximum = half m.jb_maximum x i;
  jb_abs_max = half m.jb_abs_max a i;
})

-- The middle 32 bits are a word that says when a report was sent, in 65536ths of a second.
pub compact-lt : (t : NtpTimestamp) → Ntp.compact t < 2 ^ 32
unfolding Ntp.compact
compact-lt t = omega arith
