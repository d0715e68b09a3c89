-- ===== src/Rtcp/Session/State.antt =====
-- The state of `RtcpSession` and what it does with packets, src/rtp/rtcp.rs. Floating point is a parameter: the
-- type of the jitter estimate with its two operations, and the averaging of the round-trip time. Instants and
-- durations are microseconds.
use rtp_sip_module.Prelude.{
  ℕ, ◌+◌, ◌-◌, ◌*◌, ◌/◌, ◌%◌, ◌^◌, Bool, true, Option, none, some, List, if◌then◌else◌, ltb, ◌==◌,
  replicate,
}
use rtp_sip_module.Rtcp.{VoipMetricsBlock}
use rtp_sip_module.Rtcp.Session.{Tracking, LossTracking, fresh_tracking, track, detect_gap}
use rtp_sip_module.Rtcp.Session

-- the arithmetic on `f64` that the session uses
pub record Floats : Type 1 where
  pub Jitter : Type 0
  pub no_jitter : Jitter
  -- `jitter += (d - jitter) / 16.0`
  pub smooth : Jitter → ℕ → Jitter
  -- `jitter as u32`
  pub as_u32 : Jitter → ℕ
  -- `old * 0.7 + new * 0.3` on durations
  pub average : ℕ → ℕ → ℕ

-- `RtcpSession`
pub record RtcpSession (F : Floats) : Type 0 where
  pub local_ssrc : ℕ
  pub cname : List ℕ
  pub packets_sent : ℕ
  pub octets_sent : ℕ
  pub last_rtp_timestamp : ℕ
  pub remote_ssrc : Option ℕ
  pub tracking : Tracking
  pub expected_packets : ℕ
  pub highest_ext_seq : ℕ
  pub jitter : F.Jitter
  pub last_recv_rtp_ts : ℕ
  pub last_recv_time : Option ℕ
  pub last_sr_ntp_compact : ℕ
  pub last_sr_received_at : Option ℕ
  pub rtt : Option ℕ
  pub last_sr_sent_at : Option ℕ
  pub clock_rate : ℕ
  pub jb_nominal_ms : ℕ
  pub jb_maximum_ms : ℕ
  pub remote_voip_metrics : Option VoipMetricsBlock
  pub rtcp_interval : ℕ
  pub last_rtcp_sent : ℕ
  pub loss : LossTracking

-- `remote_ssrc.is_none() || remote_ssrc == Some(ssrc)`
unfoldable pub follows : Option ℕ → ℕ → Bool
follows none ssrc = true
follows (some remote) ssrc = remote == ssrc

-- `(arrival_diff_ts - rtp_diff_ts).abs()`, where the second is a signed 32-bit word
unfoldable pub transit_change : ℕ → ℕ → ℕ
transit_change arrival_diff_ts word =
    if ltb word (2 ^ 31)
    then (arrival_diff_ts - word) + (word - arrival_diff_ts)
    else arrival_diff_ts + (2 ^ 32 - word)

module _ (F : Floats) where
  -- `with_clock_rate`, of the random interval and the current time
  unfoldable pub with_clock_rate : ℕ → List ℕ → ℕ → ℕ → ℕ → RtcpSession F
  unfolding fresh_tracking
  with_clock_rate local_ssrc cname clock_rate interval now = record {
    local_ssrc = local_ssrc;
    cname = cname;
    packets_sent = 0;
    octets_sent = 0;
    last_rtp_timestamp = 0;
    remote_ssrc = none;
    tracking = fresh_tracking;
    expected_packets = 0;
    highest_ext_seq = 0;
    jitter = F.no_jitter;
    last_recv_rtp_ts = 0;
    last_recv_time = none;
    last_sr_ntp_compact = 0;
    last_sr_received_at = none;
    rtt = none;
    last_sr_sent_at = none;
    clock_rate = clock_rate;
    jb_nominal_ms = 0;
    jb_maximum_ms = 0;
    remote_voip_metrics = none;
    rtcp_interval = interval;
    last_rtcp_sent = now - interval / 2;
    loss = record {
      loss_window = replicate 256 true;
      loss_window_len = 0;
      burst_density = 0;
      gap_density = 0;
    };
  }

  -- `record_rtp_sent`
  unfoldable pub record_rtp_sent : RtcpSession F → ℕ → ℕ → RtcpSession F
  record_rtp_sent s payload_bytes rtp_timestamp = record s {
    packets_sent = (s.packets_sent + 1) % 2 ^ 32;
    octets_sent = (s.octets_sent + payload_bytes) % 2 ^ 32;
    last_rtp_timestamp = rtp_timestamp;
  }

  -- `reset_receiver`; the window of losses stays
  unfoldable pub reset_receiver : RtcpSession F → ℕ → RtcpSession F
  unfolding fresh_tracking
  reset_receiver s new_ssrc = record s {
    remote_ssrc = some new_ssrc;
    tracking = fresh_tracking;
    expected_packets = 0;
    highest_ext_seq = 0;
    jitter = F.no_jitter;
    last_recv_rtp_ts = 0;
    last_recv_time = none;
    last_sr_ntp_compact = 0;
    last_sr_received_at = none;
    rtt = none;
  }

  -- the jitter estimate of `record_rtp_received`
  unfoldable pub next_jitter : RtcpSession F → ℕ → ℕ → F.Jitter
  unfolding transit_change
  next_jitter s now rtp_timestamp = elim s.last_recv_time [
    | none ↦ s.jitter
    | some last_time ↦ F.smooth s.jitter (
        transit_change ((now - last_time) * s.clock_rate / 1000000)
          ((rtp_timestamp + 2 ^ 32 - s.last_recv_rtp_ts) % 2 ^ 32))
  ]

  -- the rest of `record_rtp_received`, once the source is the one that is followed
  unfoldable pub count_packet : RtcpSession F → ℕ → ℕ → ℕ → RtcpSession F
  unfolding track detect_gap next_jitter Session.highest_ext_seq Session.expected_packets
  count_packet s now seq rtp_timestamp = record s {
    tracking = track s.tracking seq;
    loss = detect_gap s.tracking s.loss seq;
    highest_ext_seq = Session.highest_ext_seq (track s.tracking seq);
    expected_packets = Session.expected_packets (track s.tracking seq);
    jitter = next_jitter s now rtp_timestamp;
    last_recv_rtp_ts = rtp_timestamp;
    last_recv_time = some now;
  }

  -- `record_rtp_received`
  unfoldable pub record_rtp_received : RtcpSession F → ℕ → ℕ → ℕ → ℕ → RtcpSession F
  unfolding count_packet follows reset_receiver
  record_rtp_received s now ssrc seq rtp_timestamp =
      count_packet
        (if follows s.remote_ssrc ssrc
          then record s { remote_ssrc = some ssrc }
          else reset_receiver s ssrc)
        now seq rtp_timestamp
