-- ===== src/Rtcp/Block.antt =====
-- `ReportBlock` of src/rtp/rtcp.rs on the wire; `write_to` returns the bytes that it stores from the start of its
-- buffer.
use rtp_sip_module.Prelude.{ℕ, ◌+◌, ◌*◌, ◌/◌, ◌%◌, List, ◌∷◌, ◌++◌, if◌then◌else◌, ◌==◌}
use rtp_sip_module.Prelude.Bytes.{byte, u32_at, be32}
use rtp_sip_module.Rtcp.{ReportBlock}

-- The masks keep the low 24 bits of the word, high byte first.
unfoldable pub write_to : ReportBlock → List ℕ
write_to rb =
    be32 rb.ssrc
    ++ rb.fraction_lost
      ∷ rb.cumulative_lost / 65536 % 256
      ∷ rb.cumulative_lost / 256 % 256
      ∷ rb.cumulative_lost % 256
      ∷ be32 rb.extended_highest_seq
    ++ be32 rb.jitter
    ++ be32 rb.last_sr
    ++ be32 rb.delay_since_last_sr

-- the three bytes as one number
unfoldable pub cum_raw : List ℕ → ℕ
cum_raw buf = byte buf 5 * 65536 + byte buf 6 * 256 + byte buf 7

-- `cum_raw | (0xFF << 24)` where bit 23 is set
unfoldable pub sign_extend : ℕ → ℕ
sign_extend raw = if raw / 8388608 % 2 == 1 then raw + 4278190080 else raw

unfoldable pub parse : List ℕ → ReportBlock
unfolding cum_raw sign_extend u32_at
parse buf = record {
  ssrc = u32_at buf 0;
  fraction_lost = byte buf 4;
  cumulative_lost = sign_extend (cum_raw buf);
  extended_highest_seq = u32_at buf 8;
  jitter = u32_at buf 12;
  last_sr = u32_at buf 16;
  delay_since_last_sr = u32_at buf 20;
}
