-- ===== src/Rtcp/Ntp.antt =====
-- `NtpTimestamp` of src/rtp/rtcp.rs on the wire; `write_to` returns the bytes that it stores from the start of its
-- buffer.
use rtp_sip_module.Prelude.{ℕ, ◌+◌, ◌*◌, ◌/◌, ◌%◌, List, ◌++◌}
use rtp_sip_module.Prelude.Bytes.{u32_at, be32}
use rtp_sip_module.Rtcp.{NtpTimestamp}

-- `compact`
unfoldable pub compact : NtpTimestamp → ℕ
compact t = t.seconds % 65536 * 65536 + t.fraction / 65536 % 65536

unfoldable pub write_to : NtpTimestamp → List ℕ
write_to t = be32 t.seconds ++ be32 t.fraction

-- `parse` of the slice from `i` on
unfoldable pub parse : List ℕ → ℕ → NtpTimestamp
unfolding u32_at
parse buf i = record { seconds = u32_at buf i; fraction = u32_at buf (i + 4) }
