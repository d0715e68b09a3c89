-- ===== src/Rtcp/Session/Incoming.antt =====
-- The control packets that a session of src/rtp/rtcp.rs gets: the round-trip time, the collision of sources and
-- the peer's metrics.
use rtp_sip_module.Prelude.{
  ℕ, ◌+◌, ◌-◌, ◌*◌, ◌/◌, ◌%◌, ◌^◌, Bool, false, not, ◌&&◌, ◌||◌, Option, none, some, List, [], ◌∷◌,
  if◌then◌else◌, ltb, leb, ◌==◌,
}
use rtp_sip_module.Rtcp.{
  ReportBlock, VoipMetricsBlock, RtcpPacket, sender_report, receiver_report, source_description,
  goodbye, extended_report, unknown,
}
use rtp_sip_module.Rtcp.Ntp
use rtp_sip_module.Rtcp.Compound.{parse_rtcp_compound}
use rtp_sip_module.Rtcp.Session.State.{Floats, RtcpSession}

module _ (F : Floats) where
  -- the candidate of `calculate_rtt`, of the time and of the middle bits of the wall clock
  unfoldable pub measured_rtt : RtcpSession F → ℕ → ℕ → ReportBlock → Option ℕ
  measured_rtt s now now_compact rb = elim s.last_sr_sent_at [
    | some sent_at ↦
        let dlsr : ℕ = rb.delay_since_last_sr * 1000000 / 65536 in
        if leb dlsr (now - sent_at) then some (now - sent_at - dlsr) else none
    | none ↦ some (
        (now_compact + 2 ^ 32 - rb.last_sr + 2 ^ 32 - rb.delay_since_last_sr)
        % 2 ^ 32
        * 1000000
        / 65536)
  ]

  -- the weighted average with the estimate before
  unfoldable pub average_rtt : Option ℕ → ℕ → ℕ
  average_rtt none rtt = rtt
  average_rtt (some old) rtt = F.average old rtt

  -- `calculate_rtt`
  unfoldable pub calculate_rtt : RtcpSession F → ℕ → ℕ → ReportBlock → RtcpSession F
  unfolding measured_rtt average_rtt
  calculate_rtt s now now_compact rb = elim (measured_rtt s now now_compact rb) [
    | none ↦ s
    | some rtt ↦ if ltb rtt 30000000 then record s { rtt = some (average_rtt s.rtt rtt) } else s
  ]

  -- the loop over the report blocks
  unfoldable pub use_blocks : RtcpSession F → ℕ → ℕ → List ReportBlock → RtcpSession F
  unfolding calculate_rtt
  use_blocks s now now_compact [] = s
  use_blocks s now now_compact (rb ∷ blocks) =
      use_blocks
        (if (rb.ssrc == s.local_ssrc) && not (rb.last_sr == 0)
          then calculate_rtt s now now_compact rb
          else s)
        now now_compact blocks

  -- the metrics that an extended report leaves
  unfoldable pub keep_metrics : RtcpSession F → Option VoipMetricsBlock → RtcpSession F
  keep_metrics s none = s
  keep_metrics s (some vm) = record s { remote_voip_metrics = some vm }

  -- one packet of `process_incoming_rtcp`, with the collision that it shows
  unfoldable pub process_packet : RtcpSession F → ℕ → ℕ → RtcpPacket → RtcpSession F × Bool
  unfolding use_blocks keep_metrics Ntp.compact
  process_packet s now now_compact (sender_report sr) = (
    use_blocks
        (record s {
          last_sr_ntp_compact = Ntp.compact sr.ntp_timestamp;
          last_sr_received_at = some now;
        })
        now now_compact sr.report_blocks,
    sr.ssrc == s.local_ssrc,
  )
  process_packet s now now_compact (receiver_report rr) =
      (use_blocks s now now_compact rr.report_blocks, rr.ssrc == s.local_ssrc)
  process_packet s now now_compact (extended_report xr) = (keep_metrics s xr.voip_metrics, false)
  process_packet s now now_compact (source_description sdes) = (s, false)
  process_packet s now now_compact (goodbye bye) = (s, false)
  process_packet s now now_compact (unknown pt) = (s, false)

  -- the loop of `process_incoming_rtcp`
  unfoldable pub process_packets :
      RtcpSession F → ℕ → ℕ → Bool → List RtcpPacket → RtcpSession F × Bool
  unfolding process_packet
  process_packets s now now_compact collision [] = (s, collision)
  process_packets s now now_compact collision (p ∷ packets) =
      let after : RtcpSession F × Bool = process_packet s now now_compact p in
      process_packets after.0 now now_compact (collision || after.1) packets

  -- `process_incoming_rtcp`
  unfoldable pub process_incoming_rtcp : RtcpSession F → ℕ → ℕ → List ℕ → RtcpSession F × Bool
  unfolding process_packets parse_rtcp_compound
  process_incoming_rtcp s now now_compact data_ =
      process_packets s now now_compact false (parse_rtcp_compound data_)
