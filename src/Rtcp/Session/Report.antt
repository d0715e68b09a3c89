-- ===== src/Rtcp/Session/Report.antt =====
-- What `RtcpSession` of src/rtp/rtcp.rs sends: the report block about the remote stream, the extended report
-- and the compound packet.
pub mod Sent
use rtp_sip_module.Prelude.{
  ℕ, zero, suc, ◌+◌, ◌-◌, ◌*◌, ◌/◌, ◌%◌, ◌^◌, Bool, true, false, not, ◌&&◌, ◌||◌, Option, none,
  some, List, [], ◌∷◌, ◌++◌, if◌then◌else◌, ltb, leb, ◌==◌, min, length,
}
use rtp_sip_module.Rtcp.{NtpTimestamp, ReportBlock, VoipMetrics}
use rtp_sip_module.Rtcp.Build.{
  build_compound_sr, build_compound_rr, build_xr_voip_metrics, build_bye,
}
use rtp_sip_module.Rtcp.Session.{Tracking, LossTracking}
use rtp_sip_module.Rtcp.Session.State.{Floats, RtcpSession}
use rtp_sip_module.Rtcp

-- `a as i32 - b as i32`, as a 32-bit word
unfoldable pub signed_diff : ℕ → ℕ → ℕ
signed_diff a b = (a % 2 ^ 32 + 2 ^ 32 - b % 2 ^ 32) % 2 ^ 32

-- `max(-0x7F_FFFF).min(0x7F_FFFF)` of a signed word
unfoldable pub clamp_lost : ℕ → ℕ
clamp_lost word =
    if ltb word (2 ^ 31)
    then min word 8388607
    else if leb (2 ^ 32 - word) 8388607
    then word
    else 2 ^ 32 - 8388607

-- `fraction_lost` of the packets expected and received since the last report
unfoldable pub fraction_lost : ℕ → ℕ → ℕ
unfolding signed_diff
fraction_lost expected_interval received_interval =
    let lost_interval : ℕ = signed_diff expected_interval received_interval in
    if (expected_interval == 0) || ((lost_interval == 0) || leb (2 ^ 31) lost_interval)
    then 0
    else min (lost_interval * 256 / expected_interval) 255

-- the delay since the last sender report in 65536ths of a second, of the elapsed microseconds
unfoldable pub compact_delay : ℕ → ℕ
compact_delay elapsed =
    min (elapsed / 1000000) 65535 * 65536 + min (elapsed % 1000000 * 65536 / 1000000) 65535

-- The extended report takes three figures of the quality estimate, which is computed in floating point.
pub record Quality : Type 0 where
  pub loss_rate : ℕ
  pub r_scaled : ℕ
  pub mos_scaled : ℕ

unfoldable pub delay_of : Option ℕ → ℕ → ℕ
unfolding compact_delay
delay_of none now = 0
delay_of (some t) now = compact_delay (now - t)

unfoldable pub rtt_ms_of : Option ℕ → ℕ
rtt_ms_of none = 0
rtt_ms_of (some rtt) = rtt / 1000 % 2 ^ 16

module _ (F : Floats) where
  -- the block about the stream of `remote_ssrc`
  unfoldable pub report_block : RtcpSession F → ℕ → ℕ → ReportBlock
  unfolding signed_diff clamp_lost fraction_lost delay_of
  report_block s now remote_ssrc =
      let expected : ℕ = s.expected_packets in
      let received : ℕ = s.tracking.packets_received in
      record {
        ssrc = remote_ssrc;
        fraction_lost =
            fraction_lost (expected - s.tracking.last_rr_expected_packets)
              (received - s.tracking.last_rr_packets_received);
        cumulative_lost = clamp_lost (signed_diff expected received);
        extended_highest_seq = s.highest_ext_seq;
        jitter = F.as_u32 s.jitter;
        last_sr = s.last_sr_ntp_compact;
        delay_since_last_sr = delay_of s.last_sr_received_at now;
      }

  -- `build_report_blocks`
  unfoldable pub build_report_blocks : RtcpSession F → ℕ → List ReportBlock
  unfolding report_block
  build_report_blocks s now = elim s.remote_ssrc [
    | none ↦ []
    | some remote_ssrc ↦ report_block s now remote_ssrc ∷ []
  ]

  -- the metrics of `build_xr`
  unfoldable pub xr_metrics : RtcpSession F → Quality → VoipMetrics
  unfolding rtt_ms_of
  xr_metrics s q = record {
    loss_rate = q.loss_rate;
    discard_rate = 0;
    burst_density = s.loss.burst_density;
    gap_density = s.loss.gap_density;
    burst_duration = 0;
    gap_duration = 0;
    round_trip_delay = rtt_ms_of s.rtt;
    end_system_delay = s.jb_nominal_ms;
    signal_level = 127;
    noise_level = 127;
    rerl = 127;
    gmin = 16;
    r_factor = q.r_scaled;
    ext_r_factor = 127;
    mos_lq = q.mos_scaled;
    mos_cq = q.mos_scaled;
    rx_config = 0;
    jb_nominal = s.jb_nominal_ms;
    jb_maximum = s.jb_maximum_ms;
    jb_abs_max = if ltb 0 s.jb_maximum_ms then s.jb_maximum_ms else 1000;
  }

  -- `build_xr`
  unfoldable pub build_xr : RtcpSession F → Quality → List ℕ
  unfolding xr_metrics build_xr_voip_metrics
  build_xr s q = elim s.remote_ssrc [
    | none ↦ []
    | some remote_ssrc ↦ build_xr_voip_metrics s.local_ssrc remote_ssrc (xr_metrics s q)
  ]

  -- the report and the description of `build_rtcp`
  unfoldable pub build_compound : RtcpSession F → ℕ → NtpTimestamp → List ℕ
  unfolding build_report_blocks build_compound_sr build_compound_rr
  build_compound s now ntp =
      if ltb 0 s.packets_sent
      then build_compound_sr s.local_ssrc ntp s.last_rtp_timestamp s.packets_sent s.octets_sent
          (build_report_blocks s now) s.cname
      else build_compound_rr s.local_ssrc (build_report_blocks s now) s.cname

  -- The extended report is added where a source is known and the buffer has 48 bytes more.
  unfoldable pub appended_xr : RtcpSession F → ℕ → ℕ → Quality → List ℕ
  unfolding build_xr
  appended_xr s len buf_len q = if leb (len + 48) buf_len then build_xr s q else []

  -- `build_rtcp`, of the time, the wall clock, the size of the buffer, the quality figures and the next
  -- interval, which is random
  unfoldable pub build_rtcp :
      RtcpSession F → ℕ → NtpTimestamp → ℕ → Quality → ℕ → RtcpSession F × List ℕ
  unfolding build_compound appended_xr
  build_rtcp s now ntp buf_len q interval =
      let compound : List ℕ = build_compound s now ntp in
      (
        record s {
          last_sr_sent_at = if ltb 0 s.packets_sent then some now else s.last_sr_sent_at;
          last_rtcp_sent = now;
          rtcp_interval = interval;
          tracking = record s.tracking {
            last_rr_packets_received = s.tracking.packets_received;
            last_rr_expected_packets = s.expected_packets;
          };
        },
        compound ++ appended_xr s (length compound) buf_len q,
      )

  -- `should_send_rtcp`
  unfoldable pub should_send_rtcp : RtcpSession F → ℕ → Bool
  should_send_rtcp s now = leb s.rtcp_interval (now - s.last_rtcp_sent)

  -- the method `build_bye`
  unfoldable pub goodbye_packet : RtcpSession F → Option (List ℕ) → List ℕ
  unfolding build_bye
  goodbye_packet s reason = build_bye (s.local_ssrc ∷ []) reason
