-- ===== src/Rtcp.antt =====
-- The RTCP packets of src/rtp/rtcp.rs: their data, the wire format and the statistics of a session.
mod Tests
pub mod Ntp
pub mod Block
pub mod Metrics
pub mod Fields
pub mod Build
pub mod Parse
pub mod Compound
pub mod Blocks
pub mod Framing
pub mod Reports
pub mod Texts
pub mod Goodbyes
pub mod Roundtrip
pub mod Session
use rtp_sip_module.Prelude.{ℕ, Option, List}

-- `NtpTimestamp`
pub record NtpTimestamp : Type 0 where
  pub seconds : ℕ
  pub fraction : ℕ

-- `ReportBlock`; the i32 `cumulative_lost` is kept as its 32-bit word
pub record ReportBlock : Type 0 where
  pub ssrc : ℕ
  pub fraction_lost : ℕ
  pub cumulative_lost : ℕ
  pub extended_highest_seq : ℕ
  pub jitter : ℕ
  pub last_sr : ℕ
  pub delay_since_last_sr : ℕ

-- `SenderReport`
pub record SenderReport : Type 0 where
  pub ssrc : ℕ
  pub ntp_timestamp : NtpTimestamp
  pub rtp_timestamp : ℕ
  pub packet_count : ℕ
  pub octet_count : ℕ
  pub report_blocks : List ReportBlock

-- `ReceiverReport`
pub record ReceiverReport : Type 0 where
  pub ssrc : ℕ
  pub report_blocks : List ReportBlock

-- `SdesChunk`; a string is its bytes
pub record SdesChunk : Type 0 where
  pub ssrc : ℕ
  pub cname : Option (List ℕ)

-- `SourceDescription`
pub record SourceDescription : Type 0 where
  pub chunks : List SdesChunk

-- `Goodbye`
pub record Goodbye : Type 0 where
  pub sources : List ℕ
  pub reason : Option (List ℕ)

-- `VoipMetrics`
pub record VoipMetrics : Type 0 where
  pub loss_rate : ℕ
  pub discard_rate : ℕ
  pub burst_density : ℕ
  pub gap_density : ℕ
  pub burst_duration : ℕ
  pub gap_duration : ℕ
  pub round_trip_delay : ℕ
  pub end_system_delay : ℕ
  pub signal_level : ℕ
  pub noise_level : ℕ
  pub rerl : ℕ
  pub gmin : ℕ
  pub r_factor : ℕ
  pub ext_r_factor : ℕ
  pub mos_lq : ℕ
  pub mos_cq : ℕ
  pub rx_config : ℕ
  pub jb_nominal : ℕ
  pub jb_maximum : ℕ
  pub jb_abs_max : ℕ

-- `VoipMetricsBlock`
pub record VoipMetricsBlock : Type 0 where
  pub source_ssrc : ℕ
  pub metrics : VoipMetrics

-- `ExtendedReport`
pub record ExtendedReport : Type 0 where
  pub ssrc : ℕ
  pub voip_metrics : Option VoipMetricsBlock

-- `RtcpPacket`
pub data RtcpPacket : Type 0 where
  sender_report : SenderReport → RtcpPacket
  receiver_report : ReceiverReport → RtcpPacket
  source_description : SourceDescription → RtcpPacket
  goodbye : Goodbye → RtcpPacket
  extended_report : ExtendedReport → RtcpPacket
  unknown : ℕ → RtcpPacket

-- the packet types and the item type of the name
abbrev pub pt_sr : ℕ
pt_sr = 200

abbrev pub pt_rr : ℕ
pt_rr = 201

abbrev pub pt_sdes : ℕ
pt_sdes = 202

abbrev pub pt_bye : ℕ
pt_bye = 203

abbrev pub pt_xr : ℕ
pt_xr = 207

abbrev pub sdes_cname : ℕ
sdes_cname = 1
