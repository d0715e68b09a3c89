-- ===== src/Nat/Demux/Built.antt =====
-- What the builders of src/rtp/rtcp.rs and src/nat/stun/message.rs write, at the demultiplexer of
-- src/nat/demux.rs.
use rtp_sip_module.Prelude.{
  ℕ, ◌+◌, ◌*◌, ◌^◌, ◌≤◌, ◌<◌, ◌≡◌, false, List, ◌++◌, min, length, take, drop, length-append,
  length-take, arith,
}
use rtp_sip_module.Prelude.Bytes.{u16_at, u32_at, be16}
use rtp_sip_module.Rtcp.{NtpTimestamp, ReportBlock, pt_sr, pt_rr}
use rtp_sip_module.Rtcp.Ntp
use rtp_sip_module.Rtcp.Build.{
  write_header, write_blocks, build_sender_report, build_receiver_report, build_sdes_cname,
  build_compound_sr, build_compound_rr,
}
use rtp_sip_module.Rtcp.Blocks.{length-write_blocks}
use rtp_sip_module.Stun.Attribute.{cookie_bytes}
use rtp_sip_module.Stun.Message.{StunMessage, header, encode_all, fingerprint, marshal}
use rtp_sip_module.Nat.Demux.{DemuxResult, demux_media, demux_packet}

rtcp_framed :
    (rc pt words : ℕ) (body : List ℕ)
    → rc ≤ 31
    → 200 ≤ pt
    → pt ≤ 211
    → 0 < words
    → words < 2 ^ 16
    → words * 4 ≤ length body
    → demux_packet (write_header 2 false rc pt words ++ body)
      ≡ DemuxResult.rtcp (write_header 2 false rc pt words ++ body)
unfolding demux_packet demux_media write_header u16_at
rtcp_framed rc pt words body r l u p w h = ground arith

length_blocks :
    (blocks : List ReportBlock)
    → length (write_blocks (take 31 blocks)) ≡ min (length blocks) 31 * 24
length_blocks blocks = omega (arith, length-write_blocks (take 31 blocks), length-take 31 blocks)

-- A compound packet that `build_compound_sr` or `build_compound_rr` writes is taken for RTCP by
-- `demux_packet`, whatever the words of the report, however many blocks there are, and whatever the name.
pub demux_packet-build_compound :
    (ssrc : ℕ) (ntp : NtpTimestamp) (rtp_timestamp packet_count octet_count : ℕ)
    (blocks : List ReportBlock) (cname : List ℕ)
    → let sr = build_compound_sr ssrc ntp rtp_timestamp packet_count octet_count blocks cname in
      let rr = build_compound_rr ssrc blocks cname in
      (demux_packet sr ≡ DemuxResult.rtcp sr) × (demux_packet rr ≡ DemuxResult.rtcp rr)
unfolding build_compound_sr build_compound_rr build_sender_report build_receiver_report write_header
    Ntp.write_to
demux_packet-build_compound ssrc ntp rtp_timestamp packet_count octet_count blocks cname =
    let sdes = build_sdes_cname ssrc cname in
    let rc : ℕ = min (length blocks) 31 in
    let all = length-append {0} (write_blocks (take 31 blocks)) sdes in
    (
      rtcp_framed rc pt_sr (6 + rc * 6)
          (drop 4
            (build_sender_report ssrc ntp rtp_timestamp packet_count octet_count blocks ++ sdes))
          (omega arith) (omega arith) (omega arith) (omega arith) (omega arith)
          (omega (arith, all, length_blocks blocks)),
      rtcp_framed rc pt_rr (1 + rc * 6) (drop 4 (build_receiver_report ssrc blocks ++ sdes))
          (omega arith) (omega arith) (omega arith) (omega arith) (omega arith)
          (omega (arith, all, length_blocks blocks)),
    )

stun_header :
    (msg_type len : ℕ) (rest : List ℕ)
    → msg_type < 2 ^ 14
    → demux_packet (be16 msg_type ++ (be16 len ++ (cookie_bytes ++ rest)))
      ≡ DemuxResult.stun (be16 msg_type ++ (be16 len ++ (cookie_bytes ++ rest)))
unfolding demux_packet u32_at
stun_header msg_type len rest t = ground arith

-- A message whose type has its two top bits zero, as STUN asks, is taken for STUN by `demux_packet` after
-- `marshal`, whatever its attributes.
pub demux_packet-marshal :
    (crc32 : List ℕ → ℕ) (m : StunMessage)
    → m.msg_type < 2 ^ 14
    → demux_packet (marshal crc32 m) ≡ DemuxResult.stun (marshal crc32 m)
unfolding marshal header
demux_packet-marshal crc32 m t =
    let attr_bytes = encode_all m.attributes m.transaction_id in
    let len = length attr_bytes + 8 in
    let buf = header m.msg_type len m.transaction_id ++ attr_bytes in
    stun_header m.msg_type len ((m.transaction_id ++ attr_bytes) ++ fingerprint crc32 buf) t
