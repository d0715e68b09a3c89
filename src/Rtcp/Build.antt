-- ===== src/Rtcp/Build.antt =====
-- The builders of src/rtp/rtcp.rs. Each returns the bytes that it stores from the start of its buffer, which
-- has room for them; the Rust functions return their number.
use rtp_sip_module.Prelude.{
  ℕ, ◌+◌, ◌-◌, ◌*◌, ◌/◌, ◌%◌, Bool, false, Option, none, some, List, [], ◌∷◌, ◌++◌, if◌then◌else◌,
  min, length, take, replicate,
}
use rtp_sip_module.Prelude.Bytes.{be16, be32}
use rtp_sip_module.Rtcp.{
  NtpTimestamp, ReportBlock, VoipMetrics, pt_sr, pt_rr, pt_sdes, pt_bye, pt_xr, sdes_cname,
}
use rtp_sip_module.Rtcp.Ntp
use rtp_sip_module.Rtcp.Block
use rtp_sip_module.Rtcp.Metrics

-- `write_header`; the bits that the first byte joins are apart
unfoldable pub write_header : ℕ → Bool → ℕ → ℕ → ℕ → List ℕ
write_header version padding rc pt length_words =
    (version * 64 % 256 + (if padding then 32 else 0) + rc % 32) ∷ pt ∷ be16 length_words

-- `for rb in report_blocks { rb.write_to(..) }`, one after the other
unfoldable pub write_blocks : List ReportBlock → List ℕ
unfolding Block.write_to
write_blocks [] = []
write_blocks (rb ∷ blocks) = Block.write_to rb ++ write_blocks blocks

-- `for ssrc in sources`
unfoldable pub write_sources : List ℕ → List ℕ
write_sources [] = []
write_sources (ssrc ∷ sources) = be32 ssrc ++ write_sources sources

-- `(n + 3) & !3`
abbrev pub align : ℕ → ℕ
align n = (n + 3) / 4 * 4

-- `build_sender_report`
unfoldable pub build_sender_report : ℕ → NtpTimestamp → ℕ → ℕ → ℕ → List ReportBlock → List ℕ
unfolding write_header write_blocks Ntp.write_to
build_sender_report ssrc ntp rtp_timestamp packet_count octet_count report_blocks =
    let rc : ℕ = min (length report_blocks) 31 in
    write_header 2 false rc pt_sr (6 + rc * 6)
    ++ be32 ssrc
    ++ Ntp.write_to ntp
    ++ be32 rtp_timestamp
    ++ be32 packet_count
    ++ be32 octet_count
    ++ write_blocks (take 31 report_blocks)

-- `build_receiver_report`
unfoldable pub build_receiver_report : ℕ → List ReportBlock → List ℕ
unfolding write_header write_blocks
build_receiver_report ssrc report_blocks =
    let rc : ℕ = min (length report_blocks) 31 in
    write_header 2 false rc pt_rr (1 + rc * 6) ++ be32 ssrc ++ write_blocks (take 31 report_blocks)

-- `build_sdes_cname`, of the bytes of the name
unfoldable pub build_sdes_cname : ℕ → List ℕ → List ℕ
unfolding write_header
build_sdes_cname ssrc cname =
    let cname_len : ℕ = min (length cname) 255 in
    let items_len : ℕ = 2 + cname_len + 1 in
    let padded_items_len : ℕ = align items_len in
    let total_len : ℕ = 4 + 4 + padded_items_len in
    write_header 2 false 1 pt_sdes (total_len / 4 - 1)
    ++ be32 ssrc
    ++ sdes_cname ∷ cname_len ∷ take cname_len cname
    ++ replicate (4 + 4 + padded_items_len - (10 + cname_len)) 0

-- the room of the reason in a goodbye
unfoldable pub reason_len : Option (List ℕ) → ℕ
reason_len none = 0
reason_len (some r) = align (1 + min (length r) 255)

unfoldable pub write_reason : Option (List ℕ) → List ℕ
unfolding reason_len
write_reason none = []
write_reason (some r) =
    let len : ℕ = min (length r) 255 in
    len ∷ take len r ++ replicate (reason_len (some r) - (1 + len)) 0

-- `build_bye`
unfoldable pub build_bye : List ℕ → Option (List ℕ) → List ℕ
unfolding write_header write_sources reason_len write_reason
build_bye sources reason =
    let sc : ℕ = min (length sources) 31 in
    let total_len : ℕ = 4 + sc * 4 + reason_len reason in
    write_header 2 false sc pt_bye (total_len / 4 - 1)
    ++ write_sources (take 31 sources)
    ++ write_reason reason

-- `build_compound_sr`
unfoldable pub build_compound_sr : ℕ → NtpTimestamp → ℕ → ℕ → ℕ → List ReportBlock → List ℕ → List ℕ
unfolding build_sender_report build_sdes_cname
build_compound_sr ssrc ntp rtp_timestamp packet_count octet_count report_blocks cname =
    build_sender_report ssrc ntp rtp_timestamp packet_count octet_count report_blocks
    ++ build_sdes_cname ssrc cname

-- `build_compound_rr`
unfoldable pub build_compound_rr : ℕ → List ReportBlock → List ℕ → List ℕ
unfolding build_receiver_report build_sdes_cname
build_compound_rr ssrc report_blocks cname =
    build_receiver_report ssrc report_blocks ++ build_sdes_cname ssrc cname

-- `build_xr_voip_metrics`: 44 bytes, 10 words after the first, and a block of 8 words after its header
unfoldable pub build_xr_voip_metrics : ℕ → ℕ → VoipMetrics → List ℕ
unfolding write_header Metrics.write_to
build_xr_voip_metrics ssrc remote_ssrc metrics =
    write_header 2 false 0 pt_xr (44 / 4 - 1)
    ++ be32 ssrc
    ++ 7 ∷ 0 ∷ be16 8
    ++ be32 remote_ssrc
    ++ Metrics.write_to metrics
