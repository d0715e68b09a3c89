-- ===== src/Rtcp/Roundtrip.antt =====
-- The round trips of src/rtp/rtcp.rs: what its builders write is what its parsers read.
use mathlib.Core.Option
use rtp_sip_module.Prelude.{
  ℕ, ◌^◌, ◌<◌, ◌≡◌, refl, ap, ap₂, sym, ◌∙◌, true, Option, none, some, List, [], ◌∷◌, ◌++◌, take,
  drop, append_nil, arith,
}
use rtp_sip_module.Prelude.Bytes.{u16_at, u32_at, be32}
use rtp_sip_module.Prelude.Utf8.{is_utf8}
use rtp_sip_module.Rtcp.{
  NtpTimestamp, ReportBlock, VoipMetrics, RtcpPacket, sender_report, receiver_report,
  source_description, goodbye, extended_report, pt_xr,
}
use rtp_sip_module.Rtcp.Metrics
use rtp_sip_module.Rtcp.Fields.{MetricsIsValid, parse-write_metrics, word}
use rtp_sip_module.Rtcp.Blocks.{AllBlocks}
use rtp_sip_module.Rtcp.Build.{
  write_header, build_compound_sr, build_compound_rr, build_bye, build_xr_voip_metrics,
  build_sdes_cname,
}
use rtp_sip_module.Rtcp.Compound.{
  parse_packet, push, parse_rtcp_compound, parse_xr, parse_xr_blocks, read_metrics, block_data_len,
}
use rtp_sip_module.Rtcp.Framing.{parse_rtcp_compound-framed}
use rtp_sip_module.Rtcp.Reports.{sent_report, ReportIsValid, parse-build_sr, parse-build_rr}
use rtp_sip_module.Rtcp.Texts.{parse-build_sdes}
use rtp_sip_module.Rtcp.Goodbyes.{AllWords, ReasonIsText, sent_reason, parse-build_bye}

-- the description that follows a report
abbrev pub described : ℕ → List ℕ → RtcpPacket
described ssrc cname =
    source_description
      (record { chunks = record { ssrc = ssrc; cname = some (take 255 cname) } ∷ [] })

pub nothing_left : parse_rtcp_compound [] ≡ []
unfolding parse_rtcp_compound
nothing_left = refl

described_alone :
    (ssrc : ℕ) (cname : List ℕ)
    → ssrc < 2 ^ 32
    → is_utf8 (take 255 cname) ≡ true
    → parse_rtcp_compound (build_sdes_cname ssrc cname) ≡ described ssrc cname ∷ []
described_alone ssrc cname s h =
    ap parse_rtcp_compound (sym (append_nil (build_sdes_cname ssrc cname)))
    ∙ parse-build_sdes ssrc cname [] s h
    ∙ ap (λ t. described ssrc cname ∷ t) nothing_left

-- A compound packet with a sender report whose words are in range, and with a name whose first 255 bytes
-- are valid UTF-8, is parsed to that report with its first 31 blocks and to the description with those
-- bytes of the name, and to nothing else. The loss count of each block may be any signed number of 24
-- bits.
pub parse-build_compound_sr :
    (ssrc : ℕ) (ntp : NtpTimestamp) (rtp_timestamp packet_count octet_count : ℕ)
    (blocks : List ReportBlock) (cname : List ℕ)
    → ReportIsValid (sent_report ssrc ntp rtp_timestamp packet_count octet_count blocks)
    → AllBlocks blocks
    → is_utf8 (take 255 cname) ≡ true
    → parse_rtcp_compound
        (build_compound_sr ssrc ntp rtp_timestamp packet_count octet_count blocks cname)
      ≡ sender_report (sent_report ssrc ntp rtp_timestamp packet_count octet_count blocks)
        ∷ described ssrc cname
        ∷ []
unfolding build_compound_sr
parse-build_compound_sr ssrc ntp rtp_timestamp packet_count octet_count blocks cname v b h =
    parse-build_sr ssrc ntp rtp_timestamp packet_count octet_count blocks
      (build_sdes_cname ssrc cname) v b
    ∙ ap
        (λ t.
          sender_report (sent_report ssrc ntp rtp_timestamp packet_count octet_count blocks) ∷ t)
        (described_alone ssrc cname v.0 h)

-- A compound packet with a receiver report is parsed to that report with its first 31 blocks and to the
-- description with the first 255 bytes of the name, where these are valid UTF-8 and the words of the
-- report are in range.
pub parse-build_compound_rr :
    (ssrc : ℕ) (blocks : List ReportBlock) (cname : List ℕ)
    → ssrc < 2 ^ 32
    → AllBlocks blocks
    → is_utf8 (take 255 cname) ≡ true
    → parse_rtcp_compound (build_compound_rr ssrc blocks cname)
      ≡ receiver_report (record { ssrc = ssrc; report_blocks = take 31 blocks })
        ∷ described ssrc cname
        ∷ []
unfolding build_compound_rr
parse-build_compound_rr ssrc blocks cname s b h =
    parse-build_rr ssrc blocks (build_sdes_cname ssrc cname) s b
    ∙ ap (λ t. receiver_report (record { ssrc = ssrc; report_blocks = take 31 blocks }) ∷ t)
        (described_alone ssrc cname s h)

-- A goodbye with or without a reason is parsed to its first 31 sources and the first 255 bytes of the
-- reason, where these are valid UTF-8 and the sources are 32-bit words.
pub parse_rtcp_compound-build_bye :
    (sources : List ℕ) (reason : Option (List ℕ))
    → AllWords sources
    → ReasonIsText reason
    → parse_rtcp_compound (build_bye sources reason)
      ≡ goodbye (record { sources = take 31 sources; reason = sent_reason reason }) ∷ []
parse_rtcp_compound-build_bye sources reason w t =
    ap parse_rtcp_compound (sym (append_nil (build_bye sources reason)))
    ∙ parse-build_bye sources reason [] w t
    ∙ ap (λ p. goodbye (record { sources = take 31 sources; reason = sent_reason reason }) ∷ p)
        nothing_left

xr_block :
    (remote_ssrc : ℕ) (metrics : VoipMetrics)
    → remote_ssrc < 2 ^ 32
    → MetricsIsValid metrics
    → read_metrics (be32 remote_ssrc ++ Metrics.write_to metrics) none
      ≡ some (record { source_ssrc = remote_ssrc; metrics = metrics })
unfolding read_metrics u32_at Metrics.write_to Metrics.parse
xr_block remote_ssrc metrics s v =
    ap₂ (λ src o. Option.map (λ m. record { source_ssrc = src; metrics = m }) o) {y = remote_ssrc}
      (word remote_ssrc s) (parse-write_metrics metrics v)

xr_packet :
    (ssrc remote_ssrc : ℕ) (metrics : VoipMetrics)
    → ssrc < 2 ^ 32
    → remote_ssrc < 2 ^ 32
    → MetricsIsValid metrics
    → parse_packet pt_xr (build_xr_voip_metrics ssrc remote_ssrc metrics) 0
      ≡ some (
          extended_report (record {
            ssrc = ssrc;
            voip_metrics = some (record { source_ssrc = remote_ssrc; metrics = metrics });
          }))
unfolding parse_packet parse_xr u32_at build_xr_voip_metrics write_header Metrics.write_to
    parse_xr_blocks block_data_len u16_at
xr_packet ssrc remote_ssrc metrics s r v = λ i. some (
    extended_report
      (record { ssrc = word ssrc s i; voip_metrics = xr_block remote_ssrc metrics r v i }))

-- An extended report with metrics in range is parsed to those metrics, about the same source.
pub parse_rtcp_compound-build_xr :
    (ssrc remote_ssrc : ℕ) (metrics : VoipMetrics)
    → ssrc < 2 ^ 32
    → remote_ssrc < 2 ^ 32
    → MetricsIsValid metrics
    → parse_rtcp_compound (build_xr_voip_metrics ssrc remote_ssrc metrics)
      ≡ extended_report (record {
        ssrc = ssrc;
        voip_metrics = some (record { source_ssrc = remote_ssrc; metrics = metrics });
      })
        ∷ []
unfolding build_xr_voip_metrics Metrics.write_to write_header
parse_rtcp_compound-build_xr ssrc remote_ssrc metrics s r v =
    parse_rtcp_compound-framed 0 pt_xr 10 (drop 4 (build_xr_voip_metrics ssrc remote_ssrc metrics))
      [] (omega arith) (omega arith) refl
    ∙ ap (λ p. push p (parse_rtcp_compound [])) (xr_packet ssrc remote_ssrc metrics s r v)
    ∙ ap
        (λ t.
          extended_report (record {
            ssrc = ssrc;
            voip_metrics = some (record { source_ssrc = remote_ssrc; metrics = metrics });
          })
          ∷ t)
        nothing_left
