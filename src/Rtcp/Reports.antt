-- ===== src/Rtcp/Reports.antt =====
-- The parsers of src/rtp/rtcp.rs read the reports that its builders write.
use mathlib.Core.Option
use rtp_sip_module.Prelude.{
  ℕ, zero, suc, ◌+◌, ◌*◌, ◌^◌, ◌≤◌, ◌<◌, ◌≡◌, ap, ap₂, sym, ◌∙◌, some, List, [], ◌∷◌, ◌++◌, min,
  length, take, drop, length-take, length-drop, append_nil, arith,
}
use rtp_sip_module.Prelude.Bytes.{u32_at}
use rtp_sip_module.Rtcp.{
  NtpTimestamp, ReportBlock, SenderReport, sender_report, receiver_report, pt_sr, pt_rr,
}
use rtp_sip_module.Rtcp.Ntp
use rtp_sip_module.Rtcp.Fields.{NtpIsValid, word}
use rtp_sip_module.Rtcp.Blocks.{AllBlocks, parse-write_blocks, length-write_blocks}
use rtp_sip_module.Rtcp.Build.{
  write_header, write_blocks, build_sender_report, build_receiver_report,
}
use rtp_sip_module.Rtcp.Parse.{parse_blocks, parse_sender_report, parse_receiver_report}
use rtp_sip_module.Rtcp.Compound.{parse_packet, push, parse_rtcp_compound}
use rtp_sip_module.Rtcp.Framing.{parse_rtcp_compound-framed}

AllBlocks-take : (n : ℕ) (blocks : List ReportBlock) → AllBlocks blocks → AllBlocks (take n blocks)
AllBlocks-take zero blocks h = tt
AllBlocks-take (suc n) [] h = tt
AllBlocks-take (suc n) (rb ∷ blocks) h = (h.0, AllBlocks-take n blocks h.1)

first_blocks :
    (blocks : List ReportBlock)
    → AllBlocks blocks
    → parse_blocks (min (length blocks) 31) (write_blocks (take 31 blocks)) ≡ take 31 blocks
first_blocks blocks h =
    ap₂ parse_blocks (omega (arith, length-take 31 blocks))
      (sym (append_nil (write_blocks (take 31 blocks))))
    ∙ parse-write_blocks (take 31 blocks) [] (AllBlocks-take 31 blocks h)

length-first_blocks :
    (blocks : List ReportBlock)
    → length (write_blocks (take 31 blocks)) ≡ min (length blocks) 31 * 24
length-first_blocks blocks =
    omega (arith, length-write_blocks (take 31 blocks), length-take 31 blocks)

-- the report that a sender report is about, with the blocks that it has room for
abbrev pub sent_report : ℕ → NtpTimestamp → ℕ → ℕ → ℕ → List ReportBlock → SenderReport
sent_report ssrc ntp rtp_timestamp packet_count octet_count blocks = record {
  ssrc = ssrc;
  ntp_timestamp = ntp;
  rtp_timestamp = rtp_timestamp;
  packet_count = packet_count;
  octet_count = octet_count;
  report_blocks = take 31 blocks;
}

-- The words of a sender report are in range.
abbrev pub ReportIsValid : SenderReport → Type 0
ReportIsValid sr =
    (sr.ssrc < 2 ^ 32)
    × NtpIsValid sr.ntp_timestamp
    × (sr.rtp_timestamp < 2 ^ 32)
    × (sr.packet_count < 2 ^ 32)
    × (sr.octet_count < 2 ^ 32)

parse_sender_report-long :
    (bytes : List ℕ) (rc : ℕ)
    → 28 ≤ length bytes
    → parse_sender_report bytes rc
      ≡ some (record {
        ssrc = u32_at bytes 4;
        ntp_timestamp = Ntp.parse bytes 8;
        rtp_timestamp = u32_at bytes 16;
        packet_count = u32_at bytes 20;
        octet_count = u32_at bytes 24;
        report_blocks = parse_blocks rc (drop 28 bytes);
      })
unfolding parse_sender_report
parse_sender_report-long bytes rc h = ground arith

module _ (ssrc : ℕ) (ntp : NtpTimestamp) (rtp_timestamp packet_count octet_count : ℕ)
    (blocks : List ReportBlock) where
  sr_bytes : List ℕ
  sr_bytes = build_sender_report ssrc ntp rtp_timestamp packet_count octet_count blocks

  length_sr : length sr_bytes ≡ 28 + min (length blocks) 31 * 24
  unfolding sr_bytes build_sender_report write_header Ntp.write_to
  length_sr = omega (arith, length-first_blocks blocks)

  sr_packet :
      ReportIsValid (sent_report ssrc ntp rtp_timestamp packet_count octet_count blocks)
      → AllBlocks blocks
      → parse_packet pt_sr sr_bytes (min (length blocks) 31)
        ≡ some (sender_report (sent_report ssrc ntp rtp_timestamp packet_count octet_count blocks))
  unfolding sr_bytes build_sender_report write_header Ntp.write_to parse_packet Ntp.parse u32_at
  sr_packet (s, n, r, p, o) h =
      ap (λ t. Option.map sender_report t)
        (parse_sender_report-long sr_bytes (min (length blocks) 31) (omega (arith, length_sr))
          ∙ (λ i. some (record {
            ssrc = word ssrc s i;
            ntp_timestamp = record {
              seconds = word ntp.seconds n.0 i;
              fraction = word ntp.fraction n.1 i;
            };
            rtp_timestamp = word rtp_timestamp r i;
            packet_count = word packet_count p i;
            octet_count = word octet_count o i;
            report_blocks = first_blocks blocks h i;
          })))

  -- A sender report is read as itself, and then what follows it.
  pub parse-build_sr :
      (rest : List ℕ)
      → ReportIsValid (sent_report ssrc ntp rtp_timestamp packet_count octet_count blocks)
      → AllBlocks blocks
      → parse_rtcp_compound
          (build_sender_report ssrc ntp rtp_timestamp packet_count octet_count blocks ++ rest)
        ≡ sender_report (sent_report ssrc ntp rtp_timestamp packet_count octet_count blocks)
          ∷ parse_rtcp_compound rest
  unfolding sr_bytes build_sender_report write_header
  parse-build_sr rest v h =
      parse_rtcp_compound-framed rc pt_sr (6 + rc * 6) (drop 4 sr_bytes) rest (omega arith)
        (omega arith) (omega (arith, length-drop 4 sr_bytes, length_sr))
      ∙ ap (λ t. push t (parse_rtcp_compound rest)) (sr_packet v h)
    where
      rc : ℕ
      rc = min (length blocks) 31

parse_receiver_report-long :
    (bytes : List ℕ) (rc : ℕ)
    → 8 ≤ length bytes
    → parse_receiver_report bytes rc
      ≡ some (record { ssrc = u32_at bytes 4; report_blocks = parse_blocks rc (drop 8 bytes) })
unfolding parse_receiver_report
parse_receiver_report-long bytes rc h = ground arith

module _ (ssrc : ℕ) (blocks : List ReportBlock) where
  rr_bytes : List ℕ
  rr_bytes = build_receiver_report ssrc blocks

  length_rr : length rr_bytes ≡ 8 + min (length blocks) 31 * 24
  unfolding rr_bytes build_receiver_report write_header
  length_rr = omega (arith, length-first_blocks blocks)

  rr_packet :
      ssrc < 2 ^ 32
      → AllBlocks blocks
      → parse_packet pt_rr rr_bytes (min (length blocks) 31)
        ≡ some (receiver_report (record { ssrc = ssrc; report_blocks = take 31 blocks }))
  unfolding rr_bytes build_receiver_report write_header parse_packet u32_at
  rr_packet s h =
      ap (λ t. Option.map receiver_report t)
        (parse_receiver_report-long rr_bytes (min (length blocks) 31) (omega (arith, length_rr))
          ∙ (λ i. some (record { ssrc = word ssrc s i; report_blocks = first_blocks blocks h i })))

  -- A receiver report is read as itself, and then what follows it.
  pub parse-build_rr :
      (rest : List ℕ)
      → ssrc < 2 ^ 32
      → AllBlocks blocks
      → parse_rtcp_compound (build_receiver_report ssrc blocks ++ rest)
        ≡ receiver_report (record { ssrc = ssrc; report_blocks = take 31 blocks })
          ∷ parse_rtcp_compound rest
  unfolding rr_bytes build_receiver_report write_header
  parse-build_rr rest s h =
      parse_rtcp_compound-framed rc pt_rr (1 + rc * 6) (drop 4 rr_bytes) rest (omega arith)
        (omega arith) (omega (arith, length-drop 4 rr_bytes, length_rr))
      ∙ ap (λ t. push t (parse_rtcp_compound rest)) (rr_packet s h)
    where
      rc : ℕ
      rc = min (length blocks) 31
