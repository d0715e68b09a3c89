-- ===== src/Rtcp/Session/Report/Sent.antt =====
-- What a peer reads of the packets that a session of src/rtp/rtcp.rs sends.
use rtp_sip_module.Prelude.{
  ℕ, ◌+◌, ◌^◌, ◌<◌, ◌≤◌, ◌≡◌, ◌⊎◌, refl, ap, ◌∙◌, inl, inr, Option-cases, Bool-cases, true, Option,
  none, some, List, [], ◌∷◌, ◌++◌, if◌then◌else◌, ltb, leb, length, take, append_assoc, arith,
}
use rtp_sip_module.Prelude.Utf8.{is_utf8}
use rtp_sip_module.Rtcp.{NtpTimestamp, RtcpPacket, sender_report, receiver_report, extended_report}
use rtp_sip_module.Rtcp.Fields.{BlockIsValid, MetricsIsValid, NtpIsValid}
use rtp_sip_module.Rtcp.Blocks.{AllBlocks}
use rtp_sip_module.Rtcp.Build.{
  build_sender_report, build_receiver_report, build_sdes_cname, build_compound_sr,
  build_compound_rr, build_xr_voip_metrics,
}
use rtp_sip_module.Rtcp.Reports.{sent_report, parse-build_sr, parse-build_rr}
use rtp_sip_module.Rtcp.Texts.{parse-build_sdes}
use rtp_sip_module.Rtcp.Roundtrip.{described, nothing_left, parse_rtcp_compound-build_xr}
use rtp_sip_module.Rtcp.Compound.{parse_rtcp_compound}
use rtp_sip_module.Rtcp.Session.State.{Floats, RtcpSession}
use rtp_sip_module.Rtcp.Session.Report.{
  signed_diff, clamp_lost, fraction_lost, compact_delay, Quality, delay_of, rtt_ms_of, report_block,
  build_report_blocks, xr_metrics, build_xr, build_compound, appended_xr, build_rtcp,
}

clamp-IsSigned :
    (w : ℕ)
    → w < 2 ^ 32
    → (clamp_lost w < 8388608) ⊎ ((4286578688 ≤ clamp_lost w) × (clamp_lost w < 2 ^ 32))
unfolding clamp_lost
clamp-IsSigned w h = ground arith

pub fraction_lost-le : (e r : ℕ) → fraction_lost e r ≤ 255
unfolding fraction_lost
fraction_lost-le e r = ground arith

delay-lt : (t : Option ℕ) (now : ℕ) → delay_of t now < 2 ^ 32
unfolding delay_of compact_delay
delay-lt none now = omega arith
delay-lt (some t) now = omega arith

-- The words that a session keeps are in range.
pub record IsInRange (F : Floats) (s : RtcpSession F) : Type 0 where
  pub local_ssrc : s.local_ssrc < 2 ^ 32
  pub packets_sent : s.packets_sent < 2 ^ 32
  pub octets_sent : s.octets_sent < 2 ^ 32
  pub last_rtp_timestamp : s.last_rtp_timestamp < 2 ^ 32
  pub highest_ext_seq : s.highest_ext_seq < 2 ^ 32
  pub last_sr_ntp_compact : s.last_sr_ntp_compact < 2 ^ 32
  pub jb_nominal_ms : s.jb_nominal_ms < 2 ^ 16
  pub jb_maximum_ms : s.jb_maximum_ms < 2 ^ 16
  pub remote_ssrc : (r : ℕ) → s.remote_ssrc ≡ some r → r < 2 ^ 32
  pub jitter : F.as_u32 s.jitter < 2 ^ 32

module _ (F : Floats) (s : RtcpSession F) (ok : IsInRange F s) where
  report_block-IsValid :
      (now remote : ℕ) → remote < 2 ^ 32 → BlockIsValid (report_block F s now remote)
  unfolding report_block signed_diff
  report_block-IsValid now remote h = (
    h,
    clamp-IsSigned (signed_diff s.expected_packets s.tracking.packets_received) (omega arith),
    ok.highest_ext_seq,
    ok.jitter,
    ok.last_sr_ntp_compact,
    delay-lt s.last_sr_received_at now,
  )

  AllBlocks-built : (now : ℕ) → AllBlocks (build_report_blocks F s now)
  unfolding build_report_blocks
  AllBlocks-built now = elim (Option-cases s.remote_ssrc) [
    | inl e ↦ rw (e, build_report_blocks) tt
    | inr (r, e) ↦ rw (e, build_report_blocks) (report_block-IsValid now r (ok.remote_ssrc r e), tt)
  ]

  metrics-IsValid : (q : Quality) → MetricsIsValid (xr_metrics F s q)
  unfolding xr_metrics
  metrics-IsValid q = (
    omega arith,
    omega arith,
    rtt-lt s.rtt,
    ok.jb_nominal_ms,
    ok.jb_nominal_ms,
    ok.jb_maximum_ms,
    abs-lt,
  )
    where
      rtt-lt : (rtt : Option ℕ) → rtt_ms_of rtt < 2 ^ 16
      rtt-lt none = omega arith
      rtt-lt (some t) = omega arith

      abs-lt : (if ltb 0 s.jb_maximum_ms then s.jb_maximum_ms else 1000) < 2 ^ 16
      abs-lt = ground (arith, ok.jb_maximum_ms)

-- the report that a session sends: a sender's once it has sent a packet
abbrev pub report_of : (F : Floats) → RtcpSession F → ℕ → NtpTimestamp → RtcpPacket
report_of F s now ntp =
    if ltb 0 s.packets_sent
    then sender_report (
        sent_report s.local_ssrc ntp s.last_rtp_timestamp s.packets_sent s.octets_sent
          (build_report_blocks F s now))
    else receiver_report
        (record { ssrc = s.local_ssrc; report_blocks = take 31 (build_report_blocks F s now) })

-- the extended report about the source, if there is one
abbrev pub extended_of : (F : Floats) → RtcpSession F → Quality → List RtcpPacket
extended_of F s q = elim s.remote_ssrc [
  | none ↦ []
  | some remote ↦
      extended_report (record {
        ssrc = s.local_ssrc;
        voip_metrics = some (record { source_ssrc = remote; metrics = xr_metrics F s q });
      })
      ∷ []
]

module _ (F : Floats) (s : RtcpSession F) (ok : IsInRange F s)
    (text : is_utf8 (take 255 s.cname) ≡ true) where
  compound_read :
      (now : ℕ) (ntp : NtpTimestamp) (rest : List ℕ)
      → NtpIsValid ntp
      → parse_rtcp_compound (build_compound F s now ntp ++ rest)
        ≡ report_of F s now ntp ∷ described s.local_ssrc s.cname ∷ parse_rtcp_compound rest
  unfolding build_compound build_compound_sr build_compound_rr
  compound_read now ntp rest v = elim (Bool-cases (ltb 0 s.packets_sent)) [
    | inl e ↦
        rw (e, build_compound)
          (ap parse_rtcp_compound (
              append_assoc
                (build_sender_report s.local_ssrc ntp s.last_rtp_timestamp s.packets_sent
                  s.octets_sent (build_report_blocks F s now))
                (build_sdes_cname s.local_ssrc s.cname) rest)
            ∙ parse-build_sr s.local_ssrc ntp s.last_rtp_timestamp s.packets_sent s.octets_sent
                (build_report_blocks F s now) (build_sdes_cname s.local_ssrc s.cname ++ rest)
                (ok.local_ssrc, v, ok.last_rtp_timestamp, ok.packets_sent, ok.octets_sent)
                (AllBlocks-built F s ok now)
            ∙ ap
                (λ t.
                  sender_report (
                    sent_report s.local_ssrc ntp s.last_rtp_timestamp s.packets_sent s.octets_sent
                      (build_report_blocks F s now))
                  ∷ t)
                name_read)
    | inr e ↦
        rw (e, build_compound)
          (ap parse_rtcp_compound (
              append_assoc (build_receiver_report s.local_ssrc (build_report_blocks F s now))
                (build_sdes_cname s.local_ssrc s.cname) rest)
            ∙ parse-build_rr s.local_ssrc (build_report_blocks F s now)
                (build_sdes_cname s.local_ssrc s.cname ++ rest) ok.local_ssrc
                (AllBlocks-built F s ok now)
            ∙ ap
                (λ t.
                  receiver_report (record {
                    ssrc = s.local_ssrc;
                    report_blocks = take 31 (build_report_blocks F s now);
                  })
                  ∷ t)
                name_read)
  ]
    where
      name_read :
          parse_rtcp_compound (build_sdes_cname s.local_ssrc s.cname ++ rest)
          ≡ described s.local_ssrc s.cname ∷ parse_rtcp_compound rest
      name_read = parse-build_sdes s.local_ssrc s.cname rest ok.local_ssrc text

  extended_read : (q : Quality) → parse_rtcp_compound (build_xr F s q) ≡ extended_of F s q
  unfolding build_xr
  extended_read q = of_source s.remote_ssrc ok.remote_ssrc
    where
      of_source :
          (remote : Option ℕ)
          → ((r : ℕ) → remote ≡ some r → r < 2 ^ 32)
          → parse_rtcp_compound (elim remote [
            | none ↦ []
            | some r ↦ build_xr_voip_metrics s.local_ssrc r (xr_metrics F s q)
          ])
            ≡ elim remote [
              | none ↦ []
              | some r ↦
                  extended_report (record {
                    ssrc = s.local_ssrc;
                    voip_metrics = some (record { source_ssrc = r; metrics = xr_metrics F s q });
                  })
                  ∷ []
            ]
      of_source none h = nothing_left
      of_source (some r) h =
          parse_rtcp_compound-build_xr s.local_ssrc r (xr_metrics F s q) ok.local_ssrc (h r refl)
            (metrics-IsValid F s ok q)

  appended_read :
      (len buf_len : ℕ) (q : Quality)
      → parse_rtcp_compound (appended_xr F s len buf_len q)
        ≡ (if leb (len + 48) buf_len then extended_of F s q else [])
  unfolding appended_xr
  appended_read len buf_len q = elim (Bool-cases (leb (len + 48) buf_len)) [
    | inl e ↦ rw (e, appended_xr) (extended_read q)
    | inr e ↦ rw (e, appended_xr) nothing_left
  ]

  -- What `build_rtcp` writes is parsed to the session's report, its description and, where the buffer has
  -- 48 bytes more and a source is known, the metrics about that source; nothing else. The report is a
  -- sender's with its counters once a packet was sent, and a receiver's before. The session's words are in
  -- range and the first 255 bytes of its name are valid UTF-8.
  pub parse-build_rtcp :
      (now : ℕ) (ntp : NtpTimestamp) (buf_len : ℕ) (q : Quality) (interval : ℕ)
      → NtpIsValid ntp
      → parse_rtcp_compound (build_rtcp F s now ntp buf_len q interval).1
        ≡ report_of F s now ntp
          ∷ described s.local_ssrc s.cname
          ∷ (if leb (length (build_compound F s now ntp) + 48) buf_len
              then extended_of F s q
              else [])
  unfolding build_rtcp
  parse-build_rtcp now ntp buf_len q interval v =
      compound_read now ntp (appended_xr F s (length (build_compound F s now ntp)) buf_len q) v
      ∙ ap (λ t. report_of F s now ntp ∷ described s.local_ssrc s.cname ∷ t)
          (appended_read (length (build_compound F s now ntp)) buf_len q)
