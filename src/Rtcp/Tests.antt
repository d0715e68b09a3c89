-- ===== src/Rtcp/Tests.antt =====
-- The theorems on src/rtp/rtcp.rs at concrete inputs.
use rtp_sip_module.Prelude.{
  ℕ, ◌≡◌, refl, ap, inr, Option, none, some, List, [], ◌∷◌, if◌then◌else◌, leb, ◌+◌, length, arith,
}
use rtp_sip_module.Prelude.Utf8.{is_utf8}
use rtp_sip_module.Rtcp.{NtpTimestamp, ReportBlock, sender_report, goodbye}
use rtp_sip_module.Rtcp.Build.{build_bye, build_compound_sr}
use rtp_sip_module.Rtcp.Compound.{parse_rtcp_compound}
use rtp_sip_module.Rtcp.Reports.{sent_report}
use rtp_sip_module.Rtcp.Roundtrip.{
  described, parse-build_compound_sr, parse_rtcp_compound-build_bye,
}
use rtp_sip_module.Rtcp.Session.State.{Floats, RtcpSession, with_clock_rate}
use rtp_sip_module.Rtcp.Session.Report.{Quality, build_rtcp, build_compound, xr_metrics}
use rtp_sip_module.Rtcp.Session.Report.Sent.{IsInRange, report_of, extended_of, parse-build_rtcp}
use rtp_sip_module.Rtcp.Session.Losses.{receive_packets, gap_density-xr_metrics}

abbrev clock_now : NtpTimestamp
clock_now = record { seconds = 3900000000; fraction = 2147483648 }

-- Two packets more arrived than were expected, a count of -2.
abbrev block : ReportBlock
block = record {
  ssrc = 77;
  fraction_lost = 3;
  cumulative_lost = 4294967294;
  extended_highest_seq = 65540;
  jitter = 12;
  last_sr = 5;
  delay_since_last_sr = 65536;
}

-- "ab"
abbrev name : List ℕ
name = 97 ∷ 98 ∷ []

parse-build_compound_sr_example :
    parse_rtcp_compound (build_compound_sr 1 clock_now 160 7 1120 (block ∷ []) name)
    ≡ sender_report (sent_report 1 clock_now 160 7 1120 (block ∷ [])) ∷ described 1 name ∷ []
unfolding is_utf8
parse-build_compound_sr_example =
    parse-build_compound_sr 1 clock_now 160 7 1120 (block ∷ []) name
      (omega arith, (omega arith, omega arith), omega arith, omega arith, omega arith)
      (
        (
          omega arith,
          inr (omega arith, omega arith),
          omega arith,
          omega arith,
          omega arith,
          omega arith,
        ),
        tt,
      )
      refl

parse_rtcp_compound-build_bye_example :
    parse_rtcp_compound (build_bye (1 ∷ 2 ∷ []) (some name))
    ≡ goodbye (record { sources = 1 ∷ 2 ∷ []; reason = some name }) ∷ []
unfolding is_utf8
parse_rtcp_compound-build_bye_example =
    parse_rtcp_compound-build_bye (1 ∷ 2 ∷ []) (some name) (omega arith, (omega arith, tt)) refl

-- whole numbers in place of floating point
abbrev whole : Floats
whole = record {
  Jitter = ℕ;
  no_jitter = 0;
  smooth = λ j d. d;
  as_u32 = λ j. 0;
  average = λ old new. new;
}

abbrev idle : RtcpSession whole
idle = with_clock_rate whole 1 name 8000 5000000 9000000

abbrev listening : RtcpSession whole
listening = record idle { remote_ssrc = some 77; packets_sent = 2; octets_sent = 320 }

abbrev quality : Quality
quality = record { loss_rate = 0; r_scaled = 93; mos_scaled = 44 }

abbrev value_of : Option ℕ → ℕ
value_of none = 0
value_of (some n) = n

listening-IsInRange : IsInRange whole listening
unfolding with_clock_rate
listening-IsInRange = record {
  local_ssrc = omega arith;
  packets_sent = omega arith;
  octets_sent = omega arith;
  last_rtp_timestamp = omega arith;
  highest_ext_seq = omega arith;
  last_sr_ntp_compact = omega arith;
  jb_nominal_ms = omega arith;
  jb_maximum_ms = omega arith;
  remote_ssrc = λ r e. omega (arith, ap value_of e);
  jitter = omega arith;
}

parse-build_rtcp_example :
    parse_rtcp_compound (build_rtcp whole listening 9000000 clock_now 512 quality 5000000).1
    ≡ report_of whole listening 9000000 clock_now
      ∷ described listening.local_ssrc listening.cname
      ∷ (if leb (length (build_compound whole listening 9000000 clock_now) + 48) 512
          then extended_of whole listening quality
          else [])
unfolding is_utf8 with_clock_rate
parse-build_rtcp_example =
    parse-build_rtcp whole listening listening-IsInRange refl 9000000 clock_now 512 quality 5000000
      (omega arith, omega arith)

gap_density-xr_metrics_example :
    (xr_metrics whole
      (receive_packets whole idle (
        record { at = 0; ssrc = 77; seq = 5; rtp_timestamp = 0 }
        ∷ record { at = 40000; ssrc = 77; seq = 8; rtp_timestamp = 480 }
        ∷ []))
      quality).gap_density
    ≡ 0
unfolding with_clock_rate
gap_density-xr_metrics_example =
    gap_density-xr_metrics whole idle
      (record { at = 0; ssrc = 77; seq = 5; rtp_timestamp = 0 }
        ∷ record { at = 40000; ssrc = 77; seq = 8; rtp_timestamp = 480 }
        ∷ [])
      quality refl
