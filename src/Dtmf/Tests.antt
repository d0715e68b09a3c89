-- ===== src/Dtmf/Tests.antt =====
-- The theorems on src/rtp/dtmf.rs at concrete inputs.
use rtp_sip_module.Prelude.{List, ◌≡◌, refl, inl, false, [], ◌∷◌, arith}
use rtp_sip_module.Dtmf.{digit5, from_char}
use rtp_sip_module.Dtmf.Sender.{Built, DtmfPacket, sender_new, generated, generate_digit}
use rtp_sip_module.Dtmf.Sender.Numbered.{IsWholeDigit}
use rtp_sip_module.Dtmf.Sender.Whole.{generate_digit-IsWholeDigit}
use rtp_sip_module.Dtmf.Detector.{detector_new, DtmfDetector}
use rtp_sip_module.Dtmf.Process.Begin.{IsReady}
use rtp_sip_module.Dtmf.Process.Events.{reports_of}
use rtp_sip_module.Dtmf.Process.Reports.{Sent, event_packet, rest_of, detected, reports_of-digit}

abbrev fresh : DtmfDetector
fresh = detector_new 101

fresh-IsReady : IsReady fresh 16000
unfolding detector_new
fresh-IsReady = record {
  idle = refl;
  waits = refl;
  timeout = refl;
  quiet = inl refl;
  new_ts = λ e. omega (arith, e);
  new_digit = λ e. omega (arith, e);
  ts_fits = omega arith;
}

abbrev first_packet : Sent
first_packet = record { at = 0; seq = 65534; duration = 160 }

abbrev later_packet : Sent
later_packet = record { at = 20; seq = 65535; duration = 320 }

abbrev last_packet : Sent
last_packet = record { at = 60; seq = 1; duration = 480 }

-- One packet is lost, and the last one comes three times.
reports_of-digit_example :
    reports_of fresh 101 16000 (
      event_packet digit5 false first_packet
      ∷ rest_of digit5 (later_packet ∷ []) last_packet (60 ∷ 61 ∷ []))
    ≡ detected digit5 480 ∷ []
unfolding detector_new
reports_of-digit_example =
    reports_of-digit digit5 101 16000 fresh first_packet (later_packet ∷ []) last_packet
      (60 ∷ 61 ∷ []) fresh-IsReady (refl, λ e. omega (arith, e)) (omega arith) (omega arith)
      (
        ((omega arith, omega arith), omega arith, omega arith, omega arith),
        (
          ((omega arith, omega arith), omega arith, omega arith, omega arith),
          omega arith,
          omega arith,
          λ e. omega (arith, e),
        ),
      )

-- the character 5 for 50 ms in intervals of 20 ms
generate_digit-IsWholeDigit_example :
    (r : Built (List DtmfPacket)) × (generate_digit (sender_new 9) 53 50 20 65534 16000
      ≡ generated r)
    × IsWholeDigit digit5 16000 65534 r
unfolding sender_new from_char
generate_digit-IsWholeDigit_example =
    generate_digit-IsWholeDigit (sender_new 9) digit5 53 50 20 65534 16000 refl refl refl
      (λ e. omega (arith, e))
