-- ===== src/Dtmf/Process/Reports.antt =====
-- A whole digit is reported once, src/rtp/dtmf.rs.
use rtp_sip_module.Prelude.{
  ℕ, ◌+◌, ◌-◌, ◌/◌, ◌^◌, ◌≤◌, ◌<◌, ◌≡◌, ◌≢◌, refl, ap, ◌∙◌, Bool, true, false, Option, none, some,
  List, [], ◌∷◌, max, length, arith,
}
use rtp_sip_module.Dtmf.{DtmfEvent, to_char}
use rtp_sip_module.Dtmf.Payload.{payload_new, serialize}
use rtp_sip_module.Dtmf.Detector.{DetectedDtmf, DtmfDetector}
use rtp_sip_module.Dtmf.Process.{report, finish, process_rtp}
use rtp_sip_module.Dtmf.Process.Digit.{
  in_progress, IsQuiet, IsNext, reaches, finish-conclude, complete-some,
}
use rtp_sip_module.Dtmf.Process.Begin.{IsReady, begins}
use rtp_sip_module.Dtmf.Process.Repeats.{refused, reordered-seen}
use rtp_sip_module.Dtmf.Process.Events.{
  EventPacket, add_report, reports_of, Expects, process_rtp-event,
}

-- a packet of the event as the sender builds it
pub record Sent : Type 0 where
  pub at : ℕ
  pub seq : ℕ
  pub duration : ℕ

abbrev pub event_packet : DtmfEvent → Bool → Sent → EventPacket
event_packet event is_end s = record {
  at = s.at;
  seq = s.seq;
  payload = payload_new event is_end s.duration;
}

-- the copies of the last packet, at their times
abbrev pub copies_of : DtmfEvent → Sent → List ℕ → List EventPacket
copies_of event last [] = []
copies_of event last (t ∷ times) =
    event_packet event true (record last { at = t }) ∷ copies_of event last times

-- the packets after the first one
abbrev pub rest_of : DtmfEvent → List Sent → Sent → List ℕ → List EventPacket
rest_of event [] last times = event_packet event true last ∷ copies_of event last times
rest_of event (s ∷ middle) last times = event_packet event false s ∷ rest_of event middle last times

-- The packet follows one with this number and duration, within 5 seconds of the start.
abbrev pub Continues : ℕ → ℕ → ℕ → Sent → Type 0
Continues started seq duration s =
    IsNext seq s.seq × (duration ≤ s.duration) × (s.duration < 2 ^ 16) × (s.at - started ≤ 5000)

-- All packets continue the digit up to the last one, which has a duration and a number that is not 0.
abbrev pub AreInOrder : ℕ → ℕ → ℕ → List Sent → Sent → Type 0
AreInOrder started seq duration [] last =
    Continues started seq duration last × (0 < last.duration) × (last.seq < 2 ^ 16) × (last.seq ≢ 0)
AreInOrder started seq duration (s ∷ middle) last =
    Continues started seq duration s × AreInOrder started s.seq s.duration middle last

-- what is reported of the event
abbrev pub detected : DtmfEvent → ℕ → DetectedDtmf
detected event duration = record {
  digit = to_char event;
  event = event;
  duration_ms = max (duration / 8) 50;
  is_end = true;
}

module _ (event : DtmfEvent) (pt ts : ℕ) where
  more_reports :
      (d : DtmfDetector) (x : EventPacket) (packets : List EventPacket) (d' : DtmfDetector)
      (o : Option DetectedDtmf)
      → process_rtp d x.at pt x.seq ts (serialize x.payload) ≡ (d', o)
      → reports_of d pt ts (x ∷ packets) ≡ add_report o (reports_of d' pt ts packets)
  more_reports d x packets d' o e = ap (λ r. add_report r.1 (reports_of r.0 pt ts packets)) e

  -- Copies of a packet that was seen report nothing.
  copies-none :
      (d : DtmfDetector) (last : Sent) (times : List ℕ)
      → Expects d pt
      → d.prev_seq ≡ last.seq
      → d.in_digit_ts ≡ ts
      → last.seq ≢ 0
      → last.seq < 2 ^ 16
      → last.duration < 2 ^ 16
      → reports_of d pt ts (copies_of event last times) ≡ []
  copies-none d last [] x p t n small fits = refl
  copies-none d last (now ∷ times) x p t n small fits =
      more_reports d (event_packet event true (record last { at = now }))
        (copies_of event last times) d none
        (process_rtp-event event d now pt last.seq ts true last.duration x fits
          ∙ refused d now last.seq ts (payload_new event true last.duration) event
              (reordered-seen d last.seq ts (p, t) n small))
      ∙ copies-none d last times x p t n small fits

  module _ (d : DtmfDetector) (started : ℕ) (expects : Expects d pt)
      (timeout : d.end_timeout_ms ≡ 5000) (quiet : IsQuiet d ts) (ts_fits : ts < 2 ^ 32) where
    finish-middle :
        (seq dur k duration : ℕ)
        → dur ≤ duration
        → duration < 2 ^ 16
        → finish (in_progress d event ts started seq dur k) ts (payload_new event false duration)
          ≡ (in_progress d event ts started seq duration k, none)
    unfolding payload_new
    finish-middle seq dur k duration le fits =
        finish-conclude d event ts started timeout ts_fits seq dur k
          (payload_new event false duration) le fits

    finish-last :
        (seq dur k duration : ℕ)
        → dur ≤ duration
        → 0 < duration
        → duration < 2 ^ 16
        → finish (in_progress d event ts started seq dur k) ts (payload_new event true duration)
          ≡ report
              (in_progress d event ts started seq duration k)
              event
              ts
              (max (duration / 8) 50)
              true
    unfolding payload_new
    finish-last seq dur k duration le positive fits =
        finish-conclude d event ts started timeout ts_fits seq dur k
          (payload_new event true duration) le fits
        ∙ complete-some d event ts started timeout ts_fits
            (in_progress d event ts started seq duration k) duration positive

    one_report :
        (seq dur k : ℕ) (middle : List Sent) (last : Sent) (times : List ℕ)
        → k + length middle ≤ 1500
        → AreInOrder started seq dur middle last
        → reports_of
            (in_progress d event ts started seq dur k)
            pt
            ts
            (rest_of event middle last times)
          ≡ detected event last.duration ∷ []
    unfolding report
    one_report seq dur k [] last times few ((next, le, fits, time), positive, small, nonzero) =
        more_reports (in_progress d event ts started seq dur k) (event_packet event true last)
          (copies_of event last times)
          (report (in_progress d event ts started last.seq last.duration (k + 1)) event ts
            (max (last.duration / 8) 50) true).0
          (some (detected event last.duration))
          (process_rtp-event event (in_progress d event ts started seq dur k) last.at pt last.seq ts
              true last.duration expects fits
            ∙ reaches d event ts started timeout ts_fits seq dur k last.at last.seq
                (payload_new event true last.duration) quiet next (omega arith) time
            ∙ finish-last last.seq dur (k + 1) last.duration le positive fits)
        ∙ ap (λ t. detected event last.duration ∷ t)
            (copies-none _ last times expects refl refl nonzero small fits)
    one_report seq dur k (s ∷ middle) last times few ((next, le, fits, time), order) =
        more_reports (in_progress d event ts started seq dur k) (event_packet event false s)
          (rest_of event middle last times)
          (in_progress d event ts started s.seq s.duration (k + 1)) none
          (process_rtp-event event (in_progress d event ts started seq dur k) s.at pt s.seq ts false
              s.duration expects fits
            ∙ reaches d event ts started timeout ts_fits seq dur k s.at s.seq
                (payload_new event false s.duration) quiet next (omega arith) time
            ∙ finish-middle s.seq dur (k + 1) s.duration le fits)
        ∙ one_report s.seq s.duration (k + 1) middle last times (omega arith) order

  -- A digit is reported exactly once. A ready detector gets a first packet with a new timestamp, then at most
  -- 1500 more without the end bit and one with it, then any copies of the last one. The sequence numbers go
  -- forward, where some may be missing, the durations do not decrease, all packets before the copies arrive
  -- within 5 seconds of the first, and the last has a duration and a number that is not 0. The only report
  -- has the event, its character and the last duration in milliseconds, at least 50, and is marked as ended.
  pub reports_of-digit :
      (d : DtmfDetector) (first : Sent) (middle : List Sent) (last : Sent) (times : List ℕ)
      → IsReady d ts
      → Expects d pt
      → first.duration < 2 ^ 16
      → length middle ≤ 1500
      → AreInOrder first.at first.seq first.duration middle last
      → reports_of d pt ts (event_packet event false first ∷ rest_of event middle last times)
        ≡ detected event last.duration ∷ []
  reports_of-digit d first middle last times ready x fits few order =
      more_reports d (event_packet event false first) (rest_of event middle last times)
        (in_progress d event ts first.at first.seq first.duration 0) none
        (process_rtp-event event d first.at pt first.seq ts false first.duration x fits
          ∙ begins d event ts ready first.at first.seq (payload_new event false first.duration)
          ∙ finish-middle d first.at x ready.timeout ready.quiet ready.ts_fits first.seq 0 0
              first.duration (omega arith) fits)
      ∙ one_report d first.at x ready.timeout ready.quiet ready.ts_fits first.seq first.duration 0
          middle last times (omega arith) order
