-- ===== src/Dtmf/Process/Events.antt =====
-- The packets of an event reach the state machine of `process_rtp`, src/rtp/dtmf.rs.
use rtp_sip_module.Prelude.{
  ℕ, ◌^◌, ◌≤◌, ◌<◌, ◌≡◌, ◌≢◌, ap, ap₂, ◌∙◌, Bool, true, false, ◌&&◌, Option, none, some, List, [],
  ◌∷◌, if◌then◌else◌, ◌==◌, arith,
}
use rtp_sip_module.Dtmf.{
  DtmfEvent, digit0, digit1, digit2, digit3, digit4, digit5, digit6, digit7, digit8, digit9, star,
  pound, letter_a, letter_b, letter_c, letter_d, code, from_code,
}
use rtp_sip_module.Dtmf.Payload.{DtmfPayload, payload_new, parse, serialize}
use rtp_sip_module.Dtmf.Payload.Laws.{parse-serialize, from-to_char}
use rtp_sip_module.Dtmf.Detector.{DetectedDtmf, DtmfDetector, accepts_pt, latch}
use rtp_sip_module.Dtmf.Process.{process_event, process_rtp}

code-le : (event : DtmfEvent) → code event ≤ 15
unfolding code
code-le digit0 = omega arith
code-le digit1 = omega arith
code-le digit2 = omega arith
code-le digit3 = omega arith
code-le digit4 = omega arith
code-le digit5 = omega arith
code-le digit6 = omega arith
code-le digit7 = omega arith
code-le digit8 = omega arith
code-le digit9 = omega arith
code-le star = omega arith
code-le pound = omega arith
code-le letter_a = omega arith
code-le letter_b = omega arith
code-le letter_c = omega arith
code-le letter_d = omega arith

-- a packet of an event: its arrival, its number and its payload
pub record EventPacket : Type 0 where
  pub at : ℕ
  pub seq : ℕ
  pub payload : DtmfPayload

abbrev pub add_report : Option DetectedDtmf → List DetectedDtmf → List DetectedDtmf
add_report none reports = reports
add_report (some r) reports = r ∷ reports

-- the reports of packets with one payload type and one timestamp
abbrev pub reports_of : DtmfDetector → ℕ → ℕ → List EventPacket → List DetectedDtmf
reports_of d pt ts [] = []
reports_of d pt ts (x ∷ packets) =
    let r : DtmfDetector × Option DetectedDtmf =
      process_rtp d x.at pt x.seq ts (serialize x.payload) in
    add_report r.1 (reports_of r.0 pt ts packets)

-- The detector listens to the payload type of the session.
abbrev pub Expects : DtmfDetector → ℕ → Type 0
Expects d pt = (d.expected_pt ≡ pt) × (pt ≢ 0)

accepts-expected : (d : DtmfDetector) (pt : ℕ) → Expects d pt → accepts_pt d pt ≡ true
unfolding accepts_pt
accepts-expected d pt (e, n) = ground arith

latch-expected : (d : DtmfDetector) (pt : ℕ) → Expects d pt → latch d pt ≡ d
unfolding latch
latch-expected d pt (e, n) =
    ap (λ b. if b && (d.latched_pt == 0) then record d { latched_pt = pt } else d) fixed
  where
    fixed : (d.expected_pt == 0) ≡ false
    fixed = ground arith

process_rtp-payload :
    (d : DtmfDetector) (now pt seq ts : ℕ) (p : DtmfPayload) (event : DtmfEvent)
    → Expects d pt
    → parse (serialize p) ≡ some p
    → from_code p.event ≡ some event
    → process_rtp d now pt seq ts (serialize p) ≡ process_event d now seq ts p event
unfolding process_rtp
process_rtp-payload d now pt seq ts p event x parsed known =
    ap₂
      (λ b o.
        if b
        then elim o [
          | none ↦ (d, none)
          | some dtmf ↦ elim (from_code dtmf.event) [
            | none ↦ (d, none)
            | some ev ↦ process_event (latch d pt) now seq ts dtmf ev
          ]
        ]
        else (d, none))
      (accepts-expected d pt x) parsed
    ∙ ap (λ o. elim o [ none ↦ (d, none) | some ev ↦ process_event (latch d pt) now seq ts p ev ])
        known
    ∙ ap (λ c. process_event c now seq ts p event) (latch-expected d pt x)

module _ (event : DtmfEvent) where
  new_payload :
      (is_end : Bool) (duration : ℕ)
      → duration < 2 ^ 16
      → (parse (serialize (payload_new event is_end duration))
          ≡ some (payload_new event is_end duration))
        × (from_code (payload_new event is_end duration).event ≡ some event)
  unfolding payload_new
  new_payload is_end duration fits = (
    parse-serialize (payload_new event is_end duration) (code-le event) (omega arith) fits,
    (from-to_char event).0,
  )

  -- `process_rtp` on a packet of the event
  pub process_rtp-event :
      (d : DtmfDetector) (now pt seq ts : ℕ) (is_end : Bool) (duration : ℕ)
      → Expects d pt
      → duration < 2 ^ 16
      → process_rtp d now pt seq ts (serialize (payload_new event is_end duration))
        ≡ process_event d now seq ts (payload_new event is_end duration) event
  process_rtp-event d now pt seq ts is_end duration x fits =
      process_rtp-payload d now pt seq ts (payload_new event is_end duration) event x
        (new_payload is_end duration fits).0 (new_payload is_end duration fits).1
