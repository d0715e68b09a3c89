-- ===== src/Dtmf/Process/Repeats.antt =====
-- A packet that arrives again after it was reported, src/rtp/dtmf.rs.
use rtp_sip_module.Prelude.{
  ℕ, ◌^◌, ◌<◌, ◌≡◌, ◌≢◌, refl, ap, ◌∙◌, Bool, true, false, ◌||◌, none, if◌then◌else◌, arith,
}
use rtp_sip_module.Dtmf.{DtmfEvent}
use rtp_sip_module.Dtmf.Payload.{DtmfPayload}
use rtp_sip_module.Dtmf.Detector.{DtmfDetector, overlaps, reordered}
use rtp_sip_module.Dtmf.Process.{use_packet, process_event}

-- The last packet had this number and this timestamp.
abbrev pub HasSeen : DtmfDetector → ℕ → ℕ → Type 0
HasSeen d seq ts = (d.prev_seq ≡ seq) × (d.in_digit_ts ≡ ts)

pub reordered-seen :
    (d : DtmfDetector) (seq ts : ℕ)
    → HasSeen d seq ts
    → seq ≢ 0
    → seq < 2 ^ 16
    → reordered d seq ts ≡ true
unfolding reordered
reordered-seen d seq ts (p, t) nonzero small = ground arith

or_true : (b : Bool) → (b || true) ≡ true
or_true true = refl
or_true false = refl

-- A packet that the guard refuses changes nothing.
pub refused :
    (d : DtmfDetector) (now seq ts : ℕ) (dtmf : DtmfPayload) (event : DtmfEvent)
    → reordered d seq ts ≡ true
    → process_event d now seq ts dtmf event ≡ (d, none)
unfolding process_event
refused d now seq ts dtmf event h =
    ap
      (λ b.
        if overlaps d ts dtmf.is_end || b then (d, none) else use_packet d now seq ts dtmf event)
      h
    ∙ ap (λ b. if b then (d, none) else use_packet d now seq ts dtmf event)
        (or_true (overlaps d ts dtmf.is_end))
