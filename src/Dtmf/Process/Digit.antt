-- ===== src/Dtmf/Process/Digit.antt =====
-- The packets of one digit, as the detector of src/rtp/dtmf.rs takes them.
use rtp_sip_module.Prelude.{
  ℕ, ◌+◌, ◌-◌, ◌/◌, ◌%◌, ◌^◌, ◌≤◌, ◌<◌, ◌≡◌, ◌≢◌, ◌⊎◌, inl, inr, ap, ap₂, ◌∙◌, Bool, true, false,
  ◌&&◌, ◌||◌, Option, none, some, if◌then◌else◌, leb, ltb, ◌==◌, max, arith,
}
use rtp_sip_module.Dtmf.{DtmfEvent, code}
use rtp_sip_module.Dtmf.Payload.{DtmfPayload}
use rtp_sip_module.Dtmf.Detector.{
  DetectedDtmf, DtmfDetector, reset_state, wrapping_sub32, wrapping_sub16, overlaps, reordered,
  advance, stuck, force_complete, timed_out, check_timeout,
}
use rtp_sip_module.Dtmf.Process.{
  track_duration, report, complete, finish, begin_new, same_digit, use_packet, process_event,
}

-- a detector in the middle of a digit: `k` packets repeated its timestamp, the last had `seq` and `dur`
abbrev pub in_progress : DtmfDetector → DtmfEvent → ℕ → ℕ → ℕ → ℕ → ℕ → DtmfDetector
in_progress d event ts started seq dur k = record d {
  in_digit_seq = seq;
  prev_seq = seq;
  in_digit_ts = ts;
  last_in_digit_ts = ts;
  in_digit_sanity = k;
  last_duration = dur;
  duration_flip = 0;
  current_digit = some event;
  first_packet_ts = ts;
  digit_start_time = some started;
}

-- The digit before, if there was one, is over for 80 ms.
abbrev pub IsQuiet : DtmfDetector → ℕ → Type 0
IsQuiet d ts =
    (d.last_end_timestamp ≡ 0)
    ⊎ ((ts ≢ d.last_end_timestamp) × (640 ≤ wrapping_sub32 ts d.last_end_timestamp))

-- The packet comes after the one before it, with at most half a lap between them.
abbrev pub IsNext : ℕ → ℕ → Type 0
IsNext seq next = (1 ≤ wrapping_sub16 next seq) × (wrapping_sub16 next seq ≤ 32768)

pub overlaps-quiet : (d : DtmfDetector) (ts : ℕ) (b : Bool) → IsQuiet d ts → overlaps d ts b ≡ false
unfolding overlaps
overlaps-quiet d ts b (inl h) = ground arith
overlaps-quiet d ts b (inr (h, g)) = ground arith

reordered-next :
    (d : DtmfDetector) (next ts : ℕ) → IsNext d.prev_seq next → reordered d next ts ≡ false
unfolding reordered
reordered-next d next ts (a, b) = ground arith

-- The guards let a packet pass.
pub process_event-passes :
    (d : DtmfDetector) (now seq ts : ℕ) (p : DtmfPayload) (event : DtmfEvent)
    → overlaps d ts p.is_end ≡ false
    → reordered d seq ts ≡ false
    → process_event d now seq ts p event ≡ use_packet d now seq ts p event
unfolding process_event
process_event-passes d now seq ts p event o r =
    ap₂ (λ a b. if a || b then (d, none) else use_packet d now seq ts p event) o r

-- what `use_packet` does with the detector after its checks
abbrev pub dispatch :
    DtmfDetector → ℕ → ℕ → ℕ → DtmfPayload → DtmfEvent → DtmfDetector × Option DetectedDtmf
dispatch checked now seq ts p event =
    if ts == checked.last_in_digit_ts
    then same_digit checked ts p event
    else begin_new checked now seq ts p event

pub use_packet-passes :
    (d : DtmfDetector) (now seq ts : ℕ) (p : DtmfPayload) (event : DtmfEvent)
    → stuck d ts ≡ false
    → use_packet d now seq ts p event
      ≡ dispatch (check_timeout (advance d seq ts) now ts) now seq ts p event
unfolding use_packet
use_packet-passes d now seq ts p event h =
    ap
      (λ b.
        if b
        then (reset_state (advance d seq ts), none)
        else dispatch (check_timeout (advance d seq ts) now ts) now seq ts p event)
      h

module _ (d : DtmfDetector) (event : DtmfEvent) (ts started : ℕ) (timeout : d.end_timeout_ms ≡ 5000)
    (ts_fits : ts < 2 ^ 32) where
  stuck-few :
      (seq dur k : ℕ) → k ≤ 1500 → stuck (in_progress d event ts started seq dur k) ts ≡ false
  unfolding stuck
  stuck-few seq dur k h = ground arith

  in_time :
      (seq dur k now : ℕ)
      → now - started ≤ 5000
      → timed_out (in_progress d event ts started seq dur k) now ts ≡ false
  unfolding timed_out
  in_time seq dur k now h = ground arith

  same_ts : (ts == ts) ≡ true
  same_ts = ground arith

  same_event : (code event == code event) ≡ true
  same_event = ground arith

  advance-in_progress :
      (seq dur k next : ℕ)
      → k ≤ 1500
      → advance (in_progress d event ts started seq dur k) next ts
        ≡ in_progress d event ts started next dur (k + 1)
  unfolding advance
  advance-in_progress seq dur k next few = ap (λ n. in_progress d event ts started next dur n) count
    where
      count : (if ts == ts then (k + 1) % 2 ^ 32 else 0) ≡ k + 1
      count = ground arith

  check-in_time :
      (seq dur k now : ℕ)
      → now - started ≤ 5000
      → check_timeout (in_progress d event ts started seq dur k) now ts
        ≡ in_progress d event ts started seq dur k
  unfolding check_timeout
  check-in_time seq dur k now h =
      ap
        (λ b.
          if b
          then record (force_complete (in_progress d event ts started seq dur k) event) {
            duration_flip = 0;
            last_duration = 0;
          }
          else in_progress d event ts started seq dur k)
        (in_time seq dur k now h)

  dispatch-same :
      (seq dur k now next : ℕ) (p : DtmfPayload)
      → dispatch (in_progress d event ts started seq dur k) now next ts p event
        ≡ finish (in_progress d event ts started seq dur k) ts p
  unfolding same_digit
  dispatch-same seq dur k now next p =
      ap₂
        (λ a b.
          if a
          then (if b
              then finish (in_progress d event ts started seq dur k) ts p
              else (in_progress d event ts started seq dur k, none))
          else begin_new (in_progress d event ts started seq dur k) now next ts p event)
        same_ts same_event

  -- A packet of the digit that comes in time reaches the end of `process_rtp`.
  pub reaches :
      (seq dur k now next : ℕ) (p : DtmfPayload)
      → IsQuiet d ts
      → IsNext seq next
      → k ≤ 1500
      → now - started ≤ 5000
      → process_event (in_progress d event ts started seq dur k) now next ts p event
        ≡ finish (in_progress d event ts started next dur (k + 1)) ts p
  reaches seq dur k now next p quiet order few time =
      process_event-passes (in_progress d event ts started seq dur k) now next ts p event
        (overlaps-quiet (in_progress d event ts started seq dur k) ts p.is_end quiet)
        (reordered-next (in_progress d event ts started seq dur k) next ts order)
      ∙ use_packet-passes (in_progress d event ts started seq dur k) now next ts p event
          (stuck-few seq dur k few)
      ∙ ap (λ c. dispatch (check_timeout c now ts) now next ts p event)
          (advance-in_progress seq dur k next few)
      ∙ ap (λ c. dispatch c now next ts p event) (check-in_time next dur (k + 1) now time)
      ∙ dispatch-same next dur (k + 1) now next p

  tracked :
      (seq dur k now_dur : ℕ)
      → dur ≤ now_dur
      → track_duration (in_progress d event ts started seq dur k) now_dur
        ≡ in_progress d event ts started seq now_dur k
  unfolding track_duration
  tracked seq dur k now_dur le =
      ap
        (λ b. record (in_progress d event ts started seq now_dur k) {
          duration_flip = if b && leb 64535 dur then (0 + 65535) % 2 ^ 32 else 0;
        })
        not_less
    where
      not_less : ltb now_dur dur ≡ false
      not_less = ground arith

  -- the end of `finish`, of the tracked detector
  abbrev conclude : DtmfDetector → ℕ → Bool → DtmfDetector × Option DetectedDtmf
  conclude c total is_end =
      if ltb 240000 total
      then (reset_state c, none)
      else if is_end
      then complete c event ts total
      else (c, none)

  pub finish-conclude :
      (seq dur k : ℕ) (p : DtmfPayload)
      → dur ≤ p.duration
      → p.duration < 2 ^ 16
      → finish (in_progress d event ts started seq dur k) ts p ≡ (
          if p.is_end
          then complete (in_progress d event ts started seq p.duration k) event ts p.duration
          else (in_progress d event ts started seq p.duration k, none))
  unfolding finish
  finish-conclude seq dur k p le fits =
      ap (λ c. conclude c (p.duration + c.duration_flip) p.is_end) (tracked seq dur k p.duration le)
      ∙ ap (λ n. conclude (in_progress d event ts started seq p.duration k) n p.is_end)
          {x = p.duration + 0} {y = p.duration} (omega arith)
      ∙ ap
          (λ b.
            if b
            then (reset_state (in_progress d event ts started seq p.duration k), none)
            else if p.is_end
            then complete (in_progress d event ts started seq p.duration k) event ts p.duration
            else (in_progress d event ts started seq p.duration k, none))
          short
    where
      short : ltb 240000 p.duration ≡ false
      short = ground arith

  pub complete-some :
      (c : DtmfDetector) (total : ℕ)
      → 0 < total
      → complete c event ts total
        ≡ report (record c { duration_flip = 0 }) event ts (max (total / 8) 50) true
  unfolding complete
  complete-some c total positive =
      ap
        (λ b.
          if b
          then (
            record c {
              current_digit = none;
              duration_flip = 0;
              first_packet_ts = 0;
              digit_start_time = none;
            },
            none,
          )
          else report (record c { duration_flip = 0 }) event ts (max (total / 8) 50) true)
        nonzero
    where
      nonzero : (total == 0) ≡ false
      nonzero = ground arith
