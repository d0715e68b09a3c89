-- ===== src/Dtmf/Process/Begin.antt =====
-- The first packet of a digit begins it, src/rtp/dtmf.rs.
use rtp_sip_module.Prelude.{
  ℕ, ◌+◌, ◌%◌, ◌^◌, ◌<◌, ◌≡◌, ◌≢◌, ap, ap₂, ◌∙◌, false, ◌&&◌, none, some, if◌then◌else◌, ltb, ◌==◌,
  arith,
}
use rtp_sip_module.Dtmf.{DtmfEvent}
use rtp_sip_module.Dtmf.Payload.{DtmfPayload}
use rtp_sip_module.Dtmf.Detector.{
  DtmfDetector, reordered, advance, stuck, force_complete, timed_out, check_timeout,
}
use rtp_sip_module.Dtmf.Process.{report, finish, begin_new, same_digit, process_event}
use rtp_sip_module.Dtmf.Process.Digit.{
  in_progress, IsQuiet, dispatch, overlaps-quiet, process_event-passes, use_packet-passes,
}

-- A detector between two digits, that waits for end packets, and a timestamp that is new to it.
pub record IsReady (d : DtmfDetector) (ts : ℕ) : Type 0 where
  pub idle : d.current_digit ≡ none
  pub waits : d.rtp_bugs.ignore_duration ≡ false
  pub timeout : d.end_timeout_ms ≡ 5000
  pub quiet : IsQuiet d ts
  pub new_ts : ts ≢ d.in_digit_ts
  pub new_digit : ts ≢ d.last_in_digit_ts
  pub ts_fits : ts < 2 ^ 32

module _ (d : DtmfDetector) (event : DtmfEvent) (ts : ℕ) (ready : IsReady d ts) where
  differs : (ts == d.in_digit_ts) ≡ false
  differs = ground (arith, ready.new_ts)

  reordered-new : (seq : ℕ) → reordered d seq ts ≡ false
  unfolding reordered
  reordered-new seq = ground (arith, ready.new_ts)

  stuck-new : stuck d ts ≡ false
  unfolding stuck
  stuck-new = ap (λ b. b && ltb 1500 d.in_digit_sanity) differs

  other_digit : (ts == d.last_in_digit_ts) ≡ false
  other_digit = ground (arith, ready.new_digit)

  check-idle : (now seq : ℕ) → check_timeout (advance d seq ts) now ts ≡ advance d seq ts
  unfolding check_timeout advance
  check-idle now seq =
      ap
        (λ o. elim o [
          | none ↦ advance d seq ts
          | some digit ↦
              if timed_out (advance d seq ts) now ts
              then record (force_complete (advance d seq ts) digit) {
                duration_flip = 0;
                last_duration = 0;
              }
              else advance d seq ts
        ])
        ready.idle

  -- the detector as the new digit begins
  abbrev start : DtmfDetector → ℕ → ℕ → DtmfDetector
  start c now seq = record c {
    current_digit = some event;
    last_in_digit_ts = ts;
    last_duration = 0;
    duration_flip = 0;
    prev_seq = seq;
    first_packet_ts = ts;
    digit_start_time = some now;
  }

  begin_new-idle :
      (c : DtmfDetector) (now seq : ℕ) (p : DtmfPayload)
      → c.current_digit ≡ none
      → c.rtp_bugs.ignore_duration ≡ false
      → begin_new c now seq ts p event ≡ finish (start c now seq) ts p
  unfolding begin_new
  begin_new-idle c now seq p idle waits =
      ap₂
        (λ o b.
          if b
          then report (start (elim o [ none ↦ c | some prev ↦ force_complete c prev ]) now seq)
              event ts 50 false
          else finish (start (elim o [ none ↦ c | some prev ↦ force_complete c prev ]) now seq) ts
              p)
        idle waits

  start-advance :
      (now seq : ℕ) → start (advance d seq ts) now seq ≡ in_progress d event ts now seq 0 0
  unfolding advance
  start-advance now seq =
      ap
        (λ b. record (in_progress d event ts now seq 0 0) {
          in_digit_sanity = if b then (d.in_digit_sanity + 1) % 2 ^ 32 else 0;
        })
        differs

  dispatch-new :
      (now seq : ℕ) (p : DtmfPayload)
      → dispatch (advance d seq ts) now seq ts p event
        ≡ begin_new (advance d seq ts) now seq ts p event
  unfolding advance
  dispatch-new now seq p =
      ap
        (λ b.
          if b
          then same_digit (advance d seq ts) ts p event
          else begin_new (advance d seq ts) now seq ts p event)
        other_digit

  idle_after :
      (seq : ℕ)
      → ((advance d seq ts).current_digit ≡ none)
        × ((advance d seq ts).rtp_bugs.ignore_duration ≡ false)
  unfolding advance
  idle_after seq = (ready.idle, ready.waits)

  -- The first packet of a digit begins it.
  pub begins :
      (now seq : ℕ) (p : DtmfPayload)
      → process_event d now seq ts p event ≡ finish (in_progress d event ts now seq 0 0) ts p
  begins now seq p =
      process_event-passes d now seq ts p event (overlaps-quiet d ts p.is_end ready.quiet)
        (reordered-new seq)
      ∙ use_packet-passes d now seq ts p event stuck-new
      ∙ ap (λ c. dispatch c now seq ts p event) (check-idle now seq)
      ∙ dispatch-new now seq p
      ∙ begin_new-idle (advance d seq ts) now seq p (idle_after seq).0 (idle_after seq).1
      ∙ ap (λ c. finish c ts p) (start-advance now seq)
