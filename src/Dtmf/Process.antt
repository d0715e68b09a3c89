-- ===== src/Dtmf/Process.antt =====
-- `process_rtp` of src/rtp/dtmf.rs, from its last step to the whole.
pub mod Digit
pub mod Begin
pub mod Repeats
pub mod Events
pub mod Reports
use rtp_sip_module.Prelude.{
  ℕ, zero, suc, ◌+◌, ◌-◌, ◌*◌, ◌/◌, ◌%◌, ◌^◌, Bool, true, false, not, ◌&&◌, ◌||◌, Option, none,
  some, List, [], ◌∷◌, ◌++◌, if◌then◌else◌, leb, ltb, ◌==◌, min, max,
}
use rtp_sip_module.Dtmf.{DtmfEvent, code, from_code, to_char}
use rtp_sip_module.Dtmf.Payload.{DtmfPayload, parse}
use rtp_sip_module.Dtmf.Flags.{RtpBugFlags, no_flags}
use rtp_sip_module.Dtmf.Detector.{
  DetectedDtmf, DtmfDetector, reset_state, accepts_pt, latch, overlaps, reordered, advance, stuck,
  force_complete, check_timeout,
}

-- `last_duration` and the wrap-around of the durations
unfoldable pub track_duration : DtmfDetector → ℕ → DtmfDetector
track_duration d duration = record d {
  last_duration = duration;
  duration_flip =
      if ltb duration d.last_duration && leb 64535 d.last_duration
      then (d.duration_flip + 65535) % 2 ^ 32
      else d.duration_flip;
}

-- a report is queued and returned; the digit is over
unfoldable pub report : DtmfDetector → DtmfEvent → ℕ → ℕ → Bool → DtmfDetector × Option DetectedDtmf
unfolding to_char
report d digit timestamp duration_ms is_end =
    let result : DetectedDtmf = record {
      digit = to_char digit;
      event = digit;
      duration_ms = duration_ms;
      is_end = is_end;
    } in
    (
      record d {
        current_digit = none;
        first_packet_ts = 0;
        digit_start_time = none;
        last_end_timestamp = timestamp;
        detected_queue = d.detected_queue ++ result ∷ [];
      },
      some result,
    )

-- the report of an end packet; one without duration is discarded with its digit
unfoldable pub complete : DtmfDetector → DtmfEvent → ℕ → ℕ → DtmfDetector × Option DetectedDtmf
unfolding report
complete d digit timestamp total_duration =
    if total_duration == 0
    then (
      record d {
        current_digit = none;
        duration_flip = 0;
        first_packet_ts = 0;
        digit_start_time = none;
      },
      none,
    )
    else report (record d { duration_flip = 0 }) digit timestamp (max (total_duration / 8) 50) true

-- the end of `process_rtp`: the duration, its limit and the end packet. Above the limit the code calls
-- `reset_state` while it holds the lock of `current_digit`, which the method takes; the locks are not
-- modelled, and the model resets and returns.
unfoldable pub finish : DtmfDetector → ℕ → DtmfPayload → DtmfDetector × Option DetectedDtmf
unfolding track_duration reset_state complete
finish d timestamp dtmf =
    let tracked : DtmfDetector = track_duration d dtmf.duration in
    let total_duration : ℕ = dtmf.duration + tracked.duration_flip in
    if ltb 240000 total_duration
    then (reset_state tracked, none)
    else if dtmf.is_end
    then elim d.current_digit [
      | none ↦ (tracked, none)
      | some digit ↦ complete tracked digit timestamp total_duration
    ]
    else (tracked, none)

-- a packet with a new timestamp: the digit before is completed and the new one begins
unfoldable pub begin_new :
    DtmfDetector → ℕ → ℕ → ℕ → DtmfPayload → DtmfEvent → DtmfDetector × Option DetectedDtmf
unfolding force_complete report finish
begin_new d now sequence timestamp dtmf event =
    let completed : DtmfDetector = elim d.current_digit [
      | none ↦ d
      | some prev ↦ force_complete d prev
    ] in
    let begun : DtmfDetector = record completed {
      current_digit = some event;
      last_in_digit_ts = timestamp;
      last_duration = 0;
      duration_flip = 0;
      prev_seq = sequence;
      first_packet_ts = timestamp;
      digit_start_time = some now;
    } in
    if d.rtp_bugs.ignore_duration
    then report begun event timestamp 50 false
    else finish begun timestamp dtmf

-- a packet of the digit in progress, which has its event
unfoldable pub same_digit :
    DtmfDetector → ℕ → DtmfPayload → DtmfEvent → DtmfDetector × Option DetectedDtmf
unfolding code finish
same_digit d timestamp dtmf event = elim d.current_digit [
  | none ↦ finish d timestamp dtmf
  | some current ↦ if code event == code current then finish d timestamp dtmf else (d, none)
]

-- `process_rtp`, from the guard against reordered packets on
unfoldable pub use_packet :
    DtmfDetector → ℕ → ℕ → ℕ → DtmfPayload → DtmfEvent → DtmfDetector × Option DetectedDtmf
unfolding advance stuck reset_state check_timeout begin_new same_digit
use_packet d now sequence timestamp dtmf event =
    if stuck d timestamp
    then (reset_state (advance d sequence timestamp), none)
    else (let checked : DtmfDetector = check_timeout (advance d sequence timestamp) now timestamp in
        if timestamp == checked.last_in_digit_ts
        then same_digit checked timestamp dtmf event
        else begin_new checked now sequence timestamp dtmf event)

-- `process_rtp`, once the payload is parsed
unfoldable pub process_event :
    DtmfDetector → ℕ → ℕ → ℕ → DtmfPayload → DtmfEvent → DtmfDetector × Option DetectedDtmf
unfolding overlaps reordered use_packet
process_event d now sequence timestamp dtmf event =
    if overlaps d timestamp dtmf.is_end || reordered d sequence timestamp
    then (d, none)
    else use_packet d now sequence timestamp dtmf event

-- `process_rtp`
unfoldable pub process_rtp :
    DtmfDetector → ℕ → ℕ → ℕ → ℕ → List ℕ → DtmfDetector × Option DetectedDtmf
unfolding accepts_pt parse from_code latch process_event
process_rtp d now payload_type sequence timestamp payload =
    if accepts_pt d payload_type
    then elim (parse payload) [
      | none ↦ (d, none)
      | some dtmf ↦ elim (from_code dtmf.event) [
        | none ↦ (d, none)
        | some event ↦ process_event (latch d payload_type) now sequence timestamp dtmf event
      ]
    ]
    else (d, none)
