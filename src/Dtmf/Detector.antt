-- ===== src/Dtmf/Detector.antt =====
-- `DtmfDetector` of src/rtp/dtmf.rs, called from one thread: its state and the tests of `process_rtp`. The wall
-- clock is in milliseconds.
use rtp_sip_module.Prelude.{
  ℕ, ◌+◌, ◌-◌, ◌*◌, ◌/◌, ◌%◌, ◌^◌, Bool, false, not, ◌&&◌, ◌||◌, Option, none, some, List, [], ◌∷◌,
  ◌++◌, if◌then◌else◌, leb, ltb, ◌==◌, min, max,
}
use rtp_sip_module.Dtmf.{DtmfEvent, to_char}
use rtp_sip_module.Dtmf.Flags.{RtpBugFlags, no_flags}

-- `DetectedDtmf`
pub record DetectedDtmf : Type 0 where
  pub digit : ℕ
  pub event : DtmfEvent
  pub duration_ms : ℕ
  pub is_end : Bool

-- `DtmfDetector`
pub record DtmfDetector : Type 0 where
  pub in_digit_seq : ℕ
  pub prev_seq : ℕ
  pub in_digit_ts : ℕ
  pub last_in_digit_ts : ℕ
  pub in_digit_sanity : ℕ
  pub last_duration : ℕ
  pub duration_flip : ℕ
  pub current_digit : Option DtmfEvent
  pub expected_pt : ℕ
  pub latched_pt : ℕ
  pub detected_queue : List DetectedDtmf
  pub last_end_timestamp : ℕ
  pub first_packet_ts : ℕ
  pub end_timeout_ms : ℕ
  pub digit_start_time : Option ℕ
  pub rtp_bugs : RtpBugFlags

-- `with_payload_type`; `new` is this with 101
unfoldable pub detector_new : ℕ → DtmfDetector
detector_new pt = record {
  in_digit_seq = 0;
  prev_seq = 0;
  in_digit_ts = 0;
  last_in_digit_ts = 0;
  in_digit_sanity = 0;
  last_duration = 0;
  duration_flip = 0;
  current_digit = none;
  expected_pt = pt;
  latched_pt = 0;
  detected_queue = [];
  last_end_timestamp = 0;
  first_packet_ts = 0;
  end_timeout_ms = 5000;
  digit_start_time = none;
  rtp_bugs = no_flags;
}

-- `set_expected_pt`
unfoldable pub set_expected_pt : DtmfDetector → ℕ → DtmfDetector
set_expected_pt d pt = record d { expected_pt = pt; latched_pt = pt }

-- `set_rtp_bugs`
unfoldable pub set_rtp_bugs : DtmfDetector → RtpBugFlags → DtmfDetector
set_rtp_bugs d bugs = record d { rtp_bugs = bugs }

-- `set_end_timeout_ms`
unfoldable pub set_end_timeout_ms : DtmfDetector → ℕ → DtmfDetector
set_end_timeout_ms d ms = record d { end_timeout_ms = ms }

-- `reset_state`
unfoldable pub reset_state : DtmfDetector → DtmfDetector
reset_state d = record d {
  in_digit_seq = 0;
  prev_seq = 0;
  in_digit_ts = 0;
  last_in_digit_ts = 0;
  in_digit_sanity = 0;
  last_duration = 0;
  duration_flip = 0;
  current_digit = none;
  last_end_timestamp = 0;
  first_packet_ts = 0;
  digit_start_time = none;
}

-- `reset`
unfoldable pub reset : DtmfDetector → DtmfDetector
unfolding reset_state
reset d = record (reset_state d) { detected_queue = [] }

-- the first tests of `process_rtp`: the payload type is the expected one, or any dynamic one and then
-- always the same
unfoldable pub accepts_pt : DtmfDetector → ℕ → Bool
accepts_pt d payload_type =
    if not (d.expected_pt == 0)
    then payload_type == d.expected_pt
    else (leb 96 payload_type && leb payload_type 127)
      && ((d.latched_pt == 0) || (payload_type == d.latched_pt))

-- the payload type is latched
unfoldable pub latch : DtmfDetector → ℕ → DtmfDetector
latch d payload_type =
    if (d.expected_pt == 0) && (d.latched_pt == 0)
    then record d { latched_pt = payload_type }
    else d

-- `a.wrapping_sub(b)` on `u32`, on `u16`
abbrev pub wrapping_sub32 : ℕ → ℕ → ℕ
wrapping_sub32 a b = (a + 4294967296 - b) % 4294967296

abbrev pub wrapping_sub16 : ℕ → ℕ → ℕ
wrapping_sub16 a b = (a + 65536 - b) % 65536

-- the overlap protection drops the packet
unfoldable pub overlaps : DtmfDetector → ℕ → Bool → Bool
overlaps d timestamp is_end =
    let last_end_ts : ℕ = d.last_end_timestamp in
    let gap : ℕ = wrapping_sub32 timestamp last_end_ts in
    not (last_end_ts == 0)
    && (if timestamp == last_end_ts then not is_end else ltb gap 640 && ltb gap 2147483648)

-- the packet is a duplicate or older, within its digit
unfoldable pub reordered : DtmfDetector → ℕ → ℕ → Bool
reordered d sequence timestamp =
    let diff : ℕ = wrapping_sub16 sequence d.prev_seq in
    (not (d.prev_seq == 0) && (timestamp == d.in_digit_ts)) && ((diff == 0) || ltb 32768 diff)

-- the swaps of the numbers and the count of packets with one timestamp
unfoldable pub advance : DtmfDetector → ℕ → ℕ → DtmfDetector
advance d sequence timestamp = record d {
  in_digit_ts = timestamp;
  in_digit_seq = sequence;
  prev_seq = sequence;
  in_digit_sanity = if timestamp == d.in_digit_ts then (d.in_digit_sanity + 1) % 2 ^ 32 else 0;
}

-- the count was over the limit before the packet
unfoldable pub stuck : DtmfDetector → ℕ → Bool
stuck d timestamp = (timestamp == d.in_digit_ts) && ltb 1500 d.in_digit_sanity

-- the digit in progress, reported without its last packet
unfoldable pub force_complete : DtmfDetector → DtmfEvent → DtmfDetector
unfolding to_char
force_complete d digit = record d {
  current_digit = none;
  last_end_timestamp = d.last_in_digit_ts;
  first_packet_ts = 0;
  digit_start_time = none;
  detected_queue =
      d.detected_queue
      ++ record {
        digit = to_char digit;
        event = digit;
        duration_ms = max ((d.last_duration + d.duration_flip) / 8) 50;
        is_end = false;
      }
        ∷ [];
}

-- the digit has lasted too long, by the timestamps or by the clock
unfoldable pub timed_out : DtmfDetector → ℕ → ℕ → Bool
timed_out d now timestamp =
    let elapsed_samples : ℕ = wrapping_sub32 timestamp d.first_packet_ts in
    (not (d.first_packet_ts == 0)
      && (ltb (min (d.end_timeout_ms * 8) 4294967295) elapsed_samples
          && ltb elapsed_samples 2147483648))
    || elim d.digit_start_time [
      | none ↦ false
      | some started ↦ ltb d.end_timeout_ms ((now - started) % 2 ^ 32)
    ]

-- the timeout of a missing end
unfoldable pub check_timeout : DtmfDetector → ℕ → ℕ → DtmfDetector
unfolding timed_out force_complete
check_timeout d now timestamp = elim d.current_digit [
  | none ↦ d
  | some digit ↦
      if timed_out d now timestamp
      then record (force_complete d digit) { duration_flip = 0; last_duration = 0 }
      else d
]

-- `pop_digit`
unfoldable pub pop_digit : DtmfDetector → DtmfDetector × Option DetectedDtmf
pop_digit d = elim d.detected_queue [
  | [] ↦ (d, none)
  | digit ∷ queue ↦ (record d { detected_queue = queue }, some digit)
]
