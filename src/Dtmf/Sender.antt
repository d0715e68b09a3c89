-- ===== src/Dtmf/Sender.antt =====
-- `DtmfSender` of src/rtp/dtmf.rs. The shared sequence counter is passed in and returned.
pub mod Numbered
pub mod Whole
use rtp_sip_module.Prelude.{
  ℕ, zero, suc, ◌+◌, ◌-◌, ◌*◌, ◌/◌, ◌%◌, ◌^◌, Bool, true, false, ◌||◌, Option, none, some, List, [],
  ◌∷◌, ◌++◌, if◌then◌else◌, leb, ◌==◌, min, max,
}
use rtp_sip_module.Dtmf.{DtmfEvent, from_char}
use rtp_sip_module.Dtmf.Payload.{DtmfPayload, payload_new, serialize, ms_to_timestamp}
use rtp_sip_module.Dtmf.Flags.{RtpBugFlags, no_flags}

-- `DtmfSender`
pub record DtmfSender : Type 0 where
  pub payload_type : ℕ
  pub ssrc : ℕ
  pub digit_timestamp : ℕ
  pub out_digit : Option DtmfEvent
  pub out_digit_sofar : ℕ
  pub out_digit_dur : ℕ
  pub rtp_bugs : RtpBugFlags

-- `DtmfPacket`
pub record DtmfPacket : Type 0 where
  pub payload_type : ℕ
  pub sequence : ℕ
  pub timestamp : ℕ
  pub ssrc : ℕ
  pub marker : Bool
  pub payload : List ℕ

-- `new`
unfoldable pub sender_new : ℕ → DtmfSender
sender_new ssrc = record {
  payload_type = 101;
  ssrc = ssrc;
  digit_timestamp = 0;
  out_digit = none;
  out_digit_sofar = 0;
  out_digit_dur = 0;
  rtp_bugs = no_flags;
}

-- `with_payload_type`
unfoldable pub with_payload_type : ℕ → ℕ → DtmfSender
unfolding sender_new
with_payload_type ssrc payload_type = record (sender_new ssrc) { payload_type = payload_type }

-- `with_rtp_bugs`
unfoldable pub with_rtp_bugs : ℕ → RtpBugFlags → DtmfSender
unfolding sender_new
with_rtp_bugs ssrc rtp_bugs = record (sender_new ssrc) { rtp_bugs = rtp_bugs }

-- `set_rtp_bugs`
unfoldable pub set_rtp_bugs : DtmfSender → RtpBugFlags → DtmfSender
set_rtp_bugs s bugs = record s { rtp_bugs = bugs }

-- `enable_sonus_mode`
unfoldable pub enable_sonus_mode : DtmfSender → DtmfSender
enable_sonus_mode s = record s {
  rtp_bugs = record s.rtp_bugs { sonus_dtmf_timestamp = true; never_send_marker = true };
}

-- the sender, the counter and what was built
abbrev pub Built : Type 0 → Type 0
Built A = (DtmfSender × ℕ) × A

-- `build_packet`
unfoldable pub build_packet : DtmfSender → DtmfPayload → Bool → ℕ → Built DtmfPacket
unfolding serialize
build_packet s payload marker seq = (
  (
    if s.rtp_bugs.sonus_dtmf_timestamp
        then record s { digit_timestamp = (s.digit_timestamp + 160) % 2 ^ 32 }
        else s,
    (seq + 1) % 2 ^ 16,
  ),
  record {
    payload_type = s.payload_type;
    sequence = seq;
    timestamp = s.digit_timestamp;
    ssrc = s.ssrc;
    marker =
        if s.rtp_bugs.never_send_marker || s.rtp_bugs.sonus_dtmf_timestamp then false else marker;
    payload = serialize payload;
  },
)

-- the three last packets of the Sonus mode, each built by itself
unfoldable pub build_three : DtmfSender → DtmfPayload → ℕ → Built (List DtmfPacket)
unfolding build_packet
build_three s payload seq =
    let first : Built DtmfPacket = build_packet s payload false seq in
    let second : Built DtmfPacket = build_packet first.0.0 payload false first.0.1 in
    let third : Built DtmfPacket = build_packet second.0.0 payload false second.0.1 in
    (third.0, first.1 ∷ second.1 ∷ third.1 ∷ [])

-- one packet and two copies of it; the timestamp moves on for the next digit
unfoldable pub build_copies : DtmfSender → DtmfPayload → ℕ → Built (List DtmfPacket)
unfolding build_packet
build_copies s payload seq =
    let base : Built DtmfPacket = build_packet s payload false seq in
    (
      (
        record base.0.0 { digit_timestamp = (base.0.0.digit_timestamp + s.out_digit_dur) % 2 ^ 32 },
        base.0.1,
      ),
      base.1 ∷ base.1 ∷ base.1 ∷ [],
    )

-- `end_digit`
unfoldable pub end_digit : DtmfSender → ℕ → Built (List DtmfPacket)
unfolding build_three build_copies payload_new
end_digit s seq = elim s.out_digit [
  | none ↦ ((s, seq), [])
  | some digit ↦
      let idle : DtmfSender = record s { out_digit = none } in
      let payload : DtmfPayload = payload_new digit true (min s.out_digit_sofar 65535) in
      if s.rtp_bugs.sonus_dtmf_timestamp
      then build_three idle payload seq
      else build_copies idle payload seq
]

-- the first packet of a digit, once the one before is ended
unfoldable pub begin_digit : DtmfSender → DtmfEvent → ℕ → ℕ → ℕ → ℕ → Built DtmfPacket
unfolding build_packet payload_new ms_to_timestamp
begin_digit s event duration_ms seq audio_timestamp interval_ms =
    let initial_duration : ℕ = ms_to_timestamp (max interval_ms 1) in
    let started : DtmfSender = record s {
      digit_timestamp = audio_timestamp;
      out_digit = some event;
      out_digit_dur = min (duration_ms * 8) 4294967295;
      out_digit_sofar = 0;
    } in
    let built : Built DtmfPacket =
      build_packet started (payload_new event false initial_duration) true seq in
    ((record built.0.0 { out_digit_sofar = initial_duration }, built.0.1), built.1)

-- `start_digit`; `none` is the error of a character that is no digit
unfoldable pub start_digit : DtmfSender → ℕ → ℕ → ℕ → ℕ → ℕ → Option (Built (List DtmfPacket))
unfolding from_char end_digit begin_digit
start_digit s digit duration_ms seq audio_timestamp interval_ms = elim (from_char digit) [
  | none ↦ none
  | some event ↦
      let ended : Built (List DtmfPacket) = end_digit s seq in
      let begun : Built DtmfPacket =
        begin_digit ended.0.0 event duration_ms ended.0.1 audio_timestamp interval_ms in
      some (begun.0, ended.1 ++ begun.1 ∷ [])
]

-- `continue_digit`
unfoldable pub continue_digit : DtmfSender → ℕ → ℕ → Built (Option DtmfPacket)
unfolding build_packet payload_new ms_to_timestamp
continue_digit s interval_ms seq = elim s.out_digit [
  | none ↦ ((s, seq), none)
  | some digit ↦
      if leb s.out_digit_dur s.out_digit_sofar
      then ((s, seq), none)
      else (let sofar : ℕ = (s.out_digit_sofar + ms_to_timestamp interval_ms) % 2 ^ 32 in
          let advanced : DtmfSender = record s { out_digit_sofar = sofar } in
          if leb s.out_digit_dur sofar
          then ((advanced, seq), none)
          else (let built : Built DtmfPacket =
                build_packet advanced (payload_new digit false (min sofar 65535)) false seq in
              (built.0, some built.1)))
]

-- `is_complete`
unfoldable pub is_complete : DtmfSender → Bool
is_complete s = elim s.out_digit [
  | none ↦ true
  | some digit ↦ leb s.out_digit_dur s.out_digit_sofar
]

abbrev pub add_packet : Option DtmfPacket → List DtmfPacket → List DtmfPacket
add_packet none packets = packets
add_packet (some p) packets = p ∷ packets

-- the loop of `generate_digit`
unfoldable pub continue_all : ℕ → DtmfSender → ℕ → ℕ → Built (List DtmfPacket)
unfolding continue_digit
continue_all zero s interval_ms seq = ((s, seq), [])
continue_all (suc n) s interval_ms seq =
    let one : Built (Option DtmfPacket) = continue_digit s interval_ms seq in
    let rest : Built (List DtmfPacket) = continue_all n one.0.0 interval_ms one.0.1 in
    (rest.0, add_packet one.1 rest.1)

-- what `generate_digit` does: it divides by the interval once the digit is started
pub data Generated : Type 0 where
  generated : Built (List DtmfPacket) → Generated
  invalid_digit : Generated
  division_by_zero : Generated

-- `generate_digit`; the sum of the two durations wraps around
unfoldable pub generate_digit : DtmfSender → ℕ → ℕ → ℕ → ℕ → ℕ → Generated
unfolding start_digit continue_all end_digit
generate_digit s digit duration_ms interval_ms seq audio_timestamp =
    elim (start_digit s digit duration_ms seq audio_timestamp interval_ms) [
      | none ↦ invalid_digit
      | some begun ↦
          if interval_ms == 0
          then division_by_zero
          else (let num_intervals : ℕ =
                max ((duration_ms + interval_ms + 2 ^ 32 - 1) % 2 ^ 32 / interval_ms) 1 in
              let middle : Built (List DtmfPacket) =
                continue_all num_intervals begun.0.0 interval_ms begun.0.1 in
              let ended : Built (List DtmfPacket) = end_digit middle.0.0 middle.0.1 in
              generated (ended.0, begun.1 ++ middle.1 ++ ended.1))
    ]

-- `to_rtp_bytes`
unfoldable pub to_rtp_bytes : DtmfPacket → List ℕ
to_rtp_bytes p =
    128
    ∷ ((if p.marker then 128 else 0) + p.payload_type % 128)
    ∷ p.sequence / 256 % 256
    ∷ p.sequence % 256
    ∷ p.timestamp / 16777216 % 256
    ∷ p.timestamp / 65536 % 256
    ∷ p.timestamp / 256 % 256
    ∷ p.timestamp % 256
    ∷ p.ssrc / 16777216 % 256
    ∷ p.ssrc / 65536 % 256
    ∷ p.ssrc / 256 % 256
    ∷ p.ssrc % 256
    ∷ p.payload
