-- ===== src/Dtmf/Payload/Laws.antt =====
-- The round trips of the events and of their payload, src/rtp/dtmf.rs.
use rtp_sip_module.Prelude.{
  ℕ, ◌+◌, ◌*◌, ◌/◌, ◌%◌, ◌^◌, ◌<◌, ◌≤◌, ◌≡◌, refl, Bool, true, false, none, some, if◌then◌else◌,
  ltb, ◌==◌, arith,
}
use rtp_sip_module.Dtmf.{
  DtmfEvent, digit0, digit1, digit2, digit3, digit4, digit5, digit6, digit7, digit8, digit9, star,
  pound, letter_a, letter_b, letter_c, letter_d, code, from_code, from_char, to_char,
}
use rtp_sip_module.Dtmf.Payload.{DtmfPayload, is_padded, parse_fields, parse, serialize}

-- An event is found again by its code and by its character.
pub from-to_char :
    (e : DtmfEvent) → (from_code (code e) ≡ some e) × (from_char (to_char e) ≡ some e)
unfolding from_code from_char code to_char
from-to_char digit0 = (refl, refl)
from-to_char digit1 = (refl, refl)
from-to_char digit2 = (refl, refl)
from-to_char digit3 = (refl, refl)
from-to_char digit4 = (refl, refl)
from-to_char digit5 = (refl, refl)
from-to_char digit6 = (refl, refl)
from-to_char digit7 = (refl, refl)
from-to_char digit8 = (refl, refl)
from-to_char digit9 = (refl, refl)
from-to_char star = (refl, refl)
from-to_char pound = (refl, refl)
from-to_char letter_a = (refl, refl)
from-to_char letter_b = (refl, refl)
from-to_char letter_c = (refl, refl)
from-to_char letter_d = (refl, refl)

flag_of :
    (b : Bool) (volume : ℕ)
    → volume < 64
    → ((((if b then 128 else 0) + volume % 64) / 128 % 2) == 1) ≡ b
flag_of true volume h = ground arith
flag_of false volume h = ground arith

volume_of :
    (b : Bool) (volume : ℕ) → volume < 64 → ((if b then 128 else 0) + volume % 64) % 64 ≡ volume
volume_of true volume h = omega arith
volume_of false volume h = omega arith

half : (n : ℕ) → n < 2 ^ 16 → n / 256 % 256 * 256 + n % 256 ≡ n
half n h = omega arith

allowed : (event : ℕ) → event ≤ 15 → ltb 15 event ≡ false
allowed event h = ground arith

-- A payload whose event is a digit's, with a volume below 64 and a 16-bit duration, is parsed as it was
-- serialized.
pub parse-serialize :
    (p : DtmfPayload)
    → p.event ≤ 15
    → p.volume < 64
    → p.duration < 2 ^ 16
    → parse (serialize p) ≡ some p
unfolding parse serialize is_padded parse_fields
parse-serialize p e v d = λ i.
    if allowed p.event e i
    then none
    else some (record {
      event = p.event;
      is_end = flag_of p.is_end p.volume v i;
      volume = volume_of p.is_end p.volume v i;
      duration = half p.duration d i;
    })
