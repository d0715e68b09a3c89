-- ===== src/Dtmf.antt =====
-- The telephone events of src/rtp/dtmf.rs: the events, their payload, the sender and the detector. A `char` is its
-- code point.
mod Tests
pub mod Payload
pub mod Flags
pub mod Sender
pub mod Detector
pub mod Process
use rtp_sip_module.Prelude.{
  ℕ, ◌-◌, Option, none, some, List, [], ◌∷◌, ◌&&◌, if◌then◌else◌, leb, ◌==◌, get_elem?,
}

-- `DtmfEvent`
pub data DtmfEvent : Type 0 where
  digit0 : DtmfEvent
  digit1 : DtmfEvent
  digit2 : DtmfEvent
  digit3 : DtmfEvent
  digit4 : DtmfEvent
  digit5 : DtmfEvent
  digit6 : DtmfEvent
  digit7 : DtmfEvent
  digit8 : DtmfEvent
  digit9 : DtmfEvent
  star : DtmfEvent
  pound : DtmfEvent
  letter_a : DtmfEvent
  letter_b : DtmfEvent
  letter_c : DtmfEvent
  letter_d : DtmfEvent

-- `code`
unfoldable pub code : DtmfEvent → ℕ
code digit0 = 0
code digit1 = 1
code digit2 = 2
code digit3 = 3
code digit4 = 4
code digit5 = 5
code digit6 = 6
code digit7 = 7
code digit8 = 8
code digit9 = 9
code star = 10
code pound = 11
code letter_a = 12
code letter_b = 13
code letter_c = 14
code letter_d = 15

-- the events in the order of their codes
abbrev pub all_events : List DtmfEvent
all_events =
    digit0 ∷ digit1 ∷ digit2 ∷ digit3 ∷ digit4 ∷ digit5 ∷ digit6 ∷ digit7 ∷ digit8 ∷ digit9 ∷ star
    ∷ pound ∷ letter_a ∷ letter_b ∷ letter_c ∷ letter_d ∷ []

-- `from_code`: the match on the numbers from 0 to 15
unfoldable pub from_code : ℕ → Option DtmfEvent
from_code n = get_elem? all_events n

-- `from_char`: the figures, the letters of both cases, the star and the hash
unfoldable pub from_char : ℕ → Option DtmfEvent
from_char c =
    if leb 48 c && leb c 57
    then get_elem? all_events (c - 48)
    else if leb 65 c && leb c 68
    then get_elem? all_events (c - 53)
    else if leb 97 c && leb c 100
    then get_elem? all_events (c - 85)
    else if c == 42
    then some star
    else if c == 35
    then some pound
    else none

-- `to_char`
unfoldable pub to_char : DtmfEvent → ℕ
to_char digit0 = 48
to_char digit1 = 49
to_char digit2 = 50
to_char digit3 = 51
to_char digit4 = 52
to_char digit5 = 53
to_char digit6 = 54
to_char digit7 = 55
to_char digit8 = 56
to_char digit9 = 57
to_char star = 42
to_char pound = 35
to_char letter_a = 65
to_char letter_b = 66
to_char letter_c = 67
to_char letter_d = 68
