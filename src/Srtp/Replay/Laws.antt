-- ===== src/Srtp/Replay/Laws.antt =====
-- A replay window and the indices that it stands for: src/rtp/srtp.rs.
use rtp_sip_module.Prelude.{
  ℕ, ◌-◌, ◌*◌, ◌%◌, ◌^◌, ◌≤◌, ◌<◌, bit_and, ◌≡◌, Bool, true, false, ◌||◌, ◌&&◌, not, List, [], ◌∷◌,
  ltb, leb, ◌==◌, if◌then◌else◌, arith,
}
use native.Mathlib.Nat.{one-le-pow}
use rtp_sip_module.Prelude.Bits.{
  bit, bit-le-one, bit-zero, bit_set, bit_and-two-pow, bit-mul-two-pow_below, bit-mul-two-pow_above,
  bit-mod-two-pow,
}
use rtp_sip_module.Srtp.Replay.{check_replay, accept_window, accept_base}

abbrev pub contains : List ℕ → ℕ → Bool
contains [] i = false
contains (x ∷ xs) i = x == i || contains xs i

-- The window and its base stand for the indices `seen`: none is above the base, and bit `d` is set
-- exactly for the seen ones.
pub record Tracks (width window base : ℕ) (seen : List ℕ) : Type 0 where
  pub newest : (i : ℕ) → contains seen i ≡ true → i ≤ base
  pub marks :
      (d : ℕ) → d < width → d ≤ base → bit window d ≡ (if contains seen (base - d) then 1 else 0)

pub Tracks-empty : (width : ℕ) → Tracks width 0 0 []
Tracks-empty width = record { newest = λ i h. cc; marks = λ d h k. bit-zero d }

-- A set bit is seen by the mask test.
pub test_bit : (w d : ℕ) → (bit_and w (2 ^ d) == 0) ≡ (bit w d == 0)
test_bit w d = ground (arith, bit_and-two-pow w d, bit-le-one w d, one-le-pow d 2)

-- A valid window allows exactly the indices that are newer than its base, or lie inside its width
-- and have not been accepted.
pub check_replay_exact :
    (width window base : ℕ) (seen : List ℕ) (index : ℕ)
    → Tracks width window base seen
    → check_replay width window base index
      ≡ (ltb base index || (ltb (base - index) width && not (contains seen index)))
unfolding check_replay
check_replay_exact width window base seen index v =
    ground (arith, test_bit window (base - index), v.marks (base - index))

-- The window moved on by `shift`.
bit-shift :
    (width window shift d : ℕ)
    → d < width
    → bit (if leb width shift then 0 else window * 2 ^ shift % 2 ^ width) d
      ≡ (if ltb d shift then 0 else bit window (d - shift))
bit-shift width window shift d h = ground (
  arith,
  bit-zero d,
  bit-mod-two-pow (window * 2 ^ shift) width d,
  bit-mul-two-pow_below window shift d,
  bit-mul-two-pow_above window shift d,
)

-- Accepting an index adds it to what the window stands for.
pub accept-Tracks :
    (width window base : ℕ) (seen : List ℕ) (index : ℕ)
    → Tracks width window base seen
    → Tracks width (accept_window width window base index) (accept_base base index) (index ∷ seen)
unfolding accept_window accept_base
accept-Tracks width window base seen index v = record {
  newest = λ i h. ground (arith, v.newest i);
  marks = λ d h k. ground (
    arith,
    bit_set (if leb width (index - base) then 0 else window * 2 ^ (index - base) % 2 ^ width) 0 d,
    bit-shift width window (index - base) d,
    bit_set window (base - index) d,
    v.marks d,
    v.marks (d - (index - base)),
    v.newest (index - d),
  );
}

-- An index that was just accepted is not allowed again.
pub check_replay-accept :
    (width window base index : ℕ)
    → 0 < width
    → check_replay width (accept_window width window base index) (accept_base base index) index
      ≡ false
unfolding check_replay accept_window accept_base
check_replay-accept width window base index w = ground (
  arith,
  test_bit (accept_window width window base index) (accept_base base index - index),
  bit_set (if leb width (index - base) then 0 else window * 2 ^ (index - base) % 2 ^ width) 0 0,
  bit_set window (base - index) (base - index),
)
