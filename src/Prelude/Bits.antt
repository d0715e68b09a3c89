-- ===== src/Prelude/Bits.antt =====
-- The bit operations on words of any width, digit by digit.
use Prim.Native.Nat.{
  ℕ, zero, suc, ◌+◌, ◌-◌, ◌*◌, ◌/◌, ◌%◌, ◌^◌, ◌≤◌, ◌<◌, min, max, bit_and, bit_or, bit_xor, differ,
  digits, bitwise, bit_and-bitwise, bit_or-bitwise, bit_xor-bitwise,
}
use mathlib.Core.Path.{◌≡◌, refl, ap, ap₂, sym, ◌∙◌}
use mathlib.Core.Logic.{◌≢◌}
use native.Mathlib.Nat.{
  pow-suc, one-le-pow, div-add-mod, mod-lt, mul-add-mod_self_left, mod-eq_of_lt, mul-one, sub-zero,
}
use native.Mathlib.Decide.{ℕ_discrete}
use native.Mathlib.Omega.{arith}
use rtp_sip_module.Prelude.Tests.{◌==◌, if◌then◌else◌}

-- The operations go through the digits on fuel; any fuel that is at least the first number gives the
-- same result.
module _ (digit : ℕ → ℕ → ℕ) (tail : ℕ → ℕ) where
  same_digits :
      (a b : ℕ) {m n : ℕ} → (a ≤ m) × (a ≤ n) → digits tail digit m a b ≡ digits tail digit n a b
  same_digits zero b {m = zero} {n = zero} le = refl
  same_digits zero b {m = zero} {n = suc n} le = refl
  same_digits zero b {m = suc m} {n = zero} le = refl
  same_digits zero b {m = suc m} {n = suc n} le = refl
  same_digits (suc a) b {m = zero} le = absurd (omega arith)
  same_digits (suc a) b {m = suc m} {n = zero} le = absurd (omega arith)
  same_digits (suc a) b {m = suc m} {n = suc n} (p, q) =
      ap (λ w. w * 2 + digit (suc a % 2) (b % 2))
        (same_digits (suc a / 2) (b / 2) {m = m} {n = n} (omega arith, omega arith))

  last_digit :
      (a b : ℕ)
      → bitwise tail digit (suc a) b
        ≡ bitwise tail digit (suc a / 2) (b / 2) * 2 + digit (suc a % 2) (b % 2)
  last_digit a b =
      omega
        (arith, same_digits (suc a / 2) (b / 2) {m = a} {n = suc a / 2} (omega arith, omega arith))

pub bit_and_digit : (a b : ℕ) → bit_and a b ≡ bit_and (a / 2) (b / 2) * 2 + min (a % 2) (b % 2)
bit_and_digit zero b = simp bit_and-bitwise (omega arith)
bit_and_digit (suc a) b = simp bit_and-bitwise (last_digit min (λ y. 0) a b)

pub bit_or_digit : (a b : ℕ) → bit_or a b ≡ bit_or (a / 2) (b / 2) * 2 + max (a % 2) (b % 2)
bit_or_digit zero b = simp bit_or-bitwise (omega arith)
bit_or_digit (suc a) b = simp bit_or-bitwise (last_digit max (λ y. y) a b)

pub bit_xor_digit : (a b : ℕ) → bit_xor a b ≡ bit_xor (a / 2) (b / 2) * 2 + differ (a % 2) (b % 2)
bit_xor_digit zero b = simp bit_xor-bitwise (omega arith)
bit_xor_digit (suc a) b = simp bit_xor-bitwise (last_digit differ (λ y. y) a b)

shift_once : (k q : ℕ) → q * 2 ^ suc k ≡ 2 * (q * 2 ^ k)
shift_once k q = omega (arith, ap (λ (power : ℕ). q * power) (pow-suc 2 k))

-- Bit `d` of a word.
pub bit : ℕ → ℕ → ℕ
bit w zero = w % 2
bit w (suc d) = bit (w / 2) d

pub bit-le-one : (w d : ℕ) → bit w d ≤ 1
unfolding bit
bit-le-one w zero = omega arith
bit-le-one w (suc d) = bit-le-one (w / 2) d

pub bit-zero : (d : ℕ) → bit 0 d ≡ 0
unfolding bit
bit-zero zero = refl
bit-zero (suc d) = bit-zero d

half-bit_or : (a b : ℕ) → bit_or a b / 2 ≡ bit_or (a / 2) (b / 2)
half-bit_or a b = omega (arith, bit_or_digit a b)

half-bit_and : (a b : ℕ) → bit_and a b / 2 ≡ bit_and (a / 2) (b / 2)
half-bit_and a b = omega (arith, bit_and_digit a b)

differ-le-one : (x y : ℕ) → x ≤ 1 → y ≤ 1 → differ x y ≤ 1
differ-le-one zero _ p q = q
differ-le-one (suc zero) zero p q = p
differ-le-one (suc zero) (suc y) p q = omega arith
differ-le-one (suc (suc x)) y p q = absurd (omega arith)

half-bit_xor : (a b : ℕ) → bit_xor a b / 2 ≡ bit_xor (a / 2) (b / 2)
half-bit_xor a b =
    omega (arith, bit_xor_digit a b, differ-le-one (a % 2) (b % 2) (omega arith) (omega arith))

pub bit-bit_or : (a b d : ℕ) → bit (bit_or a b) d ≡ max (bit a d) (bit b d)
unfolding bit
bit-bit_or a b zero = omega (arith, bit_or_digit a b)
bit-bit_or a b (suc d) = ap (λ w. bit w d) (half-bit_or a b) ∙ bit-bit_or (a / 2) (b / 2) d

pub bit-bit_and : (a b d : ℕ) → bit (bit_and a b) d ≡ min (bit a d) (bit b d)
unfolding bit
bit-bit_and a b zero = omega (arith, bit_and_digit a b)
bit-bit_and a b (suc d) = ap (λ w. bit w d) (half-bit_and a b) ∙ bit-bit_and (a / 2) (b / 2) d

pub bit-bit_xor : (a b d : ℕ) → bit (bit_xor a b) d ≡ differ (bit a d) (bit b d)
unfolding bit
bit-bit_xor a b zero =
    omega (arith, bit_xor_digit a b, differ-le-one (a % 2) (b % 2) (omega arith) (omega arith))
bit-bit_xor a b (suc d) = ap (λ w. bit w d) (half-bit_xor a b) ∙ bit-bit_xor (a / 2) (b / 2) d

-- Words with the same bits are equal.
bit_ext_below : (n a b : ℕ) → a ≤ n → b ≤ n → ((d : ℕ) → bit a d ≡ bit b d) → a ≡ b
unfolding bit
bit_ext_below zero a b p q h = omega arith
bit_ext_below (suc n) a b p q h =
    omega (arith, h 0, bit_ext_below n (a / 2) (b / 2) (omega arith) (omega arith) (λ d. h (suc d)))

pub bit_ext : (a b : ℕ) → ((d : ℕ) → bit a d ≡ bit b d) → a ≡ b
bit_ext a b h = bit_ext_below (a + b) a b (omega arith) (omega arith) h

differ_twice : (x y : ℕ) → x ≤ 1 → y ≤ 1 → differ (differ x y) y ≡ x
differ_twice zero zero p q = refl
differ_twice zero (suc zero) p q = refl
differ_twice (suc zero) zero p q = refl
differ_twice (suc zero) (suc zero) p q = refl
differ_twice zero (suc (suc y)) p q = absurd (omega arith)
differ_twice (suc zero) (suc (suc y)) p q = absurd (omega arith)
differ_twice (suc (suc x)) y p q = absurd (omega arith)

-- Exclusive or with the same word twice changes nothing.
pub bit_xor-bit_xor : (a b : ℕ) → bit_xor (bit_xor a b) b ≡ a
bit_xor-bit_xor a b = bit_ext _ _ λ d.
    bit-bit_xor (bit_xor a b) b d
    ∙ ap (λ x. differ x (bit b d)) (bit-bit_xor a b d)
    ∙ differ_twice (bit a d) (bit b d) (bit-le-one a d) (bit-le-one b d)

bit_two-pow_self : (d : ℕ) → bit (2 ^ d) d ≡ 1
unfolding bit
bit_two-pow_self zero = refl
bit_two-pow_self (suc d) = ap (λ w. bit w d) (omega (arith, pow-suc 2 d)) ∙ bit_two-pow_self d

bit_two-pow_ne : (d e : ℕ) → d ≢ e → bit (2 ^ d) e ≡ 0
unfolding bit
bit_two-pow_ne zero zero h = absurd (h refl)
bit_two-pow_ne zero (suc e) h = bit-zero e
bit_two-pow_ne (suc d) zero h = omega (arith, pow-suc 2 d)
bit_two-pow_ne (suc d) (suc e) h =
    ap (λ w. bit w e) (omega (arith, pow-suc 2 d)) ∙ bit_two-pow_ne d e (λ p. h (ap suc p))

bit_and-zero : (a : ℕ) → bit_and a 0 ≡ 0
bit_and-zero a = bit_ext _ _ λ d. omega (arith, bit-bit_and a 0 d, bit-zero d, bit-le-one a d)

-- `w & (1 << d)` is bit `d` of `w`, in its place.
pub bit_and-two-pow : (w d : ℕ) → bit_and w (2 ^ d) ≡ bit w d * 2 ^ d
unfolding bit
bit_and-two-pow w zero = omega (arith, bit_and_digit w 1, bit_and-zero (w / 2))
bit_and-two-pow w (suc d) = omega (
  arith,
  bit_and_digit w (2 ^ suc d),
  pow-suc 2 d,
  ap (λ t. bit_and (w / 2) t) half,
  bit_and-two-pow (w / 2) d,
  shift_once d (bit (w / 2) d),
)
  where
    half : 2 ^ suc d / 2 ≡ 2 ^ d
    half = omega (arith, pow-suc 2 d)

-- A shift to the left.
pub bit-mul-two-pow_below : (w s d : ℕ) → d < s → bit (w * 2 ^ s) d ≡ 0
unfolding bit
bit-mul-two-pow_below w zero d h = elim h [ ]
bit-mul-two-pow_below w (suc s) zero h = omega (arith, shift_once s (w))
bit-mul-two-pow_below w (suc s) (suc d) h =
    ap (λ t. bit t d) (omega (arith, shift_once s (w))) ∙ bit-mul-two-pow_below w s d (omega arith)

pub bit-mul-two-pow_above : (w s d : ℕ) → s ≤ d → bit (w * 2 ^ s) d ≡ bit w (d - s)
unfolding bit
bit-mul-two-pow_above w zero d h = simp (mul-one, sub-zero)
bit-mul-two-pow_above w (suc s) zero h = elim h [ ]
bit-mul-two-pow_above w (suc s) (suc d) h =
    ap (λ t. bit t d) (omega (arith, shift_once s (w)))
    ∙ bit-mul-two-pow_above w s d (omega arith)
    ∙ ap (λ k. bit w k) {x = d - s} {y = suc d - suc s} (omega arith)

-- Truncation to `n` bits.
half-mod-two-pow : (w n : ℕ) → w % 2 ^ suc n / 2 ≡ w / 2 % 2 ^ n
half-mod-two-pow w n =
    sym (mod-eq_of_lt {n = rest} {m = 2 ^ n} small)
    ∙ sym (mul-add-mod_self_left (2 ^ n) (w / 2 ^ suc n) rest)
    ∙ ap (λ t. t % 2 ^ n) whole
  where
    rest : ℕ
    rest = w % 2 ^ suc n / 2

    positive : 1 ≤ 2 ^ suc n
    positive = one-le-pow (suc n) 2 (omega arith)

    small : rest < 2 ^ n
    small = omega (arith, pow-suc 2 n, mod-lt w positive)

    whole : 2 ^ n * (w / 2 ^ suc n) + rest ≡ w / 2
    whole = omega (arith, div-add-mod w (2 ^ suc n), shift_once n (w / 2 ^ suc n))

pub bit-mod-two-pow : (w n d : ℕ) → d < n → bit (w % 2 ^ n) d ≡ bit w d
unfolding bit
bit-mod-two-pow w zero d h = elim h [ ]
bit-mod-two-pow w (suc n) zero h =
    omega (arith, div-add-mod w (2 ^ suc n), shift_once n (w / 2 ^ suc n))
bit-mod-two-pow w (suc n) (suc d) h =
    ap (λ t. bit t d) (half-mod-two-pow w n) ∙ bit-mod-two-pow (w / 2) n d (omega arith)

-- Setting bit `d`.
pub bit_set : (w d e : ℕ) → bit (bit_or w (2 ^ d)) e ≡ (if d == e then 1 else bit w e)
bit_set w d e = elim (ℕ_discrete d e) [
  | yes p ↦
      ground (arith, bit-bit_or w (2 ^ d) e, ap (bit (2 ^ d)) p, bit_two-pow_self d, bit-le-one w e)
  | no p ↦ ground (arith, bit-bit_or w (2 ^ d) e, bit_two-pow_ne d e p)
]

differ-zero : (x : ℕ) → differ x 0 ≡ x
differ-zero zero = refl
differ-zero (suc x) = refl

pub bit_xor-zero : (a : ℕ) → bit_xor a 0 ≡ a
bit_xor-zero a =
    bit_ext _ _ λ d. bit-bit_xor a 0 d ∙ ap (differ (bit a d)) (bit-zero d) ∙ differ-zero (bit a d)

differ_self : (x : ℕ) → differ x x ≡ 0
differ_self zero = refl
differ_self (suc x) = differ_self x

pub bit_xor_self : (a : ℕ) → bit_xor a a ≡ 0
bit_xor_self a = bit_ext _ _ λ d. bit-bit_xor a a d ∙ differ_self (bit a d) ∙ sym (bit-zero d)

only_zero : (a : ℕ) → a < 2 ^ 0 → a ≡ 0
only_zero a h = omega arith

-- An exclusive or of two numbers of n bits has n bits.
pub bit_xor-lt : (n a b : ℕ) → a < 2 ^ n → b < 2 ^ n → bit_xor a b < 2 ^ n
bit_xor-lt zero a b p q = omega (arith, ap₂ bit_xor (only_zero a p) (only_zero b q), bit_xor-zero 0)
bit_xor-lt (suc n) a b p q = omega (
  arith,
  pow-suc 2 n,
  bit_xor_digit a b,
  differ-le-one (a % 2) (b % 2) (omega arith) (omega arith),
  bit_xor-lt n (a / 2) (b / 2) (omega (arith, pow-suc 2 n)) (omega (arith, pow-suc 2 n)),
)
