-- ===== src/Prelude/Bytes.antt =====
-- Byte strings: a byte at an offset, and the big-endian numbers of the network formats.
use Prim.Native.Nat.{bit_xor, ℕ, zero, suc, ◌+◌, ◌*◌, ◌/◌, ◌%◌, ◌<◌}
use mathlib.Core.Path.{◌≡◌, refl, ap, ap₂}
use mathlib.Core.List.{List, [], ◌∷◌, ◌++◌}
use native.Mathlib.Omega.{arith}
use rtp_sip_module.Prelude.Bits.{bit_xor-bit_xor}
use rtp_sip_module.Prelude.Lists.{length, get_or, take, drop}

-- `data[i]`; the code reads only where its length checks allow.
abbrev pub byte : List ℕ → ℕ → ℕ
byte bytes i = get_or bytes i 0

-- `u16::from_be_bytes([bytes[i], bytes[i + 1]])`
unfoldable pub u16_at : List ℕ → ℕ → ℕ
u16_at bytes i = byte bytes i * 256 + byte bytes (i + 1)

-- `u32::from_be_bytes` of the four bytes at `i`
unfoldable pub u32_at : List ℕ → ℕ → ℕ
u32_at bytes i =
    byte bytes i * 16777216
    + byte bytes (i + 1) * 65536
    + byte bytes (i + 2) * 256
    + byte bytes (i + 3)

-- `to_be_bytes` of a `u16`, of a `u32`, and the low six bytes of a `u64`
abbrev pub be16 : ℕ → List ℕ
be16 n = n / 256 % 256 ∷ n % 256 ∷ []

abbrev pub be32 : ℕ → List ℕ
be32 n = n / 16777216 % 256 ∷ n / 65536 % 256 ∷ n / 256 % 256 ∷ n % 256 ∷ []

abbrev pub be48 : ℕ → List ℕ
be48 n = n / 1099511627776 % 256 ∷ n / 4294967296 % 256 ∷ be32 n

-- `for i in 0..n { a[i] ^= b[i] }`, over as many bytes as `b` has
unfoldable pub xor_bytes : List ℕ → List ℕ → List ℕ
xor_bytes [] bs = []
xor_bytes (a ∷ as_) [] = a ∷ as_
xor_bytes (a ∷ as_) (b ∷ bs) = bit_xor a b ∷ xor_bytes as_ bs

pub length-xor_bytes : (xs ys : List ℕ) → length (xor_bytes xs ys) ≡ length xs
unfolding xor_bytes
length-xor_bytes [] ys = refl
length-xor_bytes (x ∷ xs) [] = refl
length-xor_bytes (x ∷ xs) (y ∷ ys) = ap suc (length-xor_bytes xs ys)

pub xor_bytes_twice : (xs ys : List ℕ) → xor_bytes (xor_bytes xs ys) ys ≡ xs
unfolding xor_bytes
xor_bytes_twice [] ys = refl
xor_bytes_twice (x ∷ xs) [] = refl
xor_bytes_twice (x ∷ xs) (y ∷ ys) = ap₂ ◌∷◌ (bit_xor-bit_xor x y) (xor_bytes_twice xs ys)

-- Every element is a byte.
abbrev pub AllBytes : List ℕ → Type 0
AllBytes [] = Unit
AllBytes (b ∷ bytes) = (b < 256) × AllBytes bytes

pub byte-append_left : (xs ys : List ℕ) (i : ℕ) → i < length xs → byte (xs ++ ys) i ≡ byte xs i
byte-append_left [] ys i h = elim h [ ]
byte-append_left (x ∷ xs) ys zero h = refl
byte-append_left (x ∷ xs) ys (suc i) h = byte-append_left xs ys i (omega arith)

pub byte-take : (n : ℕ) (xs : List ℕ) (i : ℕ) → i < n → byte (take n xs) i ≡ byte xs i
byte-take zero xs i h = elim h [ ]
byte-take (suc n) [] i h = refl
byte-take (suc n) (x ∷ xs) zero h = refl
byte-take (suc n) (x ∷ xs) (suc i) h = byte-take n xs i (omega arith)

pub byte-lt : (bytes : List ℕ) (i : ℕ) → AllBytes bytes → byte bytes i < 256
byte-lt [] i h = omega arith
byte-lt (x ∷ bytes) zero h = h.0
byte-lt (x ∷ bytes) (suc i) h = byte-lt bytes i h.1

module _ {ℓ} {A : Type ℓ} where
  pub take-append_self : (n : ℕ) (xs ys : List A) → length xs ≡ n → take n (xs ++ ys) ≡ xs
  take-append_self zero [] ys h = refl
  take-append_self (suc n) [] ys h = absurd (omega arith)
  take-append_self zero (x ∷ xs) ys h = absurd (omega arith)
  take-append_self (suc n) (x ∷ xs) ys h = ap (λ t. x ∷ t) (take-append_self n xs ys (omega arith))

  pub drop-append_self : (n : ℕ) (xs ys : List A) → length xs ≡ n → drop n (xs ++ ys) ≡ ys
  drop-append_self zero [] ys h = refl
  drop-append_self (suc n) [] ys h = absurd (omega arith)
  drop-append_self zero (x ∷ xs) ys h = absurd (omega arith)
  drop-append_self (suc n) (x ∷ xs) ys h = drop-append_self n xs ys (omega arith)
