-- ===== src/Stun/Message/Offset.antt =====
-- The bytes behind an offset, for the loop of `unmarshal` of src/nat/stun/message.rs.
use rtp_sip_module.Prelude.{ℕ, zero, suc, ◌+◌, ◌*◌, ◌≡◌, ap, ap₂, ◌∙◌, List, [], ◌∷◌, drop, arith}
use rtp_sip_module.Prelude.Bytes.{byte, u16_at, u32_at}

pub drop-drop : (o k : ℕ) (xs : List ℕ) → drop (o + k) xs ≡ drop k (drop o xs)
drop-drop zero k xs = ap (λ n. drop n xs) {y = k} (omega arith)
drop-drop (suc o) zero [] = ap (λ n. drop n []) {y = suc o} (omega arith)
drop-drop (suc o) (suc k) [] = ap (λ n. drop n []) {y = suc (o + suc k)} (omega arith)
drop-drop (suc o) k (x ∷ xs) =
    ap (λ n. drop n (x ∷ xs)) {y = suc (o + k)} (omega arith) ∙ drop-drop o k xs

byte-drop : (o i : ℕ) (xs : List ℕ) → byte xs (o + i) ≡ byte (drop o xs) i
byte-drop zero i xs = ap (byte xs) {y = i} (omega arith)
byte-drop (suc o) i [] = ap (byte []) {x = suc o + i} {y = suc (o + i)} (omega arith)
byte-drop (suc o) i (x ∷ xs) = ap (byte (x ∷ xs)) {y = suc (o + i)} (omega arith) ∙ byte-drop o i xs

byte_at : (o i k : ℕ) (xs : List ℕ) → k ≡ o + i → byte xs k ≡ byte (drop o xs) i
byte_at o i k xs e = ap (byte xs) e ∙ byte-drop o i xs

pub u16_at-drop : (o i k : ℕ) (xs : List ℕ) → k ≡ o + i → u16_at xs k ≡ u16_at (drop o xs) i
unfolding u16_at
u16_at-drop o i k xs e =
    ap₂ (λ a b. a * 256 + b) (byte_at o i k xs e) (byte_at o (i + 1) (k + 1) xs (omega arith))

pub u32_at-drop : (o : ℕ) (xs : List ℕ) → u32_at xs (o + 4) ≡ u32_at (drop o xs) 4
unfolding u32_at
u32_at-drop o xs = omega (
  arith,
  byte_at o 4 (o + 4) xs (omega arith),
  byte_at o 5 (o + 4 + 1) xs (omega arith),
  byte_at o 6 (o + 4 + 2) xs (omega arith),
  byte_at o 7 (o + 4 + 3) xs (omega arith),
)
