-- ===== src/Srtp/Keying/Numbers.antt =====
-- The bytes of an MKI and their value, src/rtp/srtp.rs.
use rtp_sip_module.Prelude.{
  ℕ, zero, suc, ◌+◌, ◌-◌, ◌*◌, ◌/◌, ◌%◌, ◌^◌, ◌≤◌, ◌<◌, ◌≡◌, refl, ap, ap₂, ◌∙◌, List, [], ◌∷◌,
  ◌++◌, length, drop, arith,
}
use rtp_sip_module.Prelude.Bytes.{AllBytes}
use rtp_sip_module.Srtp.Keying.{be_before, mki_bytes_of, mki_value}

-- How many values `j` bytes have.
space : ℕ → ℕ
space zero = 1
space (suc j) = space j * 256

space_bound : (d j : ℕ) → j + d ≡ 16 → space j ≤ 2 ^ 128
unfolding space
space_bound zero j e = let at_end : j ≡ 16 = omega arith in rw (at_end) (omega arith)
space_bound (suc d) j e =
    let next : space (suc j) ≤ 2 ^ 128 = space_bound d (suc j) (omega arith) in omega arith

drop_one : (k : ℕ) (xs : List ℕ) → drop (suc k) xs ≡ drop 1 (drop k xs)
drop_one zero xs = refl
drop_one (suc k) [] = refl
drop_one (suc k) (x ∷ xs) = drop_one k xs

drop-be_before_all : (k n : ℕ) (rest : List ℕ) → drop k (be_before k n rest) ≡ rest
unfolding be_before
drop-be_before_all zero n rest = refl
drop-be_before_all (suc k) n rest =
    drop_one k (be_before k (n / 256) (n % 256 ∷ rest))
    ∙ ap (drop 1) (drop-be_before_all k (n / 256) (n % 256 ∷ rest))

drop-be_before :
    (k w total n : ℕ) (rest : List ℕ)
    → total ≡ w + k
    → drop k (be_before total n rest) ≡ be_before w n rest
unfolding be_before
drop-be_before k zero total n rest e =
    let same : total ≡ k = omega arith in rw (same) (drop-be_before_all k n rest)
drop-be_before k (suc w) zero n rest e = absurd (omega arith)
drop-be_before k (suc w) (suc total) n rest e =
    drop-be_before k w total (n / 256) (n % 256 ∷ rest) (omega arith)

be_before-mki_value :
    (bytes : List ℕ) (total w acc j d : ℕ) (rest : List ℕ)
    → AllBytes bytes
    → total ≡ length bytes + w
    → j + (length bytes + d) ≡ 16
    → acc < space j
    → be_before total (mki_value acc bytes) rest ≡ be_before w acc (bytes ++ rest)
unfolding be_before mki_value space
be_before-mki_value [] total w acc j d rest h e f lt =
    let same : total ≡ w = omega arith in rw (same) refl
be_before-mki_value (b ∷ bytes) total w acc j d rest (lb, h) e f lt =
    let next : acc * 256 + b < space (suc j) = omega arith in
    let whole : (acc * 256 + b) % 2 ^ 128 ≡ acc * 256 + b =
      omega (arith, space_bound (length bytes + d) (suc j) (omega arith)) in
    let high : (acc * 256 + b) / 256 ≡ acc = omega arith in
    let low : (acc * 256 + b) % 256 ≡ b = omega arith in
    rw (whole) (
      be_before-mki_value bytes total (suc w) (acc * 256 + b) (suc j) d rest h (omega arith)
        (omega arith) next
      ∙ ap₂ (λ (n : ℕ) (c : ℕ). be_before w n (c ∷ bytes ++ rest)) high low)

pub mki_value-bound : (bytes : List ℕ) (acc : ℕ) → acc < 2 ^ 128 → mki_value acc bytes < 2 ^ 128
unfolding mki_value
mki_value-bound [] acc lt = lt
mki_value-bound (b ∷ bytes) acc lt = mki_value-bound bytes ((acc * 256 + b) % 2 ^ 128) (omega arith)

append_nil : (xs : List ℕ) → xs ++ [] ≡ xs
append_nil [] = refl
append_nil (x ∷ xs) = ap (λ (ys : List ℕ). x ∷ ys) (append_nil xs)

-- The bytes that are taken from the value of at most sixteen bytes are those bytes.
pub mki_bytes_of-mki_value :
    (bytes : List ℕ)
    → AllBytes bytes
    → length bytes ≤ 16
    → mki_bytes_of (mki_value 0 bytes) (length bytes) ≡ bytes
unfolding mki_bytes_of be_before space
mki_bytes_of-mki_value bytes h le =
    drop-be_before (16 - length bytes) (length bytes) 16 (mki_value 0 bytes) [] (omega arith)
    ∙ be_before-mki_value bytes (length bytes) 0 0 0 (16 - length bytes) [] h (omega arith)
        (omega arith) (omega arith)
    ∙ append_nil bytes
