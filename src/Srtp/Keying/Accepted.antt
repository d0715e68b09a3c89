-- ===== src/Srtp/Keying/Accepted.antt =====
-- What a crypto attribute that was read holds, src/rtp/srtp.rs.
use rtp_sip_module.Prelude.{
  ℕ, zero, suc, ◌+◌, ◌-◌, ◌/◌, ◌%◌, ◌^◌, ◌≤◌, ◌<◌, ◌≡◌, refl, sym, inl, inr, Option, none, some,
  List, [], ◌∷◌, length, drop, length-take, length-drop, arith, if◌then◌else◌, ltb, leb, ◌&&◌,
  Option-cases, Bool-cases,
}
use rtp_sip_module.Prelude.Bytes.{AllBytes}
use rtp_sip_module.Prelude.Text.{split_whitespace, split, split_once, strip_prefix, parse_below}
use rtp_sip_module.Srtp.Context.{CipherSuite, suite_from_str}
use rtp_sip_module.Srtp.Keying.{
  Base64, ParseResult, CryptoError, inline_prefix, pipe, colon, be_before, mki_bytes_of,
  mki_of_parts, mki_in, with_key, parse_parts, parse_key, parse_fields, parse,
}
use rtp_sip_module.Srtp.Keying.Laws.{IsMki}

drop-AllBytes : (k : ℕ) (bytes : List ℕ) → AllBytes bytes → AllBytes (drop k bytes)
drop-AllBytes zero bytes h = h
drop-AllBytes (suc k) [] h = tt
drop-AllBytes (suc k) (b ∷ bytes) (lb, h) = drop-AllBytes k bytes h

be_before-AllBytes :
    (width n : ℕ) (rest : List ℕ) → AllBytes rest → AllBytes (be_before width n rest)
unfolding be_before
be_before-AllBytes zero n rest h = h
be_before-AllBytes (suc width) n rest h =
    be_before-AllBytes width (n / 256) (n % 256 ∷ rest) (omega arith, h)

length-be_before :
    (width n : ℕ) (rest : List ℕ) → length (be_before width n rest) ≡ width + length rest
unfolding be_before
length-be_before zero n rest = omega arith
length-be_before (suc width) n rest =
    omega (arith, length-be_before width (n / 256) (n % 256 ∷ rest))

-- The MKI that was found, if there is one, has as many bytes as its length says, one to sixteen.
abbrev IsFound : Option (List ℕ × ℕ) → Type 0
IsFound none = Unit
IsFound (some (bytes, len)) = IsMki (some bytes) (some len)

mki_bytes_of-IsMki : (n len : ℕ) → 0 < len → len ≤ 16 → IsMki (some (mki_bytes_of n len)) (some len)
unfolding mki_bytes_of
mki_bytes_of-IsMki n len pos le = (
  drop-AllBytes (16 - len) (be_before 16 n []) (be_before-AllBytes 16 n [] tt),
  (omega (arith, length-drop (16 - len) (be_before 16 n []), length-be_before 16 n []), (pos, le)),
)

mki_checked : ℕ → ℕ → Option (List ℕ × ℕ)
mki_checked n len = if ltb 0 len && leb len 16 then some (mki_bytes_of n len, len) else none

mki_checked-IsFound : (n len : ℕ) → IsFound (mki_checked n len)
unfolding mki_checked
mki_checked-IsFound n len = elim (Bool-cases (ltb 0 len && leb len 16)) [
  | inl e ↦
      (let found : mki_checked n len ≡ some (mki_bytes_of n len, len) = rw (mki_checked, e) refl in
        rw (found) (mki_bytes_of-IsMki n len (ground arith) (ground arith)))
  | inr e ↦ (let nothing : mki_checked n len ≡ none = rw (mki_checked, e) refl in rw (nothing) tt)
]

mki_of_parts-IsFound : (parts : List ℕ × Option (List ℕ)) → IsFound (mki_of_parts parts)
unfolding mki_of_parts mki_checked
mki_of_parts-IsFound (value_str, none) = tt
mki_of_parts-IsFound (value_str, some len_str) =
    elim (Option-cases (parse_below (2 ^ 64) len_str)) [
      | inl e ↦
          (let nothing : mki_of_parts (value_str, some len_str) ≡ none =
              rw (mki_of_parts, e) refl in
            rw (nothing) tt)
      | inr (len, e) ↦ elim (Option-cases (parse_below (2 ^ 128) value_str)) [
        | inl f ↦
            (let nothing : mki_of_parts (value_str, some len_str) ≡ none =
                rw (mki_of_parts, e, f) refl in
              rw (nothing) tt)
        | inr (n, f) ↦
            (let found : mki_of_parts (value_str, some len_str) ≡ mki_checked n len =
                rw (mki_of_parts, e, f) refl in
              rw (found) (mki_checked-IsFound n len))
      ]
    ]

IsFound-of : (a b : Option (List ℕ × ℕ)) → a ≡ b → IsFound a → IsFound b
IsFound-of a b e h = rw (sym e) h

mki_in-IsFound :
    (mki : Option (List ℕ × ℕ)) (fields : List (List ℕ)) → IsFound mki → IsFound (mki_in mki fields)
unfolding mki_in
mki_in-IsFound mki [] h = h
mki_in-IsFound mki (field ∷ fields) h =
    let here = mki_of_parts-IsFound (split_once colon field) in
    elim (Option-cases (mki_of_parts (split_once colon field))) [
      | inl e ↦
          (let skipped : mki_in mki (field ∷ fields) ≡ mki_in mki fields = rw (mki_in, e) refl in
            rw (skipped) (mki_in-IsFound mki fields h))
      | inr (found, e) ↦
          (let taken : mki_in mki (field ∷ fields) ≡ mki_in (some found) fields =
              rw (mki_in, e) refl in
            rw (taken) (
              mki_in-IsFound (some found) fields
                (IsFound-of (mki_of_parts (split_once colon field)) (some found) e here)))
    ]

-- The fields that `parse` promises, where it does not fail.
abbrev pub IsAccepted : ParseResult → Type 0
IsAccepted (ParseResult.failed error) = Unit
IsAccepted (ParseResult.parsed c) =
    (length c.master_key ≡ 16) × ((length c.master_salt ≡ 14) × IsMki c.mki c.mki_length)

with_key-IsAccepted :
    (tag : ℕ) (suite : CipherSuite) (mki : Option (List ℕ × ℕ)) (key_material : List ℕ)
    → IsFound mki
    → IsAccepted (with_key tag suite mki key_material)
unfolding with_key
with_key-IsAccepted tag suite none key_material h =
    ground (arith, length-take 16 key_material, length-drop 16 key_material)
with_key-IsAccepted tag suite (some (bytes, len)) key_material h =
    ground (arith, length-take 16 key_material, length-drop 16 key_material)

-- A step that fails on no value, and goes on otherwise.
step-IsAccepted :
    {A : Type 0} (o : Option A) (error : CryptoError) (next : A → ParseResult)
    → ((a : A) → IsAccepted (next a))
    → IsAccepted (elim o [ none ↦ ParseResult.failed error | some a ↦ next a ])
step-IsAccepted none error next h = tt
step-IsAccepted (some a) error next h = h a

module _ (base64 : Base64) where
  parse_parts-IsAccepted :
      (tag : ℕ) (suite : CipherSuite) (parts : List ℕ × List (List ℕ))
      → IsAccepted (parse_parts base64 tag suite parts)
  unfolding parse_parts
  parse_parts-IsAccepted tag suite (b64_key, fields) =
      step-IsAccepted (base64.decode b64_key) CryptoError.invalid_base64
        (with_key tag suite (mki_in none fields))
        (λ key_material.
          with_key-IsAccepted tag suite (mki_in none fields) key_material
            (mki_in-IsFound none fields tt))

  parse_key-IsAccepted :
      (tag : ℕ) (suite : CipherSuite) (key_param : List ℕ)
      → IsAccepted (parse_key base64 tag suite key_param)
  unfolding parse_key
  parse_key-IsAccepted tag suite key_param =
      step-IsAccepted (strip_prefix inline_prefix key_param) CryptoError.no_inline
        (λ text. parse_parts base64 tag suite (split pipe text))
        (λ text. parse_parts-IsAccepted tag suite (split pipe text))

  parse_fields-IsAccepted : (fields : List (List ℕ)) → IsAccepted (parse_fields base64 fields)
  unfolding parse_fields
  parse_fields-IsAccepted [] = tt
  parse_fields-IsAccepted (a ∷ []) = tt
  parse_fields-IsAccepted (a ∷ b ∷ []) = tt
  parse_fields-IsAccepted (a ∷ b ∷ key_param ∷ fields) =
      step-IsAccepted (parse_below (2 ^ 32) a) CryptoError.invalid_tag
        (λ tag. elim (suite_from_str b) [
          | none ↦ ParseResult.failed CryptoError.unsupported_suite
          | some suite ↦ parse_key base64 tag suite key_param
        ])
        (λ tag.
          step-IsAccepted (suite_from_str b) CryptoError.unsupported_suite
            (λ suite. parse_key base64 tag suite key_param)
            (λ suite. parse_key-IsAccepted tag suite key_param))

  -- On every text `parse` fails with one of its errors, or returns a key of 16 bytes, a salt of 14 bytes
  -- and an MKI of one to sixteen bytes with its length, or none.
  pub parse-IsAccepted : (value : List ℕ) → IsAccepted (parse base64 value)
  unfolding parse
  parse-IsAccepted value = parse_fields-IsAccepted (split_whitespace value)
