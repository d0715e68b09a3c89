-- ===== src/Srtp/Keying.antt =====
-- `CryptoAttribute` of src/rtp/srtp.rs: the keys of a stream in the SDP attribute `a=crypto`. Text is a list
-- of code points. Base64 is a parameter, as its crate is not part of the repository.
pub mod Numbers
pub mod Words
pub mod Laws
pub mod Accepted
pub mod Agreed
use rtp_sip_module.Prelude.{
  ℕ, zero, suc, ◌+◌, ◌-◌, ◌*◌, ◌/◌, ◌%◌, ◌^◌, Bool, true, false, ◌&&◌, Option, none, some, List, [],
  ◌∷◌, ◌++◌, if◌then◌else◌, ltb, leb, ◌==◌, length, take, drop,
}
use rtp_sip_module.Prelude.Text.{
  split_whitespace, split, split_once, strip_prefix, decimal, parse_below,
}
use rtp_sip_module.Srtp.Context.{CipherSuite, suite_from_str, suite_as_str}

-- the standard encoding of bytes as text
pub record Base64 : Type 0 where
  pub encode : List ℕ → List ℕ
  pub decode : List ℕ → Option (List ℕ)

-- `CryptoAttribute`
pub record CryptoAttribute : Type 0 where
  pub tag : ℕ
  pub suite : CipherSuite
  pub master_key : List ℕ
  pub master_salt : List ℕ
  pub mki : Option (List ℕ)
  pub mki_length : Option ℕ

-- the errors of `parse`, in the order of its tests
pub data CryptoError : Type 0 where
  too_few_fields invalid_tag unsupported_suite no_inline invalid_base64 wrong_key_length :
      CryptoError

pub data ParseResult : Type 0 where
  parsed : CryptoAttribute → ParseResult
  failed : CryptoError → ParseResult

-- "inline:", '|' and ':'
abbrev pub inline_prefix : List ℕ
inline_prefix = 105 ∷ 110 ∷ 108 ∷ 105 ∷ 110 ∷ 101 ∷ 58 ∷ []

abbrev pub pipe : ℕ
pipe = 124

abbrev pub colon : ℕ
colon = 58

-- the `width` lowest bytes of a number before others, the highest one first: `to_be_bytes`
unfoldable pub be_before : ℕ → ℕ → List ℕ → List ℕ
be_before zero n rest = rest
be_before (suc width) n rest = be_before width (n / 256) (n % 256 ∷ rest)

-- the last `len` of the sixteen bytes of a `u128`
unfoldable pub mki_bytes_of : ℕ → ℕ → List ℕ
unfolding be_before
mki_bytes_of n len = drop (16 - len) (be_before 16 n [])

-- the value that the bytes of an MKI have in a `u128`
unfoldable pub mki_value : ℕ → List ℕ → ℕ
mki_value val [] = val
mki_value val (byte ∷ bytes) = mki_value ((val * 256 + byte) % 2 ^ 128) bytes

-- a field "value:length"
unfoldable pub mki_of_parts : List ℕ × Option (List ℕ) → Option (List ℕ × ℕ)
unfolding mki_bytes_of
mki_of_parts (mki_val_str, none) = none
mki_of_parts (mki_val_str, some mki_len_str) = elim (parse_below (2 ^ 64) mki_len_str) [
  | none ↦ none
  | some len ↦ elim (parse_below (2 ^ 128) mki_val_str) [
    | none ↦ none
    | some n ↦ if ltb 0 len && leb len 16 then some (mki_bytes_of n len, len) else none
  ]
]

-- the loop over the fields after the key: the last MKI counts
unfoldable pub mki_in : Option (List ℕ × ℕ) → List (List ℕ) → Option (List ℕ × ℕ)
unfolding mki_of_parts
mki_in mki [] = mki
mki_in mki (field ∷ fields) = elim (mki_of_parts (split_once colon field)) [
  | none ↦ mki_in mki fields
  | some found ↦ mki_in (some found) fields
]

unfoldable pub with_key : ℕ → CipherSuite → Option (List ℕ × ℕ) → List ℕ → ParseResult
with_key tag suite mki key_material =
    if length key_material == 30
    then ParseResult.parsed (record {
      tag = tag;
      suite = suite;
      master_key = take 16 key_material;
      master_salt = drop 16 key_material;
      mki = elim mki [ none ↦ none | some found ↦ some found.0 ];
      mki_length = elim mki [ none ↦ none | some found ↦ some found.1 ];
    })
    else ParseResult.failed CryptoError.wrong_key_length

-- the key, and the MKI where there is one
unfoldable pub mki_part : Option (List ℕ) → Option ℕ → List ℕ
unfolding mki_value
mki_part (some mki_val) (some mki_len) =
    pipe ∷ decimal (mki_value 0 mki_val) ++ (colon ∷ decimal mki_len)
mki_part _ _ = []

module _ (base64 : Base64) where
  -- the parts of the third field, "inline:<base64>[|lifetime|mki]"
  unfoldable pub parse_parts : ℕ → CipherSuite → List ℕ × List (List ℕ) → ParseResult
  unfolding mki_in with_key
  parse_parts tag suite (b64_key, fields) = elim (base64.decode b64_key) [
    | none ↦ ParseResult.failed CryptoError.invalid_base64
    | some key_material ↦ with_key tag suite (mki_in none fields) key_material
  ]

  unfoldable pub parse_key : ℕ → CipherSuite → List ℕ → ParseResult
  unfolding parse_parts
  parse_key tag suite key_param = elim (strip_prefix inline_prefix key_param) [
    | none ↦ ParseResult.failed CryptoError.no_inline
    | some after_inline ↦ parse_parts tag suite (split pipe after_inline)
  ]

  unfoldable pub parse_fields : List (List ℕ) → ParseResult
  unfolding parse_key
  parse_fields (tag_str ∷ suite_str ∷ key_param ∷ _) = elim (parse_below (2 ^ 32) tag_str) [
    | none ↦ ParseResult.failed CryptoError.invalid_tag
    | some tag ↦ elim (suite_from_str suite_str) [
      | none ↦ ParseResult.failed CryptoError.unsupported_suite
      | some suite ↦ parse_key tag suite key_param
    ]
  ]
  parse_fields _ = ParseResult.failed CryptoError.too_few_fields

  -- `CryptoAttribute::parse`
  unfoldable pub parse : List ℕ → ParseResult
  unfolding parse_fields
  parse value = parse_fields (split_whitespace value)

  -- the third field of `to_sdp_value`
  unfoldable pub inline_part : CryptoAttribute → List ℕ
  unfolding mki_part
  inline_part c =
      inline_prefix
      ++ (base64.encode (c.master_key ++ c.master_salt) ++ mki_part c.mki c.mki_length)

  -- `to_sdp_value`
  unfoldable pub to_sdp_value : CryptoAttribute → List ℕ
  unfolding inline_part
  to_sdp_value c = decimal c.tag ++ (32 ∷ suite_as_str c.suite ++ (32 ∷ inline_part c))

-- `generate`, with the random bytes as arguments
unfoldable pub generate : CipherSuite → List ℕ → List ℕ → CryptoAttribute
generate suite master_key master_salt = record {
  tag = 1;
  suite = suite;
  master_key = master_key;
  master_salt = master_salt;
  mki = none;
  mki_length = none;
}
