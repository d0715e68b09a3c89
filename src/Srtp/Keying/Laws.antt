-- ===== src/Srtp/Keying/Laws.antt =====
-- A key that is written to the attribute `a=crypto` and read back, src/rtp/srtp.rs.
use rtp_sip_module.Prelude.{
  ℕ, ◌^◌, ◌≤◌, ◌<◌, ◌≡◌, refl, sym, ap, ◌∙◌, false, Option, none, some, List, [], ◌∷◌, ◌++◌, length,
  length-append, arith,
}
use rtp_sip_module.Prelude.Bytes.{AllBytes, drop-append_self, take-append_self}
use rtp_sip_module.Prelude.Text.{
  is_whitespace, split, split_once, strip_prefix, decimal, parse_below, HaveNoSpace,
  HaveNoSpace-append, IsWithout, IsWithout-append, no_space, no_space-HaveNoSpace,
  decimal-AreDigits, decimal-length, digits-HaveNoSpace, digits-IsWithout, split-without,
  split_once-at, parse_below-decimal,
}
use rtp_sip_module.Srtp.Context.{CipherSuite, suite_as_str, suite_from_str}
use rtp_sip_module.Srtp.Keying.{
  Base64, CryptoAttribute, ParseResult, inline_prefix, pipe, colon, mki_bytes_of, mki_value,
  mki_of_parts, mki_in, with_key, mki_part, parse_parts, parse_key, parse_fields, parse,
  inline_part, to_sdp_value,
}
use rtp_sip_module.Srtp.Keying.Numbers.{mki_value-bound, mki_bytes_of-mki_value}
use rtp_sip_module.Srtp.Keying.Words.{
  split-at, split_whitespace-three, suite-HaveNoSpace, suite-length, suite_from_str-suite_as_str,
}

-- The MKI has as many bytes as its length says, one to sixteen, or there is none.
abbrev pub IsMki : Option (List ℕ) → Option ℕ → Type 0
IsMki none none = Unit
IsMki none (some len) = ⊥
IsMki (some bytes) none = ⊥
IsMki (some bytes) (some len) = AllBytes bytes × ((length bytes ≡ len) × ((0 < len) × (len ≤ 16)))

-- The field of an MKI.
abbrev field_of : List ℕ → ℕ → List ℕ
field_of bytes len = decimal (mki_value 0 bytes) ++ (colon ∷ decimal len)

mki_of_parts-digits :
    (bytes : List ℕ) (n len : ℕ) (value_str len_str : List ℕ)
    → parse_below (2 ^ 64) len_str ≡ some len
    → parse_below (2 ^ 128) value_str ≡ some n
    → 0 < len
    → len ≤ 16
    → mki_of_parts (value_str, some len_str) ≡ some (mki_bytes_of n len, len)
unfolding mki_of_parts
mki_of_parts-digits bytes n len value_str len_str e f pos le =
    rw (mki_of_parts, e, f) (ground arith)

field-mki :
    (bytes : List ℕ) (len : ℕ)
    → IsMki (some bytes) (some len)
    → mki_of_parts (split_once colon (field_of bytes len)) ≡ some (bytes, len)
field-mki bytes len (all, (same, (pos, le))) =
    let n = mki_value 0 bytes in
    ap mki_of_parts (
      split_once-at colon (decimal n) (decimal len)
        (digits-IsWithout colon (decimal n) (omega arith) (decimal-AreDigits n)))
    ∙ mki_of_parts-digits bytes n len (decimal n) (decimal len)
        (parse_below-decimal (2 ^ 64) len (omega arith))
        (parse_below-decimal (2 ^ 128) n (mki_value-bound bytes 0 (omega arith))) pos le
    ∙ ap (λ (found : List ℕ). some (found, len))
        (ap (mki_bytes_of n) (sym same) ∙ mki_bytes_of-mki_value bytes all (omega arith))

colon_no_space : is_whitespace colon ≡ false
unfolding is_whitespace
colon_no_space = refl

mki_in-one :
    (field : List ℕ) (found : List ℕ × ℕ)
    → mki_of_parts (split_once colon field) ≡ some found
    → mki_in none (field ∷ []) ≡ some found
unfolding mki_in
mki_in-one field found e = rw (mki_in, e) refl

field-HaveNoSpace : (bytes : List ℕ) (len : ℕ) → HaveNoSpace (field_of bytes len)
field-HaveNoSpace bytes len =
    let n = mki_value 0 bytes in
    HaveNoSpace-append (decimal n) (colon ∷ decimal len)
      (digits-HaveNoSpace (decimal n) (decimal-AreDigits n))
      (colon_no_space, digits-HaveNoSpace (decimal len) (decimal-AreDigits len))

field-IsWithout : (bytes : List ℕ) (len : ℕ) → IsWithout pipe (field_of bytes len)
field-IsWithout bytes len =
    let n = mki_value 0 bytes in
    IsWithout-append pipe (decimal n) (colon ∷ decimal len)
      (digits-IsWithout pipe (decimal n) (omega arith) (decimal-AreDigits n))
      (refl, digits-IsWithout pipe (decimal len) (omega arith) (decimal-AreDigits len))

mki_part-HaveNoSpace : (mki : Option (List ℕ)) (len : Option ℕ) → HaveNoSpace (mki_part mki len)
unfolding mki_part is_whitespace
mki_part-HaveNoSpace none len = tt
mki_part-HaveNoSpace (some bytes) none = tt
mki_part-HaveNoSpace (some bytes) (some len) = (refl, field-HaveNoSpace bytes len)

with_key-whole :
    (tag : ℕ) (suite : CipherSuite) (mki : Option (List ℕ × ℕ)) (key salt : List ℕ)
    → length key ≡ 16
    → length salt ≡ 14
    → with_key tag suite mki (key ++ salt)
      ≡ ParseResult.parsed (record {
        tag = tag;
        suite = suite;
        master_key = key;
        master_salt = salt;
        mki = elim mki [ none ↦ none | some found ↦ some found.0 ];
        mki_length = elim mki [ none ↦ none | some found ↦ some found.1 ];
      })
unfolding with_key
with_key-whole tag suite mki key salt k s =
    let whole : length (key ++ salt) ≡ 30 = omega (arith, length-append key salt) in
    rw (whole, take-append_self 16 key salt k, drop-append_self 16 key salt k) refl

append_nil : (xs : List ℕ) → xs ++ [] ≡ xs
append_nil [] = refl
append_nil (x ∷ xs) = ap (λ (ys : List ℕ). x ∷ ys) (append_nil xs)

module _ (base64 : Base64) where
  parse_parts-whole :
      (tag : ℕ) (suite : CipherSuite) (b64_key key_material : List ℕ) (fields : List (List ℕ))
      → base64.decode b64_key ≡ some key_material
      → parse_parts base64 tag suite (b64_key, fields)
        ≡ with_key tag suite (mki_in none fields) key_material
  unfolding parse_parts
  parse_parts-whole tag suite b64_key key_material fields e = rw (parse_parts, e) refl

  -- The third field, for each kind of MKI.
  parse_key-inline_part :
      (tag : ℕ) (suite : CipherSuite) (key salt : List ℕ) (mki : Option (List ℕ)) (len : Option ℕ)
      → length key ≡ 16
      → length salt ≡ 14
      → IsMki mki len
      → base64.decode (base64.encode (key ++ salt)) ≡ some (key ++ salt)
      → IsWithout pipe (base64.encode (key ++ salt))
      → parse_key base64 tag suite
          (inline_prefix ++ (base64.encode (key ++ salt) ++ mki_part mki len))
        ≡ ParseResult.parsed (record {
          tag = tag;
          suite = suite;
          master_key = key;
          master_salt = salt;
          mki = mki;
          mki_length = len;
        })
  unfolding parse_key strip_prefix mki_part mki_in
  parse_key-inline_part tag suite key salt none none k s m d w =
      let text = base64.encode (key ++ salt) in
      ap (λ (t : List ℕ). parse_parts base64 tag suite (split pipe t)) (append_nil text)
      ∙ ap (parse_parts base64 tag suite) (split-without pipe text w)
      ∙ parse_parts-whole tag suite text (key ++ salt) [] d
      ∙ with_key-whole tag suite none key salt k s
  parse_key-inline_part tag suite key salt none (some len) k s m d w = elim m [ ]
  parse_key-inline_part tag suite key salt (some bytes) none k s m d w = elim m [ ]
  parse_key-inline_part tag suite key salt (some bytes) (some len) k s m d w =
      let text = base64.encode (key ++ salt) in
      let field = field_of bytes len in
      ap (parse_parts base64 tag suite) (
        split-at pipe text field w
        ∙ ap (λ (r : List ℕ × List (List ℕ)). (text, r.0 ∷ r.1))
            (split-without pipe field (field-IsWithout bytes len)))
      ∙ parse_parts-whole tag suite text (key ++ salt) (field ∷ []) d
      ∙ ap (λ (mki : Option (List ℕ × ℕ)). with_key tag suite mki (key ++ salt))
          (mki_in-one field (bytes, len) (field-mki bytes len m))
      ∙ with_key-whole tag suite (some (bytes, len)) key salt k s

module _ (base64 : Base64) where
  parse_fields-three :
      (tag_str suite_str key_param : List ℕ) (tag : ℕ) (suite : CipherSuite)
      → parse_below (2 ^ 32) tag_str ≡ some tag
      → suite_from_str suite_str ≡ some suite
      → parse_fields base64 (tag_str ∷ suite_str ∷ key_param ∷ [])
        ≡ parse_key base64 tag suite key_param
  unfolding parse_fields
  parse_fields-three tag_str suite_str key_param tag suite e f = rw (parse_fields, e, f) refl

  inline_part-HaveNoSpace :
      (c : CryptoAttribute)
      → HaveNoSpace (base64.encode (c.master_key ++ c.master_salt))
      → HaveNoSpace (inline_part base64 c)
  unfolding inline_part no_space is_whitespace
  inline_part-HaveNoSpace c h =
      let text = base64.encode (c.master_key ++ c.master_salt) in
      HaveNoSpace-append inline_prefix (text ++ mki_part c.mki c.mki_length)
        (no_space-HaveNoSpace inline_prefix refl)
        (HaveNoSpace-append text (mki_part c.mki c.mki_length) h
          (mki_part-HaveNoSpace c.mki c.mki_length))

  inline_part-length : (c : CryptoAttribute) → 0 < length (inline_part base64 c)
  unfolding inline_part
  inline_part-length c = omega arith

  -- A crypto attribute with a tag of 32 bits, a key of 16 bytes, a salt of 14 bytes and an MKI of one to
  -- sixteen bytes or none is read back from its SDP value, where base64 decodes its own encoding of the
  -- key and the salt, and writes neither white space nor a bar.
  pub parse-to_sdp_value :
      (c : CryptoAttribute)
      → c.tag < 2 ^ 32
      → length c.master_key ≡ 16
      → length c.master_salt ≡ 14
      → IsMki c.mki c.mki_length
      → base64.decode (base64.encode (c.master_key ++ c.master_salt))
        ≡ some (c.master_key ++ c.master_salt)
      → HaveNoSpace (base64.encode (c.master_key ++ c.master_salt))
      → IsWithout pipe (base64.encode (c.master_key ++ c.master_salt))
      → parse base64 (to_sdp_value base64 c) ≡ ParseResult.parsed c
  unfolding parse to_sdp_value inline_part
  parse-to_sdp_value c t k s m d plain bar =
      ap (parse_fields base64) (
        split_whitespace-three (decimal c.tag) (suite_as_str c.suite) (inline_part base64 c)
          (digits-HaveNoSpace (decimal c.tag) (decimal-AreDigits c.tag)) (suite-HaveNoSpace c.suite)
          (inline_part-HaveNoSpace c plain) (decimal-length c.tag) (suite-length c.suite)
          (inline_part-length c))
      ∙ parse_fields-three (decimal c.tag) (suite_as_str c.suite) (inline_part base64 c) c.tag
          c.suite (parse_below-decimal (2 ^ 32) c.tag t) (suite_from_str-suite_as_str c.suite)
      ∙ parse_key-inline_part base64 c.tag c.suite c.master_key c.master_salt c.mki c.mki_length k s
          m d bar
