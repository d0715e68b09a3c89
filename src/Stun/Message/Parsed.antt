-- ===== src/Stun/Message/Parsed.antt =====
-- The loop of `unmarshal` over attributes that were encoded: src/nat/stun/message.rs.
use rtp_sip_module.Prelude.{
  ℕ, zero, suc, ◌+◌, ◌-◌, ◌^◌, ◌≤◌, ◌<◌, ◌≡◌, ◌≢◌, refl, sym, ap, ap₂, ◌∙◌, not, ◌&&◌, ◌||◌, Option,
  some, List, [], ◌∷◌, ◌++◌, if◌then◌else◌, ltb, ◌==◌, length, take, drop, replicate, arith,
  length-append, append_assoc, append_nil, length-replicate,
}
use rtp_sip_module.Prelude.Bytes.{u16_at, u32_at, be16, be32, take-append_self, drop-append_self}
use rtp_sip_module.Stun.Attribute.{StunAttribute, encode, decode, round_up}
use rtp_sip_module.Stun.Attribute.Laws.{be16-value}
use rtp_sip_module.Stun.Attribute.Values.{type_of, value_of, IsAttribute, decode-value}
use rtp_sip_module.Stun.Attribute.Roundtrip.{
  padding_of, encode-form, type_of-lt, length-value_of-lt,
}
use rtp_sip_module.Stun.Message.Offset.{drop-drop, u16_at-drop, u32_at-drop}
use rtp_sip_module.Stun.Message.{
  StunError, Result, ok, err, panic, Attributes, parse_attributes, push, is_some, encode_all,
}

module _ (lossy : List ℕ → List ℕ) (fuel : ℕ) (bytes : List ℕ) (end offset : ℕ) (txn_id : List ℕ)
    (fp : Option (ℕ × ℕ)) (attributes : List StunAttribute) where
  -- one round, of the type, the length and the decoded attribute
  abbrev round : ℕ → ℕ → Option StunAttribute → Result Attributes
  round attr_type attr_len attr =
      let start = offset + 4 in
      let is_fingerprint = attr_type == 0x8028 in
      let fp' =
        if is_fingerprint && (attr_len == 4) then some (u32_at bytes start, offset) else fp in
      let attributes' = if is_fingerprint then attributes else push attributes attr in
      let rest =
        parse_attributes lossy fuel bytes end (start + round_up attr_len) txn_id fp' attributes' in
      if ltb end (offset + 4)
      then ok (attributes, fp)
      else if ltb (length bytes) (offset + 4)
      then panic
      else if ltb end (start + attr_len)
      then err StunError.truncated_attribute
      else if ltb (length bytes) (start + attr_len) && (not is_fingerprint || attr_len == 4)
      then panic
      else if not is_fingerprint && (not (is_some attr) && ltb attr_type 0x8000)
      then err (StunError.unknown_comprehension_required attr_type)
      else rest

  round_of :
      (t : ℕ) (v w : List ℕ)
      → t < 2 ^ 16
      → length v < 2 ^ 16
      → drop offset bytes ≡ be16 t ++ (be16 (length v) ++ (v ++ w))
      → parse_attributes lossy (suc fuel) bytes end offset txn_id fp attributes
        ≡ round t (length v) (decode lossy t v txn_id)
  unfolding parse_attributes u16_at
  round_of t v w tl vl e =
      let ty : u16_at bytes offset ≡ t =
        u16_at-drop offset 0 offset bytes (omega arith)
        ∙ ap (λ b. u16_at b 0) e
        ∙ be16-value t tl in
      let ln : u16_at bytes (offset + 2) ≡ length v =
        u16_at-drop offset 2 (offset + 2) bytes (omega arith)
        ∙ ap (λ b. u16_at b 2) e
        ∙ be16-value (length v) vl in
      let vs : take (u16_at bytes (offset + 2)) (drop (offset + 4) bytes) ≡ v =
        ap₂ take ln (drop-drop offset 4 bytes ∙ ap (drop 4) e)
        ∙ take-append_self (length v) v w refl in
      λ i. round (ty i) (ln i) (decode lossy (ty i) (vs i) txn_id)

  round_known :
      (t n : ℕ) (a : StunAttribute)
      → t ≢ 0x8028
      → offset + 4 + n ≤ end
      → end ≤ length bytes
      → round t n (some a)
        ≡ parse_attributes lossy fuel bytes end
            (offset + 4 + round_up n)
            txn_id
            fp
            (attributes ++ (a ∷ []))
  unfolding push
  round_known t n a ne le h = ground arith

  round_fingerprint :
      (x : Option StunAttribute)
      → offset + 8 ≤ end
      → end ≤ length bytes
      → round 0x8028 4 x
        ≡ parse_attributes lossy fuel bytes end
            (offset + 8)
            txn_id
            (some (u32_at bytes (offset + 4), offset))
            attributes
  round_fingerprint x le h = ground arith

  round_end :
      end < offset + 4
      → parse_attributes lossy (suc fuel) bytes end offset txn_id fp attributes
        ≡ ok (attributes, fp)
  unfolding parse_attributes
  round_end h = ground arith

-- Every attribute can be encoded without loss.
abbrev pub AllAttributes : (List ℕ → List ℕ) → List StunAttribute → Type 0
AllAttributes lossy [] = Unit
AllAttributes lossy (a ∷ attributes) = IsAttribute lossy a × AllAttributes lossy attributes

not_fingerprint :
    (lossy : List ℕ → List ℕ) (a : StunAttribute) → IsAttribute lossy a → type_of a ≢ 0x8028
not_fingerprint lossy (StunAttribute.mapped_address addr) h = ground arith
not_fingerprint lossy (StunAttribute.xor_mapped_address addr) h = ground arith
not_fingerprint lossy (StunAttribute.changed_address addr) h = ground arith
not_fingerprint lossy (StunAttribute.change_request change_ip change_port) h = ground arith
not_fingerprint lossy (StunAttribute.response_origin addr) h = ground arith
not_fingerprint lossy (StunAttribute.other_address addr) h = ground arith
not_fingerprint lossy (StunAttribute.error_code code reason) h = ground arith
not_fingerprint lossy (StunAttribute.software s) h = ground arith
not_fingerprint lossy (StunAttribute.unknown t value) (b, l, u) = ground arith

length_padded :
    (a : StunAttribute) (txn_id : List ℕ)
    → length (value_of a txn_id ++ padding_of a txn_id) ≡ round_up (length (value_of a txn_id))
unfolding padding_of
length_padded a txn_id =
    let v = value_of a txn_id in
    let zeros : length (replicate {A = ℕ} (round_up (length v) - length v) 0)
        ≡ round_up (length v) - length v =
      length-replicate (round_up (length v) - length v) 0 in
    omega (arith, length-append {0} v (padding_of a txn_id), zeros)

-- An encoded attribute is its four bytes and a multiple of four.
pub length-encode :
    (lossy : List ℕ → List ℕ) (a : StunAttribute) (txn_id : List ℕ)
    → IsAttribute lossy a
    → length (encode a txn_id) ≡ 4 + round_up (length (value_of a txn_id))
length-encode lossy a txn_id h =
    ap length (encode-form lossy a txn_id h) ∙ omega (arith, length_padded a txn_id)

-- the bytes of FINGERPRINT
abbrev pub tail_of : ℕ → List ℕ
tail_of x = be16 0x8028 ++ (be16 4 ++ be32 x)

word : (x : ℕ) → x < 2 ^ 32 → u32_at (tail_of x) 4 ≡ x
unfolding u32_at
word x h = omega arith

-- The loop reads the attributes that stand at its offset, in order, and the FINGERPRINT behind them.
pub parse-encode_all :
    (lossy : List ℕ → List ℕ) (as_ : List StunAttribute) (fuel : ℕ) (bytes : List ℕ)
    (end offset : ℕ) (txn_id : List ℕ) (fp : Option (ℕ × ℕ)) (attributes : List StunAttribute)
    (x : ℕ)
    → AllAttributes lossy as_
    → x < 2 ^ 32
    → drop offset bytes ≡ encode_all as_ txn_id ++ tail_of x
    → end ≡ offset + length (encode_all as_ txn_id) + 8
    → end ≤ length bytes
    → end < offset + fuel
    → parse_attributes lossy fuel bytes end offset txn_id fp attributes
      ≡ ok (attributes ++ as_, some (x, offset + length (encode_all as_ txn_id)))
unfolding encode_all
parse-encode_all lossy as_ zero bytes end offset txn_id fp attributes x all xl d e le f =
    absurd (omega arith)
parse-encode_all lossy as_ (suc zero) bytes end offset txn_id fp attributes x all xl d e le f =
    absurd (omega arith)
parse-encode_all lossy [] (suc (suc fuel)) bytes end offset txn_id fp attributes x all xl d e le f =
    let v = be32 x in
    round_of lossy (suc fuel) bytes end offset txn_id fp attributes 0x8028 v [] (omega arith)
      (omega arith) d
    ∙ round_fingerprint lossy (suc fuel) bytes end offset txn_id fp attributes
        (decode lossy 0x8028 v txn_id) (omega arith) le
    ∙ round_end lossy fuel bytes end (offset + 8) txn_id (some (u32_at bytes (offset + 4), offset))
        attributes (omega arith)
    ∙ ap₂ (λ l r. ok (l, some r)) (sym (append_nil attributes))
        (ap₂ (λ a b. (a, b)) (u32_at-drop offset bytes ∙ ap (λ b. u32_at b 4) d ∙ word x xl)
          (omega arith))
parse-encode_all lossy (a ∷ as_) (suc (suc fuel)) bytes end offset txn_id fp attributes x (h, all)
      xl d e le f =
    let t = type_of a in
    let v = value_of a txn_id in
    let n = length v in
    let more = encode_all as_ txn_id in
    let rest = more ++ tail_of x in
    let long = length-encode lossy a txn_id h in
    let sum = length-append {0} (encode a txn_id) more in
    let d' : drop offset bytes ≡ encode a txn_id ++ rest =
      d ∙ append_assoc (encode a txn_id) more (tail_of x) in
    let split : drop offset bytes ≡ be16 t ++ (be16 n ++ (v ++ (padding_of a txn_id ++ rest))) =
      d'
      ∙ ap (λ b. b ++ rest) (encode-form lossy a txn_id h)
      ∙ ap (λ b. be16 t ++ (be16 n ++ b)) (append_assoc v (padding_of a txn_id) rest) in
    let onward : drop (offset + 4 + round_up n) bytes ≡ rest =
      ap (λ k. drop k bytes) (omega arith)
      ∙ drop-drop offset (4 + round_up n) bytes
      ∙ ap (drop (4 + round_up n)) d'
      ∙ drop-append_self (4 + round_up n) (encode a txn_id) rest long in
    round_of lossy (suc fuel) bytes end offset txn_id fp attributes t v
      (padding_of a txn_id ++ rest) (type_of-lt lossy a h) (length-value_of-lt lossy a txn_id h)
      split
    ∙ ap (round lossy (suc fuel) bytes end offset txn_id fp attributes t n)
        (decode-value lossy a txn_id h)
    ∙ round_known lossy (suc fuel) bytes end offset txn_id fp attributes t n a
        (not_fingerprint lossy a h) (omega (arith, long, sum)) le
    ∙ parse-encode_all lossy as_ (suc fuel) bytes end (offset + 4 + round_up n) txn_id fp
        (attributes ++ (a ∷ [])) x all xl onward (omega (arith, long, sum)) le (omega arith)
    ∙ ap₂ (λ l o. ok (l, some (x, o))) (append_assoc attributes (a ∷ []) as_)
        (omega (arith, long, sum))
