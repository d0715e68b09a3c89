-- ===== src/Stun/Attribute/Values.antt =====
-- The type and the value of a STUN attribute, and the decoding of the value: src/nat/stun/attributes.rs.
use rtp_sip_module.Prelude.{
  ℕ, zero, suc, ◌+◌, ◌*◌, ◌/◌, ◌%◌, ◌^◌, ◌<◌, ◌≡◌, ◌≢◌, refl, ap, ap₂, ◌∙◌, true, false, some, List,
  [], ◌∷◌, if◌then◌else◌, ltb, length, bit_and, bit_or, arith,
}
use rtp_sip_module.Prelude.Bytes.{u32_at, be32}
use rtp_sip_module.Stun.Attribute.{
  StunAttribute, decode, decode_error_code, decode_change_request, map_option,
}
use rtp_sip_module.Stun.Attribute.Laws.{IsAddress, address_value, decode-address_value}

-- The type and the value of an attribute.
abbrev pub type_of : StunAttribute → ℕ
type_of (StunAttribute.mapped_address addr) = 0x0001
type_of (StunAttribute.xor_mapped_address addr) = 0x0020
type_of (StunAttribute.changed_address addr) = 0x0005
type_of (StunAttribute.change_request change_ip change_port) = 0x0003
type_of (StunAttribute.response_origin addr) = 0x802b
type_of (StunAttribute.other_address addr) = 0x802c
type_of (StunAttribute.error_code code reason) = 0x0009
type_of (StunAttribute.software s) = 0x8022
type_of (StunAttribute.unknown attr_type value) = attr_type

abbrev pub value_of : StunAttribute → List ℕ → List ℕ
value_of (StunAttribute.mapped_address addr) txn_id = address_value addr false txn_id
value_of (StunAttribute.xor_mapped_address addr) txn_id = address_value addr true txn_id
value_of (StunAttribute.changed_address addr) txn_id = address_value addr false txn_id
value_of (StunAttribute.change_request change_ip change_port) txn_id =
    be32 (bit_or (if change_ip then 4 else 0) (if change_port then 2 else 0))
value_of (StunAttribute.response_origin addr) txn_id = address_value addr false txn_id
value_of (StunAttribute.other_address addr) txn_id = address_value addr false txn_id
value_of (StunAttribute.error_code code reason) txn_id =
    0 ∷ 0 ∷ bit_and (code / 100 % 256) 7 ∷ code % 100 ∷ reason
value_of (StunAttribute.software s) txn_id = s
value_of (StunAttribute.unknown attr_type value) txn_id = value

-- No attribute type that `decode` reads itself, and not that of FINGERPRINT.
abbrev pub IsUnknown : ℕ → Type 0
IsUnknown t =
    (t ≢ 0x0001)
    × (t ≢ 0x0020)
    × (t ≢ 0x0005)
    × (t ≢ 0x0003)
    × (t ≢ 0x802b)
    × (t ≢ 0x802c)
    × (t ≢ 0x0009)
    × (t ≢ 0x8022)
    × (t ≢ 0x8028)

-- What an attribute must satisfy to be encoded without loss: valid addresses, strings that are UTF-8,
-- an error code below 800, a value whose length fits 16 bits.
abbrev pub IsAttribute : (List ℕ → List ℕ) → StunAttribute → Type 0
IsAttribute lossy (StunAttribute.mapped_address addr) = IsAddress addr
IsAttribute lossy (StunAttribute.xor_mapped_address addr) = IsAddress addr
IsAttribute lossy (StunAttribute.changed_address addr) = IsAddress addr
IsAttribute lossy (StunAttribute.change_request change_ip change_port) = Unit
IsAttribute lossy (StunAttribute.response_origin addr) = IsAddress addr
IsAttribute lossy (StunAttribute.other_address addr) = IsAddress addr
IsAttribute lossy (StunAttribute.error_code code reason) =
    (code < 800) × (4 + length reason < 2 ^ 16) × (lossy reason ≡ reason)
IsAttribute lossy (StunAttribute.software s) = (length s < 2 ^ 16) × (lossy s ≡ s)
IsAttribute lossy (StunAttribute.unknown attr_type value) =
    (attr_type < 2 ^ 16) × (length value < 2 ^ 16) × IsUnknown attr_type

low_class : (n : ℕ) → n < 8 → bit_and n 7 ≡ n
low_class zero h = refl
low_class (suc zero) h = refl
low_class (suc (suc zero)) h = refl
low_class (suc (suc (suc zero))) h = refl
low_class (suc (suc (suc (suc zero)))) h = refl
low_class (suc (suc (suc (suc (suc zero))))) h = refl
low_class (suc (suc (suc (suc (suc (suc zero)))))) h = refl
low_class (suc (suc (suc (suc (suc (suc (suc zero))))))) h = refl
low_class (suc (suc (suc (suc (suc (suc (suc (suc n)))))))) h = absurd (omega arith)

error_code_value :
    (code : ℕ) → code < 800 → bit_and (bit_and (code / 100 % 256) 7) 7 * 100 + code % 100 ≡ code
error_code_value code h =
    ap (λ c. bit_and c 7 * 100 + code % 100) class_of
    ∙ ap (λ c. c * 100 + code % 100) (low_class (code / 100) (omega arith))
    ∙ omega arith
  where
    class_of : bit_and (code / 100 % 256) 7 ≡ code / 100
    class_of = low_class (code / 100 % 256) (omega arith) ∙ omega arith

long_reason :
    (n : ℕ)
    → (ltb (suc (suc (suc (suc (suc n))))) 4 ≡ false)
      × (ltb 4 (suc (suc (suc (suc (suc n))))) ≡ true)
long_reason n = ground arith

decode-error_code :
    (lossy : List ℕ → List ℕ) (code : ℕ) (reason : List ℕ)
    → code < 800
    → lossy reason ≡ reason
    → decode_error_code lossy (0 ∷ 0 ∷ bit_and (code / 100 % 256) 7 ∷ code % 100 ∷ reason)
      ≡ some (StunAttribute.error_code code reason)
unfolding decode_error_code
decode-error_code lossy code [] h e =
    ap (λ c. some (StunAttribute.error_code c [])) (error_code_value code h)
decode-error_code lossy code (r ∷ reason) h e =
    rw (decode_error_code, (long_reason (length reason)).0, (long_reason (length reason)).1)
      (ap₂ (λ c t. some (StunAttribute.error_code c t)) (error_code_value code h) e)

decode-unknown :
    (lossy : List ℕ → List ℕ) (t : ℕ) (value txn_id : List ℕ)
    → IsUnknown t
    → decode lossy t value txn_id ≡ some (StunAttribute.unknown t value)
unfolding decode
decode-unknown lossy t value txn_id h = ground arith

-- Decoding the value gives the attribute back.
pub decode-value :
    (lossy : List ℕ → List ℕ) (a : StunAttribute) (txn_id : List ℕ)
    → IsAttribute lossy a
    → decode lossy (type_of a) (value_of a txn_id) txn_id ≡ some a
unfolding decode map_option decode_change_request u32_at
decode-value lossy (StunAttribute.mapped_address addr) txn_id h =
    ap (map_option StunAttribute.mapped_address) (decode-address_value addr false txn_id h)
decode-value lossy (StunAttribute.xor_mapped_address addr) txn_id h =
    ap (map_option StunAttribute.xor_mapped_address) (decode-address_value addr true txn_id h)
decode-value lossy (StunAttribute.changed_address addr) txn_id h =
    ap (map_option StunAttribute.changed_address) (decode-address_value addr false txn_id h)
decode-value lossy (StunAttribute.change_request true true) txn_id h = refl
decode-value lossy (StunAttribute.change_request true false) txn_id h = refl
decode-value lossy (StunAttribute.change_request false true) txn_id h = refl
decode-value lossy (StunAttribute.change_request false false) txn_id h = refl
decode-value lossy (StunAttribute.response_origin addr) txn_id h =
    ap (map_option StunAttribute.response_origin) (decode-address_value addr false txn_id h)
decode-value lossy (StunAttribute.other_address addr) txn_id h =
    ap (map_option StunAttribute.other_address) (decode-address_value addr false txn_id h)
decode-value lossy (StunAttribute.error_code code reason) txn_id (c, l, e) =
    decode-error_code lossy code reason c e
decode-value lossy (StunAttribute.software s) txn_id (l, e) =
    ap (λ t. some (StunAttribute.software t)) e
decode-value lossy (StunAttribute.unknown t value) txn_id (b, l, u) =
    decode-unknown lossy t value txn_id u
