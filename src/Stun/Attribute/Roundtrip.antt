-- ===== src/Stun/Attribute/Roundtrip.antt =====
-- The form of an encoded STUN attribute, and its decoding: src/nat/stun/attributes.rs.
use rtp_sip_module.Prelude.{
  ℕ, ◌-◌, ◌%◌, ◌^◌, ◌<◌, ◌≡◌, refl, sym, ap, ap₂, ◌∙◌, Bool, true, false, some, List, ◌∷◌, ◌++◌,
  length, take, drop, replicate, arith, append_nil,
}
use rtp_sip_module.Prelude.Bytes.{u16_at, be16, take-append_self}
use rtp_sip_module.Stun.Attribute.{
  SocketAddr, StunAttribute, encode, decode, encode_address_attr, encode_padded, xor_port, xor_ip,
  cookie_bytes, round_up,
}
use rtp_sip_module.Stun.Attribute.Laws.{IsAddress, address_value, be16-value, length-xor_ip}
use rtp_sip_module.Stun.Attribute.Values.{type_of, value_of, IsAttribute, decode-value}

framed :
    (attr_type : ℕ) (value rest : List ℕ)
    → attr_type < 2 ^ 16
    → length value < 2 ^ 16
    → let bytes = be16 attr_type ++ (be16 (length value) ++ (value ++ rest)) in
      (u16_at bytes 0 ≡ attr_type) × (take (u16_at bytes 2) (drop 4 bytes) ≡ value)
unfolding u16_at
framed attr_type value rest t l = (
  be16-value attr_type t,
  ap (λ n. take n (value ++ rest)) (be16-value (length value) l)
      ∙ take-append_self (length value) value rest refl,
)

-- Some zeros stand behind the value.
unfoldable pub padding_of : StunAttribute → List ℕ → List ℕ
padding_of a txn_id =
    replicate (round_up (length (value_of a txn_id)) - length (value_of a txn_id)) 0

no_padding : (n : ℕ) → n % 4 ≡ 0 → round_up n - n ≡ 0
no_padding n h = omega arith

aligned_form :
    (t n : ℕ) (v : List ℕ)
    → length v ≡ n
    → n % 4 ≡ 0
    → be16 t ++ (be16 n ++ v)
      ≡ be16 t ++ (be16 (length v) ++ (v ++ replicate (round_up (length v) - length v) 0))
aligned_form t n v e a =
    ap (λ m. be16 t ++ (be16 m ++ v)) (sym e)
    ∙ ap (λ w. be16 t ++ (be16 (length v) ++ w)) (sym (append_nil v))
    ∙ ap (λ k. be16 t ++ (be16 (length v) ++ (v ++ replicate k 0)))
        (sym (no_padding (length v) (omega arith)))

address_form :
    (t : ℕ) (addr : SocketAddr) (xor : Bool) (txn_id : List ℕ)
    → IsAddress addr
    → let v = address_value addr xor txn_id in
      encode_address_attr t addr xor txn_id
      ≡ be16 t ++ (be16 (length v) ++ (v ++ replicate (round_up (length v) - length v) 0))
unfolding encode_address_attr address_value
address_form t (SocketAddr.v4 ip port) xor txn_id h =
    aligned_form t 8 (0 ∷ 1 ∷ (be16 (xor_port xor port) ++ xor_ip xor cookie_bytes ip))
      (omega (arith, length-xor_ip xor cookie_bytes ip, h.0)) refl
address_form t (SocketAddr.v6 ip port flowinfo scope_id) xor txn_id h =
    aligned_form t 20 (0 ∷ 2 ∷ (be16 (xor_port xor port) ++ xor_ip xor (cookie_bytes ++ txn_id) ip))
      (omega (arith, length-xor_ip xor (cookie_bytes ++ txn_id) ip, h.0)) refl

-- An encoding is the type, the length, the value and the padding.
pub encode-form :
    (lossy : List ℕ → List ℕ) (a : StunAttribute) (txn_id : List ℕ)
    → IsAttribute lossy a
    → encode a txn_id
      ≡ be16 (type_of a)
        ++ (be16 (length (value_of a txn_id)) ++ (value_of a txn_id ++ padding_of a txn_id))
unfolding encode encode_padded padding_of
encode-form lossy (StunAttribute.mapped_address addr) txn_id h =
    address_form 0x0001 addr false txn_id h
encode-form lossy (StunAttribute.xor_mapped_address addr) txn_id h =
    address_form 0x0020 addr true txn_id h
encode-form lossy (StunAttribute.changed_address addr) txn_id h =
    address_form 0x0005 addr false txn_id h
encode-form lossy (StunAttribute.change_request change_ip change_port) txn_id h = refl
encode-form lossy (StunAttribute.response_origin addr) txn_id h =
    address_form 0x802b addr false txn_id h
encode-form lossy (StunAttribute.other_address addr) txn_id h =
    address_form 0x802c addr false txn_id h
encode-form lossy (StunAttribute.error_code code reason) txn_id h = refl
encode-form lossy (StunAttribute.software s) txn_id h = refl
encode-form lossy (StunAttribute.unknown t value) txn_id h = refl

pub type_of-lt :
    (lossy : List ℕ → List ℕ) (a : StunAttribute) → IsAttribute lossy a → type_of a < 2 ^ 16
type_of-lt lossy (StunAttribute.mapped_address addr) h = omega arith
type_of-lt lossy (StunAttribute.xor_mapped_address addr) h = omega arith
type_of-lt lossy (StunAttribute.changed_address addr) h = omega arith
type_of-lt lossy (StunAttribute.change_request change_ip change_port) h = omega arith
type_of-lt lossy (StunAttribute.response_origin addr) h = omega arith
type_of-lt lossy (StunAttribute.other_address addr) h = omega arith
type_of-lt lossy (StunAttribute.error_code code reason) h = omega arith
type_of-lt lossy (StunAttribute.software s) h = omega arith
type_of-lt lossy (StunAttribute.unknown t value) h = h.0

address-lt :
    (addr : SocketAddr) (xor : Bool) (txn_id : List ℕ)
    → IsAddress addr
    → length (address_value addr xor txn_id) < 2 ^ 16
unfolding address_value
address-lt (SocketAddr.v4 ip port) xor txn_id h =
    omega (arith, length-xor_ip xor cookie_bytes ip, h.0)
address-lt (SocketAddr.v6 ip port flowinfo scope_id) xor txn_id h =
    omega (arith, length-xor_ip xor (cookie_bytes ++ txn_id) ip, h.0)

pub length-value_of-lt :
    (lossy : List ℕ → List ℕ) (a : StunAttribute) (txn_id : List ℕ)
    → IsAttribute lossy a
    → length (value_of a txn_id) < 2 ^ 16
length-value_of-lt lossy (StunAttribute.mapped_address addr) txn_id h =
    address-lt addr false txn_id h
length-value_of-lt lossy (StunAttribute.xor_mapped_address addr) txn_id h =
    address-lt addr true txn_id h
length-value_of-lt lossy (StunAttribute.changed_address addr) txn_id h =
    address-lt addr false txn_id h
length-value_of-lt lossy (StunAttribute.change_request change_ip change_port) txn_id h = omega arith
length-value_of-lt lossy (StunAttribute.response_origin addr) txn_id h =
    address-lt addr false txn_id h
length-value_of-lt lossy (StunAttribute.other_address addr) txn_id h =
    address-lt addr false txn_id h
length-value_of-lt lossy (StunAttribute.error_code code reason) txn_id h = omega (arith, h.1)
length-value_of-lt lossy (StunAttribute.software s) txn_id h = h.0
length-value_of-lt lossy (StunAttribute.unknown t value) txn_id h = h.1

-- Decoding an encoded attribute, with the type and the length that its first four bytes hold, gives the
-- attribute back: for IPv4 addresses, IPv6 addresses whose flow information and scope are 0, strings that `from_utf8_lossy` leaves alone, error codes below
-- 800, values shorter than 65536 bytes, and unknown attributes of a type not read by `decode` or
-- `unmarshal` itself.
pub decode-encode :
    (from_utf8_lossy : List ℕ → List ℕ) (a : StunAttribute) (txn_id : List ℕ)
    → IsAttribute from_utf8_lossy a
    → let bytes = encode a txn_id in
      decode from_utf8_lossy (u16_at bytes 0) (take (u16_at bytes 2) (drop 4 bytes)) txn_id ≡ some a
decode-encode lossy a txn_id h =
    let v = value_of a txn_id in
    let (t, e) =
      framed (type_of a) v (padding_of a txn_id) (type_of-lt lossy a h)
        (length-value_of-lt lossy a txn_id h) in
    ap (λ b. decode lossy (u16_at b 0) (take (u16_at b 2) (drop 4 b)) txn_id)
      (encode-form lossy a txn_id h)
    ∙ ap₂ (λ x y. decode lossy x y txn_id) t e
    ∙ decode-value lossy a txn_id h
