-- ===== src/Stun/Attribute.antt =====
-- STUN attributes, src/nat/stun/attributes.rs. A string is the list of its UTF-8 bytes.
pub mod Laws
pub mod Values
pub mod Roundtrip
use rtp_sip_module.Prelude.{
  ℕ, ◌+◌, ◌-◌, ◌*◌, ◌/◌, ◌%◌, ◌≡◌, Bool, true, false, not, ◌&&◌, Option, none, some, List, [], ◌∷◌,
  ◌++◌, if◌then◌else◌, ltb, ◌==◌, length, take, drop, replicate, bit_and, bit_or, bit_xor,
}
use rtp_sip_module.Prelude.Bytes.{byte, u16_at, u32_at, be16, be32, xor_bytes}

-- `SocketAddr`: the octets of the address, most significant first, and the port; an IPv6 address has its
-- flow information and its scope as well, which do not go into a message
pub data SocketAddr : Type 0 where
  v4 : (ip : List ℕ) (port : ℕ) → SocketAddr
  v6 : (ip : List ℕ) (port flowinfo scope_id : ℕ) → SocketAddr

-- `StunAttribute`
pub data StunAttribute : Type 0 where
  mapped_address xor_mapped_address changed_address : SocketAddr → StunAttribute
  change_request : (change_ip change_port : Bool) → StunAttribute
  response_origin other_address : SocketAddr → StunAttribute
  error_code : (code : ℕ) (reason : List ℕ) → StunAttribute
  software : List ℕ → StunAttribute
  unknown : ℕ → List ℕ → StunAttribute

-- `MAGIC_COOKIE.to_be_bytes()`, and `(MAGIC_COOKIE >> 16) as u16`
abbrev pub cookie_bytes : List ℕ
cookie_bytes = 0x21 ∷ 0x12 ∷ 0xa4 ∷ 0x42 ∷ []

abbrev pub cookie_high : ℕ
cookie_high = 0x2112

-- the two branches on `xor` of `encode_address_attr` and `decode_address`
unfoldable pub xor_port : Bool → ℕ → ℕ
xor_port xor port = if xor then bit_xor port cookie_high else port

unfoldable pub xor_ip : Bool → List ℕ → List ℕ → List ℕ
xor_ip xor key ip = if xor then xor_bytes ip key else ip

-- `encode_address_attr`
unfoldable pub encode_address_attr : ℕ → SocketAddr → Bool → List ℕ → List ℕ
encode_address_attr attr_type (SocketAddr.v4 ip port) xor txn_id =
    be16 attr_type ++ (be16 8 ++ (0 ∷ 1 ∷ (be16 (xor_port xor port) ++ xor_ip xor cookie_bytes ip)))
encode_address_attr attr_type (SocketAddr.v6 ip port flowinfo scope_id) xor txn_id =
    be16 attr_type
    ++ (be16 20 ++ (0 ∷ 2 ∷ (be16 (xor_port xor port) ++ xor_ip xor (cookie_bytes ++ txn_id) ip)))

-- `decode_address`
unfoldable pub decode_address : List ℕ → Bool → List ℕ → Option SocketAddr
decode_address bytes xor txn_id =
    let family = byte bytes 1 in
    let port = xor_port xor (u16_at bytes 2) in
    if ltb (length bytes) 4
    then none
    else if family == 1
    then (if ltb (length bytes) 8
        then none
        else some (SocketAddr.v4 (xor_ip xor cookie_bytes (take 4 (drop 4 bytes))) port))
    else if family == 2
    then (if ltb (length bytes) 20
        then none
        else some
            (SocketAddr.v6 (xor_ip xor (cookie_bytes ++ txn_id) (take 16 (drop 4 bytes))) port 0 0))
    else none

-- `(n + 3) & !3`
abbrev pub round_up : ℕ → ℕ
round_up n = (n + 3) / 4 * 4

-- the type, the length and the value, with zeros up to a multiple of four bytes. The length field is
-- `value_len as u16`.
unfoldable pub encode_padded : ℕ → List ℕ → List ℕ
encode_padded attr_type value =
    be16 attr_type
    ++ (be16 (length value) ++ (value ++ replicate (round_up (length value) - length value) 0))

-- `encode`
unfoldable pub encode : StunAttribute → List ℕ → List ℕ
encode (StunAttribute.mapped_address addr) txn_id = encode_address_attr 0x0001 addr false txn_id
encode (StunAttribute.xor_mapped_address addr) txn_id = encode_address_attr 0x0020 addr true txn_id
encode (StunAttribute.changed_address addr) txn_id = encode_address_attr 0x0005 addr false txn_id
encode (StunAttribute.change_request change_ip change_port) txn_id =
    be16 0x0003
    ++ (be16 4 ++ be32 (bit_or (if change_ip then 4 else 0) (if change_port then 2 else 0)))
encode (StunAttribute.response_origin addr) txn_id = encode_address_attr 0x802b addr false txn_id
encode (StunAttribute.other_address addr) txn_id = encode_address_attr 0x802c addr false txn_id
encode (StunAttribute.error_code code reason) txn_id =
    encode_padded 0x0009 (0 ∷ 0 ∷ bit_and (code / 100 % 256) 7 ∷ code % 100 ∷ reason)
encode (StunAttribute.software s) txn_id = encode_padded 0x8022 s
encode (StunAttribute.unknown attr_type value) txn_id = encode_padded attr_type value

unfoldable pub map_option {ℓ κ} : {A : Type ℓ} {B : Type κ} → (A → B) → Option A → Option B
map_option f none = none
map_option f (some a) = some (f a)

-- `String::from_utf8_lossy` is the standard library's.
module _ (from_utf8_lossy : List ℕ → List ℕ) where
  unfoldable pub decode_error_code : List ℕ → Option StunAttribute
  decode_error_code bytes =
      if ltb (length bytes) 4
      then none
      else some (
          StunAttribute.error_code (bit_and (byte bytes 2) 7 * 100 + byte bytes 3)
            (if ltb 4 (length bytes) then from_utf8_lossy (drop 4 bytes) else []))

  unfoldable pub decode_change_request : List ℕ → Option StunAttribute
  decode_change_request bytes =
      let flags = u32_at bytes 0 in
      if ltb (length bytes) 4
      then none
      else some
          (StunAttribute.change_request (not (bit_and flags 4 == 0)) (not (bit_and flags 2 == 0)))

  -- `decode`
  unfoldable pub decode : ℕ → List ℕ → List ℕ → Option StunAttribute
  decode attr_type bytes txn_id =
      if attr_type == 0x0001
      then map_option StunAttribute.mapped_address (decode_address bytes false txn_id)
      else if attr_type == 0x0020
      then map_option StunAttribute.xor_mapped_address (decode_address bytes true txn_id)
      else if attr_type == 0x0005
      then map_option StunAttribute.changed_address (decode_address bytes false txn_id)
      else if attr_type == 0x0003
      then decode_change_request bytes
      else if attr_type == 0x802b
      then map_option StunAttribute.response_origin (decode_address bytes false txn_id)
      else if attr_type == 0x802c
      then map_option StunAttribute.other_address (decode_address bytes false txn_id)
      else if attr_type == 0x0009
      then decode_error_code bytes
      else if attr_type == 0x8022
      then some (StunAttribute.software (from_utf8_lossy bytes))
      else some (StunAttribute.unknown attr_type bytes)
