-- ===== src/Stun/Message.antt =====
-- STUN messages, src/nat/stun/message.rs.
pub mod Access
pub mod Termination
pub mod Offset
pub mod Parsed
pub mod Roundtrip
use rtp_sip_module.Prelude.{
  ℕ, zero, suc, ◌+◌, ◌-◌, ◌*◌, ◌/◌, ◌%◌, Bool, true, false, not, ◌&&◌, ◌||◌, Option, none, some,
  List, [], ◌∷◌, ◌++◌, if◌then◌else◌, ltb, leb, ◌==◌, length, take, drop, set, bit_and, bit_xor,
}
use rtp_sip_module.Prelude.Bytes.{byte, u16_at, u32_at, be16, be32}
use rtp_sip_module.Stun.Attribute.{
  SocketAddr, StunAttribute, encode, decode, round_up, cookie_bytes,
}

-- `StunError`
pub data StunError : Type 0 where
  too_short invalid_header invalid_magic_cookie truncated_attribute fingerprint_mismatch : StunError
  unknown_comprehension_required : ℕ → StunError

-- `Result`, a panic at an index or a slice outside the bytes, and the end of the fuel of the loop below
pub data Result {ℓ} (A : Type ℓ) : Type ℓ where
  ok : A → Result A
  err : StunError → Result A
  panic out_of_fuel : Result A

-- `StunMessage`
pub record StunMessage : Type 0 where
  pub msg_type : ℕ
  pub transaction_id : List ℕ
  pub attributes : List StunAttribute

-- `new_binding_request` and `new_binding_indication`, with the random transaction id as an argument
unfoldable pub new_binding_request : List ℕ → StunMessage
new_binding_request txn_id = record { msg_type = 0x0001; transaction_id = txn_id; attributes = [] }

unfoldable pub new_binding_indication : List ℕ → StunMessage
new_binding_indication txn_id = record {
  msg_type = 0x0011;
  transaction_id = txn_id;
  attributes = [];
}

abbrev pub magic_cookie : ℕ
magic_cookie = 0x2112_a442

abbrev pub fingerprint_xor : ℕ
fingerprint_xor = 0x5354_554e

-- `is_stun`; a byte whose two top bits are zero is below 64
unfoldable pub is_stun : List ℕ → Bool
is_stun bytes =
    let msg_len = u16_at bytes 2 in
    if ltb (length bytes) 20
    then false
    else if not (byte bytes 0 / 64 == 0)
    then false
    else if not (msg_len % 4 == 0)
    then false
    else if ltb (length bytes) (20 + msg_len)
    then false
    else u32_at bytes 4 == magic_cookie

-- the attribute bytes of `marshal`
unfoldable pub encode_all : List StunAttribute → List ℕ → List ℕ
encode_all [] txn_id = []
encode_all (a ∷ attributes) txn_id = encode a txn_id ++ encode_all attributes txn_id

-- the twenty bytes of a header
unfoldable pub header : ℕ → ℕ → List ℕ → List ℕ
header msg_type len txn_id = be16 msg_type ++ (be16 len ++ (cookie_bytes ++ txn_id))

-- `attributes.push(attr)` where `decode` gave an attribute
unfoldable pub push : List StunAttribute → Option StunAttribute → List StunAttribute
push attributes none = attributes
push attributes (some a) = attributes ++ (a ∷ [])

abbrev pub is_some : Option StunAttribute → Bool
is_some none = false
is_some (some a) = true

-- What the loop of `unmarshal` leaves: the attributes, and the value and the offset of the last
-- FINGERPRINT of four bytes.
abbrev pub Attributes : Type 0
Attributes = List StunAttribute × Option (ℕ × ℕ)

-- The CRC is that of the crate `crc32fast`, HMAC-SHA1 that of the crates `hmac` and `sha1`, and
-- `String::from_utf8_lossy` the standard library's.
module _ (crc32 : List ℕ → ℕ) where
  -- the FINGERPRINT attribute behind a message
  unfoldable pub fingerprint : List ℕ → List ℕ
  fingerprint buf = be16 0x8028 ++ (be16 4 ++ be32 (bit_xor (crc32 buf) fingerprint_xor))

  -- `marshal`
  unfoldable pub marshal : StunMessage → List ℕ
  marshal m =
      let attr_bytes = encode_all m.attributes m.transaction_id in
      let buf = header m.msg_type (length attr_bytes + 8) m.transaction_id ++ attr_bytes in
      buf ++ fingerprint buf

  -- `marshal_with_integrity`
  unfoldable pub marshal_with_integrity :
      (hmac_sha1 : List ℕ → List ℕ → List ℕ) → StunMessage → List ℕ → List ℕ
  marshal_with_integrity hmac_sha1 m integrity_key =
      let attr_bytes = encode_all m.attributes m.transaction_id in
      let hmac_input = header m.msg_type (length attr_bytes + 24) m.transaction_id ++ attr_bytes in
      let hmac_result = hmac_sha1 integrity_key hmac_input in
      let buf =
        header m.msg_type (length attr_bytes + 24 + 8) m.transaction_id
        ++ (attr_bytes ++ (be16 0x0008 ++ (be16 20 ++ hmac_result))) in
      buf ++ fingerprint buf

  -- the check of FINGERPRINT in `unmarshal`
  unfoldable pub check_fingerprint : List ℕ → Option (ℕ × ℕ) → Bool
  check_fingerprint bytes none = true
  check_fingerprint bytes (some (fp_val, fp_off)) =
      let adjusted_len = (fp_off - 20 + 8) % 65536 in
      let buf = set (set (take fp_off bytes) 2 (adjusted_len / 256)) 3 (adjusted_len % 256) in
      bit_xor (crc32 buf) fingerprint_xor == fp_val

module _ (from_utf8_lossy : List ℕ → List ℕ) where
  -- the loop of `unmarshal`, on fuel. FINGERPRINT is not added to the attributes, and its value is read
  -- only where it has four bytes.
  unfoldable pub parse_attributes :
      ℕ → List ℕ → ℕ → ℕ → List ℕ → Option (ℕ × ℕ) → List StunAttribute → Result Attributes
  parse_attributes zero bytes end offset txn_id fp attributes = out_of_fuel
  parse_attributes (suc fuel) bytes end offset txn_id fp attributes =
      let attr_type = u16_at bytes offset in
      let attr_len = u16_at bytes (offset + 2) in
      let start = offset + 4 in
      let attr = decode from_utf8_lossy attr_type (take attr_len (drop start bytes)) txn_id in
      let is_fingerprint = attr_type == 0x8028 in
      let fp' =
        if is_fingerprint && (attr_len == 4) then some (u32_at bytes start, offset) else fp in
      let attributes' = if is_fingerprint then attributes else push attributes attr in
      let rest =
        parse_attributes fuel bytes end (start + round_up attr_len) txn_id fp' attributes' in
      if ltb end (offset + 4)
      then ok (attributes, fp)
      else if ltb (length bytes) (offset + 4)
      then panic
      else if ltb end (start + attr_len)
      then err StunError.truncated_attribute
      else if ltb (length bytes) (start + attr_len) && (not is_fingerprint || attr_len == 4)
      then panic
      else if not is_fingerprint && (not (is_some attr) && ltb attr_type 0x8000)
      then err (StunError.unknown_comprehension_required attr_type)
      else rest

-- whether the slice `data[..fp_off]` is within the bytes and long enough for the length field, and
-- `fp_off - HEADER_SIZE` does not go below zero
unfoldable pub fits : List ℕ → Option (ℕ × ℕ) → Bool
fits bytes none = true
fits bytes (some (fp_val, fp_off)) = leb 20 fp_off && leb fp_off (length bytes)

-- the end of `unmarshal`
unfoldable pub finish : (List ℕ → ℕ) → List ℕ → Result Attributes → Result StunMessage
unfolding fits
finish crc32 bytes (ok (attributes, fp)) =
    if not (fits bytes fp)
    then panic
    else if check_fingerprint crc32 bytes fp
    then ok record {
      msg_type = u16_at bytes 0;
      transaction_id = take 12 (drop 8 bytes);
      attributes = attributes;
    }
    else err StunError.fingerprint_mismatch
finish crc32 bytes (err e) = err e
finish crc32 bytes panic = panic
finish crc32 bytes out_of_fuel = out_of_fuel

-- `unmarshal`; every round of its loop advances by four bytes or more. The header is the first twenty
-- bytes.
unfoldable pub unmarshal : (List ℕ → ℕ) → (List ℕ → List ℕ) → List ℕ → Result StunMessage
unmarshal crc32 from_utf8_lossy bytes =
    let msg_len = u16_at bytes 2 in
    let txn_id = take 12 (drop 8 bytes) in
    let parsed =
      parse_attributes from_utf8_lossy (suc msg_len) bytes (20 + msg_len) 20 txn_id none [] in
    if ltb (length bytes) 20
    then err StunError.too_short
    else if ltb (length bytes) 20
    then panic
    else if not (byte bytes 0 / 64 == 0)
    then err StunError.invalid_header
    else if not (msg_len % 4 == 0)
    then err StunError.invalid_header
    else if not (u32_at bytes 4 == magic_cookie)
    then err StunError.invalid_magic_cookie
    else if ltb (length bytes) (20 + msg_len)
    then err StunError.too_short
    else finish crc32 bytes parsed
