-- ===== src/Stun/Message/Roundtrip.antt =====
-- `marshal` and then `unmarshal` of src/nat/stun/message.rs.
use rtp_sip_module.Prelude.{
  ℕ, suc, ◌+◌, ◌-◌, ◌/◌, ◌%◌, ◌^◌, ◌≤◌, ◌<◌, ◌≡◌, refl, ap, ap₂, ◌∙◌, true, none, some, List, [],
  ◌∷◌, ◌++◌, ◌==◌, length, take, drop, set, bit_xor, arith, length-append, append_assoc,
}
use rtp_sip_module.Prelude.Bits.{bit_xor-lt}
use rtp_sip_module.Prelude.Bytes.{byte, u16_at, u32_at, be16, take-append_self, drop-append_self}
use rtp_sip_module.Stun.Attribute.{StunAttribute, encode, cookie_bytes}
use rtp_sip_module.Stun.Attribute.Laws.{be16-value}
use rtp_sip_module.Stun.Message.{
  StunMessage, Result, ok, Attributes, parse_attributes, check_fingerprint, fits, finish, unmarshal,
  marshal, fingerprint, header, encode_all, magic_cookie, fingerprint_xor,
}
use rtp_sip_module.Stun.Message.Parsed.{AllAttributes, length-encode, tail_of, parse-encode_all}

-- A message whose type has its two top bits zero, with an identifier of twelve bytes and attributes that
-- are encoded without loss and fit the length field together with FINGERPRINT.
abbrev pub IsMessage : (List ℕ → List ℕ) → StunMessage → Type 0
IsMessage lossy m =
    (m.msg_type < 2 ^ 14)
    × (length m.transaction_id ≡ 12)
    × AllAttributes lossy m.attributes
    × (length (encode_all m.attributes m.transaction_id) + 8 < 2 ^ 16)

length-encode_all :
    (lossy : List ℕ → List ℕ) (as_ : List StunAttribute) (txn_id : List ℕ)
    → AllAttributes lossy as_
    → length (encode_all as_ txn_id) % 4 ≡ 0
unfolding encode_all
length-encode_all lossy [] txn_id h = refl
length-encode_all lossy (a ∷ as_) txn_id (h, all) = omega (
  arith,
  length-append {0} (encode a txn_id) (encode_all as_ txn_id),
  length-encode lossy a txn_id h,
  length-encode_all lossy as_ txn_id all,
)

-- A message of the right form is read by its loop.
accepted :
    (crc32 : List ℕ → ℕ) (lossy : List ℕ → List ℕ) (bytes : List ℕ) (r : Result Attributes)
    → 20 ≤ length bytes
    → byte bytes 0 < 64
    → u16_at bytes 2 % 4 ≡ 0
    → u32_at bytes 4 ≡ magic_cookie
    → 20 + u16_at bytes 2 ≤ length bytes
    → parse_attributes lossy
        (suc (u16_at bytes 2))
        bytes
        (20 + u16_at bytes 2)
        20
        (take 12 (drop 8 bytes))
        none
        []
      ≡ r
    → unmarshal crc32 lossy bytes ≡ finish crc32 bytes r
unfolding unmarshal
accepted crc32 lossy bytes r l b f c h e = ground arith

finished :
    (crc32 : List ℕ → ℕ) (bytes : List ℕ) (attributes : List StunAttribute) (x off : ℕ)
    → 20 ≤ off
    → off ≤ length bytes
    → check_fingerprint crc32 bytes (some (x, off)) ≡ true
    → finish crc32 bytes (ok (attributes, some (x, off)))
      ≡ ok (record {
        msg_type = u16_at bytes 0;
        transaction_id = take 12 (drop 8 bytes);
        attributes = attributes;
      })
unfolding finish fits
finished crc32 bytes attributes x off g l c = ground arith

-- The length field of the copy that is checked is the one that `marshal` wrote.
patched :
    (high low : List ℕ) (n off : ℕ)
    → off ≡ 20 + n
    → n + 8 < 2 ^ 16
    → length high ≡ 2
    → set
        (set (high ++ (be16 (n + 8) ++ low)) 2 ((off - 20 + 8) % 65536 / 256))
        3
        ((off - 20 + 8) % 65536 % 256)
      ≡ high ++ (be16 (n + 8) ++ low)
patched [] low n off e l h = absurd (omega arith)
patched (a ∷ []) low n off e l h = absurd (omega arith)
patched (a ∷ b ∷ []) low n off e l h =
    ap₂ (λ x y. a ∷ b ∷ x ∷ y ∷ low) {y = (n + 8) / 256 % 256} (omega arith) (omega arith)
patched (a ∷ b ∷ c ∷ high) low n off e l h = absurd (omega arith)

checks :
    (crc32 : List ℕ → ℕ) (buf rest : List ℕ) (off : ℕ)
    → length buf ≡ off
    → set (set buf 2 ((off - 20 + 8) % 65536 / 256)) 3 ((off - 20 + 8) % 65536 % 256) ≡ buf
    → check_fingerprint crc32 (buf ++ rest) (some (bit_xor (crc32 buf) fingerprint_xor, off)) ≡ true
unfolding check_fingerprint
checks crc32 buf rest off l e =
    let n = (off - 20 + 8) % 65536 in
    ap
      (λ b.
        bit_xor (crc32 (set (set b 2 (n / 256)) 3 (n % 256))) fingerprint_xor
        == bit_xor (crc32 buf) fingerprint_xor)
      (take-append_self off buf rest l)
    ∙ ap (λ b. bit_xor (crc32 b) fingerprint_xor == bit_xor (crc32 buf) fingerprint_xor) e
    ∙ ground arith

-- What `marshal` writes, `unmarshal` reads as the same message, whatever the CRC is, if it has 32 bits: for
-- a type whose two top bits are zero, an identifier of twelve bytes, and attributes that are encoded
-- without loss and whose bytes, with the eight of FINGERPRINT, fit the 16-bit length field.
pub unmarshal-marshal :
    (crc32 : List ℕ → ℕ) (from_utf8_lossy : List ℕ → List ℕ) (m : StunMessage)
    → ((bytes : List ℕ) → crc32 bytes < 2 ^ 32)
    → IsMessage from_utf8_lossy m
    → unmarshal crc32 from_utf8_lossy (marshal crc32 m) ≡ ok m
unfolding marshal header fingerprint u16_at u32_at
unmarshal-marshal crc32 lossy m crc (t, i, all, small) =
    let txn = m.transaction_id in
    let attrs = encode_all m.attributes txn in
    let n = length attrs in
    let low = (cookie_bytes ++ txn) ++ attrs in
    let buf = be16 m.msg_type ++ (be16 (n + 8) ++ low) in
    let x = bit_xor (crc32 buf) fingerprint_xor in
    let bytes = buf ++ tail_of x in
    let four = length-encode_all lossy m.attributes txn all in
    let ta = length-append {0} txn attrs in
    let bt = length-append {0} (txn ++ attrs) (tail_of x) in
    let msg_len : u16_at bytes 2 ≡ n + 8 = be16-value (n + 8) small in
    let id : take 12 (drop 8 bytes) ≡ txn =
      ap (take 12) (append_assoc txn attrs (tail_of x))
      ∙ take-append_self 12 txn (attrs ++ tail_of x) i in
    let at_attrs : drop 20 bytes ≡ attrs ++ tail_of x =
      ap (drop 12) (append_assoc txn attrs (tail_of x))
      ∙ drop-append_self 12 txn (attrs ++ tail_of x) i in
    let parsed : parse_attributes lossy (suc (u16_at bytes 2)) bytes (20 + u16_at bytes 2) 20
          (take 12 (drop 8 bytes)) none []
        ≡ ok (m.attributes, some (x, 20 + n)) =
      ap₂ (λ k id. parse_attributes lossy (suc k) bytes (20 + k) 20 id none []) msg_len id
      ∙ parse-encode_all lossy m.attributes (suc (n + 8)) bytes (20 + (n + 8)) 20 txn none [] x all
          (bit_xor-lt 32 (crc32 buf) fingerprint_xor (crc buf) (omega arith)) at_attrs (omega arith)
          (omega arith) (omega arith) in
    accepted crc32 lossy bytes (ok (m.attributes, some (x, 20 + n))) (omega arith) (omega arith)
      (omega arith) (omega arith) (omega arith) parsed
    ∙ finished crc32 bytes m.attributes x (20 + n) (omega arith) (omega arith) (
        checks crc32 buf (tail_of x) (20 + n) (omega arith)
          (patched (be16 m.msg_type) low n (20 + n) refl small refl))
    ∙ ap₂ (λ ty id. ok (record { msg_type = ty; transaction_id = id; attributes = m.attributes }))
        (be16-value m.msg_type (omega arith)) id
