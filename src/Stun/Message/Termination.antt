-- ===== src/Stun/Message/Termination.antt =====
-- The loop and the reads of `unmarshal` of src/nat/stun/message.rs.
use rtp_sip_module.Prelude.{
  ℕ, zero, suc, ◌+◌, ◌*◌, ◌/◌, ◌≤◌, ◌<◌, ◌≡◌, refl, Bool, true, false, not, ◌&&◌, ◌||◌, Option,
  none, some, List, [], if◌then◌else◌, ltb, ◌==◌, length, arith, take, drop, ◌%◌, ◌⊎◌, inl, inr,
}
use rtp_sip_module.Prelude.Bytes.{byte, u16_at, u32_at}
use rtp_sip_module.Stun.Attribute.{StunAttribute, decode, round_up}
use rtp_sip_module.Stun.Message.{
  StunError, StunMessage, Result, ok, err, panic, out_of_fuel, Attributes, parse_attributes, fits,
  finish, unmarshal, push, is_some, magic_cookie, check_fingerprint,
}

-- A FINGERPRINT that was found stands behind the header and within the bytes.
abbrev IsInside : List ℕ → Option (ℕ × ℕ) → Type 0
IsInside bytes none = Unit
IsInside bytes (some (value, offset)) = (20 ≤ offset) × (offset ≤ length bytes)

-- The loop ended without a panic, and the FINGERPRINT that it found is inside.
abbrev HasEnded : List ℕ → Result Attributes → Type 0
HasEnded bytes (ok (attributes, fp)) = IsInside bytes fp
HasEnded bytes (err e) = Unit
HasEnded bytes panic = ⊥
HasEnded bytes out_of_fuel = ⊥

rounds :
    (bytes : List ℕ) (ended unread truncated outside refused : Bool) (x : Attributes)
    (e e' : StunError) (rest : Result Attributes)
    → IsInside bytes x.1
    → (ended ≡ false → unread ≡ false)
    → (truncated ≡ false → outside ≡ false)
    → (ended ≡ false → HasEnded bytes rest)
    → HasEnded bytes (
        if ended
        then ok x
        else if unread
        then panic
        else if truncated
        then err e
        else if outside
        then panic
        else if refused
        then err e'
        else rest)
rounds bytes true unread truncated outside refused (a, fp) e e' rest h u o r = h
rounds bytes false true truncated outside refused x e e' rest h u o r =
    absurd (ground (arith, u refl))
rounds bytes false false true outside refused x e e' rest h u o r = tt
rounds bytes false false false true refused x e e' rest h u o r = absurd (ground (arith, o refl))
rounds bytes false false false false true x e e' rest h u o r = tt
rounds bytes false false false false false x e e' rest h u o r = r refl

not_ended :
    (end offset len fuel : ℕ)
    → end < offset + suc fuel
    → ltb end (offset + 4) ≡ false
    → (0 < fuel) × (end < offset + 4 + (len + 3) / 4 * 4 + fuel)
not_ended end offset len fuel h e = ground arith

within : (a end n : ℕ) → end ≤ n → ltb end a ≡ false → ltb n a ≡ false
within a end n le h = ground arith

within_and : (a end n : ℕ) (b : Bool) → end ≤ n → ltb end a ≡ false → (ltb n a && b) ≡ false
within_and a end n b le h = ground arith

IsInside-next :
    (bytes : List ℕ) (end offset value : ℕ) (four : Bool) (fp : Option (ℕ × ℕ))
    → 20 ≤ offset
    → end ≤ length bytes
    → ltb end (offset + 4) ≡ false
    → IsInside bytes fp
    → IsInside bytes (if four then some (value, offset) else fp)
IsInside-next bytes end offset value true fp ge le h i = ground arith
IsInside-next bytes end offset value false fp ge le h i = i

-- Every round moves the offset by four or more, so fuel for the rest of the message is enough; no round
-- reads past the end, which is not behind the bytes.
parse_attributes_ends :
    (lossy : List ℕ → List ℕ) (fuel : ℕ) (bytes : List ℕ) (end offset : ℕ) (txn_id : List ℕ)
    (fp : Option (ℕ × ℕ)) (attributes : List StunAttribute)
    → 0 < fuel
    → end < offset + fuel
    → 20 ≤ offset
    → end ≤ length bytes
    → IsInside bytes fp
    → HasEnded bytes (parse_attributes lossy fuel bytes end offset txn_id fp attributes)
unfolding parse_attributes
parse_attributes_ends lossy zero bytes end offset txn_id fp attributes z h ge le i =
    absurd (omega arith)
parse_attributes_ends lossy (suc fuel) bytes end offset txn_id fp attributes z h ge le i =
    let attr_type = u16_at bytes offset in
    let attr_len = u16_at bytes (offset + 2) in
    let start = offset + 4 in
    let attr = decode lossy attr_type (take attr_len (drop start bytes)) txn_id in
    let is_fingerprint = attr_type == 0x8028 in
    let four = is_fingerprint && (attr_len == 4) in
    let fp' = if four then some (u32_at bytes start, offset) else fp in
    let attributes' = if is_fingerprint then attributes else push attributes attr in
    rounds bytes (ltb end (offset + 4)) (ltb (length bytes) (offset + 4))
      (ltb end (start + attr_len))
      (ltb (length bytes) (start + attr_len) && (not is_fingerprint || attr_len == 4))
      (not is_fingerprint && (not (is_some attr) && ltb attr_type 0x8000)) (attributes, fp)
      StunError.truncated_attribute (StunError.unknown_comprehension_required attr_type)
      (parse_attributes lossy fuel bytes end (start + round_up attr_len) txn_id fp' attributes') i
      (within (offset + 4) end (length bytes) le)
      (within_and (start + attr_len) end (length bytes) (not is_fingerprint || attr_len == 4) le)
      (λ e.
        parse_attributes_ends lossy fuel bytes end (start + round_up attr_len) txn_id fp'
          attributes' (not_ended end offset attr_len fuel h e).0
          (not_ended end offset attr_len fuel h e).1 (omega arith) le
          (IsInside-next bytes end offset (u32_at bytes start) four fp ge le e i))

-- A message or an error.
abbrev HasReturned : Result StunMessage → Type 0
HasReturned (ok m) = Unit
HasReturned (err e) = Unit
HasReturned panic = ⊥
HasReturned out_of_fuel = ⊥

fits_inside : (bytes : List ℕ) (fp : Option (ℕ × ℕ)) → IsInside bytes fp → fits bytes fp ≡ true
unfolding fits
fits_inside bytes none i = refl
fits_inside bytes (some (value, offset)) i = ground arith

checked :
    (fit same : Bool) (m : StunMessage)
    → fit ≡ true
    → HasReturned
        (if not fit then panic else if same then ok m else err StunError.fingerprint_mismatch)
checked true true m e = tt
checked true false m e = tt
checked false same m e = absurd (ground arith)

finish_returns :
    (crc32 : List ℕ → ℕ) (bytes : List ℕ) (r : Result Attributes)
    → HasEnded bytes r
    → HasReturned (finish crc32 bytes r)
unfolding finish
finish_returns crc32 bytes (ok (attributes, fp)) h =
    checked (fits bytes fp) (check_fingerprint crc32 bytes fp) _ (fits_inside bytes fp h)
finish_returns crc32 bytes (err e) h = tt
finish_returns crc32 bytes panic h = absurd h
finish_returns crc32 bytes out_of_fuel h = absurd h

guards :
    (a b c d e : Bool) (r : Result StunMessage)
    → (e ≡ false → HasReturned r)
    → HasReturned (
        if a
        then err StunError.too_short
        else if a
        then panic
        else if b
        then err StunError.invalid_header
        else if c
        then err StunError.invalid_header
        else if d
        then err StunError.invalid_magic_cookie
        else if e
        then err StunError.too_short
        else r)
guards true b c d e r h = tt
guards false true c d e r h = tt
guards false false true d e r h = tt
guards false false false true e r h = tt
guards false false false false true r h = tt
guards false false false false false r h = h refl

unmarshal_ends :
    (crc32 : List ℕ → ℕ) (lossy : List ℕ → List ℕ) (bytes : List ℕ)
    → HasReturned (unmarshal crc32 lossy bytes)
unfolding unmarshal
unmarshal_ends crc32 lossy bytes =
    let msg_len = u16_at bytes 2 in
    let txn_id = take 12 (drop 8 bytes) in
    let parsed = parse_attributes lossy (suc msg_len) bytes (20 + msg_len) 20 txn_id none [] in
    guards (ltb (length bytes) 20) (not (byte bytes 0 / 64 == 0)) (not (msg_len % 4 == 0))
      (not (u32_at bytes 4 == magic_cookie)) (ltb (length bytes) (20 + msg_len))
      (finish crc32 bytes parsed)
      (λ e. finish_returns crc32 bytes parsed (
        parse_attributes_ends lossy (suc msg_len) bytes (20 + msg_len) 20 txn_id none []
          (omega arith) (omega arith) (omega arith) (ground arith) tt))

returned :
    (r : Result StunMessage)
    → HasReturned r
    → ((m : StunMessage) × (r ≡ ok m)) ⊎ ((e : StunError) × (r ≡ err e))
returned (ok m) h = inl (m, refl)
returned (err e) h = inr (e, refl)
returned panic h = absurd h
returned out_of_fuel h = absurd h

-- `unmarshal` returns on every string of bytes, a message or an error: its loop ends, and no index and no
-- slice of the loop, of the header or of the check of FINGERPRINT is outside the bytes, where it would
-- panic.
pub unmarshal_returns :
    (crc32 : List ℕ → ℕ) (from_utf8_lossy : List ℕ → List ℕ) (bytes : List ℕ)
    → ((m : StunMessage) × (unmarshal crc32 from_utf8_lossy bytes ≡ ok m))
      ⊎ ((e : StunError) × (unmarshal crc32 from_utf8_lossy bytes ≡ err e))
unmarshal_returns crc32 lossy bytes =
    returned (unmarshal crc32 lossy bytes) (unmarshal_ends crc32 lossy bytes)
