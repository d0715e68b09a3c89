-- ===== src/Srtp/Rtp/Roundtrip.antt =====
-- What `protect_rtp` of src/rtp/srtp.rs puts into the packets that it lets out.
use rtp_sip_module.Prelude.{
  ℕ, ◌+◌, ◌-◌, ◌*◌, ◌/◌, ◌%◌, ◌^◌, ◌≤◌, ◌<◌, ◌≡◌, refl, ◌∙◌, true, List, [], ◌∷◌, ◌++◌, length,
  take, drop, length-append, length-take, arith,
}
use rtp_sip_module.Prelude.Bits.{bit_xor_self}
use rtp_sip_module.Prelude.Bytes.{AllBytes, byte, u16_at, u32_at, byte-append_left, byte-take}
use rtp_sip_module.Srtp.Context.{Crypto, ok, SrtpContext, rtp_auth_tag_len, rtp_header_len}
use rtp_sip_module.Srtp.Cipher.{aes_cm_encrypt}
use rtp_sip_module.Srtp.Rtp.Accepted.{u16_at-lt}
use rtp_sip_module.Srtp.Rtp.{
  difference, constant_time_eq, compute_rtp_auth_tag, seal, mki_bytes, protect_rtp,
  next_send_counter,
}

difference_self : (xs : List ℕ) → difference 0 xs xs ≡ 0
unfolding difference
difference_self [] = refl
difference_self (x ∷ xs) = rw (bit_xor_self x) (difference_self xs)

pub constant_time_eq_self : (xs : List ℕ) → constant_time_eq xs xs ≡ true
unfolding constant_time_eq
constant_time_eq_self xs = ground (arith, difference_self xs)

pub rtp_header_len_bounds :
    (packet : List ℕ) (h : ℕ) → rtp_header_len packet ≡ ok h → (12 ≤ h) × (h ≤ length packet)
unfolding rtp_header_len
rtp_header_len_bounds packet h e = ground arith

-- another payload of the same length, under the same header
abbrev pub repacked : List ℕ → ℕ → List ℕ → List ℕ
repacked packet h payload = take h packet ++ payload

pub length-repacked :
    (packet payload : List ℕ) (h : ℕ)
    → h ≤ length packet
    → length payload ≡ length packet - h
    → length (repacked packet h payload) ≡ length packet
length-repacked packet payload h b l =
    omega (arith, length-append {0} (take h packet) payload, length-take {0} h packet)

pub byte-repacked :
    (packet payload : List ℕ) (h i : ℕ)
    → h ≤ length packet
    → i < h
    → byte (repacked packet h payload) i ≡ byte packet i
byte-repacked packet payload h i b l =
    byte-append_left (take h packet) payload i (omega (arith, length-take {0} h packet))
    ∙ byte-take h packet i l

-- The header length depends on the header's bytes and the packet's length alone.
pub rtp_header_len_same :
    (packet payload : List ℕ) (h : ℕ)
    → rtp_header_len packet ≡ ok h
    → length payload ≡ length packet - h
    → rtp_header_len (repacked packet h payload) ≡ ok h
unfolding rtp_header_len
rtp_header_len_same packet payload h e l =
    rw (length-repacked packet payload h bounds.1 l, same 0 (omega (arith, bounds)))
      (ground
        (arith, same (12 + byte packet 0 % 16 * 4 + 2), same (12 + byte packet 0 % 16 * 4 + 2 + 1)))
  where
    bounds : (12 ≤ h) × (h ≤ length packet)
    bounds = rtp_header_len_bounds packet h e

    same : (i : ℕ) → i < h → byte (repacked packet h payload) i ≡ byte packet i
    same i = byte-repacked packet payload h i bounds.1

-- What a successful `protect_rtp` says: the header is well formed, and the packet was sealed under
-- the new last index, which ends in the packet's sequence number.
pub record Protected (crypto : Crypto) (s : SrtpContext) (packet out : List ℕ) : Type 0 where
  pub header_len : ℕ
  pub index : ℕ
  pub header_ok : rtp_header_len packet ≡ ok header_len
  pub sealed : seal crypto s packet header_len index ≡ ok out
  pub last : (protect_rtp crypto s packet).0.last_sent_index ≡ index
  pub index_in : index < 2 ^ 48
  pub ends : index % 2 ^ 16 ≡ u16_at packet 2

pub protect_indexed_ok :
    (crypto : Crypto) (s : SrtpContext) (packet out : List ℕ) (h : ℕ)
    → rtp_header_len packet ≡ ok h
    → (protect_rtp crypto s packet).1 ≡ ok out
    → let index = next_send_counter s (u16_at packet 2) % 2 ^ 48 in
      (seal crypto s packet h index ≡ ok out)
      × ((protect_rtp crypto s packet).0.last_sent_index ≡ index)
unfolding protect_rtp
protect_indexed_ok crypto s packet out h e r = ground arith

header_of_ok :
    (crypto : Crypto) (s : SrtpContext) (packet out : List ℕ)
    → (protect_rtp crypto s packet).1 ≡ ok out
    → (h : ℕ) × (rtp_header_len packet ≡ ok h)
unfolding protect_rtp
header_of_ok crypto s packet out r = ground arith

next_send_counter_ends :
    (s : SrtpContext) (seq : ℕ) → seq < 2 ^ 16 → next_send_counter s seq % 2 ^ 48 % 2 ^ 16 ≡ seq
unfolding next_send_counter
next_send_counter_ends s seq h = ground arith

pub Protected-of_ok :
    (crypto : Crypto) (s : SrtpContext) (packet out : List ℕ)
    → AllBytes packet
    → (protect_rtp crypto s packet).1 ≡ ok out
    → Protected crypto s packet out
Protected-of_ok crypto s packet out bytes e = record {
  header_len = header.0;
  index = next_send_counter s (u16_at packet 2) % 2 ^ 48;
  header_ok = header.1;
  sealed = parts.0;
  last = parts.1;
  index_in = omega arith;
  ends = next_send_counter_ends s (u16_at packet 2) (u16_at-lt packet 2 bytes);
}
  where
    header : (h : ℕ) × (rtp_header_len packet ≡ ok h)
    header = header_of_ok crypto s packet out e

    parts :
        let index = next_send_counter s (u16_at packet 2) % 2 ^ 48 in
        (seal crypto s packet header.0 index ≡ ok out)
        × ((protect_rtp crypto s packet).0.last_sent_index ≡ index)
    parts = protect_indexed_ok crypto s packet out header.0 header.1 e

-- the tag of a text, and what stands before the tag and the MKI
abbrev pub tag_of : Crypto → SrtpContext → List ℕ → ℕ → List ℕ
tag_of crypto s text roc =
    compute_rtp_auth_tag crypto s.rtp_keys.auth_key text roc (rtp_auth_tag_len s.suite)

pub seal_ok :
    (crypto : Crypto) (s : SrtpContext) (packet out : List ℕ) (h index : ℕ)
    → seal crypto s packet h index ≡ ok out
    → (payload : List ℕ) × (aes_cm_encrypt crypto s.rtp_keys.enc_key s.rtp_keys.salt
          (u32_at packet 8)
          index
          (drop h packet)
        ≡ ok payload)
      × (out
          ≡ repacked packet h payload
            ++ (mki_bytes s
                ++ tag_of crypto s (repacked packet h payload) (index / 2 ^ 16 % 2 ^ 32)))
unfolding seal
seal_ok crypto s packet out h index e = ground arith
