-- ===== src/Srtp/Keying/Agreed.antt =====
-- `SrtpContext::from_crypto` of src/rtp/srtp.rs, and two sides that have exchanged an attribute `a=crypto`.
use rtp_sip_module.Prelude.{
  ℕ, ◌/◌, ◌^◌, ◌<◌, ◌≡◌, refl, sym, ap, ◌∙◌, inl, Option, none, some, List, [], ◌++◌, length, arith,
}
use rtp_sip_module.Prelude.Bytes.{AllBytes, u16_at, u32_at}
use rtp_sip_module.Prelude.Text.{HaveNoSpace, IsWithout}
use rtp_sip_module.Srtp.Context.{Crypto, SrtpContext, ok}
use rtp_sip_module.Srtp.Rollover.{estimate_roc}
use rtp_sip_module.Srtp.Rtp.{
  with_mki, protect_rtp, unprotect_rtp, next_send_counter, mki_len, mki_bytes,
}
use rtp_sip_module.Srtp.Rtp.Roundtrip.{Protected, Protected-of_ok, protect_indexed_ok}
use rtp_sip_module.Srtp.Rtp.InStep.{InStep}
use rtp_sip_module.Srtp.Rtp.Delivery.{HashLength, unprotect-protect}
use rtp_sip_module.Srtp.Keying.{Base64, CryptoAttribute, ParseResult, parse, to_sdp_value, pipe}
use rtp_sip_module.Srtp.Keying.Laws.{IsMki, parse-to_sdp_value}

-- `SrtpContext::from_crypto`
unfoldable pub from_crypto : Crypto → CryptoAttribute → SrtpContext
unfolding with_mki
from_crypto crypto c = with_mki crypto c.suite c.master_key c.master_salt c.mki c.mki_length

length-mki :
    (crypto : Crypto) (c : CryptoAttribute)
    → IsMki c.mki c.mki_length
    → mki_len (from_crypto crypto c) ≡ length (mki_bytes (from_crypto crypto c))
unfolding from_crypto
length-mki crypto c m = go c.mki c.mki_length m
  where
    go :
        (mki : Option (List ℕ)) (len : Option ℕ)
        → IsMki mki len
        → elim len as (λ _. ℕ) [ none ↦ 0 | some n ↦ n ]
          ≡ length (elim mki as (λ _. List ℕ) [ none ↦ [] | some bytes ↦ bytes ])
    go none none m = refl
    go none (some len) m = elim m [ ]
    go (some bytes) none m = elim m [ ]
    go (some bytes) (some len) (all, (same, bounds)) = sym same

first_index :
    (crypto : Crypto) (c : CryptoAttribute) (packet out : List ℕ)
    → AllBytes packet
    → (protect_rtp crypto (from_crypto crypto c) packet).1 ≡ ok out
    → (protect_rtp crypto (from_crypto crypto c) packet).0.last_sent_index / 2 ^ 16 ≡ 0
unfolding from_crypto next_send_counter
first_index crypto c packet out bytes e =
    let s = from_crypto crypto c in
    let p : Protected crypto s packet out = Protected-of_ok crypto s packet out bytes e in
    let sent = protect_indexed_ok crypto s packet out p.header_len p.header_ok e in
    omega (arith, sent.1, p.last, p.ends)

new_InStep :
    (crypto : Crypto) (c : CryptoAttribute) (packet out : List ℕ)
    → IsMki c.mki c.mki_length
    → AllBytes packet
    → (protect_rtp crypto (from_crypto crypto c) packet).1 ≡ ok out
    → InStep
        (from_crypto crypto c)
        (from_crypto crypto c)
        (u32_at packet 8)
        (u16_at packet 2)
        (protect_rtp crypto (from_crypto crypto c) packet).0.last_sent_index
unfolding from_crypto estimate_roc
new_InStep crypto c packet out m bytes e = record {
  same_suite = refl;
  same_keys = refl;
  same_mki = length-mki crypto c m;
  same_source = refl;
  in_step = sym (first_index crypto c packet out bytes e);
  not_seen = inl refl;
}

parsed_same : (a b : CryptoAttribute) → ParseResult.parsed a ≡ ParseResult.parsed b → a ≡ b
parsed_same a b e =
    ap (λ (r : ParseResult). elim r [ ParseResult.parsed c ↦ c | ParseResult.failed error ↦ a ]) e

-- Two sides that agree on a key by SDP understand each other: what a new context for a valid attribute
-- lets out for its first packet, a new context for the attribute that the other side reads from the SDP
-- value turns back into the packet, for a hash of twenty bytes and a base64 that decodes its own encoding
-- of the key and writes neither white space nor a bar.
pub first_packet_understood :
    (crypto : Crypto) (base64 : Base64) (c received : CryptoAttribute) (packet out : List ℕ)
    → HashLength crypto
    → c.tag < 2 ^ 32
    → length c.master_key ≡ 16
    → length c.master_salt ≡ 14
    → IsMki c.mki c.mki_length
    → base64.decode (base64.encode (c.master_key ++ c.master_salt))
      ≡ some (c.master_key ++ c.master_salt)
    → HaveNoSpace (base64.encode (c.master_key ++ c.master_salt))
    → IsWithout pipe (base64.encode (c.master_key ++ c.master_salt))
    → parse base64 (to_sdp_value base64 c) ≡ ParseResult.parsed received
    → AllBytes packet
    → (protect_rtp crypto (from_crypto crypto c) packet).1 ≡ ok out
    → (unprotect_rtp crypto (from_crypto crypto received) out).1 ≡ ok packet
first_packet_understood crypto base64 c received packet out twenty t k s m d plain bar read bytes
      e =
    let same : received ≡ c =
      parsed_same received c (sym read ∙ parse-to_sdp_value base64 c t k s m d plain bar) in
    rw (same) (
      unprotect-protect crypto (from_crypto crypto c) (from_crypto crypto c) packet out twenty bytes
        e (new_InStep crypto c packet out m bytes e))
