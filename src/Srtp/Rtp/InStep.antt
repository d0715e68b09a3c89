-- ===== src/Srtp/Rtp/InStep.antt =====
-- A receiver in step with a sender, and a sealed packet as it sees it: src/rtp/srtp.rs.
use rtp_sip_module.Prelude.{
  ℕ, ◌+◌, ◌-◌, ◌/◌, ◌^◌, ◌≤◌, ◌<◌, ◌≡◌, refl, sym, ap, ◌∙◌, ◌⊎◌, true, false, some, List, ◌++◌,
  length, take, drop, length-append, length-take, arith,
}
use mathlib.Core.List.{append_assoc}
use rtp_sip_module.Prelude.Bytes.{
  byte, be32, u16_at, u32_at, byte-append_left, take-append_self, drop-append_self,
}
use rtp_sip_module.Srtp.Context.{
  Crypto, ok, SrtpContext, CipherSuite, rtp_auth_tag_len, rtp_header_len,
}
use rtp_sip_module.Srtp.Replay.{check_replay}
use rtp_sip_module.Srtp.Rollover.{estimate_roc, packet_index, update_roc_recv}
use rtp_sip_module.Srtp.Cipher.{aes_cm_encrypt}
use rtp_sip_module.Srtp.Rtp.{
  compute_rtp_auth_tag, mki_len, mki_bytes, ssrc_changed, commit, authenticate, open_packet,
  unprotect_rtp,
}
use rtp_sip_module.Srtp.Rtp.Accepted.{auth_bytes, received_tag, verdict, fresh}
use rtp_sip_module.Srtp.Rtp.Roundtrip.{
  tag_of, repacked, length-repacked, byte-repacked, constant_time_eq_self,
}

pub unprotect_passes :
    (crypto : Crypto) (c : SrtpContext) (packet : List ℕ) (roc : ℕ)
    → 12 + rtp_auth_tag_len c.suite + mki_len c ≤ length packet
    → ssrc_changed c (u32_at packet 8) ≡ false
    → (c.initialized ≡ false) ⊎ (fresh c packet ≡ true)
    → verdict crypto c packet ≡ some roc
    → (unprotect_rtp crypto c packet).1
      ≡ (open_packet crypto
          (commit c (u32_at packet 8) (u16_at packet 2) roc)
          (auth_bytes c packet)
          (u32_at packet 8)
          (packet_index roc (u16_at packet 2))).1
unfolding unprotect_rtp
unprotect_passes crypto c packet roc l same f v = ground arith

pub open_packet_back :
    (crypto : Crypto) (c : SrtpContext) (text payload : List ℕ) (ssrc index h : ℕ)
    → rtp_header_len text ≡ ok h
    → aes_cm_encrypt crypto c.rtp_keys.enc_key c.rtp_keys.salt ssrc index (drop h text) ≡ ok payload
    → (open_packet crypto c text ssrc index).1 ≡ ok (take h text ++ payload)
unfolding open_packet
open_packet_back crypto c text payload ssrc index h e a = ground arith

pub keys-commit :
    (c : SrtpContext) (ssrc seq roc : ℕ) → (commit c ssrc seq roc).rtp_keys ≡ c.rtp_keys
unfolding commit update_roc_recv
keys-commit c ssrc seq roc = ground arith

pub authenticate_own :
    (crypto : Crypto) (c : SrtpContext) (ssrc est : ℕ) (text : List ℕ)
    → authenticate crypto c ssrc est text (tag_of crypto c text est) ≡ some est
unfolding authenticate
authenticate_own crypto c ssrc est text =
    ground (arith, constant_time_eq_self (tag_of crypto c text est))

tag_len-le : (suite : CipherSuite) → rtp_auth_tag_len suite ≤ 20
tag_len-le suite = ground arith

pub length-tag :
    (crypto : Crypto) (c : SrtpContext) (text : List ℕ) (roc : ℕ)
    → ((key t : List ℕ) → length (crypto.hmac_sha1 key t) ≡ 20)
    → length (tag_of crypto c text roc) ≡ rtp_auth_tag_len c.suite
unfolding compute_rtp_auth_tag
length-tag crypto c text roc twenty = omega (
  arith,
  length-take {0} (rtp_auth_tag_len c.suite)
      (crypto.hmac_sha1 c.rtp_keys.auth_key (text ++ be32 roc)),
  twenty c.rtp_keys.auth_key (text ++ be32 roc),
  tag_len-le c.suite,
)

-- The receiver `r` has the sender's suite, keys and MKI length; it has had packets of this source
-- only, estimates the sender's rollover count, and has not accepted the index.
pub record InStep (s r : SrtpContext) (ssrc seq index : ℕ) : Type 0 where
  pub same_suite : r.suite ≡ s.suite
  pub same_keys : r.rtp_keys ≡ s.rtp_keys
  pub same_mki : mki_len r ≡ length (mki_bytes s)
  pub same_source : ssrc_changed r ssrc ≡ false
  pub in_step : estimate_roc r seq ≡ index / 2 ^ 16
  pub not_seen :
      (r.initialized ≡ false) ⊎ (check_replay 128 r.replay_window r.replay_window_base index ≡ true)

-- What a sealed packet looks like to the receiver.
module _ (crypto : Crypto) (s r : SrtpContext) (packet out payload : List ℕ) (h roc : ℕ)
    (bounds : (12 ≤ h) × (h ≤ length packet)) (l : length payload ≡ length packet - h)
    (tag_length : length (tag_of crypto s (repacked packet h payload) roc)
      ≡ rtp_auth_tag_len r.suite)
    (mki_length : mki_len r ≡ length (mki_bytes s))
    (shape : out
      ≡ repacked packet h payload
        ++ (mki_bytes s ++ tag_of crypto s (repacked packet h payload) roc)) where
  abbrev pub text : List ℕ
  text = repacked packet h payload

  abbrev pub tag : List ℕ
  tag = tag_of crypto s text roc

  pub length-out : length out ≡ length packet + mki_len r + rtp_auth_tag_len r.suite
  length-out =
      ap length shape
      ∙ omega (
        arith,
        length-append {0} text (mki_bytes s ++ tag),
        length-append {0} (mki_bytes s) tag,
        length-repacked packet payload h bounds.1 l,
      )

  pub auth_bytes-out : auth_bytes r out ≡ text
  auth_bytes-out =
      ap (λ k. take k out) (omega (arith, length-out, length-repacked packet payload h bounds.1 l))
      ∙ ap (take (length text)) shape
      ∙ take-append_self (length text) text (mki_bytes s ++ tag) refl

  pub received_tag-out : received_tag r out ≡ tag
  received_tag-out =
      ap (λ k. drop k out)
        (omega (
          arith,
          length-out,
          length-append {0} text (mki_bytes s),
          length-repacked packet payload h bounds.1 l,
        ))
      ∙ ap (drop (length (text ++ mki_bytes s))) (shape ∙ sym (append_assoc text (mki_bytes s) tag))
      ∙ drop-append_self (length (text ++ mki_bytes s)) (text ++ mki_bytes s) tag refl

  byte-out : (i : ℕ) → i < 12 → byte out i ≡ byte packet i
  byte-out i b =
      ap (λ t. byte t i) shape
      ∙ byte-append_left text (mki_bytes s ++ tag) i
          (omega (arith, bounds, length-repacked packet payload h bounds.1 l))
      ∙ byte-repacked packet payload h i bounds.1 (omega (arith, bounds))

  pub number-out : u16_at out 2 ≡ u16_at packet 2
  unfolding u16_at
  number-out = omega (arith, byte-out 2 (omega arith), byte-out 3 (omega arith))

  pub source-out : u32_at out 8 ≡ u32_at packet 8
  unfolding u32_at
  source-out = omega (
    arith,
    byte-out 8 (omega arith),
    byte-out 9 (omega arith),
    byte-out 10 (omega arith),
    byte-out 11 (omega arith),
  )

pub tag-same :
    (crypto : Crypto) (s r : SrtpContext) (text : List ℕ) (roc roc' : ℕ)
    → r.suite ≡ s.suite
    → r.rtp_keys ≡ s.rtp_keys
    → roc ≡ roc'
    → tag_of crypto s text roc ≡ tag_of crypto r text roc'
tag-same crypto s r text roc roc' p q e = rw (← p, ← q, e)
