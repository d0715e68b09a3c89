-- ===== src/Srtp/Rtp/Delivery.antt =====
-- An RTP packet through the sender's and the receiver's context, src/rtp/srtp.rs.
use rtp_sip_module.Prelude.{
  ℕ, ◌+◌, ◌-◌, ◌/◌, ◌%◌, ◌^◌, ◌≤◌, ◌<◌, ◌≡◌, sym, ap, ◌∙◌, ◌⊎◌, true, false, some, List, ◌++◌,
  length, take, drop, length-take, length-drop, take-append-drop, arith,
}
use rtp_sip_module.Prelude.Bytes.{AllBytes, u16_at, u32_at, take-append_self, drop-append_self}
use rtp_sip_module.Srtp.Context.{Crypto, ok, SrtpContext, rtp_auth_tag_len, rtp_header_len}
use rtp_sip_module.Srtp.Rollover.{packet_index}
use rtp_sip_module.Srtp.Cipher.{aes_cm_encrypt}
use rtp_sip_module.Srtp.Cipher.Laws.{aes_cm_encrypt_twice}
use rtp_sip_module.Srtp.Rtp.{mki_len, mki_bytes, commit, open_packet, unprotect_rtp, protect_rtp}
use rtp_sip_module.Srtp.Rtp.Accepted.{auth_bytes, received_tag, verdict, fresh}
use rtp_sip_module.Srtp.Rtp.Roundtrip.{
  Protected, Protected-of_ok, seal_ok, tag_of, repacked, rtp_header_len_same, rtp_header_len_bounds,
}
use rtp_sip_module.Srtp.Rtp.InStep.{
  InStep, unprotect_passes, open_packet_back, keys-commit, authenticate_own, length-tag, tag-same,
  length-out, auth_bytes-out, received_tag-out, number-out, source-out,
}

-- The hash has 20 bytes.
abbrev pub HashLength : Crypto → Type 0
HashLength crypto = (key t : List ℕ) → length (crypto.hmac_sha1 key t) ≡ 20

-- A sealed packet, a receiver in step, and what they have to do with one another.
module _ (crypto : Crypto) (s r : SrtpContext) (packet out payload : List ℕ) (h index : ℕ)
    (twenty : HashLength crypto) (header : rtp_header_len packet ≡ ok h) (small : index < 2 ^ 48)
    (ends : index % 2 ^ 16 ≡ u16_at packet 2)
    (sync : InStep s r (u32_at packet 8) (u16_at packet 2) index)
    (cipher : aes_cm_encrypt crypto s.rtp_keys.enc_key s.rtp_keys.salt
        (u32_at packet 8)
        index
        (drop h packet)
      ≡ ok payload)
    (shape : out
      ≡ repacked packet h payload
        ++ (mki_bytes s
            ++ tag_of crypto s (repacked packet h payload) (index / 2 ^ 16 % 2 ^ 32))) where
  abbrev text : List ℕ
  text = repacked packet h payload

  bounds : (12 ≤ h) × (h ≤ length packet)
  bounds = rtp_header_len_bounds packet h header

  back :
      (aes_cm_encrypt crypto s.rtp_keys.enc_key s.rtp_keys.salt (u32_at packet 8) index payload
        ≡ ok (drop h packet))
      × (length payload ≡ length (drop h packet))
  back = aes_cm_encrypt_twice crypto _ _ _ _ _ payload cipher

  payload_length : length payload ≡ length packet - h
  payload_length = back.1 ∙ length-drop h packet

  tag_length : length (tag_of crypto s text (index / 2 ^ 16 % 2 ^ 32)) ≡ rtp_auth_tag_len r.suite
  tag_length = length-tag crypto s text _ twenty ∙ ap rtp_auth_tag_len (sym sync.same_suite)

  header_length : length (take h packet) ≡ h
  header_length = omega (arith, length-take {0} h packet, bounds)

  length_lem : length out ≡ length packet + mki_len r + rtp_auth_tag_len r.suite
  length_lem =
      length-out crypto s r packet out payload h _ bounds payload_length tag_length sync.same_mki
        shape

  auth_bytes_lem : auth_bytes r out ≡ text
  auth_bytes_lem =
      auth_bytes-out crypto s r packet out payload h _ bounds payload_length tag_length
        sync.same_mki shape

  received_tag_lem : received_tag r out ≡ tag_of crypto r text (index / 2 ^ 16)
  received_tag_lem =
      received_tag-out crypto s r packet out payload h _ bounds payload_length tag_length
        sync.same_mki shape
      ∙ tag-same crypto s r text _ _ sync.same_suite sync.same_keys (omega arith)

  number_lem : u16_at out 2 ≡ u16_at packet 2
  number_lem =
      number-out crypto s r packet out payload h _ bounds payload_length tag_length sync.same_mki
        shape

  source_lem : u32_at out 8 ≡ u32_at packet 8
  source_lem =
      source-out crypto s r packet out payload h _ bounds payload_length tag_length sync.same_mki
        shape

  index_lem : packet_index (index / 2 ^ 16) (u16_at packet 2) ≡ index
  index_lem = omega arith

  verdict_lem : verdict crypto r out ≡ some (index / 2 ^ 16)
  verdict_lem =
      rw (number_lem, sync.in_step, auth_bytes_lem, received_tag_lem)
        (authenticate_own crypto r (u32_at out 8) (index / 2 ^ 16) text)

  fresh_lem : (r.initialized ≡ false) ⊎ (fresh r out ≡ true)
  fresh_lem = rw (number_lem, sync.in_step, index_lem) sync.not_seen

  opened :
      (open_packet crypto
        (commit r (u32_at packet 8) (u16_at packet 2) (index / 2 ^ 16))
        text
        (u32_at packet 8)
        index).1
      ≡ ok (take h text ++ drop h packet)
  opened =
      open_packet_back crypto _ text (drop h packet) (u32_at packet 8) index h
        (rtp_header_len_same packet payload h header payload_length)
        (rw (keys-commit, sync.same_keys, drop-append_self h (take h packet) payload header_length)
          back.0)

  sealed_delivered : (unprotect_rtp crypto r out).1 ≡ ok packet
  sealed_delivered =
      unprotect_passes crypto r out (index / 2 ^ 16) (omega (arith, length_lem, bounds))
        (rw source_lem sync.same_source) fresh_lem verdict_lem
      ∙ rw (source_lem, number_lem, auth_bytes_lem, index_lem)
          (opened
            ∙ ap (λ t. ok (t ++ drop h packet))
                (take-append_self h (take h packet) payload header_length)
            ∙ ap ok (take-append-drop h packet))

-- What a sender lets out for a packet, a receiver that is in step with it for the packet's source,
-- sequence number and index turns back into the packet that went in, if the hash has twenty bytes.
pub unprotect-protect :
    (crypto : Crypto) (s r : SrtpContext) (packet out : List ℕ)
    → HashLength crypto
    → AllBytes packet
    → (protect_rtp crypto s packet).1 ≡ ok out
    → InStep s r (u32_at packet 8) (u16_at packet 2) (protect_rtp crypto s packet).0.last_sent_index
    → (unprotect_rtp crypto r out).1 ≡ ok packet
unprotect-protect crypto s r packet out twenty bytes e sync =
    sealed_delivered crypto s r packet out sealed.0 p.header_len p.index twenty p.header_ok
      p.index_in p.ends (rw p.last at sync) sealed.1 sealed.2
  where
    p : Protected crypto s packet out
    p = Protected-of_ok crypto s packet out bytes e

    sealed :
        (payload : List ℕ) × (aes_cm_encrypt crypto s.rtp_keys.enc_key s.rtp_keys.salt
            (u32_at packet 8)
            p.index
            (drop p.header_len packet)
          ≡ ok payload)
        × (out
            ≡ repacked packet p.header_len payload
              ++ (mki_bytes s
                  ++ tag_of crypto s
                      (repacked packet p.header_len payload)
                      (p.index / 2 ^ 16 % 2 ^ 32)))
    sealed = seal_ok crypto s packet out p.header_len p.index p.sealed
