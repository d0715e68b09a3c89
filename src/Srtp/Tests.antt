-- ===== src/Srtp/Tests.antt =====
-- Packets through the contexts of src/rtp/srtp.rs with a toy cipher and a toy hash.
use rtp_sip_module.Srtp.Keying.Agreed.{from_crypto, first_packet_understood}
use rtp_sip_module.Prelude.Text.{HaveNoSpace, IsWithout, lacks, lacks-IsWithout}
use rtp_sip_module.Srtp.Keying.{Base64, CryptoAttribute, ParseResult, parse, to_sdp_value, generate}
use rtp_sip_module.Srtp.Keying.Laws.{parse-to_sdp_value}
use rtp_sip_module.Srtp.Keying.Accepted.{IsAccepted, parse-IsAccepted}
use rtp_sip_module.Prelude.Text.{no_space, no_space-HaveNoSpace, is_whitespace}
use rtp_sip_module.Prelude.{map, ◌-◌, ◌++◌}
use rtp_sip_module.Prelude.Text.{same_text}
use rtp_sip_module.Prelude.{
  ℕ, ◌+◌, ◌-◌, ◌%◌, ◌≡◌, refl, inl, inr, true, false, not, ◌&&◌, ◌||◌, none, some, List, [], ◌∷◌,
  ltb, length, replicate, arith,
}
use rtp_sip_module.Prelude.Bytes.{u32_at}
use rtp_sip_module.Prelude.Bytes.{xor_bytes}
use rtp_sip_module.Srtp.Context.{
  Crypto, aes_cm128_hmac_sha1_80, aes_cm128_hmac_sha1_32, suite_from_str, suite_as_str, rejected,
  srtcp_rejected, ok, err, SrtpContext, rtp_header_len,
}
use rtp_sip_module.Srtp.Replay.{check_replay, accept_window, accept_base}
use rtp_sip_module.Srtp.Replay.Laws.{
  contains, Tracks, Tracks-empty, check_replay_exact, accept-Tracks,
}
use rtp_sip_module.Srtp.Rollover.{estimate_roc, update_roc_recv}
use rtp_sip_module.Srtp.Rollover.Laws.{InRange, estimate_roc_exact}
use rtp_sip_module.Srtp.Cipher.{
  xor_blocks, aes_cm_iv, counter_block, aes_cm_encrypt, aes_cm_encrypt_srtcp, prf_iv, prf_blocks,
  prf_derive, derive_session_keys,
}
use rtp_sip_module.Srtp.Cipher.Laws.{counter_block-injective}
use rtp_sip_module.Srtp.Rtp.{
  difference, constant_time_eq, next_send_counter, handle_unprotect_error, commit, with_mki,
  compute_rtp_auth_tag, seal, protect_rtp, authenticate, open_packet, unprotect_rtp,
}
use rtp_sip_module.Srtp.Rtp.Monotonic.{send_all, AreSealed, send_all-AreSealed}
use rtp_sip_module.Srtp.Rtp.Replays.{unprotect_rtp_again, unprotect_rtp_fresh}
use rtp_sip_module.Srtp.Rtp.Sources.{new_source_skips_replay}
use rtp_sip_module.Srtp.Rtp.Delivery.{unprotect-protect}
use rtp_sip_module.Srtp.Rtcp.{crypt_body, rtcp_trailer, protect_rtcp, open_rtcp, unprotect_rtcp}
use rtp_sip_module.Srtp.Rtcp.Laws.{unprotect_rtcp_again}

abbrev toy : Crypto
toy = record {
  encrypt_block = λ key block. block;
  hmac_sha1 = λ key text. replicate 20 (length text % 256);
}

context : SrtpContext
unfolding with_mki derive_session_keys prf_derive prf_blocks prf_iv xor_bytes counter_block
context = with_mki toy aes_cm128_hmac_sha1_80 (replicate 16 1) (replicate 14 2) none none

-- version 2, sequence number 7, source 1, four bytes of payload
abbrev packet : List ℕ
packet = 128 ∷ 0 ∷ 0 ∷ 7 ∷ 0 ∷ 0 ∷ 0 ∷ 0 ∷ 0 ∷ 0 ∷ 0 ∷ 1 ∷ 9 ∷ 8 ∷ 7 ∷ 6 ∷ []

protected : List ℕ
unfolding context protect_rtp seal rtp_header_len aes_cm_encrypt xor_blocks aes_cm_iv
    compute_rtp_auth_tag u32_at next_send_counter
protected = elim (protect_rtp toy context packet).1 [ ok out ↦ out | err e ↦ [] | _ ↦ [] ]

protect_ok : (protect_rtp toy context packet).1 ≡ ok protected
unfolding protected
protect_ok = refl

opened : (unprotect_rtp toy context protected).1 ≡ ok packet
unfolding protected unprotect_rtp open_packet authenticate constant_time_eq difference estimate_roc
    commit update_roc_recv accept_window accept_base
opened = refl

-- the context after the packet came in
received : SrtpContext
unfolding opened
received = (unprotect_rtp toy context protected).0

control : List ℕ
unfolding context protect_rtcp crypt_body rtcp_trailer aes_cm_encrypt_srtcp aes_cm_encrypt
    xor_blocks aes_cm_iv u32_at
control =
    elim (protect_rtcp toy context (128 ∷ 200 ∷ 0 ∷ 2 ∷ 0 ∷ 0 ∷ 0 ∷ 1 ∷ 5 ∷ 6 ∷ 7 ∷ 8 ∷ [])).1 [
      | ok out ↦ out
      | err e ↦ []
      | _ ↦ []
    ]

suites : suite_from_str (suite_as_str aes_cm128_hmac_sha1_32) ≡ some aes_cm128_hmac_sha1_32
unfolding suite_from_str suite_as_str same_text
suites = refl

short_packets_are_counted : (handle_unprotect_error context).error_count ≡ 1
unfolding handle_unprotect_error context
short_packets_are_counted = refl

in_range : InRange context
unfolding context
in_range = omega arith

check_replay_exact_example :
    check_replay 128 0 0 5 ≡ (ltb 0 5 || (ltb (0 - 5) 128 && not (contains [] 5)))
check_replay_exact_example = check_replay_exact 128 0 0 [] 5 (Tracks-empty 128)

accept-Tracks_example : Tracks 64 (accept_window 64 0 0 9) (accept_base 0 9) (9 ∷ [])
accept-Tracks_example = accept-Tracks 64 0 0 [] 9 (Tracks-empty 64)

estimate_roc_exact_example :
    estimate_roc (record context { initialized = true; s_l = 65530; roc = 4 }) 3 ≡ 5
unfolding context
estimate_roc_exact_example =
    estimate_roc_exact (record context { initialized = true; s_l = 65530; roc = 4 }) 5 3
      (omega arith) refl (omega arith) (omega arith) (omega arith) (omega arith)

counter_block-injective_example : (◌≡◌ {A = ℕ} 1 1) × (◌≡◌ {A = ℕ} 7 7) × (◌≡◌ {A = ℕ} 0 0)
counter_block-injective_example =
    counter_block-injective (replicate 14 2) 1 1 7 7 0 0 (omega arith) (omega arith) (omega arith)
      (omega arith) (omega arith) (omega arith) refl

send_all-AreSealed_example :
    AreSealed toy context.rtp_keys (send_all toy context (packet ∷ packet ∷ []))
send_all-AreSealed_example = send_all-AreSealed toy context (packet ∷ packet ∷ [])

unprotect_rtp_again_example : unprotect_rtp toy received protected ≡ (received, err rejected)
unfolding received protected
unprotect_rtp_again_example =
    unprotect_rtp_again toy context protected packet in_range (omega arith) opened

unprotect_rtp_fresh_example :
    (contains [] 7 ≡ false)
    × Tracks 128 received.replay_window received.replay_window_base (7 ∷ [])
    × (received.initialized ≡ true)
unfolding received
unprotect_rtp_fresh_example =
    unprotect_rtp_fresh toy context protected packet [] (Tracks-empty 128) (inr refl) refl opened

new_source_skips_replay_example :
    (unprotect_rtp toy
      (record received { current_recv_ssrc = some 2; replay_window = 0; replay_window_base = 0 })
      protected).1
    ≡ (unprotect_rtp toy (record received { current_recv_ssrc = some 2 }) protected).1
unfolding received
new_source_skips_replay_example =
    new_source_skips_replay toy (record received { current_recv_ssrc = some 2 }) protected 0 0 refl

-- The packet that `received` refuses comes through again after a packet of another source.
replay_after_another_source :
    (unprotect_rtp toy (record received { current_recv_ssrc = some 2 }) protected).1 ≡ ok packet
unfolding received
replay_after_another_source = refl

unprotect-protect_example : (unprotect_rtp toy context protected).1 ≡ ok packet
unfolding protected estimate_roc check_replay
unprotect-protect_example =
    unprotect-protect toy context context packet protected (λ key text. refl) (omega arith)
      protect_ok
      (record {
        same_suite = refl;
        same_keys = refl;
        same_mki = refl;
        same_source = refl;
        in_step = refl;
        not_seen = inl refl;
      })

unprotect_rtcp_again_example :
    let c' = (unprotect_rtcp toy context control).0 in
    unprotect_rtcp toy c' control ≡ (c', err srtcp_rejected)
unfolding control unprotect_rtcp open_rtcp constant_time_eq difference
unprotect_rtcp_again_example =
    unprotect_rtcp_again toy context control
      (128 ∷ 200 ∷ 0 ∷ 2 ∷ 0 ∷ 0 ∷ 0 ∷ 1 ∷ 5 ∷ 6 ∷ 7 ∷ 8 ∷ []) refl

-- An encoding of a byte as one character above 256.
abbrev one_character : Base64
one_character = record {
  encode = map (λ b. b + 256);
  decode = λ text. some (map (λ c. c - 256) text);
}

abbrev attribute : CryptoAttribute
attribute =
    record (generate aes_cm128_hmac_sha1_32
      (0 ∷ 1 ∷ 2 ∷ 3 ∷ 4 ∷ 5 ∷ 6 ∷ 7 ∷ 8 ∷ 9 ∷ 10 ∷ 11 ∷ 12 ∷ 13 ∷ 14 ∷ 15 ∷ [])
      (16 ∷ 17 ∷ 18 ∷ 19 ∷ 20 ∷ 21 ∷ 22 ∷ 23 ∷ 24 ∷ 25 ∷ 26 ∷ 27 ∷ 28 ∷ 255 ∷ [])) {
        mki = some (1 ∷ 2 ∷ []);
        mki_length = some 2;
      }

encoded_key : List ℕ
unfolding generate
encoded_key = map (λ b. b + 256) (attribute.master_key ++ attribute.master_salt)

encoded_key-HaveNoSpace : HaveNoSpace encoded_key
unfolding encoded_key no_space is_whitespace
encoded_key-HaveNoSpace =
    no_space-HaveNoSpace (map (λ b. b + 256) (attribute.master_key ++ attribute.master_salt)) refl

encoded_key-IsWithout : IsWithout 124 encoded_key
unfolding encoded_key lacks
encoded_key-IsWithout =
    lacks-IsWithout 124 (map (λ b. b + 256) (attribute.master_key ++ attribute.master_salt)) refl

parse-to_sdp_value_example :
    parse one_character (to_sdp_value one_character attribute) ≡ ParseResult.parsed attribute
unfolding generate encoded_key
parse-to_sdp_value_example =
    parse-to_sdp_value one_character attribute (omega arith) refl refl
      ((omega arith, (omega arith, tt)), (refl, (omega arith, omega arith))) refl
      encoded_key-HaveNoSpace encoded_key-IsWithout

read_back :
    parse one_character (to_sdp_value one_character attribute) ≡ ParseResult.parsed attribute
unfolding generate encoded_key
read_back =
    parse-to_sdp_value one_character attribute (omega arith) refl refl
      ((omega arith, (omega arith, tt)), (refl, (omega arith, omega arith))) refl
      encoded_key-HaveNoSpace encoded_key-IsWithout

sent_first : List ℕ
unfolding from_crypto with_mki derive_session_keys prf_derive prf_blocks prf_iv xor_bytes
    counter_block protect_rtp seal rtp_header_len aes_cm_encrypt xor_blocks aes_cm_iv
    compute_rtp_auth_tag u32_at next_send_counter generate
sent_first = elim (protect_rtp toy (from_crypto toy attribute) packet).1 [
  | ok out ↦ out
  | err e ↦ []
  | _ ↦ []
]

first_packet_understood_example :
    (unprotect_rtp toy (from_crypto toy attribute) sent_first).1 ≡ ok packet
unfolding sent_first encoded_key
first_packet_understood_example =
    first_packet_understood toy one_character attribute attribute packet sent_first
      (λ key text. refl) (omega arith) refl refl
      ((omega arith, (omega arith, tt)), (refl, (omega arith, omega arith))) refl
      encoded_key-HaveNoSpace encoded_key-IsWithout read_back (omega arith) refl

parse-IsAccepted_example : IsAccepted (parse one_character (to_sdp_value one_character attribute))
parse-IsAccepted_example = parse-IsAccepted one_character (to_sdp_value one_character attribute)
