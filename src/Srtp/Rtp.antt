-- ===== src/Srtp/Rtp.antt =====
-- `protect_rtp` and `unprotect_rtp` of src/rtp/srtp.rs. A method returns the context that it leaves
-- behind, also when it fails, and its result.
pub mod Monotonic
pub mod Accepted
pub mod Replays
pub mod Sources
pub mod Roundtrip
pub mod InStep
pub mod Delivery
use rtp_sip_module.Prelude.{
  ℕ, zero, suc, ◌+◌, ◌-◌, ◌*◌, ◌/◌, ◌%◌, ◌^◌, bit_or, bit_xor, Bool, true, false, not, ◌&&◌, Option,
  none, some, List, [], ◌∷◌, ◌++◌, if◌then◌else◌, ltb, leb, ◌==◌, length, take, drop,
}
use rtp_sip_module.Prelude.Bytes.{u16_at, u32_at, be32}
use rtp_sip_module.Srtp.Context.{
  Crypto, Error, rtp_too_short, key_lifetime_exhausted, non_monotonic_index, rejected, Result, ok,
  err, panic, SessionKeys, SrtpContext, CipherSuite, rtp_auth_tag_len, srtp_reset_threshold,
  rtp_header_len,
}
use rtp_sip_module.Srtp.Replay.{check_replay, accept_window, accept_base}
use rtp_sip_module.Srtp.Rollover.{estimate_roc, packet_index, update_roc_recv}
use rtp_sip_module.Srtp.Cipher.{aes_cm_encrypt, derive_session_keys}

-- `self.mki_length.unwrap_or(0)`, and the bytes of `self.mki`
abbrev pub mki_len : SrtpContext → ℕ
mki_len c = elim c.mki_length [ none ↦ 0 | some n ↦ n ]

abbrev pub mki_bytes : SrtpContext → List ℕ
mki_bytes c = elim c.mki [ none ↦ [] | some bytes ↦ bytes ]

-- the loop of `constant_time_eq`
unfoldable pub difference : ℕ → List ℕ → List ℕ → ℕ
difference diff [] ys = diff
difference diff (x ∷ xs) [] = diff
difference diff (x ∷ xs) (y ∷ ys) = difference (bit_or diff (bit_xor x y)) xs ys

-- `constant_time_eq`
unfoldable pub constant_time_eq : List ℕ → List ℕ → Bool
constant_time_eq xs ys = if length xs == length ys then difference 0 xs ys == 0 else false

-- the send counter that `protect_rtp` moves to: 48 bits of rollover count and sequence number
unfoldable pub next_send_counter : SrtpContext → ℕ → ℕ
next_send_counter c seq =
    let prev_seq = c.send_counter % 2 ^ 16 in
    if c.send_initialized
    then (if ltb seq prev_seq && ltb 0x8000 (prev_seq - seq)
        then (c.send_counter / 2 ^ 16 + 1) * 2 ^ 16 % 2 ^ 64 + seq
        else c.send_counter / 2 ^ 16 * 2 ^ 16 + seq)
    else seq

-- `handle_unprotect_error`; the count stays below 100
unfoldable pub handle_unprotect_error : SrtpContext → SrtpContext
handle_unprotect_error c =
    if leb srtp_reset_threshold (c.error_count + 1)
    then record c { error_count = 0 }
    else record c { error_count = c.error_count + 1 }

-- `current_recv_ssrc.map_or(false, |prev| prev != ssrc)`
abbrev pub ssrc_changed : SrtpContext → ℕ → Bool
ssrc_changed c ssrc = elim c.current_recv_ssrc [ none ↦ false | some prev ↦ not (prev == ssrc) ]

-- the receiver state that an authenticated change of source starts from
abbrev pub reset_receiver : SrtpContext → SrtpContext
reset_receiver c = record c {
  replay_window = 0;
  replay_window_base = 0;
  s_l = 0;
  roc = 0;
  initialized = false;
}

-- `accept_replay`
abbrev pub accept_replay : SrtpContext → ℕ → SrtpContext
accept_replay c index = record c {
  replay_window = accept_window 128 c.replay_window c.replay_window_base index;
  replay_window_base = accept_base c.replay_window_base index;
}

-- what `unprotect_rtp` commits once a packet of sequence number `seq` from the source `ssrc` is
-- authenticated with the rollover count `roc`
unfoldable pub commit : SrtpContext → ℕ → ℕ → ℕ → SrtpContext
commit c ssrc seq roc =
    let c1 = if ssrc_changed c ssrc then reset_receiver c else c in
    accept_replay (update_roc_recv (record c1 { current_recv_ssrc = some ssrc }) seq roc)
      (packet_index roc seq)

module _ (crypto : Crypto) where
  open crypto use {hmac_sha1}

  -- `SrtpContext::with_mki`; its assertions on the MKI's length are the caller's premise
  unfoldable pub with_mki : CipherSuite → List ℕ → List ℕ → Option (List ℕ) → Option ℕ → SrtpContext
  with_mki suite master_key master_salt mki mki_length = record {
    suite = suite;
    master_key = master_key;
    master_salt = master_salt;
    rtp_keys = derive_session_keys crypto master_key master_salt false 0 0;
    rtcp_keys = derive_session_keys crypto master_key master_salt true 0 0;
    key_derivation_rate = 0;
    roc = 0;
    s_l = 0;
    initialized = false;
    send_counter = 0;
    send_initialized = false;
    last_sent_index = 0;
    packets_encrypted = 0;
    srtcp_index = 0;
    replay_window = 0;
    replay_window_base = 0;
    srtcp_replay_window = 0;
    srtcp_replay_window_base = 0;
    srtcp_replay_initialized = false;
    error_count = 0;
    mki = mki;
    mki_length = mki_length;
    current_recv_ssrc = none;
  }

  -- `compute_rtp_auth_tag`
  unfoldable pub compute_rtp_auth_tag : List ℕ → List ℕ → ℕ → ℕ → List ℕ
  compute_rtp_auth_tag auth_key authenticated roc tag_len =
      take tag_len (hmac_sha1 auth_key (authenticated ++ be32 roc))

  -- the packet that `protect_rtp` puts together, once its index is settled
  unfoldable pub seal : SrtpContext → List ℕ → ℕ → ℕ → Result (List ℕ)
  seal c packet header_len index =
      elim (aes_cm_encrypt crypto c.rtp_keys.enc_key c.rtp_keys.salt (u32_at packet 8) index
        (drop header_len packet)) [
          | ok payload ↦
              let output = take header_len packet ++ payload in
              ok (
                output
                ++ (mki_bytes c
                    ++ compute_rtp_auth_tag c.rtp_keys.auth_key output (index / 2 ^ 16 % 2 ^ 32)
                        (rtp_auth_tag_len c.suite)))
          | err e ↦ err e
          | panic ↦ panic
        ]

  -- `protect_rtp` from the send counter on
  unfoldable pub protect_indexed : SrtpContext → List ℕ → ℕ → SrtpContext × Result (List ℕ)
  protect_indexed c packet header_len =
      let counter = next_send_counter c (u16_at packet 2) in
      let index = counter % 2 ^ 48 in
      let c1 = record c { send_counter = counter; send_initialized = true } in
      if ltb 0 c.packets_encrypted && leb index c.last_sent_index
      then (c1, err non_monotonic_index)
      else (
        record c1 { last_sent_index = index; packets_encrypted = c.packets_encrypted + 1 },
        seal c packet header_len index,
      )

  -- `SrtpContext::protect_rtp`
  unfoldable pub protect_rtp : SrtpContext → List ℕ → SrtpContext × Result (List ℕ)
  unfolding protect_indexed
  protect_rtp c packet =
      if ltb (length packet) 12
      then (c, err rtp_too_short)
      else if leb (2 ^ 48) c.packets_encrypted
      then (c, err key_lifetime_exhausted)
      else elim (rtp_header_len packet) [
        | ok header_len ↦ protect_indexed c packet header_len
        | err e ↦ (c, err e)
        | panic ↦ (c, panic)
      ]

  -- the rollover count with which the tag verifies: the estimate or, for a new source, 0
  unfoldable pub authenticate : SrtpContext → ℕ → ℕ → List ℕ → List ℕ → Option ℕ
  authenticate c ssrc estimated_roc auth_bytes received_tag =
      if constant_time_eq (tag estimated_roc) received_tag
      then some estimated_roc
      else if ssrc_changed c ssrc && constant_time_eq (tag 0) received_tag
      then some 0
      else none
    where
      tag : ℕ → List ℕ
      tag roc = compute_rtp_auth_tag c.rtp_keys.auth_key auth_bytes roc (rtp_auth_tag_len c.suite)

  -- the decryption at the end of `unprotect_rtp`, in the context that was committed
  unfoldable pub open_packet : SrtpContext → List ℕ → ℕ → ℕ → SrtpContext × Result (List ℕ)
  open_packet c encrypted ssrc index = elim (rtp_header_len encrypted) [
    | ok header_len ↦
        elim (aes_cm_encrypt crypto c.rtp_keys.enc_key c.rtp_keys.salt ssrc index
          (drop header_len encrypted)) [
            | ok payload ↦ (record c { error_count = 0 }, ok (take header_len encrypted ++ payload))
            | err e ↦ (c, err e)
            | panic ↦ (c, panic)
          ]
    | err e ↦ (c, err e)
    | panic ↦ (c, panic)
  ]

  -- `SrtpContext::unprotect_rtp`
  unfoldable pub unprotect_rtp : SrtpContext → List ℕ → SrtpContext × Result (List ℕ)
  unprotect_rtp c packet =
      if ltb n (12 + tag_len + mki_len c)
      then (handle_unprotect_error c, err rejected)
      else if c.initialized
          && (not (ssrc_changed c ssrc)
              && not (
                  check_replay 128 c.replay_window c.replay_window_base
                    (packet_index (estimate_roc c seq) seq)))
      then (c, err rejected)
      else elim (authenticate c ssrc (estimate_roc c seq) auth_bytes (drop (n - tag_len) packet)) [
        | none ↦ (handle_unprotect_error c, err rejected)
        | some roc ↦ open_packet (commit c ssrc seq roc) auth_bytes ssrc (packet_index roc seq)
      ]
    where
      n : ℕ
      n = length packet

      tag_len : ℕ
      tag_len = rtp_auth_tag_len c.suite

      seq : ℕ
      seq = u16_at packet 2

      ssrc : ℕ
      ssrc = u32_at packet 8

      auth_bytes : List ℕ
      auth_bytes = take (n - tag_len - mki_len c) packet
