-- ===== src/Srtp/Rtcp.antt =====
-- `protect_rtcp` and `unprotect_rtcp` of src/rtp/srtp.rs.
pub mod Laws
use rtp_sip_module.Prelude.{
  ℕ, ◌+◌, ◌-◌, ◌*◌, ◌/◌, ◌%◌, ◌^◌, Bool, true, false, not, ◌&&◌, List, ◌++◌, if◌then◌else◌, ltb,
  leb, ◌==◌, length, take, drop,
}
use rtp_sip_module.Prelude.Bytes.{u32_at, be32}
use rtp_sip_module.Srtp.Context.{
  Crypto, rtcp_too_short, srtcp_index_exhausted, srtcp_too_short, srtcp_rejected, Result, ok, err,
  panic, SrtpContext, srtcp_auth_tag_len, srtcp_index_len,
}
use rtp_sip_module.Srtp.Replay.{check_replay, accept_window, accept_base}
use rtp_sip_module.Srtp.Cipher.{aes_cm_encrypt_srtcp}
use rtp_sip_module.Srtp.Rtp.{mki_len, mki_bytes, constant_time_eq}

-- `accept_srtcp_replay`, with the flag that `unprotect_rtcp` sets behind it
abbrev pub accept_srtcp : SrtpContext → ℕ → SrtpContext
accept_srtcp c index = record c {
  srtcp_replay_window = accept_window 64 c.srtcp_replay_window c.srtcp_replay_window_base index;
  srtcp_replay_window_base = accept_base c.srtcp_replay_window_base index;
  srtcp_replay_initialized = true;
}

module _ (crypto : Crypto) where
  open crypto use {hmac_sha1}

  -- the first ten bytes of the hash, as both methods take them
  abbrev pub rtcp_tag : SrtpContext → List ℕ → List ℕ
  rtcp_tag c text = take srtcp_auth_tag_len (hmac_sha1 c.rtcp_keys.auth_key text)

  -- everything behind the first eight bytes, run through the cipher
  unfoldable pub crypt_body : SrtpContext → List ℕ → ℕ → ℕ → Result (List ℕ)
  crypt_body c packet ssrc srtcp_index =
      if ltb 8 (length packet)
      then (elim (aes_cm_encrypt_srtcp crypto c.rtcp_keys.enc_key c.rtcp_keys.salt ssrc srtcp_index
          (drop 8 packet)) [ ok body ↦ ok (take 8 packet ++ body) | err e ↦ err e | panic ↦ panic ])
      else ok packet

  -- the E flag and the index, the tag and the MKI behind an encrypted packet
  unfoldable pub rtcp_trailer : SrtpContext → ℕ → List ℕ → List ℕ
  rtcp_trailer c srtcp_index output =
      let text = output ++ be32 (2 ^ 31 + srtcp_index % 2 ^ 31) in
      text ++ (mki_bytes c ++ rtcp_tag c text)

  -- `SrtpContext::protect_rtcp`
  unfoldable pub protect_rtcp : SrtpContext → List ℕ → SrtpContext × Result (List ℕ)
  protect_rtcp c packet =
      if ltb (length packet) 8
      then (c, err rtcp_too_short)
      else if leb (2 ^ 31) c.srtcp_index
      then (c, err srtcp_index_exhausted)
      else (
        record c { srtcp_index = c.srtcp_index + 1 },
        elim (crypt_body c packet (u32_at packet 4) c.srtcp_index) [
          | ok output ↦ ok (rtcp_trailer c c.srtcp_index output)
          | err e ↦ err e
          | panic ↦ panic
        ],
      )

  -- `unprotect_rtcp` on the authenticated text, which ends in the E flag and the index
  unfoldable pub open_rtcp : SrtpContext → ℕ → List ℕ → SrtpContext × Result (List ℕ)
  open_rtcp c ssrc text =
      let index_start = length text - srtcp_index_len in
      let e_index = u32_at text index_start in
      let srtcp_index = e_index % 2 ^ 31 in
      let output = take index_start text in
      if c.srtcp_replay_initialized
        && not (check_replay 64 c.srtcp_replay_window c.srtcp_replay_window_base srtcp_index)
      then (c, err srtcp_rejected)
      else elim (if not (e_index / 2 ^ 31 % 2 == 0)
          then crypt_body c output ssrc srtcp_index
          else ok output) [
            | ok plain ↦ (accept_srtcp c srtcp_index, ok plain)
            | err e ↦ (c, err e)
            | panic ↦ (c, panic)
          ]

  -- `SrtpContext::unprotect_rtcp`
  unfoldable pub unprotect_rtcp : SrtpContext → List ℕ → SrtpContext × Result (List ℕ)
  unprotect_rtcp c packet =
      let n = length packet in
      let text = take (n - srtcp_auth_tag_len - mki_len c) packet in
      if ltb n (8 + srtcp_index_len + mki_len c + srtcp_auth_tag_len)
      then (c, err srtcp_too_short)
      else if not (constant_time_eq (rtcp_tag c text) (drop (n - srtcp_auth_tag_len) packet))
      then (c, err srtcp_rejected)
      else open_rtcp c (u32_at packet 4) text
