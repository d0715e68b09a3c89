-- ===== src/Srtp/Rtcp/Laws.antt =====
-- The index space of the SRTCP sender, and replays at its receiver: src/rtp/srtp.rs.
use rtp_sip_module.Prelude.{
  ℕ, ◌+◌, ◌-◌, ◌%◌, ◌^◌, ◌≤◌, ◌<◌, ◌≡◌, sym, ap, ◌∙◌, ◌⊎◌, List, length, take, arith,
}
use rtp_sip_module.Prelude.Bytes.{u32_at}
use rtp_sip_module.Srtp.Context.{
  Crypto, srtcp_rejected, ok, err, SrtpContext, srtcp_auth_tag_len, srtcp_index_len,
}
use rtp_sip_module.Srtp.Replay.Laws.{check_replay-accept}
use rtp_sip_module.Srtp.Rtp.{mki_len}
use rtp_sip_module.Srtp.Rtcp.{accept_srtcp, protect_rtcp, open_rtcp, unprotect_rtcp}

-- `protect_rtcp` uses the index that the context holds, below 2^31, and leaves the next one; when
-- it fails for the length or for want of indices it leaves the context as it was.
pub protect_rtcp_index :
    (crypto : Crypto) (c : SrtpContext) (packet : List ℕ)
    → let (c', result) = protect_rtcp crypto c packet in
      ((c' ≡ c) × ((length packet < 8) ⊎ (2 ^ 31 ≤ c.srtcp_index)))
      ⊎ ((c' ≡ record c { srtcp_index = c.srtcp_index + 1 }) × (c'.srtcp_index ≤ 2 ^ 31))
unfolding protect_rtcp
protect_rtcp_index crypto c packet = ground arith

open_rtcp_again :
    (crypto : Crypto) (c : SrtpContext) (ssrc : ℕ) (text out : List ℕ)
    → (open_rtcp crypto c ssrc text).1 ≡ ok out
    → let index = u32_at text (length text - srtcp_index_len) % 2 ^ 31 in
      ((open_rtcp crypto c ssrc text).0 ≡ accept_srtcp c index)
      × (open_rtcp crypto (accept_srtcp c index) ssrc text
          ≡ (accept_srtcp c index, err srtcp_rejected))
unfolding open_rtcp
open_rtcp_again crypto c ssrc text out e = ground (
  arith,
  check_replay-accept 64 c.srtcp_replay_window c.srtcp_replay_window_base
      (u32_at text (length text - srtcp_index_len) % 2 ^ 31),
)

unprotect_rtcp_opens :
    (crypto : Crypto) (c : SrtpContext) (packet out : List ℕ)
    → (unprotect_rtcp crypto c packet).1 ≡ ok out
    → let text = take (length packet - srtcp_auth_tag_len - mki_len c) packet in
      (unprotect_rtcp crypto c packet ≡ open_rtcp crypto c (u32_at packet 4) text)
      × ((index : ℕ)
          → unprotect_rtcp crypto (accept_srtcp c index) packet
            ≡ open_rtcp crypto (accept_srtcp c index) (u32_at packet 4) text)
unfolding unprotect_rtcp
unprotect_rtcp_opens crypto c packet out e = (ground arith, λ index. ground arith)

-- An SRTCP packet that was just accepted is refused when it comes again, and the refusal changes
-- nothing.
pub unprotect_rtcp_again :
    (crypto : Crypto) (c : SrtpContext) (packet out : List ℕ)
    → (unprotect_rtcp crypto c packet).1 ≡ ok out
    → let c' = (unprotect_rtcp crypto c packet).0 in
      unprotect_rtcp crypto c' packet ≡ (c', err srtcp_rejected)
unprotect_rtcp_again crypto c packet out e =
    rw (ap (λ t. t.0) opens.0, again.0) (opens.1 _ ∙ again.1)
  where
    text : List ℕ
    text = take (length packet - srtcp_auth_tag_len - mki_len c) packet

    opens :
        (unprotect_rtcp crypto c packet ≡ open_rtcp crypto c (u32_at packet 4) text)
        × ((index : ℕ)
            → unprotect_rtcp crypto (accept_srtcp c index) packet
              ≡ open_rtcp crypto (accept_srtcp c index) (u32_at packet 4) text)
    opens = unprotect_rtcp_opens crypto c packet out e

    again :
        let index = u32_at text (length text - srtcp_index_len) % 2 ^ 31 in
        ((open_rtcp crypto c (u32_at packet 4) text).0 ≡ accept_srtcp c index)
        × (open_rtcp crypto (accept_srtcp c index) (u32_at packet 4) text
            ≡ (accept_srtcp c index, err srtcp_rejected))
    again = open_rtcp_again crypto c (u32_at packet 4) text out (sym (ap (λ t. t.1) opens.0) ∙ e)
