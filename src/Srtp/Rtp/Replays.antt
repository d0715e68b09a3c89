-- ===== src/Srtp/Rtp/Replays.antt =====
-- Packets that come twice at `unprotect_rtp` of src/rtp/srtp.rs.
use rtp_sip_module.Prelude.{ℕ, ◌+◌, ◌≡◌, ap, ◌∙◌, ◌⊎◌, true, false, List, [], ◌∷◌, arith}
use rtp_sip_module.Prelude.Bytes.{AllBytes, u16_at, u32_at}
use rtp_sip_module.Srtp.Context.{Crypto, rejected, ok, err, SrtpContext, rtp_auth_tag_len}
use rtp_sip_module.Srtp.Replay.{check_replay, accept_window, accept_base}
use rtp_sip_module.Srtp.Replay.Laws.{contains, Tracks, check_replay_exact, accept-Tracks}
use rtp_sip_module.Srtp.Rollover.{estimate_roc, packet_index, update_roc_recv}
use rtp_sip_module.Srtp.Rollover.Laws.{InRange}
use rtp_sip_module.Srtp.Rtp.{ssrc_changed, commit, unprotect_rtp, mki_len}
use rtp_sip_module.Srtp.Rtp.Accepted.{
  Accepted, commit_estimate, commit_refuses, commit_same_source, estimate_roc-clear, fresh,
  replay_refused, u16_at-lt, unprotect_ok,
}

-- A packet of bytes that a context in range just accepted is refused when it comes again, and the refusal
-- changes nothing.
pub unprotect_rtp_again :
    (crypto : Crypto) (c : SrtpContext) (packet out : List ℕ)
    → InRange c
    → AllBytes packet
    → (unprotect_rtp crypto c packet).1 ≡ ok out
    → let c' = (unprotect_rtp crypto c packet).0 in
      unprotect_rtp crypto c' packet ≡ (c', err rejected)
unprotect_rtp_again crypto c packet out v bytes e = rw a.committed (
    replay_refused crypto after packet (omega (arith, a.long_enough, same_trailer)) same.1 same.0 (
      ap (λ r. check_replay 128 after.replay_window after.replay_window_base (packet_index r seq))
        (estimate_roc-clear before seq)
      ∙ commit_refuses c (u32_at packet 8) seq a.roc estimate))
  where
    a : Accepted crypto c packet
    a = unprotect_ok crypto c packet out e

    seq : ℕ
    seq = u16_at packet 2

    before : SrtpContext
    before = commit c (u32_at packet 8) seq a.roc

    same :
        (ssrc_changed before (u32_at packet 8) ≡ false)
        × (before.initialized ≡ true)
        × (before.suite ≡ c.suite)
        × (before.mki_length ≡ c.mki_length)
    same = commit_same_source c (u32_at packet 8) seq a.roc

    same_trailer :
        rtp_auth_tag_len before.suite + mki_len before ≡ rtp_auth_tag_len c.suite + mki_len c
    same_trailer = ground (arith, same.2, same.3)

    estimate : estimate_roc before seq ≡ a.roc
    estimate = commit_estimate c _ seq a.roc v (u16_at-lt packet 2 bytes) a.verified

    after : SrtpContext
    after = record before { error_count = 0 }

commit_window :
    (c : SrtpContext) (ssrc seq roc : ℕ)
    → ssrc_changed c ssrc ≡ false
    → ((commit c ssrc seq roc).replay_window
        ≡ accept_window 128 c.replay_window c.replay_window_base (packet_index roc seq))
      × ((commit c ssrc seq roc).replay_window_base
          ≡ accept_base c.replay_window_base (packet_index roc seq))
unfolding commit update_roc_recv
commit_window c ssrc seq roc same = ground arith

fresh_index :
    (crypto : Crypto) (c : SrtpContext) (packet seen : List ℕ)
    → Tracks 128 c.replay_window c.replay_window_base seen
    → (c.initialized ≡ true) ⊎ (seen ≡ [])
    → ssrc_changed c (u32_at packet 8) ≡ false
    → (c.initialized ≡ false)
      ⊎ ((ssrc_changed c (u32_at packet 8) ≡ true) ⊎ (fresh c packet ≡ true))
    → contains seen (packet_index (estimate_roc c (u16_at packet 2)) (u16_at packet 2)) ≡ false
fresh_index crypto c packet seen t i same n = ground (
  arith,
  check_replay_exact 128 c.replay_window c.replay_window_base seen index t,
  t.newest index,
)
  where
    index : ℕ
    index = packet_index (estimate_roc c (u16_at packet 2)) (u16_at packet 2)

-- Let the window stand for the indices accepted so far, none where the context is fresh. A packet of the
-- same source is accepted only under an index that is not yet among them, and the window then stands for
-- them and this one.
pub unprotect_rtp_fresh :
    (crypto : Crypto) (c : SrtpContext) (packet out seen : List ℕ)
    → Tracks 128 c.replay_window c.replay_window_base seen
    → (c.initialized ≡ true) ⊎ (seen ≡ [])
    → ssrc_changed c (u32_at packet 8) ≡ false
    → (unprotect_rtp crypto c packet).1 ≡ ok out
    → let c' = (unprotect_rtp crypto c packet).0 in
      let index = packet_index (estimate_roc c (u16_at packet 2)) (u16_at packet 2) in
      (contains seen index ≡ false)
      × Tracks 128 c'.replay_window c'.replay_window_base (index ∷ seen)
      × (c'.initialized ≡ true)
unprotect_rtp_fresh crypto c packet out seen t i same e = (
  fresh_index crypto c packet seen t i same a.not_replayed,
  rw (a.committed, window.0, window.1, roc_estimated)
      (accept-Tracks 128 c.replay_window c.replay_window_base seen _ t),
  rw a.committed (commit_same_source c (u32_at packet 8) (u16_at packet 2) a.roc).1,
)
  where
    a : Accepted crypto c packet
    a = unprotect_ok crypto c packet out e

    window :
        ((commit c (u32_at packet 8) (u16_at packet 2) a.roc).replay_window
          ≡ accept_window 128 c.replay_window c.replay_window_base
              (packet_index a.roc (u16_at packet 2)))
        × ((commit c (u32_at packet 8) (u16_at packet 2) a.roc).replay_window_base
            ≡ accept_base c.replay_window_base (packet_index a.roc (u16_at packet 2)))
    window = commit_window c (u32_at packet 8) (u16_at packet 2) a.roc same

    roc_estimated : a.roc ≡ estimate_roc c (u16_at packet 2)
    roc_estimated = ground (arith, a.verified)
