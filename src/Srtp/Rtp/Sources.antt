-- ===== src/Srtp/Rtp/Sources.antt =====
-- A change of source at `unprotect_rtp` of src/rtp/srtp.rs.
use rtp_sip_module.Prelude.{
  ℕ, ◌+◌, ◌∙◌, sym, ap, length, if◌then◌else◌, ◌≡◌, refl, true, Option, none, some, List, ltb,
  arith,
}
use rtp_sip_module.Prelude.Bytes.{u16_at, u32_at}
use rtp_sip_module.Srtp.Context.{Crypto, SrtpContext, Result, err, rejected, rtp_auth_tag_len}
use rtp_sip_module.Srtp.Rollover.{packet_index, estimate_roc, update_roc_recv}
use rtp_sip_module.Srtp.Rtp.Accepted.{auth_bytes, verdict}
use rtp_sip_module.Srtp.Rtp.{
  mki_len, ssrc_changed, commit, authenticate, open_packet, unprotect_rtp,
}

commit_forgets :
    (c : SrtpContext) (ssrc seq roc window base : ℕ)
    → ssrc_changed c ssrc ≡ true
    → commit (record c { replay_window = window; replay_window_base = base }) ssrc seq roc
      ≡ commit c ssrc seq roc
unfolding commit update_roc_recv
commit_forgets c ssrc seq roc window base h = ground arith

-- the answer to a packet of a new source, from the verdict of its authentication
abbrev answer : Crypto → SrtpContext → List ℕ → Option ℕ → Result (List ℕ)
answer crypto c packet none = err rejected
answer crypto c packet (some roc) =
    (open_packet crypto (commit c (u32_at packet 8) (u16_at packet 2) roc) (auth_bytes c packet)
      (u32_at packet 8) (packet_index roc (u16_at packet 2))).1

new_source_answer :
    (crypto : Crypto) (c : SrtpContext) (packet : List ℕ)
    → ssrc_changed c (u32_at packet 8) ≡ true
    → (unprotect_rtp crypto c packet).1 ≡ (
        if ltb (length packet) (12 + rtp_auth_tag_len c.suite + mki_len c)
        then err rejected
        else answer crypto c packet (verdict crypto c packet))
unfolding unprotect_rtp
new_source_answer crypto c packet h = ground arith

answer_forgets :
    (crypto : Crypto) (c : SrtpContext) (packet : List ℕ) (window base : ℕ) (v : Option ℕ)
    → ssrc_changed c (u32_at packet 8) ≡ true
    → answer crypto (record c { replay_window = window; replay_window_base = base }) packet v
      ≡ answer crypto c packet v
answer_forgets crypto c packet window base none h = refl
answer_forgets crypto c packet window base (some roc) h =
    ap
      (λ t.
        (open_packet crypto t (auth_bytes c packet) (u32_at packet 8)
          (packet_index roc (u16_at packet 2))).1)
      (commit_forgets c (u32_at packet 8) (u16_at packet 2) roc window base h)

-- A packet of another source than the last one gets the same answer whatever the replay window
-- holds: the window of the earlier source cannot refuse it, also if that source sent it before.
pub new_source_skips_replay :
    (crypto : Crypto) (c : SrtpContext) (packet : List ℕ) (window base : ℕ)
    → ssrc_changed c (u32_at packet 8) ≡ true
    → (unprotect_rtp crypto
        (record c { replay_window = window; replay_window_base = base })
        packet).1
      ≡ (unprotect_rtp crypto c packet).1
unfolding authenticate estimate_roc
new_source_skips_replay crypto c packet window base h =
    new_source_answer crypto (record c { replay_window = window; replay_window_base = base }) packet
      h
    ∙ ap
        (λ t.
          if ltb (length packet) (12 + rtp_auth_tag_len c.suite + mki_len c)
          then err rejected
          else t)
        (answer_forgets crypto c packet window base (verdict crypto c packet) h)
    ∙ sym (new_source_answer crypto c packet h)
