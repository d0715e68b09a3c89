-- ===== src/Srtp/Rtp/Accepted.antt =====
-- What `unprotect_rtp` of src/rtp/srtp.rs has checked and committed when it accepts a packet.
use rtp_sip_module.Prelude.{
  ℕ, ◌+◌, ◌-◌, ◌^◌, ◌≤◌, ◌<◌, ◌≡◌, refl, sym, ap, ◌∙◌, ◌⊎◌, ◌≢◌, inl, inr, Bool, true, false,
  Option, none, some, List, length, take, drop, arith, Option-cases,
}
use rtp_sip_module.Prelude.Bytes.{AllBytes, u16_at, u32_at, byte-lt}
use rtp_sip_module.Srtp.Context.{Crypto, Error, rejected, ok, err, SrtpContext, rtp_auth_tag_len}
use rtp_sip_module.Srtp.Replay.{check_replay}
use rtp_sip_module.Srtp.Replay.Laws.{check_replay-accept}
use rtp_sip_module.Srtp.Rollover.{estimate_roc, packet_index, update_roc_recv}
use rtp_sip_module.Srtp.Rollover.Laws.{InRange}
use rtp_sip_module.Srtp.Rtp.{
  ssrc_changed, commit, authenticate, open_packet, unprotect_rtp, mki_len,
}

pub u16_at-lt : (packet : List ℕ) (i : ℕ) → AllBytes packet → u16_at packet i < 2 ^ 16
unfolding u16_at
u16_at-lt packet i v = omega (arith, byte-lt packet i v, byte-lt packet (i + 1) v)

ok-ne-err : {x : List ℕ} {e : Error} → ok x ≢ err e
ok-ne-err h = cc

authenticate_cases :
    (crypto : Crypto) (c : SrtpContext) (ssrc est : ℕ) (text tag : List ℕ) (roc : ℕ)
    → authenticate crypto c ssrc est text tag ≡ some roc
    → (roc ≡ est) ⊎ ((roc ≡ 0) × (ssrc_changed c ssrc ≡ true))
unfolding authenticate
authenticate_cases crypto c ssrc est text tag roc e = ground arith

pub commit_estimate :
    (c : SrtpContext) (ssrc seq roc : ℕ)
    → InRange c
    → seq < 2 ^ 16
    → (roc ≡ estimate_roc c seq) ⊎ ((roc ≡ 0) × (ssrc_changed c ssrc ≡ true))
    → estimate_roc (commit c ssrc seq roc) seq ≡ roc
unfolding commit update_roc_recv estimate_roc
commit_estimate c ssrc seq roc v h p = ground arith

pub commit_same_source :
    (c : SrtpContext) (ssrc seq roc : ℕ)
    → (ssrc_changed (commit c ssrc seq roc) ssrc ≡ false)
      × ((commit c ssrc seq roc).initialized ≡ true)
      × ((commit c ssrc seq roc).suite ≡ c.suite)
      × ((commit c ssrc seq roc).mki_length ≡ c.mki_length)
unfolding commit update_roc_recv
commit_same_source c ssrc seq roc = ground arith

pub commit_refuses :
    (c : SrtpContext) (ssrc seq roc : ℕ)
    → estimate_roc (commit c ssrc seq roc) seq ≡ roc
    → let c' = commit c ssrc seq roc in
      check_replay 128 c'.replay_window c'.replay_window_base
        (packet_index (estimate_roc c' seq) seq)
      ≡ false
unfolding commit update_roc_recv
commit_refuses c ssrc seq roc e = ground (
  arith,
  check_replay-accept 128 c.replay_window c.replay_window_base (packet_index roc seq),
  check_replay-accept 128 0 0 (packet_index roc seq),
)

pub estimate_roc-clear :
    (c : SrtpContext) (seq : ℕ)
    → estimate_roc (record c { error_count = 0 }) seq ≡ estimate_roc c seq
unfolding estimate_roc
estimate_roc-clear c seq = refl

pub replay_refused :
    (crypto : Crypto) (c : SrtpContext) (packet : List ℕ)
    → 12 + rtp_auth_tag_len c.suite + mki_len c ≤ length packet
    → c.initialized ≡ true
    → ssrc_changed c (u32_at packet 8) ≡ false
    → check_replay 128 c.replay_window c.replay_window_base
        (packet_index (estimate_roc c (u16_at packet 2)) (u16_at packet 2))
      ≡ false
    → unprotect_rtp crypto c packet ≡ (c, err rejected)
unfolding unprotect_rtp
replay_refused crypto c packet h i s r = ground arith

open_packet_ok :
    (crypto : Crypto) (c : SrtpContext) (text : List ℕ) (ssrc index : ℕ) (out : List ℕ)
    → (open_packet crypto c text ssrc index).1 ≡ ok out
    → (open_packet crypto c text ssrc index).0 ≡ record c { error_count = 0 }
unfolding open_packet
open_packet_ok crypto c text ssrc index out e = ground arith

-- the text that a packet's tag covers, and the tag
abbrev pub auth_bytes : SrtpContext → List ℕ → List ℕ
auth_bytes c packet = take (length packet - rtp_auth_tag_len c.suite - mki_len c) packet

abbrev pub received_tag : SrtpContext → List ℕ → List ℕ
received_tag c packet = drop (length packet - rtp_auth_tag_len c.suite) packet

-- the verdict of the authentication on a packet, with the source and number in its header
abbrev pub verdict : Crypto → SrtpContext → List ℕ → Option ℕ
verdict crypto c packet =
    authenticate crypto c (u32_at packet 8) (estimate_roc c (u16_at packet 2)) (auth_bytes c packet)
      (received_tag c packet)

-- the replay test on a packet
abbrev pub fresh : SrtpContext → List ℕ → Bool
fresh c packet =
    check_replay 128 c.replay_window c.replay_window_base
      (packet_index (estimate_roc c (u16_at packet 2)) (u16_at packet 2))

unprotect_unauthenticated :
    (crypto : Crypto) (c : SrtpContext) (packet : List ℕ)
    → verdict crypto c packet ≡ none
    → (unprotect_rtp crypto c packet).1 ≡ err rejected
unfolding unprotect_rtp
unprotect_unauthenticated crypto c packet n = ground arith

unprotect_authenticated :
    (crypto : Crypto) (c : SrtpContext) (packet : List ℕ) (roc : ℕ)
    → verdict crypto c packet ≡ some roc
    → (unprotect_rtp crypto c packet).1 ≢ err rejected
    → (12 + rtp_auth_tag_len c.suite + mki_len c ≤ length packet)
      × ((c.initialized ≡ false)
          ⊎ ((ssrc_changed c (u32_at packet 8) ≡ true) ⊎ (fresh c packet ≡ true)))
      × (unprotect_rtp crypto c packet
          ≡ open_packet crypto
              (commit c (u32_at packet 8) (u16_at packet 2) roc)
              (auth_bytes c packet)
              (u32_at packet 8)
              (packet_index roc (u16_at packet 2)))
unfolding unprotect_rtp
unprotect_authenticated crypto c packet roc s n = ground arith

-- What success of `unprotect_rtp` says: the packet was long enough and, unless its source is new,
-- not a replay; its tag verified with some rollover count, and the new context is the committed one
-- with its error count cleared.
pub record Accepted (crypto : Crypto) (c : SrtpContext) (packet : List ℕ) : Type 0 where
  pub roc : ℕ
  pub long_enough : 12 + rtp_auth_tag_len c.suite + mki_len c ≤ length packet
  pub not_replayed :
      (c.initialized ≡ false)
      ⊎ ((ssrc_changed c (u32_at packet 8) ≡ true) ⊎ (fresh c packet ≡ true))
  pub verified :
      (roc ≡ estimate_roc c (u16_at packet 2))
      ⊎ ((roc ≡ 0) × (ssrc_changed c (u32_at packet 8) ≡ true))
  pub committed :
      (unprotect_rtp crypto c packet).0
      ≡ record (commit c (u32_at packet 8) (u16_at packet 2) roc) { error_count = 0 }

pub unprotect_ok :
    (crypto : Crypto) (c : SrtpContext) (packet out : List ℕ)
    → (unprotect_rtp crypto c packet).1 ≡ ok out
    → Accepted crypto c packet
unprotect_ok crypto c packet out e = elim (Option-cases (verdict crypto c packet)) [
  | inl n ↦ absurd (ok-ne-err (sym e ∙ unprotect_unauthenticated crypto c packet n))
  | inr (roc, s) ↦
      let facts = unprotect_authenticated crypto c packet roc s (λ r. ok-ne-err (sym e ∙ r)) in
      record {
        roc = roc;
        long_enough = facts.0;
        not_replayed = facts.1;
        verified = authenticate_cases crypto c _ _ _ _ roc s;
        committed =
            ap (λ t. t.0) facts.2
            ∙ open_packet_ok crypto _ _ _ _ out (sym (ap (λ t. t.1) facts.2) ∙ e);
      }
]
