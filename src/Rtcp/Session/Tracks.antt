-- ===== src/Rtcp/Session/Tracks.antt =====
-- The extended sequence numbers of `record_rtp_received`, src/rtp/rtcp.rs.
use rtp_sip_module.Prelude.{
  ℕ, ◌+◌, ◌/◌, ◌%◌, ◌^◌, ◌≤◌, ◌<◌, ◌≡◌, refl, ap, ap₂, ◌∙◌, true, arith, if◌then◌else◌, ltb,
}
use rtp_sip_module.Rtcp.Session.{Tracking, track, max_dropout, wrapping_sub16}

-- The state after `n` packets whose positions in the stream began at `base` and have reached `position`.
abbrev pub IsAt : Tracking → ℕ → ℕ → ℕ → Type 0
IsAt t base n position =
    (t.first_packet_received ≡ true)
    × (t.base_seq ≡ base)
    × (t.packets_received ≡ n % 2 ^ 32)
    × (t.seq_cycles ≡ position / 65536 % 2 ^ 64)
    × (t.highest_seq ≡ position % 65536)

track-forward :
    (t : Tracking) (seq : ℕ)
    → t.first_packet_received ≡ true
    → wrapping_sub16 seq t.highest_seq < max_dropout
    → track t seq ≡ record t {
      packets_received = (t.packets_received + 1) % 2 ^ 32;
      seq_cycles = if ltb seq t.highest_seq then (t.seq_cycles + 1) % 2 ^ 64 else t.seq_cycles;
      highest_seq = seq;
    }
unfolding track
track-forward t seq f lt = ground arith

-- a step of less than a lap wraps around exactly when the low half becomes less
wraps :
    (position next : ℕ)
    → position ≤ next
    → next < position + max_dropout
    → (if ltb (next % 65536) (position % 65536)
        then (position / 65536 % 2 ^ 64 + 1) % 2 ^ 64
        else position / 65536 % 2 ^ 64)
      ≡ next / 65536 % 2 ^ 64
wraps position next le lt = ground arith

near :
    (position next : ℕ)
    → position ≤ next
    → next < position + max_dropout
    → wrapping_sub16 (next % 65536) (position % 65536) < max_dropout
near position next le lt = omega arith

pub track-IsAt :
    (t : Tracking) (base n position next : ℕ)
    → IsAt t base n position
    → position ≤ next
    → next < position + max_dropout
    → IsAt (track t (next % 65536)) base (n + 1) next
track-IsAt t base n position next (f, b, r, c, h) le lt =
    rw (track-forward t (next % 65536) f (rw h (near position next le lt))) (
      f,
      b,
      ap (λ k. (k + 1) % 2 ^ 32) r ∙ omega arith,
      ap₂ (λ k m. if ltb (next % 65536) m then (k + 1) % 2 ^ 64 else k) c h
          ∙ wraps position next le lt,
      refl,
    )
