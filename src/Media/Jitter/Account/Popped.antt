-- ===== src/Media/Jitter/Account/Popped.antt =====
-- The counts of a jitter buffer across `pop` of src/rtp/jitter.rs.
use rtp_sip_module.Prelude.{
  ℕ, suc, ◌+◌, ◌%◌, ◌^◌, ◌≡◌, refl, true, Option, none, some, length, arith, Option-cases, inl, inr,
}
use rtp_sip_module.Media.Packet.{RtpPacket}
use rtp_sip_module.Media.Jitter.{
  Estimator, JitterBuffer, contains_key, get_packet, remove_packet, oldest_seq,
}
use rtp_sip_module.Media.Jitter.Pop.{
  skip_overfull, target_seq, skip_next, check_drift, catch_up, missed, adapt_delay, adapt, played,
  pop_target, pop,
}
use rtp_sip_module.Media.Jitter.Window.{oldest_seq-contains, some-contains}
use rtp_sip_module.Media.Jitter.Branches.{
  catch_up-none, pop_target-played, pop_target-missed, pop_target-empty, pop_cases,
}
use rtp_sip_module.Media.Jitter.Account.{remove-AscendFrom, length-remove, IsAccounted}

-- One more packet is played, or none.
abbrev pub count : Option RtpPacket → ℕ → ℕ
count none n = n
count (some p) n = suc n

module _ {F : Type 0} where
  skip_overfull-IsAccounted :
      (n : ℕ) (b : JitterBuffer F) → IsAccounted n b → IsAccounted n (skip_overfull b)
  unfolding skip_overfull
  skip_overfull-IsAccounted n b (r, s, m, a) = elim (Option-cases (oldest_seq b.packets)) [
    | inl e ↦ ground arith
    | inr (t, e) ↦ ground (
      arith,
      length-remove 0 t b.packets a (oldest_seq-contains t b.packets e),
      remove-AscendFrom 0 t b.packets a,
    )
  ]

  skip_next-IsAccounted :
      (n : ℕ) (b : JitterBuffer F) → IsAccounted n b → IsAccounted n (skip_next b)
  unfolding skip_next
  skip_next-IsAccounted n b (r, s, m, a) = elim (Option-cases b.last_played_sequence) [
    | inl e ↦ ground arith
    | inr (last, e) ↦ ground (
      arith,
      length-remove 0 ((last + 1) % 2 ^ 16) b.packets a,
      remove-AscendFrom 0 ((last + 1) % 2 ^ 16) b.packets a,
    )
  ]

  check_drift-IsAccounted :
      (n : ℕ) (b : JitterBuffer F) → IsAccounted n b → IsAccounted n (check_drift b)
  unfolding check_drift
  check_drift-IsAccounted n b h =
      ground
        (arith, skip_next-IsAccounted n (record b { drift_high_count = 0; drift_low_count = 0 }) h)

  adapt-IsAccounted :
      (est : Estimator F) (n : ℕ) (b : JitterBuffer F)
      → IsAccounted n b
      → IsAccounted n (adapt est b)
  unfolding adapt adapt_delay
  adapt-IsAccounted est n b h = ground arith

  played-IsAccounted :
      (est : Estimator F) (n t : ℕ) (b : JitterBuffer F)
      → contains_key b.packets t ≡ true
      → IsAccounted n b
      → IsAccounted (suc n) (played est b t)
  unfolding played
  played-IsAccounted est n t b c (r, s, m, a) =
      let packets = remove_packet b.packets t in
      let b1 = record b {
        packets = packets;
        last_played_sequence = some t;
        stats = record (b.stats) { buffer_size = length packets };
        consecutive_miss = 0;
      } in
      let one = length-remove 0 t b.packets a c in
      check_drift-IsAccounted (suc n) (adapt est b1) (
        adapt-IsAccounted est (suc n) b1
          (omega arith, refl, omega arith, remove-AscendFrom 0 t b.packets a))

  catch_up-IsAccounted :
      (n t : ℕ) (b : JitterBuffer F)
      → IsAccounted n b
      → IsAccounted (count (catch_up b t).1 n) (catch_up b t).0
  unfolding catch_up
  catch_up-IsAccounted n t b (r, s, m, a) = elim (Option-cases (oldest_seq b.packets)) [
    | inl e ↦ rw (catch_up-none t b (inr e)) (r, s, m, a)
    | inr (o, e) ↦ ground (
      arith,
      length-remove 0 o b.packets a (oldest_seq-contains o b.packets e),
      remove-AscendFrom 0 o b.packets a,
    )
  ]

  missed-IsAccounted :
      (n t : ℕ) (b : JitterBuffer F)
      → IsAccounted n b
      → IsAccounted (count (missed b t).1 n) (missed b t).0
  unfolding missed
  missed-IsAccounted n t b h = ground (
    arith,
    catch_up-IsAccounted n t
        (record b {
          consecutive_miss = 0;
          last_played_sequence = some t;
          stats = record (b.stats) { packets_lost = b.stats.packets_lost + 1 };
        })
        h,
  )

  pop_target-IsAccounted :
      (est : Estimator F) (n : ℕ) (b : JitterBuffer F)
      → IsAccounted n b
      → IsAccounted (count (pop_target est b).1 n) (pop_target est b).0
  pop_target-IsAccounted est n b h = elim (Option-cases (target_seq b)) [
    | inl e ↦ rw (pop_target-empty est b e) h
    | inr (t, e) ↦ elim (Option-cases (get_packet b.packets t)) [
      | inl g ↦ rw (pop_target-missed est b t e g) (missed-IsAccounted n t b h)
      | inr (q, g) ↦
          rw (pop_target-played est b t q e g)
            (played-IsAccounted est n t b (some-contains t b.packets q g) h)
    ]
  ]

  -- `pop` keeps the account: what it skips is counted as dropped, what it returns leaves the buffer, and
  -- nothing else does.
  pub pop-IsAccounted :
      (est : Estimator F) (n : ℕ) (b : JitterBuffer F)
      → IsAccounted n b
      → IsAccounted (count (pop est b).1 n) (pop est b).0
  pop-IsAccounted est n b h = elim (pop_cases est b) [
    | inl e ↦ rw (e) h
    | inr e ↦
        let b1 = record b {
          playout_started = true;
          pop_count = (b.pop_count + 1) % 2 ^ 32;
          drift_check_count = (b.drift_check_count + 1) % 2 ^ 32;
        } in
        rw (e) (pop_target-IsAccounted est n (skip_overfull b1) (skip_overfull-IsAccounted n b1 h))
  ]
