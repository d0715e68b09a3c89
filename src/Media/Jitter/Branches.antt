-- ===== src/Media/Jitter/Branches.antt =====
-- The branches of `pop` of src/rtp/jitter.rs, one equation each.
use rtp_sip_module.Prelude.{
  ℕ, ◌+◌, ◌/◌, ◌%◌, ◌^◌, ◌≡◌, refl, ◌⊎◌, true, false, none, some, ltb, length, arith,
}
use rtp_sip_module.Media.Jitter.{
  Estimator, BufferedPacket, JitterBuffer, get_packet, remove_packet, oldest_seq,
}
use rtp_sip_module.Media.Jitter.Pop.{
  skip_overfull, target_seq, skip_next, check_drift, catch_up, missed, adapt_delay, adapt, played,
  pop_target, pop,
}

module _ {F : Type 0} where
  pub adapt_same :
      (est : Estimator F) (b : JitterBuffer F)
      → ((adapt est b).packets ≡ b.packets)
        × ((adapt est b).last_played_sequence ≡ b.last_played_sequence)
  unfolding adapt adapt_delay
  adapt_same est b = ground arith

  pub check_drift_cases :
      (b : JitterBuffer F)
      → ((check_drift b ≡ skip_next (record b { drift_high_count = 0; drift_low_count = 0 })))
        ⊎ (((check_drift b).packets ≡ b.packets)
            × ((check_drift b).last_played_sequence ≡ b.last_played_sequence))
  unfolding check_drift
  check_drift_cases b = ground arith

  pub catch_up-none :
      (t : ℕ) (b : JitterBuffer F)
      → (ltb (b.config.max_packets / 2) (length b.packets) ≡ false) ⊎ (oldest_seq b.packets ≡ none)
      → catch_up b t ≡ (b, none)
  unfolding catch_up
  catch_up-none t b h = ground arith

  pub catch_up_absent :
      (t o : ℕ) (b : JitterBuffer F)
      → oldest_seq b.packets ≡ some o
      → get_packet b.packets o ≡ none
      → catch_up b t ≡ (b, none)
  unfolding catch_up
  catch_up_absent t o b e g = ground arith

  pub catch_up-some :
      (t o : ℕ) (b : JitterBuffer F) (q : BufferedPacket)
      → ltb (b.config.max_packets / 2) (length b.packets) ≡ true
      → oldest_seq b.packets ≡ some o
      → get_packet b.packets o ≡ some q
      → ((catch_up b t).1 ≡ some q.packet)
        × ((catch_up b t).0.packets ≡ remove_packet b.packets o)
        × ((catch_up b t).0.last_played_sequence ≡ some o)
  unfolding catch_up
  catch_up-some t o b q c e g = ground arith

  pub missed_cases :
      (t : ℕ) (b : JitterBuffer F)
      → (((missed b t).1 ≡ none)
          × ((missed b t).0.packets ≡ b.packets)
          × ((missed b t).0.last_played_sequence ≡ b.last_played_sequence))
        ⊎ (missed b t
            ≡ catch_up
                (record b {
                  consecutive_miss = 0;
                  last_played_sequence = some t;
                  stats = record (b.stats) { packets_lost = b.stats.packets_lost + 1 };
                })
                t)
  unfolding missed
  missed_cases t b = ground arith

  pub pop_target-played :
      (est : Estimator F) (b : JitterBuffer F) (t : ℕ) (q : BufferedPacket)
      → target_seq b ≡ some t
      → get_packet b.packets t ≡ some q
      → pop_target est b ≡ (played est b t, some q.packet)
  unfolding pop_target
  pop_target-played est b t q e g = rw (pop_target, e, g) refl

  pub pop_target-missed :
      (est : Estimator F) (b : JitterBuffer F) (t : ℕ)
      → target_seq b ≡ some t
      → get_packet b.packets t ≡ none
      → pop_target est b ≡ missed b t
  unfolding pop_target
  pop_target-missed est b t e g = rw (pop_target, e, g) refl

  pub pop_target-empty :
      (est : Estimator F) (b : JitterBuffer F) → target_seq b ≡ none → pop_target est b ≡ (b, none)
  unfolding pop_target
  pop_target-empty est b e = rw (pop_target, e) refl

  pub target_oldest :
      (b : JitterBuffer F) → b.last_played_sequence ≡ none → target_seq b ≡ oldest_seq b.packets
  unfolding target_seq
  target_oldest b e = ground arith

  pub pop_cases :
      (est : Estimator F) (b : JitterBuffer F)
      → (pop est b ≡ (b, none))
        ⊎ (pop est b
            ≡ pop_target est (
                skip_overfull (record b {
                  playout_started = true;
                  pop_count = (b.pop_count + 1) % 2 ^ 32;
                  drift_check_count = (b.drift_check_count + 1) % 2 ^ 32;
                })))
  unfolding pop
  pop_cases est b = ground arith
