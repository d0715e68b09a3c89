-- ===== src/Media/Jitter/Account/Calls.antt =====
-- The account of a jitter buffer after any calls, src/rtp/jitter.rs.
use rtp_sip_module.Prelude.{
  ℕ, ◌+◌, ◌%◌, ◌^◌, ◌<◌, ◌≡◌, refl, ◌∙◌, inl, inr, some, List, [], ◌∷◌, length, arith, true,
  Option-cases,
}
use rtp_sip_module.Media.Packet.{RtpPacket}
use rtp_sip_module.Media.Jitter.{
  Estimator, JitterConfig, JitterBuffer, with_config, reset, reset_initial_buffering, remove_packet,
  get_packet,
}
use rtp_sip_module.Media.Jitter.Push.{
  push, restart, update_timing, count_reordered, note_gap, store_new, store, check_buffered,
}
use rtp_sip_module.Media.Jitter.Pop.{
  pop, pending_nacks, skip_overfull, skip_next, check_drift, catch_up, missed, adapt_delay, adapt,
  played, pop_target, target_seq,
}
use rtp_sip_module.Media.Jitter.Branches.{
  pop_cases, pop_target-empty, pop_target-missed, pop_target-played,
}
use rtp_sip_module.Media.Jitter.Account.{IsAccounted}
use rtp_sip_module.Media.Jitter.Account.Pushed.{played_after_push, push-IsAccounted}
use rtp_sip_module.Media.Jitter.Account.Popped.{count, pop-IsAccounted}

module _ {F : Type 0} where
  pub push-config :
      (est : Estimator F) (b : JitterBuffer F) (packet : RtpPacket) (now : ℕ)
      → (push est b packet now).config ≡ b.config
  unfolding push restart reset with_config update_timing count_reordered note_gap store_new store
      check_buffered
  push-config est b packet now = ground arith

  pub skip_overfull-config : (b : JitterBuffer F) → (skip_overfull b).config ≡ b.config
  unfolding skip_overfull
  skip_overfull-config b = ground arith

  pub check_drift-config : (b : JitterBuffer F) → (check_drift b).config ≡ b.config
  unfolding check_drift skip_next
  check_drift-config b = ground arith

  pub adapt-config : (est : Estimator F) (b : JitterBuffer F) → (adapt est b).config ≡ b.config
  unfolding adapt adapt_delay
  adapt-config est b = ground arith

  played-config :
      (est : Estimator F) (b : JitterBuffer F) (t : ℕ) → (played est b t).config ≡ b.config
  unfolding played
  played-config est b t =
      let packets = remove_packet b.packets t in
      let b1 = record b {
        packets = packets;
        last_played_sequence = some t;
        stats = record (b.stats) { buffer_size = length packets };
        consecutive_miss = 0;
      } in
      check_drift-config (adapt est b1) ∙ adapt-config est b1

  pub missed-config : (b : JitterBuffer F) (t : ℕ) → (missed b t).0.config ≡ b.config
  unfolding missed catch_up
  missed-config b t = ground arith

  pop_target-config :
      (est : Estimator F) (b : JitterBuffer F) → (pop_target est b).0.config ≡ b.config
  pop_target-config est b = elim (Option-cases (target_seq b)) [
    | inl e ↦ rw (pop_target-empty est b e) refl
    | inr (t, e) ↦ elim (Option-cases (get_packet b.packets t)) [
      | inl g ↦ rw (pop_target-missed est b t e g) (missed-config b t)
      | inr (q, g) ↦ rw (pop_target-played est b t q e g) (played-config est b t)
    ]
  ]

  pub pop-config : (est : Estimator F) (b : JitterBuffer F) → (pop est b).0.config ≡ b.config
  pop-config est b = elim (pop_cases est b) [
    | inl e ↦ rw (e) refl
    | inr e ↦
        let b1 = record b {
          playout_started = true;
          pop_count = (b.pop_count + 1) % 2 ^ 32;
          drift_check_count = (b.drift_check_count + 1) % 2 ^ 32;
        } in
        rw (e) (pop_target-config est (skip_overfull b1) ∙ skip_overfull-config b1)
  ]

-- One call of a method that changes the buffer.
pub data Call : Type 0 where
  push_call : RtpPacket → ℕ → Call
  pop_call nacks_call reset_call buffering_call : Call

-- The buffer after some calls, and how many packets it has played, or has thrown away in
-- `reset_initial_buffering`, since the last `reset` or jump of the timestamps.
unfoldable pub run :
    {F : Type 0} → Estimator F → JitterBuffer F × ℕ → List Call → JitterBuffer F × ℕ
run est (b, n) [] = (b, n)
run est (b, n) (Call.push_call packet now ∷ calls) =
    run est (push est b packet now, played_after_push est b packet n) calls
run est (b, n) (Call.pop_call ∷ calls) = run est ((pop est b).0, count (pop est b).1 n) calls
run est (b, n) (Call.nacks_call ∷ calls) = run est ((pending_nacks b).0, n) calls
run est (b, n) (Call.reset_call ∷ calls) = run est (reset est b, 0) calls
run est (b, n) (Call.buffering_call ∷ calls) =
    run est (reset_initial_buffering b, n + length b.packets) calls

run_keeps :
    {F : Type 0} (est : Estimator F) (b : JitterBuffer F) (n : ℕ) (calls : List Call)
    → 0 < b.config.max_packets
    → IsAccounted n b
    → IsAccounted (run est (b, n) calls).1 (run est (b, n) calls).0
unfolding run pending_nacks reset with_config reset_initial_buffering
run_keeps est b n [] pos h = h
run_keeps est b n (Call.push_call packet now ∷ calls) pos h =
    run_keeps est (push est b packet now) (played_after_push est b packet n) calls
      (rw (push-config est b packet now) pos) (push-IsAccounted est n b packet now pos h)
run_keeps est b n (Call.pop_call ∷ calls) pos h =
    run_keeps est (pop est b).0 (count (pop est b).1 n) calls (rw (pop-config est b) pos)
      (pop-IsAccounted est n b h)
run_keeps est b n (Call.nacks_call ∷ calls) pos h = run_keeps est (pending_nacks b).0 n calls pos h
run_keeps est b n (Call.reset_call ∷ calls) pos h =
    run_keeps est (reset est b) 0 calls pos (refl, refl, omega arith, tt)
run_keeps est b n (Call.buffering_call ∷ calls) pos (r, s, m, a) =
    run_keeps est (reset_initial_buffering b) (n + length b.packets) calls pos
      (omega arith, refl, omega arith, tt)

-- After any calls of `push`, `pop`, `pending_nacks`, `reset` and `reset_initial_buffering` on a new buffer
-- with room for a packet, each packet received since the last `reset` or jump of the timestamps was
-- dropped, came twice, is in the buffer, was played, or was in it when `reset_initial_buffering` emptied
-- it, which the statistics do not show; the buffer holds at most `max_packets`, in ascending order, and
-- the statistics show its size.
pub run-IsAccounted :
    {F : Type 0} (est : Estimator F) (config : JitterConfig) (calls : List Call)
    → 0 < config.max_packets
    → IsAccounted
        (run est (with_config est config, 0) calls).1
        (run est (with_config est config, 0) calls).0
unfolding with_config
run-IsAccounted est config calls pos =
    run_keeps est (with_config est config) 0 calls pos (refl, refl, omega arith, tt)
