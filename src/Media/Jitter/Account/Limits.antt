-- ===== src/Media/Jitter/Account/Limits.antt =====
-- The bounds on the delay and on the NACK list of a jitter buffer, src/rtp/jitter.rs.
use rtp_sip_module.Prelude.{
  ℕ, zero, suc, ◌+◌, ◌-◌, ◌%◌, ◌^◌, ◌≤◌, inl, inr, some, List, [], ◌∷◌, ◌++◌, length, arith, true,
  Option-cases, leb, drop, if◌then◌else◌, length-append, length-drop,
}
use rtp_sip_module.Media.Packet.{RtpPacket}
use rtp_sip_module.Media.Jitter.{
  Estimator, JitterConfig, JitterBuffer, Packets, with_config, reset, reset_initial_buffering,
  remove_packet, get_packet,
}
use rtp_sip_module.Media.Jitter.Push.{
  push, restart, update_timing, count_reordered, note_missing, note_gap, store_new, store,
  check_buffered,
}
use rtp_sip_module.Media.Jitter.Pop.{
  pop, pending_nacks, skip_overfull, skip_next, check_drift, catch_up, missed, adapt_delay, adapt,
  played, pop_target, target_seq,
}
use rtp_sip_module.Media.Jitter.Branches.{
  pop_cases, pop_target-empty, pop_target-missed, pop_target-played,
}
use rtp_sip_module.Media.Jitter.Account.Calls.{
  Call, run, push-config, skip_overfull-config, pop-config,
}

push_back_bound :
    (missing : ℕ) (nacks : List ℕ)
    → length nacks ≤ 500
    → length ((if leb 500 (length nacks) then drop 1 nacks else nacks) ++ (missing ∷ [])) ≤ 500
push_back_bound missing nacks le = ground (
  arith,
  length-drop 1 nacks,
  length-append (drop 1 nacks) (missing ∷ []),
  length-append nacks (missing ∷ []),
)

note_missing-bound :
    (gap missing : ℕ) (packets : Packets) (nacks : List ℕ) (requests : ℕ)
    → length nacks ≤ 500
    → length (note_missing gap missing packets nacks requests).0 ≤ 500
unfolding note_missing
note_missing-bound zero missing packets nacks requests le = le
note_missing-bound (suc gap) missing packets nacks requests le =
    let next = (missing + 1) % 2 ^ 16 in
    let kept = if leb 500 (length nacks) then drop 1 nacks else nacks in
    ground (
      arith,
      note_missing-bound gap next packets nacks requests le,
      note_missing-bound gap next packets (kept ++ (missing ∷ [])) (requests + 1)
          (push_back_bound missing nacks le),
    )

-- The delay lies between the two configured ones, and the NACK list has 500 entries at most.
abbrev pub IsLimited : {F : Type 0} → JitterBuffer F → Type 0
IsLimited b =
    (b.config.min_delay_ms ≤ b.current_delay_ms)
    × (b.current_delay_ms ≤ b.config.max_delay_ms)
    × (length b.nack_list ≤ 500)

-- The target delay lies between the least and the greatest one.
abbrev pub IsSensible : JitterConfig → Type 0
IsSensible config =
    (config.min_delay_ms ≤ config.target_delay_ms) × (config.target_delay_ms ≤ config.max_delay_ms)

module _ {F : Type 0} where
  timed-IsLimited :
      (est : Estimator F) (b : JitterBuffer F) (seq timestamp now : ℕ)
      → IsLimited b
      → IsLimited (count_reordered (update_timing est b timestamp now) seq)
  unfolding count_reordered update_timing
  timed-IsLimited est b seq timestamp now h = ground arith

  note_gap-IsLimited : (b : JitterBuffer F) (seq : ℕ) → IsLimited b → IsLimited (note_gap b seq)
  unfolding note_gap
  note_gap-IsLimited b seq h = elim (Option-cases b.next_sequence) [
    | inl e ↦ ground arith
    | inr (expected, e) ↦ ground (
      arith,
      note_missing-bound ((seq + 2 ^ 16 - expected) % 2 ^ 16) expected b.packets b.nack_list
          b.stats.nack_requests,
    )
  ]

  store_new-IsLimited :
      (b : JitterBuffer F) (packet : RtpPacket) (now : ℕ)
      → IsLimited b
      → IsLimited (store_new b packet now)
  unfolding store_new store check_buffered
  store_new-IsLimited b packet now h = ground arith

  push-IsLimited :
      (est : Estimator F) (b : JitterBuffer F) (packet : RtpPacket) (now : ℕ)
      → IsSensible b.config
      → IsLimited b
      → IsLimited (push est b packet now)
  unfolding push restart reset with_config
  push-IsLimited est b packet now s h =
      let b1 = record b {
        stats = record (b.stats) { packets_received = b.stats.packets_received + 1 };
      } in
      let seq = packet.sequence_number in
      let b2 = count_reordered (update_timing est b1 packet.timestamp now) seq in
      ground (
        arith,
        store_new-IsLimited (note_gap b2 seq) packet now
            (note_gap-IsLimited b2 seq (timed-IsLimited est b1 seq packet.timestamp now h)),
      )

  adapt-IsLimited :
      (est : Estimator F) (b : JitterBuffer F)
      → IsSensible b.config
      → IsLimited b
      → IsLimited (adapt est b)
  unfolding adapt adapt_delay
  adapt-IsLimited est b s h = ground arith

  check_drift-IsLimited : (b : JitterBuffer F) → IsLimited b → IsLimited (check_drift b)
  unfolding check_drift skip_next
  check_drift-IsLimited b h = ground arith

  missed-IsLimited : (b : JitterBuffer F) (t : ℕ) → IsLimited b → IsLimited (missed b t).0
  unfolding missed catch_up
  missed-IsLimited b t h = ground arith

  skip_overfull-IsLimited : (b : JitterBuffer F) → IsLimited b → IsLimited (skip_overfull b)
  unfolding skip_overfull
  skip_overfull-IsLimited b h = ground arith

  played-IsLimited :
      (est : Estimator F) (b : JitterBuffer F) (t : ℕ)
      → IsSensible b.config
      → IsLimited b
      → IsLimited (played est b t)
  unfolding played
  played-IsLimited est b t s h =
      let packets = remove_packet b.packets t in
      let b1 = record b {
        packets = packets;
        last_played_sequence = some t;
        stats = record (b.stats) { buffer_size = length packets };
        consecutive_miss = 0;
      } in
      check_drift-IsLimited (adapt est b1) (adapt-IsLimited est b1 s h)

  pop_target-IsLimited :
      (est : Estimator F) (b : JitterBuffer F)
      → IsSensible b.config
      → IsLimited b
      → IsLimited (pop_target est b).0
  pop_target-IsLimited est b s h = elim (Option-cases (target_seq b)) [
    | inl e ↦ rw (pop_target-empty est b e) h
    | inr (t, e) ↦ elim (Option-cases (get_packet b.packets t)) [
      | inl g ↦ rw (pop_target-missed est b t e g) (missed-IsLimited b t h)
      | inr (q, g) ↦ rw (pop_target-played est b t q e g) (played-IsLimited est b t s h)
    ]
  ]

  pop-IsLimited :
      (est : Estimator F) (b : JitterBuffer F)
      → IsSensible b.config
      → IsLimited b
      → IsLimited (pop est b).0
  pop-IsLimited est b s h = elim (pop_cases est b) [
    | inl e ↦ rw (e) h
    | inr e ↦
        let b1 = record b {
          playout_started = true;
          pop_count = (b.pop_count + 1) % 2 ^ 32;
          drift_check_count = (b.drift_check_count + 1) % 2 ^ 32;
        } in
        rw (e) (
          pop_target-IsLimited est (skip_overfull b1) (rw (skip_overfull-config b1) s)
            (skip_overfull-IsLimited b1 h))
  ]

  run_limits :
      (est : Estimator F) (b : JitterBuffer F) (n : ℕ) (calls : List Call)
      → IsSensible b.config
      → IsLimited b
      → IsLimited (run est (b, n) calls).0
  unfolding run pending_nacks reset with_config reset_initial_buffering
  run_limits est b n [] s h = h
  run_limits est b n (Call.push_call packet now ∷ calls) s h =
      run_limits est (push est b packet now) _ calls (rw (push-config est b packet now) s)
        (push-IsLimited est b packet now s h)
  run_limits est b n (Call.pop_call ∷ calls) s h =
      run_limits est (pop est b).0 _ calls (rw (pop-config est b) s) (pop-IsLimited est b s h)
  run_limits est b n (Call.nacks_call ∷ calls) s (l, g, k) =
      run_limits est (pending_nacks b).0 n calls s (l, g, omega arith)
  run_limits est b n (Call.reset_call ∷ calls) (l, g) h =
      run_limits est (reset est b) 0 calls (l, g) (l, g, omega arith)
  run_limits est b n (Call.buffering_call ∷ calls) s h =
      run_limits est (reset_initial_buffering b) _ calls s h

-- After any calls on a new buffer whose target delay lies between its least and greatest delay, the
-- adapted delay lies between them too, and the NACK list has 500 entries at most.
pub run-IsLimited :
    {F : Type 0} (est : Estimator F) (config : JitterConfig) (calls : List Call)
    → IsSensible config
    → IsLimited (run est (with_config est config, 0) calls).0
unfolding with_config
run-IsLimited est config calls (l, g) =
    run_limits est (with_config est config) 0 calls (l, g) (l, g, omega arith)
