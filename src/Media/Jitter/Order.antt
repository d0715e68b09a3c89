-- ===== src/Media/Jitter/Order.antt =====
-- The order in which `pop` of src/rtp/jitter.rs plays the packets that were pushed.
use rtp_sip_module.Prelude.{
  ℕ, ◌+◌, ◌/◌, ◌%◌, ◌^◌, ◌≤◌, ◌<◌, ◌≡◌, sym, ap, ◌∙◌, inl, inr, true, Option, none, some, ltb,
  length, arith, Option-cases, Bool-cases,
}
use rtp_sip_module.Media.Packet.{RtpPacket}
use rtp_sip_module.Media.Jitter.{
  Estimator, BufferedPacket, Packets, JitterBuffer, get_packet, remove_packet, oldest_seq,
}
use rtp_sip_module.Media.Jitter.Pop.{
  skip_overfull, target_seq, skip_next, check_drift, catch_up, missed, adapt, played, pop_target,
  pop,
}
use rtp_sip_module.Media.Jitter.Window.{
  ahead, InWindow, remove-InWindow, get-InWindow, missing-InWindow, oldest_seq-InWindow,
  next-InWindow, absent-InWindow, oldest_seq-get,
}
use rtp_sip_module.Media.Jitter.Branches.{
  adapt_same, check_drift_cases, catch_up-none, catch_up_absent, catch_up-some, missed_cases,
  pop_target-played, pop_target-missed, pop_target-empty, target_oldest, pop_cases,
}

-- A position that the last played number agrees with; before anything was played it is the first one.
abbrev pub Follows : ℕ → ℕ → Option ℕ → Type 0
Follows first at none = at ≡ first
Follows first at (some last) = (last < 2 ^ 16) × (at % 2 ^ 16 ≡ (last + 1) % 2 ^ 16)

zero_ahead :
    (at : ℕ) (packets : Packets) → InWindow (at + 1) packets → InWindow (at + 0 + 1) packets
zero_ahead at packets h = let e : at + 0 ≡ at = omega arith in rw (e) h

module _ {F : Type 0} (first : ℕ) where
  -- A buffer that plays on from the position `at`.
  abbrev pub PlaysFrom : ℕ → JitterBuffer F → Type 0
  PlaysFrom at b = InWindow at b.packets × Follows first at b.last_played_sequence

  -- What a step from `at` leads to: a buffer that plays on from that position or one of the `lost` ones
  -- after it; where a packet was played, from the position behind the packet's or the one after that, and
  -- the packet's own position is within the half of the number space that begins after the lost ones.
  abbrev pub Onward : ℕ → ℕ → ℕ → JitterBuffer F → Option RtpPacket → Type 0
  Onward lost at next b none = (at ≤ next) × (next ≤ at + lost) × PlaysFrom next b
  Onward lost at next b (some p) =
      PlaysFrom next b
      × ((i : ℕ) × (at ≤ i)
          × (i < at + lost + 2 ^ 15)
          × (i < next)
          × (next ≤ i + 2)
          × (p.sequence_number ≡ i % 2 ^ 16))

  skip_overfull-PlaysFrom :
      (at : ℕ) (b : JitterBuffer F) → PlaysFrom at b → PlaysFrom at (skip_overfull b)
  unfolding skip_overfull
  skip_overfull-PlaysFrom at b (w, f) = elim (Option-cases (oldest_seq b.packets)) [
    | inl e ↦ ground arith
    | inr (t, e) ↦ ground (arith, remove-InWindow at t b.packets w)
  ]

  skip_next-PlaysFrom :
      (at : ℕ) (b : JitterBuffer F) (last : ℕ)
      → b.last_played_sequence ≡ some last
      → PlaysFrom at b
      → PlaysFrom (at + 1) (skip_next b)
  unfolding skip_next
  skip_next-PlaysFrom at b last e (w, f) = ground (
    arith,
    next-InWindow at ((last + 1) % 2 ^ 16) b.packets,
    absent-InWindow at ((last + 1) % 2 ^ 16) b.packets,
  )

  PlaysFrom-same :
      (at : ℕ) (b b' : JitterBuffer F)
      → b'.packets ≡ b.packets
      → b'.last_played_sequence ≡ b.last_played_sequence
      → PlaysFrom at b
      → PlaysFrom at b'
  PlaysFrom-same at b b' p l h = rw (p, l) h

  check_drift-PlaysFrom :
      (at t : ℕ) (b : JitterBuffer F)
      → b.last_played_sequence ≡ some t
      → PlaysFrom at b
      → (next : ℕ) × (at ≤ next) × (next ≤ at + 1) × PlaysFrom next (check_drift b)
  check_drift-PlaysFrom at t b e h = elim (check_drift_cases b) [
    | inl c ↦ (
      at + 1,
      omega arith,
      omega arith,
      rw (c)
          (skip_next-PlaysFrom at (record b { drift_high_count = 0; drift_low_count = 0 }) t e h),
    )
    | inr (p, l) ↦ (at, omega arith, omega arith, PlaysFrom-same at b (check_drift b) p l h)
  ]

  -- The window behind a packet that lies ahead of every other, and the packet in it.
  played-Onward :
      (est : Estimator F) (at n t : ℕ) (b : JitterBuffer F) (p : BufferedPacket)
      → n < 2 ^ 15
      → t ≡ (at + n) % 2 ^ 16
      → p.packet.sequence_number ≡ t
      → InWindow (at + n + 1) (remove_packet b.packets t)
      → (next : ℕ) × Onward 1 at next (played est b t) (some p.packet)
  unfolding played
  played-Onward est at n t b p near e s w =
      let packets = remove_packet b.packets t in
      let b1 = record b {
        packets = packets;
        last_played_sequence = some t;
        stats = record (b.stats) { buffer_size = length packets };
        consecutive_miss = 0;
      } in
      let (p2, l2) = adapt_same est b1 in
      let (next, le, ge, h) =
        check_drift-PlaysFrom (at + n + 1) t (adapt est b1) l2
          (PlaysFrom-same (at + n + 1) b1 (adapt est b1) p2 l2 (w, omega arith)) in
      (next, (h, (at + n, omega arith, omega arith, omega arith, omega arith, s ∙ e)))

  Onward-none :
      (at : ℕ) (r : JitterBuffer F × Option RtpPacket)
      → r.1 ≡ none
      → PlaysFrom at r.0
      → Onward 1 at at r.0 r.1
  Onward-none at r e h = rw (e) (omega arith, omega arith, h)

  Onward-some :
      (at n t : ℕ) (r : JitterBuffer F × Option RtpPacket) (p : RtpPacket)
      → r.1 ≡ some p
      → n < 2 ^ 15
      → t ≡ (at + n) % 2 ^ 16
      → p.sequence_number ≡ t
      → r.0.last_played_sequence ≡ some t
      → InWindow (at + n + 1) r.0.packets
      → Onward 0 at (at + n + 1) r.0 r.1
  Onward-some at n t r p e near te s l w =
      rw (e, l)
        ((w, omega arith), (at + n, omega arith, omega arith, omega arith, omega arith, s ∙ te))

  catch_up-Onward :
      (at t : ℕ) (b : JitterBuffer F)
      → PlaysFrom at b
      → (next : ℕ) × Onward 0 at next (catch_up b t).0 (catch_up b t).1
  catch_up-Onward at t b (w, f) = elim (Option-cases (oldest_seq b.packets)) [
    | inl e ↦ (at, rw (catch_up-none t b (inr e)) (omega arith, omega arith, (w, f)))
    | inr (o, e) ↦ elim (Option-cases (get_packet b.packets o)) [
      | inl g ↦ (at, rw (catch_up_absent t o b e g) (omega arith, omega arith, (w, f)))
      | inr (q, g) ↦ elim (Bool-cases (ltb (b.config.max_packets / 2) (length b.packets))) [
        | inr c ↦ (at, rw (catch_up-none t b (inl c)) (omega arith, omega arith, (w, f)))
        | inl c ↦
            let (r, p, l) = catch_up-some t o b q c e g in
            let (near, te, w') = oldest_seq-InWindow at o b.packets w e in
            (
              at + ahead at o + 1,
              Onward-some at (ahead at o) o (catch_up b t) q.packet r near te
                  (get-InWindow at o b.packets q w g) l (rw (p) w'),
            )
      ]
    ]
  ]

  later_of :
      (at next : ℕ) (b : JitterBuffer F) (p : Option RtpPacket)
      → Onward 0 (at + 1) next b p
      → Onward 1 at next b p
  later_of at next b none (le, ge, h) = (omega arith, omega arith, h)
  later_of at next b (some p) (h, (i, ge, near, lt, le, e)) =
      (h, (i, omega arith, omega arith, lt, le, e))

  later :
      (at next : ℕ) (r : JitterBuffer F × Option RtpPacket)
      → Onward 0 (at + 1) next r.0 r.1
      → Onward 1 at next r.0 r.1
  later at next r h = later_of at next r.0 r.1 h

  missed-Onward :
      (at t : ℕ) (b : JitterBuffer F)
      → PlaysFrom at b
      → t ≡ at % 2 ^ 16
      → get_packet b.packets t ≡ none
      → (next : ℕ) × Onward 1 at next (missed b t).0 (missed b t).1
  missed-Onward at t b (w, f) e g = elim (missed_cases t b) [
    | inl (r, p, l) ↦
        (at, Onward-none at (missed b t) r (PlaysFrom-same at b (missed b t).0 p l (w, f)))
    | inr c ↦
        let b1 = record b {
          consecutive_miss = 0;
          last_played_sequence = some t;
          stats = record (b.stats) { packets_lost = b.stats.packets_lost + 1 };
        } in
        let (next, o) =
          catch_up-Onward (at + 1) t b1 (
            missing-InWindow at b.packets w (ap (get_packet b.packets) (sym e) ∙ g),
            omega arith,
          ) in
        (next, rw (c) (later at next (catch_up b1 t) o))
  ]

  target_next :
      (at last : ℕ) (b : JitterBuffer F)
      → b.last_played_sequence ≡ some last
      → Follows first at b.last_played_sequence
      → (target_seq b ≡ some ((last + 1) % 2 ^ 16)) × ((last + 1) % 2 ^ 16 ≡ at % 2 ^ 16)
  unfolding target_seq
  target_next at last b e f = ground arith

  from_next :
      (est : Estimator F) (at t : ℕ) (b : JitterBuffer F)
      → PlaysFrom at b
      → target_seq b ≡ some t
      → t ≡ at % 2 ^ 16
      → (next : ℕ) × Onward 1 at next (pop_target est b).0 (pop_target est b).1
  from_next est at t b (w, f) e te = elim (Option-cases (get_packet b.packets t)) [
    | inl g ↦ rw (pop_target-missed est b t e g) (missed-Onward at t b (w, f) te g)
    | inr (q, g) ↦ rw (pop_target-played est b t q e g) (
        played-Onward est at 0 t b q (omega arith) (omega arith) (get-InWindow at t b.packets q w g)
          (zero_ahead at (remove_packet b.packets t) (next-InWindow at t b.packets te w)))
  ]

  from_oldest :
      (est : Estimator F) (at t : ℕ) (b : JitterBuffer F)
      → PlaysFrom at b
      → target_seq b ≡ some t
      → oldest_seq b.packets ≡ some t
      → (next : ℕ) × Onward 1 at next (pop_target est b).0 (pop_target est b).1
  from_oldest est at t b (w, f) e o = elim (Option-cases (get_packet b.packets t)) [
    | inl g ↦ absurd (ground (arith, oldest_seq-get t b.packets o))
    | inr (q, g) ↦
        let (near, te, w') = oldest_seq-InWindow at t b.packets w o in
        rw (pop_target-played est b t q e g)
          (played-Onward est at (ahead at t) t b q near te (get-InWindow at t b.packets q w g) w')
  ]

  pop_target-Onward :
      (est : Estimator F) (at : ℕ) (b : JitterBuffer F)
      → PlaysFrom at b
      → (next : ℕ) × Onward 1 at next (pop_target est b).0 (pop_target est b).1
  pop_target-Onward est at b (w, f) = elim (Option-cases b.last_played_sequence) [
    | inr (last, l) ↦
        let (e, te) = target_next at last b l f in
        from_next est at ((last + 1) % 2 ^ 16) b (w, f) e te
    | inl l ↦ elim (Option-cases (oldest_seq b.packets)) [
      | inl o ↦ (
        at,
        rw (pop_target-empty est b (target_oldest b l ∙ o)) (omega arith, omega arith, (w, f)),
      )
      | inr (t, o) ↦ from_oldest est at t b (w, f) (target_oldest b l ∙ o) o
    ]
  ]

  -- After a `pop` that plays nothing, a buffer goes on from the same position or the next one. A packet that
  -- is played has the number of a position at most 2 ^ 15 further on, and the buffer goes on from the
  -- position behind it or the one after that.
  pub pop-Onward :
      (est : Estimator F) (at : ℕ) (b : JitterBuffer F)
      → PlaysFrom at b
      → (next : ℕ) × Onward 1 at next (pop est b).0 (pop est b).1
  pop-Onward est at b h = elim (pop_cases est b) [
    | inl e ↦ (at, rw (e) (omega arith, omega arith, h))
    | inr e ↦
        let b1 = record b {
          playout_started = true;
          pop_count = (b.pop_count + 1) % 2 ^ 32;
          drift_check_count = (b.drift_check_count + 1) % 2 ^ 32;
        } in
        rw (e) (pop_target-Onward est at (skip_overfull b1) (skip_overfull-PlaysFrom at b1 h))
  ]
