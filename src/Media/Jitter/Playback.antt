-- ===== src/Media/Jitter/Playback.antt =====
-- Histories of a jitter buffer, and the packets played in them: src/rtp/jitter.rs.
use rtp_sip_module.Prelude.{
  ℕ, zero, suc, ◌+◌, ◌%◌, ◌^◌, ◌≤◌, ◌<◌, ◌≡◌, refl, ◌⊎◌, inl, inr, true, false, Option, none, some,
  List, [], ◌∷◌, ◌++◌, ◌-◌, length, replicate, arith, Option-cases, Bool-cases,
}
use rtp_sip_module.Media.Packet.{RtpPacket}
use rtp_sip_module.Media.Jitter.{
  Estimator, JitterConfig, Packets, JitterBuffer, sequence_before, insert_packet, remove_packet,
  oldest_seq, with_config,
}
use rtp_sip_module.Media.Jitter.Push.{
  evict, is_late, is_jump, push, store, store_new, update_timing, count_reordered, note_gap,
  check_buffered,
}
use rtp_sip_module.Media.Jitter.Pop.{pop, pending_nacks}
use rtp_sip_module.Media.Jitter.Window.{ahead, InWindow, remove-InWindow, insert-InWindow}
use rtp_sip_module.Media.Jitter.Order.{Follows, PlaysFrom, Onward, pop-Onward}

evict-InWindow :
    (at fuel max_packets : ℕ) (packets : Packets) (dropped : ℕ)
    → InWindow at packets
    → InWindow at (evict fuel max_packets packets dropped).0
unfolding evict
evict-InWindow at zero max_packets packets dropped h = h
evict-InWindow at (suc fuel) max_packets packets dropped h =
    elim (Option-cases (oldest_seq packets)) [
      | inl e ↦ ground arith
      | inr (t, e) ↦ ground (
        arith,
        evict-InWindow at fuel max_packets (remove_packet packets t) (dropped + 1)
            (remove-InWindow at t packets h),
      )
    ]

module _ {F : Type 0} where
  prepared_same :
      (est : Estimator F) (b : JitterBuffer F) (seq timestamp now : ℕ)
      → let b' = note_gap (count_reordered (update_timing est b timestamp now) seq) seq in
        (b'.packets ≡ b.packets) × (b'.last_played_sequence ≡ b.last_played_sequence)
  unfolding note_gap count_reordered update_timing
  prepared_same est b seq timestamp now = ground arith

  store-PlaysFrom :
      (first at : ℕ) (b : JitterBuffer F) (packet : RtpPacket) (now : ℕ)
      → PlaysFrom first at b
      → packet.sequence_number < 2 ^ 16
      → ahead at packet.sequence_number < 2 ^ 15
      → PlaysFrom first at (store_new b packet now)
  unfolding store_new store check_buffered
  store-PlaysFrom first at b packet now (w, f) s near =
      let inserted =
        insert_packet b.packets packet.sequence_number
          (record { packet = packet; arrival_time = now }) in
      ground (
        arith,
        evict-InWindow at (length inserted) b.config.max_packets inserted b.stats.packets_dropped (
            insert-InWindow at packet.sequence_number
              (record { packet = packet; arrival_time = now }) b.packets w s near refl),
      )

  -- A number that is not late lies ahead of the position.
  not_late_ahead :
      (first at last : ℕ) (b : JitterBuffer F) (seq : ℕ)
      → b.last_played_sequence ≡ some last
      → Follows first at b.last_played_sequence
      → seq < 2 ^ 16
      → is_late b seq ≡ false
      → ahead at seq < 2 ^ 15
  unfolding is_late sequence_before
  not_late_ahead first at last b seq e f s l = ground arith

  push_late :
      (est : Estimator F) (b : JitterBuffer F) (packet : RtpPacket) (now : ℕ)
      → is_late b packet.sequence_number ≡ true
      → ((push est b packet now).packets ≡ b.packets)
        × ((push est b packet now).last_played_sequence ≡ b.last_played_sequence)
  unfolding push
  push_late est b packet now l = ground arith

  push_new :
      (est : Estimator F) (b : JitterBuffer F) (packet : RtpPacket) (now : ℕ)
      → is_late b packet.sequence_number ≡ false
      → is_jump b packet.timestamp ≡ false
      → let b1 = record b {
        stats = record (b.stats) { packets_received = b.stats.packets_received + 1 };
      } in
        push est b packet now
        ≡ store_new
            (note_gap
              (count_reordered (update_timing est b1 packet.timestamp now) packet.sequence_number)
              packet.sequence_number)
            packet
            now
  unfolding push
  push_new est b packet now l j = ground arith

  near_of :
      (first at : ℕ) (b : JitterBuffer F) (seq : ℕ)
      → Follows first at b.last_played_sequence
      → seq < 2 ^ 16
      → is_late b seq ≡ false
      → ((last : ℕ) × (b.last_played_sequence ≡ some last)) ⊎ (ahead first seq < 2 ^ 15)
      → ahead at seq < 2 ^ 15
  near_of first at b seq f s l (inl (last, e)) = not_late_ahead first at last b seq e f s l
  near_of first at b seq f s l (inr n) = elim (Option-cases b.last_played_sequence) [
    | inr (last, e) ↦ not_late_ahead first at last b seq e f s l
    | inl e ↦ ground arith
  ]

  push-PlaysFrom :
      (est : Estimator F) (first at : ℕ) (b : JitterBuffer F) (packet : RtpPacket) (now : ℕ)
      → PlaysFrom first at b
      → packet.sequence_number < 2 ^ 16
      → is_jump b packet.timestamp ≡ false
      → ((last : ℕ) × (b.last_played_sequence ≡ some last))
        ⊎ (ahead first packet.sequence_number < 2 ^ 15)
      → PlaysFrom first at (push est b packet now)
  push-PlaysFrom est first at b packet now (w, f) s j n =
      elim (Bool-cases (is_late b packet.sequence_number)) [
        | inl l ↦ let (p, e) = push_late est b packet now l in rw (p, e) (w, f)
        | inr l ↦
            let b1 = record b {
              stats = record (b.stats) { packets_received = b.stats.packets_received + 1 };
            } in
            let (p, e) = prepared_same est b1 packet.sequence_number packet.timestamp now in
            rw (push_new est b packet now l j) (
              store-PlaysFrom first at
                (note_gap
                  (count_reordered (update_timing est b1 packet.timestamp now)
                    packet.sequence_number)
                  packet.sequence_number)
                packet now (rw (p, e) (w, f)) s (near_of first at b packet.sequence_number f s l n))
      ]

-- A buffer after some calls of `push`, `pop` and `pending_nacks`, and what each `pop` has returned, the
-- last one first. The timestamps do not jump, and the packets that come before anything was played lie
-- in the half of the number space that begins at `first`.
pub data Playback {F : Type 0} (est : Estimator F) (first : ℕ)
    : JitterBuffer F → List (Option RtpPacket) → Type 0 where
  start : (config : JitterConfig) → Playback est first (with_config est config) []
  pushed :
      (b : JitterBuffer F) (results : List (Option RtpPacket)) (packet : RtpPacket) (now : ℕ)
      → packet.sequence_number < 2 ^ 16
      → is_jump b packet.timestamp ≡ false
      → ((last : ℕ) × (b.last_played_sequence ≡ some last))
        ⊎ (ahead first packet.sequence_number < 2 ^ 15)
      → Playback est first b results
      → Playback est first (push est b packet now) results
  popped :
      (b : JitterBuffer F) (results : List (Option RtpPacket))
      → Playback est first b results
      → Playback est first (pop est b).0 ((pop est b).1 ∷ results)
  nacked :
      (b : JitterBuffer F) (results : List (Option RtpPacket))
      → Playback est first b results
      → Playback est first (pending_nacks b).0 results

-- The results of `pop`, the last one first, take a reader of the stream from the position `first` to the
-- position `at`. Where nothing is played it moves on by one position at most; where a packet is played
-- it moves on to the packet's position, which lies at most 2 ^ 15 further, past it, and by at most one
-- position more.
abbrev pub ArePlayed : ℕ → ℕ → List (Option RtpPacket) → Type 0
ArePlayed first at [] = at ≡ first
ArePlayed first at (none ∷ results) =
    (before : ℕ) × (before ≤ at) × (at ≤ before + 1) × ArePlayed first before results
ArePlayed first at (some p ∷ results) =
    (before : ℕ) × (i : ℕ) × (before ≤ i)
    × (i ≤ before + 2 ^ 15)
    × (i < at)
    × (at ≤ i + 2)
    × (p.sequence_number ≡ i % 2 ^ 16)
    × ArePlayed first before results

Invariant : {F : Type 0} → ℕ → JitterBuffer F → List (Option RtpPacket) → Type 0
Invariant first b results = (at : ℕ) × PlaysFrom first at b × ArePlayed first at results

returned :
    {F : Type 0} (first at next : ℕ) (b : JitterBuffer F) (p : Option RtpPacket)
    (results : List (Option RtpPacket))
    → ArePlayed first at results
    → Onward first 1 at next b p
    → Invariant first b (p ∷ results)
unfolding Invariant
returned first at next b none results a (le, ge, h) = (next, h, (at, le, ge, a))
returned first at next b (some p) results a (h, (i, ge, near, lt, le, e)) =
    (next, h, (at, i, ge, omega arith, lt, le, e, a))

Playback-Invariant :
    {F : Type 0} (est : Estimator F) (first : ℕ) (b : JitterBuffer F)
    (results : List (Option RtpPacket))
    → Playback est first b results
    → Invariant first b results
unfolding Invariant with_config pending_nacks
Playback-Invariant est first b results (Playback.start config) = (first, (tt, refl), refl)
Playback-Invariant est first b results (Playback.pushed c _ packet now s j n h) =
    let (at, p, a) = Playback-Invariant est first c results h in
    (at, push-PlaysFrom est first at c packet now p s j n, a)
Playback-Invariant est first b results (Playback.popped c before h) =
    let (at, p, a) = Playback-Invariant est first c before h in
    let (next, o) = pop-Onward first est at c p in
    returned first at next (pop est c).0 (pop est c).1 before a o
Playback-Invariant est first b results (Playback.nacked c _ h) =
    Playback-Invariant est first c results h

-- In a history of `push`, `pop` and `pending_nacks` in which the timestamps do not jump, and the packets
-- before the first one played lie in the half of the number space that begins at `first`, the results of
-- `pop` play the stream forwards from the position `first`: a `pop` that plays nothing moves on by one
-- position at most; one that plays a packet plays the one at the position reached or at most 2 ^ 15
-- positions further on (a packet's number is its position modulo 2 ^ 16), and moves past it by one or
-- two positions.
pub Playback-ArePlayed :
    {F : Type 0} (est : Estimator F) (first : ℕ) (b : JitterBuffer F)
    (results : List (Option RtpPacket))
    → Playback est first b results
    → (at : ℕ) × ArePlayed first at results
unfolding Invariant
Playback-ArePlayed est first b results h =
    let (at, p, a) = Playback-Invariant est first b results h in (at, a)

-- The position of the packet that was played before `k` calls that played nothing.
silent :
    (first at k : ℕ) (q : RtpPacket) (results : List (Option RtpPacket))
    → ArePlayed first at (replicate k none ++ (some q ∷ results))
    → (i : ℕ) × (q.sequence_number ≡ i % 2 ^ 16) × (i < at) × (at ≤ i + 2 + k)
silent first at zero q results (before, i, ge, near, lt, le, e, a) = (i, e, lt, omega arith)
silent first at (suc k) q results (before, lt, le, a) =
    let (i, e, gt, ge) = silent first before k q results a in (i, e, omega arith, omega arith)

distance :
    (i j k : ℕ)
    → i < j
    → j ≤ i + 2 + k + 2 ^ 15
    → k + 2 < 2 ^ 15
    → let d = (j % 2 ^ 16 + 2 ^ 16 - i % 2 ^ 16) % 2 ^ 16 in (0 < d) × (d ≤ k + 2 + 2 ^ 15)
distance i j k lt le few = (omega arith, omega arith)

-- In such a history, a packet that is played next after another one, with at most 32765 calls of `pop`
-- between them that play nothing, has a number that is ahead of the other's, modulo 2 ^ 16, by at least
-- one and at most 2 ^ 15 + 2 more than the number of these calls. It is not the same number.
pub next_played_ahead :
    {F : Type 0} (est : Estimator F) (first : ℕ) (b : JitterBuffer F) (p q : RtpPacket) (k : ℕ)
    (results : List (Option RtpPacket))
    → Playback est first b (some p ∷ (replicate k none ++ (some q ∷ results)))
    → k + 2 < 2 ^ 15
    → let d = (p.sequence_number + 2 ^ 16 - q.sequence_number) % 2 ^ 16 in
      (0 < d) × (d ≤ k + 2 + 2 ^ 15)
next_played_ahead est first b p q k results h few =
    let (at, (before, j, ge, near, lt, le, e, a)) =
      Playback-ArePlayed est first b (some p ∷ (replicate k none ++ (some q ∷ results))) h in
    let (i, f, gt, pos) = silent first before k q results a in
    rw (e, f) (distance i j k (omega arith) (omega arith) few)
