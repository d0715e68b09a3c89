-- ===== src/Media/Jitter/Account/Pushed.antt =====
-- The counts of a jitter buffer across `push` of src/rtp/jitter.rs.
use rtp_sip_module.Prelude.{ℕ, suc, ◌+◌, ◌≤◌, ◌<◌, ◌≡◌, not, ◌&&◌, if◌then◌else◌, length, arith}
use rtp_sip_module.Media.Packet.{RtpPacket}
use rtp_sip_module.Media.Jitter.{
  Estimator, BufferedPacket, JitterBuffer, insert_packet, with_config, reset,
}
use rtp_sip_module.Media.Jitter.Push.{
  is_late, is_jump, push, restart, store, store_new, update_timing, count_reordered, note_gap,
  check_buffered,
}
use rtp_sip_module.Media.Jitter.Account.{
  AscendFrom, insert-AscendFrom, length-insert, evict_exact, IsAccounted,
}

-- The counts before the packet that just came in is dealt with.
abbrev IsOwed : {F : Type 0} → ℕ → JitterBuffer F → Type 0
IsOwed n b =
    (b.stats.packets_received
      ≡ suc (b.stats.packets_dropped + b.stats.packets_duplicated + length b.packets + n))
    × (b.stats.buffer_size ≡ length b.packets)
    × (length b.packets ≤ b.config.max_packets)
    × AscendFrom 0 b.packets

module _ {F : Type 0} where
  store_new-IsAccounted :
      (n : ℕ) (b : JitterBuffer F) (packet : RtpPacket) (now : ℕ)
      → IsOwed n b
      → IsAccounted n (store_new b packet now)
  unfolding store_new store check_buffered
  store_new-IsAccounted n b packet now (r, s, m, a) =
      let seq = packet.sequence_number in
      let p : BufferedPacket = record { packet = packet; arrival_time = now } in
      let inserted = insert_packet b.packets seq p in
      ground (
        arith,
        length-insert seq p b.packets,
        evict_exact (length inserted) b.config.max_packets b.stats.packets_dropped inserted
            (omega arith) (insert-AscendFrom 0 seq p b.packets (omega arith) a),
      )

  prepared-IsOwed :
      (est : Estimator F) (n : ℕ) (b : JitterBuffer F) (seq timestamp now : ℕ)
      → IsOwed n b
      → IsOwed n (note_gap (count_reordered (update_timing est b timestamp now) seq) seq)
  unfolding note_gap count_reordered update_timing
  prepared-IsOwed est n b seq timestamp now h = ground arith

  -- what was played since the last restart
  abbrev pub played_after_push : Estimator F → JitterBuffer F → RtpPacket → ℕ → ℕ
  played_after_push est b packet n =
      if not (is_late b packet.sequence_number) && is_jump b packet.timestamp then 0 else n

  -- `push` keeps the account: a packet is dropped as late, counted as a duplicate, or goes into the buffer,
  -- which drops the oldest where it is full; after a jump of the timestamps the account starts again.
  pub push-IsAccounted :
      (est : Estimator F) (n : ℕ) (b : JitterBuffer F) (packet : RtpPacket) (now : ℕ)
      → 0 < b.config.max_packets
      → IsAccounted n b
      → IsAccounted (played_after_push est b packet n) (push est b packet now)
  unfolding push restart reset with_config insert_packet
  push-IsAccounted est n b packet now pos (r, s, m, a) =
      let b1 = record b {
        stats = record (b.stats) { packets_received = b.stats.packets_received + 1 };
      } in
      ground (
        arith,
        store_new-IsAccounted n
            (note_gap
              (count_reordered (update_timing est b1 packet.timestamp now) packet.sequence_number)
              packet.sequence_number)
            packet now
            (prepared-IsOwed est n b1 packet.sequence_number packet.timestamp now
              (omega arith, s, m, a)),
      )
