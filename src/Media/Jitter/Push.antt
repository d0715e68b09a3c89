-- ===== src/Media/Jitter/Push.antt =====
-- `push` of src/rtp/jitter.rs, in the steps of its body.
use rtp_sip_module.Prelude.{
  ℕ, zero, suc, ◌+◌, ◌-◌, ◌*◌, ◌/◌, ◌%◌, ◌^◌, Bool, true, false, not, ◌&&◌, ◌||◌, Option, none,
  some, List, [], ◌∷◌, ◌++◌, if◌then◌else◌, ltb, leb, ◌==◌, length, min, drop,
}
use rtp_sip_module.Media.Packet.{RtpPacket}
use rtp_sip_module.Media.Jitter.{
  Estimator, Packets, JitterBuffer, sequence_before, sequence_after, contains_key, insert_packet,
  remove_packet, oldest_seq, duration_of, reset,
}

-- the distance of two timestamps, and whether it goes forward: `ts_diff_samples`
unfoldable pub is_forward : ℕ → ℕ → Bool
is_forward timestamp last = ltb ((timestamp + 2 ^ 32 - last) % 2 ^ 32) 0x80000000

unfoldable pub distance : ℕ → ℕ → ℕ
unfolding is_forward
distance timestamp last =
    if is_forward timestamp last
    then (timestamp + 2 ^ 32 - last) % 2 ^ 32
    else (last + 2 ^ 32 - timestamp) % 2 ^ 32

-- `(arrival_diff - timestamp_diff).abs()`, where a backward difference is negative
unfoldable pub deviation : ℕ → ℕ → Bool → ℕ
deviation arrival_diff timestamp_diff forward =
    if forward
    then (arrival_diff - timestamp_diff) + (timestamp_diff - arrival_diff)
    else arrival_diff + timestamp_diff

-- the loop that evicts while there are too many packets; a round removes one, so there are as many
-- rounds as packets at most
unfoldable pub evict : ℕ → ℕ → Packets → ℕ → Packets × ℕ
unfolding oldest_seq remove_packet
evict zero max_packets packets dropped = (packets, dropped)
evict (suc fuel) max_packets packets dropped = elim (ltb max_packets (length packets)) [
  | false ↦ (packets, dropped)
  | true ↦ elim (oldest_seq packets) [
    | none ↦ (packets, dropped)
    | some seq ↦ evict fuel max_packets (remove_packet packets seq) (dropped + 1)
  ]
]

-- the loop over a gap: each missing number that is not in the buffer is pushed on the NACK list, which
-- drops its oldest entry at 500
unfoldable pub note_missing : ℕ → ℕ → Packets → List ℕ → ℕ → List ℕ × ℕ
unfolding contains_key
note_missing zero missing packets nacks requests = (nacks, requests)
note_missing (suc gap) missing packets nacks requests =
    let next = (missing + 1) % 2 ^ 16 in
    let kept = if leb 500 (length nacks) then drop 1 nacks else nacks in
    elim (contains_key packets missing) [
      | true ↦ note_missing gap next packets nacks requests
      | false ↦ note_missing gap next packets (kept ++ (missing ∷ [])) (requests + 1)
    ]

module _ {F : Type 0} where
  -- the packet was played already, or one after it was
  unfoldable pub is_late : JitterBuffer F → ℕ → Bool
  unfolding sequence_before
  is_late b seq = elim b.last_played_sequence [
    | none ↦ false
    | some last_played ↦ sequence_before seq last_played || (seq == last_played)
  ]

  -- the timestamp is more than five seconds away from the last one
  unfoldable pub is_jump : JitterBuffer F → ℕ → Bool
  unfolding distance
  is_jump b timestamp = elim b.last_arrival [
    | none ↦ false
    | some last_arrival ↦ elim b.last_timestamp [
      | none ↦ false
      | some last_timestamp ↦ ltb (b.config.sample_rate * 5) (distance timestamp last_timestamp)
    ]
  ]

  -- counts a packet that comes before the expected one and was not played
  unfoldable pub count_reordered : JitterBuffer F → ℕ → JitterBuffer F
  unfolding sequence_before
  count_reordered b seq =
      let before : Bool = elim b.next_sequence [
        | none ↦ false
        | some expected ↦ sequence_before seq expected
      ] in
      let played : Bool = elim b.last_played_sequence [
        | none ↦ false
        | some last ↦ sequence_before seq last
      ] in
      if before && not played
      then record b {
        stats = record (b.stats) { packets_reordered = b.stats.packets_reordered + 1 };
      }
      else b

  -- NACK gap detection
  unfoldable pub note_gap : JitterBuffer F → ℕ → JitterBuffer F
  unfolding sequence_after note_missing
  note_gap b seq = elim b.next_sequence [
    | none ↦ b
    | some expected ↦
        let gap = (seq + 2 ^ 16 - expected) % 2 ^ 16 in
        let (nacks, requests) =
          note_missing gap expected b.packets b.nack_list b.stats.nack_requests in
        if b.config.nack_enabled && (sequence_after seq expected && (ltb 0 gap && leb gap 100))
        then record b { nack_list = nacks; stats = record (b.stats) { nack_requests = requests } }
        else b
  ]

  -- the number after a new packet that does not come before the expected one
  unfoldable pub advance_next : JitterBuffer F → ℕ → Option ℕ
  unfolding sequence_before
  advance_next b seq = elim b.next_sequence [
    | none ↦ some ((seq + 1) % 2 ^ 16)
    | some next ↦ if sequence_before seq next then some next else some ((seq + 1) % 2 ^ 16)
  ]

  -- the end of the initial buffering
  unfoldable pub check_buffered : JitterBuffer F → JitterBuffer F
  unfolding duration_of
  check_buffered b =
      if not b.initial_buffering_done
        && leb (min b.current_delay_ms b.config.target_delay_ms)
            (duration_of b.config (length b.packets))
      then record b { initial_buffering_done = true }
      else b

  -- the packet goes into the buffer, and the oldest ones out of it
  unfoldable pub store : JitterBuffer F → RtpPacket → ℕ → JitterBuffer F
  unfolding insert_packet evict advance_next check_buffered
  store b packet now =
      let seq = packet.sequence_number in
      let inserted = insert_packet b.packets seq (record { packet = packet; arrival_time = now }) in
      let (packets, dropped) =
        evict (length inserted) b.config.max_packets inserted b.stats.packets_dropped in
      check_buffered (record b {
        next_sequence = advance_next b seq;
        packets = packets;
        stats = record (b.stats) { packets_dropped = dropped; buffer_size = length packets };
      })

  -- from the duplicate detection on
  unfoldable pub store_new : JitterBuffer F → RtpPacket → ℕ → JitterBuffer F
  unfolding contains_key store
  store_new b packet now =
      if contains_key b.packets packet.sequence_number
      then record b {
        stats = record (b.stats) { packets_duplicated = b.stats.packets_duplicated + 1 };
      }
      else store b packet now

module _ {F : Type 0} (est : Estimator F) where
  -- the jitter estimate, and the instant and timestamp of the last packet that was not reordered
  unfoldable pub update_timing : JitterBuffer F → ℕ → ℕ → JitterBuffer F
  unfolding is_forward distance deviation
  update_timing b timestamp now =
      let first = record b { last_arrival = some now; last_timestamp = some timestamp } in
      elim b.last_arrival [
        | none ↦ first
        | some last_arrival ↦ elim b.last_timestamp [
          | none ↦ first
          | some last ↦
              let forward = is_forward timestamp last in
              let d =
                deviation ((now - last_arrival) / 1000000)
                  (distance timestamp last * 1000 / b.config.sample_rate) forward in
              let j = est.smooth b.jitter_estimate d in
              let b' = record b {
                jitter_estimate = j;
                stats = record (b.stats) { jitter_ms = j };
              } in
              if forward
              then record b' { last_arrival = some now; last_timestamp = some timestamp }
              else b'
        ]
      ]

  -- what a jump of the timestamps leaves: the buffer with this packet alone
  unfoldable pub restart : JitterBuffer F → RtpPacket → ℕ → JitterBuffer F
  unfolding reset insert_packet
  restart b packet now =
      let r = reset est b in
      let packets =
        insert_packet r.packets packet.sequence_number
          (record { packet = packet; arrival_time = now }) in
      record r {
        stats = record (r.stats) {
          packets_received = r.stats.packets_received + 1;
          buffer_size = length packets;
        };
        last_arrival = some now;
        last_timestamp = some packet.timestamp;
        next_sequence = some ((packet.sequence_number + 1) % 2 ^ 16);
        packets = packets;
      }

  -- `push`
  unfoldable pub push : JitterBuffer F → RtpPacket → ℕ → JitterBuffer F
  unfolding is_late is_jump restart update_timing count_reordered note_gap store_new
  push b packet now =
      let seq = packet.sequence_number in
      let b1 = record b {
        stats = record (b.stats) { packets_received = b.stats.packets_received + 1 };
      } in
      if is_late b seq
      then record b1 {
        stats = record (b1.stats) { packets_dropped = b1.stats.packets_dropped + 1 };
      }
      else if is_jump b packet.timestamp
      then restart b1 packet now
      else store_new (note_gap (count_reordered (update_timing b1 packet.timestamp now) seq) seq)
          packet now
