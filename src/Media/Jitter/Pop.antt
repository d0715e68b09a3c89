-- ===== src/Media/Jitter/Pop.antt =====
-- `pop`, `adapt_delay` and `pending_nacks` of src/rtp/jitter.rs.
use rtp_sip_module.Prelude.{
  ℕ, ◌+◌, ◌-◌, ◌*◌, ◌/◌, ◌%◌, ◌^◌, true, not, ◌&&◌, ◌||◌, Option, none, some, List, [], ◌∷◌,
  if◌then◌else◌, ltb, leb, ◌==◌, length, min, max,
}
use rtp_sip_module.Media.Packet.{RtpPacket}
use rtp_sip_module.Media.Jitter.{
  JitterConfig, Estimator, Packets, JitterBuffer, sequence_before, contains_key, get_packet,
  remove_packet, oldest_seq, duration_of,
}

-- `nack_list.retain` of the numbers that have not arrived, and of those that were not played
unfoldable pub retain_missing : Packets → List ℕ → List ℕ
unfolding contains_key
retain_missing packets [] = []
retain_missing packets (seq ∷ nacks) =
    let rest = retain_missing packets nacks in if contains_key packets seq then rest else seq ∷ rest

unfoldable pub retain_unplayed : ℕ → List ℕ → List ℕ
unfolding sequence_before
retain_unplayed last [] = []
retain_unplayed last (seq ∷ nacks) =
    let rest = retain_unplayed last nacks in
    if sequence_before seq last || (seq == last) then rest else seq ∷ rest

-- the packets that fill the target delay; `samples_per_packet * 1000` is a `u32`
unfoldable pub target_packets : JitterConfig → ℕ
target_packets config =
    config.target_delay_ms / max (config.samples_per_packet * 1000 % 2 ^ 32 / config.sample_rate) 1

module _ {F : Type 0} where
  -- `pending_nacks`
  unfoldable pub pending_nacks : JitterBuffer F → JitterBuffer F × List ℕ
  unfolding retain_missing retain_unplayed
  pending_nacks b =
      let missing = retain_missing b.packets b.nack_list in
      (
        record b { nack_list = [] },
        elim b.last_played_sequence [ none ↦ missing | some last ↦ retain_unplayed last missing ],
      )

  -- the packet that an overfull buffer skips
  unfoldable pub skip_overfull : JitterBuffer F → JitterBuffer F
  unfolding duration_of oldest_seq remove_packet
  skip_overfull b =
      let too_long =
        ltb (b.current_delay_ms * 2) (duration_of b.config (length b.packets))
        && ltb 0 b.current_delay_ms in
      if b.initial_buffering_done && too_long
      then (elim (oldest_seq b.packets) [
        | none ↦ b
        | some seq ↦
            (let packets = remove_packet b.packets seq in
              record b {
                packets = packets;
                stats = record (b.stats) {
                  packets_dropped = b.stats.packets_dropped + 1;
                  buffer_size = length packets;
                };
              })
      ])
      else b

  -- the number to play next; none where nothing was played and nothing is there
  unfoldable pub target_seq : JitterBuffer F → Option ℕ
  unfolding oldest_seq
  target_seq b = elim b.last_played_sequence [
    | some last ↦ some ((last + 1) % 2 ^ 16)
    | none ↦ oldest_seq b.packets
  ]

  -- the packet that clock drift skips: the one after the last that was played
  unfoldable pub skip_next : JitterBuffer F → JitterBuffer F
  unfolding contains_key remove_packet
  skip_next b = elim b.last_played_sequence [
    | none ↦ b
    | some last ↦
        (let skipped = (last + 1) % 2 ^ 16 in
          let packets = remove_packet b.packets skipped in
          let b1 =
            if contains_key b.packets skipped
            then record b {
              packets = packets;
              stats = record (b.stats) {
                packets_dropped = b.stats.packets_dropped + 1;
                buffer_size = length packets;
              };
            }
            else b in
          record b1 { last_played_sequence = some skipped })
  ]

  -- clock drift detection, every 500 pops
  unfoldable pub check_drift : JitterBuffer F → JitterBuffer F
  unfolding skip_next target_packets
  check_drift b =
      let fill = length b.packets in
      let target = target_packets b.config in
      if not (b.drift_check_count % 500 == 0 && ltb 0 b.drift_check_count)
      then b
      else if ltb (target + 2) fill
      then (if leb 3 (b.drift_high_count + 1)
          then skip_next (record b { drift_high_count = 0; drift_low_count = 0 })
          else record b { drift_high_count = b.drift_high_count + 1; drift_low_count = 0 })
      else if ltb fill (target - 2) && ltb 2 target
      then record b {
        drift_low_count = if leb 3 (b.drift_low_count + 1) then 0 else b.drift_low_count + 1;
        drift_high_count = 0;
      }
      else record b { drift_high_count = 0; drift_low_count = 0 }

  -- a missing packet, counted as lost, and the catch-up to the oldest packet where the buffer is more
  -- than half full
  unfoldable pub catch_up : JitterBuffer F → ℕ → JitterBuffer F × Option RtpPacket
  unfolding oldest_seq get_packet remove_packet
  catch_up b target =
      if ltb (b.config.max_packets / 2) (length b.packets)
      then (elim (oldest_seq b.packets) [
        | none ↦ (b, none)
        | some oldest ↦ (elim (get_packet b.packets oldest) [
          | none ↦ (b, none)
          | some buffered ↦
              (let skipped = (oldest + 2 ^ 16 - (target + 1) % 2 ^ 16) % 2 ^ 16 in
                let packets = remove_packet b.packets oldest in
                let lost =
                  if ltb 0 skipped && ltb skipped 0x8000
                  then b.stats.packets_lost + skipped
                  else b.stats.packets_lost in
                (
                  record b {
                    packets = packets;
                    last_played_sequence = some oldest;
                    stats = record (b.stats) { packets_lost = lost; buffer_size = length packets };
                  },
                  some buffered.packet,
                ))
        ])
      ])
      else (b, none)

  unfoldable pub missed : JitterBuffer F → ℕ → JitterBuffer F × Option RtpPacket
  unfolding duration_of catch_up
  missed b target =
      let b1 = record b { consecutive_miss = b.consecutive_miss + 1 } in
      if b.initial_buffering_done
        && (ltb 0 b.config.sample_rate
            && ltb (duration_of b.config (length b.packets)) (b.current_delay_ms / 2))
      then (b, none)
      else if ltb (b.consecutive_miss + 1) b.config.max_wait_before_loss
      then (b1, none)
      else catch_up
          (record b1 {
            consecutive_miss = 0;
            last_played_sequence = some target;
            stats = record (b1.stats) { packets_lost = b1.stats.packets_lost + 1 };
          })
          target

module _ {F : Type 0} (est : Estimator F) where
  -- `adapt_delay`
  unfoldable pub adapt_delay : JitterBuffer F → JitterBuffer F
  unfolding duration_of
  adapt_delay b =
      let buffer_level = duration_of b.config (length b.packets) in
      let target =
        min (max (est.twice b.stats.jitter_ms) b.config.min_delay_ms) b.config.max_delay_ms in
      let hysteresis = max (duration_of b.config 1) 1 in
      let delay =
        if ltb buffer_level (target - hysteresis)
        then min (b.current_delay_ms + 5) b.config.max_delay_ms
        else if ltb (min (target + hysteresis) (2 ^ 32 - 1)) buffer_level
        then max (b.current_delay_ms - 5) b.config.min_delay_ms
        else b.current_delay_ms in
      record b { current_delay_ms = delay; stats = record (b.stats) { buffer_delay_ms = delay } }

  -- the delay is adapted every 250 pops
  unfoldable pub adapt : JitterBuffer F → JitterBuffer F
  unfolding adapt_delay
  adapt b = if leb 250 b.pop_count then adapt_delay (record b { pop_count = 0 }) else b

  -- the target packet is there
  unfoldable pub played : JitterBuffer F → ℕ → JitterBuffer F
  unfolding remove_packet adapt check_drift
  played b target =
      let packets = remove_packet b.packets target in
      check_drift (
        adapt (record b {
          packets = packets;
          last_played_sequence = some target;
          stats = record (b.stats) { buffer_size = length packets };
          consecutive_miss = 0;
        }))

  -- `pop` behind the initial buffering
  unfoldable pub pop_target : JitterBuffer F → JitterBuffer F × Option RtpPacket
  unfolding target_seq get_packet played missed
  pop_target b = elim (target_seq b) [
    | none ↦ (b, none)
    | some target ↦ (elim (get_packet b.packets target) [
      | some buffered ↦ (played b target, some buffered.packet)
      | none ↦ missed b target
    ])
  ]

  -- `pop`; the two counters are `u32`
  unfoldable pub pop : JitterBuffer F → JitterBuffer F × Option RtpPacket
  unfolding skip_overfull pop_target
  pop b =
      if not b.initial_buffering_done && not b.playout_started
      then (b, none)
      else pop_target (
          skip_overfull (record b {
            playout_started = true;
            pop_count = (b.pop_count + 1) % 2 ^ 32;
            drift_check_count = (b.drift_check_count + 1) % 2 ^ 32;
          }))
