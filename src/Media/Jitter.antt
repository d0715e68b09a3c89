-- ===== src/Media/Jitter.antt =====
-- The adaptive jitter buffer, src/rtp/jitter.rs. A `BTreeMap` is a list of its entries in ascending order
-- of the keys, and an `Instant` a number of nanoseconds. The configuration's sample rate is not zero, as
-- `push` and `adapt_delay` divide by it; counters of 64 bits do not reach their end.
pub mod Push
pub mod Pop
pub mod Window
pub mod Branches
pub mod Order
pub mod Playback
pub mod Account
use rtp_sip_module.Prelude.{
  ℕ, ◌+◌, ◌-◌, ◌*◌, ◌/◌, ◌%◌, ◌^◌, Bool, true, false, not, ◌&&◌, ◌||◌, Option, none, some, List, [],
  ◌∷◌, if◌then◌else◌, ltb, leb, ◌==◌, length, min, max,
}
use rtp_sip_module.Media.Packet.{RtpPacket}

-- `JitterConfig`
pub record JitterConfig : Type 0 where
  pub min_delay_ms : ℕ
  pub max_delay_ms : ℕ
  pub target_delay_ms : ℕ
  pub max_packets : ℕ
  pub sample_rate : ℕ
  pub samples_per_packet : ℕ
  pub nack_enabled : Bool
  pub max_wait_before_loss : ℕ

-- `JitterConfig::default`
unfoldable pub default_config : JitterConfig
default_config = record {
  min_delay_ms = 20;
  max_delay_ms = 200;
  target_delay_ms = 60;
  max_packets = 50;
  sample_rate = 8000;
  samples_per_packet = 160;
  nack_enabled = false;
  max_wait_before_loss = 2;
}

-- The arithmetic on `f64` that the buffer makes: the start, `j += (d - j) / 16.0` for a difference `d` in
-- milliseconds, and `(j * 2.0) as u32`.
pub record Estimator (F : Type 0) : Type 0 where
  pub start : F
  pub smooth : F → ℕ → F
  pub twice : F → ℕ

-- `JitterStats`
pub record JitterStats (F : Type 0) : Type 0 where
  pub packets_received : ℕ
  pub packets_lost : ℕ
  pub packets_dropped : ℕ
  pub packets_reordered : ℕ
  pub packets_duplicated : ℕ
  pub jitter_ms : F
  pub buffer_delay_ms : ℕ
  pub buffer_size : ℕ
  pub nack_requests : ℕ
  pub nack_recovered : ℕ

-- `BufferedPacket`
pub record BufferedPacket : Type 0 where
  pub packet : RtpPacket
  pub arrival_time : ℕ

abbrev pub Packets : Type 0
Packets = List (ℕ × BufferedPacket)

-- `JitterBuffer`
pub record JitterBuffer (F : Type 0) : Type 0 where
  pub config : JitterConfig
  pub packets : Packets
  pub next_sequence : Option ℕ
  pub last_played_sequence : Option ℕ
  pub stats : JitterStats F
  pub jitter_estimate : F
  pub last_arrival : Option ℕ
  pub last_timestamp : Option ℕ
  pub current_delay_ms : ℕ
  pub playout_started : Bool
  pub initial_buffering_done : Bool
  pub nack_list : List ℕ
  pub consecutive_miss : ℕ
  pub pop_count : ℕ
  pub drift_high_count : ℕ
  pub drift_low_count : ℕ
  pub drift_check_count : ℕ

-- `sequence_before` and `sequence_after`; `wrapping_sub` on 16 bits
unfoldable pub sequence_before : ℕ → ℕ → Bool
sequence_before a b = let diff = (b + 2 ^ 16 - a) % 2 ^ 16 in ltb 0 diff && ltb diff 0x8000

unfoldable pub sequence_after : ℕ → ℕ → Bool
unfolding sequence_before
sequence_after a b = sequence_before b a

-- the map's `get`, `contains_key`, `insert` and `remove`; a key stands in it once
unfoldable pub get_packet : Packets → ℕ → Option BufferedPacket
get_packet [] seq = none
get_packet ((k, p) ∷ packets) seq = if k == seq then some p else get_packet packets seq

unfoldable pub contains_key : Packets → ℕ → Bool
contains_key [] seq = false
contains_key ((k, p) ∷ packets) seq = if k == seq then true else contains_key packets seq

unfoldable pub insert_packet : Packets → ℕ → BufferedPacket → Packets
insert_packet [] seq p = (seq, p) ∷ []
insert_packet ((k, q) ∷ packets) seq p =
    let rest = insert_packet packets seq p in
    if ltb seq k
    then (seq, p) ∷ (k, q) ∷ packets
    else if k == seq
    then (seq, p) ∷ packets
    else (k, q) ∷ rest

unfoldable pub remove_packet : Packets → ℕ → Packets
remove_packet [] seq = []
remove_packet ((k, q) ∷ packets) seq =
    let rest = remove_packet packets seq in if k == seq then rest else (k, q) ∷ rest

-- `for &k in keys { if sequence_before(k, oldest) { oldest = k } }`
unfoldable pub oldest_from : ℕ → Packets → ℕ
unfolding sequence_before
oldest_from oldest [] = oldest
oldest_from oldest ((k, p) ∷ packets) =
    oldest_from (if sequence_before k oldest then k else oldest) packets

unfoldable pub oldest_seq : Packets → Option ℕ
unfolding oldest_from
oldest_seq [] = none
oldest_seq ((k, p) ∷ packets) = some (oldest_from k packets)

-- the duration of `n` packets in milliseconds, `as u32`
unfoldable pub duration_of : JitterConfig → ℕ → ℕ
duration_of config n = n * config.samples_per_packet * 1000 / config.sample_rate % 2 ^ 32

module _ {F : Type 0} (est : Estimator F) where
  -- `JitterStats::default`
  unfoldable pub default_stats : JitterStats F
  default_stats = record {
    packets_received = 0;
    packets_lost = 0;
    packets_dropped = 0;
    packets_reordered = 0;
    packets_duplicated = 0;
    jitter_ms = est.start;
    buffer_delay_ms = 0;
    buffer_size = 0;
    nack_requests = 0;
    nack_recovered = 0;
  }

  -- `with_config`
  unfoldable pub with_config : JitterConfig → JitterBuffer F
  unfolding default_stats
  with_config config = record {
    config = config;
    packets = [];
    next_sequence = none;
    last_played_sequence = none;
    stats = default_stats;
    jitter_estimate = est.start;
    last_arrival = none;
    last_timestamp = none;
    current_delay_ms = config.target_delay_ms;
    playout_started = false;
    initial_buffering_done = false;
    nack_list = [];
    consecutive_miss = 0;
    pop_count = 0;
    drift_high_count = 0;
    drift_low_count = 0;
    drift_check_count = 0;
  }

  -- `reset`, which sets every field as `with_config` does
  unfoldable pub reset : JitterBuffer F → JitterBuffer F
  unfolding with_config
  reset b = with_config b.config

module _ {F : Type 0} where
  -- `stats`, `is_ready`, `contains_seq`, `reset_initial_buffering`
  unfoldable pub stats : JitterBuffer F → JitterStats F
  stats b = record (b.stats) { buffer_delay_ms = b.current_delay_ms }

  unfoldable pub is_ready : JitterBuffer F → Bool
  is_ready b = b.initial_buffering_done || b.playout_started

  unfoldable pub contains_seq : JitterBuffer F → ℕ → Bool
  unfolding contains_key
  contains_seq b seq = contains_key b.packets seq

  unfoldable pub reset_initial_buffering : JitterBuffer F → JitterBuffer F
  reset_initial_buffering b = record b {
    initial_buffering_done = false;
    packets = [];
    stats = record (b.stats) { buffer_size = 0 };
    last_played_sequence = none;
    next_sequence = none;
  }
