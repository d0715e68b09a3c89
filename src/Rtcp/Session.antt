-- ===== src/Rtcp/Session.antt =====
-- The counters of `RtcpSession`, src/rtp/rtcp.rs: the sequence numbers and the losses of a stream. Counters wrap
-- around, as they do in a release build.
pub mod State
pub mod Incoming
pub mod Report
pub mod Tracks
pub mod Stream
pub mod Losses
use rtp_sip_module.Prelude.{
  ℕ, zero, suc, ◌+◌, ◌-◌, ◌*◌, ◌/◌, ◌%◌, ◌^◌, Bool, true, false, not, ◌&&◌, ◌||◌, Option, none,
  some, List, [], ◌∷◌, ◌++◌, if◌then◌else◌, ltb, leb, ◌==◌, length, take, replicate, get_or, min,
}

-- the receiver's sequence numbers, the first fields of the receiver state
pub record Tracking : Type 0 where
  pub packets_received : ℕ
  pub seq_cycles : ℕ
  pub highest_seq : ℕ
  pub first_packet_received : Bool
  pub base_seq : ℕ
  pub last_rr_packets_received : ℕ
  pub last_rr_expected_packets : ℕ

-- the loss tracking; the window has the most recent packet first
pub record LossTracking : Type 0 where
  pub loss_window : List Bool
  pub loss_window_len : ℕ
  pub burst_density : ℕ
  pub gap_density : ℕ

abbrev pub max_dropout : ℕ
max_dropout = 3000

abbrev pub max_misorder : ℕ
max_misorder = 100

-- `a.wrapping_sub(b)` on `u16`
abbrev pub wrapping_sub16 : ℕ → ℕ → ℕ
wrapping_sub16 a b = (a + 65536 - b) % 65536

-- the numbers after a reset and before the first packet
unfoldable pub fresh_tracking : Tracking
fresh_tracking = record {
  packets_received = 0;
  seq_cycles = 0;
  highest_seq = 0;
  first_packet_received = false;
  base_seq = 0;
  last_rr_packets_received = 0;
  last_rr_expected_packets = 0;
}

-- the sequence numbers of `record_rtp_received`, from the count of the packet on
unfoldable pub track : Tracking → ℕ → Tracking
track t seq =
    let received : ℕ = (t.packets_received + 1) % 2 ^ 32 in
    let udelta : ℕ = wrapping_sub16 seq t.highest_seq in
    if not t.first_packet_received
    then record t {
      packets_received = received;
      base_seq = seq;
      highest_seq = seq;
      seq_cycles = 0;
      first_packet_received = true;
    }
    else if ltb udelta max_dropout
    then record t {
      packets_received = received;
      seq_cycles = if ltb seq t.highest_seq then (t.seq_cycles + 1) % 2 ^ 64 else t.seq_cycles;
      highest_seq = seq;
    }
    else if leb udelta (wrapping_sub16 65535 max_misorder)
    then record t {
      packets_received = 1;
      base_seq = seq;
      highest_seq = seq;
      seq_cycles = 0;
      last_rr_packets_received = 0;
      last_rr_expected_packets = 0;
    }
    else record t { packets_received = received }

-- `highest_ext_seq`: the low half holds a `u16`
unfoldable pub highest_ext_seq : Tracking → ℕ
highest_ext_seq t = t.seq_cycles % 2 ^ 32 * 65536 % 2 ^ 32 + t.highest_seq

-- `expected_packets`
unfoldable pub expected_packets : Tracking → ℕ
unfolding highest_ext_seq
expected_packets t = (highest_ext_seq t - t.base_seq + 1) % 2 ^ 32

-- the loop of `compute_burst_gap_density`: the counts of the packets of the window
pub record Densities : Type 0 where
  pub burst_lost : ℕ
  pub burst_total : ℕ
  pub gap_lost : ℕ
  pub gap_total : ℕ
  pub in_burst : Bool

-- the next packet of the window is lost
unfoldable pub next_lost : List Bool → Bool
next_lost [] = false
next_lost (received ∷ rest) = not received

unfoldable pub scan_window : Densities → List Bool → Densities
unfolding next_lost
scan_window d [] = d
scan_window d (false ∷ rest) =
    scan_window
      (record d { in_burst = true; burst_lost = d.burst_lost + 1; burst_total = d.burst_total + 1 })
      rest
scan_window d (true ∷ rest) =
    scan_window
      (if d.in_burst
        then (if next_lost rest
            then record d { burst_total = d.burst_total + 1 }
            else record d { in_burst = false; gap_total = d.gap_total + 1 })
        else record d { gap_total = d.gap_total + 1 })
      rest

-- a share in 256ths, at most 255
unfoldable pub density : ℕ → ℕ → ℕ
density lost total = if ltb 0 total then min (lost * 256 / total) 255 else 0

-- `compute_burst_gap_density`
unfoldable pub compute_burst_gap_density : LossTracking → LossTracking
unfolding scan_window density
compute_burst_gap_density l =
    if ltb l.loss_window_len 2
    then record l { burst_density = 0; gap_density = 0 }
    else (let start : Densities = record {
      burst_lost = 0;
      burst_total = 0;
      gap_lost = 0;
      gap_total = 0;
      in_burst = false;
    } in
        let d : Densities = scan_window start (take l.loss_window_len l.loss_window) in
        record l {
          burst_density = density d.burst_lost d.burst_total;
          gap_density = density d.gap_lost d.gap_total;
        })

-- `record_loss_event`
unfoldable pub record_loss_event : LossTracking → Bool → LossTracking
unfolding compute_burst_gap_density
record_loss_event l received = compute_burst_gap_density (record l {
  loss_window = received ∷ take 255 l.loss_window;
  loss_window_len = if ltb l.loss_window_len 256 then l.loss_window_len + 1 else l.loss_window_len;
})

-- `for _ in 0..gap { record_loss_event(false) }`
unfoldable pub record_lost : ℕ → LossTracking → LossTracking
unfolding record_loss_event
record_lost zero l = l
record_lost (suc gap) l = record_lost gap (record_loss_event l false)

-- the loss events of `record_rtp_received`, of the sequence numbers before it
unfoldable pub detect_gap : Tracking → LossTracking → ℕ → LossTracking
unfolding record_lost record_loss_event
detect_gap before l seq =
    let expected_seq : ℕ = (before.highest_seq + 1) % 65536 in
    let gap : ℕ = wrapping_sub16 seq expected_seq in
    if not before.first_packet_received
    then l
    else if seq == expected_seq
    then record_loss_event l true
    else if ltb 0 gap && ltb gap max_dropout
    then record_loss_event (record_lost gap l) true
    else record_loss_event l true
