-- ===== src/Rtcp/Session/Losses.antt =====
-- The loss figures of `RtcpSession`, src/rtp/rtcp.rs.
use rtp_sip_module.Prelude.{
  ℕ, ◌+◌, ◌%◌, ◌≡◌, refl, ap, ◌∙◌, Bool, true, false, some, List, [], ◌∷◌, arith, if◌then◌else◌,
  ltb, ◌==◌, take, not, ◌&&◌,
}
use rtp_sip_module.Rtcp.Session.{
  Tracking, LossTracking, Densities, scan_window, next_lost, density, compute_burst_gap_density,
  record_loss_event, record_lost, detect_gap, wrapping_sub16, max_dropout, fresh_tracking,
}
use rtp_sip_module.Rtcp.Session.State.{
  Floats, RtcpSession, follows, record_rtp_received, count_packet, reset_receiver,
}
use rtp_sip_module.Rtcp.Session.Report.{Quality, xr_metrics}

-- The scan of the window never counts a loss in a gap.
scan_window-gap_lost :
    (window : List Bool) (d : Densities) → (scan_window d window).gap_lost ≡ d.gap_lost
unfolding scan_window
scan_window-gap_lost [] d = refl
scan_window-gap_lost (false ∷ rest) d =
    scan_window-gap_lost rest
      (record d { in_burst = true; burst_lost = d.burst_lost + 1; burst_total = d.burst_total + 1 })
scan_window-gap_lost (true ∷ rest) d =
    scan_window-gap_lost rest after ∙ same d.in_burst (next_lost rest)
  where
    after : Densities
    after =
        if d.in_burst
        then (if next_lost rest
            then record d { burst_total = d.burst_total + 1 }
            else record d { in_burst = false; gap_total = d.gap_total + 1 })
        else record d { gap_total = d.gap_total + 1 }

    same :
        (b c : Bool)
        → (if b
            then (if c
                then record d { burst_total = d.burst_total + 1 }
                else record d { in_burst = false; gap_total = d.gap_total + 1 })
            else record d { gap_total = d.gap_total + 1 }).gap_lost
          ≡ d.gap_lost
    same true true = refl
    same true false = refl
    same false c = refl

density-zero : (total : ℕ) → density 0 total ≡ 0
unfolding density
density-zero total = ground arith

gap_density-compute : (l : LossTracking) → (compute_burst_gap_density l).gap_density ≡ 0
unfolding compute_burst_gap_density
gap_density-compute l = of_length (ltb l.loss_window_len 2)
  where
    start : Densities
    start = record {
      burst_lost = 0;
      burst_total = 0;
      gap_lost = 0;
      gap_total = 0;
      in_burst = false;
    }

    scanned : Densities
    scanned = scan_window start (take l.loss_window_len l.loss_window)

    of_length :
        (short : Bool)
        → (if short then record l { burst_density = 0; gap_density = 0 } else record l {
          burst_density = density scanned.burst_lost scanned.burst_total;
          gap_density = density scanned.gap_lost scanned.gap_total;
        }).gap_density
          ≡ 0
    of_length true = refl
    of_length false =
        ap (λ n. density n scanned.gap_total)
          (scan_window-gap_lost (take l.loss_window_len l.loss_window) start)
        ∙ density-zero scanned.gap_total

gap_density-event :
    (l : LossTracking) (received : Bool) → (record_loss_event l received).gap_density ≡ 0
unfolding record_loss_event
gap_density-event l received = gap_density-compute (record l {
  loss_window = received ∷ take 255 l.loss_window;
  loss_window_len = if ltb l.loss_window_len 256 then l.loss_window_len + 1 else l.loss_window_len;
})

gap_density-detect :
    (t : Tracking) (l : LossTracking) (seq : ℕ)
    → l.gap_density ≡ 0
    → (detect_gap t l seq).gap_density ≡ 0
unfolding detect_gap
gap_density-detect t l seq h =
    of_tests t.first_packet_received (seq == (t.highest_seq + 1) % 65536)
      (ltb 0 gap && ltb gap max_dropout)
  where
    gap : ℕ
    gap = wrapping_sub16 seq ((t.highest_seq + 1) % 65536)

    of_tests :
        (a b c : Bool)
        → (if not a
            then l
            else if b
            then record_loss_event l true
            else if c
            then record_loss_event (record_lost gap l) true
            else record_loss_event l true).gap_density
          ≡ 0
    of_tests false b c = h
    of_tests true true c = gap_density-event l true
    of_tests true false true = gap_density-event (record_lost gap l) true
    of_tests true false false = gap_density-event l true

-- a packet from the network: its arrival, its source, its number and its timestamp
pub record Packet : Type 0 where
  pub at : ℕ
  pub ssrc : ℕ
  pub seq : ℕ
  pub rtp_timestamp : ℕ

module _ (F : Floats) where
  -- Any packets arrive, one after the other.
  abbrev pub receive_packets : RtcpSession F → List Packet → RtcpSession F
  receive_packets s [] = s
  receive_packets s (p ∷ packets) =
      receive_packets (record_rtp_received F s p.at p.ssrc p.seq p.rtp_timestamp) packets

  gap_density-received :
      (s : RtcpSession F) (now ssrc seq ts : ℕ)
      → s.loss.gap_density ≡ 0
      → (record_rtp_received F s now ssrc seq ts).loss.gap_density ≡ 0
  unfolding record_rtp_received count_packet reset_receiver
  gap_density-received s now ssrc seq ts h = of_source (follows s.remote_ssrc ssrc)
    where
      of_source :
          (b : Bool)
          → (count_packet F
              (if b then record s { remote_ssrc = some ssrc } else reset_receiver F s ssrc)
              now
              seq
              ts).loss.gap_density
            ≡ 0
      of_source true = gap_density-detect s.tracking s.loss seq h
      of_source false = gap_density-detect fresh_tracking s.loss seq h

  -- Whatever packets arrive, the metrics of the extended report give a gap density of 0: no loss is ever
  -- counted outside a burst.
  pub gap_density-xr_metrics :
      (s : RtcpSession F) (packets : List Packet) (q : Quality)
      → s.loss.gap_density ≡ 0
      → (xr_metrics F (receive_packets s packets) q).gap_density ≡ 0
  unfolding xr_metrics
  gap_density-xr_metrics s [] q h = h
  gap_density-xr_metrics s (p ∷ packets) q h =
      gap_density-xr_metrics (record_rtp_received F s p.at p.ssrc p.seq p.rtp_timestamp) packets q
        (gap_density-received s p.at p.ssrc p.seq p.rtp_timestamp h)
