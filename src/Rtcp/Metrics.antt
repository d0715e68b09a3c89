-- ===== src/Rtcp/Metrics.antt =====
-- `VoipMetrics` of src/rtp/rtcp.rs on the wire; `write_to` returns the bytes that it stores from the start of its
-- buffer.
use rtp_sip_module.Prelude.{ℕ, Option, none, some, List, ◌∷◌, ◌++◌, if◌then◌else◌, ltb, length}
use rtp_sip_module.Prelude.Bytes.{byte, u16_at, be16}
use rtp_sip_module.Rtcp.{VoipMetrics}

unfoldable pub write_to : VoipMetrics → List ℕ
write_to m =
    m.loss_rate ∷ m.discard_rate ∷ m.burst_density ∷ m.gap_density ∷ be16 m.burst_duration
    ++ be16 m.gap_duration
    ++ be16 m.round_trip_delay
    ++ be16 m.end_system_delay
    ++ m.signal_level
      ∷ m.noise_level
      ∷ m.rerl
      ∷ m.gmin
      ∷ m.r_factor
      ∷ m.ext_r_factor
      ∷ m.mos_lq
      ∷ m.mos_cq
      ∷ m.rx_config
      ∷ 0
      ∷ be16 m.jb_nominal
    ++ be16 m.jb_maximum
    ++ be16 m.jb_abs_max

-- the fields once the length is enough; the test of `jb_abs_max` repeats it
unfoldable pub fields : List ℕ → VoipMetrics
unfolding u16_at
fields buf = record {
  loss_rate = byte buf 0;
  discard_rate = byte buf 1;
  burst_density = byte buf 2;
  gap_density = byte buf 3;
  burst_duration = u16_at buf 4;
  gap_duration = u16_at buf 6;
  round_trip_delay = u16_at buf 8;
  end_system_delay = u16_at buf 10;
  signal_level = byte buf 12;
  noise_level = byte buf 13;
  rerl = byte buf 14;
  gmin = byte buf 15;
  r_factor = byte buf 16;
  ext_r_factor = byte buf 17;
  mos_lq = byte buf 18;
  mos_cq = byte buf 19;
  rx_config = byte buf 20;
  jb_nominal = u16_at buf 22;
  jb_maximum = u16_at buf 24;
  jb_abs_max = u16_at buf 26;
}

unfoldable pub parse : List ℕ → Option VoipMetrics
unfolding fields
parse buf = if ltb (length buf) 28 then none else some (fields buf)
