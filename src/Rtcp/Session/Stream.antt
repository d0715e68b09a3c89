-- ===== src/Rtcp/Session/Stream.antt =====
-- A stream of packets that `record_rtp_received` of src/rtp/rtcp.rs counts.
use rtp_sip_module.Prelude.{ℕ, ◌+◌, ◌-◌, ◌%◌, ◌^◌, ◌≤◌, ◌<◌, ◌≡◌, true, List, [], ◌∷◌}
use rtp_sip_module.Rtcp.Session.{highest_ext_seq, expected_packets, max_dropout}
use rtp_sip_module.Rtcp.Session.State.{Floats, RtcpSession, follows, record_rtp_received}
use rtp_sip_module.Rtcp.Session.Tracks.{IsAt}

-- a packet of the stream: the time of its arrival, its position, which is its sequence number with the
-- wraps counted, and its timestamp
pub record Arrival : Type 0 where
  pub at : ℕ
  pub position : ℕ
  pub rtp_timestamp : ℕ

abbrev pub last_position : ℕ → List Arrival → ℕ
last_position position [] = position
last_position position (a ∷ arrivals) = last_position a.position arrivals

-- Each packet is at or after the one before, less than 3000 positions on.
abbrev pub Advances : ℕ → List Arrival → Type 0
Advances position [] = Unit
Advances position (a ∷ arrivals) =
    (position ≤ a.position) × (a.position < position + max_dropout) × Advances a.position arrivals

module _ (F : Floats) (ssrc : ℕ) where
  -- The packets arrive one after the other.
  abbrev pub receive_all : RtcpSession F → List Arrival → RtcpSession F
  receive_all s [] = s
  receive_all s (a ∷ arrivals) =
      receive_all (record_rtp_received F s a.at ssrc (a.position % 65536) a.rtp_timestamp) arrivals

  -- The session has counted `n` packets of the stream from `base` to `position`.
  abbrev pub HasCounted : RtcpSession F → ℕ → ℕ → ℕ → Type 0
  HasCounted s base n position =
      (s.highest_ext_seq ≡ position % 2 ^ 32)
      × (s.expected_packets ≡ (position % 2 ^ 32 - base + 1) % 2 ^ 32)
      × (s.tracking.packets_received ≡ n % 2 ^ 32)

  abbrev Counting : RtcpSession F → ℕ → ℕ → ℕ → Type 0
  Counting s base n position =
      (follows s.remote_ssrc ssrc ≡ true)
      × IsAt s.tracking base n position
      × HasCounted s base n position
