-- ===== src/Media/Packet.antt =====
-- `RtpPacketBuilder` of src/rtp/packet.rs. The crate `rtp` has the wire format; the builder fills in
-- its header.
pub mod Numbering
use rtp_sip_module.Prelude.{
  ℕ, zero, suc, ◌+◌, ◌*◌, ◌%◌, ◌^◌, ◌≤◌, ◌<◌, ◌≡◌, refl, ◌⊎◌, Bool, true, false, Option, none, some,
  List, [], ◌∷◌, if◌then◌else◌, ltb, ◌==◌, length, get_elem?, map, arith,
}
use rtp_sip_module.Prelude.Bytes.{byte}

-- the fields of `rtp::header::Header` that vary; the builder sets version 2 and no padding,
-- extension or CSRC
pub record RtpPacket : Type 0 where
  pub marker : Bool
  pub payload_type : ℕ
  pub sequence_number : ℕ
  pub timestamp : ℕ
  pub ssrc : ℕ
  pub payload : List ℕ

-- `RtpPacketBuilder`
pub record RtpPacketBuilder : Type 0 where
  pub payload_type : ℕ
  pub ssrc : ℕ
  pub sequence : ℕ
  pub timestamp : ℕ

-- `RtpPacketBuilder::with_initial`
unfoldable pub with_initial : ℕ → ℕ → ℕ → ℕ → RtpPacketBuilder
with_initial payload_type ssrc initial_sequence initial_timestamp = record {
  payload_type = payload_type;
  ssrc = ssrc;
  sequence = initial_sequence;
  timestamp = initial_timestamp;
}

-- `build_with_marker`; `none` is the panic of its assertion
unfoldable pub build_with_marker :
    RtpPacketBuilder → List ℕ → ℕ → Bool → Option (RtpPacketBuilder × RtpPacket)
build_with_marker b payload samples marker =
    if ltb 0 samples
    then some (
      record b {
        sequence = (b.sequence + 1) % 2 ^ 16;
        timestamp = (b.timestamp + samples) % 2 ^ 32;
      },
      record {
        marker = marker;
        payload_type = b.payload_type;
        sequence_number = b.sequence;
        timestamp = b.timestamp;
        ssrc = b.ssrc;
        payload = payload;
      },
    )
    else none

-- `build`
unfoldable pub build : RtpPacketBuilder → List ℕ → ℕ → Option (RtpPacketBuilder × RtpPacket)
unfolding build_with_marker
build b payload samples = build_with_marker b payload samples false

-- `next_sequence` and `set_sequence`, with which DTMF packets share the numbers
unfoldable pub next_sequence : RtpPacketBuilder → RtpPacketBuilder × ℕ
next_sequence b = (record b { sequence = (b.sequence + 1) % 2 ^ 16 }, b.sequence)

unfoldable pub set_sequence : RtpPacketBuilder → ℕ → RtpPacketBuilder
set_sequence b seq = record b { sequence = seq }

-- What a sender asks of the builder: the arguments of one `build_with_marker`.
pub record Frame : Type 0 where
  pub payload : List ℕ
  pub samples : ℕ
  pub marker : Bool

-- The packets of a run of frames, one `build_with_marker` each.
unfoldable pub build_all :
    RtpPacketBuilder → List Frame → Option (RtpPacketBuilder × List RtpPacket)
build_all b [] = some (b, [])
build_all b (f ∷ frames) = elim (build_with_marker b f.payload f.samples f.marker) [
  | none ↦ none
  | some (b', packet) ↦ elim (build_all b' frames) [
    | none ↦ none
    | some (b'', packets) ↦ some (b'', packet ∷ packets)
  ]
]
