-- ===== src/Nat/Demux/Laws.antt =====
-- The packets that `demux_packet` of src/nat/demux.rs takes for one kind.
use rtp_sip_module.Prelude.{
  ℕ, ◌+◌, ◌*◌, ◌/◌, ◌%◌, ◌≤◌, ◌<◌, ◌≡◌, sym, ap, ◌∙◌, ◌⊎◌, ◌↔◌, true, List, ◌++◌, length,
  length-append, arith,
}
use rtp_sip_module.Prelude.Bytes.{byte, u16_at, u32_at, be16}
use rtp_sip_module.Nat.Channel.{is_valid_channel, build_channel_data}
use rtp_sip_module.Nat.Channel.Laws.{pad_extends, is_valid_channel-range}
use rtp_sip_module.Nat.Demux.{DemuxResult, demux_media, demux_packet, magic_cookie}

-- A packet is taken for STUN exactly when it has eight bytes, its two top bits are zero, and the magic
-- cookie stands at its fourth byte.
pub demux_packet_stun_iff :
    (bytes : List ℕ)
    → (demux_packet bytes ≡ DemuxResult.stun bytes)
      ↔ ((8 ≤ length bytes) × (byte bytes 0 < 64) × (u32_at bytes 4 ≡ magic_cookie))
unfolding demux_packet demux_media
demux_packet_stun_iff bytes = ground arith

-- A packet is taken for RTCP exactly when its first byte has the top bit set, its second one is from 200
-- to 211, and its length field is not zero and stays within the bytes.
pub demux_packet_rtcp_iff :
    (bytes : List ℕ)
    → (demux_packet bytes ≡ DemuxResult.rtcp bytes) ↔ (
        (4 ≤ length bytes)
        × (128 ≤ byte bytes 0)
        × (200 ≤ byte bytes 1)
        × (byte bytes 1 ≤ 211)
        × (0 < u16_at bytes 2)
        × ((u16_at bytes 2 + 1) * 4 ≤ length bytes))
unfolding demux_packet demux_media
demux_packet_rtcp_iff bytes = ground arith

-- A packet is taken for RTP exactly when it has four bytes, its first one has the top bit set, and it
-- does not have the packet type, or not the length field, of an RTCP packet.
pub demux_packet_rtp_iff :
    (bytes : List ℕ)
    → (demux_packet bytes ≡ DemuxResult.rtp bytes) ↔ (
        (4 ≤ length bytes)
        × (128 ≤ byte bytes 0)
        × ((byte bytes 1 < 200)
            ⊎ (211 < byte bytes 1)
            ⊎ (u16_at bytes 2 ≡ 0)
            ⊎ (length bytes < (u16_at bytes 2 + 1) * 4)))
unfolding demux_packet demux_media
demux_packet_rtp_iff bytes = ground arith

channel_bytes :
    (bytes : List ℕ)
    → is_valid_channel (u16_at bytes 0) ≡ true
    → byte bytes 1 < 256
    → 4 ≤ length bytes
    → demux_packet bytes ≡ DemuxResult.turn_channel_data bytes
unfolding demux_packet is_valid_channel u16_at
channel_bytes bytes v b h = ground arith

channel_value : (c : ℕ) → c ≤ 0x7ffe → c / 256 % 256 * 256 + c % 256 ≡ c
channel_value c h = omega arith

channel_header :
    (c : ℕ) (bytes : List ℕ)
    → is_valid_channel c ≡ true
    → 2 ≤ length bytes
    → demux_packet (be16 c ++ bytes) ≡ DemuxResult.turn_channel_data (be16 c ++ bytes)
unfolding u16_at
channel_header c bytes v h =
    channel_bytes (be16 c ++ bytes)
      (ap is_valid_channel (channel_value c (is_valid_channel-range c v).1) ∙ v) (omega arith)
      (omega arith)

-- What `build_channel_data` builds for a valid channel is demultiplexed as TURN ChannelData, and not
-- as STUN, RTP or RTCP, whatever the payload.
pub demux_packet-build_channel_data :
    (channel : ℕ) (payload : List ℕ)
    → is_valid_channel channel ≡ true
    → demux_packet (build_channel_data channel payload)
      ≡ DemuxResult.turn_channel_data (build_channel_data channel payload)
unfolding build_channel_data
demux_packet-build_channel_data channel payload v =
    let body = be16 (length payload) ++ payload in
    let (zeros, e) = pad_extends 3 (be16 channel ++ body) in
    ap demux_packet e
    ∙ channel_header channel (body ++ zeros) v (omega (arith, length-append {0} body zeros))
    ∙ ap DemuxResult.turn_channel_data (sym e)
