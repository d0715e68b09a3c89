-- ===== src/Nat/Demux.antt =====
-- `demux_packet` of src/nat/demux.rs.
pub mod Laws
pub mod Built
use rtp_sip_module.Prelude.{
  ℕ, ◌+◌, ◌*◌, ◌/◌, ◌%◌, Bool, true, false, ◌&&◌, List, if◌then◌else◌, ltb, leb, ◌==◌, length,
}
use rtp_sip_module.Prelude.Bytes.{byte, u16_at, u32_at}
use rtp_sip_module.Nat.Channel.{is_valid_channel}

-- `MAGIC_COOKIE`
abbrev pub magic_cookie : ℕ
magic_cookie = 0x2112_a442

-- `DemuxResult`
pub data DemuxResult : Type 0 where
  rtp rtcp stun turn_channel_data unknown : List ℕ → DemuxResult
  too_short : DemuxResult

-- the arm for top bits 10 and 11, which does not look at the version. Its last two branches are both RTP, whatever the marker bit.
unfoldable pub demux_media : List ℕ → DemuxResult
demux_media bytes =
    let byte1 = byte bytes 1 in
    let rtcp_len_field = u16_at bytes 2 in
    if leb 200 byte1 && leb byte1 211
    then (if leb ((rtcp_len_field + 1) * 4) (length bytes) && ltb 0 rtcp_len_field
        then rtcp bytes
        else rtp bytes)
    else rtp bytes

-- `demux_packet`; a byte shifted right by six is at most 3
unfoldable pub demux_packet : List ℕ → DemuxResult
demux_packet bytes =
    let top_bits = byte bytes 0 / 64 in
    if ltb (length bytes) 4
    then too_short
    else if top_bits == 0
    then (if leb 8 (length bytes) && (u32_at bytes 4 == magic_cookie)
        then stun bytes
        else unknown bytes)
    else if top_bits == 1
    then (if is_valid_channel (u16_at bytes 0) then turn_channel_data bytes else unknown bytes)
    else demux_media bytes
