-- ===== src/Nat/Channel.antt =====
-- The framing of TURN ChannelData, src/nat/turn/message.rs.
pub mod Laws
use rtp_sip_module.Prelude.{
  ℕ, zero, suc, ◌+◌, ◌-◌, ◌*◌, ◌/◌, ◌%◌, ◌^◌, ◌≤◌, ◌<◌, ◌≡◌, refl, sym, ap, ◌∙◌, Bool, true, false,
  ◌&&◌, Option, none, some, List, [], ◌∷◌, ◌++◌, if◌then◌else◌, ltb, leb, ◌==◌, length, take, drop,
  length-append, arith, Bool-cases,
}
use rtp_sip_module.Prelude.Bytes.{u16_at, be16}

-- `is_valid_channel`
unfoldable pub is_valid_channel : ℕ → Bool
is_valid_channel channel = leb 0x4000 channel && leb channel 0x7ffe

-- `parse_channel_data`; the header has four bytes
unfoldable pub parse_channel_data : List ℕ → Option (ℕ × List ℕ)
parse_channel_data bytes =
    let channel = u16_at bytes 0 in
    let len = u16_at bytes 2 in
    if ltb (length bytes) 4
    then none
    else if is_valid_channel channel
    then (if ltb (length bytes) (4 + len) then none else some (channel, take len (drop 4 bytes)))
    else none

-- `while buf.len() % 4 != 0 { buf.push(0) }`, on fuel
unfoldable pub pad : ℕ → List ℕ → List ℕ
pad zero buf = buf
pad (suc fuel) buf =
    let rest = pad fuel (buf ++ (0 ∷ [])) in if length buf % 4 == 0 then buf else rest

-- `build_channel_data`; `len() as u16` keeps the low two bytes, as `be16` does
unfoldable pub build_channel_data : ℕ → List ℕ → List ℕ
build_channel_data channel payload = pad 3 (be16 channel ++ (be16 (length payload) ++ payload))
