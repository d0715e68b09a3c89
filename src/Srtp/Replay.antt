-- ===== src/Srtp/Replay.antt =====
-- The sliding replay windows of src/rtp/srtp.rs. Bit `d` of a window says whether the index
-- `base - d` was received. The code has this once with 128 bits for RTP, once with 64 for RTCP.
pub mod Laws
use rtp_sip_module.Prelude.{
  ℕ, ◌-◌, ◌*◌, ◌%◌, ◌^◌, bit_and, bit_or, Bool, true, false, ltb, leb, ◌==◌, if◌then◌else◌,
}

-- `check_replay` (width 128) and `check_srtcp_replay` (width 64)
unfoldable pub check_replay : ℕ → ℕ → ℕ → ℕ → Bool
check_replay width window base index =
    if ltb base index
    then true
    else let delta = base - index in
      if leb width delta then false else bit_and window (2 ^ delta) == 0

-- the new window of `accept_replay` (width 128) and `accept_srtcp_replay` (width 64)
unfoldable pub accept_window : ℕ → ℕ → ℕ → ℕ → ℕ
accept_window width window base index =
    if ltb base index
    then (let shift = index - base in
        bit_or (if leb width shift then 0 else window * 2 ^ shift % 2 ^ width) 1)
    else let delta = base - index in if ltb delta width then bit_or window (2 ^ delta) else window

-- the new base of the same two methods
unfoldable pub accept_base : ℕ → ℕ → ℕ
accept_base base index = if ltb base index then index else base
