-- ===== src/Srtp/Rollover.antt =====
-- The receiver's rollover counter (RFC 3711, 3.3.1). A `u16` and a `u32` are numbers below 2^16 and
-- 2^32.
pub mod Laws
use rtp_sip_module.Prelude.{ℕ, ◌+◌, ◌-◌, ◌*◌, ◌%◌, ◌^◌, Bool, true, false, if◌then◌else◌, ltb}
use rtp_sip_module.Srtp.Context.{SrtpContext}

-- `SrtpContext::estimate_roc`
unfoldable pub estimate_roc : SrtpContext → ℕ → ℕ
estimate_roc c seq =
    if initialized
    then (if ltb s_l seq
        then (if ltb 0x8000 (seq - s_l) then (roc + (2 ^ 32 - 1)) % 2 ^ 32 else roc)
        else if ltb seq s_l
        then (if ltb 0x8000 (s_l - seq) then (roc + 1) % 2 ^ 32 else roc)
        else roc)
    else 0
  where
    open c use {initialized, roc, s_l}

-- `((roc as u64) << 16) | (seq as u64)`: the fields do not overlap, so `|` is a sum.
abbrev pub packet_index : ℕ → ℕ → ℕ
packet_index roc seq = roc * 2 ^ 16 + seq

-- `SrtpContext::update_roc_recv`
unfoldable pub update_roc_recv : SrtpContext → ℕ → ℕ → SrtpContext
update_roc_recv c seq estimated_roc =
    if c.initialized
    then (if ltb (packet_index c.roc c.s_l) (packet_index estimated_roc seq)
        then record c { roc = estimated_roc; s_l = seq }
        else c)
    else record c { s_l = seq; roc = estimated_roc; initialized = true }
