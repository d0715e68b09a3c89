-- ===== src/Srtp/Rollover/Laws.antt =====
-- The estimate and the update of the receiver's rollover counter, src/rtp/srtp.rs.
use rtp_sip_module.Prelude.{ℕ, ◌+◌, ◌^◌, ◌<◌, max, ◌≡◌, true, arith}
use rtp_sip_module.Srtp.Context.{SrtpContext}
use rtp_sip_module.Srtp.Rollover.{estimate_roc, packet_index, update_roc_recv}

pub record InRange (c : SrtpContext) : Type 0 where
  pub roc_in : c.roc < 2 ^ 32
  pub s_l_in : c.s_l < 2 ^ 16

-- In an initialized context in range, a packet whose true index lies fewer than 2^15 from the newest one
-- gets its true rollover count.
pub estimate_roc_exact :
    (c : SrtpContext) (roc seq : ℕ)
    → InRange c
    → c.initialized ≡ true
    → roc < 2 ^ 32
    → seq < 2 ^ 16
    → packet_index roc seq < packet_index c.roc c.s_l + 2 ^ 15
    → packet_index c.roc c.s_l < packet_index roc seq + 2 ^ 15
    → estimate_roc c seq ≡ roc
unfolding estimate_roc
estimate_roc_exact c roc seq v i hr hs near_above near_below = ground arith

-- An estimate is a `u32`.
pub estimate_roc-lt : (c : SrtpContext) (seq : ℕ) → InRange c → estimate_roc c seq < 2 ^ 32
unfolding estimate_roc
estimate_roc-lt c seq v = ground arith

-- After a packet of the estimated index, a packet of the same number gets the same estimate.
pub estimate_roc_stable :
    (c : SrtpContext) (seq : ℕ)
    → InRange c
    → seq < 2 ^ 16
    → estimate_roc (update_roc_recv c seq (estimate_roc c seq)) seq ≡ estimate_roc c seq
unfolding estimate_roc update_roc_recv
estimate_roc_stable c seq v h = ground arith

-- In an initialized context, the state keeps the larger index of its own and the packet's.
pub update_roc_recv_newest :
    (c : SrtpContext) (seq roc : ℕ)
    → c.initialized ≡ true
    → let c' = update_roc_recv c seq roc in
      packet_index c'.roc c'.s_l ≡ max (packet_index c.roc c.s_l) (packet_index roc seq)
unfolding update_roc_recv
update_roc_recv_newest c seq roc i = ground arith
