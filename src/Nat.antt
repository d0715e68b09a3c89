-- ===== src/Nat.antt =====
-- What a socket shared by RTP, RTCP, STUN and TURN needs: src/nat/demux.rs, src/nat/turn/message.rs,
-- and the learning of a remote's address: src/nat/symmetric_rtp.rs.
pub mod Channel
pub mod Demux
pub mod Symmetric
pub mod Tests
