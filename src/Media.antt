-- ===== src/Media.antt =====
-- The RTP packets of a stream, src/rtp/packet.rs.
pub mod Packet
pub mod Jitter
pub mod Tests
