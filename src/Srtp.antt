-- ===== src/Srtp.antt =====
-- src/rtp/srtp.rs: the SRTP and SRTCP transforms of one direction.
pub mod Context
pub mod Replay
pub mod Rollover
pub mod Cipher
pub mod Rtp
pub mod Rtcp
pub mod Keying
pub mod Tests
