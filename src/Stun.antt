-- ===== src/Stun.antt =====
-- The STUN client, src/nat/stun: attributes, messages, and the retransmission of a request.
pub mod Attribute
pub mod Message
pub mod Transaction
pub mod Tests
