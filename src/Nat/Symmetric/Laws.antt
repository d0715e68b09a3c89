-- ===== src/Nat/Symmetric/Laws.antt =====
-- What a packet does to the address that is sent to, src/nat/symmetric_rtp.rs.
use rtp_sip_module.Prelude.{ℕ, ◌+◌, ◌≡◌, ◌⊎◌, Bool, true, false, some, arith}
use rtp_sip_module.Nat.Symmetric.{
  SymmetricRtp, is_addr, record_switch, settle, accept, decrement_window, keep_learning, is_ignored,
  process_incoming_with_time,
}

-- What a call that answers `changed` did: the address is new, or it is the one of before.
abbrev pub IsAnswered : SymmetricRtp → SymmetricRtp → ℕ → Bool → Type 0
IsAnswered s s' source changed =
    ((changed ≡ true)
      × (s'.learned_addr ≡ some source)
      × (is_addr s.learned_addr source ≡ false)
      × (is_addr s.configured_addr source ≡ false))
    ⊎ ((changed ≡ false) × (s'.learned_addr ≡ s.learned_addr))

record_switch-learned :
    (s : SymmetricRtp) (now : ℕ) → (record_switch s now).0.learned_addr ≡ s.learned_addr
unfolding record_switch
record_switch-learned s now = ground arith

accept-IsAnswered :
    (s : SymmetricRtp) (source now : ℕ)
    → is_addr s.learned_addr source ≡ false
    → is_addr s.configured_addr source ≡ false
    → IsAnswered s (accept s source now).0 source (accept s source now).1
unfolding accept settle is_addr
accept-IsAnswered s source now l c = ground (arith, record_switch-learned s now)

-- A packet is answered with true exactly when its source becomes the learned address, which it was not
-- before, nor is it the configured one; otherwise the learned address stays.
pub process_incoming-IsAnswered :
    (s : SymmetricRtp) (source now : ℕ)
    → IsAnswered s
        (process_incoming_with_time s source now).0
        source
        (process_incoming_with_time s source now).1
unfolding process_incoming_with_time is_ignored keep_learning decrement_window
process_incoming-IsAnswered s source now =
    let s1 = record s { packets_processed = s.packets_processed + 1 } in
    let again = record s1 { tally = s.tally + 1 } in
    let first = record s1 { candidate_addr = some source; tally = 1 } in
    ground (arith, accept-IsAnswered again source now, accept-IsAnswered first source now)

-- Packets from the configured address and from the learned one, and every packet once the rate limit has
-- locked the address, change nothing but the counter of packets.
pub process_incoming-is_ignored :
    (s : SymmetricRtp) (source now : ℕ)
    → (is_addr s.configured_addr source ≡ true)
      ⊎ (is_addr s.learned_addr source ≡ true)
      ⊎ (s.locked ≡ true)
    → process_incoming_with_time s source now
      ≡ (record s { packets_processed = s.packets_processed + 1 }, false)
unfolding process_incoming_with_time is_ignored
process_incoming-is_ignored s source now h = ground arith
