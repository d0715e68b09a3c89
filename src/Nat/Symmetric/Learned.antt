-- ===== src/Nat/Symmetric/Learned.antt =====
-- The packets that stand behind a learned address, src/nat/symmetric_rtp.rs.
use rtp_sip_module.Prelude.{
  ℕ, suc, ◌+◌, ◌≤◌, ◌≡◌, refl, true, Option, none, some, List, [], ◌∷◌, if◌then◌else◌, ◌==◌, max,
  arith,
}
use rtp_sip_module.Nat.Symmetric.{
  AutoAdjustMode, SymmetricRtp, new, fresh, is_addr, record_switch, settle, accept,
  decrement_window, keep_learning, process_incoming_with_time, process_incoming_with_ssrc,
  note_ssrc, rearm, set_mode, set_configured, set_rate_limit, reset,
}

-- How many packets came from an address.
unfoldable pub count : ℕ → List ℕ → ℕ
count addr [] = 0
count addr (source ∷ sources) = let n = count addr sources in if source == addr then suc n else n

-- There are at least `n` packets from the address, if there is one.
abbrev pub IsBacked : Option ℕ → ℕ → List ℕ → Type 0
IsBacked none n sources = Unit
IsBacked (some addr) n sources = n ≤ count addr sources

count-more :
    (addr source : ℕ) (sources : List ℕ) → count addr sources ≤ count addr (source ∷ sources)
unfolding count
count-more addr source sources = ground arith

count_self :
    (source : ℕ) (sources : List ℕ) → count source (source ∷ sources) ≡ suc (count source sources)
unfolding count
count_self source sources = ground arith

IsBacked-more :
    (addr : Option ℕ) (n source : ℕ) (sources : List ℕ)
    → IsBacked addr n sources
    → IsBacked addr n (source ∷ sources)
IsBacked-more none n source sources h = tt
IsBacked-more (some addr) n source sources h = omega (arith, count-more addr source sources)

-- The tally counts packets of the candidate, and the learned address has reached the threshold.
abbrev pub IsEarned : SymmetricRtp → ℕ → List ℕ → Type 0
IsEarned s threshold sources =
    (s.threshold ≡ threshold)
    × IsBacked s.candidate_addr s.tally sources
    × IsBacked s.learned_addr threshold sources

record_switch_keeps :
    (s : SymmetricRtp) (now threshold : ℕ) (sources : List ℕ)
    → IsEarned s threshold sources
    → IsEarned (record_switch s now).0 threshold sources
unfolding record_switch
record_switch_keeps s now threshold sources h = ground arith

accept_keeps :
    (s : SymmetricRtp) (source now threshold : ℕ) (sources : List ℕ)
    → IsEarned s threshold sources
    → threshold ≤ count source sources
    → IsEarned (accept s source now).0 threshold sources
unfolding accept settle
accept_keeps s source now threshold sources h le =
    ground (arith, record_switch_keeps s now threshold sources h)

candidate-count :
    (addr : Option ℕ) (n source : ℕ) (sources : List ℕ)
    → is_addr addr source ≡ true
    → IsBacked addr n sources
    → IsBacked addr (n + 1) (source ∷ sources) × (n + 1 ≤ count source (source ∷ sources))
unfolding is_addr
candidate-count none n source sources e h = absurd (ground arith)
candidate-count (some addr) n source sources e h = ground (arith, count_self source sources)

packet_keeps :
    (s : SymmetricRtp) (source now threshold : ℕ) (sources : List ℕ)
    → IsEarned s threshold sources
    → IsEarned (process_incoming_with_time s source now).0 threshold (source ∷ sources)
unfolding process_incoming_with_time keep_learning decrement_window
packet_keeps s source now threshold sources (t, c, l) =
    let s1 = record s { packets_processed = s.packets_processed + 1 } in
    let again = record s1 { tally = s.tally + 1 } in
    let first = record s1 { candidate_addr = some source; tally = 1 } in
    let c' = IsBacked-more s.candidate_addr s.tally source sources c in
    let l' = IsBacked-more s.learned_addr threshold source sources l in
    ground (
      arith,
      candidate-count s.candidate_addr s.tally source sources,
      count_self source sources,
      accept_keeps again source now threshold (source ∷ sources),
      accept_keeps first source now threshold (source ∷ sources),
    )

-- A call of a method that changes the state.
pub data Call : Type 0 where
  packet_call : ℕ → ℕ → Call
  ssrc_packet_call : ℕ → ℕ → ℕ → Call
  mode_call : AutoAdjustMode → Call
  configured_call : ℕ → Call
  rate_limit_call : ℕ → ℕ → Call
  rearm_call reset_call : Call

unfoldable pub step : SymmetricRtp → Call → SymmetricRtp
step s (Call.packet_call source now) = (process_incoming_with_time s source now).0
step s (Call.ssrc_packet_call source ssrc now) = (process_incoming_with_ssrc s source ssrc now).0
step s (Call.mode_call mode) = set_mode s mode
step s (Call.configured_call addr) = set_configured s addr
step s (Call.rate_limit_call switches secs) = set_rate_limit s switches secs
step s Call.rearm_call = rearm s
step s Call.reset_call = reset s

-- The state after some calls, and the sources of the packets among them before those given.
unfoldable pub run : SymmetricRtp → List Call → SymmetricRtp
unfolding step
run s [] = s
run s (call ∷ calls) = run (step s call) calls

unfoldable pub source_of : Call → List ℕ → List ℕ
source_of (Call.packet_call source now) sources = source ∷ sources
source_of (Call.ssrc_packet_call source ssrc now) sources = source ∷ sources
source_of _ sources = sources

unfoldable pub sources_of : List Call → List ℕ → List ℕ
unfolding source_of
sources_of [] sources = sources
sources_of (call ∷ calls) sources = sources_of calls (source_of call sources)

note_ssrc_keeps :
    (s : SymmetricRtp) (ssrc threshold : ℕ) (sources : List ℕ)
    → IsEarned s threshold sources
    → IsEarned (note_ssrc s ssrc) threshold sources
unfolding note_ssrc
note_ssrc_keeps s ssrc threshold sources h = ground arith

step_keeps :
    (s : SymmetricRtp) (call : Call) (threshold : ℕ) (sources : List ℕ)
    → IsEarned s threshold sources
    → IsEarned (step s call) threshold (source_of call sources)
unfolding step source_of process_incoming_with_ssrc set_mode set_configured set_rate_limit rearm
    reset
step_keeps s (Call.packet_call source now) threshold sources h =
    packet_keeps s source now threshold sources h
step_keeps s (Call.ssrc_packet_call source ssrc now) threshold sources h =
    packet_keeps (note_ssrc s ssrc) source now threshold sources
      (note_ssrc_keeps s ssrc threshold sources h)
step_keeps s (Call.mode_call AutoAdjustMode.once) threshold sources h = h
step_keeps s (Call.mode_call AutoAdjustMode.always) threshold sources h = h
step_keeps s (Call.mode_call AutoAdjustMode.disabled) threshold sources h = h
step_keeps s (Call.configured_call addr) threshold sources h = h
step_keeps s (Call.rate_limit_call switches secs) threshold sources h = h
step_keeps s Call.rearm_call threshold sources (t, c, l) = (t, tt, l)
step_keeps s Call.reset_call threshold sources (t, c, l) = (t, tt, tt)

run_keeps :
    (s : SymmetricRtp) (calls : List Call) (threshold : ℕ) (sources : List ℕ)
    → IsEarned s threshold sources
    → IsEarned (run s calls) threshold (sources_of calls sources)
unfolding run sources_of
run_keeps s [] threshold sources h = h
run_keeps s (call ∷ calls) threshold sources h =
    run_keeps (step s call) calls threshold (source_of call sources)
      (step_keeps s call threshold sources h)

-- After any calls, changes of the mode and resets included, an address that was learned has sent at
-- least as many packets as the threshold says, and at least one.
pub run-learned :
    (threshold : ℕ) (calls : List Call) (addr : ℕ)
    → (run (new threshold) calls).learned_addr ≡ some addr
    → max threshold 1 ≤ count addr (sources_of calls [])
unfolding new fresh
run-learned threshold calls addr e =
    let (t, c, l) = run_keeps (new threshold) calls (max threshold 1) [] (refl, tt, tt) in
    ground arith
