-- ===== src/Stun/Transaction.antt =====
-- Retransmission of a STUN request, src/nat/stun/transaction.rs. Instants and durations are counted in
-- nanoseconds.
pub mod Laws
pub mod Timetable
use rtp_sip_module.Prelude.{
  ℕ, ◌+◌, ◌-◌, ◌*◌, Bool, true, false, not, Option, none, some, List, [], ◌∷◌, if◌then◌else◌, ltb,
  leb, ◌==◌,
}
use rtp_sip_module.Stun.Message.{StunMessage, marshal}

-- `MAX_RETRANSMITS`
abbrev pub max_retransmits : ℕ
max_retransmits = 7

-- `INITIAL_RTO`
abbrev pub initial_rto : ℕ
initial_rto = 500000000

-- `PollResult`
pub data PollResult : Type 0 where
  retransmit : List ℕ → PollResult
  wait timed_out complete : PollResult

-- `TxnState`
pub data TxnState : Type 0 where
  waiting completed expired : TxnState

-- `StunTransaction`
pub record StunTransaction : Type 0 where
  pub id : List ℕ
  pub request_bytes : List ℕ
  pub state : TxnState
  pub created_at : ℕ
  pub retransmit_at : ℕ
  pub retransmit_count : ℕ
  pub rto : ℕ
  pub response : Option StunMessage

-- `new`; the CRC of `marshal` is a crate's
unfoldable pub new : (List ℕ → ℕ) → StunMessage → ℕ → StunTransaction
new crc32 request now = record {
  id = request.transaction_id;
  request_bytes = marshal crc32 request;
  state = TxnState.waiting;
  created_at = now;
  retransmit_at = now + initial_rto;
  retransmit_count = 0;
  rto = initial_rto;
  response = none;
}

-- equality of two ids, `msg.transaction_id == self.id`
abbrev pub same_id : List ℕ → List ℕ → Bool
same_id [] [] = true
same_id [] (b ∷ bs) = false
same_id (a ∷ as_) [] = false
same_id (a ∷ as_) (b ∷ bs) = if a == b then same_id as_ bs else false

-- `is_done`, `is_complete` and `is_timed_out`
unfoldable pub is_done : StunTransaction → Bool
is_done t = elim t.state [ TxnState.waiting ↦ false | _ ↦ true ]

unfoldable pub is_complete : StunTransaction → Bool
is_complete t = elim t.state [ TxnState.completed ↦ true | _ ↦ false ]

unfoldable pub is_timed_out : StunTransaction → Bool
is_timed_out t = elim t.state [ TxnState.expired ↦ true | _ ↦ false ]

-- `receive_response`
unfoldable pub receive_response : StunTransaction → StunMessage → StunTransaction × Bool
receive_response t msg = elim t.state [
  | TxnState.waiting ↦
      (if same_id msg.transaction_id t.id
        then (record t { state = TxnState.completed; response = some msg }, true)
        else (t, false))
  | _ ↦ (t, false)
]

-- `poll`
unfoldable pub poll : StunTransaction → ℕ → StunTransaction × PollResult
poll t now = elim t.state [
  | TxnState.completed ↦ (t, PollResult.complete)
  | TxnState.expired ↦ (t, PollResult.timed_out)
  | TxnState.waiting ↦
      (if ltb now t.retransmit_at
        then (t, PollResult.wait)
        else if leb max_retransmits t.retransmit_count
        then (record t { state = TxnState.expired }, PollResult.timed_out)
        else (
          record t {
            retransmit_count = t.retransmit_count + 1;
            rto = t.rto * 2;
            retransmit_at = now + t.rto * 2;
          },
          PollResult.retransmit t.request_bytes,
        ))
]

-- `next_deadline`
unfoldable pub next_deadline : StunTransaction → Option ℕ
next_deadline t = elim t.state [ TxnState.waiting ↦ some t.retransmit_at | _ ↦ none ]

-- `elapsed`; `duration_since` an instant in the future is zero
unfoldable pub elapsed : StunTransaction → ℕ → ℕ
elapsed t now = now - t.created_at
