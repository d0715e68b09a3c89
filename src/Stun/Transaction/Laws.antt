-- ===== src/Stun/Transaction/Laws.antt =====
-- The retransmissions of a STUN transaction, src/nat/stun/transaction.rs.
use native.Mathlib.Nat.{pow-suc}
use rtp_sip_module.Prelude.{
  ℕ, suc, ◌+◌, ◌-◌, ◌*◌, ◌^◌, ◌≤◌, ◌≡◌, refl, ap, true, false, Option, none, some, List, arith, inl,
  inr, ◌⊎◌, ◌<◌,
}
use rtp_sip_module.Stun.Message.{StunMessage, marshal}
use rtp_sip_module.Stun.Transaction.{
  StunTransaction, TxnState, PollResult, new, poll, receive_response, same_id, initial_rto,
  max_retransmits,
}

-- Once a response was accepted it stays: polling reports completion, a further response is refused, and
-- neither changes the transaction.
pub response_stays :
    (t t' : StunTransaction) (msg other : StunMessage) (now : ℕ)
    → receive_response t msg ≡ (t', true)
    → (t'.response ≡ some msg)
      × (poll t' now ≡ (t', PollResult.complete))
      × (receive_response t' other ≡ (t', false))
unfolding receive_response poll
response_stays t t' msg other now e = ground arith

abbrev pub one_if_sent : PollResult → ℕ
one_if_sent (PollResult.retransmit bytes) = 1
one_if_sent PollResult.wait = 0
one_if_sent PollResult.timed_out = 0
one_if_sent PollResult.complete = 0

-- A transaction after some calls of `poll` and `receive_response`, at any instants and in any order,
-- `n` of which sent the request again.
pub data History (crc32 : List ℕ → ℕ) (request : StunMessage) (created : ℕ)
    : ℕ → StunTransaction → Type 0 where
  start : History crc32 request created 0 (new crc32 request created)
  polled :
      (n : ℕ) (t : StunTransaction) (now : ℕ)
      → History crc32 request created n t
      → History crc32 request created (n + one_if_sent (poll t now).1) (poll t now).0
  received :
      (n : ℕ) (t : StunTransaction) (msg : StunMessage)
      → History crc32 request created n t
      → History crc32 request created n (receive_response t msg).0

-- What each state says of the response, and of the retransmissions.
abbrev pub StateAgrees : TxnState → ℕ → Option StunMessage → List ℕ → Type 0
StateAgrees TxnState.waiting n response id = response ≡ none
StateAgrees TxnState.expired n response id = (response ≡ none) × (n ≡ 7)
StateAgrees TxnState.completed n response id =
    (m : StunMessage) × (response ≡ some m) × (same_id m.transaction_id id ≡ true)

-- The transaction of `request` that was created at `created` and sent the request `n` times again.
abbrev pub IsWellFormed : (List ℕ → ℕ) → StunMessage → ℕ → ℕ → StunTransaction → Type 0
IsWellFormed crc32 request created n t =
    (t.retransmit_count ≡ n)
    × (n ≤ max_retransmits)
    × (t.rto ≡ initial_rto * 2 ^ n)
    × (created + initial_rto * (2 ^ suc n - 1) ≤ t.retransmit_at)
    × (t.request_bytes ≡ marshal crc32 request)
    × (t.id ≡ request.transaction_id)
    × StateAgrees t.state n t.response t.id

new-IsWellFormed :
    (crc32 : List ℕ → ℕ) (request : StunMessage) (created : ℕ)
    → IsWellFormed crc32 request created 0 (new crc32 request created)
unfolding new
new-IsWellFormed crc32 request created = (refl, omega arith, refl, omega arith, refl, refl, refl)

receive_response_cases :
    (t : StunTransaction) (msg : StunMessage)
    → ((receive_response t msg).0 ≡ t)
      ⊎ ((same_id msg.transaction_id t.id ≡ true)
          × ((receive_response t msg).0
              ≡ record t { state = TxnState.completed; response = some msg }))
unfolding receive_response
receive_response_cases t msg = ground arith

receive_response-IsWellFormed :
    (crc32 : List ℕ → ℕ) (request : StunMessage) (created n : ℕ) (t : StunTransaction)
    (msg : StunMessage)
    → IsWellFormed crc32 request created n t
    → IsWellFormed crc32 request created n (receive_response t msg).0
receive_response-IsWellFormed crc32 request created n t msg (c, m, r, d, b, i, a) =
    elim (receive_response_cases t msg) [
      | inl e ↦ rw (e) (c, m, r, d, b, i, a)
      | inr (same, e) ↦ rw (e) (c, m, r, d, b, i, (msg, refl, same))
    ]

-- What a poll does to a waiting transaction that is due and has retransmissions left.
unfoldable pub sent_again : StunTransaction → ℕ → StunTransaction
sent_again t now = record t {
  retransmit_count = t.retransmit_count + 1;
  rto = t.rto * 2;
  retransmit_at = now + t.rto * 2;
}

poll_cases :
    (t : StunTransaction) (now : ℕ)
    → (((poll t now).0 ≡ t) × (one_if_sent (poll t now).1 ≡ 0))
      ⊎ ((t.state ≡ TxnState.waiting)
          × (7 ≤ t.retransmit_count)
          × ((poll t now).0 ≡ record t { state = TxnState.expired })
          × (one_if_sent (poll t now).1 ≡ 0))
      ⊎ ((t.state ≡ TxnState.waiting)
          × (t.retransmit_count < 7)
          × (t.retransmit_at ≤ now)
          × ((poll t now).0 ≡ sent_again t now)
          × (one_if_sent (poll t now).1 ≡ 1))
unfolding poll sent_again
poll_cases t now = ground arith

left_waiting :
    (s : TxnState) (n : ℕ) (response : Option StunMessage) (id : List ℕ)
    → s ≡ TxnState.waiting
    → StateAgrees s n response id
    → response ≡ none
left_waiting TxnState.waiting n response id e a = a
left_waiting TxnState.expired n response id e a = a.0
left_waiting TxnState.completed n response id e a = absurd (ground arith)

still_waiting :
    (s : TxnState) (n m : ℕ) (response : Option StunMessage) (id : List ℕ)
    → s ≡ TxnState.waiting
    → StateAgrees s n response id
    → StateAgrees s m response id
still_waiting TxnState.waiting n m response id e a = a
still_waiting TxnState.expired n m response id e a = absurd (ground arith)
still_waiting TxnState.completed n m response id e a = absurd (ground arith)

stay : (n : ℕ) → n + 0 ≡ n
stay n = omega arith

pub plus_one : (n : ℕ) → n + 1 ≡ suc n
plus_one n = omega arith

pub twice : (n rto : ℕ) → rto ≡ initial_rto * 2 ^ n → rto * 2 ≡ initial_rto * 2 ^ (n + 1)
twice n rto r = omega (arith, pow-suc 2 n, ap (λ (k : ℕ). 2 ^ k) (plus_one n))

next_at :
    (created n at rto now : ℕ)
    → created + initial_rto * (2 ^ suc n - 1) ≤ at
    → at ≤ now
    → rto ≡ initial_rto * 2 ^ n
    → created + initial_rto * (2 ^ suc (n + 1) - 1) ≤ now + rto * 2
next_at created n at rto now d w r =
    omega (arith, pow-suc 2 n, pow-suc 2 (suc n), ap (λ (k : ℕ). 2 ^ suc k) (plus_one n))

poll-IsWellFormed :
    (crc32 : List ℕ → ℕ) (request : StunMessage) (created n : ℕ) (t : StunTransaction) (now : ℕ)
    → IsWellFormed crc32 request created n t
    → IsWellFormed crc32 request created (n + one_if_sent (poll t now).1) (poll t now).0
unfolding sent_again
poll-IsWellFormed crc32 request created n t now (c, m, r, d, b, i, a) = elim (poll_cases t now) [
  | inl (e, z) ↦ rw (e, z, stay n) (c, m, r, d, b, i, a)
  | inr (inl (w, l, e, z)) ↦
      rw (e, z, stay n)
        (c, m, r, d, b, i, (left_waiting t.state n t.response t.id w a, omega arith))
  | inr (inr (w, l, g, e, z)) ↦
      rw (e, z)
        (
          omega arith,
          omega arith,
          twice n t.rto r,
          next_at created n t.retransmit_at t.rto now d g r,
          b,
          i,
          still_waiting t.state n (n + 1) t.response t.id w a,
        )
]

-- After any calls of `poll` and `receive_response`, a transaction has sent its request again at most seven
-- times, as often as it counts; its timeout has doubled with each, and its next deadline is at least
-- `initial_rto * (2 ^ (n + 1) - 1)` after its creation; it keeps its request and its id; it has a response
-- exactly in the state `completed`, one with its id; and it expires only after seven retransmissions.
pub History-IsWellFormed :
    (crc32 : List ℕ → ℕ) (request : StunMessage) (created n : ℕ) (t : StunTransaction)
    → History crc32 request created n t
    → IsWellFormed crc32 request created n t
History-IsWellFormed crc32 request created n t History.start =
    new-IsWellFormed crc32 request created
History-IsWellFormed crc32 request created n t (History.polled k u now h) =
    poll-IsWellFormed crc32 request created k u now
      (History-IsWellFormed crc32 request created k u h)
History-IsWellFormed crc32 request created n t (History.received k u msg h) =
    receive_response-IsWellFormed crc32 request created k u msg
      (History-IsWellFormed crc32 request created k u h)
