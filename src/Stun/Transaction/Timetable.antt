-- ===== src/Stun/Transaction/Timetable.antt =====
-- The timetable of a STUN transaction that gets no response, src/nat/stun/transaction.rs.
use native.Mathlib.Nat.{pow-suc}
use rtp_sip_module.Prelude.{
  ℕ, zero, suc, ◌+◌, ◌-◌, ◌*◌, ◌^◌, ◌≡◌, refl, ap, ap₂, ◌∙◌, true, false, none, some, List, [], ◌∷◌,
  ◌++◌, arith, replicate, ◌<◌,
}
use rtp_sip_module.Stun.Message.{StunMessage, marshal}
use rtp_sip_module.Stun.Transaction.{
  StunTransaction, TxnState, PollResult, new, poll, initial_rto, next_deadline, is_timed_out,
}
use rtp_sip_module.Stun.Transaction.Laws.{sent_again, twice, plus_one}

-- The caller that polls at every deadline, `k` times.
unfoldable pub poll_due : ℕ → StunTransaction → StunTransaction × List PollResult
poll_due zero t = (t, [])
poll_due (suc k) t = elim (next_deadline t) [
  | none ↦ (t, [])
  | some at ↦
      let (t', result) = poll t at in let (t'', results) = poll_due k t' in (t'', result ∷ results)
]

-- A transaction that waits after `n` retransmissions, all made exactly when due.
abbrev pub IsOnTime : ℕ → List ℕ → ℕ → StunTransaction → Type 0
IsOnTime created bytes n t =
    (t.state ≡ TxnState.waiting)
    × (t.retransmit_count ≡ n)
    × (t.rto ≡ initial_rto * 2 ^ n)
    × (t.retransmit_at ≡ created + initial_rto * (2 ^ suc n - 1))
    × (t.request_bytes ≡ bytes)

sent_again-IsOnTime :
    (created : ℕ) (bytes : List ℕ) (n : ℕ) (t : StunTransaction)
    → IsOnTime created bytes n t
    → IsOnTime created bytes (suc n) (sent_again t t.retransmit_at)
unfolding sent_again
sent_again-IsOnTime created bytes n t (s, c, r, a, b) = (
  s,
  omega arith,
  twice n t.rto r ∙ ap (λ k. initial_rto * 2 ^ k) (plus_one n),
  omega (arith, pow-suc 2 n, pow-suc 2 (suc n)),
  b,
)

due_step :
    (k : ℕ) (t : StunTransaction)
    → t.state ≡ TxnState.waiting
    → t.retransmit_count < 7
    → (next_deadline t ≡ some t.retransmit_at)
      × (poll t t.retransmit_at
          ≡ (sent_again t t.retransmit_at, PollResult.retransmit t.request_bytes))
unfolding poll next_deadline sent_again
due_step k t s c = ground arith

due_last :
    (t : StunTransaction)
    → t.state ≡ TxnState.waiting
    → t.retransmit_count ≡ 7
    → (next_deadline t ≡ some t.retransmit_at)
      × (poll t t.retransmit_at ≡ (record t { state = TxnState.expired }, PollResult.timed_out))
      × (is_timed_out t ≡ false)
unfolding poll next_deadline is_timed_out
due_last t s c = ground arith

poll_due-step :
    (k at : ℕ) (t t' : StunTransaction) (result : PollResult)
    → next_deadline t ≡ some at
    → poll t at ≡ (t', result)
    → poll_due (suc k) t ≡ ((poll_due k t').0, result ∷ (poll_due k t').1)
unfolding poll_due
poll_due-step k at t t' result e p = rw (poll_due, e, p) refl

at_last :
    (created n at : ℕ)
    → n ≡ 7
    → at ≡ created + initial_rto * (2 ^ suc n - 1)
    → at ≡ created + initial_rto * 255
at_last created n at e a = a ∙ ap (λ k. created + initial_rto * (2 ^ suc k - 1)) e

schedule :
    (created : ℕ) (bytes : List ℕ) (j n : ℕ) (t : StunTransaction)
    → n + j ≡ 7
    → IsOnTime created bytes n t
    → ((poll_due (suc j) t).1
        ≡ replicate j (PollResult.retransmit bytes) ++ (PollResult.timed_out ∷ []))
      × (next_deadline (poll_due j t).0 ≡ some (created + initial_rto * 255))
      × (is_timed_out (poll_due j t).0 ≡ false)
      × (is_timed_out (poll_due (suc j) t).0 ≡ true)
unfolding poll_due is_timed_out
schedule created bytes zero n t h (s, c, r, a, b) =
    let (d, p, w) = due_last t s (omega arith) in
    let last =
      poll_due-step 0 t.retransmit_at t (record t { state = TxnState.expired }) PollResult.timed_out
        d p in
    (
      ap (λ x. x.1) last,
      d ∙ ap some (at_last created n t.retransmit_at (omega arith) a),
      w,
      ap (λ x. is_timed_out x.0) last,
    )
schedule created bytes (suc j) n t h (s, c, r, a, b) =
    let (d, p) = due_step j t s (omega arith) in
    let t' = sent_again t t.retransmit_at in
    let (results, deadline, before, after) =
      schedule created bytes j (suc n) t' (omega arith)
        (sent_again-IsOnTime created bytes n t (s, c, r, a, b)) in
    let now = poll_due-step j t.retransmit_at t t' (PollResult.retransmit t.request_bytes) d p in
    let then_ =
      poll_due-step (suc j) t.retransmit_at t t' (PollResult.retransmit t.request_bytes) d p in
    (
      ap (λ x. x.1) then_ ∙ ap₂ ◌∷◌ (ap PollResult.retransmit b) results,
      ap (λ x. next_deadline x.0) now ∙ deadline,
      ap (λ x. is_timed_out x.0) now ∙ before,
      ap (λ x. is_timed_out x.0) then_ ∙ after,
    )

new-IsOnTime :
    (crc32 : List ℕ → ℕ) (request : StunMessage) (created : ℕ)
    → IsOnTime created (marshal crc32 request) 0 (new crc32 request created)
unfolding new
new-IsOnTime crc32 request created = (refl, refl, refl, refl, refl)

-- A new transaction that is polled at each of its deadlines, and gets no response, sends its request
-- again seven times, with the timeouts doubling, and expires at the eighth deadline: 255 initial
-- timeouts, 127.5 seconds, after its creation.
pub poll_due_schedule :
    (crc32 : List ℕ → ℕ) (request : StunMessage) (created : ℕ)
    → let t = new crc32 request created in
      ((poll_due 8 t).1
        ≡ replicate 7 (PollResult.retransmit (marshal crc32 request))
          ++ (PollResult.timed_out ∷ []))
      × (next_deadline (poll_due 7 t).0 ≡ some (created + initial_rto * 255))
      × (is_timed_out (poll_due 7 t).0 ≡ false)
      × (is_timed_out (poll_due 8 t).0 ≡ true)
poll_due_schedule crc32 request created =
    schedule created (marshal crc32 request) 7 0 (new crc32 request created) refl
      (new-IsOnTime crc32 request created)
