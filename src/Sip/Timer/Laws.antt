-- ===== src/Sip/Timer/Laws.antt =====
-- The session timer in time, src/sip/session_timer.rs.
use rtp_sip_module.Prelude.{
  ℕ, ◌+◌, ◌*◌, ◌≤◌, ◌<◌, ◌≡◌, refl, Bool, true, false, not, Option, some, List, [], ◌∷◌, arith, ◌↔◌,
  ◌||◌, ◌⊎◌, inl, inr,
}
use rtp_sip_module.Sip.Timer.{
  SessionTimerConfig, RefreshRole, SessionTimer, grace_seconds, from_secs, new, start, refresh,
  stop, is_local, refresh_interval, expiry, needs_refresh, is_expired, time_until_refresh,
  time_until_expiry, handle_422_response,
}
use rtp_sip_module.Sip.Timer.Header.{process_response}

interval_before :
    (t : SessionTimer)
    → refresh_interval t + 2 * from_secs (grace_seconds t.session_expires) ≤ expiry t
unfolding refresh_interval expiry from_secs grace_seconds
interval_before t = omega arith

-- While the local side of an active timer need not refresh, more than twice the grace period is left
-- before the session expires.
pub needs_refresh-time_until_expiry :
    (t : SessionTimer) (now : ℕ)
    → t.active ≡ true
    → t.role ≡ RefreshRole.local
    → needs_refresh t now ≡ false
    → 2 * from_secs (grace_seconds t.session_expires) < time_until_expiry t now
unfolding needs_refresh is_local time_until_expiry
needs_refresh-time_until_expiry t now a l n = ground (arith, interval_before t)

-- For an active timer of the local side the times left are zero exactly when a refresh is needed and
-- when the session has expired, and an expired session needs a refresh.
pub times_left :
    (t : SessionTimer) (now : ℕ)
    → t.active ≡ true
    → t.role ≡ RefreshRole.local
    → ((needs_refresh t now ≡ true) ↔ (time_until_refresh t now ≡ some 0))
      × ((is_expired t now ≡ true) ↔ (time_until_expiry t now ≡ 0))
      × (not (is_expired t now) || needs_refresh t now ≡ true)
unfolding needs_refresh is_local time_until_expiry time_until_refresh is_expired
times_left t now a l = (
  (λ h. ground arith, λ h. ground arith),
  (λ h. ground arith, λ h. ground arith),
  ground (arith, interval_before t),
)

-- A call of a method that changes the timer. The methods that read the clock get its value.
pub data Call : Type 0 where
  start_call : ℕ → RefreshRole → ℕ → Call
  refresh_call : ℕ → Call
  stop_call : Call
  too_small_call : ℕ → Call
  response_call : Option (List ℕ) → Bool → ℕ → Call

unfoldable pub step : SessionTimer → Call → SessionTimer
step t (Call.start_call expires role now) = start t expires role now
step t (Call.refresh_call now) = refresh t now
step t Call.stop_call = stop t
step t (Call.too_small_call remote_min_se) = (handle_422_response t remote_min_se).0
step t (Call.response_call header is_uac now) = (process_response t header is_uac now).0

unfoldable pub run : SessionTimer → List Call → SessionTimer
unfolding step
run t [] = t
run t (call ∷ calls) = run (step t call) calls

step_keeps :
    (t : SessionTimer) (call : Call)
    → (t.active ≡ false) ⊎ (t.min_se ≤ t.session_expires)
    → ((step t call).active ≡ false) ⊎ ((step t call).min_se ≤ (step t call).session_expires)
unfolding step start refresh stop handle_422_response process_response
step_keeps t (Call.start_call expires role now) h = inr (omega arith)
step_keeps t (Call.refresh_call now) h = h
step_keeps t Call.stop_call h = inl refl
step_keeps t (Call.too_small_call remote_min_se) h = ground arith
step_keeps t (Call.response_call header is_uac now) h = ground arith

step-min_se : (t : SessionTimer) (call : Call) → t.min_se ≤ (step t call).min_se
unfolding step start refresh stop handle_422_response process_response
step-min_se t (Call.start_call expires role now) = omega arith
step-min_se t (Call.refresh_call now) = omega arith
step-min_se t Call.stop_call = omega arith
step-min_se t (Call.too_small_call remote_min_se) = ground arith
step-min_se t (Call.response_call header is_uac now) = ground arith

run_keeps :
    (t : SessionTimer) (calls : List Call)
    → (t.active ≡ false) ⊎ (t.min_se ≤ t.session_expires)
    → ((run t calls).active ≡ false) ⊎ ((run t calls).min_se ≤ (run t calls).session_expires)
unfolding run
run_keeps t [] h = h
run_keeps t (call ∷ calls) h = run_keeps (step t call) calls (step_keeps t call h)

run-min_se : (t : SessionTimer) (calls : List Call) → t.min_se ≤ (run t calls).min_se
unfolding run
run-min_se t [] = omega arith
run-min_se t (call ∷ calls) = omega (arith, step-min_se t call, run-min_se (step t call) calls)

-- After any calls on a new timer its least interval is not below the configured one, and if it is active
-- then its interval is not below its least one.
pub run-new :
    (config : SessionTimerConfig) (now : ℕ) (calls : List Call)
    → (config.min_se ≤ (run (new config now) calls).min_se)
      × (((run (new config now) calls).active ≡ false)
          ⊎ ((run (new config now) calls).min_se ≤ (run (new config now) calls).session_expires))
unfolding new
run-new config now calls =
    (run-min_se (new config now) calls, run_keeps (new config now) calls (inl refl))
