-- ===== src/Session/Manager/Timing.antt =====
-- The timestamps of a session beside its state: src/session/state.rs, `set_state` of src/session/manager.rs.
use rtp_sip_module.Prelude.{
  ℕ, ◌≤◌, ◌≡◌, Bool, true, false, not, ◌&&◌, ◌||◌, Option, none, some, arith,
}
use rtp_sip_module.Session.State.{CallState, CallTiming, is_terminal, can_transition}
use rtp_sip_module.Session.Lifecycle.{is_up, is_pending}
use rtp_sip_module.Session.Manager.{CallSession, set_state}

-- the first instant is not after the second, where both are there
abbrev pub LeOption : Option ℕ → Option ℕ → Type 0
LeOption (some a) (some b) = a ≤ b
LeOption none _ = Unit
LeOption (some a) none = Unit

abbrev pub is_some : Option ℕ → Bool
is_some none = false
is_some (some a) = true

abbrev pub Agrees : CallState → CallTiming → Type 0
Agrees s t =
    ((not (is_up s) || is_some t.answered_at) ≡ true)
    × ((is_pending s && is_some t.answered_at) ≡ false)
    × (is_terminal s ≡ is_some t.ended_at)

pub record IsOrdered (now : ℕ) (t : CallTiming) : Type 0 where
  pub created : t.created_at ≤ now
  pub rang : LeOption (some t.created_at) t.ringing_at × LeOption t.ringing_at (some now)
  pub answer : LeOption (some t.created_at) t.answered_at × LeOption t.answered_at (some now)
  pub over : LeOption (some t.created_at) t.ended_at × LeOption t.ended_at (some now)
  pub rang_first : LeOption t.ringing_at t.answered_at
  pub answered_first : LeOption t.answered_at t.ended_at

pub record IsTimed (now : ℕ) (s : CallSession) : Type 0 where
  pub agrees : Agrees s.state s.timing
  pub ordered : IsOrdered now s.timing

-- A transition that the validator allows keeps it, if the clock does not run backwards.
pub set_state-IsTimed :
    (before now : ℕ) (s : CallSession) (state : CallState)
    → before ≤ now
    → can_transition s.state state ≡ true
    → IsTimed before s
    → IsTimed now (set_state s state now)
unfolding set_state can_transition
set_state-IsTimed before now s state h p v = ground arith
