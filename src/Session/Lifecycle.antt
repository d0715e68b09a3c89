-- ===== src/Session/Lifecycle.antt =====
-- The transition table of src/session/state.rs, as a graph.
use rtp_sip_module.Prelude.{◌≡◌, ◌⊎◌, Bool, true, false, arith}
use rtp_sip_module.Session.State.{
  CallState, initializing, trying, calling, ringing, early_media, answered, active, hold, ended,
  is_terminal, can_transition,
}

-- A call in a state `s` comes to `t` by transitions that the validator allows.
pub data Reaches (s : CallState) : CallState → Type 0 where
  here : Reaches s s
  next : {t u : CallState} → Reaches s t → can_transition t u ≡ true → Reaches s u

terminal_step :
    (s t : CallState) → can_transition s t ≡ true → is_terminal s ≡ true → is_terminal t ≡ true
unfolding can_transition
terminal_step s t h e = ground arith

-- From a terminal state a call comes to terminal states only.
pub terminal_absorbs : {s t : CallState} → Reaches s t → is_terminal s ≡ true → is_terminal t ≡ true
terminal_absorbs here h = h
terminal_absorbs (next {t} {u} r p) h = terminal_step t u p (terminal_absorbs r h)

-- Every call is over or can be ended, in one step, and no state is its own successor.
pub can_end :
    (s : CallState)
    → ((is_terminal s ≡ true) ⊎ (can_transition s ended ≡ true)) × (can_transition s s ≡ false)
unfolding can_transition
can_end s = ground arith

-- the states in which the call has been answered and is not yet being taken down
abbrev pub is_up : CallState → Bool
is_up answered = true
is_up active = true
is_up hold = true
is_up _ = false

-- the states before an answer
abbrev pub is_pending : CallState → Bool
is_pending initializing = true
is_pending trying = true
is_pending calling = true
is_pending ringing = true
is_pending early_media = true
is_pending _ = false

pub pending_from :
    (s t : CallState) → can_transition s t ≡ true → is_pending t ≡ true → is_pending s ≡ true
unfolding can_transition
pending_from s t h p = ground arith

pub up_from :
    (s t : CallState)
    → can_transition s t ≡ true
    → is_up t ≡ true
    → (is_up s ≡ true) ⊎ (is_pending s ≡ true)
unfolding can_transition
up_from s t h p = ground arith

hold_step : (s : CallState) → can_transition s hold ≡ true → s ≡ active
unfolding can_transition
hold_step s h = ground arith
