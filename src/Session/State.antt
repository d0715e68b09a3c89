-- ===== src/Session/State.antt =====
-- src/session/state.rs: the states of a call, the transitions between them, and its timestamps.
-- An `Instant` is a number of nanoseconds; `Instant - Instant` stops at 0, as `-` on ℕ does.
use Prim.Native.String.{String}
use rtp_sip_module.Prelude.{ℕ, ◌-◌, ◌/◌, ◌%◌, ◌^◌, Bool, true, false, Option, none, some}

-- `CallState`
pub data CallState : Type 0 where
  initializing trying calling ringing early_media answered : CallState
  active hold terminating terminated ended failed : CallState

-- `CallState::is_terminal`
abbrev pub is_terminal : CallState → Bool
is_terminal terminated = true
is_terminal failed = true
is_terminal ended = true
is_terminal _ = false

-- `CallState::can_media`
abbrev pub can_media : CallState → Bool
can_media active = true
can_media answered = true
can_media early_media = true
can_media hold = true
can_media _ = false

-- `CallState::as_str`
unfoldable pub as_str : CallState → String
as_str initializing = "initializing"
as_str trying = "trying"
as_str calling = "calling"
as_str ringing = "ringing"
as_str early_media = "early_media"
as_str answered = "answered"
as_str active = "active"
as_str hold = "hold"
as_str terminating = "terminating"
as_str terminated = "terminated"
as_str ended = "ended"
as_str failed = "failed"

-- `CallDirection`
pub data CallDirection : Type 0 where
  outbound inbound : CallDirection

-- `CallTiming`
pub record CallTiming : Type 0 where
  pub created_at : ℕ
  pub ringing_at : Option ℕ
  pub answered_at : Option ℕ
  pub ended_at : Option ℕ

-- `Duration::as_millis() as u64`
abbrev pub as_millis : ℕ → ℕ
as_millis ns = ns / 1000000 % 2 ^ 64

-- `CallTiming::default`, at the instant `now`
unfoldable pub new_timing : ℕ → CallTiming
new_timing now = record { created_at = now; ringing_at = none; answered_at = none; ended_at = none }

between : Option ℕ → Option ℕ → Option ℕ
between (some a) (some b) = some (as_millis (b - a))
between _ _ = none

-- `CallTiming::setup_time_ms`
unfoldable pub setup_time_ms : CallTiming → Option ℕ
unfolding between
setup_time_ms t = between (some t.created_at) t.answered_at

-- `CallTiming::duration_ms`
unfoldable pub duration_ms : CallTiming → Option ℕ
unfolding between
duration_ms t = between t.answered_at t.ended_at

-- `CallTiming::ring_time_ms`
unfoldable pub ring_time_ms : CallTiming → Option ℕ
unfolding between
ring_time_ms t = between t.ringing_at t.answered_at

-- `StateValidator::can_transition`
unfoldable pub can_transition : CallState → CallState → Bool
can_transition initializing calling = true
can_transition initializing trying = true
can_transition calling ringing = true
can_transition calling early_media = true
can_transition calling answered = true
can_transition calling failed = true
can_transition calling terminating = true
can_transition calling terminated = true
can_transition calling ended = true
can_transition trying ringing = true
can_transition trying early_media = true
can_transition trying answered = true
can_transition trying active = true
can_transition trying failed = true
can_transition trying terminating = true
can_transition trying terminated = true
can_transition trying ended = true
can_transition ringing early_media = true
can_transition ringing answered = true
can_transition ringing active = true
can_transition ringing failed = true
can_transition ringing terminating = true
can_transition ringing terminated = true
can_transition ringing ended = true
can_transition early_media ringing = true
can_transition early_media answered = true
can_transition early_media active = true
can_transition early_media failed = true
can_transition early_media terminating = true
can_transition early_media terminated = true
can_transition early_media ended = true
can_transition answered active = true
can_transition answered failed = true
can_transition answered terminating = true
can_transition answered terminated = true
can_transition answered ended = true
can_transition active hold = true
can_transition active terminating = true
can_transition active terminated = true
can_transition active ended = true
can_transition active failed = true
can_transition hold active = true
can_transition hold terminating = true
can_transition hold terminated = true
can_transition hold ended = true
can_transition hold failed = true
can_transition terminating terminated = true
can_transition terminating ended = true
can_transition terminating failed = true
can_transition initializing ringing = true
can_transition initializing failed = true
can_transition initializing ended = true
can_transition failed terminated = true
can_transition failed ended = true
can_transition _ _ = false
