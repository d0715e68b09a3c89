-- ===== src/Session/Manager.antt =====
-- src/session/manager.rs: sessions, and the manager that owns them. An RTP engine is named by a
-- number; the engines that were told to stop and the events that were sent are logs, newest first.
-- The instant at which a method reads the clock is its argument `now`.
pub mod Laws
pub mod Timing
pub mod History
use Prim.Native.String.{String}
use rtp_sip_module.Prelude.{
  ℕ, Bool, true, false, Option, none, some, List, [], ◌∷◌, if◌then◌else◌, length, map,
}
use rtp_sip_module.Session.Store.{get, insert, remove}
use rtp_sip_module.Session.State.{
  CallState, initializing, ringing, answered, active, terminated, ended, failed, CallDirection,
  outbound, inbound, CallTiming, new_timing, can_transition,
}

-- `CallSession`
pub record CallSession : Type 0 where
  pub call_id : String
  pub state : CallState
  pub direction : CallDirection
  pub provider_id : String
  pub rtp_engine : Option ℕ
  pub remote_party : String
  pub local_party : String
  pub timing : CallTiming
  pub local_sdp : Option String
  pub remote_sdp : Option String

-- `CallSession::new_outbound`
unfoldable pub new_outbound : String → String → String → String → ℕ → CallSession
unfolding new_timing
new_outbound call_id to from provider_id now = record {
  call_id = call_id;
  state = initializing;
  direction = outbound;
  provider_id = provider_id;
  rtp_engine = none;
  remote_party = to;
  local_party = from;
  timing = new_timing now;
  local_sdp = none;
  remote_sdp = none;
}

-- `CallSession::new_inbound`
unfoldable pub new_inbound : String → String → String → String → ℕ → CallSession
unfolding new_timing
new_inbound call_id from to provider_id now = record {
  call_id = call_id;
  state = ringing;
  direction = inbound;
  provider_id = provider_id;
  rtp_engine = none;
  remote_party = from;
  local_party = to;
  timing = new_timing now;
  local_sdp = none;
  remote_sdp = none;
}

-- `CallSession::set_rtp_engine`
unfoldable pub set_rtp_engine : CallSession → ℕ → CallSession
set_rtp_engine s engine = record s { rtp_engine = some engine }

abbrev stamp_once : Option ℕ → ℕ → Option ℕ
stamp_once none now = some now
stamp_once (some t) now = some t

-- the `match state` of `set_state`
stamp : CallState → CallTiming → ℕ → CallTiming
stamp ringing t now = record t { ringing_at = some now }
stamp answered t now = record t { answered_at = stamp_once t.answered_at now }
stamp active t now = record t { answered_at = stamp_once t.answered_at now }
stamp terminated t now = record t { ended_at = some now }
stamp failed t now = record t { ended_at = some now }
stamp ended t now = record t { ended_at = some now }
stamp _ t now = t

-- `CallSession::set_state`
unfoldable pub set_state : CallSession → CallState → ℕ → CallSession
unfolding stamp
set_state s state now = record s { timing = stamp state s.timing now; state = state }

-- `CallEvent::StateChanged`, the one event that the manager emits by itself
pub record StateChanged : Type 0 where
  pub call_id : String
  pub old_state : CallState
  pub new_state : CallState

-- `SessionManager`, less the provider router
pub record SessionManager : Type 0 where
  pub sessions : List (String × CallSession)
  pub events : List StateChanged
  pub stopped : List ℕ

-- `SessionManager::new`
unfoldable pub new : SessionManager
new = record { sessions = []; events = []; stopped = [] }

-- `rtp.stop()`, for the engine of a session that has one
stop_engine : Option CallSession → List ℕ → List ℕ
stop_engine none log = log
stop_engine (some s) log = elim s.rtp_engine [ none ↦ log | some engine ↦ engine ∷ log ]

-- `SessionManager::add_session`
unfoldable pub add_session : SessionManager → CallSession → SessionManager
unfolding stop_engine
add_session m s = record m {
  stopped = stop_engine (get s.call_id m.sessions) m.stopped;
  sessions = insert s.call_id s m.sessions;
}

-- `SessionManager::get_session`
abbrev pub get_session : SessionManager → String → Option CallSession
get_session m call_id = get call_id m.sessions

-- `SessionManager::remove_session`
unfoldable pub remove_session : SessionManager → String → SessionManager × Option CallSession
unfolding stop_engine
remove_session m call_id = (
  record m {
    stopped = stop_engine (get call_id m.sessions) m.stopped;
    sessions = remove call_id m.sessions;
  },
  get call_id m.sessions,
)

-- `SessionManager::active_calls`
unfoldable pub active_calls : SessionManager → List String
active_calls m = map (λ entry. entry.0) m.sessions

-- `SessionManager::active_call_count`
unfoldable pub active_call_count : SessionManager → ℕ
active_call_count m = length m.sessions

-- `SessionManager::emit`
abbrev pub emit : SessionManager → StateChanged → SessionManager
emit m e = record m { events = e ∷ m.events }

-- the body of `update_state` on the session that was found
update_found : SessionManager → String → CallState → ℕ → CallSession → SessionManager
update_found m call_id new_state now s =
    if can_transition s.state new_state
    then emit (record m { sessions = insert call_id (set_state s new_state now) m.sessions })
        (record { call_id = call_id; old_state = s.state; new_state = new_state })
    else m

-- `SessionManager::update_state`; the session behind the `Arc` is the one in the map
unfoldable pub update_state : SessionManager → String → CallState → ℕ → SessionManager
unfolding update_found
update_state m call_id new_state now = elim (get_session m call_id) [
  | none ↦ m
  | some s ↦ update_found m call_id new_state now s
]
