-- ===== src/Session/Manager/Laws.antt =====
-- The operations of the session manager, src/session/manager.rs, on the sessions, the events and the RTP
-- engines.
use Prim.Native.String.{String}
use text.Mathlib.Text.{◌==◌ as str_eq}
use text.Mathlib.TextEquality.{eq_iff}
use rtp_sip_module.Prelude.{
  ℕ, ◌≡◌, ◌⊎◌, inl, inr, true, Option, none, some, List, [], ◌∷◌, if◌then◌else◌, arith,
  Option-cases, Bool-cases,
}
use rtp_sip_module.Session.Store.{get-insert, get-remove}
use rtp_sip_module.Session.State.{CallState, can_transition}
use rtp_sip_module.Session.Manager.{
  CallSession, set_state, SessionManager, stop_engine, add_session, get_session, remove_session,
  update_found, update_state,
}

-- the session that an update leaves under the id that it names
abbrev pub updated : CallState → ℕ → CallSession → CallSession
updated state now s = if can_transition s.state state then set_state s state now else s

abbrev pub map_option : (CallSession → CallSession) → Option CallSession → Option CallSession
map_option f none = none
map_option f (some s) = some (f s)

get-update_found :
    (m : SessionManager) (id j : String) (state : CallState) (now : ℕ) (s : CallSession)
    → get_session m id ≡ some s
    → get_session (update_found m id state now s) j
      ≡ (if str_eq id j then some (updated state now s) else get_session m j)
unfolding update_found
get-update_found m id j state now s e =
    ground (arith, eq_iff id j, get-insert id j (set_state s state now) m.sessions)

-- After an update every id has the session that it had, but that the named one has moved to the
-- new state if the validator allows that.
pub get-update_state :
    (m : SessionManager) (id j : String) (state : CallState) (now : ℕ)
    → get_session (update_state m id state now) j
      ≡ (if str_eq id j then map_option (updated state now) (get_session m id) else get_session m j)
unfolding update_state
get-update_state m id j state now = elim (Option-cases (get_session m id)) [
  | inl e ↦ rw (e, update_state) (ground (arith, eq_iff id j))
  | inr (s, e) ↦ rw (e, update_state) (get-update_found m id j state now s e)
]

-- An update sends one event, with the states before and after, if the call is there and the
-- validator allows the transition; otherwise the manager stays as it is.
pub update_state_cases :
    (m : SessionManager) (id : String) (state : CallState) (now : ℕ)
    → (update_state m id state now ≡ m)
      ⊎ ((s : CallSession) × (get_session m id ≡ some s)
          × (can_transition s.state state ≡ true)
          × ((update_state m id state now).events
              ≡ record { call_id = id; old_state = s.state; new_state = state } ∷ m.events)
          × ((update_state m id state now).stopped ≡ m.stopped))
unfolding update_state update_found
update_state_cases m id state now = elim (Option-cases (get_session m id)) [
  | inl e ↦ inl (ground arith)
  | inr (s, e) ↦ elim (Bool-cases (can_transition s.state state)) [
    | inl p ↦ inr (s, e, p, ground arith, ground arith)
    | inr n ↦ inl (ground arith)
  ]
]

-- The engine of the session under an id, if there is one.
abbrev pub engine_of : SessionManager → String → Option ℕ
engine_of m id = elim (get_session m id) [ none ↦ none | some s ↦ s.rtp_engine ]

abbrev pub WasStopped : ℕ → List ℕ → Type 0
WasStopped e [] = ⊥
WasStopped e (x ∷ log) = (x ≡ e) ⊎ WasStopped e log

-- An engine that a session had before `add_session` is still the one under that id, or has been told to
-- stop.
pub add_session_keeps :
    (m : SessionManager) (s : CallSession) (id : String) (e : ℕ)
    → engine_of m id ≡ some e
    → (engine_of (add_session m s) id ≡ some e) ⊎ WasStopped e (add_session m s).stopped
unfolding add_session stop_engine
add_session_keeps m s id e h =
    ground (arith, eq_iff s.call_id id, get-insert s.call_id id s m.sessions)

-- An engine that a session had before `remove_session` is still the one under that id, or has been told
-- to stop.
pub remove_session_keeps :
    (m : SessionManager) (id j : String) (e : ℕ)
    → engine_of m j ≡ some e
    → (engine_of (remove_session m id).0 j ≡ some e) ⊎ WasStopped e (remove_session m id).0.stopped
unfolding remove_session stop_engine
remove_session_keeps m id j e h = ground (arith, eq_iff id j, get-remove id j m.sessions)

-- An engine that a session had before `update_state` is still the one under that id, or has been told
-- to stop.
pub update_state_keeps :
    (m : SessionManager) (id j : String) (state : CallState) (now e : ℕ)
    → engine_of m j ≡ some e
    → (engine_of (update_state m id state now) j ≡ some e)
      ⊎ WasStopped e (update_state m id state now).stopped
unfolding set_state
update_state_keeps m id j state now e h =
    ground
      (arith, get-update_state m id j state now, eq_iff id j, update_state_cases m id state now)
