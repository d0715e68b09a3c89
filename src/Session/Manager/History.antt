-- ===== src/Session/Manager/History.antt =====
-- Histories of a session manager, and the timestamps of its sessions: src/session/manager.rs.
use Prim.Native.String.{String}
use mathlib.Core.Path.{subst}
use rtp_sip_module.Prelude.{
  ℕ, ◌≤◌, ◌≡◌, Bool, true, false, if◌then◌else◌, Option, none, some, arith, inl, inr, Bool-cases,
}
use rtp_sip_module.Session.Store.{get, get-insert, get-remove}
use rtp_sip_module.Session.State.{CallState, can_transition}
use rtp_sip_module.Session.Manager.{
  CallSession, SessionManager, new, new_outbound, new_inbound, set_rtp_engine, add_session,
  remove_session, update_state, get_session,
}
use rtp_sip_module.Session.Manager.Laws.{updated, map_option, get-update_state}
use rtp_sip_module.Session.Manager.Timing.{IsTimed, set_state-IsTimed}

abbrev pub with_engine : Option ℕ → CallSession → CallSession
with_engine none s = s
with_engine (some engine) s = set_rtp_engine s engine

-- How a manager comes about: the calls made of it, on a clock that does not run backwards.
pub data History : ℕ → SessionManager → Type 0 where
  start : {now : ℕ} → History now new
  wait : {before now : ℕ} {m : SessionManager} → History before m → before ≤ now → History now m
  dial :
      {now : ℕ} {m : SessionManager} (id to from provider : String) (engine : Option ℕ)
      → History now m
      → History now (add_session m (with_engine engine (new_outbound id to from provider now)))
  ring :
      {now : ℕ} {m : SessionManager} (id from to provider : String) (engine : Option ℕ)
      → History now m
      → History now (add_session m (with_engine engine (new_inbound id from to provider now)))
  update :
      {now : ℕ} {m : SessionManager} (id : String) (state : CallState)
      → History now m
      → History now (update_state m id state now)
  drop :
      {now : ℕ} {m : SessionManager} (id : String)
      → History now m
      → History now (remove_session m id).0

abbrev TimedOption : ℕ → Option CallSession → Type 0
TimedOption now none = Unit
TimedOption now (some s) = IsTimed now s

TimedOption-if :
    (now : ℕ) (b : Bool) (x y : Option CallSession)
    → TimedOption now x
    → TimedOption now y
    → TimedOption now (if b then x else y)
TimedOption-if now true x y p q = p
TimedOption-if now false x y p q = q

abbrev AllTimed : ℕ → SessionManager → Type 0
AllTimed now m = (id : String) → TimedOption now (get_session m id)

new_outbound-IsTimed :
    (now : ℕ) (id to from provider : String) (engine : Option ℕ)
    → IsTimed now (with_engine engine (new_outbound id to from provider now))
unfolding new_outbound set_rtp_engine
new_outbound-IsTimed now id to from provider engine = ground arith

new_inbound-IsTimed :
    (now : ℕ) (id from to provider : String) (engine : Option ℕ)
    → IsTimed now (with_engine engine (new_inbound id from to provider now))
unfolding new_inbound set_rtp_engine
new_inbound-IsTimed now id from to provider engine = ground arith

add_session-AllTimed :
    (now : ℕ) (m : SessionManager) (s : CallSession)
    → AllTimed now m
    → IsTimed now s
    → AllTimed now (add_session m s)
unfolding add_session
add_session-AllTimed now m s all v id =
    rw (get-insert s.call_id id s m.sessions) (TimedOption-if now _ (some s) _ v (all id))

updated-IsTimed :
    (now : ℕ) (state : CallState) (x : Option CallSession)
    → TimedOption now x
    → TimedOption now (map_option (updated state now) x)
updated-IsTimed now state none v = tt
updated-IsTimed now state (some s) v = elim (Bool-cases (can_transition s.state state)) [
  | inl p ↦ rw p (set_state-IsTimed now now s state (omega arith) p v)
  | inr n ↦ rw n v
]

update_state-AllTimed :
    (now : ℕ) (m : SessionManager) (id : String) (state : CallState)
    → AllTimed now m
    → AllTimed now (update_state m id state now)
update_state-AllTimed now m id state all j =
    rw (get-update_state m id j state now)
      (TimedOption-if now _ _ _ (updated-IsTimed now state _ (all id)) (all j))

remove_session-AllTimed :
    (now : ℕ) (m : SessionManager) (id : String)
    → AllTimed now m
    → AllTimed now (remove_session m id).0
unfolding remove_session
remove_session-AllTimed now m id all j =
    rw (get-remove id j m.sessions) (TimedOption-if now _ none _ tt (all j))

wait-IsTimed :
    (before now : ℕ) (x : Option CallSession)
    → before ≤ now
    → TimedOption before x
    → TimedOption now x
wait-IsTimed before now none h v = tt
wait-IsTimed before now (some s) h v = ground arith

History-AllTimed : {now : ℕ} {m : SessionManager} → History now m → AllTimed now m
unfolding new get
History-AllTimed start id = tt
History-AllTimed (wait h p) id = wait-IsTimed _ _ _ p (History-AllTimed h id)
History-AllTimed (dial id to from provider engine h) j =
    add_session-AllTimed _ _ _ (History-AllTimed h)
      (new_outbound-IsTimed _ id to from provider engine) j
History-AllTimed (ring id from to provider engine h) j =
    add_session-AllTimed _ _ _ (History-AllTimed h)
      (new_inbound-IsTimed _ id from to provider engine) j
History-AllTimed (update id state h) j = update_state-AllTimed _ _ id state (History-AllTimed h) j
History-AllTimed (drop id h) j = remove_session-AllTimed _ _ id (History-AllTimed h) j

-- In every history each session's timestamps are in order and agree with its state: a call that is
-- up has been answered, a pending one has not, and it has an end exactly if it is over.
pub History-IsTimed :
    {now : ℕ} {m : SessionManager} (id : String) (s : CallSession)
    → History now m
    → get_session m id ≡ some s
    → IsTimed now s
History-IsTimed {now} id s h e = subst (TimedOption now) e (History-AllTimed h id)
