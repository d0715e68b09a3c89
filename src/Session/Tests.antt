-- ===== src/Session/Tests.antt =====
-- Calls that are set up, answered and taken down, src/session.
use rtp_sip_module.Prelude.{◌≡◌, refl, none, some, [], ◌∷◌, arith}
use rtp_sip_module.Session.State.{
  ringing, active, ended, can_transition, as_str, duration_ms, ring_time_ms, setup_time_ms,
}
use rtp_sip_module.Session.Store.{get, insert}
use rtp_sip_module.Session.Manager.{
  CallSession, SessionManager, new, new_inbound, add_session, set_rtp_engine, update_state,
  set_state, active_calls, active_call_count,
}
use rtp_sip_module.Session.Manager.Timing.{IsTimed}
use rtp_sip_module.Session.Manager.History.{History, History-IsTimed, with_engine}

-- An inbound call that rings at 5 ms, with engine 7.
abbrev incoming : CallSession
incoming = with_engine (some 7) (new_inbound "a" "alice" "bob" "carrier" 5000000)

abbrev with_call : SessionManager
with_call = add_session new incoming

answered_call : SessionManager
unfolding update_state add_session new new_inbound
answered_call = update_state with_call "a" active 9000000

finished_call : SessionManager
unfolding answered_call
finished_call = update_state answered_call "a" ended 21000000

finished_duration : (active_calls finished_call ≡ "a" ∷ []) × (active_call_count finished_call ≡ 1)
unfolding finished_call active_calls active_call_count get insert set_rtp_engine can_transition
    set_state
finished_duration = (refl, refl)

-- 12 ms from the answer to the end, and 4 ms before it; the ringing of an inbound call is not stamped
timings :
    let t = (set_state (set_state incoming active 9000000) ended 21000000).timing in
    (duration_ms t ≡ some 12) × (ring_time_ms t ≡ none) × (setup_time_ms t ≡ some 4)
unfolding duration_ms ring_time_ms setup_time_ms set_state set_rtp_engine new_inbound
timings = (refl, refl, refl)

names : as_str ringing ≡ "ringing"
unfolding as_str
names = refl

a_history : History 9000000 (update_state with_call "a" active 9000000)
a_history = History.update "a" active (
    History.wait (History.ring {now = 5000000} "a" "alice" "bob" "carrier" (some 7) History.start)
      (omega arith))

History-IsTimed_example : IsTimed 9000000 (set_state incoming active 9000000)
unfolding update_state add_session get insert new new_inbound set_rtp_engine can_transition
History-IsTimed_example = History-IsTimed "a" (set_state incoming active 9000000) a_history refl
