-- ===== src/Sip/Tests.antt =====
-- A session timer in use, src/sip/session_timer.rs.
use rtp_sip_module.Prelude.{◌*◌, ◌<◌, ◌≡◌, refl, true, false, none, some, List, [], ◌∷◌, arith}
use rtp_sip_module.Sip.Timer.{
  RefreshRole, SessionTimer, default_config, new, start, grace_seconds, from_secs, needs_refresh,
  time_until_expiry, handle_422_response,
}
use rtp_sip_module.Prelude.Text.{parse_below, trim, split, is_whitespace}
use rtp_sip_module.Sip.Timer.Header.{
  build_session_expires_header, parse_session_expires, parse_min_se, process_response,
  parse-build_session_expires_header, process_response_agrees,
}
use rtp_sip_module.Sip.Timer.Laws.{Call, run, needs_refresh-time_until_expiry}

-- Ten minutes, refreshed by the local side from the first second on.
abbrev timer : SessionTimer
timer = record {
  config = record {
    enabled = true;
    session_expires = 1800;
    min_se = 90;
    preferred_role = RefreshRole.local;
  };
  session_expires = 600;
  min_se = 90;
  role = RefreshRole.local;
  last_refresh = 1000000000;
  active = true;
}

parse-build_session_expires_header_example :
    parse_session_expires (build_session_expires_header timer true) false
    ≡ some (600, some RefreshRole.remote)
parse-build_session_expires_header_example =
    parse-build_session_expires_header timer true false (omega arith)

-- The UAC asks for 1800 seconds, and the UAS answers with 600 and refreshes itself.
process_response_agrees_example :
    let answer =
      process_response
        (new default_config 0)
        (some (build_session_expires_header timer false))
        true
        7 in
    (answer.0.session_expires ≡ 600)
    × (answer.0.role ≡ RefreshRole.remote)
    × (answer.0.active ≡ true)
    × (answer.1 ≡ (answer.0.session_expires, answer.0.role))
unfolding new default_config
process_response_agrees_example =
    process_response_agrees (new default_config 0) timer 7 (omega arith) (omega arith)

needs_refresh-time_until_expiry_example :
    2 * from_secs (grace_seconds 600) < time_until_expiry timer 300000000000
unfolding needs_refresh
needs_refresh-time_until_expiry_example =
    needs_refresh-time_until_expiry timer 300000000000 refl refl refl

abbrev negotiation : List Call
negotiation = Call.too_small_call 2000 ∷ Call.response_call none true 5 ∷ []

-- After an answer 422 that asks for 2000 seconds, an answer without the header sets the timer to 2000
-- seconds, and 1800 are returned.
fallback_below_min_se :
    let t = run (new default_config 0) (Call.too_small_call 2000 ∷ []) in
    ((process_response t none true 5).0.session_expires ≡ 2000)
    × ((process_response t none true 5).1.0 ≡ 1800)
unfolding run process_response start new default_config handle_422_response
fallback_below_min_se = (refl, refl)

-- A sign is accepted, as by `u32::from_str`, and a number of 33 bits is not.
parsed_headers :
    (parse_min_se (32 ∷ 43 ∷ 57 ∷ 48 ∷ 59 ∷ 120 ∷ []) ≡ some 90)
    × (parse_min_se (52 ∷ 50 ∷ 57 ∷ 52 ∷ 57 ∷ 54 ∷ 55 ∷ 50 ∷ 57 ∷ 54 ∷ []) ≡ none)
unfolding parse_min_se parse_below trim split is_whitespace
parsed_headers = (refl, refl)
