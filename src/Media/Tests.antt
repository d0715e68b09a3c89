-- ===== src/Media/Tests.antt =====
-- Packets of a stream whose numbers wrap, src/rtp/packet.rs and src/rtp/jitter.rs.
use rtp_sip_module.Prelude.{
  ℕ, ◌+◌, ◌*◌, ◌/◌, ◌≡◌, refl, inr, true, false, Option, none, some, List, [], ◌∷◌, arith,
}
use rtp_sip_module.Media.Packet.{
  RtpPacket, with_initial, Frame, build_all, next_sequence, set_sequence, build,
}
use rtp_sip_module.Media.Packet.Numbering.{numbered, build_all-numbered}
use rtp_sip_module.Media.Jitter.{
  Estimator, JitterConfig, JitterBuffer, default_config, with_config, reset_initial_buffering,
}
use rtp_sip_module.Media.Jitter.Push.{push}
use rtp_sip_module.Media.Jitter.Pop.{pop}
use rtp_sip_module.Media.Jitter.Playback.{Playback, ArePlayed, Playback-ArePlayed}
use rtp_sip_module.Media.Jitter.Account.{IsAccounted}
use rtp_sip_module.Media.Jitter.Account.Limits.{IsLimited, run-IsLimited}
use rtp_sip_module.Media.Jitter.Account.Calls.{Call, run, run-IsAccounted}

abbrev frames : List Frame
frames =
    record { payload = 1 ∷ []; samples = 160; marker = true }
    ∷ record { payload = 2 ∷ []; samples = 160; marker = false }
    ∷ []

build_all-numbered_example :
    build_all (with_initial 0 77 65535 4294967200) frames
    ≡ some (
      record (with_initial 0 77 65535 4294967200) { sequence = 1; timestamp = 224 },
      numbered (with_initial 0 77 65535 4294967200) 0 0 frames,
    )
unfolding with_initial
build_all-numbered_example =
    build_all-numbered (with_initial 0 77 65535 4294967200) frames (omega arith) (omega arith)
      (omega arith, (omega arith, tt))

-- A DTMF packet takes the number of the next packet, and a number is given back.
shared_numbers :
    ((next_sequence (with_initial 0 77 65535 0)).0.sequence ≡ 0)
    × ((set_sequence (with_initial 0 77 65535 0) 9).sequence ≡ 9)
    × (build (with_initial 0 77 1 0) [] 0 ≡ none)
unfolding next_sequence set_sequence with_initial build
shared_numbers = (refl, refl, refl)

-- The estimate in sixteenths of a millisecond.
abbrev whole_ms : Estimator ℕ
whole_ms = record { start = 0; smooth = λ j. λ d. j + d; twice = λ j. j * 2 / 16 }

abbrev small_config : JitterConfig
small_config = record (default_config) { target_delay_ms = 20; max_packets = 2 }

abbrev sent : ℕ → ℕ → RtpPacket
sent seq timestamp = record {
  marker = false;
  payload_type = 0;
  sequence_number = seq;
  timestamp = timestamp;
  ssrc = 7;
  payload = [];
}

-- Two packets come in the wrong order, across the end of the numbers, and are played; a third one is
-- thrown away when the buffering starts anew.
abbrev reordered : List Call
reordered =
    Call.push_call (sent 0 160) 0
    ∷ Call.push_call (sent 65535 0) 1000000
    ∷ Call.pop_call
    ∷ Call.pop_call
    ∷ Call.push_call (sent 65535 0) 2000000
    ∷ Call.push_call (sent 1 320) 3000000
    ∷ Call.buffering_call
    ∷ []

three_accounted : (run whole_ms (with_config whole_ms small_config, 0) reordered).1 ≡ 3
unfolding run push pop with_config default_config reset_initial_buffering
three_accounted = refl

run-IsAccounted_example :
    IsAccounted
      (run whole_ms (with_config whole_ms small_config, 0) reordered).1
      (run whole_ms (with_config whole_ms small_config, 0) reordered).0
unfolding default_config
run-IsAccounted_example = run-IsAccounted whole_ms small_config reordered (omega arith)

-- Two packets are pushed in the wrong order and played, the second one after a wrap of the numbers.
abbrev filled : JitterBuffer ℕ
filled =
    push whole_ms (push whole_ms (with_config whole_ms small_config) (sent 0 160) 0) (sent 65535 0)
      1000000

abbrev both_results : List (Option RtpPacket)
both_results = some (sent 0 160) ∷ some (sent 65535 0) ∷ []

both_history : Playback whole_ms 65535 (pop whole_ms (pop whole_ms filled).0).0 both_results
unfolding pop push with_config default_config
both_history = Playback.popped (pop whole_ms filled).0 (some (sent 65535 0) ∷ []) (
    Playback.popped filled [] (
      Playback.pushed (push whole_ms (with_config whole_ms small_config) (sent 0 160) 0) []
        (sent 65535 0) 1000000 (omega arith) refl (inr (omega arith))
        (Playback.pushed (with_config whole_ms small_config) [] (sent 0 160) 0 (omega arith) refl
          (inr (omega arith)) (Playback.start small_config))))

Playback-ArePlayed_example : (at : ℕ) × ArePlayed 65535 at both_results
Playback-ArePlayed_example =
    Playback-ArePlayed whole_ms 65535 (pop whole_ms (pop whole_ms filled).0).0 both_results
      both_history

run-IsLimited_example : IsLimited (run whole_ms (with_config whole_ms small_config, 0) reordered).0
unfolding default_config
run-IsLimited_example = run-IsLimited whole_ms small_config reordered (omega arith, omega arith)
