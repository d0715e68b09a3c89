-- ===== src/Nat/Tests.antt =====
-- ChannelData and the demultiplexer on concrete packets, src/nat.
use rtp_sip_module.Prelude.{◌≤◌, ◌≡◌, refl, some, List, [], ◌∷◌, ℕ}
use rtp_sip_module.Nat.Channel.{is_valid_channel, parse_channel_data, build_channel_data}
use rtp_sip_module.Nat.Channel.Laws.{parse-build_channel_data}
use rtp_sip_module.Nat.Demux.{DemuxResult, demux_packet}
use rtp_sip_module.Nat.Symmetric.{new, set_configured, process_incoming_with_time}
use rtp_sip_module.Nat.Symmetric.Laws.{IsAnswered, process_incoming-IsAnswered}
use rtp_sip_module.Nat.Symmetric.Learned.{Call, run, count, sources_of, run-learned}
use rtp_sip_module.Nat.Demux.Built.{demux_packet-build_compound}
use rtp_sip_module.Rtcp.{NtpTimestamp}
use rtp_sip_module.Rtcp.Build.{build_compound_sr, build_compound_rr}

abbrev start_of_time : NtpTimestamp
start_of_time = record { seconds = 0; fraction = 0 }

abbrev voice : List ℕ
voice = 128 ∷ 0 ∷ 7 ∷ 9 ∷ 5 ∷ []

parse-build_channel_data_example :
    parse_channel_data (build_channel_data 0x4001 voice) ≡ some (0x4001, voice)
unfolding is_valid_channel
parse-build_channel_data_example = parse-build_channel_data 0x4001 voice refl

demux_packet-build_compound_example :
    let sr = build_compound_sr 1 start_of_time 160 7 1120 [] voice in
    let rr = build_compound_rr 1 [] voice in
    (demux_packet sr ≡ DemuxResult.rtcp sr) × (demux_packet rr ≡ DemuxResult.rtcp rr)
demux_packet-build_compound_example =
    demux_packet-build_compound 1 start_of_time 160 7 1120 [] voice

-- A stream whose packets come from address 8 instead of 7.
abbrev translated : List Call
translated =
    Call.configured_call 7 ∷ Call.packet_call 7 1 ∷ Call.packet_call 8 2 ∷ Call.packet_call 8 3 ∷ []

run-learned_example : 2 ≤ count 8 (sources_of translated [])
unfolding run new process_incoming_with_time set_configured
run-learned_example = run-learned 2 translated 8 refl

process_incoming-IsAnswered_example :
    IsAnswered
      (run (new 2) translated)
      (process_incoming_with_time (run (new 2) translated) 9 4).0
      9
      (process_incoming_with_time (run (new 2) translated) 9 4).1
process_incoming-IsAnswered_example = process_incoming-IsAnswered (run (new 2) translated) 9 4
