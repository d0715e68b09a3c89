-- ===== src/Lib.antt =====
-- Verification of rtpsip, a Rust library for SIP calls: the parts that keep state or move bytes.
--
-- The program's parts, and the files that model them (paths from the repository's root):
--  * Session: a call's states and transitions (src/session/state.rs: Session/State.antt) and the manager
--    that owns the calls (src/session/manager.rs: Session/Manager.antt). `set_state` stamps the timing,
--    `update_state` asks `can_transition` first and sends an event; `add_session` and `remove_session` stop
--    the RTP engine of a session that they drop. The map of sessions is an association list, an engine
--    is a number, and the events and the stopped engines are logs. The clock is an argument.
--  * Srtp: one direction of SRTP (src/rtp/srtp.rs). Srtp/Context.antt has the state, Srtp/Cipher.antt
--    counter mode and key derivation, Srtp/Rollover.antt `estimate_roc` and `update_roc_recv`,
--    Srtp/Replay.antt the sliding windows, Srtp/Rtp.antt `protect_rtp` and `unprotect_rtp` with their
--    early returns, Srtp/Rtcp.antt the SRTCP pair, Srtp/Keying.antt the attribute `a=crypto` that carries
--    the keys, and Srtp/Keying/Agreed.antt the contexts made from it. AES on a block, HMAC-SHA1 and base64
--    are parameters, as their crates are not part of the repository.
--  * Stun: attributes, messages and the retransmission of requests (src/nat/stun/attributes.rs,
--    message.rs, transaction.rs: Stun/Attribute.antt, Stun/Message.antt, Stun/Transaction.antt). CRC-32,
--    HMAC-SHA1 and the lossy decoding of UTF-8 are parameters.
--  * Nat: the framing of TURN ChannelData (src/nat/turn/message.rs: Nat/Channel.antt) and the demultiplexer
--    of a shared socket (src/nat/demux.rs: Nat/Demux.antt), which sends each packet to STUN, TURN, RTCP or
--    RTP. An RTP packet then goes to `unprotect_rtp`.
--  * Nat/Symmetric.antt: the learning of the address that a remote really sends from
--    (src/nat/symmetric_rtp.rs).
--  * Media: the builder of outgoing RTP packets (src/rtp/packet.rs: Media/Packet.antt), whose packets go to
--    `protect_rtp`, and the jitter buffer (src/rtp/jitter.rs: Media/Jitter.antt, with `push` in
--    Media/Jitter/Push.antt and `pop` in Media/Jitter/Pop.antt), which gets what `unprotect_rtp` opens.
--    The arithmetic on `f64` of its estimate is a parameter, `Estimator`. Media/Jitter/Playback.antt has
--    the histories of a buffer without its resets, Media/Jitter/Account/Calls.antt the runs of all its calls.
--  * Rtcp: the control packets of a stream (src/rtp/rtcp.rs). Rtcp.antt has their data, Rtcp/Ntp.antt,
--    Rtcp/Block.antt and Rtcp/Metrics.antt their fixed parts, Rtcp/Build.antt the builders, Rtcp/Parse.antt
--    and Rtcp/Compound.antt the parsers. Rtcp/Session.antt has the sequence numbers and the losses that
--    `RtcpSession` counts, Rtcp/Session/State.antt and Rtcp/Session/Incoming.antt what it does with
--    packets, and Rtcp/Session/Report.antt what it sends. A builder returns the bytes that it stores, for a
--    buffer with room for them. Floating point is a parameter, `Floats`, and the three quality figures are
--    an argument.
--  * Dtmf: telephone events (src/rtp/dtmf.rs): Dtmf/Payload.antt, Dtmf/Flags.antt, the sender in
--    Dtmf/Sender.antt, whose packets take their numbers from the RTP packet builder, and the detector in
--    Dtmf/Detector.antt and Dtmf/Process.antt, which is called from one thread.
--  * Sip: the session timer (src/sip/session_timer.rs: Sip/Timer.antt, with its headers and the answer that
--    carries them in Sip/Timer/Header.antt).
--  * Provider: the configuration of providers and the router that chooses one for a destination
--    (src/provider/config.rs, src/provider/router.rs: Provider/Config.antt, Provider/Router.antt), which the
--    session manager asks.
--  * Prelude: lists, Boolean tests, bits, bytes and text on the native numbers. Text is a list of code
--    points, with the methods of `str` that the sources call.
--
-- A byte is a number below 256, a `u16`, `u32` or `u64` a number with its wrap-around written as `% 2 ^ w`.
-- A method that changes its object returns the changed object. Failing code returns a result type with
-- the source's errors; a failed assertion is a constructor of it. The reads of `unmarshal` of a STUN
-- message are compared with the length of the bytes, and panic outside them; elsewhere a read outside the
-- bytes gives 0, and the code's own length tests come first.
--
-- Fuel: the parsers of RTCP run as many rounds as there are bytes, since a packet or a block takes four
-- or more and an item two. `unmarshal` runs its loop on one more than the length field of the message,
-- since every round moves the offset by four or more; `pad` runs three rounds, since a length is at most
-- three short of a multiple of four. The eviction of the jitter buffer runs as many rounds as there are
-- packets, since each removes one; the digits of a number are at most as many as the number and one. The
-- other loops are structural.
--
-- Numbers that the sources hold in 64 bits, such as counters and nanoseconds, are taken not to reach their
-- end; the sample rate of a jitter buffer is not zero, and its delays and the threshold of symmetric RTP are
-- below 2 ^ 31, so that twice them is a `u32`.
--
-- Not modelled: sockets, tasks, locks and channels (so the branch of the DTMF detector for a duration above
-- its limit resets and returns, where the code waits for a lock that it holds itself); the wire format of
-- the crate `rtp`; the signal processing; the handling of redundant payloads in the jitter buffer, which
-- nothing calls; the setters of the RTCP interval, which is random; the SIP engine, SDP and digest
-- authentication; the STUN server pool and the keepalive task; the Python bindings.
pub mod Prelude
pub mod Session
pub mod Srtp
pub mod Stun
pub mod Nat
pub mod Media
pub mod Sip
pub mod Rtcp
pub mod Dtmf
pub mod Provider
