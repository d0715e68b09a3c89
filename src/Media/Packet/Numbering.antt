-- ===== src/Media/Packet/Numbering.antt =====
-- The sequence numbers and timestamps of a stream, src/rtp/packet.rs.
use rtp_sip_module.Prelude.{
  ℕ, suc, ◌+◌, ◌%◌, ◌^◌, ◌<◌, ◌≡◌, sym, ap, ap₂, ◌∙◌, some, List, [], ◌∷◌, length, arith,
}
use rtp_sip_module.Media.Packet.{RtpPacket, RtpPacketBuilder, build_with_marker, Frame, build_all}

-- The packets that a stream should have, written from its start: `k` frames and `elapsed` samples lie
-- before the first frame of the list.
abbrev pub numbered : RtpPacketBuilder → ℕ → ℕ → List Frame → List RtpPacket
numbered b k elapsed [] = []
numbered b k elapsed (f ∷ frames) =
    record {
      marker = f.marker;
      payload_type = b.payload_type;
      sequence_number = (b.sequence + k) % 2 ^ 16;
      timestamp = (b.timestamp + elapsed) % 2 ^ 32;
      ssrc = b.ssrc;
      payload = f.payload;
    }
    ∷ numbered b (suc k) (elapsed + f.samples) frames

abbrev pub total_samples : List Frame → ℕ
total_samples [] = 0
total_samples (f ∷ frames) = f.samples + total_samples frames

-- Every frame advances the clock.
abbrev pub AllPositive : List Frame → Type 0
AllPositive [] = Unit
AllPositive (f ∷ frames) = (0 < f.samples) × AllPositive frames

-- the builder after `k` packets of `elapsed` samples together
abbrev pub after : RtpPacketBuilder → ℕ → ℕ → RtpPacketBuilder
after b k elapsed = record b {
  sequence = (b.sequence + k) % 2 ^ 16;
  timestamp = (b.timestamp + elapsed) % 2 ^ 32;
}

next_of : (s k : ℕ) → ((s + k) % 2 ^ 16 + 1) % 2 ^ 16 ≡ (s + suc k) % 2 ^ 16
next_of s k = omega arith

clock_of : (t e n : ℕ) → ((t + e) % 2 ^ 32 + n) % 2 ^ 32 ≡ (t + (e + n)) % 2 ^ 32
clock_of t e n = omega arith

build_all-step :
    (b : RtpPacketBuilder) (f : Frame) (frames : List Frame) (b' : RtpPacketBuilder)
    (ps : List RtpPacket)
    → 0 < f.samples
    → build_all
        (record b {
          sequence = (b.sequence + 1) % 2 ^ 16;
          timestamp = (b.timestamp + f.samples) % 2 ^ 32;
        })
        frames
      ≡ some (b', ps)
    → build_all b (f ∷ frames)
      ≡ some (
        b',
        record {
          marker = f.marker;
          payload_type = b.payload_type;
          sequence_number = b.sequence;
          timestamp = b.timestamp;
          ssrc = b.ssrc;
          payload = f.payload;
        }
            ∷ ps,
      )
unfolding build_all build_with_marker
build_all-step b f frames b' ps h e = ground arith

build_all-after :
    (b : RtpPacketBuilder) (k elapsed : ℕ) (frames : List Frame)
    → AllPositive frames
    → build_all (after b k elapsed) frames
      ≡ some (
        after b (k + length frames) (elapsed + total_samples frames),
        numbered b k elapsed frames,
      )
unfolding build_all
build_all-after b k elapsed [] h = ap₂ (λ m n. some (after b m n, [])) (omega arith) (omega arith)
build_all-after b k elapsed (f ∷ frames) h =
    build_all-step (after b k elapsed) f frames
      (after b (k + length (f ∷ frames)) (elapsed + total_samples (f ∷ frames)))
      (numbered b (suc k) (elapsed + f.samples) frames) h.0
      (ap₂ (λ s t. build_all (record b { sequence = s; timestamp = t }) frames)
          (next_of b.sequence k) (clock_of b.timestamp elapsed f.samples)
        ∙ build_all-after b (suc k) (elapsed + f.samples) frames h.1
        ∙ ap₂ (λ m n. some (after b m n, numbered b (suc k) (elapsed + f.samples) frames))
            (omega arith) (omega arith))

in_range : (b : RtpPacketBuilder) → b.sequence < 2 ^ 16 → b.timestamp < 2 ^ 32 → after b 0 0 ≡ b
in_range b s t = ap₂ (λ m n. record b { sequence = m; timestamp = n }) (omega arith) (omega arith)

-- A builder whose sequence number and timestamp are in range builds a packet for every frame of a run of
-- frames that all advance the clock. Packet number k has the k-th sequence number after the builder's,
-- modulo 2 ^ 16, and the builder's timestamp advanced by the samples of the frames before it, modulo
-- 2 ^ 32; the payload type, the SSRC, the markers and the payloads are those asked for.
pub build_all-numbered :
    (b : RtpPacketBuilder) (frames : List Frame)
    → b.sequence < 2 ^ 16
    → b.timestamp < 2 ^ 32
    → AllPositive frames
    → build_all b frames
      ≡ some (after b (length frames) (total_samples frames), numbered b 0 0 frames)
build_all-numbered b frames s t h =
    ap (λ c. build_all c frames) (sym (in_range b s t))
    ∙ build_all-after b 0 0 frames h
    ∙ ap₂ (λ m n. some (after b m n, numbered b 0 0 frames)) (omega arith) (omega arith)
