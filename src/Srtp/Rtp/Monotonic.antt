-- ===== src/Srtp/Rtp/Monotonic.antt =====
-- The indices under which `protect_rtp` of src/rtp/srtp.rs encrypts the packets that it lets out.
use rtp_sip_module.Prelude.{ℕ, ◌+◌, ◌^◌, ◌≤◌, ◌<◌, ◌≡◌, refl, ◌∙◌, ◌⊎◌, List, [], ◌∷◌, arith}
use rtp_sip_module.Srtp.Context.{
  Crypto, Result, ok, err, panic, SessionKeys, SrtpContext, rtp_header_len,
}
use rtp_sip_module.Srtp.Rtp.{seal, protect_rtp, protect_indexed}

-- A packet that went out: what was given to `protect_rtp` in which context, the index that the context
-- keeps for it, and the bytes.
pub record SentPacket : Type 0 where
  pub context : SrtpContext
  pub packet : List ℕ
  pub index : ℕ
  pub output : List ℕ

-- The bytes are what `seal` makes of the packet under the index, with these session keys.
abbrev pub IsSealed : Crypto → SessionKeys → SentPacket → Type 0
IsSealed crypto keys s =
    (s.context.rtp_keys ≡ keys)
    × (s.index < 2 ^ 48)
    × ((header_len : ℕ) × (rtp_header_len s.packet ≡ ok header_len)
        × (seal crypto s.context s.packet header_len s.index ≡ ok s.output))

-- A packet that `protect_rtp` lets out counts as one more, within the lifetime of the key, and goes
-- under a 48-bit index that is larger than the one before it, if there was one.
pub protect_rtp_monotonic :
    (crypto : Crypto) (c : SrtpContext) (packet out : List ℕ)
    → (protect_rtp crypto c packet).1 ≡ ok out
    → let c' = (protect_rtp crypto c packet).0 in
      ((c.packets_encrypted ≡ 0) ⊎ (c.last_sent_index < c'.last_sent_index))
      × (c'.packets_encrypted ≡ c.packets_encrypted + 1)
      × (c'.packets_encrypted ≤ 2 ^ 48)
      × (c'.last_sent_index < 2 ^ 48)
unfolding protect_rtp
protect_rtp_monotonic crypto c packet out e = ground arith

-- The packet that `protect_rtp` lets out is the one that is sealed under the index kept in the context.
protect_indexed_sealed :
    (crypto : Crypto) (c : SrtpContext) (packet out : List ℕ) (header_len : ℕ)
    → (protect_indexed crypto c packet header_len).1 ≡ ok out
    → seal crypto c packet header_len (protect_indexed crypto c packet header_len).0.last_sent_index
      ≡ ok out
unfolding protect_indexed
protect_indexed_sealed crypto c packet out header_len e = ground arith

protect_rtp_sealed :
    (crypto : Crypto) (c : SrtpContext) (packet out : List ℕ)
    → (protect_rtp crypto c packet).1 ≡ ok out
    → (header_len : ℕ) × (rtp_header_len packet ≡ ok header_len)
      × (seal crypto c packet header_len (protect_rtp crypto c packet).0.last_sent_index ≡ ok out)
unfolding protect_rtp
protect_rtp_sealed crypto c packet out e = ground arith

protect_rtp-keys :
    (crypto : Crypto) (c : SrtpContext) (packet : List ℕ)
    → (protect_rtp crypto c packet).0.rtp_keys ≡ c.rtp_keys
unfolding protect_rtp
protect_rtp-keys crypto c packet = ground arith

-- Packets were sent, the last of them under an index of at least `bound`.
abbrev SentFrom : ℕ → SrtpContext → Type 0
SentFrom bound c = (0 < c.packets_encrypted) × (bound ≤ c.last_sent_index)

protect_rtp-SentFrom :
    (crypto : Crypto) (c : SrtpContext) (packet : List ℕ) (bound : ℕ)
    → SentFrom bound c
    → SentFrom bound (protect_rtp crypto c packet).0
unfolding protect_rtp
protect_rtp-SentFrom crypto c packet bound h = ground arith

-- a packet that goes out is added; a panic ends the run
abbrev note_sent : SrtpContext → List ℕ → ℕ → Result (List ℕ) → List SentPacket → List SentPacket
note_sent c packet index (ok out) rest =
    (record { context = c; packet = packet; index = index; output = out }) ∷ rest
note_sent c packet index (err e) rest = rest
note_sent c packet index panic rest = []

-- the packets that go out, when a list of packets is given to `protect_rtp` in turn
unfoldable pub send_all : Crypto → SrtpContext → List (List ℕ) → List SentPacket
send_all crypto c [] = []
send_all crypto c (packet ∷ packets) =
    let (c', result) = protect_rtp crypto c packet in
    note_sent c packet c'.last_sent_index result (send_all crypto c' packets)

abbrev pub AllAbove : ℕ → List SentPacket → Type 0
AllAbove bound [] = Unit
AllAbove bound (s ∷ sent) = (bound < s.index) × AllAbove bound sent

-- The packets are sealed, each under an index below those of the packets that follow it.
abbrev pub AreSealed : Crypto → SessionKeys → List SentPacket → Type 0
AreSealed crypto keys [] = Unit
AreSealed crypto keys (s ∷ sent) =
    IsSealed crypto keys s × AllAbove s.index sent × AreSealed crypto keys sent

note_sent-AllAbove :
    (c : SrtpContext) (packet : List ℕ) (r : Result (List ℕ)) (bound index : ℕ)
    (rest : List SentPacket)
    → ((out : List ℕ) → r ≡ ok out → bound < index)
    → AllAbove bound rest
    → AllAbove bound (note_sent c packet index r rest)
note_sent-AllAbove c packet (ok out) bound index rest h p = (h out refl, p)
note_sent-AllAbove c packet (err e) bound index rest h p = p
note_sent-AllAbove c packet panic bound index rest h p = tt

note_sent-AreSealed :
    (crypto : Crypto) (keys : SessionKeys) (c : SrtpContext) (packet : List ℕ) (r : Result (List ℕ))
    (index : ℕ) (rest : List SentPacket)
    → ((out : List ℕ)
        → r ≡ ok out
        → IsSealed crypto keys
            (record { context = c; packet = packet; index = index; output = out }))
    → ((out : List ℕ) → r ≡ ok out → AllAbove index rest)
    → AreSealed crypto keys rest
    → AreSealed crypto keys (note_sent c packet index r rest)
note_sent-AreSealed crypto keys c packet (ok out) index rest s h p = (s out refl, h out refl, p)
note_sent-AreSealed crypto keys c packet (err e) index rest s h p = p
note_sent-AreSealed crypto keys c packet panic index rest s h p = tt

send_all-AllAbove :
    (crypto : Crypto) (c : SrtpContext) (packets : List (List ℕ)) (bound : ℕ)
    → SentFrom bound c
    → AllAbove bound (send_all crypto c packets)
unfolding send_all
send_all-AllAbove crypto c [] bound h = tt
send_all-AllAbove crypto c (packet ∷ packets) bound h =
    note_sent-AllAbove c packet (protect_rtp crypto c packet).1 bound _ _
      (λ out e. omega (arith, protect_rtp_monotonic crypto c packet out e))
      (send_all-AllAbove crypto (protect_rtp crypto c packet).0 packets bound
        (protect_rtp-SentFrom crypto c packet bound h))

all_sealed :
    (crypto : Crypto) (keys : SessionKeys) (c : SrtpContext) (packets : List (List ℕ))
    → c.rtp_keys ≡ keys
    → AreSealed crypto keys (send_all crypto c packets)
unfolding send_all
all_sealed crypto keys c [] k = tt
all_sealed crypto keys c (packet ∷ packets) k =
    note_sent-AreSealed crypto keys c packet (protect_rtp crypto c packet).1 _ _
      (λ out e. (
        k,
        (protect_rtp_monotonic crypto c packet out e).3,
        protect_rtp_sealed crypto c packet out e,
      ))
      (λ out e.
        send_all-AllAbove crypto (protect_rtp crypto c packet).0 packets _
          (omega (arith, protect_rtp_monotonic crypto c packet out e), omega arith))
      (all_sealed crypto keys (protect_rtp crypto c packet).0 packets
        (protect_rtp-keys crypto c packet ∙ k))

-- Whatever packets a context is given in turn, the bytes of each one that it lets out are those that
-- `seal` makes of it, with the session keys of the context, under a 48-bit index that is larger than
-- the index of every packet let out before it: no two of them are encrypted under the same index.
pub send_all-AreSealed :
    (crypto : Crypto) (c : SrtpContext) (packets : List (List ℕ))
    → AreSealed crypto c.rtp_keys (send_all crypto c packets)
send_all-AreSealed crypto c packets = all_sealed crypto c.rtp_keys c packets refl
