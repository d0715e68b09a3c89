-- ===== src/Media/Jitter/Window.antt =====
-- The half of the number space that a jitter buffer's packets lie in, src/rtp/jitter.rs.
use rtp_sip_module.Prelude.{
  ℕ, ◌+◌, ◌-◌, ◌%◌, ◌^◌, ◌≤◌, ◌<◌, ◌≡◌, ◌≢◌, ◌⊎◌, inl, refl, true, false, none, some, [], ◌∷◌,
  if◌then◌else◌, arith,
}
use rtp_sip_module.Media.Jitter.{
  BufferedPacket, Packets, sequence_before, get_packet, contains_key, insert_packet, remove_packet,
  oldest_from, oldest_seq,
}

-- How far a number lies ahead of the position `at`, which counts on where the numbers wrap.
abbrev pub ahead : ℕ → ℕ → ℕ
ahead at k = (k + 2 ^ 16 - at % 2 ^ 16) % 2 ^ 16

-- Every packet stands under its own number, fewer than 2^15 ahead of `at`.
abbrev pub InWindow : ℕ → Packets → Type 0
InWindow at [] = Unit
InWindow at ((k, p) ∷ packets) =
    (k < 2 ^ 16) × (ahead at k < 2 ^ 15) × (p.packet.sequence_number ≡ k) × InWindow at packets

abbrev pub AtLeast : ℕ → ℕ → Packets → Type 0
AtLeast at n [] = Unit
AtLeast at n ((k, p) ∷ packets) = (n ≤ ahead at k) × AtLeast at n packets

pub remove-InWindow :
    (at t : ℕ) (packets : Packets) → InWindow at packets → InWindow at (remove_packet packets t)
unfolding remove_packet
remove-InWindow at t [] h = tt
remove-InWindow at t ((k, p) ∷ packets) (b, w, e, h) =
    ground (arith, remove-InWindow at t packets h)

pub insert-InWindow :
    (at seq : ℕ) (p : BufferedPacket) (packets : Packets)
    → InWindow at packets
    → seq < 2 ^ 16
    → ahead at seq < 2 ^ 15
    → p.packet.sequence_number ≡ seq
    → InWindow at (insert_packet packets seq p)
unfolding insert_packet
insert-InWindow at seq p [] h b w e = (b, w, e, tt)
insert-InWindow at seq p ((k, q) ∷ packets) (b', w', e', h) b w e =
    ground (arith, insert-InWindow at seq p packets h b w e)

nearer :
    (at o k : ℕ)
    → o < 2 ^ 16
    → k < 2 ^ 16
    → ahead at o < 2 ^ 15
    → ahead at k < 2 ^ 15
    → let n = if sequence_before k o then k else o in
      (n < 2 ^ 16) × (ahead at n ≤ ahead at o) × (ahead at n ≤ ahead at k)
unfolding sequence_before
nearer at o k ho hk wo wk = ground arith

-- The scan ends at a packet that no other lies before.
pub oldest_from-least :
    (at o : ℕ) (packets : Packets)
    → InWindow at packets
    → o < 2 ^ 16
    → ahead at o < 2 ^ 15
    → (oldest_from o packets < 2 ^ 16)
      × (ahead at (oldest_from o packets) ≤ ahead at o)
      × AtLeast at (ahead at (oldest_from o packets)) packets
unfolding oldest_from
oldest_from-least at o [] h ho wo = (ho, omega arith, tt)
oldest_from-least at o ((k, p) ∷ packets) (b, w, e, h) ho wo =
    let (bound, le_o, le_k) = nearer at o k ho b wo w in
    let (b', le, rest) =
      oldest_from-least at (if sequence_before k o then k else o) packets h bound (omega arith) in
    (b', omega arith, (omega arith, rest))

advance :
    (at n t : ℕ) (packets : Packets)
    → InWindow at packets
    → AtLeast at n packets
    → t ≡ (at + n) % 2 ^ 16
    → n < 2 ^ 15
    → InWindow (at + n + 1) (remove_packet packets t)
unfolding remove_packet
advance at n t [] h l e s = tt
advance at n t ((k, p) ∷ packets) (b, w, i, h) (l, ls) e s =
    ground (arith, advance at n t packets h ls e s)

oldest_of :
    (at o t : ℕ) (packets : Packets)
    → t ≡ o
    → o < 2 ^ 16
    → ahead at o < 2 ^ 15
    → InWindow at packets
    → AtLeast at (ahead at o) packets
    → (ahead at t < 2 ^ 15)
      × (t ≡ (at + ahead at t) % 2 ^ 16)
      × InWindow (at + ahead at t + 1) (remove_packet packets t)
oldest_of at o t packets e b w h l =
    rw (e) (w, omega arith, advance at (ahead at o) o packets h l (omega arith) w)

pub get-InWindow :
    (at t : ℕ) (packets : Packets) (p : BufferedPacket)
    → InWindow at packets
    → get_packet packets t ≡ some p
    → p.packet.sequence_number ≡ t
unfolding get_packet
get-InWindow at t [] p h e = absurd (ground arith)
get-InWindow at t ((k, q) ∷ packets) p (b, w, i, h) e =
    ground (arith, get-InWindow at t packets p h)

-- Where the packet at `at` itself is missing, all lie ahead of the next position.
pub missing-InWindow :
    (at : ℕ) (packets : Packets)
    → InWindow at packets
    → get_packet packets (at % 2 ^ 16) ≡ none
    → InWindow (at + 1) packets
unfolding get_packet
missing-InWindow at [] h e = tt
missing-InWindow at ((k, p) ∷ packets) (b, w, i, h) e =
    ground (arith, missing-InWindow at packets h)

-- The oldest packet of a window, and the window behind it.
pub oldest_seq-InWindow :
    (at t : ℕ) (packets : Packets)
    → InWindow at packets
    → oldest_seq packets ≡ some t
    → (ahead at t < 2 ^ 15)
      × (t ≡ (at + ahead at t) % 2 ^ 16)
      × InWindow (at + ahead at t + 1) (remove_packet packets t)
unfolding oldest_seq
oldest_seq-InWindow at t [] h e = absurd (ground arith)
oldest_seq-InWindow at t ((k, p) ∷ packets) (b, w, i, h) e =
    let o = oldest_from k packets in
    let (bound, le, least) = oldest_from-least at k packets h b w in
    oldest_of at o t ((k, p) ∷ packets) (ground arith) bound (omega arith) (b, w, i, h) (le, least)

-- The number at the position itself, taken out or not there: the others lie ahead of the next position.
pub next-InWindow :
    (at t : ℕ) (packets : Packets)
    → t ≡ at % 2 ^ 16
    → InWindow at packets
    → InWindow (at + 1) (remove_packet packets t)
unfolding remove_packet
next-InWindow at t [] e h = tt
next-InWindow at t ((k, p) ∷ packets) e (b, w, i, h) =
    ground (arith, next-InWindow at t packets e h)

pub absent-InWindow :
    (at t : ℕ) (packets : Packets)
    → t ≡ at % 2 ^ 16
    → contains_key packets t ≡ false
    → InWindow at packets
    → InWindow (at + 1) packets
unfolding contains_key
absent-InWindow at t [] e c h = tt
absent-InWindow at t ((k, p) ∷ packets) e c (b, w, i, h) =
    ground (arith, absent-InWindow at t packets e)

oldest_from-contains :
    (o : ℕ) (packets : Packets)
    → (oldest_from o packets ≡ o) ⊎ (contains_key packets (oldest_from o packets) ≡ true)
unfolding oldest_from contains_key
oldest_from-contains o [] = inl refl
oldest_from-contains o ((k, p) ∷ packets) =
    ground (arith, oldest_from-contains (if sequence_before k o then k else o) packets)

pub oldest_seq-contains :
    (t : ℕ) (packets : Packets) → oldest_seq packets ≡ some t → contains_key packets t ≡ true
unfolding oldest_seq contains_key
oldest_seq-contains t [] e = absurd (ground arith)
oldest_seq-contains t ((k, p) ∷ packets) e = ground (arith, oldest_from-contains k packets)

get-contains :
    (t : ℕ) (packets : Packets) → get_packet packets t ≡ none → contains_key packets t ≡ false
unfolding get_packet contains_key
get-contains t [] e = refl
get-contains t ((k, p) ∷ packets) e = ground (arith, get-contains t packets)

-- The oldest packet is there.
pub oldest_seq-get :
    (t : ℕ) (packets : Packets) → oldest_seq packets ≡ some t → get_packet packets t ≢ none
oldest_seq-get t packets e g =
    ground (arith, oldest_seq-contains t packets e, get-contains t packets g)

pub some-contains :
    (t : ℕ) (packets : Packets) (p : BufferedPacket)
    → get_packet packets t ≡ some p
    → contains_key packets t ≡ true
unfolding get_packet contains_key
some-contains t [] p e = absurd (ground arith)
some-contains t ((k, q) ∷ packets) p e = ground (arith, some-contains t packets p)
