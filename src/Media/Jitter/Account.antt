-- ===== src/Media/Jitter/Account.antt =====
-- How many packets a jitter buffer holds and has counted, src/rtp/jitter.rs.
pub mod Pushed
pub mod Popped
pub mod Calls
pub mod Limits
use rtp_sip_module.Prelude.{
  ℕ, zero, suc, ◌+◌, ◌-◌, ◌≤◌, ◌<◌, ◌≡◌, refl, ◌⊎◌, inl, inr, Bool, true, false, Option, none, some,
  List, [], ◌∷◌, if◌then◌else◌, ltb, ◌==◌, length, arith, Option-cases,
}
use rtp_sip_module.Media.Jitter.{
  BufferedPacket, Packets, JitterBuffer, contains_key, insert_packet, remove_packet, oldest_seq,
}
use rtp_sip_module.Media.Jitter.Push.{evict}
use rtp_sip_module.Media.Jitter.Window.{oldest_seq-contains}

-- The keys ascend from `lo` on.
abbrev pub AscendFrom : ℕ → Packets → Type 0
AscendFrom lo [] = Unit
AscendFrom lo ((k, p) ∷ packets) = (lo ≤ k) × AscendFrom (suc k) packets

weaken :
    (lo lo' : ℕ) (packets : Packets) → lo ≤ lo' → AscendFrom lo' packets → AscendFrom lo packets
weaken lo lo' [] le h = tt
weaken lo lo' ((k, p) ∷ packets) le (g, h) = (omega arith, h)

pub remove-AscendFrom :
    (lo t : ℕ) (packets : Packets) → AscendFrom lo packets → AscendFrom lo (remove_packet packets t)
unfolding remove_packet
remove-AscendFrom lo t [] h = tt
remove-AscendFrom lo t ((k, p) ∷ packets) (g, h) =
    ground
      (arith, remove-AscendFrom (suc k) t packets h, weaken lo (suc k) (remove_packet packets t))

pub insert-AscendFrom :
    (lo t : ℕ) (p : BufferedPacket) (packets : Packets)
    → lo ≤ t
    → AscendFrom lo packets
    → AscendFrom lo (insert_packet packets t p)
unfolding insert_packet
insert-AscendFrom lo t p [] le h = (le, tt)
insert-AscendFrom lo t p ((k, q) ∷ packets) le (g, h) =
    ground (arith, insert-AscendFrom (suc k) t p packets, weaken (suc t) (suc k) packets)

length-remove_ahead :
    (lo t : ℕ) (packets : Packets)
    → t < lo
    → AscendFrom lo packets
    → length (remove_packet packets t) ≡ length packets
unfolding remove_packet
length-remove_ahead lo t [] lt h = refl
length-remove_ahead lo t ((k, p) ∷ packets) lt (g, h) =
    ground (arith, length-remove_ahead (suc k) t packets (omega arith) h)

pub length-remove :
    (lo t : ℕ) (packets : Packets)
    → AscendFrom lo packets
    → contains_key packets t ≡ true
    → length packets ≡ suc (length (remove_packet packets t))
unfolding remove_packet contains_key
length-remove lo t [] h c = absurd (ground arith)
length-remove lo t ((k, p) ∷ packets) (g, h) c =
    ground (arith, length-remove (suc k) t packets h, length-remove_ahead (suc k) t packets)

pub length-insert :
    (t : ℕ) (p : BufferedPacket) (packets : Packets)
    → contains_key packets t ≡ false
    → length (insert_packet packets t p) ≡ suc (length packets)
unfolding insert_packet contains_key
length-insert t p [] c = refl
length-insert t p ((k, q) ∷ packets) c = ground (arith, length-insert t p packets)

none_oldest : (packets : Packets) → oldest_seq packets ≡ none → length packets ≡ 0
unfolding oldest_seq
none_oldest [] e = refl
none_oldest ((k, p) ∷ packets) e = absurd (ground arith)

-- The eviction drops what is too much and counts it.
pub evict_exact :
    (fuel max_packets dropped : ℕ) (packets : Packets)
    → length packets ≤ fuel
    → AscendFrom 0 packets
    → let r = evict fuel max_packets packets dropped in
      AscendFrom 0 r.0 × (length r.0 ≤ max_packets) × (length r.0 + r.1 ≡ length packets + dropped)
unfolding evict
evict_exact zero max_packets dropped packets le h = (h, omega arith, refl)
evict_exact (suc fuel) max_packets dropped packets le h = elim (Option-cases (oldest_seq packets)) [
  | inl e ↦ ground (arith, none_oldest packets e)
  | inr (t, e) ↦ ground (
    arith,
    length-remove 0 t packets h (oldest_seq-contains t packets e),
    evict_exact fuel max_packets (dropped + 1) (remove_packet packets t),
    remove-AscendFrom 0 t packets h,
  )
]

-- Every packet received since the last restart was dropped, came twice, is still there or is one of `n`
-- others; the size that the statistics show is that of the buffer, and within its bound.
abbrev pub IsAccounted : {F : Type 0} → ℕ → JitterBuffer F → Type 0
IsAccounted n b =
    (b.stats.packets_received
      ≡ b.stats.packets_dropped + b.stats.packets_duplicated + length b.packets + n)
    × (b.stats.buffer_size ≡ length b.packets)
    × (length b.packets ≤ b.config.max_packets)
    × AscendFrom 0 b.packets
