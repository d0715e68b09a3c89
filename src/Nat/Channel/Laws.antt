-- ===== src/Nat/Channel/Laws.antt =====
-- ChannelData that is built and parsed again, src/nat/turn/message.rs.
use rtp_sip_module.Prelude.{
  ℕ, zero, suc, ◌+◌, ◌*◌, ◌/◌, ◌%◌, ◌≤◌, ◌<◌, ◌≡◌, refl, sym, ap, ap₂, ◌∙◌, ◌⊎◌, inl, inr, true,
  some, List, [], ◌∷◌, ◌++◌, length, take, drop, length-append, append_nil, append_assoc, arith,
}
use rtp_sip_module.Prelude.Bytes.{u16_at, be16}
use rtp_sip_module.Nat.Channel.{is_valid_channel, parse_channel_data, pad, build_channel_data}

zero_or_pos : (n : ℕ) → (n ≡ 0) ⊎ (0 < n)
zero_or_pos n = omega arith

next_round :
    (fuel : ℕ) (buf : List ℕ)
    → (4 ≤ suc fuel + length buf % 4) ⊎ (length buf % 4 ≡ 0)
    → 0 < length buf % 4
    → (4 ≤ fuel + length (buf ++ (0 ∷ [])) % 4) ⊎ (length (buf ++ (0 ∷ [])) % 4 ≡ 0)
next_round fuel buf h p = omega (arith, length-append {0} buf (0 ∷ []))

pad_done : (fuel : ℕ) (buf : List ℕ) → length buf % 4 ≡ 0 → pad (suc fuel) buf ≡ buf
unfolding pad
pad_done fuel buf h = ground arith

pad_more :
    (fuel : ℕ) (buf : List ℕ) → 0 < length buf % 4 → pad (suc fuel) buf ≡ pad fuel (buf ++ (0 ∷ []))
unfolding pad
pad_more fuel buf h = ground arith

-- Each round of padding moves the length up by one, so the missing number of rounds is enough.
pad_fills :
    (fuel : ℕ) (buf : List ℕ)
    → (4 ≤ fuel + length buf % 4) ⊎ (length buf % 4 ≡ 0)
    → length (pad fuel buf) % 4 ≡ 0
unfolding pad
pad_fills zero buf h = omega arith
pad_fills (suc fuel) buf h = elim (zero_or_pos (length buf % 4)) [
  | inl e ↦ ap (λ b. length b % 4) (pad_done fuel buf e) ∙ e
  | inr p ↦
      ap (λ b. length b % 4) (pad_more fuel buf p)
      ∙ pad_fills fuel (buf ++ (0 ∷ [])) (next_round fuel buf h p)
]

-- Padding puts bytes behind a buffer.
pub pad_extends : (fuel : ℕ) (buf : List ℕ) → (zeros : List ℕ) × (pad fuel buf ≡ buf ++ zeros)
unfolding pad
pad_extends zero buf = ([], sym (append_nil buf))
pad_extends (suc fuel) buf = elim (zero_or_pos (length buf % 4)) [
  | inl e ↦ ([], pad_done fuel buf e ∙ sym (append_nil buf))
  | inr p ↦
      let (zeros, e) = pad_extends fuel (buf ++ (0 ∷ [])) in
      (0 ∷ zeros, pad_more fuel buf p ∙ e ∙ append_assoc buf (0 ∷ []) zeros)
]

start : (r : ℕ) → (4 ≤ 3 + r) ⊎ (r ≡ 0)
start r = omega arith

-- Built channel data is a whole number of 32-bit words.
pub build_channel_data-length :
    (channel : ℕ) (payload : List ℕ) → length (build_channel_data channel payload) % 4 ≡ 0
unfolding build_channel_data
build_channel_data-length channel payload =
    pad_fills 3 (be16 channel ++ (be16 (length payload) ++ payload))
      (start (length (be16 channel ++ (be16 (length payload) ++ payload)) % 4))

parse_own_fields :
    (bytes : List ℕ)
    → is_valid_channel (u16_at bytes 0) ≡ true
    → 4 + u16_at bytes 2 ≤ length bytes
    → parse_channel_data bytes ≡ some (u16_at bytes 0, take (u16_at bytes 2) (drop 4 bytes))
unfolding parse_channel_data
parse_own_fields bytes v h = ground arith

parse_channel_data_of :
    (bytes : List ℕ) (channel len : ℕ)
    → u16_at bytes 0 ≡ channel
    → u16_at bytes 2 ≡ len
    → is_valid_channel channel ≡ true
    → 4 + len ≤ length bytes
    → parse_channel_data bytes ≡ some (channel, take len (drop 4 bytes))
unfolding parse_channel_data
parse_channel_data_of bytes channel len e₀ e₁ v h =
    parse_own_fields bytes (ap is_valid_channel e₀ ∙ v) (omega arith)
    ∙ ap₂ (λ c l. some (c, take l (drop 4 bytes))) e₀ e₁

be16-value : (n : ℕ) → n / 256 % 256 * 256 + n % 256 ≡ n % 65536
be16-value n = omega arith

pub is_valid_channel-range :
    (channel : ℕ) → is_valid_channel channel ≡ true → (0x4000 ≤ channel) × (channel ≤ 0x7ffe)
unfolding is_valid_channel
is_valid_channel-range channel h = ground arith

small : (n : ℕ) → n ≤ 0x7ffe → n % 65536 ≡ n
small n h = omega arith

mod-le : (n m : ℕ) → n % 65536 ≤ n + m
mod-le n m = omega arith

take-append_left : (n : ℕ) (xs ys : List ℕ) → n ≤ length xs → take n (xs ++ ys) ≡ take n xs
take-append_left zero xs ys h = refl
take-append_left (suc n) [] ys h = absurd (omega arith)
take-append_left (suc n) (x ∷ xs) ys h = ap (λ t. x ∷ t) (take-append_left n xs ys (omega arith))

-- The header and the payload, with any bytes behind, parse.
parse_channel_data-header :
    (channel : ℕ) (payload rest : List ℕ)
    → is_valid_channel channel ≡ true
    → parse_channel_data (be16 channel ++ (be16 (length payload) ++ (payload ++ rest)))
      ≡ some (channel, take (length payload % 65536) (payload ++ rest))
unfolding u16_at
parse_channel_data-header channel payload rest v =
    parse_channel_data_of (be16 channel ++ (be16 (length payload) ++ (payload ++ rest))) channel
      (length payload % 65536)
      (be16-value channel ∙ small channel (is_valid_channel-range channel v).1)
      (be16-value (length payload)) v (omega (arith, length-append {0} payload rest))

-- For a valid channel, parsing what `build_channel_data` built gives the channel back, and as many bytes
-- of the payload as the 16-bit length field can say: the whole payload below 65536 bytes.
pub parse-build_channel_data :
    (channel : ℕ) (payload : List ℕ)
    → is_valid_channel channel ≡ true
    → parse_channel_data (build_channel_data channel payload)
      ≡ some (channel, take (length payload % 65536) payload)
unfolding build_channel_data
parse-build_channel_data channel payload v =
    let (zeros, e) = pad_extends 3 (be16 channel ++ (be16 (length payload) ++ payload)) in
    ap parse_channel_data e
    ∙ parse_channel_data-header channel payload zeros v
    ∙ ap (λ t. some (channel, t))
        (take-append_left (length payload % 65536) payload zeros (omega arith))
