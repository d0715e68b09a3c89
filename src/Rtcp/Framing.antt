-- ===== src/Rtcp/Framing.antt =====
-- The loop of `parse_rtcp_compound`, src/rtp/rtcp.rs, over packets that are framed as the builders do it.
use rtp_sip_module.Prelude.{
  ℕ, zero, suc, ◌+◌, ◌*◌, ◌/◌, ◌%◌, ◌^◌, ◌≤◌, ◌<◌, ◌≡◌, inl, inr, refl, ap, ap₂, sym, ◌∙◌, true,
  false, List, [], ◌++◌, length, take, drop, length-append, length-drop, arith, Bool-cases,
}
use rtp_sip_module.Prelude.Bytes.{byte, u16_at, take-append_self, drop-append_self}
use rtp_sip_module.Rtcp.Build.{write_header}
use rtp_sip_module.Rtcp.Compound.{
  packet_len, accepts, effective_len, parse_packet, parse_first, push, parse_from,
  parse_rtcp_compound,
}

packet_len-lem : (rest : List ℕ) → 4 ≤ packet_len rest
unfolding packet_len u16_at
packet_len-lem rest = omega arith

accepts-length : (rest : List ℕ) → accepts rest ≡ true → 4 ≤ length rest
unfolding accepts
accepts-length rest h = ground arith

parse_from-more :
    (fuel : ℕ) (rest : List ℕ)
    → accepts rest ≡ true
    → parse_from (suc fuel) rest
      ≡ push (parse_first rest) (parse_from fuel (drop (packet_len rest) rest))
unfolding parse_from
parse_from-more fuel rest h = rw (h, parse_from) refl

parse_from-stop : (fuel : ℕ) (rest : List ℕ) → accepts rest ≡ false → parse_from fuel rest ≡ []
unfolding parse_from
parse_from-stop zero rest h = refl
parse_from-stop (suc fuel) rest h = rw (h, parse_from) refl

-- Any fuel that is at least the number of bytes gives the same packets.
pub parse_from-enough :
    (m n : ℕ) (rest : List ℕ)
    → length rest ≤ m
    → length rest ≤ n
    → parse_from m rest ≡ parse_from n rest
unfolding parse_from
parse_from-enough zero n rest p q = elim (Bool-cases (accepts rest)) [
  | inl more ↦ absurd (omega (arith, accepts-length rest more))
  | inr stop ↦ sym (parse_from-stop n rest stop)
]
parse_from-enough (suc m) zero rest p q = elim (Bool-cases (accepts rest)) [
  | inl more ↦ absurd (omega (arith, accepts-length rest more))
  | inr stop ↦ parse_from-stop (suc m) rest stop
]
parse_from-enough (suc m) (suc n) rest p q = elim (Bool-cases (accepts rest)) [
  | inl more ↦
      parse_from-more m rest more
      ∙ ap (λ t. push (parse_first rest) t)
          (parse_from-enough m n (drop (packet_len rest) rest) (shorter m p more)
            (shorter n q more))
      ∙ sym (parse_from-more n rest more)
  | inr stop ↦ parse_from-stop (suc m) rest stop ∙ sym (parse_from-stop (suc n) rest stop)
]
  where
    shorter :
        (k : ℕ)
        → length rest ≤ suc k
        → accepts rest ≡ true
        → length (drop (packet_len rest) rest) ≤ k
    shorter k le more =
        omega
          (arith, accepts-length rest more, packet_len-lem rest, length-drop (packet_len rest) rest)

accepts-of :
    (rest : List ℕ) → byte rest 0 / 64 % 4 ≡ 2 → packet_len rest ≤ length rest → accepts rest ≡ true
unfolding accepts
accepts-of rest version fits = ground (arith, packet_len-lem rest)

effective_len-of : (rest : List ℕ) → byte rest 0 / 32 % 2 ≡ 0 → effective_len rest ≡ packet_len rest
unfolding effective_len
effective_len-of rest no_padding = ground arith

module _ (rc pt words : ℕ) (body rest : List ℕ) (rc_fits : rc < 32) (words_fit : words < 2 ^ 16)
    (whole : length body ≡ words * 4) where
  packet : List ℕ
  packet = write_header 2 false rc pt words ++ body

  framed : List ℕ
  framed = packet ++ rest

  length_packet : length packet ≡ (words + 1) * 4
  unfolding packet write_header
  length_packet = omega arith

  packet_len-framed : packet_len framed ≡ (words + 1) * 4
  unfolding packet framed write_header packet_len u16_at
  packet_len-framed = omega arith

  first_byte : byte framed 0 ≡ 128 + rc
  unfolding packet framed write_header
  first_byte = omega arith

  accepts-framed : accepts framed ≡ true
  unfolding framed
  accepts-framed =
      accepts-of framed (omega (arith, first_byte))
        (omega (arith, packet_len-framed, length_packet, length-append packet rest))

  effective_len-framed : effective_len framed ≡ (words + 1) * 4
  effective_len-framed = effective_len-of framed (omega (arith, first_byte)) ∙ packet_len-framed

  type_byte : byte framed 1 ≡ pt
  unfolding framed packet write_header
  type_byte = refl

  parse_first-framed : parse_first framed ≡ parse_packet pt packet rc
  unfolding parse_first framed
  parse_first-framed =
      ap₂ (λ b t. parse_packet b t (byte framed 0 % 32)) type_byte
        (ap (λ n. take n framed) effective_len-framed
          ∙ take-append_self ((words + 1) * 4) packet rest length_packet)
      ∙ ap (λ n. parse_packet pt packet n) (omega (arith, first_byte))

  -- A framed packet is read as its own bytes, and the bytes after it as if they stood alone.
  pub parse_rtcp_compound-framed :
      parse_rtcp_compound ((write_header 2 false rc pt words ++ body) ++ rest)
      ≡ push
          (parse_packet pt (write_header 2 false rc pt words ++ body) rc)
          (parse_rtcp_compound rest)
  unfolding parse_rtcp_compound framed packet
  parse_rtcp_compound-framed =
      parse_from-enough (length framed) (suc (length framed)) framed (omega arith) (omega arith)
      ∙ parse_from-more (length framed) framed accepts-framed
      ∙ ap₂ push parse_first-framed (
          ap (λ t. parse_from (length framed) t) dropped
          ∙ parse_from-enough (length framed) (length rest) rest
              (omega (arith, length-append packet rest)) (omega arith))
    where
      dropped : drop (packet_len framed) framed ≡ rest
      dropped =
          ap (λ n. drop n framed) packet_len-framed
          ∙ drop-append_self ((words + 1) * 4) packet rest length_packet
