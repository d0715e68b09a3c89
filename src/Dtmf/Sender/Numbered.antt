-- ===== src/Dtmf/Sender/Numbered.antt =====
-- The numbers and timestamps of the packets of a digit, src/rtp/dtmf.rs, where the workaround for Sonus is off.
use mathlib.Core.Path.{subst}
use rtp_sip_module.Prelude.{
  ℕ, zero, suc, ◌+◌, ◌%◌, ◌^◌, ◌≡◌, refl, ap, ap₂, ◌∙◌, Bool, true, false, Option, none, some, List,
  [], ◌∷◌, ◌++◌, if◌then◌else◌, leb, min,
}
use rtp_sip_module.Dtmf.{DtmfEvent}
use rtp_sip_module.Dtmf.Payload.{DtmfPayload, payload_new, serialize, ms_to_timestamp}
use rtp_sip_module.Dtmf.Sender.{
  DtmfSender, DtmfPacket, Built, build_packet, build_three, build_copies, end_digit, continue_digit,
  continue_all, add_packet,
}

-- The packets have this timestamp and one number after the other, from `seq` on.
abbrev pub AreNumbered : ℕ → ℕ → List DtmfPacket → Type 0
AreNumbered ts seq [] = Unit
AreNumbered ts seq (p ∷ packets) =
    (p.timestamp ≡ ts) × (p.sequence ≡ seq) × AreNumbered ts ((seq + 1) % 2 ^ 16) packets

-- the shared counter after the packets
abbrev pub counter_after : ℕ → List DtmfPacket → ℕ
counter_after seq [] = seq
counter_after seq (p ∷ packets) = counter_after ((seq + 1) % 2 ^ 16) packets

-- The sender keeps its timestamp, its flags and its digit, and the packets are numbered from the counter.
abbrev pub IsRun : DtmfSender → ℕ → Built (List DtmfPacket) → Type 0
IsRun s seq r =
    (r.0.0.digit_timestamp ≡ s.digit_timestamp)
    × (r.0.0.rtp_bugs ≡ s.rtp_bugs)
    × (r.0.0.out_digit ≡ s.out_digit)
    × AreNumbered s.digit_timestamp seq r.1
    × (r.0.1 ≡ counter_after seq r.1)

abbrev as_list : Built (Option DtmfPacket) → Built (List DtmfPacket)
as_list r = (r.0, add_packet r.1 [])

build-IsRun :
    (s : DtmfSender) (payload : DtmfPayload) (marker : Bool) (seq : ℕ)
    → s.rtp_bugs.sonus_dtmf_timestamp ≡ false
    → IsRun s seq
        ((build_packet s payload marker seq).0, (build_packet s payload marker seq).1 ∷ [])
unfolding build_packet
build-IsRun s payload marker seq normal = (
  ap (λ b. (stepped b).digit_timestamp) normal,
  ap (λ b. (stepped b).rtp_bugs) normal,
  ap (λ b. (stepped b).out_digit) normal,
  (refl, refl, tt),
  refl,
)
  where
    stepped : Bool → DtmfSender
    stepped b = if b then record s { digit_timestamp = (s.digit_timestamp + 160) % 2 ^ 32 } else s

continue-IsRun :
    (s : DtmfSender) (interval_ms seq : ℕ)
    → s.rtp_bugs.sonus_dtmf_timestamp ≡ false
    → IsRun s seq (as_list (continue_digit s interval_ms seq))
unfolding continue_digit
continue-IsRun s interval_ms seq normal =
    of_tests s.out_digit (leb s.out_digit_dur s.out_digit_sofar) (leb s.out_digit_dur sofar)
  where
    sofar : ℕ
    sofar = (s.out_digit_sofar + ms_to_timestamp interval_ms) % 2 ^ 32

    advanced : DtmfSender
    advanced = record s { out_digit_sofar = sofar }

    more : DtmfEvent → Built DtmfPacket
    more digit = build_packet advanced (payload_new digit false (min sofar 65535)) false seq

    of_tests :
        (o : Option DtmfEvent) (b c : Bool)
        → IsRun s seq (
            as_list (elim o [
              | none ↦ ((s, seq), none)
              | some digit ↦
                  if b
                  then ((s, seq), none)
                  else if c
                  then ((advanced, seq), none)
                  else ((more digit).0, some (more digit).1)
            ]))
    of_tests none b c = (refl, refl, refl, tt, refl)
    of_tests (some digit) true c = (refl, refl, refl, tt, refl)
    of_tests (some digit) false true = (refl, refl, refl, tt, refl)
    of_tests (some digit) false false =
        build-IsRun advanced (payload_new digit false (min sofar 65535)) false seq normal

pub AreNumbered-at :
    {ts ts' seq seq' : ℕ} (packets : List DtmfPacket)
    → ts ≡ ts'
    → seq ≡ seq'
    → AreNumbered ts seq packets
    → AreNumbered ts' seq' packets
AreNumbered-at {ts' = ts'} {seq = seq} packets e f h =
    subst (λ q. AreNumbered ts' q packets) f (subst (λ t. AreNumbered t seq packets) e h)

pub AreNumbered-append :
    (ts seq : ℕ) (ps qs : List DtmfPacket)
    → AreNumbered ts seq ps
    → AreNumbered ts (counter_after seq ps) qs
    → AreNumbered ts seq (ps ++ qs)
      × (counter_after (counter_after seq ps) qs ≡ counter_after seq (ps ++ qs))
AreNumbered-append ts seq [] qs a b = (b, refl)
AreNumbered-append ts seq (p ∷ ps) qs (t, q, a) b =
    let rest : AreNumbered ts ((seq + 1) % 2 ^ 16) (ps ++ qs)
        × (counter_after (counter_after ((seq + 1) % 2 ^ 16) ps) qs
            ≡ counter_after ((seq + 1) % 2 ^ 16) (ps ++ qs)) =
      AreNumbered-append ts ((seq + 1) % 2 ^ 16) ps qs a b in
    ((t, q, rest.0), rest.1)

AreNumbered-add :
    (o : Option DtmfPacket) (ts seq : ℕ) (packets : List DtmfPacket)
    → AreNumbered ts seq (add_packet o [])
    → AreNumbered ts (counter_after seq (add_packet o [])) packets
    → AreNumbered ts seq (add_packet o packets)
      × (counter_after (counter_after seq (add_packet o [])) packets
          ≡ counter_after seq (add_packet o packets))
AreNumbered-add none ts seq packets a b = (b, refl)
AreNumbered-add (some p) ts seq packets (t, q, u) b = ((t, q, b), refl)

pub continue_all-IsRun :
    (n : ℕ) (s : DtmfSender) (interval_ms seq : ℕ)
    → s.rtp_bugs.sonus_dtmf_timestamp ≡ false
    → IsRun s seq (continue_all n s interval_ms seq)
unfolding continue_all
continue_all-IsRun zero s interval_ms seq normal = (refl, refl, refl, tt, refl)
continue_all-IsRun (suc n) s interval_ms seq normal =
    joined (continue-IsRun s interval_ms seq normal) (
      continue_all-IsRun n (continue_digit s interval_ms seq).0.0 interval_ms
        (continue_digit s interval_ms seq).0.1
        (ap (λ b. b.sonus_dtmf_timestamp) (continue-IsRun s interval_ms seq normal).1 ∙ normal))
  where
    one : Built (Option DtmfPacket)
    one = continue_digit s interval_ms seq

    rest : Built (List DtmfPacket)
    rest = continue_all n one.0.0 interval_ms one.0.1

    joined :
        IsRun s seq (as_list one)
        → IsRun one.0.0 one.0.1 rest
        → IsRun s seq (rest.0, add_packet one.1 rest.1)
    joined (t, b, o, a, c) (t', b', o', a', c') =
        (t' ∙ t, b' ∙ b, o' ∙ o, added.0, c' ∙ ap (λ k. counter_after k rest.1) c ∙ added.1)
      where
        moved : AreNumbered s.digit_timestamp (counter_after seq (add_packet one.1 [])) rest.1
        moved = AreNumbered-at rest.1 t c a'

        added :
            AreNumbered s.digit_timestamp seq (add_packet one.1 rest.1)
            × (counter_after (counter_after seq (add_packet one.1 [])) rest.1
                ≡ counter_after seq (add_packet one.1 rest.1))
        added = AreNumbered-add one.1 s.digit_timestamp seq rest.1 a moved

-- Some packets with one number after the other, the last of them three times and with the end bit.
abbrev pub IsWholeDigit : DtmfEvent → ℕ → ℕ → Built (List DtmfPacket) → Type 0
IsWholeDigit event ts seq r =
    (run : List DtmfPacket) × (last : DtmfPacket) × (duration : ℕ) × (r.1
      ≡ run ++ last ∷ last ∷ last ∷ [])
    × AreNumbered ts seq (run ++ last ∷ [])
    × (r.0.1 ≡ counter_after seq (run ++ last ∷ []))
    × (last.payload ≡ serialize (payload_new event true duration))

pub end-three :
    (s : DtmfSender) (event : DtmfEvent) (seq : ℕ)
    → s.out_digit ≡ some event
    → s.rtp_bugs.sonus_dtmf_timestamp ≡ false
    → (last : DtmfPacket) × ((end_digit s seq).1 ≡ last ∷ last ∷ last ∷ [])
      × (last.timestamp ≡ s.digit_timestamp)
      × (last.sequence ≡ seq)
      × (last.payload ≡ serialize (payload_new event true (min s.out_digit_sofar 65535)))
      × ((end_digit s seq).0.1 ≡ (seq + 1) % 2 ^ 16)
unfolding end_digit build_copies build_packet
end-three s event seq some_digit normal = (
  (build_packet idle payload false seq).1,
  (ap₂ (λ o b. (ended o b).1) some_digit normal),
  refl,
  refl,
  refl,
  (ap₂ (λ o b. (ended o b).0.1) some_digit normal),
)
  where
    idle : DtmfSender
    idle = record s { out_digit = none }

    payload : DtmfPayload
    payload = payload_new event true (min s.out_digit_sofar 65535)

    ended : Option DtmfEvent → Bool → Built (List DtmfPacket)
    ended o b = elim o [
      | none ↦ ((s, seq), [])
      | some digit ↦
          if b
          then build_three idle (payload_new digit true (min s.out_digit_sofar 65535)) seq
          else build_copies idle (payload_new digit true (min s.out_digit_sofar 65535)) seq
    ]
