-- ===== src/Dtmf/Sender/Whole.antt =====
-- The packets of a whole digit, `generate_digit` of src/rtp/dtmf.rs.
use rtp_sip_module.Prelude.{
  ℕ, ◌+◌, ◌*◌, ◌%◌, ◌^◌, ◌≡◌, ◌≢◌, refl, ap, ap₂, ◌∙◌, Bool, true, false, ◌-◌, ◌/◌, ◌==◌, max,
  Option, none, some, List, [], ◌∷◌, ◌++◌, if◌then◌else◌, min, arith,
}
use rtp_sip_module.Dtmf.{DtmfEvent, from_char}
use rtp_sip_module.Dtmf.Payload.{payload_new, serialize}
use rtp_sip_module.Dtmf.Sender.{
  DtmfSender, DtmfPacket, Built, build_packet, build_three, build_copies, end_digit, begin_digit,
  start_digit, continue_all, Generated, generated, invalid_digit, division_by_zero, generate_digit,
}
use rtp_sip_module.Dtmf.Sender.Numbered.{
  AreNumbered, counter_after, IsRun, IsWholeDigit, AreNumbered-at, AreNumbered-append,
  continue_all-IsRun, end-three,
}

module _ (s : DtmfSender) (event : DtmfEvent) (digit duration_ms interval_ms seq ts : ℕ)
    (idle : s.out_digit ≡ none) (normal : s.rtp_bugs.sonus_dtmf_timestamp ≡ false)
    (known : from_char digit ≡ some event) (divides : interval_ms ≢ 0) where
  begun : Built DtmfPacket
  begun = begin_digit s event duration_ms seq ts interval_ms

  begun-IsRun :
      (begun.0.0.digit_timestamp ≡ ts)
      × (begun.0.0.rtp_bugs ≡ s.rtp_bugs)
      × (begun.0.0.out_digit ≡ some event)
      × (begun.1.timestamp ≡ ts)
      × (begun.1.sequence ≡ seq)
      × (begun.0.1 ≡ (seq + 1) % 2 ^ 16)
  unfolding begun begin_digit build_packet
  begun-IsRun = (
    ap (λ b. (stepped b).digit_timestamp) normal,
    ap (λ b. (stepped b).rtp_bugs) normal,
    ap (λ b. (stepped b).out_digit) normal,
    refl,
    refl,
    refl,
  )
    where
      started : DtmfSender
      started = record s {
        digit_timestamp = ts;
        out_digit = some event;
        out_digit_dur = min (duration_ms * 8) 4294967295;
        out_digit_sofar = 0;
      }

      stepped : Bool → DtmfSender
      stepped b = if b then record started { digit_timestamp = (ts + 160) % 2 ^ 32 } else started

  begun_normal : begun.0.0.rtp_bugs.sonus_dtmf_timestamp ≡ false
  begun_normal = ap (λ b. b.sonus_dtmf_timestamp) begun-IsRun.1 ∙ normal

  num_intervals : ℕ
  num_intervals = max ((duration_ms + interval_ms + 2 ^ 32 - 1) % 2 ^ 32 / interval_ms) 1

  middle : Built (List DtmfPacket)
  middle = continue_all num_intervals begun.0.0 interval_ms begun.0.1

  middle-IsRun : IsRun begun.0.0 begun.0.1 middle
  unfolding middle
  middle-IsRun = continue_all-IsRun num_intervals begun.0.0 interval_ms begun.0.1 begun_normal

  ended : Built (List DtmfPacket)
  ended = end_digit middle.0.0 middle.0.1

  whole : Built (List DtmfPacket)
  whole = (ended.0, (begun.1 ∷ []) ++ middle.1 ++ ended.1)

  start-idle : start_digit s digit duration_ms seq ts interval_ms ≡ some (begun.0, begun.1 ∷ [])
  unfolding start_digit begun end_digit
  start-idle = ap₂ (λ o e. start_of o e) known (ap (λ o. ended_of o) idle)
    where
      ended_of : Option DtmfEvent → Built (List DtmfPacket)
      ended_of o = elim o [
        | none ↦ ((s, seq), [])
        | some d ↦
            if s.rtp_bugs.sonus_dtmf_timestamp
            then build_three (record s { out_digit = none })
                (payload_new d true (min s.out_digit_sofar 65535)) seq
            else build_copies (record s { out_digit = none })
                (payload_new d true (min s.out_digit_sofar 65535)) seq
      ]

      start_of : Option DtmfEvent → Built (List DtmfPacket) → Option (Built (List DtmfPacket))
      start_of o e = elim o [
        | none ↦ none
        | some ev ↦ some (
          (begin_digit e.0.0 ev duration_ms e.0.1 ts interval_ms).0,
          e.1 ++ (begin_digit e.0.0 ev duration_ms e.0.1 ts interval_ms).1 ∷ [],
        )
      ]

  generate-whole : generate_digit s digit duration_ms interval_ms seq ts ≡ generated whole
  unfolding generate_digit whole ended middle num_intervals
  generate-whole = ap₂ (λ o b. generated_of o b) start-idle nonzero
    where
      nonzero : (interval_ms == 0) ≡ false
      nonzero = ground arith

      generated_of : Option (Built (List DtmfPacket)) → Bool → Generated
      generated_of o b = elim o [
        | none ↦ invalid_digit
        | some r ↦
            if b
            then division_by_zero
            else (let mid : Built (List DtmfPacket) =
                  continue_all num_intervals r.0.0 interval_ms r.0.1 in
                let fin : Built (List DtmfPacket) = end_digit mid.0.0 mid.0.1 in
                generated (fin.0, r.1 ++ mid.1 ++ fin.1))
      ]

  last_three :
      (last : DtmfPacket) × ((end_digit middle.0.0 middle.0.1).1 ≡ last ∷ last ∷ last ∷ [])
      × (last.timestamp ≡ middle.0.0.digit_timestamp)
      × (last.sequence ≡ middle.0.1)
      × (last.payload ≡ serialize (payload_new event true (min middle.0.0.out_digit_sofar 65535)))
      × ((end_digit middle.0.0 middle.0.1).0.1 ≡ (middle.0.1 + 1) % 2 ^ 16)
  last_three =
      end-three middle.0.0 event middle.0.1 (middle-IsRun.2 ∙ begun-IsRun.2)
        (ap (λ b. b.sonus_dtmf_timestamp) middle-IsRun.1 ∙ begun_normal)

  middle_numbered : AreNumbered ts ((seq + 1) % 2 ^ 16) middle.1
  middle_numbered = AreNumbered-at middle.1 begun-IsRun.0 begun-IsRun.5 middle-IsRun.3

  middle_counter : middle.0.1 ≡ counter_after ((seq + 1) % 2 ^ 16) middle.1
  middle_counter = middle-IsRun.4 ∙ ap (λ k. counter_after k middle.1) begun-IsRun.5

  -- the middle and the last packet
  tail_numbered :
      AreNumbered ts ((seq + 1) % 2 ^ 16) (middle.1 ++ last_three.0 ∷ [])
      × (counter_after (counter_after ((seq + 1) % 2 ^ 16) middle.1) (last_three.0 ∷ [])
          ≡ counter_after ((seq + 1) % 2 ^ 16) (middle.1 ++ last_three.0 ∷ []))
  tail_numbered =
      AreNumbered-append ts ((seq + 1) % 2 ^ 16) middle.1 (last_three.0 ∷ []) middle_numbered
        (last_three.2 ∙ middle-IsRun.0 ∙ begun-IsRun.0, last_three.3 ∙ middle_counter, tt)

  whole-IsWholeDigit : IsWholeDigit event ts seq whole
  unfolding whole ended
  whole-IsWholeDigit = (
    begun.1 ∷ middle.1,
    last_three.0,
    min middle.0.0.out_digit_sofar 65535,
    ap (λ t. begun.1 ∷ (middle.1 ++ t)) last_three.1,
    (begun-IsRun.3, begun-IsRun.4, tail_numbered.0),
    last_three.5 ∙ ap (λ k. (k + 1) % 2 ^ 16) middle_counter ∙ tail_numbered.1,
    last_three.4,
  )

-- A sender that is not in a digit, with the workaround for Sonus off, generates for every digit and every
-- interval that is not 0 some packets with the given timestamp and one number after the other from the shared
-- counter on, the last of them three times and with the end bit of that digit. The counter moves past all
-- of them, and the copies take no number of their own.
pub generate_digit-IsWholeDigit :
    (s : DtmfSender) (event : DtmfEvent) (digit duration_ms interval_ms seq ts : ℕ)
    → s.out_digit ≡ none
    → s.rtp_bugs.sonus_dtmf_timestamp ≡ false
    → from_char digit ≡ some event
    → interval_ms ≢ 0
    → (r : Built (List DtmfPacket)) × (generate_digit s digit duration_ms interval_ms seq ts
        ≡ generated r)
      × IsWholeDigit event ts seq r
generate_digit-IsWholeDigit s event digit duration_ms interval_ms seq ts idle normal known divides =
    (
      whole s event digit duration_ms interval_ms seq ts idle normal known divides,
      generate-whole s event digit duration_ms interval_ms seq ts idle normal known divides,
      whole-IsWholeDigit s event digit duration_ms interval_ms seq ts idle normal known divides,
    )
