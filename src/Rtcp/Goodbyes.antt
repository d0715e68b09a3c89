-- ===== src/Rtcp/Goodbyes.antt =====
-- The parsers of src/rtp/rtcp.rs read the goodbyes that its builder writes.
use rtp_sip_module.Prelude.{
  ℕ, zero, suc, ◌+◌, ◌-◌, ◌*◌, ◌/◌, ◌%◌, ◌^◌, ◌≤◌, ◌<◌, ◌≡◌, refl, ap, ap₂, ◌∙◌, true, Option, none,
  some, List, [], ◌∷◌, ◌++◌, min, length, take, drop, replicate, length-append, length-take,
  length-drop, length-replicate, arith,
}
use rtp_sip_module.Prelude.Bytes.{u32_at, take-append_self}
use rtp_sip_module.Prelude.Utf8.{is_utf8}
use rtp_sip_module.Rtcp.{goodbye, pt_bye}
use rtp_sip_module.Rtcp.Fields.{word}
use rtp_sip_module.Rtcp.Build.{
  align, write_header, reason_len, write_reason, write_sources, build_bye,
}
use rtp_sip_module.Rtcp.Parse.{text_of, parse_sources, parse_reason, parse_bye}
use rtp_sip_module.Rtcp.Compound.{parse_packet, push, parse_rtcp_compound}
use rtp_sip_module.Rtcp.Framing.{parse_rtcp_compound-framed}
use rtp_sip_module.Rtcp.Texts.{text_of-lem, take-min}

length-write_sources : (sources : List ℕ) → length (write_sources sources) ≡ length sources * 4
unfolding write_sources
length-write_sources [] = refl
length-write_sources (ssrc ∷ sources) = omega (arith, length-write_sources sources)

-- Every source is a word.
abbrev pub AllWords : List ℕ → Type 0
AllWords [] = Unit
AllWords (w ∷ ws) = (w < 2 ^ 32) × AllWords ws

AllWords-take : (n : ℕ) (ws : List ℕ) → AllWords ws → AllWords (take n ws)
AllWords-take zero ws h = tt
AllWords-take (suc n) [] h = tt
AllWords-take (suc n) (w ∷ ws) h = (h.0, AllWords-take n ws h.1)

parse_sources-more :
    (sc : ℕ) (rest : List ℕ)
    → 4 ≤ length rest
    → parse_sources (suc sc) rest
      ≡ (u32_at rest 0 ∷ (parse_sources sc (drop 4 rest)).0, (parse_sources sc (drop 4 rest)).1)
unfolding parse_sources
parse_sources-more sc rest h = ground arith

parse-write_sources :
    (sources rest : List ℕ)
    → AllWords sources
    → parse_sources (length sources) (write_sources sources ++ rest) ≡ (sources, rest)
unfolding parse_sources write_sources u32_at
parse-write_sources [] rest h = refl
parse-write_sources (ssrc ∷ sources) rest h =
    parse_sources-more (length sources) (write_sources (ssrc ∷ sources) ++ rest) (omega arith)
    ∙ ap₂ (λ w found. (w ∷ found.0, found.1)) {y = ssrc} (word ssrc h.0)
        (parse-write_sources sources rest h.1)

-- the reason as far as it fits
abbrev pub sent_reason : Option (List ℕ) → Option (List ℕ)
sent_reason none = none
sent_reason (some r) = some (take 255 r)

-- What is sent of the reason is a text.
abbrev pub ReasonIsText : Option (List ℕ) → Type 0
ReasonIsText none = Unit
ReasonIsText (some r) = is_utf8 (take 255 r) ≡ true

parse_reason-text :
    (n : ℕ) (text rest : List ℕ) → length text ≡ n → parse_reason (n ∷ text ++ rest) ≡ text_of text
unfolding parse_reason
parse_reason-text n text rest e = fits ∙ ap text_of (take-append_self n text rest e)
  where
    fits : parse_reason (n ∷ text ++ rest) ≡ text_of (take n (text ++ rest))
    fits = ground (arith, length-append text rest)

reason_found :
    (reason : Option (List ℕ))
    → ReasonIsText reason
    → parse_reason (write_reason reason) ≡ sent_reason reason
unfolding parse_reason write_reason
reason_found none h = refl
reason_found (some r) h =
    parse_reason-text (min (length r) 255) sent
      (replicate (align (1 + min (length r) 255) - (1 + min (length r) 255)) 0)
      (omega (arith, length-take (min (length r) 255) r))
    ∙ ap text_of (take-min 255 (min (length r) 255) r refl)
    ∙ text_of-lem (take 255 r) h
  where
    sent : List ℕ
    sent = take (min (length r) 255) r

length-write_reason : (reason : Option (List ℕ)) → length (write_reason reason) ≡ reason_len reason
unfolding write_reason reason_len
length-write_reason none = refl
length-write_reason (some r) = omega (
  arith,
  length-append (take (min (length r) 255) r)
      (replicate (align (1 + min (length r) 255) - (1 + min (length r) 255)) 0),
  length-take (min (length r) 255) r,
  length-replicate {A = ℕ} (align (1 + min (length r) 255) - (1 + min (length r) 255)) 0,
)

reason_len-lem :
    (reason : Option (List ℕ)) → (reason_len reason % 4 ≡ 0) × (reason_len reason ≤ 256)
unfolding reason_len
reason_len-lem none = (refl, omega arith)
reason_len-lem (some r) = (omega arith, omega arith)

module _ (sources : List ℕ) (reason : Option (List ℕ)) where
  bye_bytes : List ℕ
  bye_bytes = build_bye sources reason

  length_sources : length (write_sources (take 31 sources)) ≡ min (length sources) 31 * 4
  length_sources = omega (arith, length-write_sources (take 31 sources), length-take 31 sources)

  length_bye : length bye_bytes ≡ 4 + min (length sources) 31 * 4 + reason_len reason
  unfolding bye_bytes build_bye write_header
  length_bye = omega (
    arith,
    length-append (write_sources (take 31 sources)) (write_reason reason),
    length_sources,
    length-write_reason reason,
  )

  sources_found :
      AllWords sources
      → parse_sources
          (min (length sources) 31)
          (write_sources (take 31 sources) ++ write_reason reason)
        ≡ (take 31 sources, write_reason reason)
  sources_found h =
      ap (λ n. parse_sources n (write_sources (take 31 sources) ++ write_reason reason))
        {x = min (length sources) 31} (omega (arith, length-take 31 sources))
      ∙ parse-write_sources (take 31 sources) (write_reason reason) (AllWords-take 31 sources h)

  bye_packet :
      AllWords sources
      → ReasonIsText reason
      → parse_packet pt_bye bye_bytes (min (length sources) 31)
        ≡ some (goodbye (record { sources = take 31 sources; reason = sent_reason reason }))
  unfolding bye_bytes build_bye write_header parse_packet parse_bye
  bye_packet w t =
      ap (λ found. some (goodbye (record { sources = found.0; reason = parse_reason found.1 })))
        (sources_found w)
      ∙ ap (λ r. some (goodbye (record { sources = take 31 sources; reason = r })))
          (reason_found reason t)

  -- A goodbye is read as itself, and then what follows it.
  pub parse-build_bye :
      (rest : List ℕ)
      → AllWords sources
      → ReasonIsText reason
      → parse_rtcp_compound (build_bye sources reason ++ rest)
        ≡ goodbye (record { sources = take 31 sources; reason = sent_reason reason })
          ∷ parse_rtcp_compound rest
  unfolding bye_bytes build_bye write_header
  parse-build_bye rest w t =
      parse_rtcp_compound-framed (min (length sources) 31) pt_bye
        ((4 + min (length sources) 31 * 4 + reason_len reason) / 4 - 1) (drop 4 bye_bytes) rest
        (omega arith) (omega (arith, (reason_len-lem reason).1))
        (omega (arith, length-drop 4 bye_bytes, length_bye, (reason_len-lem reason).0))
      ∙ ap (λ p. push p (parse_rtcp_compound rest)) (bye_packet w t)
