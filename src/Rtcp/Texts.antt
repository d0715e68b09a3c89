-- ===== src/Rtcp/Texts.antt =====
-- The parsers of src/rtp/rtcp.rs read the names and the reasons that its builders write.
use rtp_sip_module.Prelude.{
  ℕ, zero, suc, ◌+◌, ◌-◌, ◌/◌, ◌^◌, ◌≤◌, ◌<◌, ◌≡◌, refl, ap, ap₂, ◌∙◌, true, Option, none, some,
  List, [], ◌∷◌, ◌++◌, if◌then◌else◌, min, ◌==◌, length, take, drop, replicate, length-append,
  length-take, length-drop, length-replicate, arith,
}
use rtp_sip_module.Prelude.Bytes.{byte, u32_at, take-append_self, drop-append_self}
use rtp_sip_module.Prelude.Utf8.{is_utf8}
use rtp_sip_module.Rtcp.{source_description, pt_sdes}
use rtp_sip_module.Rtcp.Fields.{word}
use rtp_sip_module.Rtcp.Build.{align, write_header, build_sdes_cname}
use rtp_sip_module.Rtcp.Parse.{text_of, parse_items, parse_chunks, parse_sdes}
use rtp_sip_module.Rtcp.Compound.{parse_packet, push, parse_rtcp_compound}
use rtp_sip_module.Rtcp.Framing.{parse_rtcp_compound-framed}

parse_items-more :
    (fuel offset item : ℕ) (rest : List ℕ) (before : Option (List ℕ))
    → 1 + byte rest 0 ≤ length rest
    → parse_items (suc fuel) offset (suc item ∷ rest) before
      ≡ parse_items fuel
          (offset + 2 + byte rest 0)
          (drop (1 + byte rest 0) rest)
          (if suc item == 1 then text_of (take (byte rest 0) (drop 1 rest)) else before)
unfolding parse_items
parse_items-more fuel offset item rest before h = ground arith

-- An item that is a name replaces the one before.
parse_items-name :
    (fuel offset n : ℕ) (name rest : List ℕ) (before : Option (List ℕ))
    → length name ≡ n
    → parse_items (suc fuel) offset (1 ∷ n ∷ name ++ rest) before
      ≡ parse_items fuel (offset + 2 + n) rest (text_of name)
parse_items-name fuel offset n name rest before e =
    parse_items-more fuel offset 0 (n ∷ name ++ rest) before
      (omega (arith, length-append name rest))
    ∙ ap₂ (λ left t. parse_items fuel (offset + 2 + n) left (text_of t))
        (ap (λ k. drop k (n ∷ name ++ rest)) {x = 1 + n} {y = suc n} (omega arith)
          ∙ drop-append_self n name rest e)
        (take-append_self n name rest e)

-- A zero byte ends the items.
parse_items-end :
    (fuel offset k : ℕ) (cname : Option (List ℕ))
    → 0 < k
    → (parse_items (suc fuel) offset (replicate k 0) cname).0 ≡ cname
unfolding parse_items
parse_items-end fuel offset zero cname h = elim h [ ]
parse_items-end fuel offset (suc k) cname h = refl

pub text_of-lem : (bytes : List ℕ) → is_utf8 bytes ≡ true → text_of bytes ≡ some bytes
unfolding text_of
text_of-lem bytes h = rw h refl

pub take-min {ℓ} :
    {A : Type ℓ} (n k : ℕ) (xs : List A) → k ≡ min (length xs) n → take k xs ≡ take n xs
take-min zero zero xs e = refl
take-min zero (suc k) xs e = absurd (omega arith)
take-min (suc n) zero [] e = refl
take-min (suc n) (suc k) [] e = refl
take-min (suc n) zero (x ∷ xs) e = absurd (omega arith)
take-min (suc n) (suc k) (x ∷ xs) e = ap (λ t. x ∷ t) (take-min n k xs (omega arith))

parse_chunks-more :
    (sc offset : ℕ) (rest : List ℕ)
    → 4 ≤ length rest
    → parse_chunks (suc sc) offset rest
      ≡ record {
        ssrc = u32_at rest 0;
        cname = (parse_items (length rest) (offset + 4) (drop 4 rest) none).0;
      }
        ∷ parse_chunks sc
            (parse_items (length rest) (offset + 4) (drop 4 rest) none).1.0
            (parse_items (length rest) (offset + 4) (drop 4 rest) none).1.1
unfolding parse_chunks
parse_chunks-more sc offset rest h = ground arith

module _ (ssrc : ℕ) (cname : List ℕ) where
  sdes_bytes : List ℕ
  sdes_bytes = build_sdes_cname ssrc cname

  -- the name as far as it fits
  abbrev pub sent_name : List ℕ
  sent_name = take 255 cname

  zeros : ℕ
  zeros = 4 + 4 + align (2 + min (length cname) 255 + 1) - (10 + min (length cname) 255)

  zeros-positive : 0 < zeros
  unfolding zeros
  zeros-positive = omega arith

  name_len : ℕ
  name_len = min (length cname) 255

  name : List ℕ
  name = take name_len cname

  length_name : length name ≡ name_len
  unfolding name name_len
  length_name = omega (arith, length-take (min (length cname) 255) cname)

  items : List ℕ
  items = 1 ∷ name_len ∷ name ++ replicate zeros 0

  length-items : length items ≡ align (2 + min (length cname) 255 + 1)
  unfolding items zeros name_len
  length-items =
      omega (
        arith,
        length-append name (replicate zeros 0),
        length_name,
        length-replicate {A = ℕ} zeros 0,
      )

  name_found :
      is_utf8 sent_name ≡ true
      → (parse_items (suc (suc (suc (suc (length items))))) 8 items none).0 ≡ some sent_name
  unfolding items name name_len
  name_found h =
      ap (λ t. t.0)
        (ap (λ f. parse_items f 8 items none) {x = suc (suc (suc (suc (length items))))}
            {y = suc (suc (length items + 2))} (omega arith)
          ∙ parse_items-name (suc (length items + 2)) 8 name_len name (replicate zeros 0) none
              length_name)
      ∙ parse_items-end (length items + 2) (8 + 2 + name_len) zeros (text_of name) zeros-positive
      ∙ ap text_of (take-min 255 name_len cname refl)
      ∙ text_of-lem sent_name h

  length_sdes : length sdes_bytes ≡ 8 + align (2 + min (length cname) 255 + 1)
  unfolding sdes_bytes build_sdes_cname write_header items zeros name name_len
  length_sdes = omega (arith, length-items)

  sdes_packet :
      ssrc < 2 ^ 32
      → is_utf8 sent_name ≡ true
      → parse_packet pt_sdes sdes_bytes 1
        ≡ some (
            source_description
              (record { chunks = record { ssrc = ssrc; cname = some sent_name } ∷ [] }))
  unfolding sdes_bytes build_sdes_cname write_header parse_packet parse_sdes items zeros name
      name_len parse_chunks u32_at
  sdes_packet s h =
      ap (λ t. some (source_description (record { chunks = t })))
        (parse_chunks-more 0 4 (drop 4 sdes_bytes)
            (omega (arith, length-drop 4 sdes_bytes, length_sdes))
          ∙ (λ i. record { ssrc = word ssrc s i; cname = name_found h i } ∷ []))

  -- A description is read as itself, and then what follows it.
  pub parse-build_sdes :
      (rest : List ℕ)
      → ssrc < 2 ^ 32
      → is_utf8 sent_name ≡ true
      → parse_rtcp_compound (build_sdes_cname ssrc cname ++ rest)
        ≡ source_description
            (record { chunks = record { ssrc = ssrc; cname = some sent_name } ∷ [] })
          ∷ parse_rtcp_compound rest
  unfolding sdes_bytes build_sdes_cname write_header
  parse-build_sdes rest s h =
      parse_rtcp_compound-framed 1 pt_sdes
        ((4 + 4 + align (2 + min (length cname) 255 + 1)) / 4 - 1) (drop 4 sdes_bytes) rest
        (omega arith) (omega arith) (omega (arith, length-drop 4 sdes_bytes, length_sdes))
      ∙ ap (λ t. push t (parse_rtcp_compound rest)) (sdes_packet s h)
