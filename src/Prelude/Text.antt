-- ===== src/Prelude/Text.antt =====
-- Text as the list of its code points, with the methods of `str` that the sources call.
use rtp_sip_module.Prelude.Tests.{if◌then◌else◌, ltb, leb, ◌==◌}
use rtp_sip_module.Prelude.Lists.{length}
use Prim.Native.Nat.{ℕ, zero, suc, ◌+◌, ◌-◌, ◌*◌, ◌/◌, ◌%◌, ◌≤◌, ◌<◌}
use mathlib.Core.Path.{◌≡◌, refl}
use mathlib.Core.Bool.{Bool, true, false, not, ◌&&◌, ◌||◌}
use mathlib.Core.Option.{Option, none, some}
use mathlib.Core.List.{List, [], ◌∷◌, ◌++◌}
use native.Mathlib.Omega.{arith}

-- `char::is_whitespace`
unfoldable pub is_whitespace : ℕ → Bool
is_whitespace c =
    (leb 9 c && leb c 13)
    || (c == 32)
    || (c == 0x85)
    || (c == 0xa0)
    || (c == 0x1680)
    || (leb 0x2000 c && leb c 0x200a)
    || (c == 0x2028)
    || (c == 0x2029)
    || (c == 0x202f)
    || (c == 0x205f)
    || (c == 0x3000)

-- `str::trim`, from the start and from the end
unfoldable pub trim_start : List ℕ → List ℕ
trim_start [] = []
trim_start (c ∷ cs) = let rest = trim_start cs in if is_whitespace c then rest else c ∷ cs

-- A character before the ones that are kept is kept.
unfoldable pub keep_end : ℕ → List ℕ → List ℕ
keep_end c [] = if is_whitespace c then [] else c ∷ []
keep_end c (d ∷ ds) = c ∷ d ∷ ds

unfoldable pub trim_end : List ℕ → List ℕ
unfolding keep_end
trim_end [] = []
trim_end (c ∷ cs) = keep_end c (trim_end cs)

unfoldable pub trim : List ℕ → List ℕ
unfolding trim_start trim_end
trim cs = trim_end (trim_start cs)

-- what stands before the first `sep`, and what follows it: `splitn(2, sep)`, `find`
unfoldable pub split_once : ℕ → List ℕ → List ℕ × Option (List ℕ)
split_once sep [] = ([], none)
split_once sep (c ∷ cs) =
    let (head, tail) = split_once sep cs in if c == sep then ([], some cs) else (c ∷ head, tail)

-- `split(sep)`: the first part, and the further ones
unfoldable pub split : ℕ → List ℕ → List ℕ × List (List ℕ)
split sep [] = ([], [])
split sep (c ∷ cs) =
    let (head, tail) = split sep cs in if c == sep then ([], head ∷ tail) else (c ∷ head, tail)

-- `split_whitespace`: the parts between white space that are not empty
unfoldable pub split_space : List ℕ → List ℕ × List (List ℕ)
split_space [] = ([], [])
split_space (c ∷ cs) =
    let (head, tail) = split_space cs in
    if is_whitespace c then ([], head ∷ tail) else (c ∷ head, tail)

unfoldable pub non_empty : List (List ℕ) → List (List ℕ)
non_empty [] = []
non_empty ([] ∷ parts) = non_empty parts
non_empty ((c ∷ cs) ∷ parts) = (c ∷ cs) ∷ non_empty parts

unfoldable pub split_whitespace : List ℕ → List (List ℕ)
unfolding split_space non_empty
split_whitespace cs = let (head, tail) = split_space cs in non_empty (head ∷ tail)

-- `strip_prefix`
unfoldable pub strip_prefix : List ℕ → List ℕ → Option (List ℕ)
strip_prefix [] cs = some cs
strip_prefix (p ∷ ps) [] = none
strip_prefix (p ∷ ps) (c ∷ cs) = let rest = strip_prefix ps cs in if p == c then rest else none

-- equality of two texts
unfoldable pub same_text : List ℕ → List ℕ → Bool
same_text [] [] = true
same_text [] (d ∷ ds) = false
same_text (c ∷ cs) [] = false
same_text (c ∷ cs) (d ∷ ds) = (c == d) && same_text cs ds

-- `to_lowercase` as far as it makes ASCII letters
unfoldable pub lower : ℕ → ℕ
lower c = if leb 65 c && leb c 90 then c + 32 else c

unfoldable pub to_lowercase : List ℕ → List ℕ
unfolding lower
to_lowercase [] = []
to_lowercase (c ∷ cs) = lower c ∷ to_lowercase cs

-- the digits of a number before `rest`, on fuel: `to_string` of an unsigned integer
unfoldable pub digits_before : ℕ → ℕ → List ℕ → List ℕ
digits_before zero n rest = rest
digits_before (suc fuel) n rest = elim (ltb n 10) [
  | true ↦ (48 + n) ∷ rest
  | false ↦ digits_before fuel (n / 10) ((48 + n % 10) ∷ rest)
]

unfoldable pub decimal : ℕ → List ℕ
unfolding digits_before
decimal n = digits_before (suc n) n []

unfoldable pub is_digit : ℕ → Bool
is_digit c = leb 48 c && leb c 57

-- the value of digits after a number, below a bound
unfoldable pub digits_value : ℕ → ℕ → List ℕ → Option ℕ
unfolding is_digit
digits_value bound n [] = some n
digits_value bound n (c ∷ cs) =
    let next = n * 10 + (c - 48) in
    let rest = digits_value bound next cs in if is_digit c && ltb next bound then rest else none

-- `parse` of an unsigned integer below `bound`: an optional sign `+`, then digits
unfoldable pub parse_below : ℕ → List ℕ → Option ℕ
unfolding digits_value
parse_below bound [] = none
parse_below bound (c ∷ []) = digits_value bound 0 (c ∷ [])
parse_below bound (c ∷ d ∷ cs) =
    if c == 43 then digits_value bound 0 (d ∷ cs) else digits_value bound 0 (c ∷ d ∷ cs)

-- Each character is a digit.
abbrev pub AreDigits : List ℕ → Type 0
AreDigits [] = Unit
AreDigits (c ∷ cs) = (48 ≤ c) × (c ≤ 57) × AreDigits cs

-- No character is white space.
abbrev pub HaveNoSpace : List ℕ → Type 0
HaveNoSpace [] = Unit
HaveNoSpace (c ∷ cs) = (is_whitespace c ≡ false) × HaveNoSpace cs

-- The separator is not among the characters.
abbrev pub IsWithout : ℕ → List ℕ → Type 0
IsWithout sep [] = Unit
IsWithout sep (c ∷ cs) = ((c == sep) ≡ false) × IsWithout sep cs

pub HaveNoSpace-append : (cs ds : List ℕ) → HaveNoSpace cs → HaveNoSpace ds → HaveNoSpace (cs ++ ds)
HaveNoSpace-append [] ds h k = k
HaveNoSpace-append (c ∷ cs) ds (e, h) k = (e, HaveNoSpace-append cs ds h k)

pub IsWithout-append :
    (sep : ℕ) (cs ds : List ℕ) → IsWithout sep cs → IsWithout sep ds → IsWithout sep (cs ++ ds)
IsWithout-append sep [] ds h k = k
IsWithout-append sep (c ∷ cs) ds (e, h) k = (e, IsWithout-append sep cs ds h k)

digit_no_space : (c : ℕ) → 48 ≤ c → c ≤ 57 → is_whitespace c ≡ false
unfolding is_whitespace
digit_no_space c ge le = ground arith

pub digits-HaveNoSpace : (cs : List ℕ) → AreDigits cs → HaveNoSpace cs
digits-HaveNoSpace [] h = tt
digits-HaveNoSpace (c ∷ cs) (ge, le, h) = (digit_no_space c ge le, digits-HaveNoSpace cs h)

pub digits-IsWithout : (sep : ℕ) (cs : List ℕ) → 57 < sep → AreDigits cs → IsWithout sep cs
digits-IsWithout sep [] lt h = tt
digits-IsWithout sep (c ∷ cs) lt (ge, le, h) = (ground arith, digits-IsWithout sep cs lt h)

trim_end-same : (cs : List ℕ) → HaveNoSpace cs → trim_end cs ≡ cs
unfolding trim_end keep_end
trim_end-same [] h = refl
trim_end-same (c ∷ []) (e, h) = rw (e) refl
trim_end-same (c ∷ d ∷ cs) (e, h) = rw (trim_end-same (d ∷ cs) h) refl

pub trim-same : (cs : List ℕ) → HaveNoSpace cs → trim cs ≡ cs
unfolding trim trim_start
trim-same [] h = trim_end-same [] h
trim-same (c ∷ cs) (e, h) = rw (e) (trim_end-same (c ∷ cs) (e, h))

pub split_once-at :
    (sep : ℕ) (cs ds : List ℕ) → IsWithout sep cs → split_once sep (cs ++ sep ∷ ds) ≡ (cs, some ds)
unfolding split_once
split_once-at sep [] ds h = ground arith
split_once-at sep (c ∷ cs) ds (e, h) = ground (arith, split_once-at sep cs ds h)

pub split_once-none : (sep : ℕ) (cs : List ℕ) → IsWithout sep cs → split_once sep cs ≡ (cs, none)
unfolding split_once
split_once-none sep [] h = refl
split_once-none sep (c ∷ cs) (e, h) = ground (arith, split_once-none sep cs h)

pub split-without : (sep : ℕ) (cs : List ℕ) → IsWithout sep cs → split sep cs ≡ (cs, [])
unfolding split
split-without sep [] h = refl
split-without sep (c ∷ cs) (e, h) = ground (arith, split-without sep cs h)

digits_before-AreDigits :
    (fuel n : ℕ) (rest : List ℕ) → AreDigits rest → AreDigits (digits_before fuel n rest)
unfolding digits_before
digits_before-AreDigits zero n rest h = h
digits_before-AreDigits (suc fuel) n rest h = ground (
  arith,
  digits_before-AreDigits fuel (n / 10) ((48 + n % 10) ∷ rest) (omega arith, omega arith, h),
)

pub decimal-AreDigits : (n : ℕ) → AreDigits (decimal n)
unfolding decimal
decimal-AreDigits n = digits_before-AreDigits (suc n) n [] tt

digits_value-before :
    (bound fuel n : ℕ) (rest : List ℕ)
    → n < fuel
    → n < bound
    → digits_value bound 0 (digits_before fuel n rest) ≡ digits_value bound n rest
unfolding digits_before digits_value is_digit
digits_value-before bound zero n rest lt b = absurd (omega arith)
digits_value-before bound (suc fuel) n rest lt b =
    ground (arith, digits_value-before bound fuel (n / 10) ((48 + n % 10) ∷ rest))

pub digits_value-decimal : (bound n : ℕ) → n < bound → digits_value bound 0 (decimal n) ≡ some n
unfolding decimal digits_value
digits_value-decimal bound n b = digits_value-before bound (suc n) n [] (omega arith) b

parse_below-digits :
    (bound n : ℕ) (cs : List ℕ)
    → AreDigits cs
    → digits_value bound 0 cs ≡ some n
    → 0 < length cs
    → parse_below bound cs ≡ some n
unfolding parse_below
parse_below-digits bound n [] h e lt = absurd (omega arith)
parse_below-digits bound n (c ∷ []) h e lt = e
parse_below-digits bound n (c ∷ d ∷ cs) (ge, le, h) e lt = ground arith

digits_before-length :
    (fuel n : ℕ) (rest : List ℕ) → length rest ≤ length (digits_before fuel n rest)
unfolding digits_before
digits_before-length zero n rest = omega arith
digits_before-length (suc fuel) n rest =
    ground (arith, digits_before-length fuel (n / 10) ((48 + n % 10) ∷ rest))

pub decimal-length : (n : ℕ) → 0 < length (decimal n)
unfolding decimal digits_before
decimal-length n = ground (arith, digits_before-length n (n / 10) ((48 + n % 10) ∷ []))

pub parse_below-decimal : (bound n : ℕ) → n < bound → parse_below bound (decimal n) ≡ some n
parse_below-decimal bound n b =
    parse_below-digits bound n (decimal n) (decimal-AreDigits n) (digits_value-decimal bound n b)
      (decimal-length n)

-- The test that finds a text without white space.
unfoldable pub no_space : List ℕ → Bool
no_space [] = true
no_space (c ∷ cs) = not (is_whitespace c) && no_space cs

both_hold : (space rest : Bool) → not space && rest ≡ true → (space ≡ false) × (rest ≡ true)
both_hold false true h = (refl, refl)
both_hold false false h = absurd (ground arith)
both_hold true rest h = absurd (ground arith)

pub no_space-HaveNoSpace : (cs : List ℕ) → no_space cs ≡ true → HaveNoSpace cs
unfolding no_space
no_space-HaveNoSpace [] h = tt
no_space-HaveNoSpace (c ∷ cs) h =
    let (e, k) = both_hold (is_whitespace c) (no_space cs) h in (e, no_space-HaveNoSpace cs k)

-- The test that finds a text without a separator.
unfoldable pub lacks : ℕ → List ℕ → Bool
lacks sep [] = true
lacks sep (c ∷ cs) = not (c == sep) && lacks sep cs

pub lacks-IsWithout : (sep : ℕ) (cs : List ℕ) → lacks sep cs ≡ true → IsWithout sep cs
unfolding lacks
lacks-IsWithout sep [] h = tt
lacks-IsWithout sep (c ∷ cs) h =
    let (e, k) = both_hold (c == sep) (lacks sep cs) h in (e, lacks-IsWithout sep cs k)
