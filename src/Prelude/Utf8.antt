-- ===== src/Prelude/Utf8.antt =====
-- `String::from_utf8` of the Rust library: a string is its bytes, and these are the ones it accepts.
use mathlib.Core.Bool.{Bool, true, false, ◌&&◌}
use mathlib.Core.List.{List, [], ◌∷◌}
use Prim.Native.Nat.{ℕ, zero, suc}
use rtp_sip_module.Prelude.Tests.{if◌then◌else◌, leb, ltb, ◌==◌}

-- The continuation bytes that a lead byte asks for and the range of the first of them, as the table of
-- well-formed sequences in the Unicode standard has them; `none` is an invalid lead byte.
abbrev pub lead : ℕ → (ℕ × ℕ) × ℕ
lead b =
    if ltb b 194
    then ((0, 1), 0)
    else if ltb b 224
    then ((1, 128), 191)
    else if b == 224
    then ((2, 160), 191)
    else if b == 237
    then ((2, 128), 159)
    else if ltb b 240
    then ((2, 128), 191)
    else if b == 240
    then ((3, 144), 191)
    else if ltb b 244
    then ((3, 128), 191)
    else if b == 244
    then ((3, 128), 143)
    else ((0, 1), 0)

-- `missing` continuation bytes are to come, the first of them from `low` to `high`.
unfoldable pub utf8_from : ℕ → ℕ → ℕ → List ℕ → Bool
utf8_from zero low high [] = true
utf8_from (suc missing) low high [] = false
utf8_from zero low high (b ∷ bytes) =
    if ltb b 128
    then utf8_from 0 128 191 bytes
    else (let wanted = lead b in ltb 0 wanted.0.0 && utf8_from wanted.0.0 wanted.0.1 wanted.1 bytes)
utf8_from (suc missing) low high (b ∷ bytes) =
    (leb low b && leb b high) && utf8_from missing 128 191 bytes

unfoldable pub is_utf8 : List ℕ → Bool
unfolding utf8_from
is_utf8 bytes = utf8_from 0 128 191 bytes
