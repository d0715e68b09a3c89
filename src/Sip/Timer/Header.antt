-- ===== src/Sip/Timer/Header.antt =====
-- The headers Session-Expires and Min-SE, and the answer that carries them: src/sip/session_timer.rs.
-- A header is a list of code points.
use rtp_sip_module.Prelude.{
  ℕ, ◌^◌, ◌<◌, ◌≤◌, ◌≡◌, refl, ap, ◌∙◌, Bool, true, false, Option, none, some, List, [], ◌∷◌, ◌++◌,
  if◌then◌else◌, max, arith,
}
use rtp_sip_module.Prelude.Text.{
  trim, split_once, split, strip_prefix, same_text, to_lowercase, decimal, parse_below, HaveNoSpace,
  HaveNoSpace-append, no_space, no_space-HaveNoSpace, is_whitespace, digits-HaveNoSpace,
  digits-IsWithout, trim-same, split_once-at, decimal-AreDigits, parse_below-decimal,
}
use rtp_sip_module.Sip.Timer.{RefreshRole, SessionTimer, start}

-- "uac", "uas", "refresher=" and the semicolon
abbrev pub uac : List ℕ
uac = 117 ∷ 97 ∷ 99 ∷ []

abbrev pub uas : List ℕ
uas = 117 ∷ 97 ∷ 115 ∷ []

abbrev pub refresher : List ℕ
refresher = 114 ∷ 101 ∷ 102 ∷ 114 ∷ 101 ∷ 115 ∷ 104 ∷ 101 ∷ 114 ∷ 61 ∷ []

abbrev pub semicolon : ℕ
semicolon = 59

-- the word for the refresher, as seen from our side
unfoldable pub refresher_word : RefreshRole → Bool → List ℕ
refresher_word RefreshRole.local true = uac
refresher_word RefreshRole.local false = uas
refresher_word RefreshRole.remote true = uas
refresher_word RefreshRole.remote false = uac

-- `build_session_expires_header`
unfoldable pub build_session_expires_header : SessionTimer → Bool → List ℕ
unfolding refresher_word
build_session_expires_header t is_uac =
    decimal t.session_expires ++ (semicolon ∷ refresher ++ refresher_word t.role is_uac)

-- `build_min_se_header`
unfoldable pub build_min_se_header : SessionTimer → List ℕ
build_min_se_header t = decimal t.min_se

-- the role that a word means
unfoldable pub role_of : List ℕ → Bool → Option RefreshRole
role_of value is_uac =
    if same_text value uac
    then some (if is_uac then RefreshRole.local else RefreshRole.remote)
    else if same_text value uas
    then some (if is_uac then RefreshRole.remote else RefreshRole.local)
    else none

-- `extract_refresher_role`: the first parameter that names the refresher
unfoldable pub role_in : List (List ℕ) → Bool → Option RefreshRole
unfolding role_of
role_in [] is_uac = none
role_in (param ∷ params) is_uac =
    let rest = role_in params is_uac in
    elim (strip_prefix refresher (trim param)) [
      | none ↦ rest
      | some value ↦ role_of (to_lowercase (trim value)) is_uac
    ]

unfoldable pub extract_refresher_role : List ℕ → Bool → Option RefreshRole
unfolding role_in
extract_refresher_role params is_uac =
    let (head, tail) = split semicolon params in role_in (head ∷ tail) is_uac

unfoldable pub role_given : Option (List ℕ) → Bool → Option RefreshRole
unfolding extract_refresher_role
role_given none is_uac = none
role_given (some params) is_uac = extract_refresher_role params is_uac

-- `parse_session_expires`
unfoldable pub parse_session_expires : List ℕ → Bool → Option (ℕ × Option RefreshRole)
unfolding role_given
parse_session_expires header is_uac =
    let (seconds_str, params) = split_once semicolon (trim header) in
    elim (parse_below (2 ^ 32) (trim seconds_str)) [
      | none ↦ none
      | some seconds ↦ some (seconds, role_given params is_uac)
    ]

-- `parse_min_se`
unfoldable pub parse_min_se : List ℕ → Option ℕ
parse_min_se header = parse_below (2 ^ 32) (trim (split semicolon (trim header)).0)

-- `process_response`
unfoldable pub process_response :
    SessionTimer → Option (List ℕ) → Bool → ℕ → SessionTimer × (ℕ × RefreshRole)
unfolding parse_session_expires start
process_response t header is_uac now =
    let fallback : SessionTimer × (ℕ × RefreshRole) =
      (start t 1800 RefreshRole.local now, (1800, RefreshRole.local)) in
    elim header [
      | none ↦ fallback
      | some h ↦ elim (parse_session_expires h is_uac) [
        | none ↦ fallback
        | some answer ↦
            (let role : RefreshRole = elim answer.1 [
              | none ↦ t.config.preferred_role
              | some r ↦ r
            ] in
              (start t answer.0 role now, (max answer.0 t.min_se, role)))
      ]
    ]

-- The role of the other side.
abbrev pub other : RefreshRole → RefreshRole
other RefreshRole.local = RefreshRole.remote
other RefreshRole.remote = RefreshRole.local

-- The role that is meant by the header of a side, to one that is the UAC or not.
abbrev pub seen : RefreshRole → Bool → Bool → RefreshRole
seen role true true = role
seen role true false = other role
seen role false true = other role
seen role false false = role

params_role :
    (role : RefreshRole) (side reader : Bool)
    → extract_refresher_role (refresher ++ refresher_word role side) reader
      ≡ some (seen role side reader)
unfolding extract_refresher_role refresher_word strip_prefix trim split is_whitespace same_text
    to_lowercase
params_role RefreshRole.local true true = refl
params_role RefreshRole.local true false = refl
params_role RefreshRole.local false true = refl
params_role RefreshRole.local false false = refl
params_role RefreshRole.remote true true = refl
params_role RefreshRole.remote true false = refl
params_role RefreshRole.remote false true = refl
params_role RefreshRole.remote false false = refl

params-HaveNoSpace :
    (role : RefreshRole) (side : Bool)
    → HaveNoSpace (semicolon ∷ refresher ++ refresher_word role side)
unfolding refresher_word no_space is_whitespace
params-HaveNoSpace RefreshRole.local true = no_space-HaveNoSpace (semicolon ∷ refresher ++ uac) refl
params-HaveNoSpace RefreshRole.local false =
    no_space-HaveNoSpace (semicolon ∷ refresher ++ uas) refl
params-HaveNoSpace RefreshRole.remote true =
    no_space-HaveNoSpace (semicolon ∷ refresher ++ uas) refl
params-HaveNoSpace RefreshRole.remote false =
    no_space-HaveNoSpace (semicolon ∷ refresher ++ uac) refl

parse_of :
    (header digits params : List ℕ) (reader : Bool) (seconds : ℕ)
    → split_once semicolon (trim header) ≡ (digits, some params)
    → parse_below (2 ^ 32) (trim digits) ≡ some seconds
    → parse_session_expires header reader ≡ some (seconds, extract_refresher_role params reader)
unfolding parse_session_expires role_given
parse_of header digits params reader seconds e f =
    rw (parse_session_expires, ap (λ (r : List ℕ × Option (List ℕ)). r.0) e, f)
      (ap (λ (r : List ℕ × Option (List ℕ)). some (seconds, role_given r.1 reader)) e)

split-header :
    (t : SessionTimer) (side : Bool)
    → split_once semicolon (trim (build_session_expires_header t side))
      ≡ (decimal t.session_expires, some (refresher ++ refresher_word t.role side))
unfolding build_session_expires_header
split-header t side =
    let digits = decimal t.session_expires in
    let params = refresher ++ refresher_word t.role side in
    ap (split_once semicolon) (
      trim-same (digits ++ (semicolon ∷ params)) (
        HaveNoSpace-append digits (semicolon ∷ params)
          (digits-HaveNoSpace digits (decimal-AreDigits t.session_expires))
          (params-HaveNoSpace t.role side)))
    ∙ split_once-at semicolon digits params
        (digits-IsWithout semicolon digits (omega arith) (decimal-AreDigits t.session_expires))

-- A side reads the header that either side builds: its interval, and the refresher, whose role is the
-- same to the side that built it and the opposite one to the other side.
pub parse-build_session_expires_header :
    (t : SessionTimer) (side reader : Bool)
    → t.session_expires < 2 ^ 32
    → parse_session_expires (build_session_expires_header t side) reader
      ≡ some (t.session_expires, some (seen t.role side reader))
parse-build_session_expires_header t side reader lt =
    let digits = decimal t.session_expires in
    parse_of (build_session_expires_header t side) digits (refresher ++ refresher_word t.role side)
      reader t.session_expires (split-header t side)
      (ap (parse_below (2 ^ 32))
          (trim-same digits (digits-HaveNoSpace digits (decimal-AreDigits t.session_expires)))
        ∙ parse_below-decimal (2 ^ 32) t.session_expires lt)
    ∙ ap (λ (r : Option RefreshRole). some (t.session_expires, r)) (params_role t.role side reader)

process_of :
    (t : SessionTimer) (header : List ℕ) (is_uac : Bool) (now seconds : ℕ) (role : RefreshRole)
    → parse_session_expires header is_uac ≡ some (seconds, some role)
    → process_response t (some header) is_uac now
      ≡ (start t seconds role now, (max seconds t.min_se, role))
unfolding process_response
process_of t header is_uac now seconds role e = rw (process_response, e) refl

-- The UAC that gets the header of the UAS in the answer takes its interval, if it is not below its own
-- least one, and the opposite role: one of the two refreshes the session. What it returns is what it has
-- applied.
pub process_response_agrees :
    (uac_timer uas_timer : SessionTimer) (now : ℕ)
    → uas_timer.session_expires < 2 ^ 32
    → uac_timer.min_se ≤ uas_timer.session_expires
    → let answer =
        process_response uac_timer (some (build_session_expires_header uas_timer false)) true now in
      (answer.0.session_expires ≡ uas_timer.session_expires)
      × (answer.0.role ≡ other uas_timer.role)
      × (answer.0.active ≡ true)
      × (answer.1 ≡ (answer.0.session_expires, answer.0.role))
unfolding start
process_response_agrees uac_timer uas_timer now lt le =
    rw
      (process_of uac_timer (build_session_expires_header uas_timer false) true now
        uas_timer.session_expires (other uas_timer.role)
        (parse-build_session_expires_header uas_timer false true lt))
      (omega arith, refl, refl, refl)
