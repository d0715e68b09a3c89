-- ===== src/Dtmf/Flags.antt =====
-- `RtpBugFlags` of src/rtp/dtmf.rs: the workarounds for devices.
use rtp_sip_module.Prelude.{ℕ, Bool, true, false, ◌||◌, List, [], ◌∷◌, if◌then◌else◌, ◌==◌, ◌&&◌}
use rtp_sip_module.Prelude.Text.{to_lowercase}

-- `RtpBugFlags`
pub record RtpBugFlags : Type 0 where
  pub sonus_dtmf_timestamp : Bool
  pub never_send_marker : Bool
  pub ignore_duration : Bool
  pub cisco_skip_marker_2833 : Bool
  pub ignore_mark_bit : Bool
  pub change_ssrc_on_marker : Bool
  pub accept_any_payload : Bool

-- `default`
abbrev pub no_flags : RtpBugFlags
no_flags = record {
  sonus_dtmf_timestamp = false;
  never_send_marker = false;
  ignore_duration = false;
  cisco_skip_marker_2833 = false;
  ignore_mark_bit = false;
  change_ssrc_on_marker = false;
  accept_any_payload = false;
}

-- The text begins with the pattern.
unfoldable pub begins_with : List ℕ → List ℕ → Bool
begins_with [] text = true
begins_with (c ∷ pattern) [] = false
begins_with (c ∷ pattern) (d ∷ text) = (c == d) && begins_with pattern text

-- `text.contains(pattern)`
unfoldable pub contains : List ℕ → List ℕ → Bool
unfolding begins_with
contains [] pattern = begins_with pattern []
contains (c ∷ text) pattern = begins_with pattern (c ∷ text) || contains text pattern

abbrev pub sonus : List ℕ
sonus = 115 ∷ 111 ∷ 110 ∷ 117 ∷ 115 ∷ []

abbrev pub cisco : List ℕ
cisco = 99 ∷ 105 ∷ 115 ∷ 99 ∷ 111 ∷ []

-- `detect_from_user_agent`, of an ASCII text
unfoldable pub detect_from_user_agent : List ℕ → RtpBugFlags
unfolding contains to_lowercase
detect_from_user_agent user_agent =
    let ua_lower : List ℕ = to_lowercase user_agent in
    let for_sonus : RtpBugFlags =
      if contains ua_lower sonus
      then record no_flags { sonus_dtmf_timestamp = true; never_send_marker = true }
      else no_flags in
    if contains ua_lower cisco
    then record for_sonus { never_send_marker = true; cisco_skip_marker_2833 = true }
    else for_sonus

-- `merge`
unfoldable pub merge : RtpBugFlags → RtpBugFlags → RtpBugFlags
merge a b = record {
  sonus_dtmf_timestamp = a.sonus_dtmf_timestamp || b.sonus_dtmf_timestamp;
  never_send_marker = a.never_send_marker || b.never_send_marker;
  ignore_duration = a.ignore_duration || b.ignore_duration;
  cisco_skip_marker_2833 = a.cisco_skip_marker_2833 || b.cisco_skip_marker_2833;
  ignore_mark_bit = a.ignore_mark_bit || b.ignore_mark_bit;
  change_ssrc_on_marker = a.change_ssrc_on_marker || b.change_ssrc_on_marker;
  accept_any_payload = a.accept_any_payload || b.accept_any_payload;
}

-- `has_workarounds`
unfoldable pub has_workarounds : RtpBugFlags → Bool
has_workarounds a =
    (a.sonus_dtmf_timestamp
      || (a.never_send_marker || (a.ignore_duration || a.cisco_skip_marker_2833)))
    || (a.ignore_mark_bit || (a.change_ssrc_on_marker || a.accept_any_payload))
