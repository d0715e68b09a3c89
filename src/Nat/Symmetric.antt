-- ===== src/Nat/Symmetric.antt =====
-- `SymmetricRtp` of src/nat/symmetric_rtp.rs. A socket address is a number, as addresses are only
-- compared; an `Instant` is a number of nanoseconds.
pub mod Laws
pub mod Learned
use rtp_sip_module.Prelude.{
  ℕ, ◌+◌, ◌-◌, ◌*◌, Bool, true, false, not, ◌&&◌, ◌||◌, Option, none, some, List, [], ◌∷◌, ◌++◌,
  if◌then◌else◌, ltb, leb, ◌==◌, length, max,
}

-- `AutoAdjustMode`
pub data AutoAdjustMode : Type 0 where
  once always disabled : AutoAdjustMode

-- `SwitchRateLimit`
pub record SwitchRateLimit : Type 0 where
  pub max_switches : ℕ
  pub switch_window_secs : ℕ

-- `SwitchRateLimit::default`
unfoldable pub default_rate_limit : SwitchRateLimit
default_rate_limit = record { max_switches = 5; switch_window_secs = 10 }

-- `SymmetricRtp`
pub record SymmetricRtp : Type 0 where
  pub configured_addr : Option ℕ
  pub candidate_addr : Option ℕ
  pub tally : ℕ
  pub threshold : ℕ
  pub window : ℕ
  pub window_remaining : ℕ
  pub learned_addr : Option ℕ
  pub mode : AutoAdjustMode
  pub packets_processed : ℕ
  pub learned_ssrc : Option ℕ
  pub rate_limit : SwitchRateLimit
  pub switch_times : List ℕ
  pub locked : Bool

-- what the constructors share
unfoldable pub fresh : ℕ → ℕ → AutoAdjustMode → SymmetricRtp
fresh threshold window mode = record {
  configured_addr = none;
  candidate_addr = none;
  tally = 0;
  threshold = threshold;
  window = window;
  window_remaining = window;
  learned_addr = none;
  mode = mode;
  packets_processed = 0;
  learned_ssrc = none;
  rate_limit = default_rate_limit;
  switch_times = [];
  locked = false;
}

-- `new`
unfoldable pub new : ℕ → SymmetricRtp
unfolding fresh
new threshold = fresh (max threshold 1) (max threshold 1 * 2) AutoAdjustMode.always

-- `with_defaults`, `new_rtcp` and `disabled`
unfoldable pub with_defaults : SymmetricRtp
unfolding new
with_defaults = record (new 10) { mode = AutoAdjustMode.always }

unfoldable pub new_rtcp : SymmetricRtp
unfolding fresh
new_rtcp = fresh 1 4 AutoAdjustMode.always

unfoldable pub disabled_instance : SymmetricRtp
unfolding fresh
disabled_instance = fresh 1 0 AutoAdjustMode.disabled

unfoldable pub same_mode : AutoAdjustMode → AutoAdjustMode → Bool
same_mode AutoAdjustMode.once AutoAdjustMode.once = true
same_mode AutoAdjustMode.always AutoAdjustMode.always = true
same_mode AutoAdjustMode.disabled AutoAdjustMode.disabled = true
same_mode _ _ = false

-- `addr == Some(source)`
unfoldable pub is_addr : Option ℕ → ℕ → Bool
is_addr none source = false
is_addr (some addr) source = addr == source

-- `set_rate_limit`, `set_mode` and `set_configured`
unfoldable pub set_rate_limit : SymmetricRtp → ℕ → ℕ → SymmetricRtp
set_rate_limit s max_switches switch_window_secs = record s {
  rate_limit = record { max_switches = max_switches; switch_window_secs = switch_window_secs };
}

unfoldable pub set_mode : SymmetricRtp → AutoAdjustMode → SymmetricRtp
set_mode s AutoAdjustMode.disabled = record s { mode = AutoAdjustMode.disabled }
set_mode s mode = record s { mode = mode; window_remaining = s.window }

unfoldable pub set_configured : SymmetricRtp → ℕ → SymmetricRtp
set_configured s addr = record s { configured_addr = some addr }

-- the switches that are not before the start of the window
unfoldable pub retain_since : ℕ → List ℕ → List ℕ
retain_since window_start [] = []
retain_since window_start (t ∷ ts) =
    let rest = retain_since window_start ts in if leb window_start t then t ∷ rest else rest

-- `record_switch`
unfoldable pub record_switch : SymmetricRtp → ℕ → SymmetricRtp × Bool
unfolding retain_since
record_switch s now =
    let window_dur = s.rate_limit.switch_window_secs * 1000000000 in
    let retained =
      if leb window_dur now
      then retain_since (now - window_dur) s.switch_times
      else s.switch_times in
    let times = retained ++ (now ∷ []) in
    if not (same_mode s.mode AutoAdjustMode.always)
    then (s, true)
    else if ltb s.rate_limit.max_switches (length times)
    then (record s { switch_times = times; locked = true }, false)
    else (record s { switch_times = times }, true)

-- the candidate has sent enough packets: the rate limit, and the new address
unfoldable pub settle : SymmetricRtp → ℕ → SymmetricRtp
settle s source = record s {
  learned_addr = some source;
  window_remaining = if same_mode s.mode AutoAdjustMode.once then 0 else s.window_remaining;
}

unfoldable pub accept : SymmetricRtp → ℕ → ℕ → SymmetricRtp × Bool
unfolding is_addr settle record_switch
accept s source now =
    let (s', allowed) = record_switch s now in
    elim s.learned_addr [
      | none ↦ (settle s source, true)
      | some old ↦
          if not (old == source) && not allowed
          then (s', false)
          else (settle (if old == source then s else s') source, not (old == source))
    ]

-- `decrement_window`
unfoldable pub decrement_window : SymmetricRtp → SymmetricRtp
decrement_window s = record s { window_remaining = s.window_remaining - 1 }

-- the end of a packet that changes nothing
unfoldable pub keep_learning : SymmetricRtp → SymmetricRtp × Bool
unfolding decrement_window
keep_learning s = (if same_mode s.mode AutoAdjustMode.once then decrement_window s else s, false)

-- the packet is looked at no further
unfoldable pub is_ignored : SymmetricRtp → ℕ → Bool
unfolding is_addr same_mode
is_ignored s source =
    same_mode s.mode AutoAdjustMode.disabled
    || s.locked
    || (same_mode s.mode AutoAdjustMode.once && (s.window_remaining == 0))
    || is_addr s.configured_addr source
    || is_addr s.learned_addr source

-- `process_incoming_with_time`
unfoldable pub process_incoming_with_time : SymmetricRtp → ℕ → ℕ → SymmetricRtp × Bool
unfolding is_ignored is_addr accept keep_learning
process_incoming_with_time s source now =
    let s1 = record s { packets_processed = s.packets_processed + 1 } in
    let again = record s1 { tally = s.tally + 1 } in
    let first = record s1 { candidate_addr = some source; tally = 1 } in
    if is_ignored s source
    then (s1, false)
    else if is_addr s.candidate_addr source
    then (if leb s.threshold (s.tally + 1) then accept again source now else keep_learning again)
    else if leb s.threshold 1
    then accept first source now
    else keep_learning first

-- `process_incoming_with_ssrc`
unfoldable pub note_ssrc : SymmetricRtp → ℕ → SymmetricRtp
note_ssrc s ssrc = elim s.learned_ssrc [
  | none ↦ record s { learned_ssrc = some ssrc }
  | some prev_ssrc ↦
      if prev_ssrc == ssrc
      then s
      else record s { candidate_addr = none; tally = 0; learned_ssrc = some ssrc }
]

unfoldable pub process_incoming_with_ssrc : SymmetricRtp → ℕ → ℕ → ℕ → SymmetricRtp × Bool
unfolding note_ssrc process_incoming_with_time
process_incoming_with_ssrc s source ssrc now =
    process_incoming_with_time (note_ssrc s ssrc) source now

-- `rearm`
unfoldable pub rearm : SymmetricRtp → SymmetricRtp
rearm s = record s { window_remaining = s.window; candidate_addr = none; tally = 0 }

-- `effective_remote`, `has_learned` and `is_learning`
unfoldable pub effective_remote : SymmetricRtp → Option ℕ
effective_remote s = elim s.learned_addr [ none ↦ s.configured_addr | some addr ↦ some addr ]

unfoldable pub has_learned : SymmetricRtp → Bool
unfolding is_addr
has_learned s = elim s.learned_addr [
  | none ↦ false
  | some addr ↦ not (is_addr s.configured_addr addr)
]

unfoldable pub is_learning : SymmetricRtp → Bool
is_learning s = elim s.mode [
  | AutoAdjustMode.disabled ↦ false
  | AutoAdjustMode.always ↦ not s.locked
  | AutoAdjustMode.once ↦ ltb 0 s.window_remaining
]

-- `reset`
unfoldable pub reset : SymmetricRtp → SymmetricRtp
reset s = record s {
  learned_addr = none;
  candidate_addr = none;
  tally = 0;
  window_remaining = s.window;
  packets_processed = 0;
  learned_ssrc = none;
  switch_times = [];
  locked = false;
}
