-- ===== src/Sip/Timer.antt =====
-- `SessionTimer` of src/sip/session_timer.rs. An `Instant` is a number of nanoseconds, given as an
-- argument `now` to the methods that read the clock.
pub mod Header
pub mod Laws
use rtp_sip_module.Prelude.{
  ℕ, ◌+◌, ◌-◌, ◌*◌, ◌/◌, Bool, true, false, not, ◌&&◌, ◌||◌, Option, none, some, if◌then◌else◌, ltb,
  leb, min, max,
}

-- `Handle422Result`
pub record Handle422Result : Type 0 where
  pub session_expires : ℕ
  pub min_se : ℕ
  pub should_include_min_se_header : Bool

-- `RefreshRole`
pub data RefreshRole : Type 0 where
  local remote : RefreshRole

-- `SessionTimerConfig`
pub record SessionTimerConfig : Type 0 where
  pub enabled : Bool
  pub session_expires : ℕ
  pub min_se : ℕ
  pub preferred_role : RefreshRole

-- `SessionTimerConfig::default`
unfoldable pub default_config : SessionTimerConfig
default_config = record {
  enabled = true;
  session_expires = 1800;
  min_se = 90;
  preferred_role = RefreshRole.local;
}

-- `SessionTimer`
pub record SessionTimer : Type 0 where
  pub config : SessionTimerConfig
  pub session_expires : ℕ
  pub min_se : ℕ
  pub role : RefreshRole
  pub last_refresh : ℕ
  pub active : Bool

-- `grace_seconds`
unfoldable pub grace_seconds : ℕ → ℕ
grace_seconds session_expires = min 32 (session_expires / 3)

-- `Duration::from_secs`
unfoldable pub from_secs : ℕ → ℕ
from_secs seconds = seconds * 1000000000

unfoldable pub is_local : RefreshRole → Bool
is_local RefreshRole.local = true
is_local RefreshRole.remote = false

-- `SessionTimer::new`
unfoldable pub new : SessionTimerConfig → ℕ → SessionTimer
new config now = record {
  config = config;
  session_expires = config.session_expires;
  min_se = config.min_se;
  role = config.preferred_role;
  last_refresh = now;
  active = false;
}

-- `start`
unfoldable pub start : SessionTimer → ℕ → RefreshRole → ℕ → SessionTimer
start t negotiated_expires role now = record t {
  session_expires = max negotiated_expires t.min_se;
  role = role;
  last_refresh = now;
  active = true;
}

-- `refresh`
unfoldable pub refresh : SessionTimer → ℕ → SessionTimer
refresh t now = record t { last_refresh = now }

-- `stop`
unfoldable pub stop : SessionTimer → SessionTimer
stop t = record t { active = false }

-- `is_active`
unfoldable pub is_active : SessionTimer → Bool
is_active t = t.active

-- `refresh_interval`
unfoldable pub refresh_interval : SessionTimer → ℕ
unfolding grace_seconds from_secs
refresh_interval t =
    from_secs (min (t.session_expires / 2) (t.session_expires - grace_seconds t.session_expires))

-- the interval with the grace period
unfoldable pub expiry : SessionTimer → ℕ
unfolding grace_seconds from_secs
expiry t = from_secs (t.session_expires + grace_seconds t.session_expires)

-- `needs_refresh`
unfoldable pub needs_refresh : SessionTimer → ℕ → Bool
unfolding is_local refresh_interval
needs_refresh t now =
    if not t.active || not (is_local t.role)
    then false
    else leb (refresh_interval t) (now - t.last_refresh)

-- `is_expired`
unfoldable pub is_expired : SessionTimer → ℕ → Bool
unfolding expiry
is_expired t now = if not t.active then false else leb (expiry t) (now - t.last_refresh)

-- `time_until_refresh`
unfoldable pub time_until_refresh : SessionTimer → ℕ → Option ℕ
unfolding is_local refresh_interval
time_until_refresh t now =
    if not t.active || not (is_local t.role)
    then none
    else some (refresh_interval t - (now - t.last_refresh))

-- `time_until_expiry`
unfoldable pub time_until_expiry : SessionTimer → ℕ → ℕ
unfolding expiry
time_until_expiry t now = if not t.active then 0 else expiry t - (now - t.last_refresh)

-- `handle_422_response`
unfoldable pub handle_422_response : SessionTimer → ℕ → SessionTimer × Handle422Result
handle_422_response t remote_min_se =
    let raised = ltb t.min_se remote_min_se in
    let min_se = if raised then remote_min_se else t.min_se in
    let session_expires = if ltb t.session_expires min_se then min_se else t.session_expires in
    (
      record t { min_se = min_se; session_expires = session_expires },
      record {
        session_expires = session_expires;
        min_se = min_se;
        should_include_min_se_header = raised;
      },
    )
