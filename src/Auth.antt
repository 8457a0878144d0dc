-- ===== src/Auth.antt =====
-- FerrumGUI/src/authManager.ts: `AuthManager`, its sessions and its record of failed logins. A
-- method takes the time in milliseconds that `Date.now()` gives it, and `createSession` the token
-- that the random generator gives. `toLowerCase` is the platform's and stands as a parameter.
pub mod Lockout
pub mod Locked
pub mod Release
pub mod Sessions
pub mod Access
pub mod Login
use ferrum_proxy.Base.{
  ℕ, ◌+◌, ◌-◌, ltb, leb, if◌then◌else◌, Bool, true, false, ◌&&◌, Text, trim, Map, get, put, delete,
  Option, none, some, is_some, [],
}

pub record Session : Type 0 where
  pub username : Text
  pub expires : ℕ

pub record LoginFailure : Type 0 where
  pub count : ℕ
  pub first_failure_at : ℕ
  pub blocked_until : Option ℕ

pub record AuthManager : Type 0 where
  pub sessions : Map Session
  pub login_failures : Map LoginFailure

abbrev pub session_duration : ℕ
session_duration = 86400000

abbrev pub login_failure_window : ℕ
login_failure_window = 600000

abbrev pub login_failure_threshold : ℕ
login_failure_threshold = 5

abbrev pub login_lockout_duration : ℕ
login_lockout_duration = 900000

pub new_manager : AuthManager
new_manager = record { sessions = []; login_failures = [] }

-- `createSession`, with the token that `generateSessionToken` gave
unfoldable pub create_session : ℕ → Text → Text → AuthManager → AuthManager
create_session now token username a =
    let session : Session = record { username = username; expires = now + session_duration } in
    record a { sessions = put token session a.sessions }

-- `validateSession`
abbrev pub check_session : ℕ → Text → Option Session → AuthManager → AuthManager × Bool
check_session now token none a = (a, false)
check_session now token (some s) a =
    if ltb s.expires now
    then (record a { sessions = delete token a.sessions }, false)
    else (a, true)

unfoldable pub validate_session : ℕ → Text → AuthManager → AuthManager × Bool
validate_session now token a = check_session now token (get token a.sessions) a

unfoldable pub delete_session : Text → AuthManager → AuthManager
delete_session token a = record a { sessions = delete token a.sessions }

-- The answer of `canAttemptLogin` and of `registerFailedLogin`.
pub record Verdict : Type 0 where
  pub ok : Bool
  pub retry_after_ms : Option ℕ

abbrev pub plain : Bool → Verdict
plain b = record { ok = b; retry_after_ms = none }

abbrev pub retry : Bool → ℕ → Verdict
retry b ms = record { ok = b; retry_after_ms = some ms }

-- `state.blockedUntil && state.blockedUntil > now`
abbrev pub is_blocked : ℕ → Option ℕ → Bool
is_blocked now none = false
is_blocked now (some t) = ltb now t

abbrev pub time_left : ℕ → Option ℕ → ℕ
time_left now none = 0
time_left now (some t) = t - now

-- `now - firstFailureAt > loginFailureWindow`; the truncated difference passes no other test.
abbrev pub is_outdated : ℕ → LoginFailure → Bool
is_outdated now f = ltb login_failure_window (now - f.first_failure_at)

abbrev pub with_failures : AuthManager → Map LoginFailure → AuthManager
with_failures a m = record a { login_failures = m }

module _ (to_lower_case : Text → Text) where
  -- `normalizeUsername`
  unfoldable pub normalize_username : Text → Text
  normalize_username username = to_lower_case (trim username)

  -- `canAttemptLogin`, once the entry is looked up
  abbrev pub attempt : ℕ → Text → Option LoginFailure → AuthManager → AuthManager × Verdict
  attempt now key none a = (a, plain true)
  attempt now key (some f) a =
      if is_blocked now f.blocked_until
      then (a, retry false (time_left now f.blocked_until))
      else if is_outdated now f
      then (with_failures a (delete key a.login_failures), plain true)
      else (a, plain true)

  unfoldable pub can_attempt_login : ℕ → Text → AuthManager → AuthManager × Verdict
  can_attempt_login now username a =
      let key = normalize_username username in attempt now key (get key a.login_failures) a

  abbrev pub first_failure : ℕ → LoginFailure
  first_failure now = record { count = 1; first_failure_at = now; blocked_until = none }

  -- The entry that `registerFailedLogin` stores
  abbrev pub failed_again : ℕ → Option LoginFailure → LoginFailure
  failed_again now none = first_failure now
  failed_again now (some f) =
      if is_outdated now f
      then first_failure now
      else if leb login_failure_threshold (f.count + 1)
      then record f { count = f.count + 1; blocked_until = some (now + login_lockout_duration) }
      else record f { count = f.count + 1; blocked_until = none }

  abbrev pub blocks : LoginFailure → Verdict
  blocks f = if is_some f.blocked_until then retry true login_lockout_duration else plain false

  unfoldable pub register_failed_login : ℕ → Text → AuthManager → AuthManager × Verdict
  register_failed_login now username a =
      let key = normalize_username username in
      let f = failed_again now (get key a.login_failures) in
      (with_failures a (put key f a.login_failures), blocks f)

  unfoldable pub clear_failed_logins : Text → AuthManager → AuthManager
  clear_failed_logins username a =
      with_failures a (delete (normalize_username username) a.login_failures)
