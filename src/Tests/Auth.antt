-- ===== src/Tests/Auth.antt =====
-- FerrumGUI/src/authManager.ts and the login handler at concrete inputs.
use ferrum_proxy.Base.{
  ℕ, ◌+◌, ◌≤◌, ◌<◌, ◌≡◌, refl, ◌↔◌, leb, true, false, Text, codes, text_eq, trim, get, put, delete,
  none, some, List, [], ◌∷◌, map, if◌then◌else◌, ◌&&◌, arith,
}
use ferrum_proxy.Services
use ferrum_proxy.Services.{ServiceManager}
use ferrum_proxy.Auth.{
  AuthManager, new_manager, normalize_username, can_attempt_login, register_failed_login,
  clear_failed_logins, create_session, validate_session, session_duration, login_lockout_duration,
  plain,
}
use ferrum_proxy.Auth.Login.{Server, login}
use ferrum_proxy.Auth.Lockout
use ferrum_proxy.Auth.Locked
use ferrum_proxy.Auth.Release.{AreSane, login-AreSane, refused_then_allowed}
use ferrum_proxy.Auth.Sessions
use ferrum_proxy.Auth.Access.{Request, text, auth_middleware, next}
use ferrum_proxy.Auth.Access.Granted.{Granted, auth_middleware-next_iff}

-- `toLowerCase` of ASCII text.
lower : Text → Text
lower = map λ c. if leb b'A' c && leb c b'Z' then c + 32 else c

abbrev credentials : ServiceManager
credentials =
    let d : Services.ServicesData = record {
      instances = [];
      last_updated = 0;
      auth = some (record { username = codes "root"; password = codes "secret-pw" });
    } in
    record { memory = d; disk = Services.written d }

abbrev fresh : Server
fresh = record { auth = record { sessions = []; login_failures = [] }; services = credentials }

logins : Unit {0}
unfolding lower login can_attempt_login register_failed_login clear_failed_logins create_session
    validate_session normalize_username trim Services.verify_auth text_eq get put delete
logins = tt

abbrev guess : ℕ → Lockout.Call
guess t = record { time = t; token = codes "t"; username = codes "Root "; password = codes "x" }

abbrev guesses : List Lockout.Call
guesses = guess 10 ∷ guess 20 ∷ guess 30 ∷ guess 40 ∷ guess 50 ∷ guess 60 ∷ []

refusals_test : Lockout.refusals lower (codes "root") guesses fresh ≡ 4
unfolding logins
refusals_test = refl

-- The right password, a minute later
abbrev right : Lockout.Call
right = record {
  time = 60000;
  token = codes "t";
  username = codes "root";
  password = codes "secret-pw";
}

login-is_throttled_example :
    (Locked.is_throttled (Locked.answer lower right (Locked.run lower guesses fresh)).1 ≡ true)
    × ((Locked.answer lower right (Locked.run lower guesses fresh)).0.auth.sessions
        ≡ (Locked.run lower guesses fresh).auth.sessions)
    × (Lockout.refusals lower (codes "root") guesses fresh ≤ 4)
unfolding logins
login-is_throttled_example =
    Locked.login-is_throttled lower 0 (codes "root") guesses fresh right refl
      (
        is_guess 10 (omega arith),
        (
          is_guess 20 (omega arith),
          (
            is_guess 30 (omega arith),
            (
              is_guess 40 (omega arith),
              (is_guess 50 (omega arith), (is_guess 60 (omega arith), tt)),
            ),
          ),
        ),
      )
      (omega arith) refl refl (omega arith)
  where
    is_guess : (t : ℕ) → t ≤ 600000 → Lockout.IsGuess lower 0 (codes "root") credentials (guess t)
    is_guess t h = record { late = omega arith; early = omega arith; wrong = refl }

-- A server with a name that is locked out.
abbrev locked : AuthManager
locked = record {
  sessions = [];
  login_failures =
      (codes "root", record { count = 5; first_failure_at = 10; blocked_until = some 900050 }) ∷ [];
}

locked-AreSane : AreSane 50 locked
locked-AreSane = ((omega arith, (omega arith, omega arith)), tt)

locked_refuses : (can_attempt_login lower 100 (codes "root") locked).1.ok ≡ false
unfolding logins
locked_refuses = refl

login-AreSane_example :
    AreSane 100
      (login lower 100
        (codes "t")
        (codes "root")
        (codes "x")
        (record { auth = locked; services = credentials })).0.auth
login-AreSane_example =
    login-AreSane lower 50 100 (codes "t") (codes "root") (codes "x")
      (record { auth = locked; services = credentials }) (omega arith) locked-AreSane

locked_later : AreSane 100 locked
locked_later = ((omega arith, (omega arith, omega arith)), tt)

refused_then_allowed_example :
    (r : ℕ) × ((can_attempt_login lower 100 (codes "root") locked).1.retry_after_ms ≡ some r)
    × (0 < r)
    × (r ≤ login_lockout_duration)
    × ((can_attempt_login lower (100 + r) (codes "root") locked).1 ≡ plain true)
    × (get
          (normalize_username lower (codes "root"))
          (can_attempt_login lower (100 + r) (codes "root") locked).0.login_failures
        ≡ none)
refused_then_allowed_example =
    refused_then_allowed lower 100 (codes "root") locked locked_later locked_refuses

abbrev calls : List Sessions.Call
calls =
    Sessions.creates 5 (codes "b") (codes "ann")
    ∷ Sessions.validates 9 (codes "a")
    ∷ Sessions.deletes (codes "b")
    ∷ []

validate_session-run_example :
    (validate_session 10
      (codes "a")
      (Sessions.run calls (create_session 1 (codes "a") (codes "ann") new_manager))).1
    ≡ leb 10 (1 + session_duration)
unfolding text_eq
validate_session-run_example =
    Sessions.validate_session-run 1 10 (codes "a") (codes "ann") calls new_manager
      ((omega arith, refl), (omega arith, (refl, tt)))

abbrev request : Request
request = record {
  path = codes "/api/instances";
  authorization = none;
  session_cookie = text (codes "a");
  session_header = none;
}

auth_middleware-next_iff_example :
    ((auth_middleware 10 request fresh).1 ≡ next) ↔ Granted 10 request fresh
auth_middleware-next_iff_example = auth_middleware-next_iff 10 request fresh
