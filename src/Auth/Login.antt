-- ===== src/Auth/Login.antt =====
-- FerrumGUI/src/index.ts: the handlers of /api/auth/login, logout, setup and change-password, over
-- the session and failure tables of `AuthManager` and the credentials of `ServiceManager`.
use ferrum_proxy.Base.{
  ℕ, ltb, length, if◌then◌else◌, Bool, not, ◌&&◌, ◌||◌, Text, is_empty, text_eq, Option, none, some,
  is_some,
}
use ferrum_proxy.Services
use ferrum_proxy.Services.{ServiceManager}
use ferrum_proxy.Auth.{
  AuthManager, Verdict, can_attempt_login, register_failed_login, clear_failed_logins,
  create_session, delete_session,
}

-- The status of the response, with the token or the delay that it carries.
pub data Response : Type 0 where
  status : ℕ → Response
  throttled : Option ℕ → Response
  logged_in : Text → Response

pub record Server : Type 0 where
  pub auth : AuthManager
  pub services : ServiceManager

module _ (to_lower_case : Text → Text) where
  -- After a wrong password
  abbrev pub reject : AuthManager × Verdict → ServiceManager → Server × Response
  reject (a, v) services = (
    record { auth = a; services = services },
    (if v.ok && is_some v.retry_after_ms then throttled v.retry_after_ms else status 401),
  )

  -- After `canAttemptLogin`
  abbrev pub try_login :
      ℕ → Text → Text → Text → AuthManager × Verdict → ServiceManager → Server × Response
  try_login now token username password (a, v) services =
      if not v.ok
      then (record { auth = a; services = services }, throttled v.retry_after_ms)
      else if not (Services.verify_auth username password services)
      then reject (register_failed_login to_lower_case now username a) services
      else (
        record {
          auth = create_session now token username (clear_failed_logins to_lower_case username a);
          services = services;
        },
        logged_in token,
      )

  -- `POST /api/auth/login`
  unfoldable pub login : ℕ → Text → Text → Text → Server → Server × Response
  login now token username password s =
      if is_empty username || is_empty password
      then (s, status 400)
      else try_login now token username password
          (can_attempt_login to_lower_case now username s.auth) s.services

  -- `POST /api/auth/logout`
  unfoldable pub logout : Option Text → Server → Server
  logout none s = s
  logout (some token) s =
      if is_empty token then s else record s { auth = delete_session token s.auth }

  -- After `setAuth`, whose exception is answered by 500
  abbrev pub set_up : ℕ → Text → Text → AuthManager → Services.Outcome → Server × Response
  set_up now token username a (services, some e) =
      (record { auth = a; services = services }, status 500)
  set_up now token username a (services, none) =
      (record { auth = create_session now token username a; services = services }, logged_in token)

  -- `POST /api/auth/setup`
  unfoldable pub setup : ℕ → Bool → Text → Text → Text → Server → Server × Response
  setup now writable token username password s =
      if Services.has_auth s.services
      then (s, status 403)
      else if is_empty username || is_empty password
      then (s, status 400)
      else if ltb (length password) 8
      then (s, status 400)
      else set_up now token username s.auth
          (Services.set_auth now writable username password s.services)

-- After `setAuth` of `change-password`
abbrev pub changed : AuthManager → Services.Outcome → Server × Response
changed a (services, some e) = (record { auth = a; services = services }, status 500)
changed a (services, none) = (record { auth = a; services = services }, status 200)

abbrev pub change_to : ℕ → Bool → Text → Text → Option Services.Auth → Server → Server × Response
change_to now writable current new none s = (s, status 401)
change_to now writable current new (some auth) s =
    if not (text_eq auth.password current)
    then (s, status 401)
    else changed s.auth (Services.set_auth now writable auth.username new s.services)

-- `PUT /api/auth/change-password`
unfoldable pub change_password : ℕ → Bool → Text → Text → Server → Server × Response
change_password now writable current new s =
    if is_empty current || is_empty new
    then (s, status 400)
    else if ltb (length new) 8
    then (s, status 400)
    else change_to now writable current new (Services.get_auth s.services) s
