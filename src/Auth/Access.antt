-- ===== src/Auth/Access.antt =====
-- FerrumGUI/src/authManager.ts: `authMiddleware` and `strictAuthMiddleware`, which decide who gets
-- to the handlers. A cookie is a text, or an object where the cookie parser read JSON.
pub mod Paths
pub mod Granted
use ferrum_proxy.Base.{
  ℕ, if◌then◌else◌, not, any, drop, is_some, is_empty, Bool, true, false, ◌&&◌, ◌||◌, Text, codes,
  text_eq, trim, starts_with, Option, none, some,
}
use ferrum_proxy.Services
use ferrum_proxy.Services.{ServiceManager}
use ferrum_proxy.Services.Instances.{Instance}
use ferrum_proxy.Auth.{AuthManager, validate_session}
use ferrum_proxy.Auth.Login.{Server}
use Paths.{is_manager_path, public_metadata_id, instances_path}

pub data Cookie : Type 0 where
  absent : Cookie
  text : Text → Cookie
  object : Cookie

pub record Request : Type 0 where
  pub path : Text
  pub authorization : Option Text
  pub session_cookie : Cookie
  pub session_header : Option Text

-- `sessionTokenFromRequest`
unfoldable pub session_token_of : Cookie → Option Text → Option Text
session_token_of absent header = header
session_token_of (text t) header = if is_empty t then header else some t
session_token_of object header = none

unfoldable pub session_token_from_request : Request → Option Text
unfolding session_token_of
session_token_from_request req = session_token_of req.session_cookie req.session_header

abbrev pub bearer : Text
bearer = codes "Bearer "

-- `bearerTokenFromRequest`
unfoldable pub bearer_token_of : Option Text → Option Text
bearer_token_of none = none
bearer_token_of (some auth) =
    if starts_with auth bearer
    then (if is_empty (trim (drop 7 auth)) then none else some (trim (drop 7 auth)))
    else none

abbrev pub token_is : Text → Option Text → Bool
token_is t none = false
token_is t (some m) = text_eq m t

abbrev pub has_token : Text → Option Instance → Bool
has_token t none = false
has_token t (some i) = token_is t i.manager_token

abbrev pub metadata_allowed : Text → Option Text → ServiceManager → Bool
metadata_allowed t none m = false
metadata_allowed t (some id) m = has_token t (Services.get_by_id id m)

abbrev pub bearer_allowed : Option Text → Text → ServiceManager → Bool
bearer_allowed none path m = false
bearer_allowed (some t) path m =
    if text_eq path instances_path
    then any (λ i. token_is t i.manager_token) (Services.get_all m)
    else metadata_allowed t (public_metadata_id path) m

-- `isManagerTokenAllowed`
unfoldable pub is_manager_token_allowed : Request → ServiceManager → Bool
unfolding bearer_token_of
is_manager_token_allowed req m = bearer_allowed (bearer_token_of req.authorization) req.path m

pub data Decision : Type 0 where
  next : Decision
  refused : ℕ → Decision

abbrev pub decide_by : AuthManager × Bool → ServiceManager → Server × Decision
decide_by (a, valid) m = (record { auth = a; services = m }, (if valid then next else refused 401))

-- `!token || !this.validateSession(token)`
abbrev pub by_session : ℕ → Option Text → Server → Server × Decision
by_session now none s = (s, refused 401)
by_session now (some t) s =
    if is_empty t then (s, refused 401) else decide_by (validate_session now t s.auth) s.services

unfoldable pub is_public : Text → Bool
is_public path =
    text_eq path (codes "/api/auth/login")
    || text_eq path (codes "/api/auth/status")
    || is_manager_path path
    || not (starts_with path (codes "/api/"))

unfoldable pub auth_middleware : ℕ → Request → Server → Server × Decision
auth_middleware now req s =
    if is_public req.path
    then (s, next)
    else if not (Services.has_auth s.services)
    then (s, next)
    else if is_manager_token_allowed req s.services
    then (s, next)
    else by_session now (session_token_from_request req) s

unfoldable pub strict_auth_middleware : ℕ → Request → Server → Server × Decision
strict_auth_middleware now req s =
    if not (Services.has_auth s.services)
    then (s, refused 403)
    else by_session now (session_token_from_request req) s
