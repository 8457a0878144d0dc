-- ===== src/ManagerApi.antt =====
-- FerrumGUI/src/index.ts: the port and the token of an instance's Manager API. Whether a port can be
-- bound is the platform's answer, and stands as a parameter; a generated token is an argument.
pub mod Ports
pub mod Registry
use ferrum_proxy.Base.{
  ℕ, ◌+◌, ◌-◌, ◌==◌, min, max, if◌then◌else◌, not, any, is_some, is_empty, or_else, Bool, true,
  false, ◌&&◌, ◌||◌, Text, codes, text_eq, Option, none, some, List, [], ◌∷◌,
}
use ferrum_proxy.Base.Decimal.{decimal}
use ferrum_proxy.Base.Searches.{first_from}
use ferrum_proxy.Services
use ferrum_proxy.Services.{ServiceManager, get_all, get_by_id}
use ferrum_proxy.Services.Instances.{Instance}

-- `!instance.managerPort`, which is true of 0 too, and `!instance.managerToken`
abbrev pub has_port : Instance → Bool
has_port i = elim i.manager_port [ none ↦ false | some p ↦ not (p == 0) ]

abbrev pub has_token : Instance → Bool
has_token i = elim i.manager_token [ none ↦ false | some t ↦ not (is_empty t) ]

abbrev pub args_of : Option ℕ → Option Text → List Text
args_of (some port) (some token) =
    if port == 0 || is_empty token
    then []
    else codes "--manager-port" ∷ decimal port ∷ codes "--manager-token" ∷ token ∷ []
args_of _ _ = []

-- `getManagerApiArgs`
unfoldable pub get_manager_api_args : Instance → List Text
unfolding decimal
get_manager_api_args i = args_of i.manager_port i.manager_token

abbrev pub is_port : ℕ → Option ℕ → Bool
is_port p none = false
is_port p (some q) = q == p

-- `usedPorts.has(port)`
unfoldable pub is_used : Text → ℕ → List Instance → Bool
is_used id p is = any (λ i. not (text_eq i.id id) && is_port p i.manager_port) is

-- MANAGER_PORT_START and MANAGER_PORT_END, and what of the platform the search asks
pub record Platform : Type 0 where
  pub port_start : ℕ
  pub port_end : ℕ
  pub can_bind : ℕ → Bool

-- `allocateManagerPort`; `none` is the exception.
unfoldable pub allocate_manager_port : Platform → Text → List Instance → Option ℕ
unfolding is_used first_from
allocate_manager_port platform id is =
    let start = min platform.port_start platform.port_end in
    let end = max platform.port_start platform.port_end in
    first_from (λ p. not (is_used id p is) && platform.can_bind p) start (end + 1 - start)

pub data ApiError : Type 0 where
  no_port : ApiError
  registry : Services.Error → ApiError

pub data Ensured : Type 0 where
  ensured : Instance → Ensured
  thrown : ApiError → Ensured

-- The updates are what the instance `i` misses, and `j` is the instance that they are made to.
unfoldable pub complete : Instance → Text → ℕ → Instance → Instance
complete i token port j = record j {
  manager_token = if has_token i then j.manager_token else some token;
  manager_port = if has_port i then j.manager_port else some port;
}

-- The result of the update: the instance as the registry has it then, or as it should be
abbrev pub updated : Text → Instance → Services.Outcome → ServiceManager × Ensured
updated id next (m, some e) = (m, thrown (registry e))
updated id next (m, none) = (m, ensured (or_else (get_by_id id m) next))

abbrev pub ensure_with :
    ℕ → Bool → Text → Instance → ServiceManager → Option ℕ → ServiceManager × Ensured
ensure_with now ok token i m none = (m, thrown no_port)
ensure_with now ok token i m (some port) =
    updated i.id (complete i token port i) (Services.update now ok i.id (complete i token port) m)

-- `ensureManagerApi`; no port is looked for where the instance has one.
unfoldable pub ensure_manager_api :
    Platform → ℕ → Bool → Text → Instance → ServiceManager → ServiceManager × Ensured
unfolding allocate_manager_port complete Services.update get_by_id
ensure_manager_api platform now ok token i m =
    if has_token i && has_port i
    then (m, ensured i)
    else if has_port i
    then ensure_with now ok token i m (some 0)
    else ensure_with now ok token i m (allocate_manager_port platform i.id (get_all m))
