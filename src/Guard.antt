-- ===== src/Guard.antt =====
-- FerrumGUI/src/index.ts: the guard in front of every request. It turns away suspicious user agents,
-- and keeps a bucket of tokens for each client. The code counts tokens in floating point, with the
-- rounding of each refill; here they are counted exactly, in parts of 1/60000, in which the refill of
-- a policy is a whole number for each millisecond.
pub mod Bucket
pub mod Block
use ferrum_proxy.Base.{
  ℕ, ◌+◌, ◌-◌, ◌*◌, ◌/◌, min, ltb, leb, if◌then◌else◌, not, any, is_empty, Bool, true, false, ◌&&◌,
  ◌||◌, Text, codes, trim, starts_with, Map, get, put, Option, none, some, or_else, List, [], ◌∷◌,
}
use ferrum_proxy.Auth.{Verdict, plain, retry, is_blocked, time_left}
use ferrum_proxy.Auth.Access.Paths.{is_manager_path}

-- `SecurityScope`
pub data Scope : Type 0 where
  web api auth websocket : Scope

-- The settings, each read from the environment by `readPositiveIntegerEnv`.
pub record Settings : Type 0 where
  pub http_per_minute : ℕ
  pub http_burst : ℕ
  pub auth_per_minute : ℕ
  pub auth_burst : ℕ
  pub websocket_per_minute : ℕ
  pub websocket_burst : ℕ
  pub block_after : ℕ
  pub block_ms : ℕ

-- `readPositiveIntegerEnv`, given what `Number.parseInt` reads from the variable if it is set and
-- not empty
abbrev pub positive_or : ℕ → Option ℕ → ℕ
positive_or fallback none = fallback
positive_or fallback (some n) = if leb n 0 then fallback else n

abbrev pub default_settings : Settings
default_settings = record {
  http_per_minute = 240;
  http_burst = 80;
  auth_per_minute = 30;
  auth_burst = 10;
  websocket_per_minute = 30;
  websocket_burst = 12;
  block_after = 6;
  block_ms = 600000;
}

-- `getRateLimitPolicy`; the refill is that of a minute.
pub record Policy : Type 0 where
  pub capacity : ℕ
  pub per_minute : ℕ

unfoldable pub policy_of : Settings → Scope → Policy
policy_of s auth = record { capacity = s.auth_burst; per_minute = s.auth_per_minute }
policy_of s websocket = record { capacity = s.websocket_burst; per_minute = s.websocket_per_minute }
policy_of s _ = record { capacity = s.http_burst; per_minute = s.http_per_minute }

-- `selectSecurityScope`
unfoldable pub select_security_scope : Text → Scope
select_security_scope path =
    if starts_with path (codes "/api/auth/")
    then auth
    else if starts_with path (codes "/api/")
    then api
    else web

-- `SecurityState`
pub record State : Type 0 where
  pub tokens : ℕ
  pub last_refill_at : ℕ
  pub violations : ℕ
  pub blocked_until : Option ℕ

abbrev pub whole : ℕ
whole = 60000

abbrev pub is_stale : ℕ → State → Bool
is_stale now st = not (is_blocked now st.blocked_until) && ltb 1800000 (now - st.last_refill_at)

-- `pruneExpiredSecurityStates`
unfoldable pub prune : ℕ → Map State → Map State
prune now [] = []
prune now ((k, st) ∷ m) = if is_stale now st then prune now m else (k, st) ∷ prune now m

-- What `getSecurityState` creates
abbrev pub created : ℕ → Policy → State
created now p = record {
  tokens = p.capacity * whole;
  last_refill_at = now;
  violations = 0;
  blocked_until = none;
}

unfoldable pub refill : ℕ → Policy → State → State
refill now p st = record st {
  tokens = min (p.capacity * whole) (st.tokens + (now - st.last_refill_at) * p.per_minute);
  last_refill_at = now;
}

abbrev pub ceil_div : ℕ → ℕ → ℕ
ceil_div a b = (a + (b - 1)) / b

-- The end of `consumeSecurityToken`, after the refill
unfoldable pub take_token : Settings → ℕ → Policy → State → State × Verdict
take_token s now p st =
    if ltb st.tokens whole
    then (if leb s.block_after (st.violations + 1)
        then (
          record st { violations = st.violations + 1; blocked_until = some (now + s.block_ms) },
          retry false s.block_ms,
        )
        else (
          record st { violations = st.violations + 1 },
          retry false (ceil_div (whole - st.tokens) p.per_minute),
        ))
    else (record st { tokens = st.tokens - whole; violations = st.violations - 1 }, plain true)

unfoldable pub consume_state : Settings → ℕ → Policy → State → State × Verdict
unfolding take_token refill
consume_state s now p st =
    if is_blocked now st.blocked_until
    then (st, retry false (time_left now st.blocked_until))
    else take_token s now p (refill now p st)

-- `consumeSecurityToken`
unfoldable pub consume : Settings → ℕ → Text → Scope → Map State → Map State × Verdict
consume s now client scope m =
    let p = policy_of s scope in
    let pruned = prune now m in
    let (st, v) = consume_state s now p (or_else (get client pruned) (created now p)) in
    (put client st pruned, v)

-- `s.includes(p)`
unfoldable pub includes : Text → Text → Bool
includes [] p = starts_with [] p
includes (c ∷ s) p = starts_with (c ∷ s) p || includes s p

pub data Decision : Type 0 where
  pass : Decision
  forbidden : Decision
  too_many : Option ℕ → Decision

abbrev pub decide : Map State × Verdict → Map State × Decision
decide (m, v) = (m, (if v.ok then pass else too_many v.retry_after_ms))

module _ (to_lower_case : Text → Text) (fragments : List Text) where
  -- `isBlockedUserAgent`
  unfoldable pub is_blocked_user_agent : Option Text → Bool
  is_blocked_user_agent none = true
  is_blocked_user_agent (some agent) =
      is_empty (trim agent) || any (λ f. includes (to_lower_case agent) f) fragments

  -- `securityGuard`
  unfoldable pub security_guard :
      Settings → ℕ → Text → Option Text → Text → Map State → Map State × Decision
  security_guard s now client agent path m =
      if not (is_manager_path path) && is_blocked_user_agent agent
      then (m, forbidden)
      else decide (consume s now client (select_security_scope path) m)
