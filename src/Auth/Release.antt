-- ===== src/Auth/Release.antt =====
-- FerrumGUI/src/authManager.ts: when a name that is locked out can log in again.
use ferrum_proxy.Base.{
  ℕ, ◌+◌, ◌-◌, ◌≤◌, ◌<◌, ◌≡◌, ◌∙◌, ltb, true, false, Option-cases, inl, inr, Text, text_eq_refl,
  Map, get, get-delete, Entries, Entries-put, Entries-delete, Entries-get, Option, none, some, [],
  ◌∷◌, arith,
}
use ferrum_proxy.Auth.{
  AuthManager, LoginFailure, login_failure_window, login_lockout_duration, failed_again, attempt,
  normalize_username, can_attempt_login, register_failed_login, clear_failed_logins, create_session,
  plain,
}
use ferrum_proxy.Auth.Login.{Server, login}

-- A block lasts from after the first failure until at most the lockout from now.
abbrev pub IsTimely : ℕ → LoginFailure → Option ℕ → Type 0
IsTimely now f none = Unit
IsTimely now f (some t) =
    (f.first_failure_at + login_lockout_duration ≤ t) × (t ≤ now + login_lockout_duration)

abbrev pub IsSane : ℕ → LoginFailure → Type 0
IsSane now f = (f.first_failure_at ≤ now) × IsTimely now f f.blocked_until

abbrev pub AreSane : ℕ → AuthManager → Type 0
AreSane now a = Entries (IsSane now) a.login_failures

IsTimely-mono :
    (now later : ℕ) (f : LoginFailure) (o : Option ℕ)
    → now ≤ later
    → IsTimely now f o
    → IsTimely later f o
IsTimely-mono now later f none h t = tt
IsTimely-mono now later f (some b) h t = omega arith

Entries-mono :
    (now later : ℕ) (m : Map LoginFailure)
    → now ≤ later
    → Entries (IsSane now) m
    → Entries (IsSane later) m
Entries-mono now later [] h e = tt
Entries-mono now later ((k, f) ∷ m) h (s, e) =
    ((omega arith, IsTimely-mono now later f f.blocked_until h s.1), Entries-mono now later m h e)

module _ (to_lower_case : Text → Text) where
  failed_again-IsSane :
      (now : ℕ) (k : Text) (m : Map LoginFailure)
      → Entries (IsSane now) m
      → IsSane now (failed_again to_lower_case now (get k m))
  failed_again-IsSane now k m e = elim (Option-cases (get k m)) [
    | inl missing ↦ rw missing (omega arith, tt)
    | inr (f, found) ↦ rw found (ground (arith, Entries-get (IsSane now) k m {v = f} e found))
  ]

  can_attempt_login-AreSane :
      (now : ℕ) (u : Text) (a : AuthManager)
      → AreSane now a
      → AreSane now (can_attempt_login to_lower_case now u a).0
  unfolding can_attempt_login
  can_attempt_login-AreSane now u a e =
      ground
        (arith, Entries-delete (IsSane now) (normalize_username to_lower_case u) a.login_failures e)

  register_failed_login-AreSane :
      (now : ℕ) (u : Text) (a : AuthManager)
      → AreSane now a
      → AreSane now (register_failed_login to_lower_case now u a).0
  unfolding register_failed_login
  register_failed_login-AreSane now u a e =
      let key = normalize_username to_lower_case u in
      Entries-put (IsSane now) key _ a.login_failures e
        (failed_again-IsSane now key a.login_failures e)

  clear_failed_logins-AreSane :
      (now : ℕ) (u : Text) (a : AuthManager)
      → AreSane now a
      → AreSane now (clear_failed_logins to_lower_case u a)
  unfolding clear_failed_logins
  clear_failed_logins-AreSane now u a e =
      Entries-delete (IsSane now) (normalize_username to_lower_case u) a.login_failures e

  -- If time does not run backwards, a login keeps every record of failures sane: no block is longer
  -- than the lockout, and each ends at least the lockout after the first failure it counts.
  pub login-AreSane :
      (before now : ℕ) (token u p : Text) (s : Server)
      → before ≤ now
      → AreSane before s.auth
      → AreSane now (login to_lower_case now token u p s).0.auth
  unfolding login create_session
  login-AreSane before now token u p s h e =
      let a = (can_attempt_login to_lower_case now u s.auth).0 in
      let here = Entries-mono before now s.auth.login_failures h e in
      let tried = can_attempt_login-AreSane now u s.auth here in
      ground (
        arith,
        here,
        tried,
        register_failed_login-AreSane now u a tried,
        clear_failed_logins-AreSane now u a tried,
      )

  -- A wait that ends a block, its record and all.
  abbrev Release : ℕ → Text → Option LoginFailure → AuthManager → Type 0
  Release now key o a =
      (r : ℕ) × ((attempt to_lower_case now key o a).1.retry_after_ms ≡ some r)
      × (0 < r)
      × (r ≤ login_lockout_duration)
      × ((attempt to_lower_case (now + r) key o a).1 ≡ plain true)
      × (get key (attempt to_lower_case (now + r) key o a).0.login_failures ≡ none)

  attempt-Release :
      (now : ℕ) (key : Text) (f : LoginFailure) (a : AuthManager) (t : ℕ)
      → f.blocked_until ≡ some t
      → IsSane now f
      → now < t
      → Release now key (some f) a
  attempt-Release now key f a t b (_, s) h =
      let timely : IsTimely now f (some t) = rw b at s in
      let outdated : ltb login_failure_window ((now + (t - now)) - f.first_failure_at) ≡ true =
        ground arith in
      let over : ltb (now + (t - now)) t ≡ false = ground arith in
      let still : ltb now t ≡ true = ground arith in
      (
        t - now,
        rw (b, still),
        omega arith,
        omega arith,
        rw (b, over, outdated),
        rw (b, over, outdated) (get-delete key key a.login_failures ∙ rw (text_eq_refl key)),
      )

  -- A refusal of a sane record says how long to wait, at most the lockout; after that wait the name
  -- may log in again, and its record of failures is gone.
  pub refused_then_allowed :
      (now : ℕ) (u : Text) (a : AuthManager)
      → AreSane now a
      → (can_attempt_login to_lower_case now u a).1.ok ≡ false
      → (r : ℕ) × ((can_attempt_login to_lower_case now u a).1.retry_after_ms ≡ some r)
        × (0 < r)
        × (r ≤ login_lockout_duration)
        × ((can_attempt_login to_lower_case (now + r) u a).1 ≡ plain true)
        × (get
              (normalize_username to_lower_case u)
              (can_attempt_login to_lower_case (now + r) u a).0.login_failures
            ≡ none)
  unfolding can_attempt_login
  refused_then_allowed now u a e refused =
      let key = normalize_username to_lower_case u in
      elim (Option-cases (get key a.login_failures)) [
        | inl missing ↦ absurd (ground arith)
        | inr (f, found) ↦ elim (Option-cases f.blocked_until) [
          | inl free ↦ absurd (ground arith)
          | inr (t, b) ↦
              let sane = Entries-get (IsSane now) key a.login_failures {v = f} e found in
              rw found (attempt-Release now key f a t b sane (ground arith))
        ]
      ]
