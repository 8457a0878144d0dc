-- ===== src/Auth/Lockout.antt =====
-- FerrumGUI/src/authManager.ts: what the record of failed logins does to an attacker and to a user.
use ferrum_proxy.Base.{
  ℕ, ◌+◌, ◌-◌, ◌≤◌, ◌≡◌, refl, ap, ◌∙◌, ◌==◌, if◌then◌else◌, Bool, true, false, ◌&&◌, Bool-cases,
  inl, inr, Text, text_eq, text_eq_iff, text_eq_refl, get, get-put, get-delete, Option, none, some,
  List, [], ◌∷◌, All, arith,
}
use ferrum_proxy.Services
use ferrum_proxy.Services.{ServiceManager}
use ferrum_proxy.Auth.{
  AuthManager, LoginFailure, login_failure_window, login_lockout_duration, is_outdated, is_blocked,
  failed_again, blocks, normalize_username, can_attempt_login, register_failed_login,
  clear_failed_logins, create_session,
}
use ferrum_proxy.Auth.Login.{Server, Response, status, login}

pub record Call : Type 0 where
  pub time : ℕ
  pub token : Text
  pub username : Text
  pub password : Text

-- 1 for the answer that tells a guesser that the password is wrong.
abbrev pub unauthorized : Response → ℕ
unauthorized (status n) = if n == 401 then 1 else 0
unauthorized _ = 0

-- How many more such answers an entry leaves.
abbrev left_over : ℕ → Option ℕ → ℕ
left_over n none = 4 - n
left_over n (some t) = 0

abbrev budget : Option LoginFailure → ℕ
budget none = 4
budget (some f) = left_over f.count f.blocked_until

-- A block set since `start`.
abbrev IsLate : ℕ → Option ℕ → Type 0
IsLate start none = Unit
IsLate start (some t) = start + login_lockout_duration ≤ t

-- No entry, or one made since `start`.
abbrev IsRecent : ℕ → Option LoginFailure → Type 0
IsRecent start none = Unit
IsRecent start (some f) = (start ≤ f.first_failure_at) × IsLate start f.blocked_until

abbrev pub entry : Text → AuthManager → Option LoginFailure
entry k a = get k a.login_failures

module _ (to_lower_case : Text → Text) where
  abbrev pub key_of : Text → Text
  key_of username = normalize_username to_lower_case username

  -- The entry that `canAttemptLogin` leaves.
  abbrev pub kept : ℕ → Option LoginFailure → Option LoginFailure
  kept now none = none
  kept now (some f) =
      if is_blocked now f.blocked_until then some f else if is_outdated now f then none else some f

  abbrev pub gate : ℕ → Option LoginFailure → Bool
  gate now none = true
  gate now (some f) = if is_blocked now f.blocked_until then false else true

  pub can_attempt_login-entry :
      (now : ℕ) (u k : Text) (a : AuthManager)
      → entry k (can_attempt_login to_lower_case now u a).0
        ≡ (if text_eq (key_of u) k then kept now (entry (key_of u) a) else entry k a)
  unfolding can_attempt_login
  can_attempt_login-entry now u k a =
      ground (arith, get-delete (key_of u) k a.login_failures, text_eq_iff (key_of u) k)

  pub can_attempt_login-ok :
      (now : ℕ) (u : Text) (a : AuthManager)
      → (can_attempt_login to_lower_case now u a).1.ok ≡ gate now (entry (key_of u) a)
  unfolding can_attempt_login
  can_attempt_login-ok now u a = ground arith

  pub register_failed_login-entry :
      (now : ℕ) (u k : Text) (a : AuthManager)
      → entry k (register_failed_login to_lower_case now u a).0 ≡ (
          if text_eq (key_of u) k
          then some (failed_again to_lower_case now (entry (key_of u) a))
          else entry k a)
  unfolding register_failed_login
  register_failed_login-entry now u k a = get-put (key_of u) k _ a.login_failures

  register_failed_login-blocks :
      (now : ℕ) (u : Text) (a : AuthManager)
      → (register_failed_login to_lower_case now u a).1
        ≡ blocks to_lower_case (failed_again to_lower_case now (entry (key_of u) a))
  unfolding register_failed_login
  register_failed_login-blocks now u a = refl

  -- A guess at a wrong password uses up what is left, for the name that it is made for.
  login-budget :
      (start now : ℕ) (token u p : Text) (s : Server)
      → start ≤ now
      → now ≤ start + login_failure_window
      → Services.verify_auth u p s.services ≡ false
      → IsRecent start (entry (key_of u) s.auth)
      → IsRecent start (entry (key_of u) (login to_lower_case now token u p s).0.auth)
        × (unauthorized (login to_lower_case now token u p s).1
              + budget (entry (key_of u) (login to_lower_case now token u p s).0.auth)
            ≤ budget (entry (key_of u) s.auth))
  unfolding login
  login-budget start now token u p s h k e r =
      let a = (can_attempt_login to_lower_case now u s.auth).0 in
      ground (
        arith,
        text_eq_refl (key_of u),
        can_attempt_login-entry now u (key_of u) s.auth,
        can_attempt_login-ok now u s.auth,
        register_failed_login-entry now u (key_of u) a,
        register_failed_login-blocks now u a,
      )

  clear_failed_logins-entry :
      (u k : Text) (a : AuthManager)
      → entry k (clear_failed_logins to_lower_case u a)
        ≡ (if text_eq (key_of u) k then none else entry k a)
  unfolding clear_failed_logins
  clear_failed_logins-entry u k a = get-delete (key_of u) k a.login_failures

  -- Nobody's login touches another name's entry.
  pub login-entry_ne :
      (now : ℕ) (token u p k : Text) (s : Server)
      → text_eq (key_of u) k ≡ false
      → entry k (login to_lower_case now token u p s).0.auth ≡ entry k s.auth
  unfolding login create_session
  login-entry_ne now token u p k s e =
      let a = (can_attempt_login to_lower_case now u s.auth).0 in
      ground (
        arith,
        can_attempt_login-entry now u k s.auth,
        register_failed_login-entry now u k a,
        clear_failed_logins-entry u k a,
      )

  pub login-services :
      (now : ℕ) (token u p : Text) (s : Server)
      → (login to_lower_case now token u p s).0.services ≡ s.services
  unfolding login
  login-services now token u p s = ground arith

  abbrev pub answer : Call → Server → Server × Response
  answer c s = login to_lower_case c.time c.token c.username c.password s

  -- How often the guesser of the name `k` is told that the password is wrong.
  abbrev pub refusals : Text → List Call → Server → ℕ
  refusals k [] s = 0
  refusals k (c ∷ cs) s =
      (if text_eq (key_of c.username) k then unauthorized (answer c s).1 else 0)
      + refusals k cs (answer c s).0

  -- A call within the window from `start` that, if it is for the name `k`, has a wrong password.
  pub record IsGuess (start : ℕ) (k : Text) (services : ServiceManager) (c : Call) : Type 0 where
    pub late : start ≤ c.time
    pub early : c.time ≤ start + login_failure_window
    pub wrong :
        (text_eq (key_of c.username) k && Services.verify_auth c.username c.password services)
        ≡ false

  refusals-le-budget :
      (start : ℕ) (k : Text) (services : ServiceManager) (cs : List Call) (s : Server)
      → s.services ≡ services
      → All (IsGuess start k services) cs
      → IsRecent start (entry k s.auth)
      → refusals k cs s ≤ budget (entry k s.auth)
  refusals-le-budget start k services [] s e h r = omega arith
  refusals-le-budget start k services (c ∷ cs) s e (g, h) r =
      let ih =
        refusals-le-budget start k services cs (answer c s).0
          (login-services c.time c.token c.username c.password s ∙ e) h in
      elim (Bool-cases (text_eq (key_of c.username) k)) [
        | inl same ↦
            let key : key_of c.username ≡ k = (text_eq_iff _ _).0 same in
            let wrong : Services.verify_auth c.username c.password s.services ≡ false =
              rw e (rw same at g.wrong) in
            let (recent, spent) =
              login-budget start c.time c.token c.username c.password s g.late g.early wrong
                (rw key r) in
            rw (same) (omega (arith, ih (rw key at recent), rw key at spent))
        | inr other ↦
            let kept = login-entry_ne c.time c.token c.username c.password k s other in
            rw other (omega (arith, ap budget kept, ih (rw kept r)))
      ]

  -- From when a name has no failed login on record, and for as long as the window of failures lasts,
  -- whoever guesses at its password is told at most four times that a guess is wrong, whatever the
  -- number of guesses and whatever logins are made for other names meanwhile.
  pub refusals-le-4 :
      (start : ℕ) (k : Text) (cs : List Call) (s : Server)
      → get k s.auth.login_failures ≡ none
      → All (IsGuess start k s.services) cs
      → refusals k cs s ≤ 4
  refusals-le-4 start k cs s none_yet h =
      let bound = refusals-le-budget start k s.services cs s refl h (rw none_yet tt) in
      omega (arith, ap budget none_yet, bound)
