-- ===== src/Auth/Locked.antt =====
-- FerrumGUI/src/authManager.ts: what five wrong passwords for one name come to.
use ferrum_proxy.Base.{
  ℕ, ◌+◌, ◌≤◌, ◌<◌, ◌≡◌, refl, ◌∙◌, sym, subst, if◌then◌else◌, Bool, true, false, not, ◌&&◌, ◌||◌,
  is_empty, Bool-cases, inl, inr, Text, text_eq, text_eq_iff, text_eq_refl, get, Option, none, some,
  List, [], ◌∷◌, All, arith,
}
use ferrum_proxy.Services
use ferrum_proxy.Services.{ServiceManager}
use ferrum_proxy.Auth.{
  LoginFailure, login_failure_window, login_lockout_duration, can_attempt_login,
}
use ferrum_proxy.Auth.Login.{Server, Response, throttled, login}
use ferrum_proxy.Auth.Lockout
use ferrum_proxy.Auth.Lockout.{Call, IsGuess, entry, refusals, refusals-le-4}

-- `n` failures since `start` without a block, or a block that lasts for the lockout at least
abbrev HasCounted : ℕ → ℕ → ℕ → Option ℕ → Type 0
HasCounted start n m none = (m ≡ n) × (n ≤ 4)
HasCounted start n m (some t) = start + login_lockout_duration ≤ t

abbrev HasFailed : ℕ → ℕ → Option LoginFailure → Type 0
HasFailed start n none = n ≡ 0
HasFailed start n (some f) =
    (start ≤ f.first_failure_at) × HasCounted start n f.count f.blocked_until

abbrev pub is_throttled : Response → Bool
is_throttled (throttled ms) = true
is_throttled _ = false

abbrev pub is_full : Call → Bool
is_full c = not (is_empty c.username || is_empty c.password)

module _ (to_lower_case : Text → Text) where
  abbrev pub key_of : Text → Text
  key_of username = Lockout.key_of to_lower_case username

  abbrev pub answer : Call → Server → Server × Response
  answer c s = Lockout.answer to_lower_case c s

  -- How many of the calls are for the name `k`, with a name and a password that are not empty
  abbrev pub guesses : Text → List Call → ℕ
  guesses k [] = 0
  guesses k (c ∷ cs) = (if text_eq (key_of c.username) k && is_full c then 1 else 0) + guesses k cs

  unfoldable pub run : List Call → Server → Server
  run [] s = s
  run (c ∷ cs) s = run cs (answer c s).0

  guess-HasFailed :
      (start n now : ℕ) (token u p : Text) (s : Server)
      → start ≤ now
      → now ≤ start + login_failure_window
      → Services.verify_auth u p s.services ≡ false
      → HasFailed start n (entry (key_of u) s.auth)
      → HasFailed start
          (if not (is_empty u || is_empty p) then n + 1 else n)
          (entry (key_of u) (login to_lower_case now token u p s).0.auth)
  unfolding login
  guess-HasFailed start n now token u p s h k e r =
      let a = (can_attempt_login to_lower_case now u s.auth).0 in
      ground (
        arith,
        text_eq_refl (key_of u),
        Lockout.can_attempt_login-entry to_lower_case now u (key_of u) s.auth,
        Lockout.can_attempt_login-ok to_lower_case now u s.auth,
        Lockout.register_failed_login-entry to_lower_case now u (key_of u) a,
      )

  guesses-HasFailed :
      (start n : ℕ) (k : Text) (services : ServiceManager) (cs : List Call) (s : Server)
      → s.services ≡ services
      → All (IsGuess to_lower_case start k services) cs
      → HasFailed start n (entry k s.auth)
      → HasFailed start (guesses k cs + n) (entry k (run cs s).auth)
  unfolding run
  guesses-HasFailed start n k services [] s e h r =
      let same : 0 + n ≡ n = omega arith in
      subst (λ i. HasFailed start i (entry k s.auth)) (sym same) r
  guesses-HasFailed start n k services (c ∷ cs) s e (g, h) r =
      let next = (answer c s).0 in
      let same_services =
        Lockout.login-services to_lower_case c.time c.token c.username c.password s ∙ e in
      elim (Bool-cases (text_eq (key_of c.username) k)) [
        | inl same ↦
            let key : key_of c.username ≡ k = (text_eq_iff _ _).0 same in
            let wrong : Services.verify_auth c.username c.password s.services ≡ false =
              rw e (rw same at g.wrong) in
            let failed : HasFailed start (if is_full c then n + 1 else n) (entry k next.auth) =
              rw key at (
                guess-HasFailed start n c.time c.token c.username c.password s g.late g.early wrong
                  (rw key r)) in
            let ih =
              guesses-HasFailed start (if is_full c then n + 1 else n) k services cs next
                same_services h failed in
            rw same (subst (λ i. HasFailed start i (entry k (run cs next).auth)) (ground arith) ih)
        | inr other ↦
            let left =
              Lockout.login-entry_ne to_lower_case c.time c.token c.username c.password k s other in
            let rest = guesses-HasFailed start n k services cs next same_services h (rw left r) in
            rw other
              (subst (λ i. HasFailed start i (entry k (run cs next).auth)) (ground arith) rest)
      ]

  -- A login in time under a block is refused, whatever the password.
  blocked-throttled :
      (start n now : ℕ) (token u p : Text) (s : Server)
      → 5 ≤ n
      → HasFailed start n (entry (key_of u) s.auth)
      → now < start + login_lockout_duration
      → (is_empty u || is_empty p) ≡ false
      → (is_throttled (login to_lower_case now token u p s).1 ≡ true)
        × ((login to_lower_case now token u p s).0.auth.sessions ≡ s.auth.sessions)
  unfolding login can_attempt_login
  blocked-throttled start n now token u p s five f late full = ground (arith, f)

  -- From a time `start` at which a name has no failed login on record: once five wrong passwords for
  -- it, none of them empty and with no right one among them, have come within the window of failures,
  -- whatever logins for other names come too, every login for the name with a password and in less
  -- than fifteen minutes from `start` is refused as one of too many attempts and makes no session,
  -- also if its password is right; and at most four of the wrong ones were answered as wrong.
  pub login-is_throttled :
      (start : ℕ) (k : Text) (cs : List Call) (s : Server) (c : Call)
      → get k s.auth.login_failures ≡ none
      → All (IsGuess to_lower_case start k s.services) cs
      → 5 ≤ guesses k cs
      → key_of c.username ≡ k
      → is_full c ≡ true
      → c.time < start + login_lockout_duration
      → (is_throttled (answer c (run cs s)).1 ≡ true)
        × ((answer c (run cs s)).0.auth.sessions ≡ (run cs s).auth.sessions)
        × (refusals to_lower_case k cs s ≤ 4)
  login-is_throttled start k cs s c none_yet h five key full early =
      let failed = guesses-HasFailed start 0 k s.services cs s refl h (rw none_yet refl) in
      let (refused, sessions) =
        blocked-throttled start (guesses k cs + 0) c.time c.token c.username c.password (run cs s)
          (omega (arith, five)) (rw key failed) early (ground (arith, full)) in
      (refused, sessions, refusals-le-4 to_lower_case start k cs s none_yet h)
