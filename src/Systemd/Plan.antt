-- ===== src/Systemd/Plan.antt =====
-- FerrumGUI/src/systemdUpdate.ts: what the plan of a restart promises.
use mathlib.Core.Bool.{false≢true}
use mathlib.Core.List.{Memᴰ}
use mathlib.Core.Logic.{◌≢◌}
use ferrum_proxy.Base.{
  ℕ, ◌≤◌, ◌<◌, ◌≡◌, refl, sym, ap, ◌∙◌, subst, if◌then◌else◌, true, false, Bool-cases, inl, inr,
  ◌⊎◌, ◌↔◌, Text, codes, text_eq, text_eq_iff, text_eq_refl, Option, none, some, List, [], ◌∷◌,
  arith,
}
use ferrum_proxy.Base.Decimal.{decimal, decimal_from, number_from, number_of, number_of-decimal}
use ferrum_proxy.Base.Searches.{IsFirst, first_from-IsFirst}
use ferrum_proxy.Systemd.{
  Properties, SystemdService, Restart, restarts_on, automatic_restart_exit_code, by_exit,
  can_restart, contains, systemd_restart_plan,
}

-- Unless systemd waits for the whole control group, the exit code is the least below 126 after which
-- the unit's settings start the service again, and there is none only if they never do.
pub automatic_restart_exit_code-IsFirst :
    (p : Properties)
    → text_eq p.exit_type (codes "cgroup") ≡ false
    → IsFirst (restarts_on p) 0 126 (automatic_restart_exit_code p)
unfolding automatic_restart_exit_code
automatic_restart_exit_code-IsFirst p main =
    rw main (first_from-IsFirst (restarts_on p) 0 126 126 refl)

-- The words of a setting that names exit codes
abbrev pub IsListed : ℕ → List Text → Type 0
IsListed code words = Memᴰ (decimal code) words

-- An exit that systemd takes to be clean
abbrev pub IsClean : Properties → ℕ → Type 0
IsClean p code = (code ≡ 0) ⊎ IsListed code p.success

-- After which exits of the main process systemd starts a service again, by the documented meaning of
-- Restart=, SuccessExitStatus= and RestartPreventExitStatus=
abbrev pub StartsAgain : Properties → ℕ → Type 0
StartsAgain p code =
    ¬ IsListed code p.prevent
    × ((p.restart ≡ codes "always")
        ⊎ (((p.restart ≡ codes "on-success") × IsClean p code)
            ⊎ ((p.restart ≡ codes "on-failure") × ¬ IsClean p code)))

-- Whether the manager may be asked for a restart of the unit
abbrev pub MayAsk : SystemdService → ℕ → Type 0
MayAsk s uid =
    ((uid ≡ 0) ⊎ (s.user ≡ true))
    × (s.properties.refuse_manual_start ≢ codes "yes")
    × (s.properties.refuse_manual_stop ≢ codes "yes")

abbrev pub Works : SystemdService → ℕ → Restart → Type 0
Works s uid r =
    (90000 ≤ r.restart_timeout_ms)
    × (if r.manager_restart
        then MayAsk s uid
        else (s.properties.exit_type ≢ codes "cgroup")
          × (r.exit_code < 126)
          × StartsAgain s.properties r.exit_code)

abbrev WorksIfAny : SystemdService → ℕ → Option Restart → Type 0
WorksIfAny s uid none = Unit
WorksIfAny s uid (some r) = Works s uid r

-- The word is among the words, by the test of the code.
contains_iff : (words : List Text) (t : Text) → (contains words t ≡ true) ↔ Memᴰ t words
contains_iff words t = (listed words t, found words t)
  where
    listed : (words : List Text) (t : Text) → contains words t ≡ true → Memᴰ t words
    listed [] t e = absurd (false≢true e)
    listed (w ∷ ws) t e = elim (Bool-cases (text_eq w t)) [
      | inl same ↦ Memᴰ.head (sym ((text_eq_iff w t).0 same))
      | inr other ↦ Memᴰ.tail (listed ws t (rw other at e))
    ]

    found : (words : List Text) (t : Text) → Memᴰ t words → contains words t ≡ true
    found [] t m = elim m [ ]
    found (w ∷ ws) t (Memᴰ.head e) = ground (arith, e, text_eq_refl t)
    found (w ∷ ws) t (Memᴰ.tail m) = ground (arith, found ws t m)

decimal-0 : (code : ℕ) → decimal code ≡ codes "0" → code ≡ 0
unfolding number_of number_from
decimal-0 code e = sym (number_of-decimal code) ∙ ap number_of e

IsClean-iff :
    (p : Properties) (code : ℕ)
    → (contains (codes "0" ∷ p.success) (decimal code) ≡ true) ↔ IsClean p code
unfolding text_eq decimal decimal_from
IsClean-iff p code = (to_clean, of_clean)
  where
    to_clean : contains (codes "0" ∷ p.success) (decimal code) ≡ true → IsClean p code
    to_clean e = elim (Bool-cases (text_eq (codes "0") (decimal code))) [
      | inl zero ↦ inl (decimal-0 code (sym ((text_eq_iff (codes "0") (decimal code)).0 zero)))
      | inr other ↦ inr ((contains_iff p.success (decimal code)).0 (rw other at e))
    ]

    of_clean : IsClean p code → contains (codes "0" ∷ p.success) (decimal code) ≡ true
    of_clean (inl z) = rw z refl
    of_clean (inr m) = ground (arith, (contains_iff p.success (decimal code)).1 m)

restarts_on-StartsAgain :
    (p : Properties) (code : ℕ) → restarts_on p code ≡ true → StartsAgain p code
unfolding restarts_on
restarts_on-StartsAgain p code e =
    let clean = contains (codes "0" ∷ p.success) (decimal code) in
    let kept : contains p.prevent (decimal code) ≡ false = ground (arith, e) in
    (
      λ m. false≢true (sym kept ∙ (contains_iff p.prevent (decimal code)).1 m),
      elim (Bool-cases (text_eq p.restart (codes "always"))) [
        | inl always ↦ inl ((text_eq_iff _ _).0 always)
        | inr other ↦ inr (elim (Bool-cases clean) [
          | inl succeeds ↦ inl (
            (text_eq_iff _ _).0 (ground (arith, e, other, succeeds)),
            (IsClean-iff p code).0 succeeds,
          )
          | inr fails ↦ inr (
            (text_eq_iff _ _).0 (ground (arith, e, other, fails)),
            λ c. false≢true (sym fails ∙ (IsClean-iff p code).1 c),
          )
        ])
      ],
    )

text_ne : (s t : Text) → text_eq s t ≡ false → s ≢ t
text_ne s t e same = false≢true (sym e ∙ (text_eq_iff s t).1 same)

can_restart-MayAsk : (s : SystemdService) (uid : ℕ) → can_restart s uid ≡ true → MayAsk s uid
can_restart-MayAsk s uid e =
    let root : ((uid ≡ 0) ⊎ (s.user ≡ true)) = ground (arith, e) in
    (
      root,
      text_ne s.properties.refuse_manual_start (codes "yes") (ground (arith, e)),
      text_ne s.properties.refuse_manual_stop (codes "yes") (ground (arith, e)),
    )

restarts_after :
    (p : Properties) (code : ℕ)
    → automatic_restart_exit_code p ≡ some code
    → (p.exit_type ≢ codes "cgroup") × (code < 126) × StartsAgain p code
unfolding automatic_restart_exit_code
restarts_after p code e = elim (Bool-cases (text_eq p.exit_type (codes "cgroup"))) [
  | inl group ↦ absurd (cc (rw group at e))
  | inr main ↦
      let (a, (b, (t, below))) =
        subst (IsFirst (restarts_on p) 0 126) (rw main at e)
          (first_from-IsFirst (restarts_on p) 0 126 126 refl) in
      (text_ne p.exit_type (codes "cgroup") main, b, restarts_on-StartsAgain p code t)
]

by_exit-WorksIfAny :
    (s : SystemdService) (uid : ℕ) (code delay : Option ℕ)
    → automatic_restart_exit_code s.properties ≡ code
    → WorksIfAny s uid (by_exit code delay)
by_exit-WorksIfAny s uid none delay e = tt
by_exit-WorksIfAny s uid (some code) none e = tt
by_exit-WorksIfAny s uid (some code) (some ms) e = (omega arith, restarts_after s.properties code e)

plan-WorksIfAny :
    (s : SystemdService) (uid : ℕ) (delay : Option ℕ)
    → WorksIfAny s uid (systemd_restart_plan s uid delay)
unfolding systemd_restart_plan
plan-WorksIfAny s uid delay = elim (Bool-cases (can_restart s uid)) [
  | inl allowed ↦ rw allowed (omega arith, can_restart-MayAsk s uid allowed)
  | inr refused ↦
      rw refused (by_exit-WorksIfAny s uid (automatic_restart_exit_code s.properties) delay refl)
]

-- A plan that is made either asks the manager, which it does only as root or of a user's manager and
-- where the unit refuses neither a manual start nor a manual stop; or it names an exit code below
-- 126 of a unit that does not wait for its control group, after which the unit's settings make
-- systemd start the service again: a code that does not prevent it, with Restart=always, or with
-- on-success and a clean exit (0 or a listed code), or with on-failure and no clean exit. What waits
-- for the restart waits at least a minute and a half. Whether systemd does it is not said.
pub systemd_restart_plan-Works :
    (s : SystemdService) (uid : ℕ) (delay : Option ℕ) (r : Restart)
    → systemd_restart_plan s uid delay ≡ some r
    → Works s uid r
systemd_restart_plan-Works s uid delay r e =
    subst (WorksIfAny s uid) e (plan-WorksIfAny s uid delay)
