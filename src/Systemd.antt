-- ===== src/Systemd.antt =====
-- FerrumGUI/src/systemdUpdate.ts: how the GUI is started again after an update under systemd. The
-- delay that systemd waits, `systemdDurationMs`, is an argument: `none` where it throws.
pub mod Plan
use ferrum_proxy.Base.{
  ℕ, ◌+◌, suc, zero, ◌==◌, if◌then◌else◌, not, any, Bool, true, false, ◌&&◌, ◌||◌, Text, codes,
  text_eq, Option, none, some, List, [], ◌∷◌,
}
use ferrum_proxy.Base.Decimal.{decimal}
use ferrum_proxy.Base.Searches.{first_from}

-- The properties of a unit that are read; an absent one is the empty text.
pub record Properties : Type 0 where
  pub exit_type : Text
  pub restart : Text
  -- The words of RestartPreventExitStatus and SuccessExitStatus
  pub prevent : List Text
  pub success : List Text
  pub refuse_manual_start : Text
  pub refuse_manual_stop : Text

pub record SystemdService : Type 0 where
  pub user : Bool
  pub properties : Properties

abbrev pub contains : List Text → Text → Bool
contains ts t = any (λ s. text_eq s t) ts

-- The condition of the loop of `automaticRestartExitCode`
unfoldable pub restarts_on : Properties → ℕ → Bool
unfolding decimal
restarts_on p code =
    let succeeds = contains (codes "0" ∷ p.success) (decimal code) in
    not (contains p.prevent (decimal code))
    && (text_eq p.restart (codes "always")
        || (text_eq p.restart (codes "on-success") && succeeds)
        || (text_eq p.restart (codes "on-failure") && not succeeds))

-- `automaticRestartExitCode`
unfoldable pub automatic_restart_exit_code : Properties → Option ℕ
unfolding restarts_on first_from
automatic_restart_exit_code p =
    if text_eq p.exit_type (codes "cgroup") then none else first_from (restarts_on p) 0 126

-- What `systemdRestartPlan` returns
pub record Restart : Type 0 where
  pub manager_restart : Bool
  pub exit_code : ℕ
  pub restart_timeout_ms : ℕ

abbrev pub by_exit : Option ℕ → Option ℕ → Option Restart
by_exit none delay = none
by_exit (some code) none = none
by_exit (some code) (some ms) =
    some (record { manager_restart = false; exit_code = code; restart_timeout_ms = 90000 + ms })

abbrev pub can_restart : SystemdService → ℕ → Bool
can_restart s uid =
    (uid == 0 || s.user)
    && not (text_eq s.properties.refuse_manual_start (codes "yes"))
    && not (text_eq s.properties.refuse_manual_stop (codes "yes"))

-- `systemdRestartPlan`; `none` is an exception.
unfoldable pub systemd_restart_plan : SystemdService → ℕ → Option ℕ → Option Restart
unfolding automatic_restart_exit_code
systemd_restart_plan s uid delay =
    if can_restart s uid
    then some (record { manager_restart = true; exit_code = 0; restart_timeout_ms = 90000 })
    else by_exit (automatic_restart_exit_code s.properties) delay
