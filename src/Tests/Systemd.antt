-- ===== src/Tests/Systemd.antt =====
-- FerrumGUI/src/systemdUpdate.ts at concrete inputs.
use ferrum_proxy.Base.{◌≡◌, refl, codes, text_eq, false, some, [], ◌∷◌}
use ferrum_proxy.Base.Decimal.{decimal, decimal_from}
use ferrum_proxy.Systemd.{
  Properties, SystemdService, Restart, restarts_on, automatic_restart_exit_code,
  systemd_restart_plan,
}
use ferrum_proxy.Base.Searches.{first_from}
use ferrum_proxy.Systemd.Plan.{Works, systemd_restart_plan-Works}

systemd : Unit {0}
unfolding text_eq decimal decimal_from restarts_on first_from automatic_restart_exit_code
    systemd_restart_plan
systemd = tt

abbrev on_failure : Properties
on_failure = record {
  exit_type = codes "main";
  restart = codes "on-failure";
  prevent = codes "2" ∷ [];
  success = codes "1" ∷ [];
  refuse_manual_start = codes "no";
  refuse_manual_stop = codes "no";
}

automatic_restart_exit_code-is_3 : automatic_restart_exit_code on_failure ≡ some 3
unfolding systemd
automatic_restart_exit_code-is_3 = refl

abbrev service : SystemdService
service = record { user = false; properties = on_failure }

abbrev plan : Restart
plan = record { manager_restart = false; exit_code = 3; restart_timeout_ms = 90100 }

systemd_restart_plan-Works_example : Works service 1000 plan
unfolding systemd
systemd_restart_plan-Works_example = systemd_restart_plan-Works service 1000 (some 100) plan refl
