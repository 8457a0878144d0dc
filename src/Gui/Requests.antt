-- ===== src/Gui/Requests.antt =====
-- FerrumGUI/src/index.ts: what the stop route and the exit after it come to.
use mathlib.Core.Option.{none-ne-some}
use mathlib.Core.Bool.{false≢true}
use ferrum_proxy.Base.{
  ℕ, ◌≡◌, ◌∙◌, refl, sym, ap, subst, is_some, Option-cases, Bool, true, false, inl, inr, Text,
  text_eq_refl, Option, none, some, List, [], ◌∷◌, arith,
}
use ferrum_proxy.Services
use ferrum_proxy.Services.{ServiceManager, get_by_id, save, with_instances}
use ferrum_proxy.Services.Instances.{Instance}
use ferrum_proxy.Processes
use ferrum_proxy.Processes.{ProcessManager, is_running, add_log}
use ferrum_proxy.Restart.{Decision, skipped}
use ferrum_proxy.Restart.Limits.{on_exit-stopped}
use ferrum_proxy.Gui.{
  State, Answers, Response, is_watched, record_pid, answer, stop_marked, unwatching, unwatch,
  stop_route, decide, pid_cleared, exit_found, exit_event,
}
use ferrum_proxy.Gui.Processed.{on_exit-is_running}
use ferrum_proxy.Gui.Pids.{pid_of, set_pid-pid_of, set_pid-is_some, set_pid-none}

pub record_pid-none :
    (o : Services.Outcome) (g : State)
    → o.1 ≡ none
    → record_pid o g ≡ (record g { services = o.0 }, none)
record_pid-none (m, none) g e = refl
record_pid-none (m, some x) g e = absurd (none-ne-some x (sym e))

pid_cleared-none :
    (now : ℕ) (auto_restart : Option Bool) (id : Text) (o : Services.Outcome) (g : State)
    → o.1 ≡ none
    → pid_cleared now auto_restart id o g ≡ decide now auto_restart id (record g { services = o.0 })
pid_cleared-none now auto_restart id (m, none) g e = refl
pid_cleared-none now auto_restart id (m, some x) g e = absurd (none-ne-some x (sym e))

is_watched-unwatch : (id : Text) (ids : List Text) → is_watched id (unwatch id ids) ≡ false
unfolding unwatch
is_watched-unwatch id [] = refl
is_watched-unwatch id (i ∷ ids) = ground (arith, is_watched-unwatch id ids)

-- The state that the stop route leaves
abbrev stopped_by : Answers → Text → State → State
stopped_by a id g = record (stop_marked a id g) {
  services = (Services.set_pid a.now a.writes id none g.services).0;
  watched = unwatch id (stop_marked a id g).watched;
}

stop_route-stopped_by :
    (a : Answers) (id : Text) (g : State)
    → is_running id g.processes ≡ true
    → is_some (get_by_id id g.services) ≡ true
    → a.writes ≡ true
    → stop_route a id g ≡ (stopped_by a id g, Response.success)
unfolding stop_route
stop_route-stopped_by a id g runs there written =
    let o = Services.set_pid a.now a.writes id none g.services in
    let cleared =
      record_pid-none o (stop_marked a id g)
        (set_pid-none a.now a.writes id none g.services there written) in
    let done : answer Response.success (unwatching id (record_pid o (stop_marked a id g)))
        ≡ (stopped_by a id g, Response.success) =
      ap (λ r. answer Response.success (unwatching id r)) cleared in
    ground (arith, runs, done)

-- The state once the listener of an exit has cleared the process id
abbrev cleared_by : Answers → Text → State → State
cleared_by b id g = record g {
  processes = (Processes.on_exit b.now id b.message g.processes).0;
  services = (Services.set_pid b.now b.writes id none g.services).0;
}

exit_event-decide :
    (b : Answers) (id : Text) (g : State) (i : Instance)
    → get_by_id id g.services ≡ some i
    → b.writes ≡ true
    → exit_event b id g ≡ decide b.now (some i.auto_restart) id (cleared_by b id g)
unfolding exit_event
exit_event-decide b id g i found written =
    let there : is_some (get_by_id id g.services) ≡ true = rw found refl in
    let gone = record g { processes = (Processes.on_exit b.now id b.message g.processes).0 } in
    ap (λ o. exit_found b id o gone) found
    ∙ pid_cleared-none b.now (some i.auto_restart) id
        (Services.set_pid b.now b.writes id none g.services) gone
        (set_pid-none b.now b.writes id none g.services there written)

-- What an exit leaves of a proxy that was stopped
pub record IsStopped (id : Text) (o : State × Option Decision) : Type 0 where
  pub decision : o.1 ≡ some skipped
  pub gone : is_running id o.0.processes ≡ false
  pub no_pid : pid_of id o.0.services ≡ none
  pub not_watched : is_watched id o.0.watched ≡ false

exit_event-IsStopped :
    (a b : Answers) (id : Text) (g : State) (i : Instance)
    → get_by_id id (stopped_by a id g).services ≡ some i
    → b.writes ≡ true
    → IsStopped id (exit_event b id (stopped_by a id g))
unfolding stop_marked
exit_event-IsStopped a b id g i found written =
    let h = stopped_by a id g in
    let there : is_some (get_by_id id h.services) ≡ true = rw found refl in
    let same = text_eq_refl id in
    subst (IsStopped id) (sym (exit_event-decide b id h i found written)) (record {
      decision =
          ap some (on_exit-stopped b.now g.gui_updating (some i.auto_restart) id g.restarts).0;
      gone = ground (arith, same, on_exit-is_running b.now id b.message h.processes id);
      no_pid = ground (arith, same, there, set_pid-pid_of b.now b.writes id none h.services id);
      not_watched = is_watched-unwatch id g.watched;
    })

-- If the instance is in the registry and runs, and the file can be written, then the stop route
-- succeeds, and after the exit of the process it does not run, the exit schedules no restart, it has
-- no process id in the registry, and its file is not watched. Nothing is said of a timer that an
-- earlier exit has set.
pub stop_route-IsStopped :
    (a b : Answers) (id : Text) (g : State)
    → is_running id g.processes ≡ true
    → is_some (get_by_id id g.services) ≡ true
    → a.writes ≡ true
    → b.writes ≡ true
    → ((stop_route a id g).1 ≡ Response.success)
      × IsStopped id (exit_event b id (stop_route a id g).0)
stop_route-IsStopped a b id g runs there written written' =
    let m = (Services.set_pid a.now a.writes id none g.services).0 in
    let still : is_some (get_by_id id m) ≡ true =
      set_pid-is_some a.now a.writes id none g.services id ∙ there in
    elim (Option-cases (get_by_id id m)) [
      | inl missing ↦ absurd (false≢true (rw missing at still))
      | inr (i, found) ↦
          rw (stop_route-stopped_by a id g runs there written)
            (refl, exit_event-IsStopped a b id g i found written')
    ]
