-- ===== src/Gui/Invariant.antt =====
-- FerrumGUI/src/index.ts: the registry and the processes agree, in any order of requests and events.
use mathlib.Core.Bool.{false≢true}
use ferrum_proxy.Base.{
  ℕ, ◌≡◌, refl, sym, if◌then◌else◌, is_some, Bool-cases, Option-cases, Bool, true, inl, inr, Text,
  text_eq, text_eq_iff, Entries, Entries-delete, Option, none, some, List, [], ◌∷◌, arith,
}
use ferrum_proxy.Services
use ferrum_proxy.Services.{ServiceManager, get_all, get_by_id}
use ferrum_proxy.Services.Instances.{Instance}
use ferrum_proxy.Processes
use ferrum_proxy.Processes.{ProcessManager, is_running, block_starts, resume_starts}
use ferrum_proxy.Processes.Running.{stop_all-IsSound, on_exit-IsSound}
use ferrum_proxy.Restart
use ferrum_proxy.Restart.{mark_intentional_stop}
use ferrum_proxy.Restart.Limits.{IsLimited, on_exit-IsAllowed}
use ferrum_proxy.Gui.{
  State, Answers, Failure, Event, launch, decide, pid_cleared, exit_event, forget_attempts,
  relaunched, timer_event, mark_each, update_stopping, update_stopped, step, run, requests_start,
  requests_stop, requests_delete, requests_restart, resumes, exits, fires, begins_update,
  fails_update, stops_all, ends_stop,
}
use ferrum_proxy.Gui.Processed.{on_exit-is_running, stop_all-is_running}
use ferrum_proxy.Gui.Pids.{set_pid-pid_of, set_pid-HasDistinctIds}
use ferrum_proxy.ManagerApi.Registry.{set_pid-HasDistinctPorts}
use ferrum_proxy.Gui.Consistent.{IsConsistent, save-IsConsistent, mark-IsLimited}
use ferrum_proxy.Gui.Kept.{
  launch-IsConsistent, start_route-IsConsistent, stop_route-IsConsistent, delete_route-IsConsistent,
  restart_called-IsConsistent, restart_resumed-IsConsistent,
}

-- Only what is recorded of restarts changes.
restarts-IsConsistent :
    (r : Restart.State) (g : State)
    → Entries IsLimited r.restart_attempts
    → IsConsistent g
    → IsConsistent (record g { restarts = r })
restarts-IsConsistent r g l h = record {
  processes = h.processes;
  ids = h.ids;
  ports = h.ports;
  attempts = l;
  live = h.live;
}

forget_attempts-IsConsistent :
    (id : Text) (g : State) → IsConsistent g → IsConsistent (forget_attempts id g)
forget_attempts-IsConsistent id g h =
    restarts-IsConsistent _ g (Entries-delete IsLimited id g.restarts.restart_attempts h.attempts) h

decide-IsConsistent :
    (now : ℕ) (auto_restart : Option Bool) (id : Text) (g : State)
    → IsConsistent g
    → IsConsistent (decide now auto_restart id g).0
decide-IsConsistent now auto_restart id g h =
    restarts-IsConsistent (Restart.on_exit now g.gui_updating auto_restart id g.restarts).0 g
      (on_exit-IsAllowed now g.gui_updating auto_restart id g.restarts h.attempts).1 h

pid_cleared-IsConsistent :
    (now : ℕ) (auto_restart : Option Bool) (id : Text) (o : Services.Outcome) (g : State)
    → IsConsistent (record g { services = o.0 })
    → IsConsistent (pid_cleared now auto_restart id o g).0
pid_cleared-IsConsistent now auto_restart id (m, some e) g h = h
pid_cleared-IsConsistent now auto_restart id (m, none) g h =
    decide-IsConsistent now auto_restart id (record g { services = m }) h

-- The state once the child is gone, before its process id is taken from the registry
module _ (a : Answers) (id : Text) (g : State) (h : IsConsistent g) where
  gone : State
  gone = record g { processes = (Processes.on_exit a.now id a.message g.processes).0 }

  gone_missing : get_by_id id g.services ≡ none → IsConsistent gone
  unfolding gone
  gone_missing missing = record {
    processes = on_exit-IsSound a.now id a.message g.processes h.processes;
    ids = h.ids;
    ports = h.ports;
    attempts = h.attempts;
    live = λ j e. elim (Bool-cases (text_eq id j)) [
      | inl same ↦
          let j_is : id ≡ j = (text_eq_iff id j).0 same in
          absurd (false≢true (rw (sym j_is, missing) at e))
      | inr other ↦
          ground (arith, other, e, on_exit-is_running a.now id a.message g.processes j, h.live j)
    ];
  }

  gone_cleared :
      is_some (get_by_id id g.services) ≡ true
      → IsConsistent
          (record gone { services = (Services.set_pid a.now a.writes id none g.services).0 })
  unfolding gone
  gone_cleared found = record {
    processes = on_exit-IsSound a.now id a.message g.processes h.processes;
    ids = set_pid-HasDistinctIds a.now a.writes id none g.services h.ids;
    ports = set_pid-HasDistinctPorts a.now a.writes id none g.services h.ports;
    attempts = h.attempts;
    live = λ j e. ground (
      arith,
      found,
      e,
      set_pid-pid_of a.now a.writes id none g.services j,
      on_exit-is_running a.now id a.message g.processes j,
      h.live j,
    );
  }

exit_event-IsConsistent :
    (a : Answers) (id : Text) (g : State) → IsConsistent g → IsConsistent (exit_event a id g).0
unfolding exit_event gone
exit_event-IsConsistent a id g h = elim (Option-cases (get_by_id id g.services)) [
  | inl missing ↦
      rw missing (decide-IsConsistent a.now none id (gone a id g h) (gone_missing a id g h missing))
  | inr (i, found) ↦ rw found (
      pid_cleared-IsConsistent a.now (some i.auto_restart) id
        (Services.set_pid a.now a.writes id none g.services) (gone a id g h)
        (gone_cleared a id g h (rw found refl)))
]

relaunched-IsConsistent :
    (id : Text) (o : State × Option Failure) → IsConsistent o.0 → IsConsistent (relaunched id o)
relaunched-IsConsistent id (g, none) h = forget_attempts-IsConsistent id g h
relaunched-IsConsistent id (g, some e) h = h

timer_event-IsConsistent :
    (a : Answers) (id : Text) (g : State) → IsConsistent g → IsConsistent (timer_event a id g)
unfolding timer_event
timer_event-IsConsistent a id g h = elim (Option-cases (get_by_id id g.services)) [
  | inl missing ↦ rw missing (ground (arith, h))
  | inr (i, found) ↦
      let again = relaunched-IsConsistent id (launch a id i g) (launch-IsConsistent a id i g h) in
      rw found (ground (arith, h, again, forget_attempts-IsConsistent id g h))
]

mark_each-IsLimited :
    (p : ProcessManager) (is : List Instance) (r : Restart.State)
    → Entries IsLimited r.restart_attempts
    → Entries IsLimited (mark_each p is r).restart_attempts
unfolding mark_each
mark_each-IsLimited p [] r h = h
mark_each-IsLimited p (i ∷ is) r h =
    let next = if is_running i.id p then mark_intentional_stop i.id r else r in
    let limited : Entries IsLimited next.restart_attempts =
      ground (arith, h, mark-IsLimited i.id r h) in
    mark_each-IsLimited p is next limited

update_stopping-IsConsistent :
    (a : Answers) (g : State) → IsConsistent g → IsConsistent (update_stopping a g)
unfolding update_stopping
update_stopping-IsConsistent a g h = record {
  processes = stop_all-IsSound a.now a.message (block_starts g.processes) h.processes;
  ids = h.ids;
  ports = h.ports;
  attempts = mark_each-IsLimited g.processes (get_all g.services) g.restarts h.attempts;
  live = λ j e.
      ground (arith, e, stop_all-is_running a.now a.message (block_starts g.processes) j, h.live j);
}

update_stopped-IsConsistent :
    (a : Answers) (g : State) → IsConsistent g → IsConsistent (update_stopped a g)
unfolding update_stopped
update_stopped-IsConsistent a g h =
    let saved = save-IsConsistent a.now a.writes g h in
    record {
      processes = saved.processes;
      ids = saved.ids;
      ports = saved.ports;
      attempts = saved.attempts;
      live = saved.live;
    }

step-IsConsistent : (e : Event) (g : State) → IsConsistent g → IsConsistent (step e g)
unfolding step
step-IsConsistent (requests_start a id) g h = start_route-IsConsistent a id g h
step-IsConsistent (requests_stop a id) g h = stop_route-IsConsistent a id g h
step-IsConsistent (requests_delete a id) g h = delete_route-IsConsistent a id g h
step-IsConsistent (requests_restart a id) g h = restart_called-IsConsistent a id g h
step-IsConsistent (resumes a id) g h = restart_resumed-IsConsistent a id g h
step-IsConsistent (exits a id) g h = exit_event-IsConsistent a id g h
step-IsConsistent (fires a id) g h = timer_event-IsConsistent a id g h
step-IsConsistent begins_update g h = record {
  processes = h.processes;
  ids = h.ids;
  ports = h.ports;
  attempts = h.attempts;
  live = h.live;
}
step-IsConsistent fails_update g h = record {
  processes = h.processes;
  ids = h.ids;
  ports = h.ports;
  attempts = h.attempts;
  live = h.live;
}
step-IsConsistent (stops_all a) g h = update_stopping-IsConsistent a g h
step-IsConsistent (ends_stop a) g h = update_stopped-IsConsistent a g h

-- If no two instances have one id or one manager port, no proxy has more than five attempts on
-- record and every process id in the registry is of a running instance, then all this is so after
-- any start, stop, restart and delete requests, exits, timers and updates of the GUI, and the
-- processes are sound.
pub run-IsConsistent : (es : List Event) (g : State) → IsConsistent g → IsConsistent (run es g)
unfolding run
run-IsConsistent [] g h = h
run-IsConsistent (e ∷ es) g h = run-IsConsistent es (step e g) (step-IsConsistent e g h)
