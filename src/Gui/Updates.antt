-- ===== src/Gui/Updates.antt =====
-- FerrumGUI/src/index.ts: while the GUI is updated, no instance is started.
use mathlib.Core.Bool.{false≢true}
use ferrum_proxy.Base.{
  ℕ, ◌≡◌, ◌∙◌, refl, sym, ap, subst, Option-cases, Bool, true, false, inl, inr, Text, Option, none,
  some, List, [], ◌∷◌, All, arith,
}
use ferrum_proxy.Services
use ferrum_proxy.Services.{ServiceManager, get_by_id}
use ferrum_proxy.Processes
use ferrum_proxy.Processes.{ProcessManager, is_running, updating, block_starts}
use ferrum_proxy.Restart
use ferrum_proxy.Restart.{Decision, skipped, ignored, gave_up, scheduled}
use ferrum_proxy.ManagerApi.{Ensured, ensured, thrown, ensure_manager_api}
use ferrum_proxy.Gui.{
  State, Answers, Response, Event, record_pid, spawn, answer, start_route, stop_marked, unwatching,
  unwatch, stop_route, stop_if_running, delete_route, restart_resumed, restart_with, restart_called,
  pid_cleared, exit_event, timer_event, update_stopping, step, run, requests_start, requests_stop,
  requests_delete, requests_restart, resumes, exits, fires, begins_update, fails_update, stops_all,
  ends_stop,
}
use ferrum_proxy.Gui.Processed.{
  on_exit-is_running, on_exit-starts_blocked, stop-is_running, stop-starts_blocked,
  stop_all-is_running, stop_all-starts_blocked,
}
use ferrum_proxy.Gui.Blocked.{
  part, Quiet, answer-part, record_pid-part, unwatching-part, pid_cleared-part, spawn-part,
  start_route-part,
}

-- What holds of a state holds of any with the same part.
by_part : (p : ProcessManager) (x y : ProcessManager × Bool) → y ≡ x → Quiet p x → Quiet p y
by_part p x y e q = subst (Quiet p) (sym e) q

module _ (p : ProcessManager) where
  stop_marked-Quiet :
      (a : Answers) (id : Text) (g : State) → Quiet p (part g) → Quiet p (part (stop_marked a id g))
  unfolding stop_marked
  stop_marked-Quiet a id g q = record {
    blocked = rw (stop-starts_blocked a.now id a.message g.processes) q.blocked;
    updates = q.updates;
    fewer = λ j e. ground (arith, e, stop-is_running a.now id a.message g.processes j, q.fewer j);
  }

  stop_if_running-Quiet :
      (a : Answers) (id : Text) (g : State)
      → Quiet p (part g)
      → Quiet p (part (stop_if_running a id g))
  stop_if_running-Quiet a id g q = ground (arith, q, stop_marked-Quiet a id g q)

  stop_route-Quiet :
      (a : Answers) (id : Text) (g : State)
      → Quiet p (part g)
      → Quiet p (part (stop_route a id g).0)
  unfolding stop_route
  stop_route-Quiet a id g q =
      let o =
        record_pid (Services.set_pid a.now a.writes id none g.services) (stop_marked a id g) in
      let stopped =
        by_part p (part (stop_marked a id g)) (part (answer Response.success (unwatching id o)).0)
          (answer-part Response.success (unwatching id o)
            ∙ (unwatching-part id o ∙ record_pid-part _ (stop_marked a id g)))
          (stop_marked-Quiet a id g q) in
      ground (arith, q, stopped)

  delete_route-Quiet :
      (a : Answers) (id : Text) (g : State)
      → Quiet p (part g)
      → Quiet p (part (delete_route a id g).0)
  unfolding delete_route
  delete_route-Quiet a id g q = elim (Option-cases (get_by_id id g.services)) [
    | inl missing ↦ rw missing q
    | inr (i, found) ↦
        let stopped = stop_if_running a id g in
        let ready = record stopped { watched = unwatch id g.watched } in
        let o = record_pid (Services.remove a.now a.writes id g.services) ready in
        rw found (
          by_part p (part stopped) (part (answer Response.success o).0)
            (answer-part Response.success o ∙ record_pid-part _ ready)
            (stop_if_running-Quiet a id g q))
  ]

  restart_resumed-Quiet :
      (a : Answers) (id : Text) (g : State)
      → Quiet p (part g)
      → Quiet p (part (restart_resumed a id g).0)
  unfolding restart_resumed
  restart_resumed-Quiet a id g q =
      by_part p (part g)
        (part (answer (Response.started (Processes.pid_of a.pid)) (spawn a id g)).0)
        (answer-part (Response.started (Processes.pid_of a.pid)) (spawn a id g)
          ∙ spawn-part a id g q.blocked)
        q

  restart_with-Quiet :
      (a : Answers) (id : Text) (o : ServiceManager × Ensured) (g : State)
      → Quiet p (part g)
      → Quiet p (part (restart_with a id o g).0)
  restart_with-Quiet a id (m, thrown e) g q = q
  restart_with-Quiet a id (m, ensured j) g q = ground (
    arith,
    stop_marked-Quiet a id (record g { services = m }) q,
    restart_resumed-Quiet a id (record g { services = m }) q,
  )

  restart_called-Quiet :
      (a : Answers) (id : Text) (g : State)
      → Quiet p (part g)
      → Quiet p (part (restart_called a id g).0)
  unfolding restart_called
  restart_called-Quiet a id g q = elim (Option-cases (get_by_id id g.services)) [
    | inl missing ↦ rw missing q
    | inr (i, found) ↦ rw found (
        restart_with-Quiet a id
          (ensure_manager_api a.platform a.now a.api_writes a.token i g.services) g q)
  ]

  gone-Quiet :
      (a : Answers) (id : Text) (g : State)
      → Quiet p (part g)
      → Quiet p ((Processes.on_exit a.now id a.message g.processes).0, g.gui_updating)
  gone-Quiet a id g q = record {
    blocked = rw (on_exit-starts_blocked a.now id a.message g.processes) q.blocked;
    updates = q.updates;
    fewer =
        λ j e. ground (arith, e, on_exit-is_running a.now id a.message g.processes j, q.fewer j);
  }

  exit_event-Quiet :
      (a : Answers) (id : Text) (g : State)
      → Quiet p (part g)
      → Quiet p (part (exit_event a id g).0)
  unfolding exit_event
  exit_event-Quiet a id g q = elim (Option-cases (get_by_id id g.services)) [
    | inl missing ↦ rw missing (gone-Quiet a id g q)
    | inr (i, found) ↦
        let gone = record g { processes = (Processes.on_exit a.now id a.message g.processes).0 } in
        rw found (
          by_part p (part gone) _
            (pid_cleared-part a.now (some i.auto_restart) id
              (Services.set_pid a.now a.writes id none g.services) gone)
            (gone-Quiet a id g q))
  ]

  timer_event-Quiet :
      (a : Answers) (id : Text) (g : State) → Quiet p (part g) → Quiet p (part (timer_event a id g))
  unfolding timer_event
  timer_event-Quiet a id g q =
      let updates : g.gui_updating ≡ true = q.updates in
      let same : timer_event a id g ≡ g = ground (arith, updates) in
      by_part p (part g) (part (timer_event a id g)) (ap part same) q

  update_stopping-Quiet :
      (a : Answers) (g : State) → Quiet p (part g) → Quiet p (part (update_stopping a g))
  unfolding update_stopping
  update_stopping-Quiet a g q = record {
    blocked = stop_all-starts_blocked a.now a.message (block_starts g.processes);
    updates = q.updates;
    fewer = λ j e.
        ground
          (arith, e, stop_all-is_running a.now a.message (block_starts g.processes) j, q.fewer j);
  }

-- All but the event that ends a failed update
abbrev pub continues : Event → Bool
continues fails_update = false
continues e = true

abbrev pub Continues : Event → Type 0
Continues e = continues e ≡ true

step-Quiet :
    (p : ProcessManager) (e : Event) (g : State)
    → Continues e
    → Quiet p (part g)
    → Quiet p (part (step e g))
unfolding step
step-Quiet p (requests_start a id) g c q =
    by_part p (part g) (part (start_route a id g).0) (start_route-part a id g q.blocked) q
step-Quiet p (requests_stop a id) g c q = stop_route-Quiet p a id g q
step-Quiet p (requests_delete a id) g c q = delete_route-Quiet p a id g q
step-Quiet p (requests_restart a id) g c q = restart_called-Quiet p a id g q
step-Quiet p (resumes a id) g c q = restart_resumed-Quiet p a id g q
step-Quiet p (exits a id) g c q = exit_event-Quiet p a id g q
step-Quiet p (fires a id) g c q = timer_event-Quiet p a id g q
step-Quiet p begins_update g c q = record { blocked = q.blocked; updates = refl; fewer = q.fewer }
step-Quiet p (stops_all a) g c q = update_stopping-Quiet p a g q
step-Quiet p (ends_stop a) g c q = record {
  blocked = q.blocked;
  updates = q.updates;
  fewer = q.fewer;
}
step-Quiet p fails_update g c q = absurd (false≢true c)

run-Quiet :
    (p : ProcessManager) (es : List Event) (g : State)
    → All Continues es
    → Quiet p (part g)
    → Quiet p (part (run es g))
unfolding run
run-Quiet p [] g c q = q
run-Quiet p (e ∷ es) g (c, cs) q = run-Quiet p es (step e g) cs (step-Quiet p e g c q)

stopping-Quiet :
    (a : Answers) (g : State)
    → g.gui_updating ≡ true
    → Quiet g.processes (part (update_stopping a g))
unfolding update_stopping
stopping-Quiet a g u = record {
  blocked = stop_all-starts_blocked a.now a.message (block_starts g.processes);
  updates = u;
  fewer =
      λ j e. ground (arith, e, stop_all-is_running a.now a.message (block_starts g.processes) j);
}

abbrev pub schedules : Option Decision → Bool
schedules (some (scheduled ms)) = true
schedules d = false

on_exit-updating :
    (now : ℕ) (auto_restart : Option Bool) (id : Text) (r : Restart.State)
    → schedules (some (Restart.on_exit now true auto_restart id r).1) ≡ false
unfolding Restart.on_exit
on_exit-updating now auto_restart id r = ground arith

pid_cleared-updating :
    (now : ℕ) (auto_restart : Option Bool) (id : Text) (o : Services.Outcome) (g : State)
    → g.gui_updating ≡ true
    → schedules (pid_cleared now auto_restart id o g).1 ≡ false
pid_cleared-updating now auto_restart id (m, some e) g u = refl
pid_cleared-updating now auto_restart id (m, none) g u =
    rw u (on_exit-updating now auto_restart id g.restarts)

exit_event-updating :
    (a : Answers) (id : Text) (g : State)
    → g.gui_updating ≡ true
    → schedules (exit_event a id g).1 ≡ false
unfolding exit_event
exit_event-updating a id g u = elim (Option-cases (get_by_id id g.services)) [
  | inl missing ↦ rw (missing, u) (on_exit-updating a.now none id g.restarts)
  | inr (i, found) ↦
      let gone = record g { processes = (Processes.on_exit a.now id a.message g.processes).0 } in
      rw found (
        pid_cleared-updating a.now (some i.auto_restart) id
          (Services.set_pid a.now a.writes id none g.services) gone u)
]

-- Once the stop of all for an update has begun, nothing runs at a later time that did not run before
-- it, and no exit is answered by a restart, whatever start, stop, restart and delete requests, exits
-- and timers come, unless the update has failed in between.
pub update_stopping-run :
    (a : Answers) (g : State) (es : List Event)
    → g.gui_updating ≡ true
    → All Continues es
    → ((j : Text)
        → is_running j (run es (update_stopping a g)).processes ≡ true
        → is_running j g.processes ≡ true)
      × ((b : Answers) (id : Text)
          → schedules (exit_event b id (run es (update_stopping a g))).1 ≡ false)
update_stopping-run a g es u c =
    let q = run-Quiet g.processes es (update_stopping a g) c (stopping-Quiet a g u) in
    (q.fewer, λ b id. exit_event-updating b id (run es (update_stopping a g)) q.updates)
