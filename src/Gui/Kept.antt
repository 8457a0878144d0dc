-- ===== src/Gui/Kept.antt =====
-- FerrumGUI/src/index.ts: each request keeps the registry and the processes in agreement.
use mathlib.Core.Bool.{false≢true}
use ferrum_proxy.Base.{
  ◌≡◌, refl, subst, is_some, Option-cases, true, inl, inr, Text, Option, none, some, List, ◌∷◌,
  arith,
}
use ferrum_proxy.Services
use ferrum_proxy.Services.{ServiceManager, get_all, get_by_id}
use ferrum_proxy.Services.Instances.{Instance}
use ferrum_proxy.Processes
use ferrum_proxy.Processes.{ProcessManager, is_running, check_pid, block_starts, resume_starts}
use ferrum_proxy.ManagerApi.{Ensured, ensured, thrown, ensure_manager_api}
use ferrum_proxy.Gui.{
  State, Answers, Failure, Response, record_pid, spawned, spawn, watch, watching, launch_with,
  launch, answer, start_route, stop_marked, unwatching, unwatch, stop_route, stop_if_running,
  delete_route, restart_resumed, restart_with, restart_called,
}
use ferrum_proxy.Gui.Processed.{start-none}
use ferrum_proxy.Gui.Consistent.{
  IsConsistent, set_pid-IsConsistent, ensure-IsConsistent, remove-IsConsistent, start-IsConsistent,
  stop_marked-IsConsistent,
}

-- Which files are watched, and whether the GUI is being updated, does not matter.
watched-IsConsistent :
    (ids : List Text) (g : State) → IsConsistent g → IsConsistent (record g { watched = ids })
watched-IsConsistent ids g h = record {
  processes = h.processes;
  ids = h.ids;
  ports = h.ports;
  attempts = h.attempts;
  live = h.live;
}

pub record_pid-IsConsistent :
    (o : Services.Outcome) (g : State)
    → IsConsistent (record g { services = o.0 })
    → IsConsistent (record_pid o g).0
record_pid-IsConsistent (m, none) g h = h
record_pid-IsConsistent (m, some e) g h = h

pub answer-IsConsistent :
    (r : Response) (o : State × Option Failure) → IsConsistent o.0 → IsConsistent (answer r o).0
answer-IsConsistent r (g, none) h = h
answer-IsConsistent r (g, some e) h = h

watching-IsConsistent :
    (a : Answers) (id : Text) (o : State × Option Failure)
    → IsConsistent o.0
    → IsConsistent (watching a id o).0
unfolding watch
watching-IsConsistent a id (g, some e) h = h
watching-IsConsistent a id (g, none) h =
    ground (arith, h, watched-IsConsistent (id ∷ g.watched) g h)

unwatching-IsConsistent :
    (id : Text) (o : State × Option Failure) → IsConsistent o.0 → IsConsistent (unwatching id o).0
unwatching-IsConsistent id (g, some e) h = h
unwatching-IsConsistent id (g, none) h = watched-IsConsistent _ g h

spawned-IsConsistent :
    (a : Answers) (id : Text) (o : ProcessManager × Option Processes.Failure) (g : State)
    → IsConsistent (record g { processes = o.0 })
    → (o.1 ≡ none → is_running id o.0 ≡ true)
    → IsConsistent (spawned a id o g).0
spawned-IsConsistent a id (p, some e) g h runs = h
spawned-IsConsistent a id (p, none) g h runs =
    record_pid-IsConsistent (Services.set_pid a.now a.writes id (Processes.pid_of a.pid) g.services)
      (record g { processes = p })
      (set_pid-IsConsistent a.now a.writes id (Processes.pid_of a.pid) (record g { processes = p })
        (λ e. runs refl) h)

spawn-IsConsistent :
    (a : Answers) (id : Text) (g : State) → IsConsistent g → IsConsistent (spawn a id g).0
unfolding spawn
spawn-IsConsistent a id g h =
    spawned-IsConsistent a id (Processes.start a.now id a.pid a.message g.processes) g
      (start-IsConsistent a.now id a.pid a.message g h)
      (start-none a.now id a.pid a.message g.processes)

launch_with-IsConsistent :
    (a : Answers) (id : Text) (o : ServiceManager × Ensured) (g : State)
    → IsConsistent (record g { services = o.0 })
    → IsConsistent (launch_with a id o g).0
launch_with-IsConsistent a id (m, thrown e) g h = h
launch_with-IsConsistent a id (m, ensured j) g h =
    watching-IsConsistent a id (spawn a id (record g { services = m }))
      (spawn-IsConsistent a id (record g { services = m }) h)

pub launch-IsConsistent :
    (a : Answers) (id : Text) (i : Instance) (g : State)
    → IsConsistent g
    → IsConsistent (launch a id i g).0
unfolding launch
launch-IsConsistent a id i g h =
    launch_with-IsConsistent a id
      (ensure_manager_api a.platform a.now a.api_writes a.token i g.services) g
      (ensure-IsConsistent a i g h)

pub start_route-IsConsistent :
    (a : Answers) (id : Text) (g : State) → IsConsistent g → IsConsistent (start_route a id g).0
unfolding start_route
start_route-IsConsistent a id g h = elim (Option-cases (get_by_id id g.services)) [
  | inl missing ↦ rw missing h
  | inr (i, found) ↦
      let launched =
        answer-IsConsistent (Response.started (Processes.pid_of a.pid)) (launch a id i g)
          (launch-IsConsistent a id i g h) in
      rw found (ground (arith, h, launched))
]

pub stop_route-IsConsistent :
    (a : Answers) (id : Text) (g : State) → IsConsistent g → IsConsistent (stop_route a id g).0
unfolding stop_route
stop_route-IsConsistent a id g h =
    let cleared = Services.set_pid a.now a.writes id none g.services in
    let stopped = stop_marked a id g in
    let done = answer-IsConsistent Response.success (unwatching id (record_pid cleared stopped)) (
      unwatching-IsConsistent id (record_pid cleared stopped) (
        record_pid-IsConsistent cleared stopped (
          set_pid-IsConsistent a.now a.writes id none stopped (λ e. absurd (false≢true e))
            (stop_marked-IsConsistent a id g h)))) in
    ground (arith, h, done)

stop_if_running-IsConsistent :
    (a : Answers) (id : Text) (g : State) → IsConsistent g → IsConsistent (stop_if_running a id g)
stop_if_running-IsConsistent a id g h = ground (arith, h, stop_marked-IsConsistent a id g h)

stop_if_running-services :
    (a : Answers) (id : Text) (g : State) → (stop_if_running a id g).services ≡ g.services
unfolding stop_marked
stop_if_running-services a id g = ground arith

pub delete_route-IsConsistent :
    (a : Answers) (id : Text) (g : State) → IsConsistent g → IsConsistent (delete_route a id g).0
unfolding delete_route
delete_route-IsConsistent a id g h = elim (Option-cases (get_by_id id g.services)) [
  | inl missing ↦ rw missing h
  | inr (i, found) ↦
      let stopped = stop_if_running a id g in
      let ready = record stopped { watched = unwatch id g.watched } in
      let same : stopped.services ≡ g.services = stop_if_running-services a id g in
      let there : is_some (get_by_id id ready.services) ≡ true = rw (same, found) refl in
      let removed = remove-IsConsistent a.now a.writes id ready there (
        watched-IsConsistent (unwatch id g.watched) stopped
          (stop_if_running-IsConsistent a id g h)) in
      rw found (
        answer-IsConsistent Response.success
          (record_pid (Services.remove a.now a.writes id g.services) ready)
          (record_pid-IsConsistent (Services.remove a.now a.writes id g.services) ready (
            subst
              (λ m.
                IsConsistent (record ready { services = (Services.remove a.now a.writes id m).0 }))
              same removed)))
]

pub restart_resumed-IsConsistent :
    (a : Answers) (id : Text) (g : State) → IsConsistent g → IsConsistent (restart_resumed a id g).0
unfolding restart_resumed
restart_resumed-IsConsistent a id g h =
    answer-IsConsistent (Response.started (Processes.pid_of a.pid)) (spawn a id g)
      (spawn-IsConsistent a id g h)

restart_with-IsConsistent :
    (a : Answers) (id : Text) (o : ServiceManager × Ensured) (g : State)
    → IsConsistent (record g { services = o.0 })
    → IsConsistent (restart_with a id o g).0
restart_with-IsConsistent a id (m, thrown e) g h = h
restart_with-IsConsistent a id (m, ensured j) g h = ground (
  arith,
  stop_marked-IsConsistent a id (record g { services = m }) h,
  restart_resumed-IsConsistent a id (record g { services = m }) h,
)

pub restart_called-IsConsistent :
    (a : Answers) (id : Text) (g : State) → IsConsistent g → IsConsistent (restart_called a id g).0
unfolding restart_called
restart_called-IsConsistent a id g h = elim (Option-cases (get_by_id id g.services)) [
  | inl missing ↦ rw missing h
  | inr (i, found) ↦ rw found (
      restart_with-IsConsistent a id
        (ensure_manager_api a.platform a.now a.api_writes a.token i g.services) g
        (ensure-IsConsistent a i g h))
]
