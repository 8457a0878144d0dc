-- ===== src/Gui.antt =====
-- FerrumGUI/src/index.ts: the routes that start, stop, restart and delete an instance, the listener
-- of exits, its timer, and the stop of all before an update of the GUI. They work on the registry
-- (Services), the processes (Processes), the record of restarts (Restart) and the watched files. A
-- handler runs as a whole, but for the waits between `requests_restart` and `resumes` and between the
-- parts of an update. Answers holds what it asks of the clock, the files and the platform.
pub mod Processed
pub mod Pids
pub mod Consistent
pub mod Kept
pub mod Invariant
pub mod Blocked
pub mod Updates
pub mod Init
pub mod Requests
pub mod Starts
use ferrum_proxy.Base.{
  ℕ, if◌then◌else◌, any, is_some, Bool, true, false, Text, text_eq, delete, Option, none, some,
  List, [], ◌∷◌, ◌++◌,
}
use ferrum_proxy.Services
use ferrum_proxy.Services.{ServiceManager, get_all, get_by_id}
use ferrum_proxy.Services.Instances.{Instance}
use ferrum_proxy.Processes
use ferrum_proxy.Processes.{ProcessManager, Child, is_running, block_starts, resume_starts}
use ferrum_proxy.Restart
use ferrum_proxy.Restart.{Decision, mark_intentional_stop}
use ferrum_proxy.ManagerApi.{Platform, ApiError, Ensured, ensured, thrown, ensure_manager_api}

pub record State : Type 0 where
  pub services : ServiceManager
  pub processes : ProcessManager
  pub restarts : Restart.State
  pub watched : List Text
  pub gui_updating : Bool

-- The time, the platform's ports, whether the file is written for the Manager API and afterwards,
-- a new token, what `spawn` does, whether `fs.watch` finds the file, and the text that is logged
pub record Answers : Type 0 where
  pub now : ℕ
  pub platform : Platform
  pub api_writes : Bool
  pub writes : Bool
  pub token : Text
  pub pid : Child
  pub watches : Bool
  pub message : Text

pub data Failure : Type 0 where
  api : ApiError → Failure
  process : Processes.Failure → Failure
  registry : Services.Error → Failure
  watch_failed : Failure

-- What a route answers: `failed` is the status 500, `waiting` no answer yet.
pub data Response : Type 0 where
  started : Option ℕ → Response
  success not_found already_running not_running waiting : Response
  failed : Failure → Response

abbrev pub is_watched : Text → List Text → Bool
is_watched id ids = any (λ i. text_eq i id) ids

-- `configManager.unwatch`
unfoldable pub unwatch : Text → List Text → List Text
unwatch id [] = []
unwatch id (i ∷ ids) = let rest = unwatch id ids in if text_eq i id then rest else i ∷ rest

abbrev pub record_pid : Services.Outcome → State → State × Option Failure
record_pid (m, some e) g = (record g { services = m }, some (registry e))
record_pid (m, none) g = (record g { services = m }, none)

abbrev pub spawned :
    Answers → Text → ProcessManager × Option Processes.Failure → State → State × Option Failure
spawned a id (p, some e) g = (record g { processes = p }, some (process e))
spawned a id (p, none) g =
    record_pid (Services.set_pid a.now a.writes id (Processes.pid_of a.pid) g.services)
      (record g { processes = p })

-- `processManager.start(...)` and `serviceManager.setPid(instanceId, pid)`
unfoldable pub spawn : Answers → Text → State → State × Option Failure
unfolding Processes.start Services.set_pid
spawn a id g = spawned a id (Processes.start a.now id a.pid a.message g.processes) g

-- `configManager.watch`: `fs.watch` throws where the file is missing.
unfoldable pub watch : Answers → Text → State → State × Option Failure
watch a id g =
    if is_watched id g.watched
    then (g, none)
    else if a.watches
    then (record g { watched = id ∷ g.watched }, none)
    else (g, some watch_failed)

abbrev pub watching : Answers → Text → State × Option Failure → State × Option Failure
watching a id (g, some e) = (g, some e)
watching a id (g, none) = watch a id g

abbrev pub launch_with : Answers → Text → ServiceManager × Ensured → State → State × Option Failure
launch_with a id (m, thrown e) g = (record g { services = m }, some (api e))
launch_with a id (m, ensured j) g = watching a id (spawn a id (record g { services = m }))

-- What the start route and the timer do from `ensureManagerApi` to `configManager.watch`
unfoldable pub launch : Answers → Text → Instance → State → State × Option Failure
unfolding ensure_manager_api spawn watch
launch a id i g =
    launch_with a id (ensure_manager_api a.platform a.now a.api_writes a.token i g.services) g

abbrev pub answer : Response → State × Option Failure → State × Response
answer r (g, none) = (g, r)
answer r (g, some e) = (g, failed e)

abbrev pub start_found : Answers → Text → Option Instance → State → State × Response
start_found a id none g = (g, not_found)
start_found a id (some i) g =
    if is_running id g.processes
    then (g, already_running)
    else answer (started (Processes.pid_of a.pid)) (launch a id i g)

-- The route `/api/instances/:id/start`
unfoldable pub start_route : Answers → Text → State → State × Response
unfolding launch get_by_id
start_route a id g = start_found a id (get_by_id id g.services) g

-- `markIntentionalStop(instanceId); processManager.stop(instanceId)`
unfoldable pub stop_marked : Answers → Text → State → State
unfolding mark_intentional_stop Processes.stop
stop_marked a id g = record g {
  restarts = mark_intentional_stop id g.restarts;
  processes = (Processes.stop a.now id a.message g.processes).0;
}

abbrev pub unwatching : Text → State × Option Failure → State × Option Failure
unwatching id (g, some e) = (g, some e)
unwatching id (g, none) = (record g { watched = unwatch id g.watched }, none)

-- The route `/api/instances/:id/stop`
unfoldable pub stop_route : Answers → Text → State → State × Response
unfolding stop_marked unwatch Services.set_pid
stop_route a id g =
    if is_running id g.processes
    then answer success (
        unwatching id
          (record_pid (Services.set_pid a.now a.writes id none g.services) (stop_marked a id g)))
    else (g, not_running)

abbrev pub stop_if_running : Answers → Text → State → State
stop_if_running a id g = if is_running id g.processes then stop_marked a id g else g

abbrev pub delete_found : Answers → Text → Option Instance → State → State × Response
delete_found a id none g = (g, not_found)
delete_found a id (some i) g =
    let stopped = stop_if_running a id g in
    answer success (
      record_pid (Services.remove a.now a.writes id g.services)
        (record stopped { watched = unwatch id g.watched }))

-- The route DELETE `/api/instances/:id`, less the removal of the instance's directory
unfoldable pub delete_route : Answers → Text → State → State × Response
unfolding stop_marked unwatch Services.remove get_by_id
delete_route a id g = delete_found a id (get_by_id id g.services) g

-- The end of `restart`: the process is gone, or ten seconds are over.
unfoldable pub restart_resumed : Answers → Text → State → State × Response
unfolding spawn
restart_resumed a id g = answer (started (Processes.pid_of a.pid)) (spawn a id g)

abbrev pub restart_with : Answers → Text → ServiceManager × Ensured → State → State × Response
restart_with a id (m, thrown e) g = (record g { services = m }, failed (api e))
restart_with a id (m, ensured j) g =
    if is_running id g.processes
    then (stop_marked a id (record g { services = m }), waiting)
    else restart_resumed a id (record g { services = m })

abbrev pub restart_found : Answers → Text → Option Instance → State → State × Response
restart_found a id none g = (g, not_found)
restart_found a id (some i) g =
    restart_with a id (ensure_manager_api a.platform a.now a.api_writes a.token i g.services) g

-- The route `/api/instances/:id/restart`, to the wait in `processManager.restart`
unfoldable pub restart_called : Answers → Text → State → State × Response
unfolding ensure_manager_api stop_marked restart_resumed get_by_id
restart_called a id g = restart_found a id (get_by_id id g.services) g

abbrev pub decide : ℕ → Option Bool → Text → State → State × Option Decision
decide now auto_restart id g =
    let (restarts, d) = Restart.on_exit now g.gui_updating auto_restart id g.restarts in
    (record g { restarts = restarts }, some d)

-- If the file cannot be written, the listener is rejected and decides nothing.
abbrev pub pid_cleared : ℕ → Option Bool → Text → Services.Outcome → State → State × Option Decision
pid_cleared now auto_restart id (m, some e) g = (record g { services = m }, none)
pid_cleared now auto_restart id (m, none) g = decide now auto_restart id (record g { services = m })

abbrev pub exit_found : Answers → Text → Option Instance → State → State × Option Decision
exit_found a id none g = decide a.now none id g
exit_found a id (some i) g =
    pid_cleared a.now (some i.auto_restart) id (Services.set_pid a.now a.writes id none g.services)
      g

-- The exit of a child, and the listener of it
unfoldable pub exit_event : Answers → Text → State → State × Option Decision
unfolding Processes.on_exit Restart.on_exit Services.set_pid get_by_id
exit_event a id g =
    exit_found a id (get_by_id id g.services)
      (record g { processes = (Processes.on_exit a.now id a.message g.processes).0 })

abbrev pub forget_attempts : Text → State → State
forget_attempts id g = record g {
  restarts = record g.restarts { restart_attempts = delete id g.restarts.restart_attempts };
}

abbrev pub relaunched : Text → State × Option Failure → State
relaunched id (g, none) = forget_attempts id g
relaunched id (g, some e) = g

abbrev pub timer_found : Answers → Text → Option Instance → State → State
timer_found a id none g = g
timer_found a id (some i) g =
    if is_running id g.processes then forget_attempts id g else relaunched id (launch a id i g)

-- The timer that the listener of exits sets
unfoldable pub timer_event : Answers → Text → State → State
unfolding launch get_by_id
timer_event a id g = if g.gui_updating then g else timer_found a id (get_by_id id g.services) g

-- The loop over all instances before an update
unfoldable pub mark_each : ProcessManager → List Instance → Restart.State → Restart.State
unfolding mark_intentional_stop
mark_each p [] r = r
mark_each p (i ∷ is) r =
    mark_each p is (if is_running i.id p then mark_intentional_stop i.id r else r)

-- The start of `/api/self/update`
abbrev pub update_called : State → State
update_called g = record g { gui_updating = true }

-- The update's stop of all instances, to the wait in `stopAllAndWait`
unfoldable pub update_stopping : Answers → State → State
unfolding mark_each Processes.stop_all get_all
update_stopping a g = record g {
  restarts = mark_each g.processes (get_all g.services) g.restarts;
  processes = Processes.stop_all a.now a.message (block_starts g.processes);
}

-- What follows once all have stopped
unfoldable pub update_stopped : Answers → State → State
unfolding Services.save
update_stopped a g = record g {
  watched = [];
  services = (Services.save a.now a.writes g.services).0;
}

-- What follows where the update fails
abbrev pub update_failed : State → State
update_failed g = record g { gui_updating = false; processes = resume_starts g.processes }

pub data Event : Type 0 where
  requests_start requests_stop requests_delete requests_restart : Answers → Text → Event
  resumes exits fires : Answers → Text → Event
  begins_update fails_update : Event
  stops_all ends_stop : Answers → Event

unfoldable pub step : Event → State → State
unfolding start_route stop_route delete_route restart_called restart_resumed exit_event timer_event
    update_stopping update_stopped
step (requests_start a id) g = (start_route a id g).0
step (requests_stop a id) g = (stop_route a id g).0
step (requests_delete a id) g = (delete_route a id g).0
step (requests_restart a id) g = (restart_called a id g).0
step (resumes a id) g = (restart_resumed a id g).0
step (exits a id) g = (exit_event a id g).0
step (fires a id) g = timer_event a id g
step begins_update g = update_called g
step (stops_all a) g = update_stopping a g
step (ends_stop a) g = update_stopped a g
step fails_update g = update_failed g

unfoldable pub run : List Event → State → State
unfolding step
run [] g = g
run (e ∷ es) g = run es (step e g)
