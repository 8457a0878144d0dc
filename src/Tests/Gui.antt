-- ===== src/Tests/Gui.antt =====
-- FerrumGUI/src/index.ts, the routes of the instances, at concrete inputs.
use ferrum_proxy.Base.{
  Bool, ◌≡◌, refl, true, false, Text, codes, get, put, delete, none, some, [], ◌∷◌, text_eq, arith,
}
use ferrum_proxy.Services.{unknown, ServiceManager, get_all, get_by_id, save, with_instances}
use ferrum_proxy.Services.Instances.{Instance, linux, find_by_id, update_first, remove_first}
use ferrum_proxy.Processes.{child, is_running}
use ferrum_proxy.Restart
use ferrum_proxy.Restart.{skipped, on_timer, mark_intentional_stop}
use ferrum_proxy.ManagerApi.{get_manager_api_args}
use ferrum_proxy.Gui.{
  State, Answers, Response, Failure, watch, start_route, stop_route, exit_event, timer_event,
  update_stopping, run, requests_start, exits, delete_route, restart_called, update_stopped,
}
use ferrum_proxy.Gui.Consistent.{IsConsistent}
use ferrum_proxy.Gui.Pids.{pid_of}
use ferrum_proxy.Gui.Init.{Boot, init}
use ferrum_proxy.Gui.Init.Stale.{IsDead}
use ferrum_proxy.Gui.Init.Booted.{init-run-IsConsistent}
use ferrum_proxy.Gui.Requests.{IsStopped, stop_route-IsStopped}
use ferrum_proxy.Gui.Starts.{IsStarted, start_route-IsStarted}
use ferrum_proxy.Gui.Updates.{schedules, update_stopping-run}

gui : Unit {0}
unfolding start_route stop_route exit_event timer_event update_stopping run text_eq find_by_id
    update_first remove_first get put delete save with_instances get_manager_api_args get_all
    get_by_id delete_route watch restart_called update_stopped init
gui = tt

abbrev instance_of : Text → Instance
instance_of id = record {
  id = id;
  name = codes "proxy";
  version = codes "1";
  platform = linux;
  binary_path = codes "/b";
  data_dir = codes "/d";
  config_path = codes "/c";
  pid = none;
  last_started = none;
  auto_start = false;
  auto_restart = true;
  manager_port = some 37000;
  manager_token = some (codes "tok");
  public_metadata = none;
  download_url = codes "u";
}

abbrev a_id : Text
a_id = codes "a"

abbrev idle : State
idle = record {
  services = record {
    memory = record { instances = instance_of a_id ∷ []; last_updated = 0; auth = none };
    disk = unknown;
  };
  processes = record {
    processes = [];
    logs = [];
    log_buffers = [];
    started_at = [];
    starts_blocked = false;
  };
  restarts = record { restart_attempts = []; intentional_stops = [] };
  watched = [];
  gui_updating = false;
}

abbrev answers : Answers
answers = record {
  now = 1000;
  platform = record { port_start = 37000; port_end = 37010; can_bind = λ p. true };
  api_writes = true;
  writes = true;
  token = codes "new";
  pid = child (some 77);
  watches = true;
  message = codes "line";
}

abbrev running : State
running = (start_route answers a_id idle).0

started : (start_route answers a_id idle).1 ≡ Response.started (some 77)
unfolding gui
started = refl

started_twice : (start_route answers a_id running).1 ≡ Response.already_running
unfolding gui
started_twice = refl

crashed : (exit_event answers a_id running).1 ≡ some (Restart.scheduled 1000)
unfolding gui
crashed = refl

port_args :
    get_manager_api_args (instance_of a_id)
    ≡ codes "--manager-port" ∷ codes "37000" ∷ codes "--manager-token" ∷ codes "tok" ∷ []
unfolding gui
port_args = refl

idle-IsConsistent : IsConsistent idle
unfolding get_all get_by_id find_by_id get text_eq
idle-IsConsistent = record {
  processes = (tt, λ id. refl);
  ids = (tt, tt);
  ports = (tt, tt);
  attempts = tt;
  live = λ j e. ground (arith, e);
}

-- A registry whose instance has the process id of the run before
abbrev loaded : ServiceManager
loaded = record idle.services {
  memory = record {
    instances = record (instance_of a_id) { pid = some 5; auto_start = true } ∷ [];
    last_updated = 0;
    auth = none;
  };
}

abbrev boot_of : Bool → Boot
boot_of alive = record {
  now = 900;
  is_alive = λ p. alive;
  has_binary = λ path. true;
  writes = λ id. true;
  answers = λ id. answers;
}

-- The process of the run before is alive, and a second one is started.
started_again : pid_of a_id (init (boot_of true) loaded).0.services ≡ some 77
unfolding gui
started_again = refl

loaded-IsDead : IsDead (boot_of false) loaded
unfolding get_by_id get_all find_by_id
loaded-IsDead j e = ground (arith, e)

init-run-IsConsistent_example :
    IsConsistent (run (exits answers a_id ∷ []) (init (boot_of false) loaded).0)
unfolding gui
init-run-IsConsistent_example =
    init-run-IsConsistent (boot_of false) loaded (exits answers a_id ∷ []) (tt, tt) (tt, tt)
      loaded-IsDead refl

start_route-IsStarted_example : IsStarted a_id (some 77) (start_route answers a_id idle)
unfolding gui
start_route-IsStarted_example =
    start_route-IsStarted answers a_id (instance_of a_id) idle refl refl refl refl refl refl refl

stop_route-IsStopped_example :
    ((stop_route answers a_id running).1 ≡ Response.success)
    × IsStopped a_id (exit_event answers a_id (stop_route answers a_id running).0)
unfolding gui
stop_route-IsStopped_example = stop_route-IsStopped answers answers a_id running refl refl refl refl

abbrev updating : State
updating = record running { gui_updating = true }

update_stopping-run_example :
    ((j : Text)
      → is_running j
          (run
            (exits answers a_id ∷ requests_start answers a_id ∷ [])
            (update_stopping answers updating)).processes
        ≡ true
      → is_running j updating.processes ≡ true)
    × ((b : Answers) (id : Text)
        → schedules
            (exit_event b id (
              run
                (exits answers a_id ∷ requests_start answers a_id ∷ [])
                (update_stopping answers updating))).1
          ≡ false)
update_stopping-run_example =
    update_stopping-run answers updating (exits answers a_id ∷ requests_start answers a_id ∷ [])
      refl (refl, (refl, tt))

-- The configuration's file is missing: the route fails after the process has been started.
unwatched :
    ((start_route (record answers { watches = false }) a_id idle).1
      ≡ Response.failed Failure.watch_failed)
    × (is_running a_id (start_route (record answers { watches = false }) a_id idle).0.processes
        ≡ true)
unfolding gui
unwatched = (refl, refl)
