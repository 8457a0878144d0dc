-- ===== src/Gui/Init.antt =====
-- FerrumGUI/src/index.ts: `init`, from the loaded registry to the first request. The loops read each
-- instance before any call changes it, since a call writes over the first instance of its own id.
pub mod Stale
pub mod Booted
use ferrum_proxy.Base.{
  ℕ, ◌==◌, ◌&&◌, ◌||◌, not, if◌then◌else◌, Bool, true, false, Text, Option, none, some, List, [],
  ◌∷◌,
}
use ferrum_proxy.Services
use ferrum_proxy.Services.{ServiceManager, get_all}
use ferrum_proxy.Services.Instances.{Instance}
use ferrum_proxy.Processes.{is_running}
use ferrum_proxy.Processes.Running.{created}
use ferrum_proxy.ManagerApi.{Ensured, ensured, thrown, ensure_manager_api}
use ferrum_proxy.Gui.{State, Answers, Failure, api, registry, launch}

-- Which processes are alive, which binaries are there, whether the file is written when a process id
-- is cleared, and the answers for the calls of each instance
pub record Boot : Type 0 where
  pub now : ℕ
  pub is_alive : ℕ → Bool
  pub has_binary : Text → Bool
  pub writes : Text → Bool
  pub answers : Text → Answers

-- What follows in a loop, unless the turn threw
abbrev pub ensured_then :
    ServiceManager × Ensured
    → (ServiceManager → ServiceManager × Option Failure)
    → ServiceManager × Option Failure
ensured_then (m, thrown e) rest = (m, some (api e))
ensured_then (m, ensured j) rest = rest m

abbrev pub saved_then :
    Services.Outcome
    → (ServiceManager → ServiceManager × Option Failure)
    → ServiceManager × Option Failure
saved_then (m, some e) rest = (m, some (registry e))
saved_then (m, none) rest = rest m

-- The loop of `ensureManagerApi`
unfoldable pub ensure_each : Boot → List Instance → ServiceManager → ServiceManager × Option Failure
unfolding ensure_manager_api
ensure_each b [] m = (m, none)
ensure_each b (i ∷ is) m =
    let a = b.answers i.id in
    ensured_then (ensure_manager_api a.platform a.now a.api_writes a.token i m) (ensure_each b is)

-- `instance.pid` is there, and `process.kill(instance.pid, 0)` throws.
abbrev pub is_stale : (ℕ → Bool) → Option ℕ → Bool
is_stale is_alive none = false
is_stale is_alive (some p) = not (p == 0) && not (is_alive p)

-- The loop that clears stale process ids
unfoldable pub clear_each : Boot → List Instance → ServiceManager → ServiceManager × Option Failure
unfolding Services.set_pid
clear_each b [] m = (m, none)
clear_each b (i ∷ is) m =
    let kept = clear_each b is m in
    let cleared =
      saved_then (Services.set_pid b.now (b.writes i.id) i.id none m) (clear_each b is) in
    if is_stale b.is_alive i.pid then cleared else kept

-- The loop that starts instances; what one throws is caught.
unfoldable pub auto_start_each : Boot → List Instance → State → State
unfolding launch
auto_start_each b [] g = g
auto_start_each b (i ∷ is) g =
    let starts = i.auto_start && not (is_running i.id g.processes) && b.has_binary i.binary_path in
    auto_start_each b is (if starts then (launch (b.answers i.id) i.id i g).0 else g)

abbrev pub booted : ServiceManager → State
booted m = record {
  services = m;
  processes = created;
  restarts = record { restart_attempts = []; intentional_stops = [] };
  watched = [];
  gui_updating = false;
}

abbrev pub cleared_to : Boot → ServiceManager × Option Failure → State × Option Failure
cleared_to b (m, some e) = (booted m, some e)
cleared_to b (m, none) = (auto_start_each b (get_all m) (booted m), none)

abbrev pub ensured_to : Boot → ServiceManager × Option Failure → State × Option Failure
ensured_to b (m, some e) = (booted m, some e)
ensured_to b (m, none) = cleared_to b (clear_each b (get_all m) m)

-- `init` after `load`; with a failure the program exits.
unfoldable pub init : Boot → ServiceManager → State × Option Failure
unfolding ensure_each clear_each auto_start_each get_all
init b m = ensured_to b (ensure_each b (get_all m) m)
