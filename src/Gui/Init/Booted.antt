-- ===== src/Gui/Init/Booted.antt =====
-- FerrumGUI/src/index.ts: what `init` makes of the registry that it loads.
use mathlib.Core.Bool.{false≢true}
use mathlib.Core.Option.{none-ne-some}
use ferrum_proxy.Base.{
  ◌≡◌, ◌∙◌, refl, sym, ◌&&◌, not, if◌then◌else◌, is_some, false, Text, get, Option, none, some,
  List, [], ◌∷◌, arith,
}
use ferrum_proxy.Services
use ferrum_proxy.Services.{ServiceManager, get_all, get_by_id}
use ferrum_proxy.Services.Instances.{Instance, HasDistinctIds}
use ferrum_proxy.Processes.{is_running}
use ferrum_proxy.ManagerApi.{Ensured, ensured, thrown, ensure_manager_api}
use ferrum_proxy.ManagerApi.Ports.{HasDistinctPorts}
use ferrum_proxy.ManagerApi.Registry.{set_pid-HasDistinctPorts, ensure_manager_api-HasDistinctPorts}
use ferrum_proxy.Gui.{State, Answers, Failure, Event, launch, run}
use ferrum_proxy.Gui.Pids.{
  pid_of, set_pid-HasDistinctIds, ensure_manager_api-pid_of, ensure_manager_api-HasDistinctIds,
}
use ferrum_proxy.Gui.Consistent.{IsConsistent}
use ferrum_proxy.Gui.Kept.{launch-IsConsistent}
use ferrum_proxy.Gui.Invariant.{run-IsConsistent}
use ferrum_proxy.Gui.Init.{
  Boot, ensured_then, saved_then, ensure_each, clear_each, auto_start_each, booted, cleared_to,
  ensured_to, init,
}
use ferrum_proxy.Gui.Init.Stale.{IsDead, get_all-Linked, get_all-Pending, clear_each-none}

record IsTidy (b : Boot) (m : ServiceManager) : Type 0 where
  ids : HasDistinctIds (get_all m)
  ports : HasDistinctPorts (get_all m)
  dead : IsDead b m

-- What each turn keeps, a loop keeps.
ensured_then-kept :
    (P : ServiceManager → Type 0) (o : ServiceManager × Ensured)
    (rest : ServiceManager → ServiceManager × Option Failure)
    → P o.0
    → ((m : ServiceManager) → P m → P (rest m).0)
    → P (ensured_then o rest).0
ensured_then-kept P (m, thrown e) rest h k = h
ensured_then-kept P (m, ensured j) rest h k = k m h

saved_then-kept :
    (P : ServiceManager → Type 0) (o : Services.Outcome)
    (rest : ServiceManager → ServiceManager × Option Failure)
    → P o.0
    → ((m : ServiceManager) → P m → P (rest m).0)
    → P (saved_then o rest).0
saved_then-kept P (m, some e) rest h k = h
saved_then-kept P (m, none) rest h k = k m h

ensure-IsTidy :
    (b : Boot) (a : Answers) (i : Instance) (m : ServiceManager)
    → IsTidy b m
    → IsTidy b (ensure_manager_api a.platform a.now a.api_writes a.token i m).0
ensure-IsTidy b a i m h = record {
  ids = ensure_manager_api-HasDistinctIds a.platform a.now a.api_writes a.token i m h.ids;
  ports =
      ensure_manager_api-HasDistinctPorts a.platform a.now a.api_writes a.token i m h.ids h.ports;
  dead = λ j e.
      ground
        (arith, e, ensure_manager_api-pid_of a.platform a.now a.api_writes a.token i m j, h.dead j);
}

ensure_each-IsTidy :
    (b : Boot) (is : List Instance) (m : ServiceManager)
    → IsTidy b m
    → IsTidy b (ensure_each b is m).0
unfolding ensure_each
ensure_each-IsTidy b [] m h = h
ensure_each-IsTidy b (i ∷ is) m h =
    let a = b.answers i.id in
    ensured_then-kept (IsTidy b) (ensure_manager_api a.platform a.now a.api_writes a.token i m)
      (ensure_each b is) (ensure-IsTidy b a i m h) (λ m' h'. ensure_each-IsTidy b is m' h')

abbrev Registered : ServiceManager → Type 0
Registered m = HasDistinctIds (get_all m) × HasDistinctPorts (get_all m)

clear_each-Registered :
    (b : Boot) (is : List Instance) (m : ServiceManager)
    → Registered m
    → Registered (clear_each b is m).0
unfolding clear_each
clear_each-Registered b [] m h = h
clear_each-Registered b (i ∷ is) m (d, p) =
    let cleared =
      saved_then-kept Registered (Services.set_pid b.now (b.writes i.id) i.id none m)
        (clear_each b is)
        (
          set_pid-HasDistinctIds b.now (b.writes i.id) i.id none m d,
          set_pid-HasDistinctPorts b.now (b.writes i.id) i.id none m p,
        )
        (λ m' h'. clear_each-Registered b is m' h') in
    ground (arith, cleared, clear_each-Registered b is m (d, p))

auto_start_each-IsConsistent :
    (b : Boot) (is : List Instance) (g : State)
    → IsConsistent g
    → IsConsistent (auto_start_each b is g)
unfolding auto_start_each
auto_start_each-IsConsistent b [] g h = h
auto_start_each-IsConsistent b (i ∷ is) g h =
    let next =
      if i.auto_start && not (is_running i.id g.processes) && b.has_binary i.binary_path
      then (launch (b.answers i.id) i.id i g).0
      else g in
    let kept : IsConsistent next =
      ground (arith, h, launch-IsConsistent (b.answers i.id) i.id i g h) in
    auto_start_each-IsConsistent b is next kept

booted-IsConsistent :
    (m : ServiceManager)
    → Registered m
    → ((j : Text) → is_some (pid_of j m) ≡ false)
    → IsConsistent (booted m)
unfolding get
booted-IsConsistent m (d, p) gone = record {
  processes = (tt, λ id. refl);
  ids = d;
  ports = p;
  attempts = tt;
  live = λ j e. absurd (false≢true (sym (gone j) ∙ e));
}

cleared_to-IsConsistent :
    (b : Boot) (o : ServiceManager × Option Failure)
    → Registered o.0
    → (o.1 ≡ none → (j : Text) → is_some (pid_of j o.0) ≡ false)
    → (cleared_to b o).1 ≡ none
    → IsConsistent (cleared_to b o).0
cleared_to-IsConsistent b (m, some x) h gone e = absurd (none-ne-some x (sym e))
cleared_to-IsConsistent b (m, none) h gone e =
    auto_start_each-IsConsistent b (get_all m) (booted m) (booted-IsConsistent m h (gone refl))

ensured_to-IsConsistent :
    (b : Boot) (o : ServiceManager × Option Failure)
    → IsTidy b o.0
    → (ensured_to b o).1 ≡ none
    → IsConsistent (ensured_to b o).0
ensured_to-IsConsistent b (m, some x) h e = absurd (none-ne-some x (sym e))
ensured_to-IsConsistent b (m, none) h e =
    cleared_to-IsConsistent b (clear_each b (get_all m) m)
      (clear_each-Registered b (get_all m) m (h.ids, h.ports))
      (clear_each-none b (get_all m) m h.ids (get_all-Linked m h.ids) h.dead (get_all-Pending m)) e

-- If no two instances of the loaded registry have one id or one manager port, and its process ids are
-- of no live process, then unless `init` fails, the registry and the processes agree after it and
-- after any start, stop, restart and delete requests, exits, timers and updates of the GUI that
-- follow. Requests that add or change an instance are not among these.
pub init-run-IsConsistent :
    (b : Boot) (m : ServiceManager) (es : List Event)
    → HasDistinctIds (get_all m)
    → HasDistinctPorts (get_all m)
    → IsDead b m
    → (init b m).1 ≡ none
    → IsConsistent (run es (init b m).0)
unfolding init
init-run-IsConsistent b m es d p dead e =
    let tidy : IsTidy b m = record { ids = d; ports = p; dead = dead } in
    run-IsConsistent es (init b m).0 (
      ensured_to-IsConsistent b (ensure_each b (get_all m) m)
        (ensure_each-IsTidy b (get_all m) m tidy) e)
