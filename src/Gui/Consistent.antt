-- ===== src/Gui/Consistent.antt =====
-- FerrumGUI/src/index.ts: what the routes keep true of the registry and the processes together, and
-- that each call that they make keeps it.
use ferrum_proxy.Base.{
  ℕ, ◌≡◌, refl, is_some, Bool-cases, Bool, true, false, inl, inr, Text, text_eq, text_eq_iff,
  Entries, Entries-delete, Option, arith,
}
use ferrum_proxy.Services
use ferrum_proxy.Services.{ServiceManager, get_all, get_by_id, save}
use ferrum_proxy.Services.Instances.{Instance, HasDistinctIds}
use ferrum_proxy.Processes
use ferrum_proxy.Processes.{ProcessManager, Child, is_running, block_starts, resume_starts}
use ferrum_proxy.Processes.Running.{IsSound, start-IsSound, stop-IsSound}
use ferrum_proxy.Restart
use ferrum_proxy.Restart.{mark_intentional_stop}
use ferrum_proxy.Restart.Limits.{IsLimited}
use ferrum_proxy.ManagerApi.{ensure_manager_api}
use ferrum_proxy.ManagerApi.Ports.{HasDistinctPorts}
use ferrum_proxy.ManagerApi.Registry.{
  set_pid-HasDistinctPorts, remove-HasDistinctPorts, ensure_manager_api-HasDistinctPorts,
}
use ferrum_proxy.Gui.{State, Answers, stop_marked}
use ferrum_proxy.Gui.Processed.{start-kept, stop-is_running}
use ferrum_proxy.Gui.Pids.{
  pid_of, set_pid-pid_of, set_pid-HasDistinctIds, ensure_manager_api-pid_of,
  ensure_manager_api-HasDistinctIds, remove-HasDistinctIds, remove-pid_of,
}

-- An instance that has a process id in the registry is running.
abbrev pub HasLivePids : ServiceManager → ProcessManager → Type 0
HasLivePids m p = (j : Text) → is_some (pid_of j m) ≡ true → is_running j p ≡ true

pub record IsConsistent (g : State) : Type 0 where
  pub processes : IsSound g.processes
  pub ids : HasDistinctIds (get_all g.services)
  pub ports : HasDistinctPorts (get_all g.services)
  pub attempts : Entries IsLimited g.restarts.restart_attempts
  pub live : HasLivePids g.services g.processes

-- A process id is written only for an instance that runs.
pub set_pid-IsConsistent :
    (now : ℕ) (ok : Bool) (id : Text) (pid : Option ℕ) (g : State)
    → (is_some pid ≡ true → is_running id g.processes ≡ true)
    → IsConsistent g
    → IsConsistent (record g { services = (Services.set_pid now ok id pid g.services).0 })
set_pid-IsConsistent now ok id pid g runs h = record {
  processes = h.processes;
  ids = set_pid-HasDistinctIds now ok id pid g.services h.ids;
  ports = set_pid-HasDistinctPorts now ok id pid g.services h.ports;
  attempts = h.attempts;
  live = λ j e. elim (Bool-cases (text_eq id j)) [
    | inl same ↦
        let j_is : id ≡ j = (text_eq_iff id j).0 same in
        ground (arith, same, j_is, e, set_pid-pid_of now ok id pid g.services j, runs, h.live j)
    | inr other ↦ ground (arith, other, e, set_pid-pid_of now ok id pid g.services j, h.live j)
  ];
}

pub ensure-IsConsistent :
    (a : Answers) (i : Instance) (g : State)
    → IsConsistent g
    → IsConsistent (record g {
      services = (ensure_manager_api a.platform a.now a.api_writes a.token i g.services).0;
    })
ensure-IsConsistent a i g h = record {
  processes = h.processes;
  ids = ensure_manager_api-HasDistinctIds a.platform a.now a.api_writes a.token i g.services h.ids;
  ports =
      ensure_manager_api-HasDistinctPorts a.platform a.now a.api_writes a.token i g.services h.ids
        h.ports;
  attempts = h.attempts;
  live = λ j e. ground (
    arith,
    e,
    ensure_manager_api-pid_of a.platform a.now a.api_writes a.token i g.services j,
    h.live j,
  );
}

pub remove-IsConsistent :
    (now : ℕ) (ok : Bool) (id : Text) (g : State)
    → is_some (get_by_id id g.services) ≡ true
    → IsConsistent g
    → IsConsistent (record g { services = (Services.remove now ok id g.services).0 })
remove-IsConsistent now ok id g found h = record {
  processes = h.processes;
  ids = remove-HasDistinctIds now ok id g.services h.ids;
  ports = remove-HasDistinctPorts now ok id g.services h.ports;
  attempts = h.attempts;
  live = λ j e. ground (arith, e, remove-pid_of now ok id g.services j h.ids found, h.live j);
}

save-memory : (now : ℕ) (ok : Bool) (m : ServiceManager) → get_all (save now ok m).0 ≡ get_all m
unfolding save get_all
save-memory now true m = refl
save-memory now false m = refl

pub save-IsConsistent :
    (now : ℕ) (ok : Bool) (g : State)
    → IsConsistent g
    → IsConsistent (record g { services = (save now ok g.services).0 })
unfolding get_by_id
save-IsConsistent now ok g h =
    let same = save-memory now ok g.services in
    record {
      processes = h.processes;
      ids = rw same h.ids;
      ports = rw same h.ports;
      attempts = h.attempts;
      live = λ j e. h.live j (rw same at e);
    }

pub start-IsConsistent :
    (now : ℕ) (id : Text) (c : Child) (message : Text) (g : State)
    → IsConsistent g
    → IsConsistent (record g { processes = (Processes.start now id c message g.processes).0 })
start-IsConsistent now id c message g h = record {
  processes = start-IsSound now id c message g.processes h.processes;
  ids = h.ids;
  ports = h.ports;
  attempts = h.attempts;
  live = λ j e. start-kept now id c message g.processes j (h.live j e);
}

pub mark-IsLimited :
    (id : Text) (r : Restart.State)
    → Entries IsLimited r.restart_attempts
    → Entries IsLimited (mark_intentional_stop id r).restart_attempts
unfolding mark_intentional_stop
mark-IsLimited id r h = Entries-delete IsLimited id r.restart_attempts h

pub stop_marked-IsConsistent :
    (a : Answers) (id : Text) (g : State) → IsConsistent g → IsConsistent (stop_marked a id g)
unfolding stop_marked
stop_marked-IsConsistent a id g h = record {
  processes = stop-IsSound a.now id a.message g.processes h.processes;
  ids = h.ids;
  ports = h.ports;
  attempts = mark-IsLimited id g.restarts h.attempts;
  live = λ j e. ground (arith, e, stop-is_running a.now id a.message g.processes j, h.live j);
}
