-- ===== src/Gui/Starts.antt =====
-- FerrumGUI/src/index.ts: what the start route comes to.
use mathlib.Core.Option.{none-ne-some}
use mathlib.Core.Bool.{false≢true}
use ferrum_proxy.Base.{
  ℕ, ◌≡◌, ◌&&◌, ◌∙◌, refl, sym, ap, subst, is_some, true, false, Bool-cases, inl, inr, Text,
  text_eq_refl, Option, none, some, arith,
}
use ferrum_proxy.Services
use ferrum_proxy.Services.{ServiceManager, get_by_id, save, with_instances}
use ferrum_proxy.Services.Instances.{Instance}
use ferrum_proxy.Processes
use ferrum_proxy.Processes.{ProcessManager, Child, refused, child, is_running, add_log}
use ferrum_proxy.ManagerApi.{ensured, ensure_manager_api, has_token, has_port}
use ferrum_proxy.Gui.{
  State, Answers, Response, is_watched, record_pid, spawned, spawn, watching, launch_with, launch,
  answer, start_found, start_route, watch,
}
use ferrum_proxy.Gui.Processed.{start-none}
use ferrum_proxy.Gui.Requests.{record_pid-none}
use ferrum_proxy.Gui.Pids.{pid_of, set_pid-pid_of, set_pid-none}

ensure_manager_api-has_api :
    (a : Answers) (i : Instance) (m : ServiceManager)
    → (has_token i && has_port i) ≡ true
    → ensure_manager_api a.platform a.now a.api_writes a.token i m ≡ (m, ensured i)
unfolding ensure_manager_api
ensure_manager_api-has_api a i m h = rw h refl

-- What the start route leaves of a proxy that it started
pub record IsStarted (id : Text) (pid : Option ℕ) (o : State × Response) : Type 0 where
  pub response : o.1 ≡ Response.started pid
  pub runs : is_running id o.0.processes ≡ true
  pub has_pid : pid_of id o.0.services ≡ pid
  pub watches : is_watched id o.0.watched ≡ true

watch-IsStarted :
    (a : Answers) (id : Text) (pid : Option ℕ) (g : State)
    → a.watches ≡ true
    → is_running id g.processes ≡ true
    → pid_of id g.services ≡ pid
    → IsStarted id pid (answer (Response.started pid) (watch a id g))
unfolding watch
watch-IsStarted a id pid g found runs has_pid = elim (Bool-cases (is_watched id g.watched)) [
  | inl seen ↦ rw seen (record { response = refl; runs = runs; has_pid = has_pid; watches = seen })
  | inr new ↦
      rw (new, found)
        (record {
          response = refl;
          runs = runs;
          has_pid = has_pid;
          watches = ground (arith, text_eq_refl id);
        })
]

spawned-none :
    (a : Answers) (id : Text) (o : ProcessManager × Option Processes.Failure) (g : State)
    → o.1 ≡ none
    → spawned a id o g
      ≡ record_pid
          (Services.set_pid a.now a.writes id (Processes.pid_of a.pid) g.services)
          (record g { processes = o.0 })
spawned-none a id (p, none) g e = refl
spawned-none a id (p, some x) g e = absurd (none-ne-some x (sym e))

start-succeeds :
    (now : ℕ) (id : Text) (c : Child) (message : Text) (m : ProcessManager)
    → m.starts_blocked ≡ false
    → is_running id m ≡ false
    → is_some (Processes.pid_of c) ≡ true
    → (Processes.start now id c message m).1 ≡ none
unfolding Processes.start add_log
start-succeeds now id refused message m b r p = absurd (false≢true p)
start-succeeds now id (child none) message m b r p = absurd (false≢true p)
start-succeeds now id (child (some n)) message m b r p = rw (b, r) refl

launch-IsStarted :
    (a : Answers) (id : Text) (m : ServiceManager) (j : Instance) (g : State)
    → is_some (get_by_id id m) ≡ true
    → a.writes ≡ true
    → a.watches ≡ true
    → (Processes.start a.now id a.pid a.message g.processes).1 ≡ none
    → IsStarted id
        (Processes.pid_of a.pid)
        (answer (Response.started (Processes.pid_of a.pid)) (launch_with a id (m, ensured j) g))
unfolding spawn
launch-IsStarted a id m j g there written seen ok =
    let h = record g { services = m } in
    let p = Processes.start a.now id a.pid a.message g.processes in
    let o = Services.set_pid a.now a.writes id (Processes.pid_of a.pid) m in
    let k : State = record h { processes = p.0; services = o.0 } in
    let done =
      spawned-none a id p h ok
      ∙ record_pid-none o (record h { processes = p.0 })
          (set_pid-none a.now a.writes id (Processes.pid_of a.pid) m there written) in
    subst
      (λ r.
        IsStarted id (Processes.pid_of a.pid)
          (answer (Response.started (Processes.pid_of a.pid)) (watching a id r)))
      (sym done)
      (watch-IsStarted a id (Processes.pid_of a.pid) k seen
        (start-none a.now id a.pid a.message g.processes ok)
        (ground (
          arith,
          there,
          text_eq_refl id,
          set_pid-pid_of a.now a.writes id (Processes.pid_of a.pid) m id,
        )))

-- If an instance in the registry has a port and a token and does not run, starts are not blocked,
-- the platform gives a process id, the registry's file can be written and the configuration's file
-- can be watched, then the start route answers with that id, and the instance runs, has the id in
-- the registry, and its configuration is watched.
pub start_route-IsStarted :
    (a : Answers) (id : Text) (i : Instance) (g : State)
    → get_by_id id g.services ≡ some i
    → (has_token i && has_port i) ≡ true
    → is_running id g.processes ≡ false
    → g.processes.starts_blocked ≡ false
    → is_some (Processes.pid_of a.pid) ≡ true
    → a.writes ≡ true
    → a.watches ≡ true
    → IsStarted id (Processes.pid_of a.pid) (start_route a id g)
unfolding start_route launch
start_route-IsStarted a id i g found has_api idle free has_pid written seen =
    let there : is_some (get_by_id id g.services) ≡ true = rw found refl in
    let ok = start-succeeds a.now id a.pid a.message g.processes free idle has_pid in
    let api : ensure_manager_api a.platform a.now a.api_writes a.token i g.services
        ≡ (g.services, ensured i) =
      ensure_manager_api-has_api a i g.services has_api in
    let same : start_route a id g
        ≡ answer (Response.started (Processes.pid_of a.pid))
            (launch_with a id (g.services, ensured i) g) =
      ap (λ o. start_found a id o g) found
      ∙ (ground (arith, idle)
          ∙ ap (λ o. answer (Response.started (Processes.pid_of a.pid)) (launch_with a id o g))
              api) in
    subst (IsStarted id (Processes.pid_of a.pid)) (sym same)
      (launch-IsStarted a id g.services i g there written seen ok)
