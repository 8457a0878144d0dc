-- ===== src/Gui/Blocked.antt =====
-- FerrumGUI/src/index.ts: what the routes leave as it is while starts are blocked.
use ferrum_proxy.Base.{
  ℕ, ◌≡◌, refl, Option-cases, Bool, true, inl, inr, Text, Option, none, some, arith,
}
use ferrum_proxy.Services
use ferrum_proxy.Services.{ServiceManager, get_by_id}
use ferrum_proxy.Processes
use ferrum_proxy.Processes.{ProcessManager, is_running, updating, block_starts}
use ferrum_proxy.ManagerApi.{Ensured, ensured, thrown, ensure_manager_api}
use ferrum_proxy.Gui.{
  State, Answers, Failure, Response, record_pid, spawn, watch, watching, launch_with, launch,
  answer, start_route, unwatching, pid_cleared,
}

-- What the update needs to know of the state
abbrev pub part : State → ProcessManager × Bool
part g = (g.processes, g.gui_updating)

-- Starts are blocked, the GUI is being updated, and nothing runs that the manager `p` did not run.
pub record Quiet (p : ProcessManager) (x : ProcessManager × Bool) : Type 0 where
  pub blocked : x.0.starts_blocked ≡ true
  pub updates : x.1 ≡ true
  pub fewer : (j : Text) → is_running j x.0 ≡ true → is_running j p ≡ true

pub answer-part : (r : Response) (o : State × Option Failure) → part (answer r o).0 ≡ part o.0
answer-part r (g, none) = refl
answer-part r (g, some e) = refl

pub record_pid-part : (o : Services.Outcome) (g : State) → part (record_pid o g).0 ≡ part g
record_pid-part (m, none) g = refl
record_pid-part (m, some e) g = refl

watching-part :
    (a : Answers) (id : Text) (o : State × Option Failure) → part (watching a id o).0 ≡ part o.0
unfolding watch
watching-part a id (g, none) = ground arith
watching-part a id (g, some e) = refl

pub unwatching-part : (id : Text) (o : State × Option Failure) → part (unwatching id o).0 ≡ part o.0
unwatching-part id (g, none) = refl
unwatching-part id (g, some e) = refl

pub pid_cleared-part :
    (now : ℕ) (auto_restart : Option Bool) (id : Text) (o : Services.Outcome) (g : State)
    → part (pid_cleared now auto_restart id o g).0 ≡ part g
pid_cleared-part now auto_restart id (m, none) g = refl
pid_cleared-part now auto_restart id (m, some e) g = refl

pub spawn-part :
    (a : Answers) (id : Text) (g : State)
    → g.processes.starts_blocked ≡ true
    → part (spawn a id g).0 ≡ part g
unfolding spawn Processes.start
spawn-part a id g b = rw b refl

launch_with-part :
    (a : Answers) (id : Text) (o : ServiceManager × Ensured) (g : State)
    → g.processes.starts_blocked ≡ true
    → part (launch_with a id o g).0 ≡ part g
launch_with-part a id (m, thrown e) g b = refl
launch_with-part a id (m, ensured j) g b =
    rw (watching-part a id (spawn a id (record g { services = m })))
      (spawn-part a id (record g { services = m }) b)

pub start_route-part :
    (a : Answers) (id : Text) (g : State)
    → g.processes.starts_blocked ≡ true
    → part (start_route a id g).0 ≡ part g
unfolding start_route launch
start_route-part a id g b = elim (Option-cases (get_by_id id g.services)) [
  | inl missing ↦ rw missing refl
  | inr (i, found) ↦
      let api = ensure_manager_api a.platform a.now a.api_writes a.token i g.services in
      rw found (
        ground (
          arith,
          answer-part (Response.started (Processes.pid_of a.pid)) (launch_with a id api g),
          launch_with-part a id api g b,
        ))
]
