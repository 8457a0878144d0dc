-- ===== src/Processes/Running.antt =====
-- FerrumGUI/src/processManager.ts: which processes run, under any sequence of calls and events.
use ferrum_proxy.Base.{
  ℕ, ◌≤◌, ◌-◌, ◌≡◌, refl, is_some, is_empty, trim, length, length-drop, or_else, Bool-cases, false,
  inl, inr, Text, List, [], ◌∷◌, ◌++◌, Map, Entries, Entries-put, get, put, delete, get-put,
  get-delete, Option, arith,
}
use ferrum_proxy.Processes.Lines.{split_lines}
use ferrum_proxy.Processes.{
  Kind, stdout, stderr, system, LogEntry, ProcessManager, max_log_entries, log_buffer_key, capped,
  entry_of, add_lines, add_log, add_buffered_logs, flush_one, flush_buffered_logs, Child, refused,
  child, start, stop, on_exit, on_error, clear_logs, resume_starts, block_starts, stop_each,
  stop_all,
}

abbrev pub IsCapped : List LogEntry → Type 0
IsCapped logs = length logs ≤ max_log_entries

-- No log is longer than its limit, and the time of its start is known of just what runs.
abbrev pub IsSound : ProcessManager → Type 0
IsSound m =
    Entries IsCapped m.logs
    × ((id : Text) → is_some (get id m.processes) ≡ is_some (get id m.started_at))

capped-IsCapped : (logs : List LogEntry) → IsCapped (capped logs)
unfolding capped
capped-IsCapped logs = ground (arith, length-drop (length logs - max_log_entries) logs)

add_log-IsSound :
    (now : ℕ) (id : Text) (kind : Kind) (message : Text) (m : ProcessManager)
    → IsSound m
    → IsSound (add_log now id kind message m).0
unfolding add_log
add_log-IsSound now id kind message m (l, p) =
    let logs = or_else (get id m.logs) [] ++ entry_of now kind message ∷ [] in
    (Entries-put IsCapped id (capped logs) m.logs l (capped-IsCapped logs), p)

add_lines-IsSound :
    (now : ℕ) (id : Text) (kind : Kind) (lines : List Text) (m : ProcessManager)
    → IsSound m
    → IsSound (add_lines now id kind lines m).0
unfolding add_lines
add_lines-IsSound now id kind [] m h = h
add_lines-IsSound now id kind (line ∷ lines) m h = elim (Bool-cases (is_empty (trim line))) [
  | inl blank ↦ rw blank (add_lines-IsSound now id kind lines m h)
  | inr text ↦ rw text (
      add_lines-IsSound now id kind lines (add_log now id kind line m).0
        (add_log-IsSound now id kind line m h))
]

flush_one-IsSound :
    (now : ℕ) (id : Text) (kind : Kind) (m : ProcessManager)
    → IsSound m
    → IsSound (flush_one now id kind m).0
unfolding flush_one
flush_one-IsSound now id kind m h =
    let rest = or_else (get (log_buffer_key id kind) m.log_buffers) [] in
    add_lines-IsSound now id kind (rest ∷ []) m h

flush-IsSound :
    (now : ℕ) (id : Text) (m : ProcessManager)
    → IsSound m
    → IsSound (flush_buffered_logs now id m).0
unfolding flush_buffered_logs
flush-IsSound now id m h =
    flush_one-IsSound now id stderr (flush_one now id stdout m).0
      (flush_one-IsSound now id stdout m h)

add_buffered_logs-IsSound :
    (now : ℕ) (id : Text) (kind : Kind) (chunk : Text) (m : ProcessManager)
    → IsSound m
    → IsSound (add_buffered_logs now id kind chunk m).0
unfolding add_buffered_logs
add_buffered_logs-IsSound now id kind chunk m h =
    let key = log_buffer_key id kind in
    let cut = split_lines (or_else (get key m.log_buffers) [] ++ chunk) in
    add_lines-IsSound now id kind cut.0 (record m { log_buffers = put key cut.1 m.log_buffers }) h

pub stop-IsSound :
    (now : ℕ) (id message : Text) (m : ProcessManager)
    → IsSound m
    → IsSound (stop now id message m).0
unfolding stop
stop-IsSound now id message m h = ground (arith, h, add_log-IsSound now id system message m h)

stop_each-IsSound :
    (now : ℕ) (message : Text) (children : Map (Option ℕ)) (m : ProcessManager)
    → IsSound m
    → IsSound (stop_each now message children m)
unfolding stop_each
stop_each-IsSound now message [] m h = h
stop_each-IsSound now message ((id, pid) ∷ children) m h =
    stop_each-IsSound now message children (stop now id message m).0
      (stop-IsSound now id message m h)

pub stop_all-IsSound :
    (now : ℕ) (message : Text) (m : ProcessManager) → IsSound m → IsSound (stop_all now message m)
unfolding stop_all
stop_all-IsSound now message m h = stop_each-IsSound now message m.processes m h

begun-IsSound :
    (now : ℕ) (id : Text) (pid : Option ℕ) (m : ProcessManager)
    → IsSound m
    → IsSound (record m {
      processes = put id pid m.processes;
      started_at = put id now m.started_at;
      logs = put id [] m.logs;
    })
begun-IsSound now id pid m (l, p) = (
  Entries-put IsCapped id [] m.logs l (omega arith),
  λ j. ground (arith, get-put id j pid m.processes, get-put id j now m.started_at, p j),
)

pub start-IsSound :
    (now : ℕ) (id : Text) (c : Child) (message : Text) (m : ProcessManager)
    → IsSound m
    → IsSound (start now id c message m).0
unfolding start
start-IsSound now id refused message m h = ground (arith, h)
start-IsSound now id (child pid) message m h =
    ground (arith, h, add_log-IsSound now id system message _ (begun-IsSound now id pid m h))

ended-IsSound :
    (id : Text) (m : ProcessManager)
    → IsSound m
    → IsSound (record m { processes = delete id m.processes; started_at = delete id m.started_at })
ended-IsSound id m (l, p) =
    (l, λ j. ground (arith, get-delete id j m.processes, get-delete id j m.started_at, p j))

pub on_exit-IsSound :
    (now : ℕ) (id message : Text) (m : ProcessManager)
    → IsSound m
    → IsSound (on_exit now id message m).0
unfolding on_exit
on_exit-IsSound now id message m h =
    let flushed = (flush_buffered_logs now id m).0 in
    ended-IsSound id (add_log now id system message flushed).0
      (add_log-IsSound now id system message flushed (flush-IsSound now id m h))

clear_logs-IsSound : (id : Text) (m : ProcessManager) → IsSound m → IsSound (clear_logs id m)
unfolding clear_logs
clear_logs-IsSound id m (l, p) = (Entries-put IsCapped id [] m.logs l (omega arith), p)

-- A call of the manager, or an event of a child.
pub data Event : Type 0 where
  starts : ℕ → Text → Child → Text → Event
  stops : ℕ → Text → Text → Event
  writes : ℕ → Text → Kind → Text → Event
  exits fails : ℕ → Text → Text → Event
  clears : Text → Event
  stops_all : ℕ → Text → Event
  blocks resumes : Event

unfoldable pub step : Event → ProcessManager → ProcessManager
unfolding start stop add_buffered_logs on_exit on_error clear_logs stop_all
step (starts now id pid message) m = (start now id pid message m).0
step (stops now id message) m = (stop now id message m).0
step (writes now id kind chunk) m = (add_buffered_logs now id kind chunk m).0
step (exits now id message) m = (on_exit now id message m).0
step (fails now id message) m = on_error now id message m
step (clears id) m = clear_logs id m
step (stops_all now message) m = stop_all now message m
step blocks m = block_starts m
step resumes m = resume_starts m

unfoldable pub run : List Event → ProcessManager → ProcessManager
unfolding step
run [] m = m
run (e ∷ es) m = run es (step e m)

abbrev pub created : ProcessManager
created = record {
  processes = [];
  logs = [];
  log_buffers = [];
  started_at = [];
  starts_blocked = false;
}

step-IsSound : (e : Event) (m : ProcessManager) → IsSound m → IsSound (step e m)
unfolding step add_buffered_logs on_error
step-IsSound (starts now id pid message) m h = start-IsSound now id pid message m h
step-IsSound (stops now id message) m h = stop-IsSound now id message m h
step-IsSound (writes now id kind chunk) m h = add_buffered_logs-IsSound now id kind chunk m h
step-IsSound (exits now id message) m h = on_exit-IsSound now id message m h
step-IsSound (fails now id message) m h = add_log-IsSound now id system message m h
step-IsSound (clears id) m h = clear_logs-IsSound id m h
step-IsSound (stops_all now message) m h = stop_all-IsSound now message m h
step-IsSound blocks m h = h
step-IsSound resumes m h = h

run-IsSound : (es : List Event) (m : ProcessManager) → IsSound m → IsSound (run es m)
unfolding run
run-IsSound [] m h = h
run-IsSound (e ∷ es) m h = run-IsSound es (step e m) (step-IsSound e m h)

created-IsSound : IsSound created
unfolding get
created-IsSound = (tt, λ id. refl)

-- After any sequence of calls and events, no log has more than 1000 entries, and the manager knows
-- the time of its start of exactly the processes that it takes to be running.
pub created-run-IsSound : (es : List Event) → IsSound (run es created)
created-run-IsSound es = run-IsSound es created created-IsSound
