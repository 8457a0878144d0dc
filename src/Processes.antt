-- ===== src/Processes.antt =====
-- FerrumGUI/src/processManager.ts: `ProcessManager`, which runs the proxies and keeps their output.
-- What handles the output returns the log entries that it emits; `start` and `stop` return what they
-- throw. A child stands for its process id, which the platform gives to `start` or not; killing a
-- process is the platform's, and its exit is an event.
pub mod Lines
pub mod Stream
pub mod Running
use ferrum_proxy.Base.{
  ℕ, ◌-◌, ltb, if◌then◌else◌, is_some, or_else, is_empty, drop, length, Bool, true, false, Text,
  Bytes, codes, trim, Map, get, put, delete, Option, none, some, List, [], ◌∷◌, ◌++◌,
}
use ferrum_proxy.Processes.Lines.{split_lines}

-- `LogEntry`
pub data Kind : Type 0 where
  stdout stderr system : Kind

pub record LogEntry : Type 0 where
  pub timestamp : ℕ
  pub kind : Kind
  pub message : Text

pub record ProcessManager : Type 0 where
  pub processes : Map (Option ℕ)
  pub logs : Map (List LogEntry)
  pub log_buffers : Map Text
  pub started_at : Map ℕ
  pub starts_blocked : Bool

abbrev pub max_log_entries : ℕ
max_log_entries = 1000

-- The exceptions of `start` and `stop`
pub data Failure : Type 0 where
  updating already_running spawn_failed no_pid not_running : Failure

-- What `spawn` does: it throws, or makes a child, with a process id or without
pub data Child : Type 0 where
  refused : Child
  child : Option ℕ → Child

abbrev pub pid_of : Child → Option ℕ
pid_of refused = none
pid_of (child pid) = pid

abbrev pub name_of : Kind → Text
name_of stdout = codes "stdout"
name_of stderr = codes "stderr"
name_of system = codes "system"

-- `logBufferKey`
unfoldable pub log_buffer_key : Text → Kind → Text
log_buffer_key id kind = id ++ b':' ∷ name_of kind

unfoldable pub capped : List LogEntry → List LogEntry
capped logs =
    if ltb max_log_entries (length logs) then drop (length logs - max_log_entries) logs else logs

abbrev pub entry_of : ℕ → Kind → Text → LogEntry
entry_of now kind message = record { timestamp = now; kind = kind; message = trim message }

-- `addLog`
unfoldable pub add_log : ℕ → Text → Kind → Text → ProcessManager → ProcessManager × LogEntry
unfolding capped
add_log now id kind message m =
    let logs = capped (or_else (get id m.logs) [] ++ entry_of now kind message ∷ []) in
    (record m { logs = put id logs m.logs }, entry_of now kind message)

abbrev pub emitting : LogEntry → ProcessManager × List LogEntry → ProcessManager × List LogEntry
emitting e (m, es) = (m, e ∷ es)

-- The loop of `addBufferedLogs`
unfoldable pub add_lines :
    ℕ → Text → Kind → List Text → ProcessManager → ProcessManager × List LogEntry
unfolding add_log
add_lines now id kind [] m = (m, [])
add_lines now id kind (line ∷ lines) m =
    let blank = add_lines now id kind lines m in
    let logged =
      emitting (add_log now id kind line m).1
        (add_lines now id kind lines (add_log now id kind line m).0) in
    if is_empty (trim line) then blank else logged

-- `addBufferedLogs`, of a text that is decoded
unfoldable pub add_buffered_logs :
    ℕ → Text → Kind → Text → ProcessManager → ProcessManager × List LogEntry
unfolding log_buffer_key split_lines add_lines
add_buffered_logs now id kind chunk m =
    let key = log_buffer_key id kind in
    let (lines, trailing) = split_lines (or_else (get key m.log_buffers) [] ++ chunk) in
    add_lines now id kind lines (record m { log_buffers = put key trailing m.log_buffers })

-- The listener of a stream's `data`, with the platform's `toString`, which decodes each chunk by itself
unfoldable pub on_data :
    (Bytes → Text) → ℕ → Text → Kind → Bytes → ProcessManager → ProcessManager × List LogEntry
unfolding add_buffered_logs
on_data to_string now id kind chunk m = add_buffered_logs now id kind (to_string chunk) m

abbrev pub forget : Text → ProcessManager × List LogEntry → ProcessManager × List LogEntry
forget key (m, es) = (record m { log_buffers = delete key m.log_buffers }, es)

-- One turn of the loop of `flushBufferedLogs`
unfoldable pub flush_one : ℕ → Text → Kind → ProcessManager → ProcessManager × List LogEntry
unfolding log_buffer_key add_lines
flush_one now id kind m =
    let key = log_buffer_key id kind in
    forget key (add_lines now id kind (or_else (get key m.log_buffers) [] ∷ []) m)

-- `flushBufferedLogs`
unfoldable pub flush_buffered_logs : ℕ → Text → ProcessManager → ProcessManager × List LogEntry
unfolding flush_one
flush_buffered_logs now id m =
    let (m', es) = flush_one now id stdout m in
    let (m'', es') = flush_one now id stderr m' in (m'', es ++ es')

-- `isRunning`
abbrev pub is_running : Text → ProcessManager → Bool
is_running id m = is_some (get id m.processes)

abbrev pub check_pid : Option ℕ → Option Failure
check_pid none = some no_pid
check_pid (some pid) = none

-- `start` after its own checks
abbrev pub begin : ℕ → Text → Child → Text → ProcessManager → ProcessManager × Option Failure
begin now id refused message m = (m, some spawn_failed)
begin now id (child pid) message m = (
  (add_log now id system message (record m {
    processes = put id pid m.processes;
    started_at = put id now m.started_at;
    logs = put id [] m.logs;
  })).0,
  check_pid pid,
)

-- `start`, with what `spawn` does
unfoldable pub start : ℕ → Text → Child → Text → ProcessManager → ProcessManager × Option Failure
unfolding add_log
start now id c message m =
    if m.starts_blocked
    then (m, some updating)
    else if is_running id m
    then (m, some already_running)
    else begin now id c message m

-- `stop`, less the signal that it sends
unfoldable pub stop : ℕ → Text → Text → ProcessManager → ProcessManager × Option Failure
unfolding add_log
stop now id message m =
    if is_running id m then ((add_log now id system message m).0, none) else (m, some not_running)

-- The listener of a child's `exit`
unfoldable pub on_exit : ℕ → Text → Text → ProcessManager → ProcessManager × List LogEntry
unfolding flush_buffered_logs add_log
on_exit now id message m =
    let (m', es) = flush_buffered_logs now id m in
    let (m'', e) = add_log now id system message m' in
    (
      record m'' { processes = delete id m''.processes; started_at = delete id m''.started_at },
      es ++ e ∷ [],
    )

-- The listener of a child's `error`
unfoldable pub on_error : ℕ → Text → Text → ProcessManager → ProcessManager
unfolding add_log
on_error now id message m = (add_log now id system message m).0

-- `getPid` and `getStartedAt`
abbrev pub get_pid : Text → ProcessManager → Option ℕ
get_pid id m = or_else (get id m.processes) none

-- `clearLogs`
unfoldable pub clear_logs : Text → ProcessManager → ProcessManager
unfolding log_buffer_key
clear_logs id m = record m {
  logs = put id [] m.logs;
  log_buffers = delete (log_buffer_key id stderr) (delete (log_buffer_key id stdout) m.log_buffers);
}

-- `resumeStarts`, and the block that `stopAllAndWait` begins with
abbrev pub resume_starts : ProcessManager → ProcessManager
resume_starts m = record m { starts_blocked = false }

abbrev pub block_starts : ProcessManager → ProcessManager
block_starts m = record m { starts_blocked = true }

-- The loop of `stopAll`
unfoldable pub stop_each : ℕ → Text → Map (Option ℕ) → ProcessManager → ProcessManager
unfolding stop
stop_each now message [] m = m
stop_each now message ((id, pid) ∷ children) m =
    stop_each now message children (stop now id message m).0

-- `stopAll`
unfoldable pub stop_all : ℕ → Text → ProcessManager → ProcessManager
unfolding stop_each
stop_all now message m = stop_each now message m.processes m
