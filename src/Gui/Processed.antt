-- ===== src/Gui/Processed.antt =====
-- FerrumGUI/src/processManager.ts: which processes run after a call, for those who use the manager.
use ferrum_proxy.Base.{
  ℕ, ◌≡◌, refl, if◌then◌else◌, is_empty, trim, or_else, Bool-cases, true, false, inl, inr, Text,
  List, [], ◌∷◌, Map, get, get-put, get-delete, text_eq, text_eq_refl, Option, none, arith,
}
use ferrum_proxy.Processes.{
  Kind, stdout, stderr, ProcessManager, log_buffer_key, add_lines, add_log, flush_one,
  flush_buffered_logs, is_running, Child, refused, child, start, stop, on_exit, stop_each, stop_all,
}

add_lines-processes :
    (now : ℕ) (id : Text) (kind : Kind) (lines : List Text) (m : ProcessManager)
    → (add_lines now id kind lines m).0.processes ≡ m.processes
unfolding add_lines add_log
add_lines-processes now id kind [] m = refl
add_lines-processes now id kind (line ∷ lines) m = elim (Bool-cases (is_empty (trim line))) [
  | inl blank ↦ rw blank (add_lines-processes now id kind lines m)
  | inr text ↦ rw text (add_lines-processes now id kind lines (add_log now id kind line m).0)
]

flush-processes :
    (now : ℕ) (id : Text) (m : ProcessManager)
    → (flush_buffered_logs now id m).0.processes ≡ m.processes
unfolding flush_buffered_logs flush_one
flush-processes now id m =
    let first = (flush_one now id stdout m).0 in
    rw
      (
        add_lines-processes now id stderr
            (or_else (get (log_buffer_key id stderr) first.log_buffers) [] ∷ []) first,
        add_lines-processes now id stdout
            (or_else (get (log_buffer_key id stdout) m.log_buffers) [] ∷ []) m,
      )
      refl

-- The block of starts, which only an update sets and lifts
add_lines-starts_blocked :
    (now : ℕ) (id : Text) (kind : Kind) (lines : List Text) (m : ProcessManager)
    → (add_lines now id kind lines m).0.starts_blocked ≡ m.starts_blocked
unfolding add_lines add_log
add_lines-starts_blocked now id kind [] m = refl
add_lines-starts_blocked now id kind (line ∷ lines) m = elim (Bool-cases (is_empty (trim line))) [
  | inl blank ↦ rw blank (add_lines-starts_blocked now id kind lines m)
  | inr text ↦ rw text (add_lines-starts_blocked now id kind lines (add_log now id kind line m).0)
]

pub on_exit-starts_blocked :
    (now : ℕ) (id message : Text) (m : ProcessManager)
    → (on_exit now id message m).0.starts_blocked ≡ m.starts_blocked
unfolding on_exit add_log flush_buffered_logs flush_one
on_exit-starts_blocked now id message m =
    let first = (flush_one now id stdout m).0 in
    rw
      (
        add_lines-starts_blocked now id stderr
            (or_else (get (log_buffer_key id stderr) first.log_buffers) [] ∷ []) first,
        add_lines-starts_blocked now id stdout
            (or_else (get (log_buffer_key id stdout) m.log_buffers) [] ∷ []) m,
      )
      refl

pub on_exit-is_running :
    (now : ℕ) (id message : Text) (m : ProcessManager) (j : Text)
    → is_running j (on_exit now id message m).0 ≡ (if text_eq id j then false else is_running j m)
unfolding on_exit add_log
on_exit-is_running now id message m j =
    let kept = flush-processes now id m in
    ground (arith, kept, get-delete id j (flush_buffered_logs now id m).0.processes)

-- A start ends nothing.
pub start-kept :
    (now : ℕ) (id : Text) (c : Child) (message : Text) (m : ProcessManager) (j : Text)
    → is_running j m ≡ true
    → is_running j (start now id c message m).0 ≡ true
unfolding start add_log
start-kept now id refused message m j e = ground (arith, e)
start-kept now id (child pid) message m j e = ground (arith, e, get-put id j pid m.processes)

-- A start that throws nothing leaves the instance running.
pub start-none :
    (now : ℕ) (id : Text) (c : Child) (message : Text) (m : ProcessManager)
    → (start now id c message m).1 ≡ none
    → is_running id (start now id c message m).0 ≡ true
unfolding start add_log
start-none now id refused message m e = ground (arith, e)
start-none now id (child pid) message m e =
    ground (arith, e, get-put id id pid m.processes, text_eq_refl id)

pub stop-is_running :
    (now : ℕ) (id message : Text) (m : ProcessManager) (j : Text)
    → is_running j (stop now id message m).0 ≡ is_running j m
unfolding stop add_log
stop-is_running now id message m j = ground arith

stop_each-is_running :
    (now : ℕ) (message : Text) (children : Map (Option ℕ)) (m : ProcessManager) (j : Text)
    → is_running j (stop_each now message children m) ≡ is_running j m
unfolding stop_each
stop_each-is_running now message [] m j = refl
stop_each-is_running now message ((id, pid) ∷ children) m j =
    rw (stop_each-is_running now message children (stop now id message m).0 j)
      (stop-is_running now id message m j)

pub stop_all-is_running :
    (now : ℕ) (message : Text) (m : ProcessManager) (j : Text)
    → is_running j (stop_all now message m) ≡ is_running j m
unfolding stop_all
stop_all-is_running now message m j = stop_each-is_running now message m.processes m j

pub stop-starts_blocked :
    (now : ℕ) (id message : Text) (m : ProcessManager)
    → (stop now id message m).0.starts_blocked ≡ m.starts_blocked
unfolding stop add_log
stop-starts_blocked now id message m = ground arith

stop_each-starts_blocked :
    (now : ℕ) (message : Text) (children : Map (Option ℕ)) (m : ProcessManager)
    → (stop_each now message children m).starts_blocked ≡ m.starts_blocked
unfolding stop_each
stop_each-starts_blocked now message [] m = refl
stop_each-starts_blocked now message ((id, pid) ∷ children) m =
    rw (stop_each-starts_blocked now message children (stop now id message m).0)
      (stop-starts_blocked now id message m)

pub stop_all-starts_blocked :
    (now : ℕ) (message : Text) (m : ProcessManager)
    → (stop_all now message m).starts_blocked ≡ m.starts_blocked
unfolding stop_all
stop_all-starts_blocked now message m = stop_each-starts_blocked now message m.processes m
