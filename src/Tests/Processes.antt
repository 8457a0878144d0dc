-- ===== src/Tests/Processes.antt =====
-- FerrumGUI/src/processManager.ts at concrete inputs.
use ferrum_proxy.Base.{
  ◌≡◌, refl, codes, get, put, delete, text_eq, trim, none, some, List, [], ◌∷◌, ◌++◌,
}
use ferrum_proxy.Processes.Lines.{split_lines, split_from, chop}
use ferrum_proxy.Processes.{
  no_pid, already_running, stdout, log_buffer_key, capped, add_log, add_lines, add_buffered_logs,
  flush_one, start, child, refused, spawn_failed, on_data,
}
use ferrum_proxy.Processes.Stream.{
  Chunk, emitted, messages, clean, all_lines, joined, emitted-clean,
}
use ferrum_proxy.Processes.Running.{
  IsSound, starts, writes, exits, run, created, created-run-IsSound,
}

processes : Unit {0}
unfolding get put delete text_eq trim split_lines split_from chop log_buffer_key capped add_log
    add_lines add_buffered_logs flush_one start on_data
processes = tt

-- A line that is cut within its end, and one that does not end.
abbrev chunks : List Chunk
chunks =
    record { time = 1; bytes = codes "on" ++ 101 ∷ 13 ∷ [] }
    ∷ record { time = 2; bytes = 10 ∷ 32 ∷ 10 ∷ codes "two" }
    ∷ []

emitted-chunks :
    messages (emitted (λ bytes. bytes) (codes "a") stdout 3 chunks created)
    ≡ codes "one" ∷ codes "two" ∷ []
unfolding processes
emitted-chunks = refl

emitted-clean_example :
    messages (emitted (λ bytes. bytes) (codes "a") stdout 3 chunks created)
    ≡ clean (all_lines (split_lines (joined (λ bytes. bytes) (codes "a") stdout chunks)))
unfolding get
emitted-clean_example = emitted-clean (λ bytes. bytes) (codes "a") stdout 3 chunks created refl

created-run-IsSound_example : IsSound (
    run
      (starts 1 (codes "a") (child (some 7)) (codes "m")
        ∷ writes 2 (codes "a") stdout (codes "x")
        ∷ exits 3 (codes "a") (codes "m")
        ∷ [])
      created)
created-run-IsSound_example = created-run-IsSound (
    starts 1 (codes "a") (child (some 7)) (codes "m")
    ∷ writes 2 (codes "a") stdout (codes "x")
    ∷ exits 3 (codes "a") (codes "m")
    ∷ [])

-- Where `spawn` throws, nothing is left.
spawn_refused : start 1 (codes "a") refused (codes "m") created ≡ (created, some spawn_failed)
unfolding processes
spawn_refused = refl

-- A start that fails for want of a process id stands in the way of the next.
failed_start :
    ((start 1 (codes "a") (child none) (codes "m") created).1 ≡ some no_pid)
    × ((start 2
          (codes "a")
          (child (some 9))
          (codes "m")
          (start 1 (codes "a") (child none) (codes "m") created).0).1
        ≡ some already_running)
unfolding processes
failed_start = (refl, refl)
