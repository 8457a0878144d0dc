-- ===== src/Processes/Stream.antt =====
-- FerrumGUI/src/processManager.ts: the messages that come of the output of a process.
use ferrum_proxy.Base.{
  ℕ, ◌≡◌, refl, ◌∙◌, sym, ap, if◌then◌else◌, is_empty, trim, Bool-cases, inl, inr, Text, Bytes,
  List, [], ◌∷◌, ◌++◌, append_assoc, get, get-put, text_eq_refl, or_else, none,
}
use ferrum_proxy.Processes.Lines.{
  split_from, split_lines, IsRest, split_from-IsRest, split_lines-append, split_from-append,
}
use ferrum_proxy.Processes.{
  Kind, LogEntry, ProcessManager, log_buffer_key, add_lines, add_log, add_buffered_logs, on_data,
  flush_one,
}

-- The messages that are not blank, trimmed
abbrev pub clean : List Text → List Text
clean [] = []
clean (line ∷ lines) = if is_empty (trim line) then clean lines else trim line ∷ clean lines

clean-append : (a b : List Text) → clean (a ++ b) ≡ clean a ++ clean b
clean-append [] b = refl
clean-append (line ∷ a) b = elim (Bool-cases (is_empty (trim line))) [
  | inl blank ↦ rw (blank, clean-append a b) refl
  | inr text ↦ rw (text, clean-append a b) refl
]

abbrev pub messages : List LogEntry → List Text
messages [] = []
messages (e ∷ es) = e.message ∷ messages es

messages-append : (a b : List LogEntry) → messages (a ++ b) ≡ messages a ++ messages b
messages-append [] b = refl
messages-append (e ∷ a) b = rw (messages-append a b) refl

-- What comes from a process, chunk by chunk, each with its time
pub record Chunk : Type 0 where
  pub time : ℕ
  pub bytes : Bytes

abbrev pub buffer : Text → Kind → ProcessManager → Text
buffer id kind m = or_else (get (log_buffer_key id kind) m.log_buffers) []

-- The lines of a text, with what follows the last of them
abbrev pub all_lines : List Text × Text → List Text
all_lines (lines, trailing) = lines ++ trailing ∷ []

module _ (to_string : Bytes → Text) (id : Text) (kind : Kind) where
  -- The text of the chunks, each decoded by itself
  abbrev pub joined : List Chunk → Text
  joined [] = []
  joined (c ∷ cs) = to_string c.bytes ++ joined cs

  -- The entries that are emitted for the chunks of one stream, and at its end.
  abbrev pub emitted : ℕ → List Chunk → ProcessManager → List LogEntry
  emitted end [] m = (flush_one end id kind m).1
  emitted end (c ∷ cs) m =
      (on_data to_string c.time id kind c.bytes m).1
      ++ emitted end cs (on_data to_string c.time id kind c.bytes m).0

  add_lines-messages :
      (now : ℕ) (lines : List Text) (m : ProcessManager)
      → messages (add_lines now id kind lines m).1 ≡ clean lines
  unfolding add_lines add_log
  add_lines-messages now [] m = refl
  add_lines-messages now (line ∷ lines) m = elim (Bool-cases (is_empty (trim line))) [
    | inl blank ↦ rw (blank, add_lines-messages now lines m) refl
    | inr text ↦ rw (text, add_lines-messages now lines (add_log now id kind line m).0) refl
  ]

  add_lines-log_buffers :
      (now : ℕ) (lines : List Text) (m : ProcessManager)
      → (add_lines now id kind lines m).0.log_buffers ≡ m.log_buffers
  unfolding add_lines add_log
  add_lines-log_buffers now [] m = refl
  add_lines-log_buffers now (line ∷ lines) m = elim (Bool-cases (is_empty (trim line))) [
    | inl blank ↦ rw blank (add_lines-log_buffers now lines m)
    | inr text ↦ rw text (add_lines-log_buffers now lines (add_log now id kind line m).0)
  ]

  add-buffer :
      (now : ℕ) (chunk : Text) (m : ProcessManager)
      → IsRest (buffer id kind m)
      → buffer id kind (add_buffered_logs now id kind chunk m).0
        ≡ (split_from (buffer id kind m) chunk).1
  unfolding add_buffered_logs
  add-buffer now chunk m h =
      rw (add_lines-log_buffers, get-put, text_eq_refl, split_lines-append _ chunk h) refl

  add-messages :
      (now : ℕ) (chunk : Text) (m : ProcessManager)
      → IsRest (buffer id kind m)
      → messages (add_buffered_logs now id kind chunk m).1
        ≡ clean (split_from (buffer id kind m) chunk).0
  unfolding add_buffered_logs
  add-messages now chunk m h = rw (add_lines-messages, split_lines-append _ chunk h) refl

  emitted-messages :
      (end : ℕ) (cs : List Chunk) (m : ProcessManager)
      → IsRest (buffer id kind m)
      → messages (emitted end cs m) ≡ clean (all_lines (split_from (buffer id kind m) (joined cs)))
  unfolding flush_one split_from on_data
  emitted-messages end [] m h = add_lines-messages end (buffer id kind m ∷ []) m
  emitted-messages end (c ∷ cs) m h =
      let next = (on_data to_string c.time id kind c.bytes m).0 in
      let cut = split_from (buffer id kind m) (to_string c.bytes) in
      let now_buffer = add-buffer c.time (to_string c.bytes) m h in
      let ih =
        emitted-messages end cs next (rw now_buffer (split_from-IsRest _ (to_string c.bytes) h)) in
      messages-append _ (emitted end cs next)
      ∙ rw
          (
            add-messages c.time (to_string c.bytes) m h,
            ih,
            now_buffer,
            split_from-append (buffer id kind m) (to_string c.bytes) (joined cs),
          )
          (sym (clean-append cut.0 (all_lines (split_from cut.1 (joined cs))))
            ∙ ap clean (sym (append_assoc cut.0 _ _)))

  -- However many chunks the output of a stream comes in, and whenever they come, the messages that
  -- are emitted for it, from an empty buffer to the flush at its end, are the lines of the text that
  -- the chunks make, each decoded by itself: trimmed, without those that are blank, and with what
  -- follows the last end of line. A line, or its end, may be cut between two chunks.
  pub emitted-clean :
      (end : ℕ) (cs : List Chunk) (m : ProcessManager)
      → get (log_buffer_key id kind) m.log_buffers ≡ none
      → messages (emitted end cs m) ≡ clean (all_lines (split_lines (joined cs)))
  unfolding split_lines split_from
  emitted-clean end cs m e =
      let empty : buffer id kind m ≡ [] = rw e refl in
      emitted-messages end cs m (rw empty refl) ∙ rw empty refl
