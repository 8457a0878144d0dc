-- ===== src/Restart.antt =====
-- FerrumGUI/src/index.ts: the automatic restart of a proxy whose process exits. What the listener
-- finds of the instance, of the running processes and of the start is an argument of each step.
pub mod Loops
pub mod Limits
pub mod Stops
use ferrum_proxy.Base.{
  ℕ, ◌+◌, ◌-◌, ◌*◌, ltb, leb, if◌then◌else◌, not, any, or_else, Bool, true, false, ◌&&◌, ◌||◌, Text,
  text_eq, Map, get, put, delete, Option, none, some, List, [], ◌∷◌, ◌++◌,
}

pub record Attempts : Type 0 where
  pub count : ℕ
  pub first_attempt_at : ℕ

-- `restartAttempts`, and the set `intentionalStops`
pub record State : Type 0 where
  pub restart_attempts : Map Attempts
  pub intentional_stops : List Text

abbrev pub has_stop : Text → List Text → Bool
has_stop id ids = any (λ i. text_eq i id) ids

unfoldable pub remove_stop : Text → List Text → List Text
remove_stop id [] = []
remove_stop id (i ∷ ids) = if text_eq i id then remove_stop id ids else i ∷ remove_stop id ids

-- `markIntentionalStop`
unfoldable pub mark_intentional_stop : Text → State → State
mark_intentional_stop id s = record {
  restart_attempts = delete id s.restart_attempts;
  intentional_stops =
      if has_stop id s.intentional_stops
      then s.intentional_stops
      else s.intentional_stops ++ id ∷ [];
}

-- What the listener of `exit` decides: nothing, to give up, or to restart after a delay
pub data Decision : Type 0 where
  skipped ignored : Decision
  gave_up : ℕ → Decision
  scheduled : ℕ → Decision

abbrev pub window : ℕ → Attempts → Attempts
window now info =
    if ltb 60000 (now - info.first_attempt_at)
    then record { count = 0; first_attempt_at = now }
    else info

abbrev pub attempt : Text → Attempts → State → State × Decision
attempt id info s = if leb 5 info.count then (s, gave_up info.count) else (
  record s {
    restart_attempts = put id (record info { count = info.count + 1 }) s.restart_attempts;
  },
  scheduled (1000 * (info.count + 1)),
)

-- The listener of `exit`, for an instance that is not there, or whether it restarts by itself
unfoldable pub on_exit : ℕ → Bool → Option Bool → Text → State → State × Decision
unfolding remove_stop
on_exit now gui_updating auto_restart id s =
    if has_stop id s.intentional_stops
    then (record s { intentional_stops = remove_stop id s.intentional_stops }, skipped)
    else if not gui_updating && or_else auto_restart false
    then attempt id
        (window now
          (or_else (get id s.restart_attempts) (record { count = 0; first_attempt_at = now })))
        s
    else (s, ignored)

-- What the timer finds: whether the instance is still there, whether it runs already, and whether
-- all of the start succeeds
pub record Found : Type 0 where
  pub exists : Bool
  pub running : Bool
  pub started : Bool

-- The timer of a restart
unfoldable pub on_timer : Bool → Found → Text → State → State
on_timer gui_updating found id s =
    if gui_updating
    then s
    else if not found.exists
    then s
    else if found.running || found.started
    then record s { restart_attempts = delete id s.restart_attempts }
    else s
