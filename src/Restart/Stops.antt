-- ===== src/Restart/Stops.antt =====
-- FerrumGUI/src/index.ts: which exits a mark of an intentional stop is spent on.
use ferrum_proxy.Base.{ℕ, ◌≡◌, Bool, false, Text, text_eq, List, [], ◌∷◌, Option}
use ferrum_proxy.Restart.{State, Found, mark_intentional_stop, on_exit, on_timer}

-- An exit, a timer that fires, or a stop
pub data Event : Type 0 where
  exits : ℕ → Bool → Option Bool → Text → Event
  fires : Bool → Found → Text → Event
  marks : Text → Event

unfoldable pub step : Event → State → State
unfolding on_exit on_timer mark_intentional_stop
step (exits now gui_updating auto_restart id) s = (on_exit now gui_updating auto_restart id s).0
step (fires gui_updating found id) s = on_timer gui_updating found id s
step (marks id) s = mark_intentional_stop id s

unfoldable pub run : List Event → State → State
unfolding step
run [] s = s
run (e ∷ es) s = run es (step e s)

-- No exit of the proxy `id`
abbrev pub IsOther : Text → Event → Type 0
IsOther id (exits now gui_updating auto_restart j) = text_eq j id ≡ false
IsOther id e = Unit
