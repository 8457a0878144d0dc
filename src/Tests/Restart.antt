-- ===== src/Tests/Restart.antt =====
-- FerrumGUI/src/index.ts: the automatic restart at concrete inputs.
use ferrum_proxy.Base.{◌≡◌, refl, codes, get, text_eq, true, false, some, List, [], ◌∷◌, arith, ℕ}
use ferrum_proxy.Restart.{State, scheduled, gave_up}
use ferrum_proxy.Restart.Loops
use ferrum_proxy.Restart.Loops.{cycles, same, backoffs, cycles-scheduled, exits-backoffs}
use ferrum_proxy.Restart.Stops.{Event, exits, fires}

abbrev idle : State
idle = record { restart_attempts = []; intentional_stops = codes "b" ∷ [] }

abbrev times : List ℕ
times = 1000 ∷ 2000 ∷ 3000 ∷ 4000 ∷ 5000 ∷ 6000 ∷ []

cycles-scheduled_example : cycles times (codes "a") idle ≡ same (scheduled 1000) times
unfolding get text_eq
cycles-scheduled_example = cycles-scheduled times (codes "a") idle refl refl

backoffs_test :
    backoffs 1 (2 ∷ 3 ∷ 4 ∷ 5 ∷ 6 ∷ [])
    ≡ scheduled 2000 ∷ scheduled 3000 ∷ scheduled 4000 ∷ scheduled 5000 ∷ gave_up 5 ∷ []
backoffs_test = refl

exits-backoffs_example :
    Loops.exits (500 ∷ times) (codes "a") idle ≡ scheduled 1000 ∷ backoffs 1 times
unfolding get text_eq
exits-backoffs_example = exits-backoffs 500 times (codes "a") idle refl refl (
  (omega arith, omega arith),
  (
    (omega arith, omega arith),
    (
      (omega arith, omega arith),
      ((omega arith, omega arith), ((omega arith, omega arith), ((omega arith, omega arith), tt))),
    ),
  ),
)

abbrev four : State
four = record {
  restart_attempts = (codes "a", record { count = 4; first_attempt_at = 0 }) ∷ [];
  intentional_stops = [];
}

-- Another proxy exits and its timer fires before the exit of the one that is stopped.
abbrev others : List Event
others =
    exits 8 false (some true) (codes "b")
    ∷ fires false (record { exists = true; running = false; started = true }) (codes "b")
    ∷ []
