-- ===== src/Restart/Loops.antt =====
-- FerrumGUI/src/index.ts: what the automatic restart does of a proxy that exits again and again.
use ferrum_proxy.Base.{
  ℕ, ◌+◌, ◌*◌, ◌≤◌, ◌≡◌, refl, leb, if◌then◌else◌, true, false, Text, get, put, get-put, get-delete,
  text_eq_refl, none, some, List, [], ◌∷◌, All, arith, Bool-cases, inl, inr,
}
use ferrum_proxy.Restart.{
  State, Decision, gave_up, scheduled, has_stop, attempt, on_exit, Found, on_timer,
}

abbrev pub found_started : Found
found_started = record { exists = true; running = false; started = true }

-- An exit, and the restart that follows.
abbrev pub cycle : ℕ → Text → State → State × Decision
cycle now id s = (
  on_timer false found_started id (on_exit now false (some true) id s).0,
  (on_exit now false (some true) id s).1,
)

-- The decisions for a proxy that exits at these times, and is restarted after each
abbrev pub cycles : List ℕ → Text → State → List Decision
cycles [] id s = []
cycles (now ∷ times) id s = (cycle now id s).1 ∷ cycles times id (cycle now id s).0

abbrev pub same {ℓ} : {A : Type ℓ} → A → List ℕ → List A
same d [] = []
same d (t ∷ times) = d ∷ same d times

cycle-scheduled :
    (now : ℕ) (id : Text) (s : State)
    → has_stop id s.intentional_stops ≡ false
    → get id s.restart_attempts ≡ none
    → ((cycle now id s).1 ≡ scheduled 1000)
      × (((cycle now id s).0.intentional_stops ≡ s.intentional_stops)
          × (get id (cycle now id s).0.restart_attempts ≡ none))
unfolding on_exit on_timer
cycle-scheduled now id s free fresh =
    let deleted =
      get-delete id id (put id (record { count = 1; first_attempt_at = now }) s.restart_attempts) in
    ground (arith, free, fresh, text_eq_refl id, deleted)

-- A proxy that exits at any times whatever, and each time is restarted with success, is restarted
-- after a second each time: no number of exits makes the listener wait longer or give up.
pub cycles-scheduled :
    (times : List ℕ) (id : Text) (s : State)
    → has_stop id s.intentional_stops ≡ false
    → get id s.restart_attempts ≡ none
    → cycles times id s ≡ same (scheduled 1000) times
cycles-scheduled [] id s free fresh = refl
cycles-scheduled (now ∷ times) id s free fresh =
    let (decision, (stops, none_left)) = cycle-scheduled now id s free fresh in
    rw (decision, cycles-scheduled times id (cycle now id s).0 (rw stops free) none_left) refl

-- The decisions for a proxy that exits at these times, with no restart that succeeds between
abbrev pub exits : List ℕ → Text → State → List Decision
exits [] id s = []
exits (now ∷ times) id s =
    (on_exit now false (some true) id s).1 ∷ exits times id (on_exit now false (some true) id s).0

-- The decisions after `n` attempts: longer delays up to the fifth, and then no more
abbrev pub backoffs : ℕ → List ℕ → List Decision
backoffs n [] = []
backoffs n (t ∷ times) =
    if leb 5 n
    then gave_up n ∷ backoffs n times
    else scheduled (1000 * (n + 1)) ∷ backoffs (n + 1) times

-- Times up to a minute after the first
abbrev pub IsIn : ℕ → ℕ → Type 0
IsIn start now = (start ≤ now) × (now ≤ start + 60000)

exit-counted :
    (start now n : ℕ) (id : Text) (s : State)
    → has_stop id s.intentional_stops ≡ false
    → get id s.restart_attempts ≡ some (record { count = n; first_attempt_at = start })
    → IsIn start now
    → on_exit now false (some true) id s
      ≡ attempt id (record { count = n; first_attempt_at = start }) s
unfolding on_exit
exit-counted start now n id s free entry (late, early) = ground (arith, free, entry, late, early)

exits-counted :
    (start n : ℕ) (times : List ℕ) (id : Text) (s : State)
    → has_stop id s.intentional_stops ≡ false
    → get id s.restart_attempts ≡ some (record { count = n; first_attempt_at = start })
    → All (IsIn start) times
    → exits times id s ≡ backoffs n times
exits-counted start n [] id s free entry h = refl
exits-counted start n (now ∷ times) id s free entry (h, hs) = elim (Bool-cases (leb 5 n)) [
  | inl over ↦
      rw
        (
          exit-counted start now n id s free entry h,
          over,
          exits-counted start n times id s free entry hs,
        )
        refl
  | inr under ↦
      let next : State = record s {
        restart_attempts =
            put id (record { count = n + 1; first_attempt_at = start }) s.restart_attempts;
      } in
      rw
        (
          exit-counted start now n id s free entry h,
          under,
          exits-counted start (n + 1) times id next free (rw (get-put, text_eq_refl) refl) hs,
        )
        refl
]

first-exit :
    (now : ℕ) (id : Text) (s : State)
    → has_stop id s.intentional_stops ≡ false
    → get id s.restart_attempts ≡ none
    → on_exit now false (some true) id s
      ≡ attempt id (record { count = 0; first_attempt_at = now }) s
unfolding on_exit
first-exit now id s free fresh = ground (arith, free, fresh)

-- A proxy with no attempt on record that exits within a minute again and again, with no restart that
-- succeeds between, is scheduled after one to five seconds in turn, and then given up.
pub exits-backoffs :
    (start : ℕ) (times : List ℕ) (id : Text) (s : State)
    → has_stop id s.intentional_stops ≡ false
    → get id s.restart_attempts ≡ none
    → All (IsIn start) times
    → exits (start ∷ times) id s ≡ scheduled 1000 ∷ backoffs 1 times
exits-backoffs start times id s free fresh h =
    let next : State = record s {
      restart_attempts = put id (record { count = 1; first_attempt_at = start }) s.restart_attempts;
    } in
    rw (first-exit start id s free fresh)
      (rw (exits-counted start 1 times id next free (rw (get-put, text_eq_refl) refl) h) refl)
