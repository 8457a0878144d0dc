-- ===== src/Restart/Limits.antt =====
-- FerrumGUI/src/index.ts: what every step of the automatic restart keeps to.
use ferrum_proxy.Base.{
  ℕ, ◌+◌, ◌≤◌, ◌≡◌, refl, leb, or_else, Bool, true, false, Text, Map, get, Entries, Entries-put,
  Entries-get, Option-cases, Bool-cases, leb_iff, inl, inr, text_eq_refl, Option, List, [], ◌∷◌,
  ◌++◌, arith,
}
use ferrum_proxy.Restart.{
  Attempts, State, Decision, skipped, gave_up, scheduled, has_stop, remove_stop,
  mark_intentional_stop, attempt, window, on_exit,
}

abbrev pub IsLimited : Attempts → Type 0
IsLimited info = info.count ≤ 5

-- What the listener of exits may decide: a delay of one to five seconds, or to give up after five
-- attempts
abbrev pub IsAllowed : Decision → Type 0
IsAllowed (scheduled ms) = (1000 ≤ ms) × (ms ≤ 5000)
IsAllowed (gave_up n) = n ≡ 5
IsAllowed d = Unit

attempt-IsAllowed :
    (id : Text) (info : Attempts) (s : State)
    → IsLimited info
    → Entries IsLimited s.restart_attempts
    → IsAllowed (attempt id info s).1 × Entries IsLimited (attempt id info s).0.restart_attempts
attempt-IsAllowed id info s l h = elim (Bool-cases (leb 5 info.count)) [
  | inl over ↦
      let most : 5 ≤ info.count = (leb_iff 5 info.count).0 over in
      rw over (omega (arith, l, most), h)
  | inr under ↦
      let least : info.count + 1 ≤ 5 = ground (arith, under) in
      rw under (
        (omega arith, omega (arith, least)),
        Entries-put IsLimited id (record info { count = info.count + 1 }) s.restart_attempts h
            least,
      )
]

window-IsLimited : (now : ℕ) (info : Attempts) → IsLimited info → IsLimited (window now info)
window-IsLimited now info h = ground (arith, h)

or_else-IsLimited :
    (now : ℕ) (id : Text) (m : Map Attempts)
    → Entries IsLimited m
    → IsLimited (or_else (get id m) (record { count = 0; first_attempt_at = now }))
or_else-IsLimited now id m h = elim (Option-cases (get id m)) [
  | inl none_yet ↦ rw none_yet (omega arith)
  | inr (info, entry) ↦ rw entry (Entries-get IsLimited id m h entry)
]

-- If no more than five attempts are on record for any proxy, the listener of exits restarts after
-- one to five seconds or gives up after exactly five attempts, and afterwards no more than five
-- attempts are on record.
pub on_exit-IsAllowed :
    (now : ℕ) (gui_updating : Bool) (auto_restart : Option Bool) (id : Text) (s : State)
    → Entries IsLimited s.restart_attempts
    → IsAllowed (on_exit now gui_updating auto_restart id s).1
      × Entries IsLimited (on_exit now gui_updating auto_restart id s).0.restart_attempts
unfolding on_exit
on_exit-IsAllowed now gui_updating auto_restart id s h = ground (
  arith,
  h,
  attempt-IsAllowed id
      (window now
        (or_else (get id s.restart_attempts) (record { count = 0; first_attempt_at = now })))
      s (window-IsLimited now _ (or_else-IsLimited now id s.restart_attempts h)) h,
)

has_stop-append : (id : Text) (ids : List Text) → has_stop id (ids ++ id ∷ []) ≡ true
has_stop-append id [] = ground (arith, text_eq_refl id)
has_stop-append id (i ∷ ids) = ground (arith, has_stop-append id ids)

pub marked :
    (id : Text) (s : State) → has_stop id (mark_intentional_stop id s).intentional_stops ≡ true
unfolding mark_intentional_stop
marked id s = ground (arith, has_stop-append id s.intentional_stops)

has_stop-remove_stop : (id : Text) (ids : List Text) → has_stop id (remove_stop id ids) ≡ false
unfolding remove_stop
has_stop-remove_stop id [] = refl
has_stop-remove_stop id (i ∷ ids) = ground (arith, has_stop-remove_stop id ids)

-- The exit right after a stop
pub on_exit-marked :
    (now : ℕ) (gui_updating : Bool) (auto_restart : Option Bool) (id : Text) (s : State)
    → has_stop id s.intentional_stops ≡ true
    → ((on_exit now gui_updating auto_restart id s).1 ≡ skipped)
      × (has_stop id (on_exit now gui_updating auto_restart id s).0.intentional_stops ≡ false)
unfolding on_exit
on_exit-marked now gui_updating auto_restart id s e =
    ground (arith, e, has_stop-remove_stop id s.intentional_stops)

pub on_exit-stopped :
    (now : ℕ) (gui_updating : Bool) (auto_restart : Option Bool) (id : Text) (s : State)
    → ((on_exit now gui_updating auto_restart id (mark_intentional_stop id s)).1 ≡ skipped)
      × (has_stop id
            (on_exit now gui_updating auto_restart id
              (mark_intentional_stop id s)).0.intentional_stops
          ≡ false)
on_exit-stopped now gui_updating auto_restart id s =
    on_exit-marked now gui_updating auto_restart id (mark_intentional_stop id s) (marked id s)
