-- ===== src/Gui/Init/Stale.antt =====
-- FerrumGUI/src/index.ts: the loop of `init` that clears stale process ids clears them all.
use mathlib.Core.Bool.{false≢true}
use mathlib.Core.Option.{none-ne-some}
use ferrum_proxy.Base.{
  ℕ, ◌≡◌, ◌∙◌, refl, sym, ap, subst, any, is_some, Bool-cases, Bool, true, false, inl, inr, Text,
  text_eq, text_eq_iff, text_eq_refl, Option, none, some, List, [], ◌∷◌, All, arith,
}
use ferrum_proxy.Services
use ferrum_proxy.Services.{ServiceManager, get_all, get_by_id}
use ferrum_proxy.Services.Instances.{Instance, find_by_id, Fresh, HasDistinctIds}
use ferrum_proxy.Gui.{Failure}
use ferrum_proxy.Gui.Pids.{pid_in, pid_of, set_pid-pid_of}
use ferrum_proxy.Gui.Init.{Boot, saved_then, is_stale, clear_each}

-- Each process id in the registry is stale.
abbrev pub IsDead : Boot → ServiceManager → Type 0
IsDead b m = (j : Text) → is_some (pid_of j m) ≡ true → is_stale b.is_alive (pid_of j m) ≡ true

-- The registry has the process ids that the instances of a list have.
abbrev Linked : ServiceManager → Instance → Type 0
Linked m i = pid_of i.id m ≡ i.pid

-- Whoever has a process id is on the list.
abbrev Pending : List Instance → ServiceManager → Type 0
Pending is m = (j : Text) → is_some (pid_of j m) ≡ true → any (λ i. text_eq i.id j) is ≡ true

Pids : List Instance → Instance → Type 0
Pids is k = pid_in (find_by_id k.id is) ≡ k.pid

Pids-next :
    (i : Instance) (is ks : List Instance)
    → Fresh i.id ks
    → All (Pids is) ks
    → All (Pids (i ∷ is)) ks
unfolding find_by_id Pids
Pids-next i is [] f h = tt
Pids-next i is (k ∷ ks) (n, f) (e, h) =
    (ground (arith, n, e, text_eq_iff i.id k.id), Pids-next i is ks f h)

HasDistinctIds-Pids : (is : List Instance) → HasDistinctIds is → All (Pids is) is
unfolding find_by_id Pids
HasDistinctIds-Pids [] d = tt
HasDistinctIds-Pids (i ∷ is) (f, d) =
    (ground (arith, text_eq_refl i.id), Pids-next i is is f (HasDistinctIds-Pids is d))

pub get_all-Linked : (m : ServiceManager) → HasDistinctIds (get_all m) → All (Linked m) (get_all m)
unfolding get_by_id Pids
get_all-Linked m d = HasDistinctIds-Pids (get_all m) d

found_on_list :
    (j : Text) (is : List Instance)
    → is_some (pid_in (find_by_id j is)) ≡ true
    → any (λ i. text_eq i.id j) is ≡ true
unfolding find_by_id
found_on_list j [] e = e
found_on_list j (i ∷ is) e = ground (arith, e, found_on_list j is)

pub get_all-Pending : (m : ServiceManager) → Pending (get_all m) m
unfolding get_by_id
get_all-Pending m j e = found_on_list j (get_all m) e

module _ (now : ℕ) (ok : Bool) (i : Instance) (m : ServiceManager) where
  cleared : ServiceManager
  cleared = (Services.set_pid now ok i.id none m).0

  cleared-Linked :
      (is : List Instance) → Fresh i.id is → All (Linked m) is → All (Linked cleared) is
  unfolding cleared
  cleared-Linked [] f h = tt
  cleared-Linked (k ∷ is) (n, f) (e, h) = (
    ground (arith, n, e, text_eq_iff i.id k.id, set_pid-pid_of now ok i.id none m k.id),
    cleared-Linked is f h,
  )

  cleared-IsDead : (b : Boot) → IsDead b m → IsDead b cleared
  unfolding cleared
  cleared-IsDead b d j e = ground (arith, e, set_pid-pid_of now ok i.id none m j, d j)

  cleared-Pending : (is : List Instance) → Pending (i ∷ is) m → Pending is cleared
  unfolding cleared
  cleared-Pending is p j e =
      ground (arith, e, set_pid-pid_of now ok i.id none m j, p j, text_eq_iff i.id j)

-- An instance whose process id is not stale has none.
kept-Pending :
    (b : Boot) (i : Instance) (is : List Instance) (m : ServiceManager)
    → is_stale b.is_alive i.pid ≡ false
    → Linked m i
    → IsDead b m
    → Pending (i ∷ is) m
    → Pending is m
kept-Pending b i is m fresh l d p j e = elim (Bool-cases (text_eq i.id j)) [
  | inl same ↦
      let of_i : pid_of j m ≡ i.pid =
        subst (λ k. pid_of k m ≡ i.pid) ((text_eq_iff i.id j).0 same) l in
      absurd (false≢true (sym fresh ∙ (ap (is_stale b.is_alive) (sym of_i) ∙ d j e)))
  | inr other ↦ ground (arith, other, p j e)
]

saved_then-none :
    (o : Services.Outcome) (rest : ServiceManager → ServiceManager × Option Failure)
    → (saved_then o rest).1 ≡ none
    → saved_then o rest ≡ rest o.0
saved_then-none (m, none) rest e = refl
saved_then-none (m, some x) rest e = absurd (none-ne-some _ (sym e))

-- If the loop throws nothing, then no instance has a process id after it.
pub clear_each-none :
    (b : Boot) (is : List Instance) (m : ServiceManager)
    → HasDistinctIds is
    → All (Linked m) is
    → IsDead b m
    → Pending is m
    → (clear_each b is m).1 ≡ none
    → (j : Text) → is_some (pid_of j (clear_each b is m).0) ≡ false
unfolding clear_each cleared
clear_each-none b [] m d l dead p e j = ground (arith, p j)
clear_each-none b (i ∷ is) m (f, d) (l, ls) dead p e j =
    elim (Bool-cases (is_stale b.is_alive i.pid)) [
      | inl stale ↦
          let o = Services.set_pid b.now (b.writes i.id) i.id none m in
          let m' = cleared b.now (b.writes i.id) i m in
          let here : clear_each b (i ∷ is) m ≡ saved_then o (clear_each b is) =
            ground (arith, stale) in
          let next : clear_each b (i ∷ is) m ≡ clear_each b is m' =
            here ∙ saved_then-none o (clear_each b is) (ap (λ r. r.1) (sym here) ∙ e) in
          ap (λ r. is_some (pid_of j r.0)) next
          ∙ clear_each-none b is m' d (cleared-Linked b.now (b.writes i.id) i m is f ls)
              (cleared-IsDead b.now (b.writes i.id) i m b dead)
              (cleared-Pending b.now (b.writes i.id) i m is p) (ap (λ r. r.1) (sym next) ∙ e) j
      | inr fresh ↦
          let next : clear_each b (i ∷ is) m ≡ clear_each b is m = ground (arith, fresh) in
          ap (λ r. is_some (pid_of j r.0)) next
          ∙ clear_each-none b is m d ls dead (kept-Pending b i is m fresh l dead p)
              (ap (λ r. r.1) (sym next) ∙ e) j
    ]
