-- ===== src/Base/Maps.antt =====
-- A JavaScript `Map` with text keys: its entries in the order of insertion.
use Prim.Native.Nat.{suc, ◌≤◌}
use mathlib.Core.Path.{◌≡◌, refl, ◌∙◌}
use mathlib.Core.Logic.{inl, inr}
use mathlib.Core.Bool.{Bool, false}
use mathlib.Core.Option.{Option, none, some}
use mathlib.Core.List.{List, [], ◌∷◌}
use native.Mathlib.Omega.{arith}
use ferrum_proxy.Base.Tests.{if◌then◌else◌, is_some, Bool-cases}
use ferrum_proxy.Base.Lists.{length}
use ferrum_proxy.Base.Texts.{Text, text_eq, text_eq_iff, text_eq_sym}

abbrev pub Map {ℓ} : Type ℓ → Type ℓ
Map V = List (Text × V)

module _ {ℓ} {V : Type ℓ} where
  -- `m.get(k)`
  unfoldable pub get : Text → Map V → Option V
  get k [] = none
  get k ((j, v) ∷ m) = if text_eq j k then some v else get k m

  -- `m.set(k, v)`: an old key keeps its place, a new one goes to the end.
  unfoldable pub put : Text → V → Map V → Map V
  put k v [] = (k, v) ∷ []
  put k v ((j, w) ∷ m) = if text_eq j k then (j, v) ∷ m else (j, w) ∷ put k v m

  -- `m.delete(k)`
  unfoldable pub delete : Text → Map V → Map V
  delete k [] = []
  delete k ((j, w) ∷ m) = if text_eq j k then delete k m else (j, w) ∷ delete k m

  -- `m.has(k)`
  abbrev pub has : Text → Map V → Bool
  has k m = is_some (get k m)

  pub get-put :
      (k j : Text) (v : V) (m : Map V)
      → get j (put k v m) ≡ (if text_eq k j then some v else get j m)
  unfolding get put
  get-put k j v [] = refl
  get-put k j v ((i, w) ∷ m) =
      ground (arith, text_eq_iff k j, text_eq_iff i k, text_eq_iff i j, get-put k j v m)

  pub get-delete :
      (k j : Text) (m : Map V) → get j (delete k m) ≡ (if text_eq k j then none else get j m)
  unfolding get delete
  get-delete k j [] = ground arith
  get-delete k j ((i, w) ∷ m) =
      ground (arith, text_eq_iff k j, text_eq_iff i k, text_eq_iff i j, get-delete k j m)

  -- A key that is not there is added, and one that is there is not.
  pub length-put :
      (k : Text) (v : V) (m : Map V)
      → length (put k v m) ≡ (if has k m then length m else suc (length m))
  unfolding get put
  length-put k v [] = refl
  length-put k v ((i, w) ∷ m) = ground (arith, length-put k v m)

  pub length-delete-le : (k : Text) (m : Map V) → length (delete k m) ≤ length m
  unfolding delete
  length-delete-le k [] = omega arith
  length-delete-le k ((i, w) ∷ m) = ground (arith, length-delete-le k m)

  -- What holds of every entry.
  abbrev pub Entries {κ} : (V → Type κ) → Map V → Type κ
  Entries P [] = Unit
  Entries P ((k, v) ∷ m) = P v × Entries P m

  pub Entries-put {κ} :
      (P : V → Type κ) (k : Text) (v : V) (m : Map V) → Entries P m → P v → Entries P (put k v m)
  unfolding put
  Entries-put P k v [] h p = (p, tt)
  Entries-put P k v ((j, w) ∷ m) (q, h) p = ground (arith, Entries-put P k v m h p)

  pub Entries-delete {κ} :
      (P : V → Type κ) (k : Text) (m : Map V) → Entries P m → Entries P (delete k m)
  unfolding delete
  Entries-delete P k [] h = tt
  Entries-delete P k ((j, w) ∷ m) (q, h) = ground (arith, Entries-delete P k m h)

  pub Entries-get {κ} :
      (P : V → Type κ) (k : Text) (m : Map V) {v : V} → Entries P m → get k m ≡ some v → P v
  unfolding get
  Entries-get P k [] h e = absurd (cc)
  Entries-get P k ((j, w) ∷ m) {v} (q, h) e = ground (arith, Entries-get P k m {v = v} h)

module _ {ℓ} {V : Type ℓ} where
  -- No key has two entries, as in every JavaScript `Map`.
  abbrev pub HasDistinctKeys : Map V → Type ℓ
  HasDistinctKeys [] = Unit
  HasDistinctKeys ((k, v) ∷ m) = (get k m ≡ none) × HasDistinctKeys m

  get-put_ne :
      (k j : Text) (v : V) (m : Map V)
      → text_eq k j ≡ false
      → get j m ≡ none
      → get j (put k v m) ≡ none
  get-put_ne k j v m n e = get-put k j v m ∙ rw n e

  pub HasDistinctKeys-put :
      (k : Text) (v : V) (m : Map V) → HasDistinctKeys m → HasDistinctKeys (put k v m)
  unfolding get put
  HasDistinctKeys-put k v [] h = (refl, tt)
  HasDistinctKeys-put k v ((j, w) ∷ m) (e, h) = elim (Bool-cases (text_eq j k)) [
    | inl same ↦ rw same (e, h)
    | inr other ↦
        rw other (get-put_ne k j v m (text_eq_sym j k other) e, HasDistinctKeys-put k v m h)
  ]

  pub get-delete-none : (k j : Text) (m : Map V) → get j m ≡ none → get j (delete k m) ≡ none
  get-delete-none k j m e = get-delete k j m ∙ ground (arith, e)

  pub HasDistinctKeys-delete :
      (k : Text) (m : Map V) → HasDistinctKeys m → HasDistinctKeys (delete k m)
  unfolding delete
  HasDistinctKeys-delete k [] h = tt
  HasDistinctKeys-delete k ((j, w) ∷ m) (e, h) =
      ground (arith, get-delete-none k j m e, HasDistinctKeys-delete k m h)

  delete-none : (k : Text) (m : Map V) → get k m ≡ none → delete k m ≡ m
  unfolding get delete
  delete-none k [] e = refl
  delete-none k ((j, w) ∷ m) e = ground (arith, delete-none k m)

  -- Taking an entry out makes the map smaller by it.
  pub length-delete :
      (k : Text) (m : Map V)
      → HasDistinctKeys m
      → length m ≡ (if has k m then suc (length (delete k m)) else length (delete k m))
  unfolding get delete
  length-delete k [] h = refl
  length-delete k ((j, w) ∷ m) (e, h) =
      ground (arith, text_eq_iff j k, delete-none k m, length-delete k m h)
