-- ===== src/ManagerApi/Ports.antt =====
-- FerrumGUI/src/index.ts: no two instances get one Manager API port.
use ferrum_proxy.Base.{
  ℕ, ◌+◌, ◌-◌, ◌≡◌, refl, min, max, not, Bool, false, ◌&&◌, ◌⊎◌, Bool-cases, inl, inr, Text,
  text_eq, text_eq_iff, Option, none, some, List, [], ◌∷◌, All, arith,
}
use ferrum_proxy.Base.Searches.{IsFirst, first_from-IsFirst}
use ferrum_proxy.Services.Instances.{Instance, update_first, remove_first, Fresh, HasDistinctIds}
use ferrum_proxy.ManagerApi.{is_port, is_used, Platform, allocate_manager_port}

abbrev pub is_free : Platform → Text → List Instance → ℕ → Bool
is_free platform id is p = not (is_used id p is) && platform.can_bind p

-- The port that is found is the least of the range that no other instance has and that can be bound,
-- whichever way round the range is written, and none is found only if there is no such port.
pub allocate_manager_port-IsFirst :
    (platform : Platform) (id : Text) (is : List Instance)
    → IsFirst
        (is_free platform id is)
        (min platform.port_start platform.port_end)
        (max platform.port_start platform.port_end + 1)
        (allocate_manager_port platform id is)
unfolding allocate_manager_port
allocate_manager_port-IsFirst platform id is =
    first_from-IsFirst (is_free platform id is) (min platform.port_start platform.port_end)
      (max platform.port_start platform.port_end + 1 - min platform.port_start platform.port_end)
      (max platform.port_start platform.port_end + 1) (omega arith)

abbrev pub clash : Option ℕ → Option ℕ → Bool
clash none b = false
clash (some p) b = is_port p b

abbrev pub Differs : Option ℕ → Instance → Type 0
Differs port i = clash port i.manager_port ≡ false

-- No two instances have one manager port.
abbrev pub HasDistinctPorts : List Instance → Type 0
HasDistinctPorts [] = Unit
HasDistinctPorts (i ∷ is) = All (Differs i.manager_port) is × HasDistinctPorts is

clash_sym : (a b : Option ℕ) → clash a b ≡ false → clash b a ≡ false
clash_sym none none h = h
clash_sym none (some q) h = refl
clash_sym (some p) none h = refl
clash_sym (some p) (some q) h = ground (arith, h)

-- A port that the other instances do not have.
abbrev pub Unused : Text → ℕ → List Instance → Type 0
Unused id p is = is_used id p is ≡ false

Unused-Differs :
    (id : Text) (p : ℕ) (is : List Instance)
    → Fresh id is
    → Unused id p is
    → All (Differs (some p)) is
unfolding is_used
Unused-Differs id p [] f h = tt
Unused-Differs id p (i ∷ is) (n, f) h =
    ground (arith, h, n, text_eq_iff i.id id, Unused-Differs id p is f)

-- An update that changes the port to an unused one, or leaves it
pub record Renames (p : ℕ) (f : Instance → Instance) : Type 0 where
  pub port : (i : Instance) → ((f i).manager_port ≡ i.manager_port) ⊎ ((f i).manager_port ≡ some p)

update-Differs :
    (id : Text) (p : ℕ) (f : Instance → Instance) (own : Option ℕ) (is : List Instance)
    → Renames p f
    → clash own (some p) ≡ false
    → All (Differs own) is
    → All (Differs own) (update_first id f is)
unfolding update_first
update-Differs id p f own [] r c h = tt
update-Differs id p f own (i ∷ is) r c (d, h) = elim (Bool-cases (text_eq i.id id)) [
  | inl same ↦ rw same (elim (r.port i) [ inl kept ↦ rw kept d | inr moved ↦ rw moved c ], h)
  | inr other ↦ rw other (d, update-Differs id p f own is r c h)
]

pub update-HasDistinctPorts :
    (id : Text) (p : ℕ) (f : Instance → Instance) (is : List Instance)
    → Renames p f
    → HasDistinctIds is
    → Unused id p is
    → HasDistinctPorts is
    → HasDistinctPorts (update_first id f is)
unfolding update_first is_used
update-HasDistinctPorts id p f [] r d u h = tt
update-HasDistinctPorts id p f (i ∷ is) r (n, d) u (h, hs) = elim (Bool-cases (text_eq i.id id)) [
  | inl same ↦
      let i_is : i.id ≡ id = (text_eq_iff i.id id).0 same in
      let others : Unused id p is = ground (arith, u, same) in
      rw same (
        elim (r.port i) [
          | inl kept ↦ rw kept h
          | inr moved ↦ rw moved (Unused-Differs id p is (rw i_is at n) others)
        ],
        hs,
      )
  | inr other ↦
      let others : Unused id p is = ground (arith, u, other) in
      let apart : is_port p i.manager_port ≡ false = ground (arith, u, other) in
      rw other (
        update-Differs id p f i.manager_port is r (clash_sym (some p) i.manager_port apart) h,
        update-HasDistinctPorts id p f is r d others hs,
      )
]

module _ (f : Instance → Instance)
    (kept : (i : Instance) → (f i).manager_port ≡ i.manager_port) where
  kept-Differs :
      (id : Text) (own : Option ℕ) (is : List Instance)
      → All (Differs own) is
      → All (Differs own) (update_first id f is)
  unfolding update_first
  kept-Differs id own [] h = tt
  kept-Differs id own (i ∷ is) (d, h) = elim (Bool-cases (text_eq i.id id)) [
    | inl same ↦ rw (same, kept i) (d, h)
    | inr other ↦ rw other (d, kept-Differs id own is h)
  ]

  pub kept-HasDistinctPorts :
      (id : Text) (is : List Instance)
      → HasDistinctPorts is
      → HasDistinctPorts (update_first id f is)
  unfolding update_first
  kept-HasDistinctPorts id [] h = tt
  kept-HasDistinctPorts id (i ∷ is) (h, hs) = elim (Bool-cases (text_eq i.id id)) [
    | inl same ↦ rw (same, kept i) (h, hs)
    | inr other ↦ rw other (kept-Differs id i.manager_port is h, kept-HasDistinctPorts id is hs)
  ]

remove_first-Differs :
    (id : Text) (own : Option ℕ) (is : List Instance)
    → All (Differs own) is
    → All (Differs own) (remove_first id is)
unfolding remove_first
remove_first-Differs id own [] h = tt
remove_first-Differs id own (i ∷ is) (d, h) = ground (arith, d, h, remove_first-Differs id own is h)

pub remove_first-HasDistinctPorts :
    (id : Text) (is : List Instance) → HasDistinctPorts is → HasDistinctPorts (remove_first id is)
unfolding remove_first
remove_first-HasDistinctPorts id [] h = tt
remove_first-HasDistinctPorts id (i ∷ is) (d, h) = ground (
  arith,
  d,
  h,
  remove_first-Differs id i.manager_port is d,
  remove_first-HasDistinctPorts id is h,
)
