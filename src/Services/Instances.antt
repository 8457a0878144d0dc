-- ===== src/Services/Instances.antt =====
-- FerrumGUI/src/services.ts: `FerrumProxyInstance`, and the list that `ServiceManager` searches by
-- `find`, assigns into by `findIndex`, and cuts by `splice`. A coordinate is kept as the text that
-- the file has for it.
use mathlib.Core.Option
use ferrum_proxy.Base.{
  Bool-cases, inl, inr, ℕ, ◌≡◌, refl, if◌then◌else◌, Bool, Text, text_eq, text_eq_iff, Option, none,
  some, List, [], ◌∷◌, ◌++◌, All, arith, ◌≢◌,
}

pub data Platform : Type 0 where
  linux linux_arm64 macos_arm64 windows : Platform

pub record PublicMetadata : Type 0 where
  pub region : Option Text
  pub country_code : Option Text
  pub latitude : Option Text
  pub longitude : Option Text

-- `FerrumProxyInstance`
pub record Instance : Type 0 where
  pub id : Text
  pub name : Text
  pub version : Text
  pub platform : Platform
  pub binary_path : Text
  pub data_dir : Text
  pub config_path : Text
  pub pid : Option ℕ
  pub last_started : Option ℕ
  pub auto_start : Bool
  pub auto_restart : Bool
  pub manager_port : Option ℕ
  pub manager_token : Option Text
  pub public_metadata : Option PublicMetadata
  pub download_url : Text

-- `instances.find(instance => instance.id === id)`
unfoldable pub find_by_id : Text → List Instance → Option Instance
find_by_id id [] = none
find_by_id id (i ∷ is) = if text_eq i.id id then some i else find_by_id id is

-- The assignment at `findIndex(...)`
unfoldable pub update_first : Text → (Instance → Instance) → List Instance → List Instance
update_first id f [] = []
update_first id f (i ∷ is) = if text_eq i.id id then f i ∷ is else i ∷ update_first id f is

-- The `splice(index, 1)` at `findIndex(...)`
unfoldable pub remove_first : Text → List Instance → List Instance
remove_first id [] = []
remove_first id (i ∷ is) = if text_eq i.id id then is else i ∷ remove_first id is

abbrev pub Fresh : Text → List Instance → Type 0
Fresh id is = All (λ i. i.id ≢ id) is

-- No two instances have one id.
abbrev pub HasDistinctIds : List Instance → Type 0
HasDistinctIds [] = Unit
HasDistinctIds (i ∷ is) = Fresh i.id is × HasDistinctIds is

pub find_by_id-eq-none : (id : Text) (is : List Instance) → Fresh id is → find_by_id id is ≡ none
unfolding find_by_id
find_by_id-eq-none id [] h = refl
find_by_id-eq-none id (i ∷ is) (n, h) =
    ground (arith, text_eq_iff i.id id, find_by_id-eq-none id is h)

pub find_by_id-Fresh : (id : Text) (is : List Instance) → find_by_id id is ≡ none → Fresh id is
unfolding find_by_id
find_by_id-Fresh id [] e = tt
find_by_id-Fresh id (i ∷ is) e = ground (arith, text_eq_iff i.id id, find_by_id-Fresh id is)

pub find_by_id-concat :
    (id : Text) (i : Instance) (is : List Instance)
    → find_by_id i.id is ≡ none
    → find_by_id id (is ++ i ∷ []) ≡ (if text_eq i.id id then some i else find_by_id id is)
unfolding find_by_id
find_by_id-concat id i [] e = refl
find_by_id-concat id i (j ∷ is) e = ground (
  arith,
  text_eq_iff i.id id,
  text_eq_iff j.id id,
  text_eq_iff j.id i.id,
  find_by_id-concat id i is,
)

Fresh-concat :
    (id : Text) (i : Instance) (is : List Instance)
    → Fresh id is
    → i.id ≢ id
    → Fresh id (is ++ i ∷ [])
Fresh-concat id i [] h n = (n, tt)
Fresh-concat id i (j ∷ is) (m, h) n = (m, Fresh-concat id i is h n)

pub HasDistinctIds-concat :
    (i : Instance) (is : List Instance)
    → HasDistinctIds is
    → Fresh i.id is
    → HasDistinctIds (is ++ i ∷ [])
HasDistinctIds-concat i [] d h = (tt, tt)
HasDistinctIds-concat i (j ∷ is) (f, d) (n, h) =
    (Fresh-concat j.id i is f (λ e. n (ground arith)), HasDistinctIds-concat i is d h)

module _ (f : Instance → Instance) (same_id : (i : Instance) → (f i).id ≡ i.id) where
  pub find_by_id-update_first :
      (id j : Text) (is : List Instance)
      → find_by_id j (update_first id f is)
        ≡ (if text_eq id j then Option.map f (find_by_id j is) else find_by_id j is)
  unfolding find_by_id update_first
  find_by_id-update_first id j [] = ground arith
  find_by_id-update_first id j (i ∷ is) = ground (
    arith,
    same_id i,
    text_eq_iff i.id id,
    text_eq_iff i.id j,
    text_eq_iff (f i).id j,
    text_eq_iff id j,
    find_by_id-update_first id j is,
  )

  Fresh-update_first :
      (id j : Text) (is : List Instance) → Fresh j is → Fresh j (update_first id f is)
  unfolding update_first
  Fresh-update_first id j [] h = tt
  Fresh-update_first id j (i ∷ is) (n, h) = ground (arith, same_id i, Fresh-update_first id j is h)

  pub HasDistinctIds-update_first :
      (id : Text) (is : List Instance) → HasDistinctIds is → HasDistinctIds (update_first id f is)
  unfolding update_first
  HasDistinctIds-update_first id [] d = tt
  HasDistinctIds-update_first id (i ∷ is) (h, d) = elim (Bool-cases (text_eq i.id id)) [
    | inl here ↦ rw (here, update_first) (rw (same_id i) h, d)
    | inr there ↦
        rw (there, update_first)
          (Fresh-update_first id i.id is h, HasDistinctIds-update_first id is d)
  ]

pub find_by_id-remove_first :
    (id j : Text) (is : List Instance)
    → HasDistinctIds is
    → find_by_id j (remove_first id is) ≡ (if text_eq id j then none else find_by_id j is)
unfolding find_by_id remove_first
find_by_id-remove_first id j [] d = ground arith
find_by_id-remove_first id j (i ∷ is) (h, d) = ground (
  arith,
  text_eq_iff i.id id,
  text_eq_iff i.id j,
  text_eq_iff id j,
  find_by_id-eq-none i.id is h,
  find_by_id-remove_first id j is d,
)

Fresh-remove_first : (id j : Text) (is : List Instance) → Fresh j is → Fresh j (remove_first id is)
unfolding remove_first
Fresh-remove_first id j [] h = tt
Fresh-remove_first id j (i ∷ is) (n, h) = ground (arith, Fresh-remove_first id j is h)

pub HasDistinctIds-remove_first :
    (id : Text) (is : List Instance) → HasDistinctIds is → HasDistinctIds (remove_first id is)
unfolding remove_first
HasDistinctIds-remove_first id [] d = tt
HasDistinctIds-remove_first id (i ∷ is) (h, d) =
    ground (arith, Fresh-remove_first id i.id is h, HasDistinctIds-remove_first id is d)
