-- ===== src/Services/View.antt =====
-- FerrumGUI/src/services.ts: the registry seen as a function from ids to instances, which forgets
-- the order of the list.
use mathlib.Core.Option
use ferrum_proxy.Base.{
  ℕ, ◌≡◌, if◌then◌else◌, is_some, Bool, true, false, Text, text_eq, text_eq_iff, Option, none, some,
  arith,
}
use ferrum_proxy.Services.{
  ServicesData, File, written, unknown, ServiceManager, Outcome, Error, already_exists, not_found,
  write_failed, save, get_all, get_by_id, add, update, remove,
}
use ferrum_proxy.Services.Instances.{
  Instance, find_by_id-concat, find_by_id-update_first, find_by_id-remove_first, find_by_id-Fresh,
  HasDistinctIds, HasDistinctIds-concat, HasDistinctIds-update_first, HasDistinctIds-remove_first,
}

-- A call that changes the registry. What it writes over an instance keeps the instance's id.
pub data Call : Type 0 where
  adds : Instance → Call
  updates : Text → (f : Instance → Instance) → ((i : Instance) → (f i).id ≡ i.id) → Call
  removes : Text → Call

abbrev pub step : ℕ → Bool → Call → ServiceManager → Outcome
step now ok (adds i) = add now ok i
step now ok (updates id f _) = update now ok id f
step now ok (removes id) = remove now ok id

abbrev pub View : Type 0
View = Text → Option Instance

abbrev pub view : ServiceManager → View
view m id = get_by_id id m

-- What a call promises of the view, and the exception that it throws if the file can be written.
abbrev pub after : Call → View → View
after (adds i) v j = if is_some (v i.id) then v j else if text_eq i.id j then some i else v j
after (updates id f _) v j = if text_eq id j then Option.map f (v j) else v j
after (removes id) v j = if text_eq id j then none else v j

abbrev pub refusal : Call → View → Option Error
refusal (adds i) v = if is_some (v i.id) then some already_exists else none
refusal (updates id f _) v = if is_some (v id) then none else some not_found
refusal (removes id) v = if is_some (v id) then none else some not_found

abbrev pub thrown : Bool → Option Error → Option Error
thrown ok (some e) = some e
thrown true none = none
thrown false none = some write_failed

abbrev pub IsValid : ServiceManager → Type 0
IsValid m = HasDistinctIds (get_all m)

-- The file after a call, by what the call throws
abbrev pub file_after : Option Error → File → ServicesData → File
file_after none before memory = written memory
file_after (some write_failed) before memory = unknown
file_after (some e) before memory = before

step-after :
    (now : ℕ) (ok : Bool) (c : Call) (m : ServiceManager) (j : Text)
    → IsValid m
    → view (step now ok c m).0 j ≡ after c (view m) j
unfolding add update remove save
step-after now ok (adds i) m j v = ground (arith, find_by_id-concat j i (get_all m))
step-after now ok (updates id f same) m j v =
    ground (arith, find_by_id-update_first f same id j (get_all m), text_eq_iff id j)
step-after now ok (removes id) m j v =
    ground (arith, find_by_id-remove_first id j (get_all m) v, text_eq_iff id j)

step-IsValid :
    (now : ℕ) (ok : Bool) (c : Call) (m : ServiceManager) → IsValid m → IsValid (step now ok c m).0
unfolding add update remove save
step-IsValid now ok (adds i) m v =
    ground (arith, HasDistinctIds-concat i (get_all m) v, find_by_id-Fresh i.id (get_all m))
step-IsValid now ok (updates id f same) m v =
    ground (arith, HasDistinctIds-update_first f same id (get_all m) v)
step-IsValid now ok (removes id) m v = ground (arith, HasDistinctIds-remove_first id (get_all m) v)

step-thrown :
    (now : ℕ) (ok : Bool) (c : Call) (m : ServiceManager)
    → (step now ok c m).1 ≡ thrown ok (refusal c (view m))
unfolding add update remove save
step-thrown now ok (adds i) m = ground arith
step-thrown now ok (updates id f same) m = ground arith
step-thrown now ok (removes id) m = ground arith

step-disk :
    (now : ℕ) (ok : Bool) (c : Call) (m : ServiceManager)
    → (step now ok c m).0.disk ≡ file_after (step now ok c m).1 m.disk (step now ok c m).0.memory
unfolding add update remove save
step-disk now ok (adds i) m = ground arith
step-disk now ok (updates id f same) m = ground arith
step-disk now ok (removes id) m = ground arith

-- If no two instances have one id, each addition, removal, and update that keeps the instance's id
-- does to the function from ids to instances what it promises, throws exactly where it promises (or where
-- the file cannot be written), writes to the file all that is in memory unless it throws, leaves the
-- file alone if it refuses, leaves it in doubt if the write fails, and keeps the ids distinct.
pub step-refines :
    (now : ℕ) (ok : Bool) (c : Call) (m : ServiceManager)
    → IsValid m
    → IsValid (step now ok c m).0
      × ((j : Text) → view (step now ok c m).0 j ≡ after c (view m) j)
      × ((step now ok c m).1 ≡ thrown ok (refusal c (view m)))
      × ((step now ok c m).0.disk
          ≡ file_after (step now ok c m).1 m.disk (step now ok c m).0.memory)
step-refines now ok c m v = (
  step-IsValid now ok c m v,
  (λ j. step-after now ok c m j v),
  step-thrown now ok c m,
  step-disk now ok c m,
)
