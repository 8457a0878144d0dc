-- ===== src/Gui/Pids.antt =====
-- FerrumGUI/src/services.ts: which process id the registry has for an instance, after each call that
-- the routes make.
use mathlib.Core.Option
use ferrum_proxy.Base.{
  ℕ, ◌≡◌, ◌&&◌, refl, if◌then◌else◌, is_some, Bool, true, false, Text, text_eq, Option, none, some,
  arith,
}
use ferrum_proxy.Services
use ferrum_proxy.Services.{ServiceManager, get_all, get_by_id, save, with_instances, started_at}
use ferrum_proxy.Services.Instances.{
  Instance, update_first, remove_first, find_by_id-update_first, find_by_id-remove_first,
  HasDistinctIds, HasDistinctIds-update_first, HasDistinctIds-remove_first,
}
use ferrum_proxy.ManagerApi.Registry.{updated-memory}
use ferrum_proxy.ManagerApi.{
  Platform, complete, ensure_with, allocate_manager_port, ensure_manager_api,
}

abbrev pub pid_in : Option Instance → Option ℕ
pid_in none = none
pid_in (some i) = i.pid

abbrev pub pid_of : Text → ServiceManager → Option ℕ
pid_of id m = pid_in (get_by_id id m)

-- What an update leaves in memory, or the manager as it was if there is no such instance
update-get_all :
    (now : ℕ) (ok : Bool) (id : Text) (f : Instance → Instance) (m : ServiceManager)
    → get_all (Services.update now ok id f m).0
      ≡ (if is_some (get_by_id id m) then update_first id f (get_all m) else get_all m)
unfolding Services.update get_all save with_instances
update-get_all now true id f m = ground arith
update-get_all now false id f m = ground arith

module _ (f : Instance → Instance) (same_id : (i : Instance) → (f i).id ≡ i.id) where
  update-get_by_id :
      (now : ℕ) (ok : Bool) (id j : Text) (m : ServiceManager)
      → get_by_id j (Services.update now ok id f m).0 ≡ (
          if is_some (get_by_id id m) && text_eq id j
          then Option.map f (get_by_id j m)
          else get_by_id j m)
  unfolding get_by_id
  update-get_by_id now ok id j m =
      ground
        (arith, update-get_all now ok id f m, find_by_id-update_first f same_id id j (get_all m))

  pub update-HasDistinctIds :
      (now : ℕ) (ok : Bool) (id : Text) (m : ServiceManager)
      → HasDistinctIds (get_all m)
      → HasDistinctIds (get_all (Services.update now ok id f m).0)
  update-HasDistinctIds now ok id m h = ground (
    arith,
    h,
    update-get_all now ok id f m,
    HasDistinctIds-update_first f same_id id (get_all m) h,
  )

pub set_pid-HasDistinctIds :
    (now : ℕ) (ok : Bool) (id : Text) (pid : Option ℕ) (m : ServiceManager)
    → HasDistinctIds (get_all m)
    → HasDistinctIds (get_all (Services.set_pid now ok id pid m).0)
unfolding Services.set_pid
set_pid-HasDistinctIds now ok id pid m =
    update-HasDistinctIds (λ i. record i { pid = pid; last_started = started_at now pid })
      (λ i. refl) now ok id m

abbrev written : ℕ → Option ℕ → Instance → Instance
written now pid i = record i { pid = pid; last_started = started_at now pid }

map-pid_in :
    (now : ℕ) (pid : Option ℕ) (o : Option Instance)
    → pid_in (Option.map (written now pid) o) ≡ (if is_some o then pid else none)
map-pid_in now pid none = refl
map-pid_in now pid (some i) = refl

pub set_pid-pid_of :
    (now : ℕ) (ok : Bool) (id : Text) (pid : Option ℕ) (m : ServiceManager) (j : Text)
    → pid_of j (Services.set_pid now ok id pid m).0 ≡ (
        if is_some (get_by_id id m) && text_eq id j
        then (if is_some (get_by_id j m) then pid else none)
        else pid_of j m)
unfolding Services.set_pid
set_pid-pid_of now ok id pid m j = ground (
  arith,
  update-get_by_id (written now pid) (λ i. refl) now ok id j m,
  map-pid_in now pid (get_by_id j m),
)

map-is_some :
    (now : ℕ) (pid : Option ℕ) (o : Option Instance)
    → is_some (Option.map (written now pid) o) ≡ is_some o
map-is_some now pid none = refl
map-is_some now pid (some i) = refl

pub set_pid-is_some :
    (now : ℕ) (ok : Bool) (id : Text) (pid : Option ℕ) (m : ServiceManager) (j : Text)
    → is_some (get_by_id j (Services.set_pid now ok id pid m).0) ≡ is_some (get_by_id j m)
unfolding Services.set_pid
set_pid-is_some now ok id pid m j = ground (
  arith,
  update-get_by_id (written now pid) (λ i. refl) now ok id j m,
  map-is_some now pid (get_by_id j m),
)

-- Nothing is thrown where the instance is there and the file is written.
pub set_pid-none :
    (now : ℕ) (ok : Bool) (id : Text) (pid : Option ℕ) (m : ServiceManager)
    → is_some (get_by_id id m) ≡ true
    → ok ≡ true
    → (Services.set_pid now ok id pid m).1 ≡ none
unfolding Services.set_pid Services.update save with_instances
set_pid-none now ok id pid m found written = rw (found, written) refl

complete-pid_in :
    (i : Instance) (token : Text) (p : ℕ) (o : Option Instance)
    → pid_in (Option.map (complete i token p) o) ≡ pid_in o
unfolding complete
complete-pid_in i token p none = refl
complete-pid_in i token p (some j) = refl

complete-id :
    (i : Instance) (token : Text) (p : ℕ) (j : Instance) → (complete i token p j).id ≡ j.id
unfolding complete
complete-id i token p j = refl

ensure_with-pid_of :
    (now : ℕ) (ok : Bool) (token : Text) (i : Instance) (m : ServiceManager) (port : Option ℕ)
    (j : Text)
    → pid_of j (ensure_with now ok token i m port).0 ≡ pid_of j m
ensure_with-pid_of now ok token i m none j = refl
ensure_with-pid_of now ok token i m (some p) j =
    let f = complete i token p in
    ground (
      arith,
      updated-memory i.id (f i) (Services.update now ok i.id f m),
      update-get_by_id f (complete-id i token p) now ok i.id j m,
      complete-pid_in i token p (get_by_id j m),
    )

ensure_with-HasDistinctIds :
    (now : ℕ) (ok : Bool) (token : Text) (i : Instance) (m : ServiceManager) (port : Option ℕ)
    → HasDistinctIds (get_all m)
    → HasDistinctIds (get_all (ensure_with now ok token i m port).0)
ensure_with-HasDistinctIds now ok token i m none h = h
ensure_with-HasDistinctIds now ok token i m (some p) h =
    let f = complete i token p in
    rw (updated-memory i.id (f i) (Services.update now ok i.id f m))
      (update-HasDistinctIds f (complete-id i token p) now ok i.id m h)

pub ensure_manager_api-pid_of :
    (platform : Platform) (now : ℕ) (ok : Bool) (token : Text) (i : Instance) (m : ServiceManager)
    (j : Text)
    → pid_of j (ensure_manager_api platform now ok token i m).0 ≡ pid_of j m
unfolding ensure_manager_api
ensure_manager_api-pid_of platform now ok token i m j = ground (
  arith,
  ensure_with-pid_of now ok token i m (some 0) j,
  ensure_with-pid_of now ok token i m (allocate_manager_port platform i.id (get_all m)) j,
)

pub ensure_manager_api-HasDistinctIds :
    (platform : Platform) (now : ℕ) (ok : Bool) (token : Text) (i : Instance) (m : ServiceManager)
    → HasDistinctIds (get_all m)
    → HasDistinctIds (get_all (ensure_manager_api platform now ok token i m).0)
unfolding ensure_manager_api
ensure_manager_api-HasDistinctIds platform now ok token i m h = ground (
  arith,
  h,
  ensure_with-HasDistinctIds now ok token i m (some 0) h,
  ensure_with-HasDistinctIds now ok token i m (allocate_manager_port platform i.id (get_all m)) h,
)

remove-get_all :
    (now : ℕ) (ok : Bool) (id : Text) (m : ServiceManager)
    → get_all (Services.remove now ok id m).0
      ≡ (if is_some (get_by_id id m) then remove_first id (get_all m) else get_all m)
unfolding Services.remove get_all save with_instances
remove-get_all now true id m = ground arith
remove-get_all now false id m = ground arith

pub remove-HasDistinctIds :
    (now : ℕ) (ok : Bool) (id : Text) (m : ServiceManager)
    → HasDistinctIds (get_all m)
    → HasDistinctIds (get_all (Services.remove now ok id m).0)
remove-HasDistinctIds now ok id m h =
    ground (arith, h, remove-get_all now ok id m, HasDistinctIds-remove_first id (get_all m) h)

pub remove-pid_of :
    (now : ℕ) (ok : Bool) (id : Text) (m : ServiceManager) (j : Text)
    → HasDistinctIds (get_all m)
    → is_some (get_by_id id m) ≡ true
    → pid_of j (Services.remove now ok id m).0 ≡ (if text_eq id j then none else pid_of j m)
unfolding get_by_id
remove-pid_of now ok id m j h found =
    ground (arith, found, remove-get_all now ok id m, find_by_id-remove_first id j (get_all m) h)
