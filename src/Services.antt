-- ===== src/Services.antt =====
-- FerrumGUI/src/services.ts: `ServiceManager`, the registry of proxy instances. The class keeps
-- `data` (here `memory`) and writes it whole to a file; `disk` is what is known of the file. An operation
-- takes the time and whether its write succeeds. Times are in milliseconds since the epoch.
pub mod Instances
pub mod View
use ferrum_proxy.Base.{
  ℕ, ◌==◌, ◌≡◌, if◌then◌else◌, is_some, not, Bool, true, false, ◌&&◌, Text, text_eq, Option, none,
  some, List, [], ◌∷◌, ◌++◌,
}
use Instances.{Instance, find_by_id, update_first, remove_first}

pub record Auth : Type 0 where
  pub username : Text
  pub password : Text

-- `ServicesData`
pub record ServicesData : Type 0 where
  pub instances : List Instance
  pub last_updated : ℕ
  pub auth : Option Auth

-- The file: what was written to it, or, after a write that failed, anything: `writeFile` truncates it
-- first
pub data File : Type 0 where
  written : ServicesData → File
  unknown : File

pub record ServiceManager : Type 0 where
  pub memory : ServicesData
  pub disk : File

pub data Error : Type 0 where
  already_exists not_found write_failed : Error

-- What a method does: the manager after it, and the exception if it throws one.
abbrev pub Outcome : Type 0
Outcome = ServiceManager × Option Error

-- `save`
unfoldable pub save : ℕ → Bool → ServiceManager → Outcome
save now true m =
    let saved = record m.memory { last_updated = now } in
    (record { memory = saved; disk = written saved }, none)
save now false m =
    (record { memory = record m.memory { last_updated = now }; disk = unknown }, some write_failed)

unfoldable pub with_instances : ServiceManager → List Instance → ServiceManager
with_instances m is = record m { memory = record m.memory { instances = is } }

unfoldable pub get_all : ServiceManager → List Instance
get_all m = m.memory.instances

unfoldable pub get_by_id : Text → ServiceManager → Option Instance
unfolding get_all
get_by_id id m = find_by_id id (get_all m)

unfoldable pub add : ℕ → Bool → Instance → ServiceManager → Outcome
unfolding get_by_id with_instances
add now ok i m =
    if is_some (get_by_id i.id m)
    then (m, some already_exists)
    else save now ok (with_instances m (get_all m ++ i ∷ []))

-- `{ ...instance, ...updates }` is a function on instances.
unfoldable pub update : ℕ → Bool → Text → (Instance → Instance) → ServiceManager → Outcome
unfolding get_by_id with_instances
update now ok id updates m =
    if is_some (get_by_id id m)
    then save now ok (with_instances m (update_first id updates (get_all m)))
    else (m, some not_found)

unfoldable pub remove : ℕ → Bool → Text → ServiceManager → Outcome
unfolding get_by_id with_instances
remove now ok id m =
    if is_some (get_by_id id m)
    then save now ok (with_instances m (remove_first id (get_all m)))
    else (m, some not_found)

-- `pid ? new Date().toISOString() : undefined`, where 0 counts as no pid
abbrev pub started_at : ℕ → Option ℕ → Option ℕ
started_at now none = none
started_at now (some p) = if p == 0 then none else some now

unfoldable pub set_pid : ℕ → Bool → Text → Option ℕ → ServiceManager → Outcome
unfolding update
set_pid now ok id pid =
    update now ok id (λ i. record i { pid = pid; last_started = started_at now pid })

unfoldable pub get_auth : ServiceManager → Option Auth
get_auth m = m.memory.auth

unfoldable pub set_auth : ℕ → Bool → Text → Text → ServiceManager → Outcome
set_auth now ok username password m =
    let auth : Auth = record { username = username; password = password } in
    save now ok (record m { memory = record m.memory { auth = some auth } })

abbrev pub credentials_match : Option Auth → Text → Text → Bool
credentials_match none username password = true
credentials_match (some a) username password =
    text_eq a.username username && text_eq a.password password

unfoldable pub verify_auth : Text → Text → ServiceManager → Bool
verify_auth username password m = credentials_match m.memory.auth username password

unfoldable pub has_auth : ServiceManager → Bool
has_auth m = is_some m.memory.auth
