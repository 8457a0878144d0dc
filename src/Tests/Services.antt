-- ===== src/Tests/Services.antt =====
-- FerrumGUI/src/services.ts at concrete inputs.
use ferrum_proxy.Base.{◌≡◌, refl, true, false, Text, codes, none, some, [], ◌∷◌, text_eq}
use ferrum_proxy.Services.{
  unknown, ServiceManager, get_all, get_by_id, add, update, remove, save, with_instances,
}
use ferrum_proxy.Services.Instances.{Instance, linux, find_by_id, update_first, remove_first}
use ferrum_proxy.Services.View.{
  adds, step, view, after, refusal, thrown, file_after, IsValid, step-refines,
}

services : Unit {0}
unfolding get_all get_by_id add update remove save with_instances find_by_id update_first
    remove_first text_eq
services = tt

abbrev instance_of : Text → Instance
instance_of id = record {
  id = id;
  name = codes "proxy";
  version = codes "1";
  platform = linux;
  binary_path = codes "/b";
  data_dir = codes "/d";
  config_path = codes "/c";
  pid = none;
  last_started = none;
  auto_start = false;
  auto_restart = true;
  manager_port = some 6000;
  manager_token = some (codes "tok");
  public_metadata = none;
  download_url = codes "u";
}

abbrev one : ServiceManager
one = record {
  memory = record { instances = instance_of (codes "a") ∷ []; last_updated = 0; auth = none };
  disk = unknown;
}

add_twice : (add 5 true (instance_of (codes "a")) one).0 ≡ one
unfolding services
add_twice = refl

removed : get_all (remove 5 true (codes "a") one).0 ≡ []
unfolding services
removed = refl

one-IsValid : IsValid one
unfolding services
one-IsValid = (tt, tt)

step-refines_example :
    IsValid (step 5 true (adds (instance_of (codes "b"))) one).0
    × ((j : Text)
        → view (step 5 true (adds (instance_of (codes "b"))) one).0 j
          ≡ after (adds (instance_of (codes "b"))) (view one) j)
    × ((step 5 true (adds (instance_of (codes "b"))) one).1
        ≡ thrown true (refusal (adds (instance_of (codes "b"))) (view one)))
    × ((step 5 true (adds (instance_of (codes "b"))) one).0.disk
        ≡ file_after
            (step 5 true (adds (instance_of (codes "b"))) one).1
            one.disk
            (step 5 true (adds (instance_of (codes "b"))) one).0.memory)
step-refines_example = step-refines 5 true (adds (instance_of (codes "b"))) one one-IsValid
