-- ===== src/ManagerApi/Registry.antt =====
-- FerrumGUI/src/index.ts: the calls of the registry keep the Manager API ports apart.
use ferrum_proxy.Base.{
  ℕ, ◌+◌, ◌≡◌, refl, min, max, Bool, true, false, ◌&&◌, subst, Bool-cases, inl, inr, Text, Option,
  none, some, List, arith,
}
use ferrum_proxy.Base.Searches.{IsFirst}
use ferrum_proxy.Services
use ferrum_proxy.Services.{ServiceManager, get_all, get_by_id, with_instances, save, started_at}
use ferrum_proxy.Services.Instances.{Instance, update_first, HasDistinctIds}
use ferrum_proxy.ManagerApi.{
  has_port, has_token, Platform, allocate_manager_port, complete, updated, ensure_with,
  ensure_manager_api,
}
use ferrum_proxy.ManagerApi.Ports.{
  is_free, HasDistinctPorts, Unused, Renames, kept-HasDistinctPorts, update-HasDistinctPorts,
  remove_first-HasDistinctPorts, allocate_manager_port-IsFirst,
}

-- What `update` leaves in memory has distinct ports, if the list that it makes has.
update-memory :
    (now : ℕ) (ok : Bool) (id : Text) (f : Instance → Instance) (m : ServiceManager)
    → HasDistinctPorts (get_all m)
    → HasDistinctPorts (update_first id f (get_all m))
    → HasDistinctPorts (get_all (Services.update now ok id f m).0)
unfolding Services.update get_all save with_instances
update-memory now true id f m h k = ground (arith, h, k)
update-memory now false id f m h k = ground (arith, h, k)

pub updated-memory :
    (id : Text) (next : Instance) (r : Services.Outcome) → (updated id next r).0 ≡ r.0
updated-memory id next (m, none) = refl
updated-memory id next (m, some e) = refl

complete-port : (i : Instance) (token : Text) (p : ℕ) → Renames p (complete i token p)
unfolding complete
complete-port i token p = record {
  port = λ j. elim (Bool-cases (has_port i)) [
    | inl has ↦ inl (rw has refl)
    | inr no_port ↦ inr (rw no_port refl)
  ];
}

found-Unused :
    (platform : Platform) (id : Text) (is : List Instance) (p : ℕ)
    → allocate_manager_port platform id is ≡ some p
    → Unused id p is
found-Unused platform id is p e =
    let (a, (b, (free, below))) =
      subst
        (IsFirst (is_free platform id is) (min platform.port_start platform.port_end)
          (max platform.port_start platform.port_end + 1))
        e (allocate_manager_port-IsFirst platform id is) in
    ground (arith, free)

kept_port :
    (i : Instance) (token : Text) (p : ℕ)
    → has_port i ≡ true
    → (j : Instance) → (complete i token p j).manager_port ≡ j.manager_port
unfolding complete
kept_port i token p has j = rw has refl

without_port : (i : Instance) → has_port i ≡ false → (has_token i && has_port i) ≡ false
without_port i h = ground (arith, h)

ensure_with-HasDistinctPorts :
    (now : ℕ) (ok : Bool) (token : Text) (i : Instance) (m : ServiceManager) (port : Option ℕ)
    → HasDistinctPorts (get_all m)
    → ((p : ℕ)
        → port ≡ some p
        → HasDistinctPorts (update_first i.id (complete i token p) (get_all m)))
    → HasDistinctPorts (get_all (ensure_with now ok token i m port).0)
ensure_with-HasDistinctPorts now ok token i m none h k = h
ensure_with-HasDistinctPorts now ok token i m (some p) h k =
    let f = complete i token p in
    rw (updated-memory i.id (f i) (Services.update now ok i.id f m))
      (update-memory now ok i.id f m h (k p refl))

-- If no two instances have one id or one manager port, then no two have one port after the Manager
-- API of an instance is made sure of, whether or not that succeeds.
pub ensure_manager_api-HasDistinctPorts :
    (platform : Platform) (now : ℕ) (ok : Bool) (token : Text) (i : Instance) (m : ServiceManager)
    → HasDistinctIds (get_all m)
    → HasDistinctPorts (get_all m)
    → HasDistinctPorts (get_all (ensure_manager_api platform now ok token i m).0)
unfolding ensure_manager_api
ensure_manager_api-HasDistinctPorts platform now ok token i m d h = elim (Bool-cases (has_port i)) [
  | inl has ↦
      let kept = ensure_with-HasDistinctPorts now ok token i m (some 0) h (λ p e.
        kept-HasDistinctPorts (complete i token p) (kept_port i token p has) i.id (get_all m) h) in
      ground (arith, has, h, kept)
  | inr no_port ↦
      let moved =
        ensure_with-HasDistinctPorts now ok token i m
          (allocate_manager_port platform i.id (get_all m)) h
          (λ p e.
            update-HasDistinctPorts i.id p (complete i token p) (get_all m)
              (complete-port i token p) d (found-Unused platform i.id (get_all m) p e) h) in
      ground (arith, no_port, h, moved)
]

pub set_pid-HasDistinctPorts :
    (now : ℕ) (ok : Bool) (id : Text) (pid : Option ℕ) (m : ServiceManager)
    → HasDistinctPorts (get_all m)
    → HasDistinctPorts (get_all (Services.set_pid now ok id pid m).0)
unfolding Services.set_pid
set_pid-HasDistinctPorts now ok id pid m h =
    let f : Instance → Instance = λ i. record i { pid = pid; last_started = started_at now pid } in
    update-memory now ok id f m h (kept-HasDistinctPorts f (λ i. refl) id (get_all m) h)

pub remove-HasDistinctPorts :
    (now : ℕ) (ok : Bool) (id : Text) (m : ServiceManager)
    → HasDistinctPorts (get_all m)
    → HasDistinctPorts (get_all (Services.remove now ok id m).0)
unfolding Services.remove get_all save with_instances
remove-HasDistinctPorts now true id m h =
    ground (arith, h, remove_first-HasDistinctPorts id m.memory.instances h)
remove-HasDistinctPorts now false id m h =
    ground (arith, h, remove_first-HasDistinctPorts id m.memory.instances h)
