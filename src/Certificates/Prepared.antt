-- ===== src/Certificates/Prepared.antt =====
-- FerrumGUI/src/index.ts: what the firewall's preparation adds is what its cleanup takes away.
use ferrum_proxy.Base.{
  ℕ, ◌+◌, ◌≡◌, refl, if◌then◌else◌, Bool, true, false, Text, Option, none, some, List, [], ◌∷◌,
  arith,
}
use ferrum_proxy.Certificates.Firewall.{
  Provider, ufw, firewalld, iptables, check_state, check_rule, add_rule, remove_rule, certbot,
  Answer, ok, failed, Trace, Host, exec, FirewallPreparation, opened, ufw_inspected, try_ufw,
  firewalld_queried, firewalld_inspected, try_firewalld, Outcome, done, thrown, iptables_opened,
  iptables_queried, use_iptables, after_firewalld, after_ufw, prepare_http01_firewall,
}

abbrev pub same : Provider → Provider → Bool
same ufw ufw = true
same firewalld firewalld = true
same iptables iptables = true
same p q = false

-- How often a rule was added, and how often its removal was run
abbrev pub adds : Provider → Trace → ℕ
adds p [] = 0
adds p ((add_rule q, ok out) ∷ t) = if same p q then adds p t + 1 else adds p t
adds p (e ∷ t) = adds p t

abbrev pub removes : Provider → Trace → ℕ
removes p [] = 0
removes p ((remove_rule q, a) ∷ t) = if same p q then removes p t + 1 else removes p t
removes p (e ∷ t) = removes p t

-- Whether a rule was added and no removal of it run since
abbrev pub left_open : Provider → Trace → Bool
left_open p [] = false
left_open p ((add_rule q, ok out) ∷ t) = if same p q then true else left_open p t
left_open p ((remove_rule q, a) ∷ t) = if same p q then false else left_open p t
left_open p (e ∷ t) = left_open p t

-- What is added from one trace to a later one is removed, and nothing else.
pub record IsClosed (p : Provider) (t t' : Trace) : Type 0 where
  pub balanced : adds p t' + removes p t ≡ adds p t + removes p t'
  pub closed : left_open p t ≡ false → left_open p t' ≡ false

-- The trace once the request and the cleanup are over, if the removal is answered by `a`
abbrev pub marked : Bool → Option Provider → Answer → Trace → Trace
marked true (some q) a t = (remove_rule q, a) ∷ t
marked b o a t = t

abbrev pub cleaned : FirewallPreparation → List Text → Answer → Answer → Trace → Trace
cleaned f args r a t = marked f.changed f.provider a ((certbot args, r) ∷ t)

module _ (p : Provider) where
  pub unchanged : (t : Trace) → IsClosed p t t
  unchanged t = record { balanced = refl; closed = λ e. e }

  pub chained : (t u v : Trace) → IsClosed p t u → IsClosed p u v → IsClosed p t v
  chained t u v h k = record {
    balanced = let a = h.balanced in let b = k.balanced in omega (arith, a, b);
    closed = λ e. k.closed (h.closed e);
  }

  unfoldable pub WillClose : Trace → Trace → FirewallPreparation → Type 0
  WillClose t t' f = (args : List Text) (r a : Answer) → IsClosed p t (cleaned f args r a t')

  -- A step that prepared the firewall leaves what the cleanup closes, and one that did not is closed.
  Tried : Trace → Trace × Option FirewallPreparation → Type 0
  Tried t (t', none) = IsClosed p t t'
  Tried t (t', some f) = WillClose t t' f

  unfoldable pub Prepared : Trace → Trace × Outcome FirewallPreparation → Type 0
  Prepared t (t', thrown e m) = IsClosed p t t'
  Prepared t (t', done f) = WillClose t t' f

  added :
      (q : Provider) (t : Trace) (out : Text) (args : List Text) (r a : Answer)
      → IsClosed p t ((remove_rule q, a) ∷ (certbot args, r) ∷ (add_rule q, ok out) ∷ t)
  added q t out args r a = record { balanced = ground arith; closed = λ e. ground (arith, e) }

  opened-Tried :
      (q : Provider) (t : Trace) (b : Answer) → Tried t (opened q ((add_rule q, b) ∷ t, b))
  unfolding Tried WillClose
  opened-Tried q t (ok out) = λ args r a. added q t out args r a
  opened-Tried q t (failed e m) = record { balanced = refl; closed = λ e'. e' }

  chained-Tried :
      (t u : Trace) (o : Trace × Option FirewallPreparation)
      → IsClosed p t u
      → Tried u o
      → Tried t o
  unfolding Tried WillClose
  chained-Tried t u (v, none) h k = chained t u v h k
  chained-Tried t u (v, some f) h k = λ args r a. chained t u (cleaned f args r a v) h (k args r a)

  Tried-Prepared :
      (t u : Trace) (o : Trace × Outcome FirewallPreparation)
      → IsClosed p t u
      → Prepared u o
      → Prepared t o
  unfolding Prepared WillClose
  Tried-Prepared t u (v, thrown e m) h k = chained t u v h k
  Tried-Prepared t u (v, done f) h k = λ args r a. chained t u (cleaned f args r a v) h (k args r a)

  ufw_inspected-Tried :
      (h : Host) (t : Trace) (b : Answer) → Tried t (ufw_inspected h ((check_state ufw, b) ∷ t, b))
  unfolding Tried WillClose exec
  ufw_inspected-Tried h t (failed e m) = record { balanced = refl; closed = λ e'. e' }
  ufw_inspected-Tried h t (ok out) =
      let u = (check_state ufw, ok out) ∷ t in
      let seen : IsClosed p t u = record { balanced = refl; closed = λ e. e } in
      let kept : WillClose t u (record { provider = some ufw; changed = false }) =
        λ args r a. record { balanced = refl; closed = λ e. e } in
      let tried =
        chained-Tried t u (opened ufw (exec h (add_rule ufw) u)) seen
          (opened-Tried ufw u (h.answer u (add_rule ufw))) in
      ground (arith, seen, kept, tried)

  try_ufw-Tried : (h : Host) (t : Trace) → Tried t (try_ufw h t)
  unfolding Tried WillClose try_ufw exec
  try_ufw-Tried h t =
      ground (arith, unchanged t, ufw_inspected-Tried h t (h.answer t (check_state ufw)))

  firewalld_queried-Tried :
      (h : Host) (t : Trace) (b : Answer)
      → Tried t (firewalld_queried h ((check_rule firewalld, b) ∷ t, b))
  unfolding Tried WillClose exec
  firewalld_queried-Tried h t (ok out) = λ args r a. record { balanced = refl; closed = λ e. e }
  firewalld_queried-Tried h t (failed e m) =
      let u = (check_rule firewalld, failed e m) ∷ t in
      let seen : IsClosed p t u = record { balanced = refl; closed = λ e'. e' } in
      chained-Tried t u (opened firewalld (exec h (add_rule firewalld) u)) seen
        (opened-Tried firewalld u (h.answer u (add_rule firewalld)))

  firewalld_inspected-Tried :
      (h : Host) (t : Trace) (b : Answer)
      → Tried t (firewalld_inspected h ((check_state firewalld, b) ∷ t, b))
  unfolding Tried WillClose exec
  firewalld_inspected-Tried h t (failed e m) = record { balanced = refl; closed = λ e'. e' }
  firewalld_inspected-Tried h t (ok out) =
      let u = (check_state firewalld, ok out) ∷ t in
      let seen : IsClosed p t u = record { balanced = refl; closed = λ e. e } in
      chained-Tried t u (firewalld_queried h (exec h (check_rule firewalld) u)) seen
        (firewalld_queried-Tried h u (h.answer u (check_rule firewalld)))

  try_firewalld-Tried : (h : Host) (t : Trace) → Tried t (try_firewalld h t)
  unfolding Tried WillClose try_firewalld exec
  try_firewalld-Tried h t =
      ground
        (arith, unchanged t, firewalld_inspected-Tried h t (h.answer t (check_state firewalld)))

  iptables_opened-Prepared :
      (t : Trace) (b : Answer) → Prepared t (iptables_opened ((add_rule iptables, b) ∷ t, b))
  unfolding Prepared WillClose
  iptables_opened-Prepared t (ok out) = λ args r a. added iptables t out args r a
  iptables_opened-Prepared t (failed e m) = record { balanced = refl; closed = λ e'. e' }

  iptables_queried-Prepared :
      (h : Host) (t : Trace) (b : Answer)
      → Prepared t (iptables_queried h ((check_rule iptables, b) ∷ t, b))
  unfolding Prepared WillClose exec
  iptables_queried-Prepared h t (ok out) = λ args r a. record { balanced = refl; closed = λ e. e }
  iptables_queried-Prepared h t (failed e m) =
      let u = (check_rule iptables, failed e m) ∷ t in
      let seen : IsClosed p t u = record { balanced = refl; closed = λ e'. e' } in
      Tried-Prepared t u (iptables_opened (exec h (add_rule iptables) u)) seen
        (iptables_opened-Prepared u (h.answer u (add_rule iptables)))

  use_iptables-Prepared : (h : Host) (t : Trace) → Prepared t (use_iptables h t)
  unfolding Prepared WillClose use_iptables exec
  use_iptables-Prepared h t =
      let kept : WillClose t t (record { provider = none; changed = false }) =
        λ args r a. record { balanced = refl; closed = λ e. e } in
      ground (arith, kept, iptables_queried-Prepared h t (h.answer t (check_rule iptables)))

  after_firewalld-Prepared :
      (h : Host) (t : Trace) (o : Trace × Option FirewallPreparation)
      → Tried t o
      → Prepared t (after_firewalld h o)
  unfolding Tried Prepared
  after_firewalld-Prepared h t (u, some f) k = k
  after_firewalld-Prepared h t (u, none) k =
      Tried-Prepared t u (use_iptables h u) k (use_iptables-Prepared h u)

  after_ufw-Prepared :
      (h : Host) (t : Trace) (o : Trace × Option FirewallPreparation)
      → Tried t o
      → Prepared t (after_ufw h o)
  unfolding Tried Prepared
  after_ufw-Prepared h t (u, some f) k = k
  after_ufw-Prepared h t (u, none) k =
      Tried-Prepared t u (after_firewalld h (try_firewalld h u)) k
        (after_firewalld-Prepared h u (try_firewalld h u) (try_firewalld-Tried h u))

  pub prepare_http01_firewall-Prepared :
      (h : Host) (t : Trace) → Prepared t (prepare_http01_firewall h t)
  unfolding prepare_http01_firewall
  prepare_http01_firewall-Prepared h t = after_ufw-Prepared h t (try_ufw h t) (try_ufw-Tried h t)
