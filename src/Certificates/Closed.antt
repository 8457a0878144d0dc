-- ===== src/Certificates/Closed.antt =====
-- FerrumGUI/src/index.ts: the rule for port 80 that a certificate request adds is taken away again.
use ferrum_proxy.Base.{
  ◌≡◌, refl, sym, subst, Bool, true, false, Text, Option, none, some, List, [], ◌∷◌, arith,
}
use ferrum_proxy.Certificates.Firewall.{
  Provider, remove_rule, certbot, Answer, ok, Trace, Host, exec, FirewallPreparation, Outcome, done,
  thrown, prepare_http01_firewall, cleanup,
}
use ferrum_proxy.Certificates.{
  Files, Error, certbot_args, requested, finished, ensure_domains, normalize_domains,
  validate_domains, ensure_lets_encrypt_certificate,
}
use ferrum_proxy.Certificates.Prepared.{
  IsClosed, marked, WillClose, Prepared, unchanged, prepare_http01_firewall-Prepared,
}

removal : Host → Option Provider → Trace → Answer
removal h none t = ok []
removal h (some q) t = h.answer t (remove_rule q)

cleanup-marked :
    (h : Host) (b : Bool) (o : Option Provider) (t : Trace)
    → cleanup h (record { provider = o; changed = b }) t ≡ marked b o (removal h o t) t
unfolding cleanup removal exec
cleanup-marked h true none t = refl
cleanup-marked h true (some q) t = refl
cleanup-marked h false o t = refl

module _ (p : Provider) where
  requested-IsClosed :
      (h : Host) (args : List Text) (t : Trace) (o : Trace × Outcome FirewallPreparation)
      → Prepared p t o
      → IsClosed p t (requested h args o).0
  unfolding exec Prepared WillClose
  requested-IsClosed h args t (u, thrown e m) k = k
  requested-IsClosed h args t (u, done f) k =
      let a = h.answer u (certbot args) in
      let v = (certbot args, a) ∷ u in
      subst (IsClosed p t) (sym (cleanup-marked h f.changed f.provider v))
        (k args a (removal h f.provider v))

  finished-trace :
      (files : Files) (name : Text) (domains : List Text) (o : Trace × Option Error)
      → (finished files name domains o).0 ≡ o.0
  finished-trace files name domains (t, some e) = refl
  finished-trace files name domains (t, none) = ground arith

  ensure_domains-IsClosed :
      (h : Host) (files : Files) (email : Text) (domains : List Text) (e : Option Error) (t : Trace)
      → IsClosed p t (ensure_domains h files email domains e t).0
  ensure_domains-IsClosed h files email domains (some e) t = unchanged p t
  ensure_domains-IsClosed h files email [] none t = unchanged p t
  ensure_domains-IsClosed h files email (name ∷ ds) none t =
      let o =
        requested h (certbot_args (files.present name) name email (name ∷ ds))
          (prepare_http01_firewall h t) in
      let closed : IsClosed p t (finished files name (name ∷ ds) o).0 =
        subst (IsClosed p t) (sym (finished-trace files name (name ∷ ds) o)) (
          requested-IsClosed h (certbot_args (files.present name) name email (name ∷ ds)) t
            (prepare_http01_firewall h t) (prepare_http01_firewall-Prepared p h t)) in
      ground (arith, closed, unchanged p t)

  -- Whatever the commands answer and however the request ends, the removal of a rule for port 80 is
  -- run as often as the rule is added, and no rule that is added is left without a removal after it.
  pub ensure_lets_encrypt_certificate-IsClosed :
      (to_lower : Text → Text) (h : Host) (files : Files) (domains : List Text) (email : Text)
      (t : Trace)
      → IsClosed p t (ensure_lets_encrypt_certificate to_lower h files domains email t).0
  unfolding ensure_lets_encrypt_certificate
  ensure_lets_encrypt_certificate-IsClosed to_lower h files domains email t =
      let normalized = normalize_domains to_lower domains in
      ground (
        arith,
        ensure_domains-IsClosed h files email normalized (validate_domains normalized) t,
        unchanged p t,
      )
