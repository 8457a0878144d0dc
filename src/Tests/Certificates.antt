-- ===== src/Tests/Certificates.antt =====
-- FerrumGUI/src/index.ts, the certificates of Let's Encrypt, at concrete inputs.
use ferrum_proxy.Base.{◌≡◌, refl, ◌++◌, true, false, codes, text_eq, [], ◌∷◌}
use ferrum_proxy.Certificates.Firewall.{
  ufw, Command, check_state, certbot, Answer, ok, failed, Trace, Host, is_active, has_rule,
}
use ferrum_proxy.Certificates.{
  Files, refused, request_failed, is_domain, normalize_domains, ensure_lets_encrypt_certificate,
}
use ferrum_proxy.Certificates.Prepared.{IsClosed}
use ferrum_proxy.Certificates.Closed.{ensure_lets_encrypt_certificate-IsClosed}

certificates : Unit {0}
unfolding is_domain normalize_domains ensure_lets_encrypt_certificate has_rule is_active text_eq
certificates = tt

sub_domain : is_domain (codes "play.example.com") ≡ true
unfolding certificates
sub_domain = refl

wildcard : is_domain (codes "*.example.com") ≡ false
unfolding certificates
wildcard = refl

normalized :
    normalize_domains (λ s. s) (codes " a.b. " ∷ codes "" ∷ codes "c.d" ∷ codes "a.b" ∷ [])
    ≡ codes "a.b" ∷ codes "c.d" ∷ []
unfolding certificates
normalized = refl

inactive : is_active (codes "Status: inactive") ≡ false
unfolding certificates
inactive = refl

other_port : has_rule (codes "80") true (codes "8080 ALLOW Anywhere") ≡ false
unfolding certificates
other_port = refl

second_line :
    has_rule (codes "80/tcp") true (codes "To Action" ++ 10 ∷ codes "80/tcp   ALLOW  Anywhere")
    ≡ true
unfolding certificates
second_line = refl

abbrev answer : Trace → Command → Answer
answer t (check_state p) = ok (codes "Status: active")
answer t (certbot args) = failed false (codes "timeout")
answer t c = ok []

abbrev host : Host
host = record { has_command = λ p. true; answer = answer }

abbrev files : Files
files = record {
  is_linux = true;
  present = λ name. false;
  covers = λ ds. false;
  present_after = λ name. false;
}

-- The request fails, and the rule is removed.
request_that_fails :
    (ensure_lets_encrypt_certificate (λ s. s) host files (codes "a.b" ∷ []) [] []).1
    ≡ refused (request_failed (codes "timeout"))
unfolding certificates
request_that_fails = refl

ensure_lets_encrypt_certificate-IsClosed_example :
    IsClosed ufw [] (ensure_lets_encrypt_certificate (λ s. s) host files (codes "a.b" ∷ []) [] []).0
ensure_lets_encrypt_certificate-IsClosed_example =
    ensure_lets_encrypt_certificate-IsClosed ufw (λ s. s) host files (codes "a.b" ∷ []) [] []
