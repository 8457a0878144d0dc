-- ===== src/Certificates/Firewall.antt =====
-- FerrumGUI/src/index.ts: `prepareHttp01Firewall`, which opens TCP port 80 for a certificate request,
-- and its cleanup. What the commands answer is the host's, and a trace keeps them, the latest first.
use ferrum_proxy.Base.{
  ℕ, ◌+◌, ◌==◌, leb, if◌then◌else◌, not, is_space, trim_start, Bool, true, false, ◌&&◌, ◌||◌, Text,
  codes, Option, none, some, List, [], ◌∷◌,
}

pub data Provider : Type 0 where
  ufw firewalld iptables : Provider

-- The commands, run with `runPrivileged`
pub data Command : Type 0 where
  check_state check_rule add_rule remove_rule : Provider → Command
  certbot : List Text → Command

-- A command's standard output, or its error: whether its code is ENOENT, and its message
pub data Answer : Type 0 where
  ok : Text → Answer
  failed : Bool → Text → Answer

abbrev pub Trace : Type 0
Trace = List (Command × Answer)

pub record Host : Type 0 where
  pub has_command : Provider → Bool
  pub answer : Trace → Command → Answer

unfoldable pub exec : Host → Command → Trace → Trace × Answer
exec h c t = ((c, h.answer t c) ∷ t, h.answer t c)

abbrev lower : ℕ → ℕ
lower c = if leb 65 c && leb c 90 then c + 32 else c

-- What follows a text at the start of another, in upper or lower case
unfoldable pub strip_any_case : Text → Text → Option Text
strip_any_case [] s = some s
strip_any_case (c ∷ p) [] = none
strip_any_case (c ∷ p) (d ∷ s) =
    let rest = strip_any_case p s in if lower d == c then rest else none

abbrev pub then_test : Option Text → (Text → Bool) → Bool
then_test none test = false
then_test (some s) test = test s

-- `\s+`
abbrev pub skip_spaces : Text → Option Text
skip_spaces [] = none
skip_spaces (c ∷ s) = if is_space c then some (trim_start s) else none

-- `/Status:\s+active/i`
unfoldable pub is_active : Text → Bool
unfolding strip_any_case trim_start
is_active [] = false
is_active (c ∷ s) =
    let later = is_active s in
    then_test (strip_any_case (codes "status:") (c ∷ s)) (λ r.
      then_test (skip_spaces r) (λ q. then_test (strip_any_case (codes "active") q) (λ x. true)))
    || later

abbrev is_word : ℕ → Bool
is_word c = leb 97 (lower c) && leb (lower c) 122 || leb 48 c && leb c 57 || c == 95

abbrev ends_word : Text → Bool
ends_word [] = true
ends_word (c ∷ s) = not (is_word c)

abbrev ends_line : ℕ → Bool
ends_line c = c == 10 || c == 13 || c == 8232 || c == 8233

-- `\s*80\/tcp\s+ALLOW\b`, or the same with another port
abbrev pub rule_at : Text → Text → Bool
rule_at port s =
    then_test (strip_any_case port (trim_start s))
      (λ r. then_test (skip_spaces r) (λ q. then_test (strip_any_case (codes "allow") q) ends_word))

-- The same at the start of a line
unfoldable pub has_rule : Text → Bool → Text → Bool
unfolding strip_any_case trim_start
has_rule port at_start [] = false
has_rule port at_start (c ∷ s) =
    let later = has_rule port (ends_line c) s in at_start && rule_at port (c ∷ s) || later

pub record FirewallPreparation : Type 0 where
  pub provider : Option Provider
  pub changed : Bool

abbrev pub prepared : Provider → Bool → Option FirewallPreparation
prepared p changed = some (record { provider = some p; changed = changed })

-- A rule that is added inside `try`
abbrev pub opened : Provider → Trace × Answer → Trace × Option FirewallPreparation
opened p (t, ok out) = (t, prepared p true)
opened p (t, failed e m) = (t, none)

abbrev pub ufw_inspected : Host → Trace × Answer → Trace × Option FirewallPreparation
ufw_inspected h (t, failed e m) = (t, none)
ufw_inspected h (t, ok out) =
    if is_active out
    then (if has_rule (codes "80/tcp") true out || has_rule (codes "80") true out
        then (t, prepared ufw false)
        else opened ufw (exec h (add_rule ufw) t))
    else (t, none)

unfoldable pub try_ufw : Host → Trace → Trace × Option FirewallPreparation
unfolding exec is_active has_rule
try_ufw h t = if h.has_command ufw then ufw_inspected h (exec h (check_state ufw) t) else (t, none)

abbrev pub firewalld_queried : Host → Trace × Answer → Trace × Option FirewallPreparation
firewalld_queried h (t, ok out) = (t, prepared firewalld false)
firewalld_queried h (t, failed e m) = opened firewalld (exec h (add_rule firewalld) t)

abbrev pub firewalld_inspected : Host → Trace × Answer → Trace × Option FirewallPreparation
firewalld_inspected h (t, failed e m) = (t, none)
firewalld_inspected h (t, ok out) = firewalld_queried h (exec h (check_rule firewalld) t)

unfoldable pub try_firewalld : Host → Trace → Trace × Option FirewallPreparation
unfolding exec
try_firewalld h t =
    if h.has_command firewalld
    then firewalld_inspected h (exec h (check_state firewalld) t)
    else (t, none)

-- What a step returns, or the error that it throws
pub data Outcome (A : Type 0) : Type 0 where
  done : A → Outcome A
  thrown : Bool → Text → Outcome A

abbrev pub iptables_opened : Trace × Answer → Trace × Outcome FirewallPreparation
iptables_opened (t, ok out) = (t, done (record { provider = some iptables; changed = true }))
iptables_opened (t, failed e m) = (t, thrown e m)

abbrev pub iptables_queried : Host → Trace × Answer → Trace × Outcome FirewallPreparation
iptables_queried h (t, ok out) = (t, done (record { provider = some iptables; changed = false }))
iptables_queried h (t, failed e m) = iptables_opened (exec h (add_rule iptables) t)

unfoldable pub use_iptables : Host → Trace → Trace × Outcome FirewallPreparation
unfolding exec
use_iptables h t =
    if h.has_command iptables
    then iptables_queried h (exec h (check_rule iptables) t)
    else (t, done (record { provider = none; changed = false }))

abbrev pub after_firewalld :
    Host → Trace × Option FirewallPreparation → Trace × Outcome FirewallPreparation
after_firewalld h (t, some p) = (t, done p)
after_firewalld h (t, none) = use_iptables h t

abbrev pub after_ufw :
    Host → Trace × Option FirewallPreparation → Trace × Outcome FirewallPreparation
after_ufw h (t, some p) = (t, done p)
after_ufw h (t, none) = after_firewalld h (try_firewalld h t)

-- `prepareHttp01Firewall`
unfoldable pub prepare_http01_firewall : Host → Trace → Trace × Outcome FirewallPreparation
unfolding try_ufw try_firewalld use_iptables
prepare_http01_firewall h t = after_ufw h (try_ufw h t)

-- `firewall.cleanup()`, which throws nothing, where something was changed
abbrev pub cleanup_of : Host → Option Provider → Trace → Trace
cleanup_of h none t = t
cleanup_of h (some p) t = (exec h (remove_rule p) t).0

unfoldable pub cleanup : Host → FirewallPreparation → Trace → Trace
unfolding exec
cleanup h f t = if f.changed then cleanup_of h f.provider t else t
