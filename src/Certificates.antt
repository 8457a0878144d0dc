-- ===== src/Certificates.antt =====
-- FerrumGUI/src/index.ts: certificates of Let's Encrypt. The files are the host's: what of them the
-- code asks is an argument, before the request and after it. Outside is toLowerCase.
pub mod Firewall
pub mod Prepared
pub mod Closed
use ferrum_proxy.Base.{
  ◌==◌, leb, if◌then◌else◌, all, length, trim, is_empty, text_eq, Bool, true, false, ◌&&◌, ◌||◌,
  Text, codes, Option, none, some, List, [], ◌∷◌, ◌++◌, map, ℕ,
}
use ferrum_proxy.Certificates.Firewall.{
  Trace, Answer, ok, failed, certbot, Host, exec, FirewallPreparation, Outcome, done, thrown,
  prepare_http01_firewall, cleanup,
}

-- What the code asks of the files: whether both are there, whether they are for these domains, and
-- whether both are there after the request
pub record Files : Type 0 where
  pub is_linux : Bool
  pub present : Text → Bool
  pub covers : List Text → Bool
  pub present_after : Text → Bool

pub data Error : Type 0 where
  not_linux no_domain : Error
  invalid_domain : Text → Error
  no_certbot : Error
  request_failed : Text → Error
  no_files : Text → Error

pub record Certificate : Type 0 where
  pub cert_path : Text
  pub key_path : Text
  pub domains : List Text
  pub already_present : Bool

pub data Result : Type 0 where
  provided : Certificate → Result
  refused : Error → Result

-- `replace(/\.$/, '')`
unfoldable pub without_dot : Text → Text
without_dot [] = []
without_dot (c ∷ []) = if c == b'.' then [] else c ∷ []
without_dot (c ∷ d ∷ s) = c ∷ without_dot (d ∷ s)

unfoldable pub without : Text → List Text → List Text
without s [] = []
without s (t ∷ ts) = let rest = without s ts in if text_eq t s then rest else t ∷ rest

-- `Array.from(new Set(...))`: each text once, where it first stands
unfoldable pub distinct : List Text → List Text
unfolding without
distinct [] = []
distinct (s ∷ ss) = s ∷ without s (distinct ss)

abbrev pub nonempty : List Text → List Text
nonempty [] = []
nonempty (s ∷ ss) = if is_empty s then nonempty ss else s ∷ nonempty ss

-- `normalizeLetsEncryptDomains`, of an array of strings
unfoldable pub normalize_domains : (Text → Text) → List Text → List Text
unfolding without_dot distinct trim
normalize_domains to_lower domains =
    distinct (nonempty (map (λ d. without_dot (to_lower (trim d))) domains))

abbrev pub add_to_label : ℕ → List Text → List Text
add_to_label c [] = (c ∷ []) ∷ []
add_to_label c (l ∷ ls) = (c ∷ l) ∷ ls

-- The parts between the dots
unfoldable pub labels : Text → List Text
labels [] = [] ∷ []
labels (c ∷ s) = let rest = labels s in if c == b'.' then [] ∷ rest else add_to_label c rest

abbrev pub is_alphanumeric : ℕ → Bool
is_alphanumeric c = leb 48 c && leb c 57 || leb 65 c && leb c 90 || leb 97 c && leb c 122

abbrev pub ends_alphanumeric : Text → Bool
ends_alphanumeric [] = false
ends_alphanumeric (c ∷ []) = is_alphanumeric c
ends_alphanumeric (c ∷ d ∷ s) = ends_alphanumeric (d ∷ s)

abbrev pub starts_alphanumeric : Text → Bool
starts_alphanumeric [] = false
starts_alphanumeric (c ∷ s) = is_alphanumeric c

-- `[a-z0-9](?:[a-z0-9-]{0,61}[a-z0-9])?`, in upper or lower case
abbrev pub is_label : Text → Bool
is_label l =
    leb (length l) 63
    && starts_alphanumeric l
    && ends_alphanumeric l
    && all (λ c. is_alphanumeric c || c == b'-') l

-- LETS_ENCRYPT_DOMAIN_PATTERN
unfoldable pub is_domain : Text → Bool
unfolding labels
is_domain s = leb (length s) 253 && leb 2 (length (labels s)) && all is_label (labels s)

abbrev pub first_invalid : List Text → Option Error
first_invalid [] = none
first_invalid (d ∷ ds) = if is_domain d then first_invalid ds else some (invalid_domain d)

-- `validateLetsEncryptDomains`
unfoldable pub validate_domains : List Text → Option Error
unfolding is_domain
validate_domains [] = some no_domain
validate_domains (d ∷ ds) = first_invalid (d ∷ ds)

abbrev pub live_dir : Text → Text
live_dir name = codes "/etc/letsencrypt/live/" ++ name

abbrev pub certificate_of : Text → List Text → Bool → Certificate
certificate_of name domains already = record {
  cert_path = live_dir name ++ codes "/fullchain.pem";
  key_path = live_dir name ++ codes "/privkey.pem";
  domains = domains;
  already_present = already;
}

abbrev pub email_args : Text → List Text
email_args [] = codes "--register-unsafely-without-email" ∷ []
email_args (c ∷ s) = codes "--email" ∷ (c ∷ s) ∷ []

abbrev pub domain_args : List Text → List Text
domain_args [] = []
domain_args (d ∷ ds) = codes "--domain" ∷ d ∷ domain_args ds

unfoldable pub certbot_args : Bool → Text → Text → List Text → List Text
unfolding trim
certbot_args existing name email domains =
    codes "certonly"
      ∷ codes "--standalone"
      ∷ codes "--preferred-challenges"
      ∷ codes "http-01"
      ∷ codes "--http-01-port"
      ∷ codes "80"
      ∷ codes "--non-interactive"
      ∷ codes "--agree-tos"
      ∷ codes "--keep-until-expiring"
      ∷ (if existing then codes "--expand" ∷ [] else [])
    ++ codes "--verbose" ∷ codes "--cert-name" ∷ name ∷ email_args (trim email)
    ++ domain_args domains

-- What the `catch` throws
abbrev pub error_of : Bool → Text → Error
error_of true message = no_certbot
error_of false message = request_failed message

abbrev pub answer_error : Answer → Option Error
answer_error (ok out) = none
answer_error (failed enoent message) = some (error_of enoent message)

-- `try`, `catch` and `finally`: the request, and then the cleanup
abbrev pub requested : Host → List Text → Trace × Outcome FirewallPreparation → Trace × Option Error
requested h args (t, thrown enoent message) = (t, some (error_of enoent message))
requested h args (t, done f) =
    let (t', a) = exec h (certbot args) t in (cleanup h f t', answer_error a)

abbrev pub finished : Files → Text → List Text → Trace × Option Error → Trace × Result
finished files name domains (t, some e) = (t, refused e)
finished files name domains (t, none) =
    if files.present_after name
    then (t, provided (certificate_of name domains false))
    else (t, refused (no_files (live_dir name)))

abbrev pub ensure_domains : Host → Files → Text → List Text → Option Error → Trace → Trace × Result
ensure_domains h files email domains (some e) t = (t, refused e)
ensure_domains h files email [] none t = (t, refused no_domain)
ensure_domains h files email (name ∷ ds) none t =
    if files.present name && files.covers (name ∷ ds)
    then (t, provided (certificate_of name (name ∷ ds) true))
    else finished files name (name ∷ ds) (
        requested h (certbot_args (files.present name) name email (name ∷ ds))
          (prepare_http01_firewall h t))

-- `ensureLetsEncryptCertificate`
unfoldable pub ensure_lets_encrypt_certificate :
    (Text → Text) → Host → Files → List Text → Text → Trace → Trace × Result
unfolding normalize_domains validate_domains certbot_args exec prepare_http01_firewall cleanup
ensure_lets_encrypt_certificate to_lower h files domains email t =
    let normalized = normalize_domains to_lower domains in
    if files.is_linux
    then ensure_domains h files email normalized (validate_domains normalized) t
    else (t, refused not_linux)
