-- ===== src/IpBlock/Accepted.antt =====
-- FerrumGUI/src/ipBlockConfig.ts: which configurations of the block list are accepted.
use mathlib.Core.Bool.{false≢true}
use ferrum_proxy.Base.{
  ℕ, ◌+◌, ◌≤◌, ◌≡◌, ◌≢◌, ◌↔◌, ◌⊎◌, refl, ap, ◌∙◌, ◌==◌, ==_iff, leb_iff, if◌then◌else◌, trim, Bool,
  true, false, inl, inr, Text, codes, text_eq, text_eq_iff, Option, none, some, List, [], ◌∷◌, ◌++◌,
  All, arith,
}
use ferrum_proxy.Base.Decimal.{is_digits, number_of}
use ferrum_proxy.Base.Patterns.{NoSlash}
use ferrum_proxy.IpBlock.{
  whole, Value, undefined, null, bool, number, string, Entry, scalar, object, Field, absent,
  not_array, array, IpBlockConfig, Error, report, is_flag, is_interval, is_reason, reason_of,
  has_zone, split_slash, is_http, is_feed, is_address, has_address, are_parts, is_cidr,
  check_entries, check_cidrs, check_ips, check_ranges,
}
use ferrum_proxy.IpBlock.Parts.{split_slash-append, split_slash-two}

abbrev pub IsFlag : Value → Type 0
IsFlag v = (v ≡ undefined) ⊎ ((b : Bool) × (v ≡ bool b))

abbrev pub IsInterval : Value → Type 0
IsInterval v = (v ≡ undefined) ⊎ ((n : ℕ) × (v ≡ number (whole n)) × (n ≤ 9007199254740991))

abbrev pub IsReason : Value → Type 0
IsReason v = (v ≡ undefined) ⊎ (v ≡ null) ⊎ ((s : Text) × (v ≡ string s))

pub report_nil : (b : Bool) (e : Error) → (report b e ≡ []) ↔ (b ≡ true)
report_nil true e = (λ h. refl, λ h. refl)
report_nil false e = (λ h. ground (arith, h), λ h. ground (arith, h))

pub append_nil : (xs ys : List Error) → (xs ++ ys ≡ []) ↔ ((xs ≡ []) × (ys ≡ []))
append_nil [] ys = (λ h. (refl, h), λ h. h.1)
append_nil (x ∷ xs) ys = (λ h. ground (arith, h), λ h. ground (arith, h))

pub is_flag-IsFlag : (v : Value) → is_flag v ≡ true → IsFlag v
is_flag-IsFlag undefined h = inl refl
is_flag-IsFlag (bool b) h = inr (b, refl)
is_flag-IsFlag v h = absurd (false≢true h)

pub IsFlag-is_flag : (v : Value) → IsFlag v → is_flag v ≡ true
IsFlag-is_flag v (inl e) = ap is_flag e
IsFlag-is_flag v (inr (b, e)) = ap is_flag e

pub is_interval-IsInterval : (v : Value) → is_interval v ≡ true → IsInterval v
is_interval-IsInterval undefined h = inl refl
is_interval-IsInterval (number (whole n)) h = inr (n, refl, (leb_iff n 9007199254740991).0 h)
is_interval-IsInterval v h = absurd (false≢true h)

pub IsInterval-is_interval : (v : Value) → IsInterval v → is_interval v ≡ true
IsInterval-is_interval v (inl e) = ap is_interval e
IsInterval-is_interval v (inr (n, e, l)) = ap is_interval e ∙ (leb_iff n 9007199254740991).1 l

is_reason-IsReason : (v : Value) → is_reason v ≡ true → IsReason v
is_reason-IsReason undefined h = inl refl
is_reason-IsReason null h = inr (inl refl)
is_reason-IsReason (string s) h = inr (inr (s, refl))
is_reason-IsReason v h = absurd (false≢true h)

IsReason-is_reason : (v : Value) → IsReason v → is_reason v ≡ true
IsReason-is_reason v (inl e) = ap is_reason e
IsReason-is_reason v (inr (inl e)) = ap is_reason e
IsReason-is_reason v (inr (inr (s, e))) = ap is_reason e

is_http-cases :
    (o : Option Text) → is_http o ≡ true → (o ≡ some (codes "https:")) ⊎ (o ≡ some (codes "http:"))
is_http-cases none h = absurd (false≢true h)
is_http-cases (some p) h =
    ground (arith, h, text_eq_iff p (codes "https:"), text_eq_iff p (codes "http:"))

https_is_http : is_http (some (codes "https:")) ≡ true
unfolding text_eq
https_is_http = refl

http_is_http : is_http (some (codes "http:")) ≡ true
unfolding text_eq
http_is_http = refl

module _ (is_ip : Text → ℕ) (protocol : Text → Option Text) where
  abbrev pub IsFeed : Value → Type 0
  IsFeed v =
      (v ≡ undefined)
      ⊎ ((s : Text) × (v ≡ string s)
          × ((protocol s ≡ some (codes "https:")) ⊎ (protocol s ≡ some (codes "http:"))))

  -- A literal address without a zone, with white space around it or not
  abbrev pub IsAddress : Text → Type 0
  IsAddress s = (has_zone s ≡ false) × (is_ip (trim s) ≢ 0)

  abbrev pub HasAddress : Entry → Type 0
  HasAddress e = (s : Text) × (reason : Value) × (e ≡ object (string s) reason) × IsAddress s

  abbrev pub width : ℕ → ℕ
  width version = if version == 4 then 32 else 128

  -- An address, a slash and a number of bits that is not greater than the address is wide
  abbrev pub IsCidr : Value → Type 0
  IsCidr v =
      (s host bits : Text) × (v ≡ string s)
      × (trim s ≡ host ++ b'/' ∷ bits)
      × NoSlash host
      × NoSlash bits
      × IsAddress host
      × (is_digits (trim bits) ≡ true)
      × (number_of (trim bits) ≤ width (is_ip (trim host)))

  pub is_feed-IsFeed : (v : Value) → is_feed is_ip protocol v ≡ true → IsFeed v
  is_feed-IsFeed undefined h = inl refl
  is_feed-IsFeed (string s) h = inr (s, refl, is_http-cases (protocol s) h)
  is_feed-IsFeed v h = absurd (false≢true h)

  pub IsFeed-is_feed : (v : Value) → IsFeed v → is_feed is_ip protocol v ≡ true
  IsFeed-is_feed v (inl e) = ap (is_feed is_ip protocol) e
  IsFeed-is_feed v (inr (s, e, inl p)) =
      ap (is_feed is_ip protocol) e ∙ (ap is_http p ∙ https_is_http)
  IsFeed-is_feed v (inr (s, e, inr p)) =
      ap (is_feed is_ip protocol) e ∙ (ap is_http p ∙ http_is_http)

  is_address_iff : (s : Text) → (is_address is_ip protocol (string s) ≡ true) ↔ IsAddress s
  is_address_iff s = ground (arith, ==_iff (is_ip (trim s)) 0)

  has_address-HasAddress : (e : Entry) → has_address is_ip protocol e ≡ true → HasAddress e
  has_address-HasAddress scalar h = absurd (false≢true h)
  has_address-HasAddress (object (string s) reason) h = (s, reason, refl, (is_address_iff s).0 h)
  has_address-HasAddress (object v reason) h = absurd (false≢true h)

  HasAddress-has_address : (e : Entry) → HasAddress e → has_address is_ip protocol e ≡ true
  HasAddress-has_address e (s, reason, k, a) =
      ap (has_address is_ip protocol) k ∙ (is_address_iff s).1 a

  parts_iff :
      (host bits : Text)
      → (are_parts is_ip protocol (host, bits ∷ []) ≡ true) ↔ (
          IsAddress host
          × (is_digits (trim bits) ≡ true)
          × (number_of (trim bits) ≤ width (is_ip (trim host))))
  parts_iff host bits = ground (
    arith,
    ==_iff (is_ip (trim host)) 0,
    leb_iff (number_of (trim bits)) (width (is_ip (trim host))),
  )

  AreTwo : Text × List Text → Type 0
  AreTwo o =
      (host bits : Text) × (o ≡ (host, bits ∷ []))
      × (are_parts is_ip protocol (host, bits ∷ []) ≡ true)

  two_parts : (o : Text × List Text) → are_parts is_ip protocol o ≡ true → AreTwo o
  unfolding AreTwo
  two_parts (host, []) h = absurd (false≢true h)
  two_parts (host, bits ∷ []) h = (host, bits, refl, h)
  two_parts (host, bits ∷ more ∷ ps) h = absurd (false≢true h)

  is_cidr-IsCidr : (v : Value) → is_cidr is_ip protocol v ≡ true → IsCidr v
  unfolding is_cidr AreTwo
  is_cidr-IsCidr (string s) h =
      let (host, bits, two, good) = two_parts (split_slash (trim s)) h in
      let (joined, n, m) = split_slash-two (trim s) host bits two in
      let (a, d, w) = (parts_iff host bits).0 good in (s, host, bits, refl, joined, n, m, a, d, w)
  is_cidr-IsCidr v h = absurd (false≢true h)

  IsCidr-is_cidr : (v : Value) → IsCidr v → is_cidr is_ip protocol v ≡ true
  unfolding is_cidr
  IsCidr-is_cidr v (s, host, bits, e, joined, n, m, a, d, w) =
      let split : split_slash (trim s) ≡ (host, bits ∷ []) =
        ap split_slash joined ∙ split_slash-append host bits n m in
      ap (is_cidr is_ip protocol) e
      ∙ (ap (are_parts is_ip protocol) split ∙ (parts_iff host bits).1 (a, d, w))

  abbrev pub IsEntry : Entry → Type 0
  IsEntry e = HasAddress e × IsReason (reason_of e)

  check_entries_iff :
      (i : ℕ) (es : List Entry) → (check_entries is_ip protocol i es ≡ []) ↔ All IsEntry es
  unfolding check_entries
  check_entries_iff i [] = (λ h. tt, λ h. refl)
  check_entries_iff i (e ∷ es) =
      let rest = check_entries_iff (i + 1) es in
      ground (
        arith,
        rest,
        has_address-HasAddress e,
        HasAddress-has_address e,
        is_reason-IsReason (reason_of e),
        IsReason-is_reason (reason_of e),
      )

  check_cidrs_iff :
      (i : ℕ) (vs : List Value) → (check_cidrs is_ip protocol i vs ≡ []) ↔ All IsCidr vs
  unfolding check_cidrs
  check_cidrs_iff i [] = (λ h. tt, λ h. refl)
  check_cidrs_iff i (v ∷ vs) =
      let rest = check_cidrs_iff (i + 1) vs in
      ground (arith, rest, is_cidr-IsCidr v, IsCidr-is_cidr v)

  abbrev pub AreEntries : Field Entry → Type 0
  AreEntries f = (f ≡ absent) ⊎ ((es : List Entry) × (f ≡ array es) × All IsEntry es)

  abbrev pub AreCidrs : Field Value → Type 0
  AreCidrs f = (f ≡ absent) ⊎ ((vs : List Value) × (f ≡ array vs) × All IsCidr vs)

  pub check_ips-AreEntries : (f : Field Entry) → check_ips is_ip protocol f ≡ [] → AreEntries f
  check_ips-AreEntries absent h = inl refl
  check_ips-AreEntries not_array h = ground (arith, h)
  check_ips-AreEntries (array es) h = inr (es, refl, (check_entries_iff 0 es).0 h)

  pub AreEntries-check_ips : (f : Field Entry) → AreEntries f → check_ips is_ip protocol f ≡ []
  AreEntries-check_ips f (inl e) = ap (check_ips is_ip protocol) e
  AreEntries-check_ips f (inr (es, e, h)) =
      ap (check_ips is_ip protocol) e ∙ (check_entries_iff 0 es).1 h

  pub check_ranges-AreCidrs : (f : Field Value) → check_ranges is_ip protocol f ≡ [] → AreCidrs f
  check_ranges-AreCidrs absent h = inl refl
  check_ranges-AreCidrs not_array h = ground (arith, h)
  check_ranges-AreCidrs (array vs) h = inr (vs, refl, (check_cidrs_iff 0 vs).0 h)

  pub AreCidrs-check_ranges : (f : Field Value) → AreCidrs f → check_ranges is_ip protocol f ≡ []
  AreCidrs-check_ranges f (inl e) = ap (check_ranges is_ip protocol) e
  AreCidrs-check_ranges f (inr (vs, e, h)) =
      ap (check_ranges is_ip protocol) e ∙ (check_cidrs_iff 0 vs).1 h

  pub record IsAccepted (c : IpBlockConfig) : Type 0 where
    pub flags : IsFlag c.enabled × IsFlag c.block_vpn × IsFlag c.block_datacenter
    pub feeds : IsFeed c.vpn_feed_url × IsFeed c.datacenter_feed_url
    pub interval : IsInterval c.feed_refresh_interval_seconds
    pub entries : AreEntries c.blocked_ips
    pub ranges : AreCidrs c.blocked_cidrs
