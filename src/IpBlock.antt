-- ===== src/IpBlock.antt =====
-- FerrumGUI/src/ipBlockConfig.ts: `validateIpBlockConfig`, over what can stand in each place of a
-- request's body. `isIP` and the reading of a URL are the platform's: 0 is no address, and a URL that
-- cannot be read has no protocol.
pub mod Parts
pub mod Accepted
pub mod Validated
use ferrum_proxy.Base.{
  ℕ, ◌+◌, ◌==◌, leb, ltb, if◌then◌else◌, any, not, trim, text_eq, Bool, true, false, ◌&&◌, ◌||◌,
  Text, codes, Option, none, some, List, [], ◌∷◌, ◌++◌,
}
use ferrum_proxy.Base.Decimal.{is_digits, number_of}

-- A number of JSON: `negative` is below 0, `fraction` not a whole number.
pub data Number : Type 0 where
  whole : ℕ → Number
  negative fraction : Number

-- A value; `other` is an array or an object.
pub data Value : Type 0 where
  undefined : Value
  null : Value
  bool : Bool → Value
  number : Number → Value
  string : Text → Value
  other : Value

-- An entry of `blockedIps`: an object or an array, or anything else, which has neither field
pub data Entry : Type 0 where
  scalar : Entry
  object : Value → Value → Entry

pub data Field (A : Type 0) : Type 0 where
  absent not_array : Field A
  array : List A → Field A

-- `IpBlockConfig`
pub record IpBlockConfig : Type 0 where
  pub enabled : Value
  pub block_vpn : Value
  pub block_datacenter : Value
  pub vpn_feed_url : Value
  pub datacenter_feed_url : Value
  pub feed_refresh_interval_seconds : Value
  pub blocked_ips : Field Entry
  pub blocked_cidrs : Field Value

pub data Error : Type 0 where
  not_object : Error
  not_boolean not_url : Text → Error
  not_interval not_ips not_cidrs : Error
  not_ip not_reason not_cidr : ℕ → Error

abbrev pub report : Bool → Error → List Error
report good e = if good then [] else e ∷ []

abbrev pub is_flag : Value → Bool
is_flag undefined = true
is_flag (bool b) = true
is_flag v = false

-- `Number.isSafeInteger(n)` and not below 0, or undefined
abbrev pub is_interval : Value → Bool
is_interval undefined = true
is_interval (number (whole n)) = leb n 9007199254740991
is_interval v = false

abbrev pub is_reason : Value → Bool
is_reason undefined = true
is_reason null = true
is_reason (string s) = true
is_reason v = false

abbrev pub reason_of : Entry → Value
reason_of scalar = undefined
reason_of (object ip reason) = reason

-- `s.includes('%')`
abbrev pub has_zone : Text → Bool
has_zone s = any (λ c. c == b'%') s

abbrev pub next_part : ℕ → Text × List Text → Text × List Text
next_part c (p, ps) = if c == b'/' then ([], p ∷ ps) else (c ∷ p, ps)

-- The first part of `s.split('/')`, and the others
unfoldable pub split_slash : Text → Text × List Text
split_slash [] = ([], [])
split_slash (c ∷ s) = next_part c (split_slash s)

abbrev pub is_http : Option Text → Bool
is_http none = false
is_http (some p) = text_eq p (codes "https:") || text_eq p (codes "http:")

module _ (is_ip : Text → ℕ) (protocol : Text → Option Text) where
  abbrev pub is_feed : Value → Bool
  is_feed undefined = true
  is_feed (string s) = is_http (protocol s)
  is_feed v = false

  abbrev pub is_address : Value → Bool
  is_address (string s) = not (has_zone s) && not (is_ip (trim s) == 0)
  is_address v = false

  abbrev pub has_address : Entry → Bool
  has_address scalar = false
  has_address (object ip reason) = is_address ip

  -- The width of an address is 32 for version 4 and 128 for version 6.
  abbrev pub is_prefix : ℕ → Text → Bool
  is_prefix version s =
      not (version == 0) && is_digits s && leb (number_of s) (if version == 4 then 32 else 128)

  abbrev pub are_parts : Text × List Text → Bool
  are_parts (host, length ∷ []) = not (has_zone host) && is_prefix (is_ip (trim host)) (trim length)
  are_parts parts = false

  unfoldable pub is_cidr : Value → Bool
  unfolding split_slash trim is_digits number_of
  is_cidr (string s) = are_parts (split_slash (trim s))
  is_cidr v = false

  unfoldable pub check_entries : ℕ → List Entry → List Error
  unfolding trim
  check_entries i [] = []
  check_entries i (e ∷ es) =
      report (has_address e) (not_ip i)
      ++ report (is_reason (reason_of e)) (not_reason i)
      ++ check_entries (i + 1) es

  unfoldable pub check_cidrs : ℕ → List Value → List Error
  unfolding is_cidr
  check_cidrs i [] = []
  check_cidrs i (v ∷ vs) = report (is_cidr v) (not_cidr i) ++ check_cidrs (i + 1) vs

  abbrev pub check_ips : Field Entry → List Error
  check_ips absent = []
  check_ips not_array = not_ips ∷ []
  check_ips (array es) = check_entries 0 es

  abbrev pub check_ranges : Field Value → List Error
  check_ranges absent = []
  check_ranges not_array = not_cidrs ∷ []
  check_ranges (array vs) = check_cidrs 0 vs

  -- `validateIpBlockConfig`; `none` is what is no object, or an array.
  unfoldable pub validate_ip_block_config : Option IpBlockConfig → List Error
  unfolding check_entries check_cidrs
  validate_ip_block_config none = not_object ∷ []
  validate_ip_block_config (some c) =
      report (is_flag c.enabled) (not_boolean (codes "enabled"))
      ++ (report (is_flag c.block_vpn) (not_boolean (codes "blockVpn"))
          ++ (report (is_flag c.block_datacenter) (not_boolean (codes "blockDatacenter"))
              ++ (report (is_feed c.vpn_feed_url) (not_url (codes "vpnFeedUrl"))
                  ++ (report (is_feed c.datacenter_feed_url) (not_url (codes "datacenterFeedUrl"))
                      ++ (report (is_interval c.feed_refresh_interval_seconds) not_interval
                          ++ (check_ips c.blocked_ips ++ check_ranges c.blocked_cidrs))))))
