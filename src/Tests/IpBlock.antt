-- ===== src/Tests/IpBlock.antt =====
-- FerrumGUI/src/ipBlockConfig.ts at concrete inputs.
use ferrum_proxy.Base.{
  ℕ, ◌≡◌, ◌↔◌, refl, if◌then◌else◌, true, Text, codes, trim, text_eq, Option, some, [], ◌∷◌,
}
use ferrum_proxy.Base.Decimal.{is_digits, number_of}
use ferrum_proxy.IpBlock.{
  whole, undefined, bool, number, string, object, array, IpBlockConfig, not_ip, not_cidr,
  validate_ip_block_config,
}
use ferrum_proxy.IpBlock.Accepted.{IsAccepted}
use ferrum_proxy.IpBlock.Validated.{validate_ip_block_config-eq-nil_iff}

ip_block : Unit {0}
unfolding validate_ip_block_config text_eq trim is_digits number_of
ip_block = tt

abbrev is_ip : Text → ℕ
is_ip s = if text_eq s (codes "10.0.0.0") then 4 else 0

abbrev protocol : Text → Option Text
protocol s = some (codes "https:")

abbrev config : IpBlockConfig
config = record {
  enabled = bool true;
  block_vpn = undefined;
  block_datacenter = undefined;
  vpn_feed_url = string (codes "https://a");
  datacenter_feed_url = undefined;
  feed_refresh_interval_seconds = number (whole 60);
  blocked_ips = array (object (string (codes " 10.0.0.0")) undefined ∷ []);
  blocked_cidrs = array (string (codes "10.0.0.0 / 32") ∷ []);
}

good : validate_ip_block_config is_ip protocol (some config) ≡ []
unfolding ip_block
good = refl

-- A prefix that is too long, and an address that is none
bad :
    validate_ip_block_config is_ip protocol (
      some (record config {
        blocked_ips = array (object (string (codes "x")) undefined ∷ []);
        blocked_cidrs = array (string (codes "10.0.0.0/33") ∷ []);
      }))
    ≡ not_ip 0 ∷ not_cidr 0 ∷ []
unfolding ip_block
bad = refl

validate_ip_block_config-eq-nil_iff_example :
    (validate_ip_block_config is_ip protocol (some config) ≡ [])
    ↔ ((c : IpBlockConfig) × (some config ≡ some c) × IsAccepted is_ip protocol c)
validate_ip_block_config-eq-nil_iff_example =
    validate_ip_block_config-eq-nil_iff is_ip protocol (some config)
