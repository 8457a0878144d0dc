-- ===== src/IpBlock/Validated.antt =====
-- FerrumGUI/src/ipBlockConfig.ts: `validateIpBlockConfig` reports nothing of just what is acceptable.
use mathlib.Core.Bool.{false≢true}
use ferrum_proxy.Base.{
  ℕ, ◌≡◌, ◌↔◌, refl, ap, ◌∙◌, Bool, true, false, Text, codes, Option, none, some, List, [], ◌++◌,
  arith,
}
use ferrum_proxy.IpBlock.{
  IpBlockConfig, Error, not_boolean, not_url, not_interval, report, is_flag, is_interval, is_feed,
  check_ips, check_ranges, validate_ip_block_config,
}
use ferrum_proxy.IpBlock.Accepted.{
  IsAccepted, append_nil, is_flag-IsFlag, IsFlag-is_flag, is_interval-IsInterval,
  IsInterval-is_interval, is_feed-IsFeed, IsFeed-is_feed, check_ips-AreEntries,
  AreEntries-check_ips, check_ranges-AreCidrs, AreCidrs-check_ranges,
}

-- A report and what follows it
reported_iff :
    (b : Bool) (e : Error) (es : List Error) → (report b e ++ es ≡ []) ↔ ((b ≡ true) × (es ≡ []))
reported_iff true e es = (λ h. (refl, h), λ h. h.1)
reported_iff false e es = (λ h. ground (arith, h), λ h. absurd (false≢true h.0))

module _ (is_ip : Text → ℕ) (protocol : Text → Option Text) where
  accepted :
      (c : IpBlockConfig)
      → validate_ip_block_config is_ip protocol (some c) ≡ []
      → IsAccepted is_ip protocol c
  unfolding validate_ip_block_config
  accepted c h =
      let r6 =
        check_ips is_ip protocol c.blocked_ips ++ check_ranges is_ip protocol c.blocked_cidrs in
      let r5 = report (is_interval c.feed_refresh_interval_seconds) not_interval ++ r6 in
      let r4 =
        report (is_feed is_ip protocol c.datacenter_feed_url) (not_url (codes "datacenterFeedUrl"))
        ++ r5 in
      let r3 =
        report (is_feed is_ip protocol c.vpn_feed_url) (not_url (codes "vpnFeedUrl")) ++ r4 in
      let r2 = report (is_flag c.block_datacenter) (not_boolean (codes "blockDatacenter")) ++ r3 in
      let r1 = report (is_flag c.block_vpn) (not_boolean (codes "blockVpn")) ++ r2 in
      let (a, h1) = (reported_iff (is_flag c.enabled) (not_boolean (codes "enabled")) r1).0 h in
      let (b, h2) = (reported_iff (is_flag c.block_vpn) (not_boolean (codes "blockVpn")) r2).0 h1 in
      let (d, h3) =
        (reported_iff (is_flag c.block_datacenter) (not_boolean (codes "blockDatacenter")) r3).0
          h2 in
      let (e, h4) =
        (reported_iff (is_feed is_ip protocol c.vpn_feed_url) (not_url (codes "vpnFeedUrl")) r4).0
          h3 in
      let (f, h5) =
        (reported_iff (is_feed is_ip protocol c.datacenter_feed_url)
            (not_url (codes "datacenterFeedUrl")) r5).0
          h4 in
      let (i, h6) =
        (reported_iff (is_interval c.feed_refresh_interval_seconds) not_interval r6).0 h5 in
      let (ips, ranges) =
        (append_nil (check_ips is_ip protocol c.blocked_ips)
            (check_ranges is_ip protocol c.blocked_cidrs)).0
          h6 in
      record {
        flags = (
          is_flag-IsFlag c.enabled a,
          is_flag-IsFlag c.block_vpn b,
          is_flag-IsFlag c.block_datacenter d,
        );
        feeds = (
          is_feed-IsFeed is_ip protocol c.vpn_feed_url e,
          is_feed-IsFeed is_ip protocol c.datacenter_feed_url f,
        );
        interval = is_interval-IsInterval c.feed_refresh_interval_seconds i;
        entries = check_ips-AreEntries is_ip protocol c.blocked_ips ips;
        ranges = check_ranges-AreCidrs is_ip protocol c.blocked_cidrs ranges;
      }

  no_errors :
      (c : IpBlockConfig)
      → IsAccepted is_ip protocol c
      → validate_ip_block_config is_ip protocol (some c) ≡ []
  unfolding validate_ip_block_config
  no_errors c h =
      rw
        (
          IsFlag-is_flag c.enabled h.flags.0,
          IsFlag-is_flag c.block_vpn h.flags.1,
          IsFlag-is_flag c.block_datacenter h.flags.2,
          IsFeed-is_feed is_ip protocol c.vpn_feed_url h.feeds.0,
          IsFeed-is_feed is_ip protocol c.datacenter_feed_url h.feeds.1,
          IsInterval-is_interval c.feed_refresh_interval_seconds h.interval,
          AreEntries-check_ips is_ip protocol c.blocked_ips h.entries,
          AreCidrs-check_ranges is_ip protocol c.blocked_cidrs h.ranges,
        )
        refl

  -- No error is reported exactly if the configuration is an object in which each of these is left out
  -- or as follows: a flag is a Boolean, a feed an HTTP or HTTPS URL, the interval a safe natural number,
  -- the blocked addresses a list of entries with a literal address without a zone and with a text,
  -- null or nothing as the reason, and the ranges a list of texts of an address, a slash and a number
  -- of bits up to the address's width.
  pub validate_ip_block_config-eq-nil_iff :
      (o : Option IpBlockConfig)
      → (validate_ip_block_config is_ip protocol o ≡ [])
        ↔ ((c : IpBlockConfig) × (o ≡ some c) × IsAccepted is_ip protocol c)
  unfolding validate_ip_block_config
  validate_ip_block_config-eq-nil_iff none =
      (λ h. ground (arith, h), λ (c, e, k). ground (arith, e))
  validate_ip_block_config-eq-nil_iff (some c) = (
    λ h. (c, refl, accepted c h),
    λ (d, e, k). ap (validate_ip_block_config is_ip protocol) e ∙ no_errors d k,
  )
