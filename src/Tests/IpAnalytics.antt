-- ===== src/Tests/IpAnalytics.antt =====
-- FerrumGUI/src/ipAnalytics.ts at concrete inputs.
use ferrum_proxy.Base.{
  ◌≡◌, refl, if◌then◌else◌, Text, codes, get, put, text_eq, none, some, List, [], ◌∷◌, ℕ, Option,
}
use ferrum_proxy.IpAnalytics.{
  IpRecord, PlayerIpRecord, add_login, add_logins, add_players, track, track_all,
  aggregate_connection_ips,
}
use ferrum_proxy.IpAnalytics.Totals.{
  total, login_total, occurs, count, aggregate_connection_ips-count,
}

abbrev seen_at : Text → Option ℕ → IpRecord
seen_at ip n = record { ip = some ip; last_seen = none; connections = n }

abbrev players : List PlayerIpRecord
players =
    record {
      username = some (codes "p");
      ips = some (seen_at (codes "1.1.1.1") (some 4) ∷ seen_at (codes "2.2.2.2") (some 3) ∷ []);
    }
    ∷ []

abbrev connections : List IpRecord
connections = seen_at (codes "1.1.1.1") (some 5) ∷ seen_at (codes "1.1.1.1") none ∷ []

aggregate_connection_ips-totals :
    (count (codes "1.1.1.1") (aggregate_connection_ips players connections) ≡ 6)
    × (count (codes "2.2.2.2") (aggregate_connection_ips players connections) ≡ 3)
unfolding get put text_eq add_login add_logins add_players track track_all aggregate_connection_ips
aggregate_connection_ips-totals = (refl, refl)

aggregate_connection_ips-count_example :
    count (codes "1.1.1.1") (aggregate_connection_ips players connections) ≡ (
      if occurs (codes "1.1.1.1") connections
      then total (codes "1.1.1.1") connections
      else login_total (codes "1.1.1.1") players)
aggregate_connection_ips-count_example =
    aggregate_connection_ips-count (codes "1.1.1.1") players connections
