-- ===== src/IpAnalytics.antt =====
-- FerrumGUI/src/ipAnalytics.ts: `aggregateConnectionIps`. The numbers of a record are natural ones
-- or absent; the code counts an absent, negative or unreadable number of connections as one.
pub mod Totals
use ferrum_proxy.Base.{
  ℕ, ◌+◌, max, if◌then◌else◌, is_empty, any, or_else, Bool, true, false, Text, text_eq, Map, get,
  put, Option, none, some, List, [], ◌∷◌, ◌++◌,
}

pub record IpRecord : Type 0 where
  pub ip : Option Text
  pub last_seen : Option ℕ
  pub connections : Option ℕ

pub record PlayerIpRecord : Type 0 where
  pub username : Option Text
  pub ips : Option (List IpRecord)

-- What is known of an address; the players are a set.
pub record Known : Type 0 where
  pub connections : ℕ
  pub players : List Text
  pub last_seen : ℕ

abbrev pub unknown : Known
unknown = record { connections = 0; players = []; last_seen = 0 }

-- `Math.max(1, Number(n) || 1)` and `Number(n) || 0`
abbrev pub weight : Option ℕ → ℕ
weight n = max 1 (or_else n 1)

abbrev pub named : Option Text → Option Text
named none = none
named (some t) = if is_empty t then none else some t

abbrev pub contains : Text → List Text → Bool
contains t ts = any (λ s. text_eq s t) ts

abbrev pub add_name : Option Text → List Text → List Text
add_name none names = names
add_name (some t) names = if contains t names then names else names ++ t ∷ []

abbrev pub ByIp : Type 0
ByIp = Map Known

abbrev pub current : Text → ByIp → Known
current ip m = or_else (get ip m) unknown

abbrev pub seen : IpRecord → Known → Known
seen e k = record k {
  connections = k.connections + weight e.connections;
  last_seen = max k.last_seen (or_else e.last_seen 0);
}

abbrev pub join_at : Option Text → Option Text → IpRecord → ByIp → ByIp
join_at player none e m = m
join_at player (some ip) e m =
    put ip (seen e (record (current ip m) { players = add_name player (current ip m).players })) m

-- One entry of a player
unfoldable pub add_login : Option Text → IpRecord → ByIp → ByIp
add_login player e m = join_at (named player) (named e.ip) e m

unfoldable pub add_logins : Option Text → List IpRecord → ByIp → ByIp
unfolding add_login
add_logins player [] m = m
add_logins player (e ∷ es) m = add_logins player es (add_login player e m)

-- The first loop
unfoldable pub add_players : List PlayerIpRecord → ByIp → ByIp
unfolding add_logins
add_players [] m = m
add_players (p ∷ ps) m = add_players ps (add_logins p.username (or_else p.ips []) m)

-- The addresses of the second loop so far, and the map
abbrev pub Tracked : Type 0
Tracked = List Text × ByIp

abbrev pub reset : Text → Tracked → Known
reset ip (tracked, m) =
    if contains ip tracked then current ip m else record (current ip m) { connections = 0 }

abbrev pub track_at : Option Text → IpRecord → Tracked → Tracked
track_at none e s = s
track_at (some ip) e s = (add_name (some ip) s.0, put ip (seen e (reset ip s)) s.1)

unfoldable pub track : IpRecord → Tracked → Tracked
track e s = track_at (named e.ip) e s

-- The second loop
unfoldable pub track_all : List IpRecord → Tracked → Tracked
unfolding track
track_all [] s = s
track_all (e ∷ es) s = track_all es (track e s)

-- `aggregateConnectionIps`
unfoldable pub aggregate_connection_ips : List PlayerIpRecord → List IpRecord → ByIp
unfolding add_players track_all
aggregate_connection_ips players connections =
    (track_all connections ([], add_players players [])).1
