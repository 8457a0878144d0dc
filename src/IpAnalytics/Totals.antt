-- ===== src/IpAnalytics/Totals.antt =====
-- FerrumGUI/src/ipAnalytics.ts: the connections that are counted for an address.
use ferrum_proxy.Base.{
  ℕ, ◌+◌, ◌≡◌, refl, ◌∙◌, ap, if◌then◌else◌, or_else, Bool, true, false, ◌||◌, Text, text_eq,
  text_eq_iff, get, get-put, Option, none, some, List, [], ◌∷◌, ◌++◌, arith,
}
use ferrum_proxy.IpAnalytics.{
  IpRecord, PlayerIpRecord, weight, named, contains, add_name, ByIp, current, seen, join_at,
  add_login, add_logins, add_players, Tracked, reset, track_at, track, track_all,
  aggregate_connection_ips,
}

-- Whether a record is of the address, by the address it names
abbrev pub is_at : Text → Option Text → Bool
is_at ip none = false
is_at ip (some t) = text_eq t ip

-- The connections of the records of an address
abbrev pub total : Text → List IpRecord → ℕ
total ip [] = 0
total ip (e ∷ es) = (if is_at ip (named e.ip) then weight e.connections else 0) + total ip es

abbrev pub login_total : Text → List PlayerIpRecord → ℕ
login_total ip [] = 0
login_total ip (p ∷ ps) = total ip (or_else p.ips []) + login_total ip ps

abbrev pub occurs : Text → List IpRecord → Bool
occurs ip [] = false
occurs ip (e ∷ es) = is_at ip (named e.ip) || occurs ip es

abbrev pub count : Text → ByIp → ℕ
count ip m = (current ip m).connections

join-count :
    (ip : Text) (player at : Option Text) (e : IpRecord) (m : ByIp)
    → count ip (join_at player at e m)
      ≡ count ip m + (if is_at ip at then weight e.connections else 0)
join-count ip player none e m = omega arith
join-count ip player (some t) e m = ground (
  arith,
  get-put t ip (seen e (record (current t m) { players = add_name player (current t m).players }))
      m,
  text_eq_iff t ip,
)

logins-count :
    (ip : Text) (player : Option Text) (es : List IpRecord) (m : ByIp)
    → count ip (add_logins player es m) ≡ count ip m + total ip es
unfolding add_logins add_login
logins-count ip player [] m = omega arith
logins-count ip player (e ∷ es) m = omega (
  arith,
  logins-count ip player es (add_login player e m),
  join-count ip (named player) (named e.ip) e m,
)

players-count :
    (ip : Text) (ps : List PlayerIpRecord) (m : ByIp)
    → count ip (add_players ps m) ≡ count ip m + login_total ip ps
unfolding add_players
players-count ip [] m = omega arith
players-count ip (p ∷ ps) m = omega (
  arith,
  players-count ip ps (add_logins p.username (or_else p.ips []) m),
  logins-count ip p.username (or_else p.ips []) m,
)

contains-append :
    (ip t : Text) (ts : List Text) → contains ip (ts ++ t ∷ []) ≡ (text_eq t ip || contains ip ts)
contains-append ip t [] = refl
contains-append ip t (u ∷ ts) = ground (arith, contains-append ip t ts)

contains_same :
    (ip t : Text) (ts : List Text) → text_eq t ip ≡ true → contains t ts ≡ contains ip ts
contains_same ip t ts e = ap (λ (u : Text). contains u ts) ((text_eq_iff t ip).0 e)

contains-add_name :
    (ip t : Text) (ts : List Text)
    → contains ip (add_name (some t) ts) ≡ (text_eq t ip || contains ip ts)
contains-add_name ip t ts = ground (arith, contains-append ip t ts, contains_same ip t ts)

track_at-contains :
    (ip : Text) (at : Option Text) (e : IpRecord) (s : Tracked)
    → contains ip (track_at at e s).0 ≡ (is_at ip at || contains ip s.0)
track_at-contains ip none e s = refl
track_at-contains ip (some t) e s = contains-add_name ip t s.0

track_at-count :
    (ip : Text) (at : Option Text) (e : IpRecord) (s : Tracked)
    → count ip (track_at at e s).1 ≡ (
        if is_at ip at
        then (if contains ip s.0 then count ip s.1 else 0) + weight e.connections
        else count ip s.1)
track_at-count ip none e s = refl
track_at-count ip (some t) e s =
    ground (arith, get-put t ip (seen e (reset t s)) s.1, text_eq_iff t ip, contains_same ip t s.0)

track_all-count :
    (ip : Text) (es : List IpRecord) (s : Tracked)
    → count ip (track_all es s).1 ≡ (
        if contains ip s.0
        then count ip s.1 + total ip es
        else if occurs ip es
        then total ip es
        else count ip s.1)
unfolding track_all track
track_all-count ip [] s = ground arith
track_all-count ip (e ∷ es) s =
    track_all-count ip es (track e s)
    ∙ ground (arith, track_at-contains ip (named e.ip) e s, track_at-count ip (named e.ip) e s)

-- For an address that a connection record names, the connections that are counted are those of the
-- connection records alone; for any other address, those of the logins of all players. A record with
-- no number of connections, or with zero, counts as one.
pub aggregate_connection_ips-count :
    (ip : Text) (players : List PlayerIpRecord) (connections : List IpRecord)
    → count ip (aggregate_connection_ips players connections)
      ≡ (if occurs ip connections then total ip connections else login_total ip players)
unfolding aggregate_connection_ips get
aggregate_connection_ips-count ip players connections =
    track_all-count ip connections ([], add_players players [])
    ∙ ground (arith, players-count ip players [])
