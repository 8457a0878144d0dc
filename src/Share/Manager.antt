-- ===== src/Share/Manager.antt =====
-- FerrumClient/src/sharedServiceManager.ts: the state of `SharedServiceManager` and its handlers.
-- Sockets are numbers; what a handler sends is its result. A handler takes the time of `Date.now()`.
-- The change events that are emitted to the user interface are copies of the state, and left out.
pub mod Bandwidth
use ferrum_proxy.Base.{
  ℕ, ◌+◌, ◌-◌, ◌*◌, ltb, leb, ◌==◌, if◌then◌else◌, not, is_some, is_empty, or_else, drop, length,
  Bool, true, false, ◌&&◌, ◌||◌, Text, Bytes, codes, trim, Map, get, put, delete, Option, none,
  some, List, [], ◌∷◌, ◌++◌,
}
use ferrum_proxy.Base.Decimal.{decimal}
use ferrum_proxy.Share.ProxyHeader.{build_proxy_v2_header}

pub data Protocol : Type 0 where
  tcp udp : Protocol

-- A number from a request: a natural one, or one that is negative, a fraction or not a number.
pub data Number : Type 0 where
  natural : ℕ → Number
  other : Number

pub record Limits : Type 0 where
  pub max_bytes_per_second : ℕ
  pub idle_timeout_seconds : ℕ
  pub udp_session_timeout_seconds : ℕ

pub record LimitsRequest : Type 0 where
  pub max_bytes_per_second : Option Number
  pub idle_timeout_seconds : Option Number
  pub udp_session_timeout_seconds : Option Number

pub data Level : Type 0 where
  info warn error : Level

pub record LogEntry : Type 0 where
  pub timestamp : ℕ
  pub level : Level
  pub event : Text
  pub protocol : Option Protocol
  pub message : Text
  pub remote_address : Option Text

pub record Endpoint : Type 0 where
  pub public_port : ℕ
  pub local_host : Text
  pub local_port : ℕ

pub record Stats : Type 0 where
  pub active_tcp_connections : ℕ
  pub active_udp_peers : ℕ
  pub total_tcp_connections : ℕ
  pub total_udp_peers : ℕ
  pub bytes_in : ℕ
  pub bytes_out : ℕ
  pub dropped_datagrams : ℕ
  pub started_at : ℕ

pub record Status : Type 0 where
  pub name : Text
  pub public_host : Text
  pub haproxy : Bool
  pub tcp : Option Endpoint
  pub udp : Option Endpoint
  pub limits : Limits
  pub stats : Stats
  pub logs : List LogEntry

pub record Peer : Type 0 where
  pub remote_host : Text
  pub remote_port : ℕ
  pub last_activity : ℕ
  pub proxy_header_sent : Bool

pub record Manager : Type 0 where
  pub status : Option Status
  pub tcp_server : Bool
  pub udp_server : Bool
  pub tcp_connections : List ℕ
  pub udp_peers : Map Peer
  pub cleanup_timer : Bool
  pub window_started_at : ℕ
  pub window_bytes : ℕ

abbrev pub default_limits : Limits
default_limits = record {
  max_bytes_per_second = 10485760;
  idle_timeout_seconds = 120;
  udp_session_timeout_seconds = 60;
}

abbrev pub log_limit : ℕ
log_limit = 300

-- `positiveInt`
abbrev pub positive_int : Option Number → ℕ → ℕ
positive_int (some (natural n)) fallback = if ltb 0 n then n else fallback
positive_int (some other) fallback = fallback
positive_int none fallback = fallback

-- `normalizeLimits`
unfoldable pub normalize_limits : LimitsRequest → Limits
normalize_limits r = record {
  max_bytes_per_second = positive_int r.max_bytes_per_second default_limits.max_bytes_per_second;
  idle_timeout_seconds = positive_int r.idle_timeout_seconds default_limits.idle_timeout_seconds;
  udp_session_timeout_seconds =
      positive_int r.udp_session_timeout_seconds default_limits.udp_session_timeout_seconds;
}

-- `requirePort`; `none` is the exception.
unfoldable pub require_port : Option Number → Option ℕ
require_port (some (natural n)) = if leb 1 n && leb n 65535 then some n else none
require_port _ = none

abbrev pub change : (Status → Status) → Option Status → Option Status
change f none = none
change f (some s) = some (f s)

abbrev pub with_status : (Status → Status) → Manager → Manager
with_status f m = record m { status = change f m.status }

abbrev pub trimmed : List LogEntry → List LogEntry
trimmed logs = if ltb log_limit (length logs) then drop (length logs - log_limit) logs else logs

-- `log`
unfoldable pub log : ℕ → Level → Text → Text → Option Protocol → Option Text → Status → Status
log now level event message protocol remote s =
    let entry : LogEntry = record {
      timestamp = now;
      level = level;
      event = event;
      protocol = protocol;
      message = message;
      remote_address = remote;
    } in
    record s { logs = trimmed (s.logs ++ entry ∷ []) }

-- A window of a second is over: the next begins.
unfoldable pub roll_window : ℕ → Manager → Manager
roll_window now m =
    if leb 1000 (now - m.window_started_at)
    then record m { window_started_at = now; window_bytes = 0 }
    else m

abbrev pub throttled_event : Text
throttled_event = codes "bandwidth.throttled"

abbrev pub spend : ℕ → ℕ → Status → Manager → Manager × Bool
spend now bytes s m =
    if ltb s.limits.max_bytes_per_second (m.window_bytes + bytes)
    then (
      record m {
        window_bytes = m.window_bytes + bytes;
        status = some (log now warn throttled_event (codes "Bandwidth limit exceeded") none none s);
      },
      false,
    )
    else (record m { window_bytes = m.window_bytes + bytes }, true)

abbrev pub consume_for : ℕ → ℕ → Option Status → Manager → Manager × Bool
consume_for now bytes none m = (m, false)
consume_for now bytes (some s) m = spend now bytes s (roll_window now m)

-- `consumeBandwidth`
unfoldable pub consume_bandwidth : ℕ → ℕ → Manager → Manager × Bool
unfolding roll_window log
consume_bandwidth now bytes m = consume_for now bytes m.status m

unfoldable pub count_in : ℕ → Status → Status
count_in bytes s = record s { stats = record s.stats { bytes_in = s.stats.bytes_in + bytes } }

unfoldable pub count_out : ℕ → Status → Status
count_out bytes s = record s { stats = record s.stats { bytes_out = s.stats.bytes_out + bytes } }

-- `addDroppedDatagram`
unfoldable pub drop_datagram : ℕ → Text → Status → Status
unfolding log
drop_datagram now peer s =
    log now warn (codes "udp.datagram_dropped") (codes "UDP datagram dropped") (some udp)
      (some peer)
      (record s { stats = record s.stats { dropped_datagrams = s.stats.dropped_datagrams + 1 } })
