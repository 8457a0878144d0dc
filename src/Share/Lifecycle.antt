-- ===== src/Share/Lifecycle.antt =====
-- FerrumClient/src/sharedServiceManager.ts: `start` and `stop` of `SharedServiceManager`.
pub mod Runs
pub mod Interrupted
use ferrum_proxy.Base.{
  ℕ, if◌then◌else◌, not, is_some, is_empty, or_else, Bool, true, false, ◌&&◌, ◌||◌, Text, codes,
  trim, Option, none, some, [],
}
use ferrum_proxy.Share.Manager.{
  Number, natural, LimitsRequest, info, Endpoint, Status, Manager, normalize_limits, require_port,
  with_status, log,
}

-- One protocol of a request.
pub record EndpointRequest : Type 0 where
  pub enabled : Bool
  pub local_host : Option Text
  pub local_port : Option Number

-- `SharedServiceStartRequest`, less the public ports and bind address, which go to the platform
pub record StartRequest : Type 0 where
  pub name : Option Text
  pub public_host : Option Text
  pub haproxy : Bool
  pub tcp : Option EndpointRequest
  pub udp : Option EndpointRequest
  pub limits : LimitsRequest

pub data StartError : Type 0 where
  already_running nothing_enabled invalid_port bind_failed : StartError

abbrev pub text_or : Option Text → Text → Text
text_or none fallback = fallback
text_or (some t) fallback = if is_empty (trim t) then fallback else trim t

abbrev pub is_enabled : Option EndpointRequest → Bool
is_enabled none = false
is_enabled (some r) = r.enabled

abbrev pub is_running : Option Status → Bool
is_running none = false
is_running (some s) = true

-- What is opened for a protocol: an endpoint, nothing, or an exception.
pub data Opened : Type 0 where
  opened : Endpoint → Opened
  unused : Opened
  failed : StartError → Opened

abbrev pub open_at : Text → Option ℕ → Option ℕ → Opened
open_at host none bound = failed invalid_port
open_at host (some port) none = failed bind_failed
open_at host (some port) (some public) =
    opened (record { public_port = public; local_host = host; local_port = port })

-- `bound` is the port that the platform gave to the server, or none if it refused.
abbrev pub open_endpoint : Option EndpointRequest → Option ℕ → Opened
open_endpoint none bound = unused
open_endpoint (some r) bound =
    if r.enabled
    then open_at (text_or r.local_host (codes "127.0.0.1")) (require_port r.local_port) bound
    else unused

unfoldable pub initial_status : ℕ → StartRequest → Status
unfolding normalize_limits
initial_status now r = record {
  name = text_or r.name (codes "Shared Service");
  public_host = text_or r.public_host (codes "127.0.0.1");
  haproxy = r.haproxy;
  tcp = none;
  udp = none;
  limits = normalize_limits r.limits;
  stats = record {
    active_tcp_connections = 0;
    active_udp_peers = 0;
    total_tcp_connections = 0;
    total_udp_peers = 0;
    bytes_in = 0;
    bytes_out = 0;
    dropped_datagrams = 0;
    started_at = now;
  };
  logs = [];
}

-- `stop` to where it waits for the servers' close
unfoldable pub stop_called : Manager → Manager
stop_called m = record m { cleanup_timer = false; tcp_connections = []; udp_peers = [] }

-- The rest of `stop`; its last entry in the log goes with the status that it drops.
unfoldable pub stop_done : Manager → Manager
stop_done m = record m { tcp_server = false; udp_server = false; status = none }

-- `stop`, with no event in its wait
unfoldable pub stop : Manager → Manager
unfolding stop_called stop_done
stop m = stop_done (stop_called m)

abbrev pub finish : ℕ → Manager → Manager
finish now m =
    with_status (log now info (codes "share.started") (codes "Shared service started") none none)
      (record m { cleanup_timer = true })

-- Where the second server fails, `stop` closes the first.
abbrev pub open_udp : ℕ → Opened → Manager → Manager × Option StartError
open_udp now (failed e) m = (stop m, some e)
open_udp now unused m = (finish now m, none)
open_udp now (opened e) m = (
  finish now (with_status (λ s. record s { udp = some e }) (record m { udp_server = true })),
  none,
)

abbrev pub open_tcp : ℕ → Opened → Opened → Manager → Manager × Option StartError
open_tcp now (failed e) u m = (stop m, some e)
open_tcp now unused u m = open_udp now u m
open_tcp now (opened e) u m =
    open_udp now u (with_status (λ s. record s { tcp = some e }) (record m { tcp_server = true }))

-- `start`, with the ports that the platform gives to the TCP and the UDP server
unfoldable pub start :
    ℕ → StartRequest → Option ℕ → Option ℕ → Manager → Manager × Option StartError
unfolding initial_status require_port stop log
start now r tcp_bound udp_bound m =
    if is_running m.status
    then (m, some already_running)
    else if not (is_enabled r.tcp) && not (is_enabled r.udp)
    then (m, some nothing_enabled)
    else open_tcp now (open_endpoint r.tcp tcp_bound) (open_endpoint r.udp udp_bound)
        (record m { status = some (initial_status now r) })
