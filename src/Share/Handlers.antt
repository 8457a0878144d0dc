-- ===== src/Share/Handlers.antt =====
-- FerrumClient/src/sharedServiceManager.ts: the handlers of `SharedServiceManager`, one for each
-- event of a socket or timer, and `start` and `stop`. `start` is taken as one step: the ports that
-- the platform gives to the two servers, or its refusals, are arguments.
pub mod Counts
pub mod Cleanup
pub mod Headers
use ferrum_proxy.Base.{
  ℕ, ◌+◌, ◌-◌, ◌*◌, ltb, leb, ◌==◌, if◌then◌else◌, not, any, is_some, is_empty, or_else, length,
  Bool, true, false, ◌&&◌, ◌||◌, Text, Bytes, codes, trim, Map, get, put, delete, Option, none,
  some, List, [], ◌∷◌, ◌++◌,
}
use ferrum_proxy.Base.Decimal.{decimal}
use ferrum_proxy.Share.ProxyHeader.{build_proxy_v2_header}
use ferrum_proxy.Share.Manager.{
  Protocol, tcp, udp, Number, natural, Limits, LimitsRequest, Level, info, Endpoint, Stats, Status,
  Peer, Manager, normalize_limits, require_port, with_status, log, consume_bandwidth, count_in,
  count_out, drop_datagram,
}

-- A set of sockets.
unfoldable pub add_socket : ℕ → List ℕ → List ℕ
add_socket id ids = if any (λ i. i == id) ids then ids else ids ++ id ∷ []

unfoldable pub delete_socket : ℕ → List ℕ → List ℕ
delete_socket id [] = []
delete_socket id (i ∷ ids) = if i == id then delete_socket id ids else i ∷ delete_socket id ids

unfoldable pub set_active_tcp : ℕ → Status → Status
set_active_tcp n s = record s { stats = record s.stats { active_tcp_connections = n } }

unfoldable pub set_active_udp : ℕ → Status → Status
set_active_udp n s = record s { stats = record s.stats { active_udp_peers = n } }

abbrev pub count_connection : Status → Status
count_connection s = record s {
  stats = record s.stats { total_tcp_connections = s.stats.total_tcp_connections + 1 };
}

unfoldable pub accepted : ℕ → ℕ → Text → Status → Status
unfolding set_active_tcp log
accepted now active remote s =
    log now info (codes "tcp.accepted") (codes "TCP connection accepted") (some tcp) (some remote)
      (count_connection (set_active_tcp active s))

abbrev pub accept : ℕ → ℕ → Text → Option Status → Manager → Manager
accept now id remote none m = m
accept now id remote (some s) m =
    let ids = add_socket id m.tcp_connections in
    record m { tcp_connections = ids; status = some (accepted now (length ids) remote s) }

-- `handleTcp`; with no service the new socket is destroyed.
unfoldable pub handle_tcp : ℕ → ℕ → Text → Manager → Manager
unfolding accepted add_socket
handle_tcp now id remote m = accept now id remote m.status m

-- `close` in `handleTcp`, the first time that it is called for a connection
unfoldable pub close_tcp : ℕ → ℕ → Text → Text → Manager → Manager
unfolding set_active_tcp delete_socket log
close_tcp now id reason remote m =
    let ids = delete_socket id m.tcp_connections in
    with_status
      (λ s.
        log now info (codes "tcp.closed") (codes "TCP connection closed: " ++ reason) (some tcp)
          (some remote) (set_active_tcp (length ids) s))
      (record m { tcp_connections = ids })

abbrev pub after_spending : (Status → Status) → (Manager → Manager) → Manager × Bool → Manager
after_spending count refuse (m, true) = with_status count m
after_spending count refuse (m, false) = refuse m

-- The data of a connection, from the remote and from the local socket.
unfoldable pub remote_data : ℕ → ℕ → Text → ℕ → Manager → Manager
unfolding consume_bandwidth count_in close_tcp
remote_data now id remote bytes m =
    after_spending (count_in bytes) (close_tcp now id (codes "bandwidth limit") remote)
      (consume_bandwidth now bytes m)

unfoldable pub local_data : ℕ → ℕ → Text → ℕ → Manager → Manager
unfolding consume_bandwidth count_out close_tcp
local_data now id remote bytes m =
    after_spending (count_out bytes) (close_tcp now id (codes "bandwidth limit") remote)
      (consume_bandwidth now bytes m)

unfoldable pub peer_id : Text → ℕ → Text
unfolding decimal
peer_id host port = host ++ b':' ∷ decimal port

abbrev pub count_peer : Status → Status
count_peer s = record s { stats = record s.stats { total_udp_peers = s.stats.total_udp_peers + 1 } }

unfoldable pub peer_created : ℕ → ℕ → Text → Status → Status
unfolding set_active_udp log
peer_created now active id s =
    log now info (codes "udp.peer_created") (codes "UDP peer created") (some udp) (some id)
      (count_peer (set_active_udp active s))

abbrev pub new_peer : ℕ → Text → ℕ → Peer
new_peer now host port = record {
  remote_host = host;
  remote_port = port;
  last_activity = now;
  proxy_header_sent = false;
}

-- The peer of a datagram, which is created if there is none.
unfoldable pub ensure_peer : ℕ → Text → Text → ℕ → Manager → Manager
unfolding peer_created
ensure_peer now id host port m =
    if is_some (get id m.udp_peers)
    then m
    else let peers = put id (new_peer now host port) m.udp_peers in
      with_status (peer_created now (length peers) id) (record m { udp_peers = peers })

-- The datagram that goes to the local service: whether with a header, and its payload.
pub record Outbound : Type 0 where
  pub header : Bool
  pub payload : Bytes

unfoldable pub set_peer : Text → Peer → Manager → Manager
set_peer id p m = record m { udp_peers = put id p m.udp_peers }

abbrev pub send : ℕ → Text → Bool → Peer → Bytes → Manager × Bool → Manager × Option Outbound
send now id haproxy p payload (m, false) = (with_status (drop_datagram now id) m, none)
send now id haproxy p payload (m, true) =
    let with_header = haproxy && not p.proxy_header_sent in
    (
      with_status (count_in (length payload))
          (set_peer id (record p { proxy_header_sent = p.proxy_header_sent || with_header }) m),
      some (record { header = with_header; payload = payload }),
    )

abbrev pub deliver : ℕ → Text → Bool → Peer → Bytes → Manager → Manager × Option Outbound
deliver now id haproxy p payload m =
    send now id haproxy p payload (consume_bandwidth now (length payload) (set_peer id p m))

abbrev pub receive : ℕ → Text → ℕ → Bytes → Option Status → Manager → Manager × Option Outbound
receive now host port payload none m = (m, none)
receive now host port payload (some s) m =
    let id = peer_id host port in
    let m' = ensure_peer now id host port m in
    let p = or_else (get id m'.udp_peers) (new_peer now host port) in
    deliver now id s.haproxy (record p { last_activity = now }) payload m'

-- `handleUdp`
unfoldable pub handle_udp : ℕ → Text → ℕ → Bytes → Manager → Manager × Option Outbound
unfolding peer_id ensure_peer set_peer consume_bandwidth count_in drop_datagram
handle_udp now host port payload m =
    if m.udp_server then receive now host port payload m.status m else (m, none)

abbrev pub prepend : Option Bytes → Bytes → Option Bytes
prepend none payload = none
prepend (some header) payload = some (header ++ payload)

module _ (is_ip : Text → ℕ) where
  -- The bytes of `outbound`; `none` is an exception of the header's.
  unfoldable pub outbound_bytes : Text → ℕ → Text → ℕ → Outbound → Option Bytes
  unfolding build_proxy_v2_header
  outbound_bytes host port local_host local_port o =
      if o.header
      then prepend (build_proxy_v2_header is_ip host port local_host local_port true) o.payload
      else some o.payload

-- The response of the local service to a peer: whether it is sent on.
abbrev pub reply : ℕ → Text → ℕ → Manager × Bool → Manager × Bool
reply now id bytes (m, true) = (with_status (count_out bytes) m, true)
reply now id bytes (m, false) = (with_status (drop_datagram now id) m, false)

unfoldable pub udp_response : ℕ → Text → ℕ → Manager → Manager × Bool
unfolding consume_bandwidth count_out drop_datagram
udp_response now id bytes m =
    if m.udp_server
    then reply now id bytes (consume_bandwidth now bytes m)
    else (with_status (drop_datagram now id) m, false)

abbrev pub drop_peer : ℕ → Text → Text → Map Peer → Manager → Manager
drop_peer now id reason peers m =
    with_status
      (λ s.
        log now info (codes "udp.peer_expired") (codes "UDP peer removed: " ++ reason) (some udp)
          (some id) (set_active_udp (length peers) s))
      (record m { udp_peers = peers })

-- `removeUdpPeer`
unfoldable pub remove_udp_peer : ℕ → Text → Text → Manager → Manager
unfolding set_active_udp log
remove_udp_peer now id reason m =
    if is_some (get id m.udp_peers) then drop_peer now id reason (delete id m.udp_peers) m else m

-- The loop of `cleanupIdleUdpPeers`
unfoldable pub cleanup_from : ℕ → ℕ → Map Peer → Manager → Manager
unfolding remove_udp_peer
cleanup_from now timeout [] m = m
cleanup_from now timeout ((id, p) ∷ peers) m = cleanup_from now timeout peers (
    if leb timeout (now - p.last_activity)
    then remove_udp_peer now id (codes "idle timeout") m
    else m)

abbrev pub cleanup_for : ℕ → Option Status → Manager → Manager
cleanup_for now none m = m
cleanup_for now (some s) m =
    cleanup_from now (s.limits.udp_session_timeout_seconds * 1000) m.udp_peers m

-- `cleanupIdleUdpPeers`
unfoldable pub cleanup_idle_udp_peers : ℕ → Manager → Manager
unfolding cleanup_from
cleanup_idle_udp_peers now m = cleanup_for now m.status m
