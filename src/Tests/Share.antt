-- ===== src/Tests/Share.antt =====
-- FerrumClient/src/sharedServiceManager.ts at concrete inputs.
use ferrum_proxy.Base.{
  ◌*◌, ◌≤◌, ◌≡◌, refl, true, false, Bytes, codes, none, some, List, [], ◌∷◌, get, put, delete,
  text_eq, arith, inl, or_else, length,
}
use ferrum_proxy.Base.Decimal.{decimal, decimal_from}
use ferrum_proxy.Share.ProxyHeader.{header_of}
use ferrum_proxy.Share.ProxyHeader.Reading.{read_header, both_ipv4, carried, read_header-header_of}
use ferrum_proxy.Share.Manager.{
  natural, Manager, Status, consume_bandwidth, normalize_limits, require_port, roll_window, log,
  count_in, drop_datagram,
}
use ferrum_proxy.Share.Manager.Bandwidth.{Chunk, passed, passed-le-limit}
use ferrum_proxy.Share.Handlers.{
  handle_udp, cleanup_idle_udp_peers, cleanup_from, remove_udp_peer, peer_id, ensure_peer,
  peer_created, set_peer, set_active_udp, handle_tcp, accepted, add_socket, set_active_tcp,
}
use ferrum_proxy.Share.Handlers.Headers.{Datagram, headers, sent, headers-le-1}
use ferrum_proxy.Share.Handlers.Cleanup.{kept, cleanup_idle_udp_peers-get}
use ferrum_proxy.Share.Handlers.Counts.{IsConsistent}
use ferrum_proxy.Share.Lifecycle.{
  EndpointRequest, StartRequest, initial_status, stop_called, stop_done, stop, start,
}
use ferrum_proxy.Share.Lifecycle.Interrupted.{stop-handle_udp}
use ferrum_proxy.Share.Lifecycle.Runs.{
  starts, connects, datagram, created, step, run, created-run-IsConsistent,
}

share : Unit {0}
unfolding consume_bandwidth normalize_limits require_port roll_window log count_in drop_datagram
    handle_udp cleanup_idle_udp_peers cleanup_from remove_udp_peer peer_id ensure_peer peer_created
    set_peer set_active_udp set_active_tcp handle_tcp accepted add_socket initial_status stop_called
    stop_done stop start step run get put delete text_eq decimal
share = tt

abbrev loopback : Bytes
loopback = 127 ∷ 0 ∷ 0 ∷ 1 ∷ []

abbrev far : Bytes
far = 10 ∷ 1 ∷ 2 ∷ 3 ∷ []

read_header-header_of_example :
    (header : Bytes) × (header_of far 80 loopback 19132 true ≡ some header)
    × (read_header header
        ≡ some (record {
          ipv4 = both_ipv4 far loopback;
          datagram = true;
          source = carried (both_ipv4 far loopback) far;
          destination = carried (both_ipv4 far loopback) loopback;
          source_port = 80;
          destination_port = 19132;
        }))
read_header-header_of_example =
    read_header-header_of far loopback 80 19132 true (inl refl) (inl refl)

abbrev protocol_on : EndpointRequest
protocol_on = record { enabled = true; local_host = none; local_port = some (natural 25565) }

abbrev request : StartRequest
request = record {
  name = some (codes "mc");
  public_host = none;
  haproxy = true;
  tcp = some protocol_on;
  udp = some protocol_on;
  limits = record {
    max_bytes_per_second = some (natural 10);
    idle_timeout_seconds = none;
    udp_session_timeout_seconds = none;
  };
}

abbrev started : Manager
started = (start 0 request (some 1) (some 2) (created 0)).0

abbrev status_of : Status
status_of = or_else started.status (initial_status 0 request)

abbrev chunks : List Chunk
chunks = record { time = 5; bytes = 8 } ∷ record { time = 6; bytes = 8 } ∷ []

passed-chunks : passed chunks started ≡ 8
unfolding share
passed-chunks = refl

passed-le-limit_example : passed chunks started ≤ 10
unfolding share
passed-le-limit_example = passed-le-limit 0 chunks started refl (omega arith, (omega arith, tt))

-- The first datagram of a peer has the header, and the next has not.
first_has_header :
    ((handle_udp 5 (codes "h") 7 (1 ∷ []) started).1
      ≡ some (record { header = true; payload = 1 ∷ [] }))
    × ((handle_udp 6 (codes "h") 7 (2 ∷ []) (handle_udp 5 (codes "h") 7 (1 ∷ []) started).0).1
        ≡ some (record { header = false; payload = 2 ∷ [] }))
unfolding share
first_has_header = (refl, refl)

-- A service with a peer that was last heard of at 5.
abbrev with_peer : Manager
with_peer = record started {
  status = some (initial_status 0 request);
  udp_peers =
      (
        codes "h:7",
        record {
          remote_host = codes "h";
          remote_port = 7;
          last_activity = 5;
          proxy_header_sent = true;
        },
      )
      ∷ [];
}

cleanup_idle_udp_peers-get_example :
    get (codes "h:7") (cleanup_idle_udp_peers 60005 with_peer).udp_peers
    ≡ kept 60005
        ((initial_status 0 request).limits.udp_session_timeout_seconds * 1000)
        (get (codes "h:7") with_peer.udp_peers)
unfolding get
cleanup_idle_udp_peers-get_example =
    cleanup_idle_udp_peers-get 60005 (codes "h:7") (initial_status 0 request) with_peer refl
      (refl, tt)

-- A datagram that comes while the stop waits
stop-handle_udp_example :
    ((stop_done (handle_udp 7 (codes "h") 7 (1 ∷ []) (stop_called started)).0).status ≡ none)
    × (length (stop_done (handle_udp 7 (codes "h") 7 (1 ∷ []) (stop_called started)).0).udp_peers
        ≡ 1)
unfolding share
stop-handle_udp_example = stop-handle_udp 7 (codes "h") 7 (1 ∷ []) status_of started refl refl

created-run-IsConsistent_example : IsConsistent (
    run
      (starts 0 request (some 1) (some 2)
        ∷ connects 1 9 (codes "r")
        ∷ datagram 5 (codes "h") 7 []
        ∷ [])
      (created 0))
created-run-IsConsistent_example = created-run-IsConsistent 0 (
    starts 0 request (some 1) (some 2)
    ∷ connects 1 9 (codes "r")
    ∷ datagram 5 (codes "h") 7 []
    ∷ [])

abbrev datagrams : List Datagram
datagrams =
    record { time = 5; host = codes "h"; port = 7; payload = 1 ∷ [] }
    ∷ record { time = 6; host = codes "g"; port = 7; payload = 2 ∷ [] }
    ∷ record { time = 7; host = codes "h"; port = 7; payload = 3 ∷ [] }
    ∷ []

headers-datagrams : headers (codes "h:7") datagrams started ≡ 1
unfolding share decimal_from
headers-datagrams = refl

headers-le-1_example :
    (headers (codes "h:7") datagrams started ≤ 1)
    × (sent (codes "h:7") started ≡ true → headers (codes "h:7") datagrams started ≡ 0)
headers-le-1_example = headers-le-1 (codes "h:7") datagrams started
