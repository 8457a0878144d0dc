-- ===== src/Relay/Client.antt =====
-- FerrumClient/src/relayShareClient.ts: the state of `RelayShareClient`, and its steps between two
-- waits. An event is what a step waits for: an answer of the relay, a socket, a timer, or a call. The
-- events of all the loops come in any order. Sockets are numbers; a status that is emitted is a copy.
pub mod Loops
pub mod Steps
pub mod Pools
pub mod Counts
pub mod Stops
use ferrum_proxy.Base.{
  ℕ, ◌+◌, ◌-◌, ◌==◌, if◌then◌else◌, not, any, Bool, true, false, ◌&&◌, Text, Option, none, some,
  List, [], ◌∷◌, ◌++◌, suc, zero,
}

-- `ProtocolMode`, after `validate`
pub data ProtocolMode : Type 0 where
  tcp udp both : ProtocolMode

-- `RelayPublicEndpoint`, less the text that is shown
pub record RelayPublicEndpoint : Type 0 where
  pub host : Text
  pub port : ℕ

-- A peer of a UDP tunnel: its name and its socket
pub record Peer : Type 0 where
  pub remote : Text
  pub socket : ℕ

-- Where a tunnel loop waits, or that it is before the test of its `while`, or over
pub data Phase : Type 0 where
  testing connecting sleeping over : Phase
  registered : ℕ → Phase
  connecting_local : ℕ → Phase
  piping : ℕ → ℕ → Phase
  serving : ℕ → List Peer → Phase

-- A call of `runTcpTunnelLoop` or `runUdpTunnelLoop`
pub record Loop : Type 0 where
  pub is_udp : Bool
  pub public_port : ℕ
  pub generation : ℕ
  pub phase : Phase

-- The fields of the class, those of its status, the loops, and what the heartbeat waits for
pub record Client : Type 0 where
  pub protocol : ProtocolMode
  pub stopped : Bool
  pub generation : ℕ
  pub sockets : List ℕ
  pub udp_sockets : List ℕ
  pub heartbeat_timer : Bool
  pub reconnecting : Bool
  pub pinging : Bool
  pub endpoint : Option RelayPublicEndpoint
  pub tcp_tunnels : ℕ
  pub udp_tunnel : Bool
  pub bytes_in : ℕ
  pub bytes_out : ℕ
  pub loops : List Loop

abbrev pub tcp_tunnel_pool_size : ℕ
tcp_tunnel_pool_size = 8

-- What the constructor makes
abbrev pub created : ProtocolMode → Client
created p = record {
  protocol = p;
  stopped = false;
  generation = 0;
  sockets = [];
  udp_sockets = [];
  heartbeat_timer = false;
  reconnecting = false;
  pinging = false;
  endpoint = none;
  tcp_tunnels = 0;
  udp_tunnel = false;
  bytes_in = 0;
  bytes_out = 0;
  loops = [];
}

-- `trackSocket` and `untrackSocket`, and those of UDP
abbrev pub add : ℕ → List ℕ → List ℕ
add id ids = if any (λ i. i == id) ids then ids else ids ++ id ∷ []

abbrev pub remove : ℕ → List ℕ → List ℕ
remove id [] = []
remove id (i ∷ ids) = let rest = remove id ids in if i == id then rest else i ∷ rest

unfoldable pub track_socket : ℕ → Client → Client
track_socket id c = record c { sockets = add id c.sockets }

unfoldable pub untrack_socket : ℕ → Client → Client
untrack_socket id c = record c { sockets = remove id c.sockets }

unfoldable pub track_udp_socket : ℕ → Client → Client
track_udp_socket id c = record c { udp_sockets = add id c.udp_sockets }

unfoldable pub untrack_udp_socket : ℕ → Client → Client
untrack_udp_socket id c = record c { udp_sockets = remove id c.udp_sockets }

abbrev pub uses_tcp : ProtocolMode → Bool
uses_tcp udp = false
uses_tcp _ = true

abbrev pub uses_udp : ProtocolMode → Bool
uses_udp tcp = false
uses_udp _ = true

-- A loop that has just been called
abbrev pub new_loop : Bool → ℕ → ℕ → Loop
new_loop is_udp port generation = record {
  is_udp = is_udp;
  public_port = port;
  generation = generation;
  phase = testing;
}

unfoldable pub tcp_loops : ℕ → ℕ → ℕ → List Loop
tcp_loops zero port generation = []
tcp_loops (suc n) port generation = new_loop false port generation ∷ tcp_loops n port generation

-- The loops that `startTunnelLoops` calls
unfoldable pub pool : ProtocolMode → ℕ → ℕ → List Loop
unfolding tcp_loops
pool p port generation =
    (if uses_tcp p then tcp_loops tcp_tunnel_pool_size port generation else [])
    ++ (if uses_udp p then new_loop true port generation ∷ [] else [])

-- `startTunnelLoops`
unfoldable pub start_tunnel_loops : ℕ → Client → Client
unfolding pool
start_tunnel_loops port c = record c {
  generation = c.generation + 1;
  loops = c.loops ++ pool c.protocol port (c.generation + 1);
}
