-- ===== src/Relay/Client/Steps.antt =====
-- FerrumClient/src/relayShareClient.ts: the steps of `start`, `stop`, `checkRelayHeartbeat` and
-- `refreshRelayAllocation`, which run between the waits of one another and of the loops.
use ferrum_proxy.Base.{
  ℕ, ◌+◌, if◌then◌else◌, not, Bool, true, false, ◌||◌, Option, none, some, List, [], ◌∷◌, zero, suc,
}
use ferrum_proxy.Relay.Client.{
  RelayPublicEndpoint, Loop, Client, track_socket, untrack_socket, start_tunnel_loops,
}
use ferrum_proxy.Relay.Client.Loops.{Signal, advance}

-- `allocateRelayEndpoint`, once the relay has answered, and `startTunnelLoops`
unfoldable pub take_endpoint : RelayPublicEndpoint → Client → Client
unfolding start_tunnel_loops
take_endpoint e c = start_tunnel_loops e.port (record c { endpoint = some e })

-- The end of `start`
unfoldable pub start_done : RelayPublicEndpoint → Client → Client
unfolding take_endpoint
start_done e c = record (take_endpoint e c) { heartbeat_timer = true }

-- `stop`, before it waits for the relay's answer to RELEASE
unfoldable pub stop_called : Client → Client
stop_called c = record c { stopped = true; generation = c.generation + 1; heartbeat_timer = false }

-- `stop`, after it
unfoldable pub stop_done : Client → Client
stop_done c = record c { sockets = []; udp_sockets = []; tcp_tunnels = 0; udp_tunnel = false }

-- `checkRelayHeartbeat`, before it waits for the answer to PING
unfoldable pub heartbeat : Client → Client
heartbeat c = if c.stopped || c.reconnecting then c else record c { pinging = true }

-- The start of `refreshRelayAllocation`
unfoldable pub refresh_called : Client → Client
refresh_called c = record c {
  generation = c.generation + 1;
  sockets = [];
  tcp_tunnels = 0;
  udp_tunnel = false;
  reconnecting = true;
}

-- `checkRelayHeartbeat`, once the answer to PING is there, or will not come
unfoldable pub ping_done : Bool → Client → Client
unfolding refresh_called
ping_done pong c =
    if not c.pinging
    then c
    else if pong
    then record c { pinging = false }
    else refresh_called (record c { pinging = false })

-- The end of `refreshRelayAllocation`, with an endpoint or an exception
unfoldable pub refresh_done : Option RelayPublicEndpoint → Client → Client
unfolding take_endpoint
refresh_done none c = record c { reconnecting = false }
refresh_done (some e) c =
    if c.reconnecting then record (take_endpoint e c) { reconnecting = false } else c

-- A call, an answer of the relay, a timer, a signal to a loop, or an event of a socket. The sockets
-- of `sendRelayCommand` open and close as others do.
pub data Event : Type 0 where
  starts : RelayPublicEndpoint → Event
  stops : Event
  stop_ends : Event
  heartbeats : Event
  ping_ends : Bool → Event
  refresh_ends : Option RelayPublicEndpoint → Event
  signals : ℕ → Signal → Event
  command_opens : ℕ → Event
  closes : ℕ → Event
  copies_in copies_out : ℕ → Event
  replies : Bool → ℕ → Event

-- One loop of the list takes a step.
unfoldable pub advance_nth : ℕ → Signal → List Loop → Client → Client × List Loop
unfolding advance
advance_nth n signal [] c = (c, [])
advance_nth zero signal (l ∷ ls) c = ((advance signal l c).0, (advance signal l c).1 ∷ ls)
advance_nth (suc n) signal (l ∷ ls) c =
    ((advance_nth n signal ls c).0, l ∷ (advance_nth n signal ls c).1)

unfoldable pub signal_loop : ℕ → Signal → Client → Client
unfolding advance_nth
signal_loop n signal c = record ((advance_nth n signal c.loops c).0) {
  loops = (advance_nth n signal c.loops c).1;
}

-- A datagram of the local service: it is dropped after `stop`, or when its tunnel is destroyed.
unfoldable pub udp_reply : Bool → ℕ → Client → Client
udp_reply destroyed bytes c =
    if c.stopped || destroyed then c else record c { bytes_out = c.bytes_out + bytes }

unfoldable pub step : Event → Client → Client
unfolding start_done stop_called stop_done heartbeat ping_done refresh_done signal_loop udp_reply
    track_socket untrack_socket
step (starts e) c = start_done e c
step stops c = stop_called c
step stop_ends c = stop_done c
step heartbeats c = heartbeat c
step (ping_ends pong) c = ping_done pong c
step (refresh_ends e) c = refresh_done e c
step (signals n signal) c = signal_loop n signal c
step (command_opens id) c = track_socket id c
step (closes id) c = untrack_socket id c
step (copies_in bytes) c = record c { bytes_in = c.bytes_in + bytes }
step (copies_out bytes) c = record c { bytes_out = c.bytes_out + bytes }
step (replies destroyed bytes) c = udp_reply destroyed bytes c

unfoldable pub run : List Event → Client → Client
unfolding step
run [] c = c
run (e ∷ es) c = run es (step e c)
