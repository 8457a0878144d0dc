-- ===== src/Tests/RelayClient.antt =====
-- FerrumClient/src/relayShareClient.ts: the client at concrete inputs.
use ferrum_proxy.Base.{
  ℕ, ◌≤◌, ◌≡◌, refl, if◌then◌else◌, true, false, Text, codes, trim, trim_start, is_space, Option,
  none, some, List, [], ◌∷◌, ◌++◌,
}
use ferrum_proxy.Base.Decimal.{
  decimal, decimal_from, number_of, is_digits, number_of-decimal, is_digits-decimal,
}
use ferrum_proxy.Relay.Client.{
  RelayPublicEndpoint, Client, both, connecting, registered, created, new_loop, pool, tcp_loops,
  start_tunnel_loops, track_socket, untrack_socket,
}
use ferrum_proxy.Relay.Client.Loops.{
  continues, connected, accepted, local_connected, advance_from, advance, close_tunnel,
  close_udp_tunnel, serve_first, serve_frame,
}
use ferrum_proxy.Relay.Client.Steps.{
  Event, starts, stops, stop_ends, heartbeats, ping_ends, refresh_ends, signals, take_endpoint,
  start_done, stop_called, stop_done, heartbeat, ping_done, refresh_called, refresh_done,
  advance_nth, signal_loop, step, run,
}
use ferrum_proxy.Relay.Client.Counts.{total, IsCounted, created-run-IsCounted}
use ferrum_proxy.Relay.Client.Pools.{IsPooled, created-run-IsPooled}
use ferrum_proxy.Relay.Client.Stops.{
  connects, attempts, stopped-connects, stopped-refreshes, stopped-registers,
}
use ferrum_proxy.Relay.Commands.{ok, parse_connect_response, build_tunnel_registration_command}
use ferrum_proxy.Relay.Commands.Answers.{parse_connect_response-answer_of}

client : Unit {0}
unfolding pool tcp_loops start_tunnel_loops track_socket untrack_socket advance_from advance
    close_tunnel close_udp_tunnel serve_first serve_frame take_endpoint start_done stop_called
    stop_done heartbeat ping_done refresh_called refresh_done advance_nth signal_loop step run
client = tt

abbrev endpoint : RelayPublicEndpoint
endpoint = record { host = codes "h"; port = 7 }

-- A TCP tunnel and a UDP tunnel are opened; the loops are numbered from 0, the UDP loop is the last.
abbrev opens : List Event
opens =
    starts endpoint
    ∷ signals 0 continues
    ∷ signals 0 (connected 1)
    ∷ signals 0 accepted
    ∷ signals 0 (local_connected 2)
    ∷ signals 8 continues
    ∷ signals 8 (connected 3)
    ∷ signals 8 accepted
    ∷ []

tunnels_open :
    ((run opens (created both)).tcp_tunnels ≡ 1)
    × (((run opens (created both)).udp_tunnel ≡ true)
        × ((run opens (created both)).sockets ≡ 1 ∷ 2 ∷ 3 ∷ []))
unfolding client
tunnels_open = (refl, (refl, refl))

created-run-IsCounted_example : IsCounted (run opens (created both))
created-run-IsCounted_example = created-run-IsCounted both opens

created-run-IsPooled_example : IsPooled (run opens (created both))
created-run-IsPooled_example = created-run-IsPooled both opens

abbrev started : Client
started = run (starts endpoint ∷ signals 1 continues ∷ []) (created both)

stopped-connects_example :
    ((run (signals 2 continues ∷ []) (stop_called started)).stopped ≡ true)
    × (attempts (signals 2 continues ∷ []) (stop_called started) ≡ 0)
    × (total connects (run (signals 2 continues ∷ []) (stop_called started)).loops
        ≤ total connects started.loops)
stopped-connects_example = stopped-connects started (signals 2 continues ∷ [])

abbrev pinging : Client
pinging = run (starts endpoint ∷ heartbeats ∷ []) (created both)

abbrev after_stop : Client
after_stop = run (stops ∷ stop_ends ∷ ping_ends false ∷ refresh_ends (some endpoint) ∷ []) pinging

stopped-refreshes_example : (after_stop.stopped ≡ true) × (after_stop.endpoint ≡ some endpoint)
unfolding client
stopped-refreshes_example = stopped-refreshes pinging endpoint refl

abbrev opening : Client
opening = record (created both) { loops = record (new_loop false 7 0) { phase = connecting } ∷ [] }

stopped-registers_example :
    ((run (stops ∷ stop_ends ∷ signals 0 (connected 5) ∷ []) opening).stopped ≡ true)
    × (((run (stops ∷ stop_ends ∷ signals 0 (connected 5) ∷ []) opening).sockets ≡ 5 ∷ [])
        × ((run (stops ∷ stop_ends ∷ signals 0 (connected 5) ∷ []) opening).loops
            ≡ record (record (new_loop false 7 0) { phase = connecting }) { phase = registered 5 }
              ∷ []))
stopped-registers_example =
    stopped-registers opening (record (new_loop false 7 0) { phase = connecting }) [] 5 refl refl

-- `Number` of a text of digits
number : Text → Option ℕ
number s = if is_digits s then some (number_of s) else none

number-decimal : (n : ℕ) → n ≤ 65535 → number (decimal n) ≡ some n
unfolding number
number-decimal n h = rw (is_digits-decimal n, number_of-decimal n) refl

command_test :
    build_tunnel_registration_command true 7 true ≡ codes "UDP_TUNNEL 7 HAPROXY" ++ 10 ∷ []
unfolding build_tunnel_registration_command decimal decimal_from
command_test = refl

parse_connect_response-answer_of_example :
    parse_connect_response number (codes " OK 80 ::1:25565" ++ 10 ∷ []) ≡ ok (codes "::1", 25565)
unfolding decimal decimal_from trim trim_start is_space
parse_connect_response-answer_of_example =
    parse_connect_response-answer_of number number-decimal (codes " OK 80 ::1:25565" ++ 10 ∷ [])
      (codes "::1") 80 25565 refl refl (refl, (refl, (refl, tt))) refl refl
