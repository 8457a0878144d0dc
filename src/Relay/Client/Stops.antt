-- ===== src/Relay/Client/Stops.antt =====
-- FerrumClient/src/relayShareClient.ts: what goes on after `stop`.
use ferrum_proxy.Base.{
  ℕ, ◌+◌, ◌≤◌, ◌≡◌, refl, ◌∙◌, if◌then◌else◌, Bool, true, false, none, some, List, [], ◌∷◌, zero,
  suc, arith,
}
use ferrum_proxy.Relay.Client.{
  RelayPublicEndpoint, Phase, testing, connecting, sleeping, registered, connecting_local, piping,
  serving, Loop, Client, ProtocolMode, pool, start_tunnel_loops,
}
use ferrum_proxy.Relay.Client.Counts.{total, total-append}
use ferrum_proxy.Relay.Client.Loops.{
  Signal, continues, connected, fails, accepted, local_connected, pipe_ends, frame, advance_from,
  advance, serve_frame, serve_first,
}
use ferrum_proxy.Relay.Client.Pools.{nth-Keeps}
use ferrum_proxy.Relay.Client.Steps.{
  Event, stops, stop_ends, ping_ends, refresh_ends, signals, stop_called, advance_nth, step, run,
}

abbrev pub connects : Phase → ℕ
connects connecting = 1
connects _ = 0

-- Which signals a loop waits for
abbrev pub waits : Phase → Signal → Bool
waits testing continues = true
waits sleeping continues = true
waits connecting (connected id) = true
waits connecting fails = true
waits (registered id) accepted = true
waits (registered id) fails = true
waits (connecting_local id) (local_connected local) = true
waits (connecting_local id) fails = true
waits (piping id local) pipe_ends = true
waits (serving id peers) (frame remote bytes socket) = true
waits (serving id peers) fails = true
waits p signal = false

-- A loop begins to connect where it is connecting after a signal that it waited for.
abbrev pub begins : Signal → Loop → Client → ℕ
begins signal l c = if waits l.phase signal then connects (advance signal l c).1.phase else 0

abbrev pub begins_nth : ℕ → Signal → List Loop → Client → ℕ
begins_nth n signal [] c = 0
begins_nth zero signal (l ∷ ls) c = begins signal l c
begins_nth (suc n) signal (l ∷ ls) c = begins_nth n signal ls c

abbrev pub begins_at : Event → Client → ℕ
begins_at (signals n signal) c = begins_nth n signal c.loops c
begins_at e c = 0

-- How often a loop begins to connect in a run
abbrev pub attempts : List Event → Client → ℕ
attempts [] c = 0
attempts (e ∷ es) c = begins_at e c + attempts es (step e c)

advance_from-begins :
    (p : Phase) (signal : Signal) (l : Loop) (c : Client)
    → l.phase ≡ p
    → c.stopped ≡ true
    → (if waits p signal then connects (advance_from p signal l c).1.phase else 0) ≡ 0
unfolding advance_from serve_frame serve_first
advance_from-begins testing signal l c e h = ground (arith, e, h)
advance_from-begins p signal l c e h = ground (arith, e, h)

nth-begins :
    (n : ℕ) (signal : Signal) (ls : List Loop) (c : Client)
    → c.stopped ≡ true
    → begins_nth n signal ls c ≡ 0
unfolding advance
nth-begins n signal [] c h = refl
nth-begins zero signal (l ∷ ls) c h = advance_from-begins l.phase signal l c refl h
nth-begins (suc n) signal (l ∷ ls) c h = nth-begins n signal ls c h

begins_at-stopped : (e : Event) (c : Client) → c.stopped ≡ true → begins_at e c ≡ 0
begins_at-stopped (signals n signal) c h = nth-begins n signal c.loops c h
begins_at-stopped e c h = refl

advance_from-connects :
    (p : Phase) (signal : Signal) (l : Loop) (c : Client)
    → l.phase ≡ p
    → c.stopped ≡ true
    → connects (advance_from p signal l c).1.phase ≤ connects p
unfolding advance_from
advance_from-connects testing signal l c e h = ground (arith, e, h)
advance_from-connects p signal l c e h = ground (arith, e, h)

nth-connects :
    (n : ℕ) (signal : Signal) (ls : List Loop) (c : Client)
    → c.stopped ≡ true
    → total connects (advance_nth n signal ls c).1 ≤ total connects ls
unfolding advance_nth advance
nth-connects n signal [] c h = omega arith
nth-connects zero signal (l ∷ ls) c h =
    omega (arith, advance_from-connects l.phase signal l c refl h)
nth-connects (suc n) signal (l ∷ ls) c h = omega (arith, nth-connects n signal ls c h)

pool-connects : (p : ProtocolMode) (port g : ℕ) → total connects (pool p port g) ≡ 0
unfolding pool
pool-connects ProtocolMode.tcp port g = ground arith
pool-connects ProtocolMode.udp port g = ground arith
pool-connects ProtocolMode.both port g = ground arith

-- A client that is stopped, and whose loops open so many connections at most
abbrev pub IsStopped : ℕ → Client → Type 0
IsStopped n c = (c.stopped ≡ true) × (total connects c.loops ≤ n)

start-IsStopped :
    (n port : ℕ) (c : Client) → IsStopped n c → IsStopped n (start_tunnel_loops port c)
unfolding start_tunnel_loops
start-IsStopped n port c (s, h) =
    let added = pool c.protocol port (c.generation + 1) in
    (
      s,
      omega (
        arith,
        h,
        total-append connects c.loops added,
        pool-connects c.protocol port (c.generation + 1),
      ),
    )

step-IsStopped : (n : ℕ) (e : Event) (c : Client) → IsStopped n c → IsStopped n (step e c)
unfolding step
step-IsStopped n (Event.starts e) c h = start-IsStopped n e.port (record c { endpoint = some e }) h
step-IsStopped n stops c (s, h) = (refl, h)
step-IsStopped n stop_ends c h = h
step-IsStopped n Event.heartbeats c h = ground (arith, h)
step-IsStopped n (ping_ends pong) c h = ground (arith, h)
step-IsStopped n (refresh_ends none) c h = h
step-IsStopped n (refresh_ends (some e)) c h =
    ground (arith, h, start-IsStopped n e.port (record c { endpoint = some e }) h)
step-IsStopped n (signals k signal) c (s, h) =
    let (g, (same, p)) = nth-Keeps k signal c.loops c in
    (same ∙ s, omega (arith, h, nth-connects k signal c.loops c s))
step-IsStopped n (Event.command_opens id) c h = h
step-IsStopped n (Event.closes id) c h = h
step-IsStopped n (Event.copies_in bytes) c h = h
step-IsStopped n (Event.copies_out bytes) c h = h
step-IsStopped n (Event.replies destroyed bytes) c h = ground (arith, h)

run-IsStopped : (n : ℕ) (es : List Event) (c : Client) → IsStopped n c → IsStopped n (run es c)
unfolding run
run-IsStopped n [] c h = h
run-IsStopped n (e ∷ es) c h = run-IsStopped n es (step e c) (step-IsStopped n e c h)

run-attempts : (n : ℕ) (es : List Event) (c : Client) → IsStopped n c → attempts es c ≡ 0
run-attempts n [] c h = refl
run-attempts n (e ∷ es) c (s, h) =
    omega
      (arith, begins_at-stopped e c s, run-attempts n es (step e c) (step-IsStopped n e c (s, h)))

-- Once `stop` has been called, no loop begins to connect to the relay, whatever happens: the client
-- stays stopped, no signal that a loop waits for leaves it connecting, and at no later time are more
-- loops connecting than were when it was called.
pub stopped-connects :
    (c : Client) (es : List Event)
    → ((run es (stop_called c)).stopped ≡ true)
      × (attempts es (stop_called c) ≡ 0)
      × (total connects (run es (stop_called c)).loops ≤ total connects c.loops)
unfolding stop_called
stopped-connects c es =
    let (stopped, bound) =
      run-IsStopped (total connects c.loops) es (stop_called c) (refl, omega arith) in
    (stopped, run-attempts (total connects c.loops) es (stop_called c) (refl, omega arith), bound)

-- If `stop` is called while the heartbeat waits for the relay, and that wait fails after `stop` is
-- over, then the endpoint that the relay gives to the refresh is in the status of the stopped client.
pub stopped-refreshes :
    (c : Client) (e : RelayPublicEndpoint)
    → c.pinging ≡ true
    → let c' = run (stops ∷ stop_ends ∷ ping_ends false ∷ refresh_ends (some e) ∷ []) c in
      (c'.stopped ≡ true) × (c'.endpoint ≡ some e)
unfolding run step
stopped-refreshes c e h = ground (arith, h)

-- A connection to the relay that is under way when `stop` is called is opened and registered after
-- `stop` is over, and stays among the sockets.
pub stopped-registers :
    (c : Client) (l : Loop) (ls : List Loop) (id : ℕ)
    → c.loops ≡ l ∷ ls
    → l.phase ≡ connecting
    → let c' = run (stops ∷ stop_ends ∷ signals 0 (connected id) ∷ []) c in
      (c'.stopped ≡ true)
      × ((c'.sockets ≡ id ∷ []) × (c'.loops ≡ record l { phase = registered id } ∷ ls))
unfolding run step
stopped-registers c l ls id e h = ground (arith, e, h)
