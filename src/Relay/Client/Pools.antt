-- ===== src/Relay/Client/Pools.antt =====
-- FerrumClient/src/relayShareClient.ts: how many tunnel loops may go on.
use ferrum_proxy.Base.{
  ℕ, ◌+◌, ◌≤◌, ◌≡◌, ◌==◌, refl, ◌&&◌, not, none, some, List, [], ◌∷◌, ◌++◌, zero, suc, arith, All,
  All-append,
}
use ferrum_proxy.Relay.Client.{
  Phase, testing, Loop, Client, ProtocolMode, udp, both, tcp_tunnel_pool_size, created, pool,
  start_tunnel_loops,
}
use ferrum_proxy.Relay.Client.Counts.{one}
use ferrum_proxy.Relay.Client.Loops.{Signal, advance_from, advance}
use ferrum_proxy.Relay.Client.Steps.{Event, advance_nth, signal_loop, step, run}

-- The TCP and the UDP loops of a generation
abbrev pub tcp_of : ℕ → List Loop → ℕ
tcp_of g [] = 0
tcp_of g (l ∷ ls) = one (not l.is_udp && l.generation == g) + tcp_of g ls

abbrev pub udp_of : ℕ → List Loop → ℕ
udp_of g [] = 0
udp_of g (l ∷ ls) = one (l.is_udp && l.generation == g) + udp_of g ls

abbrev pub IsUpTo : ℕ → Loop → Type 0
IsUpTo g l = l.generation ≤ g

-- Of the current generation there are at most a pool of TCP loops and one UDP loop, and no loop is
-- of a later one.
abbrev pub IsPooled : Client → Type 0
IsPooled c =
    (tcp_of c.generation c.loops ≤ tcp_tunnel_pool_size)
    × ((udp_of c.generation c.loops ≤ 1) × All (IsUpTo c.generation) c.loops)

-- What a signal to a loop leaves as it is
abbrev pub Keeps : Client → Client → Type 0
Keeps c c' =
    (c'.generation ≡ c.generation) × ((c'.stopped ≡ c.stopped) × (c'.protocol ≡ c.protocol))

advance_from-Keeps :
    (p : Phase) (signal : Signal) (l : Loop) (c : Client)
    → Keeps c (advance_from p signal l c).0
      × (((advance_from p signal l c).1.generation ≡ l.generation)
          × ((advance_from p signal l c).1.is_udp ≡ l.is_udp))
unfolding advance_from
advance_from-Keeps testing signal l c = ground arith
advance_from-Keeps p signal l c = ground arith

pub nth-Keeps :
    (n : ℕ) (signal : Signal) (ls : List Loop) (c : Client) → Keeps c (advance_nth n signal ls c).0
unfolding advance_nth advance
nth-Keeps n signal [] c = (refl, (refl, refl))
nth-Keeps zero signal (l ∷ ls) c = (advance_from-Keeps l.phase signal l c).0
nth-Keeps (suc n) signal (l ∷ ls) c = nth-Keeps n signal ls c

nth-tcp_of :
    (n g : ℕ) (signal : Signal) (ls : List Loop) (c : Client)
    → (tcp_of g (advance_nth n signal ls c).1 ≡ tcp_of g ls)
      × (udp_of g (advance_nth n signal ls c).1 ≡ udp_of g ls)
unfolding advance_nth advance
nth-tcp_of n g signal [] c = (refl, refl)
nth-tcp_of zero g signal (l ∷ ls) c =
    let (k, (same, kind)) = advance_from-Keeps l.phase signal l c in
    (rw (same, kind) refl, rw (same, kind) refl)
nth-tcp_of (suc n) g signal (l ∷ ls) c = omega (arith, nth-tcp_of n g signal ls c)

nth-IsUpTo :
    (n g : ℕ) (signal : Signal) (ls : List Loop) (c : Client)
    → All (IsUpTo g) ls
    → All (IsUpTo g) (advance_nth n signal ls c).1
unfolding advance_nth advance
nth-IsUpTo n g signal [] c h = h
nth-IsUpTo zero g signal (l ∷ ls) c (h, hs) =
    let (k, (same, kind)) = advance_from-Keeps l.phase signal l c in (omega (arith, same, h), hs)
nth-IsUpTo (suc n) g signal (l ∷ ls) c (h, hs) = (h, nth-IsUpTo n g signal ls c hs)

-- No loop is of the generation after the current one.
none_of_next :
    (g : ℕ) (ls : List Loop)
    → All (IsUpTo g) ls
    → (tcp_of (g + 1) ls ≡ 0) × ((udp_of (g + 1) ls ≡ 0) × All (IsUpTo (g + 1)) ls)
none_of_next g [] h = (refl, (refl, tt))
none_of_next g (l ∷ ls) (h, hs) = ground (arith, h, none_of_next g ls hs)

of-append :
    (g : ℕ) (ls ks : List Loop)
    → (tcp_of g (ls ++ ks) ≡ tcp_of g ls + tcp_of g ks)
      × (udp_of g (ls ++ ks) ≡ udp_of g ls + udp_of g ks)
of-append g [] ks = (omega arith, omega arith)
of-append g (l ∷ ls) ks = omega (arith, of-append g ls ks)

pool-IsPooled :
    (p : ProtocolMode) (port g : ℕ)
    → (tcp_of g (pool p port g) ≤ tcp_tunnel_pool_size)
      × ((udp_of g (pool p port g) ≤ 1) × All (IsUpTo g) (pool p port g))
unfolding pool
pool-IsPooled ProtocolMode.tcp port g = ground arith
pool-IsPooled udp port g = ground arith
pool-IsPooled both port g = ground arith

start-IsPooled : (port : ℕ) (c : Client) → IsPooled c → IsPooled (start_tunnel_loops port c)
unfolding start_tunnel_loops
start-IsPooled port c (t, (u, a)) =
    let g = c.generation + 1 in
    let (t0, (u0, up)) = none_of_next c.generation c.loops a in
    let (t1, (u1, all)) = pool-IsPooled c.protocol port g in
    let (t2, u2) = of-append g c.loops (pool c.protocol port g) in
    (
      omega (arith, t0, t1, t2),
      (omega (arith, u0, u1, u2), All-append (IsUpTo g) c.loops (pool c.protocol port g) up all),
    )

next-IsPooled : (c : Client) → IsPooled c → IsPooled (record c { generation = c.generation + 1 })
next-IsPooled c (t, (u, a)) =
    let (t0, (u0, up)) = none_of_next c.generation c.loops a in
    (omega (arith, t0), (omega (arith, u0), up))

signal-IsPooled :
    (n : ℕ) (signal : Signal) (c : Client) → IsPooled c → IsPooled (signal_loop n signal c)
unfolding signal_loop
signal-IsPooled n signal c (t, (u, a)) =
    let (g, kept) = nth-Keeps n signal c.loops c in
    let (t', u') = nth-tcp_of n c.generation signal c.loops c in
    rw g
      (omega (arith, t, t'), (omega (arith, u, u'), nth-IsUpTo n c.generation signal c.loops c a))

step-IsPooled : (e : Event) (c : Client) → IsPooled c → IsPooled (step e c)
unfolding step
step-IsPooled (Event.starts e) c h = start-IsPooled e.port (record c { endpoint = some e }) h
step-IsPooled Event.stops c h = next-IsPooled c h
step-IsPooled Event.stop_ends c h = h
step-IsPooled Event.heartbeats c h = ground (arith, h)
step-IsPooled (Event.ping_ends pong) c h = ground (arith, h, next-IsPooled c h)
step-IsPooled (Event.refresh_ends none) c h = h
step-IsPooled (Event.refresh_ends (some e)) c h =
    ground (arith, h, start-IsPooled e.port (record c { endpoint = some e }) h)
step-IsPooled (Event.signals n signal) c h = signal-IsPooled n signal c h
step-IsPooled (Event.command_opens id) c h = h
step-IsPooled (Event.closes id) c h = h
step-IsPooled (Event.copies_in bytes) c h = h
step-IsPooled (Event.copies_out bytes) c h = h
step-IsPooled (Event.replies destroyed bytes) c h = ground (arith, h)

run-IsPooled : (es : List Event) (c : Client) → IsPooled c → IsPooled (run es c)
unfolding run
run-IsPooled [] c h = h
run-IsPooled (e ∷ es) c h = run-IsPooled es (step e c) (step-IsPooled e c h)

-- However often the client is started, stopped and refreshed, and whatever comes between, at most
-- eight TCP loops and one UDP loop are of the current generation, and none is of a later one.
pub created-run-IsPooled : (p : ProtocolMode) (es : List Event) → IsPooled (run es (created p))
created-run-IsPooled p es = run-IsPooled es (created p) (omega arith, (omega arith, tt))
