-- ===== src/Relay/Client/Counts.antt =====
-- FerrumClient/src/relayShareClient.ts: the tunnels that the status counts.
use ferrum_proxy.Base.{
  ℕ, ◌+◌, ◌≤◌, ◌≡◌, refl, Bool, true, false, none, some, List, [], ◌∷◌, ◌++◌, zero, suc, arith,
}
use ferrum_proxy.Relay.Client.{
  Phase, testing, piping, serving, Loop, Client, ProtocolMode, created, pool, start_tunnel_loops,
}
use ferrum_proxy.Relay.Client.Loops.{Signal, advance_from, advance}
use ferrum_proxy.Relay.Client.Steps.{Event, advance_nth, step, run}

abbrev pub pipes : Phase → ℕ
pipes (piping id local) = 1
pipes _ = 0

abbrev pub serves : Phase → ℕ
serves (serving id peers) = 1
serves _ = 0

abbrev pub total : (Phase → ℕ) → List Loop → ℕ
total f [] = 0
total f (l ∷ ls) = f l.phase + total f ls

abbrev pub one : Bool → ℕ
one true = 1
one false = 0

-- A loop's step keeps the counts within what it does and what the others do.
abbrev Within : ℕ → ℕ → ℕ → ℕ → Client → Type 0
Within others others' p s c = (c.tcp_tunnels ≤ others + p) × (one c.udp_tunnel ≤ others' + s)

advance_from-Within :
    (p : Phase) (signal : Signal) (l : Loop) (c : Client) (others others' : ℕ)
    → l.phase ≡ p
    → Within others others' (pipes p) (serves p) c
    → Within others others'
        (pipes (advance_from p signal l c).1.phase)
        (serves (advance_from p signal l c).1.phase)
        (advance_from p signal l c).0
unfolding advance_from
advance_from-Within testing signal l c n m e h = ground (arith, e, h)
advance_from-Within p signal l c n m e h = ground (arith, e, h)

nth-Within :
    (n : ℕ) (signal : Signal) (ls : List Loop) (c : Client) (others others' : ℕ)
    → Within others others' (total pipes ls) (total serves ls) c
    → Within others others'
        (total pipes (advance_nth n signal ls c).1)
        (total serves (advance_nth n signal ls c).1)
        (advance_nth n signal ls c).0
unfolding advance_nth advance
nth-Within n signal [] c o o' h = h
nth-Within zero signal (l ∷ ls) c o o' (t, u) =
    let here =
      advance_from-Within l.phase signal l c (o + total pipes ls) (o' + total serves ls) refl
        (omega (arith, t), omega (arith, u)) in
    omega (arith, here)
nth-Within (suc n) signal (l ∷ ls) c o o' (t, u) =
    let later =
      nth-Within n signal ls c (o + pipes l.phase) (o' + serves l.phase)
        (omega (arith, t), omega (arith, u)) in
    omega (arith, later)

-- The status counts no more TCP tunnels than are open, and says that there is a UDP tunnel only
-- while some loop serves one.
abbrev pub IsCounted : Client → Type 0
IsCounted c = (c.tcp_tunnels ≤ total pipes c.loops) × (one c.udp_tunnel ≤ total serves c.loops)

pub total-append :
    (f : Phase → ℕ) (ls ks : List Loop) → total f (ls ++ ks) ≡ total f ls + total f ks
total-append f [] ks = omega arith
total-append f (l ∷ ls) ks = omega (arith, total-append f ls ks)

start-IsCounted : (port : ℕ) (c : Client) → IsCounted c → IsCounted (start_tunnel_loops port c)
unfolding start_tunnel_loops
start-IsCounted port c (t, u) =
    let added = pool c.protocol port (c.generation + 1) in
    omega (arith, t, u, total-append pipes c.loops added, total-append serves c.loops added)

pub step-IsCounted : (e : Event) (c : Client) → IsCounted c → IsCounted (step e c)
unfolding step
step-IsCounted (Event.starts e) c h = start-IsCounted e.port (record c { endpoint = some e }) h
step-IsCounted Event.stops c h = h
step-IsCounted Event.stop_ends c h = (omega arith, omega arith)
step-IsCounted Event.heartbeats c h = ground (arith, h)
step-IsCounted (Event.ping_ends pong) c h = ground (arith, h)
step-IsCounted (Event.refresh_ends none) c h = h
step-IsCounted (Event.refresh_ends (some e)) c h =
    ground (arith, h, start-IsCounted e.port (record c { endpoint = some e }) h)
step-IsCounted (Event.signals n signal) c h =
    let kept = nth-Within n signal c.loops c 0 0 (omega (arith, h)) in omega (arith, kept)
step-IsCounted (Event.command_opens id) c h = h
step-IsCounted (Event.closes id) c h = h
step-IsCounted (Event.copies_in bytes) c h = h
step-IsCounted (Event.copies_out bytes) c h = h
step-IsCounted (Event.replies destroyed bytes) c h = ground (arith, h)

run-IsCounted : (es : List Event) (c : Client) → IsCounted c → IsCounted (run es c)
unfolding run
run-IsCounted [] c h = h
run-IsCounted (e ∷ es) c h = run-IsCounted es (step e c) (step-IsCounted e c h)

-- After any sequence of calls, answers, timers and signals, in any order, the status counts no more
-- TCP tunnels than loops that copy the bytes of one, and says that there is a UDP tunnel only while
-- some loop serves one.
pub created-run-IsCounted : (p : ProtocolMode) (es : List Event) → IsCounted (run es (created p))
created-run-IsCounted p es = run-IsCounted es (created p) (omega arith, omega arith)
