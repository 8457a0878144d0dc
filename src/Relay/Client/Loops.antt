-- ===== src/Relay/Client/Loops.antt =====
-- FerrumClient/src/relayShareClient.ts: the steps of `runTcpTunnelLoop` and `runUdpTunnelLoop`, with
-- `openTcpTunnel`, `openUdpTunnel` and `createUdpPeer`.
use ferrum_proxy.Base.{
  ℕ, ◌+◌, ◌-◌, ◌==◌, if◌then◌else◌, not, any, Bool, true, false, ◌&&◌, Text, text_eq, List, [], ◌∷◌,
  ◌++◌,
}
use ferrum_proxy.Relay.Client.{
  Peer, Phase, testing, connecting, sleeping, over, registered, connecting_local, piping, serving,
  Loop, Client, remove, track_socket, untrack_socket, track_udp_socket,
}

-- What a loop waits for. `continues` is for the steps that wait for nothing, and for a sleep. A
-- peer's socket is bound under a number that the platform gives.
pub data Signal : Type 0 where
  continues : Signal
  connected : ℕ → Signal
  fails : Signal
  accepted : Signal
  local_connected : ℕ → Signal
  pipe_ends : Signal
  frame : Text → ℕ → ℕ → Signal

-- The condition of the `while` of a loop
abbrev pub is_live : Loop → Client → Bool
is_live l c = not c.stopped && l.generation == c.generation

abbrev pub at : Phase → Loop → Loop
at p l = record l { phase = p }

-- The `catch` of a loop
abbrev pub caught : Loop → Client → Client × Loop
caught l c = if is_live l c then (c, at sleeping l) else (c, at testing l)

-- The end of a TCP tunnel, by its last statements
unfoldable pub close_tunnel : ℕ → ℕ → Client → Client
unfolding untrack_socket
close_tunnel tunnel local c =
    let c' = untrack_socket local (untrack_socket tunnel c) in
    record c' { tcp_tunnels = c'.tcp_tunnels - 1 }

abbrev pub forget_peers : List Peer → List ℕ → List ℕ
forget_peers [] ids = ids
forget_peers (p ∷ ps) ids = forget_peers ps (remove p.socket ids)

-- The `finally` of a UDP tunnel
unfoldable pub close_udp_tunnel : ℕ → List Peer → Client → Client
unfolding untrack_socket
close_udp_tunnel tunnel peers c =
    let c' = untrack_socket tunnel c in
    record c' { udp_sockets = forget_peers peers c'.udp_sockets; udp_tunnel = false }

abbrev pub knows : Text → List Peer → Bool
knows remote peers = any (λ p. text_eq p.remote remote) peers

-- A frame that is read, and the test of the `while` after it. `stop` ends the loop with no exception.
unfoldable pub serve_frame : ℕ → List Peer → Text → ℕ → ℕ → Loop → Client → Client × Loop
unfolding track_udp_socket close_udp_tunnel
serve_frame tunnel peers remote bytes id l c =
    let counted = record c { bytes_in = c.bytes_in + bytes } in
    let old = knows remote peers in
    let c' = if old then counted else track_udp_socket id counted in
    let peers' = if old then peers else peers ++ record { remote = remote; socket = id } ∷ [] in
    if c.stopped
    then (close_udp_tunnel tunnel peers' c', at testing l)
    else (c', at (serving tunnel peers') l)

-- The first test of the `while` of a UDP tunnel
unfoldable pub serve_first : ℕ → Loop → Client → Client × Loop
unfolding close_udp_tunnel
serve_first tunnel l c =
    if c.stopped
    then (close_udp_tunnel tunnel [] c, at testing l)
    else (c, at (serving tunnel []) l)

-- One step of a loop, by its phase; a signal that it does not wait for changes nothing.
unfoldable pub advance_from : Phase → Signal → Loop → Client → Client × Loop
unfolding track_socket close_tunnel close_udp_tunnel serve_first serve_frame
advance_from testing continues l c = if is_live l c then (c, at connecting l) else (c, at over l)
advance_from sleeping continues l c = (c, at testing l)
advance_from connecting (connected id) l c = (track_socket id c, at (registered id) l)
advance_from connecting fails l c = caught l c
advance_from (registered id) accepted l c =
    if l.is_udp
    then serve_first id l (record c { udp_tunnel = true })
    else (c, at (connecting_local id) l)
advance_from (registered id) fails l c = caught l c
advance_from (connecting_local id) (local_connected local) l c =
    let c' = track_socket local c in
    (record c' { tcp_tunnels = c'.tcp_tunnels + 1 }, at (piping id local) l)
advance_from (connecting_local id) fails l c = caught l c
advance_from (piping id local) pipe_ends l c = (close_tunnel id local c, at testing l)
advance_from (serving id peers) (frame remote bytes socket) l c =
    serve_frame id peers remote bytes socket l c
advance_from (serving id peers) fails l c = caught l (close_udp_tunnel id peers c)
advance_from _ signal l c = (c, l)

unfoldable pub advance : Signal → Loop → Client → Client × Loop
unfolding advance_from
advance signal l c = advance_from l.phase signal l c
