-- ===== src/Share/Lifecycle/Interrupted.antt =====
-- FerrumClient/src/sharedServiceManager.ts: a datagram that comes while `stop` waits.
use ferrum_proxy.Base.{
  ℕ, ◌≡◌, refl, ◌∙◌, ap, sym, subst, if◌then◌else◌, length, Bool, true, false, Text, Bytes, none,
  some, is_some, get, put, get-put, text_eq_refl, length-put, [], or_else, arith,
}
use ferrum_proxy.Share.Manager.{Status, Manager, Peer, consume_bandwidth}
use ferrum_proxy.Share.Handlers.{
  peer_id, new_peer, ensure_peer, set_peer, send, deliver, receive, handle_udp,
}
use ferrum_proxy.Share.Lifecycle.{stop_called, stop_done}

-- Just the peer `id` is held.
abbrev HasOne : Text → Manager → Type 0
HasOne id m = (is_some (get id m.udp_peers) ≡ true) × (length m.udp_peers ≡ 1)

put-HasOne :
    (id : Text) (p : Peer) (m : Manager)
    → HasOne id m
    → HasOne id (record m { udp_peers = put id p m.udp_peers })
put-HasOne id p m (h, l) =
    ground (arith, h, l, get-put id id p m.udp_peers, text_eq_refl id, length-put id p m.udp_peers)

ensure_peer-HasOne :
    (now : ℕ) (id host : Text) (port : ℕ) (m : Manager)
    → m.udp_peers ≡ []
    → HasOne id (ensure_peer now id host port m)
unfolding ensure_peer get put
ensure_peer-HasOne now id host port m e = rw e (ground (arith, text_eq_refl id))

consumed-peers :
    (now bytes : ℕ) (m : Manager) → (consume_bandwidth now bytes m).0.udp_peers ≡ m.udp_peers
unfolding consume_bandwidth
consumed-peers now bytes m = ground arith

send-HasOne :
    (now : ℕ) (id : Text) (haproxy : Bool) (p : Peer) (payload : Bytes) (o : Manager × Bool)
    → HasOne id o.0
    → HasOne id (send now id haproxy p payload o).0
unfolding set_peer
send-HasOne now id haproxy p payload (m, false) h = h
send-HasOne now id haproxy p payload (m, true) h = put-HasOne id _ m h

deliver-HasOne :
    (now : ℕ) (id : Text) (haproxy : Bool) (p : Peer) (payload : Bytes) (m : Manager)
    → HasOne id m
    → HasOne id (deliver now id haproxy p payload m).0
unfolding set_peer
deliver-HasOne now id haproxy p payload m h =
    send-HasOne now id haproxy p payload (consume_bandwidth now (length payload) (set_peer id p m))
      (rw (consumed-peers now (length payload) (set_peer id p m)) (put-HasOne id p m h))

-- Of a running service whose UDP server is open: a datagram that comes while `stop` waits for the TCP
-- server to close leaves a peer, so that once the stop is over there is no service, but one peer is
-- held.
pub stop-handle_udp :
    (now : ℕ) (host : Text) (port : ℕ) (payload : Bytes) (s : Status) (m : Manager)
    → m.status ≡ some s
    → m.udp_server ≡ true
    → ((stop_done (handle_udp now host port payload (stop_called m)).0).status ≡ none)
      × (length (stop_done (handle_udp now host port payload (stop_called m)).0).udp_peers ≡ 1)
unfolding stop_called stop_done handle_udp
stop-handle_udp now host port payload s m running listens =
    let id = peer_id host port in
    let called = stop_called m in
    let first = ensure_peer now id host port called in
    let p = or_else (get id first.udp_peers) (new_peer now host port) in
    let held =
      deliver-HasOne now id s.haproxy (record p { last_activity = now }) payload first
        (ensure_peer-HasOne now id host port called refl) in
    let received : handle_udp now host port payload called
        ≡ receive now host port payload (some s) called =
      ap (λ b. if b then receive now host port payload m.status called else (called, none)) listens
      ∙ ap (λ o. receive now host port payload o called) running in
    (refl, subst (λ o. length o.0.udp_peers ≡ 1) (sym received) held.1)
