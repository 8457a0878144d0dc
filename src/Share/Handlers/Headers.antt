-- ===== src/Share/Handlers/Headers.antt =====
-- FerrumClient/src/sharedServiceManager.ts: which datagrams `handleUdp` sends with a PROXY header.
use ferrum_proxy.Base.{
  ℕ, ◌+◌, ◌≤◌, ◌≡◌, refl, ◌∙◌, if◌then◌else◌, or_else, not, length, Bool, true, false, ◌&&◌, ◌||◌,
  Text, Bytes, text_eq, text_eq_iff, text_eq_refl, get, get-put, Option, none, some, List, [], ◌∷◌,
  arith,
}
use ferrum_proxy.Share.Manager.{Status, Peer, Manager, consume_bandwidth, roll_window}
use ferrum_proxy.Share.Handlers.{
  peer_id, new_peer, ensure_peer, Outbound, set_peer, send, receive, handle_udp,
}

abbrev pub was_sent : Option Peer → Bool
was_sent none = false
was_sent (some p) = p.proxy_header_sent

-- Whether a peer has had its header
abbrev pub sent : Text → Manager → Bool
sent j m = was_sent (get j m.udp_peers)

-- A datagram that comes from outside
pub record Datagram : Type 0 where
  pub time : ℕ
  pub host : Text
  pub port : ℕ
  pub payload : Bytes

abbrev pub with_header : Option Outbound → Bool
with_header none = false
with_header (some o) = o.header

abbrev pub one : Bool → ℕ
one b = if b then 1 else 0

abbrev pub answer : Datagram → Manager → Manager × Option Outbound
answer d m = handle_udp d.time d.host d.port d.payload m

-- How many of the datagrams of the peer `j` are sent on with a header
abbrev pub headers : Text → List Datagram → Manager → ℕ
headers j [] m = 0
headers j (d ∷ ds) m =
    one (text_eq (peer_id d.host d.port) j && with_header (answer d m).1)
    + headers j ds (answer d m).0

set-sent :
    (id j : Text) (p : Peer) (m : Manager)
    → sent j (set_peer id p m) ≡ (if text_eq id j then p.proxy_header_sent else sent j m)
unfolding set_peer
set-sent id j p m = ground (arith, get-put id j p m.udp_peers)

ensure-sent :
    (now : ℕ) (id j host : Text) (port : ℕ) (m : Manager)
    → sent j (ensure_peer now id host port m) ≡ sent j m
unfolding ensure_peer
ensure-sent now id j host port m =
    ground (arith, get-put id j (new_peer now host port) m.udp_peers, text_eq_iff id j)

consume-sent :
    (j : Text) (now bytes : ℕ) (m : Manager) → sent j (consume_bandwidth now bytes m).0 ≡ sent j m
unfolding consume_bandwidth roll_window
consume-sent j now bytes m = ground arith

-- A datagram of a peer: the header that it has, and what is known of its peer afterwards.
send-spent :
    (now : ℕ) (id j : Text) (haproxy : Bool) (p : Peer) (payload : Bytes) (r : Manager × Bool)
    → sent id r.0 ≡ p.proxy_header_sent
    → one (text_eq id j && with_header (send now id haproxy p payload r).1)
        + one (not (sent j (send now id haproxy p payload r).0))
      ≤ one (not (sent j r.0))
send-spent now id j haproxy p payload (m, false) h = ground arith
send-spent now id j haproxy p payload (m, true) h = ground (
  arith,
  h,
  text_eq_iff id j,
  set-sent id j
      (record p { proxy_header_sent = p.proxy_header_sent || haproxy && not p.proxy_header_sent })
      m,
)

known-sent :
    (now : ℕ) (host : Text) (port : ℕ) (o : Option Peer)
    → (or_else o (new_peer now host port)).proxy_header_sent ≡ was_sent o
known-sent now host port none = refl
known-sent now host port (some p) = refl

receive-spent :
    (now : ℕ) (host j : Text) (port : ℕ) (payload : Bytes) (o : Option Status) (m : Manager)
    → one (text_eq (peer_id host port) j && with_header (receive now host port payload o m).1)
        + one (not (sent j (receive now host port payload o m).0))
      ≤ one (not (sent j m))
receive-spent now host j port payload none m = ground arith
receive-spent now host j port payload (some s) m =
    let id = peer_id host port in
    let m' = ensure_peer now id host port m in
    let p : Peer = record (or_else (get id m'.udp_peers) (new_peer now host port)) {
      last_activity = now;
    } in
    let touched = set_peer id p m' in
    let as_known : p.proxy_header_sent ≡ sent id m' =
      known-sent now host port (get id m'.udp_peers) in
    let at_id : sent id touched ≡ p.proxy_header_sent =
      set-sent id id p m' ∙ rw (text_eq_refl id) refl in
    let unchanged : sent j touched ≡ sent j m =
      set-sent id j p m'
      ∙ ground (arith, as_known, text_eq_iff id j)
      ∙ ensure-sent now id j host port m in
    let r = consume_bandwidth now (length payload) touched in
    let spent =
      send-spent now id j s.haproxy p payload r
        (consume-sent id now (length payload) touched ∙ at_id) in
    rw (consume-sent j now (length payload) touched, unchanged) at spent

answer-spent :
    (j : Text) (d : Datagram) (m : Manager)
    → one (text_eq (peer_id d.host d.port) j && with_header (answer d m).1)
        + one (not (sent j (answer d m).0))
      ≤ one (not (sent j m))
unfolding handle_udp
answer-spent j d m = ground (arith, receive-spent d.time d.host j d.port d.payload m.status m)

headers-spent :
    (j : Text) (ds : List Datagram) (m : Manager) → headers j ds m ≤ one (not (sent j m))
headers-spent j [] m = omega arith
headers-spent j (d ∷ ds) m = omega (arith, answer-spent j d m, headers-spent j ds (answer d m).0)

-- As long as no peer is removed, at most one of all the datagrams of a peer is sent to the local
-- service with a PROXY header, and none if the peer has had its header before, whatever datagrams of
-- other peers come between.
pub headers-le-1 :
    (j : Text) (ds : List Datagram) (m : Manager)
    → (headers j ds m ≤ 1) × (sent j m ≡ true → headers j ds m ≡ 0)
headers-le-1 j ds m = ground (arith, headers-spent j ds m)
