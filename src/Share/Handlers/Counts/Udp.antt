-- ===== src/Share/Handlers/Counts/Udp.antt =====
-- FerrumClient/src/sharedServiceManager.ts: what the handlers of datagrams keep true of the numbers.
use mathlib.Core.Bool.{not, ◌&&◌, ◌||◌}
use mathlib.Core.Path.{◌≡◌, refl}
use native.Mathlib.Omega.{arith}
use ferrum_proxy.Base.{
  ℕ, suc, is_some, length, Bool, true, false, Text, codes, Option, none, some, [], ◌∷◌, Map, get,
  put, delete, HasDistinctKeys-put, HasDistinctKeys-delete, length-put, length-delete-le,
  Bool-cases, Option-cases, inl, inr, get-put, text_eq_refl, Bytes, or_else,
}
use ferrum_proxy.Share.Manager.{Status, Manager, Peer, with_status, roll_window, consume_bandwidth}
use ferrum_proxy.Share.Handlers.{
  set_active_udp, count_peer, peer_id, peer_created, new_peer, ensure_peer, set_peer, send, receive,
  handle_udp, drop_peer, remove_udp_peer, cleanup_from, cleanup_for, cleanup_idle_udp_peers,
}
use ferrum_proxy.Share.Handlers.Counts.{
  Fits, IsConsistent, Fits-log, change-Matches, count_in-IsConsistent, drop_datagram-IsConsistent,
  consume-IsConsistent,
}

put-length_fresh :
    (k : Text) (p : Peer) (m : Map Peer) → get k m ≡ none → length (put k p m) ≡ suc (length m)
put-length_fresh k p m fresh = ground (arith, length-put k p m)

put-length_known :
    (k : Text) (p : Peer) (m : Map Peer) → is_some (get k m) ≡ true → length (put k p m) ≡ length m
put-length_known k p m known = ground (arith, length-put k p m)

create-IsConsistent :
    (now : ℕ) (id : Text) (p : Peer) (s : Status) (m : Manager)
    → get id m.udp_peers ≡ none
    → m.status ≡ some s
    → IsConsistent m
    → IsConsistent (
        with_status
          (peer_created now (length (put id p m.udp_peers)) id)
          (record m { udp_peers = put id p m.udp_peers }))
unfolding peer_created set_active_udp
create-IsConsistent now id p s m fresh running (h, d) =
    let (e, (f, (l, (l', b)))) : Fits (length m.tcp_connections) (length m.udp_peers) s =
      rw running at h in
    let fits : Fits (length m.tcp_connections) (length (put id p m.udp_peers))
        (peer_created now (length (put id p m.udp_peers)) id s) =
      Fits-log now _ _ _ _ _ (count_peer (set_active_udp (length (put id p m.udp_peers)) s))
        (e, (refl, (l, (omega (arith, put-length_fresh id p m.udp_peers fresh), b)))) in
    (rw running fits, HasDistinctKeys-put id p m.udp_peers d)

ensure_peer-IsConsistent :
    (now : ℕ) (id host : Text) (port : ℕ) (s : Status) (m : Manager)
    → m.status ≡ some s
    → IsConsistent m
    → IsConsistent (ensure_peer now id host port m)
unfolding ensure_peer
ensure_peer-IsConsistent now id host port s m running h = elim (Option-cases (get id m.udp_peers)) [
  | inl fresh ↦ rw fresh (create-IsConsistent now id (new_peer now host port) s m fresh running h)
  | inr (p, known) ↦ rw known h
]

ensure_peer-is_some :
    (now : ℕ) (id host : Text) (port : ℕ) (m : Manager)
    → is_some (get id (ensure_peer now id host port m).udp_peers) ≡ true
unfolding ensure_peer
ensure_peer-is_some now id host port m = elim (Option-cases (get id m.udp_peers)) [
  | inl fresh ↦ rw (fresh, get-put, text_eq_refl) refl
  | inr (p, known) ↦ rw (known, known) refl
]

set_peer-IsConsistent :
    (id : Text) (p : Peer) (m : Manager)
    → is_some (get id m.udp_peers) ≡ true
    → IsConsistent m
    → IsConsistent (set_peer id p m)
unfolding set_peer
set_peer-IsConsistent id p m known (h, d) =
    (rw (put-length_known id p m.udp_peers known) h, HasDistinctKeys-put id p m.udp_peers d)

set_peer-is_some :
    (id : Text) (p : Peer) (m : Manager) → is_some (get id (set_peer id p m).udp_peers) ≡ true
unfolding set_peer
set_peer-is_some id p m = rw (get-put, text_eq_refl) refl

consume-udp_peers :
    (now bytes : ℕ) (m : Manager) → (consume_bandwidth now bytes m).0.udp_peers ≡ m.udp_peers
unfolding consume_bandwidth roll_window
consume-udp_peers now bytes m = ground arith

send-IsConsistent :
    (now : ℕ) (id : Text) (haproxy : Bool) (p : Peer) (payload : Bytes) (r : Manager × Bool)
    → is_some (get id r.0.udp_peers) ≡ true
    → IsConsistent r.0
    → IsConsistent (send now id haproxy p payload r).0
send-IsConsistent now id haproxy p payload (m, false) known h =
    drop_datagram-IsConsistent now id m h
send-IsConsistent now id haproxy p payload (m, true) known h =
    let p' : Peer = record p {
      proxy_header_sent = p.proxy_header_sent || haproxy && not p.proxy_header_sent;
    } in
    count_in-IsConsistent (length payload) (set_peer id p' m)
      (set_peer-IsConsistent id p' m known h)

receive-IsConsistent :
    (now : ℕ) (host : Text) (port : ℕ) (payload : Bytes) (o : Option Status) (m : Manager)
    → m.status ≡ o
    → IsConsistent m
    → IsConsistent (receive now host port payload o m).0
receive-IsConsistent now host port payload none m e h = h
receive-IsConsistent now host port payload (some s) m e h =
    let id = peer_id host port in
    let m' = ensure_peer now id host port m in
    let p : Peer = record (or_else (get id m'.udp_peers) (new_peer now host port)) {
      last_activity = now;
    } in
    let touched = set_peer id p m' in
    send-IsConsistent now id s.haproxy p payload (consume_bandwidth now (length payload) touched)
      (rw (consume-udp_peers now (length payload) touched) (set_peer-is_some id p m'))
      (consume-IsConsistent now (length payload) touched (
        set_peer-IsConsistent id p m' (ensure_peer-is_some now id host port m)
          (ensure_peer-IsConsistent now id host port s m e h)))

pub handle_udp-IsConsistent :
    (now : ℕ) (host : Text) (port : ℕ) (payload : Bytes) (m : Manager)
    → IsConsistent m
    → IsConsistent (handle_udp now host port payload m).0
unfolding handle_udp
handle_udp-IsConsistent now host port payload m h =
    ground (arith, h, receive-IsConsistent now host port payload m.status m refl h)

drop_peer-IsConsistent :
    (now : ℕ) (id reason : Text) (m : Manager)
    → IsConsistent m
    → IsConsistent (drop_peer now id reason (delete id m.udp_peers) m)
unfolding set_active_udp
drop_peer-IsConsistent now id reason m (h, d) =
    let shorter = length-delete-le id m.udp_peers in
    (
      change-Matches _ m.status
          (λ s (e, (f, (l, (l', b)))).
            Fits-log now _ _ _ _ _ (set_active_udp (length (delete id m.udp_peers)) s)
              (e, (refl, (l, (omega (arith, shorter), b)))))
          (λ t u. (t, omega (arith, shorter))) h,
      HasDistinctKeys-delete id m.udp_peers d,
    )

pub remove_udp_peer-IsConsistent :
    (now : ℕ) (id reason : Text) (m : Manager)
    → IsConsistent m
    → IsConsistent (remove_udp_peer now id reason m)
unfolding remove_udp_peer
remove_udp_peer-IsConsistent now id reason m h = elim (Bool-cases (is_some (get id m.udp_peers))) [
  | inl known ↦ rw known (drop_peer-IsConsistent now id reason m h)
  | inr unknown ↦ rw unknown h
]

pub cleanup_from-IsConsistent :
    (now timeout : ℕ) (peers : Map Peer) (m : Manager)
    → IsConsistent m
    → IsConsistent (cleanup_from now timeout peers m)
unfolding cleanup_from
cleanup_from-IsConsistent now timeout [] m h = h
cleanup_from-IsConsistent now timeout ((id, p) ∷ peers) m h =
    cleanup_from-IsConsistent now timeout peers _
      (ground (arith, h, remove_udp_peer-IsConsistent now id (codes "idle timeout") m h))

cleanup_for-IsConsistent :
    (now : ℕ) (o : Option Status) (m : Manager)
    → IsConsistent m
    → IsConsistent (cleanup_for now o m)
cleanup_for-IsConsistent now none m h = h
cleanup_for-IsConsistent now (some s) m h = cleanup_from-IsConsistent now _ m.udp_peers m h

pub cleanup_idle_udp_peers-IsConsistent :
    (now : ℕ) (m : Manager) → IsConsistent m → IsConsistent (cleanup_idle_udp_peers now m)
unfolding cleanup_idle_udp_peers
cleanup_idle_udp_peers-IsConsistent now m h = cleanup_for-IsConsistent now m.status m h
