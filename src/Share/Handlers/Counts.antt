-- ===== src/Share/Handlers/Counts.antt =====
-- FerrumClient/src/sharedServiceManager.ts: what the handlers keep true of the numbers in the status.
pub mod Udp
use Prim.Native.Nat.{◌≤◌}
use mathlib.Core.Bool.{not, ◌&&◌, ◌||◌}
use mathlib.Core.Path.{◌≡◌, refl, ◌∙◌}
use native.Mathlib.Omega.{arith}
use ferrum_proxy.Base.{
  ℕ, ◌+◌, ◌-◌, ◌*◌, suc, leb, ltb, ◌==◌, if◌then◌else◌, any, is_some, length, Bool, true, false,
  Text, codes, Option, none, some, List, [], ◌∷◌, ◌++◌, Map, get, put, delete, HasDistinctKeys,
  HasDistinctKeys-put, HasDistinctKeys-delete, length-put, length-delete, length-delete-le,
  length-append, length-drop, Bool-cases, Option-cases, inl, inr, get-put, text_eq_refl, Bytes,
  or_else,
}
use ferrum_proxy.Share.Manager.{
  Protocol, Level, Status, Stats, Manager, Peer, LogEntry, log_limit, log, trimmed, with_status,
  change, roll_window, spend, consume_for, consume_bandwidth, count_in, count_out, drop_datagram,
  warn, throttled_event,
}
use ferrum_proxy.Share.Handlers.{
  add_socket, delete_socket, set_active_tcp, set_active_udp, accepted, accept, count_connection,
  count_peer, handle_tcp, close_tcp, after_spending, remote_data, local_data, peer_id, peer_created,
  new_peer, ensure_peer, Outbound, set_peer, send, deliver, receive, handle_udp, reply,
  udp_response, drop_peer, remove_udp_peer, cleanup_from, cleanup_for, cleanup_idle_udp_peers,
}

-- The numbers of a status, for so many connections and peers.
abbrev pub Fits : ℕ → ℕ → Status → Type 0
Fits t u s =
    (s.stats.active_tcp_connections ≡ t)
    × ((s.stats.active_udp_peers ≡ u)
        × ((t ≤ s.stats.total_tcp_connections)
            × ((u ≤ s.stats.total_udp_peers) × (length s.logs ≤ log_limit))))

abbrev pub Matches : ℕ → ℕ → Option Status → Type 0
Matches t u none = (t ≡ 0) × (u ≡ 0)
Matches t u (some s) = Fits t u s

-- With a status, its counts are those of the sets of connections and peers, no total is below them,
-- and the log is within its limit; with none, both sets are empty. No peer is there twice.
abbrev pub IsConsistent : Manager → Type 0
IsConsistent m =
    Matches (length m.tcp_connections) (length m.udp_peers) m.status × HasDistinctKeys m.udp_peers

trimmed-length-le : (logs : List LogEntry) → length (trimmed logs) ≤ log_limit
trimmed-length-le logs = ground (arith, length-drop (length logs - log_limit) logs)

pub Fits-log :
    (now : ℕ) (level : Level) (event message : Text) (p : Option Protocol) (a : Option Text)
    {t u : ℕ} (s : Status)
    → Fits t u s
    → Fits t u (log now level event message p a s)
unfolding log
Fits-log now level event message p a s (e, (f, (l, (l', _)))) =
    let entry : LogEntry = record {
      timestamp = now;
      level = level;
      event = event;
      protocol = p;
      message = message;
      remote_address = a;
    } in
    (e, (f, (l, (l', trimmed-length-le (s.logs ++ entry ∷ [])))))

pub change-Matches :
    (f : Status → Status) {t u t' u' : ℕ} (o : Option Status)
    → ((s : Status) → Fits t u s → Fits t' u' (f s))
    → (t ≡ 0 → u ≡ 0 → (t' ≡ 0) × (u' ≡ 0))
    → Matches t u o
    → Matches t' u' (change f o)
change-Matches f none step empty (e, e') = empty e e'
change-Matches f (some s) step empty h = step s h

add_socket-length : (id : ℕ) (ids : List ℕ) → length (add_socket id ids) ≤ suc (length ids)
unfolding add_socket
add_socket-length id ids = ground (arith, length-append ids (id ∷ []))

delete_socket-length : (id : ℕ) (ids : List ℕ) → length (delete_socket id ids) ≤ length ids
unfolding delete_socket
delete_socket-length id [] = omega arith
delete_socket-length id (i ∷ ids) = ground (arith, delete_socket-length id ids)

put-length : (k : Text) (p : Peer) (m : Map Peer) → length (put k p m) ≤ suc (length m)
put-length k p m = ground (arith, length-put k p m)

-- Each handler keeps a manager consistent.
pub accept-IsConsistent :
    (now id : ℕ) (remote : Text) (m : Manager) (o : Option Status)
    → Matches (length m.tcp_connections) (length m.udp_peers) o
    → HasDistinctKeys m.udp_peers
    → m.status ≡ o
    → IsConsistent (accept now id remote o m)
unfolding accepted set_active_tcp
accept-IsConsistent now id remote m none h d e = (rw e h, d)
accept-IsConsistent now id remote m (some s) (e, (f, (l, (l', b)))) d same = (
  Fits-log now _ _ _ _ _
      (count_connection (set_active_tcp (length (add_socket id m.tcp_connections)) s))
      (refl, (f, (omega (arith, add_socket-length id m.tcp_connections), (l', b)))),
  d,
)

pub handle_tcp-IsConsistent :
    (now id : ℕ) (remote : Text) (m : Manager)
    → IsConsistent m
    → IsConsistent (handle_tcp now id remote m)
unfolding handle_tcp
handle_tcp-IsConsistent now id remote m (h, d) =
    accept-IsConsistent now id remote m m.status h d refl

pub close_tcp-IsConsistent :
    (now id : ℕ) (reason remote : Text) (m : Manager)
    → IsConsistent m
    → IsConsistent (close_tcp now id reason remote m)
unfolding close_tcp set_active_tcp
close_tcp-IsConsistent now id reason remote m (h, d) =
    let shorter = delete_socket-length id m.tcp_connections in
    (
      change-Matches _ m.status
          (λ s (e, (f, (l, (l', b)))).
            Fits-log now _ _ _ _ _ (set_active_tcp (length (delete_socket id m.tcp_connections)) s)
              (refl, (f, (omega (arith, shorter), (l', b)))))
          (λ t u. (omega (arith, shorter), u)) h,
      d,
    )

-- What only changes the status, and keeps its numbers
pub with_status-IsConsistent :
    (f : Status → Status) (m : Manager)
    → ((s : Status)
        → Fits (length m.tcp_connections) (length m.udp_peers) s
        → Fits (length m.tcp_connections) (length m.udp_peers) (f s))
    → IsConsistent m
    → IsConsistent (with_status f m)
with_status-IsConsistent f m step (h, d) = (change-Matches f m.status step (λ t u. (t, u)) h, d)

pub count_in-IsConsistent :
    (bytes : ℕ) (m : Manager) → IsConsistent m → IsConsistent (with_status (count_in bytes) m)
unfolding count_in
count_in-IsConsistent bytes m = with_status-IsConsistent _ m (λ s h. h)

pub count_out-IsConsistent :
    (bytes : ℕ) (m : Manager) → IsConsistent m → IsConsistent (with_status (count_out bytes) m)
unfolding count_out
count_out-IsConsistent bytes m = with_status-IsConsistent _ m (λ s h. h)

pub drop_datagram-IsConsistent :
    (now : ℕ) (id : Text) (m : Manager)
    → IsConsistent m
    → IsConsistent (with_status (drop_datagram now id) m)
unfolding drop_datagram
drop_datagram-IsConsistent now id m = with_status-IsConsistent _ m (λ s h.
    Fits-log now _ _ _ _ _
      (record s { stats = record s.stats { dropped_datagrams = s.stats.dropped_datagrams + 1 } }) h)

roll_window-IsConsistent :
    (now : ℕ) (m : Manager) → IsConsistent m → IsConsistent (roll_window now m)
unfolding roll_window
roll_window-IsConsistent now m h = ground (arith, h)

spend-IsConsistent :
    (now bytes : ℕ) (s : Status) (m : Manager)
    → IsConsistent m
    → m.status ≡ some s
    → IsConsistent (spend now bytes s m).0
spend-IsConsistent now bytes s m (h, d) e =
    let fits : Fits (length m.tcp_connections) (length m.udp_peers) s = rw e at h in
    ground (
      arith,
      h,
      d,
      Fits-log now warn throttled_event (codes "Bandwidth limit exceeded") none none s fits,
    )

roll_window-status : (now : ℕ) (m : Manager) → (roll_window now m).status ≡ m.status
unfolding roll_window
roll_window-status now m = ground arith

consume_for-IsConsistent :
    (now bytes : ℕ) (m : Manager) (o : Option Status)
    → IsConsistent m
    → m.status ≡ o
    → IsConsistent (consume_for now bytes o m).0
consume_for-IsConsistent now bytes m none h e = h
consume_for-IsConsistent now bytes m (some s) h e =
    spend-IsConsistent now bytes s (roll_window now m) (roll_window-IsConsistent now m h)
      (roll_window-status now m ∙ e)

pub consume-IsConsistent :
    (now bytes : ℕ) (m : Manager) → IsConsistent m → IsConsistent (consume_bandwidth now bytes m).0
unfolding consume_bandwidth
consume-IsConsistent now bytes m h = consume_for-IsConsistent now bytes m m.status h refl

after_spending-IsConsistent :
    (count : Status → Status) (refuse : Manager → Manager) (r : Manager × Bool)
    → ((m : Manager) → IsConsistent m → IsConsistent (with_status count m))
    → ((m : Manager) → IsConsistent m → IsConsistent (refuse m))
    → IsConsistent r.0
    → IsConsistent (after_spending count refuse r)
after_spending-IsConsistent count refuse (m, true) counted refused h = counted m h
after_spending-IsConsistent count refuse (m, false) counted refused h = refused m h

pub remote_data-IsConsistent :
    (now id : ℕ) (remote : Text) (bytes : ℕ) (m : Manager)
    → IsConsistent m
    → IsConsistent (remote_data now id remote bytes m)
unfolding remote_data
remote_data-IsConsistent now id remote bytes m h =
    after_spending-IsConsistent (count_in bytes) (close_tcp now id (codes "bandwidth limit") remote)
      (consume_bandwidth now bytes m) (count_in-IsConsistent bytes)
      (close_tcp-IsConsistent now id _ remote) (consume-IsConsistent now bytes m h)

pub local_data-IsConsistent :
    (now id : ℕ) (remote : Text) (bytes : ℕ) (m : Manager)
    → IsConsistent m
    → IsConsistent (local_data now id remote bytes m)
unfolding local_data
local_data-IsConsistent now id remote bytes m h =
    after_spending-IsConsistent (count_out bytes)
      (close_tcp now id (codes "bandwidth limit") remote) (consume_bandwidth now bytes m)
      (count_out-IsConsistent bytes) (close_tcp-IsConsistent now id _ remote)
      (consume-IsConsistent now bytes m h)

reply-IsConsistent :
    (now : ℕ) (id : Text) (bytes : ℕ) (r : Manager × Bool)
    → IsConsistent r.0
    → IsConsistent (reply now id bytes r).0
reply-IsConsistent now id bytes (m, true) h = count_out-IsConsistent bytes m h
reply-IsConsistent now id bytes (m, false) h = drop_datagram-IsConsistent now id m h

pub udp_response-IsConsistent :
    (now : ℕ) (id : Text) (bytes : ℕ) (m : Manager)
    → IsConsistent m
    → IsConsistent (udp_response now id bytes m).0
unfolding udp_response
udp_response-IsConsistent now id bytes m h = ground (
  arith,
  reply-IsConsistent now id bytes (consume_bandwidth now bytes m)
      (consume-IsConsistent now bytes m h),
  drop_datagram-IsConsistent now id m h,
)
