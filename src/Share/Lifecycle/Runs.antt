-- ===== src/Share/Lifecycle/Runs.antt =====
-- FerrumClient/src/sharedServiceManager.ts: the manager under any sequence of calls and events.
use mathlib.Core.Path.{◌≡◌, refl}
use native.Mathlib.Omega.{arith}
use ferrum_proxy.Base.{
  ℕ, not, ◌&&◌, true, false, Bool-cases, inl, inr, Text, Bytes, Option, none, some, List, [], ◌∷◌,
  length, ◌⊎◌,
}
use ferrum_proxy.Share.Manager.{Status, Manager, with_status}
use ferrum_proxy.Share.Handlers.{
  handle_tcp, close_tcp, remote_data, local_data, handle_udp, udp_response, remove_udp_peer,
  cleanup_idle_udp_peers,
}
use ferrum_proxy.Share.Handlers.Counts
use ferrum_proxy.Share.Handlers.Counts.Udp
use ferrum_proxy.Share.Handlers.Counts.{IsConsistent, Fits, Fits-log}
use ferrum_proxy.Share.Lifecycle.{
  StartRequest, StartError, Opened, opened, unused, failed, open_endpoint, is_running, is_enabled,
  initial_status, stop, finish, open_udp, open_tcp, start,
}

-- A call of the manager, or an event of a socket or timer, with its time. A start and
-- a stop are one step each: no event comes in their waits.
pub data Event : Type 0 where
  starts : ℕ → StartRequest → Option ℕ → Option ℕ → Event
  stops : Event
  connects : ℕ → ℕ → Text → Event
  closes : ℕ → ℕ → Text → Text → Event
  remote_sends local_sends : ℕ → ℕ → Text → ℕ → Event
  datagram : ℕ → Text → ℕ → Bytes → Event
  response : ℕ → Text → ℕ → Event
  peer_fails : ℕ → Text → Text → Event
  cleanup : ℕ → Event

unfoldable pub step : Event → Manager → Manager
unfolding start stop handle_tcp close_tcp remote_data local_data handle_udp udp_response
    remove_udp_peer cleanup_idle_udp_peers
step (starts now r tcp_bound udp_bound) m = (start now r tcp_bound udp_bound m).0
step stops m = stop m
step (connects now id remote) m = handle_tcp now id remote m
step (closes now id reason remote) m = close_tcp now id reason remote m
step (remote_sends now id remote bytes) m = remote_data now id remote bytes m
step (local_sends now id remote bytes) m = local_data now id remote bytes m
step (datagram now host port payload) m = (handle_udp now host port payload m).0
step (response now id bytes) m = (udp_response now id bytes m).0
step (peer_fails now id reason) m = remove_udp_peer now id reason m
step (cleanup now) m = cleanup_idle_udp_peers now m

unfoldable pub run : List Event → Manager → Manager
unfolding step
run [] m = m
run (e ∷ es) m = run es (step e m)

-- What the constructor makes, at a time
abbrev pub created : ℕ → Manager
created now = record {
  status = none;
  tcp_server = false;
  udp_server = false;
  tcp_connections = [];
  udp_peers = [];
  cleanup_timer = false;
  window_started_at = now;
  window_bytes = 0;
}

stop-IsConsistent : (m : Manager) → IsConsistent (stop m)
unfolding stop
stop-IsConsistent m = ((refl, refl), tt)

finish-IsConsistent : (now : ℕ) (m : Manager) → IsConsistent m → IsConsistent (finish now m)
finish-IsConsistent now m h =
    Counts.with_status-IsConsistent _ (record m { cleanup_timer = true })
      (λ s fits. Fits-log now _ _ _ _ _ s fits) h

open_udp-IsConsistent :
    (now : ℕ) (u : Opened) (m : Manager) → IsConsistent m → IsConsistent (open_udp now u m).0
open_udp-IsConsistent now (failed e) m h = stop-IsConsistent m
open_udp-IsConsistent now unused m h = finish-IsConsistent now m h
open_udp-IsConsistent now (opened e) m h =
    finish-IsConsistent now
      (with_status (λ s. record s { udp = some e }) (record m { udp_server = true }))
      (Counts.with_status-IsConsistent (λ s. record s { udp = some e })
        (record m { udp_server = true }) (λ s fits. fits) h)

open_tcp-IsConsistent :
    (now : ℕ) (t u : Opened) (m : Manager) → IsConsistent m → IsConsistent (open_tcp now t u m).0
open_tcp-IsConsistent now (failed e) u m h = stop-IsConsistent m
open_tcp-IsConsistent now unused u m h = open_udp-IsConsistent now u m h
open_tcp-IsConsistent now (opened e) u m h =
    open_udp-IsConsistent now u
      (with_status (λ s. record s { tcp = some e }) (record m { tcp_server = true }))
      (Counts.with_status-IsConsistent (λ s. record s { tcp = some e })
        (record m { tcp_server = true }) (λ s fits. fits) h)

-- With no service running, nothing is open: no connection and no peer.
begin-IsConsistent :
    (now : ℕ) (r : StartRequest) (o : Option Status) (m : Manager)
    → m.status ≡ o
    → is_running o ≡ false
    → IsConsistent m
    → IsConsistent (record m { status = some (initial_status now r) })
unfolding initial_status
begin-IsConsistent now r none m e idle (h, d) =
    let (t, u) : (length m.tcp_connections ≡ 0) × (length m.udp_peers ≡ 0) = rw e at h in
    ((omega (arith, t), (omega (arith, u), (omega (arith, t), (omega (arith, u), omega arith)))), d)
begin-IsConsistent now r (some s) m e idle h = ground (arith, idle)

start-IsConsistent :
    (now : ℕ) (r : StartRequest) (tcp_bound udp_bound : Option ℕ) (m : Manager)
    → IsConsistent m
    → IsConsistent (start now r tcp_bound udp_bound m).0
unfolding start
start-IsConsistent now r tcp_bound udp_bound m h = elim (Bool-cases (is_running m.status)) [
  | inl running ↦ rw running h
  | inr idle ↦ elim (Bool-cases (not (is_enabled r.tcp) && not (is_enabled r.udp))) [
    | inl nothing ↦ rw (idle, nothing) h
    | inr something ↦
        rw (idle, something)
          (open_tcp-IsConsistent now (open_endpoint r.tcp tcp_bound) (open_endpoint r.udp udp_bound)
            (record m { status = some (initial_status now r) })
            (begin-IsConsistent now r m.status m refl idle h))
  ]
]

pub step-IsConsistent : (e : Event) (m : Manager) → IsConsistent m → IsConsistent (step e m)
unfolding step
step-IsConsistent (starts now r t u) m h = start-IsConsistent now r t u m h
step-IsConsistent stops m h = stop-IsConsistent m
step-IsConsistent (connects now id remote) m h = Counts.handle_tcp-IsConsistent now id remote m h
step-IsConsistent (closes now id reason remote) m h =
    Counts.close_tcp-IsConsistent now id reason remote m h
step-IsConsistent (remote_sends now id remote bytes) m h =
    Counts.remote_data-IsConsistent now id remote bytes m h
step-IsConsistent (local_sends now id remote bytes) m h =
    Counts.local_data-IsConsistent now id remote bytes m h
step-IsConsistent (datagram now host port payload) m h =
    Udp.handle_udp-IsConsistent now host port payload m h
step-IsConsistent (response now id bytes) m h = Counts.udp_response-IsConsistent now id bytes m h
step-IsConsistent (peer_fails now id reason) m h =
    Udp.remove_udp_peer-IsConsistent now id reason m h
step-IsConsistent (cleanup now) m h = Udp.cleanup_idle_udp_peers-IsConsistent now m h

run-IsConsistent : (es : List Event) (m : Manager) → IsConsistent m → IsConsistent (run es m)
unfolding run
run-IsConsistent [] m h = h
run-IsConsistent (e ∷ es) m h = run-IsConsistent es (step e m) (step-IsConsistent e m h)

-- After any sequence of calls and events, of which none comes while a start waits for the servers to
-- listen or a stop for them to close, a manager is consistent: its counts of active connections and
-- peers are the numbers of those that it holds, no total is below them, the log has at most 300
-- entries, no peer is held twice, and with no service it holds no connection and no peer.
pub created-run-IsConsistent : (now : ℕ) (es : List Event) → IsConsistent (run es (created now))
created-run-IsConsistent now es = run-IsConsistent es (created now) ((refl, refl), tt)

-- A start that fails with an exception of its own leaves nothing behind: what was running still is,
-- and else no server, no timer and no status is left.
pub start-failed :
    (now : ℕ) (r : StartRequest) (tcp_bound udp_bound : Option ℕ) (m : Manager) (e : StartError)
    → (start now r tcp_bound udp_bound m).1 ≡ some e
    → ((start now r tcp_bound udp_bound m).0 ≡ m) ⊎ ((start now r tcp_bound udp_bound m).0 ≡ stop m)
unfolding start stop
start-failed now r tcp_bound udp_bound m e h = ground (arith, h)
