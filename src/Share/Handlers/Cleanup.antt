-- ===== src/Share/Handlers/Cleanup.antt =====
-- FerrumClient/src/sharedServiceManager.ts: which peers `cleanupIdleUdpPeers` takes away.
use mathlib.Core.Path.{◌≡◌, refl, ◌∙◌}
use native.Mathlib.Omega.{arith}
use ferrum_proxy.Base.{
  ℕ, ◌-◌, ◌*◌, leb, if◌then◌else◌, ◌||◌, ◌&&◌, Bool, false, Option-cases, inl, inr, Text, codes,
  text_eq, text_eq_iff, Option, none, some, [], ◌∷◌, Map, get, get-delete, HasDistinctKeys,
}
use ferrum_proxy.Share.Manager.{Status, Peer, Manager}
use ferrum_proxy.Share.Handlers.{remove_udp_peer, cleanup_from, cleanup_idle_udp_peers}

abbrev pub is_idle : ℕ → ℕ → Peer → Bool
is_idle now timeout p = leb timeout (now - p.last_activity)

-- The peer that stays of one that may be there
abbrev pub kept : ℕ → ℕ → Option Peer → Option Peer
kept now timeout none = none
kept now timeout (some p) = if is_idle now timeout p then none else some p

-- Whether some entry of the key is idle
abbrev pub expires : ℕ → ℕ → Text → Map Peer → Bool
expires now timeout j [] = false
expires now timeout j ((k, p) ∷ peers) =
    (text_eq k j && is_idle now timeout p) || expires now timeout j peers

remove-get :
    (now : ℕ) (id j reason : Text) (m : Manager)
    → get j (remove_udp_peer now id reason m).udp_peers
      ≡ (if text_eq id j then none else get j m.udp_peers)
unfolding remove_udp_peer
remove-get now id j reason m = elim (Option-cases (get id m.udp_peers)) [
  | inl absent ↦ ground (arith, absent, text_eq_iff id j)
  | inr (p, known) ↦ rw known (get-delete id j m.udp_peers)
]

cleanup_from-get :
    (now timeout : ℕ) (j : Text) (peers : Map Peer) (m : Manager)
    → get j (cleanup_from now timeout peers m).udp_peers
      ≡ (if expires now timeout j peers then none else get j m.udp_peers)
unfolding cleanup_from
cleanup_from-get now timeout j [] m = refl
cleanup_from-get now timeout j ((k, p) ∷ peers) m =
    cleanup_from-get now timeout j peers
      (if is_idle now timeout p then remove_udp_peer now k (codes "idle timeout") m else m)
    ∙ ground (arith, remove-get now k j (codes "idle timeout") m)

expires_none :
    (now timeout : ℕ) (j : Text) (peers : Map Peer)
    → get j peers ≡ none
    → expires now timeout j peers ≡ false
unfolding get
expires_none now timeout j [] e = refl
expires_none now timeout j ((k, p) ∷ peers) e = ground (arith, expires_none now timeout j peers)

expires-kept :
    (now timeout : ℕ) (j : Text) (peers : Map Peer)
    → HasDistinctKeys peers
    → (if expires now timeout j peers then none else get j peers) ≡ kept now timeout (get j peers)
unfolding get
expires-kept now timeout j [] d = refl
expires-kept now timeout j ((k, p) ∷ peers) (fresh, d) =
    ground
      (arith, text_eq_iff k j, expires_none now timeout j peers, expires-kept now timeout j peers d)

-- Where a service runs and no peer is there twice, `cleanupIdleUdpPeers` takes away exactly the peers
-- that have been idle for the timeout of the service or longer, and changes no other peer.
pub cleanup_idle_udp_peers-get :
    (now : ℕ) (j : Text) (s : Status) (m : Manager)
    → m.status ≡ some s
    → HasDistinctKeys m.udp_peers
    → get j (cleanup_idle_udp_peers now m).udp_peers
      ≡ kept now (s.limits.udp_session_timeout_seconds * 1000) (get j m.udp_peers)
unfolding cleanup_idle_udp_peers
cleanup_idle_udp_peers-get now j s m running d = simp running (
    cleanup_from-get now (s.limits.udp_session_timeout_seconds * 1000) j m.udp_peers m
    ∙ expires-kept now (s.limits.udp_session_timeout_seconds * 1000) j m.udp_peers d)
