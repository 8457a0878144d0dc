-- ===== src/Share/Manager/Bandwidth.antt =====
-- FerrumClient/src/sharedServiceManager.ts: what `consumeBandwidth` lets through.
use ferrum_proxy.Base.{
  ℕ, ◌+◌, ◌-◌, ◌≤◌, ◌<◌, ◌≡◌, ◌∙◌, if◌then◌else◌, Option, none, some, List, [], ◌∷◌, All, arith,
}
use ferrum_proxy.Share.Manager.{Status, Manager, consume_bandwidth}

-- A chunk of data: when it comes, and how many bytes it has.
pub record Chunk : Type 0 where
  pub time : ℕ
  pub bytes : ℕ

-- The bytes that are let through.
abbrev pub passed : List Chunk → Manager → ℕ
passed [] m = 0
passed (c ∷ cs) m =
    (if (consume_bandwidth c.time c.bytes m).1 then c.bytes else 0)
    + passed cs (consume_bandwidth c.time c.bytes m).0

-- A chunk of the window that begins at `start`.
abbrev pub IsWithin : ℕ → Chunk → Type 0
IsWithin start c = c.time < start + 1000

-- The limit that is in force, 0 where no service runs.
abbrev pub limit_of : Option Status → ℕ
limit_of none = 0
limit_of (some s) = s.limits.max_bytes_per_second

consume-passed :
    (now bytes : ℕ) (m : Manager)
    → now < m.window_started_at + 1000
    → ((if (consume_bandwidth now bytes m).1 then bytes else 0)
        ≤ limit_of m.status - m.window_bytes)
      × ((consume_bandwidth now bytes m).0.window_started_at ≡ m.window_started_at)
      × (limit_of (consume_bandwidth now bytes m).0.status ≡ limit_of m.status)
      × (m.window_bytes + (if (consume_bandwidth now bytes m).1 then bytes else 0)
          ≤ (consume_bandwidth now bytes m).0.window_bytes)
unfolding consume_bandwidth
consume-passed now bytes m h = ground arith

-- In one window of a second, no more bytes are let through than the limit leaves.
pub passed-le-limit :
    (start : ℕ) (cs : List Chunk) (m : Manager)
    → m.window_started_at ≡ start
    → All (IsWithin start) cs
    → passed cs m ≤ limit_of m.status - m.window_bytes
passed-le-limit start [] m e h = omega arith
passed-le-limit start (c ∷ cs) m e (h, hs) =
    let (spent, at, same, used) = consume-passed c.time c.bytes m (omega arith) in
    omega (
      arith,
      spent,
      same,
      used,
      passed-le-limit start cs (consume_bandwidth c.time c.bytes m).0 (at ∙ e) hs,
    )
