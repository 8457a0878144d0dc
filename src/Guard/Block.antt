-- ===== src/Guard/Block.antt =====
-- FerrumGUI/src/index.ts: the block of a client that keeps asking with an empty bucket.
use ferrum_proxy.Base.{
  ℕ, ◌+◌, ◌-◌, ◌≤◌, ◌<◌, ◌≡◌, refl, ap, ◌∙◌, if◌then◌else◌, true, false, Bool-cases, inl, inr, Text,
  text_eq, text_eq_iff, text_eq_refl, Map, get, HasDistinctKeys, some, or_else, List, [], ◌∷◌, All,
  arith,
}
use ferrum_proxy.Auth.{retry, is_blocked}
use ferrum_proxy.Guard.{
  Settings, Scope, Policy, State, policy_of, whole, is_stale, created, refill, consume_state,
  consume,
}
use ferrum_proxy.Guard.Bucket.{
  fresh, get-consume, consume-verdict, consume-HasDistinctKeys, Call, after, granted, hit,
}

-- Calls that all come before `until`.
abbrev pub IsBefore : ℕ → Call → Type 0
IsBefore until c = c.time < until

blocked_state :
    (s : Settings) (now until : ℕ) (p : Policy) (st : State)
    → st.blocked_until ≡ some until
    → now < until
    → (fresh now (some st) ≡ some st) × (consume_state s now p st ≡ (st, retry false (until - now)))
unfolding consume_state
blocked_state s now until p st b h =
    let blocked : is_blocked now (some until) ≡ true = ground arith in
    (rw (b, blocked) refl, rw (b, blocked) refl)

module _ (s : Settings) (k : Text) (until : ℕ) (st : State)
    (b : st.blocked_until ≡ some until) where
  blocked_call :
      (c : Call) (m : Map State)
      → HasDistinctKeys m
      → get k m ≡ some st
      → c.time < until
      → (get k (after s c m) ≡ some st)
        × (◌≡◌ {A = ℕ}
            (if text_eq c.client k then hit (consume s c.time c.client c.scope m).1 else 0)
            0)
  blocked_call c m d e h =
      let (kept, same) = blocked_state s c.time until (policy_of s c.scope) st b h in
      elim (Bool-cases (text_eq c.client k)) [
        | inl own ↦
            let e' : get c.client m ≡ some st = ap (λ t. get t m) ((text_eq_iff _ _).0 own) ∙ e in
            (
              rw (get-consume s c.time c.client k c.scope m d, own, e', kept, same),
              rw (own, consume-verdict s c.time c.client c.scope m d, e', kept, same),
            )
        | inr other ↦ (rw (get-consume s c.time c.client k c.scope m d, other, e, kept), rw other)
      ]

  granted_blocked :
      (cs : List Call) (m : Map State)
      → HasDistinctKeys m
      → get k m ≡ some st
      → All (IsBefore until) cs
      → granted s k cs m ≡ 0
  granted_blocked [] m d e h = refl
  granted_blocked (c ∷ cs) m d e (h, hs) =
      let (kept, refused) = blocked_call c m d e h in
      omega (
        arith,
        refused,
        granted_blocked cs (after s c m) (consume-HasDistinctKeys s c.time c.client c.scope m d)
            kept hs,
      )

last_violation :
    (s : Settings) (now : ℕ) (p : Policy) (st : State)
    → is_blocked now st.blocked_until ≡ false
    → (refill now p st).tokens < whole
    → s.block_after ≤ st.violations + 1
    → ((consume_state s now p st).1 ≡ retry false s.block_ms)
      × ((consume_state s now p st).0.blocked_until ≡ some (now + s.block_ms))
unfolding consume_state
last_violation s now p st free empty last = ground arith

-- With tokens counted exactly: a client whose bucket is empty for the last time that the settings
-- allow is blocked, and none of its requests passes before the time of the block is over, whatever
-- other clients do.
pub granted-after_block :
    (s : Settings) (now : ℕ) (k : Text) (scope : Scope) (m : Map State) (st : State)
    (cs : List Call)
    → HasDistinctKeys m
    → get k m ≡ some st
    → is_stale now st ≡ false
    → is_blocked now st.blocked_until ≡ false
    → (refill now (policy_of s scope) st).tokens < whole
    → s.block_after ≤ st.violations + 1
    → All (IsBefore (now + s.block_ms)) cs
    → ((consume s now k scope m).1 ≡ retry false s.block_ms)
      × (granted s k cs (consume s now k scope m).0 ≡ 0)
granted-after_block s now k scope m st cs d e kept free empty last h =
    let p = policy_of s scope in
    let (verdict, until) = last_violation s now p st free empty last in
    let known : or_else (fresh now (get k m)) (created now p) ≡ st = rw (e, kept) in
    (
      consume-verdict s now k scope m d ∙ rw known verdict,
      granted_blocked s k (now + s.block_ms) (consume_state s now p st).0 until cs
          (consume s now k scope m).0 (consume-HasDistinctKeys s now k scope m d)
          (rw (get-consume s now k k scope m d, text_eq_refl k, known)) h,
    )
