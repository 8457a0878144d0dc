-- ===== src/Guard/Bucket.antt =====
-- FerrumGUI/src/index.ts: how many requests of one client the guard lets through.
use ferrum_proxy.Base.{
  ◌⊎◌, ℕ, ◌+◌, ◌-◌, ◌*◌, ◌≤◌, ◌<◌, ◌≡◌, refl, ap, ◌∙◌, if◌then◌else◌, true, false, Bool-cases,
  Option-cases, inl, inr, Text, text_eq, text_eq_iff, Map, get, get-put, HasDistinctKeys,
  HasDistinctKeys-put, Option, none, some, or_else, List, [], ◌∷◌, All, arith,
}
use ferrum_proxy.Auth.{Verdict, is_blocked}
use ferrum_proxy.Guard.{
  Settings, Scope, Policy, State, policy_of, whole, is_stale, prune, created, refill, take_token,
  consume_state, consume,
}

get-prune-none : (now : ℕ) (k : Text) (m : Map State) → get k m ≡ none → get k (prune now m) ≡ none
unfolding get prune
get-prune-none now k [] e = refl
get-prune-none now k ((j, st) ∷ m) e = ground (arith, get-prune-none now k m)

-- The entry that a client has after the stale ones are dropped.
abbrev pub fresh : ℕ → Option State → Option State
fresh now none = none
fresh now (some st) = if is_stale now st then none else some st

-- Only stale entries are dropped, and no entry is changed.
pub get-prune :
    (now : ℕ) (k : Text) (m : Map State)
    → HasDistinctKeys m
    → get k (prune now m) ≡ fresh now (get k m)
unfolding get prune
get-prune now k [] h = refl
get-prune now k ((j, st) ∷ m) (e, h) =
    ground (arith, text_eq_iff j k, get-prune-none now j m e, get-prune now k m h)

prune-HasDistinctKeys :
    (now : ℕ) (m : Map State) → HasDistinctKeys m → HasDistinctKeys (prune now m)
unfolding prune
prune-HasDistinctKeys now [] h = tt
prune-HasDistinctKeys now ((j, st) ∷ m) (e, h) =
    ground (arith, get-prune-none now j m e, prune-HasDistinctKeys now m h)

pub consume-HasDistinctKeys :
    (s : Settings) (now : ℕ) (client : Text) (scope : Scope) (m : Map State)
    → HasDistinctKeys m
    → HasDistinctKeys (consume s now client scope m).0
unfolding consume
consume-HasDistinctKeys s now client scope m h =
    HasDistinctKeys-put client _ (prune now m) (prune-HasDistinctKeys now m h)

-- What a call does to the entry of its client, and to that of another.
pub get-consume :
    (s : Settings) (now : ℕ) (client k : Text) (scope : Scope) (m : Map State)
    → HasDistinctKeys m
    → get k (consume s now client scope m).0 ≡ (
        if text_eq client k
        then some
            (consume_state s now
              (policy_of s scope)
              (or_else (fresh now (get client m)) (created now (policy_of s scope)))).0
        else fresh now (get k m))
unfolding consume
get-consume s now client k scope m h = ground (
  arith,
  get-prune now client m h,
  get-prune now k m h,
  get-put client k
      (consume_state s now (policy_of s scope)
        (or_else (get client (prune now m)) (created now (policy_of s scope)))).0
      (prune now m),
)

pub consume-verdict :
    (s : Settings) (now : ℕ) (client : Text) (scope : Scope) (m : Map State)
    → HasDistinctKeys m
    → (consume s now client scope m).1
      ≡ (consume_state s now
          (policy_of s scope)
          (or_else (fresh now (get client m)) (created now (policy_of s scope)))).1
unfolding consume
consume-verdict s now client scope m h = rw (get-prune now client m h)

abbrev pub hit : Verdict → ℕ
hit v = if v.ok then 1 else 0

-- A policy within bounds, such that a bucket fills up before its entry is stale.
pub record Fits (most rate : ℕ) (p : Policy) : Type 0 where
  pub capacity : p.capacity ≤ most
  pub per_minute : p.per_minute ≤ rate

mul_le-mul : (a b c d : ℕ) → a ≤ b → c ≤ d → a * c ≤ b * d
mul_le-mul a b c d h k = grind arith

module _ (most rate : ℕ) (fills : most ≤ 30 * rate) where
  -- What a client can spend at a time, in parts of a token.
  abbrev credit : ℕ → Option State → ℕ
  credit t none = most * whole
  credit t (some st) = st.tokens + (t - st.last_refill_at) * rate

  abbrev IsPast : ℕ → Option State → Type 0
  IsPast t none = Unit
  IsPast t (some st) = st.last_refill_at ≤ t

  grows : (a b c : ℕ) → a ≤ b → b ≤ c → (c - a) * rate ≡ (b - a) * rate + (c - b) * rate
  grows a b c h k =
      let e : c - a ≡ (b - a) + (c - b) = omega arith in ap (λ (t : ℕ). t * rate) e ∙ omega arith

  stale_fills : (last now : ℕ) → 1800000 < now - last → most * whole ≤ (now - last) * rate
  stale_fills last now h =
      omega (arith, mul_le-mul 1800000 (now - last) rate rate (omega arith) (omega arith))

  credit-later :
      (before now : ℕ) (o : Option State)
      → before ≤ now
      → IsPast before o
      → IsPast now (fresh now o)
        × (credit now (fresh now o) ≤ credit before o + (now - before) * rate)
  credit-later before now none h p = (tt, omega arith)
  credit-later before now (some st) h p =
      ground (arith, grows st.last_refill_at before now p h, stale_fills st.last_refill_at now)

  refill_at : (now : ℕ) (p : Policy) (st : State) → (refill now p st).last_refill_at ≡ now
  unfolding refill
  refill_at now p st = refl

  none_left : (last now : ℕ) → last ≡ now → (now - last) * rate ≡ 0
  none_left last now e =
      let z : now - last ≡ 0 = omega arith in ap (λ (t : ℕ). t * rate) z ∙ omega arith

  refill-credit :
      (now : ℕ) (p : Policy) (st : State)
      → Fits most rate p
      → (refill now p st).tokens ≤ credit now (some st)
  unfolding refill
  refill-credit now p st f = omega (
    arith,
    mul_le-mul (now - st.last_refill_at) (now - st.last_refill_at) p.per_minute rate (omega arith)
        f.per_minute,
  )

  take_token-credit :
      (s : Settings) (now : ℕ) (p : Policy) (st : State)
      → (whole * hit (take_token s now p st).1 + (take_token s now p st).0.tokens ≤ st.tokens)
        × ((take_token s now p st).0.last_refill_at ≡ st.last_refill_at)
  unfolding take_token
  take_token-credit s now p st = ground arith

  -- One decision spends what it grants.
  consume_state-credit :
      (s : Settings) (now : ℕ) (p : Policy) (st : State)
      → Fits most rate p
      → st.last_refill_at ≤ now
      → IsPast now (some (consume_state s now p st).0)
        × (whole * hit (consume_state s now p st).1 + credit now (some (consume_state s now p st).0)
            ≤ credit now (some st))
  unfolding consume_state
  consume_state-credit s now p st f h = elim (Bool-cases (is_blocked now st.blocked_until)) [
    | inl blocked ↦ rw (blocked, consume_state) (h, omega arith)
    | inr open_now ↦
        let r = refill now p st in
        let (spent, same) = take_token-credit s now p r in
        let at = same ∙ refill_at now p st in
        rw (open_now, consume_state)
          (omega (arith, at), omega (arith, spent, refill-credit now p st f, none_left _ now at))
  ]

  step-credit :
      (s : Settings) (before now : ℕ) (p : Policy) (o : Option State)
      → Fits most rate p
      → before ≤ now
      → IsPast before o
      → IsPast now (some (consume_state s now p (or_else (fresh now o) (created now p))).0)
        × (whole * hit (consume_state s now p (or_else (fresh now o) (created now p))).1
              + credit now (some (consume_state s now p (or_else (fresh now o) (created now p))).0)
            ≤ credit before o + (now - before) * rate)
  step-credit s before now p o f h past =
      let (past', grown) = credit-later before now o h past in
      elim (Option-cases (fresh now o)) [
        | inl gone ↦
            let (later, spent) = consume_state-credit s now p (created now p) f (omega arith) in
            rw gone (
              later,
              omega (
                arith,
                spent,
                rw gone at grown,
                none_left now now refl,
                mul_le-mul p.capacity most whole whole f.capacity (omega arith),
              ),
            )
        | inr (st, kept) ↦
            let (later, spent) = consume_state-credit s now p st f (rw kept at past') in
            rw kept (later, omega (arith, spent, rw kept at grown))
      ]

-- A request: when, from whom, and under which policy.
pub record Call : Type 0 where
  pub time : ℕ
  pub client : Text
  pub scope : Scope

abbrev pub after : Settings → Call → Map State → Map State
after s c m = (consume s c.time c.client c.scope m).0

-- How many requests of the client `k` the guard lets through.
abbrev pub granted : Settings → Text → List Call → Map State → ℕ
granted s k [] m = 0
granted s k (c ∷ cs) m =
    (if text_eq c.client k then hit (consume s c.time c.client c.scope m).1 else 0)
    + granted s k cs (after s c m)

-- Times that do not fall, from `before` on, and the last of them.
abbrev pub IsOrdered : ℕ → List Call → Type 0
IsOrdered before [] = Unit
IsOrdered before (c ∷ cs) = (before ≤ c.time) × IsOrdered c.time cs

abbrev pub last_time : ℕ → List Call → ℕ
last_time before [] = before
last_time before (c ∷ cs) = last_time c.time cs

last_time_le : (before : ℕ) (cs : List Call) → IsOrdered before cs → before ≤ last_time before cs
last_time_le before [] h = omega arith
last_time_le before (c ∷ cs) (h, k) = omega (arith, last_time_le c.time cs k)

-- A call of another client, or one under a policy within bounds.
abbrev pub IsBounded : Settings → Text → ℕ → ℕ → Call → Type 0
IsBounded s k most rate c = (text_eq c.client k ≡ false) ⊎ Fits most rate (policy_of s c.scope)

Fits-of :
    (s : Settings) (k : Text) (most rate : ℕ) (c : Call)
    → text_eq c.client k ≡ true
    → IsBounded s k most rate c
    → Fits most rate (policy_of s c.scope)
Fits-of s k most rate c same (inl other) = absurd (cc)
Fits-of s k most rate c same (inr f) = f

module _ (s : Settings) (k : Text) (most rate : ℕ) (fills : most ≤ 30 * rate) where
  granted-credit :
      (before : ℕ) (cs : List Call) (m : Map State)
      → HasDistinctKeys m
      → IsPast most rate fills before (get k m)
      → IsOrdered before cs
      → All (IsBounded s k most rate) cs
      → whole * granted s k cs m
        ≤ credit most rate fills before (get k m) + (last_time before cs - before) * rate
  granted-credit before [] m d past o b = omega arith
  granted-credit before (c ∷ cs) m d past (h, o) (b, bs) =
      let ih =
        granted-credit c.time cs (after s c m)
          (consume-HasDistinctKeys s c.time c.client c.scope m d) in
      let split =
        grows most rate fills before c.time (last_time c.time cs) h (last_time_le c.time cs o) in
      let entry = get-consume s c.time c.client k c.scope m d in
      elim (Bool-cases (text_eq c.client k)) [
        | inl same ↦
            let own : get c.client m ≡ get k m = ap (λ t. get t m) ((text_eq_iff _ _).0 same) in
            let (past', spent) =
              step-credit most rate fills s before c.time (policy_of s c.scope) (get k m)
                (Fits-of s k most rate c same b) h past in
            let entry' : get k (after s c m)
                ≡ some
                    (consume_state s c.time (policy_of s c.scope)
                      (or_else (fresh c.time (get k m)) (created c.time (policy_of s c.scope)))).0 =
              rw (entry, same, own) in
            let rest = ih (rw entry' past') o bs in
            rw (same, consume-verdict s c.time c.client c.scope m d, own)
              (omega (arith, spent, split, rw entry' at rest))
        | inr other ↦
            let (past', grown) = credit-later most rate fills before c.time (get k m) h past in
            let entry' : get k (after s c m) ≡ fresh c.time (get k m) = rw (entry, other) in
            let rest = ih (rw entry' past') o bs in
            rw other (omega (arith, grown, split, rw entry' at rest))
      ]

  -- With tokens counted exactly: if a bucket fills up before its entry is stale, and time does not run
  -- backwards, then of all the requests of a client that has no entry yet, at most a bucket's
  -- capacity and what the policy refills until the last request are let through, whatever other
  -- clients do.
  pub granted-le-capacity :
      (before : ℕ) (cs : List Call) (m : Map State)
      → HasDistinctKeys m
      → get k m ≡ none
      → IsOrdered before cs
      → All (IsBounded s k most rate) cs
      → 60000 * granted s k cs m ≤ 60000 * most + (last_time before cs - before) * rate
  granted-le-capacity before cs m d e o b =
      let bound = granted-credit before cs m d (rw e tt) o b in omega (arith, rw e at bound)
