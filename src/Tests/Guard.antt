-- ===== src/Tests/Guard.antt =====
-- FerrumGUI/src/index.ts: the guard at concrete inputs.
use ferrum_proxy.Base.{
  ℕ, ◌+◌, ◌-◌, ◌*◌, ◌≤◌, ◌≡◌, refl, Text, codes, text_eq, starts_with, trim, get, put, true, false,
  none, some, List, [], ◌∷◌, arith, inr,
}
use ferrum_proxy.Auth.{retry}
use ferrum_proxy.Guard.{
  auth, State, default_settings, policy_of, prune, refill, take_token, consume_state, consume,
  is_blocked_user_agent, includes,
}
use ferrum_proxy.Guard.Bucket.{Fits, Call, granted, last_time, granted-le-capacity}
use ferrum_proxy.Guard.Block.{granted-after_block}

guard : Unit {0}
unfolding policy_of prune refill take_token consume_state consume get put text_eq
guard = tt

abbrev client : Text
client = codes "10.0.0.1"

abbrev calls : List Call
calls =
    record { time = 100; client = client; scope = auth }
    ∷ record { time = 150; client = codes "x"; scope = auth }
    ∷ record { time = 2200; client = client; scope = auth }
    ∷ []

granted-calls : granted default_settings client calls [] ≡ 2
unfolding guard
granted-calls = refl

granted-le-capacity_example :
    60000 * granted default_settings client calls [] ≤ 60000 * 10 + (last_time 100 calls - 100) * 30
unfolding guard
granted-le-capacity_example =
    granted-le-capacity default_settings client 10 30 (omega arith) 100 calls [] tt refl
      (omega arith, (omega arith, (omega arith, tt))) (inr fits, (inr fits, (inr fits, tt)))
  where
    fits : Fits 10 30 (record { capacity = 10; per_minute = 30 })
    fits = record { capacity = omega arith; per_minute = omega arith }

-- A client with an empty bucket, which was refused so often.
abbrev emptied : ℕ → State
emptied n = record { tokens = 0; last_refill_at = 1000; violations = n; blocked_until = none }

refused :
    (consume default_settings 1000 client auth ((client, emptied 0) ∷ [])).1 ≡ retry false 2000
unfolding guard
refused = refl

granted-after_block_example :
    ((consume default_settings 1000 client auth ((client, emptied 5) ∷ [])).1 ≡ retry false 600000)
    × (granted default_settings client
          (record { time = 9000; client = client; scope = auth } ∷ [])
          (consume default_settings 1000 client auth ((client, emptied 5) ∷ [])).0
        ≡ 0)
unfolding guard
granted-after_block_example =
    granted-after_block default_settings 1000 client auth ((client, emptied 5) ∷ []) (emptied 5)
      (record { time = 9000; client = client; scope = auth } ∷ []) (refl, tt) refl refl refl
      (omega arith) (omega arith) (omega arith, tt)

curl_is_blocked :
    is_blocked_user_agent (λ s. s) (codes "curl" ∷ []) (some (codes "my curl/8")) ≡ true
unfolding is_blocked_user_agent includes starts_with trim
curl_is_blocked = refl
