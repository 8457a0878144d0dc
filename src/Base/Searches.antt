-- ===== src/Base/Searches.antt =====
-- The search of a loop that counts up and returns at the first number that meets its condition.
use Prim.Native.Nat.{ℕ, zero, suc, ◌+◌, ◌≤◌, ◌<◌}
use mathlib.Core.Path.{◌≡◌}
use mathlib.Core.Logic.{inl, inr}
use mathlib.Core.Bool.{Bool, true, false}
use mathlib.Core.Option.{Option, none, some}
use native.Mathlib.Omega.{arith}
use ferrum_proxy.Base.Tests.{◌==◌, ==_iff, if◌then◌else◌, Bool-cases}

-- The loop from a number on, for so many numbers
unfoldable pub first_from : (ℕ → Bool) → ℕ → ℕ → Option ℕ
first_from test from zero = none
first_from test from (suc n) =
    let later = first_from test (from + 1) n in if test from then some from else later

-- The least number from `from` on that the test accepts, below a bound
abbrev pub IsFirst : (ℕ → Bool) → ℕ → ℕ → Option ℕ → Type 0
IsFirst test from end none = (k : ℕ) → from ≤ k → k < end → test k ≡ false
IsFirst test from end (some c) =
    (from ≤ c) × ((c < end) × ((test c ≡ true) × ((k : ℕ) → from ≤ k → k < c → test k ≡ false)))

-- What holds of every number above `from` and of `from` itself
from_next :
    (test : ℕ → Bool) (from end : ℕ)
    → test from ≡ false
    → ((k : ℕ) → from + 1 ≤ k → k < end → test k ≡ false)
    → (k : ℕ) → from ≤ k
    → k < end
    → test k ≡ false
from_next test from end e above k h l = elim (Bool-cases (k == from)) [
  | inl same ↦ let k_is : k ≡ from = (==_iff k from).0 same in rw k_is e
  | inr other ↦ let later : from + 1 ≤ k = ground (arith, h, other) in above k later l
]

IsFirst-next :
    (test : ℕ → Bool) (from end : ℕ) (r : Option ℕ)
    → test from ≡ false
    → IsFirst test (from + 1) end r
    → IsFirst test from end r
IsFirst-next test from end none e h = from_next test from end e h
IsFirst-next test from end (some c) e (a, (b, (t, below))) =
    (omega (arith, a), (b, (t, from_next test from c e below)))

-- The search finds the least number that the test accepts.
pub first_from-IsFirst :
    (test : ℕ → Bool) (from n end : ℕ)
    → from + n ≡ end
    → IsFirst test from end (first_from test from n)
unfolding first_from
first_from-IsFirst test from zero end e = λ k h l. absurd (omega (arith, e, h, l))
first_from-IsFirst test from (suc n) end e = elim (Bool-cases (test from)) [
  | inl here ↦
      rw here (omega arith, (omega (arith, e), (here, λ k h l. absurd (omega (arith, h, l)))))
  | inr later ↦ rw later (
      IsFirst-next test from end (first_from test (from + 1) n) later
        (first_from-IsFirst test (from + 1) n end (omega (arith, e))))
]
