-- ===== src/Base/Patterns.antt =====
-- The pieces of regular expressions that the program matches paths by: a literal prefix, and a
-- segment `[^/]+`.
use Prim.Native.Nat.{ℕ}
use mathlib.Core.Path.{◌≡◌, refl}
use mathlib.Core.Logic.{◌↔◌, ◌≢◌}
use mathlib.Core.Option.{Option, none, some}
use mathlib.Core.List.{[], ◌∷◌, ◌++◌}
use native.Mathlib.Omega.{arith}
use ferrum_proxy.Base.Tests.{◌==◌, if◌then◌else◌}
use ferrum_proxy.Base.Texts.{Text}

-- What follows the prefix `p`, in a text that starts with it.
unfoldable pub strip_prefix : Text → Text → Option Text
strip_prefix [] s = some s
strip_prefix (a ∷ p) [] = none
strip_prefix (a ∷ p) (b ∷ s) = if a == b then strip_prefix p s else none

pub strip_prefix_iff : (p s r : Text) → (strip_prefix p s ≡ some r) ↔ (s ≡ p ++ r)
unfolding strip_prefix
strip_prefix_iff [] s r = ground arith
strip_prefix_iff (a ∷ p) [] r = ((λ e. cc), (λ e. cc))
strip_prefix_iff (a ∷ p) (b ∷ s) r = ground (arith, strip_prefix_iff p s r)

abbrev pub cons_segment : ℕ → Text × Text → Text × Text
cons_segment c (seg, rest) = (c ∷ seg, rest)

-- `[^/]*` and what follows it.
unfoldable pub segment : Text → Text × Text
segment [] = ([], [])
segment (c ∷ s) = if c == b'/' then ([], c ∷ s) else cons_segment c (segment s)

abbrev pub NoSlash : Text → Type 0
NoSlash [] = Unit
NoSlash (c ∷ s) = (c ≢ b'/') × NoSlash s

pub segment-append : (s : Text) → (segment s).0 ++ (segment s).1 ≡ s
unfolding segment
segment-append [] = refl
segment-append (c ∷ s) = ground (arith, segment-append s)

pub segment-NoSlash : (s : Text) → NoSlash (segment s).0
unfolding segment
segment-NoSlash [] = tt
segment-NoSlash (c ∷ s) = ground (arith, segment-NoSlash s)

-- A segment ends at the first slash.
pub segment-slash :
    (seg rest : Text) → NoSlash seg → segment (seg ++ b'/' ∷ rest) ≡ (seg, b'/' ∷ rest)
unfolding segment
segment-slash [] rest h = refl
segment-slash (c ∷ seg) rest (n, h) = ground (arith, segment-slash seg rest h)
