-- ===== src/Base/Decimal.antt =====
-- Numbers as decimal texts: what `String(n)` and `${n}` write, and what `Number(s)` reads from a
-- text of digits.
use Prim.Native.Nat.{ℕ, zero, suc, ◌+◌, ◌-◌, ◌*◌, ◌/◌, ◌%◌, ◌<◌}
use mathlib.Core.Path.{◌≡◌, refl, ap, ◌∙◌}
use mathlib.Core.Logic.{inl, inr}
use mathlib.Core.Bool.{Bool, true, false, ◌&&◌}
use mathlib.Core.List.{[], ◌∷◌}
use native.Mathlib.Omega.{arith}
use ferrum_proxy.Base.Tests.{if◌then◌else◌, leb, ◌==◌, Bool-cases}
use ferrum_proxy.Base.Lists.{all}
use ferrum_proxy.Base.Texts.{Text}

unfoldable pub decimal_from : ℕ → ℕ → Text → Text
decimal_from zero n acc = acc
decimal_from (suc fuel) n acc =
    let rest = decimal_from fuel (n / 10) ((48 + n % 10) ∷ acc) in
    if n / 10 == 0 then (48 + n % 10) ∷ acc else rest

-- `String(n)`; a number has fewer digits than its successor says.
unfoldable pub decimal : ℕ → Text
unfolding decimal_from
decimal n = decimal_from (suc n) n []

-- `Number(s)` of digits, after those that are worth `acc`
unfoldable pub number_from : ℕ → Text → ℕ
number_from acc [] = acc
number_from acc (c ∷ s) = number_from (acc * 10 + (c - 48)) s

unfoldable pub number_of : Text → ℕ
unfolding number_from
number_of s = number_from 0 s

abbrev pub is_digit : ℕ → Bool
is_digit c = leb b'0' c && leb c b'9'

-- `/^\d+$/.test(s)`
unfoldable pub is_digits : Text → Bool
is_digits [] = false
is_digits (c ∷ s) = all is_digit (c ∷ s)

number_from-decimal_from :
    (fuel n : ℕ) (acc : Text)
    → n < fuel
    → number_from 0 (decimal_from fuel n acc) ≡ number_from n acc
unfolding decimal_from number_from
number_from-decimal_from zero n acc h = elim h [ ]
number_from-decimal_from (suc fuel) n acc h = elim (Bool-cases (n / 10 == 0)) [
  | inl small ↦
      let e : 0 * 10 + (48 + n % 10 - 48) ≡ n = ground arith in
      rw small (ap (λ t. number_from t acc) e)
  | inr large ↦
      let e : (n / 10) * 10 + (48 + n % 10 - 48) ≡ n = omega arith in
      rw large (
        number_from-decimal_from fuel (n / 10) ((48 + n % 10) ∷ acc) (ground arith)
        ∙ ap (λ t. number_from t acc) e)
]

-- A number is read back from its decimal text.
pub number_of-decimal : (n : ℕ) → number_of (decimal n) ≡ n
unfolding number_of decimal
number_of-decimal n = number_from-decimal_from (suc n) n [] (omega arith)

decimal_from-digits :
    (fuel n : ℕ) (acc : Text)
    → n < fuel
    → all is_digit acc ≡ true
    → is_digits (decimal_from fuel n acc) ≡ true
unfolding decimal_from is_digits
decimal_from-digits zero n acc h d = elim h [ ]
decimal_from-digits (suc fuel) n acc h d = elim (Bool-cases (n / 10 == 0)) [
  | inl small ↦ rw small (ground arith)
  | inr large ↦
      rw large
        (decimal_from-digits fuel (n / 10) ((48 + n % 10) ∷ acc) (ground arith) (ground arith))
]

pub is_digits-decimal : (n : ℕ) → is_digits (decimal n) ≡ true
unfolding decimal
is_digits-decimal n = decimal_from-digits (suc n) n [] (omega arith) refl
