-- ===== src/Processes/Lines.antt =====
-- FerrumGUI/src/processManager.ts: the lines of a text, `buffered.split(/\r?\n/)`.
use ferrum_proxy.Base.{
  ℕ, ◌≡◌, refl, ◌∙◌, ◌==◌, if◌then◌else◌, Bool-cases, false, inl, inr, Text, List, [], ◌∷◌, ◌++◌,
}

-- A line without the carriage return that it may end with.
unfoldable pub chop : Text → Text
chop [] = []
chop (c ∷ []) = if c == 13 then [] else c ∷ []
chop (c ∷ d ∷ s) = c ∷ chop (d ∷ s)

abbrev pub with_line : Text → List Text × Text → List Text × Text
with_line line (lines, trailing) = (line ∷ lines, trailing)

-- The lines that end, and what follows the last of them, after the part `cur` of a line.
unfoldable pub split_from : Text → Text → List Text × Text
unfolding chop
split_from cur [] = ([], cur)
split_from cur (c ∷ s) =
    let cut = with_line (chop cur) (split_from [] s) in
    let longer = split_from (cur ++ c ∷ []) s in if c == 10 then cut else longer

unfoldable pub split_lines : Text → List Text × Text
unfolding split_from
split_lines s = split_from [] s

abbrev pub after : List Text × Text → Text → List Text × Text
after (lines, trailing) s = (lines ++ (split_from trailing s).0, (split_from trailing s).1)

pub split_from-append : (cur a b : Text) → split_from cur (a ++ b) ≡ after (split_from cur a) b
unfolding split_from
split_from-append cur [] b = refl
split_from-append cur (c ∷ a) b = elim (Bool-cases (c == 10)) [
  | inl end ↦ rw (end, split_from-append [] a b) refl
  | inr more ↦ rw (more, split_from-append (cur ++ c ∷ []) a b) refl
]

-- A text with no end of line in it.
abbrev pub IsRest : Text → Type 0
IsRest s = split_from [] s ≡ ([], s)

split_from_char :
    (cur : Text) (c : ℕ) → (c == 10) ≡ false → split_from cur (c ∷ []) ≡ ([], cur ++ c ∷ [])
unfolding split_from
split_from_char cur c e = rw e refl

-- What follows the last end of line has none itself.
pub split_from-IsRest : (cur s : Text) → IsRest cur → IsRest (split_from cur s).1
unfolding split_from
split_from-IsRest cur [] h = h
split_from-IsRest cur (c ∷ s) h = elim (Bool-cases (c == 10)) [
  | inl end ↦ rw end (split_from-IsRest [] s refl)
  | inr more ↦ rw more (
      split_from-IsRest (cur ++ c ∷ []) s
        (split_from-append [] cur (c ∷ []) ∙ rw (h, split_from_char cur c more) refl))
]

-- A text that goes on after a rest is split as if the rest had been its beginning.
pub split_lines-append : (rest s : Text) → IsRest rest → split_lines (rest ++ s) ≡ split_from rest s
unfolding split_lines
split_lines-append rest s h = split_from-append [] rest s ∙ rw h refl
