-- ===== src/IpBlock/Parts.antt =====
-- FerrumGUI/src/ipBlockConfig.ts: what `split('/')` makes of a text.
use ferrum_proxy.Base.{ℕ, ◌≡◌, refl, sym, ap, subst, ◌∙◌, Text, List, [], ◌∷◌, ◌++◌, All, arith}
use ferrum_proxy.Base.Patterns.{NoSlash}
use ferrum_proxy.IpBlock.{next_part, split_slash}

-- The parts put together again
abbrev join : Text × List Text → Text
join (p, []) = p
join (p, q ∷ ps) = p ++ b'/' ∷ join (q, ps)

abbrev AreParts : Text × List Text → Type 0
AreParts (p, ps) = NoSlash p × All NoSlash ps

join-next_part : (c : ℕ) (o : Text × List Text) → join (next_part c o) ≡ c ∷ join o
join-next_part c (p, []) = ground arith
join-next_part c (p, q ∷ ps) = ground arith

next_part-AreParts : (c : ℕ) (o : Text × List Text) → AreParts o → AreParts (next_part c o)
next_part-AreParts c (p, ps) (n, h) = ground (arith, n, h)

join-split_slash : (s : Text) → join (split_slash s) ≡ s
unfolding split_slash
join-split_slash [] = refl
join-split_slash (c ∷ s) = join-next_part c (split_slash s) ∙ ap (λ t. c ∷ t) (join-split_slash s)

split_slash-AreParts : (s : Text) → AreParts (split_slash s)
unfolding split_slash
split_slash-AreParts [] = (tt, tt)
split_slash-AreParts (c ∷ s) = next_part-AreParts c (split_slash s) (split_slash-AreParts s)

split_slash-NoSlash : (s : Text) → NoSlash s → split_slash s ≡ (s, [])
unfolding split_slash
split_slash-NoSlash [] h = refl
split_slash-NoSlash (c ∷ s) (n, h) = ground (arith, n, split_slash-NoSlash s h)

pub split_slash-append :
    (p q : Text) → NoSlash p → NoSlash q → split_slash (p ++ b'/' ∷ q) ≡ (p, q ∷ [])
unfolding split_slash
split_slash-append [] q h k = rw (split_slash-NoSlash q k) refl
split_slash-append (c ∷ p) q (n, h) k = ground (arith, n, split_slash-append p q h k)

-- Two parts come of one slash between them.
pub split_slash-two :
    (s p q : Text) → split_slash s ≡ (p, q ∷ []) → (s ≡ p ++ b'/' ∷ q) × NoSlash p × NoSlash q
split_slash-two s p q e =
    let (n, (m, _)) = subst AreParts e (split_slash-AreParts s) in
    (sym (join-split_slash s) ∙ ap join e, n, m)
