-- ===== src/Relay/Socket/Exact.antt =====
-- What `readExact` makes of chunks that end where it does.
use ferrum_proxy.Base.{
  ℕ, ◌<◌, ◌≡◌, refl, sym, ap, ◌∙◌, subst, inl, inr, leb, Bool-cases, leb_iff, Bytes, length, take,
  take-append, All, length-append, List, [], ◌∷◌, ◌++◌, append-nil, append_assoc, arith,
}
use ferrum_proxy.Relay.Socket.{Event, chunk, done, read_from}

-- The bytes of a list of chunks
abbrev pub flat : List Bytes → Bytes
flat [] = []
flat (c ∷ cs) = c ++ flat cs

-- The events of chunks, and those after them
abbrev pub chunks : List Bytes → List Event → List Event
chunks [] events = events
chunks (c ∷ cs) events = chunk c ∷ chunks cs events

-- No chunk is empty.
abbrev pub AreChunks : List Bytes → Type 0
AreChunks cs = All (λ c. 0 < length c) cs

length-flat : (c : Bytes) (cs : List Bytes) → AreChunks (c ∷ cs) → 0 < length (flat (c ∷ cs))
length-flat c cs (h, _) = omega (arith, h, length-append c (flat cs))

take_all : (a : Bytes) → take (length a) a ≡ a
take_all a = ap (take (length a)) (sym (append-nil a)) ∙ take-append a []

-- Chunks whose bytes are just those wanted are read as these, however they are cut.
pub read_from-chunks :
    (timeout : ℕ) (buffer : Bytes) (cs : List Bytes) (events : List Event)
    → AreChunks cs
    → length buffer < length (buffer ++ flat cs)
    → read_from timeout (length (buffer ++ flat cs)) buffer (chunks cs events)
      ≡ done (buffer ++ flat cs) events
unfolding read_from
read_from-chunks timeout buffer [] events h l =
    absurd (omega (arith, l, ap length (append-nil buffer)))
read_from-chunks timeout buffer (c ∷ []) events h l =
    let all : buffer ++ flat (c ∷ []) ≡ buffer ++ c = ap (λ t. buffer ++ t) (append-nil c) in
    let n = length (buffer ++ c) in
    rw (all, (leb_iff n n).1 (omega arith), take_all (buffer ++ c)) refl
read_from-chunks timeout buffer (c ∷ d ∷ cs) events (h, k) l =
    let same : (buffer ++ c) ++ flat (d ∷ cs) ≡ buffer ++ flat (c ∷ d ∷ cs) =
      append_assoc buffer c (flat (d ∷ cs)) in
    let short : length (buffer ++ c) < length ((buffer ++ c) ++ flat (d ∷ cs)) =
      omega (arith, length-append (buffer ++ c) (flat (d ∷ cs)), length-flat d cs k) in
    let ih = read_from-chunks timeout (buffer ++ c) (d ∷ cs) events k short in
    let wanted = length ((buffer ++ c) ++ flat (d ∷ cs)) in
    subst (λ t. read_from timeout (length t) buffer (chunks (c ∷ d ∷ cs) events) ≡ done t events)
      same
      (elim (Bool-cases (leb wanted (length (buffer ++ c)))) [
        | inl enough ↦ absurd (let e = (leb_iff _ _).0 enough in omega (arith, e, short))
        | inr more ↦ rw more ih
      ])
