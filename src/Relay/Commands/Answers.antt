-- ===== src/Relay/Commands/Answers.antt =====
-- FerrumClient/src/relayShareClient.ts: addresses and answers that are read as they were written.
use ferrum_proxy.Base.{
  ◌≤◌, ℕ, ◌≡◌, refl, ap, ◌∙◌, ◌==◌, is_empty, all, All, All-append, Bool, true, false, Bool-cases,
  inl, inr, Text, codes, trim, text_eq, is_space, Option, none, some, List, [], ◌∷◌, ◌++◌,
  append-nil, append_assoc, arith,
}
use ferrum_proxy.Base.Decimal.{decimal, is_digit, is_digits, is_digits-decimal}
use ferrum_proxy.Relay.Commands.{
  is_port, words_from, words, last_colon, split_endpoint, ok, parse_connect_response,
  connect_address,
}

abbrev pub NoSpace : Text → Type 0
NoSpace s = All (λ c. is_space c ≡ false) s

abbrev NoColon : Text → Type 0
NoColon s = All (λ c. (c == b':') ≡ false) s

digits-NoColon : (s : Text) → all is_digit s ≡ true → NoColon s
digits-NoColon [] h = tt
digits-NoColon (c ∷ s) h = ground (arith, h, digits-NoColon s)

digits-NoSpace : (s : Text) → all is_digit s ≡ true → NoSpace s
unfolding is_space
digits-NoSpace [] h = tt
digits-NoSpace (c ∷ s) h = ground (arith, h, digits-NoSpace s)

digits_all : (s : Text) → is_digits s ≡ true → (all is_digit s ≡ true) × (is_empty s ≡ false)
unfolding is_digits
digits_all [] h = cc
digits_all (c ∷ s) h = (h, refl)

decimal-digits : (n : ℕ) → (all is_digit (decimal n) ≡ true) × (is_empty (decimal n) ≡ false)
decimal-digits n = digits_all (decimal n) (is_digits-decimal n)

last_colon-NoColon : (before s : Text) → NoColon s → last_colon before s ≡ none
unfolding last_colon
last_colon-NoColon before [] h = refl
last_colon-NoColon before (c ∷ s) (n, h) = rw (n, last_colon-NoColon (before ++ c ∷ []) s h) refl

last_colon-append :
    (before host port : Text)
    → NoColon port
    → last_colon before (host ++ b':' ∷ port) ≡ some (before ++ host, port)
unfolding last_colon
last_colon-append before [] port h =
    rw (last_colon-NoColon (before ++ b':' ∷ []) port h, append-nil before) refl
last_colon-append before (c ∷ host) port h =
    let later = last_colon-append (before ++ c ∷ []) host port h in
    elim (Bool-cases (c == b':')) [
      | inl colon ↦
          rw (colon, later) (ap (λ (t : Text). some (t, port)) (append_assoc before (c ∷ []) host))
      | inr other ↦
          rw (other, later) (ap (λ (t : Text). some (t, port)) (append_assoc before (c ∷ []) host))
    ]

split_endpoint-append :
    (host port : Text)
    → is_empty host ≡ false
    → NoColon port
    → split_endpoint (host ++ b':' ∷ port) ≡ some (host, port)
unfolding split_endpoint
split_endpoint-append host port e h = rw (last_colon-append [] host port h, e) refl

words_from-space :
    (gap : Bool) (cur w rest : Text)
    → NoSpace w
    → is_empty w ≡ false
    → words_from gap cur (w ++ b' ' ∷ rest) ≡ (cur ++ w) ∷ words_from true [] rest
unfolding words_from is_space
words_from-space gap cur [] rest h e = cc
words_from-space gap cur (c ∷ []) rest (n, h) e = rw n refl
words_from-space gap cur (c ∷ d ∷ w) rest (n, h) e = rw n (
    words_from-space false (cur ++ c ∷ []) (d ∷ w) rest h refl
    ∙ ap (λ (t : Text). t ∷ words_from true [] rest) (append_assoc cur (c ∷ []) (d ∷ w)))

words_from-end : (gap : Bool) (cur w : Text) → NoSpace w → words_from gap cur w ≡ (cur ++ w) ∷ []
unfolding words_from is_space
words_from-end gap cur [] h = rw (append-nil cur) refl
words_from-end gap cur (c ∷ w) (n, h) = rw n (
    words_from-end false (cur ++ c ∷ []) w h
    ∙ ap (λ (t : Text). t ∷ []) (append_assoc cur (c ∷ []) w))

ok-NoSpace : NoSpace (codes "OK")
unfolding is_space
ok-NoSpace = (refl, (refl, tt))

colon-NoSpace : is_space b':' ≡ false
unfolding is_space
colon-NoSpace = refl

-- The answer to CONNECT, without the white space around it
abbrev pub answer_of : ℕ → Text → ℕ → Text
answer_of fallback host port =
    codes "OK" ++ b' ' ∷ (decimal fallback ++ b' ' ∷ (host ++ b':' ∷ decimal port))

words-answer_of :
    (fallback : ℕ) (host : Text) (port : ℕ)
    → NoSpace host
    → words (answer_of fallback host port)
      ≡ codes "OK" ∷ decimal fallback ∷ (host ++ b':' ∷ decimal port) ∷ []
unfolding words
words-answer_of fallback host port h =
    let (d, some_digit) = decimal-digits fallback in
    let endpoint : NoSpace (host ++ b':' ∷ decimal port) =
      All-append (λ c. is_space c ≡ false) host (b':' ∷ decimal port) h
        (colon-NoSpace, digits-NoSpace (decimal port) (decimal-digits port).0) in
    words_from-space false [] (codes "OK")
      (decimal fallback ++ b' ' ∷ (host ++ b':' ∷ decimal port)) ok-NoSpace refl
    ∙ ap (λ (ws : List Text). codes "OK" ∷ ws)
        (words_from-space true [] (decimal fallback) (host ++ b':' ∷ decimal port)
            (digits-NoSpace (decimal fallback) d) some_digit
          ∙ ap (λ (ws : List Text). decimal fallback ∷ ws)
              (words_from-end true [] (host ++ b':' ∷ decimal port) endpoint))

module _ (number : Text → Option ℕ)
    (reads_decimal : (n : ℕ) → n ≤ 65535 → number (decimal n) ≡ some n) where
  -- If `Number` reads decimal numbers up to 65535, the answer OK with a port and an endpoint, whatever
  -- white space is around it, is read as that endpoint, if both ports are from 1 to 65535 and the host is
  -- neither empty nor has white space. The host may have colons, as an IPv6 address has.
  pub parse_connect_response-answer_of :
      (response host : Text) (fallback port : ℕ)
      → trim response ≡ answer_of fallback host port
      → is_empty host ≡ false
      → NoSpace host
      → is_port fallback ≡ true
      → is_port port ≡ true
      → parse_connect_response number response ≡ ok (host, port)
  unfolding parse_connect_response text_eq
  parse_connect_response-answer_of response host fallback port e some_host clean f p =
      let no_colon = digits-NoColon (decimal port) (decimal-digits port).0 in
      rw (e, words-answer_of fallback host port clean)
        (rw
          (
            split_endpoint-append host (decimal port) some_host no_colon,
            reads_decimal fallback (ground (arith, f)),
            reads_decimal port (ground (arith, p)),
            f,
          )
          (ground (arith, p)))

  -- If `Number` reads decimal numbers up to 65535, the address of a host that is not empty and a port from 1 to
  -- 65535 is split into that host and that port.
  pub connect_address-append :
      (host : Text) (port : ℕ)
      → is_empty host ≡ false
      → is_port port ≡ true
      → connect_address number (host ++ b':' ∷ decimal port) ≡ ok (host, port)
  unfolding connect_address
  connect_address-append host port some_host p =
      rw
        (
          split_endpoint-append host (decimal port) some_host
              (digits-NoColon (decimal port) (decimal-digits port).0),
          reads_decimal port (ground (arith, p)),
          p,
        )
        refl
