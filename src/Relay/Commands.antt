-- ===== src/Relay/Commands.antt =====
-- FerrumClient/src/relayShareClient.ts: what the client sends to the relay and reads of its answers.
-- `Number(s)` is the platform's, and stands as a parameter: the natural number that it gives, if any.
pub mod Answers
use ferrum_proxy.Base.{
  ℕ, ltb, leb, ◌==◌, if◌then◌else◌, not, is_empty, Bool, true, false, ◌&&◌, ◌||◌, Text, codes, trim,
  text_eq, starts_with, is_space, Option, none, some, List, [], ◌∷◌, ◌++◌,
}
use ferrum_proxy.Base.Decimal.{decimal}
use ferrum_proxy.Relay.Client.{ProtocolMode, tcp, udp, both, uses_tcp, uses_udp}

-- `RelayShareClientOptions`; a port that is not a natural number counts as 0.
pub record RelayShareClientOptions : Type 0 where
  pub relay_address : Text
  pub token : Option Text
  pub protocol : ProtocolMode
  pub local_host : Text
  pub tcp_local_port : Option ℕ
  pub udp_local_port : Option ℕ
  pub haproxy : Bool

pub data RelayError : Type 0 where
  no_relay_address no_tcp_port no_udp_port no_local_port : RelayError
  not_a_relay invalid_token unexpected_answer : Text → RelayError
  refused_allocation invalid_endpoint invalid_address invalid_port : Text → RelayError

-- `isPort`
abbrev pub is_port : ℕ → Bool
is_port n = leb 1 n && leb n 65535

abbrev pub has_port : Option ℕ → Bool
has_port none = false
has_port (some n) = is_port n

-- `validate`; `none` where it returns
unfoldable pub validate : RelayShareClientOptions → Option RelayError
validate o =
    if is_empty (trim o.relay_address)
    then some no_relay_address
    else if uses_tcp o.protocol && not (has_port o.tcp_local_port)
    then some no_tcp_port
    else if uses_udp o.protocol && not (has_port o.udp_local_port)
    then some no_udp_port
    else none

abbrev pub trimmed : Option Text → Text
trimmed none = []
trimmed (some t) = trim t

abbrev pub port_for_allocation : RelayShareClientOptions → Option ℕ
port_for_allocation o = elim o.protocol [ udp ↦ o.udp_local_port | _ ↦ o.tcp_local_port ]

abbrev pub target_of : Text → Text → ℕ → Text
target_of token host port =
    if is_empty token
    then host ++ (b':' ∷ decimal port)
    else token ++ (b':' ∷ host ++ (b':' ∷ decimal port))

abbrev pub with_port : Text → Text → Option ℕ → Option Text
with_port token host none = none
with_port token host (some port) = if port == 0 then none else some (target_of token host port)

-- `buildRelayTarget`; `none` is the exception.
unfoldable pub build_relay_target : RelayShareClientOptions → Option Text
build_relay_target o = with_port (trimmed o.token) o.local_host (port_for_allocation o)

-- `buildTunnelRegistrationCommand`
unfoldable pub build_tunnel_registration_command : Bool → ℕ → Bool → Text
build_tunnel_registration_command is_udp port haproxy =
    (if is_udp then codes "UDP_TUNNEL" else codes "TUNNEL")
    ++ (b' ' ∷ decimal port ++ ((if haproxy then codes " HAPROXY" else []) ++ 10 ∷ []))

-- `s.split(/\s+/)`, after the part `cur`: a run of white space ends a part.
unfoldable pub words_from : Bool → Text → Text → List Text
unfolding is_space
words_from in_gap cur [] = cur ∷ []
words_from in_gap cur (c ∷ s) =
    let skipped = words_from true cur s in
    let ended = cur ∷ words_from true [] s in
    let longer = words_from false (cur ++ c ∷ []) s in
    if is_space c then (if in_gap then skipped else ended) else longer

unfoldable pub words : Text → List Text
unfolding words_from
words s = words_from false [] s

-- What stands before and after the last colon; `none` where there is none, or nothing before it.
abbrev pub or_later : Option (Text × Text) → Text → Text → Option (Text × Text)
or_later none before after = some (before, after)
or_later (some p) before after = some p

unfoldable pub last_colon : Text → Text → Option (Text × Text)
last_colon before [] = none
last_colon before (c ∷ s) =
    let later = last_colon (before ++ c ∷ []) s in
    if c == b':' then or_later later before s else later

abbrev pub non_empty_before : Option (Text × Text) → Option (Text × Text)
non_empty_before none = none
non_empty_before (some (before, after)) = if is_empty before then none else some (before, after)

unfoldable pub split_endpoint : Text → Option (Text × Text)
unfolding last_colon
split_endpoint s = non_empty_before (last_colon [] s)

pub data Answer {ℓ} (A : Type ℓ) : Type ℓ where
  ok : A → Answer A
  err : RelayError → Answer A

module _ (number : Text → Option ℕ) where
  abbrev pub port_or : Option ℕ → ℕ → ℕ
  port_or none fallback = fallback
  port_or (some n) fallback = if ltb 0 n && leb n 65535 then n else fallback

  abbrev pub endpoint_of : Text → Option (Text × Text) → Option ℕ → Answer (Text × ℕ)
  endpoint_of trimmed none fallback = err (invalid_endpoint trimmed)
  endpoint_of trimmed (some p) none = err (invalid_endpoint trimmed)
  endpoint_of trimmed (some (host, port)) (some fallback) =
      if is_port fallback
      then ok (host, port_or (number port) fallback)
      else err (invalid_endpoint trimmed)

  abbrev pub of_words : Text → List Text → Answer (Text × ℕ)
  of_words trimmed (a ∷ b ∷ c ∷ rest) =
      if text_eq a (codes "OK")
      then endpoint_of trimmed (split_endpoint c) (number b)
      else err (refused_allocation trimmed)
  of_words trimmed _ = err (refused_allocation trimmed)

  -- `parseConnectResponse`
  unfoldable pub parse_connect_response : Text → Answer (Text × ℕ)
  unfolding words split_endpoint
  parse_connect_response response = of_words (trim response) (words (trim response))

  abbrev pub at_port : Text → Text → Option ℕ → Answer (Text × ℕ)
  at_port address host none = err (invalid_port address)
  at_port address host (some n) = if is_port n then ok (host, n) else err (invalid_port address)

  -- The address that `connectTcp` connects to
  abbrev pub address_of : Text → Option (Text × Text) → Answer (Text × ℕ)
  address_of address none = err (invalid_address address)
  address_of address (some (host, port)) = at_port address host (number port)

  unfoldable pub connect_address : Text → Answer (Text × ℕ)
  unfolding split_endpoint
  connect_address address = address_of address (split_endpoint address)

module _ (to_lower_case : Text → Text) where
  -- What `validateRelayApi` makes of the answers to STATS and to TOKEN
  abbrev pub token_answer : Text → Option RelayError
  token_answer answer =
      if starts_with answer (codes "OK ")
      then none
      else if text_eq (to_lower_case answer) (codes "error invalid token")
      then some (invalid_token answer)
      else some (unexpected_answer answer)

  unfoldable pub validate_relay_api : Option Text → Text → Text → Option RelayError
  validate_relay_api token stats_answer token_response =
      if not (starts_with (trim stats_answer) (codes "STAT "))
      then some (not_a_relay (trim stats_answer))
      else if is_empty (trimmed token)
      then none
      else token_answer (trim token_response)
