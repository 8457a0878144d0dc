-- ===== src/ClientCli.antt =====
-- FerrumClient/src/clientCli.ts: the options of the command line.
pub mod Parsed
pub mod RoundTrip
use ferrum_proxy.Base.{
  ℕ, leb, ltb, if◌then◌else◌, not, is_empty, or_else, any, Bool, true, false, ◌&&◌, ◌||◌, Text,
  codes, trim, text_eq, Option, none, some, List, [], ◌∷◌, ◌⊎◌, inl, inr,
}
use ferrum_proxy.Base.Decimal.{number_of, is_digits}

-- `ClientCliOptions`; the protocol is the text of the argument until `validateOptions`.
pub record Options : Type 0 where
  pub relay : Text
  pub token : Option Text
  pub protocol : Text
  pub tcp_port : ℕ
  pub udp_port : ℕ
  pub local_host : Text
  pub haproxy : Bool
  pub show_status : Bool
  pub help : Bool

-- The exceptions of `parseArgs` and `validateOptions`, with the option or argument they name
pub data CliError : Type 0 where
  requires_value not_an_integer out_of_range unknown_option : Text → CliError
  bad_protocol no_relay no_local_host : CliError

-- The environment variables FERRUMPROXY_RELAY and FERRUMPROXY_TOKEN
pub record Env : Type 0 where
  pub relay : Option Text
  pub token : Option Text

abbrev pub nonblank : Option Text → Option Text
nonblank none = none
nonblank (some t) = if is_empty (trim t) then none else some (trim t)

unfoldable pub default_options : Env → Options
default_options env = record {
  relay = or_else (nonblank env.relay) (codes "127.0.0.1:7000");
  token = nonblank env.token;
  protocol = codes "tcp";
  tcp_port = 25565;
  udp_port = 25565;
  local_host = codes "127.0.0.1";
  haproxy = false;
  show_status = true;
  help = false;
}

-- `isPort`
abbrev pub is_port : ℕ → Bool
is_port n = leb 1 n && leb n 65535

-- `parsePort`
unfoldable pub parse_port : Text → Text → CliError ⊎ ℕ
unfolding number_of is_digits
parse_port value option =
    if not (is_digits value)
    then inl (not_an_integer option)
    else if not (is_port (number_of value))
    then inl (out_of_range option)
    else inr (number_of value)

-- The cases of the `switch`: an option with a value, one without, or any other argument
pub data Case : Type 0 where
  relay token protocol tcp_port udp_port local_host haproxy no_status help unknown : Case

unfoldable pub case_of : Text → Case
case_of arg =
    if text_eq arg (codes "--relay")
    then relay
    else if text_eq arg (codes "--token")
    then token
    else if text_eq arg (codes "--protocol")
    then protocol
    else if text_eq arg (codes "--tcp-port")
    then tcp_port
    else if text_eq arg (codes "--udp-port")
    then udp_port
    else if text_eq arg (codes "--local-host")
    then local_host
    else if text_eq arg (codes "--haproxy")
    then haproxy
    else if text_eq arg (codes "--no-status")
    then no_status
    else if text_eq arg (codes "--help") || text_eq arg (codes "-h")
    then help
    else unknown

abbrev pub Parse : Type 0
Parse = CliError ⊎ Options

abbrev pub with_port : CliError ⊎ ℕ → (ℕ → Parse) → Parse
with_port (inl e) k = inl e
with_port (inr port) k = k port

-- A case where another argument follows: `taken` goes on after it, and `kept` with it.
unfoldable pub parse_case :
    Case → Text → Text → Options → (Options → Parse) → (Options → Parse) → Parse
unfolding parse_port
parse_case relay arg value o taken kept = taken (record o { relay = value })
parse_case token arg value o taken kept = taken (record o { token = some value })
parse_case protocol arg value o taken kept = taken (record o { protocol = value })
parse_case tcp_port arg value o taken kept =
    with_port (parse_port value arg) λ port. taken (record o { tcp_port = port })
parse_case udp_port arg value o taken kept =
    with_port (parse_port value arg) λ port. taken (record o { udp_port = port })
parse_case local_host arg value o taken kept = taken (record o { local_host = value })
parse_case haproxy arg value o taken kept = kept (record o { haproxy = true })
parse_case no_status arg value o taken kept = kept (record o { show_status = false })
parse_case help arg value o taken kept = kept (record o { help = true })
parse_case unknown arg value o taken kept = inl (unknown_option arg)

-- The case of the last argument.
unfoldable pub parse_last : Case → Text → Options → Parse
parse_last haproxy arg o = inr (record o { haproxy = true })
parse_last no_status arg o = inr (record o { show_status = false })
parse_last help arg o = inr (record o { help = true })
parse_last unknown arg o = inl (unknown_option arg)
parse_last _ arg o = inl (requires_value arg)

-- The loop of `parseArgs`
unfoldable pub parse_from : List Text → Options → Parse
unfolding case_of parse_case parse_last
parse_from [] o = inr o
parse_from (arg ∷ []) o = parse_last (case_of arg) arg o
parse_from (arg ∷ value ∷ argv) o =
    parse_case (case_of arg) arg value o (λ o'. parse_from argv o')
      (λ o'. parse_from (value ∷ argv) o')

-- `parseArgs`
unfoldable pub parse_args : List Text → Env → Parse
unfolding parse_from default_options
parse_args argv env = parse_from argv (default_options env)

abbrev pub uses_tcp : Text → Bool
uses_tcp p = text_eq p (codes "tcp") || text_eq p (codes "both")

abbrev pub uses_udp : Text → Bool
uses_udp p = text_eq p (codes "udp") || text_eq p (codes "both")

abbrev pub is_protocol : Text → Bool
is_protocol p = any (λ q. text_eq p q) (codes "tcp" ∷ codes "udp" ∷ codes "both" ∷ [])

-- `validateOptions`; `none` where it returns
unfoldable pub validate_options : Options → Option CliError
validate_options o =
    if not (is_protocol o.protocol)
    then some bad_protocol
    else if is_empty (trim o.relay)
    then some no_relay
    else if is_empty (trim o.local_host)
    then some no_local_host
    else if uses_tcp o.protocol && not (is_port o.tcp_port)
    then some (out_of_range (codes "--tcp-port"))
    else if uses_udp o.protocol && not (is_port o.udp_port)
    then some (out_of_range (codes "--udp-port"))
    else none
