-- ===== src/ClientCli/Parsed.antt =====
-- FerrumClient/src/clientCli.ts: what `parseArgs` and `validateOptions` promise of the options.
use ferrum_proxy.Base.{
  ℕ, ◌≤◌, ◌≡◌, subst, ◌↔◌, is_empty, trim, true, false, inl, inr, ◌⊎◌, Text, none, List, [], ◌∷◌,
  arith,
}
use ferrum_proxy.ClientCli
use ferrum_proxy.ClientCli.{
  Options, CliError, Env, Case, Parse, default_options, is_port, parse_port, with_port, case_of,
  parse_case, parse_last, parse_from, parse_args, is_protocol, validate_options,
}

abbrev pub IsPort : ℕ → Type 0
IsPort n = (1 ≤ n) × (n ≤ 65535)

abbrev pub HasPorts : Options → Type 0
HasPorts o = IsPort o.tcp_port × IsPort o.udp_port

-- What holds of the options, where there are any
abbrev pub Yields : Parse → Type 0
Yields (inl e) = Unit
Yields (inr o) = HasPorts o

abbrev pub YieldsPort : CliError ⊎ ℕ → Type 0
YieldsPort (inl e) = Unit
YieldsPort (inr port) = IsPort port

parse_port-YieldsPort : (value option : Text) → YieldsPort (parse_port value option)
unfolding parse_port
parse_port-YieldsPort value option = ground arith

with_port-Yields :
    (r : CliError ⊎ ℕ) (k : ℕ → Parse)
    → YieldsPort r
    → ((port : ℕ) → IsPort port → Yields (k port))
    → Yields (with_port r k)
with_port-Yields (inl e) k p h = tt
with_port-Yields (inr port) k p h = h port p

parse_case-HasPorts :
    (c : Case) (arg value : Text) (o : Options) (taken kept : Options → Parse)
    → HasPorts o
    → ((o' : Options) → HasPorts o' → Yields (taken o'))
    → ((o' : Options) → HasPorts o' → Yields (kept o'))
    → Yields (parse_case c arg value o taken kept)
unfolding parse_case
parse_case-HasPorts ClientCli.relay arg value o taken kept h t k = t _ h
parse_case-HasPorts ClientCli.token arg value o taken kept h t k = t _ h
parse_case-HasPorts ClientCli.protocol arg value o taken kept h t k = t _ h
parse_case-HasPorts ClientCli.tcp_port arg value o taken kept (a, b) t k =
    with_port-Yields (parse_port value arg) _ (parse_port-YieldsPort value arg)
      (λ port p. t (record o { tcp_port = port }) (p, b))
parse_case-HasPorts ClientCli.udp_port arg value o taken kept (a, b) t k =
    with_port-Yields (parse_port value arg) _ (parse_port-YieldsPort value arg)
      (λ port p. t (record o { udp_port = port }) (a, p))
parse_case-HasPorts ClientCli.local_host arg value o taken kept h t k = t _ h
parse_case-HasPorts ClientCli.haproxy arg value o taken kept h t k = k _ h
parse_case-HasPorts ClientCli.no_status arg value o taken kept h t k = k _ h
parse_case-HasPorts ClientCli.help arg value o taken kept h t k = k _ h
parse_case-HasPorts ClientCli.unknown arg value o taken kept h t k = tt

parse_last-HasPorts :
    (c : Case) (arg : Text) (o : Options) → HasPorts o → Yields (parse_last c arg o)
unfolding parse_last
parse_last-HasPorts ClientCli.relay arg o h = tt
parse_last-HasPorts ClientCli.token arg o h = tt
parse_last-HasPorts ClientCli.protocol arg o h = tt
parse_last-HasPorts ClientCli.tcp_port arg o h = tt
parse_last-HasPorts ClientCli.udp_port arg o h = tt
parse_last-HasPorts ClientCli.local_host arg o h = tt
parse_last-HasPorts ClientCli.haproxy arg o h = h
parse_last-HasPorts ClientCli.no_status arg o h = h
parse_last-HasPorts ClientCli.help arg o h = h
parse_last-HasPorts ClientCli.unknown arg o h = tt

parse_from-HasPorts : (argv : List Text) (o : Options) → HasPorts o → Yields (parse_from argv o)
unfolding parse_from
parse_from-HasPorts [] o h = h
parse_from-HasPorts (arg ∷ []) o h = parse_last-HasPorts (case_of arg) arg o h
parse_from-HasPorts (arg ∷ value ∷ argv) o h =
    parse_case-HasPorts (case_of arg) arg value o _ _ h (parse_from-HasPorts argv)
      (parse_from-HasPorts (value ∷ argv))

-- What `validateOptions` asks of options with valid ports
abbrev pub IsUsable : Options → Type 0
IsUsable o =
    (is_protocol o.protocol ≡ true)
    × (is_empty (trim o.relay) ≡ false)
    × (is_empty (trim o.local_host) ≡ false)

validate-IsUsable : (o : Options) → HasPorts o → (validate_options o ≡ none) ↔ IsUsable o
unfolding validate_options
validate-IsUsable o (a, b) = ground (arith, a, b)

-- Whatever the arguments and the environment, options that `parseArgs` returns have ports between 1
-- and 65535, and `validateOptions` accepts them exactly if the protocol is tcp, udp or both and
-- neither the relay nor the local host is blank.
pub parse_args-validate_options :
    (argv : List Text) (env : Env) (o : Options)
    → parse_args argv env ≡ inr o
    → HasPorts o × ((validate_options o ≡ none) ↔ IsUsable o)
unfolding parse_args default_options
parse_args-validate_options argv env o e =
    let ports : HasPorts o = subst Yields e (
      parse_from-HasPorts argv (default_options env)
        ((omega arith, omega arith), (omega arith, omega arith))) in
    (ports, validate-IsUsable o ports)
