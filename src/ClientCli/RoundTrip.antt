-- ===== src/ClientCli/RoundTrip.antt =====
-- FerrumClient/src/clientCli.ts: options that are written as arguments and read again.
use ferrum_proxy.Base.{
  ℕ, ◌≡◌, refl, not, Bool, true, false, inr, Text, codes, text_eq, Option, none, some, List, [],
  ◌∷◌, ◌++◌, arith,
}
use ferrum_proxy.Base.Decimal.{decimal, number_of-decimal, is_digits-decimal}
use ferrum_proxy.ClientCli.{
  Options, Env, default_options, parse_port, case_of, parse_case, parse_last, parse_from,
  parse_args,
}
use ferrum_proxy.ClientCli.Parsed.{HasPorts, IsPort}

abbrev pub when : Bool → Text → List Text
when true arg = arg ∷ []
when false arg = []

abbrev pub flags_of : Options → List Text
flags_of o =
    when o.haproxy (codes "--haproxy")
    ++ when (not o.show_status) (codes "--no-status")
    ++ when o.help (codes "--help")

abbrev pub token_args : Option Text → List Text
token_args none = []
token_args (some t) = codes "--token" ∷ t ∷ []

-- The arguments that say all of the options
abbrev pub argv_of : Options → List Text
argv_of o =
    codes "--relay"
      ∷ o.relay
      ∷ codes "--protocol"
      ∷ o.protocol
      ∷ codes "--tcp-port"
      ∷ decimal o.tcp_port
      ∷ codes "--udp-port"
      ∷ decimal o.udp_port
      ∷ codes "--local-host"
      ∷ o.local_host
      ∷ token_args o.token
    ++ flags_of o

parse_port-decimal : (n : ℕ) (option : Text) → IsPort n → parse_port (decimal n) option ≡ inr n
unfolding parse_port
parse_port-decimal n option (a, b) = rw (is_digits-decimal n, number_of-decimal n) (ground arith)

flags : Unit {0}
unfolding parse_from parse_case parse_last case_of text_eq
flags = tt

-- Options with the flags as they are by default.
abbrev unflagged : Options → Options
unflagged o = record o { haproxy = false; show_status = true; help = false }

parse_from-flags :
    (h s p : Bool) (o : Options)
    → parse_from
        (when h (codes "--haproxy")
          ++ when (not s) (codes "--no-status")
          ++ when p (codes "--help"))
        (unflagged o)
      ≡ inr (record o { haproxy = h; show_status = s; help = p })
unfolding flags
parse_from-flags true true true o = refl
parse_from-flags true true false o = refl
parse_from-flags true false true o = refl
parse_from-flags true false false o = refl
parse_from-flags false true true o = refl
parse_from-flags false true false o = refl
parse_from-flags false false true o = refl
parse_from-flags false false false o = refl

parse_from-token :
    (t : Option Text) (o : Options)
    → parse_from (token_args t ++ flags_of o) (record (unflagged o) { token = none })
      ≡ inr (record o { token = t })
unfolding flags
parse_from-token none o =
    parse_from-flags o.haproxy o.show_status o.help (record o { token = none })
parse_from-token (some t) o =
    parse_from-flags o.haproxy o.show_status o.help (record o { token = some t })

-- Options with ports between 1 and 65535 are read back from the arguments that say all of them,
-- whatever relay the environment names, if it names no token.
pub parse_args-argv_of :
    (env : Env) (o : Options) → env.token ≡ none → HasPorts o → parse_args (argv_of o) env ≡ inr o
unfolding parse_args default_options flags
parse_args-argv_of env o e (a, b) =
    rw
      (
        parse_port-decimal o.tcp_port (codes "--tcp-port") a,
        parse_port-decimal o.udp_port (codes "--udp-port") b,
        e,
      )
      (parse_from-token o.token o)
