-- ===== src/Tests/ClientCli.antt =====
-- FerrumClient/src/clientCli.ts at concrete inputs.
use ferrum_proxy.Base.{
  ◌≡◌, refl, ◌↔◌, Text, codes, text_eq, true, false, none, some, List, [], ◌∷◌, inl, inr, arith,
}
use ferrum_proxy.Base.Decimal.{decimal, decimal_from, number_of, number_from, is_digits}
use ferrum_proxy.ClientCli.{
  Options, Env, requires_value, not_an_integer, out_of_range, default_options, parse_port, case_of,
  parse_case, parse_last, parse_from, parse_args, validate_options,
}
use ferrum_proxy.ClientCli.Parsed.{HasPorts, IsUsable, parse_args-validate_options}
use ferrum_proxy.ClientCli.RoundTrip.{argv_of, parse_args-argv_of}

cli : Unit {0}
unfolding decimal decimal_from number_of number_from is_digits default_options parse_port case_of
    parse_case parse_last parse_from parse_args text_eq
cli = tt

abbrev env : Env
env = record { relay = none; token = none }

abbrev options : Options
options = record {
  relay = codes "r:1";
  token = some (codes "--haproxy");
  protocol = codes "both";
  tcp_port = 80;
  udp_port = 19132;
  local_host = codes "::1";
  haproxy = true;
  show_status = false;
  help = false;
}

parse_args-argv_of_example : parse_args (argv_of options) env ≡ inr options
parse_args-argv_of_example =
    parse_args-argv_of env options refl ((omega arith, omega arith), (omega arith, omega arith))

abbrev short : List Text
short = codes "--udp-port" ∷ codes "0042" ∷ codes "-h" ∷ []

abbrev short_options : Options
short_options = record (default_options env) { udp_port = 42; help = true }

parse_args-validate_options_example :
    HasPorts short_options × ((validate_options short_options ≡ none) ↔ IsUsable short_options)
unfolding cli
parse_args-validate_options_example = parse_args-validate_options short env short_options refl

parse_args-refusals :
    (parse_args (codes "--relay" ∷ []) env ≡ inl (requires_value (codes "--relay")))
    × ((parse_args (codes "--tcp-port" ∷ codes "8x" ∷ []) env
          ≡ inl (not_an_integer (codes "--tcp-port")))
        × (parse_args (codes "--tcp-port" ∷ codes "65536" ∷ []) env
            ≡ inl (out_of_range (codes "--tcp-port"))))
unfolding cli
parse_args-refusals = (refl, (refl, refl))
