-- ===== src/Tests/Configs.antt =====
-- The theorems on the configuration at concrete inputs.
use go_musical_packets.Config.Settings.{default_config, Config}
use go_musical_packets.Music.Mode.{mode_names, mode_string, parse_mode}
use go_musical_packets.Packet.{is_protocol, v4}
use go_musical_packets.Config.Rules.Accepted.{to_flow_rules-Converted, Converted, ParsesValid}
use go_musical_packets.Config.Compile.{compile_selector_total, selector_config, compile_selector}
use go_musical_packets.Flow.Prefix.{masked, prefix, is_valid_prefix, Prefix}
use go_musical_packets.Config.Rules.{
  rule_or_problems, is_flow_id, is_blank, flag_value, convert_flags, convert_size, convert_ports,
  convert_prefix, convert_identity, convert_match, convert_action, to_flow_rule, convert_rules,
  to_flow_rules, RuleConfig,
}
use go_musical_packets.Flow.Selector.Rules.{of_config, Fresh}
use go_musical_packets.Flow.Selector.{state_monitor, state_play, Rule, is_state}
use go_musical_packets.Prelude.{
  ◌≡◌, refl, subst, true, Option, none, some, List, [], ◌∷◌, arith, ok, Text, codes, text_eq,
  contains_text,
}

-- A parser that knows one prefix.
abbrev pub parse_ten : Text → Option Prefix
parse_ten t = some (prefix (v4 167772160) 8)

pub parse_ten-ParsesValid : ParsesValid parse_ten
unfolding is_valid_prefix
parse_ten-ParsesValid t p h =
    let same : prefix (v4 167772160) 8 ≡ p = ground (arith, h) in
    subst (λ q. is_valid_prefix q ≡ true) same refl

abbrev pub dorian_config : RuleConfig
dorian_config = record {
  id = codes "a";
  name = codes "dorian";
  enabled = true;
  criteria = record {
    exact_flow_id = [];
    source_cidr = codes "10.0.0.0/8";
    destination_cidr = [];
    protocol = codes "tcp";
    source_ports = none;
    destination_ports = some (record { minimum = 80; maximum = 443 });
    wire_size = none;
    required_tcp_flags = codes "syn" ∷ codes "ack" ∷ [];
  };
  action = record { state = state_play; channel = 3; mode = codes "dorian"; root = some 2 };
}

abbrev dorian_rule : Rule
dorian_rule = record {
  id = codes "a";
  name = codes "dorian";
  enabled = true;
  criteria = record {
    exact_flow_id = [];
    source_prefix = some (prefix (v4 167772160) 8);
    destination_prefix = none;
    protocol = codes "tcp";
    source_ports = none;
    destination_ports = some (record { minimum = 80; maximum = 443 });
    wire_size = none;
    required_tcp_flags = 18;
  };
  action = record { state = state_play; channel = 3; mode = codes "dorian"; root = 2 };
}

dorian_converted : to_flow_rules parse_ten (dorian_config ∷ []) ≡ ok (dorian_rule ∷ [])
unfolding to_flow_rules convert_rules to_flow_rule convert_action convert_match convert_identity
    convert_prefix convert_ports convert_size convert_flags flag_value is_blank is_flow_id masked
    rule_or_problems contains_text text_eq is_state is_protocol parse_mode mode_string mode_names
dorian_converted = refl

to_flow_rules-Converted_example :
    Fresh [] (dorian_rule ∷ []) × Converted (dorian_config ∷ []) (dorian_rule ∷ [])
to_flow_rules-Converted_example =
    to_flow_rules-Converted parse_ten parse_ten-ParsesValid (dorian_config ∷ []) (dorian_rule ∷ [])
      dorian_converted

abbrev pub policy : Config
policy = record default_config { rules = dorian_config ∷ [] }

pub monitor_known : is_state state_monitor ≡ true
unfolding is_state text_eq
monitor_known = refl

abbrev pub no_safety : List Rule → List Rule
no_safety rs = []

compile_selector_total_example :
    compile_selector parse_ten policy no_safety
    ≡ ok (of_config (selector_config policy [] (dorian_rule ∷ [])))
unfolding contains_text default_config
compile_selector_total_example =
    compile_selector_total parse_ten policy no_safety (dorian_rule ∷ []) parse_ten-ParsesValid
      dorian_converted refl monitor_known (omega arith) (omega arith) tt tt (refl, tt)
