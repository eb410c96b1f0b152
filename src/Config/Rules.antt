-- ===== src/Config/Rules.antt =====
-- internal/config/rules.go: the persistent user rules and their conversion to rules of the selector.
-- The problems are collected in the order of the source; where none is found the rule is returned.
-- netip.ParsePrefix on the trimmed text is a parameter.
pub mod Accepted
use go_musical_packets.Flow.Prefix.{masked, Prefix}
use go_musical_packets.Packet.{
  flag_urg, flag_ack, flag_psh, flag_rst, is_protocol, flag_syn, flag_fin, Protocol,
}
use go_musical_packets.Hex.{hex_encode, hex_decode}
use go_musical_packets.Music.Mode.{Mode, mode_string, parse_mode}
use go_musical_packets.Flow.Selector.{
  is_state, Match, state_play, SizeRange, PortRange, State, Action, Rule,
}
use go_musical_packets.Prelude.{
  ℕ, bit_or, Bool, true, false, not, ◌&&◌, ◌||◌, Option, none, some, List, [], ◌∷◌, ◌++◌, ltb, leb,
  ◌==◌, if◌then◌else◌, is_some, length, Result, ok, err, ℤ, pos, ltb_ℤ, Text, codes, text_eq,
  is_empty, contains_text,
}

abbrev pub TcpFlag : Type 0
TcpFlag = Text

pub record PortRangeConfig : Type 0 where
  pub minimum : ℕ
  pub maximum : ℕ

pub record SizeRangeConfig : Type 0 where
  pub minimum : ℤ
  pub maximum : ℤ

pub record RuleMatchConfig : Type 0 where
  pub exact_flow_id : Text
  pub source_cidr : Text
  pub destination_cidr : Text
  pub protocol : Protocol
  pub source_ports : Option PortRangeConfig
  pub destination_ports : Option PortRangeConfig
  pub wire_size : Option SizeRangeConfig
  pub required_tcp_flags : List TcpFlag

pub record RuleActionConfig : Type 0 where
  pub state : State
  pub channel : ℕ
  pub mode : Text
  pub root : Option ℕ

pub record RuleConfig : Type 0 where
  pub id : Text
  pub name : Text
  pub enabled : Bool
  pub criteria : RuleMatchConfig
  pub action : RuleActionConfig

pub data Problem : Type 0 where
  id_missing id_duplicated state_invalid channel_invalid identity_incomplete mode_invalid : Problem
  root_invalid identity_needs_play flow_id_invalid protocol_invalid : Problem
  source_cidr_invalid destination_cidr_invalid source_ports_reversed : Problem
  destination_ports_reversed wire_size_invalid flag_duplicated flag_invalid : Problem

-- `if bad { problems = append(problems, x) }`.
abbrev pub problem_if : Bool → Problem → List Problem
problem_if true x = x ∷ []
problem_if false x = []

-- What is read so far of a multi-byte white space of UTF-8.
pub data Reading : Type 0 where
  between after_c2 after_e1 after_e1_9a after_e2 after_e2_80 after_e2_81 after_e3 after_e3_80 :
      Reading

ascii_space : ℕ → Bool
ascii_space b = b == 32 || (leb 9 b && leb b 13)

read_byte : Reading → ℕ → Option Reading
unfolding ascii_space
read_byte between b =
    if ascii_space b
    then some between
    else if b == 194
    then some after_c2
    else if b == 225
    then some after_e1
    else if b == 226
    then some after_e2
    else if b == 227
    then some after_e3
    else none
read_byte after_c2 b = if b == 133 || b == 160 then some between else none
read_byte after_e1 b = if b == 154 then some after_e1_9a else none
read_byte after_e1_9a b = if b == 128 then some between else none
read_byte after_e2 b =
    if b == 128 then some after_e2_80 else if b == 129 then some after_e2_81 else none
read_byte after_e2_80 b =
    if leb b 138 || b == 168 || b == 169 || b == 175 then some between else none
read_byte after_e2_81 b = if b == 159 then some between else none
read_byte after_e3 b = if b == 128 then some after_e3_80 else none
read_byte after_e3_80 b = if b == 128 then some between else none

is_between : Reading → Bool
is_between between = true
is_between _ = false

blank_from : Option Reading → Text → Bool
unfolding is_between read_byte
blank_from none t = false
blank_from (some r) [] = is_between r
blank_from (some r) (b ∷ bs) = blank_from (read_byte r b) bs

-- `strings.TrimSpace(t) == ""`: nothing but white space.
unfoldable pub is_blank : Text → Bool
unfolding blank_from
is_blank t = blank_from (some between) t

abbrev pub name_of : Option Mode → Text
name_of none = []
name_of (some mode) = mode_string mode

-- The mode and the root, which stand together or not at all.
unfoldable pub convert_identity : State → Text → Option ℕ → List Problem × Text × ℕ
convert_identity state mode none = (problem_if (not (is_empty mode)) identity_incomplete, [], 0)
convert_identity state mode (some root) =
    if is_empty mode then (identity_incomplete ∷ [], [], 0) else (
      problem_if (not (is_some (parse_mode mode))) mode_invalid
          ++ (problem_if (ltb 11 root) root_invalid
              ++ problem_if (not (text_eq state state_play)) identity_needs_play),
      name_of (parse_mode mode),
      if ltb 11 root then 0 else root,
    )

unfoldable pub convert_action : RuleActionConfig → List Problem × Action
convert_action a =
    let (problems, mode, root) = convert_identity a.state a.mode a.root in
    (
      problem_if (not (is_state a.state)) state_invalid
          ++ (problem_if (ltb 16 a.channel) channel_invalid ++ problems),
      record { state = a.state; channel = a.channel; mode = mode; root = root },
    )

-- A text that decoding and encoding bring back, of the length of a flow ID.
unfoldable pub is_flow_id : Text → Bool
is_flow_id t = elim (hex_decode t) [
  | none ↦ false
  | some bytes ↦ length t == 24 && text_eq (hex_encode bytes) t
]

abbrev pub prefix_of : Problem → Option Prefix → List Problem × Option Prefix
prefix_of x none = (x ∷ [], none)
prefix_of x (some p) = ([], some (masked p))

unfoldable pub convert_prefix :
    (Text → Option Prefix) → Problem → Text → List Problem × Option Prefix
convert_prefix parse x t = if is_empty t then ([], none) else prefix_of x (parse t)

unfoldable pub convert_ports : Problem → Option PortRangeConfig → List Problem × Option PortRange
convert_ports x none = ([], none)
convert_ports x (some r) =
    if ltb r.maximum r.minimum
    then (x ∷ [], none)
    else ([], some (record { minimum = r.minimum; maximum = r.maximum }))

unfoldable pub convert_size : Option SizeRangeConfig → List Problem × Option SizeRange
convert_size none = ([], none)
convert_size (some r) =
    if ltb_ℤ r.minimum (pos 0) || ltb_ℤ r.maximum r.minimum
    then (wire_size_invalid ∷ [], none)
    else ([], some (record { minimum = r.minimum; maximum = r.maximum }))

unfoldable pub flag_value : TcpFlag → Option ℕ
flag_value t =
    if text_eq t (codes "fin")
    then some flag_fin
    else if text_eq t (codes "syn")
    then some flag_syn
    else if text_eq t (codes "rst")
    then some flag_rst
    else if text_eq t (codes "psh")
    then some flag_psh
    else if text_eq t (codes "ack")
    then some flag_ack
    else if text_eq t (codes "urg")
    then some flag_urg
    else none

-- The loop over the flags: those seen and the mask so far.
unfoldable pub convert_flags : List TcpFlag → ℕ → List TcpFlag → List Problem × ℕ
convert_flags seen mask [] = ([], mask)
convert_flags seen mask (t ∷ ts) =
    let skipped = convert_flags seen mask ts in
    let invalid = convert_flags (t ∷ seen) mask ts in
    let joined = λ (v : ℕ). convert_flags (t ∷ seen) (bit_or mask v) ts in
    if contains_text t seen
    then (flag_duplicated ∷ skipped.0, skipped.1)
    else elim (flag_value t) [ none ↦ (flag_invalid ∷ invalid.0, invalid.1) | some v ↦ joined v ]

unfoldable pub rule_or_problems : List Problem → Rule → Result (List Problem) Rule
rule_or_problems [] r = ok r
rule_or_problems (x ∷ xs) r = err (x ∷ xs)

module _ (parse : Text → Option Prefix) where
  unfoldable pub convert_match : RuleMatchConfig → List Problem × Match
  convert_match m =
      let source = convert_prefix parse source_cidr_invalid m.source_cidr in
      let destination = convert_prefix parse destination_cidr_invalid m.destination_cidr in
      let from = convert_ports source_ports_reversed m.source_ports in
      let to = convert_ports destination_ports_reversed m.destination_ports in
      let size = convert_size m.wire_size in
      let flags = convert_flags [] 0 m.required_tcp_flags in
      (
        problem_if (not (is_empty m.exact_flow_id || is_flow_id m.exact_flow_id)) flow_id_invalid
            ++ (problem_if (not (is_empty m.protocol || is_protocol m.protocol)) protocol_invalid
                ++ (source.0 ++ (destination.0 ++ (from.0 ++ (to.0 ++ (size.0 ++ flags.0)))))),
        record {
          exact_flow_id = m.exact_flow_id;
          source_prefix = source.1;
          destination_prefix = destination.1;
          protocol = m.protocol;
          source_ports = from.1;
          destination_ports = to.1;
          wire_size = size.1;
          required_tcp_flags = flags.1;
        },
      )

  unfoldable pub to_flow_rule : RuleConfig → Result (List Problem) Rule
  to_flow_rule r =
      let (wrong_action, action) = convert_action r.action in
      let (wrong_match, criteria) = convert_match r.criteria in
      rule_or_problems (problem_if (is_blank r.id) id_missing ++ (wrong_action ++ wrong_match))
        (record {
          id = r.id;
          name = r.name;
          enabled = r.enabled;
          criteria = criteria;
          action = action;
        })

  abbrev pub gather :
      List Problem
      → Result (List Problem) Rule
      → Result (List Problem) (List Rule)
      → Result (List Problem) (List Rule)
  gather [] (ok r) (ok rs) = ok (r ∷ rs)
  gather ps (err qs) (ok rs) = err (ps ++ qs)
  gather (p ∷ ps) (ok r) (ok rs) = err (p ∷ ps)
  gather ps (ok r) (err ss) = err (ps ++ ss)
  gather ps (err qs) (err ss) = err (ps ++ (qs ++ ss))

  -- The loop over the rules: the IDs seen that are not blank.
  unfoldable pub convert_rules : List Text → List RuleConfig → Result (List Problem) (List Rule)
  convert_rules seen [] = ok []
  convert_rules seen (r ∷ rs) =
      let seen' = if is_blank r.id then seen else r.id ∷ seen in
      let rest = convert_rules seen' rs in
      gather (problem_if (not (is_blank r.id) && contains_text r.id seen) id_duplicated)
        (to_flow_rule r) rest

  unfoldable pub to_flow_rules : List RuleConfig → Result (List Problem) (List Rule)
  to_flow_rules rs = convert_rules [] rs
