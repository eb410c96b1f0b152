-- ===== src/Flow/Selector.antt =====
-- internal/flow/selector.go: ordered rules with safety, temporary, pinned and user tiers.
-- A deep copy (cloneRules) is the value itself here.
pub mod Rules
pub mod Precedence
pub mod Guarantees
use go_musical_packets.Prelude.{
  contains_text, ℕ, zero, suc, ◌+◌, ◌-◌, ◌*◌, ◌/◌, ◌%◌, ◌^◌, ◌≤◌, ◌<◌, bit_and, bit_or, ◌≡◌, refl,
  sym, ap, ◌∙◌, subst, ◌≢◌, ◌↔◌, ◌⊎◌, inl, inr, Bool, true, false, not, ◌&&◌, ◌||◌, Option, none,
  some, List, [], ◌∷◌, ◌++◌, map, arith, ltb, leb, ◌==◌, if◌then◌else◌, Bool-cases, Option-cases,
  is_some, ltb→lt, lt→ltb, leb→le, ==_iff, length, get_elem?, get_or, take, drop, length-append,
  All, All-append, Result, ok, err, ◌>>=◌, ◌>>◌, refuse_if, map_err, ℤ, pos, negsuc, ltb_ℤ, leb_ℤ,
  to_int64, to_ℕ, Text, codes, text_eq, is_empty, text_lt, text_eq_refl, text_eq→eq, text_eq_iff,
  text_lt_irrefl, text_lt_trans, text_lt-total,
}
use go_musical_packets.Packet.{Protocol, Event, Error, is_protocol, validate}
use go_musical_packets.Flow.Key.{Digest, canonicalize, key_id}
use go_musical_packets.Flow.Prefix.{Prefix, is_valid_prefix, contains}

abbrev pub State : Type 0
State = Text

abbrev pub state_ignore : State
state_ignore = codes "ignore"

abbrev pub state_monitor : State
state_monitor = codes "monitor"

abbrev pub state_play : State
state_play = codes "play"

pub record PortRange : Type 0 where
  pub minimum : ℕ
  pub maximum : ℕ

pub record SizeRange : Type 0 where
  pub minimum : ℤ
  pub maximum : ℤ

pub record Match : Type 0 where
  pub exact_flow_id : Text
  pub source_prefix : Option Prefix
  pub destination_prefix : Option Prefix
  pub protocol : Protocol
  pub source_ports : Option PortRange
  pub destination_ports : Option PortRange
  pub wire_size : Option SizeRange
  pub required_tcp_flags : ℕ

pub record Action : Type 0 where
  pub state : State
  pub channel : ℕ  -- uint8
  pub mode : Text
  pub root : ℕ  -- uint8

pub record Rule : Type 0 where
  pub id : Text
  pub name : Text
  pub enabled : Bool
  pub criteria : Match
  pub action : Action

-- The sets of muted and soloed flow IDs.
pub record Overlay : Type 0 where
  pub muted : List Text
  pub soloed : List Text

pub data Tier : Type 0 where
  safety temporary_mute temporary_solo pinned user default : Tier

pub record Selection : Type 0 where
  pub flow_id : Text
  pub state : State
  pub channel : ℕ
  pub mode : Text
  pub root : ℕ
  pub rule_id : Text
  pub tier : Tier

pub record SelectorConfig : Type 0 where
  pub seed : Text
  pub default_action : Action
  pub safety_rules : List Rule
  pub pinned_rules : List Rule
  pub user_rules : List Rule

pub record Selector : Type 0 where
  pub seed : Text
  pub default_action : Action
  pub safety_rules : List Rule
  pub pinned_rules : List Rule
  pub user_rules : List Rule

pub data ConfigError : Type 0 where
  seed_missing rule_id_missing state_invalid channel_invalid root_without_mode : ConfigError
  mode_needs_play mode_invalid root_invalid source_prefix_invalid : ConfigError
  destination_prefix_invalid source_ports_reversed destination_ports_reversed : ConfigError
  wire_size_invalid protocol_invalid default_channel_missing : ConfigError
  duplicate_id safety_must_ignore pinned_needs_flow : ConfigError

unfoldable pub valid_musical_mode : Text → Bool
valid_musical_mode m =
    text_eq m (codes "ionian")
    || text_eq m (codes "dorian")
    || text_eq m (codes "phrygian")
    || text_eq m (codes "lydian")
    || text_eq m (codes "mixolydian")
    || text_eq m (codes "aeolian")
    || text_eq m (codes "locrian")

unfoldable pub is_state : State → Bool
is_state s = text_eq s state_ignore || text_eq s state_monitor || text_eq s state_play

-- The checks of a fixed musical identity.
validate_identity : Action → Result ConfigError (Unit {0})
validate_identity a = do
  refuse_if (not (text_eq a.state state_play)) mode_needs_play
  refuse_if (not (valid_musical_mode a.mode)) mode_invalid
  refuse_if (ltb 11 a.root) root_invalid

unfoldable pub validate_action : Action → Result ConfigError (Unit {0})
unfolding validate_identity is_state
validate_action a = do
  refuse_if (not (is_state a.state)) state_invalid
  refuse_if (ltb 16 a.channel) channel_invalid
  if is_empty a.mode then refuse_if (not (a.root == 0)) root_without_mode else validate_identity a

-- `p != nil && bad(*p)`.
abbrev pub some_and {ℓ} : {A : Type ℓ} → Option A → (A → Bool) → Bool
some_and none bad = false
some_and (some a) bad = bad a

unfoldable pub ports_reversed : PortRange → Bool
ports_reversed r = ltb r.maximum r.minimum

unfoldable pub size_disordered : SizeRange → Bool
size_disordered r = ltb_ℤ r.minimum (pos 0) || ltb_ℤ r.maximum r.minimum

unfoldable pub validate_rule : Rule → Result ConfigError (Unit {0})
unfolding ports_reversed size_disordered validate_action
validate_rule r = do
  refuse_if (is_empty r.id) rule_id_missing
  validate_action r.action
  refuse_if (some_and r.criteria.source_prefix (λ p. not (is_valid_prefix p))) source_prefix_invalid
  refuse_if (some_and r.criteria.destination_prefix (λ p. not (is_valid_prefix p)))
      destination_prefix_invalid
  refuse_if (some_and r.criteria.source_ports ports_reversed) source_ports_reversed
  refuse_if (some_and r.criteria.destination_ports ports_reversed) destination_ports_reversed
  refuse_if (some_and r.criteria.wire_size size_disordered) wire_size_invalid
  refuse_if (not (is_empty r.criteria.protocol || is_protocol r.criteria.protocol)) protocol_invalid

pub data Group : Type 0 where
  safety_group pinned_group user_group : Group

-- The group's own conditions on a rule.
group_check : Group → Rule → Result ConfigError (Unit {0})
group_check safety_group r =
    refuse_if (not (text_eq r.action.state state_ignore)) safety_must_ignore
group_check pinned_group r = refuse_if (is_empty r.criteria.exact_flow_id) pinned_needs_flow
group_check user_group r = ok tt

-- One round of the inner loop, then the rest of the group; it returns the IDs seen so far.
unfoldable pub check_group : Group → List Text → List Rule → Result ConfigError (List Text)
unfolding group_check
check_group g seen [] = ok seen
check_group g seen (r ∷ rs) =
    let rest = check_group g (r.id ∷ seen) rs in
    validate_rule r
    >> (refuse_if (contains_text r.id seen) duplicate_id >> (group_check g r >> rest))

unfoldable pub new_selector : SelectorConfig → Result ConfigError Selector
new_selector c = do
  refuse_if (is_empty c.seed) seed_missing
  validate_action c.default_action
  refuse_if (c.default_action.channel == 0) default_channel_missing
  after_safety ← check_group safety_group [] c.safety_rules
  after_pinned ← check_group pinned_group after_safety c.pinned_rules
  check_group user_group after_pinned c.user_rules >>= λ _. ok (record {
    seed = c.seed;
    default_action = c.default_action;
    safety_rules = c.safety_rules;
    pinned_rules = c.pinned_rules;
    user_rules = c.user_rules;
  })

in_ports : PortRange → ℕ → Bool
in_ports r port = leb r.minimum port && leb port r.maximum

-- The negated guards of `matches`, one after the other.
unfoldable pub matches : Match → Event → Text → Bool
unfolding in_ports
matches m e flow_id =
    (is_empty m.exact_flow_id || text_eq m.exact_flow_id flow_id)
    && not (some_and m.source_prefix (λ p. not (contains p e.source.addr)))
    && not (some_and m.destination_prefix (λ p. not (contains p e.destination.addr)))
    && (is_empty m.protocol || text_eq m.protocol e.protocol)
    && not (some_and m.source_ports (λ r. not (in_ports r e.source.port)))
    && not (some_and m.destination_ports (λ r. not (in_ports r e.destination.port)))
    && not
        (some_and m.wire_size (λ r. ltb_ℤ e.wire_length r.minimum || ltb_ℤ r.maximum e.wire_length))
    && (m.required_tcp_flags == 0
        || bit_and e.tcp_flags m.required_tcp_flags == m.required_tcp_flags)

unfoldable pub first_match : List Rule → Event → Text → Option Rule
first_match [] e flow_id = none
first_match (r ∷ rs) e flow_id =
    if r.enabled && matches r.criteria e flow_id then some r else first_match rs e flow_id

unfoldable pub selection : Selector → Text → Action → Text → Tier → Selection
selection s flow_id a rule_id tier = record {
  flow_id = flow_id;
  state = a.state;
  channel = if a.channel == 0 then s.default_action.channel else a.channel;
  mode = a.mode;
  root = a.root;
  rule_id = rule_id;
  tier = tier;
}

-- `Action{State: state}`.
abbrev bare_action : State → Action
bare_action state = record { state = state; channel = 0; mode = []; root = 0 }

-- `if rule, ok := firstMatch(...); ok { return ... }`, or what follows.
on_match : Option Rule → (Rule → Selection) → Selection → Selection
on_match none found rest = rest
on_match (some r) found rest = found r

-- The routing of a valid packet whose flow ID is known.
unfoldable pub route : Selector → Overlay → Event → Text → Selection
unfolding on_match
route s o e id =
    let tier = λ (t : Tier) (r : Rule). selection s id r.action r.id t in
    on_match (first_match s.safety_rules e id) (tier safety) (
      if contains_text id o.muted
      then selection s id (bare_action state_ignore) [] temporary_mute
      else if not (length o.soloed == 0) && not (contains_text id o.soloed)
      then selection s id (bare_action state_monitor) [] temporary_solo
      else on_match (first_match s.pinned_rules e id) (tier pinned) (
          on_match (first_match s.user_rules e id) (tier user)
            (selection s id s.default_action [] default)))

-- `flow_id` of the packet under the selector's seed.
unfoldable pub event_id : Digest → Text → Event → Text
event_id d seed e = key_id d (canonicalize e).0 seed

unfoldable pub evaluate : Digest → Selector → Event → Overlay → Result Error Selection
unfolding event_id
evaluate d s e o = do validate e; ok (route s o e (event_id d s.seed e))
