-- ===== src/Config/Rules/Accepted.antt =====
-- ToFlowRules of internal/config/rules.go beside validateRule of internal/flow/selector.go.
use go_musical_packets.Packet.{is_protocol}
use go_musical_packets.Music.Mode.Laws.{valid_musical_mode-parse_mode, parse_mode_iff}
use go_musical_packets.Music.Mode.{parse_mode}
use go_musical_packets.Flow.Selector.Rules.{Fresh, IsRule, IsAction}
use go_musical_packets.Flow.Selector.{
  state_play, State, is_state, some_and, Rule, ports_reversed, size_disordered,
}
use go_musical_packets.Flow.Prefix.{masked-is_valid_prefix, is_valid_prefix, Prefix}
use go_musical_packets.Config.Rules.{
  to_flow_rules, destination_ports_reversed, source_ports_reversed, destination_cidr_invalid,
  source_cidr_invalid, id_duplicated, protocol_invalid, flow_id_invalid, is_flow_id, id_missing,
  gather, convert_match, convert_rules, RuleConfig, to_flow_rule, root_invalid, name_of,
  mode_invalid, SizeRangeConfig, PortRangeConfig, channel_invalid, state_invalid, prefix_of,
  problem_if, convert_prefix, RuleActionConfig, convert_identity, convert_size, convert_action,
  is_blank, Problem, convert_ports, rule_or_problems,
}
use go_musical_packets.Prelude.{
  ◌∙◌, sym, ap, subst, contains_text, ◌&&◌, if◌then◌else◌, ◌||◌, err, Result, ℕ, ◌≤◌, ◌≡◌, refl,
  inl, inr, Bool, true, false, not, Option, none, some, List, [], ◌∷◌, ◌++◌, arith, ltb,
  Option-cases, is_some, ok, Text, text_eq, is_empty,
}

append-nil : (xs ys : List Problem) → xs ++ ys ≡ [] → (xs ≡ []) × (ys ≡ [])
append-nil [] ys h = (refl, h)
append-nil (x ∷ xs) ys h = absurd (ground (arith, h))

problem_if-nil : (b : Bool) (x : Problem) → problem_if b x ≡ [] → b ≡ false
problem_if-nil true x h = absurd (ground (arith, h))
problem_if-nil false x h = refl

rule_or_problems-ok :
    (ps : List Problem) (r r' : Rule) → rule_or_problems ps r ≡ ok r' → (ps ≡ []) × (r ≡ r')
unfolding rule_or_problems
rule_or_problems-ok [] r r' h = (refl, ground (arith, h))
rule_or_problems-ok (x ∷ xs) r r' h = absurd (ground (arith, h))

named-IsAction :
    (st : State) (mode : Text) (ch root : ℕ)
    → is_state st ≡ true
    → ch ≤ 16
    → is_empty mode ≡ false
    → is_some (parse_mode mode) ≡ true
    → root ≤ 11
    → text_eq st state_play ≡ true
    → IsAction (record { state = st; channel = ch; mode = name_of (parse_mode mode); root = root })
named-IsAction st mode ch root s c e m r p = elim (Option-cases (parse_mode mode)) [
  | inl k ↦ absurd (ground (arith, m, k))
  | inr (x, k) ↦
      let same = ((parse_mode_iff mode x).0 k).1 in
      rw (k, same) (ground (arith, s, c, e, r, p, m, valid_musical_mode-parse_mode mode))
]

convert_identity-IsAction :
    (st : State) (mode : Text) (root : Option ℕ) (ch : ℕ)
    → is_state st ≡ true
    → ch ≤ 16
    → (convert_identity st mode root).0 ≡ []
    → IsAction (record {
      state = st;
      channel = ch;
      mode = (convert_identity st mode root).1;
      root = (convert_identity st mode root).2;
    })
unfolding convert_identity
convert_identity-IsAction st mode none ch s c h = ground (arith, s, c)
convert_identity-IsAction st [] (some root) ch s c h = absurd (ground (arith, h))
convert_identity-IsAction st (x ∷ xs) (some root) ch s c h =
    let (m, rest) =
      append-nil (problem_if (not (is_some (parse_mode (x ∷ xs)))) mode_invalid) _ h in
    let (r, p) = append-nil (problem_if (ltb 11 root) root_invalid) _ rest in
    let small = problem_if-nil (ltb 11 root) root_invalid r in
    let known = problem_if-nil _ _ m in
    let plays = problem_if-nil _ _ p in
    rw (small) (
      named-IsAction st (x ∷ xs) ch root s c refl (ground (arith, known)) (ground (arith, small))
        (ground (arith, plays)))

convert_action-IsAction :
    (a : RuleActionConfig) → (convert_action a).0 ≡ [] → IsAction (convert_action a).1
unfolding convert_action
convert_action-IsAction a h =
    let (st, rest) = append-nil (problem_if (not (is_state a.state)) state_invalid) _ h in
    let (ch, identity) = append-nil (problem_if (ltb 16 a.channel) channel_invalid) _ rest in
    convert_identity-IsAction a.state a.mode a.root a.channel
      (ground (arith, problem_if-nil _ _ st)) (ground (arith, problem_if-nil _ _ ch)) identity

-- What ParsePrefix documents: the prefix it returns is valid.
abbrev pub ParsesValid : (Text → Option Prefix) → Type 0
ParsesValid parse = (t : Text) (p : Prefix) → parse t ≡ some p → is_valid_prefix p ≡ true

prefix_of-valid :
    (x : Problem) (o : Option Prefix)
    → ((p : Prefix) → o ≡ some p → is_valid_prefix p ≡ true)
    → some_and (prefix_of x o).1 (λ p. not (is_valid_prefix p)) ≡ false
prefix_of-valid x none h = refl
prefix_of-valid x (some p) h = ground (arith, h p refl, masked-is_valid_prefix p)

module _ (parse : Text → Option Prefix) (parses : ParsesValid parse) where
  convert_prefix-valid :
      (x : Problem) (t : Text)
      → some_and (convert_prefix parse x t).1 (λ p. not (is_valid_prefix p)) ≡ false
  unfolding convert_prefix
  convert_prefix-valid x [] = refl
  convert_prefix-valid x (c ∷ cs) = prefix_of-valid x (parse (c ∷ cs)) (parses (c ∷ cs))

convert_ports-ordered :
    (x : Problem) (o : Option PortRangeConfig)
    → some_and (convert_ports x o).1 ports_reversed ≡ false
unfolding convert_ports ports_reversed
convert_ports-ordered x none = refl
convert_ports-ordered x (some r) = ground arith

convert_size-ordered :
    (o : Option SizeRangeConfig) → some_and (convert_size o).1 size_disordered ≡ false
unfolding convert_size size_disordered
convert_size-ordered none = refl
convert_size-ordered (some r) = ground arith

pub is_blank-is_empty : (t : Text) → is_blank t ≡ false → is_empty t ≡ false
unfolding is_blank
is_blank-is_empty [] h = h
is_blank-is_empty (c ∷ cs) h = refl

-- A rule as the conversion makes it: valid for the selector, with the ID, the name and the switch of
-- the configured rule.
pub record Converts (c : RuleConfig) (r : Rule) : Type 0 where
  pub valid : IsRule r
  pub named : (r.id ≡ c.id) × (r.name ≡ c.name) × (r.enabled ≡ c.enabled)
  pub visible : is_blank c.id ≡ false

-- The rules in the order of the configuration.
abbrev pub Converted : List RuleConfig → List Rule → Type 0
Converted [] [] = Unit
Converted (c ∷ cs) (r ∷ rs) = Converts c r × Converted cs rs
Converted [] (r ∷ rs) = ⊥
Converted (c ∷ cs) [] = ⊥

module _ (parse : Text → Option Prefix) (parses : ParsesValid parse) where
  to_flow_rule-Converts : (c : RuleConfig) (r : Rule) → to_flow_rule parse c ≡ ok r → Converts c r
  unfolding to_flow_rule convert_match
  to_flow_rule-Converts c r h =
      let (none_wrong, same) = rule_or_problems-ok _ _ r h in
      let (id_good, rest) = append-nil (problem_if (is_blank c.id) id_missing) _ none_wrong in
      let (action_good, match_good) = append-nil (convert_action c.action).0 _ rest in
      let m = c.criteria in
      let (flow_good, rest2) =
        append-nil
          (problem_if (not (is_empty m.exact_flow_id || is_flow_id m.exact_flow_id))
            flow_id_invalid)
          _ match_good in
      let (protocol_good, _) =
        append-nil
          (problem_if (not (is_empty m.protocol || is_protocol m.protocol)) protocol_invalid) _
          rest2 in
      let blank = problem_if-nil _ _ id_good in
      subst (Converts c) same (record {
        valid = record {
          id_given = is_blank-is_empty c.id blank;
          action_valid = convert_action-IsAction c.action action_good;
          source_valid = convert_prefix-valid parse parses source_cidr_invalid m.source_cidr;
          destination_valid =
              convert_prefix-valid parse parses destination_cidr_invalid m.destination_cidr;
          source_ordered = convert_ports-ordered source_ports_reversed m.source_ports;
          destination_ordered =
              convert_ports-ordered destination_ports_reversed m.destination_ports;
          size_ordered = convert_size-ordered m.wire_size;
          protocol_known = ground (arith, problem_if-nil _ _ protocol_good);
        };
        named = (refl, refl, refl);
        visible = blank;
      })

  gather-ok :
      (ps : List Problem) (a : Result (List Problem) Rule) (b : Result (List Problem) (List Rule))
      (fs : List Rule)
      → gather parse ps a b ≡ ok fs
      → (ps ≡ []) × (r : Rule) × (rs : List Rule) × (a ≡ ok r) × (b ≡ ok rs) × (r ∷ rs ≡ fs)
  gather-ok [] (ok r) (ok rs) fs h = (refl, r, rs, refl, refl, ground (arith, h))
  gather-ok (p ∷ ps) (ok r) (ok rs) fs h = absurd (ground (arith, h))
  gather-ok [] (err qs) (ok rs) fs h = absurd (ground (arith, h))
  gather-ok (p ∷ ps) (err qs) (ok rs) fs h = absurd (ground (arith, h))
  gather-ok [] (ok r) (err ss) fs h = absurd (ground (arith, h))
  gather-ok (p ∷ ps) (ok r) (err ss) fs h = absurd (ground (arith, h))
  gather-ok [] (err qs) (err ss) fs h = absurd (ground (arith, h))
  gather-ok (p ∷ ps) (err qs) (err ss) fs h = absurd (ground (arith, h))

  -- The rules one by one, with IDs that are unlike those in `seen` and unlike one another.
  pub convert_rules-Fresh :
      (seen : List Text) (cs : List RuleConfig) (fs : List Rule)
      → convert_rules parse seen cs ≡ ok fs
      → Fresh seen fs × Converted cs fs
  unfolding convert_rules
  convert_rules-Fresh seen [] fs h =
      let none_left : [] ≡ fs = ground (arith, h) in
      subst (λ gs. Fresh seen gs × Converted [] gs) none_left (tt, tt)
  convert_rules-Fresh seen (c ∷ cs) fs h =
      let seen' = if is_blank c.id then seen else c.id ∷ seen in
      let (alone, r, rs, e, f, same) =
        gather-ok (problem_if (not (is_blank c.id) && contains_text c.id seen) id_duplicated)
          (to_flow_rule parse c) (convert_rules parse seen' cs) fs h in
      let good = to_flow_rule-Converts c r e in
      let kept : seen' ≡ r.id ∷ seen = rw (good.visible) (ap (λ i. i ∷ seen) (sym good.named.0)) in
      let (fresh, each) =
        convert_rules-Fresh (r.id ∷ seen) cs rs
          (subst (λ t. convert_rules parse t cs ≡ ok rs) kept f) in
      let new_id : contains_text r.id seen ≡ false =
        ap (λ i. contains_text i seen) good.named.0
        ∙ ground (arith, problem_if-nil _ _ alone, good.visible) in
      subst (λ gs. Fresh seen gs × Converted (c ∷ cs) gs) same ((new_id, fresh), (good, each))

  -- Rules that ToFlowRules accepts come out in their order, each valid for the selector, with its ID,
  -- name and switch, and an ID that is not blank and unlike the others.
  pub to_flow_rules-Converted :
      (cs : List RuleConfig) (fs : List Rule)
      → to_flow_rules parse cs ≡ ok fs
      → Fresh [] fs × Converted cs fs
  unfolding to_flow_rules
  to_flow_rules-Converted cs fs h = convert_rules-Fresh [] cs fs h
