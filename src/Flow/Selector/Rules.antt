-- ===== src/Flow/Selector/Rules.antt =====
-- NewSelector of internal/flow/selector.go and its validators.
use go_musical_packets.Prelude.{
  contains_text, sym, inl, ap, inr, ◌≢◌, ◌∙◌, Result-cases, ◌≤◌, ◌≡◌, refl, ◌↔◌, ◌⊎◌, true, false,
  not, List, [], ◌∷◌, arith, All, ok, Text, text_eq, is_empty, text_eq_refl, text_eq→eq,
}
use go_musical_packets.Packet.{is_protocol}
use go_musical_packets.Flow.Prefix.{is_valid_prefix}
use go_musical_packets.Flow.Selector.{
  Selector, SelectorConfig, new_selector, Action, Rule, Group, safety_group, pinned_group,
  user_group, is_state, valid_musical_mode, validate_action, validate_rule, some_and,
  ports_reversed, size_disordered, group_check, check_group, state_play, state_ignore,
}

-- A known state, a MIDI channel or none, and a musical identity on playing actions alone.
pub record IsAction (a : Action) : Type 0 where
  pub known : is_state a.state ≡ true
  pub channel_range : a.channel ≤ 16
  pub plain : is_empty a.mode ≡ true → a.root ≡ 0
  pub plays : is_empty a.mode ≡ false → text_eq a.state state_play ≡ true
  pub mode_known : is_empty a.mode ≡ false → valid_musical_mode a.mode ≡ true
  pub root_range : a.root ≤ 11

pub validate_action_iff : (a : Action) → (validate_action a ≡ ok tt) ↔ IsAction a
unfolding validate_action
validate_action_iff a = (λ h. ground arith, λ v. ground arith)

-- A rule that any group may hold.
pub record IsRule (r : Rule) : Type 0 where
  pub id_given : is_empty r.id ≡ false
  pub action_valid : IsAction r.action
  pub source_valid : some_and r.criteria.source_prefix (λ p. not (is_valid_prefix p)) ≡ false
  pub destination_valid :
      some_and r.criteria.destination_prefix (λ p. not (is_valid_prefix p)) ≡ false
  pub source_ordered : some_and r.criteria.source_ports ports_reversed ≡ false
  pub destination_ordered : some_and r.criteria.destination_ports ports_reversed ≡ false
  pub size_ordered : some_and r.criteria.wire_size size_disordered ≡ false
  pub protocol_known :
      (is_empty r.criteria.protocol ≡ true) ⊎ (is_protocol r.criteria.protocol ≡ true)

validate_rule_iff : (r : Rule) → (validate_rule r ≡ ok tt) ↔ IsRule r
unfolding validate_rule
validate_rule_iff r = (
  λ h. ground (arith, (validate_action_iff r.action).0),
  λ v. ground (arith, (validate_action_iff r.action).1),
)

-- Safety rules ignore, and pinned rules name one flow.
abbrev pub InGroup : Group → Rule → Type 0
InGroup safety_group r = IsRule r × (r.action.state ≡ state_ignore)
InGroup pinned_group r = IsRule r × (is_empty r.criteria.exact_flow_id ≡ false)
InGroup user_group r = IsRule r

-- The IDs are new: unlike those in `seen` and unlike one another.
abbrev pub Fresh : List Text → List Rule → Type 0
Fresh seen [] = Unit
Fresh seen (r ∷ rs) = (contains_text r.id seen ≡ false) × Fresh (r.id ∷ seen) rs

abbrev pub collect : List Text → List Rule → List Text
collect seen [] = seen
collect seen (r ∷ rs) = collect (r.id ∷ seen) rs

group_check→InGroup :
    (g : Group) (r : Rule) → validate_rule r ≡ ok tt → group_check g r ≡ ok tt → InGroup g r
unfolding group_check
group_check→InGroup safety_group r h k =
    ((validate_rule_iff r).0 h, ground (arith, text_eq→eq r.action.state state_ignore))
group_check→InGroup pinned_group r h k = ((validate_rule_iff r).0 h, ground arith)
group_check→InGroup user_group r h k = (validate_rule_iff r).0 h

InGroup→IsRule : (g : Group) (r : Rule) → InGroup g r → IsRule r
InGroup→IsRule safety_group r h = h.0
InGroup→IsRule pinned_group r h = h.0
InGroup→IsRule user_group r h = h

InGroup→group_check : (g : Group) (r : Rule) → InGroup g r → group_check g r ≡ ok tt
unfolding group_check
InGroup→group_check safety_group r h = ground (arith, text_eq_refl state_ignore)
InGroup→group_check pinned_group r h = ground arith
InGroup→group_check user_group r h = refl

check_group→Fresh :
    (g : Group) (seen : List Text) (rs : List Rule) (t : List Text)
    → check_group g seen rs ≡ ok t
    → All (InGroup g) rs × Fresh seen rs × (t ≡ collect seen rs)
unfolding check_group
check_group→Fresh g seen [] t h = ground arith
check_group→Fresh g seen (r ∷ rs) t h =
    ground (arith, check_group→Fresh g (r.id ∷ seen) rs t, group_check→InGroup g r)

Fresh→check_group :
    (g : Group) (seen : List Text) (rs : List Rule)
    → All (InGroup g) rs
    → Fresh seen rs
    → check_group g seen rs ≡ ok (collect seen rs)
unfolding check_group
Fresh→check_group g seen [] h f = refl
Fresh→check_group g seen (r ∷ rs) h f =
    rw ((validate_rule_iff r).1 (InGroup→IsRule g r h.0), f.0, InGroup→group_check g r h.0)
      (Fresh→check_group g (r.id ∷ seen) rs h.1 f.1)

pub record IsConfig (c : SelectorConfig) : Type 0 where
  pub seed_given : is_empty c.seed ≡ false
  pub default_valid : IsAction c.default_action
  pub default_channel : c.default_action.channel ≢ 0
  pub safety : All (InGroup safety_group) c.safety_rules
  pub pinned : All (InGroup pinned_group) c.pinned_rules
  pub user : All (InGroup user_group) c.user_rules
  pub safety_fresh : Fresh [] c.safety_rules
  pub pinned_fresh : Fresh (collect [] c.safety_rules) c.pinned_rules
  pub user_fresh : Fresh (collect (collect [] c.safety_rules) c.pinned_rules) c.user_rules

-- The selector that holds the configuration.
abbrev pub of_config : SelectorConfig → Selector
of_config c = record {
  seed = c.seed;
  default_action = c.default_action;
  safety_rules = c.safety_rules;
  pinned_rules = c.pinned_rules;
  user_rules = c.user_rules;
}

new_selector_sound :
    (c : SelectorConfig) (s : Selector) → new_selector c ≡ ok s → IsConfig c × (s ≡ of_config c)
unfolding new_selector
new_selector_sound c s h = elim (Result-cases (check_group safety_group [] c.safety_rules)) [
  | inr (x, e) ↦ absurd (ground (arith, e))
  | inl (t, e) ↦ elim (Result-cases (check_group pinned_group t c.pinned_rules)) [
    | inr (x, f) ↦ absurd (ground (arith, e, f))
    | inl (u, f) ↦ elim (Result-cases (check_group user_group u c.user_rules)) [
      | inr (x, g) ↦ absurd (ground (arith, e, f, g))
      | inl (v, g) ↦ ground (
        arith,
        validate_action_iff c.default_action,
        check_group→Fresh safety_group [] c.safety_rules t e,
        check_group→Fresh pinned_group t c.pinned_rules u f,
        check_group→Fresh user_group u c.user_rules v g,
      )
    ]
  ]
]

new_selector_complete : (c : SelectorConfig) → IsConfig c → new_selector c ≡ ok (of_config c)
unfolding new_selector
new_selector_complete c v =
    let s = collect [] c.safety_rules in
    let p = collect s c.pinned_rules in
    rw (v.seed_given, (validate_action_iff c.default_action).1 v.default_valid)
      (ground (
        arith,
        Fresh→check_group safety_group [] c.safety_rules v.safety v.safety_fresh,
        Fresh→check_group pinned_group s c.pinned_rules v.pinned v.pinned_fresh,
        Fresh→check_group user_group p c.user_rules v.user v.user_fresh,
      ))

-- NewSelector succeeds exactly on the configurations with a seed, a valid default action that has
-- a channel, valid rules, safety rules that ignore, pinned rules that name one flow, and rule IDs
-- that differ across all three groups; the selector then holds the configuration.
pub new_selector_iff :
    (c : SelectorConfig) (s : Selector) → (new_selector c ≡ ok s) ↔ (IsConfig c × (s ≡ of_config c))
new_selector_iff c s = (new_selector_sound c s, λ h. new_selector_complete c h.0 ∙ ap ok (sym h.1))
