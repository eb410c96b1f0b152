-- ===== src/Config/Compile.antt =====
-- internal/app/policy.go, compileSelector: the selector of a configuration. A rule that names one
-- flow is pinned, the others are user rules; the safety rules come from a function of the application.
use go_musical_packets.Config.Rules.Accepted.{convert_rules-Fresh, Converted, ParsesValid}
use go_musical_packets.Flow.Selector.Rules.{
  new_selector_iff, IsConfig, of_config, InGroup, IsRule, collect, Fresh,
}
use go_musical_packets.Flow.Selector.{
  pinned_group, user_group, safety_group, is_state, new_selector, ConfigError, Selector,
  SelectorConfig, Rule,
}
use go_musical_packets.Config.Settings.{Config}
use go_musical_packets.Config.Rules.{to_flow_rules, RuleConfig, Problem}
use go_musical_packets.Flow.Prefix.{Prefix}
use go_musical_packets.Prelude.{
  ◌≤◌, ◌≡◌, refl, ◌⊎◌, inl, inr, true, false, not, Option, List, [], ◌∷◌, arith, if◌then◌else◌,
  Bool-cases, if_cases, All, Result, ok, ◌>>=◌, map_err, Text, is_empty, contains_text,
  text_eq_refl, text_eq→eq,
}

pub data CompileError : Type 0 where
  rules_invalid : List Problem → CompileError
  selector_invalid : ConfigError → CompileError

unfoldable pub pinned_of : List Rule → List Rule
pinned_of [] = []
pinned_of (r ∷ rs) =
    if not (is_empty r.criteria.exact_flow_id) then r ∷ pinned_of rs else pinned_of rs

unfoldable pub user_of : List Rule → List Rule
user_of [] = []
user_of (r ∷ rs) = if not (is_empty r.criteria.exact_flow_id) then user_of rs else r ∷ user_of rs

abbrev pub selector_config : Config → List Rule → List Rule → SelectorConfig
selector_config c safety persistent = record {
  seed = c.mapping.seed;
  default_action = record {
    state = c.mapping.default_state;
    channel = c.mapping.default_channel;
    mode = [];
    root = 0;
  };
  safety_rules = safety;
  pinned_rules = pinned_of persistent;
  user_rules = user_of persistent;
}

unfoldable pub compile_selector :
    (Text → Option Prefix) → Config → (List Rule → List Rule) → Result CompileError Selector
compile_selector parse c safety = do
  persistent ← map_err rules_invalid (to_flow_rules parse c.rules)
  map_err selector_invalid (new_selector (selector_config c (safety persistent) persistent))

-- Whatever is in the one set of IDs is in the other.
abbrev Within : List Text → List Text → Type 0
Within s t = (x : Text) → contains_text x s ≡ true → contains_text x t ≡ true

outside :
    (s t : List Text) (x : Text)
    → Within s t
    → contains_text x t ≡ false
    → contains_text x s ≡ false
outside s t x w h = elim (Bool-cases (contains_text x s)) [
  | inl k ↦ absurd (ground (arith, w x k, h))
  | inr k ↦ k
]

cons-Within : (y : Text) (s t : List Text) → Within s t → Within (y ∷ s) (y ∷ t)
unfolding contains_text
cons-Within y s t w x h = ground (arith, w x, h)

swap-Within : (y z : Text) (s : List Text) → Within (y ∷ z ∷ s) (z ∷ y ∷ s)
unfolding contains_text
swap-Within y z s x h = ground (arith, h)

Fresh-Within : (s t : List Text) (rs : List Rule) → Within s t → Fresh t rs → Fresh s rs
Fresh-Within s t [] w h = tt
Fresh-Within s t (r ∷ rs) w h =
    (outside s t r.id w h.0, Fresh-Within (r.id ∷ s) (r.id ∷ t) rs (cons-Within r.id s t w) h.1)

-- A set of IDs within the one with one more.
tail-Within : (y : Text) (s : List Text) → Within s (y ∷ s)
unfolding contains_text
tail-Within y s x h = ground (arith, h)

pinned-Fresh : (s : List Text) (rs : List Rule) → Fresh s rs → Fresh s (pinned_of rs)
unfolding pinned_of
pinned-Fresh s [] h = tt
pinned-Fresh s (r ∷ rs) h =
    if_cases (Fresh s) (not (is_empty r.criteria.exact_flow_id)) (r ∷ pinned_of rs) (pinned_of rs)
      (λ _. (h.0, pinned-Fresh (r.id ∷ s) rs h.1))
      (λ _.
        Fresh-Within s (r.id ∷ s) (pinned_of rs) (tail-Within r.id s)
          (pinned-Fresh (r.id ∷ s) rs h.1))

collect-monotone :
    (s t : List Text) (rs : List Rule) → Within s t → Within (collect s rs) (collect t rs)
collect-monotone s t [] w = w
collect-monotone s t (r ∷ rs) w = collect-monotone (r.id ∷ s) (r.id ∷ t) rs (cons-Within r.id s t w)

-- An ID in front of the set can be moved past those that are collected.
collect-Within :
    (y : Text) (s : List Text) (rs : List Rule) → Within (y ∷ collect s rs) (collect (y ∷ s) rs)
collect-Within y s [] x h = h
collect-Within y s (r ∷ rs) x h =
    collect-monotone (y ∷ r.id ∷ s) (r.id ∷ y ∷ s) rs (swap-Within y r.id s) x
      (collect-Within y (r.id ∷ s) rs x h)

not_collected :
    (y : Text) (s : List Text) (rs : List Rule)
    → contains_text y s ≡ false
    → Fresh (y ∷ s) rs
    → contains_text y (collect s rs) ≡ false
unfolding contains_text
not_collected y s [] h f = h
not_collected y s (r ∷ rs) h f =
    not_collected y (r.id ∷ s) rs (ground (arith, h, f.0, text_eq→eq r.id y, text_eq_refl y))
      (Fresh-Within (y ∷ r.id ∷ s) (r.id ∷ y ∷ s) rs (swap-Within y r.id s) f.1)

user-Fresh :
    (s : List Text) (rs : List Rule) → Fresh s rs → Fresh (collect s (pinned_of rs)) (user_of rs)
unfolding user_of pinned_of
user-Fresh s [] h = tt
user-Fresh s (r ∷ rs) h = elim (Bool-cases (is_empty r.criteria.exact_flow_id)) [
  | inr k ↦ rw (k) (user-Fresh (r.id ∷ s) rs h.1)
  | inl k ↦ rw (k) (
    not_collected r.id s (pinned_of rs) h.0 (pinned-Fresh (r.id ∷ s) rs h.1),
    Fresh-Within (r.id ∷ collect s (pinned_of rs)) (collect (r.id ∷ s) (pinned_of rs)) (user_of rs)
        (collect-Within r.id s (pinned_of rs)) (user-Fresh (r.id ∷ s) rs h.1),
  )
]

-- The first set and the second hold all that the third does.
abbrev Covered : List Text → List Text → List Text → Type 0
Covered s t u =
    (x : Text) → contains_text x u ≡ true → (contains_text x s ≡ true) ⊎ (contains_text x t ≡ true)

Covered-Fresh :
    (s t u : List Text) (rs : List Rule)
    → Covered s t u
    → Fresh s rs
    → All (λ (r : Rule). contains_text r.id t ≡ false) rs
    → Fresh u rs
unfolding contains_text
Covered-Fresh s t u [] w f h = tt
Covered-Fresh s t u (r ∷ rs) w f h = (
  neither (Bool-cases (contains_text r.id u)),
  Covered-Fresh (r.id ∷ s) t (r.id ∷ u) rs widened f.1 h.1,
)
  where
    neither :
        (contains_text r.id u ≡ true) ⊎ (contains_text r.id u ≡ false)
        → contains_text r.id u ≡ false
    neither (inr k) = k
    neither (inl k) = elim (w r.id k) [
      | inl a ↦ absurd (ground (arith, a, f.0))
      | inr a ↦ absurd (ground (arith, a, h.0))
    ]

    widened : Covered (r.id ∷ s) t (r.id ∷ u)
    widened x k = ground (arith, w x, k)

pinned-InGroup : (rs : List Rule) → All IsRule rs → All (InGroup pinned_group) (pinned_of rs)
unfolding pinned_of
pinned-InGroup [] h = tt
pinned-InGroup (r ∷ rs) h = elim (Bool-cases (is_empty r.criteria.exact_flow_id)) [
  | inl k ↦ rw (k) (pinned-InGroup rs h.1)
  | inr k ↦ rw (k) ((h.0, k), pinned-InGroup rs h.1)
]

user-InGroup : (rs : List Rule) → All IsRule rs → All (InGroup user_group) (user_of rs)
unfolding user_of
user-InGroup [] h = tt
user-InGroup (r ∷ rs) h = elim (Bool-cases (is_empty r.criteria.exact_flow_id)) [
  | inl k ↦ rw (k) (h.0, user-InGroup rs h.1)
  | inr k ↦ rw (k) (user-InGroup rs h.1)
]

Converted-IsRule : (cs : List RuleConfig) (rs : List Rule) → Converted cs rs → All IsRule rs
Converted-IsRule [] [] h = tt
Converted-IsRule [] (r ∷ rs) h = absurd h
Converted-IsRule (c ∷ cs) [] h = absurd h
Converted-IsRule (c ∷ cs) (r ∷ rs) h = (h.0.valid, Converted-IsRule cs rs h.1)

-- Rules that the conversion accepts always give a selector: under a seed, a default state that is
-- known, a default channel from 1 to 16, and safety rules that ignore and whose IDs differ from one
-- another and from the configured ones, NewSelector accepts the rules that compileSelector makes of
-- them.
pub compile_selector_total :
    (parse : Text → Option Prefix) (c : Config) (safety : List Rule → List Rule) (fs : List Rule)
    → ParsesValid parse
    → to_flow_rules parse c.rules ≡ ok fs
    → is_empty c.mapping.seed ≡ false
    → is_state c.mapping.default_state ≡ true
    → 1 ≤ c.mapping.default_channel
    → c.mapping.default_channel ≤ 16
    → All (InGroup safety_group) (safety fs)
    → Fresh [] (safety fs)
    → All (λ (r : Rule). contains_text r.id (collect [] (safety fs)) ≡ false) fs
    → compile_selector parse c safety ≡ ok (of_config (selector_config c (safety fs) fs))
unfolding compile_selector to_flow_rules contains_text
compile_selector_total parse c safety fs parses h seeded known c1 c2 safe apart others =
    let (fresh, each) = convert_rules-Fresh parse parses [] c.rules fs h in
    let valid = Converted-IsRule c.rules fs each in
    let seen = collect [] (safety fs) in
    let all_fresh = Covered-Fresh [] seen seen fs (λ x k. inr k) fresh others in
    let conf = selector_config c (safety fs) fs in
    let good : IsConfig conf = record {
      seed_given = seeded;
      default_valid = ground (arith, known, c2);
      default_channel = omega (arith, c1);
      safety = safe;
      pinned = pinned-InGroup fs valid;
      user = user-InGroup fs valid;
      safety_fresh = apart;
      pinned_fresh = pinned-Fresh seen fs all_fresh;
      user_fresh = user-Fresh seen fs all_fresh;
    } in
    rw (h, (new_selector_iff conf (of_config conf)).1 (good, refl)) (refl)
