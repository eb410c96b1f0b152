-- ===== src/Flow/Selector/Guarantees.antt =====
-- Evaluate of internal/flow/selector.go on a selector built by NewSelector.
use go_musical_packets.Flow.Selector.Rules.{
  new_selector_iff, InGroup, of_config, IsAction, IsConfig,
}
use go_musical_packets.Flow.Selector.Precedence.{
  evaluate-Routes, by_default, by_user, by_pin, by_solo, by_mute, NoneApplies, by_safety, Routes,
  IsFirst,
}
use go_musical_packets.Prelude.{
  contains_text, ◌≤◌, ◌≡◌, refl, subst, ◌≢◌, ◌⊎◌, inl, inr, true, false, List, [], ◌∷◌, ◌++◌, arith,
  All, ok, Text, text_eq, is_empty,
}
use go_musical_packets.Packet.{Event}
use go_musical_packets.Flow.Key.{Digest}
use go_musical_packets.Flow.Selector.{
  State, default, event_id, evaluate, user_group, new_selector, user, pinned_group, Selector,
  pinned, temporary_solo, state_monitor, temporary_mute, bare_action, state_ignore, safety_group,
  safety, Tier, valid_musical_mode, Overlay, state_play, Action, is_state, Selection, Rule,
  SelectorConfig, selection,
}

All-at : (P : Rule → Type 0) (xs ys : List Rule) (r : Rule) → All P (xs ++ (r ∷ ys)) → P r
All-at P [] ys r h = h.0
All-at P (x ∷ xs) ys r h = All-at P xs ys r h.1

IsFirst-All :
    (P : Rule → Type 0) (rs : List Rule) (e : Event) (id : Text) (r : Rule)
    → IsFirst rs e id r
    → All P rs
    → P r
IsFirst-All P rs e id r f h = All-at P f.before f.after r (subst (All P) f.split h)

-- A complete routing decision: what the mapper and the scheduler rely on.
pub record IsSelection (sel : Selection) : Type 0 where
  pub known : is_state sel.state ≡ true
  pub channel_low : 1 ≤ sel.channel
  pub channel_high : sel.channel ≤ 16
  pub plain : is_empty sel.mode ≡ true → sel.root ≡ 0
  pub plays : is_empty sel.mode ≡ false → text_eq sel.state state_play ≡ true
  pub mode_known : is_empty sel.mode ≡ false → valid_musical_mode sel.mode ≡ true
  pub root_range : sel.root ≤ 11

bare_action-IsAction : (st : State) → is_state st ≡ true → IsAction (bare_action st)
bare_action-IsAction st h = ground arith

ignore_known : is_state state_ignore ≡ true
unfolding is_state text_eq
ignore_known = refl

monitor_known : is_state state_monitor ≡ true
unfolding is_state text_eq
monitor_known = refl

module _ (c : SelectorConfig) (v : IsConfig c) where
  selection-IsSelection :
      (id : Text) (a : Action) (rule_id : Text) (t : Tier)
      → IsAction a
      → IsSelection (selection (of_config c) id a rule_id t)
  unfolding selection
  selection-IsSelection id a rule_id t h =
      ground (arith, v.default_valid.channel_range, v.default_channel)

  Routes-IsSelection :
      (o : Overlay) (e : Event) (id : Text) {sel : Selection}
      → Routes (of_config c) o e id sel
      → IsSelection sel
  Routes-IsSelection o e id (by_safety r f) =
      selection-IsSelection id r.action r.id safety
        (IsFirst-All (InGroup safety_group) c.safety_rules e id r f v.safety).0.action_valid
  Routes-IsSelection o e id (by_mute n m) =
      selection-IsSelection id (bare_action state_ignore) [] temporary_mute
        (bare_action-IsAction state_ignore ignore_known)
  Routes-IsSelection o e id (by_solo n m ne out) =
      selection-IsSelection id (bare_action state_monitor) [] temporary_solo
        (bare_action-IsAction state_monitor monitor_known)
  Routes-IsSelection o e id (by_pin r n m sole f) =
      selection-IsSelection id r.action r.id pinned
        (IsFirst-All (InGroup pinned_group) c.pinned_rules e id r f v.pinned).0.action_valid
  Routes-IsSelection o e id (by_user r n m sole p f) =
      selection-IsSelection id r.action r.id user
        (IsFirst-All (InGroup user_group) c.user_rules e id r f v.user).action_valid
  Routes-IsSelection o e id (by_default n m sole p u) =
      selection-IsSelection id c.default_action [] default v.default_valid

  Routes-ignored :
      (o : Overlay) (e : Event) (id : Text) {sel : Selection}
      → Routes (of_config c) o e id sel
      → (contains_text id o.muted ≡ true) ⊎ (¬ NoneApplies c.safety_rules e id)
      → sel.state ≡ state_ignore
  unfolding selection
  Routes-ignored o e id (by_safety r f) h =
      (IsFirst-All (InGroup safety_group) c.safety_rules e id r f v.safety).1
  Routes-ignored o e id (by_mute n m) h = refl
  Routes-ignored o e id (by_solo n m ne out) h = ground arith
  Routes-ignored o e id (by_pin r n m sole f) h = ground arith
  Routes-ignored o e id (by_user r n m sole p f) h = ground arith
  Routes-ignored o e id (by_default n m sole p u) h = ground arith

  Routes-silent :
      (o : Overlay) (e : Event) (id : Text) {sel : Selection}
      → Routes (of_config c) o e id sel
      → o.soloed ≢ []
      → contains_text id o.soloed ≡ false
      → sel.state ≢ state_play
  unfolding selection
  Routes-silent o e id (by_safety r f) ne out q =
      cc ((IsFirst-All (InGroup safety_group) c.safety_rules e id r f v.safety).1)
  Routes-silent o e id (by_mute n m) ne out q = cc
  Routes-silent o e id (by_solo n m _ _) ne out q = cc
  Routes-silent o e id (by_pin r n m sole f) ne out q = ground arith
  Routes-silent o e id (by_user r n m sole p f) ne out q = ground arith
  Routes-silent o e id (by_default n m sole p u) ne out q = ground arith

module _ (d : Digest) (c : SelectorConfig) (s : Selector) (built : new_selector c ≡ ok s)
    (e : Event) (o : Overlay) (sel : Selection) (done : evaluate d s e o ≡ ok sel) where
  evaluated : Routes (of_config c) o e (event_id d c.seed e) sel
  evaluated =
      let (v, same) = (new_selector_iff c s).0 built in
      elim (evaluate-Routes d (of_config c) e o) [
        | inl (sel', h, r, _) ↦ subst (Routes (of_config c) o e (event_id d c.seed e)) (cc) r
        | inr (x, h, _) ↦ absurd (cc)
      ]

  -- Every decision of a selector that NewSelector built has a known state, a MIDI channel from 1 to
  -- 16, and a musical identity only if it plays: a valid mode, and a root from 0 to 11.
  pub evaluate-IsSelection : IsSelection sel
  evaluate-IsSelection =
      Routes-IsSelection c ((new_selector_iff c s).0 built).0 o e (event_id d c.seed e) evaluated

  -- A muted flow, and a packet to which a safety rule applies, are ignored whatever the other rules
  -- and the rest of the overlay say.
  pub evaluate_ignored :
      (contains_text (event_id d c.seed e) o.muted ≡ true)
        ⊎ (¬ NoneApplies c.safety_rules e (event_id d c.seed e))
      → sel.state ≡ state_ignore
  evaluate_ignored =
      Routes-ignored c ((new_selector_iff c s).0 built).0 o e (event_id d c.seed e) evaluated

  -- While some flow is soloed, no packet of a flow that is not soloed plays.
  pub evaluate_soloed_out :
      o.soloed ≢ [] → contains_text (event_id d c.seed e) o.soloed ≡ false → sel.state ≢ state_play
  evaluate_soloed_out =
      Routes-silent c ((new_selector_iff c s).0 built).0 o e (event_id d c.seed e) evaluated
