-- ===== src/Flow/Selector/Precedence.antt =====
-- Evaluate of internal/flow/selector.go beside its documented precedence: safety, mute, solo,
-- pinned, user, default, and the first match of a tier.
use go_musical_packets.Flow.Selector.{
  default, user, pinned, temporary_solo, state_monitor, temporary_mute, state_ignore, event_id,
  bare_action, evaluate, route, safety, selection, Selection, Overlay, matches, Rule, first_match,
  Selector,
}
use go_musical_packets.Prelude.{
  contains_text, ◌≡◌, refl, ap, ◌≢◌, ◌⊎◌, inl, inr, true, false, not, ◌&&◌, none, some, List, [],
  ◌∷◌, ◌++◌, arith, ◌==◌, Bool-cases, Option-cases, length, All, ok, err, Result-cases, Text,
}
use go_musical_packets.Packet
use go_musical_packets.Packet.{Event, validate}
use go_musical_packets.Packet.Laws.{IsValid, validate_iff}
use go_musical_packets.Flow.Key.{Digest}

abbrev pub Applies : Rule → Event → Text → Type 0
Applies r e id = (r.enabled ≡ true) × (matches r.criteria e id ≡ true)

abbrev pub NoneApplies : List Rule → Event → Text → Type 0
NoneApplies rs e id = All (λ r. ¬ Applies r e id) rs

-- `r` applies, and no rule before it does.
pub record IsFirst (rs : List Rule) (e : Event) (id : Text) (r : Rule) : Type 0 where
  pub before : List Rule
  pub after : List Rule
  pub split : rs ≡ before ++ (r ∷ after)
  pub skipped : NoneApplies before e id
  pub applies : Applies r e id

Applies-cases :
    (r : Rule) (e : Event) (id : Text)
    → (Applies r e id × ((r.enabled && matches r.criteria e id) ≡ true))
      ⊎ ((¬ Applies r e id) × ((r.enabled && matches r.criteria e id) ≡ false))
Applies-cases r e id = elim (Bool-cases (r.enabled && matches r.criteria e id)) [
  | inl h ↦ inl (ground arith)
  | inr h ↦ inr ((λ a. ground arith), h)
]

pub first_match-IsFirst :
    (rs : List Rule) (e : Event) (id : Text) (r : Rule)
    → first_match rs e id ≡ some r
    → IsFirst rs e id r
unfolding first_match
first_match-IsFirst [] e id r h = absurd (cc)
first_match-IsFirst (x ∷ rs) e id r h = elim (Applies-cases x e id) [
  | inl (a, t) ↦ record {
    before = [];
    after = rs;
    split = ground arith;
    skipped = tt;
    applies = ground arith;
  }
  | inr (a, t) ↦
      let rest : IsFirst rs e id r = first_match-IsFirst rs e id r (ground arith) in
      record {
        before = x ∷ rest.before;
        after = rest.after;
        split = ap (λ z. x ∷ z) rest.split;
        skipped = (a, rest.skipped);
        applies = rest.applies;
      }
]

pub first_match-none :
    (rs : List Rule) (e : Event) (id : Text) → first_match rs e id ≡ none → NoneApplies rs e id
unfolding first_match
first_match-none [] e id h = tt
first_match-none (x ∷ rs) e id h = elim (Applies-cases x e id) [
  | inl (a, t) ↦ absurd (ground arith)
  | inr (a, t) ↦ (a, first_match-none rs e id (ground arith))
]

-- What the tiers promise, one constructor for each way to decide.
pub data Routes (s : Selector) (o : Overlay) (e : Event) (id : Text) : Selection → Type 0 where
  by_safety :
      (r : Rule)
      → IsFirst s.safety_rules e id r
      → Routes s o e id (selection s id r.action r.id safety)
  by_mute :
      NoneApplies s.safety_rules e id
      → contains_text id o.muted ≡ true
      → Routes s o e id (selection s id (bare_action state_ignore) [] temporary_mute)
  by_solo :
      NoneApplies s.safety_rules e id
      → contains_text id o.muted ≡ false
      → o.soloed ≢ []
      → contains_text id o.soloed ≡ false
      → Routes s o e id (selection s id (bare_action state_monitor) [] temporary_solo)
  by_pin :
      (r : Rule)
      → NoneApplies s.safety_rules e id
      → contains_text id o.muted ≡ false
      → (o.soloed ≡ []) ⊎ (contains_text id o.soloed ≡ true)
      → IsFirst s.pinned_rules e id r
      → Routes s o e id (selection s id r.action r.id pinned)
  by_user :
      (r : Rule)
      → NoneApplies s.safety_rules e id
      → contains_text id o.muted ≡ false
      → (o.soloed ≡ []) ⊎ (contains_text id o.soloed ≡ true)
      → NoneApplies s.pinned_rules e id
      → IsFirst s.user_rules e id r
      → Routes s o e id (selection s id r.action r.id user)
  by_default :
      NoneApplies s.safety_rules e id
      → contains_text id o.muted ≡ false
      → (o.soloed ≡ []) ⊎ (contains_text id o.soloed ≡ true)
      → NoneApplies s.pinned_rules e id
      → NoneApplies s.user_rules e id
      → Routes s o e id (selection s id s.default_action [] default)

NotSoloedOut-cases :
    (o : Overlay) (id : Text)
    → ((o.soloed ≢ [])
        × (contains_text id o.soloed ≡ false)
        × ((not (length o.soloed == 0) && not (contains_text id o.soloed)) ≡ true))
      ⊎ (((o.soloed ≡ []) ⊎ (contains_text id o.soloed ≡ true))
          × ((not (length o.soloed == 0) && not (contains_text id o.soloed)) ≡ false))
NotSoloedOut-cases o id =
    elim (Bool-cases (not (length o.soloed == 0) && not (contains_text id o.soloed))) [
      | inl h ↦ inl (ground arith)
      | inr h ↦ inr (ground arith)
    ]

module _ (s : Selector) (o : Overlay) (e : Event) (id : Text) where
  route-unsafe :
      NoneApplies s.safety_rules e id
      → first_match s.safety_rules e id ≡ none
      → Routes s o e id (route s o e id)
  unfolding route
  route-unsafe none_safe h = elim (Bool-cases (contains_text id o.muted)) [
    | inl m ↦ rw (h, m) (by_mute none_safe m)
    | inr m ↦ elim (NotSoloedOut-cases o id) [
      | inl (ne, out, t) ↦ rw (h, m, t) (by_solo none_safe m ne out)
      | inr (sole, t) ↦ elim (Option-cases (first_match s.pinned_rules e id)) [
        | inr (r, p) ↦ rw (h, m, t, p) (by_pin r none_safe m sole (first_match-IsFirst _ e id r p))
        | inl p ↦ elim (Option-cases (first_match s.user_rules e id)) [
          | inr (r, u) ↦
              rw (h, m, t, p, u)
                (by_user r none_safe m sole (first_match-none _ e id p)
                  (first_match-IsFirst _ e id r u))
          | inl u ↦
              rw (h, m, t, p, u)
                (by_default none_safe m sole (first_match-none _ e id p)
                  (first_match-none _ e id u))
        ]
      ]
    ]
  ]

  route-Routes : Routes s o e id (route s o e id)
  unfolding route
  route-Routes = elim (Option-cases (first_match s.safety_rules e id)) [
    | inr (r, h) ↦ rw h (by_safety r (first_match-IsFirst _ e id r h))
    | inl h ↦ route-unsafe (first_match-none _ e id h) h
  ]

-- Evaluate gives every valid packet exactly the decision of the documented precedence: the first
-- applying safety rule, else the mute, else the solo of other flows, else the first applying
-- pinned rule, else the first applying user rule, else the default action. It refuses the others.
pub evaluate-Routes :
    (d : Digest) (s : Selector) (e : Event) (o : Overlay)
    → ((sel : Selection) × (evaluate d s e o ≡ ok sel)
        × Routes s o e (event_id d s.seed e) sel
        × IsValid e)
      ⊎ ((x : Packet.Error) × (evaluate d s e o ≡ err x) × (¬ IsValid e))
unfolding evaluate
evaluate-Routes d s e o = elim (Result-cases (validate e)) [
  | inl (u, h) ↦ inl (
    route s o e (event_id d s.seed e),
    rw h refl,
    route-Routes s o e (event_id d s.seed e),
    (validate_iff e).0 h,
  )
  | inr (x, h) ↦ inr (x, rw h refl, λ v. ground (arith, (validate_iff e).1 v))
]
