-- ===== src/Midi/Message/Devices.antt =====
-- SelectDevice of internal/midi/midi.go.
use go_musical_packets.Midi.Message.{
  no_output_devices, pattern_invalid, first_named, select_device, Device, by_pattern,
  first_matching,
}
use go_musical_packets.Prelude.{
  ◌≡◌, refl, ap, ◌≢◌, ◌↔◌, ◌⊎◌, inl, inr, Bool, true, Option, none, some, List, [], ◌∷◌, ◌++◌,
  arith, Bool-cases, Option-cases, All, ok, err, Text, text_eq, text_eq_iff,
}

-- The first device of the list whose name passes.
pub record IsFirst (Passes : Text → Type 0) (ds : List Device) (d : Device) : Type 0 where
  pub before : List Device
  pub after : List Device
  pub split : ds ≡ before ++ (d ∷ after)
  pub others_fail : All (λ (e : Device). ¬ Passes e.name) before
  pub found : Passes d.name

abbrev pub NonePasses : (Text → Type 0) → List Device → Type 0
NonePasses Passes ds = All (λ (e : Device). ¬ Passes e.name) ds

-- No name is asked for, or no device has it.
abbrev pub Unnamed : Text → List Device → Type 0
Unnamed exact ds = (exact ≡ []) ⊎ NonePasses (λ n. n ≡ exact) ds

module _ (compile : Text → Option (Text → Bool)) where
  -- No pattern is asked for, or no device matches it.
  abbrev pub Unmatched : Text → List Device → Type 0
  Unmatched pattern ds =
      (pattern ≡ [])
      ⊎ ((accepts : Text → Bool) × (compile pattern ≡ some accepts)
          × NonePasses (λ n. accepts n ≡ true) ds)

  -- The first device that matches the pattern, or else the first of all.
  abbrev pub IsByPattern : Text → List Device → Device → Type 0
  IsByPattern pattern ds d =
      ((accepts : Text → Bool) × (pattern ≢ [])
        × (compile pattern ≡ some accepts)
        × IsFirst (λ n. accepts n ≡ true) ds d)
      ⊎ (Unmatched pattern ds × (rest : List Device) × (ds ≡ d ∷ rest))

  -- The first device of the name asked for; without one, the choice by the pattern.
  abbrev pub IsSelected : List Device → Text → Text → Device → Type 0
  IsSelected ds exact pattern d =
      ((exact ≢ []) × IsFirst (λ n. n ≡ exact) ds d) ⊎ (Unnamed exact ds × IsByPattern pattern ds d)

first_matching-IsFirst :
    (test : Text → Bool) (Passes : Text → Type 0)
    → ((n : Text) → (test n ≡ true) ↔ Passes n)
    → (ds : List Device)
    → ((d : Device) × (first_matching test ds ≡ some d) × IsFirst Passes ds d)
      ⊎ ((first_matching test ds ≡ none) × NonePasses Passes ds)
unfolding first_matching
first_matching-IsFirst test Passes agree [] = inr (refl, tt)
first_matching-IsFirst test Passes agree (d ∷ ds) = elim (Bool-cases (test d.name)) [
  | inl t ↦ inl (
    d,
    ground (arith, t),
    record { before = []; after = ds; split = refl; others_fail = tt; found = (agree d.name).0 t },
  )
  | inr f ↦
      let not_here : ¬ Passes d.name = λ p. absurd (ground (arith, (agree d.name).1 p, f)) in
      elim (first_matching-IsFirst test Passes agree ds) [
        | inl (e, k, first) ↦ inl (
          e,
          ground (arith, f, k),
          record {
            before = d ∷ first.before;
            after = first.after;
            split = ap (λ es. d ∷ es) first.split;
            others_fail = (not_here, first.others_fail);
            found = first.found;
          },
        )
        | inr (k, nobody) ↦ inr (ground (arith, f, k), (not_here, nobody))
      ]
]

first_named-first_matching :
    (name : Text) (ds : List Device) → first_named name ds ≡ first_matching (λ n. text_eq n name) ds
unfolding first_named first_matching
first_named-first_matching name [] = refl
first_named-first_matching name (d ∷ ds) = rw (first_named-first_matching name ds) refl

module _ (compile : Text → Option (Text → Bool)) where
  by_pattern_lem :
      (pattern : Text) (first : Device) (rest : List Device)
      → let ds = first ∷ rest in
        ((d : Device) × (by_pattern compile pattern first ds ≡ ok d)
          × IsByPattern compile pattern ds d)
        ⊎ ((by_pattern compile pattern first ds ≡ err pattern_invalid)
            × (pattern ≢ [])
            × (compile pattern ≡ none))
  unfolding by_pattern
  by_pattern_lem [] first rest = inl (first, refl, inr (inl refl, rest, refl))
  by_pattern_lem (c ∷ cs) first rest =
      let given : c ∷ cs ≢ [] = λ e. absurd (ground (arith, e)) in
      elim (Option-cases (compile (c ∷ cs))) [
        | inl k ↦ inr (rw k refl, given, k)
        | inr (accepts, k) ↦
            elim (first_matching-IsFirst accepts (λ n. accepts n ≡ true) (λ n. (λ h. h, λ h. h))
              (first ∷ rest)) [
                | inl (d, m, chosen) ↦ inl (d, rw (k, m) refl, inl (accepts, given, k, chosen))
                | inr (m, nobody) ↦
                    inl (first, rw (k, m) refl, inr (inr (accepts, k, nobody), rest, refl))
              ]
      ]

  -- SelectDevice gives the first device of the exact name; where no name is given or no device has
  -- it, the first that matches the pattern; where no pattern is given or no device matches it, the
  -- first of all. It fails exactly without devices, and for a pattern that does not compile when the
  -- name decides nothing.
  pub select_device_order :
      (ds : List Device) (exact pattern : Text)
      → ((d : Device) × (select_device compile ds exact pattern ≡ ok d)
          × IsSelected compile ds exact pattern d)
        ⊎ ((select_device compile ds exact pattern ≡ err no_output_devices) × (ds ≡ []))
        ⊎ ((select_device compile ds exact pattern ≡ err pattern_invalid)
            × (pattern ≢ [])
            × (compile pattern ≡ none)
            × Unnamed exact ds)
  unfolding select_device
  select_device_order [] exact pattern = inr (inl (refl, refl))
  select_device_order (d ∷ ds) [] pattern = elim (by_pattern_lem pattern d ds) [
    | inl (e, k, chosen) ↦ inl (e, k, inr (inl refl, chosen))
    | inr (k, given, broken) ↦ inr (inr (k, given, broken, inl refl))
  ]
  select_device_order (d ∷ ds) (c ∷ cs) pattern =
      let same = first_named-first_matching (c ∷ cs) (d ∷ ds) in
      elim (first_matching-IsFirst (λ n. text_eq n (c ∷ cs)) (λ n. n ≡ c ∷ cs)
        (λ n. text_eq_iff n (c ∷ cs)) (d ∷ ds)) [
          | inl (e, m, named) ↦
              inl (e, rw (same, m) refl, inl (λ z. absurd (ground (arith, z)), named))
          | inr (m, nobody) ↦ elim (by_pattern_lem pattern d ds) [
            | inl (e, k, chosen) ↦ inl (e, rw (same, m, k) refl, inr (inr nobody, chosen))
            | inr (k, given, broken) ↦ inr (inr (rw (same, m, k) refl, given, broken, inr nobody))
          ]
        ]
