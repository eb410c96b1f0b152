-- ===== src/App/Safety/Fresh.antt =====
-- The loop of uniqueRuleID in internal/app/app.go.
use go_musical_packets.Flow.Selector.{Rule}
use go_musical_packets.Prelude.{
  is_empty, ℕ, zero, suc, ◌+◌, ◌^◌, ◌≤◌, ◌<◌, ◌≡◌, refl, sym, ap, ◌∙◌, subst, ◌≢◌, inl, inr, true,
  false, some, List, [], ◌∷◌, ◌++◌, arith, if◌then◌else◌, Bool-cases, length, drop, length-append,
  Text, codes, text_eq, contains_text, text_eq→eq,
}
use go_musical_packets.App.Safety.{or_base, ids_of, candidate, unique_from, unique_rule_id}
use go_musical_packets.Decimal.{decimal, decimal_injective}

append-cancel : (xs ys zs : Text) → xs ++ ys ≡ xs ++ zs → ys ≡ zs
append-cancel [] ys zs h = h
append-cancel (x ∷ xs) ys zs h = append-cancel xs ys zs (ap (λ t. drop 1 t) h)

longer : (base t : Text) → base ≡ base ++ t → 0 < length t → ⊥
longer base t h k = omega (arith, k, ap length h, length-append base t)

candidate_injective :
    (base : Text) (m n : ℕ) → m < 2 ^ 64 → n < 2 ^ 64 → candidate base m ≡ candidate base n → m ≡ n
unfolding candidate
candidate_injective base zero zero h k e = refl
candidate_injective base zero (suc n) h k e =
    absurd (longer base (codes "_" ++ decimal (suc n)) e (omega arith))
candidate_injective base (suc m) zero h k e =
    absurd (longer base (codes "_" ++ decimal (suc m)) (sym e) (omega arith))
candidate_injective base (suc m) (suc n) h k e = decimal_injective (suc m) (suc n) h k (
    ap (λ t. drop 1 t)
      (append-cancel base (codes "_" ++ decimal (suc m)) (codes "_" ++ decimal (suc n)) e))

abbrev remove : Text → List Text → List Text
remove c [] = []
remove c (x ∷ xs) = if text_eq x c then remove c xs else x ∷ remove c xs

contains-remove :
    (c t : Text) (xs : List Text) → c ≢ t → contains_text t (remove c xs) ≡ contains_text t xs
unfolding contains_text
contains-remove c t [] h = refl
contains-remove c t (x ∷ xs) h = elim (Bool-cases (text_eq x c)) [
  | inl k ↦ elim (Bool-cases (text_eq x t)) [
    | inl j ↦ absurd (h (sym (text_eq→eq x c k) ∙ text_eq→eq x t j))
    | inr j ↦ rw (k, j) (contains-remove c t xs h)
  ]
  | inr k ↦ rw (k, contains-remove c t xs h) (refl)
]

length-remove_le : (c : Text) (xs : List Text) → length (remove c xs) ≤ length xs
length-remove_le c [] = omega arith
length-remove_le c (x ∷ xs) = ground (arith, length-remove_le c xs)

length-remove :
    (c : Text) (xs : List Text) → contains_text c xs ≡ true → length (remove c xs) < length xs
unfolding contains_text
length-remove c [] h = absurd (ground (arith, h))
length-remove c (x ∷ xs) h = ground (arith, h, length-remove c xs, length-remove_le c xs)

-- An ID that no later candidate is can be taken from the list.
unique_from-remove :
    (rounds : ℕ) (base c : Text) (suffix : ℕ) (used : List Text)
    → ((k : ℕ) → suffix ≤ k → k < suffix + rounds → c ≢ candidate base k)
    → unique_from rounds base suffix (remove c used) ≡ unique_from rounds base suffix used
unfolding unique_from
unique_from-remove zero base c suffix used h = refl
unique_from-remove (suc rounds) base c suffix used h =
    rw
      (
        contains-remove c (candidate base suffix) used (h suffix (omega arith) (omega arith)),
        unique_from-remove rounds base c (suc suffix) used
            (λ k l m. h k (omega (arith, l)) (omega (arith, m))),
      )
      (refl)

unique_from_unused :
    (rounds : ℕ) (base id : Text) (suffix : ℕ) (used : List Text)
    → unique_from rounds base suffix used ≡ some id
    → contains_text id used ≡ false
unfolding unique_from
unique_from_unused zero base id suffix used h = absurd (ground (arith, h))
unique_from_unused (suc rounds) base id suffix used h =
    elim (Bool-cases (contains_text (candidate base suffix) used)) [
      | inl t ↦ unique_from_unused rounds base id (suc suffix) used (ground (arith, h, t))
      | inr f ↦
          let same : candidate base suffix ≡ id = ground (arith, h, f) in
          subst (λ x. contains_text x used ≡ false) same f
    ]

-- There are more candidates than IDs.
unique_from_ends :
    (rounds : ℕ) (base : Text) (suffix : ℕ) (used : List Text)
    → length used < rounds
    → suffix + rounds < 2 ^ 64
    → (id : Text) × (unique_from rounds base suffix used ≡ some id)
unfolding unique_from
unique_from_ends zero base suffix used h k = absurd (omega (arith, h))
unique_from_ends (suc rounds) base suffix used h k =
    let c = candidate base suffix in
    elim (Bool-cases (contains_text c used)) [
      | inr f ↦ (c, rw (f) (refl))
      | inl t ↦
          let later : (j : ℕ) → suc suffix ≤ j → j < suc suffix + rounds → c ≢ candidate base j =
            λ j l m e.
              let same : suffix ≡ j =
                candidate_injective base suffix j (omega (arith, k)) (omega (arith, m, k)) e in
              absurd (omega (arith, same, l)) in
          let (id, found) =
            unique_from_ends rounds base (suc suffix) (remove c used)
              (omega (arith, length-remove c used t, h)) (omega (arith, k)) in
          (id, rw (t) (sym (unique_from-remove rounds base c (suc suffix) used later) ∙ found))
    ]

-- The loop of uniqueRuleID ends after as many rounds as there are rules, and one more, for fewer than
-- 2 ^ 63 rules; the ID that it returns is none of theirs.
pub unique_rule_id_ends :
    (base : Text) (rules : List Rule)
    → length rules < 2 ^ 63
    → (unique_from (suc (length rules)) base 0 (ids_of rules) ≡ some (unique_rule_id base rules))
      × (contains_text (unique_rule_id base rules) (ids_of rules) ≡ false)
unfolding unique_rule_id
unique_rule_id_ends base rules h =
    let (id, found) =
      unique_from_ends (suc (length rules)) base 0 (ids_of rules)
        (omega (arith, length-ids_of rules)) (omega (arith, h)) in
    rw (found) (refl, unique_from_unused (suc (length rules)) base id 0 (ids_of rules) found)
  where
    length-ids_of : (rs : List Rule) → length (ids_of rs) ≡ length rs
    length-ids_of [] = refl
    length-ids_of (r ∷ rs) = ap (λ (n : ℕ). suc n) (length-ids_of rs)

candidate_given :
    (base : Text) (n : ℕ) → is_empty base ≡ false → is_empty (candidate base n) ≡ false
unfolding candidate
candidate_given [] n h = absurd (ground (arith, h))
candidate_given (b ∷ bs) zero h = refl
candidate_given (b ∷ bs) (suc n) h = refl

unique_from_given :
    (rounds : ℕ) (base : Text) (suffix : ℕ) (used : List Text)
    → is_empty base ≡ false
    → is_empty (or_base base (unique_from rounds base suffix used)) ≡ false
unfolding unique_from
unique_from_given zero base suffix used h = h
unique_from_given (suc rounds) base suffix used h =
    elim (Bool-cases (contains_text (candidate base suffix) used)) [
      | inl t ↦ rw (t) (unique_from_given rounds base (suc suffix) used h)
      | inr f ↦ rw (f) (candidate_given base suffix h)
    ]

pub unique_rule_id_given :
    (base : Text) (rules : List Rule)
    → is_empty base ≡ false
    → is_empty (unique_rule_id base rules) ≡ false
unfolding unique_rule_id
unique_rule_id_given base rules h = unique_from_given (suc (length rules)) base 0 (ids_of rules) h
