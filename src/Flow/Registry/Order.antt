-- ===== src/Flow/Registry/Order.antt =====
-- The heap of internal/flow/registry.go and its order.
use go_musical_packets.Flow.Registry.Store.{find-id, DistinctIds}
use go_musical_packets.Prelude.{
  sym, subst, ◌≡◌, inl, inr, true, false, none, some, List, [], ◌∷◌, arith, Bool-cases, Text,
  text_lt, contains_text, text_eq_refl, text_eq→eq, text_lt_irrefl, text_lt_trans, text_lt-total,
  is_some, ◌||◌, Bool, text_eq, refl, text_eq_iff, if_cases, ◌∙◌, ℕ, ◌==◌, ltb, if◌then◌else◌,
}
use go_musical_packets.Flow.Registry.{
  id_less, seen_at, entry_less, root, find, push_entry, drop_entry, Snapshot,
}

-- Less on two entries, by their times and their IDs.
time_less : ℕ → Text → ℕ → Text → Bool
time_less m a n b = if m == n then text_lt a b else ltb m n

time_less_irrefl : (m : ℕ) (a : Text) → time_less m a m a ≡ false
unfolding time_less
time_less_irrefl m a = ground (arith, text_lt_irrefl a)

time_less-asym : (m n : ℕ) (a b : Text) → time_less m a n b ≡ true → time_less n b m a ≡ false
unfolding time_less
time_less-asym m n a b h = elim (Bool-cases (text_lt b a)) [
  | inl k ↦ ground (arith, text_lt_trans a b a, text_lt_irrefl a)
  | inr k ↦ ground arith
]

-- What does not come before `b`, which does not come before `a`, does not come before `a`.
time_less_trans :
    (l m n : ℕ) (a b c : Text)
    → time_less m b l a ≡ false
    → time_less n c m b ≡ false
    → time_less n c l a ≡ false
unfolding time_less
time_less_trans l m n a b c h k = elim (Bool-cases (text_lt c a)) [
  | inl x ↦ elim (Bool-cases (text_lt a b)) [
    | inl y ↦ ground (arith, text_lt_trans c a b)
    | inr y ↦ ground (arith, text_lt-total a b)
  ]
  | inr x ↦ ground arith
]

-- No entry that the heap points at comes before `s`.
abbrev pub IsLeast : List Snapshot → List Text → Snapshot → Type 0
IsLeast fs ids s =
    (id : Text) (t : Snapshot)
    → contains_text id ids ≡ true
    → find id fs ≡ some t
    → entry_less t s ≡ false

-- No entry of the heap comes before one that stands to its left.
abbrev pub Ordered : List Snapshot → List Text → Type 0
Ordered fs [] = Unit
Ordered fs (x ∷ xs) =
    ((j : Text) → contains_text j xs ≡ true → id_less fs j x ≡ false) × Ordered fs xs

pub contains_text-push_entry :
    (fs : List Snapshot) (id j : Text) (xs : List Text)
    → contains_text j (push_entry fs id xs) ≡ (text_eq id j || contains_text j xs)
unfolding contains_text push_entry
contains_text-push_entry fs id j [] = ground arith
contains_text-push_entry fs id j (x ∷ xs) =
    let ih = contains_text-push_entry fs id j xs in ground (arith, ih)

pub DistinctIds-push_entry :
    (fs : List Snapshot) (id : Text) (xs : List Text)
    → DistinctIds xs
    → contains_text id xs ≡ false
    → DistinctIds (push_entry fs id xs)
unfolding push_entry contains_text
DistinctIds-push_entry fs id [] d n = (refl, tt)
DistinctIds-push_entry fs id (x ∷ xs) d n =
    if_cases DistinctIds (id_less fs x id) (x ∷ push_entry fs id xs) (id ∷ x ∷ xs)
      (λ _. (
        contains_text-push_entry fs id x xs
            ∙ ground (arith, d.0, n, text_eq_iff id x, text_eq_iff x id),
        DistinctIds-push_entry fs id xs d.1 (ground (arith, n)),
      ))
      (λ _. (n, d))

pub push_entry-Ordered :
    (fs : List Snapshot) (id : Text) (xs : List Text)
    → Ordered fs xs
    → Ordered fs (push_entry fs id xs)
unfolding push_entry contains_text id_less time_less
push_entry-Ordered fs id [] h = (λ j c. absurd (ground (arith, c)), tt)
push_entry-Ordered fs id (x ∷ xs) h =
    let time = λ (j : Text). seen_at (find j fs) in
    if_cases (Ordered fs) (id_less fs x id) (x ∷ push_entry fs id xs) (id ∷ x ∷ xs)
      (λ l. (
        λ j c. elim (Bool-cases (text_eq id j)) [
          | inl e ↦
              subst (λ k. id_less fs k x ≡ false) (text_eq→eq id j e)
                (time_less-asym (time x) (time id) x id l)
          | inr e ↦ h.0 j (ground (arith, contains_text-push_entry fs id j xs, c, e))
        ],
        push_entry-Ordered fs id xs h.1,
      ))
      (λ l. (
        λ j c. elim (Bool-cases (text_eq x j)) [
          | inl e ↦ subst (λ k. id_less fs k id ≡ false) (text_eq→eq x j e) l
          | inr e ↦
              time_less_trans (time id) (time x) (time j) id x j l (h.0 j (ground (arith, c, e)))
        ],
        h,
      ))

-- The order only depends on the times of the entries of the heap.
pub Ordered-same :
    (fs gs : List Snapshot) (xs : List Text)
    → ((j : Text) → contains_text j xs ≡ true → seen_at (find j gs) ≡ seen_at (find j fs))
    → Ordered fs xs
    → Ordered gs xs
unfolding id_less contains_text
Ordered-same fs gs [] same h = tt
Ordered-same fs gs (x ∷ xs) same h = (
  λ j c. rw (same j (ground (arith, c)), same x (ground (arith, text_eq_refl x))) (h.0 j c),
  Ordered-same fs gs xs (λ j c. same j (ground (arith, c))) h.1,
)

contains_text-dropped :
    (j id : Text) (xs : List Text)
    → contains_text j (drop_entry id xs) ≡ true
    → contains_text j xs ≡ true
unfolding contains_text drop_entry
contains_text-dropped j id [] h = h
contains_text-dropped j id (x ∷ xs) h = ground (arith, contains_text-dropped j id xs)

pub drop_entry-Ordered :
    (fs : List Snapshot) (id : Text) (xs : List Text)
    → Ordered fs xs
    → Ordered fs (drop_entry id xs)
unfolding drop_entry
drop_entry-Ordered fs id [] h = tt
drop_entry-Ordered fs id (x ∷ xs) h =
    if_cases (Ordered fs) (text_eq x id) xs (x ∷ drop_entry id xs) (λ _. h.1)
      (λ _. (λ j c. h.0 j (contains_text-dropped j id xs c), drop_entry-Ordered fs id xs h.1))

-- The entries of the heap are those of the map.
abbrev pub SameIds : List Snapshot → List Text → Type 0
SameIds fs ids = (id : Text) → contains_text id ids ≡ is_some (find id fs)

pub root-none :
    (fs : List Snapshot) (ids : List Text) (id : Text)
    → SameIds fs ids
    → root fs ids ≡ none
    → contains_text id ids ≡ true
    → find id fs ≡ none
unfolding root contains_text
root-none fs [] id same h c = absurd (cc)
root-none fs (x ∷ ids) id same h c = absurd (ground (arith, same x, h, text_eq_refl x))

-- The root is one of the entries that the heap points at.
pub root-member :
    (fs : List Snapshot) (ids : List Text) (s : Snapshot)
    → root fs ids ≡ some s
    → (find s.id fs ≡ some s) × (contains_text s.id ids ≡ true)
unfolding contains_text root
root-member fs [] s h = absurd (cc)
root-member fs (x ∷ ids) s h =
    let q : s.id ≡ x = find-id x fs s h in
    (subst (λ z. find z fs ≡ some s) (sym q) h, ground (arith, q, text_eq_refl x))

at_found :
    (fs : List Snapshot) (s t : Snapshot) (x id : Text)
    → find x fs ≡ some s
    → find id fs ≡ some t
    → id_less fs id x ≡ entry_less t s
unfolding id_less entry_less
at_found fs s t x id h k = rw (h, k, ← find-id x fs s h, ← find-id id fs t k) refl

-- In an ordered heap, no entry comes before the root.
pub root-IsLeast :
    (fs : List Snapshot) (ids : List Text) (s : Snapshot)
    → Ordered fs ids
    → root fs ids ≡ some s
    → IsLeast fs ids s
unfolding contains_text root id_less time_less
root-IsLeast fs [] s o h id u c f = absurd (cc)
root-IsLeast fs (x ∷ ids) s o h id u c f =
    sym (at_found fs s u x id h f) ∙ (elim (Bool-cases (text_eq x id)) [
      | inl e ↦
          subst (λ k. id_less fs k x ≡ false) (text_eq→eq x id e)
            (time_less_irrefl (seen_at (find x fs)) x)
      | inr e ↦ o.0 id (ground (arith, c, e))
    ])
