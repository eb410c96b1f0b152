-- ===== src/Peer/Window/Queue.antt =====
-- The map and the queue of duplicate in internal/peer/host.go.
use go_musical_packets.Peer.Window.{
  remove, prune_duplicates, prune_from, trim_from, Entry, Window, lookup, duplicate, forget,
}
use go_musical_packets.Prelude.{
  ℕ, ◌+◌, ◌≤◌, ◌≡◌, refl, sym, ap, ◌∙◌, subst, inl, inr, Bool, true, false, none, List, [], ◌∷◌,
  ◌++◌, arith, ltb, if◌then◌else◌, Bool-cases, Option-cases, is_some, if_cases, length, Text,
  text_eq, text_eq_refl, text_eq→eq,
}

-- The map and the queue have the same entries, with each key once.
unfoldable pub Unique : List Entry → Type 0
Unique [] = Unit
Unique ((id, time) ∷ m) = (lookup id m ≡ none) × Unique m

pub record IsWindow (capacity : ℕ) (w : Window) : Type 0 where
  pub same : w.duplicates ≡ w.order
  pub unique : Unique w.order
  pub bounded : length w.order ≤ capacity

-- The map drops an entry when the queue does.
forget-head : (id : Text) (time : ℕ) (m : List Entry) → forget (id, time) ((id, time) ∷ m) ≡ m
unfolding forget lookup remove
forget-head id time m = ground (arith, text_eq_refl id)

-- The queue alone, pruned and trimmed.
unfoldable pub pruned : ℕ → ℕ → List Entry → List Entry
pruned ttl now [] = []
pruned ttl now ((id, time) ∷ order) =
    let rest = pruned ttl now order in if ltb (time + ttl) now then rest else (id, time) ∷ order

unfoldable pub trimmed : ℕ → List Entry → List Entry
trimmed capacity [] = []
trimmed capacity (e ∷ order) =
    let rest = trimmed capacity order in
    if ltb capacity (length (e ∷ order)) then rest else e ∷ order

unfoldable pub both : List Entry → Window
both m = record { duplicates = m; order = m }

prune_from_same : (ttl now : ℕ) (m : List Entry) → prune_from ttl now m m ≡ both (pruned ttl now m)
unfolding prune_from pruned both
prune_from_same ttl now [] = refl
prune_from_same ttl now ((id, time) ∷ m) =
    if_cases (λ w. w ≡ both (if ltb (time + ttl) now then pruned ttl now m else (id, time) ∷ m))
      (ltb (time + ttl) now) (prune_from ttl now (forget (id, time) ((id, time) ∷ m)) m)
      (both ((id, time) ∷ m)) (λ h. rw (h, forget-head id time m) (prune_from_same ttl now m))
      (λ h. rw (h) refl)

trim_from_same :
    (capacity : ℕ) (m : List Entry) → trim_from capacity m m ≡ both (trimmed capacity m)
unfolding trim_from trimmed both
trim_from_same capacity [] = refl
trim_from_same capacity ((id, time) ∷ m) =
    if_cases
      (λ w.
        w
        ≡ both
            (if ltb capacity (length ((id, time) ∷ m)) then trimmed capacity m else (id, time) ∷ m))
      (ltb capacity (length ((id, time) ∷ m)))
      (trim_from capacity (forget (id, time) ((id, time) ∷ m)) m) (both ((id, time) ∷ m))
      (λ h. rw (h, forget-head id time m) (trim_from_same capacity m)) (λ h. rw (h) refl)

pruned-Unique : (ttl now : ℕ) (m : List Entry) → Unique m → Unique (pruned ttl now m)
unfolding pruned Unique
pruned-Unique ttl now [] u = tt
pruned-Unique ttl now ((id, time) ∷ m) u =
    if_cases Unique (ltb (time + ttl) now) (pruned ttl now m) ((id, time) ∷ m)
      (λ _. pruned-Unique ttl now m u.1) (λ _. u)

trimmed-Unique : (capacity : ℕ) (m : List Entry) → Unique m → Unique (trimmed capacity m)
unfolding trimmed Unique
trimmed-Unique capacity [] u = tt
trimmed-Unique capacity ((id, time) ∷ m) u =
    if_cases Unique (ltb capacity (length ((id, time) ∷ m))) (trimmed capacity m) ((id, time) ∷ m)
      (λ _. trimmed-Unique capacity m u.1) (λ _. u)

length-pruned : (ttl now : ℕ) (m : List Entry) → length (pruned ttl now m) ≤ length m
unfolding pruned
length-pruned ttl now [] = omega arith
length-pruned ttl now ((id, time) ∷ m) = let ih = length-pruned ttl now m in ground (arith, ih)

length-trimmed : (capacity : ℕ) (m : List Entry) → length (trimmed capacity m) ≤ capacity
unfolding trimmed
length-trimmed capacity [] = omega arith
length-trimmed capacity (e ∷ m) = let ih = length-trimmed capacity m in ground (arith, ih)

lookup-snoc :
    (key id : Text) (now : ℕ) (m : List Entry)
    → lookup key m ≡ none
    → text_eq id key ≡ false
    → lookup key (m ++ ((id, now) ∷ [])) ≡ none
unfolding lookup
lookup-snoc key id now [] h n = ground (arith, n)
lookup-snoc key id now ((k, t) ∷ m) h n =
    let ih = lookup-snoc key id now m (ground (arith, h)) n in ground (arith, h, ih)

Unique-snoc :
    (id : Text) (now : ℕ) (m : List Entry)
    → Unique m
    → lookup id m ≡ none
    → Unique (m ++ ((id, now) ∷ []))
unfolding Unique lookup
Unique-snoc id now [] u h = (refl, tt)
Unique-snoc id now ((k, t) ∷ m) u h =
    let apart : text_eq id k ≡ false = elim (Bool-cases (text_eq id k)) [
      | inr f ↦ f
      | inl e ↦ absurd (ground (arith, h, ap (text_eq k) (text_eq→eq id k e), text_eq_refl k))
    ] in
    (lookup-snoc k id now m u.0 apart, Unique-snoc id now m u.1 (ground (arith, h)))

-- What `duplicate` does to the queue.
unfoldable pub after : ℕ → ℕ → Text → ℕ → List Entry → Window × Bool
after capacity ttl id now m =
    if is_some (lookup id (pruned ttl now m))
    then (both (pruned ttl now m), true)
    else (both (trimmed capacity (pruned ttl now m ++ ((id, now) ∷ []))), false)

window-both : (w : Window) → w.duplicates ≡ w.order → w ≡ both w.order
unfolding both
window-both w h = λ i. record { duplicates = h i; order = w.order }

pub duplicate-both :
    (capacity ttl : ℕ) (id : Text) (now : ℕ) (m : List Entry)
    → duplicate capacity ttl id now (both m) ≡ after capacity ttl id now m
unfolding duplicate prune_duplicates after both
duplicate-both capacity ttl id now m =
    rw (prune_from_same ttl now m, trim_from_same capacity (pruned ttl now m ++ ((id, now) ∷ [])))
      refl

pub duplicate-after :
    (capacity ttl : ℕ) (id : Text) (now : ℕ) (w : Window)
    → w.duplicates ≡ w.order
    → duplicate capacity ttl id now w ≡ after capacity ttl id now w.order
duplicate-after capacity ttl id now w h =
    ap (duplicate capacity ttl id now) (window-both w h)
    ∙ duplicate-both capacity ttl id now w.order

after-IsWindow :
    (capacity ttl : ℕ) (id : Text) (now : ℕ) (m : List Entry)
    → Unique m
    → length m ≤ capacity
    → IsWindow capacity (after capacity ttl id now m).0
unfolding after both
after-IsWindow capacity ttl id now m u l = elim (Option-cases (lookup id (pruned ttl now m))) [
  | inr (t, e) ↦ rw (e) (record {
    same = refl;
    unique = pruned-Unique ttl now m u;
    bounded = omega (arith, l, length-pruned ttl now m);
  })
  | inl e ↦ rw (e) (record {
    same = refl;
    unique =
        trimmed-Unique capacity (pruned ttl now m ++ ((id, now) ∷ []))
          (Unique-snoc id now (pruned ttl now m) (pruned-Unique ttl now m u) e);
    bounded = length-trimmed capacity (pruned ttl now m ++ ((id, now) ∷ []));
  })
]

pub duplicate-IsWindow :
    (capacity ttl : ℕ) (id : Text) (now : ℕ) (w : Window)
    → IsWindow capacity w
    → IsWindow capacity (duplicate capacity ttl id now w).0
duplicate-IsWindow capacity ttl id now w k =
    subst (λ p. IsWindow capacity p.0) (sym (duplicate-after capacity ttl id now w k.same))
      (after-IsWindow capacity ttl id now w.order k.unique k.bounded)
