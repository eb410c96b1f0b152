-- ===== src/Peer/Window/Once.antt =====
-- How long duplicate of internal/peer/host.go remembers a key.
use go_musical_packets.Peer.Window.Queue.{
  IsWindow, pruned, trimmed, both, after, duplicate-both, duplicate-after,
}
use go_musical_packets.Peer.Window.{Entry, Window, lookup, duplicate}
use go_musical_packets.Prelude.{
  ℕ, suc, ◌+◌, ◌≤◌, ◌≡◌, refl, sym, ap, ◌∙◌, subst, inl, inr, Bool, true, false, List, [], ◌∷◌,
  ◌++◌, arith, ltb, if◌then◌else◌, Bool-cases, is_some, if_cases, length, length-append, Text,
  text_eq_refl,
}

-- The queue has the key since `time`, and keeps it through `spare` new entries.
pub record Holding (capacity : ℕ) (id : Text) (time spare : ℕ) (w : Window) : Type 0 where
  pub older : List Entry
  pub newer : List Entry
  pub held : w ≡ both (older ++ ((id, time) ∷ newer))
  pub room : length newer + spare + 1 ≤ capacity

pruned-keeps :
    (ttl now time : ℕ) (id : Text) (older newer : List Entry)
    → now ≤ time + ttl
    → (older' : List Entry) × (pruned ttl now (older ++ ((id, time) ∷ newer))
        ≡ older' ++ ((id, time) ∷ newer))
unfolding pruned
pruned-keeps ttl now time id [] newer h = ([], ground (arith, h))
pruned-keeps ttl now time id ((k, t) ∷ older) newer h =
    let (older', e) = pruned-keeps ttl now time id older newer h in
    elim (Bool-cases (ltb (t + ttl) now)) [
      | inl b ↦ (older', rw (b) e)
      | inr b ↦ ((k, t) ∷ older, rw (b) refl)
    ]

trimmed-keeps :
    (capacity time : ℕ) (id : Text) (older newer : List Entry)
    → length newer + 1 ≤ capacity
    → (older' : List Entry) × (trimmed capacity (older ++ ((id, time) ∷ newer))
        ≡ older' ++ ((id, time) ∷ newer))
unfolding trimmed
trimmed-keeps capacity time id [] newer h = ([], ground (arith, h))
trimmed-keeps capacity time id (e ∷ older) newer h =
    let (older', k) = trimmed-keeps capacity time id older newer h in
    elim (Bool-cases (ltb capacity (length (e ∷ (older ++ ((id, time) ∷ newer)))))) [
      | inl b ↦ (older', rw (b) k)
      | inr b ↦ (e ∷ older, rw (b) refl)
    ]

lookup-held :
    (time : ℕ) (id : Text) (older newer : List Entry)
    → is_some (lookup id (older ++ ((id, time) ∷ newer))) ≡ true
unfolding lookup
lookup-held time id [] newer = ground (arith, text_eq_refl id)
lookup-held time id ((k, t) ∷ older) newer =
    let ih = lookup-held time id older newer in ground (arith, ih)

snoc-held :
    (x y : Entry) (older newer : List Entry)
    → (older ++ (x ∷ newer)) ++ (y ∷ []) ≡ older ++ (x ∷ (newer ++ (y ∷ [])))
snoc-held x y [] newer = refl
snoc-held x y (e ∷ older) newer = ap (λ m. e ∷ m) (snoc-held x y older newer)

-- A key that came within the time to live is known.
pub duplicate-known :
    (capacity ttl now time spare : ℕ) (id : Text) (w : Window)
    → Holding capacity id time spare w
    → now ≤ time + ttl
    → (duplicate capacity ttl id now w).1 ≡ true
unfolding after
duplicate-known capacity ttl now time spare id w k h =
    let (older', e) = pruned-keeps ttl now time id k.older k.newer h in
    let there : is_some (lookup id (pruned ttl now (k.older ++ ((id, time) ∷ k.newer)))) ≡ true =
      rw (e) (lookup-held time id older' k.newer) in
    ap (λ v. (duplicate capacity ttl id now v).1) k.held
    ∙ ap (λ p. p.1) (duplicate-both capacity ttl id now (k.older ++ ((id, time) ∷ k.newer)))
    ∙ rw (there) refl

-- Another call leaves room for one entry less.
pub duplicate-Holding :
    (capacity ttl now time spare : ℕ) (id other : Text) (w : Window)
    → Holding capacity id time (suc spare) w
    → now ≤ time + ttl
    → Holding capacity id time spare (duplicate capacity ttl other now w).0
unfolding after
duplicate-Holding capacity ttl now time spare id other w k h =
    let (older', e) = pruned-keeps ttl now time id k.older k.newer h in
    let whole = older' ++ ((id, time) ∷ k.newer) in
    let longer = k.newer ++ ((other, now) ∷ []) in
    let size : length longer ≡ length k.newer + 1 = length-append k.newer ((other, now) ∷ []) in
    let (older2, f) = trimmed-keeps capacity time id older' longer (omega (arith, size, k.room)) in
    let is : duplicate capacity ttl other now w ≡ (
        if is_some (lookup other whole)
        then (both whole, true)
        else (both (older2 ++ ((id, time) ∷ longer)), false)) =
      ap (duplicate capacity ttl other now) k.held
      ∙ duplicate-both capacity ttl other now (k.older ++ ((id, time) ∷ k.newer))
      ∙ rw (e, snoc-held (id, time) (other, now) older' k.newer, f) refl in
    subst (λ p. Holding capacity id time spare p.0) (sym is)
      (if_cases (λ (p : Window × Bool). Holding capacity id time spare p.0)
        (is_some (lookup other whole)) (both whole, true)
        (both (older2 ++ ((id, time) ∷ longer)), false)
        (λ _. record { older = older'; newer = k.newer; held = refl; room = omega (arith, k.room) })
        (λ _. record {
          older = older2;
          newer = longer;
          held = refl;
          room = omega (arith, size, k.room);
        }))

-- A key that was new is held with room for all the other entries.
pub duplicate-new :
    (capacity ttl now : ℕ) (id : Text) (w : Window)
    → IsWindow (suc capacity) w
    → (duplicate (suc capacity) ttl id now w).1 ≡ false
    → Holding (suc capacity) id now capacity (duplicate (suc capacity) ttl id now w).0
unfolding after
duplicate-new capacity ttl now id w k h =
    let is = duplicate-after (suc capacity) ttl id now w k.same in
    let fresh = pruned ttl now w.order in
    let (older', f) = trimmed-keeps (suc capacity) now id fresh [] (omega arith) in
    elim (Bool-cases (is_some (lookup id fresh))) [
      | inl b ↦
          let known : (duplicate (suc capacity) ttl id now w).1 ≡ true =
            ap (λ p. p.1) is
            ∙ (let seen : (after (suc capacity) ttl id now w.order).1 ≡ true = rw (b) refl in
                seen) in
          absurd (ground (arith, h, known))
      | inr b ↦
          let now_is : duplicate (suc capacity) ttl id now w
              ≡ (both (older' ++ ((id, now) ∷ [])), false) =
            is ∙ rw (b, f) refl in
          record { older = older'; newer = []; held = ap (λ p. p.0) now_is; room = omega arith }
    ]
