-- ===== src/Music/Mapper/Scale.antt =====
-- scaleNotes of internal/music/mapper.go.
use go_musical_packets.Music.Mode.Laws.{Climbs-bound, intervals_of-Climbs, intervals_of}
use go_musical_packets.Music.Mapper.{
  scale_notes, in_scale, scale_from, contains_interval, pitch_class,
}
use go_musical_packets.Prelude.{
  ℕ, zero, suc, ◌+◌, ◌-◌, ◌%◌, ◌≤◌, ◌<◌, ◌≡◌, refl, sym, subst, ◌↔◌, inl, inr, Bool, true, ◌&&◌,
  ◌||◌, List, [], ◌∷◌, arith, ◌==◌, Bool-cases, ==_iff, length, get_or,
}
use go_musical_packets.Music.Mode.{mode_intervals, mode_count, Mode}

pitch_class_iff :
    (note root i : ℕ) → i < 12 → (pitch_class note root ≡ i) ↔ (note % 12 ≡ (root + i) % 12)
unfolding pitch_class
pitch_class_iff note root i h = (λ e. ground arith, λ e. ground arith)

-- `note` is `root` raised by an interval of the mode, in any octave.
abbrev pub IsInMode : Mode → ℕ → ℕ → Type 0
IsInMode mode root note =
    (k : ℕ) × (k < 7) × (note % 12 ≡ (root + get_or (intervals_of mode) k 0) % 12)

contains_interval_sound :
    (p : ℕ) (is : List ℕ)
    → contains_interval p is ≡ true
    → (k : ℕ) × (k < length is) × (get_or is k 0 ≡ p)
unfolding contains_interval
contains_interval_sound p [] h = absurd (cc)
contains_interval_sound p (i ∷ is) h = elim (Bool-cases (p == i)) [
  | inl e ↦ (0, omega arith, ground arith)
  | inr e ↦ let (k, l, q) = contains_interval_sound p is (ground arith) in (suc k, omega arith, q)
]

contains_interval_complete :
    (p : ℕ) (is : List ℕ) (k : ℕ)
    → k < length is
    → get_or is k 0 ≡ p
    → contains_interval p is ≡ true
unfolding contains_interval
contains_interval_complete p [] k h e = absurd (omega arith)
contains_interval_complete p (i ∷ is) zero h e = ground arith
contains_interval_complete p (i ∷ is) (suc k) h e =
    ground (arith, contains_interval_complete p is k (omega arith) e)

in_scale_iff :
    (mode root note : ℕ)
    → mode < mode_count
    → (in_scale mode root note ≡ true) ↔ IsInMode mode root note
unfolding in_scale
in_scale_iff mode root note h =
    let (c, len, _) = intervals_of-Climbs mode h in
    (
      λ e.
          let (k, l, q) = contains_interval_sound (pitch_class note root) (intervals_of mode) e in
          let b : get_or (intervals_of mode) k 0 < 12 =
            (Climbs-bound 0 (intervals_of mode) k c l).1 in
          (
            k,
            omega (arith, len, l),
            (pitch_class_iff note root (get_or (intervals_of mode) k 0) b).0 (sym q),
          ),
      λ s.
          let l : s.0 < length (intervals_of mode) = omega (arith, len, s.1) in
          let b : get_or (intervals_of mode) s.0 0 < 12 =
            (Climbs-bound 0 (intervals_of mode) s.0 c l).1 in
          contains_interval_complete (pitch_class note root) (intervals_of mode) s.0 l
            (sym ((pitch_class_iff note root (get_or (intervals_of mode) s.0 0) b).1 s.2)),
    )

module _ (mode root : ℕ) where
  scale_from-get :
      (k n i : ℕ)
      → i < length (scale_from mode root k n)
      → (n ≤ get_or (scale_from mode root k n) i 0)
        × (get_or (scale_from mode root k n) i 0 < n + k)
        × (in_scale mode root (get_or (scale_from mode root k n) i 0) ≡ true)
  unfolding scale_from
  scale_from-get zero n i h = absurd (omega arith)
  scale_from-get (suc k) n zero h = elim (Bool-cases (in_scale mode root n)) [
    | inl t ↦ rw t (omega arith, omega arith, t)
    | inr t ↦ rw t (ground (arith, scale_from-get k (suc n) 0))
  ]
  scale_from-get (suc k) n (suc i) h = elim (Bool-cases (in_scale mode root n)) [
    | inl t ↦ rw t (ground (arith, scale_from-get k (suc n) i))
    | inr t ↦ rw t (ground (arith, scale_from-get k (suc n) (suc i)))
  ]

  scale_from_complete :
      (k n x : ℕ)
      → n ≤ x
      → x < n + k
      → in_scale mode root x ≡ true
      → (i : ℕ) × (i < length (scale_from mode root k n))
        × (get_or (scale_from mode root k n) i 0 ≡ x)
  unfolding scale_from
  scale_from_complete zero n x l h s = absurd (omega arith)
  scale_from_complete (suc k) n x l h s = elim (Bool-cases (x == n)) [
    | inl e ↦
        let q : x ≡ n = (==_iff x n).0 e in
        let t : in_scale mode root n ≡ true = subst (λ z. in_scale mode root z ≡ true) q s in
        rw t (0, omega arith, sym q)
    | inr e ↦
        let (i, a, b) = scale_from_complete k (suc n) x (ground arith) (omega arith) s in
        elim (Bool-cases (in_scale mode root n)) [
          | inl t ↦ rw t (suc i, omega arith, b)
          | inr t ↦ rw t (i, a, b)
        ]
  ]

  scale_from_ascends :
      (k n i : ℕ)
      → suc i < length (scale_from mode root k n)
      → get_or (scale_from mode root k n) i 0 < get_or (scale_from mode root k n) (suc i) 0
  unfolding scale_from
  scale_from_ascends zero n i h = absurd (omega arith)
  scale_from_ascends (suc k) n zero h = elim (Bool-cases (in_scale mode root n)) [
    | inl t ↦ rw t (ground (arith, scale_from-get k (suc n) 0))
    | inr t ↦ rw t (ground (arith, scale_from_ascends k (suc n) 0))
  ]
  scale_from_ascends (suc k) n (suc i) h = elim (Bool-cases (in_scale mode root n)) [
    | inl t ↦ rw t (ground (arith, scale_from_ascends k (suc n) i))
    | inr t ↦ rw t (ground (arith, scale_from_ascends k (suc n) (suc i)))
  ]

-- For the seven modes: the candidates of a range are exactly the notes of the range that lie in the
-- mode on the root, in strictly ascending order.
pub scale_notes_iff :
    (mode root low high : ℕ)
    → mode < mode_count
    → ((x : ℕ)
        → ((i : ℕ) × (i < length (scale_notes mode root low high))
            × (get_or (scale_notes mode root low high) i 0 ≡ x))
          ↔ ((low ≤ x) × (x ≤ high) × IsInMode mode root x))
      × ((i : ℕ)
          → suc i < length (scale_notes mode root low high)
          → get_or (scale_notes mode root low high) i 0
            < get_or (scale_notes mode root low high) (suc i) 0)
unfolding scale_notes
scale_notes_iff mode root low high h = (
  (λ x. (
    (λ s.
        let (a, b, c) = scale_from-get mode root (suc high - low) low s.0 s.1 in
        let d : IsInMode mode root x = (in_scale_iff mode root x h).0 (ground (arith, c, s.2)) in
        (omega (arith, a, s.2), omega (arith, a, b, s.2), d)),
    λ s.
        scale_from_complete mode root (suc high - low) low x s.0 (omega (arith, s.0, s.1))
          ((in_scale_iff mode root x h).1 s.2),
  )),
  λ i l. scale_from_ascends mode root (suc high - low) low i l,
)

-- The pitch classes of one mode, or the next ones, belong to it: no gap is wider than two.
pair_in_mode : List ℕ → ℕ → Bool
unfolding contains_interval
pair_in_mode is zero = true
pair_in_mode is (suc p) =
    (contains_interval p is || contains_interval (suc p % 12) is) && pair_in_mode is p

pair_in_mode-lt :
    (is : List ℕ) (n p : ℕ)
    → pair_in_mode is n ≡ true
    → p < n
    → (contains_interval p is || contains_interval (suc p % 12) is) ≡ true
unfolding pair_in_mode
pair_in_mode-lt is zero p h l = absurd (omega arith)
pair_in_mode-lt is (suc n) p h l = elim (Bool-cases (p == n)) [
  | inl e ↦ rw ((==_iff p n).0 e) (ground arith)
  | inr e ↦ pair_in_mode-lt is n p (ground arith) (ground arith)
]

pair_in_mode_all : (m : Mode) → m < mode_count → pair_in_mode (intervals_of m) 12 ≡ true
unfolding pair_in_mode mode_intervals
pair_in_mode_all zero h = refl
pair_in_mode_all (suc zero) h = refl
pair_in_mode_all (suc (suc zero)) h = refl
pair_in_mode_all (suc (suc (suc zero))) h = refl
pair_in_mode_all (suc (suc (suc (suc zero)))) h = refl
pair_in_mode_all (suc (suc (suc (suc (suc zero))))) h = refl
pair_in_mode_all (suc (suc (suc (suc (suc (suc zero)))))) h = refl
pair_in_mode_all (suc (suc (suc (suc (suc (suc (suc m))))))) h = absurd (omega arith)

pitch_class-suc : (note root : ℕ) → pitch_class (suc note) root ≡ suc (pitch_class note root) % 12
unfolding pitch_class
pitch_class-suc note root = ground arith

pitch_class-lt : (note root : ℕ) → pitch_class note root < 12
unfolding pitch_class
pitch_class-lt note root = ground arith

one_of_two :
    (mode root note : ℕ)
    → mode < mode_count
    → (in_scale mode root note || in_scale mode root (suc note)) ≡ true
unfolding in_scale
one_of_two mode root note h = rw (pitch_class-suc note root) (
    pair_in_mode-lt (intervals_of mode) 12 (pitch_class note root) (pair_in_mode_all mode h)
      (pitch_class-lt note root))

-- A range of two notes or more has a candidate, in every mode and on every root.
pub scale_notes_nonempty :
    (mode root low high : ℕ)
    → mode < mode_count
    → low < high
    → 0 < length (scale_notes mode root low high)
unfolding scale_notes
scale_notes_nonempty mode root low high h l = elim (Bool-cases (in_scale mode root low)) [
  | inl t ↦ omega (
    arith,
    (scale_from_complete mode root (suc high - low) low low (omega arith) (omega arith) t).1,
  )
  | inr t ↦ omega (
    arith,
    (scale_from_complete mode root (suc high - low) low (suc low) (omega arith) (omega arith)
        (ground (arith, one_of_two mode root low h))).1,
  )
]
