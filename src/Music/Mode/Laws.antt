-- ===== src/Music/Mode/Laws.antt =====
-- ParseMode, String and Interval of internal/music/mode.go.
use go_musical_packets.Flow.Selector.{valid_musical_mode}
use go_musical_packets.Prelude.{
  ◌^◌, inr, ap, ltb→lt, inl, ◌∙◌, ok, ltb, ◌*◌, Bool-cases, pos, ◌+◌, ◌/◌, ◌%◌, ℕ, zero, suc, ◌≤◌,
  ◌<◌, ◌≡◌, refl, ◌↔◌, some, List, [], ◌∷◌, arith, is_some, length, get_or, Text, codes, text_eq,
  text_eq→eq,
}
use go_musical_packets.Music.Mode.{
  interval, mode_string, mode_count, parse_mode, mode_intervals, Mode,
}

parse_mode-mode_string : (m : Mode) → m < mode_count → parse_mode (mode_string m) ≡ some m
unfolding parse_mode mode_string text_eq
parse_mode-mode_string zero h = refl
parse_mode-mode_string (suc zero) h = refl
parse_mode-mode_string (suc (suc zero)) h = refl
parse_mode-mode_string (suc (suc (suc zero))) h = refl
parse_mode-mode_string (suc (suc (suc (suc zero)))) h = refl
parse_mode-mode_string (suc (suc (suc (suc (suc zero))))) h = refl
parse_mode-mode_string (suc (suc (suc (suc (suc (suc zero)))))) h = refl
parse_mode-mode_string (suc (suc (suc (suc (suc (suc (suc m))))))) h = absurd (omega arith)

mode_string-parse_mode :
    (s : Text) (m : Mode) → parse_mode s ≡ some m → (m < mode_count) × (mode_string m ≡ s)
unfolding parse_mode mode_string
mode_string-parse_mode s m h = ground (
  arith,
  text_eq→eq s (codes "ionian"),
  text_eq→eq s (codes "dorian"),
  text_eq→eq s (codes "phrygian"),
  text_eq→eq s (codes "lydian"),
  text_eq→eq s (codes "mixolydian"),
  text_eq→eq s (codes "aeolian"),
  text_eq→eq s (codes "locrian"),
)

-- ParseMode succeeds exactly on the names of the seven modes, and returns the mode of that name.
pub parse_mode_iff :
    (s : Text) (m : Mode) → (parse_mode s ≡ some m) ↔ ((m < mode_count) × (mode_string m ≡ s))
parse_mode_iff s m = (mode_string-parse_mode s m, λ h. rw (← h.1) (parse_mode-mode_string m h.0))

-- What the selector calls a valid mode is what ParseMode accepts.
pub valid_musical_mode-parse_mode : (s : Text) → valid_musical_mode s ≡ is_some (parse_mode s)
unfolding valid_musical_mode parse_mode
valid_musical_mode-parse_mode s = ground arith

-- The numbers climb strictly from `lo` and stay below 12.
abbrev pub Climbs : ℕ → List ℕ → Type 0
Climbs lo [] = lo ≤ 12
Climbs lo (x ∷ xs) = (lo ≤ x) × Climbs (suc x) xs

abbrev pub intervals_of : Mode → List ℕ
intervals_of m = get_or mode_intervals m []

pub intervals_of-Climbs :
    (m : Mode)
    → m < mode_count
    → Climbs 0 (intervals_of m) × (length (intervals_of m) ≡ 7) × (get_or (intervals_of m) 0 1 ≡ 0)
unfolding mode_intervals
intervals_of-Climbs zero h = omega arith
intervals_of-Climbs (suc zero) h = omega arith
intervals_of-Climbs (suc (suc zero)) h = omega arith
intervals_of-Climbs (suc (suc (suc zero))) h = omega arith
intervals_of-Climbs (suc (suc (suc (suc zero)))) h = omega arith
intervals_of-Climbs (suc (suc (suc (suc (suc zero))))) h = omega arith
intervals_of-Climbs (suc (suc (suc (suc (suc (suc zero)))))) h = omega arith
intervals_of-Climbs (suc (suc (suc (suc (suc (suc (suc m))))))) h = absurd (omega arith)

pub Climbs-bound :
    (lo : ℕ) (xs : List ℕ) (i : ℕ)
    → Climbs lo xs
    → i < length xs
    → (lo ≤ get_or xs i 0) × (get_or xs i 0 < 12)
Climbs-bound lo [] i c h = absurd (omega arith)
Climbs-bound lo (x ∷ []) zero c h = omega arith
Climbs-bound lo (x ∷ (y ∷ ys)) zero c h =
    omega (arith, Climbs-bound (suc x) (y ∷ ys) 0 c.1 (omega arith))
Climbs-bound lo (x ∷ xs) (suc i) c h = omega (arith, Climbs-bound (suc x) xs i c.1 (omega arith))

Climbs-step :
    (lo : ℕ) (xs : List ℕ) (i : ℕ)
    → Climbs lo xs
    → suc i < length xs
    → get_or xs i 0 < get_or xs (suc i) 0
Climbs-step lo [] i c h = absurd (omega arith)
Climbs-step lo (x ∷ xs) zero c h = (Climbs-bound (suc x) xs 0 c.1 (omega arith)).0
Climbs-step lo (x ∷ xs) (suc i) c h = Climbs-step (suc x) xs i c.1 (omega arith)

abbrev semitones : Mode → ℕ → ℕ
semitones m n = n / 7 * 12 + get_or (intervals_of m) (n % 7) 0

semitones-step : (m n : ℕ) → m < mode_count → semitones m n < semitones m (suc n)
semitones-step m n h =
    let (c, len, first) = intervals_of-Climbs m h in
    elim (Bool-cases (ltb (n % 7) 6)) [
      | inl r ↦
          rw (mod_next n (ltb→lt (n % 7) 6 r), div_next n (ltb→lt (n % 7) 6 r))
            (omega (arith, Climbs-step 0 (intervals_of m) (n % 7) c (ground arith)))
      | inr r ↦
          let e : n % 7 ≡ 6 = ground arith in
          let z : suc n % 7 ≡ 0 = omega (arith, e) in
          rw (e, z)
            (omega
              (arith, e, Climbs-bound 0 (intervals_of m) 6 c (omega (arith, len)), div_wrap n e))
    ]
  where
    mod_next : (k : ℕ) → k % 7 < 6 → suc k % 7 ≡ suc (k % 7)
    mod_next k l = omega arith

    div_next : (k : ℕ) → k % 7 < 6 → suc k / 7 ≡ k / 7
    div_next k l = omega arith

    div_wrap : (k : ℕ) → k % 7 ≡ 6 → suc k / 7 ≡ suc (k / 7)
    div_wrap k l = omega arith

interval-ok :
    (m n : ℕ) → m < mode_count → n < 2 ^ 62 → interval m (pos n) ≡ ok (pos (semitones m n))
unfolding interval
interval-ok m n h k =
    let (c, len, _) = intervals_of-Climbs m h in
    let low : get_or (intervals_of m) (n % 7) 0 < 12 =
      (Climbs-bound 0 (intervals_of m) (n % 7) c (omega (arith, len))).1 in
    let fits : semitones m n < 2 ^ 63 = omega (arith, low, k) in ground (arith, fits)

semitones-octave : (m n : ℕ) → semitones m (n + 7) ≡ semitones m n + 12
semitones-octave m n = let q : (n + 7) % 7 ≡ n % 7 = omega arith in rw q (omega arith)

-- Each mode is a scale: every degree from 0 has an interval, the next degree lies strictly above, and
-- seven degrees up is one octave up. The degrees are below 2 ^ 62, where no interval overflows.
pub interval_scale :
    (m n : ℕ)
    → m < mode_count
    → n + 7 < 2 ^ 62
    → (a : ℕ) × (b : ℕ) × (interval m (pos n) ≡ ok (pos a))
      × (interval m (pos (suc n)) ≡ ok (pos b))
      × (a < b)
      × (interval m (pos (n + 7)) ≡ ok (pos (a + 12)))
interval_scale m n h k = (
  semitones m n,
  semitones m (suc n),
  interval-ok m n h (omega (arith, k)),
  interval-ok m (suc n) h (omega (arith, k)),
  semitones-step m n h,
  interval-ok m (n + 7) h k ∙ ap (λ i. ok (pos i)) (semitones-octave m n),
)
