-- ===== src/Midi/Scheduler/Keeps.antt =====
-- The limits on the active notes of internal/midi/scheduler.go.

use go_musical_packets.Midi.Message.Laws.{IsKey}
use go_musical_packets.Prelude.{
  ℕ, ◌≤◌, ◌<◌, ◌≡◌, refl, ◌∙◌, true, ◌&&◌, none, List, [], ◌∷◌, arith, ◌==◌, if◌then◌else◌, is_some,
  length,
}
use go_musical_packets.Midi.Scheduler.{
  Scheduler, find_active, delete_active, same_key, prune_rate_window, Active,
}

-- No two active notes share a key, and each key is a MIDI key.
abbrev pub Keyed : List Active → Type 0
Keyed [] = Unit
Keyed (a ∷ xs) = IsKey a.channel a.note × (find_active a.channel a.note xs ≡ none) × Keyed xs

pub record IsScheduler (s : Scheduler) : Type 0 where
  pub keyed : Keyed s.active
  pub polyphony : length s.active ≤ s.maximum_polyphony
  pub rate : length s.recent ≤ s.maximum_notes_per_second
  pub silent : s.closed ≡ true → s.active ≡ []

same_key-eq : (c n : ℕ) (a : Active) → same_key c n a ≡ true → (a.channel ≡ c) × (a.note ≡ n)
unfolding same_key
same_key-eq c n a h = ground arith

pub find-delete_active :
    (c n c' n' : ℕ) (xs : List Active)
    → find_active c' n' (delete_active c n xs)
      ≡ (if (c == c') && (n == n') then none else find_active c' n' xs)
unfolding find_active delete_active same_key
find-delete_active c n c' n' [] = ground arith
find-delete_active c n c' n' (a ∷ xs) = ground (arith, find-delete_active c n c' n' xs)

pub Keyed-delete : (c n : ℕ) (xs : List Active) → Keyed xs → Keyed (delete_active c n xs)
unfolding delete_active
Keyed-delete c n [] h = tt
Keyed-delete c n (a ∷ xs) h =
    ground (arith, Keyed-delete c n xs h.2, find-delete_active c n a.channel a.note xs)

pub length-delete_active : (c n : ℕ) (xs : List Active) → length (delete_active c n xs) ≤ length xs
unfolding delete_active
length-delete_active c n [] = omega arith
length-delete_active c n (a ∷ xs) = ground (arith, length-delete_active c n xs)

pub length-delete_active_found :
    (c n : ℕ) (xs : List Active)
    → is_some (find_active c n xs) ≡ true
    → length (delete_active c n xs) < length xs
unfolding delete_active find_active
length-delete_active_found c n [] h = absurd (cc)
length-delete_active_found c n (a ∷ xs) h =
    ground (arith, length-delete_active c n xs, length-delete_active_found c n xs)

pub length-prune : (now : ℕ) (ts : List ℕ) → length (prune_rate_window now ts) ≤ length ts
unfolding prune_rate_window
length-prune now [] = omega arith
length-prune now (t ∷ ts) = ground (arith, length-prune now ts)

pub find-delete_same : (c n : ℕ) (xs : List Active) → find_active c n (delete_active c n xs) ≡ none
find-delete_same c n xs = ground (arith, find-delete_active c n c n xs)

pub nothing_left : (xs : List Active) → length xs ≤ 0 → xs ≡ []
nothing_left [] h = refl
nothing_left (a ∷ xs) h = absurd (omega arith)

-- What an operation keeps: the configuration, the limits, and the closed flag.
pub record Keeps (s t : Scheduler) : Type 0 where
  pub same_rate : t.maximum_notes_per_second ≡ s.maximum_notes_per_second
  pub same_polyphony : t.maximum_polyphony ≡ s.maximum_polyphony
  pub same_closed : t.closed ≡ s.closed
  pub same_recent : t.recent ≡ s.recent
  pub fewer : length t.active ≤ length s.active
  pub still_keyed : Keyed s.active → Keyed t.active
  pub absent : (c n : ℕ) → find_active c n s.active ≡ none → find_active c n t.active ≡ none

pub Keeps-refl : (s : Scheduler) → Keeps s s
Keeps-refl s = record {
  same_rate = refl;
  same_polyphony = refl;
  same_closed = refl;
  same_recent = refl;
  fewer = omega arith;
  still_keyed = λ k. k;
  absent = λ c n h. h;
}

pub Keeps-trans : (s t u : Scheduler) → Keeps s t → Keeps t u → Keeps s u
Keeps-trans s t u h k = record {
  same_rate = k.same_rate ∙ h.same_rate;
  same_polyphony = k.same_polyphony ∙ h.same_polyphony;
  same_closed = k.same_closed ∙ h.same_closed;
  same_recent = k.same_recent ∙ h.same_recent;
  fewer = omega (arith, h.fewer, k.fewer);
  still_keyed = λ z. k.still_keyed (h.still_keyed z);
  absent = λ c n z. k.absent c n (h.absent c n z);
}

pub Keeps-clear : (s : Scheduler) → Keeps s (record s { active = [] })
unfolding find_active
Keeps-clear s = record {
  same_rate = refl;
  same_polyphony = refl;
  same_closed = refl;
  same_recent = refl;
  fewer = omega arith;
  still_keyed = λ k. tt;
  absent = λ c n h. refl;
}

pub Keeps-delete :
    (c n : ℕ) (s : Scheduler) → Keeps s (record s { active = delete_active c n s.active })
Keeps-delete c n s = record {
  same_rate = refl;
  same_polyphony = refl;
  same_closed = refl;
  same_recent = refl;
  fewer = length-delete_active c n s.active;
  still_keyed = Keyed-delete c n s.active;
  absent = λ c' n' h. ground (arith, find-delete_active c n c' n' s.active);
}
