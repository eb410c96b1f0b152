-- ===== src/Peer/Window.antt =====
-- internal/peer/host.go: the window of the notes that came in lately, by which a host knows a
-- repeated note. The map `duplicates` is a list of entries with unique keys; a new entry stands last.
pub mod Queue
pub mod Once
use go_musical_packets.Prelude.{
  ℕ, zero, suc, ◌+◌, ◌-◌, ◌*◌, ◌/◌, ◌%◌, ◌^◌, ◌≤◌, ◌<◌, bit_and, bit_or, ◌≡◌, refl, sym, ap, ◌∙◌,
  subst, ◌≢◌, ◌↔◌, ◌⊎◌, inl, inr, Bool, true, false, not, ◌&&◌, ◌||◌, Option, none, some, List, [],
  ◌∷◌, ◌++◌, map, arith, ltb, leb, ◌==◌, if◌then◌else◌, Bool-cases, Option-cases, is_some, if_cases,
  ltb→lt, lt→ltb, leb→le, ==_iff, length, get_elem?, get_or, take, drop, length-append, All,
  All-append, Result, ok, err, ◌>>=◌, ◌>>◌, refuse_if, map_err, Result-cases, ℤ, pos, negsuc, ltb_ℤ,
  leb_ℤ, to_int64, to_ℕ, Text, codes, text_eq, is_empty, text_lt, contains_text, text_eq_refl,
  text_eq→eq, text_eq_iff, text_lt_irrefl, text_lt_trans, text_lt-total,
}

abbrev pub Entry : Type 0
Entry = Text × ℕ

pub record Window : Type 0 where
  pub duplicates : List Entry
  pub order : List Entry  -- dupOrder

unfoldable pub lookup : Text → List Entry → Option ℕ
lookup id [] = none
lookup id ((key, time) ∷ m) = let later = lookup id m in if text_eq key id then some time else later

unfoldable pub remove : Text → List Entry → List Entry
remove id [] = []
remove id ((key, time) ∷ m) =
    let rest = remove id m in if text_eq key id then m else (key, time) ∷ rest

abbrev pub is_at : ℕ → Option ℕ → Bool
is_at time none = false
is_at time (some t) = t == time

-- An entry leaves the map if the map has it with the same time.
unfoldable pub forget : Entry → List Entry → List Entry
forget (id, time) m = if is_at time (lookup id m) then remove id m else m

-- The loop of pruneDuplicatesLocked: an entry of before `now` less `ttl` leaves.
unfoldable pub prune_from : ℕ → ℕ → List Entry → List Entry → Window
prune_from ttl now m [] = record { duplicates = m; order = [] }
prune_from ttl now m ((id, time) ∷ order) =
    let rest = prune_from ttl now (forget (id, time) m) order in
    if ltb (time + ttl) now then rest else record { duplicates = m; order = (id, time) ∷ order }

-- pruneDuplicatesLocked.
unfoldable pub prune_duplicates : ℕ → ℕ → Window → Window
prune_duplicates ttl now w = prune_from ttl now w.duplicates w.order

-- The loop of duplicate that makes room.
unfoldable pub trim_from : ℕ → List Entry → List Entry → Window
trim_from capacity m [] = record { duplicates = m; order = [] }
trim_from capacity m (e ∷ order) =
    let rest = trim_from capacity (forget e m) order in
    if ltb capacity (length (e ∷ order)) then rest else record { duplicates = m; order = e ∷ order }

abbrev pub add_entry : ℕ → Text → ℕ → Window → Window
add_entry capacity id now w =
    trim_from capacity (w.duplicates ++ ((id, now) ∷ [])) (w.order ++ ((id, now) ∷ []))

-- Host.duplicate.
unfoldable pub duplicate : ℕ → ℕ → Text → ℕ → Window → Window × Bool
duplicate capacity ttl id now w =
    let fresh = prune_duplicates ttl now w in
    if is_some (lookup id fresh.duplicates)
    then (fresh, true)
    else (add_entry capacity id now fresh, false)
