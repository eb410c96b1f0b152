-- ===== src/Music/Mode.antt =====
-- internal/music/mode.go: the seven diatonic modes. A Mode is a uint8, valid below 7.
pub mod Laws
use go_musical_packets.Decimal.{decimal}
use go_musical_packets.Prelude.{
  ℕ, zero, suc, ◌+◌, ◌-◌, ◌*◌, ◌/◌, ◌%◌, ◌^◌, ◌≤◌, ◌<◌, bit_and, bit_or, ◌≡◌, refl, sym, ap, ◌∙◌,
  subst, ◌≢◌, ◌↔◌, ◌⊎◌, inl, inr, Bool, true, false, not, ◌&&◌, ◌||◌, Option, none, some, List, [],
  ◌∷◌, ◌++◌, map, arith, ltb, leb, ◌==◌, if◌then◌else◌, Bool-cases, Option-cases, is_some, ltb→lt,
  lt→ltb, leb→le, ==_iff, length, get_elem?, get_or, take, drop, length-append, All, All-append,
  Result, ok, err, ◌>>=◌, ◌>>◌, refuse_if, map_err, Result-cases, ℤ, pos, negsuc, ltb_ℤ, leb_ℤ,
  to_int64, to_ℕ, Text, codes, text_eq, is_empty, text_lt, text_eq_refl, text_eq→eq, text_eq_iff,
  text_lt_irrefl, text_lt_trans, text_lt-total,
}

abbrev pub Mode : Type 0
Mode = ℕ

abbrev pub mode_count : Mode
mode_count = 7

unfoldable pub mode_names : List Text
mode_names =
    codes "ionian"
    ∷ codes "dorian"
    ∷ codes "phrygian"
    ∷ codes "lydian"
    ∷ codes "mixolydian"
    ∷ codes "aeolian"
    ∷ codes "locrian"
    ∷ []

unfoldable pub mode_intervals : List (List ℕ)
mode_intervals =
    (0 ∷ 2 ∷ 4 ∷ 5 ∷ 7 ∷ 9 ∷ 11 ∷ [])
    ∷ (0 ∷ 2 ∷ 3 ∷ 5 ∷ 7 ∷ 9 ∷ 10 ∷ [])
    ∷ (0 ∷ 1 ∷ 3 ∷ 5 ∷ 7 ∷ 8 ∷ 10 ∷ [])
    ∷ (0 ∷ 2 ∷ 4 ∷ 6 ∷ 7 ∷ 9 ∷ 11 ∷ [])
    ∷ (0 ∷ 2 ∷ 4 ∷ 5 ∷ 7 ∷ 9 ∷ 10 ∷ [])
    ∷ (0 ∷ 2 ∷ 3 ∷ 5 ∷ 7 ∷ 8 ∷ 10 ∷ [])
    ∷ (0 ∷ 1 ∷ 3 ∷ 5 ∷ 6 ∷ 8 ∷ 10 ∷ [])
    ∷ []

unfoldable pub is_mode : Mode → Bool
is_mode m = ltb m mode_count

unfoldable pub mode_string : Mode → Text
unfolding is_mode mode_names
mode_string m =
    if is_mode m then get_or mode_names m [] else codes "mode(" ++ (decimal m ++ codes ")")

-- The loop of ParseMode; `mode` is the index of the first name of the list.
find_mode : Text → Mode → List Text → Option Mode
find_mode s mode [] = none
find_mode s mode (name ∷ names) = if text_eq s name then some mode else find_mode s (suc mode) names

unfoldable pub parse_mode : Text → Option Mode
unfolding find_mode mode_names
parse_mode s = find_mode s 0 mode_names

pub data DegreeError : Type 0 where
  invalid_mode negative_degree : DegreeError

-- The product and the sum are ints on 64 bits and wrap.
unfoldable pub interval : Mode → ℤ → Result DegreeError ℤ
unfolding is_mode mode_intervals
interval m degree = do
  refuse_if (not (is_mode m)) invalid_mode
  refuse_if (ltb_ℤ degree (pos 0)) negative_degree
  ok (to_int64 (to_ℕ degree / 7 * 12 + get_or (get_or mode_intervals m []) (to_ℕ degree % 7) 0))

unfoldable pub modes : List Mode
modes = 0 ∷ 1 ∷ 2 ∷ 3 ∷ 4 ∷ 5 ∷ 6 ∷ []
