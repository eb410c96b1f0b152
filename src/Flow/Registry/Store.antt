-- ===== src/Flow/Registry/Store.antt =====
-- The map and the heap as finite sets: what a lookup finds after each write.
use go_musical_packets.Prelude.{
  suc, ◌≡◌, refl, subst, inl, inr, true, false, not, ◌&&◌, none, some, List, [], ◌∷◌, arith,
  if◌then◌else◌, Bool-cases, is_some, length, All, Text, text_eq, contains_text, text_eq→eq,
  text_eq_iff,
}
use go_musical_packets.Flow.Registry.{find, drop_entry, store, delete, Snapshot}

-- No two entries share an ID.
abbrev pub Distinct : List Snapshot → Type 0
Distinct [] = Unit
Distinct (s ∷ fs) = (find s.id fs ≡ none) × Distinct fs

abbrev pub DistinctIds : List Text → Type 0
DistinctIds [] = Unit
DistinctIds (x ∷ xs) = (contains_text x xs ≡ false) × DistinctIds xs

pub find-id : (id : Text) (fs : List Snapshot) (s : Snapshot) → find id fs ≡ some s → s.id ≡ id
unfolding find
find-id id [] s h = absurd (cc)
find-id id (t ∷ fs) s h = ground (arith, find-id id fs s, text_eq→eq t.id id)

pub find-delete :
    (j id : Text) (fs : List Snapshot)
    → find j (delete id fs) ≡ (if text_eq id j then none else find j fs)
unfolding find delete
find-delete j id [] = ground arith
find-delete j id (s ∷ fs) =
    ground (arith, find-delete j id fs, text_eq_iff s.id id, text_eq_iff s.id j, text_eq_iff id j)

pub find-store :
    (j : Text) (t : Snapshot) (fs : List Snapshot)
    → is_some (find t.id fs) ≡ true
    → find j (store t fs) ≡ (if text_eq t.id j then some t else find j fs)
unfolding find store
find-store j t [] h = absurd (cc)
find-store j t (s ∷ fs) h =
    ground (arith, find-store j t fs, text_eq_iff s.id t.id, text_eq_iff s.id j, text_eq_iff t.id j)

pub Distinct-delete : (id : Text) (fs : List Snapshot) → Distinct fs → Distinct (delete id fs)
unfolding delete
Distinct-delete id [] h = tt
Distinct-delete id (s ∷ fs) h = ground (arith, Distinct-delete id fs h.1, find-delete s.id id fs)

find-store-none :
    (j : Text) (t : Snapshot) (fs : List Snapshot) → find j fs ≡ none → find j (store t fs) ≡ none
unfolding find store
find-store-none j t [] h = refl
find-store-none j t (s ∷ fs) h =
    ground
      (arith, find-store-none j t fs, text_eq_iff s.id t.id, text_eq_iff s.id j, text_eq_iff t.id j)

pub Distinct-store : (t : Snapshot) (fs : List Snapshot) → Distinct fs → Distinct (store t fs)
unfolding store
Distinct-store t [] h = tt
Distinct-store t (s ∷ fs) h =
    ground (arith, Distinct-store t fs h.1, find-store-none s.id t fs h.0, text_eq→eq s.id t.id)

pub length-store : (t : Snapshot) (fs : List Snapshot) → length (store t fs) ≡ length fs
unfolding store
length-store t [] = refl
length-store t (s ∷ fs) = ground (arith, length-store t fs)

delete-none : (id : Text) (fs : List Snapshot) → find id fs ≡ none → delete id fs ≡ fs
unfolding delete find
delete-none id [] h = refl
delete-none id (s ∷ fs) h = ground (arith, delete-none id fs)

pub length-delete :
    (id : Text) (fs : List Snapshot)
    → Distinct fs
    → is_some (find id fs) ≡ true
    → suc (length (delete id fs)) ≡ length fs
unfolding delete find
length-delete id [] d h = absurd (cc)
length-delete id (s ∷ fs) d h =
    ground (arith, length-delete id fs d.1, text_eq→eq s.id id, delete-none id fs)

pub All-delete :
    (P : Snapshot → Type 0) (id : Text) (fs : List Snapshot) → All P fs → All P (delete id fs)
unfolding delete
All-delete P id [] h = tt
All-delete P id (s ∷ fs) h = elim (Bool-cases (text_eq s.id id)) [
  | inl e ↦ rw e (All-delete P id fs h.1)
  | inr e ↦ rw e (h.0, All-delete P id fs h.1)
]

pub All-store :
    (P : Snapshot → Type 0) (t : Snapshot) (fs : List Snapshot)
    → P t
    → All P fs
    → All P (store t fs)
unfolding store
All-store P t [] p h = tt
All-store P t (s ∷ fs) p h = elim (Bool-cases (text_eq s.id t.id)) [
  | inl e ↦ rw e (p, h.1)
  | inr e ↦ rw e (h.0, All-store P t fs p h.1)
]

pub All-find :
    (P : Snapshot → Type 0) (id : Text) (fs : List Snapshot) (s : Snapshot)
    → All P fs
    → find id fs ≡ some s
    → P s
unfolding find
All-find P id [] s h e = absurd (cc)
All-find P id (t ∷ fs) s h e = elim (Bool-cases (text_eq t.id id)) [
  | inl q ↦ subst P (ground arith) h.0
  | inr q ↦ All-find P id fs s h.1 (ground arith)
]

pub contains_text-drop_entry :
    (j id : Text) (xs : List Text)
    → DistinctIds xs
    → contains_text j (drop_entry id xs) ≡ (contains_text j xs && not (text_eq id j))
unfolding contains_text drop_entry
contains_text-drop_entry j id [] d = refl
contains_text-drop_entry j id (x ∷ xs) d = ground (
  arith,
  contains_text-drop_entry j id xs d.1,
  text_eq_iff x id,
  text_eq_iff x j,
  text_eq_iff id j,
)

pub DistinctIds-drop_entry :
    (id : Text) (xs : List Text) → DistinctIds xs → DistinctIds (drop_entry id xs)
unfolding drop_entry
DistinctIds-drop_entry id [] d = tt
DistinctIds-drop_entry id (x ∷ xs) d =
    ground (arith, DistinctIds-drop_entry id xs d.1, contains_text-drop_entry x id xs d.1)

pub length-drop_entry :
    (id : Text) (xs : List Text)
    → contains_text id xs ≡ true
    → suc (length (drop_entry id xs)) ≡ length xs
unfolding drop_entry contains_text
length-drop_entry id [] h = absurd (cc)
length-drop_entry id (x ∷ xs) h = ground (arith, length-drop_entry id xs)
