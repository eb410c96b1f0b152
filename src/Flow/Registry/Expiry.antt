-- ===== src/Flow/Registry/Expiry.antt =====
-- Expire of internal/flow/registry.go, and histories of Observe and Expire.
use go_musical_packets.Flow.Registry.Lookup.{observed-keeps}
use go_musical_packets.Flow.Key.{Digest}
use go_musical_packets.Packet.{Event}
use go_musical_packets.Flow.Registry.Order.{root-none, root-IsLeast, root-member}
use go_musical_packets.Flow.Registry.Store.{find-delete, length-drop_entry}
use go_musical_packets.Flow.Registry.Invariant.{delete-IsRegistry, IsRegistry}
use go_musical_packets.Prelude.{
  to_ℕ, err, ok, Result-cases, sym, contains_text, refl, true, subst, Result, zero, leb→le,
  text_eq→eq, text_eq, Bool-cases, none, ◌∷◌, if◌then◌else◌, [], ℕ, suc, ◌+◌, ◌≤◌, ◌<◌, ◌≡◌, inl,
  inr, false, some, List, arith, Option-cases, length, All, Text,
}
use go_musical_packets.Flow.Registry.{
  find, observe, RegistryConfig, RegistryError, new_registry, expire, is_stale, expire_loop,
  entry_less, root, drop_entry, delete, pop_oldest, Registry, get, Snapshot,
}

-- The heap without an entry has one entry less.
length-oldest :
    (r : Registry) (s : Snapshot) (r' : Registry)
    → pop_oldest r ≡ some (s, r')
    → (r' ≡ record r { flows = delete s.id r.flows; oldest = drop_entry s.id r.oldest })
      × (root r.flows r.oldest ≡ some s)
      × (length r.oldest ≡ suc (length r'.oldest))
unfolding pop_oldest
length-oldest r s r' h = elim (Option-cases (root r.flows r.oldest)) [
  | inl e ↦ absurd (ground (arith, e))
  | inr (x, e) ↦
      let l = length-drop_entry x.id r.oldest (root-member r.flows r.oldest x e).1 in
      (ground (arith, e), ground (arith, e), ground (arith, e, l))
]

-- A flow that Expire keeps.
abbrev pub IsRecent : Registry → ℕ → Snapshot → Type 0
IsRecent r now s = now < s.last_seen + r.ttl

-- What the loop of Expire leaves: the recent flows, as they were; it returns the others.
pub record Expired (r : Registry) (now : ℕ) (out : Registry × List Snapshot) : Type 0 where
  pub keeps : IsRegistry out.0
  pub recent_kept :
      (j : Text) (s : Snapshot) → get r j ≡ some s → IsRecent r now s → get out.0 j ≡ some s
  pub rest_recent :
      (j : Text) (s : Snapshot) → get out.0 j ≡ some s → IsRecent r now s × (get r j ≡ some s)
  pub stale_returned : All (λ s. (get r s.id ≡ some s) × (s.last_seen + r.ttl ≤ now)) out.1
  pub accounted : length r.flows ≡ length out.0.flows + length out.1

not_stale_all :
    (r : Registry) (now : ℕ) (s : Snapshot)
    → IsRegistry r
    → root r.flows r.oldest ≡ some s
    → IsRecent r now s
    → (j : Text) (t : Snapshot) → get r j ≡ some t
    → IsRecent r now t
unfolding get
not_stale_all r now s v q l j t f =
    let least : entry_less t s ≡ false =
      root-IsLeast r.flows r.oldest s v.ordered q j t (ground (arith, v.same j)) f in
    unfold entry_less in ground (arith, least)

Expired-nothing :
    (r : Registry) (now : ℕ)
    → IsRegistry r
    → ((j : Text) (t : Snapshot) → get r j ≡ some t → IsRecent r now t)
    → Expired r now (r, [])
Expired-nothing r now v h = record {
  keeps = v;
  recent_kept = λ j s f l. f;
  rest_recent = λ j s f. (h j s f, f);
  stale_returned = tt;
  accounted = omega arith;
}

abbrev without : Registry → Snapshot → Registry
without r s = record r { flows = delete s.id r.flows; oldest = drop_entry s.id r.oldest }

get-without :
    (r : Registry) (s : Snapshot) (j : Text)
    → get (without r s) j ≡ (if text_eq s.id j then none else get r j)
unfolding get
get-without r s j = find-delete j s.id r.flows

returned-without :
    (r : Registry) (s : Snapshot) (now : ℕ) (xs : List Snapshot)
    → All (λ t. (get (without r s) t.id ≡ some t) × (t.last_seen + r.ttl ≤ now)) xs
    → All (λ t. (get r t.id ≡ some t) × (t.last_seen + r.ttl ≤ now)) xs
returned-without r s now [] h = tt
returned-without r s now (x ∷ xs) h =
    (ground (arith, get-without r s x.id), returned-without r s now xs h.1)

Expired-cons :
    (r : Registry) (s : Snapshot) (now : ℕ) (out : Registry × List Snapshot)
    → IsRegistry r
    → get r s.id ≡ some s
    → s.last_seen + r.ttl ≤ now
    → Expired (without r s) now out
    → Expired r now (out.0, s ∷ out.1)
Expired-cons r s now out v f stale x = record {
  keeps = x.keeps;
  recent_kept = λ j t g l.
      x.recent_kept j t
        (elim (Bool-cases (text_eq s.id j)) [
          | inl e ↦ absurd (ground (arith, text_eq→eq s.id j, f))
          | inr e ↦ rw (get-without r s j, e) g
        ])
        l;
  rest_recent =
      λ j t g. let (l, q) = x.rest_recent j t g in (l, ground (arith, get-without r s j, q));
  stale_returned = ((f, stale), returned-without r s now out.1 x.stale_returned);
  accounted = omega (arith, x.accounted, (delete-IsRegistry r s v (unfold get in f)).1);
}

no_root :
    (r : Registry)
    → IsRegistry r
    → root r.flows r.oldest ≡ none
    → (now : ℕ) (j : Text) (t : Snapshot) → get r j ≡ some t
    → IsRecent r now t
unfolding get
no_root r v e now j t f =
    absurd (ground (arith, v.same j, f, root-none r.flows r.oldest j v.same e))

empty-root : (fs : List Snapshot) (ids : List Text) → length ids ≤ 0 → root fs ids ≡ none
unfolding root
empty-root fs [] h = refl
empty-root fs (x ∷ ids) h = absurd (omega arith)

-- One round of the loop, by the root that it meets.
loop-none :
    (fuel : ℕ) (r : Registry) (now : ℕ)
    → root r.flows r.oldest ≡ none
    → expire_loop (suc fuel) r now ≡ (r, [])
unfolding expire_loop pop_oldest
loop-none fuel r now e = ground (arith, e)

loop-recent :
    (fuel : ℕ) (r : Registry) (now : ℕ) (s : Snapshot)
    → root r.flows r.oldest ≡ some s
    → is_stale r now s ≡ false
    → expire_loop (suc fuel) r now ≡ (r, [])
unfolding expire_loop pop_oldest
loop-recent fuel r now s e t = ground (arith, e)

loop-stale :
    (fuel : ℕ) (r : Registry) (now : ℕ) (s : Snapshot)
    → root r.flows r.oldest ≡ some s
    → is_stale r now s ≡ true
    → expire_loop (suc fuel) r now
      ≡ ((expire_loop fuel (without r s) now).0, s ∷ (expire_loop fuel (without r s) now).1)
unfolding expire_loop pop_oldest
loop-stale fuel r now s e t = ground (arith, e)

loop-end : (r : Registry) (now : ℕ) → expire_loop zero r now ≡ (r, [])
unfolding expire_loop
loop-end r now = refl

expire_loop-Expired :
    (fuel : ℕ) (r : Registry) (now : ℕ)
    → IsRegistry r
    → length r.oldest ≤ fuel
    → Expired r now (expire_loop fuel r now)
expire_loop-Expired zero r now v h =
    subst (Expired r now) (sym (loop-end r now))
      (Expired-nothing r now v (no_root r v (empty-root r.flows r.oldest h) now))
expire_loop-Expired (suc fuel) r now v h = elim (Option-cases (root r.flows r.oldest)) [
  | inl e ↦
      subst (Expired r now) (sym (loop-none fuel r now e))
        (Expired-nothing r now v (no_root r v e now))
  | inr (s, e) ↦
      let member = root-member r.flows r.oldest s e in
      let shorter = length-drop_entry s.id r.oldest member.1 in
      let rest =
        expire_loop-Expired fuel (without r s) now (delete-IsRegistry r s v member.0).0
          (omega arith) in
      elim (Bool-cases (is_stale r now s)) [
        | inl stale ↦ subst (Expired r now) (sym (loop-stale fuel r now s e stale)) (
            Expired-cons r s now (expire_loop fuel (without r s) now) v (unfold get in member.0)
              (unfold is_stale in leb→le _ _ stale) rest)
        | inr recent ↦ subst (Expired r now) (sym (loop-recent fuel r now s e recent)) (
            Expired-nothing r now v
              (not_stale_all r now s v e (unfold is_stale in ground (arith, recent))))
      ]
]

-- Expire keeps a registry well formed. It leaves exactly the flows that were seen less than the TTL
-- before `now`, unchanged; it returns flows of the registry that are older, as many as it removed.
pub expire-Expired : (r : Registry) (now : ℕ) → IsRegistry r → Expired r now (expire r now)
unfolding expire
expire-Expired r now v = expire_loop-Expired (length r.oldest) r now v (omega arith)

-- A call of the pipeline; a packet that Observe refuses leaves the registry as it was.
pub data Call : Type 0 where
  observes : Event → Call
  expires : ℕ → Call

abbrev after {ℓ} : {A : Type ℓ} → Registry → Result RegistryError (Registry × A) → Registry
after r (ok out) = out.0
after r (err e) = r

unfoldable pub step : Digest → Registry → Call → Registry
step d r (observes e) = after r (observe d r e)
step d r (expires now) = (expire r now).0

unfoldable pub run : Digest → Registry → List Call → Registry
run d r [] = r
run d r (c ∷ cs) = run d (step d r c) cs

pub new_registry-IsRegistry :
    (c : RegistryConfig) (r : Registry) → new_registry c ≡ ok r → IsRegistry r
unfolding new_registry contains_text find
new_registry-IsRegistry c r h = subst IsRegistry (ground arith) (empty (ground arith))
  where
    empty :
        0 < to_ℕ c.capacity
        → IsRegistry (record {
          seed = c.seed;
          capacity = to_ℕ c.capacity;
          ttl = to_ℕ c.ttl;
          flows = [];
          oldest = [];
        })
    empty p = record {
      distinct = tt;
      distinct_ids = tt;
      ordered = tt;
      same = λ id. refl;
      positive = p;
      within = omega arith;
      snapshots = tt;
    }

step-IsRegistry : (d : Digest) (r : Registry) (c : Call) → IsRegistry r → IsRegistry (step d r c)
unfolding step
step-IsRegistry d r (expires now) v = (expire-Expired r now v).keeps
step-IsRegistry d r (observes e) v = elim (Result-cases (observe d r e)) [
  | inr (x, h) ↦ rw h v
  | inl (out, h) ↦ rw h (observed-keeps d r e out v h)
]

run_from-IsRegistry :
    (d : Digest) (r : Registry) (calls : List Call) → IsRegistry r → IsRegistry (run d r calls)
unfolding run
run_from-IsRegistry d r [] v = v
run_from-IsRegistry d r (c ∷ cs) v = run_from-IsRegistry d (step d r c) cs (step-IsRegistry d r c v)

-- Over any history of packets and expirations, in any order of their times, a registry that
-- NewRegistry made stays well formed: no more flows than the capacity, each once in the map and
-- once in the heap.
pub run-IsRegistry :
    (d : Digest) (c : RegistryConfig) (r : Registry) (calls : List Call)
    → new_registry c ≡ ok r
    → IsRegistry (run d r calls)
run-IsRegistry d c r calls h = run_from-IsRegistry d r calls (new_registry-IsRegistry c r h)
