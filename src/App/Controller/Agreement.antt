-- ===== src/App/Controller/Agreement.antt =====
-- internal/app/policy.go: the published policy beside the configuration on the disk.
use go_musical_packets.Flow.Selector.{Selector, Rule}
use go_musical_packets.Prelude.{
  subst, text_eq→eq, if_cases, Result, text_eq, ◌≡◌, refl, sym, ap, ◌∙◌, inl, inr, Bool, true,
  false, Option, none, some, List, [], ◌∷◌, arith, Bool-cases, ok, err, Result-cases, is_empty,
}
use go_musical_packets.App.Controller.{
  failure, unverified, file_differs, degraded, durability_uncertain, out_of_sync, expected_durable,
  RepositoryError, durable_in, restart_pending, ready, is_out_of_sync, Revision, ControllerState,
  Stored, Change, conflict, Repository, Warning, PolicySnapshot, RequestContext,
  snapshot_with_status, is_nil,
}
use go_musical_packets.App.Controller.Steps.{
  confirmed, mark_persistence_uncertainty, persist_failed, compile, validate_candidate, prepare,
  published,
}
use go_musical_packets.Config.Settings.{Config}
use go_musical_packets.Config.Validation.{Parsers, validate_config}
use go_musical_packets.App.Changes.{
  Validation, classify_changes, without_hot, classify_changes_cold,
}

pub is_nil→nil : {A : Type 0} (as_ : List A) → is_nil as_ ≡ true → as_ ≡ []
is_nil→nil [] h = refl
is_nil→nil (a ∷ as_) h = absurd (ground (arith, h))

-- A repository that tells the truth about the disk, which nobody else writes.
pub record IsRepository {R : Type 0} (repository : Repository R) : Type 0 where
  pub revision_of : R → Revision
  pub revision_given : (r : R) → is_empty (revision_of r) ≡ false
  pub read_keeps : (r : R) → revision_of (repository.read r).0 ≡ revision_of r
  pub read_tells : (r : R) (s : Stored) → (repository.read r).1 ≡ ok s → s.revision ≡ revision_of r
  pub replace_tells :
      (r : R) (e : Revision) (c : Config) (ch : Change)
      → (repository.replace r e c).1 ≡ ok ch
      → (ch.after.config ≡ c)
        × (ch.after.revision ≡ revision_of (repository.replace r e c).0)
        × (ch.before.revision ≡ e)
  pub replace_conflicts :
      (r : R) (e a : Revision) (c : Config)
      → (repository.replace r e c).1 ≡ err (conflict a)
      → a ≡ revision_of (repository.replace r e c).0
  pub rollback_tells :
      (r : R) (ch back : Change)
      → (repository.rollback r ch).1 ≡ ok back
      → revision_of (repository.rollback r ch).0 ≡ ch.before.revision

module _ (x : Parsers) (safety : List Rule → List Rule) (initial : Config) where
  -- The selector is that of the valid configuration, which differs from the initial one at most in
  -- fields that need no restart.
  pub record Core (s : PolicySnapshot) : Type 0 where
    pub compiled : compile x safety s.configuration ≡ ok s.selector
    pub valid : validate_config x s.configuration ≡ []
    pub cold : without_hot initial s.configuration ≡ initial

  pub Core-status :
      (s : PolicySnapshot) (st : ControllerState) (w : Warning)
      → Core s
      → Core (snapshot_with_status s st w)
  unfolding snapshot_with_status
  Core-status s st w c = record { compiled = c.compiled; valid = c.valid; cold = c.cold }

  -- What a candidate that passed `prepare` satisfies.
  pub record Prepared (s : PolicySnapshot) (c : Config) (sel : Selector) : Type 0 where
    pub compiled : compile x safety c ≡ ok sel
    pub valid : validate_config x c ≡ []
    pub cold : without_hot s.configuration c ≡ s.configuration

  pub validate_candidate-valid :
      (current c : Config) (v : Validation)
      → validate_candidate x safety current c ≡ ok v
      → (validate_config x c ≡ []) × (v ≡ classify_changes current c)
  unfolding validate_candidate
  validate_candidate-valid current c v h = elim (Bool-cases (is_nil (validate_config x c))) [
    | inr k ↦ absurd (ground (arith, h, k))
    | inl k ↦ elim (Result-cases (compile x safety c)) [
      | inr (e, j) ↦ absurd (ground (arith, h, k, j))
      | inl (sel, j) ↦ (is_nil→nil (validate_config x c) k, sym (ground (arith, h, k, j)))
    ]
  ]

  pub prepare-Prepared :
      (writable : Bool) (ctx : RequestContext) (e : Revision) (s : PolicySnapshot)
      (o : Option Config) (c : Config) (sel : Selector)
      → prepare x safety writable ctx e s o ≡ ok (c, sel)
      → Prepared s c sel
  unfolding prepare
  prepare-Prepared writable ctx e s none c sel h = absurd (ground (arith, h))
  prepare-Prepared writable ctx e s (some c') c sel h =
      elim (Result-cases (validate_candidate x safety s.configuration c')) [
        | inr (_, k) ↦ absurd (ground (arith, h, k))
        | inl (v, k) ↦ elim (Result-cases (compile x safety c')) [
          | inr (_, j) ↦ absurd (ground (arith, h, k, j))
          | inl (sel', j) ↦ elim (Bool-cases (is_nil v.restart_required_fields)) [
            | inr i ↦ absurd (ground (arith, h, k, j, i))
            | inl i ↦
                let same : (c' ≡ c) × (sel' ≡ sel) = ground (arith, h, k, j, i) in
                let (ok_config, classified) = validate_candidate-valid s.configuration c' v k in
                let still = classify_changes_cold s.configuration c' (
                  ap (λ (w : Validation). w.restart_required_fields) (sym classified)
                  ∙ is_nil→nil v.restart_required_fields i) in
                rw (← same.0, ← same.1) (record { compiled = j; valid = ok_config; cold = still })
          ]
        ]
      ]

  pub Prepared-Core :
      (s : PolicySnapshot) (c : Config) (sel : Selector) (change : Change)
      → Core s
      → Prepared s c sel
      → change.after.config ≡ c
      → Core (published s sel change)
  unfolding published without_hot
  Prepared-Core s c sel change core p e = rw (e) (record {
    compiled = p.compiled;
    valid = p.valid;
    cold = ap (without_hot initial) p.cold ∙ core.cold;
  })

abbrev pub Marked : ControllerState → PolicySnapshot → Type 0
Marked restart_pending s = is_empty s.pending_revision ≡ false
Marked state s = Unit

-- What the state says of the disk's revision.
abbrev pub Agrees : ControllerState → PolicySnapshot → Revision → Type 0
Agrees ready s durable = s.revision ≡ durable
Agrees durability_uncertain s durable = s.revision ≡ durable
Agrees restart_pending s durable = s.pending_revision ≡ durable
Agrees state s durable = Unit

confirmed-Agrees :
    (st : ControllerState) (s : PolicySnapshot) (durable : Revision)
    → Marked st s
    → text_eq durable (durable_in st s) ≡ true
    → Agrees st s durable
confirmed-Agrees ready s durable m h = sym (text_eq→eq durable s.revision h)
confirmed-Agrees durability_uncertain s durable m h = sym (text_eq→eq durable s.revision h)
confirmed-Agrees restart_pending s durable m h =
    sym
      (text_eq→eq durable s.pending_revision (subst (λ r. text_eq durable r ≡ true) (rw m refl) h))
confirmed-Agrees out_of_sync s durable m h = tt
confirmed-Agrees degraded s durable m h = tt

module _ (x : Parsers) (safety : List Rule → List Rule) (initial : Config) (Quiet : Type 0)
    {R : Type 0} (repository : Repository R) (faithful : IsRepository repository) where
  -- The marks are claimed where the run is quiet.
  pub record Good (s : PolicySnapshot) (disk : R) : Type 0 where
    pub core : Core x safety initial s
    pub marked : Quiet → Marked s.state s
    pub agrees : Quiet → Agrees s.state s (faithful.revision_of disk)

  pub lost :
      (s : PolicySnapshot) (disk : R) (st : ControllerState) (w : Warning)
      → is_out_of_sync st ≡ true
      → Core x safety initial s
      → Good (snapshot_with_status s st w) disk
  unfolding snapshot_with_status
  lost s disk out_of_sync w h c = record {
    core = Core-status x safety initial s out_of_sync w c;
    marked = λ _. tt;
    agrees = λ _. tt;
  }
  lost s disk ready w h c = absurd (ground (arith, h))
  lost s disk restart_pending w h c = absurd (ground (arith, h))
  lost s disk durability_uncertain w h c = absurd (ground (arith, h))
  lost s disk degraded w h c = absurd (ground (arith, h))

  confirmed-revision :
      (disk : R) (durable : Revision) (r : Result RepositoryError Stored)
      → (repository.read disk).1 ≡ r
      → confirmed durable r ≡ true
      → text_eq (faithful.revision_of (repository.read disk).0) durable ≡ true
  confirmed-revision disk durable (err e) k h = absurd (ground (arith, h))
  confirmed-revision disk durable (ok s) k h =
      subst (λ r. text_eq r durable ≡ true)
        (faithful.read_tells disk s k ∙ sym (faithful.read_keeps disk)) h

  pub mark-Good :
      (s : PolicySnapshot) (disk : R)
      → Core x safety initial s
      → (Quiet → Marked s.state s)
      → Good
          (mark_persistence_uncertainty x safety repository s disk).0
          (mark_persistence_uncertainty x safety repository s disk).1
  unfolding mark_persistence_uncertainty expected_durable
  mark-Good s disk c m =
      let sure = confirmed (durable_in s.state s) (repository.read disk).1 in
      if_cases (λ t. Good t (repository.read disk).0) sure s
        (snapshot_with_status s out_of_sync unverified)
        (λ h. record {
          core = c;
          marked = m;
          agrees = λ q.
              confirmed-Agrees s.state s (faithful.revision_of (repository.read disk).0) (m q)
                (confirmed-revision disk (durable_in s.state s) (repository.read disk).1 refl h);
        })
        (λ _. lost s (repository.read disk).0 out_of_sync unverified refl c)

  -- A replacement that failed.
  pub persist_failed-Good :
      (durable : Revision) (s : PolicySnapshot) (disk : R) (e : RepositoryError)
      → Core x safety initial s
      → (Quiet → Marked s.state s)
      → ((a : Revision) → e ≡ conflict a → a ≡ faithful.revision_of disk)
      → (Quiet → durable_in s.state s ≡ durable)
      → let w = persist_failed x safety repository durable s disk e in Good w.0 w.1
  unfolding persist_failed
  persist_failed-Good durable s disk (conflict a) c m t d =
      if_cases (λ t'. Good t' disk) (text_eq a durable) s
        (snapshot_with_status s out_of_sync file_differs)
        (λ h. record {
          core = c;
          marked = m;
          agrees = λ q.
              confirmed-Agrees s.state s (faithful.revision_of disk) (m q) (rw (d q, ← t a refl) h);
        })
        (λ _. lost s disk out_of_sync file_differs refl c)
  persist_failed-Good durable s disk failure c m t d = mark-Good s disk c m
