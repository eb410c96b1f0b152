-- ===== src/App/Controller/Runs.antt =====
-- transactContext of internal/app/policy.go, as modelled in App/Controller/Steps.
use go_musical_packets.Flow.Selector.{Selector, Rule}
use go_musical_packets.Prelude.{
  ◌≡◌, refl, sym, ap, ◌∙◌, ◌≢◌, Bool, true, false, not, ◌&&◌, Option, List, arith, if◌then◌else◌,
  if_cases, Result, ok, err, text_eq, text_eq→eq,
}
use go_musical_packets.App.Controller.{
  apply_error, Revision, ControllerState, ready, restart_pending, out_of_sync, durability_uncertain,
  degraded, Change, RepositoryError, conflict, Repository, no_warning, durability, unpublished,
  rollback_failed, PolicySnapshot, PolicyError, RequestContext, snapshot_with_status, or_state,
  is_out_of_sync, durable_in,
}
use go_musical_packets.App.Controller.Steps.{
  prepare, after_rollback, is_current, apply_failed, published, commit_change, persist_result,
  persist, transact_on,
}
use go_musical_packets.App.Controller.Agreement.{
  IsRepository, Core, Prepared, prepare-Prepared, Prepared-Core, Core-status, Marked, Agrees, Good,
  lost, persist_failed-Good,
}
use go_musical_packets.Config.Settings.{Config}
use go_musical_packets.Config.Validation.{Parsers}

module _ (x : Parsers) (safety : List Rule → List Rule) (initial : Config) (Quiet : Type 0)
    {R : Type 0} (repository : Repository R) (faithful : IsRepository repository) where
  abbrev IsGood : PolicySnapshot → R → Type 0
  IsGood = Good x safety initial Quiet repository faithful

  abbrev Kept : PolicySnapshot × R × Result PolicyError (Unit {0}) → Type 0
  Kept w = IsGood w.0 w.1

  -- A state that agrees with the disk by the active revision.
  pub settled :
      (s : PolicySnapshot) (disk : R) (warned : Bool)
      → s.state ≡ or_state warned
      → Core x safety initial s
      → s.revision ≡ faithful.revision_of disk
      → IsGood s disk
  settled s disk true h c e = record { core = c; marked = λ _. rw h tt; agrees = λ _. rw h e }
  settled s disk false h c e = record { core = c; marked = λ _. rw h tt; agrees = λ _. rw h e }

  published-Good :
      (s : PolicySnapshot) (c : Config) (sel : Selector) (disk : R) (change : Change)
      → Core x safety initial s
      → Prepared x safety initial s c sel
      → change.after.config ≡ c
      → change.after.revision ≡ faithful.revision_of disk
      → IsGood (published s sel change) disk
  unfolding published
  published-Good s c sel disk change core p e r =
      settled (published s sel change) disk change.durability_warning refl
        (Prepared-Core x safety initial s c sel change core p e) r

  rolled_back :
      (s : PolicySnapshot) (disk : R) (r : Result RepositoryError Change)
      → Core x safety initial s
      → ((back : Change) → r ≡ ok back → s.revision ≡ faithful.revision_of disk)
      → IsGood (after_rollback s r) disk
  unfolding snapshot_with_status
  rolled_back s disk (err e) c h = record {
    core = Core-status x safety initial s degraded rollback_failed c;
    marked = λ _. tt;
    agrees = λ _. tt;
  }
  rolled_back s disk (ok back) c h =
      if_cases (λ t. IsGood t disk) back.durability_warning
        (snapshot_with_status s durability_uncertain durability)
        (snapshot_with_status s ready no_warning)
        (λ _. record {
          core = Core-status x safety initial s durability_uncertain durability c;
          marked = λ _. tt;
          agrees = λ _. h back refl;
        })
        (λ _. record {
          core = Core-status x safety initial s ready no_warning c;
          marked = λ _. tt;
          agrees = λ _. h back refl;
        })

  Agrees-revision :
      (st : ControllerState) (s : PolicySnapshot) (durable : Revision)
      → st ≢ restart_pending
      → s.revision ≡ durable
      → Agrees st s durable
  Agrees-revision ready s durable n h = h
  Agrees-revision durability_uncertain s durable n h = h
  Agrees-revision restart_pending s durable n h = absurd (n refl)
  Agrees-revision out_of_sync s durable n h = tt
  Agrees-revision degraded s durable n h = tt

  -- What is known of a replacement that succeeded.
  record Committed (s : PolicySnapshot) (disk : R) (change : Change) : Type 0 where
    after : change.after.revision ≡ faithful.revision_of disk
    before : is_out_of_sync s.state ≡ false → change.before.revision ≡ s.revision

  unchanged-Good :
      (s : PolicySnapshot) (disk : R) (change : Change)
      → Core x safety initial s
      → (Quiet → Marked s.state s)
      → s.state ≢ restart_pending
      → Committed s disk change
      → text_eq change.after.revision s.revision ≡ true
      → IsGood s disk
  unchanged-Good s disk change c m n k h = record {
    core = c;
    marked = m;
    agrees = λ _.
        Agrees-revision s.state s (faithful.revision_of disk) n
          (sym (text_eq→eq change.after.revision s.revision h) ∙ k.after);
  }

  apply_failed-Good :
      (s : PolicySnapshot) (disk : R) (change : Change)
      → Core x safety initial s
      → (Quiet → Marked s.state s)
      → s.state ≢ restart_pending
      → is_out_of_sync s.state ≡ false
      → Committed s disk change
      → Kept (apply_failed x safety repository s disk change)
  unfolding apply_failed
  apply_failed-Good s disk change c m n o k =
      if_cases Kept (not change.has_changed)
        (
          if is_current s change then s else snapshot_with_status s out_of_sync unpublished,
          disk,
          err apply_error,
        )
        (
          after_rollback s (repository.rollback disk change).1,
          (repository.rollback disk change).0,
          err apply_error,
        )
        (λ _.
          if_cases (λ t. IsGood t disk) (is_current s change) s
            (snapshot_with_status s out_of_sync unpublished)
            (λ h. unchanged-Good s disk change c m n k (ground (arith, h)))
            (λ _.
              lost x safety initial Quiet repository faithful s disk out_of_sync unpublished refl
                c))
        (λ _.
          rolled_back s (repository.rollback disk change).0 (repository.rollback disk change).1 c
            (λ back e. sym (k.before o) ∙ sym (faithful.rollback_tells disk change back e)))

  commit_change-Good :
      (applies : Bool) (s : PolicySnapshot) (cand : Config) (sel : Selector) (disk : R)
      (change : Change)
      → Core x safety initial s
      → (Quiet → Marked s.state s)
      → s.state ≢ restart_pending
      → (applies ≡ false → is_out_of_sync s.state ≡ false)
      → Prepared x safety initial s cand sel
      → change.after.config ≡ cand
      → Committed s disk change
      → Kept (commit_change x safety repository applies s sel disk change)
  unfolding commit_change
  commit_change-Good applies s cand sel disk change c m n a p e k =
      if_cases Kept (not change.has_changed && is_current s change && not (is_out_of_sync s.state))
        (s, disk, ok tt)
        (if applies
          then (published s sel change, disk, ok tt)
          else apply_failed x safety repository s disk change)
        (λ h. unchanged-Good s disk change c m n k (ground (arith, h)))
        (λ _.
          if_cases Kept applies (published s sel change, disk, ok tt)
            (apply_failed x safety repository s disk change)
            (λ _. published-Good s cand sel disk change c p e k.after)
            (λ f. apply_failed-Good s disk change c m n (a f) k))

  -- What is known of the answer of a replacement.
  pub record Answered (expected : Revision) (cand : Config) (w : R × Result RepositoryError Change)
      : Type 0 where
    pub done :
        (ch : Change)
        → w.1 ≡ ok ch
        → (ch.after.config ≡ cand)
          × (ch.after.revision ≡ faithful.revision_of w.0)
          × (ch.before.revision ≡ expected)
    pub refused : (a : Revision) → w.1 ≡ err (conflict a) → a ≡ faithful.revision_of w.0

  pub answered :
      (disk : R) (expected : Revision) (cand : Config)
      → Answered expected cand (repository.replace disk expected cand)
  answered disk expected cand = record {
    done = faithful.replace_tells disk expected cand;
    refused = λ a. faithful.replace_conflicts disk expected a cand;
  }

  durable_active :
      (st : ControllerState) (s : PolicySnapshot)
      → st ≢ restart_pending
      → durable_in st s ≡ s.revision
  durable_active ready s n = refl
  durable_active durability_uncertain s n = refl
  durable_active restart_pending s n = absurd (n refl)
  durable_active out_of_sync s n = refl
  durable_active degraded s n = refl

  persist_result-Good :
      (applies : Bool) (s : PolicySnapshot) (expected : Revision) (cand : Config) (sel : Selector)
      (w : R × Result RepositoryError Change)
      → Core x safety initial s
      → (Quiet → Marked s.state s)
      → s.state ≢ restart_pending
      → (applies ≡ false → is_out_of_sync s.state ≡ false)
      → (is_out_of_sync s.state ≡ false → expected ≡ s.revision)
      → Prepared x safety initial s cand sel
      → Answered expected cand w
      → Kept (persist_result x safety repository applies s sel w)
  persist_result-Good applies s expected cand sel (disk, err e) c m n a b p k =
      persist_failed-Good x safety initial Quiet repository faithful s.revision s disk e c m
        (λ r h. k.refused r (ap err h)) (λ _. durable_active s.state s n)
  persist_result-Good applies s expected cand sel (disk, ok change) c m n a b p k =
      let (config, after, before) = k.done change refl in
      commit_change-Good applies s cand sel disk change c m n a p config
        (record { after = after; before = λ o. before ∙ b o })

  persist-Good :
      (applies : Bool) (expected : Revision) (s : PolicySnapshot) (disk : R)
      (r : Result PolicyError (Config × Selector))
      → IsGood s disk
      → s.state ≢ restart_pending
      → (applies ≡ false → is_out_of_sync s.state ≡ false)
      → (is_out_of_sync s.state ≡ false → expected ≡ s.revision)
      → ((cand : Config) (sel : Selector)
          → r ≡ ok (cand, sel)
          → Prepared x safety initial s cand sel)
      → Kept (persist x safety repository applies expected s disk r)
  persist-Good applies expected s disk (err e) g n a b p = g
  persist-Good applies expected s disk (ok (cand, sel)) g n a b p =
      persist_result-Good applies s expected cand sel (repository.replace disk expected cand) g.core
        g.marked n a b (p cand sel refl) (answered disk expected cand)

  pub transact_on-Good :
      (writable : Bool) (ctx : RequestContext) (expected : Revision) (applies : Bool)
      (build : Config → Option Config) (s : PolicySnapshot) (disk : R) (base : Config)
      → IsGood s disk
      → s.state ≢ restart_pending
      → (applies ≡ false → is_out_of_sync s.state ≡ false)
      → (is_out_of_sync s.state ≡ false → expected ≡ s.revision)
      → Kept (transact_on x safety repository writable ctx expected applies build s disk base)
  unfolding transact_on
  transact_on-Good writable ctx expected applies build s disk base g n a b =
      persist-Good applies expected s disk (prepare x safety writable ctx expected s (build base)) g
        n a b
        (λ cand sel.
          prepare-Prepared x safety initial writable ctx expected s (build base) cand sel)
