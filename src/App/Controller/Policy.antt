-- ===== src/App/Controller/Policy.antt =====
-- internal/app/policy.go: the published policy, over sequences of calls.
use go_musical_packets.App.Controller.Stages.{
  cancel_restart-Good, stage_restart-Good, transact-Good,
}
use go_musical_packets.App.Controller.Steps.{compile}
use go_musical_packets.App.Changes.{without_hot}
use go_musical_packets.App.Controller.Calls.{
  safety_after, configured, after_call, configures, Running, with_selector, configure_safety,
  set_overlay, cancel, stage, mutate_unpublished, started, mutate, start_read, call, run_calls,
  start_from, new_controller, PolicyCall,
}
use go_musical_packets.App.Controller.Agreement.{is_nil→nil, Good, Agrees, Marked, IsRepository}
use go_musical_packets.Flow.Selector.{Selector, Overlay, Rule}
use go_musical_packets.App.Controller.{
  context_missing, state_error, takes_overlay, overlay_limit, replaced, values_of, context_done,
  is_out_of_sync, validate_overlay_set, degraded, overlay_checked, durability_uncertain,
  replace_overlay, snapshot_with_status, out_of_sync, is_nil, Replacement, PolicyError, Stored,
  ready, RequestContext, restart_pending, RepositoryError, Revision, Repository, PolicySnapshot,
  ControllerState,
}
use go_musical_packets.Config.Settings.{Config}
use go_musical_packets.Config.Validation.{validate_config, Parsers}
use go_musical_packets.Prelude.{
  false, Bool, ◌≡◌, refl, sym, ap, ◌∙◌, subst, inl, inr, true, not, List, [], ◌∷◌, arith,
  if◌then◌else◌, Bool-cases, if_cases, Result, ok, err, Result-cases,
}

Marked-overlay :
    (st : ControllerState) (s : PolicySnapshot) (o : Overlay)
    → Marked st s
    → Marked st (record s { overlay = o })
Marked-overlay restart_pending s o m = m
Marked-overlay ready s o m = tt
Marked-overlay out_of_sync s o m = tt
Marked-overlay durability_uncertain s o m = tt
Marked-overlay degraded s o m = tt

Agrees-overlay :
    (st : ControllerState) (s : PolicySnapshot) (o : Overlay) (durable : Revision)
    → Agrees st s durable
    → Agrees st (record s { overlay = o }) durable
Agrees-overlay restart_pending s o r m = m
Agrees-overlay ready s o r m = m
Agrees-overlay out_of_sync s o r m = tt
Agrees-overlay durability_uncertain s o r m = m
Agrees-overlay degraded s o r m = tt

abbrev pub is_restart_pending : ControllerState → Bool
is_restart_pending restart_pending = true
is_restart_pending state = false

-- A call of configureSafety meets no pending restart.
abbrev pub Calm : PolicyCall → PolicySnapshot → Type 0
Calm (configures f) s = is_restart_pending s.state ≡ false
Calm (mutate ctx e build) s = Unit
Calm (mutate_unpublished ctx e build) s = Unit
Calm (stage ctx e c) s = Unit
Calm (cancel ctx e) s = Unit
Calm (set_overlay ctx r) s = Unit

-- Every call of configureSafety along a run meets no pending restart.
abbrev pub Undisturbed :
    {R : Type 0} → Parsers → Repository R → List PolicyCall → Running R → Type 0
Undisturbed x repository [] w = Unit
Undisturbed x repository (c ∷ cs) w =
    Calm c w.snapshot × Undisturbed x repository cs (after_call x repository c w)

Marked-selector :
    (st : ControllerState) (s : PolicySnapshot) (sel : Selector)
    → is_restart_pending st ≡ false
    → Marked st (with_selector s sel)
Marked-selector restart_pending s sel h = absurd (ground (arith, h))
Marked-selector ready s sel h = tt
Marked-selector out_of_sync s sel h = tt
Marked-selector durability_uncertain s sel h = tt
Marked-selector degraded s sel h = tt

Agrees-selector :
    (st : ControllerState) (s : PolicySnapshot) (sel : Selector) (durable : Revision)
    → is_restart_pending st ≡ false
    → Agrees st s durable
    → Agrees st (with_selector s sel) durable
Agrees-selector restart_pending s sel r h m = absurd (ground (arith, h))
Agrees-selector ready s sel r h m = m
Agrees-selector out_of_sync s sel r h m = tt
Agrees-selector durability_uncertain s sel r h m = m
Agrees-selector degraded s sel r h m = tt

module _ (x : Parsers) (safety : List Rule → List Rule) (Quiet : Type 0) {R : Type 0}
    (repository : Repository R) (faithful : IsRepository repository) where
  start_from-Good :
      (c : Config) (revision : Revision) (s : PolicySnapshot) (disk : R)
      → start_from x safety repository c revision ≡ ok s
      → revision ≡ faithful.revision_of disk
      → Good x safety s.configuration Quiet repository faithful s disk
  unfolding without_hot
  start_from-Good c revision s disk h e = elim (Bool-cases (is_nil (validate_config x c))) [
    | inr k ↦ absurd (ground (arith, h, k))
    | inl k ↦ elim (Result-cases (compile x safety c)) [
      | inr (_, j) ↦ absurd (ground (arith, h, k, j))
      | inl (sel, j) ↦
          let same : started c revision sel ≡ s = ground (arith, h, k, j) in
          subst (λ t. Good x safety t.configuration Quiet repository faithful t disk) same
            (record {
              core = record {
                compiled = j;
                valid = is_nil→nil (validate_config x c) k;
                cold = refl;
              };
              marked = λ _. tt;
              agrees = λ _. e;
            })
    ]
  ]

  start_read-Good :
      (disk disk' : R) (s : PolicySnapshot) (w : R × Result RepositoryError Stored)
      → ((t : Stored) → w.1 ≡ ok t → t.revision ≡ faithful.revision_of w.0)
      → start_read x safety repository w ≡ (disk', ok s)
      → Good x safety s.configuration Quiet repository faithful s disk'
  start_read-Good disk disk' s (d, err e) t h = absurd (ground (arith, h))
  start_read-Good disk disk' s (d, ok stored) t h =
      subst (Good x safety s.configuration Quiet repository faithful s) (ap (λ p. p.0) h)
        (start_from-Good stored.config stored.revision s d (ap (λ p. p.1) h) (t stored refl))

  new_controller-Good :
      (disk disk' : R) (s : PolicySnapshot)
      → new_controller x safety repository disk ≡ (disk', ok s)
      → Good x safety s.configuration Quiet repository faithful s disk'
  unfolding new_controller
  new_controller-Good disk disk' s h =
      start_read-Good disk disk' s (repository.read disk)
        (λ t k. faithful.read_tells disk t k ∙ sym (faithful.read_keeps disk)) h

  module _ (initial : Config) where
    module _ (ctx : RequestContext) (r : Replacement) (s : PolicySnapshot) (disk : R)
        (g : Good x safety initial Quiet repository faithful s disk) where
      abbrev Stays : PolicySnapshot × Result PolicyError (Unit {0}) → Type 0
      Stays w = Good x safety initial Quiet repository faithful w.0 disk

      overlay_checked-Good : (t : Result PolicyError (Unit {0})) → Stays (overlay_checked ctx r s t)
      unfolding snapshot_with_status
      overlay_checked-Good (err e) = g
      overlay_checked-Good (ok _) =
          if_cases Stays ctx.done_last (s, err context_done)
            (
              record (snapshot_with_status s s.state s.warning) { overlay = replaced r s.overlay },
              ok tt,
            )
            (λ _. g)
            (λ _. record {
              core = record {
                compiled = g.core.compiled;
                valid = g.core.valid;
                cold = g.core.cold;
              };
              marked = λ q. Marked-overlay s.state s (replaced r s.overlay) (g.marked q);
              agrees = λ q.
                  Agrees-overlay s.state s (replaced r s.overlay) (faithful.revision_of disk)
                    (g.agrees q);
            })

      replace_overlay-Good : Stays (replace_overlay ctx r s)
      unfolding replace_overlay
      replace_overlay-Good =
          let checked =
            overlay_checked ctx r s
              (validate_overlay_set (values_of r) (overlay_limit s.configuration)) in
          let third =
            if not (takes_overlay s.state) then (s, err (state_error s.state)) else checked in
          let second = if ctx.done_first then (s, err context_done) else third in
          if_cases Stays ctx.is_missing (s, err context_missing) second (λ _. g)
            (λ _.
              if_cases Stays ctx.done_first (s, err context_done) third (λ _. g)
                (λ _.
                  if_cases Stays (not (takes_overlay s.state)) (s, err (state_error s.state))
                    checked (λ _. g)
                    (λ _.
                      overlay_checked-Good
                        (validate_overlay_set (values_of r) (overlay_limit s.configuration)))))

module _ (x : Parsers) (Quiet : Type 0) {R : Type 0} (repository : Repository R)
    (faithful : IsRepository repository) (initial : Config) where
  abbrev Holds : Running R → Type 0
  Holds w = Good x w.safety initial Quiet repository faithful w.snapshot w.disk

  configured-Good :
      (f : List Rule → List Rule) (w : Running R) (r : Result PolicyError PolicySnapshot)
      → configure_safety x f w.snapshot ≡ r
      → (Quiet → is_restart_pending w.snapshot.state ≡ false)
      → Holds w
      → let (s, disk, answer) = configured w.snapshot w.disk r in
        Holds (record {
          safety = safety_after (configures f) w.safety answer;
          snapshot = s;
          disk = disk;
        })
  unfolding configure_safety
  configured-Good f w (err e) h calm g = g
  configured-Good f w (ok t) h calm g = elim (Result-cases (compile x f w.snapshot.configuration)) [
    | inr (_, k) ↦ absurd (ground (arith, h, k))
    | inl (sel, k) ↦
        let same : with_selector w.snapshot sel ≡ t = ground (arith, h, k) in
        subst (λ u. Good x f initial Quiet repository faithful u w.disk) same
          (record {
            core = record { compiled = k; valid = g.core.valid; cold = g.core.cold };
            marked = λ q. Marked-selector w.snapshot.state w.snapshot sel (calm q);
            agrees = λ q.
                Agrees-selector w.snapshot.state w.snapshot sel (faithful.revision_of w.disk)
                  (calm q) (g.agrees q);
          })
  ]

  after_call-Good :
      (c : PolicyCall) (w : Running R)
      → (Quiet → Calm c w.snapshot)
      → Holds w
      → Holds (after_call x repository c w)
  unfolding call after_call
  after_call-Good (mutate ctx e build) w calm g =
      transact-Good x w.safety initial Quiet repository faithful true ctx e true build w.snapshot
        w.disk g (λ h. absurd (ground (arith, h)))
  after_call-Good (mutate_unpublished ctx e build) w calm g =
      transact-Good x w.safety initial Quiet repository faithful true ctx e
        (is_out_of_sync w.snapshot.state) build w.snapshot w.disk g (λ h. h)
  after_call-Good (stage ctx e c) w calm g =
      stage_restart-Good x w.safety initial Quiet repository faithful true ctx e c w.snapshot w.disk
        g
  after_call-Good (cancel ctx e) w calm g =
      cancel_restart-Good x w.safety initial Quiet repository faithful true ctx e w.snapshot w.disk
        g
  after_call-Good (set_overlay ctx r) w calm g =
      replace_overlay-Good x w.safety Quiet repository faithful initial ctx r w.snapshot w.disk g
  after_call-Good (configures f) w calm g =
      configured-Good f w (configure_safety x f w.snapshot) refl calm g

  run-Good :
      (cs : List PolicyCall) (w : Running R)
      → (Quiet → Undisturbed x repository cs w)
      → Holds w
      → Holds (run_calls x repository cs w)
  unfolding run_calls
  run-Good [] w u g = g
  run-Good (c ∷ cs) w u g =
      run-Good cs (after_call x repository c w) (λ q. (u q).1)
        (after_call-Good c w (λ q. (u q).0) g)

abbrev pub starting : {R : Type 0} → (List Rule → List Rule) → PolicySnapshot → R → Running R
starting safety s disk = record { safety = safety; snapshot = s; disk = disk }

module _ (x : Parsers) (safety : List Rule → List Rule) {R : Type 0} (repository : Repository R)
    (faithful : IsRepository repository) where
  -- From a controller that started on a repository that tells the truth about the disk, after any
  -- calls, new safety rules included, the selector that packets are judged by is that of the published
  -- configuration under the safety rules then in force; that configuration is valid and differs from
  -- the one at the start at most in the default action and the rules.
  pub run_compiled :
      (disk disk' : R) (s : PolicySnapshot) (cs : List PolicyCall)
      → new_controller x safety repository disk ≡ (disk', ok s)
      → let w = run_calls x repository cs (starting safety s disk') in
        (compile x w.safety w.snapshot.configuration ≡ ok w.snapshot.selector)
        × (validate_config x w.snapshot.configuration ≡ [])
        × (without_hot s.configuration w.snapshot.configuration ≡ s.configuration)
  run_compiled disk disk' s cs h =
      let core =
        (run-Good x (true ≡ false) repository faithful s.configuration cs (starting safety s disk')
          (λ q. absurd (ground (arith, q)))
          (new_controller-Good x safety (true ≡ false) repository faithful disk disk' s h)).core in
      (core.compiled, core.valid, core.cold)

  -- From a controller that started on a repository that tells the truth about the disk, which nobody
  -- else writes, after any calls, new safety rules included while no restart is pending: where the
  -- state is ready or doubts only durability, the revision on the disk is the published one; where a
  -- restart is pending, it is the pending one. A publication fails only outside a reconciliation.
  pub run-Agrees :
      (disk disk' : R) (s : PolicySnapshot) (cs : List PolicyCall)
      → new_controller x safety repository disk ≡ (disk', ok s)
      → Undisturbed x repository cs (starting safety s disk')
      → let w = run_calls x repository cs (starting safety s disk') in
        Agrees w.snapshot.state w.snapshot (faithful.revision_of w.disk)
  run-Agrees disk disk' s cs h u =
      (run-Good x Unit repository faithful s.configuration cs (starting safety s disk') (λ _. u)
          (new_controller-Good x safety Unit repository faithful disk disk' s h)).agrees
        tt
