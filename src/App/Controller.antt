-- ===== src/App/Controller.antt =====
-- internal/app/policy.go: the runtime policy, which is validated, persisted and published as one
-- generation. Each method of Controller runs under its lock, so it is one step on the published
-- snapshot and the disk. The repository is an interface; the texts of warnings are not kept.
pub mod Steps
pub mod Agreement
pub mod Runs
pub mod Stages
pub mod Calls
pub mod Policy
pub mod Failures
use go_musical_packets.Prelude.{
  Bool, true, false, not, ◌&&◌, Option, List, [], ◌∷◌, ◌==◌, if◌then◌else◌, length, Result, ok, err,
  ◌>>◌, refuse_if, ℤ, pos, ltb_ℤ, Text, is_empty,
}
use go_musical_packets.Config.Settings.{Config}
use go_musical_packets.Config.Validation.{Fault}
use go_musical_packets.Config.Rules.{is_flow_id}
use go_musical_packets.Config.Compile.{CompileError}
use go_musical_packets.App.Changes.{Config_discrete}
use go_musical_packets.Flow.Selector.{Selector, Overlay, Selection, evaluate}
use go_musical_packets.Packet.{Event, Error}
use go_musical_packets.Flow.Key.{Digest}

abbrev pub Revision : Type 0
Revision = Text

pub data ControllerState : Type 0 where
  ready restart_pending out_of_sync durability_uncertain degraded : ControllerState

-- A configuration as the repository holds it (config.Snapshot).
pub record Stored : Type 0 where
  pub config : Config
  pub revision : Revision

pub record Change : Type 0 where
  pub before : Stored
  pub after : Stored
  pub durability_warning : Bool
  pub has_changed : Bool

pub data RepositoryError : Type 0 where
  conflict : Revision → RepositoryError  -- with the actual revision
  failure : RepositoryError

-- ConfigRepository, on the state of the disk.
pub record Repository (R : Type 0) : Type 0 where
  pub read : R → R × Result RepositoryError Stored
  pub replace : R → Revision → Config → R × Result RepositoryError Change
  pub rollback : R → Change → R × Result RepositoryError Change

pub data Warning : Type 0 where
  no_warning durability file_differs unverified unpublished rollback_failed saved saved_uncertain :
      Warning

pub record PolicySnapshot : Type 0 where
  pub revision : Revision
  pub configuration : Config
  pub pending_revision : Revision
  pub pending_configuration : Option Config  -- none is the zero Config
  pub selector : Selector
  pub overlay : Overlay
  pub state : ControllerState
  pub warning : Warning

pub data PolicyError : Type 0 where
  context_missing context_done is_degraded restart_is_pending read_failed build_failed : PolicyError
  revision_conflict : Revision → PolicyError
  invalid : List Fault → PolicyError
  not_compiled : CompileError → PolicyError
  restart_required : List Text → PolicyError
  restart_not_required read_only pending_not_found apply_error : PolicyError
  persist_error : RepositoryError → PolicyError
  state_error : ControllerState → PolicyError
  overlay_too_large overlay_id_invalid : PolicyError

-- Whether a context is nil, and whether it is done at each of the places that ask, in their order.
pub record RequestContext : Type 0 where
  pub is_missing : Bool
  pub done_first : Bool
  pub done_middle : Bool
  pub done_last : Bool

unfoldable pub snapshot_with_status : PolicySnapshot → ControllerState → Warning → PolicySnapshot
snapshot_with_status s state warning = record s { state = state; warning = warning }

abbrev decided {ℓ} : {P : Type ℓ} → Dec P → Bool
decided (yes p) = true
decided (no p) = false

pub same_config : Config → Config → Bool
same_config a b = decided (Config_discrete a b)

abbrev pub is_nil {ℓ} : {A : Type ℓ} → List A → Bool
is_nil [] = true
is_nil (a ∷ as_) = false

abbrev pub or_state : Bool → ControllerState
or_state true = durability_uncertain
or_state false = ready

abbrev pub warn_if : Bool → Warning
warn_if true = durability
warn_if false = no_warning

abbrev pub is_out_of_sync : ControllerState → Bool
is_out_of_sync out_of_sync = true
is_out_of_sync s = false

abbrev pub durable_in : ControllerState → PolicySnapshot → Revision
durable_in restart_pending s =
    if is_empty s.pending_revision then s.revision else s.pending_revision
durable_in state s = s.revision

-- The revision that the disk should have.
unfoldable pub expected_durable : PolicySnapshot → Revision
expected_durable s = durable_in s.state s

-- A set of flow IDs as a list without repetition.
unfoldable pub all_flow_ids : List Text → Bool
all_flow_ids [] = true
all_flow_ids (t ∷ ts) = (length t == 24 && is_flow_id t) && all_flow_ids ts

abbrev pub maximum_overlay_flows : ℤ
maximum_overlay_flows = pos 10000

unfoldable pub validate_overlay_set : List Text → ℤ → Result PolicyError (Unit {0})
validate_overlay_set values limit = do
  refuse_if (ltb_ℤ limit (pos (length values))) overlay_too_large
  refuse_if (not (all_flow_ids values)) overlay_id_invalid

pub data Replacement : Type 0 where
  muted soloed : List Text → Replacement

abbrev pub values_of : Replacement → List Text
values_of (muted ids) = ids
values_of (soloed ids) = ids

abbrev pub replaced : Replacement → Overlay → Overlay
replaced (muted ids) o = record o { muted = ids }
replaced (soloed ids) o = record o { soloed = ids }

abbrev pub takes_overlay : ControllerState → Bool
takes_overlay ready = true
takes_overlay restart_pending = true
takes_overlay s = false

unfoldable pub overlay_limit : Config → ℤ
overlay_limit c =
    let capacity = c.performance.flow_registry_capacity in
    if ltb_ℤ maximum_overlay_flows capacity then maximum_overlay_flows else capacity

abbrev pub overlay_checked :
    RequestContext
    → Replacement
    → PolicySnapshot
    → Result PolicyError (Unit {0})
    → PolicySnapshot × Result PolicyError (Unit {0})
overlay_checked ctx r s (err e) = (s, err e)
overlay_checked ctx r s (ok _) = if ctx.done_last then (s, err context_done) else (
  record (snapshot_with_status s s.state s.warning) { overlay = replaced r s.overlay },
  ok tt,
)

-- replaceOverlay: the published snapshot afterwards.
unfoldable pub replace_overlay :
    RequestContext → Replacement → PolicySnapshot → PolicySnapshot × Result PolicyError (Unit {0})
replace_overlay ctx r s =
    if ctx.is_missing
    then (s, err context_missing)
    else if ctx.done_first
    then (s, err context_done)
    else if not (takes_overlay s.state)
    then (s, err (state_error s.state))
    else overlay_checked ctx r s
        (validate_overlay_set (values_of r) (overlay_limit s.configuration))

-- policyStore.Evaluate, which ignores the overlay that the pipeline hands it.
unfoldable pub store_evaluate : Digest → PolicySnapshot → Event → Overlay → Result Error Selection
store_evaluate d s e ignored = evaluate d s.selector e s.overlay
