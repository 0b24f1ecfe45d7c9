-- ===== src/Coordination/Admission.antt =====
-- The state of AdmissionService and SnapshotStore (src/kdive/coordination/admission.py).
-- Every public method runs under the lock of its target, so that a method is one atomic step.
-- Handles are shared objects: callers hold references into the table `heap`, and a method that
-- changes a handle changes it there. The dicts are functions of their keys.
pub mod Gate
pub mod SshTier
pub mod Conditions
pub mod Admits
pub mod Bindings
pub mod Lifecycle
pub mod Calls
pub mod Cancellation
pub mod Returns
pub mod Invariant
pub mod Evolution
pub mod Closing
mod Tests
use linux_debug_mcp.Base.{
  ℕ, String, Bool, true, false, Option, none, some, List, [], Result, ok, err, ◌>>=◌, ◌>>◌,
  raise_if, ltb, update,
}
use linux_debug_mcp.Seams.Target.{
  ErrorCategory, TargetKey, TargetKey-discrete, TargetState, PlatformMetadata, LeaseInfo,
}
use linux_debug_mcp.Seams.TransportState.{TransportRef}

pub data AdmissionOp : Type 0 where
  transport_open ssh_tier : AdmissionOp

pub data AdmissionState : Type 0 where
  pending promoted rolled_back completed abandoned : AdmissionState

-- The `code` of an AdmissionError. `dangling` is no code of the source: it answers a reference that
-- no admission returned, which Python cannot hold.
pub data Code : Type 0 where
  snapshot_missing snapshot_generation_regression target_not_ready target_mismatch : Code
  not_recovery_required stale_platform admission_closed recovery_required stale_handle : Code
  insufficient_caps foreign_ref stale_lease lease_near_expiry execution_state_unknown : Code
  target_halted handle_not_pending admission_cancelled execution_state_changed : Code
  invalid_terminal_transition reaper_confirmation_required reap_not_permitted : Code
  handle_already_disposed abandon_not_permitted generation_not_advanced : Code
  bindings_outstanding dangling : Code

pub record AdmissionError : Type 0 where
  pub category : ErrorCategory
  pub code : Code

abbrev pub refusal : ErrorCategory → Code → AdmissionError
refusal category code = record { category = category; code = code }

-- `state` is the raw value that the probe handed over.
pub record ExecutionProof : Type 0 where
  pub generation : ℕ
  pub epoch : ℕ
  pub state : String

pub record TargetSnapshot : Type 0 where
  pub generation : ℕ
  pub transports : List TransportRef
  pub platform : PlatformMetadata
  pub state : TargetState
  pub lease : Option LeaseInfo

pub record AdmissionHandle : Type 0 where
  pub handle_id : String
  pub target_key : TargetKey
  pub generation : ℕ
  pub admit_epoch : ℕ
  pub op : AdmissionOp
  pub channel : Option TransportRef
  pub platform : PlatformMetadata
  pub recovery : Bool
  pub state : AdmissionState
  pub cancelled : Bool
  pub reaped : Bool

pub record AdmissionService : Type 0 where
  pub snapshots : TargetKey → Option TargetSnapshot
  pub default_min_lease_ttl : ℕ
  pub bindings : TargetKey → List ℕ
  pub closed_at : TargetKey → Option ℕ
  pub recovery_required : TargetKey → Option ℕ
  pub exec_epoch : TargetKey → ℕ
  pub heap : ℕ → Option AdmissionHandle
  pub next_ref : ℕ

unfoldable pub init : ℕ → AdmissionService
init ttl = record {
  snapshots = λ _. none;
  default_min_lease_ttl = ttl;
  bindings = λ _. [];
  closed_at = λ _. none;
  recovery_required = λ _. none;
  exec_epoch = λ _. 0;
  heap = λ _. none;
  next_ref = 0;
}

unfoldable pub AdmissionOp-discrete : Discrete AdmissionOp
AdmissionOp-discrete = hlevel

unfoldable pub AdmissionState-discrete : Discrete AdmissionState
AdmissionState-discrete = hlevel

-- A binding that is not yet disposed of.
unfoldable pub is_live : AdmissionState → Bool
is_live pending = true
is_live promoted = true
is_live _ = false

-- A result of a service method: the new state beside the value.
abbrev pub Outcome : Type 0 → Type 0
Outcome A = Result AdmissionError (AdmissionService × A)

abbrev pub found : Option AdmissionHandle → Result AdmissionError AdmissionHandle
found none = err (refusal ErrorCategory.configuration_error dangling)
found (some h) = ok h

-- Whether `snapshot` is older than the one that is published.
regresses : Option TargetSnapshot → TargetSnapshot → Bool
regresses none snapshot = false
regresses (some current) snapshot = ltb snapshot.generation current.generation

-- SnapshotStore.put, which publish_snapshot calls under the lock of the target.
unfoldable pub publish_snapshot :
    AdmissionService → TargetKey → TargetSnapshot → Result AdmissionError AdmissionService
unfolding regresses
publish_snapshot s k snapshot = do
  raise_if (regresses (s.snapshots k) snapshot)
      (refusal ErrorCategory.configuration_error snapshot_generation_regression)
  ok (record s { snapshots = update TargetKey-discrete s.snapshots k (some snapshot) })
