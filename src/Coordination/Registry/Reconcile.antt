-- ===== src/Coordination/Registry/Reconcile.antt =====
-- SessionRegistry.reconcile (src/kdive/coordination/registry.py). What `stop_by_identity` answers is
-- a parameter, and so is the callback, which acts on the admission service and may raise.
use linux_debug_mcp.Base.{ℕ, String, Bool, false, Option, none, some, List, [], ◌∷◌, ◌++◌}
use linux_debug_mcp.Seams.Target.{TargetKey}
use linux_debug_mcp.Seams.TransportState.{TransportSession, ExecutionState}
use linux_debug_mcp.Coordination.Admission.{AdmissionService}
use linux_debug_mcp.Coordination.Admission.Lifecycle.{mark_recovery_required}
use linux_debug_mcp.Coordination.Registry.{
  SessionRegistry, TombFile, RecoveryTombstone, write_tombstone, delete_record,
}

pub record OrphanReap : Type 0 where
  pub target_key : TargetKey
  pub session_id : String
  pub owner : TransportSession
  pub reason : String
  pub close_admission_required : Bool

-- `failures` holds each record whose callback raised, with the exception's text.
pub record OrphanReapReport : Type 0 where
  pub reaped : List OrphanReap
  pub failures : List (TransportSession × String)

abbrev pub OnOrphanReaped : Type 0
OnOrphanReaped = OrphanReap → AdmissionService → AdmissionService × Option String

abbrev pub StopByIdentity : Type 0
StopByIdentity = ℕ → Option String → Bool

pub record ReconcileState : Type 0 where
  pub registry : SessionRegistry
  pub admission : AdmissionService
  pub report : OrphanReapReport

-- Each well-formed tombstone is asserted into admission again.
unfoldable pub assert_tombstones : List TombFile → AdmissionService → AdmissionService
assert_tombstones [] admission = admission
assert_tombstones (f ∷ fs) admission = elim f.content [
  | none ↦ assert_tombstones fs admission
  | some t ↦ assert_tombstones fs (mark_recovery_required admission t.target_key t.generation)
]

-- `reconciled_{execution_state}`, for HALTED and UNKNOWN.
unfoldable pub parked_reason : ExecutionState → Option String
parked_reason ExecutionState.executing = none
parked_reason ExecutionState.halted = some "reconciled_halted"
parked_reason ExecutionState.unknown = some "reconciled_unknown"

abbrev pub tombstone_of : TransportSession → String → RecoveryTombstone
tombstone_of r reason = record {
  target_key = r.target_key;
  generation = r.generation;
  reason = reason;
}

-- A record that was left HALTED or UNKNOWN parks its target, durably and in the cache.
unfoldable pub park : Option String → TransportSession → ReconcileState → ReconcileState
park none r s = s
park (some reason) r s = record s {
  registry = write_tombstone s.registry (tombstone_of r reason);
  admission = mark_recovery_required s.admission r.target_key r.generation;
}

killed : StopByIdentity → Option ℕ → Option String → Bool
killed stop none start = false
killed stop (some pid) start = stop pid start

unfoldable pub reap_of : StopByIdentity → TransportSession → OrphanReap
unfolding killed
reap_of stop r = record {
  target_key = r.target_key;
  session_id = r.session_id;
  owner = r;
  reason = "backend_died";
  close_admission_required = killed stop r.backend_pid r.backend_start_time;
}

add_failure :
    TransportSession
    → Option String
    → List (TransportSession × String)
    → List (TransportSession × String)
add_failure r none failures = failures
add_failure r (some e) failures = failures ++ (r, e) ∷ []

unfoldable pub notify : Option OnOrphanReaped → OrphanReap → ReconcileState → ReconcileState
unfolding add_failure
notify none reap s = record s {
  report = record { reaped = s.report.reaped ++ reap ∷ []; failures = s.report.failures };
}
notify (some callback) reap s =
    let (admission, raised) = callback reap s.admission in
    record s {
      admission = admission;
      report = record {
        reaped = s.report.reaped ++ reap ∷ [];
        failures = add_failure reap.owner raised s.report.failures;
      };
    }

module _ (stop : StopByIdentity) (callback : Option OnOrphanReaped) where
  -- One record: the callback runs before the record goes, and whatever it does the record goes.
  unfoldable pub reap_one : TransportSession → ReconcileState → ReconcileState
  unfolding park reap_of notify parked_reason
  reap_one r s =
      let told = notify callback (reap_of stop r) (park (parked_reason r.execution_state) r s) in
      record told { registry = delete_record told.registry r.target_key (some r.session_id) }

  unfoldable pub reap_all : List TransportSession → ReconcileState → ReconcileState
  reap_all [] s = s
  reap_all (r ∷ rs) s = reap_all rs (reap_one r s)

  -- list_records is read once, before the first record goes.
  unfoldable pub reconcile : SessionRegistry → AdmissionService → ReconcileState
  unfolding assert_tombstones
  reconcile reg admission = reap_all reg.owners (record {
    registry = reg;
    admission = assert_tombstones reg.tombs admission;
    report = record { reaped = []; failures = [] };
  })
