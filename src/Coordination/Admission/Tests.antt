-- ===== src/Coordination/Admission/Tests.antt =====
-- Runs of the admission service (src/kdive/coordination/admission.py) at concrete inputs.
mod Gate
mod Fences
mod Closing
use linux_debug_mcp.Base.{
  ℕ, ◌≡◌, ◌≢◌, ◌↔◌, ◌++◌, refl, Bool, true, false, Option, none, some, List, [], ◌∷◌, String, arith,
  ok, err, elem, update, ◌<◌, subset, keep_if, remove, ℕ_discrete, String-discrete, inl, inr,
}
use linux_debug_mcp.Seams.Target.{
  ErrorCategory, ConsoleKind, TargetKey, TargetKey-discrete, TargetState, TargetState-discrete,
  PlatformMetadata, PlatformMetadata-discrete, LeaseInfo,
}
use linux_debug_mcp.Seams.Routing.{Fields, routing_eq}
use linux_debug_mcp.Seams.TransportState.{
  LineRole, TransportRef, OpenRequest, ExecutionState, LineRole-discrete, Caps-discrete,
}
use linux_debug_mcp.Coordination.Admission.{
  AdmissionOp, AdmissionOp-discrete, AdmissionState, AdmissionState-discrete, AdmissionService,
  AdmissionHandle, Code, refusal, ExecutionProof, TargetSnapshot, init, is_live, publish_snapshot,
}
use linux_debug_mcp.Coordination.Admission.Gate.{
  is_set, non_live, tombstone_gates, bind_snapshot, rebind, wrong_lease, near_expiry,
  check_platform_drift, validate_open, register, admit, admit_recovery,
}
use linux_debug_mcp.Coordination.Admission.SshTier.{
  parse_execution_state, require_executing_proof, proof_unless_ready, SshRequest, admit_ssh_tier,
}
use linux_debug_mcp.Coordination.Admission.Bindings.{
  promote, dispose, complete, rollback, confirm_reaped, abandon, note_execution_transition,
  cancel_one, cancel_all, spans_halt, in_flight, cancel_ssh_tier,
}
use linux_debug_mcp.Coordination.Admission.Lifecycle.{
  is_stale_close, close_admission, reopen, mark_recovery_required, clear_recovery_required,
  begin_invalidation,
}
use linux_debug_mcp.Coordination.Admission.Calls.{
  Call, publishes, admits, recovers, admits_ssh, promotes, completes, rolls_back, confirms_reaped,
  abandons, notes_transition, cancels_ssh, closes, invalidates, reopens, marks, clears, step, run,
}
use linux_debug_mcp.Coordination.Admission.Invariant.{Inv}
use linux_debug_mcp.Coordination.Admission.Invariant.Reached.{step-Inv, run_keeps, run-Inv}
use linux_debug_mcp.Coordination.Admission.Conditions.{FitsOpen}
use linux_debug_mcp.Coordination.Admission.Admits.{
  Admissible, AdmissibleSsh, admit_exactly, admit_recovery_exactly, admit_ssh_tier_exactly,
}
use linux_debug_mcp.Coordination.Admission.Evolution.{Later}
use linux_debug_mcp.Coordination.Admission.Evolution.Steps.{run-Later}
use linux_debug_mcp.Coordination.Admission.Evolution.Fences.{
  stale_proof_refused, op_across_transition_never_completes, cancelled_never_commits,
}
use linux_debug_mcp.Coordination.Admission.Closing.{
  CancelledOn, GoneFrom, close_admission_lem, closed_refuses, reopen_iff, reopen_leaves_none,
}
use linux_debug_mcp.Coordination.Admission.Closing.Unreaped.{unreaped_blocks_reopen}

-- Opens the service for the tests below.
pub service_open : Bool
unfolding elem subset keep_if remove ℕ_discrete String-discrete TargetKey-discrete
    TargetState-discrete PlatformMetadata-discrete routing_eq LineRole-discrete Caps-discrete
    AdmissionOp-discrete AdmissionState-discrete init is_live publish_snapshot non_live
    bind_snapshot rebind wrong_lease near_expiry check_platform_drift validate_open register admit
    admit_recovery require_executing_proof proof_unless_ready admit_ssh_tier promote dispose
    complete rollback confirm_reaped abandon note_execution_transition cancel_all in_flight
    cancel_ssh_tier close_admission reopen mark_recovery_required clear_recovery_required
    begin_invalidation step run
service_open = true

abbrev pub vm : TargetKey
vm = record { provisioner = "local-qemu"; target_id = "run-1" }

abbrev pub platform : PlatformMetadata
platform = record {
  console_kind = ConsoleKind.uart;
  console_count = 1;
  dedicated_debug_line = false;
  ssh_reachable = true;
  break_hints = [];
}

abbrev pub stub : TransportRef
stub = record {
  provider = "qemu-gdbstub";
  channel_id = "rsp0";
  line_role = LineRole.rsp;
  caps = "provides_rsp" ∷ [];
  target_ref = Fields.end;
  opts = Fields.end;
  secret_refs = [];
}

abbrev pub snapshot_at : ℕ → TargetState → TargetSnapshot
snapshot_at generation state = record {
  generation = generation;
  transports = stub ∷ [];
  platform = platform;
  state = state;
  lease = none;
}

abbrev pub open_request : ℕ → OpenRequest
open_request generation = record {
  target_key = vm;
  generation = generation;
  transport_ref = stub;
  required_caps = "provides_rsp" ∷ [];
  platform = platform;
  lease = none;
  min_lease_ttl = none;
}

abbrev pub ssh_request : ℕ → Option ExecutionProof → SshRequest
ssh_request generation proof = record {
  generation = generation;
  platform = platform;
  lease = none;
  min_lease_ttl = none;
  execution_proof = proof;
}

-- One promoted session, and one ssh operation in flight.
abbrev pub opening : List Call
opening =
    publishes vm (snapshot_at 1 TargetState.ready)
    ∷ admits vm (open_request 1) 0 "open-0"
    ∷ promotes 0
    ∷ admits_ssh vm (ssh_request 1 none) 0 "ssh-1"
    ∷ []

abbrev pub opened : AdmissionService
opened = run (init 300) opening

opened_bindings : opened.bindings vm ≡ 0 ∷ 1 ∷ []
unfolding service_open
opened_bindings = refl

opened_completes : (step opened (completes 0)).bindings vm ≡ 1 ∷ []
unfolding service_open
opened_completes = refl

run-Inv_example : Inv (run (init 300) opening)
run-Inv_example = run-Inv 300 opening

-- A recovery in progress: the session is promoted, the kernel runs under the debugger.
abbrev pub debugging : AdmissionService
debugging = step opened (publishes vm (snapshot_at 1 TargetState.debugging))

abbrev pub running_proof : ExecutionProof
running_proof = record { generation = 1; epoch = 0; state = "executing" }

-- The kernel halts before the probe's answer arrives, and runs again.
abbrev pub meanwhile : List Call
meanwhile = notes_transition vm 1 ∷ []

pub opened-Inv : Inv opened
opened-Inv = run-Inv 300 opening

pub debugging-Inv : Inv debugging
debugging-Inv = step-Inv opened (publishes vm (snapshot_at 1 TargetState.debugging)) opened-Inv

abbrev pub closed : AdmissionService
closed = step opened (closes vm 1)

pub closed-Inv : Inv closed
closed-Inv = step-Inv opened (closes vm 1) opened-Inv
