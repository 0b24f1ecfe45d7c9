-- ===== src/Coordination/Admission/SshTier.antt =====
-- admit_ssh_tier and the execution proof that it asks for (src/kdive/coordination/admission.py).
-- `now` is in microseconds; `handle_id` is the value that uuid4 gives.
use linux_debug_mcp.Base.{
  ℕ, String, false, not, Option, none, some, Result, ok, err, ◌>>=◌, ◌>>◌, raise_if, if◌then◌else◌,
  ite, ◌==◌, holds, String-discrete,
}
use linux_debug_mcp.Seams.Target.{
  ErrorCategory, TargetKey, TargetState, TargetState-discrete, PlatformMetadata, LeaseInfo,
}
use linux_debug_mcp.Seams.TransportState.{ExecutionState}
use linux_debug_mcp.Coordination.Admission.{
  AdmissionOp, Code, AdmissionError, refusal, ExecutionProof, TargetSnapshot, AdmissionService,
  Outcome,
}
use linux_debug_mcp.Coordination.Admission.Gate.{
  raise_unready, raise_bad_request, non_live, bind_snapshot, wrong_lease, near_expiry,
  check_platform_drift, register,
}

-- ExecutionState(value): the members of the enumeration by their texts.
unfoldable pub parse_execution_state : String → Option ExecutionState
parse_execution_state value =
    ite (String-discrete value "executing") (some ExecutionState.executing) (
      ite (String-discrete value "halted") (some ExecutionState.halted)
        (ite (String-discrete value "unknown") (some ExecutionState.unknown) none))

-- What a probed state that passed the freshness fences is worth.
executing_only : ExecutionState → Result AdmissionError (Unit {0})
executing_only ExecutionState.executing = ok tt
executing_only ExecutionState.halted =
    err (refusal ErrorCategory.readiness_failure Code.target_halted)
executing_only ExecutionState.unknown =
    err (refusal ErrorCategory.readiness_failure Code.execution_state_unknown)

recognised : Option ExecutionState → Result AdmissionError ExecutionState
recognised none = err (refusal ErrorCategory.readiness_failure Code.execution_state_unknown)
recognised (some ExecutionState.unknown) =
    err (refusal ErrorCategory.readiness_failure Code.execution_state_unknown)
recognised (some state) = ok state

unfoldable pub require_executing_proof :
    AdmissionService
    → TargetKey
    → TargetSnapshot
    → Option ExecutionProof
    → Result AdmissionError (Unit {0})
unfolding parse_execution_state executing_only recognised
require_executing_proof s k snapshot none =
    err (refusal ErrorCategory.readiness_failure Code.execution_state_unknown)
require_executing_proof s k snapshot (some proof) = do
  state ← recognised (parse_execution_state proof.state)
  raise_if (not (proof.generation == snapshot.generation))
      (refusal ErrorCategory.stale_handle Code.stale_handle)
  raise_unready (not (proof.epoch == s.exec_epoch k)) Code.execution_state_unknown
  executing_only state

-- READY needs no proof; DEBUGGING, the other live state, does.
unfoldable pub proof_unless_ready :
    AdmissionService
    → TargetKey
    → TargetSnapshot
    → Option ExecutionProof
    → Result AdmissionError (Unit {0})
proof_unless_ready s k snapshot proof =
    if holds (TargetState-discrete snapshot.state TargetState.ready)
    then ok tt
    else require_executing_proof s k snapshot proof

pub record SshRequest : Type 0 where
  pub generation : ℕ
  pub platform : PlatformMetadata
  pub lease : Option LeaseInfo
  pub min_lease_ttl : Option ℕ
  pub execution_proof : Option ExecutionProof

-- ssh-backed work: it carries no channel.
unfoldable pub admit_ssh_tier : AdmissionService → TargetKey → SshRequest → ℕ → String → Outcome ℕ
admit_ssh_tier s k request now handle_id = do
  snapshot ← bind_snapshot s k request.generation false
  check_platform_drift snapshot request.platform
  raise_bad_request (wrong_lease snapshot.lease request.lease) Code.stale_lease
  raise_unready (near_expiry snapshot.lease request.min_lease_ttl s.default_min_lease_ttl now)
      Code.lease_near_expiry
  raise_unready (non_live snapshot.state) Code.target_not_ready
  proof_unless_ready s k snapshot request.execution_proof
  ok (register s k AdmissionOp.ssh_tier none snapshot false handle_id)
