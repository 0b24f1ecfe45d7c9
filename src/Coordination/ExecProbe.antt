-- ===== src/Coordination/ExecProbe.antt =====
-- probe_execution_state (src/kdive/coordination/exec_probe.py): the proof that the ssh-tier gate asks
-- for, read from the durable record. Its RSP half is in Transport/Rsp.
mod Tests
use linux_debug_mcp.Base.{
  ℕ, ◌≡◌, ◌↔◌, refl, String, Bool, true, false, Option, none, some, Result, ok, err, arith,
  Option-cases, inl, inr, String-discrete,
}
use linux_debug_mcp.Seams.Target.{TargetKey}
use linux_debug_mcp.Seams.TransportState.{TransportSession, ExecutionState}
use linux_debug_mcp.Coordination.Admission.{AdmissionService, ExecutionProof, TargetSnapshot}
use linux_debug_mcp.Coordination.Admission.SshTier.{require_executing_proof, parse_execution_state}
use linux_debug_mcp.Coordination.Registry.{SessionRegistry, read_record}

-- The value of the member.
abbrev pub value_of : ExecutionState → String
value_of ExecutionState.executing = "executing"
value_of ExecutionState.halted = "halted"
value_of ExecutionState.unknown = "unknown"

abbrev pub recorded_state : Option TransportSession → ExecutionState
recorded_state none = ExecutionState.unknown
recorded_state (some r) = r.execution_state

unfoldable pub probe_execution_state :
    SessionRegistry → AdmissionService → TargetKey → ℕ → ExecutionProof
probe_execution_state reg admission k generation = record {
  generation = generation;
  epoch = admission.exec_epoch k;
  state = value_of (recorded_state (read_record reg k));
}

parse-value_of : (e : ExecutionState) → parse_execution_state (value_of e) ≡ some e
unfolding parse_execution_state String-discrete
parse-value_of ExecutionState.executing = refl
parse-value_of ExecutionState.halted = refl
parse-value_of ExecutionState.unknown = refl

passes :
    (s : AdmissionService) (k : TargetKey) (snapshot : TargetSnapshot) (o : Option TransportSession)
    → (require_executing_proof s k snapshot (
          some (record {
            generation = snapshot.generation;
            epoch = s.exec_epoch k;
            state = value_of (recorded_state o);
          }))
        ≡ ok tt)
      ↔ ((r : TransportSession) × (o ≡ some r) × (r.execution_state ≡ ExecutionState.executing))
unfolding require_executing_proof
passes s k snapshot none =
    (λ h. ground (arith, parse-value_of ExecutionState.unknown), λ (r, none_there, e). cc)
passes s k snapshot (some r) = (
  λ h. (r, refl, ground (arith, parse-value_of r.execution_state)),
  λ (q, same, e). ground (arith, parse-value_of r.execution_state),
)

-- A proof that is probed for the published generation and used before the execution epoch moves
-- passes the gate of `admit_ssh_tier` just if the target has a durable record that says EXECUTING:
-- a target without a record does not pass.
pub probed_proof_passes :
    (reg : SessionRegistry) (s : AdmissionService) (k : TargetKey) (snapshot : TargetSnapshot)
    → (require_executing_proof s k snapshot
          (some (probe_execution_state reg s k snapshot.generation))
        ≡ ok tt)
      ↔ ((r : TransportSession) × (read_record reg k ≡ some r)
          × (r.execution_state ≡ ExecutionState.executing))
unfolding probe_execution_state
probed_proof_passes reg s k snapshot = passes s k snapshot (read_record reg k)
