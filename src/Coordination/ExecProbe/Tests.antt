-- ===== src/Coordination/ExecProbe/Tests.antt =====
-- The probe at a concrete record (src/kdive/coordination/exec_probe.py).
use linux_debug_mcp.Base.{◌≡◌, ◌↔◌, some, ok}
use linux_debug_mcp.Seams.TransportState.{TransportSession, ExecutionState}
use linux_debug_mcp.Coordination.Admission.SshTier.{require_executing_proof}
use linux_debug_mcp.Coordination.Registry.{read_record}
use linux_debug_mcp.Coordination.Registry.Tests.{vm, halted_store, service, snapshot}
use linux_debug_mcp.Coordination.ExecProbe.{probe_execution_state, probed_proof_passes}

probed_proof_passes_example :
    (require_executing_proof service vm snapshot
        (some (probe_execution_state halted_store service vm 1))
      ≡ ok tt)
    ↔ ((r : TransportSession) × (read_record halted_store vm ≡ some r)
        × (r.execution_state ≡ ExecutionState.executing))
probed_proof_passes_example = probed_proof_passes halted_store service vm snapshot
