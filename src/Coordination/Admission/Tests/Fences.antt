-- ===== src/Coordination/Admission/Tests/Fences.antt =====
-- The fences' theorems at concrete histories (src/kdive/coordination/admission.py).
use linux_debug_mcp.Base.{ℕ, ◌≢◌, refl, false, none, some, arith, ok}
use linux_debug_mcp.Seams.Target.{TargetState}
use linux_debug_mcp.Coordination.Admission.{
  AdmissionOp, AdmissionState, AdmissionService, AdmissionHandle,
}
use linux_debug_mcp.Coordination.Admission.SshTier.{admit_ssh_tier}
use linux_debug_mcp.Coordination.Admission.Bindings.{complete}
use linux_debug_mcp.Coordination.Admission.Calls.{notes_transition, step, run}
use linux_debug_mcp.Coordination.Admission.Evolution.Fences.{
  stale_proof_refused, op_across_transition_never_completes,
}
use linux_debug_mcp.Coordination.Admission.Tests.{
  vm, platform, snapshot_at, ssh_request, opened, service_open, debugging, running_proof, meanwhile,
  opened-Inv, debugging-Inv,
}

abbrev debug_admission : AdmissionService × ℕ
debug_admission = (debugging, 2)

stale_proof_refused_example :
    admit_ssh_tier
      (run (step debugging (notes_transition vm 1)) meanwhile)
      vm
      (ssh_request 1 (some running_proof))
      0
      "s"
    ≢ ok debug_admission
unfolding service_open
stale_proof_refused_example =
    stale_proof_refused debugging vm 1 meanwhile (ssh_request 1 (some running_proof)) running_proof
      (snapshot_at 1 TargetState.debugging) 0 "s" debug_admission debugging-Inv refl refl
      (omega arith) refl refl

abbrev ssh_handle : AdmissionHandle
ssh_handle = record {
  handle_id = "ssh-1";
  target_key = vm;
  generation = 1;
  admit_epoch = 0;
  op = AdmissionOp.ssh_tier;
  channel = none;
  platform = platform;
  recovery = false;
  state = AdmissionState.pending;
  cancelled = false;
  reaped = false;
}

op_across_transition_never_completes_example :
    complete (run (step opened (notes_transition vm 1)) meanwhile) 1 ≢ ok opened
unfolding service_open
op_across_transition_never_completes_example =
    op_across_transition_never_completes opened 1 ssh_handle opened-Inv refl 1 meanwhile opened refl
      refl
