-- ===== src/Coordination/Admission/Tests/Gate.antt =====
-- The gate's theorems at concrete requests (src/kdive/coordination/admission.py).
use linux_debug_mcp.Base.{ℕ, ◌≡◌, ◌↔◌, refl, true, false, none, some, [], ◌∷◌, ok, err}
use linux_debug_mcp.Seams.Target.{ErrorCategory, TargetState}
use linux_debug_mcp.Seams.TransportState.{TransportRef}
use linux_debug_mcp.Coordination.Admission.{
  AdmissionOp, AdmissionService, Code, refusal, TargetSnapshot, init,
}
use linux_debug_mcp.Coordination.Admission.Gate.{register, admit, admit_recovery}
use linux_debug_mcp.Coordination.Admission.SshTier.{admit_ssh_tier}
use linux_debug_mcp.Coordination.Admission.Calls.{publishes, marks, step, run}
use linux_debug_mcp.Coordination.Admission.Conditions.{FitsOpen}
use linux_debug_mcp.Coordination.Admission.Admits.{
  Admissible, AdmissibleSsh, admit_exactly, admit_recovery_exactly, admit_ssh_tier_exactly,
}
use linux_debug_mcp.Coordination.Admission.Tests.{
  vm, stub, snapshot_at, open_request, ssh_request, service_open, debugging, running_proof,
}

abbrev debug_admission : AdmissionService × ℕ
debug_admission =
    register debugging vm AdmissionOp.ssh_tier none (snapshot_at 1 TargetState.debugging) false "s"

fresh_proof_admits :
    admit_ssh_tier debugging vm (ssh_request 1 (some running_proof)) 0 "s" ≡ ok debug_admission
unfolding service_open
fresh_proof_admits = refl

admit_ssh_tier_exactly_example :
    (admit_ssh_tier debugging vm (ssh_request 1 (some running_proof)) 0 "s" ≡ ok debug_admission)
    ↔ ((snapshot : TargetSnapshot) × AdmissibleSsh debugging vm
          (ssh_request 1 (some running_proof))
          0
          snapshot
        × (debug_admission ≡ register debugging vm AdmissionOp.ssh_tier none snapshot false "s"))
admit_ssh_tier_exactly_example =
    admit_ssh_tier_exactly debugging vm (ssh_request 1 (some running_proof)) 0 "s" debug_admission

abbrev idle : AdmissionService
idle = run (init 300) (publishes vm (snapshot_at 1 TargetState.ready) ∷ [])

abbrev first_open : AdmissionService × ℕ
first_open =
    register idle vm AdmissionOp.transport_open (some stub) (snapshot_at 1 TargetState.ready) false
      "o"

admit_exactly_example : (admit idle vm (open_request 1) 0 "o" ≡ ok first_open) ↔ (
    (snapshot : TargetSnapshot) × (channel : TransportRef) × Admissible idle vm
      (open_request 1)
      0
      snapshot
      channel
    × (first_open ≡ register idle vm AdmissionOp.transport_open (some channel) snapshot false "o"))
admit_exactly_example = admit_exactly idle vm (open_request 1) 0 "o" first_open

abbrev parked : AdmissionService
parked = step idle (marks vm 1)

abbrev recovered : AdmissionService × ℕ
recovered =
    register parked vm AdmissionOp.transport_open (some stub) (snapshot_at 1 TargetState.ready) true
      "r"

recovery_admits : admit_recovery parked vm (open_request 1) 0 "r" ≡ ok recovered
unfolding service_open
recovery_admits = refl

admit_recovery_exactly_example :
    (admit_recovery parked vm (open_request 1) 0 "r" ≡ ok recovered) ↔ (
      (snapshot : TargetSnapshot) × (channel : TransportRef) × FitsOpen parked vm snapshot channel
        (open_request 1)
        0
      × (parked.recovery_required vm ≡ some snapshot.generation)
      × (recovered
          ≡ register parked vm AdmissionOp.transport_open (some channel) snapshot true "r"))
admit_recovery_exactly_example = admit_recovery_exactly parked vm (open_request 1) 0 "r" recovered

ordinary_refused :
    admit parked vm (open_request 1) 0 "o"
    ≡ err (refusal ErrorCategory.readiness_failure Code.recovery_required)
unfolding service_open
ordinary_refused = refl
