-- ===== src/Coordination/Admission/Admits.antt =====
-- The three admissions of src/kdive/coordination/admission.py admit just the requests that meet
-- the gate's conditions, and answer with a registered handle.
use linux_debug_mcp.Base.{
  ℕ, ◌≡◌, ◌⊎◌, ◌↔◌, String, true, false, Option, none, some, ok, >>=-eq-ok, arith,
}
use linux_debug_mcp.Seams.Target.{TargetKey, TargetState}
use linux_debug_mcp.Seams.TransportState.{TransportRef, OpenRequest, ExecutionState}
use linux_debug_mcp.Coordination.Admission.{
  AdmissionOp, AdmissionService, TargetSnapshot, ExecutionProof,
}
use linux_debug_mcp.Coordination.Admission.Gate.{
  bind_snapshot, validate_open, register, admit, admit_recovery,
}
use linux_debug_mcp.Coordination.Admission.SshTier.{
  parse_execution_state, require_executing_proof, proof_unless_ready, SshRequest, admit_ssh_tier,
}
use linux_debug_mcp.Coordination.Admission.Conditions.{
  Fits, FitsOpen, Ungated, bound_iff, drift_iff, wrong_lease_iff, near_expiry_iff, non_live_iff,
  validate_open_sound, validate_open_complete,
}

-- What `admit` asks for: the target is READY, no tombstone gates it, and the request fits the
-- published snapshot.
abbrev pub Admissible :
    AdmissionService → TargetKey → OpenRequest → ℕ → TargetSnapshot → TransportRef → Type 0
Admissible s k request now snapshot channel =
    FitsOpen s k snapshot channel request now
    × Ungated (s.recovery_required k) snapshot.generation
    × (snapshot.state ≡ TargetState.ready)

module _ (s : AdmissionService) (k : TargetKey) (request : OpenRequest) (now : ℕ)
    (id : String) where
  pub admit_sound :
      (out : AdmissionService × ℕ)
      → admit s k request now id ≡ ok out
      → (snapshot : TargetSnapshot) × (channel : TransportRef) × Admissible s k request now snapshot
          channel
        × (out ≡ register s k AdmissionOp.transport_open (some channel) snapshot false id)
  unfolding admit
  admit_sound out h =
      let (bound, valid, rest) = >>=-eq-ok (validate_open s k request now false) _ h in
      let fits = validate_open_sound s k request now false bound.0 bound.1 valid in
      (bound.0, bound.1, ground arith, ground arith)

  pub admit_complete :
      (snapshot : TargetSnapshot) (channel : TransportRef)
      → Admissible s k request now snapshot channel
      → admit s k request now id
        ≡ ok (register s k AdmissionOp.transport_open (some channel) snapshot false id)
  unfolding admit
  admit_complete snapshot channel (fits, ungated, is_ready) =
      ground (arith, validate_open_complete s k request now false snapshot channel fits ungated)

  pub admit_recovery_sound :
      (out : AdmissionService × ℕ)
      → admit_recovery s k request now id ≡ ok out
      → (snapshot : TargetSnapshot) × (channel : TransportRef) × FitsOpen s k snapshot channel
          request now
        × (s.recovery_required k ≡ some snapshot.generation)
        × (out ≡ register s k AdmissionOp.transport_open (some channel) snapshot true id)
  unfolding admit_recovery
  admit_recovery_sound out h =
      let (bound, valid, rest) = >>=-eq-ok (validate_open s k request now true) _ h in
      let fits = validate_open_sound s k request now true bound.0 bound.1 valid in
      (bound.0, bound.1, ground arith, ground arith, ground arith)

  pub admit_recovery_complete :
      (snapshot : TargetSnapshot) (channel : TransportRef)
      → FitsOpen s k snapshot channel request now
      → s.recovery_required k ≡ some snapshot.generation
      → admit_recovery s k request now id
        ≡ ok (register s k AdmissionOp.transport_open (some channel) snapshot true id)
  unfolding admit_recovery
  admit_recovery_complete snapshot channel fits parked =
      ground (arith, validate_open_complete s k request now true snapshot channel fits tt)

-- A probe's answer that is worth an admission: EXECUTING, of this incarnation and this epoch.
abbrev pub IsFresh : AdmissionService → TargetKey → TargetSnapshot → Option ExecutionProof → Type 0
IsFresh s k snapshot none = ⊥
IsFresh s k snapshot (some proof) =
    (parse_execution_state proof.state ≡ some ExecutionState.executing)
    × (proof.generation ≡ snapshot.generation)
    × (proof.epoch ≡ s.exec_epoch k)

proof_iff :
    (s : AdmissionService) (k : TargetKey) (snapshot : TargetSnapshot)
    (proof : Option ExecutionProof)
    → (proof_unless_ready s k snapshot proof ≡ ok tt)
      ↔ ((snapshot.state ≡ TargetState.ready) ⊎ IsFresh s k snapshot proof)
unfolding proof_unless_ready require_executing_proof
proof_iff s k snapshot none = ground arith
proof_iff s k snapshot (some proof) = ground arith

abbrev pub AdmissibleSsh : AdmissionService → TargetKey → SshRequest → ℕ → TargetSnapshot → Type 0
AdmissibleSsh s k request now snapshot =
    Fits s k snapshot request.generation request.platform request.lease request.min_lease_ttl now
    × Ungated (s.recovery_required k) snapshot.generation
    × ((snapshot.state ≡ TargetState.ready) ⊎ IsFresh s k snapshot request.execution_proof)

module _ (s : AdmissionService) (k : TargetKey) (request : SshRequest) (now : ℕ) (id : String) where
  pub admit_ssh_tier_sound :
      (out : AdmissionService × ℕ)
      → admit_ssh_tier s k request now id ≡ ok out
      → (snapshot : TargetSnapshot) × AdmissibleSsh s k request now snapshot
        × (out ≡ register s k AdmissionOp.ssh_tier none snapshot false id)
  unfolding admit_ssh_tier
  admit_ssh_tier_sound out h =
      let (snapshot, bound, rest) = >>=-eq-ok (bind_snapshot s k request.generation false) _ h in
      (
        snapshot,
        ground (
          arith,
          bound_iff s k request.generation false snapshot,
          drift_iff snapshot request.platform,
          wrong_lease_iff snapshot.lease request.lease,
          near_expiry_iff snapshot.lease request.min_lease_ttl s.default_min_lease_ttl now,
          non_live_iff snapshot.state,
          proof_iff s k snapshot request.execution_proof,
        ),
        ground arith,
      )

  pub admit_ssh_tier_complete :
      (snapshot : TargetSnapshot)
      → AdmissibleSsh s k request now snapshot
      → admit_ssh_tier s k request now id
        ≡ ok (register s k AdmissionOp.ssh_tier none snapshot false id)
  unfolding admit_ssh_tier
  admit_ssh_tier_complete snapshot (fits, ungated, proven) = ground (
    arith,
    bound_iff s k request.generation false snapshot,
    drift_iff snapshot request.platform,
    wrong_lease_iff snapshot.lease request.lease,
    near_expiry_iff snapshot.lease request.min_lease_ttl s.default_min_lease_ttl now,
    non_live_iff snapshot.state,
    proof_iff s k snapshot request.execution_proof,
  )

-- `admit` succeeds just when some published snapshot and channel make the request admissible: the
-- target is open and READY, no tombstone gates it, and the request's target, generation, channel,
-- caps, platform and lease fit the snapshot. It then returns the handle that it registers.
pub admit_exactly :
    (s : AdmissionService) (k : TargetKey) (request : OpenRequest) (now : ℕ) (id : String)
    (out : AdmissionService × ℕ)
    → (admit s k request now id ≡ ok out) ↔ (
        (snapshot : TargetSnapshot) × (channel : TransportRef) × Admissible s k request now snapshot
          channel
        × (out ≡ register s k AdmissionOp.transport_open (some channel) snapshot false id))
admit_exactly s k request now id out = (
  admit_sound s k request now id out,
  λ (snapshot, channel, fits, at). rw at (admit_complete s k request now id snapshot channel fits),
)

-- `admit_recovery` succeeds just when the target is open and live, the request fits the snapshot,
-- and a tombstone of just the snapshot's generation stands. It then returns the handle that it
-- registers.
pub admit_recovery_exactly :
    (s : AdmissionService) (k : TargetKey) (request : OpenRequest) (now : ℕ) (id : String)
    (out : AdmissionService × ℕ)
    → (admit_recovery s k request now id ≡ ok out) ↔ (
        (snapshot : TargetSnapshot) × (channel : TransportRef) × FitsOpen s k snapshot channel
          request now
        × (s.recovery_required k ≡ some snapshot.generation)
        × (out ≡ register s k AdmissionOp.transport_open (some channel) snapshot true id))
admit_recovery_exactly s k request now id out = (
  admit_recovery_sound s k request now id out,
  λ (snapshot, channel, fits, parked, at).
      rw at (admit_recovery_complete s k request now id snapshot channel fits parked),
)

-- `admit_ssh_tier` succeeds just when the target is open, no tombstone gates it, the request fits
-- the snapshot, and the target is READY or else DEBUGGING with a proof that reads EXECUTING at the
-- current generation and execution epoch. It then returns the handle that it registers.
pub admit_ssh_tier_exactly :
    (s : AdmissionService) (k : TargetKey) (request : SshRequest) (now : ℕ) (id : String)
    (out : AdmissionService × ℕ)
    → (admit_ssh_tier s k request now id ≡ ok out) ↔ (
        (snapshot : TargetSnapshot) × AdmissibleSsh s k request now snapshot
        × (out ≡ register s k AdmissionOp.ssh_tier none snapshot false id))
admit_ssh_tier_exactly s k request now id out = (
  admit_ssh_tier_sound s k request now id out,
  λ (snapshot, fits, at). rw at (admit_ssh_tier_complete s k request now id snapshot fits),
)
