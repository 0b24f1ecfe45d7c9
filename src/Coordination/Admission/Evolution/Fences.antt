-- ===== src/Coordination/Admission/Evolution/Fences.antt =====
-- What the generation and execution-epoch fences of src/kdive/coordination/admission.py rule out,
-- whatever calls come in between.
use linux_debug_mcp.Base.{ℕ, ◌≤◌, ◌<◌, ◌≡◌, ◌≢◌, true, some, List, String, arith, ok}
use linux_debug_mcp.Seams.Target.{TargetKey, TargetState}
use linux_debug_mcp.Coordination.Admission.{
  AdmissionService, AdmissionHandle, AdmissionOp, TargetSnapshot, ExecutionProof,
}
use linux_debug_mcp.Coordination.Admission.SshTier.{SshRequest, admit_ssh_tier}
use linux_debug_mcp.Coordination.Admission.Bindings.{
  promote, complete, note_execution_transition, generation_current, epoch_stale_for_op,
}
use linux_debug_mcp.Coordination.Admission.Admits.{admit_ssh_tier_sound}
use linux_debug_mcp.Coordination.Admission.Returns.{promote-ok, complete-ok}
use linux_debug_mcp.Coordination.Admission.Calls.{Call, notes_transition, step, run}
use linux_debug_mcp.Coordination.Admission.Invariant.{Inv}
use linux_debug_mcp.Coordination.Admission.Invariant.Reached.{step-Inv}
use linux_debug_mcp.Coordination.Admission.Evolution.Steps.{run-Later}

-- The epoch has moved past `s.exec_epoch k` for good once a current transition is noted.
epoch-after_transition :
    (s : AdmissionService) (k : TargetKey) (generation : ℕ) (cs : List Call)
    → Inv s
    → generation_current s k generation ≡ true
    → s.exec_epoch k < (run (step s (notes_transition k generation)) cs).exec_epoch k
unfolding step note_execution_transition
epoch-after_transition s k generation cs v current = ground (
  arith,
  (run-Later (step s (notes_transition k generation)) cs
        (step-Inv s (notes_transition k generation) v)).epochs
      k,
)

-- After an execution transition of the current generation is noted, no history lets a proof that
-- was stamped before it admit ssh work while the target is DEBUGGING.
pub stale_proof_refused :
    (s : AdmissionService) (k : TargetKey) (generation : ℕ) (cs : List Call) (request : SshRequest)
    (proof : ExecutionProof) (snapshot : TargetSnapshot) (now : ℕ) (id : String)
    (out : AdmissionService × ℕ)
    → Inv s
    → generation_current s k generation ≡ true
    → request.execution_proof ≡ some proof
    → proof.epoch ≤ s.exec_epoch k
    → (run (step s (notes_transition k generation)) cs).snapshots k ≡ some snapshot
    → snapshot.state ≡ TargetState.debugging
    → admit_ssh_tier (run (step s (notes_transition k generation)) cs) k request now id ≢ ok out
stale_proof_refused s k generation cs request proof snapshot now id out v current given old
      published debugging m =
    let s' = run (step s (notes_transition k generation)) cs in
    let (bound, admissible, at) = admit_ssh_tier_sound s' k request now id out m in
    ground (
      arith,
      admissible.0.published,
      admissible.2,
      epoch-after_transition s k generation cs v current,
    )

module _ (s : AdmissionService) (r : ℕ) (h : AdmissionHandle) (v : Inv s)
    (e : s.heap r ≡ some h) where
  -- ssh work that was admitted before a current execution transition of its target can never
  -- report success, whether or not its cancellation is ever delivered.
  pub op_across_transition_never_completes :
      (generation : ℕ) (cs : List Call) (done : AdmissionService)
      → h.op ≡ AdmissionOp.ssh_tier
      → generation_current s h.target_key generation ≡ true
      → complete (run (step s (notes_transition h.target_key generation)) cs) r ≢ ok done
  unfolding epoch_stale_for_op step note_execution_transition
  op_across_transition_never_completes generation cs done ssh current m =
      let t = step s (notes_transition h.target_key generation) in
      let later = run-Later t cs (step-Inv s (notes_transition h.target_key generation) v) in
      let (h', uncancelled, fresh, committed, disposes) = complete-ok (run t cs) r done m in
      ground (
        arith,
        v.fenced r,
        later.handles r,
        disposes.0,
        fresh,
        epoch-after_transition s h.target_key generation cs v current,
      )

  -- A handle whose cancel fence is set is never promoted and never completed afterwards.
  pub cancelled_never_commits :
      (cs : List Call) (done : AdmissionService)
      → h.cancelled ≡ true
      → (promote (run s cs) r ≢ ok done) × (complete (run s cs) r ≢ ok done)
  cancelled_never_commits cs done cancelled = (
    λ m.
        let (h', e', listed, was_pending, uncancelled, at) = promote-ok (run s cs) r done m in
        ground (arith, (run-Later s cs v).handles r),
    λ m.
        let (h', uncancelled, fresh, committed, disposes) = complete-ok (run s cs) r done m in
        ground (arith, (run-Later s cs v).handles r, disposes.0),
  )
