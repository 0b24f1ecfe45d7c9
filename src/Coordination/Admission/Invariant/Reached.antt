-- ===== src/Coordination/Admission/Invariant/Reached.antt =====
-- Every history of calls keeps the invariant (src/kdive/coordination/admission.py).
use linux_debug_mcp.Base.{ℕ, List, [], ◌∷◌}
use linux_debug_mcp.Coordination.Admission.{AdmissionService, init}
use linux_debug_mcp.Coordination.Admission.Calls.{
  Call, publishes, admits, recovers, admits_ssh, promotes, completes, rolls_back, confirms_reaped,
  abandons, notes_transition, cancels_ssh, closes, invalidates, reopens, marks, clears, step, run,
}
use linux_debug_mcp.Coordination.Admission.Invariant.{Inv}
use linux_debug_mcp.Coordination.Admission.Invariant.Handles.{
  promote-Inv, complete-Inv, rollback-Inv, confirm_reaped-Inv, abandon-Inv,
}
use linux_debug_mcp.Coordination.Admission.Invariant.Admitting.{
  init-Inv, publish_snapshot-Inv, admit-Inv, admit_recovery-Inv, admit_ssh_tier-Inv,
}
use linux_debug_mcp.Coordination.Admission.Invariant.Cancelling.{
  note_execution_transition-Inv, cancel_ssh_tier-Inv, close_admission-Inv, begin_invalidation-Inv,
  reopen-Inv, mark_recovery_required-Inv, clear_recovery_required-Inv,
}

pub step-Inv : (s : AdmissionService) (c : Call) → Inv s → Inv (step s c)
unfolding step
step-Inv s (publishes k snapshot) v = publish_snapshot-Inv s k snapshot v
step-Inv s (admits k request now id) v = admit-Inv s k request now id v
step-Inv s (recovers k request now id) v = admit_recovery-Inv s k request now id v
step-Inv s (admits_ssh k request now id) v = admit_ssh_tier-Inv s k request now id v
step-Inv s (promotes r) v = promote-Inv s r v
step-Inv s (completes r) v = complete-Inv s r v
step-Inv s (rolls_back r) v = rollback-Inv s r v
step-Inv s (confirms_reaped r) v = confirm_reaped-Inv s r v
step-Inv s (abandons r) v = abandon-Inv s r v
step-Inv s (notes_transition k generation) v = note_execution_transition-Inv s k generation v
step-Inv s (cancels_ssh k generation halt_epoch) v = cancel_ssh_tier-Inv s k generation halt_epoch v
step-Inv s (closes k generation) v = close_admission-Inv s k generation v
step-Inv s (invalidates k generation close) v = begin_invalidation-Inv s k generation close v
step-Inv s (reopens k) v = reopen-Inv s k v
step-Inv s (marks k generation) v = mark_recovery_required-Inv s k generation v
step-Inv s (clears k generation) v = clear_recovery_required-Inv s k generation v

pub run_keeps : (s : AdmissionService) (cs : List Call) → Inv s → Inv (run s cs)
unfolding run
run_keeps s [] v = v
run_keeps s (c ∷ cs) v = run_keeps (step s c) cs (step-Inv s c v)

-- Every state that a history of calls reaches satisfies the invariant.
pub run-Inv : (ttl : ℕ) (cs : List Call) → Inv (run (init ttl) cs)
run-Inv ttl cs = run_keeps (init ttl) cs (init-Inv ttl)
