-- ===== src/Coordination/Admission/Evolution/Steps.antt =====
-- Each call of src/kdive/coordination/admission.py, and so each history, only moves forward.
use linux_debug_mcp.Base.{List, [], ◌∷◌}
use linux_debug_mcp.Coordination.Admission.{AdmissionService}
use linux_debug_mcp.Coordination.Admission.Calls.{
  Call, publishes, admits, recovers, admits_ssh, promotes, completes, rolls_back, confirms_reaped,
  abandons, notes_transition, cancels_ssh, closes, invalidates, reopens, marks, clears, step, run,
}
use linux_debug_mcp.Coordination.Admission.Invariant.{Inv}
use linux_debug_mcp.Coordination.Admission.Invariant.Reached.{step-Inv}
use linux_debug_mcp.Coordination.Admission.Evolution.{Later, Later-refl, Later-trans}
use linux_debug_mcp.Coordination.Admission.Evolution.Admitting.{
  publish_snapshot-Later, admit-Later, admit_recovery-Later, admit_ssh_tier-Later,
}
use linux_debug_mcp.Coordination.Admission.Evolution.Handles.{
  promote-Later, complete-Later, rollback-Later, confirm_reaped-Later, abandon-Later,
  note_execution_transition-Later, cancel_ssh_tier-Later, close_admission-Later,
  begin_invalidation-Later, reopen-Later, mark_recovery_required-Later,
  clear_recovery_required-Later,
}

pub step-Later : (s : AdmissionService) (c : Call) → Inv s → Later s (step s c)
unfolding step
step-Later s (publishes k snapshot) v = publish_snapshot-Later s k snapshot
step-Later s (admits k request now id) v = admit-Later s k request now id v
step-Later s (recovers k request now id) v = admit_recovery-Later s k request now id v
step-Later s (admits_ssh k request now id) v = admit_ssh_tier-Later s k request now id v
step-Later s (promotes r) v = promote-Later s r
step-Later s (completes r) v = complete-Later s r
step-Later s (rolls_back r) v = rollback-Later s r
step-Later s (confirms_reaped r) v = confirm_reaped-Later s r
step-Later s (abandons r) v = abandon-Later s r
step-Later s (notes_transition k generation) v = note_execution_transition-Later s k generation
step-Later s (cancels_ssh k generation halt_epoch) v =
    cancel_ssh_tier-Later s k generation halt_epoch
step-Later s (closes k generation) v = close_admission-Later s k generation
step-Later s (invalidates k generation close) v = begin_invalidation-Later s k generation close
step-Later s (reopens k) v = reopen-Later s k
step-Later s (marks k generation) v = mark_recovery_required-Later s k generation
step-Later s (clears k generation) v = clear_recovery_required-Later s k generation

-- Along a history no handle loses its identity, a fence or its final state, a cancelled handle is
-- neither promoted nor completed, and no epoch or published generation goes back.
pub run-Later : (s : AdmissionService) (cs : List Call) → Inv s → Later s (run s cs)
unfolding run
run-Later s [] v = Later-refl s
run-Later s (c ∷ cs) v =
    Later-trans s (step s c) (run (step s c) cs) (step-Later s c v)
      (run-Later (step s c) cs (step-Inv s c v))
