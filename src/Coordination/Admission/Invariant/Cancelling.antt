-- ===== src/Coordination/Admission/Invariant/Cancelling.antt =====
-- The epoch fence, the closing and reopening of a target, and its tombstone
-- (src/kdive/coordination/admission.py) keep the invariant.
use linux_debug_mcp.Base.{ℕ, Bool, some, List, arith, update}
use linux_debug_mcp.Seams.Target.{TargetKey, TargetKey-discrete}
use linux_debug_mcp.Coordination.Admission.{AdmissionService}
use linux_debug_mcp.Coordination.Admission.Bindings.{
  note_execution_transition, cancel_one, cancel_all, in_flight, cancel_ssh_tier,
}
use linux_debug_mcp.Coordination.Admission.Lifecycle.{
  close_admission, reopen, mark_recovery_required, clear_recovery_required, begin_invalidation,
}
use linux_debug_mcp.Coordination.Admission.Cancellation.{cancel_all-at}
use linux_debug_mcp.Coordination.Admission.Calls.{after}
use linux_debug_mcp.Coordination.Admission.Invariant.{Inv}

pub note_execution_transition-Inv :
    (s : AdmissionService) (k : TargetKey) (generation : ℕ)
    → Inv s
    → Inv (note_execution_transition s k generation).0
unfolding note_execution_transition
note_execution_transition-Inv s k generation v = record {
  table = λ q j. ground (arith, v.table q j);
  distinct = λ j. ground (arith, v.distinct j);
  allocated = λ q h. ground (arith, v.allocated q);
  fenced = λ q. ground (arith, v.fenced q);
}

cancelled-Inv :
    (s : AdmissionService) (rs : List ℕ) → Inv s → Inv (record s { heap = cancel_all s.heap rs })
unfolding cancel_one
cancelled-Inv s rs v = record {
  table = λ q j. ground (arith, v.table q j, cancel_all-at s.heap rs q);
  distinct = v.distinct;
  allocated = λ q h. ground (arith, v.allocated q h, cancel_all-at s.heap rs q);
  fenced = λ q. ground (arith, v.fenced q, cancel_all-at s.heap rs q);
}

pub cancel_ssh_tier-Inv :
    (s : AdmissionService) (k : TargetKey) (generation halt_epoch : ℕ)
    → Inv s
    → Inv (cancel_ssh_tier s k generation halt_epoch).0
unfolding cancel_ssh_tier
cancel_ssh_tier-Inv s k generation halt_epoch v =
    ground (arith, cancelled-Inv s (in_flight s k generation halt_epoch) v)

-- With its handles cancelled the target may close.
closed-Inv :
    (s : AdmissionService) (k : TargetKey) (generation : ℕ)
    → Inv s
    → Inv (record s {
      closed_at = update TargetKey-discrete s.closed_at k (some generation);
      heap = cancel_all s.heap (s.bindings k);
    })
unfolding cancel_one
closed-Inv s k generation v = record {
  table = λ q j. ground (arith, v.table q j, cancel_all-at s.heap (s.bindings k) q);
  distinct = v.distinct;
  allocated = λ q h. ground (arith, v.allocated q h, cancel_all-at s.heap (s.bindings k) q);
  fenced = λ q. ground (arith, v.fenced q, v.table q k, cancel_all-at s.heap (s.bindings k) q);
}

pub close_admission-Inv :
    (s : AdmissionService) (k : TargetKey) (generation : ℕ)
    → Inv s
    → Inv (close_admission s k generation).0
unfolding close_admission
close_admission-Inv s k generation v =
    ground (arith, cancelled-Inv s (s.bindings k) v, closed-Inv s k generation v)

pub begin_invalidation-Inv :
    (s : AdmissionService) (k : TargetKey) (generation : ℕ) (close : Bool)
    → Inv s
    → Inv (begin_invalidation s k generation close).0
unfolding begin_invalidation
begin_invalidation-Inv s k generation close v = ground (arith, close_admission-Inv s k generation v)

pub reopen-Inv : (s : AdmissionService) (k : TargetKey) → Inv s → Inv (after s (reopen s k))
unfolding reopen
reopen-Inv s k v = record {
  table = λ q j. ground (arith, v.table q j);
  distinct = λ j. ground (arith, v.distinct j);
  allocated = λ q h. ground (arith, v.allocated q);
  fenced = λ q. ground (arith, v.fenced q);
}

pub mark_recovery_required-Inv :
    (s : AdmissionService) (k : TargetKey) (generation : ℕ)
    → Inv s
    → Inv (mark_recovery_required s k generation)
unfolding mark_recovery_required
mark_recovery_required-Inv s k generation v = record {
  table = λ q j. ground (arith, v.table q j);
  distinct = λ j. ground (arith, v.distinct j);
  allocated = λ q h. ground (arith, v.allocated q);
  fenced = λ q. ground (arith, v.fenced q);
}

pub clear_recovery_required-Inv :
    (s : AdmissionService) (k : TargetKey) (expected : ℕ)
    → Inv s
    → Inv (clear_recovery_required s k expected)
unfolding clear_recovery_required
clear_recovery_required-Inv s k expected v = record {
  table = λ q j. ground (arith, v.table q j);
  distinct = λ j. ground (arith, v.distinct j);
  allocated = λ q h. ground (arith, v.allocated q);
  fenced = λ q. ground (arith, v.fenced q);
}
