-- ===== src/Coordination/Admission/Lifecycle.antt =====
-- Closing and reopening a target, and its recovery tombstone: close_admission, reopen,
-- mark_recovery_required, clear_recovery_required and the admission half of invalidate_lifecycle
-- (src/kdive/coordination/admission.py).
use linux_debug_mcp.Base.{
  ℕ, Bool, true, false, not, Option, none, some, List, [], ◌∷◌, Result, ok, ◌>>◌, if◌then◌else◌,
  ltb, ◌==◌, update,
}
use linux_debug_mcp.Seams.Target.{TargetKey, TargetKey-discrete}
use linux_debug_mcp.Coordination.Admission.{Code, AdmissionError, TargetSnapshot, AdmissionService}
use linux_debug_mcp.Coordination.Admission.Gate.{is_set}
use linux_debug_mcp.Coordination.Admission.Bindings.{cancel_all}
use linux_debug_mcp.Coordination.Admission.Gate.{raise_unready}

advanced_past : Option TargetSnapshot → ℕ → Bool
advanced_past none generation = false
advanced_past (some snapshot) generation = ltb generation snapshot.generation

-- A close for an incarnation that the target has left behind.
unfoldable pub is_stale_close : AdmissionService → TargetKey → ℕ → Bool
unfolding advanced_past
is_stale_close s k generation =
    if is_set (s.closed_at k) then false else advanced_past (s.snapshots k) generation

-- Set the cancel fence on every binding of the target.
cancel_bindings : AdmissionService → TargetKey → AdmissionService
cancel_bindings s k = record s { heap = cancel_all s.heap (s.bindings k) }

-- Returns the cancelled handles.
unfoldable pub close_admission : AdmissionService → TargetKey → ℕ → AdmissionService × List ℕ
unfolding is_stale_close cancel_bindings
close_admission s k generation =
    if is_set (s.closed_at k)
    then (cancel_bindings s k, s.bindings k)
    else if is_stale_close s k generation
    then (s, [])
    else (
      cancel_bindings
          (record s { closed_at = update TargetKey-discrete s.closed_at k (some generation) }) k,
      s.bindings k,
    )

is_empty : List ℕ → Bool
is_empty [] = true
is_empty (r ∷ rs) = false

unfoldable pub reopen_closed :
    AdmissionService → TargetKey → ℕ → Result AdmissionError AdmissionService
unfolding advanced_past is_empty
reopen_closed s k closed_generation = do
  raise_unready (not (advanced_past (s.snapshots k) closed_generation)) Code.generation_not_advanced
  raise_unready (not (is_empty (s.bindings k))) Code.bindings_outstanding
  ok (record s { closed_at = update TargetKey-discrete s.closed_at k none })

reopen_at : AdmissionService → TargetKey → Option ℕ → Result AdmissionError AdmissionService
unfolding reopen_closed
reopen_at s k none = ok s
reopen_at s k (some closed_generation) = reopen_closed s k closed_generation

unfoldable pub reopen : AdmissionService → TargetKey → Result AdmissionError AdmissionService
unfolding reopen_at
reopen s k = reopen_at s k (s.closed_at k)

newer_than : Option ℕ → ℕ → Bool
newer_than none generation = false
newer_than (some existing) generation = ltb generation existing

unfoldable pub mark_recovery_required : AdmissionService → TargetKey → ℕ → AdmissionService
unfolding newer_than
mark_recovery_required s k generation =
    if newer_than (s.recovery_required k) generation then s else record s {
      recovery_required = update TargetKey-discrete s.recovery_required k (some generation);
    }

is_at : Option ℕ → ℕ → Bool
is_at none generation = false
is_at (some existing) generation = existing == generation

unfoldable pub clear_recovery_required : AdmissionService → TargetKey → ℕ → AdmissionService
unfolding is_at
clear_recovery_required s k expected =
    if is_at (s.recovery_required k) expected
    then record s { recovery_required = update TargetKey-discrete s.recovery_required k none }
    else s

-- Under the lock: the new state, and whether the dispatcher is to emit the event. The code emits
-- after it has released the lock.
unfoldable pub begin_invalidation :
    AdmissionService → TargetKey → ℕ → Bool → AdmissionService × Bool
unfolding is_stale_close
begin_invalidation s k generation close =
    if is_stale_close s k generation
    then (s, false)
    else if close
    then ((close_admission s k generation).0, true)
    else (s, true)
