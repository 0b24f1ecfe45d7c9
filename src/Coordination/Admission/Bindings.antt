-- ===== src/Coordination/Admission/Bindings.antt =====
-- What becomes of an admitted handle: promote, complete, rollback, confirm_reaped, abandon, and the
-- execution-epoch fence: note_execution_transition and cancel_ssh_tier
-- (src/kdive/coordination/admission.py). A handle is given by its reference.
use linux_debug_mcp.Base.{
  ℕ, ◌+◌, Bool, true, false, not, ◌&&◌, ◌||◌, Option, none, some, List, [], ◌∷◌, Result, ok, ◌>>=◌,
  ◌>>◌, if◌then◌else◌, leb, ◌==◌, holds, update, elem, remove, keep_if, ℕ_discrete,
}
use linux_debug_mcp.Seams.Target.{TargetKey, TargetKey-discrete}
use linux_debug_mcp.Coordination.Admission.{
  AdmissionOp, AdmissionOp-discrete, AdmissionState, AdmissionState-discrete, Code, AdmissionError,
  TargetSnapshot, AdmissionHandle, AdmissionService, found, is_live,
}
use linux_debug_mcp.Coordination.Admission.Gate.{is_set, raise_unready}

-- `handle in self._bindings.get(handle.target_key, ())`.
abbrev pub registered : AdmissionService → ℕ → AdmissionHandle → Bool
registered s r h = elem ℕ_discrete r (s.bindings h.target_key)

abbrev in_state : AdmissionHandle → AdmissionState → Bool
in_state h state = holds (AdmissionState-discrete h.state state)

abbrev pub store : AdmissionService → ℕ → AdmissionHandle → AdmissionService
store s r h = record s { heap = update ℕ_discrete s.heap r (some h) }

unfoldable pub promote : AdmissionService → ℕ → Result AdmissionError AdmissionService
promote s r = do
  h ← found (s.heap r)
  raise_unready (not (registered s r h) || not (in_state h AdmissionState.pending))
      Code.handle_not_pending
  raise_unready h.cancelled Code.admission_cancelled
  ok (store s r (record h { state = AdmissionState.promoted }))

-- _dispose_locked: the handle ends in `terminal` and leaves the table.
unfoldable pub dispose :
    AdmissionService → ℕ → AdmissionHandle → AdmissionState → Result AdmissionError AdmissionService
unfolding is_live
dispose s r h terminal = do
  raise_unready (not (registered s r h) || not (is_live h.state)) Code.handle_already_disposed
  ok (record s {
    heap = update ℕ_discrete s.heap r (some (record h { state = terminal }));
    bindings =
        update TargetKey-discrete s.bindings h.target_key (remove r (s.bindings h.target_key));
  })

-- The handle is ssh work whose execution epoch has passed.
unfoldable pub epoch_stale_for_op : AdmissionService → AdmissionHandle → Bool
epoch_stale_for_op s h =
    holds (AdmissionOp-discrete h.op AdmissionOp.ssh_tier)
    && not (h.admit_epoch == s.exec_epoch h.target_key)

unfoldable pub complete : AdmissionService → ℕ → Result AdmissionError AdmissionService
unfolding epoch_stale_for_op
complete s r = do
  h ← found (s.heap r)
  raise_unready h.cancelled Code.admission_cancelled
  raise_unready (epoch_stale_for_op s h) Code.execution_state_changed
  raise_unready
      (in_state h AdmissionState.pending
        && holds (AdmissionOp-discrete h.op AdmissionOp.transport_open))
      Code.invalid_terminal_transition
  dispose s r h AdmissionState.completed

unfoldable pub rollback : AdmissionService → ℕ → Result AdmissionError AdmissionService
rollback s r = do
  h ← found (s.heap r)
  raise_unready
      (in_state h AdmissionState.promoted && (is_set (s.closed_at h.target_key) && not h.reaped))
      Code.reaper_confirmation_required
  dispose s r h AdmissionState.rolled_back

unfoldable pub confirm_reaped : AdmissionService → ℕ → Result AdmissionError AdmissionService
confirm_reaped s r = do
  h ← found (s.heap r)
  raise_unready (not (is_set (s.closed_at h.target_key)) || not h.cancelled) Code.reap_not_permitted
  raise_unready (not (registered s r h)) Code.handle_already_disposed
  ok (store s r (record h { reaped = true }))

unfoldable pub abandon : AdmissionService → ℕ → Result AdmissionError AdmissionService
abandon s r = do
  h ← found (s.heap r)
  raise_unready (not (is_set (s.closed_at h.target_key)) || not h.cancelled)
      Code.abandon_not_permitted
  raise_unready (not h.reaped) Code.reaper_confirmation_required
  dispose s r h AdmissionState.abandoned

is_generation : Option TargetSnapshot → ℕ → Bool
is_generation none generation = false
is_generation (some snapshot) generation = generation == snapshot.generation

-- The event belongs to the published incarnation.
unfoldable pub generation_current : AdmissionService → TargetKey → ℕ → Bool
unfolding is_generation
generation_current s k generation = is_generation (s.snapshots k) generation

-- Returns the epoch that is current afterwards.
unfoldable pub note_execution_transition : AdmissionService → TargetKey → ℕ → AdmissionService × ℕ
unfolding generation_current
note_execution_transition s k generation =
    if generation_current s k generation
    then (
      record s { exec_epoch = update TargetKey-discrete s.exec_epoch k (s.exec_epoch k + 1) },
      s.exec_epoch k + 1,
    )
    else (s, s.exec_epoch k)

unfoldable pub cancel_one : Option AdmissionHandle → Option AdmissionHandle
cancel_one none = none
cancel_one (some h) = some (record h { cancelled = true })

-- `for handle in handles: handle._cancel.set()`.
unfoldable pub cancel_all : (ℕ → Option AdmissionHandle) → List ℕ → ℕ → Option AdmissionHandle
unfolding cancel_one
cancel_all heap [] = heap
cancel_all heap (r ∷ rs) = cancel_all (update ℕ_discrete heap r (cancel_one (heap r))) rs

-- The handle was in flight across the halt.
unfoldable pub spans_halt : Option AdmissionHandle → ℕ → ℕ → Bool
spans_halt none generation halt_epoch = false
spans_halt (some h) generation halt_epoch =
    holds (AdmissionOp-discrete h.op AdmissionOp.ssh_tier)
    && (h.generation == generation && leb h.admit_epoch halt_epoch)

unfoldable pub in_flight : AdmissionService → TargetKey → ℕ → ℕ → List ℕ
unfolding spans_halt
in_flight s k generation halt_epoch =
    keep_if (λ r. spans_halt (s.heap r) generation halt_epoch) (s.bindings k)

unfoldable pub cancel_ssh_tier : AdmissionService → TargetKey → ℕ → ℕ → AdmissionService × List ℕ
unfolding generation_current
cancel_ssh_tier s k generation halt_epoch =
    if generation_current s k generation
    then (
      record s { heap = cancel_all s.heap (in_flight s k generation halt_epoch) },
      in_flight s k generation halt_epoch,
    )
    else (s, [])
