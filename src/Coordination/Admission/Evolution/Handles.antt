-- ===== src/Coordination/Admission/Evolution/Handles.antt =====
-- What is done to one handle, or to the fences of many (src/kdive/coordination/admission.py), only
-- moves the state forward.
use linux_debug_mcp.Base.{ℕ, ◌≡◌, ◌≢◌, Bool, true, Option, some, List, arith, update}
use linux_debug_mcp.Seams.Target.{TargetKey, TargetKey-discrete}
use linux_debug_mcp.Coordination.Admission.{
  AdmissionService, AdmissionHandle, AdmissionState, is_live,
}
use linux_debug_mcp.Coordination.Admission.Bindings.{
  promote, complete, rollback, confirm_reaped, abandon, note_execution_transition, cancel_one,
  cancel_all, in_flight, cancel_ssh_tier, store,
}
use linux_debug_mcp.Coordination.Admission.Lifecycle.{
  close_admission, reopen, mark_recovery_required, clear_recovery_required, begin_invalidation,
}
use linux_debug_mcp.Coordination.Admission.Returns.{
  Disposes, promote-ok, complete-ok, rollback-ok, abandon-ok, confirm_reaped-ok,
}
use linux_debug_mcp.Coordination.Admission.Cancellation.{cancel_all-at}
use linux_debug_mcp.Coordination.Admission.Calls.{after, after-ok}
use linux_debug_mcp.Coordination.Admission.Evolution.{Evolves, Later, EvolvesAt-refl, Later-refl}

module _ (s : AdmissionService) where
  store-Later :
      (r : ℕ) (h h' : AdmissionHandle) → s.heap r ≡ some h → Evolves h h' → Later s (store s r h')
  store-Later r h h' e v = record {
    handles = λ q. ground (arith, EvolvesAt-refl (s.heap q));
    epochs = λ j. ground arith;
    generations = (Later-refl s).generations;
  }

  Disposes-Later :
      (r : ℕ) (h : AdmissionHandle) (terminal : AdmissionState) (s' : AdmissionService)
      → terminal ≢ AdmissionState.promoted
      → terminal ≢ AdmissionState.pending
      → (h.cancelled ≡ true → terminal ≢ AdmissionState.completed)
      → Disposes s r h terminal s'
      → Later s s'
  Disposes-Later r h terminal s' a b c (e, listed, live, at) = rw at (record {
    handles = λ q. ground (arith, EvolvesAt-refl (s.heap q));
    epochs = λ j. ground arith;
    generations = (Later-refl s).generations;
  })

  pub promote-Later : (r : ℕ) → Later s (after s (promote s r))
  unfolding is_live
  promote-Later r = after-ok (Later s) s (promote s r) (Later-refl s) λ s' m.
      let (h, e, listed, was_pending, uncancelled, at) = promote-ok s r s' m in
      rw at (store-Later r h (record h { state = AdmissionState.promoted }) e (ground arith))

  pub confirm_reaped-Later : (r : ℕ) → Later s (after s (confirm_reaped s r))
  confirm_reaped-Later r = after-ok (Later s) s (confirm_reaped s r) (Later-refl s) λ s' m.
      let (h, e, closed, cancelled, listed, at) = confirm_reaped-ok s r s' m in
      rw at (store-Later r h (record h { reaped = true }) e (ground arith))

  pub complete-Later : (r : ℕ) → Later s (after s (complete s r))
  complete-Later r = after-ok (Later s) s (complete s r) (Later-refl s) λ s' m.
      let (h, uncancelled, fresh, committed, disposes) = complete-ok s r s' m in
      Disposes-Later r h AdmissionState.completed s' (λ e. cc) (λ e. cc) (λ c e. cc) disposes

  pub rollback-Later : (r : ℕ) → Later s (after s (rollback s r))
  rollback-Later r = after-ok (Later s) s (rollback s r) (Later-refl s) λ s' m.
      let (h, proven, disposes) = rollback-ok s r s' m in
      Disposes-Later r h AdmissionState.rolled_back s' (λ e. cc) (λ e. cc) (λ c e. cc) disposes

  pub abandon-Later : (r : ℕ) → Later s (after s (abandon s r))
  abandon-Later r = after-ok (Later s) s (abandon s r) (Later-refl s) λ s' m.
      let (h, closed, cancelled, reaped, disposes) = abandon-ok s r s' m in
      Disposes-Later r h AdmissionState.abandoned s' (λ e. cc) (λ e. cc) (λ c e. cc) disposes

  pub note_execution_transition-Later :
      (k : TargetKey) (generation : ℕ) → Later s (note_execution_transition s k generation).0
  unfolding note_execution_transition
  note_execution_transition-Later k generation = record {
    handles = λ q. ground (arith, EvolvesAt-refl (s.heap q));
    epochs = λ j. ground arith;
    generations = λ j. ground (arith, (Later-refl s).generations j);
  }

  -- Setting fences moves forward, whatever becomes of the closed targets.
  cancelled-Later :
      (rs : List ℕ) (closed_at : TargetKey → Option ℕ)
      → Later s (record s { heap = cancel_all s.heap rs; closed_at = closed_at })
  unfolding cancel_one
  cancelled-Later rs closed_at = record {
    handles = λ q. ground (arith, EvolvesAt-refl (s.heap q), cancel_all-at s.heap rs q);
    epochs = λ j. ground arith;
    generations = (Later-refl s).generations;
  }

  pub cancel_ssh_tier-Later :
      (k : TargetKey) (generation halt_epoch : ℕ)
      → Later s (cancel_ssh_tier s k generation halt_epoch).0
  unfolding cancel_ssh_tier
  cancel_ssh_tier-Later k generation halt_epoch =
      ground
        (arith, Later-refl s, cancelled-Later (in_flight s k generation halt_epoch) s.closed_at)

  pub close_admission-Later :
      (k : TargetKey) (generation : ℕ) → Later s (close_admission s k generation).0
  unfolding close_admission
  close_admission-Later k generation = ground (
    arith,
    Later-refl s,
    cancelled-Later (s.bindings k) s.closed_at,
    cancelled-Later (s.bindings k) (update TargetKey-discrete s.closed_at k (some generation)),
  )

  pub begin_invalidation-Later :
      (k : TargetKey) (generation : ℕ) (close : Bool)
      → Later s (begin_invalidation s k generation close).0
  unfolding begin_invalidation
  begin_invalidation-Later k generation close =
      ground (arith, Later-refl s, close_admission-Later k generation)

  pub reopen-Later : (k : TargetKey) → Later s (after s (reopen s k))
  unfolding reopen
  reopen-Later k = record {
    handles = λ q. ground (arith, EvolvesAt-refl (s.heap q));
    epochs = λ j. ground arith;
    generations = λ j. ground (arith, (Later-refl s).generations j);
  }

  pub mark_recovery_required-Later :
      (k : TargetKey) (generation : ℕ) → Later s (mark_recovery_required s k generation)
  unfolding mark_recovery_required
  mark_recovery_required-Later k generation = record {
    handles = λ q. ground (arith, EvolvesAt-refl (s.heap q));
    epochs = λ j. ground arith;
    generations = λ j. ground (arith, (Later-refl s).generations j);
  }

  pub clear_recovery_required-Later :
      (k : TargetKey) (expected : ℕ) → Later s (clear_recovery_required s k expected)
  unfolding clear_recovery_required
  clear_recovery_required-Later k expected = record {
    handles = λ q. ground (arith, EvolvesAt-refl (s.heap q));
    epochs = λ j. ground arith;
    generations = λ j. ground (arith, (Later-refl s).generations j);
  }
