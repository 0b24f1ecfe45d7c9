-- ===== src/Coordination/Admission/Returns.antt =====
-- What the methods of src/kdive/coordination/admission.py that work on one handle have tested, and
-- the state that they leave, where they return.
use linux_debug_mcp.Base.{
  ℕ, ◌≡◌, true, false, some, ok, arith, update, remove, ℕ_discrete, Option-cases, ◌⊎◌, inl, inr,
}
use linux_debug_mcp.Seams.Target.{TargetKey-discrete}
use linux_debug_mcp.Coordination.Admission.{
  AdmissionService, AdmissionHandle, AdmissionState, AdmissionOp, is_live,
}
use linux_debug_mcp.Coordination.Admission.Gate.{is_set}
use linux_debug_mcp.Coordination.Admission.Bindings.{
  registered, store, promote, dispose, epoch_stale_for_op, complete, rollback, confirm_reaped,
  abandon,
}

-- The state in which handle `h` at reference `r` has been disposed of.
abbrev pub disposed : AdmissionService → ℕ → AdmissionHandle → AdmissionState → AdmissionService
disposed s r h terminal = record s {
  heap = update ℕ_discrete s.heap r (some (record h { state = terminal }));
  bindings = update TargetKey-discrete s.bindings h.target_key (remove r (s.bindings h.target_key));
}

abbrev pub Disposes :
    AdmissionService → ℕ → AdmissionHandle → AdmissionState → AdmissionService → Type 0
Disposes s r h terminal s' =
    (s.heap r ≡ some h)
    × (registered s r h ≡ true)
    × (is_live h.state ≡ true)
    × (s' ≡ disposed s r h terminal)

module _ (s : AdmissionService) (r : ℕ) (s' : AdmissionService) where
  dispose-ok :
      (h : AdmissionHandle) (terminal : AdmissionState)
      → s.heap r ≡ some h
      → dispose s r h terminal ≡ ok s'
      → Disposes s r h terminal s'
  unfolding dispose
  dispose-ok h terminal e m = ground arith

  pub promote-ok :
      promote s r ≡ ok s'
      → (h : AdmissionHandle) × (s.heap r ≡ some h)
        × (registered s r h ≡ true)
        × (h.state ≡ AdmissionState.pending)
        × (h.cancelled ≡ false)
        × (s' ≡ store s r (record h { state = AdmissionState.promoted }))
  unfolding promote
  promote-ok m = ground arith

  pub complete-ok :
      complete s r ≡ ok s'
      → (h : AdmissionHandle) × (h.cancelled ≡ false)
        × (epoch_stale_for_op s h ≡ false)
        × ((h.state ≡ AdmissionState.promoted) ⊎ (h.op ≡ AdmissionOp.ssh_tier))
        × Disposes s r h AdmissionState.completed s'
  unfolding complete is_live
  complete-ok m = elim (Option-cases (s.heap r)) [
    | inl e ↦ ground arith
    | inr (h, e) ↦ (
      h,
      ground arith,
      ground arith,
      ground (arith, dispose-ok h AdmissionState.completed e),
      ground (arith, dispose-ok h AdmissionState.completed e),
    )
  ]

  pub rollback-ok :
      rollback s r ≡ ok s'
      → (h : AdmissionHandle) × ((h.state ≡ AdmissionState.promoted
          → is_set (s.closed_at h.target_key) ≡ true
          → h.reaped ≡ true))
        × Disposes s r h AdmissionState.rolled_back s'
  unfolding rollback
  rollback-ok m = elim (Option-cases (s.heap r)) [
    | inl e ↦ ground arith
    | inr (h, e) ↦ (h, ground arith, ground (arith, dispose-ok h AdmissionState.rolled_back e))
  ]

  pub abandon-ok :
      abandon s r ≡ ok s'
      → (h : AdmissionHandle) × (is_set (s.closed_at h.target_key) ≡ true)
        × (h.cancelled ≡ true)
        × (h.reaped ≡ true)
        × Disposes s r h AdmissionState.abandoned s'
  unfolding abandon
  abandon-ok m = elim (Option-cases (s.heap r)) [
    | inl e ↦ ground arith
    | inr (h, e) ↦ (
      h,
      ground arith,
      ground arith,
      ground arith,
      ground (arith, dispose-ok h AdmissionState.abandoned e),
    )
  ]

  pub confirm_reaped-ok :
      confirm_reaped s r ≡ ok s'
      → (h : AdmissionHandle) × (s.heap r ≡ some h)
        × (is_set (s.closed_at h.target_key) ≡ true)
        × (h.cancelled ≡ true)
        × (registered s r h ≡ true)
        × (s' ≡ store s r (record h { reaped = true }))
  unfolding confirm_reaped
  confirm_reaped-ok m = ground arith
