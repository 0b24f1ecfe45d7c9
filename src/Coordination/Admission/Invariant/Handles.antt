-- ===== src/Coordination/Admission/Invariant/Handles.antt =====
-- The methods of src/kdive/coordination/admission.py that dispose of one handle keep the invariant.
use linux_debug_mcp.Base.{ℕ, ◌≡◌, false, some, arith, elem-remove, Distinct-remove, refl}
use linux_debug_mcp.Coordination.Admission.{
  AdmissionService, AdmissionHandle, AdmissionState, is_live,
}
use linux_debug_mcp.Coordination.Admission.Bindings.{
  promote, complete, rollback, confirm_reaped, abandon,
}
use linux_debug_mcp.Coordination.Admission.Calls.{after, after-ok}
use linux_debug_mcp.Coordination.Admission.Returns.{
  disposed, Disposes, complete-ok, rollback-ok, abandon-ok,
}
use linux_debug_mcp.Coordination.Admission.Invariant.{Inv}

pub promote-Inv : (s : AdmissionService) (r : ℕ) → Inv s → Inv (after s (promote s r))
unfolding promote is_live
promote-Inv s r v = record {
  table = λ q k. ground (arith, v.table q k, v.table r k);
  distinct = λ k. ground (arith, v.distinct k);
  allocated = λ q h. ground (arith, v.allocated q);
  fenced = λ q. ground (arith, v.fenced q, v.fenced r);
}

pub confirm_reaped-Inv : (s : AdmissionService) (r : ℕ) → Inv s → Inv (after s (confirm_reaped s r))
unfolding confirm_reaped is_live
confirm_reaped-Inv s r v = record {
  table = λ q k. ground (arith, v.table q k, v.table r k);
  distinct = λ k. ground (arith, v.distinct k);
  allocated = λ q h. ground (arith, v.allocated q);
  fenced = λ q. ground (arith, v.fenced q, v.fenced r);
}

module _ (s : AdmissionService) (r : ℕ) (h : AdmissionHandle) (terminal : AdmissionState) where
  disposed-Inv :
      s.heap r ≡ some h → is_live terminal ≡ false → Inv s → Inv (disposed s r h terminal)
  disposed-Inv e final v = record {
    table = λ q k. ground (
      arith,
      v.table q k,
      v.table r k,
      elem-remove q r (s.bindings h.target_key) (v.distinct h.target_key),
    );
    distinct = λ k. ground (
      arith,
      v.distinct k,
      Distinct-remove r (s.bindings h.target_key) (v.distinct h.target_key),
    );
    allocated = λ q h. ground (arith, v.allocated q);
    fenced = λ q. ground (arith, v.fenced q, v.fenced r);
  }

  Disposes-Inv :
      (s' : AdmissionService)
      → is_live terminal ≡ false
      → Inv s
      → Disposes s r h terminal s'
      → Inv s'
  Disposes-Inv s' final v (e, _, _, at) = rw at (disposed-Inv e final v)

pub complete-Inv : (s : AdmissionService) (r : ℕ) → Inv s → Inv (after s (complete s r))
unfolding is_live
complete-Inv s r v = after-ok Inv s (complete s r) v λ s' m.
    let returned = complete-ok s r s' m in
    Disposes-Inv s r returned.0 AdmissionState.completed s' refl v returned.4

pub rollback-Inv : (s : AdmissionService) (r : ℕ) → Inv s → Inv (after s (rollback s r))
unfolding is_live
rollback-Inv s r v = after-ok Inv s (rollback s r) v λ s' m.
    let returned = rollback-ok s r s' m in
    Disposes-Inv s r returned.0 AdmissionState.rolled_back s' refl v returned.2

pub abandon-Inv : (s : AdmissionService) (r : ℕ) → Inv s → Inv (after s (abandon s r))
unfolding is_live
abandon-Inv s r v = after-ok Inv s (abandon s r) v λ s' m.
    let returned = abandon-ok s r s' m in
    Disposes-Inv s r returned.0 AdmissionState.abandoned s' refl v returned.4
