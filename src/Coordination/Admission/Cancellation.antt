-- ===== src/Coordination/Admission/Cancellation.antt =====
-- Setting the cancel fence on a list of handles (src/kdive/coordination/admission.py), seen at one
-- reference.
use linux_debug_mcp.Base.{
  ℕ, ◌≡◌, refl, Option, none, some, List, [], ◌∷◌, arith, elem, if◌then◌else◌, ℕ_discrete, update,
}
use linux_debug_mcp.Coordination.Admission.{AdmissionHandle}
use linux_debug_mcp.Coordination.Admission.Bindings.{cancel_one, cancel_all}

cancel_one_twice : (o : Option AdmissionHandle) → cancel_one (cancel_one o) ≡ cancel_one o
unfolding cancel_one
cancel_one_twice none = refl
cancel_one_twice (some h) = refl

-- A reference in the list is cancelled, any other is untouched.
pub cancel_all-at :
    (heap : ℕ → Option AdmissionHandle) (rs : List ℕ) (q : ℕ)
    → cancel_all heap rs q ≡ (if elem ℕ_discrete q rs then cancel_one (heap q) else heap q)
unfolding cancel_all elem
cancel_all-at heap [] q = refl
cancel_all-at heap (r ∷ rs) q = ground (
  arith,
  cancel_all-at (update ℕ_discrete heap r (cancel_one (heap r))) rs q,
  cancel_one_twice (heap q),
)
