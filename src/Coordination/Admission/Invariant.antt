-- ===== src/Coordination/Admission/Invariant.antt =====
-- What every reachable state of AdmissionService (src/kdive/coordination/admission.py) satisfies:
-- the binding table agrees with the handles, and the fences with the table.
pub mod Handles
pub mod Admitting
pub mod Cancelling
pub mod Reached
use linux_debug_mcp.Base.{
  ℕ, ◌≤◌, ◌<◌, ◌≡◌, Bool, true, false, ◌&&◌, Option, none, some, List, arith, holds, elem, Distinct,
  ℕ_discrete,
}
use linux_debug_mcp.Seams.Target.{TargetKey, TargetKey-discrete}
use linux_debug_mcp.Coordination.Admission.Gate.{is_set}
use linux_debug_mcp.Coordination.Admission.{
  AdmissionService, AdmissionHandle, TargetSnapshot, is_live,
}

-- Whether a reference to this handle belongs in the table of target `k`.
abbrev pub belongs : Option AdmissionHandle → TargetKey → Bool
belongs none k = false
belongs (some h) k = holds (TargetKey-discrete h.target_key k) && is_live h.state

abbrev pub IsPast : Option TargetSnapshot → ℕ → Type 0
IsPast none generation = ⊥
IsPast (some snapshot) generation = generation ≤ snapshot.generation

-- A live handle of a closed target is cancelled; a reaped handle is cancelled; no handle is ahead
-- of its target's generation and execution epoch.
pub record IsFenced (s : AdmissionService) (h : AdmissionHandle) : Type 0 where
  pub closed_cancelled :
      is_live h.state ≡ true → is_set (s.closed_at h.target_key) ≡ true → h.cancelled ≡ true
  pub reaped_cancelled : h.reaped ≡ true → h.cancelled ≡ true
  pub past_generation : IsPast (s.snapshots h.target_key) h.generation
  pub past_epoch : h.admit_epoch ≤ s.exec_epoch h.target_key

abbrev pub Fenced : AdmissionService → Option AdmissionHandle → Type 0
Fenced s none = Unit {0}
Fenced s (some h) = IsFenced s h

pub record Inv (s : AdmissionService) : Type 0 where
  pub table : (r : ℕ) (k : TargetKey) → elem ℕ_discrete r (s.bindings k) ≡ belongs (s.heap r) k
  pub distinct : (k : TargetKey) → Distinct (s.bindings k)
  pub allocated : (r : ℕ) → s.next_ref ≤ r → s.heap r ≡ none
  pub fenced : (r : ℕ) → Fenced s (s.heap r)
