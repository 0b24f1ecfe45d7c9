-- ===== src/Coordination/Admission/Closing.antt =====
-- Closing and reopening a target (src/kdive/coordination/admission.py): what one call does.
pub mod Unreaped
use linux_debug_mcp.Base.{
  ℕ, ◌≤◌, ◌<◌, ◌≡◌, ◌≢◌, refl, ◌↔◌, Bool, true, false, Option, none, some, List, [], ◌∷◌, String,
  arith, ok, err, update, elem, if◌then◌else◌, holds, ℕ_discrete, Option-cases, Bool-cases, inl,
  inr, ◌⊎◌,
}
use linux_debug_mcp.Seams.Target.{ErrorCategory, TargetKey, TargetKey-discrete}
use linux_debug_mcp.Seams.TransportState.{OpenRequest}
use linux_debug_mcp.Coordination.Admission.{
  AdmissionService, AdmissionHandle, AdmissionError, Code, refusal, TargetSnapshot, is_live,
}
use linux_debug_mcp.Coordination.Admission.Gate.{
  is_set, bind_snapshot, validate_open, admit, admit_recovery,
}
use linux_debug_mcp.Coordination.Admission.SshTier.{SshRequest, admit_ssh_tier}
use linux_debug_mcp.Coordination.Admission.Bindings.{cancel_one, cancel_all}
use linux_debug_mcp.Coordination.Admission.Lifecycle.{
  is_stale_close, close_admission, reopen_closed, reopen, begin_invalidation,
}
use linux_debug_mcp.Coordination.Admission.Cancellation.{cancel_all-at}
use linux_debug_mcp.Coordination.Admission.Invariant.{Inv, belongs}

-- The handle is cancelled if it is a live one of target `k`.
abbrev pub CancelledOn : TargetKey → Option AdmissionHandle → Type 0
CancelledOn k none = Unit {0}
CancelledOn k (some h) = h.target_key ≡ k → is_live h.state ≡ true → h.cancelled ≡ true

-- The first generation that the target was closed at stands.
abbrev pub first_closed : Option ℕ → ℕ → ℕ
first_closed none generation = generation
first_closed (some g) generation = g

-- A close for an incarnation that the target has left behind: the target is open, and a later
-- generation is published.
abbrev pub IsStaleRetry : AdmissionService → TargetKey → ℕ → Type 0
IsStaleRetry s k generation =
    (s.closed_at k ≡ none)
    × ((snapshot : TargetSnapshot) × (s.snapshots k ≡ some snapshot)
        × (generation < snapshot.generation))

IsStaleRetry-iff :
    (s : AdmissionService) (k : TargetKey) (generation : ℕ)
    → (is_stale_close s k generation ≡ true) ↔ IsStaleRetry s k generation
unfolding is_stale_close
IsStaleRetry-iff s k generation = ground arith

-- What a close that is no stale retry does: it cancels each live handle of the target.
abbrev pub Closes : AdmissionService → TargetKey → ℕ → Type 0
Closes s k generation =
    ((close_admission s k generation).0.closed_at k
      ≡ some (first_closed (s.closed_at k) generation))
    × ((r : ℕ) → CancelledOn k ((close_admission s k generation).0.heap r))
    × ((close_admission s k generation).1 ≡ s.bindings k)

module _ (s : AdmissionService) (k : TargetKey) (generation : ℕ) (v : Inv s) where
  -- A stale retry, which finds the target open and a later generation published, changes nothing
  -- and returns no binding. Any other close closes the target, at the generation of the first
  -- close, leaves no live handle of the target uncancelled, and returns the target's bindings.
  pub close_admission_lem :
      (IsStaleRetry s k generation × (close_admission s k generation ≡ (s, [])))
      ⊎ ((¬ IsStaleRetry s k generation) × Closes s k generation)
  unfolding close_admission cancel_one
  close_admission_lem = elim (Bool-cases (is_stale_close s k generation)) [
    | inl stale ↦ inl ((IsStaleRetry-iff s k generation).0 stale, ground arith)
    | inr current ↦ inr (
      (λ retry. ground (arith, (IsStaleRetry-iff s k generation).1 retry)),
      (
        ground arith,
        (λ r. ground (arith, v.table r k, cancel_all-at s.heap (s.bindings k) r)),
        ground arith,
      ),
    )
  ]

module _ (s : AdmissionService) (k : TargetKey) (now : ℕ) (id : String) where
  -- While a target is closed, each of the three admissions refuses `admission_closed`.
  pub closed_refuses :
      is_set (s.closed_at k) ≡ true
      → (plain recovery : OpenRequest) (ssh : SshRequest) → plain.target_key ≡ k
      → recovery.target_key ≡ k
      → let refused = refusal ErrorCategory.readiness_failure Code.admission_closed in
        (admit s k plain now id ≡ err refused)
        × (admit_recovery s k recovery now id ≡ err refused)
        × (admit_ssh_tier s k ssh now id ≡ err refused)
  unfolding admit admit_recovery admit_ssh_tier validate_open bind_snapshot
  closed_refuses closed plain recovery ssh addressed addressed' =
      (ground arith, ground arith, ground arith)

-- The handle is none of target `k`, or has been disposed of.
abbrev pub GoneFrom : TargetKey → Option AdmissionHandle → Type 0
GoneFrom k none = Unit {0}
GoneFrom k (some h) = h.target_key ≡ k → is_live h.state ≡ false

module _ (s : AdmissionService) (k : TargetKey) (closed_generation : ℕ) where
  -- A closed target reopens just when its published snapshot has advanced past the generation that
  -- it was closed at and no binding is outstanding.
  pub reopen_iff :
      (s' : AdmissionService)
      → s.closed_at k ≡ some closed_generation
      → (reopen s k ≡ ok s') ↔ (
          (snapshot : TargetSnapshot) × (s.snapshots k ≡ some snapshot)
          × (closed_generation < snapshot.generation)
          × (s.bindings k ≡ [])
          × (s' ≡ record s { closed_at = update TargetKey-discrete s.closed_at k none }))
  unfolding reopen
  reopen_iff s' closed = (λ m. ground arith, λ w. ground arith)

  -- So no live handle of an earlier incarnation is left on a target that reopens.
  pub reopen_leaves_none :
      (s' : AdmissionService)
      → Inv s
      → s.closed_at k ≡ some closed_generation
      → reopen s k ≡ ok s'
      → (s'.closed_at k ≡ none) × ((r : ℕ) → GoneFrom k (s'.heap r))
  unfolding elem
  reopen_leaves_none s' v closed m =
      let (snapshot, published, past, empty, at) = (reopen_iff s' closed).0 m in
      (ground arith, λ r. ground (arith, v.table r k))
