-- ===== src/Coordination/Registry/Converges.antt =====
-- What reconcile leaves (src/kdive/coordination/registry.py): no record, a tombstone for each parked
-- target, and an admission cache that gates what the tombstones gate.
use linux_debug_mcp.Base.{
  ℕ, ◌≡◌, ◌⊎◌, inl, inr, refl, sym, ap, ◌∙◌, String, false, Option, none, some, List, [], ◌∷◌, ◌++◌,
  map, arith, Option-cases,
}
use mathlib.Core.List.{append_assoc, append-nil}
use linux_debug_mcp.Seams.Target.{TargetKey, TargetKey-discrete}
use linux_debug_mcp.Seams.TransportState.{TransportSession}
use linux_debug_mcp.Coordination.Admission.{AdmissionService}
use linux_debug_mcp.Coordination.Admission.Lifecycle.{mark_recovery_required}
use linux_debug_mcp.Coordination.Registry.{
  SessionRegistry, TombFile, RecoveryTombstone, read_record, find_owner, read_tombstone, find_tomb,
}
use linux_debug_mcp.Coordination.Registry.Reconcile.{
  OnOrphanReaped, StopByIdentity, ReconcileState, assert_tombstones, parked_reason, reap_one,
  reap_all, reconcile,
}
use linux_debug_mcp.Coordination.Registry.Store.{owned, DistinctOwners}
use linux_debug_mcp.Coordination.Registry.Gates.{
  Gates, mark-Gates, mark-keeps_Gates, KeepsGates, parked_tombstone, expected_tombstone,
  parked-expected_tombstone, expected_reap, reap_one-owners, reap_one-tombstone, reap_one-report,
  reap_one-keeps_Gates, reap_one-Gates,
}

find_owner_absent :
    (k : TargetKey) (rs : List TransportSession) → owned k rs ≡ false → find_owner k rs ≡ none
unfolding find_owner
find_owner_absent k [] h = refl
find_owner_absent k (r ∷ rs) h = ground (arith, find_owner_absent k rs)

module _ (stop : StopByIdentity) (callback : Option OnOrphanReaped) where
  reap_all-owners :
      (rs : List TransportSession) (s : ReconcileState)
      → s.registry.owners ≡ rs
      → DistinctOwners rs
      → (reap_all stop callback rs s).registry.owners ≡ []
  unfolding reap_all
  reap_all-owners [] s listed d = listed
  reap_all-owners (r ∷ rs) s listed d =
      reap_all-owners rs (reap_one stop callback r s)
        (reap_one-owners stop callback r rs s listed d.0) d.1

  reap_all-tombstone :
      (rs : List TransportSession) (s : ReconcileState) (k : TargetKey)
      → DistinctOwners rs
      → read_tombstone (reap_all stop callback rs s).registry k
        ≡ parked_tombstone (find_owner k rs) (read_tombstone s.registry k)
  unfolding reap_all parked_tombstone find_owner
  reap_all-tombstone [] s k d = refl
  reap_all-tombstone (r ∷ rs) s k d = ground (
    arith,
    reap_all-tombstone rs (reap_one stop callback r s) k d.1,
    reap_one-tombstone stop callback r s k,
    find_owner_absent k rs,
  )

  reap_all-report :
      (rs : List TransportSession) (s : ReconcileState)
      → (reap_all stop callback rs s).report.reaped ≡ s.report.reaped ++ map (expected_reap stop) rs
  unfolding reap_all
  reap_all-report [] s = sym (append-nil s.report.reaped)
  reap_all-report (r ∷ rs) s =
      reap_all-report rs (reap_one stop callback r s)
      ∙ ap (λ reaped. reaped ++ map (expected_reap stop) rs) (reap_one-report stop callback r s)
      ∙ append_assoc s.report.reaped (expected_reap stop r ∷ []) (map (expected_reap stop) rs)

  reap_all-keeps_Gates :
      (rs : List TransportSession) (s : ReconcileState) (k : TargetKey) (generation : ℕ)
      → KeepsGates callback
      → Gates s.admission k generation
      → Gates (reap_all stop callback rs s).admission k generation
  unfolding reap_all
  reap_all-keeps_Gates [] s k generation keeps gated = gated
  reap_all-keeps_Gates (r ∷ rs) s k generation keeps gated =
      reap_all-keeps_Gates rs (reap_one stop callback r s) k generation keeps
        (reap_one-keeps_Gates stop callback r s k generation keeps gated)

  reap_all-Gates :
      (rs : List TransportSession) (s : ReconcileState) (k : TargetKey) (r : TransportSession)
      (reason : String)
      → KeepsGates callback
      → find_owner k rs ≡ some r
      → parked_reason r.execution_state ≡ some reason
      → Gates (reap_all stop callback rs s).admission k r.generation
  unfolding reap_all find_owner
  reap_all-Gates [] s k r reason keeps listed parked = cc
  reap_all-Gates (q ∷ rs) s k r reason keeps listed parked =
      elim (TargetKey-discrete q.target_key k) [
        | yes same ↦
            let first : q ≡ r = ground arith in
            reap_all-keeps_Gates rs (reap_one stop callback q s) k r.generation keeps (
              rw (← first)
                (rw (← same) (reap_one-Gates stop callback q s reason keeps (rw first parked))))
        | no other ↦
            reap_all-Gates rs (reap_one stop callback q s) k r reason keeps (ground arith) parked
      ]

-- A tombstone file is named after the target that it holds.
abbrev pub WellNamed : List TombFile → Type 0
WellNamed [] = Unit {0}
WellNamed (f ∷ fs) =
    ((t : RecoveryTombstone) → f.content ≡ some t → t.target_key ≡ f.path_key) × WellNamed fs

assert_tombstones-keeps_Gates :
    (fs : List TombFile) (a : AdmissionService) (k : TargetKey) (generation : ℕ)
    → Gates a k generation
    → Gates (assert_tombstones fs a) k generation
unfolding assert_tombstones
assert_tombstones-keeps_Gates [] a k generation gated = gated
assert_tombstones-keeps_Gates (f ∷ fs) a k generation gated = elim (Option-cases f.content) [
  | inl malformed ↦
      rw (malformed, assert_tombstones) (assert_tombstones-keeps_Gates fs a k generation gated)
  | inr (t, read) ↦
      rw (read, assert_tombstones)
        (assert_tombstones-keeps_Gates fs (mark_recovery_required a t.target_key t.generation) k
          generation (mark-keeps_Gates a t.target_key k t.generation generation gated))
]

assert_tombstones-Gates :
    (fs : List TombFile) (a : AdmissionService) (k : TargetKey) (t : RecoveryTombstone)
    → WellNamed fs
    → find_tomb k fs ≡ some t
    → Gates (assert_tombstones fs a) k t.generation
unfolding assert_tombstones find_tomb
assert_tombstones-Gates [] a k t named stands = cc
assert_tombstones-Gates (f ∷ fs) a k t named stands = elim (TargetKey-discrete f.path_key k) [
  | yes same ↦
      let read : f.content ≡ some t = ground arith in
      let owner : t.target_key ≡ k = named.0 t read ∙ same in
      rw (read, assert_tombstones)
        (assert_tombstones-keeps_Gates fs (mark_recovery_required a t.target_key t.generation) k
          t.generation (rw (← owner) (mark-Gates a t.target_key t.generation)))
  | no other ↦ elim (Option-cases f.content) [
    | inl malformed ↦
        rw (malformed, assert_tombstones) (assert_tombstones-Gates fs a k t named.1 (ground arith))
    | inr (u, read) ↦
        rw (read, assert_tombstones)
          (assert_tombstones-Gates fs (mark_recovery_required a u.target_key u.generation) k t
            named.1 (ground arith))
  ]
]

-- The state in which the loop begins.
abbrev begun : SessionRegistry → AdmissionService → ReconcileState
begun reg admission = record {
  registry = reg;
  admission = assert_tombstones reg.tombs admission;
  report = record { reaped = []; failures = [] };
}

expected_cases :
    (o : Option TransportSession) (old : Option RecoveryTombstone) (t : RecoveryTombstone)
    → parked_tombstone o old ≡ some t
    → ((r : TransportSession) × (reason : String) × (o ≡ some r)
        × (parked_reason r.execution_state ≡ some reason)
        × (t.generation ≡ r.generation))
      ⊎ (old ≡ some t)
unfolding parked_tombstone
expected_cases none old t h = inr h
expected_cases (some r) old t h = elim (Option-cases (parked_reason r.execution_state)) [
  | inl going ↦ inr (ground arith)
  | inr (reason, parked) ↦ inl (r, reason, refl, parked, ground arith)
]

-- The cache gates the target of a tombstone.
abbrev pub Gated : AdmissionService → TargetKey → Option RecoveryTombstone → Type 0
Gated a k none = Unit {0}
Gated a k (some t) = Gates a k t.generation

Gated-each :
    (a : AdmissionService) (k : TargetKey) (stands : Option RecoveryTombstone)
    → ((t : RecoveryTombstone) → stands ≡ some t → Gates a k t.generation)
    → Gated a k stands
Gated-each a k none each = tt
Gated-each a k (some t) each = each t refl

-- Of a store with one record and one well-named tombstone file for a target, and with a callback
-- that lowers no gate, reconcile leaves no record, whatever the callback raised. The report lists
-- every record in order, and asks to close admission just where a live backend was stopped. A
-- target whose record was HALTED or UNKNOWN has a tombstone of that record, every other target the
-- tombstone that it had, and the admission cache gates each tombstone's target at its generation or
-- a later one.
pub reconcile_lem :
    (stop : StopByIdentity) (callback : Option OnOrphanReaped) (reg : SessionRegistry)
    (admission : AdmissionService)
    → DistinctOwners reg.owners
    → WellNamed reg.tombs
    → KeepsGates callback
    → let s = reconcile stop callback reg admission in
      (s.registry.owners ≡ [])
      × (s.report.reaped ≡ map (expected_reap stop) reg.owners)
      × ((k : TargetKey)
          → read_tombstone s.registry k
            ≡ expected_tombstone (read_record reg k) (read_tombstone reg k))
      × ((k : TargetKey) → Gated s.admission k (read_tombstone s.registry k))
unfolding reconcile read_record read_tombstone
reconcile_lem stop callback reg admission distinct named keeps = (
  reap_all-owners stop callback reg.owners (begun reg admission) refl distinct,
  reap_all-report stop callback reg.owners (begun reg admission),
  tombs,
  λ k. Gated-each (reconcile stop callback reg admission).admission k _ (λ t stands.
      elim (expected_cases (find_owner k reg.owners) (read_tombstone reg k) t
        (sym (parked k) ∙ stands)) [
          | inl (r, reason, owner, parked, at) ↦ rw at (
              reap_all-Gates stop callback reg.owners (begun reg admission) k r reason keeps owner
                parked)
          | inr old ↦
              reap_all-keeps_Gates stop callback reg.owners (begun reg admission) k t.generation
                keeps (assert_tombstones-Gates reg.tombs admission k t named old)
        ]),
)
  where
    parked :
        (k : TargetKey)
        → read_tombstone (reconcile stop callback reg admission).registry k
          ≡ parked_tombstone (read_record reg k) (read_tombstone reg k)
    parked k = reap_all-tombstone stop callback reg.owners (begun reg admission) k distinct

    tombs :
        (k : TargetKey)
        → read_tombstone (reconcile stop callback reg admission).registry k
          ≡ expected_tombstone (read_record reg k) (read_tombstone reg k)
    tombs k = parked k ∙ parked-expected_tombstone (read_record reg k) (read_tombstone reg k)
