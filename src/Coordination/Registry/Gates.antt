-- ===== src/Coordination/Registry/Gates.antt =====
-- What reconcile does with one record (src/kdive/coordination/registry.py), and the gates that an
-- admission cache holds.
use linux_debug_mcp.Base.{
  ℕ, ◌≡◌, ◌≤◌, inl, inr, ap, refl, String, Bool, false, not, Option, none, some, List, [], ◌∷◌,
  ◌++◌, arith, if◌then◌else◌, ite, ltb, keep_if, Option-cases,
}
use linux_debug_mcp.Seams.Target.{TargetKey, TargetKey-discrete}
use linux_debug_mcp.Seams.TransportState.{TransportSession, ExecutionState}
use linux_debug_mcp.Coordination.Admission.{AdmissionService}
use linux_debug_mcp.Coordination.Admission.Lifecycle.{mark_recovery_required}
use linux_debug_mcp.Coordination.Registry.{
  RecoveryTombstone, write_tombstone, delete_record, read_record, find_owner, read_tombstone,
  is_owner_of,
}
use linux_debug_mcp.Coordination.Registry.Reconcile.{
  OrphanReap, OnOrphanReaped, StopByIdentity, ReconcileState, parked_reason, tombstone_of, reap_of,
  reap_one, notify, park,
}
use linux_debug_mcp.Coordination.Registry.Store.{find_tomb-put_tomb, owned, unlink_absent}

-- The cache gates the target at this generation or a later one.
abbrev pub Gates : AdmissionService → TargetKey → ℕ → Type 0
Gates admission k generation = (n : ℕ) × (admission.recovery_required k ≡ some n) × (generation ≤ n)

pub mark-Gates :
    (a : AdmissionService) (k : TargetKey) (generation : ℕ)
    → Gates (mark_recovery_required a k generation) k generation
unfolding mark_recovery_required
mark-Gates a k generation = elim (Option-cases (a.recovery_required k)) [
  | inl free ↦ (generation, ground arith, omega arith)
  | inr (n, held) ↦ newest n held
]
  where
    newest :
        (n : ℕ)
        → a.recovery_required k ≡ some n
        → Gates (mark_recovery_required a k generation) k generation
    newest n held = (if ltb generation n then n else generation, ground arith, ground arith)

pub mark-keeps_Gates :
    (a : AdmissionService) (j k : TargetKey) (m generation : ℕ)
    → Gates a k generation
    → Gates (mark_recovery_required a j m) k generation
unfolding mark_recovery_required
mark-keeps_Gates a j k m generation (n, held, le) = elim (TargetKey-discrete j k) [
  | yes same ↦ (if ltb m n then n else m, ground arith, ground arith)
  | no other ↦ (n, ground arith, le)
]

-- The callback lowers no gate.
abbrev pub KeepsGates : Option OnOrphanReaped → Type 0
KeepsGates none = Unit {0}
KeepsGates (some callback) =
    (reap : OrphanReap) (a : AdmissionService) (k : TargetKey) (generation : ℕ)
    → Gates a k generation
    → Gates (callback reap a).0 k generation

-- The tombstone that a record left behind asks for, over the one that stood there.
unfoldable pub parked_tombstone :
    Option TransportSession → Option RecoveryTombstone → Option RecoveryTombstone
parked_tombstone none old = old
parked_tombstone (some r) old = elim (parked_reason r.execution_state) [
  | none ↦ old
  | some reason ↦ some (tombstone_of r reason)
]

-- The same by the state of the kernel: one that was HALTED, or in a state that is UNKNOWN, parks its
-- target at the session's generation.
abbrev pub left_by :
    ExecutionState → TransportSession → Option RecoveryTombstone → Option RecoveryTombstone
left_by ExecutionState.executing r old = old
left_by ExecutionState.halted r old =
    some (record {
      target_key = r.target_key;
      generation = r.generation;
      reason = "reconciled_halted";
    })
left_by ExecutionState.unknown r old =
    some (record {
      target_key = r.target_key;
      generation = r.generation;
      reason = "reconciled_unknown";
    })

unfoldable pub expected_tombstone :
    Option TransportSession → Option RecoveryTombstone → Option RecoveryTombstone
expected_tombstone none old = old
expected_tombstone (some r) old = left_by r.execution_state r old

reason-left_by :
    (state : ExecutionState) (r : TransportSession) (old : Option RecoveryTombstone)
    → elim (parked_reason state) [ none ↦ old | some reason ↦ some (tombstone_of r reason) ]
      ≡ left_by state r old
unfolding parked_reason
reason-left_by ExecutionState.executing r old = refl
reason-left_by ExecutionState.halted r old = refl
reason-left_by ExecutionState.unknown r old = refl

pub parked-expected_tombstone :
    (owner : Option TransportSession) (old : Option RecoveryTombstone)
    → parked_tombstone owner old ≡ expected_tombstone owner old
unfolding parked_tombstone expected_tombstone
parked-expected_tombstone none old = refl
parked-expected_tombstone (some r) old = reason-left_by r.execution_state r old

-- What the report says of a record: admission is to be closed just where the record names a backend
-- and that was stopped.
abbrev pub was_stopped : StopByIdentity → Option ℕ → Option String → Bool
was_stopped stop none start = false
was_stopped stop (some pid) start = stop pid start

abbrev pub expected_reap : StopByIdentity → TransportSession → OrphanReap
expected_reap stop r = record {
  target_key = r.target_key;
  session_id = r.session_id;
  owner = r;
  reason = "backend_died";
  close_admission_required = was_stopped stop r.backend_pid r.backend_start_time;
}

notify-keeps_Gates :
    (callback : Option OnOrphanReaped) (reap : OrphanReap) (s : ReconcileState) (k : TargetKey)
    (generation : ℕ)
    → KeepsGates callback
    → Gates s.admission k generation
    → Gates (notify callback reap s).admission k generation
unfolding notify
notify-keeps_Gates none reap s k generation keeps gated = gated
notify-keeps_Gates (some callback) reap s k generation keeps gated =
    keeps reap s.admission k generation gated

park-keeps_Gates :
    (reason : Option String) (r : TransportSession) (s : ReconcileState) (k : TargetKey)
    (generation : ℕ)
    → Gates s.admission k generation
    → Gates (park reason r s).admission k generation
unfolding park
park-keeps_Gates none r s k generation gated = gated
park-keeps_Gates (some reason) r s k generation gated =
    mark-keeps_Gates s.admission r.target_key k r.generation generation gated

module _ (stop : StopByIdentity) (callback : Option OnOrphanReaped) where
  pub reap_one-owners :
      (r : TransportSession) (rs : List TransportSession) (s : ReconcileState)
      → s.registry.owners ≡ r ∷ rs
      → owned r.target_key rs ≡ false
      → (reap_one stop callback r s).registry.owners ≡ rs
  unfolding reap_one delete_record read_record find_owner write_tombstone keep_if
  reap_one-owners r rs s listed distinct = ground (
    arith,
    unlink_absent r.target_key rs distinct,
    ap (keep_if (λ q. not (is_owner_of r.target_key q))) listed,
  )

  pub reap_one-tombstone :
      (r : TransportSession) (s : ReconcileState) (k : TargetKey)
      → read_tombstone (reap_one stop callback r s).registry k
        ≡ ite
            (TargetKey-discrete r.target_key k)
            (parked_tombstone (some r) (read_tombstone s.registry k))
            (read_tombstone s.registry k)
  unfolding reap_one parked_tombstone delete_record read_tombstone write_tombstone
  reap_one-tombstone r s k = elim (Option-cases (parked_reason r.execution_state)) [
    | inl going ↦ ground arith
    | inr (reason, parked) ↦
        ground (arith, find_tomb-put_tomb k (tombstone_of r reason) s.registry.tombs)
  ]

  pub reap_one-report :
      (r : TransportSession) (s : ReconcileState)
      → (reap_one stop callback r s).report.reaped ≡ s.report.reaped ++ expected_reap stop r ∷ []
  unfolding reap_one reap_of notify
  reap_one-report r s = ground arith

  pub reap_one-keeps_Gates :
      (r : TransportSession) (s : ReconcileState) (k : TargetKey) (generation : ℕ)
      → KeepsGates callback
      → Gates s.admission k generation
      → Gates (reap_one stop callback r s).admission k generation
  unfolding reap_one
  reap_one-keeps_Gates r s k generation keeps gated =
      notify-keeps_Gates callback (reap_of stop r) (park (parked_reason r.execution_state) r s) k
        generation keeps (park-keeps_Gates (parked_reason r.execution_state) r s k generation gated)

  pub reap_one-Gates :
      (r : TransportSession) (s : ReconcileState) (reason : String)
      → KeepsGates callback
      → parked_reason r.execution_state ≡ some reason
      → Gates (reap_one stop callback r s).admission r.target_key r.generation
  unfolding reap_one park
  reap_one-Gates r s reason keeps parked =
      notify-keeps_Gates callback (reap_of stop r) (park (parked_reason r.execution_state) r s)
        r.target_key r.generation keeps
        (rw (parked, park) (mark-Gates s.admission r.target_key r.generation))
