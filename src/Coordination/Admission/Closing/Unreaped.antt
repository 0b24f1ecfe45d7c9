-- ===== src/Coordination/Admission/Closing/Unreaped.antt =====
-- A promoted session on a closed target blocks the reopening until its reaping is confirmed
-- (rollback, confirm_reaped, abandon and reopen of src/kdive/coordination/admission.py).
use linux_debug_mcp.Base.{
  ℕ, ◌≡◌, ◌≢◌, Bool, true, false, Option, none, some, List, [], ◌∷◌, String, arith, ok, elem,
  ℕ_discrete,
}
use linux_debug_mcp.Seams.Target.{TargetKey}
use linux_debug_mcp.Seams.TransportState.{TransportRef}
use linux_debug_mcp.Coordination.Admission.{
  AdmissionService, AdmissionHandle, AdmissionState, AdmissionOp, TargetSnapshot, is_live,
  publish_snapshot,
}
use linux_debug_mcp.Coordination.Admission.Gate.{is_set, register, admit, admit_recovery}
use linux_debug_mcp.Coordination.Admission.SshTier.{admit_ssh_tier}
use linux_debug_mcp.Coordination.Admission.Bindings.{
  promote, complete, rollback, confirm_reaped, abandon, note_execution_transition, cancel_one,
  in_flight, cancel_ssh_tier,
}
use linux_debug_mcp.Coordination.Admission.Lifecycle.{
  close_admission, reopen, mark_recovery_required, clear_recovery_required, begin_invalidation,
}
use linux_debug_mcp.Coordination.Admission.Admits.{
  admit_sound, admit_recovery_sound, admit_ssh_tier_sound,
}
use linux_debug_mcp.Coordination.Admission.Returns.{
  Disposes, promote-ok, complete-ok, rollback-ok, abandon-ok, confirm_reaped-ok,
}
use linux_debug_mcp.Coordination.Admission.Cancellation.{cancel_all-at}
use linux_debug_mcp.Coordination.Admission.Calls.{
  Call, publishes, admits, recovers, admits_ssh, promotes, completes, rolls_back, confirms_reaped,
  abandons, notes_transition, cancels_ssh, closes, invalidates, reopens, marks, clears, step, run,
  after-ok, after_pair-ok,
}
use linux_debug_mcp.Coordination.Admission.Invariant.{Inv}
use linux_debug_mcp.Coordination.Admission.Invariant.Reached.{step-Inv}

abbrev pub IsUnreaped : TargetKey → Option AdmissionHandle → Type 0
IsUnreaped k none = ⊥
IsUnreaped k (some h) =
    (h.target_key ≡ k) × (h.state ≡ AdmissionState.promoted) × (h.reaped ≡ false)

-- The target is closed, and the session at reference `r` is promoted on it and not reaped.
abbrev pub IsBlocked : TargetKey → ℕ → AdmissionService → Type 0
IsBlocked k r s = (is_set (s.closed_at k) ≡ true) × IsUnreaped k (s.heap r)

-- The call does not confirm that the session at `r` was reaped.
abbrev pub Spares : ℕ → Call → Type 0
Spares r (confirms_reaped q) = q ≢ r
Spares r _ = Unit {0}

abbrev pub AllSpare : ℕ → List Call → Type 0
AllSpare r [] = Unit {0}
AllSpare r (c ∷ cs) = Spares r c × AllSpare r cs

module _ (k : TargetKey) (r : ℕ) (s : AdmissionService) (v : Inv s) (b : IsBlocked k r s) where
  register-IsBlocked :
      (j : TargetKey) (op : AdmissionOp) (channel : Option TransportRef) (snapshot : TargetSnapshot)
      (recovery : Bool) (id : String)
      → IsBlocked k r (register s j op channel snapshot recovery id).0
  unfolding register
  register-IsBlocked j op channel snapshot recovery id = ground (arith, v.allocated r)

  Disposes-IsBlocked :
      (q : ℕ) (h : AdmissionHandle) (terminal : AdmissionState) (s' : AdmissionService)
      → q ≢ r
      → Disposes s q h terminal s'
      → IsBlocked k r s'
  Disposes-IsBlocked q h terminal s' other d = ground arith

  close_admission-IsBlocked :
      (j : TargetKey) (generation : ℕ) → IsBlocked k r (close_admission s j generation).0
  unfolding close_admission cancel_one
  close_admission-IsBlocked j generation = ground (arith, cancel_all-at s.heap (s.bindings j) r)

  pub step-IsBlocked : (c : Call) → Spares r c → IsBlocked k r (step s c)
  unfolding step
  step-IsBlocked (publishes j snapshot) w =
      after-ok (IsBlocked k r) s (publish_snapshot s j snapshot) b
        λ s' m. unfold publish_snapshot in ground arith
  step-IsBlocked (admits j request now id) w =
      after_pair-ok (IsBlocked k r) s (admit s j request now id) b λ out m.
        let (snapshot, channel, fits, at) = admit_sound s j request now id out m in
        rw at (register-IsBlocked j AdmissionOp.transport_open (some channel) snapshot false id)
  step-IsBlocked (recovers j request now id) w =
      after_pair-ok (IsBlocked k r) s (admit_recovery s j request now id) b λ out m.
        let (snapshot, channel, fits, parked, at) = admit_recovery_sound s j request now id out m in
        rw at (register-IsBlocked j AdmissionOp.transport_open (some channel) snapshot true id)
  step-IsBlocked (admits_ssh j request now id) w =
      after_pair-ok (IsBlocked k r) s (admit_ssh_tier s j request now id) b λ out m.
        let (snapshot, fits, at) = admit_ssh_tier_sound s j request now id out m in
        rw at (register-IsBlocked j AdmissionOp.ssh_tier none snapshot false id)
  step-IsBlocked (promotes q) w =
      after-ok (IsBlocked k r) s (promote s q) b λ s' m.
        let (h, e, listed, was_pending, uncancelled, at) = promote-ok s q s' m in ground arith
  step-IsBlocked (completes q) w = after-ok (IsBlocked k r) s (complete s q) b λ s' m.
      let (h, uncancelled, fresh, committed, d) = complete-ok s q s' m in
      Disposes-IsBlocked q h AdmissionState.completed s' (λ e. ground (arith, v.fenced r, d.0)) d
  step-IsBlocked (rolls_back q) w = after-ok (IsBlocked k r) s (rollback s q) b λ s' m.
      let (h, proven, d) = rollback-ok s q s' m in
      Disposes-IsBlocked q h AdmissionState.rolled_back s' (λ e. ground (arith, d.0, proven)) d
  step-IsBlocked (confirms_reaped q) w =
      after-ok (IsBlocked k r) s (confirm_reaped s q) b λ s' m.
        let (h, e, closed, cancelled, listed, at) = confirm_reaped-ok s q s' m in ground arith
  step-IsBlocked (abandons q) w = after-ok (IsBlocked k r) s (abandon s q) b λ s' m.
      let (h, closed, cancelled, reaped, d) = abandon-ok s q s' m in
      Disposes-IsBlocked q h AdmissionState.abandoned s' (λ e. ground (arith, d.0)) d
  step-IsBlocked (notes_transition j generation) w =
      unfold note_execution_transition in ground arith
  step-IsBlocked (cancels_ssh j generation halt_epoch) w =
      unfold cancel_ssh_tier cancel_one in
      ground (arith, cancel_all-at s.heap (in_flight s j generation halt_epoch) r)
  step-IsBlocked (closes j generation) w = close_admission-IsBlocked j generation
  step-IsBlocked (invalidates j generation close) w =
      unfold begin_invalidation in ground (arith, close_admission-IsBlocked j generation)
  step-IsBlocked (reopens j) w = unfold reopen elem is_live in ground (arith, v.table r k)
  step-IsBlocked (marks j generation) w = unfold mark_recovery_required in ground arith
  step-IsBlocked (clears j generation) w = unfold clear_recovery_required in ground arith

run-IsBlocked :
    (k : TargetKey) (r : ℕ) (s : AdmissionService) (cs : List Call)
    → Inv s
    → AllSpare r cs
    → IsBlocked k r s
    → Inv (run s cs) × IsBlocked k r (run s cs)
unfolding run
run-IsBlocked k r s [] v w b = (v, b)
run-IsBlocked k r s (c ∷ cs) v w b =
    run-IsBlocked k r (step s c) cs (step-Inv s c v) w.1 (step-IsBlocked k r s v b c w.0)

-- While a promoted session on a closed target is not confirmed as reaped, no history of other calls
-- deregisters it or reopens the target.
pub unreaped_blocks_reopen :
    (k : TargetKey) (r : ℕ) (s : AdmissionService) (cs : List Call)
    → Inv s
    → IsBlocked k r s
    → AllSpare r cs
    → (is_set ((run s cs).closed_at k) ≡ true)
      × (elem ℕ_discrete r ((run s cs).bindings k) ≡ true)
      × ((t : AdmissionService) → reopen (run s cs) k ≢ ok t)
unfolding is_live elem reopen
unreaped_blocks_reopen k r s cs v b w =
    let (v', b') = run-IsBlocked k r s cs v w b in
    (b'.0, ground (arith, v'.table r k), λ t m. ground (arith, v'.table r k))
