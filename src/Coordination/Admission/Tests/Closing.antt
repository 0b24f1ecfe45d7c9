-- ===== src/Coordination/Admission/Tests/Closing.antt =====
-- Closing and reopening at concrete histories (src/kdive/coordination/admission.py).
use linux_debug_mcp.Base.{
  ◌⊎◌, ◌≡◌, ◌≢◌, ◌↔◌, refl, true, none, some, List, [], ◌∷◌, ok, elem, update, ◌<◌, ℕ_discrete,
}
use linux_debug_mcp.Seams.Target.{TargetKey-discrete, TargetState}
use linux_debug_mcp.Coordination.Admission.{AdmissionService, TargetSnapshot}
use linux_debug_mcp.Coordination.Admission.Gate.{is_set}
use linux_debug_mcp.Coordination.Admission.Lifecycle.{close_admission, reopen}
use linux_debug_mcp.Coordination.Admission.Calls.{
  Call, publishes, rolls_back, confirms_reaped, abandons, reopens, run,
}
use linux_debug_mcp.Coordination.Admission.Invariant.{Inv}
use linux_debug_mcp.Coordination.Admission.Invariant.Reached.{run_keeps}
use linux_debug_mcp.Coordination.Admission.Closing.{
  IsStaleRetry, Closes, close_admission_lem, reopen_iff,
}
use linux_debug_mcp.Coordination.Admission.Closing.Unreaped.{unreaped_blocks_reopen}
use linux_debug_mcp.Coordination.Admission.Tests.{
  vm, snapshot_at, opened, service_open, opened-Inv, closed, closed-Inv,
}

close_admission_lem_example :
    (IsStaleRetry opened vm 1 × (close_admission opened vm 1 ≡ (opened, [])))
    ⊎ ((¬ IsStaleRetry opened vm 1) × Closes opened vm 1)
unfolding service_open
close_admission_lem_example = close_admission_lem opened vm 1 opened-Inv

-- Both handles are wound up, and the next incarnation is published.
abbrev winding_up : List Call
winding_up =
    rolls_back 1
    ∷ confirms_reaped 0
    ∷ abandons 0
    ∷ publishes vm (snapshot_at 2 TargetState.ready)
    ∷ []

abbrev wound_up : AdmissionService
wound_up = run closed winding_up

wound_up-Inv : Inv wound_up
wound_up-Inv = run_keeps closed winding_up closed-Inv

abbrev reopened : AdmissionService
reopened = record wound_up { closed_at = update TargetKey-discrete wound_up.closed_at vm none }

reopen_iff_example : (reopen wound_up vm ≡ ok reopened) ↔ (
    (snapshot : TargetSnapshot) × (wound_up.snapshots vm ≡ some snapshot)
    × (1 < snapshot.generation)
    × (wound_up.bindings vm ≡ [])
    × (reopened
        ≡ record wound_up { closed_at = update TargetKey-discrete wound_up.closed_at vm none }))
unfolding service_open
reopen_iff_example = reopen_iff wound_up vm 1 reopened refl

abbrev impatient : List Call
impatient =
    rolls_back 0 ∷ abandons 0 ∷ publishes vm (snapshot_at 2 TargetState.ready) ∷ reopens vm ∷ []

unreaped_blocks_reopen_example :
    (is_set ((run closed impatient).closed_at vm) ≡ true)
    × (elem ℕ_discrete 0 ((run closed impatient).bindings vm) ≡ true)
    × ((t : AdmissionService) → reopen (run closed impatient) vm ≢ ok t)
unfolding service_open
unreaped_blocks_reopen_example =
    unreaped_blocks_reopen vm 0 closed impatient closed-Inv (refl, (refl, refl, refl))
      (tt, (tt, (tt, (tt, tt))))
