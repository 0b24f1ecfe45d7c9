-- ===== src/Coordination/Admission/Calls.antt =====
-- Histories of the service. Any interleaving of its callers is a list of calls, since each method
-- runs under the lock of its target; a call that raises leaves the state as it was.
use linux_debug_mcp.Base.{ℕ, ◌≡◌, refl, String, Bool, List, [], ◌∷◌, Result, ok, err}
use linux_debug_mcp.Seams.Target.{TargetKey}
use linux_debug_mcp.Seams.TransportState.{OpenRequest}
use linux_debug_mcp.Coordination.Admission.{
  AdmissionError, TargetSnapshot, AdmissionService, publish_snapshot,
}
use linux_debug_mcp.Coordination.Admission.Gate.{admit, admit_recovery}
use linux_debug_mcp.Coordination.Admission.SshTier.{SshRequest, admit_ssh_tier}
use linux_debug_mcp.Coordination.Admission.Bindings.{
  promote, complete, rollback, confirm_reaped, abandon, note_execution_transition, cancel_ssh_tier,
}
use linux_debug_mcp.Coordination.Admission.Lifecycle.{
  reopen, mark_recovery_required, clear_recovery_required, begin_invalidation, close_admission,
}

pub data Call : Type 0 where
  publishes : TargetKey → TargetSnapshot → Call
  admits recovers : TargetKey → OpenRequest → ℕ → String → Call
  admits_ssh : TargetKey → SshRequest → ℕ → String → Call
  promotes completes rolls_back confirms_reaped abandons : ℕ → Call
  notes_transition : TargetKey → ℕ → Call
  cancels_ssh : TargetKey → ℕ → ℕ → Call
  closes : TargetKey → ℕ → Call
  invalidates : TargetKey → ℕ → Bool → Call
  reopens : TargetKey → Call
  marks clears : TargetKey → ℕ → Call

abbrev pub after : AdmissionService → Result AdmissionError AdmissionService → AdmissionService
after s (ok s') = s'
after s (err e) = s

abbrev pub after_pair {ℓ} :
    {A : Type ℓ}
    → AdmissionService
    → Result AdmissionError (AdmissionService × A)
    → AdmissionService
after_pair s (ok (s', a)) = s'
after_pair s (err e) = s

unfoldable pub step : AdmissionService → Call → AdmissionService
step s (publishes k snapshot) = after s (publish_snapshot s k snapshot)
step s (admits k request now id) = after_pair s (admit s k request now id)
step s (recovers k request now id) = after_pair s (admit_recovery s k request now id)
step s (admits_ssh k request now id) = after_pair s (admit_ssh_tier s k request now id)
step s (promotes r) = after s (promote s r)
step s (completes r) = after s (complete s r)
step s (rolls_back r) = after s (rollback s r)
step s (confirms_reaped r) = after s (confirm_reaped s r)
step s (abandons r) = after s (abandon s r)
step s (notes_transition k generation) = (note_execution_transition s k generation).0
step s (cancels_ssh k generation halt_epoch) = (cancel_ssh_tier s k generation halt_epoch).0
step s (closes k generation) = (close_admission s k generation).0
step s (invalidates k generation close) = (begin_invalidation s k generation close).0
step s (reopens k) = after s (reopen s k)
step s (marks k generation) = mark_recovery_required s k generation
step s (clears k generation) = clear_recovery_required s k generation

unfoldable pub run : AdmissionService → List Call → AdmissionService
run s [] = s
run s (c ∷ cs) = run (step s c) cs

-- A method that raises leaves the state alone, so that a property of states is kept if the method
-- keeps it where it returns.
module _ (P : AdmissionService → Type 0) (s : AdmissionService) where
  pub after-ok :
      (m : Result AdmissionError AdmissionService)
      → P s
      → ((s' : AdmissionService) → m ≡ ok s' → P s')
      → P (after s m)
  after-ok (ok s') h keep = keep s' refl
  after-ok (err e) h keep = h

  pub after_pair-ok {ℓ} :
      {A : Type ℓ} (m : Result AdmissionError (AdmissionService × A))
      → P s
      → ((out : AdmissionService × A) → m ≡ ok out → P out.0)
      → P (after_pair s m)
  after_pair-ok (ok out) h keep = keep out refl
  after_pair-ok (err e) h keep = h
