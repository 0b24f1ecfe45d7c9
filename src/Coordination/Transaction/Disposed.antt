-- ===== src/Coordination/Transaction/Disposed.antt =====
-- What an end of a session does with its handle in the admission service
-- (src/kdive/coordination/transaction.py), by the outcomes of the service's calls.
use linux_debug_mcp.Base.{ℕ, ◌≡◌, refl, Option, none, some, Result, ok, err}
use linux_debug_mcp.Coordination.Admission.{AdmissionService, AdmissionError}
use linux_debug_mcp.Coordination.Admission.Bindings.{complete, confirm_reaped, abandon}
use linux_debug_mcp.Coordination.Admission.Calls.{after}
use linux_debug_mcp.Coordination.Transaction.{TransportTransaction}
use linux_debug_mcp.Coordination.Transaction.Close.{
  Cleanup, completed_with, complete_handle, deregister, deregister_if,
}

-- The service `s'` behind a call on `s`: what the call gives, and `s` itself where it raises.
abbrev pub TakesEffect :
    Result AdmissionError AdmissionService → AdmissionService → AdmissionService → Type 0
TakesEffect (ok given) s s' = s' ≡ given
TakesEffect (err e) s s' = s' ≡ s

-- The handle, if there is one, is completed.
abbrev pub Completes : Option ℕ → AdmissionService → AdmissionService → Type 0
Completes none s s' = s' ≡ s
Completes (some handle) s s' = TakesEffect (complete s handle) s s'

abbrev pub AbandonsReaped :
    Result AdmissionError AdmissionService → ℕ → AdmissionService → AdmissionService → Type 0
AbandonsReaped (ok reaped) handle s s' = TakesEffect (abandon reaped handle) reaped s'
AbandonsReaped (err e) handle s s' = s' ≡ s

-- The reap of the handle, if there is one, is confirmed, and then the handle is abandoned.
abbrev pub Deregisters : Option ℕ → AdmissionService → AdmissionService → Type 0
Deregisters none s s' = s' ≡ s
Deregisters (some handle) s s' = AbandonsReaped (confirm_reaped s handle) handle s s'

completed_with-TakesEffect :
    (outcome : Result AdmissionError AdmissionService) (c : Cleanup)
    → TakesEffect outcome c.tx.admission (completed_with outcome c).tx.admission
unfolding completed_with
completed_with-TakesEffect (ok given) c = refl
completed_with-TakesEffect (err e) c = refl

pub complete_handle-Completes :
    (handle : Option ℕ) (c : Cleanup)
    → Completes handle c.tx.admission (complete_handle handle c).tx.admission
unfolding complete_handle
complete_handle-Completes none c = refl
complete_handle-Completes (some handle) c =
    completed_with-TakesEffect (complete c.tx.admission handle) c

pub after-TakesEffect :
    (outcome : Result AdmissionError AdmissionService) (s : AdmissionService)
    → TakesEffect outcome s (after s outcome)
after-TakesEffect (ok given) s = refl
after-TakesEffect (err e) s = refl

deregister-AbandonsReaped :
    (handle : ℕ) (s : AdmissionService)
    → AbandonsReaped (confirm_reaped s handle) handle s (deregister s handle)
unfolding deregister
deregister-AbandonsReaped handle s = go (confirm_reaped s handle)
  where
    go :
        (outcome : Result AdmissionError AdmissionService)
        → AbandonsReaped outcome handle s
            (elim outcome [ err e ↦ s | ok reaped ↦ after reaped (abandon reaped handle) ])
    go (ok reaped) = after-TakesEffect (abandon reaped handle) reaped
    go (err e) = refl

pub deregister_if-Deregisters :
    (handle : Option ℕ) (t : TransportTransaction)
    → Deregisters handle t.admission (deregister_if handle t).admission
unfolding deregister_if
deregister_if-Deregisters none t = refl
deregister_if-Deregisters (some handle) t = deregister-AbandonsReaped handle t.admission
