-- ===== src/Coordination/Transaction/Open.antt =====
-- TransportTransaction.open (src/kdive/coordination/transaction.py), with the roll back on an error.
mod Attempt
mod Acquires
mod Records
pub use Attempt.*
unfoldable pub use Attempt.{◌>>=◌, ◌>>◌, returns, raises, lift, raise_text, admit_open, channel_of}
pub use Acquires.*
unfoldable pub use Acquires.{crash, unlocked, select_channel, take_guard, leased_with, take_lease}
pub use Records.*
unfoldable pub use Records.{
  opening_record, written, write_opening_record, on_partial, report_partials, attached,
  attach_open_backend, ready_record, write_ready_record, subscribe_if, promoted_with,
  promote_session, forget_tombstone, clear_recovery,
}
use linux_debug_mcp.Base.{
  ℕ, String, Bool, true, false, Option, none, some, List, [], ◌∷◌, Result, ok, err, if◌then◌else◌,
  update, String-discrete,
}
use linux_debug_mcp.Seams.Target.{TargetKey}
use linux_debug_mcp.Seams.TransportState.{
  TransportSession, TransportRef, OpenRequest, Endpoint, ArtifactRef, RecordState, ExecutionState,
}
use linux_debug_mcp.Seams.Guard.{GuardToken, GuardError}
use linux_debug_mcp.Seams.Guard
use linux_debug_mcp.Coordination.Lease.{LeaseOwner, LeaseError, manager_acquire}
use linux_debug_mcp.Coordination.Selection.{
  BreakPolicy, Selection, SelectionError, select_stop_capable_channel,
}
use linux_debug_mcp.Coordination.Admission.{AdmissionService, AdmissionError, found}
use linux_debug_mcp.Coordination.Admission.Gate.{admit, admit_recovery}
use linux_debug_mcp.Coordination.Admission.Bindings.{promote}
use linux_debug_mcp.Coordination.Admission.Lifecycle.{clear_recovery_required}
use linux_debug_mcp.Coordination.Admission.Calls
use linux_debug_mcp.Coordination.Admission.Calls.{Call}
use linux_debug_mcp.Coordination.Registry.{write_record, clear_tombstone}
use linux_debug_mcp.Coordination.EndpointSafety.{
  EndpointSafetyError, TransportCapability, refuse_unsafe_exposure, assert_loopback,
}
use linux_debug_mcp.Coordination.Transaction.{
  OpenState, nothing_held, TransportTransaction, set_subscriber, roll_back,
}

module _ (env : Surroundings) (request : OpenRequest) (handle : ℕ) where
  -- What follows the admission.
  unfoldable pub open_admitted : Bool → M TransportSession
  open_admitted recovery = do
    selection ← select_channel env request handle
    crash env request handle CrashPoint.selected
    guard_token ← take_guard env request handle
    crash env request handle CrashPoint.guard_held
    lease_token ← take_lease env request handle
    crash env request handle CrashPoint.lease_held
    raise_text env.secrets_raise
    opening ← write_opening_record env request handle selection guard_token lease_token
    crash env request handle CrashPoint.record_written
    attachment ← attach_open_backend env request handle opening
    session ← write_ready_record env request handle opening attachment
    crash env request handle CrashPoint.ready_written
    promote_session env request handle session
    unlocked env request handle
    clear_recovery env request handle recovery
    returns session

abbrev pub Outcome : Type 0
Outcome = TransportTransaction × Result OpenError TransportSession

-- `except BaseException: self._rollback(...); raise`.
unfoldable pub unwind :
    Surroundings → TargetKey → ℕ → Progress × Result OpenError TransportSession → Outcome
unwind env k handle (p, ok session) = (p.tx, ok session)
unwind env k handle (p, err e) = (roll_back env.delete_raises p.tx k p.held handle, err e)

unfoldable pub open_if_admitted :
    Surroundings
    → OpenRequest
    → Bool
    → TransportTransaction
    → Result AdmissionError (AdmissionService × ℕ)
    → Outcome
unfolding unwind
open_if_admitted env request recovery tx (err e) = (tx, err (refused e))
open_if_admitted env request recovery tx (ok (admission, handle)) =
    unwind env request.target_key handle (
      open_admitted env request handle recovery
        (record { tx = record tx { admission = admission }; held = nothing_held }))

unfoldable pub open_if_safe :
    Surroundings
    → OpenRequest
    → Bool
    → TransportTransaction
    → Result EndpointSafetyError (Unit {0})
    → Outcome
unfolding open_if_admitted
open_if_safe env request recovery tx (err e) = (tx, err (unsafe_endpoint e))
open_if_safe env request recovery tx (ok _) =
    open_if_admitted env request recovery tx
      (admit_open recovery tx.admission request env.now env.handle_id)

unfoldable pub open_session : Surroundings → OpenRequest → Bool → TransportTransaction → Outcome
unfolding open_if_safe
open_session env request recovery tx =
    open_if_safe env request recovery tx (refuse_unsafe_exposure env.capability "transport.open")
