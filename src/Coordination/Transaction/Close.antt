-- ===== src/Coordination/Transaction/Close.antt =====
-- TransportTransaction.close and force_release (src/kdive/coordination/transaction.py). What the file
-- system and the backend raise is a value. The calls of close are one atomic step.
use linux_debug_mcp.Base.{
  ℕ, String, Bool, true, false, not, ◌&&◌, Option, none, some, List, [], ◌∷◌, ◌++◌, Result, ok, err,
  ite, String-discrete,
}
use linux_debug_mcp.Seams.Target.{TargetKey}
use linux_debug_mcp.Seams.TransportState.{TransportSession, RecordState, ExecutionState}
use linux_debug_mcp.Coordination.Admission.{AdmissionService, AdmissionError}
use linux_debug_mcp.Coordination.Admission.Bindings.{complete, confirm_reaped, abandon}
use linux_debug_mcp.Coordination.Admission.Lifecycle.{mark_recovery_required}
use linux_debug_mcp.Coordination.Admission.Calls.{after}
use linux_debug_mcp.Coordination.Registry.{write_record, delete_record, write_tombstone}
use linux_debug_mcp.Coordination.Registry.Reconcile.{tombstone_of}
use linux_debug_mcp.Coordination.Transaction.{
  TransportTransaction, pop, set_subscriber, release_guard, release_lease,
}

pub record Closing : Type 0 where
  pub write_raises : Option String
  pub close_raises : Option String
  pub tombstone_raises : Option String
  pub delete_raises : Option String
  pub has_dispatcher : Bool

pub data CleanupError : Type 0 where
  text : String → CleanupError
  not_completed : AdmissionError → CleanupError

-- `_raise_close_failures`: the error of the backend, and those of the clean-up in order.
pub data CloseError : Type 0 where
  unwritten : String → CloseError
  failed : Option String → List CleanupError → CloseError

-- The state, and `cleanup_errors`.
pub record Cleanup : Type 0 where
  pub tx : TransportTransaction
  pub errors : List CleanupError

unfoldable pub find_session : String → List TransportSession → Option TransportSession
find_session id [] = none
find_session id (r ∷ rs) = ite (String-discrete r.session_id id) (some r) (find_session id rs)

unfoldable pub record_by_session_id : TransportTransaction → String → Option TransportSession
unfolding find_session
record_by_session_id t id = find_session id t.registry.owners

-- Pop the token, and release the guard with it.
unfoldable pub pop_token : TransportTransaction → TargetKey → String → TransportTransaction
unfolding release_guard
pop_token t k id = release_guard (record t { tokens = pop t.tokens id }) k (t.tokens id)

unfoldable pub completed_with : Result AdmissionError AdmissionService → Cleanup → Cleanup
completed_with (ok admission) c = record c { tx = record c.tx { admission = admission } }
completed_with (err e) c = record c { errors = c.errors ++ not_completed e ∷ [] }

unfoldable pub complete_handle : Option ℕ → Cleanup → Cleanup
unfolding completed_with
complete_handle none c = c
complete_handle (some handle) c = completed_with (complete c.tx.admission handle) c

unfoldable pub pop_handle : String → Cleanup → Cleanup
unfolding complete_handle
pop_handle id c =
    complete_handle (c.tx.handles id)
      (record c { tx = record c.tx { handles = pop c.tx.handles id } })

-- HALTED or UNKNOWN.
unfoldable pub is_parked : ExecutionState → Bool
is_parked ExecutionState.executing = false
is_parked ExecutionState.halted = true
is_parked ExecutionState.unknown = true

-- `_mark_recovery`: the tombstone, and then the cache.
unfoldable pub mark_recovery : Option String → TransportSession → Cleanup → Cleanup
mark_recovery (some e) r c = record c { errors = c.errors ++ text e ∷ [] }
mark_recovery none r c = record c {
  tx = record c.tx {
    registry = write_tombstone c.tx.registry (tombstone_of r "closed_while_halted");
    admission = mark_recovery_required c.tx.admission r.target_key r.generation;
  };
}

unfoldable pub park_if : Bool → Option String → TransportSession → Cleanup → Cleanup
unfolding mark_recovery
park_if false raises r c = c
park_if true raises r c = mark_recovery raises r c

unfoldable pub clean_record : Option String → TransportSession → Cleanup → Cleanup
clean_record (some e) r c = record c { errors = c.errors ++ text e ∷ [] }
clean_record none r c = record c {
  tx = record c.tx { registry = delete_record c.tx.registry r.target_key (some r.session_id) };
}

unfoldable pub unsubscribe_if :
    Bool → TransportTransaction → TargetKey → String → TransportTransaction
unsubscribe_if false t k id = t
unsubscribe_if true t k id = record t { subscribers = set_subscriber t.subscribers k id none }

unfoldable pub raise_close_failures :
    Option String → List CleanupError → Result CloseError (Unit {0})
raise_close_failures none [] = ok tt
raise_close_failures none (e ∷ es) = err (failed none (e ∷ es))
raise_close_failures (some e) errors = err (failed (some e) errors)

-- Each step runs, whatever those before it raised.
unfoldable pub tear_down :
    Closing → TransportSession → String → Bool → TransportTransaction → Cleanup
unfolding pop_token pop_handle park_if clean_record unsubscribe_if is_parked
tear_down env r id force t =
    let k = r.target_key in
    let released = pop_token (release_lease t k r.console_lease_token) k id in
    let disposed = pop_handle id (record { tx = released; errors = [] }) in
    let parked =
      park_if (is_parked r.execution_state && not force) env.tombstone_raises r disposed in
    let deleted = clean_record env.delete_raises r parked in
    record deleted { tx = unsubscribe_if env.has_dispatcher deleted.tx k id }

unfoldable pub close_record :
    Closing
    → Option TransportSession
    → String
    → Bool
    → TransportTransaction
    → TransportTransaction × Result CloseError (Unit {0})
unfolding tear_down raise_close_failures
close_record env none id force t = (t, ok tt)
close_record env (some r) id force t = elim env.write_raises [
  | some e ↦ (t, err (unwritten e))
  | none ↦
      let closing = record r { record_state = RecordState.closing } in
      let end =
        tear_down env r id force (record t { registry = write_record t.registry closing }) in
      (end.tx, raise_close_failures env.close_raises end.errors)
]

unfoldable pub close_session :
    Closing
    → String
    → Bool
    → TransportTransaction
    → TransportTransaction × Result CloseError (Unit {0})
unfolding close_record record_by_session_id
close_session env id force t = close_record env (record_by_session_id t id) id force t

-- confirm_reaped, then abandon; what either raises is suppressed.
unfoldable pub deregister : AdmissionService → ℕ → AdmissionService
deregister s handle = elim (confirm_reaped s handle) [
  | err e ↦ s
  | ok reaped ↦ after reaped (abandon reaped handle)
]

unfoldable pub deregister_if : Option ℕ → TransportTransaction → TransportTransaction
unfolding deregister
deregister_if none t = t
deregister_if (some handle) t = record t { admission = deregister t.admission handle }

-- What the delete of a record raises is raised; then the subscriber stays.
unfoldable pub delete_and_unsubscribe :
    Closing
    → TargetKey
    → String
    → String
    → TransportTransaction
    → TransportTransaction × Option String
unfolding unsubscribe_if
delete_and_unsubscribe env k owner id t = elim env.delete_raises [
  | some e ↦ (t, some e)
  | none ↦ (
    unsubscribe_if env.has_dispatcher
        (record t { registry = delete_record t.registry k (some owner) }) k id,
    none,
  )
]

unfoldable pub release_record :
    Closing
    → Option TransportSession
    → String
    → TransportTransaction
    → TransportTransaction × Option String
unfolding pop_token deregister_if delete_and_unsubscribe
release_record env none id t =
    (record t { tokens = pop t.tokens id; handles = pop t.handles id }, none)
release_record env (some r) id t =
    let freed = pop_token (release_lease t r.target_key r.console_lease_token) r.target_key id in
    delete_and_unsubscribe env r.target_key r.session_id id
      (deregister_if (t.handles id) (record freed { handles = pop freed.handles id }))

unfoldable pub force_release :
    Closing → String → TransportTransaction → TransportTransaction × Option String
unfolding release_record record_by_session_id
force_release env id t = release_record env (record_by_session_id t id) id t
