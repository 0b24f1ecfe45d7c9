-- ===== src/Coordination/Transaction/Closed.antt =====
-- What a close and a forced release leave (src/kdive/coordination/transaction.py).
use linux_debug_mcp.Base.{
  false, ◌⊎◌, ◌≡◌, ◌∙◌, String, Bool, true, none, some, List, [], ◌∷◌, arith,
}
use linux_debug_mcp.Seams.TransportState.{TransportSession, RecordState}
use linux_debug_mcp.Coordination.Registry.{
  find_owner, is_session, read_record, write_record, delete_record,
}
use linux_debug_mcp.Coordination.Registry.Store.{
  DistinctOwners, owned_if_found, read_record-write_record, read_record-delete_record,
}
use linux_debug_mcp.Coordination.Transaction.{TransportTransaction, release_guard, release_lease}
use linux_debug_mcp.Coordination.Transaction.Close.{
  Closing, find_session, record_by_session_id, pop_token, unsubscribe_if, tear_down, deregister_if,
  delete_and_unsubscribe, release_record, force_release, close_record, close_session,
}
use linux_debug_mcp.Coordination.Admission.{AdmissionService}
use linux_debug_mcp.Coordination.Admission.Lifecycle.{mark_recovery_required}
use linux_debug_mcp.Coordination.Transaction.Disposed.{
  Completes, Deregisters, deregister_if-Deregisters,
}
use linux_debug_mcp.Coordination.Transaction.Frees.{
  GuardFreeOf, LeaseFreeOf, Names, release_guard-GuardFreeOf, release_lease-LeaseFreeOf,
}
use linux_debug_mcp.Coordination.Transaction.TearsDown.{
  tear_down-stop_guard, tear_down-leases, tear_down-tokens, tear_down-handles, tear_down-no_record,
  tear_down-subscribers, tear_down-Completed,
}

-- What a close leaves of the session of record `r`.
pub record Closes (has_dispatcher : Bool) (r : TransportSession) (id : String)
    (before after : TransportTransaction) : Type 0 where
  pub guard_free : GuardFreeOf (before.tokens id) after.stop_guard r.target_key
  pub lease_free : LeaseFreeOf r.console_lease_token after.leases r.target_key
  pub no_token : after.tokens id ≡ none
  pub no_handle : after.handles id ≡ none
  pub no_record : read_record after.registry r.target_key ≡ none
  pub unsubscribed : (has_dispatcher ≡ false) ⊎ (after.subscribers r.target_key id ≡ none)

-- The session's handle has been completed, and the target may have been gated after that.
abbrev pub HandleCompleted :
    TransportSession → String → TransportTransaction → TransportTransaction → Type 0
HandleCompleted r id before after =
    (s : AdmissionService) × Completes (before.handles id) before.admission s
    × ((after.admission ≡ s)
        ⊎ (after.admission ≡ mark_recovery_required s r.target_key r.generation))

unfoldable pub closing : TransportTransaction → TransportSession → TransportTransaction
closing t r = record t {
  registry = write_record t.registry (record r { record_state = RecordState.closing });
}

closing_record :
    (t : TransportTransaction) (r : TransportSession)
    → is_session (read_record (closing t r).registry r.target_key) r.session_id ≡ true
unfolding is_session closing
closing_record t r = ground (
  arith,
  read_record-write_record t.registry (record r { record_state = RecordState.closing })
      r.target_key,
)

tear_down-Closes :
    (env : Closing) (r : TransportSession) (id : String) (force : Bool) (t : TransportTransaction)
    → env.delete_raises ≡ none
    → Names (t.tokens id) r.target_key
    → Closes env.has_dispatcher r id t (tear_down env r id force (closing t r)).tx
unfolding closing
tear_down-Closes env r id force t deletes named = record {
  guard_free =
      rw (tear_down-stop_guard env r id force (closing t r))
        (release_guard-GuardFreeOf (closing t r) r.target_key (t.tokens id) named);
  lease_free =
      rw (tear_down-leases env r id force (closing t r))
        (release_lease-LeaseFreeOf (closing t r) r.target_key r.console_lease_token);
  no_token = tear_down-tokens env r id force (closing t r);
  no_handle = tear_down-handles env r id force (closing t r);
  no_record = tear_down-no_record env r id force (closing t r) deletes (closing_record t r);
  unsubscribed = tear_down-subscribers env r id force (closing t r);
}

tear_down-HandleCompleted :
    (env : Closing) (r : TransportSession) (id : String) (force : Bool) (t : TransportTransaction)
    → HandleCompleted r id t (tear_down env r id force (closing t r)).tx
unfolding closing
tear_down-HandleCompleted env r id force t = tear_down-Completed env r id force (closing t r)

module _ (env : Closing) (r : TransportSession) (id : String) (t : TransportTransaction)
    (deletes : env.delete_raises ≡ none) where
  abbrev freed : TransportTransaction
  freed = (release_record env (some r) id t).0

  release_record-stop_guard :
      freed.stop_guard ≡ (release_guard t r.target_key (t.tokens id)).stop_guard
  unfolding release_record pop_token deregister_if delete_and_unsubscribe unsubscribe_if
      release_lease release_guard
  release_record-stop_guard = ground (arith, deletes)

  release_record-leases : freed.leases ≡ (release_lease t r.target_key r.console_lease_token).leases
  unfolding release_record pop_token deregister_if delete_and_unsubscribe unsubscribe_if
      release_lease release_guard
  release_record-leases = ground (arith, deletes)

  release_record-dicts : (freed.tokens id ≡ none) × (freed.handles id ≡ none)
  unfolding release_record pop_token deregister_if delete_and_unsubscribe unsubscribe_if
      release_lease release_guard
  release_record-dicts = ground (arith, deletes)

  release_record-subscribers :
      (env.has_dispatcher ≡ false) ⊎ (freed.subscribers r.target_key id ≡ none)
  unfolding release_record pop_token deregister_if delete_and_unsubscribe unsubscribe_if
      release_lease release_guard
  release_record-subscribers = ground (arith, deletes)

  release_record-admission : freed.admission ≡ (deregister_if (t.handles id) t).admission
  unfolding release_record pop_token deregister_if delete_and_unsubscribe unsubscribe_if
      release_lease release_guard
  release_record-admission = ground (arith, deletes)

  release_record-registry :
      freed.registry ≡ delete_record t.registry r.target_key (some r.session_id)
  unfolding release_record pop_token deregister_if delete_and_unsubscribe unsubscribe_if
      release_lease release_guard
  release_record-registry = ground (arith, deletes)

-- The close of a known session leaves its target under neither the session's guard nor its console
-- lease and without a durable record, and the session without an entry among the kept tokens, handles
-- and, where there is a dispatcher, subscribers, whatever the backend, the admission service and the
-- write of a tombstone raise. It has completed the session's handle, if one was kept, in the admission
-- service, which `complete` leaves as it was where it raises; after that it has changed nothing there
-- but perhaps gated the target. The CLOSING record can be written and the record deleted, and the
-- guard token names the target.
pub close_releases :
    (env : Closing) (id : String) (force : Bool) (t : TransportTransaction) (r : TransportSession)
    → record_by_session_id t id ≡ some r
    → env.write_raises ≡ none
    → env.delete_raises ≡ none
    → Names (t.tokens id) r.target_key
    → Closes env.has_dispatcher r id t (close_session env id force t).0
      × HandleCompleted r id t (close_session env id force t).0
unfolding close_session close_record closing
close_releases env id force t r known writes deletes named =
    rw (known, writes)
      ((
        tear_down-Closes env r id force t deletes named,
        tear_down-HandleCompleted env r id force t,
      ))

-- The record that a search by session finds is the one of its target.
find_session-find_owner :
    (id : String) (rs : List TransportSession) (r : TransportSession)
    → DistinctOwners rs
    → find_session id rs ≡ some r
    → find_owner r.target_key rs ≡ some r
unfolding find_session find_owner
find_session-find_owner id [] r d found = ground (arith, found)
find_session-find_owner id (x ∷ rs) r (alone, d) found =
    ground (arith, find_session-find_owner id rs r d, owned_if_found x.target_key rs r)

own_record_gone :
    (t : TransportTransaction) (r : TransportSession)
    → find_owner r.target_key t.registry.owners ≡ some r
    → read_record (delete_record t.registry r.target_key (some r.session_id)) r.target_key ≡ none
unfolding read_record
own_record_gone t r found =
    read_record-delete_record t.registry r.target_key r.target_key r.session_id
    ∙ ground (arith, found)

-- `force_release` of a known session leaves its target under neither the session's guard nor its
-- console lease and without a durable record, and the session without an entry among the kept tokens,
-- handles and, where there is a dispatcher, subscribers, whatever the admission service raises. All it
-- does in the admission service is to confirm the reap of the session's handle, if one was kept, and
-- then to abandon it; a call that raises changes nothing there, and after a confirmation that raises
-- the handle is not abandoned. At most one record stands for each target, the record can be deleted,
-- and the guard token names the target.
pub force_release_lem :
    (env : Closing) (id : String) (t : TransportTransaction) (r : TransportSession)
    → DistinctOwners t.registry.owners
    → record_by_session_id t id ≡ some r
    → env.delete_raises ≡ none
    → Names (t.tokens id) r.target_key
    → Closes env.has_dispatcher r id t (force_release env id t).0
      × Deregisters (t.handles id) t.admission (force_release env id t).0.admission
unfolding force_release record_by_session_id
force_release_lem env id t r distinct known deletes named = rw known (
    (
      record {
        guard_free =
            rw (release_record-stop_guard env r id t deletes)
              (release_guard-GuardFreeOf t r.target_key (t.tokens id) named);
        lease_free =
            rw (release_record-leases env r id t deletes)
              (release_lease-LeaseFreeOf t r.target_key r.console_lease_token);
        no_token = (release_record-dicts env r id t deletes).0;
        no_handle = (release_record-dicts env r id t deletes).1;
        no_record =
            rw (release_record-registry env r id t deletes)
              (own_record_gone t r (find_session-find_owner id t.registry.owners r distinct known));
        unsubscribed = release_record-subscribers env r id t deletes;
      },
      rw (release_record-admission env r id t deletes) (deregister_if-Deregisters (t.handles id) t),
    ))
