-- ===== src/Coordination/Transaction/Tests/Ends.antt =====
-- The end of a session that holds a guard, a lease and a record
-- (src/kdive/coordination/transaction.py).
use linux_debug_mcp.Base.{
  inl, ℕ, ◌≡◌, refl, arith, String, true, false, Option, none, some, [], ◌∷◌, ok, String-discrete,
  text_differs,
}
use linux_debug_mcp.Seams.Target.{TargetKey-discrete}
use linux_debug_mcp.Seams.TransportState.{TransportSession, RecordState, ExecutionState}
use linux_debug_mcp.Seams.Guard.{GuardToken}
use linux_debug_mcp.Coordination.Lease.{LeaseOwner, lease_for}
use linux_debug_mcp.Coordination.Registry.{read_record, read_tombstone, is_session}
use linux_debug_mcp.Coordination.Registry.Gates.{Gates}
use linux_debug_mcp.Coordination.Transaction.{
  TransportTransaction, SessionSubscriber, release_lease,
}
use linux_debug_mcp.Coordination.Transaction.Close.{
  Closing, find_session, record_by_session_id, pop_token, pop_handle, is_parked, mark_recovery,
  park_if, clean_record, unsubscribe_if, tear_down, raise_close_failures, close_record,
  close_session, force_release,
}
use linux_debug_mcp.Coordination.Transaction.Drop.{force_drop, invalidate}
use linux_debug_mcp.Coordination.Transaction.Disposed.{Deregisters}
use linux_debug_mcp.Coordination.Transaction.Closed.{
  HandleCompleted, Closes, close_releases, force_release_lem,
}
use linux_debug_mcp.Coordination.Transaction.Parks.{closed_tombstone, close_parks}
use linux_debug_mcp.Coordination.Transaction.Dropped.{
  killed_with, IsStale, SparesAt, Releases, stale_teardown_spares, teardown-Releases,
}
use linux_debug_mcp.Coordination.Transaction.Tests.{vm, before}

abbrev session : String → TransportSession
session id = record {
  session_id = id;
  target_key = vm;
  generation = 1;
  provider = "qemu-gdbstub";
  channel_id = "rsp0";
  console_endpoint = none;
  rsp_endpoint = none;
  record_state = RecordState.ready;
  console_lease_token = some "l0";
  stop_guard_token = some "g0";
  attach_epoch = 0;
  break_plan = none;
  execution_state = ExecutionState.halted;
  backend_pid = some 4711;
  backend_start_time = some "8";
  created_at = 0;
  ended_at = none;
  artifacts = [];
}

abbrev token : ℕ → GuardToken
token fence = record { target_key = vm; fence = fence; secret = "g0" }

abbrev opened : TransportTransaction
opened = record before {
  registry = record { owners = session "s0" ∷ []; tombs = [] };
  stop_guard = record { holders = λ k. some (token 1); fence = 1 };
  leases = record {
    leases = λ k. some (record { owner = LeaseOwner.transport; token = some "l0"; generation = 1 });
  };
  tokens = λ i. some (token 1);
}

-- The backend fails to close.
abbrev env : Option String → Closing
env close_raises = record {
  write_raises = none;
  close_raises = close_raises;
  tombstone_raises = none;
  delete_raises = none;
  has_dispatcher = true;
}

abbrev subscriber : ℕ → String → String → SessionSubscriber
subscriber fence lease_token id = record {
  session = session id;
  state = record {
    guard_token = some (token fence);
    lease_token = some lease_token;
    session_id = some id;
    backend_pid = some 4711;
    backend_start = some "8";
    admission_handle = none;
  };
  killed = false;
}

close_releases_example :
    let end = (close_session (env (some "no backend")) "s0" false opened).0 in
    Closes (env (some "no backend")).has_dispatcher (session "s0") "s0" opened end
    × HandleCompleted (session "s0") "s0" opened end
unfolding record_by_session_id find_session String-discrete
close_releases_example =
    close_releases (env (some "no backend")) "s0" false opened (session "s0") refl refl refl refl

force_release_lem_example :
    let end = (force_release (env none) "s0" opened).0 in
    Closes (env none).has_dispatcher (session "s0") "s0" opened end
    × Deregisters (opened.handles "s0") opened.admission end.admission
unfolding record_by_session_id find_session String-discrete
force_release_lem_example =
    force_release_lem (env none) "s0" opened (session "s0") (refl, tt) refl refl refl

closes : (close_session (env none) "s0" false opened).1 ≡ ok tt
unfolding close_session close_record tear_down pop_token pop_handle park_if mark_recovery
    clean_record unsubscribe_if is_parked raise_close_failures record_by_session_id find_session
    String-discrete release_lease
closes = refl

close_parks_example :
    (read_tombstone (close_session (env none) "s0" false opened).0.registry vm
      ≡ some (closed_tombstone (session "s0")))
    × Gates (close_session (env none) "s0" false opened).0.admission vm 1
unfolding record_by_session_id find_session String-discrete is_parked
close_parks_example = close_parks (env none) "s0" opened (session "s0") refl (inl refl) closes

-- The subscriber of an older session, whose tokens are spent.
stale : IsStale (subscriber 0 "l-old" "s-old") opened
unfolding lease_for read_record is_session String-discrete TargetKey-discrete
stale = record {
  guard_free = ground arith;
  lease_free = ground (arith, text_differs "l0" "l-old" refl);
  not_recorded = refl;
}

stale_teardown_spares_example :
    SparesAt opened (force_drop (env none) (subscriber 0 "l-old" "s-old") opened).0 vm
    × SparesAt opened (invalidate (env none) (subscriber 0 "l-old" "s-old") opened).0 vm
stale_teardown_spares_example =
    stale_teardown_spares (env none) (subscriber 0 "l-old" "s-old") opened stale vm

teardown-Releases_example :
    Releases
      (env none).has_dispatcher
      (subscriber 1 "l0" "s0")
      false
      opened
      (force_drop (env none) (subscriber 1 "l0" "s0") opened).0
    × Releases
        (env none).has_dispatcher
        (subscriber 1 "l0" "s0")
        true
        opened
        (invalidate (env none) (subscriber 1 "l0" "s0") opened).0
    × ((force_drop (env none) (subscriber 1 "l0" "s0") opened).0.reaped ≡ opened.reaped)
    × ((invalidate (env none) (subscriber 1 "l0" "s0") opened).0.reaped
        ≡ killed_with
            (subscriber 1 "l0" "s0").state.backend_pid
            (subscriber 1 "l0" "s0").state.backend_start
            opened.reaped)
teardown-Releases_example = teardown-Releases (env none) (subscriber 1 "l0" "s0") opened refl refl
