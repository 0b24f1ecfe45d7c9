-- ===== src/Coordination/Transaction/Drop.antt =====
-- _SessionSubscriber (src/kdive/coordination/transaction.py): the teardown of a session out of band.
-- A subscriber is one object: `_killed` is set in it and in the dispatcher's entry alike.
use linux_debug_mcp.Base.{String, Bool, true, false, Option, none, some}
use linux_debug_mcp.Coordination.Transaction.{
  TransportTransaction, SessionSubscriber, pop, set_subscriber, release_guard, release_lease,
  best_effort_reap,
}
use linux_debug_mcp.Coordination.Transaction.Close.{
  Closing, deregister_if, unsubscribe_if, delete_and_unsubscribe,
}

-- The record goes only once the kill of the backend has resolved.
unfoldable pub delete_if_killed :
    Bool → Closing → SessionSubscriber → TransportTransaction → TransportTransaction × Option String
unfolding unsubscribe_if delete_and_unsubscribe
delete_if_killed true env sub t =
    delete_and_unsubscribe env sub.session.target_key sub.session.session_id sub.session.session_id
      t
delete_if_killed false env sub t =
    (unsubscribe_if env.has_dispatcher t sub.session.target_key sub.session.session_id, none)

-- What `force_drop` takes out of memory.
unfoldable pub drop_in_memory : SessionSubscriber → TransportTransaction → TransportTransaction
unfolding release_lease release_guard deregister_if
drop_in_memory sub t =
    let id = sub.session.session_id in
    let released =
      release_guard (release_lease t sub.session.target_key sub.state.lease_token)
        sub.session.target_key sub.state.guard_token in
    let deregistered =
      deregister_if sub.state.admission_handle
        (record released { tokens = pop released.tokens id }) in
    record deregistered { handles = pop deregistered.handles id }

unfoldable pub force_drop :
    Closing → SessionSubscriber → TransportTransaction → TransportTransaction × Option String
unfolding drop_in_memory delete_if_killed
force_drop env sub t = delete_if_killed sub.killed env sub (drop_in_memory sub t)

set_killed : Option SessionSubscriber → Option SessionSubscriber
set_killed none = none
set_killed (some sub) = some (record sub { killed = true })

-- The backend is reaped first.
unfoldable pub reap_first : SessionSubscriber → TransportTransaction → TransportTransaction
unfolding set_killed best_effort_reap
reap_first sub t =
    let k = sub.session.target_key in
    let id = sub.session.session_id in
    let reaped = best_effort_reap t sub.state in
    record reaped {
      subscribers = set_subscriber reaped.subscribers k id (set_killed (reaped.subscribers k id));
    }

unfoldable pub invalidate :
    Closing → SessionSubscriber → TransportTransaction → TransportTransaction × Option String
unfolding force_drop reap_first
invalidate env sub t = force_drop env (record sub { killed = true }) (reap_first sub t)
