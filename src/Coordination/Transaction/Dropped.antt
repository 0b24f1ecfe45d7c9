-- ===== src/Coordination/Transaction/Dropped.antt =====
-- What the teardown of a session out of band leaves (src/kdive/coordination/transaction.py).
use linux_debug_mcp.Base.{
  ℕ, Option, List, [], ◌∷◌, ◌++◌, ◌≡◌, ◌⊎◌, refl, subst, ap, ◌∙◌, String, Bool, true, false, ◌&&◌,
  none, some, arith, if◌then◌else◌,
}
use linux_debug_mcp.Seams.Target.{TargetKey}
use linux_debug_mcp.Coordination.Lease.{lease_for}
use linux_debug_mcp.Coordination.Registry.{read_record, read_tombstone, is_session, delete_record}
use linux_debug_mcp.Coordination.Registry.Store.{read_record-delete_record}
use linux_debug_mcp.Coordination.Transaction.{
  TransportTransaction, SessionSubscriber, release_guard, release_lease, best_effort_reap,
}
use linux_debug_mcp.Coordination.Transaction.Close.{
  Closing, deregister_if, unsubscribe_if, delete_and_unsubscribe,
}
use linux_debug_mcp.Coordination.Transaction.Drop.{
  delete_if_killed, drop_in_memory, force_drop, reap_first, invalidate,
}
use linux_debug_mcp.Coordination.Transaction.Disposed.{Deregisters, deregister_if-Deregisters}
use linux_debug_mcp.Coordination.Transaction.Frees.{
  GuardFreeOf, LeaseFreeOf, Names, SameLeaseAt, release_guard-GuardFreeOf,
  release_lease-LeaseFreeOf, stale_guard, stale_lease,
}

-- Two states agree on what guards target `j`.
pub record SparesAt (before after : TransportTransaction) (j : TargetKey) : Type 0 where
  pub same_holder : after.stop_guard.holders j ≡ before.stop_guard.holders j
  pub same_lease : SameLeaseAt before.leases after.leases j
  pub same_record : read_record after.registry j ≡ read_record before.registry j
  pub same_tombstone : read_tombstone after.registry j ≡ read_tombstone before.registry j

-- No guard, lease or record is held for the subscriber's session.
pub record IsStale (sub : SessionSubscriber) (t : TransportTransaction) : Type 0 where
  pub guard_free : GuardFreeOf sub.state.guard_token t.stop_guard sub.session.target_key
  pub lease_free : LeaseFreeOf sub.state.lease_token t.leases sub.session.target_key
  pub not_recorded :
      is_session (read_record t.registry sub.session.target_key) sub.session.session_id ≡ false

module _ (env : Closing) (sub : SessionSubscriber) (t : TransportTransaction) where
  abbrev k : TargetKey
  k = sub.session.target_key

  force_drop-stop_guard :
      (force_drop env sub t).0.stop_guard ≡ (release_guard t k sub.state.guard_token).stop_guard
  unfolding force_drop drop_in_memory delete_if_killed delete_and_unsubscribe unsubscribe_if
      release_lease release_guard deregister_if
  force_drop-stop_guard = ground arith

  force_drop-leases :
      (force_drop env sub t).0.leases ≡ (release_lease t k sub.state.lease_token).leases
  unfolding force_drop drop_in_memory delete_if_killed delete_and_unsubscribe unsubscribe_if
      release_lease release_guard deregister_if
  force_drop-leases = ground arith

  force_drop-registry : (force_drop env sub t).0.registry ≡ (
      if sub.killed
      then elim env.delete_raises [
        | some e ↦ t.registry
        | none ↦ delete_record t.registry k (some sub.session.session_id)
      ]
      else t.registry)
  unfolding force_drop drop_in_memory delete_if_killed delete_and_unsubscribe unsubscribe_if
      release_lease release_guard deregister_if
  force_drop-registry = ground arith

  unrecorded_delete :
      is_session (read_record t.registry k) sub.session.session_id ≡ false
      → delete_record t.registry k (some sub.session.session_id) ≡ t.registry
  unfolding delete_record is_session
  unrecorded_delete other = ground (arith, other)

  stale_registry :
      is_session (read_record t.registry k) sub.session.session_id ≡ false
      → (force_drop env sub t).0.registry ≡ t.registry
  stale_registry other = force_drop-registry ∙ ground (arith, unrecorded_delete other)

  pub stale_drop_spares : IsStale sub t → (j : TargetKey) → SparesAt t (force_drop env sub t).0 j
  stale_drop_spares stale j = record {
    same_holder =
        rw force_drop-stop_guard (stale_guard t k sub.state.guard_token stale.guard_free j);
    same_lease = rw force_drop-leases (stale_lease t k sub.state.lease_token stale.lease_free j);
    same_record = rw (stale_registry stale.not_recorded) refl;
    same_tombstone = rw (stale_registry stale.not_recorded) refl;
  }

  force_drop-tokens : (force_drop env sub t).0.tokens sub.session.session_id ≡ none
  unfolding force_drop drop_in_memory delete_if_killed delete_and_unsubscribe unsubscribe_if
      release_lease release_guard deregister_if
  force_drop-tokens = ground arith

  force_drop-handles : (force_drop env sub t).0.handles sub.session.session_id ≡ none
  unfolding force_drop drop_in_memory delete_if_killed delete_and_unsubscribe unsubscribe_if
      release_lease release_guard deregister_if
  force_drop-handles = ground arith

module _ (env : Closing) (sub : SessionSubscriber) (t : TransportTransaction) where
  force_drop-admission :
      (force_drop env sub t).0.admission ≡ (deregister_if sub.state.admission_handle t).admission
  unfolding force_drop drop_in_memory delete_if_killed delete_and_unsubscribe unsubscribe_if
      release_lease release_guard deregister_if
  force_drop-admission = ground arith

  force_drop-subscribers :
      env.delete_raises ≡ none
      → (env.has_dispatcher ≡ false)
        ⊎ ((force_drop env sub t).0.subscribers sub.session.target_key sub.session.session_id
            ≡ none)
  unfolding force_drop drop_in_memory delete_if_killed delete_and_unsubscribe unsubscribe_if
      release_lease release_guard deregister_if
  force_drop-subscribers deletes = ground (arith, deletes)

-- What a reap leaves alone.
module _ (sub : SessionSubscriber) (t : TransportTransaction) where
  reaped_guard : (reap_first sub t).stop_guard ≡ t.stop_guard
  unfolding reap_first best_effort_reap
  reaped_guard = ground arith

  reaped_leases : (reap_first sub t).leases ≡ t.leases
  unfolding reap_first best_effort_reap
  reaped_leases = ground arith

  reaped_admission : (reap_first sub t).admission ≡ t.admission
  unfolding reap_first best_effort_reap
  reaped_admission = ground arith

  reaped_registry : (reap_first sub t).registry ≡ t.registry
  unfolding reap_first best_effort_reap
  reaped_registry = ground arith

  reaped-IsStale : IsStale sub t → IsStale (record sub { killed = true }) (reap_first sub t)
  reaped-IsStale stale = record {
    guard_free = rw reaped_guard stale.guard_free;
    lease_free = rw reaped_leases stale.lease_free;
    not_recorded = rw reaped_registry stale.not_recorded;
  }

rebased :
    (a b after : TransportTransaction) (j : TargetKey)
    → a.stop_guard ≡ b.stop_guard
    → a.leases ≡ b.leases
    → a.registry ≡ b.registry
    → SparesAt a after j
    → SparesAt b after j
rebased a b after j guards leases registries spared = record {
  same_holder = spared.same_holder ∙ ap (λ g. g.holders j) guards;
  same_lease = (
    spared.same_lease.0 ∙ ap (λ m. (lease_for m j).owner) leases,
    spared.same_lease.1 ∙ ap (λ m. (lease_for m j).token) leases,
    spared.same_lease.2 ∙ ap (λ m. (lease_for m j).generation) leases,
  );
  same_record = spared.same_record ∙ ap (λ reg. read_record reg j) registries;
  same_tombstone = spared.same_tombstone ∙ ap (λ reg. read_tombstone reg j) registries;
}

-- A subscriber whose session holds neither guard nor lease any more, and has no record, touches no
-- newer session: `force_drop` and `invalidate` change neither the guard nor the lease, the record or
-- the tombstone of any target, however late they run and whatever the delete raises.
pub stale_teardown_spares :
    (env : Closing) (sub : SessionSubscriber) (t : TransportTransaction)
    → IsStale sub t
    → (j : TargetKey)
    → SparesAt t (force_drop env sub t).0 j × SparesAt t (invalidate env sub t).0 j
unfolding invalidate
stale_teardown_spares env sub t stale j = (
  stale_drop_spares env sub t stale j,
  rebased (reap_first sub t) t _ j (reaped_guard sub t) (reaped_leases sub t)
      (reaped_registry sub t)
      (stale_drop_spares env (record sub { killed = true }) (reap_first sub t)
        (reaped-IsStale sub t stale) j),
)

-- What a teardown releases; `killed` says that the kill of the backend has resolved.
pub record Releases (has_dispatcher : Bool) (sub : SessionSubscriber) (killed : Bool)
    (before after : TransportTransaction) : Type 0 where
  pub guard_free : GuardFreeOf sub.state.guard_token after.stop_guard sub.session.target_key
  pub lease_free : LeaseFreeOf sub.state.lease_token after.leases sub.session.target_key
  pub no_token : after.tokens sub.session.session_id ≡ none
  pub no_handle : after.handles sub.session.session_id ≡ none
  pub unsubscribed :
      (has_dispatcher ≡ false)
      ⊎ (after.subscribers sub.session.target_key sub.session.session_id ≡ none)
  pub deregistered : Deregisters sub.state.admission_handle before.admission after.admission
  pub record_left : read_record after.registry sub.session.target_key ≡ (
      if killed
        && is_session (read_record before.registry sub.session.target_key) sub.session.session_id
      then none
      else read_record before.registry sub.session.target_key)

own_delete :
    (t : TransportTransaction) (k : TargetKey) (id : String)
    → read_record (delete_record t.registry k (some id)) k
      ≡ (if is_session (read_record t.registry k) id then none else read_record t.registry k)
unfolding is_session
own_delete t k id = read_record-delete_record t.registry k k id ∙ ground arith

left_if :
    (killed : Bool) (t : TransportTransaction) (k : TargetKey) (id : String)
    → read_record (if killed then delete_record t.registry k (some id) else t.registry) k ≡ (
        if killed && is_session (read_record t.registry k) id
        then none
        else read_record t.registry k)
left_if true t k id = own_delete t k id
left_if false t k id = refl

force_drop-Releases :
    (env : Closing) (sub : SessionSubscriber) (t : TransportTransaction)
    → env.delete_raises ≡ none
    → Names sub.state.guard_token sub.session.target_key
    → Releases env.has_dispatcher sub sub.killed t (force_drop env sub t).0
force_drop-Releases env sub t deletes named =
    let k = sub.session.target_key in
    record {
      guard_free =
          rw (force_drop-stop_guard env sub t)
            (release_guard-GuardFreeOf t k sub.state.guard_token named);
      lease_free =
          rw (force_drop-leases env sub t) (release_lease-LeaseFreeOf t k sub.state.lease_token);
      no_token = force_drop-tokens env sub t;
      no_handle = force_drop-handles env sub t;
      unsubscribed = force_drop-subscribers env sub t deletes;
      deregistered =
          rw (force_drop-admission env sub t)
            (deregister_if-Deregisters sub.state.admission_handle t);
      record_left =
          rw (force_drop-registry env sub t, deletes)
            (left_if sub.killed t k sub.session.session_id);
    }

released_after_reap :
    (has_dispatcher : Bool) (sub : SessionSubscriber) (a b after : TransportTransaction)
    → a.registry ≡ b.registry
    → a.admission ≡ b.admission
    → Releases has_dispatcher (record sub { killed = true }) true a after
    → Releases has_dispatcher sub true b after
released_after_reap has_dispatcher sub a b after registries admissions released = record {
  guard_free = released.guard_free;
  lease_free = released.lease_free;
  no_token = released.no_token;
  no_handle = released.no_handle;
  unsubscribed = released.unsubscribed;
  deregistered =
      subst (λ s. Deregisters sub.state.admission_handle s after.admission) admissions
        released.deregistered;
  record_left =
      released.record_left
      ∙ ap
          (λ reg.
            if is_session (read_record reg sub.session.target_key) sub.session.session_id
            then none
            else read_record reg sub.session.target_key)
          registries;
}

-- The log of kills once a backend of this identity, if there is one, has been killed.
abbrev pub killed_with :
    Option ℕ → Option String → List (ℕ × Option String) → List (ℕ × Option String)
killed_with none start reaped = reaped
killed_with (some pid) start reaped = reaped ++ (pid, start) ∷ []

force_drop-reaped :
    (env : Closing) (sub : SessionSubscriber) (t : TransportTransaction)
    → (force_drop env sub t).0.reaped ≡ t.reaped
unfolding force_drop drop_in_memory delete_if_killed delete_and_unsubscribe unsubscribe_if
    release_lease release_guard deregister_if
force_drop-reaped env sub t = ground arith

reap_first-reaped :
    (sub : SessionSubscriber) (t : TransportTransaction)
    → (reap_first sub t).reaped ≡ killed_with sub.state.backend_pid sub.state.backend_start t.reaped
unfolding reap_first best_effort_reap
reap_first-reaped sub t = ground arith

-- `force_drop` and `invalidate` leave the target under neither the guard nor the lease of their
-- session, and the session without an entry among the kept tokens, handles and, where there is a
-- dispatcher, subscribers. All they do in the admission service is to confirm the reap of the
-- subscriber's handle, if it has one, and then to abandon it; a call that raises changes nothing
-- there, and after a confirmation that raises the handle is not abandoned. `force_drop` takes the
-- session's own record away just if the kill of the backend has resolved, and so leaves it for a
-- later reconciliation if it has not; `invalidate` always does, and has handed the subscriber's
-- backend to the reaper, once, while `force_drop` hands it none. The guard token names the
-- session's target, and the record can be deleted.
pub teardown-Releases :
    (env : Closing) (sub : SessionSubscriber) (t : TransportTransaction)
    → env.delete_raises ≡ none
    → Names sub.state.guard_token sub.session.target_key
    → Releases env.has_dispatcher sub sub.killed t (force_drop env sub t).0
      × Releases env.has_dispatcher sub true t (invalidate env sub t).0
      × ((force_drop env sub t).0.reaped ≡ t.reaped)
      × ((invalidate env sub t).0.reaped
          ≡ killed_with sub.state.backend_pid sub.state.backend_start t.reaped)
unfolding invalidate
teardown-Releases env sub t deletes named = (
  force_drop-Releases env sub t deletes named,
  released_after_reap env.has_dispatcher sub (reap_first sub t) t _ (reaped_registry sub t)
      (reaped_admission sub t)
      (force_drop-Releases env (record sub { killed = true }) (reap_first sub t) deletes named),
  force_drop-reaped env sub t,
  force_drop-reaped env (record sub { killed = true }) (reap_first sub t) ∙ reap_first-reaped sub t,
)
