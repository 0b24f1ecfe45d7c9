-- ===== src/Coordination/Transaction/Rollback.antt =====
-- A rollback gives back what an open holds (src/kdive/coordination/transaction.py).
use linux_debug_mcp.Base.{ℕ, ◌≡◌, ◌≢◌, ◌⊎◌, ◌∙◌, String, Bool, Option, none, some, arith}
use linux_debug_mcp.Seams.Target.{TargetKey}
use linux_debug_mcp.Seams.Guard.{GuardToken, StopCapableGuard}
use linux_debug_mcp.Seams.Guard
use linux_debug_mcp.Coordination.Lease.{ConsoleLeaseManager, lease_for, release, manager_release}
use linux_debug_mcp.Coordination.Lease.Tokens.{IsValid}
use linux_debug_mcp.Coordination.Registry.{
  SessionRegistry, read_record, read_tombstone, delete_record,
}
use linux_debug_mcp.Coordination.Registry.Store.{read_record-delete_record}
use linux_debug_mcp.Coordination.Transaction.{
  OpenState, SessionSubscriber, TransportTransaction, release_guard, release_lease, delete_unless,
  drop_session, best_effort_reap, roll_back,
}
use linux_debug_mcp.Coordination.Transaction.Owed.{
  GuardOwed, SameLease, LeaseOwed, RecordOwed, DictOwed, SubscribersOwed,
}

-- What each step of a rollback changes.
module _ (dr : Option String) (t : TransportTransaction) (k : TargetKey) (held : OpenState)
    (handle : ℕ) where
  pub roll_back-release_guard :
      (roll_back dr t k held handle).stop_guard ≡ (release_guard t k held.guard_token).stop_guard
  unfolding roll_back release_guard release_lease drop_session best_effort_reap
  roll_back-release_guard = ground arith

  pub roll_back-release_lease :
      (roll_back dr t k held handle).leases ≡ (release_lease t k held.lease_token).leases
  unfolding roll_back release_guard release_lease drop_session best_effort_reap
  roll_back-release_lease = ground arith

  pub roll_back-drop_session :
      ((roll_back dr t k held handle).registry ≡ (drop_session dr t k held.session_id).registry)
      × ((roll_back dr t k held handle).tokens ≡ (drop_session dr t k held.session_id).tokens)
      × ((roll_back dr t k held handle).handles ≡ (drop_session dr t k held.session_id).handles)
      × ((roll_back dr t k held handle).subscribers
          ≡ (drop_session dr t k held.session_id).subscribers)
  unfolding roll_back release_guard release_lease drop_session best_effort_reap
  roll_back-drop_session = ground arith

module _ (k : TargetKey) (id : String) (writes : Bool) where
  pub guard_returned :
      (before : StopCapableGuard) (t : TransportTransaction) (held : Option GuardToken)
      → GuardOwed k id writes before t.stop_guard held
      → (j : TargetKey) → (release_guard t k held).stop_guard.holders j ≡ before.holders j
  unfolding release_guard Guard.release
  guard_returned before t none owed j = owed j
  guard_returned before t (some token) (named, free, now) j = ground (arith, now j, now k)

  pub lease_returned :
      (before : ConsoleLeaseManager) (t : TransportTransaction) (held : Option String)
      → IsValid (lease_for before k)
      → LeaseOwed k id writes before t.leases held
      → (j : TargetKey) → SameLease k id writes before (release_lease t k held).leases j
  unfolding release_lease manager_release lease_for release
  lease_returned before t none valid owed j = owed j
  lease_returned before t (some token) valid (free, held, others) j = ground (arith, others j)

  pub record_returned :
      (before : SessionRegistry) (t : TransportTransaction) (held : Option String)
      → read_record before k ≡ none
      → RecordOwed k id writes before t.registry held
      → (j : TargetKey) → read_record (drop_session none t k held).registry j ≡ read_record before j
  unfolding drop_session delete_unless
  record_returned before t none fresh owed j = owed j
  record_returned before t (some s) fresh (elsewhere, (r, found, own)) j =
      read_record-delete_record t.registry k j s ∙ ground (arith, elsewhere j)

  pub tombstone_kept :
      (t : TransportTransaction) (held : Option String) (j : TargetKey)
      → read_tombstone (drop_session none t k held).registry j ≡ read_tombstone t.registry j
  unfolding drop_session delete_unless delete_record read_tombstone
  tombstone_kept t held j = ground arith

  pub handle_returned :
      (before : String → Option ℕ) (t : TransportTransaction) (s : Option String)
      → before id ≡ none
      → (s ≡ none) ⊎ (s ≡ some id)
      → DictOwed k id writes before t.handles s
      → (i : String) → (drop_session none t k s).handles i ≡ before i
  unfolding drop_session
  handle_returned before t none fresh own owed i = owed i
  handle_returned before t (some s) fresh own owed i = ground (arith, owed i)

  pub token_returned :
      (before : String → Option GuardToken) (t : TransportTransaction) (s : Option String)
      → before id ≡ none
      → (s ≡ none) ⊎ (s ≡ some id)
      → DictOwed k id writes before t.tokens s
      → (i : String) → (drop_session none t k s).tokens i ≡ before i
  unfolding drop_session
  token_returned before t none fresh own owed i = owed i
  token_returned before t (some s) fresh own owed i = ground (arith, owed i)

  pub subscriber_returned :
      (before : TargetKey → String → Option SessionSubscriber) (t : TransportTransaction)
      (s : Option String)
      → before k id ≡ none
      → (s ≡ none) ⊎ (s ≡ some id)
      → SubscribersOwed k id writes before t.subscribers s
      → (j : TargetKey) (i : String) → (drop_session none t k s).subscribers j i ≡ before j i
  unfolding drop_session
  subscriber_returned before t none fresh own owed j i = owed j i
  subscriber_returned before t (some s) fresh own (elsewhere, here) j i =
      ground (arith, elsewhere j i, here i)

  pub other_token_kept :
      (before : String → Option GuardToken) (t : TransportTransaction) (s : Option String)
      → (s ≡ none) ⊎ (s ≡ some id)
      → (i : String) → t.tokens i ≡ before i
      → id ≢ i
      → (drop_session none t k s).tokens i ≡ before i
  unfolding drop_session
  other_token_kept before t none own i same other = same
  other_token_kept before t (some s) own i same other = ground (arith, same)
