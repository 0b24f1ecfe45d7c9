-- ===== src/Coordination/Transaction/Frees.antt =====
-- What a release by token leaves of the guard and of the lease
-- (src/kdive/coordination/transaction.py).
use linux_debug_mcp.Base.{◌≡◌, ◌≢◌, refl, String, Option, none, some, arith}
use linux_debug_mcp.Seams.Target.{TargetKey}
use linux_debug_mcp.Seams.Guard.{GuardToken, StopCapableGuard}
use linux_debug_mcp.Seams.Guard
use linux_debug_mcp.Coordination.Lease.{ConsoleLeaseManager, lease_for, release, manager_release}
use linux_debug_mcp.Coordination.Transaction.{TransportTransaction, release_guard, release_lease}

-- What is held at a target is not held under this token.
abbrev pub GuardFreeOf : Option GuardToken → StopCapableGuard → TargetKey → Type 0
GuardFreeOf none g k = Unit {0}
GuardFreeOf (some token) g k = g.holders k ≢ some token

abbrev pub LeaseFreeOf : Option String → ConsoleLeaseManager → TargetKey → Type 0
LeaseFreeOf none m k = Unit {0}
LeaseFreeOf (some token) m k = (lease_for m k).token ≢ some token

abbrev pub Names : Option GuardToken → TargetKey → Type 0
Names none k = Unit {0}
Names (some token) k = token.target_key ≡ k

abbrev pub SameLeaseAt : ConsoleLeaseManager → ConsoleLeaseManager → TargetKey → Type 0
SameLeaseAt before after j =
    ((lease_for after j).owner ≡ (lease_for before j).owner)
    × ((lease_for after j).token ≡ (lease_for before j).token)
    × ((lease_for after j).generation ≡ (lease_for before j).generation)

module _ (t : TransportTransaction) (k : TargetKey) where
  pub release_guard-GuardFreeOf :
      (token : Option GuardToken)
      → Names token k
      → GuardFreeOf token (release_guard t k token).stop_guard k
  unfolding release_guard Guard.release
  release_guard-GuardFreeOf none named = tt
  release_guard-GuardFreeOf (some token) named = ground arith

  pub release_lease-LeaseFreeOf :
      (token : Option String) → LeaseFreeOf token (release_lease t k token).leases k
  unfolding release_lease manager_release lease_for release
  release_lease-LeaseFreeOf none = tt
  release_lease-LeaseFreeOf (some token) = ground arith

  pub stale_guard :
      (token : Option GuardToken)
      → GuardFreeOf token t.stop_guard k
      → (j : TargetKey) → (release_guard t k token).stop_guard.holders j ≡ t.stop_guard.holders j
  unfolding release_guard Guard.release
  stale_guard none spent j = refl
  stale_guard (some token) spent j = ground arith

  pub stale_lease :
      (token : Option String)
      → LeaseFreeOf token t.leases k
      → (j : TargetKey) → SameLeaseAt t.leases (release_lease t k token).leases j
  unfolding release_lease manager_release lease_for release
  stale_lease none spent j = (refl, refl, refl)
  stale_lease (some token) spent j = ground arith
