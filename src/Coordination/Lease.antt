-- ===== src/Coordination/Lease.antt =====
-- ConsoleLease and ConsoleLeaseManager (src/kdive/coordination/lease.py). Each method is one atomic
-- step, since it runs under a lock. A token is the value that uuid4 gives, an argument here.
pub mod Tokens
mod Tests
use linux_debug_mcp.Base.{
  ℕ, ◌+◌, ◌≤◌, ◌≡◌, refl, String, Bool, true, false, Option, none, some, Result, ok, err, ite,
  update, String-discrete, arith, ◌↔◌,
}
use linux_debug_mcp.Seams.Target.{TargetKey, TargetKey-discrete}

pub data LeaseOwner : Type 0 where
  free provisioner transport : LeaseOwner

-- `value_error` for the owner FREE, `conflict` for a lease that is held.
pub data LeaseError : Type 0 where
  value_error conflict : LeaseError

pub record ConsoleLease : Type 0 where
  pub owner : LeaseOwner
  pub token : Option String
  pub generation : ℕ

abbrev pub new_lease : ConsoleLease
new_lease = record { owner = LeaseOwner.free; token = none; generation = 0 }

abbrev pub granted : ConsoleLease → LeaseOwner → String → ConsoleLease
granted l owner token = record l {
  owner = owner;
  token = some token;
  generation = l.generation + 1;
}

acquire_from :
    LeaseOwner → ConsoleLease → LeaseOwner → String → Result LeaseError (ConsoleLease × String)
acquire_from LeaseOwner.free l owner token = ok (granted l owner token, token)
acquire_from _ l owner token = err conflict

unfoldable pub acquire :
    ConsoleLease → LeaseOwner → String → Result LeaseError (ConsoleLease × String)
unfolding acquire_from
acquire l LeaseOwner.free token = err value_error
acquire l LeaseOwner.provisioner token = acquire_from l.owner l LeaseOwner.provisioner token
acquire l LeaseOwner.transport token = acquire_from l.owner l LeaseOwner.transport token

release_held : Option String → ConsoleLease → String → ConsoleLease × Bool
release_held none l token = (l, false)
release_held (some held) l token =
    ite (String-discrete token held) (record l { owner = LeaseOwner.free; token = none }, true)
      (l, false)

unfoldable pub release : ConsoleLease → String → ConsoleLease × Bool
unfolding release_held
release l token = release_held l.token l token

unfoldable pub revoke : ConsoleLease → ConsoleLease
revoke l = record { owner = LeaseOwner.free; token = none; generation = l.generation + 1 }

-- The manager: one lease for each target, made on first use.
pub record ConsoleLeaseManager : Type 0 where
  pub leases : TargetKey → Option ConsoleLease

or_new : Option ConsoleLease → ConsoleLease
or_new none = new_lease
or_new (some l) = l

unfoldable pub lease_for : ConsoleLeaseManager → TargetKey → ConsoleLease
unfolding or_new
lease_for m k = or_new (m.leases k)

abbrev pub put : ConsoleLeaseManager → TargetKey → ConsoleLease → ConsoleLeaseManager
put m k l = record { leases = update TargetKey-discrete m.leases k (some l) }

abbrev pub kept :
    ConsoleLeaseManager
    → TargetKey
    → Result LeaseError (ConsoleLease × String)
    → ConsoleLeaseManager × Result LeaseError String
kept m k (ok (l, token)) = (put m k l, ok token)
kept m k (err e) = (put m k (lease_for m k), err e)

-- A lease that the call makes stays in the table also where the call raises.
unfoldable pub manager_acquire :
    ConsoleLeaseManager
    → TargetKey
    → LeaseOwner
    → String
    → ConsoleLeaseManager × Result LeaseError String
unfolding lease_for
manager_acquire m k owner token = kept m k (acquire (lease_for m k) owner token)

unfoldable pub manager_release :
    ConsoleLeaseManager → TargetKey → String → ConsoleLeaseManager × Bool
unfolding lease_for
manager_release m k token = let (l, freed) = release (lease_for m k) token in (put m k l, freed)

unfoldable pub manager_revoke : ConsoleLeaseManager → TargetKey → ConsoleLeaseManager
unfolding lease_for
manager_revoke m k = put m k (revoke (lease_for m k))

unfoldable pub snapshot : ConsoleLeaseManager → TargetKey → LeaseOwner × Option String × ℕ
snapshot m k = let l = lease_for m k in (l.owner, l.token, l.generation)
