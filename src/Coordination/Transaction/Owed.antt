-- ===== src/Coordination/Transaction/Owed.antt =====
-- What a running open owes to the state that it began in (src/kdive/coordination/transaction.py): the
-- guard, the lease and the records differ from it just by what `held` says that the call holds.
use linux_debug_mcp.Base.{
  ◌≡◌, ◌≢◌, ◌⊎◌, String, Bool, true, Option, none, some, Result, ok, err, update,
}
use linux_debug_mcp.Seams.Target.{TargetKey, TargetKey-discrete}
use linux_debug_mcp.Seams.TransportState.{TransportSession}
use linux_debug_mcp.Seams.Guard.{GuardToken, StopCapableGuard}
use linux_debug_mcp.Coordination.Lease.{LeaseOwner, ConsoleLeaseManager, lease_for}
use linux_debug_mcp.Coordination.Registry.{SessionRegistry, read_record, read_tombstone}
use linux_debug_mcp.Coordination.Transaction.{SessionSubscriber, TransportTransaction}
use linux_debug_mcp.Coordination.Transaction.Open.{Progress, OpenError, M, ◌>>=◌, ◌>>◌}

-- Whatever the outcome, `R` of the state where the call raised and `Q` where it returned.
abbrev pub Post :
    {A : Type 0}
    → (Progress → Type 0)
    → (A → Progress → Type 0)
    → Progress × Result OpenError A
    → Type 0
Post R Q (p, ok a) = Q a p
Post R Q (p, err e) = R p

-- The call leaves `R` where it raises and `Q` where it returns.
pub record Ensures {A : Type 0} (R : Progress → Type 0) (Q : A → Progress → Type 0) (m : M A)
    (p : Progress) : Type 0 where
  pub ensured : Post R Q (m p)

continued :
    {A B : Type 0} (R : Progress → Type 0) (Q : A → Progress → Type 0) (Q' : B → Progress → Type 0)
    (f : A → M B) (o : Progress × Result OpenError A)
    → Post R Q o
    → ((a : A) (q : Progress) → Q a q → Post R Q' (f a q))
    → Post R Q' (elim o.1 [ ok a ↦ f a o.0 | err e ↦ (o.0, err e) ])
continued R Q Q' f (q, ok a) h next = next a q h
continued R Q Q' f (q, err e) h next = h

pub bind-Ensures :
    {A B : Type 0} {R : Progress → Type 0} {Q : A → Progress → Type 0} {Q' : B → Progress → Type 0}
    {m : M A} {f : A → M B} {p : Progress}
    → Ensures R Q m p
    → ((a : A) (q : Progress) → Q a q → Ensures R Q' (f a) q)
    → Ensures R Q' (m >>= f) p
unfolding ◌>>=◌
bind-Ensures {R} {Q} {Q'} {m} {f} {p} first next = record {
  ensured = continued R Q Q' f (m p) first.ensured (λ a q h. (next a q h).ensured);
}

pub then-Ensures :
    {B : Type 0} {R : Progress → Type 0} {Q : Unit {0} → Progress → Type 0}
    {Q' : B → Progress → Type 0} {m : M (Unit {0})} {k : M B} {p : Progress}
    → Ensures R Q m p
    → ((q : Progress) → Q tt q → Ensures R Q' k q)
    → Ensures R Q' (m >> k) p
unfolding ◌>>◌
then-Ensures {R} {Q} {Q'} {m} {k} {p} first next = record {
  ensured = continued R Q Q' (λ _. k) (m p) first.ensured (λ a q h. (next q h).ensured);
}

-- `writes` says that the OPENING record can be written.
module _ (k : TargetKey) (id : String) (writes : Bool) where
  abbrev pub GuardOwed : StopCapableGuard → StopCapableGuard → Option GuardToken → Type 0
  GuardOwed before now none = (j : TargetKey) → now.holders j ≡ before.holders j
  GuardOwed before now (some token) =
      (token.target_key ≡ k)
      × (before.holders k ≡ none)
      × ((j : TargetKey)
          → now.holders j ≡ update TargetKey-discrete before.holders k (some token) j)

  -- Owner and token of the lease are the same. Its generation counts the grants.
  abbrev pub SameLease : ConsoleLeaseManager → ConsoleLeaseManager → TargetKey → Type 0
  SameLease before now j =
      ((lease_for now j).owner ≡ (lease_for before j).owner)
      × ((lease_for now j).token ≡ (lease_for before j).token)

  abbrev pub LeaseOwed : ConsoleLeaseManager → ConsoleLeaseManager → Option String → Type 0
  LeaseOwed before now none = (j : TargetKey) → SameLease before now j
  LeaseOwed before now (some token) =
      ((lease_for before k).owner ≡ LeaseOwner.free)
      × ((lease_for now k).token ≡ some token)
      × ((j : TargetKey) → k ≢ j → SameLease before now j)

  abbrev pub RecordOwed : SessionRegistry → SessionRegistry → Option String → Type 0
  RecordOwed before now none = (j : TargetKey) → read_record now j ≡ read_record before j
  RecordOwed before now (some s) =
      ((j : TargetKey) → k ≢ j → read_record now j ≡ read_record before j)
      × ((r : TransportSession) × (read_record now k ≡ some r) × (r.session_id ≡ s))

  -- But for the entry of session `s`.
  abbrev pub DictOwed {ℓ} :
      {A : Type ℓ} → (String → Option A) → (String → Option A) → Option String → Type ℓ
  DictOwed before now none = (i : String) → now i ≡ before i
  DictOwed before now (some s) = (i : String) → s ≢ i → now i ≡ before i

  abbrev pub SubscribersOwed :
      (TargetKey → String → Option SessionSubscriber)
      → (TargetKey → String → Option SessionSubscriber)
      → Option String
      → Type 0
  SubscribersOwed before now none = (j : TargetKey) (i : String) → now j i ≡ before j i
  SubscribersOwed before now (some s) =
      ((j : TargetKey) (i : String) → k ≢ j → now j i ≡ before j i)
      × ((i : String) → s ≢ i → now k i ≡ before k i)

  pub record Owes (before : TransportTransaction) (p : Progress) : Type 0 where
    pub guard_owed : GuardOwed before.stop_guard p.tx.stop_guard p.held.guard_token
    pub lease_owed : LeaseOwed before.leases p.tx.leases p.held.lease_token
    pub record_owed : RecordOwed before.registry p.tx.registry p.held.session_id
    pub tombs_kept :
        (j : TargetKey) → read_tombstone p.tx.registry j ≡ read_tombstone before.registry j
    pub tokens_owed : (i : String) → id ≢ i → p.tx.tokens i ≡ before.tokens i
    pub token_owed : writes ≡ true → DictOwed before.tokens p.tx.tokens p.held.session_id
    pub handles_owed : DictOwed before.handles p.tx.handles p.held.session_id
    pub subscribers_owed : SubscribersOwed before.subscribers p.tx.subscribers p.held.session_id
    pub own_session : (p.held.session_id ≡ none) ⊎ (p.held.session_id ≡ some id)
