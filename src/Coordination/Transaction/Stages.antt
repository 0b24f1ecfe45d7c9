-- ===== src/Coordination/Transaction/Stages.antt =====
-- Each stage of an open keeps account of what the call holds (src/kdive/coordination/transaction.py).
use linux_debug_mcp.Base.{
  ℕ, ◌≡◌, refl, sym, subst, ◌∙◌, String, Bool, true, false, Option, none, some, [], ◌∷◌, Result, ok,
  err, arith, Bool-cases, inl, inr, Option-cases,
}
use linux_debug_mcp.Seams.Target.{TargetKey}
use linux_debug_mcp.Seams.TransportState.{TransportRef, OpenRequest}
use linux_debug_mcp.Seams.Guard.{GuardToken, StopCapableGuard}
use linux_debug_mcp.Seams.Guard
use linux_debug_mcp.Coordination.Lease
use linux_debug_mcp.Coordination.Lease.{
  LeaseOwner, ConsoleLeaseManager, lease_for, manager_acquire, put, granted,
}
use linux_debug_mcp.Coordination.Selection.{select_stop_capable_channel}
use linux_debug_mcp.Coordination.Admission.{AdmissionService, found}
use linux_debug_mcp.Coordination.Admission.Calls.{run}
use linux_debug_mcp.Coordination.Transaction.{OpenState, TransportTransaction}
use linux_debug_mcp.Coordination.Transaction.Open.{
  Progress, OpenError, M, Surroundings, CrashPoint, crash, unlocked, take_guard, take_lease, set_tx,
  lift, raise_text, channel_of, select_channel, refused, unselected,
}
use linux_debug_mcp.Coordination.Transaction.Owed.{
  Ensures, bind-Ensures, Owes, GuardOwed, LeaseOwed, SameLease,
}

abbrev pub no_text : Option String → Bool
no_text none = true
no_text (some e) = false

abbrev pub writes : Surroundings → Bool
writes env = no_text env.opening_write_raises

module _ (env : Surroundings) (request : OpenRequest) (handle : ℕ)
    (before : TransportTransaction) where
  abbrev pub Accounts : Progress → Type 0
  Accounts p = Owes request.target_key env.session_id (writes env) before p

  -- The account stands, and `X` is known of what is held.
  abbrev pub At : (OpenState → Type 0) → Progress → Type 0
  At X p = Accounts p × X p.held

  -- Before (4), before (5), before (7), and after it.
  abbrev pub Bare : OpenState → Type 0
  Bare h = (h.guard_token ≡ none) × (h.lease_token ≡ none) × (h.session_id ≡ none)

  abbrev pub Leaseless : OpenState → Type 0
  Leaseless h = (h.lease_token ≡ none) × (h.session_id ≡ none)

  abbrev pub Unrecorded : OpenState → Type 0
  Unrecorded h = h.session_id ≡ none

  abbrev pub Recorded : OpenState → Type 0
  Recorded h = h.session_id ≡ some env.session_id

  moved :
      (p : Progress) (a : AdmissionService)
      → Accounts p
      → Accounts (set_tx p (record p.tx { admission = a }))
  moved p a o = record {
    guard_owed = o.guard_owed;
    lease_owed = o.lease_owed;
    record_owed = o.record_owed;
    tombs_kept = o.tombs_kept;
    tokens_owed = o.tokens_owed;
    token_owed = o.token_owed;
    handles_owed = o.handles_owed;
    subscribers_owed = o.subscribers_owed;
    own_session = o.own_session;
  }

  -- A stage that may raise leaves the account, and `Y` is known of what is held if it returns.
  abbrev pub Goes : {A : Type 0} → (OpenState → Type 0) → M A → Progress → Type 0
  Goes Y m p = Ensures Accounts (λ a q. At Y q) m p

  pub lift-Goes :
      {E A : Type 0} (X : OpenState → Type 0) (as_error : E → OpenError) (r : Result E A)
      (p : Progress)
      → At X p
      → Goes X (lift as_error r) p
  unfolding lift
  lift-Goes X as_error (ok a) p h = record { ensured = h }
  lift-Goes X as_error (err e) p h = record { ensured = h.0 }

  pub raise_text-Goes :
      (X : OpenState → Type 0) (text : Option String) (p : Progress)
      → At X p
      → Goes X (raise_text text) p
  unfolding raise_text
  raise_text-Goes X none p h = record { ensured = h }
  raise_text-Goes X (some e) p h = record { ensured = h.0 }

  -- A crash point changes only the admission service.
  pub crash-Goes :
      (X : OpenState → Type 0) (point : CrashPoint) (p : Progress)
      → At X p
      → Goes X (crash env request handle point) p
  unfolding crash
  crash-Goes X point p (o, x) =
      let o' = moved p (run p.tx.admission (env.meanwhile point)) o in
      elim (Bool-cases (env.crash_after point)) [
        | inl dies ↦ record { ensured = rw dies o' }
        | inr lives ↦ record { ensured = rw lives (o', x) }
      ]

  pub unlocked-Goes :
      (X : OpenState → Type 0) (p : Progress) → At X p → Goes X (unlocked env request handle) p
  unfolding unlocked
  unlocked-Goes X p (o, x) = record {
    ensured = (moved p (run p.tx.admission env.meanwhile_promoted) o, x);
  }

  channel_of-Goes :
      (X : OpenState → Type 0) (channel : Option TransportRef) (p : Progress)
      → At X p
      → Goes X (channel_of channel) p
  unfolding channel_of
  channel_of-Goes X none p h = record { ensured = h.0 }
  channel_of-Goes X (some channel) p h = record { ensured = h }

  pub select_channel-Goes :
      (X : OpenState → Type 0) (p : Progress)
      → At X p
      → Goes X (select_channel env request handle) p
  unfolding select_channel
  select_channel-Goes X p h =
      let chain =
        bind-Ensures (lift-Goes X refused (found (p.tx.admission.heap handle)) p h) (λ owner q hq.
          bind-Ensures (channel_of-Goes X owner.channel q hq) (λ channel r hr.
            lift-Goes X unselected
              (select_stop_capable_channel env.policy owner.platform request.target_key []
                (channel ∷ []) request.required_caps)
              r hr)) in
      record { ensured = chain.ensured }

  pub take_guard-Goes :
      (p : Progress) → At Bare p → Goes Leaseless (take_guard env request handle) p
  unfolding take_guard Guard.acquire
  take_guard-Goes p (o, (no_guard, no_lease, no_session)) =
      let k : TargetKey = request.target_key in
      let same =
        subst
          (λ (g : Option GuardToken).
            GuardOwed k env.session_id (writes env) before.stop_guard p.tx.stop_guard g)
          no_guard o.guard_owed in
      elim (Option-cases (p.tx.stop_guard.holders k)) [
        | inl free ↦ record {
          ensured =
              rw (free, Guard.acquire, take_guard)
                (
                  record {
                    guard_owed = (refl, sym (same k) ∙ free, λ j. ground (arith, same j));
                    lease_owed = o.lease_owed;
                    record_owed = o.record_owed;
                    tombs_kept = o.tombs_kept;
                    tokens_owed = o.tokens_owed;
                    token_owed = o.token_owed;
                    handles_owed = o.handles_owed;
                    subscribers_owed = o.subscribers_owed;
                    own_session = o.own_session;
                  },
                  (no_lease, no_session),
                );
        }
        | inr (holder, taken) ↦ record { ensured = rw (taken, Guard.acquire, take_guard) o }
      ]

  leased-LeaseOwed :
      (m : ConsoleLeaseManager) (token : String)
      → ((j : TargetKey)
          → SameLease request.target_key env.session_id (writes env) before.leases m j)
      → (lease_for m request.target_key).owner ≡ LeaseOwner.free
      → LeaseOwed request.target_key env.session_id
          (writes env)
          before.leases
          (put m request.target_key
            (granted (lease_for m request.target_key) LeaseOwner.transport token))
          (some token)
  unfolding lease_for
  leased-LeaseOwed m token same free =
      (ground (arith, same request.target_key), ground arith, λ j other. ground (arith, same j))

  refused-LeaseOwed :
      (m : ConsoleLeaseManager)
      → ((j : TargetKey)
          → SameLease request.target_key env.session_id (writes env) before.leases m j)
      → LeaseOwed request.target_key env.session_id
          (writes env)
          before.leases
          (put m request.target_key (lease_for m request.target_key))
          none
  unfolding lease_for
  refused-LeaseOwed m same j = ground (arith, same j)

  pub take_lease-Goes :
      (p : Progress) → At Leaseless p → Goes Unrecorded (take_lease env request handle) p
  unfolding take_lease
  take_lease-Goes p (o, (no_lease, no_session)) =
      elim (Bool-cases env.capability.provides_console) [
        | inr unneeded ↦ record { ensured = rw (unneeded, take_lease) (o, no_session) }
        | inl console ↦ owned_by (lease_for p.tx.leases request.target_key).owner refl console
      ]
    where
      same :
          (j : TargetKey)
          → SameLease request.target_key env.session_id (writes env) before.leases p.tx.leases j
      same =
          subst
            (λ (l : Option String).
              LeaseOwed request.target_key env.session_id (writes env) before.leases p.tx.leases l)
            no_lease o.lease_owed

      refusal : Accounts (
          set_tx p (record p.tx {
            leases = put p.tx.leases request.target_key (lease_for p.tx.leases request.target_key);
          }))
      refusal = record {
        guard_owed = o.guard_owed;
        lease_owed =
            subst
              (λ (l : Option String).
                LeaseOwed request.target_key env.session_id (writes env) before.leases
                  (put p.tx.leases request.target_key (lease_for p.tx.leases request.target_key)) l)
              (sym no_lease) (refused-LeaseOwed p.tx.leases same);
        record_owed = o.record_owed;
        tombs_kept = o.tombs_kept;
        tokens_owed = o.tokens_owed;
        token_owed = o.token_owed;
        handles_owed = o.handles_owed;
        subscribers_owed = o.subscribers_owed;
        own_session = o.own_session;
      }

      owned_by :
          (owner : LeaseOwner)
          → (lease_for p.tx.leases request.target_key).owner ≡ owner
          → env.capability.provides_console ≡ true
          → Goes Unrecorded (take_lease env request handle) p
      owned_by LeaseOwner.free e console = record {
        ensured =
            unfold manager_acquire Lease.acquire in
            rw (console, e, take_lease)
              (
                record {
                  guard_owed = o.guard_owed;
                  lease_owed = leased-LeaseOwed p.tx.leases env.lease_token same e;
                  record_owed = o.record_owed;
                  tombs_kept = o.tombs_kept;
                  tokens_owed = o.tokens_owed;
                  token_owed = o.token_owed;
                  handles_owed = o.handles_owed;
                  subscribers_owed = o.subscribers_owed;
                  own_session = o.own_session;
                },
                no_session,
              );
      }
      owned_by LeaseOwner.provisioner e console = record {
        ensured = unfold manager_acquire Lease.acquire in rw (console, e, take_lease) refusal;
      }
      owned_by LeaseOwner.transport e console = record {
        ensured = unfold manager_acquire Lease.acquire in rw (console, e, take_lease) refusal;
      }
