-- ===== src/Coordination/Transaction/Promotes.antt =====
-- The promotion of an open and the whole of what follows its admission keep account of what the call
-- holds (src/kdive/coordination/transaction.py).
use linux_debug_mcp.Base.{
  ℕ, ◌≡◌, String, Bool, true, false, Option, some, Result, ok, err, arith, update, String-discrete,
}
use linux_debug_mcp.Seams.Target.{TargetKey}
use linux_debug_mcp.Seams.TransportState.{TransportSession, OpenRequest}
use linux_debug_mcp.Coordination.Admission.{AdmissionService, AdmissionError}
use linux_debug_mcp.Coordination.Admission.Bindings.{promote}
use linux_debug_mcp.Coordination.Transaction.{
  SessionSubscriber, TransportTransaction, set_subscriber,
}
use linux_debug_mcp.Coordination.Transaction.Open.{
  Progress, M, ◌>>=◌, ◌>>◌, Surroundings, CrashPoint, returns, crash, unlocked, attach_open_backend,
  write_ready_record, forget_tombstone, clear_recovery, promote_session, promoted_with,
  subscribe_if, open_admitted,
}
use linux_debug_mcp.Coordination.Transaction.Owed.{
  Ensures, bind-Ensures, then-Ensures, DictOwed, SubscribersOwed,
}
use linux_debug_mcp.Coordination.Transaction.Stages.{
  writes, Accounts, At, Goes, Recorded, Bare, Leaseless, Unrecorded, raise_text-Goes, crash-Goes,
  unlocked-Goes, select_channel-Goes, take_guard-Goes, take_lease-Goes,
}
use linux_debug_mcp.Coordination.Transaction.Commits.{
  Recorded-Others, Own, write_opening_record-Records,
}
use linux_debug_mcp.Coordination.Transaction.Attaches.{
  attach_open_backend-Goes, write_ready_record-Records,
}

module _ (env : Surroundings) (request : OpenRequest) (handle : ℕ)
    (before : TransportTransaction) where
  abbrev k : TargetKey
  k = request.target_key

  abbrev Held : Progress → Type 0
  Held p = At env request handle before (Recorded env request handle before) p

  -- Of what the account reads, only the session's own handle and subscriber change.
  bound :
      (p : Progress) (admission : AdmissionService) (handles : String → Option ℕ)
      (subscribers : TargetKey → String → Option SessionSubscriber) (promoted : Option ℕ)
      → Held p
      → DictOwed k env.session_id (writes env) before.handles handles (some env.session_id)
      → SubscribersOwed k env.session_id
          (writes env)
          before.subscribers
          subscribers
          (some env.session_id)
      → Held (record {
        tx = record p.tx { admission = admission; handles = handles; subscribers = subscribers };
        held = record p.held { admission_handle = promoted };
      })
  bound p admission handles subscribers promoted (o, own) handles_kept subscribers_kept = (
    record {
      guard_owed = o.guard_owed;
      lease_owed = o.lease_owed;
      record_owed = o.record_owed;
      tombs_kept = o.tombs_kept;
      tokens_owed = o.tokens_owed;
      token_owed = o.token_owed;
      handles_owed = rw own handles_kept;
      subscribers_owed = rw own subscribers_kept;
      own_session = o.own_session;
    },
    own,
  )

  subscribed :
      (subscribers : TargetKey → String → Option SessionSubscriber)
      (value : Option SessionSubscriber) (key : TargetKey) (sid : String)
      → key ≡ k
      → sid ≡ env.session_id
      → SubscribersOwed k env.session_id
          (writes env)
          before.subscribers
          subscribers
          (some env.session_id)
      → SubscribersOwed k env.session_id
          (writes env)
          before.subscribers
          (set_subscriber subscribers key sid value)
          (some env.session_id)
  subscribed subscribers value key sid named owned (elsewhere, here) = (
    λ j i other. ground (arith, named, elsewhere j i),
    λ i other. ground (arith, named, owned, here i),
  )

  subscribe_if-Held :
      (has_dispatcher : Bool) (session : TransportSession) (p : Progress)
      → Held p
      → Own env request handle before session
      → Held (subscribe_if env request handle has_dispatcher session p)
  unfolding subscribe_if
  subscribe_if-Held false session p h own = h
  subscribe_if-Held true session p h (named, owned) =
      let others = Recorded-Others env request handle before p h in
      bound p p.tx.admission p.tx.handles
        (set_subscriber p.tx.subscribers session.target_key session.session_id _)
        p.held.admission_handle h others.handle_dict
        (subscribed p.tx.subscribers _ session.target_key session.session_id named owned
          others.subscribers)

  handle_bound :
      (handles : String → Option ℕ) (sid : String) (value : Option ℕ)
      → sid ≡ env.session_id
      → DictOwed k env.session_id (writes env) before.handles handles (some env.session_id)
      → DictOwed k env.session_id
          (writes env)
          before.handles
          (update String-discrete handles sid value)
          (some env.session_id)
  handle_bound handles sid value owned kept i other = ground (arith, owned, kept i)

  promoted_with-Goes :
      (outcome : Result AdmissionError AdmissionService) (session : TransportSession) (p : Progress)
      → Held p
      → Own env request handle before session
      → Goes env request handle before
          (Recorded env request handle before)
          (promoted_with env request handle outcome session)
          p
  unfolding promoted_with
  promoted_with-Goes (err e) session p h own = record { ensured = h.0 }
  promoted_with-Goes (ok admission) session p h own =
      let others = Recorded-Others env request handle before p h in
      record {
        ensured =
            subscribe_if-Held env.has_dispatcher session _
              (bound p admission
                (update String-discrete p.tx.handles session.session_id (some handle))
                p.tx.subscribers (some handle) h
                (handle_bound p.tx.handles session.session_id (some handle) own.1
                  others.handle_dict)
                others.subscribers)
              own;
      }

  promote_session-Goes :
      (session : TransportSession) (p : Progress)
      → Held p
      → Own env request handle before session
      → Goes env request handle before
          (Recorded env request handle before)
          (promote_session env request handle session)
          p
  unfolding promote_session
  promote_session-Goes session p h own = record {
    ensured = (promoted_with-Goes (promote p.tx.admission handle) session p h own).ensured;
  }

  -- Once the tombstone is cleared nothing raises.
  Safely : {A : Type 0} → M A → Progress → Type 0
  Safely m p = Ensures (Accounts env request handle before) (λ a q. Unit {0}) m p

  clear_recovery-Safely :
      (recovery : Bool) (p : Progress)
      → Held p
      → Safely (clear_recovery env request handle recovery) p
  unfolding clear_recovery forget_tombstone Safely
  clear_recovery-Safely false p h = record { ensured = tt }
  clear_recovery-Safely true p h =
      let chain =
        then-Ensures {Q' = λ a q. Unit {0}}
          (raise_text-Goes env request handle before (Recorded env request handle before)
            env.clear_raises p h)
          (λ q hq. record { ensured = tt }) in
      record { ensured = chain.ensured }

  ready_lem :
      (recovery : Bool) (session : TransportSession) (p : Progress)
      → Held p
      → Own env request handle before session
      → Safely
          (do
            crash env request handle CrashPoint.ready_written
            promote_session env request handle session
            unlocked env request handle
            clear_recovery env request handle recovery
            returns session)
          p
  unfolding Safely returns
  ready_lem recovery session p h own =
      then-Ensures
        (crash-Goes env request handle before (Recorded env request handle before)
          CrashPoint.ready_written p h)
        (λ q hq. then-Ensures (promote_session-Goes session q hq own) (λ r hr.
          then-Ensures
            (unlocked-Goes env request handle before (Recorded env request handle before) r hr)
            (λ o ho.
              then-Ensures (clear_recovery-Safely recovery o ho) (λ a b. record { ensured = tt }))))

  recorded_lem :
      (recovery : Bool) (opening : TransportSession) (p : Progress)
      → Held p
      → Own env request handle before opening
      → Safely
          (do
            crash env request handle CrashPoint.record_written
            attachment ← attach_open_backend env request handle opening
            session ← write_ready_record env request handle opening attachment
            crash env request handle CrashPoint.ready_written
            promote_session env request handle session
            unlocked env request handle
            clear_recovery env request handle recovery
            returns session)
          p
  unfolding Safely
  recorded_lem recovery opening p h own =
      then-Ensures
        (crash-Goes env request handle before (Recorded env request handle before)
          CrashPoint.record_written p h)
        (λ q hq.
          bind-Ensures (attach_open_backend-Goes env request handle before opening q hq own)
            (λ attachment r hr.
              bind-Ensures
                (write_ready_record-Records env request handle before opening attachment r hr own)
                (λ session s hs. ready_lem recovery session s hs.0 hs.1)))

  -- What a failing open leaves is accounted for by what it holds.
  pub open_admitted-Accounts :
      (recovery : Bool) (p : Progress)
      → At env request handle before (Bare env request handle before) p
      → Ensures
          (Accounts env request handle before)
          (λ session q. Unit {0})
          (open_admitted env request handle recovery)
          p
  unfolding open_admitted Safely
  open_admitted-Accounts recovery p h =
      bind-Ensures
        (select_channel-Goes env request handle before (Bare env request handle before) p h)
        (λ selection p1 h1.
          then-Ensures
            (crash-Goes env request handle before (Bare env request handle before)
              CrashPoint.selected p1 h1)
            (λ p2 h2. bind-Ensures (take_guard-Goes env request handle before p2 h2) (λ token p3 h3.
              then-Ensures
                (crash-Goes env request handle before (Leaseless env request handle before)
                  CrashPoint.guard_held p3 h3)
                (λ p4 h4.
                  bind-Ensures (take_lease-Goes env request handle before p4 h4) (λ lease p5 h5.
                    then-Ensures
                      (crash-Goes env request handle before (Unrecorded env request handle before)
                        CrashPoint.lease_held p5 h5)
                      (λ p6 h6.
                        then-Ensures
                          (raise_text-Goes env request handle before
                            (Unrecorded env request handle before) env.secrets_raise p6 h6)
                          (λ p7 h7.
                            bind-Ensures
                              (write_opening_record-Records env request handle before selection
                                token lease p7 h7)
                              (λ opening p8 h8. recorded_lem recovery opening p8 h8.0 h8.1))))))))
