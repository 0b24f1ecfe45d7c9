-- ===== src/Coordination/Transaction/Unwound.antt =====
-- A failing open gives back all that it took (src/kdive/coordination/transaction.py).
use linux_debug_mcp.Base.{
  ℕ, ◌≡◌, ◌≢◌, ◌⊎◌, inl, inr, refl, ◌∙◌, String, Bool, true, none, Result, ok, err, arith,
}
use linux_debug_mcp.Seams.Target.{TargetKey}
use linux_debug_mcp.Seams.TransportState.{TransportSession, OpenRequest}
use linux_debug_mcp.Coordination.Lease.{lease_for}
use linux_debug_mcp.Coordination.Lease.Tokens.{IsValid}
use linux_debug_mcp.Coordination.Admission.{AdmissionService, AdmissionError}
use linux_debug_mcp.Coordination.EndpointSafety.{EndpointSafetyError, refuse_unsafe_exposure}
use linux_debug_mcp.Coordination.Registry.{read_record, read_tombstone}
use linux_debug_mcp.Coordination.Transaction.{
  OpenState, nothing_held, TransportTransaction, roll_back,
}
use linux_debug_mcp.Coordination.Admission.Bindings.{rollback}
use linux_debug_mcp.Coordination.Transaction.Disposed.{TakesEffect, after-TakesEffect}
use linux_debug_mcp.Coordination.Transaction.Open.{
  Progress, OpenError, Surroundings, admit_open, open_if_admitted, open_if_safe, open_session,
  unwind,
}
use linux_debug_mcp.Coordination.Transaction.Owed.{Post, Owes}
use linux_debug_mcp.Coordination.Transaction.Stages.{writes, Accounts}
use linux_debug_mcp.Coordination.Transaction.Promotes.{open_admitted-Accounts}
use linux_debug_mcp.Coordination.Transaction.Rollback.{
  roll_back-release_guard, roll_back-release_lease, roll_back-drop_session, guard_returned,
  lease_returned, record_returned, tombstone_kept, handle_returned, token_returned,
  subscriber_returned, other_token_kept,
}

-- Nothing is known yet of session `id`, and the target has no record.
pub record IsFresh (t : TransportTransaction) (k : TargetKey) (id : String) : Type 0 where
  pub no_record : read_record t.registry k ≡ none
  pub no_token : t.tokens id ≡ none
  pub no_handle : t.handles id ≡ none
  pub no_subscriber : t.subscribers k id ≡ none

-- Two states agree on what an open takes at target `j` and for session `i`.
pub record AgreeAt (before after : TransportTransaction) (j : TargetKey) (i : String) : Type 0 where
  pub same_holder : after.stop_guard.holders j ≡ before.stop_guard.holders j
  pub same_lease :
      ((lease_for after.leases j).owner ≡ (lease_for before.leases j).owner)
      × ((lease_for after.leases j).token ≡ (lease_for before.leases j).token)
  pub same_record : read_record after.registry j ≡ read_record before.registry j
  pub same_tombstone : read_tombstone after.registry j ≡ read_tombstone before.registry j
  pub same_handle : after.handles i ≡ before.handles i
  pub same_subscriber : after.subscribers j i ≡ before.subscribers j i

module _ (env : Surroundings) (request : OpenRequest) (before : TransportTransaction) where
  abbrev k : TargetKey
  k = request.target_key

  started :
      (admission : AdmissionService)
      → Owes k env.session_id
          (writes env)
          before
          (record { tx = record before { admission = admission }; held = nothing_held })
  started admission = record {
    guard_owed = λ j. refl;
    lease_owed = λ j. (refl, refl);
    record_owed = λ j. refl;
    tombs_kept = λ j. refl;
    tokens_owed = λ i other. refl;
    token_owed = λ w i. refl;
    handles_owed = λ i. refl;
    subscribers_owed = λ j i. refl;
    own_session = inl refl;
  }

  unwound_agrees :
      (p : Progress) (handle : ℕ)
      → Owes k env.session_id (writes env) before p
      → IsFresh before k env.session_id
      → IsValid (lease_for before.leases k)
      → (j : TargetKey) (i : String) → AgreeAt before (roll_back none p.tx k p.held handle) j i
  unwound_agrees p handle o fresh valid j i =
      let held = p.held in
      let dropped = roll_back-drop_session none p.tx k held handle in
      record {
        same_holder = rw (roll_back-release_guard none p.tx k held handle) (
            guard_returned k env.session_id (writes env) before.stop_guard p.tx held.guard_token
              o.guard_owed j);
        same_lease = rw (roll_back-release_lease none p.tx k held handle) (
            lease_returned k env.session_id (writes env) before.leases p.tx held.lease_token valid
              o.lease_owed j);
        same_record = rw (dropped.0) (
            record_returned k env.session_id (writes env) before.registry p.tx held.session_id
              fresh.no_record o.record_owed j);
        same_tombstone =
            rw (dropped.0) (
              tombstone_kept k env.session_id (writes env) p.tx held.session_id j ∙ o.tombs_kept j);
        same_handle = rw (dropped.2) (
            handle_returned k env.session_id (writes env) before.handles p.tx held.session_id
              fresh.no_handle o.own_session o.handles_owed i);
        same_subscriber = rw (dropped.3) (
            subscriber_returned k env.session_id (writes env) before.subscribers p.tx
              held.session_id fresh.no_subscriber o.own_session o.subscribers_owed j i);
      }

  unwound_token :
      (p : Progress) (handle : ℕ)
      → Owes k env.session_id (writes env) before p
      → before.tokens env.session_id ≡ none
      → (i : String) → (writes env ≡ true) ⊎ (env.session_id ≢ i)
      → (roll_back none p.tx k p.held handle).tokens i ≡ before.tokens i
  unwound_token p handle o fresh i (inl w) =
      let dropped = roll_back-drop_session none p.tx k p.held handle in
      rw (dropped.1) (
        token_returned k env.session_id (writes env) before.tokens p.tx p.held.session_id fresh
          o.own_session (o.token_owed w) i)
  unwound_token p handle o fresh i (inr other) =
      let dropped = roll_back-drop_session none p.tx k p.held handle in
      rw (dropped.1) (
        other_token_kept k env.session_id (writes env) before.tokens p.tx p.held.session_id
          o.own_session i (o.tokens_owed i other) other)

  -- What holds of the state before the call and of each rollback of an account that is kept holds
  -- after a call that raises.
  module _ (recovery : Bool) (P : TransportTransaction → Type 0) (from : P before)
      (undone : (p : Progress) (admission : AdmissionService) (handle : ℕ)
        → admit_open recovery before.admission request env.now env.handle_id
          ≡ ok (admission, handle)
        → Owes k env.session_id (writes env) before p
        → P (roll_back none p.tx k p.held handle)) where
    unwind_lem :
        (admission : AdmissionService) (handle : ℕ)
        (o : Progress × Result OpenError TransportSession)
        → admit_open recovery before.admission request env.now env.handle_id
          ≡ ok (admission, handle)
        → Post (Accounts env request handle before) (λ session p. Unit {0}) o
        → (e : OpenError) → (unwind env k handle o).1 ≡ err e
        → env.delete_raises ≡ none
        → P (unwind env k handle o).0
    unfolding unwind
    unwind_lem admission handle (p, ok session) admitted account e failed deletes =
        ground (arith, failed)
    unwind_lem admission handle (p, err e') admitted account e failed deletes =
        rw deletes (undone p admission handle admitted account)

    open_if_admitted_lem :
        (admission : Result AdmissionError (AdmissionService × ℕ)) (e : OpenError)
        → admit_open recovery before.admission request env.now env.handle_id ≡ admission
        → (open_if_admitted env request recovery before admission).1 ≡ err e
        → env.delete_raises ≡ none
        → P (open_if_admitted env request recovery before admission).0
    unfolding open_if_admitted
    open_if_admitted_lem (err e') e admitted failed deletes = from
    open_if_admitted_lem (ok (admission, handle)) e admitted failed deletes =
        unwind_lem admission handle _ admitted
          (open_admitted-Accounts env request handle before recovery _
            (started admission, (refl, refl, refl))).ensured
          e failed deletes

    failed_open_lem :
        (e : OpenError)
        → (open_session env request recovery before).1 ≡ err e
        → env.delete_raises ≡ none
        → P (open_session env request recovery before).0
    unfolding open_session open_if_safe
    failed_open_lem = go (refuse_unsafe_exposure env.capability "transport.open")
      where
        go :
            (safe : Result EndpointSafetyError (Unit {0})) (e : OpenError)
            → (open_if_safe env request recovery before safe).1 ≡ err e
            → env.delete_raises ≡ none
            → P (open_if_safe env request recovery before safe).0
        go (err e') e failed deletes = from
        go (ok _) e failed deletes =
            open_if_admitted_lem
              (admit_open recovery before.admission request env.now env.handle_id) e refl failed
              deletes

-- The last that an admitted open has done in the admission service is to roll its handle back, which
-- has changed nothing there if it raised.
abbrev pub RollsBack :
    Surroundings → OpenRequest → Bool → TransportTransaction → TransportTransaction → Type 0
RollsBack env request recovery before after =
    (admission : AdmissionService) × (handle : ℕ) × (s : AdmissionService) × (admit_open recovery
        before.admission request env.now env.handle_id
      ≡ ok (admission, handle))
    × TakesEffect (rollback s handle) s after.admission

roll_back-TakesEffect :
    (t : TransportTransaction) (k : TargetKey) (held : OpenState) (handle : ℕ)
    → (s : AdmissionService) × TakesEffect
        (rollback s handle)
        s
        (roll_back none t k held handle).admission
unfolding roll_back
roll_back-TakesEffect t k held handle = (_, after-TakesEffect (rollback _ handle) _)

-- An open that raises, at whatever stage and whatever calls of the admission service other threads
-- make between its stages, leaves no guard, lease or record behind, and no entry among the kept
-- handles and subscribers: at every target and for every session id they are what they were before
-- the call, and the recovery tombstones are the same. The admission service is as it was before the
-- call, or the last that happened to it is the rollback of the handle that the open was given, which
-- changes nothing there if it raises, so that the handle's binding then stands. The kill of the backend
-- and the dict of the guard tokens are not covered. Nothing was known of the session's fresh id, the target had no record,
-- and its lease is FREE just when it has no token; the clean-up can delete the record.
pub failed_open_leaks_nothing :
    (env : Surroundings) (request : OpenRequest) (recovery : Bool) (before : TransportTransaction)
    (e : OpenError)
    → (open_session env request recovery before).1 ≡ err e
    → env.delete_raises ≡ none
    → IsFresh before request.target_key env.session_id
    → IsValid (lease_for before.leases request.target_key)
    → (j : TargetKey) (i : String)
    → AgreeAt before (open_session env request recovery before).0 j i
      × (((open_session env request recovery before).0.admission ≡ before.admission)
          ⊎ RollsBack env request recovery before (open_session env request recovery before).0)
failed_open_leaks_nothing env request recovery before e failed deletes fresh valid j i =
    failed_open_lem env request before recovery
      (λ after.
        AgreeAt before after j i
        × ((after.admission ≡ before.admission) ⊎ RollsBack env request recovery before after))
      (
        record {
          same_holder = refl;
          same_lease = (refl, refl);
          same_record = refl;
          same_tombstone = refl;
          same_handle = refl;
          same_subscriber = refl;
        },
        inl refl,
      )
      (λ p admission handle admitted account.
        let (s, rolled) = roll_back-TakesEffect p.tx request.target_key p.held handle in
        (
          unwound_agrees env request before p handle account fresh valid j i,
          inr (admission, handle, s, admitted, rolled),
        ))
      e failed deletes

-- An open that raises forgets the guard token that it kept for its session, unless the write of the
-- OPENING record is what raised: then the tokens of all other sessions are as before.
pub failed_open_forgets_token :
    (env : Surroundings) (request : OpenRequest) (recovery : Bool) (before : TransportTransaction)
    (e : OpenError)
    → (open_session env request recovery before).1 ≡ err e
    → env.delete_raises ≡ none
    → before.tokens env.session_id ≡ none
    → (i : String) → (writes env ≡ true) ⊎ (env.session_id ≢ i)
    → (open_session env request recovery before).0.tokens i ≡ before.tokens i
failed_open_forgets_token env request recovery before e failed deletes fresh i which =
    failed_open_lem env request before recovery (λ after. after.tokens i ≡ before.tokens i) refl
      (λ p admission handle admitted account.
        unwound_token env request before p handle account fresh i which)
      e failed deletes
