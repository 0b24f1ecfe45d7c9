-- ===== src/Coordination/Transaction/Opened.antt =====
-- What an open that returns has taken and recorded (src/kdive/coordination/transaction.py).
use linux_debug_mcp.Base.{ℕ, ◌≡◌, refl, subst, ap, Bool, some, Result, ok, err, arith}
use linux_debug_mcp.Seams.TransportState.{TransportSession, OpenRequest, RecordState}
use linux_debug_mcp.Seams.Guard.{GuardToken}
use linux_debug_mcp.Coordination.Selection.{Selection}
use linux_debug_mcp.Coordination.Admission.{AdmissionService, AdmissionError}
use linux_debug_mcp.Coordination.EndpointSafety.{EndpointSafetyError, refuse_unsafe_exposure}
use linux_debug_mcp.Coordination.Registry.{read_record}
use linux_debug_mcp.Coordination.Transaction.{TransportTransaction}
use linux_debug_mcp.Coordination.Transaction.Open.{
  Progress, OpenError, M, ◌>>=◌, ◌>>◌, Surroundings, CrashPoint, returns, raise_text, crash,
  unlocked, select_channel, take_lease, write_opening_record, attach_open_backend,
  write_ready_record, promote_session, clear_recovery, admit_open, open_admitted, open_if_admitted,
  open_if_safe, open_session, unwind,
}
use linux_debug_mcp.Coordination.Transaction.Owed.{Post, bind-Ensures, then-Ensures}
use linux_debug_mcp.Coordination.Transaction.Gives.{
  Gives, Guarded, Kept, Signed, Ready, Bound, crash-Gives, unlocked-Gives, raise_text-Gives,
  take_guard-Gives, take_lease-Gives, write_opening_record-Gives, attach_open_backend-Gives,
  write_ready_record-Gives, promote_session-Gives, clear_recovery-Gives,
}

-- The session's record is READY and stands for the target, its token holds the target's guard and
-- is kept for it, and so is the handle that the admission gave.
pub record IsOpened (env : Surroundings) (request : OpenRequest) (recovery : Bool)
    (before after : TransportTransaction) (session : TransportSession) : Type 0 where
  pub admission : AdmissionService
  pub handle : ℕ
  pub token : GuardToken
  pub admitted :
      admit_open recovery before.admission request env.now env.handle_id ≡ ok (admission, handle)
  pub guarded : after.stop_guard.holders request.target_key ≡ some token
  pub kept : after.tokens env.session_id ≡ some token
  pub signed : session.stop_guard_token ≡ some token.secret
  pub named : session.target_key ≡ request.target_key
  pub owned : session.session_id ≡ env.session_id
  pub is_ready : session.record_state ≡ RecordState.ready
  pub recorded : read_record after.registry request.target_key ≡ some session
  pub bound : after.handles env.session_id ≡ some handle

anything :
    {A : Type 0} (o : Progress × Result OpenError A) → Post (λ q. Unit {0}) (λ a q. Unit {0}) o
anything (p, ok a) = tt
anything (p, err e) = tt

module _ (env : Surroundings) (request : OpenRequest) (handle : ℕ) where
  Opens : M TransportSession → Progress → Type 0
  Opens m p =
      Gives env request handle
        (λ session q. (token : GuardToken) × Bound env request handle token session q) m p

  ready_lem :
      (recovery : Bool) (token : GuardToken) (session : TransportSession) (p : Progress)
      → Ready env request handle token session p
      → Opens
          (do
            crash env request handle CrashPoint.ready_written
            promote_session env request handle session
            unlocked env request handle
            clear_recovery env request handle recovery
            returns session)
          p
  unfolding Opens returns
  ready_lem recovery token session p h =
      then-Ensures
        (crash-Gives env request handle (Ready env request handle token session)
          CrashPoint.ready_written p (λ a. h))
        (λ q hq. then-Ensures (promote_session-Gives env request handle token session q hq) (λ r hr.
          then-Ensures
            (unlocked-Gives env request handle (Bound env request handle token session) r (λ a. hr))
            (λ q' hq'.
              then-Ensures (clear_recovery-Gives env request handle token recovery session q' hq')
                (λ o ho. record { ensured = (token, ho) }))))

  recorded_lem :
      (recovery : Bool) (token : GuardToken) (opening : TransportSession) (p : Progress)
      → Kept env request handle token p
      → Signed env request handle token opening
      → Opens
          (do
            crash env request handle CrashPoint.record_written
            attachment ← attach_open_backend env request handle opening
            session ← write_ready_record env request handle opening attachment
            crash env request handle CrashPoint.ready_written
            promote_session env request handle session
            unlocked env request handle
            clear_recovery env request handle recovery
            returns session)
          p
  unfolding Opens
  recorded_lem recovery token opening p h signed =
      then-Ensures
        (crash-Gives env request handle (Kept env request handle token) CrashPoint.record_written p
          (λ a. h))
        (λ q hq.
          bind-Ensures (attach_open_backend-Gives env request handle token opening q hq)
            (λ attachment r hr.
              bind-Ensures
                (write_ready_record-Gives env request handle token opening attachment r hr signed)
                (λ session o ho. ready_lem recovery token session o ho)))

  guarded_lem :
      (recovery : Bool) (selection : Selection) (token : GuardToken) (p : Progress)
      → Guarded env request handle token p
      → Opens
          (do
            crash env request handle CrashPoint.guard_held
            lease_token ← take_lease env request handle
            crash env request handle CrashPoint.lease_held
            raise_text env.secrets_raise
            opening ← write_opening_record env request handle selection token lease_token
            crash env request handle CrashPoint.record_written
            attachment ← attach_open_backend env request handle opening
            session ← write_ready_record env request handle opening attachment
            crash env request handle CrashPoint.ready_written
            promote_session env request handle session
            unlocked env request handle
            clear_recovery env request handle recovery
            returns session)
          p
  unfolding Opens
  guarded_lem recovery selection token p h =
      let Held : Progress → Type 0 = Guarded env request handle token in
      then-Ensures (crash-Gives env request handle Held CrashPoint.guard_held p (λ a. h)) (λ p1 h1.
        bind-Ensures (take_lease-Gives env request handle token p1 h1) (λ lease p2 h2.
          then-Ensures (crash-Gives env request handle Held CrashPoint.lease_held p2 (λ a. h2))
            (λ p3 h3.
              then-Ensures (raise_text-Gives env request handle Held env.secrets_raise p3 h3)
                (λ p4 h4.
                  bind-Ensures
                    (write_opening_record-Gives env request handle selection token lease p4 h4)
                    (λ opening p5 h5. recorded_lem recovery token opening p5 h5.0 h5.1)))))

  open_admitted-Opens :
      (recovery : Bool) (p : Progress) → Opens (open_admitted env request handle recovery) p
  unfolding open_admitted Opens
  open_admitted-Opens recovery p =
      bind-Ensures {Q = λ selection q. Unit {0}}
        (record { ensured = anything (select_channel env request handle p) })
        (λ selection q _.
          then-Ensures {Q = λ _ r. Unit {0}}
            (record { ensured = anything (crash env request handle CrashPoint.selected q) })
            (λ r _.
              bind-Ensures (take_guard-Gives env request handle r)
                (λ token o ho. guarded_lem recovery selection token o ho)))

module _ (env : Surroundings) (request : OpenRequest) (recovery : Bool)
    (before : TransportTransaction) (session : TransportSession) where
  unwind_lem :
      (admission : AdmissionService) (handle : ℕ) (o : Progress × Result OpenError TransportSession)
      → admit_open recovery before.admission request env.now env.handle_id ≡ ok (admission, handle)
      → Post (λ q. Unit {0}) (λ s q. (token : GuardToken) × Bound env request handle token s q) o
      → (unwind env request.target_key handle o).1 ≡ ok session
      → IsOpened env request recovery before (unwind env request.target_key handle o).0 session
  unfolding unwind
  unwind_lem admission handle (p, err e) admitted gives returned = ground (arith, returned)
  unwind_lem admission handle (p, ok s) admitted gives returned =
      let same : s ≡ session =
        ap (λ (r : Result OpenError TransportSession). elim r [ ok a ↦ a | err e ↦ s ]) returned in
      let (token, (((guarded, kept), (named, owned, signed), is_ready, recorded), bound)) =
        subst (λ x. (token : GuardToken) × Bound env request handle token x p) same gives in
      record {
        admission = admission;
        handle = handle;
        token = token;
        admitted = admitted;
        guarded = guarded;
        kept = kept;
        signed = signed;
        named = named;
        owned = owned;
        is_ready = is_ready;
        recorded = recorded;
        bound = bound;
      }

  open_if_admitted_lem :
      (outcome : Result AdmissionError (AdmissionService × ℕ))
      → admit_open recovery before.admission request env.now env.handle_id ≡ outcome
      → (open_if_admitted env request recovery before outcome).1 ≡ ok session
      → IsOpened env request recovery before
          (open_if_admitted env request recovery before outcome).0
          session
  unfolding open_if_admitted Opens
  open_if_admitted_lem (err e) admitted returned = ground (arith, returned)
  open_if_admitted_lem (ok (admission, handle)) admitted returned =
      unwind_lem admission handle _ admitted
        (open_admitted-Opens env request handle recovery _).ensured returned

  open_if_safe_lem :
      (safe : Result EndpointSafetyError (Unit {0}))
      → (open_if_safe env request recovery before safe).1 ≡ ok session
      → IsOpened env request recovery before
          (open_if_safe env request recovery before safe).0
          session
  unfolding open_if_safe
  open_if_safe_lem (err e) returned = ground (arith, returned)
  open_if_safe_lem (ok _) returned =
      open_if_admitted_lem (admit_open recovery before.admission request env.now env.handle_id) refl
        returned

-- An open that returns was admitted, its record is READY and stands for the target, the guard token
-- that the record signs holds the target's guard and is kept for the session, and so is the handle of
-- the admission. A recovery that clears the tombstone changes none of this.
pub open_session-IsOpened :
    (env : Surroundings) (request : OpenRequest) (recovery : Bool) (before : TransportTransaction)
    (session : TransportSession)
    → (open_session env request recovery before).1 ≡ ok session
    → IsOpened env request recovery before (open_session env request recovery before).0 session
unfolding open_session
open_session-IsOpened env request recovery before session returned =
    open_if_safe_lem env request recovery before session
      (refuse_unsafe_exposure env.capability "transport.open") returned
