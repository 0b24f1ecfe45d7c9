-- ===== src/Coordination/Transaction/Gives.antt =====
-- What the stages of an open that return have taken and recorded
-- (src/kdive/coordination/transaction.py).
use linux_debug_mcp.Base.{
  ℕ, ◌≡◌, refl, ◌∙◌, inl, inr, Bool-cases, Option-cases, String, Bool, true, false, Option, none,
  some, List, [], ◌∷◌, Result, ok, err, arith,
}
use linux_debug_mcp.Seams.Target.{TargetKey}
use linux_debug_mcp.Seams.TransportState.{TransportSession, OpenRequest, RecordState}
use linux_debug_mcp.Seams.Guard.{GuardToken}
use linux_debug_mcp.Seams.Guard
use linux_debug_mcp.Coordination.Lease.{LeaseError}
use linux_debug_mcp.Coordination.Selection.{Selection}
use linux_debug_mcp.Coordination.Admission.{AdmissionService, AdmissionError, found}
use linux_debug_mcp.Coordination.Admission.Bindings.{promote}
use linux_debug_mcp.Coordination.EndpointSafety.{assert_loopback}
use linux_debug_mcp.Coordination.Registry.{
  SessionRegistry, read_record, write_record, clear_tombstone,
}
use linux_debug_mcp.Coordination.Registry.Store.{read_record-write_record}
use linux_debug_mcp.Coordination.Transaction.Open.{
  Progress, OpenError, M, Surroundings, CrashPoint, BackendAttachment, Partial, backend_process,
  ignored, set_tx, lift, returns, raise_text, crash, unlocked, take_guard, leased_with, take_lease,
  opening_record, written, keep_token, write_opening_record, on_partial, report_partials, attached,
  attach_open_backend, ready_record, write_ready_record, promote_session, promoted_with,
  subscribe_if, forget_tombstone, clear_recovery, raised, refused, unsafe_endpoint,
}
use linux_debug_mcp.Coordination.Transaction.Owed.{Ensures, bind-Ensures, then-Ensures}

module _ (env : Surroundings) (request : OpenRequest) (handle : ℕ) where
  abbrev k : TargetKey
  k = request.target_key

  -- What is known where the call returns; nothing is claimed where it raises.
  abbrev pub Gives : {A : Type 0} → (A → Progress → Type 0) → M A → Progress → Type 0
  Gives Q m p = Ensures (λ q. Unit {0}) Q m p

  -- The parts of the state that a stage leaves alone.
  abbrev pub Guarded : GuardToken → Progress → Type 0
  Guarded token p = p.tx.stop_guard.holders k ≡ some token

  abbrev pub Kept : GuardToken → Progress → Type 0
  Kept token p = Guarded token p × (p.tx.tokens env.session_id ≡ some token)

  pub crash-Gives :
      (P : Progress → Type 0) (point : CrashPoint) (p : Progress)
      → ((a : AdmissionService) → P (set_tx p (record p.tx { admission = a })))
      → Gives (λ _ q. P q) (crash env request handle point) p
  unfolding crash
  crash-Gives P point p h = elim (Bool-cases (env.crash_after point)) [
    | inl dies ↦ record { ensured = rw dies tt }
    | inr lives ↦ record { ensured = rw lives (h _) }
  ]

  pub unlocked-Gives :
      (P : Progress → Type 0) (p : Progress)
      → ((a : AdmissionService) → P (set_tx p (record p.tx { admission = a })))
      → Gives (λ _ q. P q) (unlocked env request handle) p
  unfolding unlocked
  unlocked-Gives P p h = record { ensured = h _ }

  lift-Gives :
      {E A : Type 0} (P : Progress → Type 0) (as_error : E → OpenError) (r : Result E A)
      (p : Progress)
      → P p
      → Gives (λ a q. P q) (lift as_error r) p
  unfolding lift
  lift-Gives P as_error (ok a) p h = record { ensured = h }
  lift-Gives P as_error (err e) p h = record { ensured = tt }

  pub raise_text-Gives :
      (P : Progress → Type 0) (text : Option String) (p : Progress)
      → P p
      → Gives (λ _ q. P q) (raise_text text) p
  unfolding raise_text
  raise_text-Gives P none p h = record { ensured = h }
  raise_text-Gives P (some e) p h = record { ensured = tt }

  pub take_guard-Gives : (p : Progress) → Gives Guarded (take_guard env request handle) p
  unfolding take_guard Guard.acquire
  take_guard-Gives p = elim (Option-cases (p.tx.stop_guard.holders k)) [
    | inl free ↦ record { ensured = rw (free, Guard.acquire, take_guard) (ground arith) }
    | inr (holder, taken) ↦ record { ensured = rw (taken, Guard.acquire, take_guard) tt }
  ]

  leased_with-Gives :
      (token : GuardToken) (outcome : Result LeaseError String) (p : Progress)
      → Guarded token p
      → Gives (λ _ q. Guarded token q) (leased_with env request handle outcome) p
  unfolding leased_with
  leased_with-Gives token (ok lease) p h = record { ensured = h }
  leased_with-Gives token (err e) p h = record { ensured = tt }

  pub take_lease-Gives :
      (token : GuardToken) (p : Progress)
      → Guarded token p
      → Gives (λ _ q. Guarded token q) (take_lease env request handle) p
  unfolding take_lease
  take_lease-Gives token p h = elim (Bool-cases env.capability.provides_console) [
    | inr unneeded ↦ record { ensured = rw (unneeded, take_lease) h }
    | inl console ↦ record {
      ensured = rw (console, take_lease) (leased_with-Gives token _ _ h).ensured;
    }
  ]

  -- The record names the target, the session and the token's secret.
  abbrev pub Signed : GuardToken → TransportSession → Type 0
  Signed token session =
      (session.target_key ≡ k)
      × (session.session_id ≡ env.session_id)
      × (session.stop_guard_token ≡ some token.secret)

  written-Gives :
      (Q : TransportSession → Progress → Type 0) (text : Option String) (session : TransportSession)
      (p : Progress)
      → Q session (record {
        tx = record p.tx { registry = write_record p.tx.registry session };
        held = record p.held { session_id = some session.session_id };
      })
      → Gives Q (written env request handle text session) p
  unfolding written
  written-Gives Q none session p h = record { ensured = h }
  written-Gives Q (some e) session p h = record { ensured = tt }

  opening-Gives :
      (token : GuardToken) (opening : TransportSession) (p : Progress)
      → Guarded token p
      → Signed token opening
      → Gives
          (λ session q. Kept token q × Signed token session)
          (λ q.
            written env request handle env.opening_write_raises opening
              (keep_token env request handle q token))
          p
  opening-Gives token opening p h signed = record {
    ensured =
        (written-Gives (λ session q. Kept token q × Signed token session) env.opening_write_raises
          opening (keep_token env request handle p token) ((h, ground arith), signed)).ensured;
  }

  pub write_opening_record-Gives :
      (selection : Selection) (token : GuardToken) (lease : Option String) (p : Progress)
      → Guarded token p
      → Gives
          (λ opening q. Kept token q × Signed token opening)
          (write_opening_record env request handle selection token lease)
          p
  unfolding write_opening_record opening_record
  write_opening_record-Gives selection token lease p h =
      let chain =
        bind-Ensures (lift-Gives (Guarded token) refused (found (p.tx.admission.heap handle)) p h)
          (λ owner q hq.
            opening-Gives token
              (opening_record env request handle selection token lease owner.admit_epoch) q hq
              (refl, refl, refl)) in
      record { ensured = chain.ensured }

  on_partial-Gives :
      (token : GuardToken) (session : TransportSession) (partial : Partial) (p : Progress)
      → Kept token p
      → Gives (λ _ q. Kept token q) (on_partial env request handle session partial) p
  unfolding on_partial
  on_partial-Gives token session ignored p h = record { ensured = h }
  on_partial-Gives token session (backend_process pid start none) p h = record { ensured = h }
  on_partial-Gives token session (backend_process pid start (some e)) p h = record { ensured = tt }

  report_partials-Gives :
      (token : GuardToken) (session : TransportSession) (partials : List Partial) (p : Progress)
      → Kept token p
      → Gives (λ _ q. Kept token q) (report_partials env request handle session partials) p
  unfolding report_partials returns
  report_partials-Gives token session [] p h = record { ensured = h }
  report_partials-Gives token session (partial ∷ partials) p h =
      then-Ensures (on_partial-Gives token session partial p h)
        (λ q hq. report_partials-Gives token session partials q hq)

  attached-Gives :
      (token : GuardToken) (attachment : BackendAttachment) (p : Progress)
      → Kept token p
      → Gives (λ _ q. Kept token q) (attached env request handle attachment) p
  unfolding attached
  attached-Gives token attachment p h = elim (Option-cases attachment.backend_pid) [
    | inl unnamed ↦ record { ensured = rw (unnamed, attached) h }
    | inr (pid, named) ↦ record { ensured = rw (named, attached) h }
  ]

  pub attach_open_backend-Gives :
      (token : GuardToken) (session : TransportSession) (p : Progress)
      → Kept token p
      → Gives (λ _ q. Kept token q) (attach_open_backend env request handle session) p
  unfolding attach_open_backend
  attach_open_backend-Gives token session p h =
      then-Ensures (report_partials-Gives token session env.partials p h) (λ q hq.
        bind-Ensures (lift-Gives (Kept token) raised env.attach q hq)
          (λ attachment r hr. attached-Gives token attachment r hr))

  -- What is recorded once the READY record is written.
  abbrev pub Ready : GuardToken → TransportSession → Progress → Type 0
  Ready token session p =
      Kept token p
      × Signed token session
      × (session.record_state ≡ RecordState.ready)
      × (read_record p.tx.registry k ≡ some session)

  written_record :
      (reg : SessionRegistry) (session : TransportSession)
      → session.target_key ≡ k
      → read_record (write_record reg session) k ≡ some session
  written_record reg session named = read_record-write_record reg session k ∙ ground (arith, named)

  pub write_ready_record-Gives :
      (token : GuardToken) (session : TransportSession) (attachment : BackendAttachment)
      (p : Progress)
      → Kept token p
      → Signed token session
      → Gives (Ready token) (write_ready_record env request handle session attachment) p
  unfolding write_ready_record ready_record
  write_ready_record-Gives token session attachment p h (named, owned, signed) =
      let ready = ready_record env request handle session attachment p.held in
      let checked = lift-Gives (Kept token) unsafe_endpoint in
      let chain =
        then-Ensures (checked (assert_loopback env.is_loopback attachment.console_endpoint) p h)
          (λ q hq.
            then-Ensures (checked (assert_loopback env.is_loopback attachment.rsp_endpoint) q hq)
              (λ r hr.
                written-Gives (Ready token) env.ready_write_raises ready r
                  (hr, (named, owned, signed), refl, written_record r.tx.registry ready named))) in
      record { ensured = chain.ensured }

  -- And once its handle is promoted.
  abbrev pub Bound : GuardToken → TransportSession → Progress → Type 0
  Bound token session p = Ready token session p × (p.tx.handles env.session_id ≡ some handle)

  subscribe_if-Bound :
      (token : GuardToken) (has_dispatcher : Bool) (session : TransportSession) (p : Progress)
      → Bound token session p
      → Bound token session (subscribe_if env request handle has_dispatcher session p)
  unfolding subscribe_if
  subscribe_if-Bound token false session p h = h
  subscribe_if-Bound token true session p h = h

  promoted_with-Gives :
      (token : GuardToken) (outcome : Result AdmissionError AdmissionService)
      (session : TransportSession) (p : Progress)
      → Ready token session p
      → Gives (λ _ q. Bound token session q) (promoted_with env request handle outcome session) p
  unfolding promoted_with
  promoted_with-Gives token (err e) session p h = record { ensured = tt }
  promoted_with-Gives token (ok admission) session p h = record {
    ensured = subscribe_if-Bound token env.has_dispatcher session _ (h, ground (arith, h.1.1));
  }

  pub promote_session-Gives :
      (token : GuardToken) (session : TransportSession) (p : Progress)
      → Ready token session p
      → Gives (λ _ q. Bound token session q) (promote_session env request handle session) p
  unfolding promote_session
  promote_session-Gives token session p h = record {
    ensured = (promoted_with-Gives token (promote p.tx.admission handle) session p h).ensured;
  }

  cleared_record :
      (reg : SessionRegistry) (j : TargetKey) (generation : ℕ)
      → read_record (clear_tombstone reg j generation) k ≡ read_record reg k
  unfolding read_record clear_tombstone
  cleared_record reg j generation = ground arith

  pub clear_recovery-Gives :
      (token : GuardToken) (recovery : Bool) (session : TransportSession) (p : Progress)
      → Bound token session p
      → Gives (λ _ q. Bound token session q) (clear_recovery env request handle recovery) p
  unfolding clear_recovery forget_tombstone
  clear_recovery-Gives token false session p h = record { ensured = h }
  clear_recovery-Gives token true session p h =
      let chain =
        then-Ensures {Q' = λ _ q. Bound token session q}
          (raise_text-Gives (Bound token session) env.clear_raises p h)
          (λ q (ready, bound). record {
            ensured = (
              (
                ready.0,
                ready.1,
                ready.2,
                cleared_record q.tx.registry k request.generation ∙ ready.3,
              ),
              bound,
            );
          }) in
      record { ensured = chain.ensured }
