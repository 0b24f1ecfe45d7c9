-- ===== src/Coordination/Transaction/Attaches.antt =====
-- The stages of an open after its first record keep account of what the call holds
-- (src/kdive/coordination/transaction.py).
use linux_debug_mcp.Base.{ℕ, ◌≡◌, refl, sym, ap, ◌∙◌, String, Option, none, some, List, [], ◌∷◌}
use linux_debug_mcp.Seams.TransportState.{TransportSession, OpenRequest}
use linux_debug_mcp.Coordination.EndpointSafety.{assert_loopback}
use linux_debug_mcp.Coordination.Transaction.{OpenState, TransportTransaction}
use linux_debug_mcp.Coordination.Transaction.Open.{
  Progress, M, Surroundings, BackendAttachment, Partial, backend_process, ignored, returns, raised,
  unsafe_endpoint, on_partial, report_partials, attached, attach_open_backend, write_ready_record,
  ready_record,
}
use linux_debug_mcp.Coordination.Transaction.Owed.{bind-Ensures, then-Ensures}
use linux_debug_mcp.Coordination.Transaction.Stages.{At, Goes, Recorded, lift-Goes}
use linux_debug_mcp.Coordination.Transaction.Commits.{
  Recorded-Others, after_write, account_written, Own, Records, written-Records,
}

module _ (env : Surroundings) (request : OpenRequest) (handle : ℕ)
    (before : TransportTransaction) where
  abbrev Held : Progress → Type 0
  Held p = At env request handle before (Recorded env request handle before) p

  abbrev Keeps : M (Unit {0}) → Progress → Type 0
  Keeps m p = Goes env request handle before (Recorded env request handle before) m p

  -- Only the tokens and the session's id in `held` count.
  reheld :
      (p : Progress) (held : OpenState)
      → Held p
      → p.held.guard_token ≡ held.guard_token
      → p.held.lease_token ≡ held.lease_token
      → p.held.session_id ≡ held.session_id
      → Held (record p { held = held })
  reheld p held (o, own) guard_same lease_same id_same = (
    record {
      guard_owed = rw⁻¹ guard_same o.guard_owed;
      lease_owed = rw⁻¹ lease_same o.lease_owed;
      record_owed = rw⁻¹ id_same o.record_owed;
      tombs_kept = o.tombs_kept;
      tokens_owed = o.tokens_owed;
      token_owed = rw⁻¹ id_same o.token_owed;
      handles_owed = rw⁻¹ id_same o.handles_owed;
      subscribers_owed = rw⁻¹ id_same o.subscribers_owed;
      own_session = rw⁻¹ id_same o.own_session;
    },
    sym id_same ∙ own,
  )

  rewritten :
      (p : Progress) (session : TransportSession)
      → Held p
      → Own env request handle before session
      → Held (after_write env request handle before p p.tx.tokens p.held session)
  rewritten p session (o, own) (named, owned) =
      account_written env request handle before p p.tx.tokens p.held session o
        (Recorded-Others env request handle before p (o, own)) refl refl named owned o.tokens_owed

  on_partial-Keeps :
      (session : TransportSession) (partial : Partial) (p : Progress)
      → Held p
      → Own env request handle before session
      → Keeps (on_partial env request handle session partial) p
  unfolding on_partial
  on_partial-Keeps session ignored p h own = record { ensured = h }
  on_partial-Keeps session (backend_process pid start (some e)) p h own = record { ensured = h.0 }
  on_partial-Keeps session (backend_process pid start none) p h own =
      let written = record session { backend_pid = some pid; backend_start_time = start } in
      record {
        ensured =
            reheld (after_write env request handle before p p.tx.tokens p.held written)
              (record p.held { backend_pid = some pid; backend_start = start })
              (rewritten p written h own) refl refl (ap (λ (s : String). some s) own.1 ∙ sym h.1);
      }

  report_partials-Keeps :
      (session : TransportSession) (partials : List Partial) (p : Progress)
      → Held p
      → Own env request handle before session
      → Keeps (report_partials env request handle session partials) p
  unfolding report_partials returns
  report_partials-Keeps session [] p h own = record { ensured = h }
  report_partials-Keeps session (partial ∷ partials) p h own =
      then-Ensures (on_partial-Keeps session partial p h own)
        (λ q hq. report_partials-Keeps session partials q hq own)

  attached-Keeps :
      (attachment : BackendAttachment) (p : Progress)
      → Held p
      → Goes env request handle before
          (Recorded env request handle before)
          (attached env request handle attachment)
          p
  unfolding attached
  attached-Keeps attachment p h = go attachment.backend_pid refl
    where
      go :
          (pid : Option ℕ)
          → attachment.backend_pid ≡ pid
          → Goes env request handle before
              (Recorded env request handle before)
              (attached env request handle attachment)
              p
      go none e = record { ensured = rw (e, attached) h }
      go (some pid) e = record {
        ensured =
            rw (e, attached)
              (reheld p
                (record p.held {
                  backend_pid = some pid;
                  backend_start = attachment.backend_start_time;
                })
                h refl refl refl);
      }

  pub attach_open_backend-Goes :
      (session : TransportSession) (p : Progress)
      → Held p
      → Own env request handle before session
      → Goes env request handle before
          (Recorded env request handle before)
          (attach_open_backend env request handle session)
          p
  unfolding attach_open_backend
  attach_open_backend-Goes session p h own =
      then-Ensures (report_partials-Keeps session env.partials p h own) (λ q hq.
        bind-Ensures
          (lift-Goes env request handle before (Recorded env request handle before) raised
            env.attach q hq)
          (λ attachment r hr. attached-Keeps attachment r hr))

  pub write_ready_record-Records :
      (session : TransportSession) (attachment : BackendAttachment) (p : Progress)
      → Held p
      → Own env request handle before session
      → Records env request handle before
          (write_ready_record env request handle session attachment)
          p
  unfolding write_ready_record ready_record
  write_ready_record-Records session attachment p h own =
      let ready = ready_record env request handle session attachment p.held in
      let lifted =
        lift-Goes env request handle before (Recorded env request handle before) unsafe_endpoint in
      let chain =
        then-Ensures (lifted (assert_loopback env.is_loopback attachment.console_endpoint) p h)
          (λ q hq.
            then-Ensures (lifted (assert_loopback env.is_loopback attachment.rsp_endpoint) q hq)
              (λ r hr.
                written-Records env request handle before env.ready_write_raises ready r
                  (λ e fails. hr.0) (rewritten r ready hr own) own)) in
      record { ensured = chain.ensured }
