-- ===== src/Coordination/Transaction/Open/Records.antt =====
-- The stages of an open that record: the OPENING record, the backend, the READY record, the promotion
-- and the recovery tombstone (src/kdive/coordination/transaction.py).
use linux_debug_mcp.Base.{
  ℕ, String, Bool, true, false, Option, none, some, List, [], ◌∷◌, Result, ok, err, update,
  String-discrete,
}
use linux_debug_mcp.Seams.TransportState.{
  TransportSession, OpenRequest, ArtifactRef, RecordState, ExecutionState,
}
use linux_debug_mcp.Seams.Guard.{GuardToken}
use linux_debug_mcp.Coordination.Selection.{Selection}
use linux_debug_mcp.Coordination.Admission.{AdmissionService, AdmissionError, found}
use linux_debug_mcp.Coordination.Admission.Bindings.{promote}
use linux_debug_mcp.Coordination.Admission.Lifecycle.{clear_recovery_required}
use linux_debug_mcp.Coordination.Registry.{write_record, clear_tombstone}
use linux_debug_mcp.Coordination.EndpointSafety.{assert_loopback}
use linux_debug_mcp.Coordination.Transaction.{OpenState, set_subscriber}
use linux_debug_mcp.Coordination.Transaction.Open.Attempt.{
  BackendAttachment, Partial, Surroundings, Progress, M, ◌>>=◌, ◌>>◌, returns, lift, raise_text,
  set_tx, refused, unsafe_endpoint, raised, backend_process, ignored,
}

module _ (env : Surroundings) (request : OpenRequest) (handle : ℕ) where
  unfoldable pub opening_record : Selection → GuardToken → Option String → ℕ → TransportSession
  opening_record selection guard_token lease_token admit_epoch = record {
    session_id = env.session_id;
    target_key = request.target_key;
    generation = request.generation;
    provider = env.capability.provider_name;
    channel_id = selection.channel.channel_id;
    console_endpoint = none;
    rsp_endpoint = none;
    record_state = RecordState.opening;
    console_lease_token = lease_token;
    stop_guard_token = some guard_token.secret;
    attach_epoch = admit_epoch;
    break_plan = some selection.break_plan;
    execution_state = ExecutionState.executing;
    backend_pid = none;
    backend_start_time = none;
    created_at = env.created_at;
    ended_at = none;
    artifacts = [];
  }

  unfoldable pub written : Option String → TransportSession → M TransportSession
  written (some e) session p = (p, err (raised e))
  written none session p = (
    record {
      tx = record p.tx { registry = write_record p.tx.registry session };
      held = record p.held { session_id = some session.session_id };
    },
    ok session,
  )

  -- `self._tokens[session_id] = guard_token`.
  abbrev pub keep_token : Progress → GuardToken → Progress
  keep_token p guard_token = set_tx p (record p.tx {
    tokens = update String-discrete p.tx.tokens env.session_id (some guard_token);
  })

  -- (7): the token is kept before the record is written, the session's id in `held` after it.
  unfoldable pub write_opening_record : Selection → GuardToken → Option String → M TransportSession
  unfolding written opening_record
  write_opening_record selection guard_token lease_token p =
      (do
        h ← lift refused (found (p.tx.admission.heap handle))
        (λ q.
            written env.opening_write_raises
              (opening_record selection guard_token lease_token h.admit_epoch)
              (keep_token q guard_token)))
        p

  -- on_partial: the record first, then what the rollback reads.
  unfoldable pub on_partial : TransportSession → Partial → M (Unit {0})
  on_partial session ignored p = (p, ok tt)
  on_partial session (backend_process pid start (some e)) p = (p, err (raised e))
  on_partial session (backend_process pid start none) p = (
    record {
      tx = record p.tx {
        registry =
            write_record p.tx.registry
              (record session { backend_pid = some pid; backend_start_time = start });
      };
      held = record p.held { backend_pid = some pid; backend_start = start };
    },
    ok tt,
  )

  unfoldable pub report_partials : TransportSession → List Partial → M (Unit {0})
  unfolding on_partial
  report_partials session [] = returns tt
  report_partials session (partial ∷ partials) =
      let rest = report_partials session partials in on_partial session partial >> rest

  -- The attachment's own process, where it names one, takes the place of a reported one.
  unfoldable pub attached : BackendAttachment → M BackendAttachment
  attached attachment p = elim attachment.backend_pid [
    | none ↦ (p, ok attachment)
    | some pid ↦ (
      record p {
        held = record p.held {
          backend_pid = some pid;
          backend_start = attachment.backend_start_time;
        };
      },
      ok attachment,
    )
  ]

  -- (8)
  unfoldable pub attach_open_backend : TransportSession → M BackendAttachment
  unfolding report_partials attached
  attach_open_backend session = do
    report_partials session env.partials
    attachment ← lift raised env.attach
    attached attachment

  artifacts_of : Option ArtifactRef → List ArtifactRef
  artifacts_of none = []
  artifacts_of (some artifact) = artifact ∷ []

  unfoldable pub ready_record : TransportSession → BackendAttachment → OpenState → TransportSession
  unfolding artifacts_of
  ready_record session attachment held = record session {
    record_state = RecordState.ready;
    console_endpoint = attachment.console_endpoint;
    rsp_endpoint = attachment.rsp_endpoint;
    backend_pid = held.backend_pid;
    backend_start_time = held.backend_start;
    artifacts = artifacts_of attachment.console_artifact;
  }

  -- (9)
  unfoldable pub write_ready_record : TransportSession → BackendAttachment → M TransportSession
  unfolding written ready_record
  write_ready_record session attachment p =
      (do
        lift unsafe_endpoint (assert_loopback env.is_loopback attachment.console_endpoint)
        lift unsafe_endpoint (assert_loopback env.is_loopback attachment.rsp_endpoint)
        written env.ready_write_raises (ready_record session attachment p.held))
        p

  is_none : Option ℕ → Bool
  is_none none = true
  is_none (some n) = false

  unfoldable pub subscribe_if : Bool → TransportSession → Progress → Progress
  unfolding is_none
  subscribe_if false session p = p
  subscribe_if true session p = set_tx p (record p.tx {
    subscribers =
        set_subscriber p.tx.subscribers session.target_key session.session_id (
          some (record { session = session; state = p.held; killed = is_none p.held.backend_pid }));
  })

  unfoldable pub promoted_with :
      Result AdmissionError AdmissionService → TransportSession → M (Unit {0})
  unfolding subscribe_if
  promoted_with (err e) session p = (p, err (refused e))
  promoted_with (ok admission) session p = (
    subscribe_if env.has_dispatcher session (record {
      tx = record p.tx {
        admission = admission;
        handles = update String-discrete p.tx.handles session.session_id (some handle);
      };
      held = record p.held { admission_handle = some handle };
    }),
    ok tt,
  )

  -- Promotion, registration and subscription happen under the lock of the target.
  unfoldable pub promote_session : TransportSession → M (Unit {0})
  unfolding promoted_with
  promote_session session p = promoted_with (promote p.tx.admission handle) session p

  unfoldable pub forget_tombstone : M (Unit {0})
  forget_tombstone p = (
    set_tx p (record p.tx {
      registry = clear_tombstone p.tx.registry request.target_key request.generation;
      admission = clear_recovery_required p.tx.admission request.target_key request.generation;
    }),
    ok tt,
  )

  -- Durable first: the cache is cleared only once the tombstone is gone.
  unfoldable pub clear_recovery : Bool → M (Unit {0})
  clear_recovery false p = (p, ok tt)
  clear_recovery true p = (do raise_text env.clear_raises; forget_tombstone) p
