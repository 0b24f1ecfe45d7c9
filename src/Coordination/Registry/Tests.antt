-- ===== src/Coordination/Registry/Tests.antt =====
-- The registry at concrete records (src/kdive/coordination/registry.py).
use linux_debug_mcp.Base.{
  ◌≡◌, refl, ℕ, String, true, false, none, some, [], ◌∷◌, map, String-discrete,
}
use linux_debug_mcp.Seams.Target.{TargetKey, TargetKey-discrete, ConsoleKind, TargetState}
use linux_debug_mcp.Seams.TransportState.{TransportSession, RecordState, ExecutionState}
use linux_debug_mcp.Coordination.Admission.{AdmissionService, TargetSnapshot, init}
use linux_debug_mcp.Coordination.Admission.Lifecycle.{mark_recovery_required}
use linux_debug_mcp.Coordination.Registry.{SessionRegistry, read_record, read_tombstone}
use linux_debug_mcp.Coordination.Registry.Reconcile.{
  OrphanReap, OnOrphanReaped, StopByIdentity, reconcile,
}
use linux_debug_mcp.Coordination.Registry.Gates.{
  expected_reap, mark-keeps_Gates, Gates, expected_tombstone,
}
use linux_debug_mcp.Coordination.Registry.Converges.{Gated, reconcile_lem}

abbrev pub vm : TargetKey
vm = record { provisioner = "local-qemu"; target_id = "run-1" }

abbrev board : TargetKey
board = record { provisioner = "lab"; target_id = "board-7" }

abbrev owner : String → TargetKey → ExecutionState → TransportSession
owner id k state = record {
  session_id = id;
  target_key = k;
  generation = 1;
  provider = "serial-local";
  channel_id = "uart0";
  console_endpoint = none;
  rsp_endpoint = none;
  record_state = RecordState.ready;
  console_lease_token = none;
  stop_guard_token = none;
  attach_epoch = 0;
  break_plan = none;
  execution_state = state;
  backend_pid = some 4711;
  backend_start_time = some "8";
  created_at = 0;
  ended_at = none;
  artifacts = [];
}

-- A halted session, a running one, and a malformed tombstone.
abbrev pub halted_store : SessionRegistry
halted_store = record {
  owners = owner "s" vm ExecutionState.halted ∷ owner "t" board ExecutionState.executing ∷ [];
  tombs = record { path_key = board; content = none } ∷ [];
}

abbrev pub service : AdmissionService
unfolding init
service = init 300

abbrev pub snapshot : TargetSnapshot
snapshot = record {
  generation = 1;
  transports = [];
  platform = record {
    console_kind = ConsoleKind.uart;
    console_count = 1;
    dedicated_debug_line = false;
    ssh_reachable = true;
    break_hints = [];
  };
  state = TargetState.debugging;
  lease = none;
}

-- A callback that parks the target once more, and raises.
abbrev callback : OnOrphanReaped
callback reap a = (mark_recovery_required a reap.target_key reap.owner.generation, some "boom")

callback_keeps :
    (reap : OrphanReap) (a : AdmissionService) (k : TargetKey) (generation : ℕ)
    → Gates a k generation
    → Gates (callback reap a).0 k generation
callback_keeps reap a k generation gated =
    mark-keeps_Gates a reap.target_key k reap.owner.generation generation gated

abbrev stop : StopByIdentity
stop pid start = true

reconcile_lem_example :
    let s = reconcile stop (some callback) halted_store service in
    (s.registry.owners ≡ [])
    × (s.report.reaped ≡ map (expected_reap stop) halted_store.owners)
    × ((k : TargetKey)
        → read_tombstone s.registry k
          ≡ expected_tombstone (read_record halted_store k) (read_tombstone halted_store k))
    × ((k : TargetKey) → Gated s.admission k (read_tombstone s.registry k))
unfolding TargetKey-discrete String-discrete
reconcile_lem_example =
    reconcile_lem stop (some callback) halted_store service (refl, (refl, tt)) (λ t read. cc, tt)
      callback_keeps
