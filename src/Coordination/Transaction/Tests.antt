-- ===== src/Coordination/Transaction/Tests.antt =====
-- An open whose backend does not attach (src/kdive/coordination/transaction.py).
mod Ends
mod Opens
use linux_debug_mcp.Base.{
  ◌⊎◌, ◌≡◌, refl, inl, true, false, none, some, [], ◌∷◌, Result, ok, err, elem, subset, keep_if,
  ℕ_discrete, String-discrete,
}
use linux_debug_mcp.Seams.Target.{
  ConsoleKind, TargetKey, TargetKey-discrete, TargetState, TargetState-discrete, PlatformMetadata,
  PlatformMetadata-discrete,
}
use linux_debug_mcp.Seams.Routing.{Fields, routing_eq}
use linux_debug_mcp.Seams.TransportState.{
  LineRole, LineRole-discrete, Caps-discrete, TransportRef, OpenRequest, BreakMethod,
  EndpointExposure,
}
use linux_debug_mcp.Seams.Guard
use linux_debug_mcp.Coordination.Lease
use linux_debug_mcp.Coordination.Lease.{lease_for, manager_acquire}
use linux_debug_mcp.Coordination.Admission.Calls.{run}
use linux_debug_mcp.Coordination.Selection.{
  select_from, select_stop_capable_channel, channel_disproved,
}
use linux_debug_mcp.Coordination.Registry.{read_record}
use linux_debug_mcp.Coordination.Admission.{
  AdmissionService, AdmissionError, init, is_live, publish_snapshot,
}
use linux_debug_mcp.Coordination.Admission.Gate.{
  non_live, bind_snapshot, rebind, wrong_lease, near_expiry, check_platform_drift, validate_open,
  register, admit, tombstone_gates,
}
use linux_debug_mcp.Coordination.EndpointSafety.{refuse_unsafe_exposure}
use linux_debug_mcp.Coordination.Transaction.{TransportTransaction}
use linux_debug_mcp.Coordination.Transaction.Open.{
  Surroundings, raised, backend_process, ◌>>=◌, ◌>>◌, returns, raises, lift, raise_text, admit_open,
  channel_of, crash, select_channel, take_guard, take_lease, opening_record, written,
  write_opening_record, on_partial, report_partials, attached, attach_open_backend, open_admitted,
  unwind, open_if_admitted, open_if_safe, open_session,
}
use linux_debug_mcp.Coordination.Transaction.Unwound.{
  RollsBack, IsFresh, AgreeAt, failed_open_leaks_nothing, failed_open_forgets_token,
}

abbrev pub vm : TargetKey
vm = record { provisioner = "local-qemu"; target_id = "run-1" }

abbrev pub platform : PlatformMetadata
platform = record {
  console_kind = ConsoleKind.uart;
  console_count = 1;
  dedicated_debug_line = false;
  ssh_reachable = true;
  break_hints = [];
}

abbrev pub stub : TransportRef
stub = record {
  provider = "qemu-gdbstub";
  channel_id = "rsp0";
  line_role = LineRole.rsp;
  caps = "provides_rsp" ∷ [];
  target_ref = Fields.end;
  opts = Fields.end;
  secret_refs = [];
}

abbrev published : Result AdmissionError AdmissionService → AdmissionService
published (ok s) = s
published (err e) = init 300

abbrev pub service : AdmissionService
unfolding init publish_snapshot
service = published (
    publish_snapshot (init 300) vm (record {
      generation = 1;
      transports = stub ∷ [];
      platform = platform;
      state = TargetState.ready;
      lease = none;
    }))

abbrev pub before : TransportTransaction
before = record {
  admission = service;
  registry = record { owners = []; tombs = [] };
  stop_guard = record { holders = λ k. none; fence = 0 };
  leases = record { leases = λ k. none };
  tokens = λ i. none;
  handles = λ i. none;
  subscribers = λ k i. none;
  reaped = [];
}

abbrev pub request : OpenRequest
request = record {
  target_key = vm;
  generation = 1;
  transport_ref = stub;
  required_caps = "provides_rsp" ∷ [];
  platform = platform;
  lease = none;
  min_lease_ttl = none;
}

-- The backend reports its process and then fails to attach.
abbrev pub env : Surroundings
env = record {
  capability = record {
    provider_name = "qemu-gdbstub";
    provides_console = true;
    endpoint_exposure = EndpointExposure.loopback_local;
  };
  policy = λ channel platform disproved. ok (record {
    method = BreakMethod.gdbstub_native;
    channel_id = channel.channel_id;
    rationale = "native";
  });
  is_loopback = λ host. true;
  handle_id = "h0";
  now = 0;
  guard_secret = "g0";
  lease_token = "l0";
  session_id = "s0";
  created_at = 0;
  secrets_raise = none;
  opening_write_raises = none;
  partials = backend_process 4711 (some "8") none ∷ [];
  attach = err "no backend";
  ready_write_raises = none;
  clear_raises = none;
  delete_raises = none;
  crash_after = λ point. false;
  meanwhile = λ point. [];
  meanwhile_promoted = [];
  has_dispatcher = true;
}

fails : (open_session env request false before).1 ≡ err (raised "no backend")
unfolding elem subset keep_if ℕ_discrete String-discrete TargetKey-discrete TargetState-discrete
    PlatformMetadata-discrete LineRole-discrete Caps-discrete routing_eq is_live non_live
    tombstone_gates bind_snapshot rebind wrong_lease near_expiry check_platform_drift validate_open
    register admit select_from select_stop_capable_channel channel_disproved refuse_unsafe_exposure
    ◌>>=◌ ◌>>◌ returns raises lift raise_text admit_open channel_of crash select_channel take_guard
    take_lease opening_record written write_opening_record on_partial report_partials attached
    attach_open_backend open_admitted unwind open_if_admitted open_if_safe open_session
    Guard.acquire manager_acquire Lease.acquire lease_for run service
fails = refl

fresh : IsFresh before vm "s0"
unfolding read_record
fresh = record { no_record = refl; no_token = refl; no_handle = refl; no_subscriber = refl }

failed_open_leaks_nothing_example :
    AgreeAt before (open_session env request false before).0 vm "s0"
    × (((open_session env request false before).0.admission ≡ before.admission)
        ⊎ RollsBack env request false before (open_session env request false before).0)
unfolding lease_for
failed_open_leaks_nothing_example =
    failed_open_leaks_nothing env request false before (raised "no backend") fails refl fresh
      (λ e. refl, λ e. refl) vm "s0"

failed_open_forgets_token_example : (open_session env request false before).0.tokens "s0" ≡ none
failed_open_forgets_token_example =
    failed_open_forgets_token env request false before (raised "no backend") fails refl refl "s0"
      (inl refl)
