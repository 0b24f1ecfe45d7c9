-- ===== src/Coordination/Transaction/Tests/Opens.antt =====
-- An open whose backend attaches (src/kdive/coordination/transaction.py).
use linux_debug_mcp.Base.{
  ◌≡◌, refl, false, none, some, [], ok, elem, subset, keep_if, ℕ_discrete, String-discrete,
}
use linux_debug_mcp.Seams.Target.{
  TargetKey-discrete, TargetState-discrete, PlatformMetadata-discrete,
}
use linux_debug_mcp.Seams.Routing.{routing_eq}
use linux_debug_mcp.Seams.TransportState.{
  LineRole-discrete, Caps-discrete, TransportSession, RecordState, ExecutionState, tcp, BreakMethod,
}
use linux_debug_mcp.Coordination.Admission.Bindings.{promote}
use linux_debug_mcp.Seams.Guard
use linux_debug_mcp.Coordination.Lease
use linux_debug_mcp.Coordination.Lease.{lease_for, manager_acquire}
use linux_debug_mcp.Coordination.Admission.Calls.{run}
use linux_debug_mcp.Coordination.Selection.{
  select_from, select_stop_capable_channel, channel_disproved,
}
use linux_debug_mcp.Coordination.Admission.{AdmissionState-discrete, is_live}
use linux_debug_mcp.Coordination.Admission.Gate.{
  non_live, bind_snapshot, rebind, wrong_lease, near_expiry, check_platform_drift, validate_open,
  register, admit, tombstone_gates,
}
use linux_debug_mcp.Coordination.EndpointSafety.{refuse_unsafe_exposure, assert_loopback}
use linux_debug_mcp.Coordination.Transaction.Open.{
  unlocked, Surroundings, ◌>>=◌, ◌>>◌, returns, raises, lift, raise_text, admit_open, channel_of,
  crash, select_channel, take_guard, take_lease, opening_record, written, write_opening_record,
  on_partial, report_partials, attached, attach_open_backend, open_admitted, unwind,
  open_if_admitted, open_if_safe, open_session, promoted_with, promote_session, subscribe_if,
  clear_recovery, ready_record, write_ready_record,
}
use linux_debug_mcp.Coordination.Transaction.Opened.{IsOpened, open_session-IsOpened}
use linux_debug_mcp.Coordination.Transaction.Tests.{vm, service, before, request, env}

abbrev attaching : Surroundings
attaching = record env {
  attach = ok (record {
    console_endpoint = none;
    rsp_endpoint = some (tcp "127.0.0.1" 1234);
    backend_pid = none;
    backend_start_time = none;
    console_artifact = none;
  });
}

abbrev ready : TransportSession
ready = record {
  session_id = "s0";
  target_key = vm;
  generation = 1;
  provider = "qemu-gdbstub";
  channel_id = "rsp0";
  console_endpoint = none;
  rsp_endpoint = some (tcp "127.0.0.1" 1234);
  record_state = RecordState.ready;
  console_lease_token = some "l0";
  stop_guard_token = some "g0";
  attach_epoch = 0;
  break_plan =
      some
        (record { method = BreakMethod.gdbstub_native; channel_id = "rsp0"; rationale = "native" });
  execution_state = ExecutionState.executing;
  backend_pid = some 4711;
  backend_start_time = some "8";
  created_at = 0;
  ended_at = none;
  artifacts = [];
}

succeeds : (open_session attaching request false before).1 ≡ ok ready
unfolding elem subset keep_if ℕ_discrete String-discrete TargetKey-discrete TargetState-discrete
    PlatformMetadata-discrete LineRole-discrete Caps-discrete routing_eq is_live non_live
    tombstone_gates bind_snapshot rebind wrong_lease near_expiry check_platform_drift validate_open
    register admit select_from select_stop_capable_channel channel_disproved refuse_unsafe_exposure
    ◌>>=◌ ◌>>◌ returns raises lift raise_text admit_open channel_of crash unlocked select_channel
    take_guard take_lease opening_record written write_opening_record on_partial report_partials
    attached attach_open_backend open_admitted unwind open_if_admitted open_if_safe open_session
    Guard.acquire manager_acquire Lease.acquire lease_for run service AdmissionState-discrete
    promote promoted_with promote_session subscribe_if clear_recovery ready_record
    write_ready_record assert_loopback
succeeds = refl

open_session-IsOpened_example :
    IsOpened attaching request false before (open_session attaching request false before).0 ready
open_session-IsOpened_example = open_session-IsOpened attaching request false before ready succeeds
