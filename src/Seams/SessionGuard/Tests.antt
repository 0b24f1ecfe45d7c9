-- ===== src/Seams/SessionGuard/Tests.antt =====
-- The teardown contract at a concrete guard (src/kdive/seams/guard.py).
use linux_debug_mcp.Base.{
  ◌≡◌, ◌↔◌, String, true, Option, none, some, [], ◌∷◌, ok, reverse, elem, has_key, String-discrete,
}
use linux_debug_mcp.Seams.Target.{TargetKey}
use linux_debug_mcp.Seams.TransportState.{TransportSession, RecordState, ExecutionState}
use linux_debug_mcp.Seams.SessionGuard.{
  SessionGuardContext, TeardownReason, Action, TeardownStep, SessionGuard, TeardownReport, teardown,
}
use linux_debug_mcp.Seams.SessionGuard.Teardown.{
  IsHalted, raisers, closed_world, final_world, teardown_lem,
}

abbrev vm : TargetKey
vm = record { provisioner = "local-qemu"; target_id = "run-1" }

abbrev context : SessionGuardContext
context = record {
  target_key = vm;
  generation = 1;
  session_id = some "s";
  reason = TeardownReason.ended;
}

abbrev halted_record : TransportSession
halted_record = record {
  session_id = "s";
  target_key = vm;
  generation = 1;
  provider = "qemu-gdbstub";
  channel_id = "rsp0";
  console_endpoint = none;
  rsp_endpoint = none;
  record_state = RecordState.ready;
  console_lease_token = none;
  stop_guard_token = none;
  attach_epoch = 0;
  break_plan = none;
  execution_state = ExecutionState.halted;
  backend_pid = none;
  backend_start_time = none;
  created_at = 0;
  ended_at = none;
  artifacts = [];
}

-- The world is the durable record alone: `close` fails and leaves it, `force_reap` removes it.
abbrev World : Type 0
World = Option TransportSession

abbrev failing_step : TeardownStep World
failing_step = record { name = "watchdog-restore"; teardown = λ ctx w. (w, some "boom") }

abbrev guard : SessionGuard World
guard = record { pre_attach = []; post_attach = []; teardown_steps = failing_step ∷ [] }

abbrev broken_close : Action World
broken_close w = (w, some "close failed")

abbrev reap : Action World
reap w = (none, none)

teardown_lem_example :
    (r : TeardownReport) × (teardown guard context broken_close
        (λ v. ok v)
        reap
        (some halted_record)
      ≡ (
        final_world (λ v. v) reap (closed_world guard context broken_close (some halted_record)),
        ok r,
      ))
    × ((r.resume_ok ≡ true)
        ↔ ¬ IsHalted (
            final_world
              (λ v. v)
              reap
              (closed_world guard context broken_close (some halted_record))))
    × (r.close_error ≡ some "close failed")
    × ((name : String)
        → has_key name r.step_errors
          ≡ elem String-discrete name
              (raisers (reverse guard.teardown_steps) context (some halted_record)))
teardown_lem_example = teardown_lem guard context broken_close (λ v. v) reap (some halted_record)
