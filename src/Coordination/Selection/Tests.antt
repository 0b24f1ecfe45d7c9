-- ===== src/Coordination/Selection/Tests.antt =====
-- Selection at concrete channels (src/kdive/coordination/selection.py).
use linux_debug_mcp.Base.{String, true, false, some, List, [], ◌∷◌}
use linux_debug_mcp.Seams.Target.{ConsoleKind, PlatformMetadata, TargetKey}
use linux_debug_mcp.Seams.Routing.{Fields}
use linux_debug_mcp.Seams.TransportState.{LineRole, BreakMethod, TransportRef}
use linux_debug_mcp.Seams.BreakPolicy.{plan, plan_by}
use linux_debug_mcp.Coordination.Selection.{BreakDisproof, Selection, select_stop_capable_channel}
use linux_debug_mcp.Coordination.Selection.Choice.{
  answer_for, Outcomes, capable, select_stop_capable_channel_lem,
}

abbrev vm : TargetKey
vm = record { provisioner = "local-qemu"; target_id = "run-1" }

abbrev uart_platform : PlatformMetadata
uart_platform = record {
  console_kind = ConsoleKind.uart;
  console_count = 1;
  dedicated_debug_line = false;
  ssh_reachable = true;
  break_hints = [];
}

abbrev console : TransportRef
console = record {
  provider = "serial-local";
  channel_id = "console0";
  line_role = LineRole.shared_console;
  caps = "supports_uart_break" ∷ [];
  target_ref = Fields.end;
  opts = Fields.end;
  secret_refs = [];
}

-- The agent-proxy break is disproved on this console, and so SysRq over ssh is planned.
abbrev disproofs : List BreakDisproof
disproofs =
    record {
      target_key = vm;
      method = BreakMethod.agent_proxy_break;
      provider = some "serial-local";
      channel_id = some "console0";
    }
    ∷ []

abbrev choice : Selection
choice = record { channel = console; break_plan = plan_by console BreakMethod.sysrq_g }

abbrev required : List String
required = "supports_uart_break" ∷ []

select_stop_capable_channel_lem_example :
    Outcomes
      (answer_for plan uart_platform vm disproofs)
      (capable (console ∷ []) required)
      (select_stop_capable_channel plan uart_platform vm disproofs (console ∷ []) required)
select_stop_capable_channel_lem_example =
    select_stop_capable_channel_lem plan uart_platform vm disproofs (console ∷ []) required
