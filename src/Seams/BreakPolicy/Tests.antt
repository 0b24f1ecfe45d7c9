-- ===== src/Seams/BreakPolicy/Tests.antt =====
-- The break policy at concrete channels (src/kdive/seams/break_policy.py).
use linux_debug_mcp.Base.{◌≡◌, ◌≢◌, ◌↔◌, refl, true, false, [], ◌∷◌, ok, err, elem, String-discrete}
use linux_debug_mcp.Seams.Target.{ConsoleKind, ConsoleKind-discrete, PlatformMetadata}
use linux_debug_mcp.Seams.Routing.{Fields}
use linux_debug_mcp.Seams.TransportState.{
  LineRole, LineRole-discrete, BreakMethod, BreakPlan, TransportRef,
}
use linux_debug_mcp.Seams.BreakPolicy.{no_break_plan, break_disproved, candidates, plan}
use linux_debug_mcp.Seams.BreakPolicy.Plans.{usable, plan_of, IsFirstOpen, AllDisproved, plan_lem}

-- A shared console on an hvc line, whose UART break is kept as a fallback behind ssh.
abbrev hvc_platform : PlatformMetadata
hvc_platform = record {
  console_kind = ConsoleKind.hvc;
  console_count = 1;
  dedicated_debug_line = false;
  ssh_reachable = true;
  break_hints = [];
}

abbrev console : TransportRef
console = record {
  provider = "serial-local";
  channel_id = "console0";
  line_role = LineRole.shared_console;
  caps = "supports_uart_break" ∷ [];
  target_ref = Fields.end;
  opts = Fields.end;
  secret_refs = [];
}

hvc_prefers_ssh :
    candidates console hvc_platform ≡ BreakMethod.sysrq_g ∷ BreakMethod.agent_proxy_break ∷ []
unfolding candidates elem LineRole-discrete ConsoleKind-discrete String-discrete
hvc_prefers_ssh = refl

plan_lem_example :
    ((plan console hvc_platform [] ≡ err no_break_plan) ↔ (usable console hvc_platform ≡ []))
    × ((plan console hvc_platform [] ≡ err break_disproved)
        ↔ ((usable console hvc_platform ≢ []) × AllDisproved (usable console hvc_platform) []))
    × ((p : BreakPlan)
        → (plan console hvc_platform [] ≡ ok p) ↔ (
            IsFirstOpen (usable console hvc_platform) [] p.method × (p ≡ plan_of console p.method)))
plan_lem_example = plan_lem console hvc_platform []
