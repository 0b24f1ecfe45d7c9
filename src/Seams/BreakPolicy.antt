-- ===== src/Seams/BreakPolicy.antt =====
-- ReferenceBreakPolicy (src/kdive/seams/break_policy.py): how a running kernel can be broken into
-- over a channel. A set of methods is a list of them.
pub mod Plans
mod Tests
use linux_debug_mcp.Base.{
  String, Bool, true, false, not, ◌&&◌, List, [], ◌∷◌, ◌++◌, Result, ok, err, if◌then◌else◌, holds,
  elem, keep_if, String-discrete,
}
use linux_debug_mcp.Seams.Target.{ConsoleKind, ConsoleKind-discrete, PlatformMetadata}
use linux_debug_mcp.Seams.TransportState.{
  LineRole, LineRole-discrete, BreakMethod, BreakMethod-discrete, BreakPlan, TransportRef,
}

-- The `code` of a BreakPlanError.
pub data BreakPlanError : Type 0 where
  no_break_plan break_disproved : BreakPlanError

unfoldable pub rationale : BreakMethod → String
rationale BreakMethod.gdbstub_native = "rsp channel: gdb interrupts directly"
rationale BreakMethod.uart_break = "dedicated debug line with UART break"
rationale BreakMethod.agent_proxy_break = "shared console with UART break via agent-proxy"
rationale BreakMethod.sysrq_g = "sysrq-g over ssh"

abbrev pub has_cap : TransportRef → String → Bool
has_cap channel cap = elem String-discrete cap channel.caps

abbrev pub has_role : TransportRef → LineRole → Bool
has_role channel role = holds (LineRole-discrete channel.line_role role)

abbrev pub shared_console_uart_break : TransportRef → Bool
shared_console_uart_break channel =
    has_role channel LineRole.shared_console && has_cap channel "supports_uart_break"

abbrev pub prefer_agent_proxy : TransportRef → PlatformMetadata → Bool
prefer_agent_proxy channel platform =
    shared_console_uart_break channel
    && holds (ConsoleKind-discrete platform.console_kind ConsoleKind.uart)

-- `if test: candidates.append(method)`.
abbrev pub append_if : Bool → BreakMethod → List BreakMethod → List BreakMethod
append_if true method rest = method ∷ rest
append_if false method rest = rest

-- In order of preference.
unfoldable pub candidates : TransportRef → PlatformMetadata → List BreakMethod
candidates channel platform =
    append_if (has_role channel LineRole.rsp && has_cap channel "provides_rsp")
      BreakMethod.gdbstub_native
      (append_if
        (has_role channel LineRole.dedicated_debug && has_cap channel "supports_uart_break")
        BreakMethod.uart_break
        (append_if (prefer_agent_proxy channel platform) BreakMethod.agent_proxy_break (
          append_if platform.ssh_reachable BreakMethod.sysrq_g (
            append_if
              (shared_console_uart_break channel && not (prefer_agent_proxy channel platform))
              BreakMethod.agent_proxy_break []))))

abbrev pub plan_by : TransportRef → BreakMethod → BreakPlan
plan_by channel method = record {
  method = method;
  channel_id = channel.channel_id;
  rationale = rationale method;
}

first_of : TransportRef → List BreakMethod → Result BreakPlanError BreakPlan
first_of channel [] = err break_disproved
first_of channel (method ∷ rest) = ok (plan_by channel method)

abbrev pub admissible : List BreakMethod → List BreakMethod → List BreakMethod
admissible methods disproved =
    keep_if (λ method. not (elem BreakMethod-discrete method disproved)) methods

plan_among : TransportRef → List BreakMethod → List BreakMethod → Result BreakPlanError BreakPlan
unfolding first_of
plan_among channel [] disproved = err no_break_plan
plan_among channel (method ∷ rest) disproved =
    first_of channel (admissible (method ∷ rest) disproved)

unfoldable pub plan :
    TransportRef → PlatformMetadata → List BreakMethod → Result BreakPlanError BreakPlan
unfolding plan_among
plan channel platform disproved = plan_among channel (candidates channel platform) disproved
