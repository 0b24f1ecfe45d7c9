-- ===== src/Seams/Target.antt =====
-- src/kdive/seams/target.py: the identity of a target and the facts about its platform and lease,
-- and ErrorCategory of src/kdive/domain.py. A time is a number of microseconds.
use linux_debug_mcp.Base.{ℕ, String, Bool, Option, List, String-discrete, ℕ_discrete}

pub data ErrorCategory : Type 0 where
  configuration_error missing_dependency build_failure boot_timeout : ErrorCategory
  readiness_failure test_failure debug_attach_failure : ErrorCategory
  infrastructure_failure not_implemented stale_handle transport_conflict : ErrorCategory

pub data ConsoleKind : Type 0 where
  uart hvc virtio : ConsoleKind

pub data TargetState : Type 0 where
  acquiring preparing booting ready debugging resetting crashed releasing : TargetState

pub data BreakHint : Type 0 where
  uart_break sysrq_g agent_proxy_break gdbstub_native : BreakHint

pub record TargetKey : Type 0 where
  pub provisioner : String
  pub target_id : String

pub record PlatformMetadata : Type 0 where
  pub console_kind : ConsoleKind
  pub console_count : ℕ
  pub dedicated_debug_line : Bool
  pub ssh_reachable : Bool
  pub break_hints : List BreakHint

pub record LeaseInfo : Type 0 where
  pub lease_id : String
  pub holder : String
  pub expires_at : Option ℕ
  pub renewable : Bool

unfoldable pub TargetKey-discrete : Discrete TargetKey
unfolding String-discrete
TargetKey-discrete = hlevel String-discrete

unfoldable pub ConsoleKind-discrete : Discrete ConsoleKind
ConsoleKind-discrete = hlevel

unfoldable pub TargetState-discrete : Discrete TargetState
TargetState-discrete = hlevel

unfoldable pub PlatformMetadata-discrete : Discrete PlatformMetadata
unfolding ℕ_discrete
PlatformMetadata-discrete = hlevel ℕ_discrete
