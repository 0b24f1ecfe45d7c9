-- ===== src/Seams/TransportState.antt =====
-- src/kdive/seams/transport_state.py: the vocabulary of channels, sessions and open requests.
use linux_debug_mcp.Base.{ℕ, String, Bool, Option, List, String-discrete}
use linux_debug_mcp.Seams.Target.{TargetKey, PlatformMetadata, LeaseInfo}
use linux_debug_mcp.Seams.Routing.{Fields}

pub data LineRole : Type 0 where
  shared_console dedicated_debug rsp : LineRole

pub data BreakMethod : Type 0 where
  gdbstub_native uart_break agent_proxy_break sysrq_g : BreakMethod

pub data EndpointExposure : Type 0 where
  loopback_local brokered_required : EndpointExposure

pub data RecordState : Type 0 where
  pending opening ready degraded closing abandoned closed : RecordState

pub data ExecutionState : Type 0 where
  executing halted unknown : ExecutionState

pub record TransportRef : Type 0 where
  pub provider : String
  pub channel_id : String
  pub line_role : LineRole
  pub caps : List String
  pub target_ref : Fields
  pub opts : Fields
  pub secret_refs : List String

pub record OpenRequest : Type 0 where
  pub target_key : TargetKey
  pub generation : ℕ
  pub transport_ref : TransportRef
  pub required_caps : List String
  pub platform : PlatformMetadata
  pub lease : Option LeaseInfo
  pub min_lease_ttl : Option ℕ

pub record BreakPlan : Type 0 where
  pub method : BreakMethod
  pub channel_id : String
  pub rationale : String

pub data Endpoint : Type 0 where
  tcp : String → ℕ → Endpoint
  unix : String → ℕ → Endpoint

pub record ArtifactRef : Type 0 where
  pub path : String
  pub kind : String
  pub sensitive : Bool
  pub description : Option String

-- The durable record of a session. Times are in microseconds.
pub record TransportSession : Type 0 where
  pub session_id : String
  pub target_key : TargetKey
  pub generation : ℕ
  pub provider : String
  pub channel_id : String
  pub console_endpoint : Option Endpoint
  pub rsp_endpoint : Option Endpoint
  pub record_state : RecordState
  pub console_lease_token : Option String
  pub stop_guard_token : Option String
  pub attach_epoch : ℕ
  pub break_plan : Option BreakPlan
  pub execution_state : ExecutionState
  pub backend_pid : Option ℕ
  pub backend_start_time : Option String
  pub created_at : ℕ
  pub ended_at : Option ℕ
  pub artifacts : List ArtifactRef

abbrev pub default_min_lease_ttl_seconds : ℕ
default_min_lease_ttl_seconds = 300

unfoldable pub LineRole-discrete : Discrete LineRole
LineRole-discrete = hlevel

unfoldable pub BreakMethod-discrete : Discrete BreakMethod
BreakMethod-discrete = hlevel

unfoldable pub Caps-discrete : Discrete (List String)
unfolding String-discrete
Caps-discrete = hlevel String-discrete
