-- ===== src/Coordination/Selection.antt =====
-- select_stop_capable_channel (src/kdive/coordination/selection.py). The break policy is a
-- parameter; a set of disproofs is a list of them.
pub mod Choice
mod Tests
use linux_debug_mcp.Base.{
  String, Bool, true, false, not, ◌&&◌, ◌||◌, Option, none, some, List, [], ◌∷◌, Result, ok, err,
  ite, if◌then◌else◌, holds, elem, subset, keep_if, map, String-discrete,
}
use linux_debug_mcp.Seams.Target.{TargetKey, TargetKey-discrete, PlatformMetadata}
use linux_debug_mcp.Seams.TransportState.{
  BreakMethod, BreakMethod-discrete, BreakPlan, TransportRef,
}
use linux_debug_mcp.Seams.BreakPolicy.{BreakPlanError}

pub data SelectionError : Type 0 where
  no_capable_channel no_break_plan break_disproved : SelectionError

-- SYSRQ_G is a property of the running kernel, not of a line.
abbrev pub target_wide : BreakMethod → Bool
target_wide method = holds (BreakMethod-discrete method BreakMethod.sysrq_g)

pub record BreakDisproof : Type 0 where
  pub target_key : TargetKey
  pub method : BreakMethod
  pub provider : Option String
  pub channel_id : Option String

abbrev is_none : Option String → Bool
is_none none = true
is_none (some s) = false

pub data ScopeError : Type 0 where
  must_not_name_channel must_name_channel : ScopeError

-- BreakDisproof.__post_init__.
unfoldable pub check_scope : BreakDisproof → Result ScopeError BreakDisproof
check_scope d =
    if target_wide d.method && (not (is_none d.provider) || not (is_none d.channel_id))
    then err must_not_name_channel
    else if not (target_wide d.method) && (is_none d.provider || is_none d.channel_id)
    then err must_name_channel
    else ok d

abbrev pub names : Option String → String → Bool
names none s = false
names (some t) s = holds (String-discrete t s)

unfoldable pub applies_to : BreakDisproof → TargetKey → TransportRef → Bool
applies_to d k channel =
    if not (holds (TargetKey-discrete d.target_key k))
    then false
    else if target_wide d.method
    then true
    else names d.provider channel.provider && names d.channel_id channel.channel_id

abbrev pub BreakPolicy : Type 0
BreakPolicy = TransportRef → PlatformMetadata → List BreakMethod → Result BreakPlanError BreakPlan

pub record Selection : Type 0 where
  pub channel : TransportRef
  pub break_plan : BreakPlan

-- The methods that are disproved on this channel.
unfoldable pub channel_disproved : List BreakDisproof → TargetKey → TransportRef → List BreakMethod
channel_disproved disproved k channel =
    map (λ d. d.method) (keep_if (λ d. applies_to d k channel) disproved)

abbrev pub is_capable : List String → TransportRef → Bool
is_capable required channel = subset String-discrete required channel.caps

code_for : Bool → SelectionError
code_for true = break_disproved
code_for false = no_break_plan

module _ (policy : BreakPolicy) (platform : PlatformMetadata) (k : TargetKey)
    (disproved : List BreakDisproof) where
  abbrev pub plan_for : TransportRef → Result BreakPlanError BreakPlan
  plan_for channel = policy channel platform (channel_disproved disproved k channel)

  -- The loop over the capable channels.
  unfoldable pub select_from : List TransportRef → Bool → Result SelectionError Selection
  unfolding code_for
  select_from [] saw_disproved = err (code_for saw_disproved)
  select_from (channel ∷ rest) saw_disproved = elim (plan_for channel) [
    | ok plan ↦ ok (record { channel = channel; break_plan = plan })
    | err BreakPlanError.break_disproved ↦ select_from rest true
    | err BreakPlanError.no_break_plan ↦ select_from rest saw_disproved
  ]

  select_capable : List TransportRef → Result SelectionError Selection
  select_capable [] = err no_capable_channel
  select_capable (channel ∷ rest) = select_from (channel ∷ rest) false

  unfoldable pub select_stop_capable_channel :
      List TransportRef → List String → Result SelectionError Selection
  unfolding select_capable
  select_stop_capable_channel transports required =
      select_capable (keep_if (is_capable required) transports)
