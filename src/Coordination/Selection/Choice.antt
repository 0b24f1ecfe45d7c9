-- ===== src/Coordination/Selection/Choice.antt =====
-- Which channel is selected, and which error is raised when none is
-- (src/kdive/coordination/selection.py).
use mathlib.Core.Path.{fun_ext}
use linux_debug_mcp.Base.{
  Option, none, some, ◌&&◌, ◌||◌, holds, if◌then◌else◌, subst, ap, ◌∙◌, ◌≡◌, ◌≢◌, ◌↔◌, refl, ◌⊎◌,
  inr, String, Bool, true, false, List, [], ◌∷◌, Result, ok, err, arith, elem, subset, keep_if,
  String-discrete,
}
use linux_debug_mcp.Seams.Target.{TargetKey, TargetKey-discrete, PlatformMetadata}
use linux_debug_mcp.Seams.TransportState.{
  BreakMethod, BreakMethod-discrete, BreakPlan, TransportRef,
}
use linux_debug_mcp.Seams.BreakPolicy.{BreakPlanError, plan}
use linux_debug_mcp.Seams.BreakPolicy.Plans.{plan_not_disproved}
use linux_debug_mcp.Coordination.Selection.{
  SelectionError, BreakDisproof, applies_to, BreakPolicy, Selection, channel_disproved, plan_for,
  select_from, select_capable, select_stop_capable_channel,
}

-- The channels whose caps hold every required one, in order.
abbrev pub capable : List TransportRef → List String → List TransportRef
capable transports required =
    keep_if (λ channel. subset String-discrete required channel.caps) transports

-- The disproof is of this target, and of any channel if it is of sysrq-g, else of the channel that it
-- names.
abbrev says : Option String → String → Bool
says none name = false
says (some named) name = holds (String-discrete named name)

abbrev concerns : BreakDisproof → TargetKey → TransportRef → Bool
concerns d k channel =
    holds (TargetKey-discrete d.target_key k)
    && (holds (BreakMethod-discrete d.method BreakMethod.sysrq_g)
        || (says d.provider channel.provider && says d.channel_id channel.channel_id))

-- The methods of the disproofs that concern the channel.
abbrev pub disproved_on : List BreakDisproof → TargetKey → TransportRef → List BreakMethod
disproved_on [] k channel = []
disproved_on (d ∷ ds) k channel =
    if concerns d k channel then d.method ∷ disproved_on ds k channel else disproved_on ds k channel

applies-concerns :
    (d : BreakDisproof) (k : TargetKey) (channel : TransportRef)
    → applies_to d k channel ≡ concerns d k channel
unfolding applies_to
applies-concerns d k channel = ground arith

channel-disproved_on :
    (ds : List BreakDisproof) (k : TargetKey) (channel : TransportRef)
    → channel_disproved ds k channel ≡ disproved_on ds k channel
unfolding channel_disproved keep_if
channel-disproved_on [] k channel = refl
channel-disproved_on (d ∷ ds) k channel =
    ground (arith, applies-concerns d k channel, channel-disproved_on ds k channel)

-- What the policy answers for a channel, given what is disproved on it.
abbrev pub answer_for :
    BreakPolicy
    → PlatformMetadata
    → TargetKey
    → List BreakDisproof
    → TransportRef
    → Result BreakPlanError BreakPlan
answer_for policy platform k disproved channel =
    policy channel platform (disproved_on disproved k channel)

module _ (answer : TransportRef → Result BreakPlanError BreakPlan) where
  -- The selected channel is the first with a plan, and comes with that plan.
  abbrev pub IsChoice : List TransportRef → Selection → Type 0
  IsChoice [] choice = ⊥
  IsChoice (c ∷ cs) choice =
      ((c ≡ choice.channel) × (answer c ≡ ok choice.break_plan))
      ⊎ (((e : BreakPlanError) × (answer c ≡ err e)) × IsChoice cs choice)

  abbrev pub NonePlanned : List TransportRef → Type 0
  NonePlanned [] = Unit {0}
  NonePlanned (c ∷ cs) = ((e : BreakPlanError) × (answer c ≡ err e)) × NonePlanned cs

  abbrev pub SomeDisproved : List TransportRef → Type 0
  SomeDisproved [] = ⊥
  SomeDisproved (c ∷ cs) = (answer c ≡ err BreakPlanError.break_disproved) ⊎ SomeDisproved cs

  abbrev pub NoneBreakable : List TransportRef → Type 0
  NoneBreakable [] = Unit {0}
  NoneBreakable (c ∷ cs) = (answer c ≡ err BreakPlanError.no_break_plan) × NoneBreakable cs

  abbrev pub Outcomes : List TransportRef → Result SelectionError Selection → Type 0
  Outcomes cs outcome =
      ((outcome ≡ err SelectionError.no_capable_channel) ↔ (cs ≡ []))
      × ((outcome ≡ err SelectionError.no_break_plan) ↔ ((cs ≢ []) × NoneBreakable cs))
      × ((outcome ≡ err SelectionError.break_disproved)
          ↔ ((cs ≢ []) × NonePlanned cs × SomeDisproved cs))
      × ((choice : Selection) → (outcome ≡ ok choice) ↔ IsChoice cs choice)

module _ (policy : BreakPolicy) (platform : PlatformMetadata) (k : TargetKey)
    (disproved : List BreakDisproof) where
  abbrev answer : TransportRef → Result BreakPlanError BreakPlan
  answer = plan_for policy platform k disproved

  abbrev run : List TransportRef → Bool → Result SelectionError Selection
  run = select_from policy platform k disproved

  IsChoice-sound :
      (cs : List TransportRef) (saw : Bool) (choice : Selection)
      → run cs saw ≡ ok choice
      → IsChoice answer cs choice
  unfolding select_from
  IsChoice-sound [] saw choice h = ground arith
  IsChoice-sound (c ∷ cs) saw choice h =
      ground (arith, IsChoice-sound cs saw choice, IsChoice-sound cs true choice)

  choice_complete :
      (cs : List TransportRef) (saw : Bool) (choice : Selection)
      → IsChoice answer cs choice
      → run cs saw ≡ ok choice
  unfolding select_from
  choice_complete [] saw choice h = absurd h
  choice_complete (c ∷ cs) saw choice h =
      ground (arith, choice_complete cs saw choice, choice_complete cs true choice)

  disproved_iff :
      (cs : List TransportRef) (saw : Bool)
      → (run cs saw ≡ err SelectionError.break_disproved)
        ↔ (NonePlanned answer cs × ((saw ≡ true) ⊎ SomeDisproved answer cs))
  unfolding select_from
  disproved_iff [] saw = ground arith
  disproved_iff (c ∷ cs) saw = ground (arith, disproved_iff cs saw, disproved_iff cs true)

  no_plan_iff :
      (cs : List TransportRef) (saw : Bool)
      → (run cs saw ≡ err SelectionError.no_break_plan) ↔ ((saw ≡ false) × NoneBreakable answer cs)
  unfolding select_from
  no_plan_iff [] saw = ground arith
  no_plan_iff (c ∷ cs) saw = ground (arith, no_plan_iff cs saw, no_plan_iff cs true)

  never_incapable :
      (cs : List TransportRef) (saw : Bool) → run cs saw ≢ err SelectionError.no_capable_channel
  unfolding select_from
  never_incapable [] saw h = ground arith
  never_incapable (c ∷ cs) saw h = ground (arith, never_incapable cs saw, never_incapable cs true)

  select_capable_lem :
      (cs : List TransportRef) → Outcomes answer cs (select_capable policy platform k disproved cs)
  unfolding select_capable
  select_capable_lem [] = (
    ((λ e. refl), λ e. refl),
    ((λ e. cc), λ h. absurd (h.0 refl)),
    ((λ e. cc), λ h. absurd (h.0 refl)),
    λ choice. ((λ e. cc), λ h. absurd h),
  )
  select_capable_lem (c ∷ cs) = (
    ((λ e. absurd (never_incapable (c ∷ cs) false e)), λ e. cc),
    (
      (λ e. ((λ n. cc), ((no_plan_iff (c ∷ cs) false).0 e).1)),
      λ h. (no_plan_iff (c ∷ cs) false).1 (refl, h.1),
    ),
    (
      (λ e. ground (arith, (disproved_iff (c ∷ cs) false).0 e)),
      λ h. (disproved_iff (c ∷ cs) false).1 (h.1, inr h.2),
    ),
    λ choice. (IsChoice-sound (c ∷ cs) false choice, choice_complete (c ∷ cs) false choice),
  )

  answers_lem : answer ≡ answer_for policy platform k disproved
  answers_lem =
      fun_ext (λ channel. ap (policy channel platform) (channel-disproved_on disproved k channel))

  -- The policy is asked for a channel with the methods of the disproofs that are of the target and
  -- either of sysrq-g or of the provider and id of that channel. With `cs` the channels that have
  -- the required caps, in order: `no_capable_channel` is raised just if there is none;
  -- `no_break_plan` just if there is one and the policy answers `no_break_plan` for each;
  -- `break_disproved` just if it plans none and answers `break_disproved` for some; and otherwise
  -- the first channel with a plan is selected, with that plan.
  pub select_stop_capable_channel_lem :
      (transports : List TransportRef) (required : List String)
      → Outcomes
          (answer_for policy platform k disproved)
          (capable transports required)
          (select_stop_capable_channel policy platform k disproved transports required)
  unfolding select_stop_capable_channel
  select_stop_capable_channel_lem transports required =
      subst
        (λ (a : TransportRef → Result BreakPlanError BreakPlan).
          Outcomes a (capable transports required)
            (select_stop_capable_channel policy platform k disproved transports required))
        answers_lem (select_capable_lem (capable transports required))

-- No disproof that applies to the channel names the method.
abbrev pub Respects : List BreakDisproof → TargetKey → TransportRef → BreakMethod → Type 0
Respects [] k channel method = Unit {0}
Respects (d ∷ ds) k channel method =
    (applies_to d k channel ≡ true → d.method ≢ method) × Respects ds k channel method

Respects-channel_disproved :
    (ds : List BreakDisproof) (k : TargetKey) (channel : TransportRef) (method : BreakMethod)
    → elem BreakMethod-discrete method (channel_disproved ds k channel) ≡ false
    → Respects ds k channel method
unfolding channel_disproved elem keep_if
Respects-channel_disproved [] k channel method h = tt
Respects-channel_disproved (d ∷ ds) k channel method h =
    (λ a e. ground arith, Respects-channel_disproved ds k channel method (ground arith))

choice_plan :
    (policy : BreakPolicy) (platform : PlatformMetadata) (k : TargetKey)
    (disproved : List BreakDisproof) (cs : List TransportRef) (choice : Selection)
    → IsChoice (answer_for policy platform k disproved) cs choice
    → answer_for policy platform k disproved choice.channel ≡ ok choice.break_plan
choice_plan policy platform k disproved [] choice h = absurd h
choice_plan policy platform k disproved (c ∷ cs) choice h =
    ground (arith, choice_plan policy platform k disproved cs choice)

-- With the reference policy no disproof that applies to the selected channel, be it bound to that
-- channel or wide to its target, names the method of the selected plan.
pub selected_not_disproved :
    (platform : PlatformMetadata) (k : TargetKey) (disproved : List BreakDisproof)
    (transports : List TransportRef) (required : List String) (choice : Selection)
    → select_stop_capable_channel plan platform k disproved transports required ≡ ok choice
    → Respects disproved k choice.channel choice.break_plan.method
selected_not_disproved platform k disproved transports required choice h =
    let outcomes = select_stop_capable_channel_lem plan platform k disproved transports required in
    let chosen = (outcomes.3 choice).0 h in
    Respects-channel_disproved disproved k choice.channel choice.break_plan.method (
      plan_not_disproved choice.channel platform (channel_disproved disproved k choice.channel)
        choice.break_plan
        (ap (plan choice.channel platform) (channel-disproved_on disproved k choice.channel)
          ∙ choice_plan plan platform k disproved (capable transports required) choice chosen))
