-- ===== src/Seams/BreakPolicy/Plans.antt =====
-- Which methods the reference policy considers and which it plans
-- (src/kdive/seams/break_policy.py).
use linux_debug_mcp.Base.{
  ◌≡◌, ◌≢◌, ◌↔◌, refl, ◌⊎◌, Bool, true, false, ◌&&◌, List, [], ◌∷◌, ok, err, arith, sym, ap, ◌∙◌,
  elem, keep_if, holds, String, String-discrete,
}
use linux_debug_mcp.Seams.Target.{ConsoleKind, ConsoleKind-discrete, PlatformMetadata}
use linux_debug_mcp.Seams.TransportState.{
  LineRole, LineRole-discrete, BreakMethod, BreakMethod-discrete, BreakPlan, TransportRef,
}
use linux_debug_mcp.Seams.BreakPolicy.{
  no_break_plan, break_disproved, rationale, candidates, plan_by, first_of, admissible, plan_among,
  plan,
}

-- The topology that a method needs.
abbrev on_line : TransportRef → LineRole → String → Bool
on_line channel role cap =
    holds (LineRole-discrete channel.line_role role) && elem String-discrete cap channel.caps

abbrev pub topology : BreakMethod → TransportRef → PlatformMetadata → Bool
topology BreakMethod.gdbstub_native channel platform = on_line channel LineRole.rsp "provides_rsp"
topology BreakMethod.uart_break channel platform =
    on_line channel LineRole.dedicated_debug "supports_uart_break"
topology BreakMethod.agent_proxy_break channel platform =
    on_line channel LineRole.shared_console "supports_uart_break"
topology BreakMethod.sysrq_g channel platform = platform.ssh_reachable

-- The order of preference: on a uart the agent proxy comes before ssh, on other consoles after it.
abbrev pub preference : ConsoleKind → List BreakMethod
preference ConsoleKind.uart =
    BreakMethod.gdbstub_native ∷ BreakMethod.uart_break ∷ BreakMethod.agent_proxy_break
    ∷ BreakMethod.sysrq_g ∷ []
preference _ =
    BreakMethod.gdbstub_native ∷ BreakMethod.uart_break ∷ BreakMethod.sysrq_g
    ∷ BreakMethod.agent_proxy_break ∷ []

-- The methods whose topology holds, in the order of preference.
abbrev pub usable : TransportRef → PlatformMetadata → List BreakMethod
usable channel platform =
    keep_if (λ method. topology method channel platform) (preference platform.console_kind)

usable-candidates :
    (channel : TransportRef) (platform : PlatformMetadata)
    → candidates channel platform ≡ usable channel platform
unfolding candidates keep_if ConsoleKind-discrete
usable-candidates channel platform = ground arith

-- A method is a candidate just when its topology holds: the kind of console excludes none.
pub candidates_iff_topology :
    (method : BreakMethod) (channel : TransportRef) (platform : PlatformMetadata)
    → elem BreakMethod-discrete method (candidates channel platform)
      ≡ topology method channel platform
unfolding candidates elem BreakMethod-discrete
candidates_iff_topology BreakMethod.gdbstub_native channel platform = ground arith
candidates_iff_topology BreakMethod.uart_break channel platform = ground arith
candidates_iff_topology BreakMethod.agent_proxy_break channel platform = ground arith
candidates_iff_topology BreakMethod.sysrq_g channel platform = ground arith

-- `method` is the first of the methods that is not disproved.
abbrev pub IsFirstOpen : List BreakMethod → List BreakMethod → BreakMethod → Type 0
IsFirstOpen [] disproved method = ⊥
IsFirstOpen (m ∷ ms) disproved method =
    ((m ≡ method) × (elem BreakMethod-discrete m disproved ≡ false))
    ⊎ ((elem BreakMethod-discrete m disproved ≡ true) × IsFirstOpen ms disproved method)

-- The plan that names the channel and the method.
abbrev pub plan_of : TransportRef → BreakMethod → BreakPlan
plan_of channel method = record {
  method = method;
  channel_id = channel.channel_id;
  rationale = rationale method;
}

abbrev pub AllDisproved : List BreakMethod → List BreakMethod → Type 0
AllDisproved [] disproved = Unit {0}
AllDisproved (m ∷ ms) disproved =
    (elem BreakMethod-discrete m disproved ≡ true) × AllDisproved ms disproved

module _ (channel : TransportRef) (disproved : List BreakMethod) where
  IsFirstOpen-sound :
      (ms : List BreakMethod) (p : BreakPlan)
      → first_of channel (admissible ms disproved) ≡ ok p
      → IsFirstOpen ms disproved p.method × (p ≡ plan_by channel p.method)
  unfolding first_of keep_if
  IsFirstOpen-sound [] p h = ground arith
  IsFirstOpen-sound (m ∷ ms) p h = ground (arith, IsFirstOpen-sound ms p)

  first_open_complete :
      (ms : List BreakMethod) (method : BreakMethod)
      → IsFirstOpen ms disproved method
      → first_of channel (admissible ms disproved) ≡ ok (plan_by channel method)
  unfolding first_of keep_if
  first_open_complete [] method h = absurd h
  first_open_complete (m ∷ ms) method h = ground (arith, first_open_complete ms method)

  AllDisproved-iff :
      (ms : List BreakMethod)
      → (first_of channel (admissible ms disproved) ≡ err break_disproved)
        ↔ AllDisproved ms disproved
  unfolding first_of keep_if
  AllDisproved-iff [] = ((λ e. tt), λ h. refl)
  AllDisproved-iff (m ∷ ms) = ground (arith, AllDisproved-iff ms)

  never_no_plan :
      (ms : List BreakMethod) → first_of channel (admissible ms disproved) ≢ err no_break_plan
  unfolding first_of keep_if
  never_no_plan [] = λ e. cc
  never_no_plan (m ∷ ms) = λ e. ground (arith, never_no_plan ms)

  among_lem :
      (ms : List BreakMethod)
      → ((plan_among channel ms disproved ≡ err no_break_plan) ↔ (ms ≡ []))
        × ((plan_among channel ms disproved ≡ err break_disproved)
            ↔ ((ms ≢ []) × AllDisproved ms disproved))
        × ((p : BreakPlan)
            → (plan_among channel ms disproved ≡ ok p)
              ↔ (IsFirstOpen ms disproved p.method × (p ≡ plan_by channel p.method)))
  unfolding plan_among
  among_lem [] = (
    ((λ e. refl), λ e. refl),
    ((λ e. cc), λ h. absurd (h.0 refl)),
    λ p. ((λ e. cc), λ h. absurd h.0),
  )
  among_lem (m ∷ ms) = (
    ((λ e. absurd (never_no_plan (m ∷ ms) e)), λ e. cc),
    ((λ e. ((λ n. cc), (AllDisproved-iff (m ∷ ms)).0 e)), λ h. (AllDisproved-iff (m ∷ ms)).1 h.1),
    λ p. (
      IsFirstOpen-sound (m ∷ ms) p,
      λ h. first_open_complete (m ∷ ms) p.method h.0 ∙ ap ok (sym h.1),
    ),
  )

-- Let `ms` be the methods whose topology holds, in the order of preference: gdb's own interrupt,
-- the UART break, and then the agent proxy before sysrq-g on a uart console, after it on any other.
-- The policy answers `no_break_plan` just if `ms` is empty, `break_disproved` just if it is not and
-- every method of it is disproved, and a plan just if that names the first method of `ms` that is
-- not disproved, the channel's id and the method's rationale.
pub plan_lem :
    (channel : TransportRef) (platform : PlatformMetadata) (disproved : List BreakMethod)
    → let ms = usable channel platform in
      ((plan channel platform disproved ≡ err no_break_plan) ↔ (ms ≡ []))
      × ((plan channel platform disproved ≡ err break_disproved)
          ↔ ((ms ≢ []) × AllDisproved ms disproved))
      × ((p : BreakPlan)
          → (plan channel platform disproved ≡ ok p)
            ↔ (IsFirstOpen ms disproved p.method × (p ≡ plan_of channel p.method)))
unfolding plan
plan_lem channel platform disproved =
    rw (usable-candidates channel platform) (among_lem channel disproved (usable channel platform))

first_open_not_disproved :
    (ms disproved : List BreakMethod) (method : BreakMethod)
    → IsFirstOpen ms disproved method
    → elem BreakMethod-discrete method disproved ≡ false
first_open_not_disproved [] disproved method h = absurd h
first_open_not_disproved (m ∷ ms) disproved method h =
    ground (arith, first_open_not_disproved ms disproved method)

-- No plan uses a disproved method.
pub plan_not_disproved :
    (channel : TransportRef) (platform : PlatformMetadata) (disproved : List BreakMethod)
    (p : BreakPlan)
    → plan channel platform disproved ≡ ok p
    → elem BreakMethod-discrete p.method disproved ≡ false
plan_not_disproved channel platform disproved p h =
    first_open_not_disproved (usable channel platform) disproved p.method
      (((plan_lem channel platform disproved).2 p).0 h).0
