-- ===== src/Seams/Watchdog/Calls.antt =====
-- Histories of calls on one policy (src/kdive/seams/watchdog.py), over any control channel.
use linux_debug_mcp.Base.{
  ◌≡◌, ◌≢◌, ◌↔◌, inl, inr, refl, subst, String, Bool, true, false, not, ◌||◌, Option, none, some,
  List, [], ◌∷◌, ok, err, Result, reverse, arith, update, String-discrete, Bool-cases, Option-cases,
  set_item,
}
use linux_debug_mcp.Seams.SessionGuard.{SessionGuardContext}
use linux_debug_mcp.Seams.Watchdog.{
  WatchdogKnob, WatchdogControl, CapturedState, Captures, was_relaxed, safe_read, safe_write,
  RelaxReport, RelaxError, RestoreReport, first_relax, set_outcome, KnobOutcome, outcome_of,
  restore_knobs, restore, relax, failures, no_capture, nothing_restored, watchdog_restore_step,
}

pub data Call : Type 0 where
  relaxes restores : SessionGuardContext → Call

-- Each knob whose relaxing write succeeded has a baseline.
abbrev HasPriors : CapturedState → Type 0
HasPriors c = (m : String) → was_relaxed (c.relaxed m) ≡ true → c.prior m ≢ none

abbrev IsRestorable : Captures → Type 0
IsRestorable captures = (id : String) (c : CapturedState) → captures id ≡ some c → HasPriors c

module _ {W : Type 0} (channel : WatchdogControl W) (ks : List WatchdogKnob) where
  after_relax : Result RelaxError (Captures × W × RelaxReport) → Captures × W → Captures × W
  after_relax (ok (captures, w, report)) s = (captures, w)
  after_relax (err e) s = s

  -- A call that raises leaves the state.
  unfoldable pub step : Captures × W → Call → Captures × W
  unfolding after_relax relax restore
  step s (relaxes ctx) = after_relax (relax channel ks ctx s.0 s.1) s
  step s (restores ctx) =
      let (captures, w, outcome) = restore channel ks ctx s.0 s.1 in (captures, w)

  unfoldable pub run : Captures × W → List Call → Captures × W
  run s [] = s
  run s (call ∷ calls) = run (step s call) calls

module _ {W : Type 0} (channel : WatchdogControl W) where
  first_relax-HasPriors :
      (ks : List WatchdogKnob) (w : W) (c : CapturedState) (o : RelaxReport)
      → HasPriors c
      → HasPriors (first_relax channel ks w c o).1
  unfolding first_relax
  first_relax-HasPriors [] w c o h = h
  first_relax-HasPriors (k ∷ ks) w c o h = elim (Bool-cases k.out_of_band) [
    | inl out ↦
        rw (out, first_relax)
          (first_relax-HasPriors ks w c (set_outcome o k.name KnobOutcome.skipped) h)
    | inr inside ↦ elim (Option-cases (safe_read channel k.name w)) [
      | inl absent ↦
          rw (inside, absent, first_relax)
            (first_relax-HasPriors ks w c (set_outcome o k.name KnobOutcome.absent) h)
      | inr (prior, there) ↦
          let (w', done) = safe_write channel k.name k.relaxed_value w in
          rw (inside, there, first_relax)
            (first_relax-HasPriors ks w'
              (record {
                prior = update String-discrete c.prior k.name (some prior);
                relaxed = update String-discrete c.relaxed k.name (some done);
              })
              (set_outcome o k.name (outcome_of done)) (λ m r. ground (arith, h m)))
    ]
  ]

  restore_knobs_returns :
      (ks : List WatchdogKnob) (w : W) (c : CapturedState) (r : List (String × Bool))
      → HasPriors c
      → (w' : W) × (restored : List (String × Bool)) × (restore_knobs channel ks w c r
          ≡ (w', ok restored))
  unfolding restore_knobs
  restore_knobs_returns [] w c r h = (w, r, refl)
  restore_knobs_returns (k ∷ ks) w c r h =
      elim (Bool-cases (k.out_of_band || not (was_relaxed (c.relaxed k.name)))) [
        | inl skip ↦ rw (skip, restore_knobs) (restore_knobs_returns ks w c r h)
        | inr go ↦ elim (Option-cases (c.prior k.name)) [
          | inl missing ↦ absurd (h k.name (ground arith) missing)
          | inr (prior, known) ↦
              let (w', done) = safe_write channel k.name prior w in
              rw (go, known, restore_knobs)
                (restore_knobs_returns ks w' c (set_item k.name done r) h)
        ]
      ]

  step-IsRestorable :
      (ks : List WatchdogKnob) (s : Captures × W) (call : Call)
      → IsRestorable s.0
      → IsRestorable (step channel ks s call).0
  unfolding step
  step-IsRestorable ks s (relaxes ctx) h id c held = relaxed ctx.session_id refl
    where
      relaxed : (session : Option String) → ctx.session_id ≡ session → HasPriors c
      relaxed none e = h id c (ground arith)
      relaxed (some i) e = elim (Option-cases (s.0 i)) [
        | inl fresh ↦ elim (String-discrete i id) [
          | yes same ↦
              let made : (first_relax channel ks s.1 no_capture (λ _. none)).1 ≡ c = ground arith in
              subst HasPriors made (first_relax-HasPriors ks s.1 no_capture (λ _. none) (λ m r. cc))
          | no other ↦ h id c (ground arith)
        ]
        | inr (old, known) ↦ h id c (ground arith)
      ]
  step-IsRestorable ks s (restores ctx) h id c held = h id c (ground arith)

  run-IsRestorable :
      (ks : List WatchdogKnob) (calls : List Call) (s : Captures × W)
      → IsRestorable s.0
      → IsRestorable (run channel ks s calls).0
  unfolding run
  run-IsRestorable ks [] s h = h
  run-IsRestorable ks (call ∷ calls) s h =
      run-IsRestorable ks calls (step channel ks s call) (step-IsRestorable ks s call h)

  -- `restore` returns a report; it is a noop just if the session has no capture, which it then
  -- keeps without.
  abbrev pub Reports : List WatchdogKnob → SessionGuardContext → Captures → W → Type 0
  Reports ks ctx captures w =
      (report : RestoreReport) × ((restore channel ks ctx captures w).2 ≡ ok report)
      × ((report.noop ≡ true) ↔ ((id : String) → ctx.session_id ≡ some id → captures id ≡ none))
      × ((id : String) → ctx.session_id ≡ some id → (restore channel ks ctx captures w).0 id ≡ none)

  step_raises :
      (repr : List String → String) (ks : List WatchdogKnob) (ctx : SessionGuardContext)
      (captures : Captures) (w : W) (report : RestoreReport)
      → (restore channel ks ctx captures w).2 ≡ ok report
      → (((watchdog_restore_step channel repr ks).teardown ctx (captures, w)).1 ≡ none)
        ↔ (failures report.restored ≡ [])
  unfolding watchdog_restore_step
  step_raises repr ks ctx captures w report returns = ground arith

  restore-Reports :
      (ks : List WatchdogKnob) (ctx : SessionGuardContext) (captures : Captures) (w : W)
      → IsRestorable captures
      → Reports ks ctx captures w
  unfolding restore
  restore-Reports ks ctx captures w h = session ctx.session_id refl
    where
      session : (id : Option String) → ctx.session_id ≡ id → Reports ks ctx captures w
      session none e = (nothing_restored, ground arith, (λ t i same. cc, λ _. refl), λ id i. cc)
      session (some id) e = elim (Option-cases (captures id)) [
        | inl free ↦ (
          nothing_restored,
          ground arith,
          (λ t i same. ground arith, λ _. refl),
          λ i same. ground arith,
        )
        | inr (c, held) ↦
            let (w', restored, returns) = restore_knobs_returns (reverse ks) w c [] (h id c held) in
            (
              record { restored = restored; noop = false },
              ground (arith, returns),
              (λ t. cc, λ free. absurd (ground (arith, free id e))),
              λ i same. ground arith,
            )
      ]

-- After any history of relaxes and restores on a policy that began without captures, whatever the
-- channel answers or raises, `restore` does not raise: it returns a report, which is a noop just if
-- the session has no capture, and leaves the session without one. WatchdogRestoreStep then raises
-- just if the report has a failure.
pub restore_never_raises :
    {W : Type 0} (channel : WatchdogControl W) (ks : List WatchdogKnob)
    (repr : List String → String) (calls : List Call) (ctx : SessionGuardContext) (w : W)
    → let (captures, w') = run channel ks (λ _. none, w) calls in
      (r : Reports channel ks ctx captures w') × ((((watchdog_restore_step channel repr ks).teardown
            ctx
            (captures, w')).1
          ≡ none)
        ↔ (failures r.0.restored ≡ []))
restore_never_raises channel ks repr calls ctx w =
    let (captures, w') = run channel ks (λ _. none, w) calls in
    let r =
      restore-Reports channel ks ctx captures w'
        (run-IsRestorable channel ks calls (λ _. none, w) (λ id c e. cc)) in
    (r, step_raises channel repr ks ctx captures w' r.0 r.1)
