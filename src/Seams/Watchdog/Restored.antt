-- ===== src/Seams/Watchdog/Restored.antt =====
-- A session's restore undoes its relaxes (src/kdive/seams/watchdog.py), over a control channel that
-- does what it is asked to.
use mathlib.Core.List.{reverse-append}
use linux_debug_mcp.Base.{
  ℕ, zero, suc, ◌≡◌, inl, inr, refl, ap, ◌∙◌, String, Bool, false, ◌||◌, Option, none, some, List,
  [], ◌∷◌, ◌++◌, ok, Result, reverse, arith, update, String-discrete, Bool-cases, ◌>>=◌,
}
use linux_debug_mcp.Seams.SessionGuard.{SessionGuardContext}
use linux_debug_mcp.Seams.Watchdog.{
  WatchdogKnob, WatchdogControl, CapturedState, Captures, RelaxError, RestoreReport, first_relax,
  reissue_relax, restore_knobs, restore, relax, failures, no_capture,
}
use linux_debug_mcp.Seams.Watchdog.Baseline.{
  in_band, DistinctKnobs, IsFaithful, AllBaseline, first_relax-AllBaseline,
}
use linux_debug_mcp.Seams.Watchdog.Undoing.{reissue_relax-AllBaseline, restore_knobs-Undone}

in_band-append :
    (m : String) (ks js : List WatchdogKnob) → in_band m (ks ++ js) ≡ (in_band m ks || in_band m js)
in_band-append m [] js = refl
in_band-append m (k ∷ ks) js = ground (arith, in_band-append m ks js)

in_band-reverse : (m : String) (ks : List WatchdogKnob) → in_band m (reverse ks) ≡ in_band m ks
in_band-reverse m [] = refl
in_band-reverse m (k ∷ ks) = ground (
  arith,
  ap (in_band m) (reverse-append (k ∷ []) ks),
  in_band-append m (reverse ks) (k ∷ []),
  in_band-reverse m ks,
)

module _ {W : Type 0} (channel : WatchdogControl W) (view : W → String → Option String)
    (f : IsFaithful channel view) (all : List WatchdogKnob) (w0 : W) where
  abbrev pub Relaxed : Type 0
  Relaxed = Result RelaxError (Captures × W)

  -- A session relaxes `n` times.
  pub relax_times : ℕ → SessionGuardContext → Captures → W → Relaxed
  unfolding relax
  relax_times zero ctx captures w = ok (captures, w)
  relax_times (suc n) ctx captures w =
      relax channel all ctx captures w >>= λ r. relax_times n ctx r.0 r.1

  relax_held :
      (ctx : SessionGuardContext) (id : String) (captures : Captures) (c : CapturedState) (w : W)
      → ctx.session_id ≡ some id
      → captures id ≡ some c
      → let (w', o) = reissue_relax channel all w c (λ _. none) in
        relax channel all ctx captures w ≡ ok (captures, w', o)
  unfolding relax
  relax_held ctx id captures c w session held = ground arith

  relax_first :
      (ctx : SessionGuardContext) (id : String) (captures : Captures) (w : W)
      → ctx.session_id ≡ some id
      → captures id ≡ none
      → let (w', c, o) = first_relax channel all w no_capture (λ _. none) in
        relax channel all ctx captures w ≡ ok (update String-discrete captures id (some c), w', o)
  unfolding relax
  relax_first ctx id captures w session fresh = ground arith

  restore_held :
      (ctx : SessionGuardContext) (id : String) (captures : Captures) (c : CapturedState) (w w' : W)
      (restored : List (String × Bool))
      → ctx.session_id ≡ some id
      → captures id ≡ some c
      → restore_knobs channel (reverse all) w c [] ≡ (w', ok restored)
      → restore channel all ctx captures w ≡ (
        update String-discrete captures id none,
        w',
        ok (record { restored = restored; noop = false }),
      )
  unfolding restore
  restore_held ctx id captures c w w' restored session held returns = ground arith

  relax_again :
      (n : ℕ) (ctx : SessionGuardContext) (id : String) (captures : Captures) (c : CapturedState)
      (w : W)
      → ctx.session_id ≡ some id
      → captures id ≡ some c
      → AllBaseline channel view f all w0 c w
      → (w' : W) × (relax_times n ctx captures w ≡ ok (captures, w'))
        × AllBaseline channel view f all w0 c w'
  unfolding relax_times
  relax_again zero ctx id captures c w session held base = (w, refl, base)
  relax_again (suc n) ctx id captures c w session held base =
      let (w', o) = reissue_relax channel all w c (λ _. none) in
      let (last, returns, based) =
        relax_again n ctx id captures c w' session held
          (reissue_relax-AllBaseline channel view f all w0 all w c (λ _. none) base) in
      (
        last,
        ap (λ r. r >>= λ x. relax_times n ctx x.0 x.1) (relax_held ctx id captures c w session held)
            ∙ returns,
        based,
      )

  -- The state that a session is relaxed to and the report of its restore.
  pub record Cycle (n : ℕ) (ctx : SessionGuardContext) (id : String) (captures : Captures)
      : Type 0 where
    pub during : Captures
    pub relaxed_world : W
    pub final_world : W
    pub report : RestoreReport
    pub relaxes : relax_times (suc n) ctx captures w0 ≡ ok (during, relaxed_world)
    pub restores :
        restore channel all ctx during relaxed_world
        ≡ (update String-discrete during id none, final_world, ok report)
    pub not_noop : report.noop ≡ false
    pub no_failures : failures report.restored ≡ []
    pub baseline : (m : String) → view final_world m ≡ view w0 m

  uncaptured : AllBaseline channel view f all w0 no_capture w0
  uncaptured m = inl (refl, refl, refl)

  -- Over a channel that writes what it is asked to and reads back what was written, and with in-band
  -- knobs of distinct names: a session without a capture that relaxes any number of times, at least
  -- once, and then restores gets a report that is no noop and has no failure, and every knob of the
  -- target reads as it did before the first relax.
  pub relax_restore_round_trip :
      (n : ℕ) (ctx : SessionGuardContext) (id : String) (captures : Captures)
      → DistinctKnobs all
      → ctx.session_id ≡ some id
      → captures id ≡ none
      → Cycle n ctx id captures
  unfolding relax_times failures
  relax_restore_round_trip n ctx id captures distinct session fresh =
      let (w1, c, o) = first_relax channel all w0 no_capture (λ _. none) in
      let base : AllBaseline channel view f all w0 c w1 =
        first_relax-AllBaseline channel view f all w0 all w0 no_capture (λ _. none) distinct
          (λ m h. h) (λ m h. refl) uncaptured in
      let during : Captures = update String-discrete captures id (some c) in
      let held : during id ≡ some c = ground arith in
      let (w2, again, base2) = relax_again n ctx id during c w1 session held base in
      let u = restore_knobs-Undone channel view f all w0 (reverse all) w2 c [] base2 in
      record {
        during = during;
        relaxed_world = w2;
        final_world = u.world;
        report = record { restored = u.restored; noop = false };
        relaxes =
            ap (λ r. r >>= λ x. relax_times n ctx x.0 x.1)
              (relax_first ctx id captures w0 session fresh)
            ∙ again;
        restores = restore_held ctx id during c w2 u.world u.restored session held u.returns;
        not_noop = refl;
        no_failures = u.clean refl;
        baseline = λ m. elim (Bool-cases (in_band m all)) [
          | inl listed ↦ u.undone m (in_band-reverse m all ∙ listed)
          | inr other ↦ u.kept m (ground (arith, base2 m))
        ];
      }
