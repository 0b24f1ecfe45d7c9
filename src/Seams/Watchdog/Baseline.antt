-- ===== src/Seams/Watchdog/Baseline.antt =====
-- Restoring puts back what relaxing found (src/kdive/seams/watchdog.py), over a control channel
-- that does what it is asked to.
use linux_debug_mcp.Base.{
  ◌≡◌, ◌⊎◌, inl, inr, sym, ◌∙◌, String, Bool, true, false, not, ◌||◌, ◌&&◌, Option, none, some,
  List, [], ◌∷◌, ok, arith, holds, update, String-discrete, Bool-cases, Option-cases,
}
use linux_debug_mcp.Seams.Watchdog.{
  WatchdogKnob, WatchdogControl, CapturedState, was_relaxed, safe_read, safe_write, RelaxReport,
  first_relax, set_outcome, KnobOutcome, outcome_of,
}

-- Some in-band knob of the list has this name.
abbrev pub in_band : String → List WatchdogKnob → Bool
in_band name [] = false
in_band name (k ∷ ks) =
    (not k.out_of_band && holds (String-discrete k.name name)) || in_band name ks

-- No in-band name stands twice.
abbrev pub DistinctKnobs : List WatchdogKnob → Type 0
DistinctKnobs [] = Unit {0}
DistinctKnobs (k ∷ ks) = (k.out_of_band ≡ false → in_band k.name ks ≡ false) × DistinctKnobs ks

module _ {W : Type 0} (channel : WatchdogControl W) (view : W → String → Option String) where
  -- The channel reads the values of the target, and writes each knob that is there.
  pub record IsFaithful : Type 0 where
    pub reads : (n : String) (w : W) → channel.read_knob n w ≡ ok (view w n)
    pub writes :
        (n v : String) (w : W) (old : String)
        → view w n ≡ some old
        → (channel.write_knob n v w).1 ≡ ok true
    pub written :
        (n v : String) (w : W) (m : String) (old : String)
        → view w n ≡ some old
        → view (channel.write_knob n v w).0 m ≡ update String-discrete (view w) n (some v) m

  -- A name is either untouched, or captured with the value that it had in `w0` and still there.
  abbrev pub HasBaseline : List WatchdogKnob → CapturedState → W → W → String → Type 0
  HasBaseline all c w0 w m =
      ((c.prior m ≡ none) × (was_relaxed (c.relaxed m) ≡ false) × (view w m ≡ view w0 m))
      ⊎ ((in_band m all ≡ true)
          × (was_relaxed (c.relaxed m) ≡ true)
          × ((v : String) × (c.prior m ≡ some v) × (view w0 m ≡ some v))
          × ((u : String) × (view w m ≡ some u)))

  module _ (f : IsFaithful) (all : List WatchdogKnob) (w0 : W) where
    captured :
        (c : CapturedState) (w : W) (k : WatchdogKnob) (prior : String) (m : String)
        → view w k.name ≡ some prior
        → in_band k.name all ≡ true
        → c.prior k.name ≡ none
        → HasBaseline all c w0 w k.name
        → HasBaseline all c w0 w m
        → let (w', done) = safe_write channel k.name k.relaxed_value w in
          HasBaseline all
            (record {
              prior = update String-discrete c.prior k.name (some prior);
              relaxed = update String-discrete c.relaxed k.name (some done);
            })
            w0
            w'
            m
    captured c w k prior m there listed fresh bk bm = ground (
      arith,
      f.writes k.name k.relaxed_value w prior there,
      f.written k.name k.relaxed_value w m prior there,
    )

    safe_read-view : (w : W) (n : String) → safe_read channel n w ≡ view w n
    safe_read-view w n = ground (arith, f.reads n w)

    abbrev pub AllBaseline : CapturedState → W → Type 0
    AllBaseline c w = (m : String) → HasBaseline all c w0 w m

    -- None of the knobs still to come has been captured.
    abbrev Fresh : List WatchdogKnob → CapturedState → Type 0
    Fresh ks c = (m : String) → in_band m ks ≡ true → c.prior m ≡ none

    abbrev Within : List WatchdogKnob → Type 0
    Within ks = (m : String) → in_band m ks ≡ true → in_band m all ≡ true

    in_band-cons :
        (k : WatchdogKnob) (ks : List WatchdogKnob) (m : String)
        → in_band m ks ≡ true
        → in_band m (k ∷ ks) ≡ true
    in_band-cons k ks m h = ground arith

    in_band_head :
        (k : WatchdogKnob) (ks : List WatchdogKnob)
        → k.out_of_band ≡ false
        → in_band k.name (k ∷ ks) ≡ true
    in_band_head k ks h = ground arith

    pub first_relax-AllBaseline :
        (ks : List WatchdogKnob) (w : W) (c : CapturedState) (o : RelaxReport)
        → DistinctKnobs ks
        → Within ks
        → Fresh ks c
        → AllBaseline c w
        → AllBaseline (first_relax channel ks w c o).1 (first_relax channel ks w c o).0
    unfolding first_relax
    first_relax-AllBaseline [] w c o d within fresh base = base
    first_relax-AllBaseline (k ∷ ks) w c o d within fresh base = elim (Bool-cases k.out_of_band) [
      | inl out ↦
          rw (out, first_relax)
            (first_relax-AllBaseline ks w c (set_outcome o k.name KnobOutcome.skipped) d.1
              (λ m h. within m (in_band-cons k ks m h)) (λ m h. fresh m (in_band-cons k ks m h))
              base)
      | inr inside ↦ elim (Option-cases (safe_read channel k.name w)) [
        | inl absent ↦
            rw (inside, absent, first_relax)
              (first_relax-AllBaseline ks w c (set_outcome o k.name KnobOutcome.absent) d.1
                (λ m h. within m (in_band-cons k ks m h)) (λ m h. fresh m (in_band-cons k ks m h))
                base)
        | inr (prior, there) ↦
            rw (inside, there, first_relax)
              (first_relax-AllBaseline ks (safe_write channel k.name k.relaxed_value w).0
                (record {
                  prior = update String-discrete c.prior k.name (some prior);
                  relaxed =
                      update String-discrete c.relaxed k.name
                        (some (safe_write channel k.name k.relaxed_value w).1);
                })
                (set_outcome o k.name (outcome_of (safe_write channel k.name k.relaxed_value w).1))
                d.1 (λ m h. within m (in_band-cons k ks m h))
                (λ m h. ground (arith, d.0 inside, fresh m (in_band-cons k ks m h)))
                (λ m.
                  captured c w k prior m (sym (safe_read-view w k.name) ∙ there)
                    (within k.name (in_band_head k ks inside))
                    (fresh k.name (in_band_head k ks inside)) (base k.name) (base m)))
      ]
    ]
