-- ===== src/Seams/Watchdog/Undoing.antt =====
-- The loop of restore puts back what was captured, and a further relax keeps it so
-- (src/kdive/seams/watchdog.py), over a control channel that does what it is asked to.
use linux_debug_mcp.Base.{
  ◌≡◌, inl, inr, refl, String, Bool, true, false, not, ◌||◌, Option, some, List, [], ◌∷◌, ok, arith,
  Bool-cases, Option-cases, set_item,
}
use linux_debug_mcp.Seams.Watchdog.{
  WatchdogKnob, WatchdogControl, CapturedState, was_relaxed, safe_write, RelaxReport, reissue_relax,
  set_outcome, KnobOutcome, outcome_of, restore_knobs, failures, or_failed,
}
use linux_debug_mcp.Seams.Watchdog.Baseline.{in_band, IsFaithful, HasBaseline, AllBaseline}

failures-set_item :
    (name : String) (d : List (String × Bool))
    → failures d ≡ []
    → failures (set_item name true d) ≡ []
unfolding failures set_item
failures-set_item name [] h = refl
failures-set_item name ((n, b) ∷ d) h = ground (arith, failures-set_item name d)

module _ {W : Type 0} (channel : WatchdogControl W) (view : W → String → Option String)
    (f : IsFaithful channel view) (all : List WatchdogKnob) (w0 : W) where
  -- The world after a write to a knob.
  abbrev after : WatchdogKnob → String → W → W
  after k v w = (safe_write channel k.name v w).0

  -- A write to a captured knob keeps what is known of each name.
  rewritten :
      (c : CapturedState) (w : W) (k : WatchdogKnob) (v prior m : String)
      → c.prior k.name ≡ some prior
      → HasBaseline channel view all c w0 w k.name
      → HasBaseline channel view all c w0 w m
      → HasBaseline channel view all c w0 (after k v w) m
  rewritten c w k v prior m known (inl (p, r, e)) bm = cc
  rewritten c w k v prior m known (inr (listed, r, p, (u, there))) bm =
      ground (arith, f.written k.name v w m u there)

  pub reissue_relax-AllBaseline :
      (ks : List WatchdogKnob) (w : W) (c : CapturedState) (o : RelaxReport)
      → AllBaseline channel view f all w0 c w
      → AllBaseline channel view f all w0 c (reissue_relax channel ks w c o).0
  unfolding reissue_relax
  reissue_relax-AllBaseline [] w c o base = base
  reissue_relax-AllBaseline (k ∷ ks) w c o base = elim (Bool-cases k.out_of_band) [
    | inl out ↦
        rw (out, reissue_relax)
          (reissue_relax-AllBaseline ks w c (set_outcome o k.name KnobOutcome.skipped) base)
    | inr inside ↦ elim (Option-cases (c.prior k.name)) [
      | inl absent ↦
          rw (inside, absent, reissue_relax)
            (reissue_relax-AllBaseline ks w c (set_outcome o k.name KnobOutcome.absent) base)
      | inr (prior, known) ↦
          rw (inside, known, reissue_relax)
            (reissue_relax-AllBaseline ks (after k k.relaxed_value w) c
              (set_outcome o k.name (outcome_of (safe_write channel k.name k.relaxed_value w).1))
              (λ m. rewritten c w k k.relaxed_value prior m known (base k.name) (base m)))
    ]
  ]

  -- What the loop of restore does: the knobs of `ks` have their first values again, and a name
  -- that had its first value keeps it.
  pub record Undone (ks : List WatchdogKnob) (w : W) (c : CapturedState) (r : List (String × Bool))
      : Type 0 where
    pub world : W
    pub restored : List (String × Bool)
    pub returns : restore_knobs channel ks w c r ≡ (world, ok restored)
    pub undone : (m : String) → in_band m ks ≡ true → view world m ≡ view w0 m
    pub kept : (m : String) → view w m ≡ view w0 m → view world m ≡ view w0 m
    pub clean : failures r ≡ [] → failures restored ≡ []

  skipped :
      (k : WatchdogKnob) (ks : List WatchdogKnob) (w : W) (c : CapturedState)
      (r : List (String × Bool))
      → (k.out_of_band || not (was_relaxed (c.relaxed k.name))) ≡ true
      → HasBaseline channel view all c w0 w k.name
      → Undone ks w c r
      → Undone (k ∷ ks) w c r
  unfolding restore_knobs
  skipped k ks w c r skip base u = record {
    world = u.world;
    restored = u.restored;
    returns = rw (skip, restore_knobs) u.returns;
    undone = λ m h. ground (arith, u.undone m, u.kept m);
    kept = u.kept;
    clean = u.clean;
  }

  written_back :
      (k : WatchdogKnob) (ks : List WatchdogKnob) (w : W) (c : CapturedState)
      (r : List (String × Bool)) (prior u : String)
      → (k.out_of_band || not (was_relaxed (c.relaxed k.name))) ≡ false
      → c.prior k.name ≡ some prior
      → view w0 k.name ≡ some prior
      → view w k.name ≡ some u
      → Undone ks (after k prior w) c (set_item k.name true r)
      → Undone (k ∷ ks) w c r
  unfolding restore_knobs
  written_back k ks w c r prior u go known first there done =
      let wrote : or_failed (channel.write_knob k.name prior w).1 ≡ true =
        rw (f.writes k.name prior w u there) in
      record {
        world = done.world;
        restored = done.restored;
        returns = rw (go, known, wrote, restore_knobs) done.returns;
        undone =
            λ m h. ground (arith, done.undone m, done.kept m, f.written k.name prior w m u there);
        kept = λ m h. done.kept m (ground (arith, f.written k.name prior w m u there));
        clean = λ h. done.clean (failures-set_item k.name r h);
      }

  pub restore_knobs-Undone :
      (ks : List WatchdogKnob) (w : W) (c : CapturedState) (r : List (String × Bool))
      → AllBaseline channel view f all w0 c w
      → Undone ks w c r
  unfolding restore_knobs
  restore_knobs-Undone [] w c r base = record {
    world = w;
    restored = r;
    returns = refl;
    undone = λ m h. cc;
    kept = λ m h. h;
    clean = λ h. h;
  }
  restore_knobs-Undone (k ∷ ks) w c r base =
      elim (Bool-cases (k.out_of_band || not (was_relaxed (c.relaxed k.name)))) [
        | inl skip ↦ skipped k ks w c r skip (base k.name) (restore_knobs-Undone ks w c r base)
        | inr go ↦ elim (base k.name) [
          | inl (p, notr, e) ↦ absurd (ground arith)
          | inr (listed, rel, (prior, known, first), (u, there)) ↦
              written_back k ks w c r prior u go known first there (
                restore_knobs-Undone ks (after k prior w) c (set_item k.name true r)
                  (λ m. rewritten c w k prior prior m known (base k.name) (base m)))
        ]
      ]
