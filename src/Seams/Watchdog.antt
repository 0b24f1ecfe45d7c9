-- ===== src/Seams/Watchdog.antt =====
-- WatchdogPolicy (src/kdive/seams/watchdog.py): relaxing the lockup detectors of a target before a
-- stop, and putting the operator's values back. The control channel is a parameter that acts on a
-- world and may raise. A call is one step: what two threads do inside one call is not modelled.
pub mod Baseline
pub mod Undoing
pub mod Restored
pub mod Calls
mod Tests
use linux_debug_mcp.Base.{
  String, Bool, true, false, not, ◌||◌, ◌&&◌, Option, none, some, List, [], ◌∷◌, ◌++◌, Result, ok,
  err, if◌then◌else◌, reverse, update, set_item, String-discrete,
}
use linux_debug_mcp.Seams.SessionGuard.{SessionGuardContext, TeardownStep}

pub data WatchdogArch : Type 0 where
  x86_64 ppc64le : WatchdogArch

pub data KnobOutcome : Type 0 where
  relaxed absent skipped write_failed : KnobOutcome

pub record WatchdogKnob : Type 0 where
  pub name : String
  pub relaxed_value : String
  pub out_of_band : Bool

abbrev knob : String → WatchdogKnob
knob name = record { name = name; relaxed_value = "0"; out_of_band = false }

abbrev pub generic_lockup_knobs : List WatchdogKnob
generic_lockup_knobs =
    knob "kernel.nmi_watchdog"
    ∷ knob "kernel.watchdog"
    ∷ knob "kernel.watchdog_thresh"
    ∷ knob "kernel.softlockup_panic"
    ∷ knob "kernel.hardlockup_panic"
    ∷ []

unfoldable pub knobs_for_arch : WatchdogArch → List WatchdogKnob
knobs_for_arch WatchdogArch.x86_64 = generic_lockup_knobs
knobs_for_arch WatchdogArch.ppc64le =
    generic_lockup_knobs
    ++ record { name = "phyp_partition_watchdog"; relaxed_value = "disabled"; out_of_band = true }
      ∷ []

-- `write_knob` answers WriteOutcome.ok; either method may raise.
pub record WatchdogControl (W : Type 0) : Type 0 where
  pub read_knob : String → W → Result String (Option String)
  pub write_knob : String → String → W → W × Result String Bool

pub record CapturedState : Type 0 where
  pub prior : String → Option String
  pub relaxed : String → Option Bool

abbrev pub no_capture : CapturedState
no_capture = record { prior = λ _. none; relaxed = λ _. none }

abbrev pub Captures : Type 0
Captures = String → Option CapturedState

abbrev pub RelaxReport : Type 0
RelaxReport = String → Option KnobOutcome

-- `restored` in the order of the writes.
pub record RestoreReport : Type 0 where
  pub restored : List (String × Bool)
  pub noop : Bool

pub data RelaxError : Type 0 where
  no_session_id : RelaxError

-- A channel error is data.
abbrev pub or_absent : Result String (Option String) → Option String
or_absent (ok value) = value
or_absent (err e) = none

abbrev pub or_failed : Result String Bool → Bool
or_failed (ok done) = done
or_failed (err e) = false

abbrev pub outcome_of : Bool → KnobOutcome
outcome_of true = KnobOutcome.relaxed
outcome_of false = KnobOutcome.write_failed

abbrev pub set_outcome : RelaxReport → String → KnobOutcome → RelaxReport
set_outcome outcomes name outcome = update String-discrete outcomes name (some outcome)

abbrev pub nothing_restored : RestoreReport
nothing_restored = record { restored = []; noop = true }

-- `capture.relaxed.get(name, False)`.
abbrev pub was_relaxed : Option Bool → Bool
was_relaxed none = false
was_relaxed (some done) = done

module _ {W : Type 0} (channel : WatchdogControl W) where
  abbrev pub safe_read : String → W → Option String
  safe_read name w = or_absent (channel.read_knob name w)

  abbrev pub safe_write : String → String → W → W × Bool
  safe_write name value w =
      let (w', outcome) = channel.write_knob name value w in (w', or_failed outcome)

  -- The loop of _first_relax from a capture and a report so far.
  unfoldable pub first_relax :
      List WatchdogKnob → W → CapturedState → RelaxReport → W × CapturedState × RelaxReport
  first_relax [] w capture outcomes = (w, capture, outcomes)
  first_relax (k ∷ ks) w capture outcomes = elim k.out_of_band [
    | true ↦ first_relax ks w capture (set_outcome outcomes k.name KnobOutcome.skipped)
    | false ↦ elim (safe_read k.name w) [
      | none ↦ first_relax ks w capture (set_outcome outcomes k.name KnobOutcome.absent)
      | some prior ↦
          let (w', done) = safe_write k.name k.relaxed_value w in
          first_relax ks w'
            (record {
              prior = update String-discrete capture.prior k.name (some prior);
              relaxed = update String-discrete capture.relaxed k.name (some done);
            })
            (set_outcome outcomes k.name (outcome_of done))
    ]
  ]

  -- The loop of _reissue_relax: it reads nothing and leaves the capture alone.
  unfoldable pub reissue_relax :
      List WatchdogKnob → W → CapturedState → RelaxReport → W × RelaxReport
  reissue_relax [] w capture outcomes = (w, outcomes)
  reissue_relax (k ∷ ks) w capture outcomes = elim k.out_of_band [
    | true ↦ reissue_relax ks w capture (set_outcome outcomes k.name KnobOutcome.skipped)
    | false ↦ elim (capture.prior k.name) [
      | none ↦ reissue_relax ks w capture (set_outcome outcomes k.name KnobOutcome.absent)
      | some prior ↦
          let (w', done) = safe_write k.name k.relaxed_value w in
          reissue_relax ks w' capture (set_outcome outcomes k.name (outcome_of done))
    ]
  ]

  relax_captured :
      Option CapturedState → List WatchdogKnob → String → Captures → W → Captures × W × RelaxReport
  relax_captured none ks id captures w =
      let (w', capture, outcomes) = first_relax ks w no_capture (λ _. none) in
      (update String-discrete captures id (some capture), w', outcomes)
  relax_captured (some capture) ks id captures w =
      let (w', outcomes) = reissue_relax ks w capture (λ _. none) in (captures, w', outcomes)

  relax_session :
      Option String
      → List WatchdogKnob
      → Captures
      → W
      → Result RelaxError (Captures × W × RelaxReport)
  unfolding relax_captured
  relax_session none ks captures w = err no_session_id
  relax_session (some id) ks captures w = ok (relax_captured (captures id) ks id captures w)

  unfoldable pub relax :
      List WatchdogKnob
      → SessionGuardContext
      → Captures
      → W
      → Result RelaxError (Captures × W × RelaxReport)
  unfolding relax_session
  relax ks ctx captures w = relax_session ctx.session_id ks captures w

  -- The loop of restore over the knobs in the order given. A knob that was relaxed and has no
  -- baseline is a KeyError.
  unfoldable pub restore_knobs :
      List WatchdogKnob
      → W
      → CapturedState
      → List (String × Bool)
      → W × Result String (List (String × Bool))
  restore_knobs [] w capture restored = (w, ok restored)
  restore_knobs (k ∷ ks) w capture restored =
      elim (k.out_of_band || not (was_relaxed (capture.relaxed k.name))) [
        | true ↦ restore_knobs ks w capture restored
        | false ↦ elim (capture.prior k.name) [
          | none ↦ (w, err "KeyError")
          | some prior ↦
              let (w', done) = safe_write k.name prior w in
              restore_knobs ks w' capture (set_item k.name done restored)
        ]
      ]

  restored_report : Result String (List (String × Bool)) → Result String RestoreReport
  restored_report (ok restored) = ok (record { restored = restored; noop = false })
  restored_report (err e) = err e

  restore_captured : Option CapturedState → List WatchdogKnob → W → W × Result String RestoreReport
  unfolding restored_report
  restore_captured none ks w = (w, ok nothing_restored)
  restore_captured (some capture) ks w =
      let (w', outcome) = restore_knobs (reverse ks) w capture [] in (w', restored_report outcome)

  restore_session :
      Option String → List WatchdogKnob → Captures → W → Captures × W × Result String RestoreReport
  unfolding restore_captured
  restore_session none ks captures w = (captures, w, ok nothing_restored)
  restore_session (some id) ks captures w =
      let (w', outcome) = restore_captured (captures id) ks w in
      (update String-discrete captures id none, w', outcome)

  -- The capture is cleared whatever comes of the writes.
  unfoldable pub restore :
      List WatchdogKnob
      → SessionGuardContext
      → Captures
      → W
      → Captures × W × Result String RestoreReport
  unfolding restore_session
  restore ks ctx captures w = restore_session ctx.session_id ks captures w

-- RestoreReport.failures, by name.
unfoldable pub failures : List (String × Bool) → List String
failures [] = []
failures ((name, done) ∷ rest) = let later = failures rest in if done then later else name ∷ later

-- What WatchdogRestoreStep.teardown raises: the error that names the failed knobs, or what `restore`
-- raised. `repr` is the text of a WatchdogRestoreError.
restore_error : (List String → String) → Result String RestoreReport → Option String
restore_error repr (err e) = some e
restore_error repr (ok report) = elim (failures report.restored) [
  | [] ↦ none
  | name ∷ names ↦ some (repr (name ∷ names))
]

module _ {W : Type 0} (channel : WatchdogControl W) (repr : List String → String) where
  -- WatchdogRestoreStep over a policy with these knobs.
  unfoldable pub watchdog_restore_step : List WatchdogKnob → TeardownStep (Captures × W)
  unfolding restore restore_error failures
  watchdog_restore_step ks = record {
    name = "watchdog-restore";
    teardown = λ ctx s.
        let (captures, w) = s in
        let (captures', w', outcome) = restore channel ks ctx captures w in
        ((captures', w'), restore_error repr outcome);
  }
