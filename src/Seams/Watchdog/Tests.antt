-- ===== src/Seams/Watchdog/Tests.antt =====
-- The watchdog policy over a small target: the world is the table of its knobs.
use linux_debug_mcp.Base.{
  refl, String, Bool, true, false, Option, none, some, [], ◌∷◌, ok, Result, arith, update,
  String-discrete,
}
use linux_debug_mcp.Seams.SessionGuard.{SessionGuardContext, TeardownReason}
use linux_debug_mcp.Seams.Watchdog.{
  WatchdogControl, WatchdogArch, Captures, generic_lockup_knobs, knobs_for_arch,
}
use linux_debug_mcp.Seams.Watchdog.Baseline.{IsFaithful}
use linux_debug_mcp.Seams.Watchdog.Restored.{Cycle, relax_restore_round_trip}
use linux_debug_mcp.Seams.Watchdog.Calls.{relaxes, run}

abbrev World : Type 0
World = String → Option String

write_present : Option String → String → String → World → World × Result String Bool
write_present none name value w = (w, ok false)
write_present (some old) name value w = (update String-discrete w name (some value), ok true)

abbrev table : WatchdogControl World
table = record {
  read_knob = λ name w. ok (w name);
  write_knob = λ name value w. write_present (w name) name value w;
}

table-IsFaithful : IsFaithful table (λ w. w)
unfolding write_present
table-IsFaithful = record {
  reads = λ n w. refl;
  writes = λ n v w old there. ground arith;
  written = λ n v w m old there. ground arith;
}

abbrev target : World
target name = some "1"

abbrev context : SessionGuardContext
context = record {
  target_key = record { provisioner = "local-qemu"; target_id = "run-1" };
  generation = 1;
  session_id = some "s";
  reason = TeardownReason.ended;
}

relax_restore_round_trip_example :
    Cycle table
      (λ w. w)
      table-IsFaithful
      (knobs_for_arch WatchdogArch.ppc64le)
      target
      2
      context
      "s"
      (λ _. none)
unfolding knobs_for_arch String-discrete
relax_restore_round_trip_example =
    relax_restore_round_trip table (λ w. w) table-IsFaithful (knobs_for_arch WatchdogArch.ppc64le)
      target 2 context "s" (λ _. none)
      (λ _. refl, (λ _. refl, (λ _. refl, (λ _. refl, (λ _. refl, (λ _. refl, tt)))))) refl refl

abbrev relaxed_once : Captures × World
relaxed_once = run table generic_lockup_knobs (λ _. none, target) (relaxes context ∷ [])
