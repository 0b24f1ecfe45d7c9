-- ===== src/Seams/Lifecycle/Tests.antt =====
-- Runs of the lifecycle dispatcher (src/kdive/seams/lifecycle.py), and the theorems at them.
use linux_debug_mcp.Base.{
  ℕ, ◌≡◌, refl, String, String-discrete, ℕ_discrete, true, false, ◌||◌, none, List, [], ◌∷◌,
  keep_if, set_item, find_item, has_key, ite,
}
use linux_debug_mcp.Seams.Target.{TargetKey, TargetKey-discrete}
use linux_debug_mcp.Seams.Lifecycle.{
  Worker, new_dispatcher, Action, subscribing, beginning, joining, ending, finishing, run, act,
  subscribe, begin_emit, join_emit, end_emit, finish, prune_overdue, is_overdue, start_all,
  record_overdue, record_all,
}
use linux_debug_mcp.Seams.Lifecycle.Slots.{listed, workers_of}
use linux_debug_mcp.Seams.Lifecycle.Flights.{single_flight, live_worker_visible}
use linux_debug_mcp.Seams.Lifecycle.Emission.{Outcomes, drops, hangs, emit}
use linux_debug_mcp.Seams.Lifecycle.Results.{entry_of, expected_of, emit-accounts}

abbrev vm : TargetKey
vm = record { provisioner = "libvirt"; target_id = "vm1" }

-- A subscriber hangs in a first emission; a second one does not run it again, but the one that takes
-- over its name.
abbrev wedged : List Action
wedged =
    subscribing vm "gdb" 7
    ∷ beginning vm
    ∷ joining vm
    ∷ ending vm
    ∷ beginning vm
    ∷ joining vm
    ∷ ending vm
    ∷ subscribing vm "gdb" 8
    ∷ beginning vm
    ∷ finishing 1
    ∷ joining vm
    ∷ []

abbrev stuck : Worker
stuck = record { key = vm; name = "gdb"; instance_id = 7; id = 0 }

runs_twice : (run wedged new_dispatcher).next_id ≡ 2
unfolding run act subscribe begin_emit join_emit end_emit finish is_overdue start_all record_overdue
    record_all set_item keep_if TargetKey-discrete String-discrete ℕ_discrete
runs_twice = refl

started_stuck : listed stuck (run wedged new_dispatcher).started ≡ true
unfolding listed run act subscribe begin_emit join_emit end_emit finish is_overdue start_all
    record_overdue record_all set_item keep_if TargetKey-discrete String-discrete ℕ_discrete
started_stuck = refl

stuck_lives : (run wedged new_dispatcher).finished 0 ≡ false
unfolding run act subscribe begin_emit join_emit end_emit finish is_overdue start_all record_overdue
    record_all set_item keep_if TargetKey-discrete String-discrete ℕ_discrete
stuck_lives = refl

single_flight_example : stuck.id ≡ stuck.id
unfolding TargetKey-discrete String-discrete ℕ_discrete
single_flight_example =
    single_flight wedged stuck stuck started_stuck started_stuck stuck_lives stuck_lives refl

live_worker_visible_example :
    (listed stuck (prune_overdue (run wedged new_dispatcher)).overdue
      || listed stuck (workers_of ((run wedged new_dispatcher).emitting vm)))
    ≡ true
live_worker_visible_example = live_worker_visible wedged stuck started_stuck stuck_lives

-- Of three subscribers one hangs and is dropped by force, and one hangs for good.
abbrev three : List (String × ℕ)
three = ("gdb", 1) ∷ ("probe", 2) ∷ ("console", 3) ∷ []

abbrev outcomes : Outcomes
outcomes = record {
  alive = λ name. ite (String-discrete name "probe") false true;
  raises = λ name. none;
  drop = λ name. ite (String-discrete name "gdb") drops hangs;
}

emit-accounts_example :
    entry_of "gdb" (emit (λ name subscriber. false) three outcomes)
    ≡ expected_of (λ name subscriber. false) outcomes "gdb" (find_item "gdb" three)
unfolding has_key String-discrete
emit-accounts_example =
    emit-accounts (λ name subscriber. false) three outcomes "gdb" (refl, (refl, (refl, tt)))
