-- ===== src/Seams/Lifecycle/Flights.antt =====
-- The workers over a history of the dispatcher (src/kdive/seams/lifecycle.py).
use linux_debug_mcp.Base.{◌≡◌, refl, true, false, ◌||◌, List, [], ◌∷◌, update}
use linux_debug_mcp.Seams.Target.{TargetKey, TargetKey-discrete}
use linux_debug_mcp.Seams.Lifecycle.{
  Worker, same_slot, Phase, idle, invalidating, dropping, Dispatcher, new_dispatcher, prune_overdue,
  start_emission, begin_emit, join_emission, join_emit, end_emit, Action, subscribing,
  unsubscribing, asking, beginning, joining, ending, finishing, act, run,
}
use linux_debug_mcp.Seams.Lifecycle.Slots.{listed, workers_of}
use linux_debug_mcp.Seams.Lifecycle.Invariant.{
  Inv, Inv-new_dispatcher, Inv-prune, Inv-subscribe, Inv-unsubscribe, Inv-finish, Inv-end,
}
use linux_debug_mcp.Seams.Lifecycle.Starts.{Inv-start}
use linux_debug_mcp.Seams.Lifecycle.Joins.{Inv-join}

phase-idle :
    (k : TargetKey) (d : Dispatcher) (p : Phase)
    → d.emitting k ≡ p
    → Inv d
    → Inv (elim p [ idle ↦ start_emission k d | _ ↦ d ])
phase-idle k d idle e i = Inv-start k d i e
phase-idle k d (invalidating already ws) e i = i
phase-idle k d dropping e i = i

phase-joins :
    (k : TargetKey) (d : Dispatcher) (p : Phase)
    → d.emitting k ≡ p
    → Inv d
    → Inv (elim p [ invalidating already workers ↦ join_emission k workers d | _ ↦ d ])
phase-joins k d idle e i = i
phase-joins k d (invalidating already workers) e i = Inv-join k d already workers e i
phase-joins k d dropping e i = i

phase-ends :
    (k : TargetKey) (d : Dispatcher) (p : Phase)
    → d.emitting k ≡ p
    → Inv d
    → Inv (elim p [
      | dropping ↦ record d { emitting = update TargetKey-discrete d.emitting k idle }
      | _ ↦ d
    ])
phase-ends k d idle e i = i
phase-ends k d (invalidating already ws) e i = i
phase-ends k d dropping e i = Inv-end k d e i

Inv-act : (a : Action) (d : Dispatcher) → Inv d → Inv (act a d)
unfolding act begin_emit join_emit end_emit
Inv-act (subscribing k name subscriber) d i = Inv-subscribe k name subscriber d i
Inv-act (unsubscribing k name) d i = Inv-unsubscribe k name d i
Inv-act asking d i = Inv-prune d i
Inv-act (beginning k) d i = phase-idle k d (d.emitting k) refl i
Inv-act (joining k) d i = phase-joins k d (d.emitting k) refl i
Inv-act (ending k) d i = phase-ends k d (d.emitting k) refl i
Inv-act (finishing id) d i = Inv-finish id d i

Inv-run : (actions : List Action) (d : Dispatcher) → Inv d → Inv (run actions d)
unfolding run
Inv-run [] d i = i
Inv-run (a ∷ later) d i = Inv-run later (act a d) (Inv-act a d i)

-- Whatever the subscriptions, emissions and endings of workers, in any order and for any targets:
-- two workers that were started to run the `invalidate` of one subscriber, under one name of one
-- target, and that both still run, are the same worker.
pub single_flight :
    (actions : List Action) (v w : Worker)
    → listed v (run actions new_dispatcher).started ≡ true
    → listed w (run actions new_dispatcher).started ≡ true
    → (run actions new_dispatcher).finished v.id ≡ false
    → (run actions new_dispatcher).finished w.id ≡ false
    → same_slot v w ≡ true
    → v.id ≡ w.id
single_flight actions v w = (Inv-run actions new_dispatcher Inv-new_dispatcher).single v w

-- Whatever happened: a worker that was started to run an `invalidate` and still runs belongs to an
-- emission that waits for it now, or the dispatcher lists it as overdue.
pub live_worker_visible :
    (actions : List Action) (w : Worker)
    → listed w (run actions new_dispatcher).started ≡ true
    → (run actions new_dispatcher).finished w.id ≡ false
    → (listed w (prune_overdue (run actions new_dispatcher)).overdue
        || listed w (workers_of ((run actions new_dispatcher).emitting w.key)))
      ≡ true
live_worker_visible actions w h live =
    (Inv-prune (run actions new_dispatcher)
        (Inv-run actions new_dispatcher Inv-new_dispatcher)).visible
      w h live
