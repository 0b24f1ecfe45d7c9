-- ===== src/Seams/Lifecycle/Joins.antt =====
-- The dispatcher's invariant at the end of the joins (src/kdive/seams/lifecycle.py).
use linux_debug_mcp.Base.{◌≡◌, ite, true, false, ◌||◌, List, [], ◌∷◌, arith, String}
use linux_debug_mcp.Seams.Target.{TargetKey, TargetKey-discrete}
use linux_debug_mcp.Seams.Lifecycle.{
  Worker, same_slot, invalidating, dropping, Dispatcher, record_overdue, record_all, alive_of,
  join_emission,
}
use linux_debug_mcp.Seams.Lifecycle.Slots.{
  listed, workers_of, listed-keep_if, listed-record_overdue, recorded-listed, listed-first,
  others-listed,
}
use linux_debug_mcp.Seams.Lifecycle.Invariant.{Inv}

-- Every worker that is recorded stands there, or one of its slot and number.
record_all-keeps :
    (u : Worker) (ws overdue : List Worker)
    → ((w : Worker) → listed w ws ≡ true → same_slot w u ≡ true → w.id ≡ u.id)
    → (listed u ws || listed u overdue) ≡ true
    → listed u (record_all ws overdue) ≡ true
unfolding record_all listed
record_all-keeps u [] overdue single h = h
record_all-keeps u (w ∷ ws) overdue single h =
    record_all-keeps u ws (record_overdue w overdue) (λ v hv. single v (ground (arith, hv)))
      (ground (
        arith,
        h,
        single w (listed-first w ws),
        recorded-listed u w overdue,
        others-listed u w overdue,
      ))

record_all-only :
    (u : Worker) (ws overdue : List Worker)
    → listed u (record_all ws overdue) ≡ true
    → (listed u ws || listed u overdue) ≡ true
unfolding record_all listed
record_all-only u [] overdue h = h
record_all-only u (w ∷ ws) overdue h =
    ground
      (arith, record_all-only u ws (record_overdue w overdue) h, listed-record_overdue u w overdue)

joined-keeps :
    (k : TargetKey) (d : Dispatcher) (already : List String) (workers : List Worker)
    → d.emitting k ≡ invalidating already workers
    → Inv d
    → (w : Worker) → listed w d.started ≡ true
    → d.finished w.id ≡ false
    → (listed w (alive_of d.finished workers) || listed w d.overdue) ≡ true
    → listed w (record_all (alive_of d.finished workers) d.overdue) ≡ true
joined-keeps k d already workers runs i w h live =
    record_all-keeps w (alive_of d.finished workers) d.overdue (λ v hv same.
      i.single v w (ground (arith, hv, runs, listed-keep_if d.finished v workers, i.running k v)) h
        (ground (arith, hv, listed-keep_if d.finished v workers)) live same)

-- A live worker whose emission has joined is overdue.
joined-visible :
    (k : TargetKey) (d : Dispatcher) (already : List String) (workers : List Worker)
    → d.emitting k ≡ invalidating already workers
    → Inv d
    → (w : Worker) (same : Dec (k ≡ w.key)) → listed w d.started ≡ true
    → d.finished w.id ≡ false
    → (listed w (record_all (alive_of d.finished workers) d.overdue)
        || listed w (workers_of (ite same dropping (d.emitting w.key))))
      ≡ true
unfolding listed
joined-visible k d already workers runs i w (yes e) h live = ground (
  arith,
  e,
  runs,
  live,
  i.visible w h live,
  joined-keeps k d already workers runs i w h live,
  listed-keep_if d.finished w workers,
)
joined-visible k d already workers runs i w (no e) h live =
    ground (arith, i.visible w h live, joined-keeps k d already workers runs i w h live)

pub Inv-join :
    (k : TargetKey) (d : Dispatcher) (already : List String) (workers : List Worker)
    → d.emitting k ≡ invalidating already workers
    → Inv d
    → Inv (join_emission k workers d)
unfolding listed
Inv-join k d already workers runs i = record {
  numbered = i.numbered;
  single = i.single;
  visible =
      λ w h live. joined-visible k d already workers runs i w (TargetKey-discrete k w.key) h live;
  known = λ w h. ground (
    arith,
    record_all-only w (alive_of d.finished workers) d.overdue h,
    listed-keep_if d.finished w workers,
    runs,
    i.known w,
    i.running k w,
  );
  running = λ j w h. ground (arith, h, i.running j w);
  distinct = i.distinct;
}
