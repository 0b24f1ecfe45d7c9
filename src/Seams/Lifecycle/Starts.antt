-- ===== src/Seams/Lifecycle/Starts.antt =====
-- The dispatcher's invariant at the start of an emission (src/kdive/seams/lifecycle.py).
use linux_debug_mcp.Base.{◌≡◌, sym, ◌∙◌, ite, true, false, not, ◌||◌, List, ◌++◌, arith}
use linux_debug_mcp.Seams.Target.{TargetKey, TargetKey-discrete}
use linux_debug_mcp.Seams.Lifecycle.{
  Worker, same_slot, idle, invalidating, Dispatcher, prune_overdue, is_overdue, runnable_of,
  already_overdue_of, start_all, start_emission,
}
use linux_debug_mcp.Seams.Lifecycle.Slots.{
  listed, workers_of, listed-append, listed-keep_if, Names-keep_if, started-numbered, started-key,
  started-single, started-runnable, listed-is_overdue,
}
use linux_debug_mcp.Seams.Lifecycle.Invariant.{Inv}

-- A worker that is started for a slot in which another is live.
module _ (k : TargetKey) (d : Dispatcher) (i : Inv d) (free : d.emitting k ≡ idle) where
  abbrev pruned : Dispatcher
  pruned = prune_overdue d

  abbrev workers : List Worker
  workers = start_all k d.next_id (runnable_of pruned k)

  -- The target of a live worker that was started before has it among the overdue ones.
  earlier-overdue :
      (w : Worker)
      → listed w d.started ≡ true
      → d.finished w.id ≡ false
      → k ≡ w.key
      → is_overdue pruned.overdue k w.name w.instance_id ≡ true
  unfolding listed
  earlier-overdue w h live e = ground (
    arith,
    h,
    live,
    e,
    free,
    i.visible w,
    listed-keep_if d.finished w d.overdue,
    listed-is_overdue w pruned.overdue,
  )

  new-single :
      (v w : Worker)
      → listed v workers ≡ true
      → listed w d.started ≡ true
      → d.finished w.id ≡ false
      → same_slot v w ≡ true
      → v.id ≡ w.id
  new-single v w hv hw live same = ground (
    arith,
    same,
    started-key v k d.next_id (runnable_of pruned k) hv,
    started-runnable pruned.overdue v k d.next_id (d.subscribers k) hv,
    earlier-overdue w hw live,
  )

  -- What runs for a target afterwards: the new workers, for this one.
  running_or :
      (j : TargetKey) (w : Worker) (same : Dec (k ≡ j))
      → listed w (
          workers_of (ite same (invalidating (already_overdue_of pruned k) workers) (d.emitting j)))
        ≡ true
      → (listed w (workers ++ d.started) ≡ true) × (j ≡ w.key)
  running_or j w (yes e) h = (
    ground (arith, h, listed-append w workers d.started),
    sym e ∙ started-key w k d.next_id (runnable_of pruned k) h,
  )
  running_or j w (no e) h =
      let (before, mine) = i.running j w h in
      (ground (arith, before, listed-append w workers d.started), mine)

  visible_or :
      (w : Worker) (same : Dec (k ≡ w.key))
      → listed w (workers ++ d.started) ≡ true
      → d.finished w.id ≡ false
      → (listed w pruned.overdue
          || listed w (
              workers_of
                (ite same (invalidating (already_overdue_of pruned k) workers) (d.emitting w.key))))
        ≡ true
  unfolding listed
  visible_or w (yes e) h live = ground (
    arith,
    h,
    live,
    e,
    free,
    listed-append w workers d.started,
    i.visible w,
    listed-keep_if d.finished w d.overdue,
  )
  visible_or w (no e) h live = ground (
    arith,
    h,
    live,
    listed-append w workers d.started,
    i.visible w,
    listed-keep_if d.finished w d.overdue,
    e,
    started-key w k d.next_id (runnable_of pruned k),
  )

  pub Inv-start : Inv (start_emission k d)
  Inv-start = record {
    numbered = λ w h. ground (
      arith,
      h,
      listed-append w workers d.started,
      i.numbered w,
      started-numbered w k d.next_id (runnable_of pruned k),
    );
    single = λ v w hv hw live_v live_w same. ground (
      arith,
      hv,
      hw,
      live_v,
      live_w,
      same,
      listed-append v workers d.started,
      listed-append w workers d.started,
      new-single v w,
      new-single w v,
      i.single v w,
      started-single v w k d.next_id (runnable_of pruned k) (
          Names-keep_if (λ (name, subscriber). not (is_overdue pruned.overdue k name subscriber))
            (d.subscribers k) (i.distinct k)),
    );
    visible = λ w h live. visible_or w (TargetKey-discrete k w.key) h live;
    known = λ w h. ground (
      arith,
      h,
      listed-append w workers d.started,
      i.known w,
      listed-keep_if d.finished w d.overdue,
    );
    running = λ j w h. running_or j w (TargetKey-discrete k j) h;
    distinct = i.distinct;
  }
