-- ===== src/Seams/Lifecycle/Invariant.antt =====
-- The invariant of the dispatcher (src/kdive/seams/lifecycle.py), and the actions but the start and the
-- joins of an emission.
use linux_debug_mcp.Base.{
  ℕ, ◌≡◌, ◌<◌, inl, inr, true, false, Bool-cases, ◌||◌, ltb, update, arith, String,
}
use linux_debug_mcp.Seams.Target.{TargetKey, TargetKey-discrete}
use linux_debug_mcp.Seams.Lifecycle.{
  Worker, same_slot, idle, dropping, Dispatcher, new_dispatcher, subscribe, unsubscribe,
  prune_overdue, finish,
}
use linux_debug_mcp.Seams.Lifecycle.Slots.{
  listed, workers_of, listed-keep_if, Names, Names-set_item, Names-pop_item,
}

-- What every reachable dispatcher satisfies.
pub record Inv (d : Dispatcher) : Type 0 where
  pub numbered : (w : Worker) → listed w d.started ≡ true → w.id < d.next_id
  pub single :
      (v w : Worker)
      → listed v d.started ≡ true
      → listed w d.started ≡ true
      → d.finished v.id ≡ false
      → d.finished w.id ≡ false
      → same_slot v w ≡ true
      → v.id ≡ w.id
  pub visible :
      (w : Worker)
      → listed w d.started ≡ true
      → d.finished w.id ≡ false
      → (listed w d.overdue || listed w (workers_of (d.emitting w.key))) ≡ true
  pub known : (w : Worker) → listed w d.overdue ≡ true → listed w d.started ≡ true
  pub running :
      (k : TargetKey) (w : Worker)
      → listed w (workers_of (d.emitting k)) ≡ true
      → (listed w d.started ≡ true) × (k ≡ w.key)
  pub distinct : (k : TargetKey) → Names (d.subscribers k)

pub Inv-new_dispatcher : Inv new_dispatcher
unfolding listed
Inv-new_dispatcher = record {
  numbered = λ w h. cc;
  single = λ v w h. cc;
  visible = λ w h. cc;
  known = λ w h. cc;
  running = λ k w h. cc;
  distinct = λ k. tt;
}

pub Inv-prune : (d : Dispatcher) → Inv d → Inv (prune_overdue d)
Inv-prune d i = record {
  numbered = i.numbered;
  single = i.single;
  visible = λ w h live. ground (arith, h, live, i.visible w, listed-keep_if d.finished w d.overdue);
  known = λ w h. ground (arith, h, i.known w, listed-keep_if d.finished w d.overdue);
  running = i.running;
  distinct = i.distinct;
}

pub Inv-subscribe :
    (k : TargetKey) (name : String) (subscriber : ℕ) (d : Dispatcher)
    → Inv d
    → Inv (subscribe k name subscriber d)
unfolding subscribe
Inv-subscribe k name subscriber d i = record {
  numbered = i.numbered;
  single = i.single;
  visible = i.visible;
  known = i.known;
  running = i.running;
  distinct = λ j.
      ground (arith, i.distinct j, Names-set_item name subscriber (d.subscribers k) (i.distinct k));
}

pub Inv-unsubscribe :
    (k : TargetKey) (name : String) (d : Dispatcher) → Inv d → Inv (unsubscribe k name d)
unfolding unsubscribe
Inv-unsubscribe k name d i = record {
  numbered = i.numbered;
  single = i.single;
  visible = i.visible;
  known = i.known;
  running = i.running;
  distinct =
      λ j. ground (arith, i.distinct j, Names-pop_item name (d.subscribers k) (i.distinct k));
}

pub Inv-finish : (id : ℕ) (d : Dispatcher) → Inv d → Inv (finish id d)
unfolding finish
Inv-finish id d i = elim (Bool-cases (ltb id d.next_id)) [
  | inr future ↦ rw future i
  | inl past ↦ rw past (record {
    numbered = i.numbered;
    single = λ v w hv hw live_v live_w same.
        i.single v w hv hw (ground (arith, live_v)) (ground (arith, live_w)) same;
    visible = λ w h live. i.visible w h (ground (arith, live));
    known = i.known;
    running = i.running;
    distinct = i.distinct;
  })
]

pub Inv-end :
    (k : TargetKey) (d : Dispatcher)
    → d.emitting k ≡ dropping
    → Inv d
    → Inv (record d { emitting = update TargetKey-discrete d.emitting k idle })
unfolding listed
Inv-end k d drops i = record {
  numbered = i.numbered;
  single = i.single;
  visible = λ w h live. ground (arith, h, live, drops, i.visible w);
  known = i.known;
  running = λ j w h. ground (arith, h, i.running j w);
  distinct = i.distinct;
}
