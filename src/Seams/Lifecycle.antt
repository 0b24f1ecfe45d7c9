-- ===== src/Seams/Lifecycle.antt =====
-- The lifecycle dispatcher (src/kdive/seams/lifecycle.py): subscriptions per target, and the two
-- bounded phases of an emission, whose `invalidate` workers outlive it where they hang. Each method
-- is cut into its critical sections; what runs between them is another action.
pub mod Slots
pub mod Invariant
pub mod Starts
pub mod Joins
pub mod Flights
pub mod Emission
pub mod Errors
pub mod Results
mod Tests
use linux_debug_mcp.Base.{
  ℕ, zero, suc, ◌+◌, String, String-discrete, ℕ_discrete, Bool, true, false, not, ◌&&◌, ◌||◌,
  Option, none, some, List, [], ◌∷◌, ◌++◌, map, length, elem, keep_if, holds, if◌then◌else◌, ltb,
  update, set_item, pop_item, get_item,
}
use linux_debug_mcp.Seams.Target.{TargetKey, TargetKey-discrete}

-- A thread that runs a subscriber's `invalidate`. `instance_id` is the subscriber's `id()`.
pub record Worker : Type 0 where
  pub key : TargetKey
  pub name : String
  pub instance_id : ℕ
  pub id : ℕ

-- The key of `_overdue` is the same.
abbrev pub same_slot : Worker → Worker → Bool
same_slot v w =
    holds (TargetKey-discrete v.key w.key)
    && holds (String-discrete v.name w.name)
    && holds (ℕ_discrete v.instance_id w.instance_id)

-- Where an emission of a target stands, whose lock it holds: its workers run, or it drops what
-- the hanging ones own.
pub data Phase : Type 0 where
  idle : Phase
  invalidating : List String → List Worker → Phase
  dropping : Phase

-- The dispatcher, and the threads that run an `invalidate`: those it started, and which have ended.
-- The threads that the second phase of `emit` starts for `force_drop` are not among them: `emit`
-- waits for them, and keeps no account of one that overruns.
pub record Dispatcher : Type 0 where
  pub subscribers : TargetKey → List (String × ℕ)
  pub overdue : List Worker
  pub emitting : TargetKey → Phase
  pub started : List Worker
  pub finished : ℕ → Bool
  pub next_id : ℕ

abbrev pub new_dispatcher : Dispatcher
new_dispatcher = record {
  subscribers = λ k. [];
  overdue = [];
  emitting = λ k. idle;
  started = [];
  finished = λ id. false;
  next_id = 0;
}

unfoldable pub subscribe : TargetKey → String → ℕ → Dispatcher → Dispatcher
subscribe k name subscriber d = record d {
  subscribers =
      update TargetKey-discrete d.subscribers k (set_item name subscriber (d.subscribers k));
}

unfoldable pub unsubscribe : TargetKey → String → Dispatcher → Dispatcher
unsubscribe k name d = record d {
  subscribers = update TargetKey-discrete d.subscribers k (pop_item name (d.subscribers k));
}

abbrev pub prune_overdue : Dispatcher → Dispatcher
prune_overdue d = record d { overdue = keep_if (λ w. not (d.finished w.id)) d.overdue }

-- Both ways to read what is overdue prune it first.
abbrev pub overdue_subscribers : Dispatcher → Dispatcher × List (TargetKey × String × ℕ)
overdue_subscribers d =
    let d' = prune_overdue d in (d', map (λ w. (w.key, w.name, w.instance_id)) d'.overdue)

abbrev pub outstanding_overdue : Dispatcher → Dispatcher × ℕ
outstanding_overdue d = let d' = prune_overdue d in (d', length d'.overdue)

-- `(target_key, name, id(sub)) in self._overdue`.
unfoldable pub is_overdue : List Worker → TargetKey → String → ℕ → Bool
is_overdue [] k name subscriber = false
is_overdue (w ∷ ws) k name subscriber =
    (holds (TargetKey-discrete w.key k)
      && holds (String-discrete w.name name)
      && holds (ℕ_discrete w.instance_id subscriber))
    || is_overdue ws k name subscriber

-- `_split_runnable_subscribers_locked`, after its pruning.
abbrev pub runnable_of : Dispatcher → TargetKey → List (String × ℕ)
runnable_of d k =
    keep_if (λ (name, subscriber). not (is_overdue d.overdue k name subscriber)) (d.subscribers k)

abbrev pub already_overdue_of : Dispatcher → TargetKey → List String
already_overdue_of d k =
    map (λ (name, subscriber). name)
      (keep_if (λ (name, subscriber). is_overdue d.overdue k name subscriber) (d.subscribers k))

-- The workers that `_run_bounded` starts.
unfoldable pub start_all : TargetKey → ℕ → List (String × ℕ) → List Worker
start_all k id [] = []
start_all k id ((name, subscriber) ∷ rest) =
    record { key = k; name = name; instance_id = subscriber; id = id } ∷ start_all k (suc id) rest

-- The first section of `emit`, and the start of its workers.
abbrev pub start_emission : TargetKey → Dispatcher → Dispatcher
start_emission k d =
    let pruned = prune_overdue d in
    let workers = start_all k d.next_id (runnable_of pruned k) in
    record pruned {
      emitting =
          update TargetKey-discrete d.emitting k
            (invalidating (already_overdue_of pruned k) workers);
      started = workers ++ d.started;
      next_id = d.next_id + length workers;
    }

-- An emission waits while another holds the target's lock.
unfoldable pub begin_emit : TargetKey → Dispatcher → Dispatcher
begin_emit k d = elim (d.emitting k) [ idle ↦ start_emission k d | _ ↦ d ]

-- `self._overdue[(target_key, name, id(sub))] = worker`.
unfoldable pub record_overdue : Worker → List Worker → List Worker
record_overdue w [] = w ∷ []
record_overdue w (v ∷ vs) = if same_slot v w then w ∷ vs else v ∷ record_overdue w vs

unfoldable pub record_all : List Worker → List Worker → List Worker
record_all [] overdue = overdue
record_all (w ∷ ws) overdue = record_all ws (record_overdue w overdue)

-- Names whose worker is alive when the joins are over, and the section that records them.
abbrev pub alive_of : (ℕ → Bool) → List Worker → List Worker
alive_of finished workers = keep_if (λ w. not (finished w.id)) workers

abbrev pub join_emission : TargetKey → List Worker → Dispatcher → Dispatcher
join_emission k workers d = record d {
  overdue = record_all (alive_of d.finished workers) d.overdue;
  emitting = update TargetKey-discrete d.emitting k dropping;
}

unfoldable pub join_emit : TargetKey → Dispatcher → Dispatcher
join_emit k d = elim (d.emitting k) [
  | invalidating already workers ↦ join_emission k workers d
  | _ ↦ d
]

-- The second phase is over, and the lock is free.
unfoldable pub end_emit : TargetKey → Dispatcher → Dispatcher
end_emit k d = elim (d.emitting k) [
  | dropping ↦ record d { emitting = update TargetKey-discrete d.emitting k idle }
  | _ ↦ d
]

-- The `invalidate` of a worker that was started returns or raises.
unfoldable pub finish : ℕ → Dispatcher → Dispatcher
finish id d =
    if ltb id d.next_id then record d { finished = update ℕ_discrete d.finished id true } else d

pub data Action : Type 0 where
  subscribing : TargetKey → String → ℕ → Action
  unsubscribing : TargetKey → String → Action
  asking : Action
  beginning joining ending : TargetKey → Action
  finishing : ℕ → Action

unfoldable pub act : Action → Dispatcher → Dispatcher
act (subscribing k name subscriber) d = subscribe k name subscriber d
act (unsubscribing k name) d = unsubscribe k name d
act asking d = prune_overdue d
act (beginning k) d = begin_emit k d
act (joining k) d = join_emit k d
act (ending k) d = end_emit k d
act (finishing id) d = finish id d

unfoldable pub run : List Action → Dispatcher → Dispatcher
run [] d = d
run (a ∷ later) d = run later (act a d)
