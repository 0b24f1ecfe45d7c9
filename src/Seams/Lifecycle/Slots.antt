-- ===== src/Seams/Lifecycle/Slots.antt =====
-- Lists of workers, and the workers that an emission starts (src/kdive/seams/lifecycle.py).
use linux_debug_mcp.Base.{
  ℕ, suc, ◌+◌, ◌≡◌, ◌≤◌, ◌<◌, refl, Bool, true, false, not, ◌&&◌, ◌||◌, List, [], ◌∷◌, ◌++◌, length,
  keep_if, holds, arith, String, ℕ_discrete, set_item, pop_item, has_key, has_key-set_item,
  has_key-pop_item,
}
use linux_debug_mcp.Seams.Target.{TargetKey}
use linux_debug_mcp.Seams.Lifecycle.{
  Worker, same_slot, Phase, invalidating, is_overdue, start_all, record_overdue, alive_of,
}

-- The same worker.
abbrev pub is_worker : Worker → Worker → Bool
is_worker v w = same_slot v w && holds (ℕ_discrete v.id w.id)

unfoldable pub listed : Worker → List Worker → Bool
listed w [] = false
listed w (v ∷ vs) = is_worker v w || listed w vs

abbrev pub workers_of : Phase → List Worker
workers_of (invalidating already workers) = workers
workers_of _ = []

pub listed-append :
    (w : Worker) (vs us : List Worker) → listed w (vs ++ us) ≡ (listed w vs || listed w us)
unfolding listed
listed-append w [] us = refl
listed-append w (v ∷ vs) us = ground (arith, listed-append w vs us)

-- A test on the number of a worker.
pub listed-keep_if :
    (finished : ℕ → Bool) (w : Worker) (vs : List Worker)
    → listed w (alive_of finished vs) ≡ (not (finished w.id) && listed w vs)
unfolding listed keep_if
listed-keep_if finished w [] = ground arith
listed-keep_if finished w (v ∷ vs) = ground (arith, listed-keep_if finished w vs)

-- What is recorded stands there, with what stood in other slots.
pub listed-record_overdue :
    (u w : Worker) (vs : List Worker)
    → listed u (record_overdue w vs) ≡ true
    → (is_worker w u || listed u vs) ≡ true
unfolding listed record_overdue
listed-record_overdue u w [] h = ground (arith, h)
listed-record_overdue u w (v ∷ vs) h = ground (arith, h, listed-record_overdue u w vs)

pub recorded-listed :
    (u w : Worker) (vs : List Worker) → is_worker w u ≡ true → listed u (record_overdue w vs) ≡ true
unfolding listed record_overdue
recorded-listed u w [] h = ground (arith, h)
recorded-listed u w (v ∷ vs) h = ground (arith, h, recorded-listed u w vs)

pub listed-first : (w : Worker) (vs : List Worker) → listed w (w ∷ vs) ≡ true
unfolding listed
listed-first w vs = ground arith

pub others-listed :
    (u w : Worker) (vs : List Worker)
    → same_slot w u ≡ false
    → listed u vs ≡ true
    → listed u (record_overdue w vs) ≡ true
unfolding listed record_overdue
others-listed u w [] other h = ground (arith, h)
others-listed u w (v ∷ vs) other h = ground (arith, h, other, others-listed u w vs)

-- The names of a dict stand once.
abbrev pub Names : List (String × ℕ) → Type 0
Names [] = Unit
Names ((name, subscriber) ∷ rest) = (has_key name rest ≡ false) × Names rest

pub Names-set_item :
    (name : String) (subscriber : ℕ) (subs : List (String × ℕ))
    → Names subs
    → Names (set_item name subscriber subs)
unfolding set_item has_key
Names-set_item name subscriber [] h = (refl, tt)
Names-set_item name subscriber ((n, s) ∷ rest) h =
    ground (arith, h, Names-set_item name subscriber rest, has_key-set_item n name subscriber rest)

pub Names-pop_item :
    (name : String) (subs : List (String × ℕ)) → Names subs → Names (pop_item name subs)
unfolding pop_item
Names-pop_item name [] h = tt
Names-pop_item name ((n, s) ∷ rest) h =
    ground (arith, h, Names-pop_item name rest, has_key-pop_item n name rest)

pub has_key-keep_if :
    (name : String) (test : String × ℕ → Bool) (subs : List (String × ℕ))
    → has_key name subs ≡ false
    → has_key name (keep_if test subs) ≡ false
unfolding has_key keep_if
has_key-keep_if name test [] h = refl
has_key-keep_if name test ((n, s) ∷ rest) h = ground (arith, h, has_key-keep_if name test rest)

pub Names-keep_if :
    (test : String × ℕ → Bool) (subs : List (String × ℕ)) → Names subs → Names (keep_if test subs)
unfolding keep_if
Names-keep_if test [] h = tt
Names-keep_if test ((n, s) ∷ rest) h =
    ground (arith, h, Names-keep_if test rest, has_key-keep_if n test rest)

-- The workers of an emission: numbered from the first free number, for the target, one per name.
pub started-numbered :
    (w : Worker) (k : TargetKey) (id : ℕ) (subs : List (String × ℕ))
    → listed w (start_all k id subs) ≡ true
    → (id ≤ w.id) × (w.id < id + length (start_all k id subs))
unfolding listed start_all
started-numbered w k id [] h = cc
started-numbered w k id ((n, s) ∷ rest) h = ground (arith, h, started-numbered w k (suc id) rest)

pub started-key :
    (w : Worker) (k : TargetKey) (id : ℕ) (subs : List (String × ℕ))
    → listed w (start_all k id subs) ≡ true
    → k ≡ w.key
unfolding listed start_all
started-key w k id [] h = cc
started-key w k id ((n, s) ∷ rest) h = ground (arith, h, started-key w k (suc id) rest)

pub started-name :
    (w : Worker) (k : TargetKey) (id : ℕ) (subs : List (String × ℕ))
    → listed w (start_all k id subs) ≡ true
    → has_key w.name subs ≡ true
unfolding listed start_all has_key
started-name w k id [] h = cc
started-name w k id ((n, s) ∷ rest) h = ground (arith, h, started-name w k (suc id) rest)

pub started-single :
    (v w : Worker) (k : TargetKey) (id : ℕ) (subs : List (String × ℕ))
    → Names subs
    → listed v (start_all k id subs) ≡ true
    → listed w (start_all k id subs) ≡ true
    → v.name ≡ w.name
    → v.id ≡ w.id
unfolding listed start_all
started-single v w k id [] names hv hw e = cc
started-single v w k id ((n, s) ∷ rest) names hv hw e = ground (
  arith,
  names,
  hv,
  hw,
  e,
  started-single v w k (suc id) rest,
  started-name v k (suc id) rest,
  started-name w k (suc id) rest,
)

-- Only what is not overdue is started.
pub started-runnable :
    (overdue : List Worker) (w : Worker) (k : TargetKey) (id : ℕ) (subs : List (String × ℕ))
    → listed w (
        start_all k id
          (keep_if (λ (name, subscriber). not (is_overdue overdue k name subscriber)) subs))
      ≡ true
    → is_overdue overdue k w.name w.instance_id ≡ false
unfolding listed start_all keep_if
started-runnable overdue w k id [] h = cc
started-runnable overdue w k id ((n, s) ∷ rest) h =
    ground
      (arith, h, started-runnable overdue w k id rest, started-runnable overdue w k (suc id) rest)

-- A listed worker's slot is overdue.
pub listed-is_overdue :
    (w : Worker) (overdue : List Worker)
    → listed w overdue ≡ true
    → is_overdue overdue w.key w.name w.instance_id ≡ true
unfolding listed is_overdue
listed-is_overdue w [] h = h
listed-is_overdue w (v ∷ vs) h = ground (arith, h, listed-is_overdue w vs)
