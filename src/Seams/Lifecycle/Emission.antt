-- ===== src/Seams/Lifecycle/Emission.antt =====
-- What an emission returns (`emit` and `_force_drop_newly_overdue` of src/kdive/seams/lifecycle.py):
-- the errors by name, the overdue subscribers and those that were dropped by force.
use linux_debug_mcp.Base.{
  ℕ, String, Bool, not, Option, none, some, List, [], ◌∷◌, ◌++◌, map, keep_if, if◌then◌else◌,
  set_item,
}

-- The messages of the result; `raised` and `drop_raised` hold the repr of an exception.
pub data Message : Type 0 where
  still_overdue exceeded both_exceeded : Message
  raised drop_raised : String → Message

-- What a bounded run of `force_drop` comes to.
pub data Drop : Type 0 where
  drops hangs : Drop
  drop_fails : String → Drop

-- The outcome of the two bounded runs, by name: which `invalidate` workers are alive when their
-- joins are over, what the others raised, and what `force_drop` does.
pub record Outcomes : Type 0 where
  pub alive : String → Bool
  pub raises : String → Option String
  pub drop : String → Drop

pub record InvalidationResult : Type 0 where
  pub errors : List (String × Message)
  pub overdue : List String
  pub force_dropped : List String

unfoldable pub set_all : Message → List String → List (String × Message) → List (String × Message)
set_all message [] errors = errors
set_all message (name ∷ names) errors = set_all message names (set_item name message errors)

-- The errors of the workers that ended.
unfoldable pub collect_errors :
    Outcomes → List String → List (String × Message) → List (String × Message)
collect_errors o [] errors = errors
collect_errors o (name ∷ names) errors = collect_errors o names (
    if o.alive name
    then errors
    else elim (o.raises name) [ none ↦ errors | some e ↦ set_item name (raised e) errors ])

-- The last loop: the names that were dropped, and the errors of the others.
abbrev pub drop_one :
    String → Drop → List (String × Message) × List String → List (String × Message) × List String
drop_one name hangs (errors, dropped) = (set_item name both_exceeded errors, dropped)
drop_one name (drop_fails e) (errors, dropped) = (set_item name (drop_raised e) errors, dropped)
drop_one name drops (errors, dropped) = (errors, dropped ++ name ∷ [])

unfoldable pub drop_all :
    Outcomes
    → List String
    → List (String × Message) × List String
    → List (String × Message) × List String
drop_all o [] state = state
drop_all o (name ∷ names) state = drop_all o names (drop_one name (o.drop name) state)

unfoldable pub force_drop_newly_overdue :
    Outcomes → List String → List (String × Message) → List (String × Message) × List String
force_drop_newly_overdue o [] errors = (errors, [])
force_drop_newly_overdue o (name ∷ names) errors =
    drop_all o (name ∷ names) (set_all exceeded (name ∷ names) errors, [])

-- The names whose subscriber is overdue already, the others', and of those the ones that hang.
abbrev pub names_of : List (String × ℕ) → List String
names_of subs = map (λ (name, subscriber). name) subs

unfoldable pub emit : (String → ℕ → Bool) → List (String × ℕ) → Outcomes → InvalidationResult
unfolding force_drop_newly_overdue
emit is_overdue targeted o =
    let already = names_of (keep_if (λ (name, subscriber). is_overdue name subscriber) targeted) in
    let runnable =
      names_of (keep_if (λ (name, subscriber). not (is_overdue name subscriber)) targeted) in
    let alive = keep_if o.alive runnable in
    let (errors, dropped) =
      force_drop_newly_overdue o alive
        (collect_errors o runnable (set_all still_overdue already [])) in
    record { errors = errors; overdue = already ++ alive; force_dropped = dropped }
