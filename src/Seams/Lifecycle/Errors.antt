-- ===== src/Seams/Lifecycle/Errors.antt =====
-- The loops of an emission, entry by entry (src/kdive/seams/lifecycle.py).
use linux_debug_mcp.Base.{
  ℕ, ◌≡◌, refl, ap, ◌∙◌, String, Bool, true, false, ◌&&◌, ◌||◌, Option, none, some, List, [], ◌∷◌,
  elem, elem-append, String-discrete, keep_if, holds, if◌then◌else◌, arith, set_item, find_item,
  find_item-set_item, has_key,
}
use linux_debug_mcp.Seams.Lifecycle.Emission.{
  Message, exceeded, both_exceeded, raised, drop_raised, Drop, drops, hangs, drop_fails, Outcomes,
  set_all, collect_errors, drop_one, drop_all, force_drop_newly_overdue, names_of,
}
use linux_debug_mcp.Seams.Lifecycle.Slots.{Names}

pub find_item-set_all :
    (name : String) (message : Message) (names : List String) (errors : List (String × Message))
    → find_item name (set_all message names errors)
      ≡ (if elem String-discrete name names then some message else find_item name errors)
unfolding set_all elem
find_item-set_all name message [] errors = refl
find_item-set_all name message (n ∷ names) errors = ground (
  arith,
  find_item-set_all name message names (set_item n message errors),
  find_item-set_item name n message errors,
)

-- The error of a worker that ended.
abbrev pub own_error : Outcomes → String → Option Message
own_error o name =
    if o.alive name then none else elim (o.raises name) [ none ↦ none | some e ↦ some (raised e) ]

abbrev pub or_else : Option Message → Option Message → Option Message
or_else none later = later
or_else (some m) later = some m

pub or_else-same : (m later : Option Message) → or_else m (or_else m later) ≡ or_else m later
or_else-same none later = refl
or_else-same (some m) later = refl

-- What one round and the later rounds do to the entry of a name, where it stands once or more.
pub again :
    (f : String → Option Message → Option Message) (name n : String)
    → ((m : Option Message) → f name (f name m) ≡ f name m)
    → (same : Dec (n ≡ name)) (later : Bool) (m : Option Message)
    → (if later then f name (if holds same then f n m else m) else if holds same then f n m else m)
      ≡ (if holds same || later then f name m else m)
again f name n once (yes e) true m = ap (λ k. f name (f k m)) e ∙ once m
again f name n once (yes e) false m = ap (λ k. f k m) e
again f name n once (no e) true m = refl
again f name n once (no e) false m = refl

pub collect_one :
    (o : Outcomes) (name n : String) (errors : List (String × Message)) (a : Bool)
    (r : Option String)
    → find_item name
        (if a then errors else elim r [ none ↦ errors | some e ↦ set_item n (raised e) errors ])
      ≡ (if holds (String-discrete n name)
          then or_else
              (if a then none else elim r [ none ↦ none | some e ↦ some (raised e) ])
              (find_item name errors)
          else find_item name errors)
collect_one o name n errors true r = ground arith
collect_one o name n errors false none = ground arith
collect_one o name n errors false (some e) =
    ground (arith, find_item-set_item name n (raised e) errors)

pub find_item-collect_errors :
    (o : Outcomes) (name : String) (names : List String) (errors : List (String × Message))
    → find_item name (collect_errors o names errors) ≡ (
        if elem String-discrete name names
        then or_else (own_error o name) (find_item name errors)
        else find_item name errors)
unfolding collect_errors elem
find_item-collect_errors o name [] errors = refl
find_item-collect_errors o name (n ∷ names) errors =
    rw
      (
        find_item-collect_errors o name names _,
        collect_one o name n errors (o.alive n) (o.raises n),
      )
      (again (λ m. or_else (own_error o m)) name n (or_else-same (own_error o name))
        (String-discrete n name) (elem String-discrete name names) (find_item name errors))

-- The error that stays for a name after its drop: the message of the drop, or what stood there.
abbrev pub after_drop : Drop → Option Message → Option Message
after_drop drops m = m
after_drop hangs m = some both_exceeded
after_drop (drop_fails e) m = some (drop_raised e)

abbrev pub is_dropped : Drop → Bool
is_dropped drops = true
is_dropped _ = false

pub find_item-drop_one :
    (name n : String) (d : Drop) (state : List (String × Message) × List String)
    → find_item name (drop_one n d state).0 ≡ (
        if holds (String-discrete n name)
        then after_drop d (find_item name state.0)
        else find_item name state.0)
find_item-drop_one name n drops (errors, dropped) = ground arith
find_item-drop_one name n hangs (errors, dropped) = find_item-set_item name n both_exceeded errors
find_item-drop_one name n (drop_fails e) (errors, dropped) =
    find_item-set_item name n (drop_raised e) errors

pub after_drop-same :
    (d : Drop) (m : Option Message) → after_drop d (after_drop d m) ≡ after_drop d m
after_drop-same drops m = refl
after_drop-same hangs m = refl
after_drop-same (drop_fails e) m = refl

pub find_item-drop_all :
    (o : Outcomes) (name : String) (names : List String)
    (state : List (String × Message) × List String)
    → find_item name (drop_all o names state).0 ≡ (
        if elem String-discrete name names
        then after_drop (o.drop name) (find_item name state.0)
        else find_item name state.0)
unfolding drop_all elem
find_item-drop_all o name [] state = refl
find_item-drop_all o name (n ∷ names) state =
    rw
      (
        find_item-drop_all o name names (drop_one n (o.drop n) state),
        find_item-drop_one name n (o.drop n) state,
      )
      (again (λ m. after_drop (o.drop m)) name n (after_drop-same (o.drop name))
        (String-discrete n name) (elem String-discrete name names) (find_item name state.0))

pub elem-drop_one :
    (name n : String) (d : Drop) (state : List (String × Message) × List String)
    → elem String-discrete name (drop_one n d state).1
      ≡ ((holds (String-discrete n name) && is_dropped d) || elem String-discrete name state.1)
unfolding elem
elem-drop_one name n drops (errors, dropped) =
    ground (arith, elem-append String-discrete name dropped (n ∷ []))
elem-drop_one name n hangs (errors, dropped) = ground arith
elem-drop_one name n (drop_fails e) (errors, dropped) = ground arith

pub elem-drop_all :
    (o : Outcomes) (name : String) (names : List String)
    (state : List (String × Message) × List String)
    → elem String-discrete name (drop_all o names state).1 ≡ (
        (elem String-discrete name names && is_dropped (o.drop name))
        || elem String-discrete name state.1)
unfolding drop_all elem
elem-drop_all o name [] state = ground arith
elem-drop_all o name (n ∷ names) state = ground (
  arith,
  elem-drop_all o name names (drop_one n (o.drop n) state),
  elem-drop_one name n (o.drop n) state,
)

pub elem-alive :
    (alive : String → Bool) (name : String) (names : List String)
    → elem String-discrete name (keep_if alive names)
      ≡ (alive name && elem String-discrete name names)
unfolding elem keep_if
elem-alive alive name [] = ground arith
elem-alive alive name (n ∷ names) = ground (arith, elem-alive alive name names)

-- A name of the dict that passes a test on its item.
abbrev pub passes : (String → ℕ → Bool) → String → Option ℕ → Bool
passes test name none = false
passes test name (some subscriber) = test name subscriber

pub absent-names :
    (test : String → ℕ → Bool) (name : String) (subs : List (String × ℕ))
    → has_key name subs ≡ false
    → (elem String-discrete name (names_of (keep_if (λ (n, s). test n s) subs)) ≡ false)
      × (find_item name subs ≡ none)
unfolding has_key find_item keep_if elem
absent-names test name [] h = (refl, refl)
absent-names test name ((n, s) ∷ rest) h = ground (arith, h, absent-names test name rest)

pub elem-names_of :
    (test : String → ℕ → Bool) (name : String) (subs : List (String × ℕ))
    → Names subs
    → elem String-discrete name (names_of (keep_if (λ (n, s). test n s) subs))
      ≡ passes test name (find_item name subs)
unfolding find_item keep_if elem
elem-names_of test name [] names = refl
elem-names_of test name ((n, s) ∷ rest) names = ground (
  arith,
  names,
  elem-names_of test name rest,
  absent-names test n rest,
  absent-names test name rest,
)

pub force_drop_newly_overdue_lem :
    (o : Outcomes) (names : List String) (errors : List (String × Message))
    → force_drop_newly_overdue o names errors ≡ drop_all o names (set_all exceeded names errors, [])
unfolding force_drop_newly_overdue drop_all set_all
force_drop_newly_overdue_lem o [] errors = refl
force_drop_newly_overdue_lem o (n ∷ names) errors = refl
