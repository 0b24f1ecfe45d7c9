-- ===== src/Seams/Lifecycle/Results.antt =====
-- The result of an emission, name by name (src/kdive/seams/lifecycle.py).
use linux_debug_mcp.Base.{
  ℕ, ◌≡◌, refl, ap, ◌∙◌, String, Bool, true, false, not, ◌&&◌, ◌||◌, Option, none, some, List, [],
  ◌++◌, elem, elem-append, String-discrete, keep_if, if◌then◌else◌, arith, find_item,
}
use linux_debug_mcp.Seams.Lifecycle.Emission.{
  Message, still_overdue, exceeded, both_exceeded, raised, drop_raised, Drop, drops, hangs,
  drop_fails, Outcomes, InvalidationResult, set_all, collect_errors, force_drop_newly_overdue,
  names_of, emit,
}
use linux_debug_mcp.Seams.Lifecycle.Slots.{Names}
use linux_debug_mcp.Seams.Lifecycle.Errors.{
  find_item-set_all, own_error, or_else, find_item-collect_errors, after_drop, is_dropped,
  find_item-drop_all, elem-drop_all, elem-alive, passes, elem-names_of,
  force_drop_newly_overdue_lem,
}

-- The entry of a name in the result: its error, whether it is overdue, whether it was dropped.
pub record Entry : Type 0 where
  pub error : Option Message
  pub is_overdue : Bool
  pub is_forced : Bool

abbrev pub entry_of : String → InvalidationResult → Entry
entry_of name r = record {
  error = find_item name r.errors;
  is_overdue = elem String-discrete name r.overdue;
  is_forced = elem String-discrete name r.force_dropped;
}

-- What the result is to say of a subscriber: it was overdue before, or it ended, or it hangs.
abbrev pub ended_entry : Option String → Entry
ended_entry none = record { error = none; is_overdue = false; is_forced = false }
ended_entry (some e) = record { error = some (raised e); is_overdue = false; is_forced = false }

abbrev pub hanging_entry : Drop → Entry
hanging_entry drops = record { error = some exceeded; is_overdue = true; is_forced = true }
hanging_entry hangs = record { error = some both_exceeded; is_overdue = true; is_forced = false }
hanging_entry (drop_fails e) = record {
  error = some (drop_raised e);
  is_overdue = true;
  is_forced = false;
}

abbrev pub expected_entry : Bool → Bool → Option String → Drop → Entry
expected_entry true alive raises d = record {
  error = some still_overdue;
  is_overdue = true;
  is_forced = false;
}
expected_entry false true raises d = hanging_entry d
expected_entry false false raises d = ended_entry raises

-- What it says of any name: nothing of one that does not subscribe.
abbrev pub expected_of : (String → ℕ → Bool) → Outcomes → String → Option ℕ → Entry
expected_of is_overdue o name none = record { error = none; is_overdue = false; is_forced = false }
expected_of is_overdue o name (some subscriber) =
    expected_entry (is_overdue name subscriber) (o.alive name) (o.raises name) (o.drop name)

-- The three fields by what is known of the name's membership in the lists of the emission.
abbrev computed_entry :
    (already runnable alive : Bool) (raises : Option String) (drop : Drop) → Entry
computed_entry already runnable alive raises drop =
    let stood = if already then some still_overdue else none in
    let own = if alive then none else elim raises [ none ↦ none | some e ↦ some (raised e) ] in
    let collected = if runnable then or_else own stood else stood in
    record {
      error =
          if alive && runnable
          then after_drop drop (if alive && runnable then some exceeded else collected)
          else if alive && runnable
          then some exceeded
          else collected;
      is_overdue = already || (alive && runnable);
      is_forced = (alive && runnable) && is_dropped drop;
    }

module _ (o : Outcomes) (name : String) (already runnable : List String) where
  abbrev collected : List (String × Message)
  collected = collect_errors o runnable (set_all still_overdue already [])

  find_item-collected : find_item name collected ≡ (
      if elem String-discrete name runnable
      then or_else
          (own_error o name)
          (if elem String-discrete name already then some still_overdue else none)
      else if elem String-discrete name already
      then some still_overdue
      else none)
  unfolding find_item
  find_item-collected =
      rw
        (
          find_item-collect_errors o name runnable (set_all still_overdue already []),
          find_item-set_all name still_overdue already [],
        )
        refl

  find_item-forced :
      find_item name (force_drop_newly_overdue o (keep_if o.alive runnable) collected).0 ≡ (
        if o.alive name && elem String-discrete name runnable
        then after_drop (o.drop name) (
            if o.alive name && elem String-discrete name runnable
            then some exceeded
            else find_item name collected)
        else if o.alive name && elem String-discrete name runnable
        then some exceeded
        else find_item name collected)
  find_item-forced =
      rw
        (
          force_drop_newly_overdue_lem o (keep_if o.alive runnable) collected,
          find_item-drop_all o name (keep_if o.alive runnable)
              (set_all exceeded (keep_if o.alive runnable) collected, []),
          find_item-set_all name exceeded (keep_if o.alive runnable) collected,
          elem-alive o.alive name runnable,
        )
        refl

  elem-forced :
      elem String-discrete name (force_drop_newly_overdue o (keep_if o.alive runnable) collected).1
      ≡ ((o.alive name && elem String-discrete name runnable) && is_dropped (o.drop name))
  unfolding elem
  elem-forced =
      rw
        (
          force_drop_newly_overdue_lem o (keep_if o.alive runnable) collected,
          elem-drop_all o name (keep_if o.alive runnable)
              (set_all exceeded (keep_if o.alive runnable) collected, []),
          elem-alive o.alive name runnable,
        )
        (ground arith)

  elem-overdue :
      elem String-discrete name (already ++ keep_if o.alive runnable)
      ≡ (elem String-discrete name already || (o.alive name && elem String-discrete name runnable))
  elem-overdue =
      rw
        (
          elem-append String-discrete name already (keep_if o.alive runnable),
          elem-alive o.alive name runnable,
        )
        refl

-- The membership of a subscriber in the lists of the emission decides its entry.
computed_entry_lem :
    (busy : Bool) (alive : Bool) (raises : Option String) (d : Drop)
    → computed_entry busy (not busy) alive raises d ≡ expected_entry busy alive raises d
computed_entry_lem true true raises d = refl
computed_entry_lem true false raises d = refl
computed_entry_lem false true raises drops = refl
computed_entry_lem false true raises hangs = refl
computed_entry_lem false true raises (drop_fails e) = refl
computed_entry_lem false false none d = refl
computed_entry_lem false false (some e) d = refl

abbrev entry : Option Message → Bool → Bool → Entry
entry e o f = record { error = e; is_overdue = o; is_forced = f }

Entry-ext :
    {e e' : Option Message} {o o' f f' : Bool}
    → e ≡ e'
    → o ≡ o'
    → f ≡ f'
    → entry e o f ≡ entry e' o' f'
Entry-ext p q r = cc

entry-emit :
    (is_overdue : String → ℕ → Bool) (targeted : List (String × ℕ)) (o : Outcomes) (name : String)
    → entry_of name (emit is_overdue targeted o)
      ≡ computed_entry
          (elem String-discrete name (names_of (keep_if (λ (n, s). is_overdue n s) targeted)))
          (elem String-discrete name (names_of (keep_if (λ (n, s). not (is_overdue n s)) targeted)))
          (o.alive name)
          (o.raises name)
          (o.drop name)
unfolding emit
entry-emit is_overdue targeted o name =
    let already = names_of (keep_if (λ (n, s). is_overdue n s) targeted) in
    let runnable = names_of (keep_if (λ (n, s). not (is_overdue n s)) targeted) in
    Entry-ext
      (find_item-forced o name already runnable
        ∙ ap
            (λ m.
              if o.alive name && elem String-discrete name runnable
              then after_drop (o.drop name)
                  (if o.alive name && elem String-discrete name runnable then some exceeded else m)
              else if o.alive name && elem String-discrete name runnable
              then some exceeded
              else m)
            (find_item-collected o name already runnable))
      (elem-overdue o name already runnable) (elem-forced o name already runnable)

nothing_entry :
    (alive : Bool) (raises : Option String) (d : Drop)
    → computed_entry false false alive raises d ≡ entry none false false
nothing_entry true raises d = refl
nothing_entry false raises d = refl

expected_lem :
    (is_overdue : String → ℕ → Bool) (o : Outcomes) (name : String) (found : Option ℕ)
    → computed_entry
        (passes is_overdue name found)
        (passes (λ n s. not (is_overdue n s)) name found)
        (o.alive name)
        (o.raises name)
        (o.drop name)
      ≡ expected_of is_overdue o name found
expected_lem is_overdue o name none = nothing_entry (o.alive name) (o.raises name) (o.drop name)
expected_lem is_overdue o name (some subscriber) =
    computed_entry_lem (is_overdue name subscriber) (o.alive name) (o.raises name) (o.drop name)

-- The result of an emission says of each name exactly what happened to its subscriber, and nothing
-- of any other name: one that was overdue before is overdue still and was not run again; one whose
-- `invalidate` ended has the error that it raised, if any; one that hangs is overdue, and dropped by
-- force unless its `force_drop` raised or hangs as well, which its error tells.
pub emit-accounts :
    (is_overdue : String → ℕ → Bool) (targeted : List (String × ℕ)) (o : Outcomes) (name : String)
    → Names targeted
    → entry_of name (emit is_overdue targeted o)
      ≡ expected_of is_overdue o name (find_item name targeted)
emit-accounts is_overdue targeted o name names =
    rw
      (
        entry-emit is_overdue targeted o name,
        elem-names_of is_overdue name targeted names,
        elem-names_of (λ n s. not (is_overdue n s)) name targeted names,
      )
      (expected_lem is_overdue o name (find_item name targeted))
