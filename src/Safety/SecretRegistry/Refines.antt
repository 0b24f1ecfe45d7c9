-- ===== src/Safety/SecretRegistry/Refines.antt =====
-- The registry beside the list of live registrations by their key in `_by_scope`
-- (src/kdive/safety/secret_registry.py).
use linux_debug_mcp.Base.{
  ℕ, ◌+◌, ◌-◌, ◌≡◌, refl, ite, inl, inr, Bool-cases, Option, none, some, List, [], ◌∷◌, ◌++◌, map,
  elem, holds, ltb, if◌then◌else◌, arith, String, String-discrete, get_item, has_key,
  get_item-set_item, get_item-pop_item, has_key-set_item, has_key-pop_item,
}
use linux_debug_mcp.Safety.SecretRegistry.{
  SecretRegistry, new_registry, key_of, register_value, register, uncount, uncount_all,
  release_values, release, snapshot, Op, registering, releasing, step, run,
}

-- The abstract state: the registrations that are live, each a key and a value, oldest first.
abbrev pub KeyedRegistrations : Type 0
KeyedRegistrations = List (String × String)

abbrev pub keyed_register : Option String → Option String → KeyedRegistrations → KeyedRegistrations
keyed_register none scope s = s
keyed_register (some value) scope s =
    if holds (String-discrete value "") then s else s ++ (key_of scope, value) ∷ []

-- Every registration under the key goes.
unfoldable pub without_key : String → KeyedRegistrations → KeyedRegistrations
without_key key [] = []
without_key key ((k, v) ∷ s) =
    ite (String-discrete k key) (without_key key s) ((k, v) ∷ without_key key s)

abbrev pub keyed_release : Option String → KeyedRegistrations → KeyedRegistrations
keyed_release none s = s
keyed_release (some scope) s = without_key scope s

abbrev pub keyed_step : Op → KeyedRegistrations → KeyedRegistrations
keyed_step (registering value scope) s = keyed_register value scope s
keyed_step (releasing scope) s = keyed_release scope s

unfoldable pub keyed_run : List Op → KeyedRegistrations → KeyedRegistrations
keyed_run [] s = s
keyed_run (op ∷ ops) s = keyed_run ops (keyed_step op s)

-- How many live registrations a value has.
unfoldable pub keyed_live : String → KeyedRegistrations → ℕ
keyed_live value [] = 0
keyed_live value ((k, v) ∷ s) = ite (String-discrete v value) 1 0 + keyed_live value s

-- The values under a key.
unfoldable values_of : String → KeyedRegistrations → List String
values_of key [] = []
values_of key ((k, v) ∷ s) = ite (String-discrete k key) (v ∷ values_of key s) (values_of key s)

unfoldable occurs : String → List String → ℕ
occurs value [] = 0
occurs value (v ∷ vs) = ite (String-discrete v value) 1 0 + occurs value vs

keyed_live-snoc :
    (value key v : String) (s : KeyedRegistrations)
    → keyed_live value (s ++ (key, v) ∷ []) ≡ keyed_live value s + ite (String-discrete v value) 1 0
unfolding keyed_live
keyed_live-snoc value key v [] = omega arith
keyed_live-snoc value key v ((k, w) ∷ s) = omega (arith, keyed_live-snoc value key v s)

values_of-snoc :
    (key k v : String) (s : KeyedRegistrations)
    → values_of key (s ++ (k, v) ∷ [])
      ≡ ite (String-discrete k key) (values_of key s ++ v ∷ []) (values_of key s)
unfolding values_of
values_of-snoc key k v [] = ground arith
values_of-snoc key k v ((j, w) ∷ s) = ground (arith, values_of-snoc key k v s)

keyed_live-without_key :
    (value key : String) (s : KeyedRegistrations)
    → keyed_live value (without_key key s) + occurs value (values_of key s) ≡ keyed_live value s
unfolding keyed_live without_key values_of occurs
keyed_live-without_key value key [] = refl
keyed_live-without_key value key ((k, v) ∷ s) = ground (arith, keyed_live-without_key value key s)

values_of-without_key :
    (key gone : String) (s : KeyedRegistrations)
    → values_of key (without_key gone s) ≡ ite (String-discrete gone key) [] (values_of key s)
unfolding without_key values_of
values_of-without_key key gone [] = ground arith
values_of-without_key key gone ((k, v) ∷ s) = ground (arith, values_of-without_key key gone s)

get_item-uncount :
    (value gone : String) (refcount : List (String × ℕ))
    → get_item value 0 (uncount gone refcount)
      ≡ ite (String-discrete gone value) (get_item value 0 refcount - 1) (get_item value 0 refcount)
unfolding uncount
get_item-uncount value gone refcount = ground (
  arith,
  get_item-pop_item value gone 0 refcount,
  get_item-set_item value gone 0 (get_item gone 0 refcount - 1) refcount,
)

get_item-uncount_all :
    (value : String) (vs : List String) (refcount : List (String × ℕ))
    → get_item value 0 (uncount_all vs refcount) ≡ get_item value 0 refcount - occurs value vs
unfolding uncount_all occurs
get_item-uncount_all value [] refcount = omega arith
get_item-uncount_all value (v ∷ vs) refcount =
    ground
      (arith, get_item-uncount_all value vs (uncount v refcount), get_item-uncount value v refcount)

-- Just the values with a count above zero are keys.
abbrev Counted : List (String × ℕ) → Type 0
Counted refcount = (value : String) → has_key value refcount ≡ ltb 0 (get_item value 0 refcount)

Counted-uncount :
    (gone : String) (refcount : List (String × ℕ))
    → Counted refcount
    → Counted (uncount gone refcount)
unfolding uncount
Counted-uncount gone refcount counted value = ground (
  arith,
  counted value,
  get_item-uncount value gone refcount,
  has_key-pop_item value gone refcount,
  get_item-pop_item value gone 0 refcount,
  has_key-set_item value gone (get_item gone 0 refcount - 1) refcount,
  get_item-set_item value gone 0 (get_item gone 0 refcount - 1) refcount,
)

Counted-uncount_all :
    (vs : List String) (refcount : List (String × ℕ))
    → Counted refcount
    → Counted (uncount_all vs refcount)
unfolding uncount_all
Counted-uncount_all [] refcount counted = counted
Counted-uncount_all (v ∷ vs) refcount counted =
    Counted-uncount_all vs (uncount v refcount) (Counted-uncount v refcount counted)

-- The registry holds the registrations: each scope its values in order, each value its number.
record Holds (r : SecretRegistry) (s : KeyedRegistrations) : Type 0 where
  pub scopes : (key : String) → get_item key [] r.by_scope ≡ values_of key s
  pub counts : (value : String) → get_item value 0 r.refcount ≡ keyed_live value s
  pub counted : Counted r.refcount

Holds-new_registry : Holds new_registry []
unfolding get_item has_key keyed_live values_of
Holds-new_registry = record {
  scopes = λ key. refl;
  counts = λ value. refl;
  counted = λ value. refl;
}

Holds-register_value :
    (value key : String) (r : SecretRegistry) (s : KeyedRegistrations)
    → Holds r s
    → Holds (register_value value key r) (s ++ (key, value) ∷ [])
Holds-register_value value key r s h = record {
  scopes = λ k. ground (
    arith,
    h.scopes k,
    h.scopes key,
    values_of-snoc k key value s,
    get_item-set_item k key [] (get_item key [] r.by_scope ++ value ∷ []) r.by_scope,
  );
  counts = λ v. ground (
    arith,
    h.counts v,
    h.counts value,
    keyed_live-snoc v key value s,
    get_item-set_item v value 0 (get_item value 0 r.refcount + 1) r.refcount,
  );
  counted = λ v. ground (
    arith,
    h.counted v,
    has_key-set_item v value (get_item value 0 r.refcount + 1) r.refcount,
    get_item-set_item v value 0 (get_item value 0 r.refcount + 1) r.refcount,
  );
}

Holds-register :
    (value scope : Option String) (r : SecretRegistry) (s : KeyedRegistrations)
    → Holds r s
    → Holds (register value scope r) (keyed_register value scope s)
unfolding register
Holds-register none scope r s h = h
Holds-register (some value) scope r s h = elim (Bool-cases (holds (String-discrete value ""))) [
  | inl empty ↦ rw empty h
  | inr full ↦ rw full (Holds-register_value value (key_of scope) r s h)
]

Holds-release_values :
    (vs : List String) (scope : String) (r : SecretRegistry) (s : KeyedRegistrations)
    → get_item scope [] r.by_scope ≡ vs
    → Holds r s
    → Holds (release_values vs scope r) (without_key scope s)
unfolding occurs
Holds-release_values [] scope r s e h = record {
  scopes = λ k.
      ground (
        arith,
        h.scopes k,
        values_of-without_key k scope s,
        get_item-pop_item k scope [] r.by_scope,
      );
  counts = λ v. ground (arith, e, h.scopes scope, h.counts v, keyed_live-without_key v scope s);
  counted = h.counted;
}
Holds-release_values (v ∷ vs) scope r s e h = record {
  scopes = λ k.
      ground (
        arith,
        h.scopes k,
        values_of-without_key k scope s,
        get_item-pop_item k scope [] r.by_scope,
      );
  counts = λ w. ground (
    arith,
    e,
    h.scopes scope,
    h.counts w,
    keyed_live-without_key w scope s,
    get_item-uncount_all w (v ∷ vs) r.refcount,
  );
  counted = Counted-uncount_all (v ∷ vs) r.refcount h.counted;
}

Holds-step :
    (op : Op) (r : SecretRegistry) (s : KeyedRegistrations)
    → Holds r s
    → Holds (step op r) (keyed_step op s)
unfolding release
Holds-step (registering value scope) r s h = Holds-register value scope r s h
Holds-step (releasing none) r s h = h
Holds-step (releasing (some scope)) r s h =
    Holds-release_values (get_item scope [] r.by_scope) scope r s refl h

Holds-run :
    (ops : List Op) (r : SecretRegistry) (s : KeyedRegistrations)
    → Holds r s
    → Holds (run ops r) (keyed_run ops s)
unfolding run keyed_run
Holds-run [] r s h = h
Holds-run (op ∷ ops) r s h = Holds-run ops (step op r) (keyed_step op s) (Holds-step op r s h)

pub elem-keys :
    (value : String) (refcount : List (String × ℕ))
    → elem String-discrete value (map (λ (v, count). v) refcount) ≡ has_key value refcount
unfolding elem has_key
elem-keys value [] = refl
elem-keys value ((v, count) ∷ rest) = ground (arith, elem-keys value rest)

-- After any calls, a value is in the snapshot just when a registration of it is live.
pub snapshot-keyed_run :
    (ops : List Op) (value : String)
    → elem String-discrete value (snapshot (run ops new_registry))
      ≡ ltb 0 (keyed_live value (keyed_run ops []))
snapshot-keyed_run ops value =
    let h = Holds-run ops new_registry [] Holds-new_registry in
    ground (arith, elem-keys value (run ops new_registry).refcount, h.counted value, h.counts value)
