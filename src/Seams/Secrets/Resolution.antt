-- ===== src/Seams/Secrets/Resolution.antt =====
-- What the secrets store resolves and registers (src/kdive/seams/secrets.py).
use linux_debug_mcp.Base.{
  ◌+◌, ◌≡◌, ◌≢◌, ◌⊎◌, find_item, refl, sym, ap, subst, ◌∙◌, inl, inr, Bool-cases, String,
  String-discrete, Bool, true, false, ◌||◌, Option, none, some, List, [], ◌∷◌, elem, Result, ok,
  err, >>=-eq-ok, holds, if◌then◌else◌, arith, set_item, get_item, has_key, has_key-set_item,
  get_item-set_item,
}
use linux_debug_mcp.Safety.SecretRegistry.{SecretRegistry, register, snapshot}
use linux_debug_mcp.Safety.SecretRegistry.Refines.{elem-keys}
use linux_debug_mcp.Seams.Secrets.{
  SecretReferenceKind, SecretReference, Backend, SecretsResolutionError, SecretsStore, is_empty,
  present, backend_of, definition_of, settle, resolve_one, resolve_from, resolve,
}

has_key-register :
    (value : String) (v scope : Option String) (r : SecretRegistry)
    → has_key value r.refcount ≡ true
    → has_key value (register v scope r).refcount ≡ true
unfolding register
has_key-register value none scope r h = h
has_key-register value (some v) scope r h = elim (Bool-cases (holds (String-discrete v ""))) [
  | inl empty ↦ rw empty h
  | inr full ↦
      rw full (ground (arith, h, has_key-set_item value v (get_item v 0 r.refcount + 1) r.refcount))
]

has_key-registered :
    (v : String) (scope : Option String) (r : SecretRegistry)
    → is_empty v ≡ false
    → has_key v (register (some v) scope r).refcount ≡ true
unfolding register
has_key-registered v scope r full =
    rw full (ground (arith, has_key-set_item v v (get_item v 0 r.refcount + 1) r.refcount))

or_none-full :
    (w v : String) (b : Bool)
    → is_empty w ≡ b
    → (if b then none else some w) ≡ some v
    → is_empty v ≡ false
or_none-full w v true e h = cc
or_none-full w v false e h = let same : w ≡ v = cc in ap is_empty (sym same) ∙ e

present-full : (found : Option String) (v : String) → present found ≡ some v → is_empty v ≡ false
present-full none v h = cc
present-full (some w) v h = or_none-full w v (is_empty w) refl h

settle-some :
    (d : SecretReference) (found : Option String) (v : String)
    → settle d found ≡ ok (some v)
    → found ≡ some v
settle-some d none v h = ground (arith, h)
settle-some d (some w) v h = cc

-- A value that is resolved is not empty.
resolve_one-full :
    (store : SecretsStore) (ref v : String)
    → resolve_one store ref ≡ ok (some v)
    → is_empty v ≡ false
unfolding resolve_one
resolve_one-full store ref v h =
    let (d, _, h₁) = >>=-eq-ok (definition_of store ref) _ h in
    let (backend, _, h₂) = >>=-eq-ok (backend_of store d) _ h₁ in
    let (value, _, h₃) = >>=-eq-ok (backend d) _ h₂ in
    present-full value v (settle-some d (present value) v h₃)

-- What is resolved under a reference.
abbrev pub lookup : String → List (String × String) → Option String
lookup ref resolved = if has_key ref resolved then some (get_item ref "" resolved) else none

-- Of one reference, `asked` or not: what is resolved is what its backend gives, and is counted.
record IsSound (store : SecretsStore) (asked : Bool) (resolved : List (String × String))
    (r : SecretRegistry) (ref : String) : Type 0 where
  pub known : has_key ref resolved ≡ true → has_key (get_item ref "" resolved) r.refcount ≡ true
  pub exact : asked ≡ true → resolve_one store ref ≡ ok (lookup ref resolved)
  pub no_other : asked ≡ false → has_key ref resolved ≡ false

-- After one more reference, which is absent.
absent-IsSound :
    (store : SecretsStore) (asked : Bool) (resolved : List (String × String)) (r : SecretRegistry)
    (name ref : String)
    → resolve_one store ref ≡ ok none
    → IsSound store asked resolved r name
    → IsSound store (asked || holds (String-discrete ref name)) resolved r name
absent-IsSound store asked resolved r name ref absent h = record {
  known = h.known;
  exact = λ is_asked. ground (arith, is_asked, absent, h.exact, h.no_other);
  no_other = λ not_asked. ground (arith, not_asked, h.no_other);
}

-- After one more reference, which has a value.
value-IsSound :
    (store : SecretsStore) (asked : Bool) (scope : Option String)
    (resolved : List (String × String)) (r : SecretRegistry) (name ref v : String)
    → resolve_one store ref ≡ ok (some v)
    → IsSound store asked resolved r name
    → IsSound store
        (asked || holds (String-discrete ref name))
        (set_item ref v resolved)
        (register (some v) scope r)
        name
value-IsSound store asked scope resolved r name ref v found h = record {
  known = λ there. ground (
    arith,
    there,
    has_key-set_item name ref v resolved,
    get_item-set_item name ref "" v resolved,
    h.known,
    has_key-registered v scope r (resolve_one-full store ref v found),
    has_key-register (get_item name "" resolved) (some v) scope r,
  );
  exact = λ is_asked. ground (
    arith,
    is_asked,
    found,
    h.exact,
    has_key-set_item name ref v resolved,
    get_item-set_item name ref "" v resolved,
  );
  no_other =
      λ not_asked. ground (arith, not_asked, has_key-set_item name ref v resolved, h.no_other);
}

-- What a call leaves: an error, or values that are sound.
abbrev Outcome :
    (store : SecretsStore) (asked : String → Bool)
    → SecretRegistry × Result SecretsResolutionError (List (String × String))
    → Type 0
Outcome store asked (r, err e) = Unit
Outcome store asked (r, ok resolved) = (name : String) → IsSound store (asked name) resolved r name

-- The rest of the loop after this reference's value, `next` what it goes on with.
step-Outcome :
    (store : SecretsStore) (asked : String → Bool) (scope : Option String) (refs : List String)
    (ref : String) (resolved : List (String × String)) (r : SecretRegistry)
    (one : Result SecretsResolutionError (Option String))
    → resolve_one store ref ≡ one
    → ((name : String) → IsSound store (asked name) resolved r name)
    → ((resolved' : List (String × String)) (r' : SecretRegistry)
        → ((name : String)
            → IsSound store (asked name || holds (String-discrete ref name)) resolved' r' name)
        → Outcome store
            (λ name. asked name || elem String-discrete name (ref ∷ refs))
            (resolve_from store refs scope resolved' r'))
    → Outcome store
        (λ name. asked name || elem String-discrete name (ref ∷ refs))
        (elim one [
          | err e ↦ (r, err e)
          | ok none ↦ resolve_from store refs scope resolved r
          | ok (some value) ↦
              resolve_from store refs scope
                (set_item ref value resolved)
                (register (some value) scope r)
        ])
step-Outcome store asked scope refs ref resolved r (err e) gives sound next = tt
step-Outcome store asked scope refs ref resolved r (ok none) gives sound next =
    next resolved r
      (λ name. absent-IsSound store (asked name) resolved r name ref gives (sound name))
step-Outcome store asked scope refs ref resolved r (ok (some v)) gives sound next =
    next (set_item ref v resolved) (register (some v) scope r)
      (λ name. value-IsSound store (asked name) scope resolved r name ref v gives (sound name))

Outcome-same :
    (store : SecretsStore) (asked asked' : String → Bool)
    (left : SecretRegistry × Result SecretsResolutionError (List (String × String)))
    → ((name : String) → asked name ≡ asked' name)
    → Outcome store asked left
    → Outcome store asked' left
Outcome-same store asked asked' (r, err e) same h = tt
Outcome-same store asked asked' (r, ok resolved) same h =
    λ name. subst (λ b. IsSound store b resolved r name) (same name) (h name)

resolve_from-Outcome :
    (store : SecretsStore) (refs : List String) (asked : String → Bool) (scope : Option String)
    (resolved : List (String × String)) (r : SecretRegistry)
    → ((name : String) → IsSound store (asked name) resolved r name)
    → Outcome store
        (λ name. asked name || elem String-discrete name refs)
        (resolve_from store refs scope resolved r)
unfolding resolve_from elem
resolve_from-Outcome store [] asked scope resolved r sound =
    λ name. subst (λ b. IsSound store b resolved r name) (ground arith) (sound name)
resolve_from-Outcome store (ref ∷ refs) asked scope resolved r sound =
    step-Outcome store asked scope refs ref resolved r (resolve_one store ref) refl sound
      (λ resolved' r' sound'.
        Outcome-same store _ _ (resolve_from store refs scope resolved' r') (λ name. ground arith)
          (resolve_from-Outcome store refs (λ name. asked name || holds (String-discrete ref name))
            scope resolved' r' sound'))

nothing-IsSound :
    (store : SecretsStore) (r : SecretRegistry) (name : String) → IsSound store false [] r name
unfolding has_key
nothing-IsSound store r name = record {
  known = λ there. cc;
  exact = λ asked. cc;
  no_other = λ _. refl;
}

resolve-Outcome :
    (store : SecretsStore) (refs : List String) (scope : Option String) (r : SecretRegistry)
    → Outcome store (λ name. elem String-discrete name refs) (resolve store refs scope r)
resolve-Outcome store refs scope r =
    resolve_from-Outcome store refs (λ name. false) scope [] r (nothing-IsSound store r)

-- What a call that returns has resolved.
returned-IsSound :
    (store : SecretsStore) (refs : List String) (scope : Option String) (r r' : SecretRegistry)
    (resolved : List (String × String))
    → resolve store refs scope r ≡ (r', ok resolved)
    → (name : String) → IsSound store (elem String-discrete name refs) resolved r' name
returned-IsSound store refs scope r r' resolved h =
    subst (Outcome store (λ name. elem String-discrete name refs)) h
      (resolve-Outcome store refs scope r)

-- Where `resolve` returns, every value of its answer is in the snapshot of the registry as the call
-- leaves it, whatever the scope and whatever the registry held.
pub resolve-IsRegistered :
    (store : SecretsStore) (refs : List String) (scope : Option String) (r r' : SecretRegistry)
    (resolved : List (String × String)) (ref : String)
    → resolve store refs scope r ≡ (r', ok resolved)
    → has_key ref resolved ≡ true
    → elem String-discrete (get_item ref "" resolved) (snapshot r') ≡ true
resolve-IsRegistered store refs scope r r' resolved ref h there =
    elem-keys (get_item ref "" resolved) r'.refcount
    ∙ (returned-IsSound store refs scope r r' resolved h ref).known there

-- What is found settles the answer: a text that is not empty is it, and without one there is none,
-- which no required definition may have.
abbrev pub Settles : Bool → Option String → Option String → Type 0
Settles required none answer = (answer ≡ none) × (required ≡ false)
Settles required (some v) answer =
    ((v ≢ "") × (answer ≡ some v)) ⊎ ((v ≡ "") × (answer ≡ none) × (required ≡ false))

-- The answer for one reference: it has a definition, of a kind that is not FILE, whose backend is
-- enabled and gives what settles the answer.
abbrev pub Answers : SecretsStore → String → Option String → Type 0
Answers store ref answer =
    (d : SecretReference) × (backend : Backend) × (found : Option String) × (find_item ref
        store.by_reference
      ≡ some d)
    × (d.kind ≢ SecretReferenceKind.file)
    × (store.backends d.kind ≡ some backend)
    × (backend d ≡ ok found)
    × Settles d.required found answer

Settles-settle :
    (d : SecretReference) (found answer : Option String)
    → settle d (present found) ≡ ok answer
    → Settles d.required found answer
Settles-settle d none answer h = ground (arith, h)
Settles-settle d (some v) answer h = ground (arith, h)

definition_found :
    (store : SecretsStore) (ref : String) (d : SecretReference)
    → definition_of store ref ≡ ok d
    → find_item ref store.by_reference ≡ some d
definition_found store ref d h = ground arith

backend_enabled :
    (store : SecretsStore) (d : SecretReference) (backend : Backend)
    → backend_of store d ≡ ok backend
    → (d.kind ≢ SecretReferenceKind.file) × (store.backends d.kind ≡ some backend)
unfolding backend_of
backend_enabled store d backend h = ground arith

resolve_one-Answers :
    (store : SecretsStore) (ref : String) (answer : Option String)
    → resolve_one store ref ≡ ok answer
    → Answers store ref answer
unfolding resolve_one
resolve_one-Answers store ref answer h =
    let (d, defined, h₁) = >>=-eq-ok (definition_of store ref) _ h in
    let (backend, enabled, h₂) = >>=-eq-ok (backend_of store d) _ h₁ in
    let (found, gives, h₃) = >>=-eq-ok (backend d) _ h₂ in
    let (kind, named) = backend_enabled store d backend enabled in
    (
      d,
      backend,
      found,
      definition_found store ref d defined,
      kind,
      named,
      gives,
      Settles-settle d found answer h₃,
    )

-- Where `resolve` returns, each reference that was asked for has a definition of a kind that is not
-- FILE, whose backend is enabled and raises nothing. The answer holds under it the text that the
-- backend gives; it holds nothing where that is absent or empty, and then the definition is not
-- required. Under any other reference it holds nothing.
pub resolve-exact :
    (store : SecretsStore) (refs : List String) (scope : Option String) (r r' : SecretRegistry)
    (resolved : List (String × String)) (ref : String)
    → resolve store refs scope r ≡ (r', ok resolved)
    → ((elem String-discrete ref refs ≡ true) × Answers store ref (lookup ref resolved))
      ⊎ ((elem String-discrete ref refs ≡ false) × (lookup ref resolved ≡ none))
resolve-exact store refs scope r r' resolved ref h =
    let sound = returned-IsSound store refs scope r r' resolved h ref in
    elim (Bool-cases (elem String-discrete ref refs)) [
      | inl asked ↦
          inl (asked, resolve_one-Answers store ref (lookup ref resolved) (sound.exact asked))
      | inr unasked ↦ inr (unasked, rw (sound.no_other unasked) refl)
    ]
