-- ===== src/Safety/Redaction/Cache.antt =====
-- The filter's cached redactor beside the registry (src/kdive/safety/redaction.py).
use linux_debug_mcp.Base.{
  ℕ, ◌≡◌, ◌≤◌, refl, ◌∙◌, inl, inr, Bool, true, false, Bool-cases, not, ◌&&◌, Option, none, some,
  List, [], ◌∷◌, ◌++◌, elem, elem-append, keep_if, holds, if◌then◌else◌, ◌==◌, arith, String,
  String-discrete,
}
use linux_debug_mcp.Safety.SecretRegistry.{SecretRegistry, snapshot, Op, step, run}
use linux_debug_mcp.Safety.SecretRegistry.Versions.{Tells, Tells-step, Tells-run}
use linux_debug_mcp.Safety.Redaction.{
  Redactor, new_redactor, SecretRedactionFilter, new_filter, is_stale, store_redactor,
  store_version, current, Event, changes, filters, happen, happen_all,
}

-- The values that the redactor masks are those of the registry, the empty one aside.
abbrev pub Masks : SecretRegistry → Redactor → Type 0
Masks r redactor =
    (value : String)
    → elem String-discrete value redactor.secret_values
      ≡ (not (holds (String-discrete value "")) && elem String-discrete value (snapshot r))

elem-nonempty :
    (value : String) (xs : List String)
    → elem String-discrete value (keep_if (λ v. not (holds (String-discrete v ""))) xs)
      ≡ (not (holds (String-discrete value "")) && elem String-discrete value xs)
unfolding elem keep_if
elem-nonempty value [] = ground arith
elem-nonempty value (x ∷ xs) = ground (arith, elem-nonempty value xs)

new_redactor-Masks :
    (r r' : SecretRegistry) → r'.refcount ≡ r.refcount → Masks r' (new_redactor r' (snapshot r))
new_redactor-Masks r r' same value = ground (
  arith,
  elem-nonempty value (snapshot r' ++ snapshot r),
  elem-append String-discrete value (snapshot r') (snapshot r),
  same,
)

-- The cached version is not ahead of the registry, and where they agree so do the values.
abbrev Coherent : SecretRegistry × SecretRedactionFilter → Type 0
Coherent (r, f) =
    (cached : ℕ)
    → f.cached_version ≡ some cached
    → (cached ≤ r.version) × (cached ≡ r.version → Masks r f.redactor)

Masks-same :
    (r r' : SecretRegistry) (m : Redactor) → r'.refcount ≡ r.refcount → Masks r m → Masks r' m
Masks-same r r' m same masks value = ground (arith, masks value, same)

Coherent-Tells :
    (r r' : SecretRegistry) (f : SecretRedactionFilter)
    → Tells r r'
    → Coherent (r, f)
    → Coherent (r', f)
Coherent-Tells r r' f (inl (v, c)) h cached e = (
  omega (arith, (h cached e).0, v),
  λ now. Masks-same r r' f.redactor c ((h cached e).1 (now ∙ v)),
)
Coherent-Tells r r' f (inr later) h cached e =
    (omega (arith, (h cached e).0), λ now. absurd (omega (arith, (h cached e).0, now)))

Tells-le : (r r' : SecretRegistry) → Tells r r' → r.version ≤ r'.version
Tells-le r r' (inl (v, c)) = omega (arith, v)
Tells-le r r' (inr later) = omega arith

-- The redactor that a call builds, with other threads' calls between its reads.
built-Coherent :
    (before after : List Op) (r : SecretRegistry) (f : SecretRedactionFilter)
    → (let r₁ = run before r in
        let r₂ = run after r₁ in
        Coherent (r₂, store_version r.version (store_redactor (new_redactor r₂ (snapshot r₁)) f)))
built-Coherent before after r f cached e =
    let r₁ = run before r in
    let r₂ = run after r₁ in
    let now : r.version ≡ cached = cc in
    let last = Tells-le r₁ r₂ (Tells-run after r₁) in
    elim (Tells-run before r) [
      | inl (v, c) ↦ elim (Tells-run after r₁) [
        | inl (v', c') ↦ (omega (arith, now, v, v'), λ _. new_redactor-Masks r₁ r₂ c')
        | inr later ↦ (omega (arith, now, v), λ same. absurd (omega (arith, now, v, same)))
      ]
      | inr later ↦ (omega (arith, now, last), λ same. absurd (omega (arith, now, last, same)))
    ]

fresh-Coherent :
    (before after : List Op) (r : SecretRegistry) (f : SecretRedactionFilter) (stale : Bool)
    → Coherent (r, f)
    → (let r₁ = run before r in
        let r₂ = run after r₁ in
        Coherent (
          r₂,
          (if stale
              then store_version r.version (store_redactor (new_redactor r₂ (snapshot r₁)) f)
              else f),
        ))
fresh-Coherent before after r f true h = built-Coherent before after r f
fresh-Coherent before after r f false h =
    let r₁ = run before r in
    Coherent-Tells r₁ (run after r₁) f (Tells-run after r₁)
      (Coherent-Tells r r₁ f (Tells-run before r) h)

Coherent-happen :
    (e : Event) (s : SecretRegistry × SecretRedactionFilter) → Coherent s → Coherent (happen e s)
Coherent-happen (changes op) (r, f) h = Coherent-Tells r (step op r) f (Tells-step op r) h
Coherent-happen (filters before after) (r, f) h =
    fresh-Coherent before after r f (is_stale r.version f) h

Coherent-happen_all :
    (es : List Event) (s : SecretRegistry × SecretRedactionFilter)
    → Coherent s
    → Coherent (happen_all es s)
unfolding happen_all
Coherent-happen_all [] s h = h
Coherent-happen_all (e ∷ es) s h = Coherent-happen_all es (happen e s) (Coherent-happen e s h)

current-Masks :
    (r : SecretRegistry) (cached_version : Option ℕ) (redactor : Redactor)
    → Coherent (r, record { cached_version = cached_version; redactor = redactor })
    → Masks r
        (current r.version r r
          (record { cached_version = cached_version; redactor = redactor })).redactor
current-Masks r none redactor h = new_redactor-Masks r r refl
current-Masks r (some cached) redactor h = elim (Bool-cases (r.version == cached)) [
  | inl same ↦ rw same ((h cached refl).1 (ground (arith, same)))
  | inr differs ↦ rw differs (new_redactor-Masks r r refl)
]

-- One thread at a time logs. After any calls of the registry and any logged records, other threads
-- calling the registry between the reads of each, a record that is logged now is masked by exactly
-- the values that the registry holds now, the empty one aside, though the redactor is rebuilt only
-- when the version differs from the cached one.
pub redactor-Masks :
    (process : SecretRegistry) (es : List Event)
    → (let (r, f) = happen_all es (process, new_filter process) in
        Masks r (current r.version r r f).redactor)
redactor-Masks process es =
    let (r, f) = happen_all es (process, new_filter process) in
    current-Masks r f.cached_version f.redactor
      (Coherent-happen_all es (process, new_filter process) (λ cached e. cc))
