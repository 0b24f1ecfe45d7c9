-- ===== src/Safety/Redaction.antt =====
-- The redactor and the logging filter that keeps one (src/kdive/safety/redaction.py). The filter
-- watches the process registry, as `attach_redaction_filter` sets it up.
pub mod Cache
pub mod Values
pub mod Masked
mod Tests
use linux_debug_mcp.Base.{
  ℕ, String, String-discrete, Bool, true, false, not, Option, none, some, List, [], ◌∷◌, ◌++◌,
  keep_if, holds, if◌then◌else◌, ◌==◌,
}
use linux_debug_mcp.Safety.SecretRegistry.{SecretRegistry, new_registry, snapshot, Op, step, run}

pub record Redactor : Type 0 where
  pub secret_values : List String

-- `Redactor(values)` while the process registry is in this state.
abbrev pub new_redactor : SecretRegistry → List String → Redactor
new_redactor process values = record {
  secret_values =
      keep_if (λ value. not (holds (String-discrete value ""))) (snapshot process ++ values);
}

-- No version is cached at first; the code writes -1.
pub record SecretRedactionFilter : Type 0 where
  pub cached_version : Option ℕ
  pub redactor : Redactor

abbrev pub new_filter : SecretRegistry → SecretRedactionFilter
new_filter process = record { cached_version = none; redactor = new_redactor process [] }

-- `version != self._cached_version`.
abbrev pub is_stale : ℕ → SecretRedactionFilter → Bool
is_stale version f = elim f.cached_version [ none ↦ true | some cached ↦ not (version == cached) ]

abbrev pub store_redactor : Redactor → SecretRedactionFilter → SecretRedactionFilter
store_redactor redactor f = record { cached_version = f.cached_version; redactor = redactor }

abbrev pub store_version : ℕ → SecretRedactionFilter → SecretRedactionFilter
store_version version f = record { cached_version = some version; redactor = f.redactor }

-- `_current`, for one thread: the registry's version is read, then the registry's values (`r₁`),
-- then, in the constructor of the redactor, the process registry's (`r₂`).
abbrev pub current :
    ℕ → SecretRegistry → SecretRegistry → SecretRedactionFilter → SecretRedactionFilter
current version r₁ r₂ f =
    if is_stale version f
    then store_version version (store_redactor (new_redactor r₂ (snapshot r₁)) f)
    else f

-- What happens to the registry and the filter: a call of the registry, or a call of `_current`
-- while other threads call the registry between its reads.
pub data Event : Type 0 where
  changes : Op → Event
  filters : List Op → List Op → Event

abbrev pub happen :
    Event → SecretRegistry × SecretRedactionFilter → SecretRegistry × SecretRedactionFilter
happen (changes op) (r, f) = (step op r, f)
happen (filters before after) (r, f) =
    let r₁ = run before r in let r₂ = run after r₁ in (r₂, current r.version r₁ r₂ f)

unfoldable pub happen_all :
    List Event → SecretRegistry × SecretRedactionFilter → SecretRegistry × SecretRedactionFilter
happen_all [] s = s
happen_all (e ∷ es) s = happen_all es (happen e s)
