-- ===== src/Seams/Secrets.antt =====
-- The secrets seam (src/kdive/seams/secrets.py and src/kdive/safety/secrets.py): references to
-- secrets, the backends that read them and the store that resolves them. The environment, the keyring
-- and the resolver command are parameters.
pub mod Resolution
pub mod Index
mod Tests
use Prim.Native.Char.{Char, code}
use linux_debug_mcp.Base.{
  ℕ, String, String-discrete, Bool, true, false, not, ◌||◌, ◌&&◌, Option, none, some, List, [], ◌∷◌,
  ◌++◌, Result, ok, err, ◌>>=◌, ◌>>◌, raise_if, holds, if◌then◌else◌, ◌==◌, set_item, find_item,
  has_key,
}
use linux_debug_mcp.Safety.SecretRegistry.{SecretRegistry, register}

pub data SecretReferenceKind : Type 0 where
  file env external keyring : SecretReferenceKind

pub record SecretReference : Type 0 where
  pub kind : SecretReferenceKind
  pub label : String
  pub reference : String
  pub required : Bool

-- The messages of SecretsResolutionError, which name the label of a definition and no more.
pub data SecretsResolutionError : Type 0 where
  duplicate unknown : String → SecretsResolutionError
  not_supported not_enabled not_set : String → SecretsResolutionError
  bad_keyring_reference keyring_failed : String → SecretsResolutionError
  command_timed_out command_failed : String → SecretsResolutionError
  keyring_missing empty_command : SecretsResolutionError

-- A backend's `get`: the value, or none where the source has none.
abbrev pub Backend : Type 0
Backend = SecretReference → Result SecretsResolutionError (Option String)

abbrev pub is_empty : String → Bool
is_empty s = holds (String-discrete s "")

unfoldable pub env_get : (String → Option String) → Backend
env_get environ r = ok (environ r.reference)

-- `text.partition("/")`: what stands before, whether a slash is there, what stands after.
unfoldable pub partition : String → String × Bool × String
partition String.[] = ("", false, "")
partition (String.◌∷◌ c s) =
    let (before, found, after) = partition s in
    if code c == 47 then ("", true, s) else (String.◌∷◌ c before, found, after)

-- The keyring's lookup gives a value or none, or it raises, `err`.
unfoldable pub keyring_get : (String → String → Result (Unit {0}) (Option String)) → Backend
keyring_get get_password r =
    let (service, separator, username) = partition r.reference in
    if not separator || is_empty service || is_empty username
    then err (bad_keyring_reference r.label)
    else elim (get_password service username) [
      | ok value ↦ ok value
      | err raised ↦ err (keyring_failed r.label)
    ]

-- `text.strip("\n")`.
unfoldable pub lstrip : String → String
lstrip String.[] = ""
lstrip (String.◌∷◌ c s) = let rest = lstrip s in if code c == 10 then rest else String.◌∷◌ c s

unfoldable pub rstrip : String → String
rstrip String.[] = ""
rstrip (String.◌∷◌ c s) =
    let rest = rstrip s in if (code c == 10) && is_empty rest then "" else String.◌∷◌ c rest

abbrev pub or_none : String → Option String
or_none s = if is_empty s then none else some s

-- What a run of the resolver command gives: it timed out, or its code (0 for success alone) and its
-- output.
pub data Run : Type 0 where
  timed_out : Run
  exited : ℕ → String → Run

unfoldable pub external_get : List String → (List String → Run) → Backend
external_get command runner r = elim (runner (command ++ r.reference ∷ [])) [
  | timed_out ↦ err (command_timed_out r.label)
  | exited returncode stdout ↦
      if not (returncode == 0)
      then err (command_failed r.label)
      else ok (or_none (rstrip (lstrip stdout)))
]

-- The definitions by reference, and the backends that are enabled.
pub record SecretsStore : Type 0 where
  pub by_reference : List (String × SecretReference)
  pub backends : SecretReferenceKind → Option Backend

-- The loop of the constructor.
unfoldable pub index_definitions :
    List SecretReference
    → List (String × SecretReference)
    → Result SecretsResolutionError (List (String × SecretReference))
index_definitions [] by_reference = ok by_reference
index_definitions (d ∷ ds) by_reference =
    raise_if (has_key d.reference by_reference) (duplicate d.reference)
    >> index_definitions ds (set_item d.reference d by_reference)

abbrev pub new_store :
    List SecretReference
    → (SecretReferenceKind → Option Backend)
    → Result SecretsResolutionError SecretsStore
new_store definitions backends = do
  by_reference ← index_definitions definitions []
  ok (record { by_reference = by_reference; backends = backends })

abbrev pub is_file : SecretReferenceKind → Bool
is_file SecretReferenceKind.file = true
is_file _ = false

-- The backend of a definition.
unfoldable pub backend_of : SecretsStore → SecretReference → Result SecretsResolutionError Backend
backend_of store d =
    if is_file d.kind then err (not_supported d.label) else elim (store.backends d.kind) [
      | none ↦ err (not_enabled d.label)
      | some backend ↦ ok backend
    ]

abbrev pub definition_of : SecretsStore → String → Result SecretsResolutionError SecretReference
definition_of store ref = elim (find_item ref store.by_reference) [
  | none ↦ err (unknown ref)
  | some d ↦ ok d
]

-- A value that is none or empty counts as absent.
abbrev pub present : Option String → Option String
present none = none
present (some value) = or_none value

abbrev pub settle : SecretReference → Option String → Result SecretsResolutionError (Option String)
settle d none = raise_if d.required (not_set d.label) >> ok none
settle d (some v) = ok (some v)

-- The value of one reference: none where it is absent and not required.
unfoldable pub resolve_one : SecretsStore → String → Result SecretsResolutionError (Option String)
unfolding backend_of
resolve_one store ref = do
  d ← definition_of store ref
  backend ← backend_of store d
  value ← backend d
  settle d (present value)

-- `resolve`: the registry as the call leaves it, which keeps what was registered before a failure,
-- and the values by reference.
unfoldable pub resolve_from :
    SecretsStore
    → List String
    → Option String
    → List (String × String)
    → SecretRegistry
    → SecretRegistry × Result SecretsResolutionError (List (String × String))
resolve_from store [] scope resolved r = (r, ok resolved)
resolve_from store (ref ∷ refs) scope resolved r = elim (resolve_one store ref) [
  | err e ↦ (r, err e)
  | ok none ↦ resolve_from store refs scope resolved r
  | ok (some value) ↦
      resolve_from store refs scope (set_item ref value resolved) (register (some value) scope r)
]

abbrev pub resolve :
    SecretsStore
    → List String
    → Option String
    → SecretRegistry
    → SecretRegistry × Result SecretsResolutionError (List (String × String))
resolve store refs scope r = resolve_from store refs scope [] r
