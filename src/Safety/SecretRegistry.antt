-- ===== src/Safety/SecretRegistry.antt =====
-- The registry of known secret values (src/kdive/safety/secret_registry.py). A method holds the
-- registry's lock while it runs, so each is one step. A scope is a text: the code uses it as a
-- dict key alone.
pub mod Refines
pub mod Scopes
pub mod Versions
mod Tests
use linux_debug_mcp.Base.{
  ℕ, ◌+◌, ◌-◌, String, String-discrete, Bool, true, false, Option, none, some, List, [], ◌∷◌, ◌++◌,
  map, elem, if◌then◌else◌, holds, leb, set_item, get_item, pop_item, has_key,
}

-- The key of the values that no scope owns.
abbrev pub global : String
global = "__global__"

pub record SecretRegistry : Type 0 where
  pub refcount : List (String × ℕ)
  pub by_scope : List (String × List String)
  pub version : ℕ

abbrev pub new_registry : SecretRegistry
new_registry = record { refcount = []; by_scope = []; version = 0 }

abbrev pub key_of : Option String → String
key_of none = global
key_of (some scope) = scope

abbrev pub register_value : String → String → SecretRegistry → SecretRegistry
register_value value key r = record {
  refcount = set_item value (get_item value 0 r.refcount + 1) r.refcount;
  by_scope = set_item key (get_item key [] r.by_scope ++ value ∷ []) r.by_scope;
  version = r.version + 1;
}

unfoldable pub register : Option String → Option String → SecretRegistry → SecretRegistry
register none scope r = r
register (some value) scope r =
    if holds (String-discrete value "") then r else register_value value (key_of scope) r

-- One value of a released scope.
unfoldable pub uncount : String → List (String × ℕ) → List (String × ℕ)
uncount value refcount =
    if leb (get_item value 0 refcount) 1
    then pop_item value refcount
    else set_item value (get_item value 0 refcount - 1) refcount

unfoldable pub uncount_all : List String → List (String × ℕ) → List (String × ℕ)
uncount_all [] refcount = refcount
uncount_all (v ∷ vs) refcount = uncount_all vs (uncount v refcount)

abbrev pub release_values : List String → String → SecretRegistry → SecretRegistry
release_values [] scope r = record {
  refcount = r.refcount;
  by_scope = pop_item scope r.by_scope;
  version = r.version;
}
release_values (v ∷ vs) scope r = record {
  refcount = uncount_all (v ∷ vs) r.refcount;
  by_scope = pop_item scope r.by_scope;
  version = r.version + 1;
}

unfoldable pub release : Option String → SecretRegistry → SecretRegistry
release none r = r
release (some scope) r = release_values (get_item scope [] r.by_scope) scope r

-- The members of the frozen set.
abbrev pub snapshot : SecretRegistry → List String
snapshot r = map (λ (value, count). value) r.refcount

-- The calls that change the registry.
pub data Op : Type 0 where
  registering : Option String → Option String → Op
  releasing : Option String → Op

abbrev pub step : Op → SecretRegistry → SecretRegistry
step (registering value scope) r = register value scope r
step (releasing scope) r = release scope r

unfoldable pub run : List Op → SecretRegistry → SecretRegistry
run [] r = r
run (op ∷ ops) r = run ops (step op r)
