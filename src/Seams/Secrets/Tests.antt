-- ===== src/Seams/Secrets/Tests.antt =====
-- Runs of the secrets store (src/kdive/seams/secrets.py), and the theorems at them.
use linux_debug_mcp.Base.{
  ◌⊎◌, ◌≡◌, refl, ite, String, String-discrete, true, false, Option, none, some, List, [], ◌∷◌,
  elem, ok, err, set_item, get_item, find_item, has_key,
}
use linux_debug_mcp.Safety.SecretRegistry.{SecretRegistry, new_registry, snapshot, register}
use linux_debug_mcp.Seams.Secrets.{
  SecretReferenceKind, SecretReference, Backend, SecretsStore, bad_keyring_reference, partition,
  rstrip, lstrip, env_get, keyring_get, external_get, exited, index_definitions, new_store,
  backend_of, resolve_one, resolve_from, resolve,
}
use linux_debug_mcp.Seams.Secrets.Resolution.{Answers, lookup, resolve-IsRegistered, resolve-exact}

abbrev console : SecretReference
console = record {
  kind = SecretReferenceKind.env;
  label = "console password";
  reference = "CONSOLE_PASSWORD";
  required = true;
}

abbrev bmc : SecretReference
bmc = record { kind = SecretReferenceKind.env; label = "bmc"; reference = "BMC"; required = false }

-- The environment has the console's password alone.
abbrev environ : String → Option String
environ name = ite (String-discrete name "CONSOLE_PASSWORD") (some "hunter2") none

abbrev env_backends : SecretReferenceKind → Option Backend
env_backends SecretReferenceKind.env = some (env_get environ)
env_backends _ = none

abbrev two_references : SecretsStore
two_references = record {
  by_reference = ("CONSOLE_PASSWORD", console) ∷ ("BMC", bmc) ∷ [];
  backends = env_backends;
}

abbrev asked : List String
asked = "CONSOLE_PASSWORD" ∷ "BMC" ∷ []

abbrev answers : List (String × String)
answers = ("CONSOLE_PASSWORD", "hunter2") ∷ []

abbrev left : SecretRegistry
left = register (some "hunter2") none new_registry

resolves : resolve two_references asked none new_registry ≡ (left, ok answers)
unfolding resolve_from resolve_one backend_of find_item env_get set_item String-discrete
resolves = refl

has_password : has_key "CONSOLE_PASSWORD" answers ≡ true
unfolding has_key String-discrete
has_password = refl

resolve-IsRegistered_example :
    elem String-discrete (get_item "CONSOLE_PASSWORD" "" answers) (snapshot left) ≡ true
resolve-IsRegistered_example =
    resolve-IsRegistered two_references asked none new_registry left answers "CONSOLE_PASSWORD"
      resolves has_password

resolve-exact_example :
    ((elem String-discrete "BMC" asked ≡ true)
      × Answers two_references "BMC" (lookup "BMC" answers))
    ⊎ ((elem String-discrete "BMC" asked ≡ false) × (lookup "BMC" answers ≡ none))
resolve-exact_example =
    resolve-exact two_references asked none new_registry left answers "BMC" resolves

constructs : new_store (console ∷ bmc ∷ []) env_backends ≡ ok two_references
unfolding index_definitions has_key set_item String-discrete
constructs = refl

-- The reference of a keyring needs both parts; the output of a command loses its line breaks at both ends.
abbrev keyring_reference : String → SecretReference
keyring_reference reference = record {
  kind = SecretReferenceKind.keyring;
  label = "k";
  reference = reference;
  required = true;
}

needs_user :
    keyring_get (λ service username. ok (some username)) (keyring_reference "service/")
    ≡ err (bad_keyring_reference "k")
unfolding keyring_get partition String-discrete
needs_user = refl

reads_user :
    keyring_get (λ service username. ok (some username)) (keyring_reference "service/a/b")
    ≡ ok (some "a/b")
unfolding keyring_get partition String-discrete
reads_user = refl

strips_output :
    external_get ("pass" ∷ []) (λ argv. exited 0 "\nhunter2\n\n") console ≡ ok (some "hunter2")
unfolding external_get lstrip rstrip String-discrete
strips_output = refl
