-- ===== src/Safety/Redaction/Tests.antt =====
-- Runs of the redactor and its cache (src/kdive/safety/redaction.py), and the theorems at them.
use linux_debug_mcp.Base.{
  ◌≡◌, refl, ite, true, not, ◌&&◌, some, none, List, [], ◌∷◌, elem, holds, String, String-discrete,
  get_item, set_item, keep_if,
}
use linux_debug_mcp.Safety.SecretRegistry.{
  SecretRegistry, new_registry, register, snapshot, registering, releasing,
}
use linux_debug_mcp.Safety.Redaction.{
  new_redactor, SecretRedactionFilter, new_filter, store_redactor, store_version, current, Event,
  changes, filters, happen_all,
}
use linux_debug_mcp.Safety.Redaction.Cache.{redactor-Masks}
use linux_debug_mcp.Safety.Redaction.Values.{
  Value, text, flag, mapping, array, cons, nil, field, end, redact_value,
}

-- A secret is registered while a record is being logged, and another is released.
abbrev logged : List Event
logged =
    changes (registering (some "hunter2") (some "a"))
    ∷ filters (registering (some "swordfish") none ∷ []) (releasing (some "a") ∷ [])
    ∷ filters [] []
    ∷ []

redactor-Masks_example :
    (let (r, f) = happen_all logged (new_registry, new_filter new_registry) in
      elem String-discrete "swordfish" (current r.version r r f).redactor.secret_values ≡ (
        not (holds (String-discrete "swordfish" ""))
        && elem String-discrete "swordfish" (snapshot r)))
redactor-Masks_example = redactor-Masks new_registry logged "swordfish"

-- Two threads log at once: the first has built its redactor when a secret is registered, and it
-- stores that redactor after the second one has stored its own, but its version before.
abbrev with_secret : SecretRegistry
with_secret = register (some "hunter2") none new_registry

abbrev raced : SecretRedactionFilter
raced = store_version with_secret.version (
    store_version new_registry.version (
      store_redactor (new_redactor new_registry (snapshot new_registry)) (
        store_redactor (new_redactor with_secret (snapshot with_secret))
          (new_filter new_registry))))

-- No later record is masked by the secret, since the version counts as seen.
race_hides_secret :
    (current with_secret.version with_secret with_secret raced).redactor.secret_values ≡ []
unfolding register get_item set_item String-discrete keep_if
race_hides_secret = refl

-- Replaces a text that is the value, and no part of one.
abbrev replace_whole : String → String → String → String
replace_whole s value by = ite (String-discrete s value) by s

abbrev nested : Value
nested = mapping (
    field "sensitive" (flag true) (
      field "path" (text "/var/lib/key") (
        field "token" (text "t")
          (field "lines" (array (cons (text "hunter2") (cons (text "plain") nil))) end))))

abbrev redacted : Value
redacted =
    redact_value replace_whole (λ s. s) (λ key. holds (String-discrete key "token"))
      (new_redactor with_secret []) nested
