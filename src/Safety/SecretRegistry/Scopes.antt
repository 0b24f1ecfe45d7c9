-- ===== src/Safety/SecretRegistry/Scopes.antt =====
-- The specification of the registry: the list of live registrations by their scopes, where those
-- without a scope are never released (src/kdive/safety/secret_registry.py).
use linux_debug_mcp.Base.{
  ℕ, ◌+◌, ◌≡◌, ◌≢◌, refl, ◌∙◌, ap, ite, Option, none, some, List, [], ◌∷◌, ◌++◌, elem, holds, ltb,
  if◌then◌else◌, arith, String, String-discrete,
}
use linux_debug_mcp.Safety.SecretRegistry.{
  new_registry, key_of, snapshot, Op, registering, releasing, run,
}
use linux_debug_mcp.Safety.SecretRegistry.Refines.{
  KeyedRegistrations, without_key, keyed_run, keyed_live, snapshot-keyed_run,
}

-- The registrations that are live, each a scope, if it has one, and a value, oldest first.
abbrev pub Registrations : Type 0
Registrations = List (Option String × String)

abbrev pub spec_register : Option String → Option String → Registrations → Registrations
spec_register none scope s = s
spec_register (some value) scope s =
    if holds (String-discrete value "") then s else s ++ (scope, value) ∷ []

-- Every registration of the scope goes; one without a scope stays.
unfoldable pub without : String → Registrations → Registrations
without scope [] = []
without scope ((none, v) ∷ s) = (none, v) ∷ without scope s
without scope ((some k, v) ∷ s) =
    ite (String-discrete k scope) (without scope s) ((some k, v) ∷ without scope s)

abbrev pub spec_release : Option String → Registrations → Registrations
spec_release none s = s
spec_release (some scope) s = without scope s

abbrev pub spec_step : Op → Registrations → Registrations
spec_step (registering value scope) s = spec_register value scope s
spec_step (releasing scope) s = spec_release scope s

unfoldable pub spec_run : List Op → Registrations → Registrations
spec_run [] s = s
spec_run (op ∷ ops) s = spec_run ops (spec_step op s)

-- How many live registrations a value has.
unfoldable pub live : String → Registrations → ℕ
live value [] = 0
live value ((scope, v) ∷ s) = ite (String-discrete v value) 1 0 + live value s

-- No call releases a scope of this name.
abbrev pub NeverReleases : String → List Op → Type 0
NeverReleases name [] = Unit
NeverReleases name (registering value scope ∷ ops) = NeverReleases name ops
NeverReleases name (releasing none ∷ ops) = NeverReleases name ops
NeverReleases name (releasing (some scope) ∷ ops) = (scope ≢ name) × NeverReleases name ops

keyed : Registrations → KeyedRegistrations
keyed [] = []
keyed ((scope, v) ∷ s) = (key_of scope, v) ∷ keyed s

keyed-snoc :
    (scope : Option String) (v : String) (s : Registrations)
    → keyed (s ++ (scope, v) ∷ []) ≡ keyed s ++ (key_of scope, v) ∷ []
unfolding keyed
keyed-snoc scope v [] = refl
keyed-snoc scope v ((k, w) ∷ s) = ap (λ rest. (key_of k, w) ∷ rest) (keyed-snoc scope v s)

keyed-without :
    (scope : String) (s : Registrations)
    → scope ≢ "__global__"
    → without_key scope (keyed s) ≡ keyed (without scope s)
unfolding keyed without without_key
keyed-without scope [] named = refl
keyed-without scope ((none, v) ∷ s) named = ground (arith, keyed-without scope s named)
keyed-without scope ((some k, v) ∷ s) named = ground (arith, keyed-without scope s named)

live-keyed : (value : String) (s : Registrations) → keyed_live value (keyed s) ≡ live value s
unfolding keyed live keyed_live
live-keyed value [] = refl
live-keyed value ((scope, v) ∷ s) = ground (arith, live-keyed value s)

keyed-spec_run :
    (ops : List Op) (s : Registrations)
    → NeverReleases "__global__" ops
    → keyed_run ops (keyed s) ≡ keyed (spec_run ops s)
unfolding keyed_run spec_run
keyed-spec_run [] s h = refl
keyed-spec_run (registering none scope ∷ ops) s h = keyed-spec_run ops s h
keyed-spec_run (registering (some value) scope ∷ ops) s h = ground (
  arith,
  keyed-snoc scope value s,
  keyed-spec_run ops s h,
  keyed-spec_run ops (s ++ (scope, value) ∷ []) h,
)
keyed-spec_run (releasing none ∷ ops) s h = keyed-spec_run ops s h
keyed-spec_run (releasing (some scope) ∷ ops) s (named, h) =
    ap (keyed_run ops) (keyed-without scope s named) ∙ keyed-spec_run ops (without scope s) h

-- After any calls of which none releases a scope that is named `__global__`, a value is in the
-- snapshot just when one of its registrations is live: it was registered, not empty, and either
-- without a scope, which no release takes back, or under a scope that no later call released. The
-- values of a scope are counted one by one, so a value that two scopes registered stays when one of
-- them is released.
pub snapshot-Refines :
    (ops : List Op) (value : String)
    → NeverReleases "__global__" ops
    → elem String-discrete value (snapshot (run ops new_registry))
      ≡ ltb 0 (live value (spec_run ops []))
unfolding keyed
snapshot-Refines ops value named =
    snapshot-keyed_run ops value
    ∙ ap (λ s. ltb 0 (keyed_live value s)) (keyed-spec_run ops [] named)
    ∙ ap (ltb 0) (live-keyed value (spec_run ops []))
