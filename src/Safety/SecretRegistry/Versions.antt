-- ===== src/Safety/SecretRegistry/Versions.antt =====
-- What the registry's version tells (src/kdive/safety/secret_registry.py).
use linux_debug_mcp.Base.{
  ◌≡◌, ◌<◌, refl, Bool-cases, ◌⊎◌, inl, inr, none, some, List, [], ◌∷◌, holds, arith, String,
  String-discrete, get_item, ◌∙◌,
}
use linux_debug_mcp.Safety.SecretRegistry.{
  SecretRegistry, register, release_values, release, Op, registering, releasing, step, run,
}

-- A call leaves the counts as they are, or the version grows.
abbrev pub Tells : SecretRegistry → SecretRegistry → Type 0
Tells r r' = ((r'.version ≡ r.version) × (r'.refcount ≡ r.refcount)) ⊎ (r.version < r'.version)

Tells-release_values :
    (vs : List String) (scope : String) (r : SecretRegistry) → Tells r (release_values vs scope r)
Tells-release_values [] scope r = inl (refl, refl)
Tells-release_values (v ∷ vs) scope r = inr (omega arith)

pub Tells-step : (op : Op) (r : SecretRegistry) → Tells r (step op r)
unfolding register release
Tells-step (registering none scope) r = inl (refl, refl)
Tells-step (registering (some value) scope) r =
    elim (Bool-cases (holds (String-discrete value ""))) [
      | inl empty ↦ rw empty (inl (refl, refl))
      | inr full ↦ rw full (inr (omega arith))
    ]
Tells-step (releasing none) r = inl (refl, refl)
Tells-step (releasing (some scope)) r = Tells-release_values (get_item scope [] r.by_scope) scope r

pub Tells-run : (ops : List Op) (r : SecretRegistry) → Tells r (run ops r)
unfolding run
Tells-run [] r = inl (refl, refl)
Tells-run (op ∷ ops) r = elim (Tells-step op r) [
  | inl (v, c) ↦ elim (Tells-run ops (step op r)) [
    | inl (v', c') ↦ inl (v' ∙ v, c' ∙ c)
    | inr later ↦ inr (omega (arith, v))
  ]
  | inr grown ↦ elim (Tells-run ops (step op r)) [
    | inl (v', c') ↦ inr (omega (arith, v'))
    | inr later ↦ inr (omega arith)
  ]
]
