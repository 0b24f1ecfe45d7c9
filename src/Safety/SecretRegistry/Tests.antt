-- ===== src/Safety/SecretRegistry/Tests.antt =====
-- Runs of the secret registry (src/kdive/safety/secret_registry.py), and the theorems at them.
use linux_debug_mcp.Base.{
  ◌≡◌, refl, none, some, List, [], ◌∷◌, elem, String-discrete, ltb, get_item, set_item, pop_item,
  text_differs,
}
use linux_debug_mcp.Safety.SecretRegistry.{
  new_registry, snapshot, Op, registering, releasing, run, register, release, uncount, uncount_all,
  global,
}
use linux_debug_mcp.Safety.SecretRegistry.Scopes.{spec_run, live, snapshot-Refines}

-- Two scopes share a value, and one of them is released; an empty value is not taken.
abbrev shared : List Op
shared =
    registering (some "hunter2") (some "a")
    ∷ registering (some "hunter2") (some "b")
    ∷ registering (some "swordfish") none
    ∷ registering (some "") none
    ∷ releasing (some "a")
    ∷ releasing none
    ∷ []

snapshot-Refines_example :
    elem String-discrete "hunter2" (snapshot (run shared new_registry))
    ≡ ltb 0 (live "hunter2" (spec_run shared []))
unfolding String-discrete
snapshot-Refines_example =
    snapshot-Refines shared "hunter2" (text_differs "a" "__global__" refl, tt)

keeps_shared : snapshot (run shared new_registry) ≡ "hunter2" ∷ "swordfish" ∷ []
unfolding run register release uncount uncount_all get_item set_item pop_item String-discrete
keeps_shared = refl

-- A scope that is named as the key of the global values is takes them along.
drops_global :
    snapshot (run (registering (some "swordfish") none ∷ releasing (some global) ∷ []) new_registry)
    ≡ []
unfolding run register release uncount uncount_all get_item set_item pop_item String-discrete
drops_global = refl
