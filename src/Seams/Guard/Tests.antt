-- ===== src/Seams/Guard/Tests.antt =====
-- The guard's theorems at concrete calls (src/kdive/seams/guard.py).
use linux_debug_mcp.Base.{◌≡◌, false, List, [], ◌∷◌, arith, String-discrete}
use linux_debug_mcp.Seams.Target.{TargetKey, TargetKey-discrete}
use linux_debug_mcp.Seams.Guard.{
  GuardToken, StopCapableGuard, new_guard, minted, acquire, release, revoke,
}
use linux_debug_mcp.Seams.Guard.Fencing.{
  Call, acquires, revokes, step, run, spent_token_frees_nothing,
}

abbrev vm : TargetKey
vm = record { provisioner = "local-qemu"; target_id = "run-1" }

-- The first holder is revoked, and a second one takes over.
abbrev overtaken : List Call
overtaken = acquires vm "one" ∷ revokes vm ∷ acquires vm "two" ∷ []

abbrev first_token : GuardToken
first_token = minted new_guard vm "one"

-- Revoking the first holder leaves its token spent.
abbrev revoked : StopCapableGuard
revoked = run new_guard (acquires vm "one" ∷ revokes vm ∷ [])

spent_token_frees_nothing_example :
    release (run revoked (acquires vm "two" ∷ [])) vm first_token
    ≡ (run revoked (acquires vm "two" ∷ []), false)
unfolding run step acquire revoke TargetKey-discrete String-discrete
spent_token_frees_nothing_example =
    spent_token_frees_nothing first_token revoked (acquires vm "two" ∷ []) vm (omega arith, λ e. cc)
