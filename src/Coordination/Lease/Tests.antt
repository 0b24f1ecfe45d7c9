-- ===== src/Coordination/Lease/Tests.antt =====
-- The theorems on console leases at concrete calls (src/kdive/coordination/lease.py).
use linux_debug_mcp.Base.{◌≡◌, refl, false, List, [], ◌∷◌, String-discrete, text_differs}
use linux_debug_mcp.Coordination.Lease.{
  LeaseOwner, ConsoleLease, new_lease, granted, acquire, release, revoke,
}
use linux_debug_mcp.Coordination.Lease.Tokens.{
  Call, acquires, revokes, step, run, stale_token_frees_nothing,
}

abbrev held : ConsoleLease
held = granted new_lease LeaseOwner.transport "t1"

abbrev overtaken : List Call
overtaken = revokes ∷ acquires LeaseOwner.provisioner "t2" ∷ []

held-run : run new_lease (acquires LeaseOwner.transport "t1" ∷ []) ≡ held
unfolding run step acquire
held-run = refl

-- The holder of a revoked token cannot free the next holder's lease.
stale_token_frees_nothing_example :
    release (run (revoke held) (acquires LeaseOwner.provisioner "t2" ∷ [])) "t1"
    ≡ (run (revoke held) (acquires LeaseOwner.provisioner "t2" ∷ []), false)
unfolding revoke String-discrete
stale_token_frees_nothing_example =
    stale_token_frees_nothing "t1" (revoke held) (acquires LeaseOwner.provisioner "t2" ∷ [])
      ((text_differs "t2" "t1" refl), tt) (λ e. cc)
