-- ===== src/Coordination/Transaction/Open/Acquires.antt =====
-- The stages of an open that acquire: channel, guard and lease
-- (src/kdive/coordination/transaction.py).
use linux_debug_mcp.Base.{
  ℕ, String, true, false, Option, none, some, [], ◌∷◌, Result, ok, err, if◌then◌else◌,
}
use linux_debug_mcp.Seams.TransportState.{OpenRequest}
use linux_debug_mcp.Seams.Guard.{GuardToken, GuardError}
use linux_debug_mcp.Seams.Guard
use linux_debug_mcp.Coordination.Lease.{LeaseOwner, LeaseError, manager_acquire}
use linux_debug_mcp.Coordination.Selection.{Selection, select_stop_capable_channel}
use linux_debug_mcp.Coordination.Admission.{found}
use linux_debug_mcp.Coordination.Admission.Calls
use linux_debug_mcp.Coordination.Admission.Calls.{Call}
use linux_debug_mcp.Coordination.Transaction.Open.Attempt.{
  CrashPoint, Surroundings, M, ◌>>=◌, lift, set_tx, channel_of, refused, unselected, guarded,
  leased, simulated_crash,
}

module _ (env : Surroundings) (request : OpenRequest) (handle : ℕ) where
  -- Between two stages other threads call the admission service; then the crash point is tested.
  unfoldable pub crash : CrashPoint → M (Unit {0})
  crash point p =
      let q =
        set_tx p (record p.tx { admission = Calls.run p.tx.admission (env.meanwhile point) }) in
      (if env.crash_after point then (q, err (simulated_crash point)) else (q, ok tt))

  -- The key lock is free again: other threads call the admission service, before the recovery is
  -- cleared.
  unfoldable pub unlocked : M (Unit {0})
  unlocked p = (
    set_tx p (record p.tx { admission = Calls.run p.tx.admission env.meanwhile_promoted }),
    ok tt,
  )

  -- (3): the authoritative channel of the handle, and a break plan for it.
  unfoldable pub select_channel : M Selection
  unfolding channel_of
  select_channel p =
      (do
        h ← lift refused (found (p.tx.admission.heap handle))
        channel ← channel_of h.channel
        lift unselected (
            select_stop_capable_channel env.policy h.platform request.target_key [] (channel ∷ [])
              request.required_caps))
        p

  guarded_with : Result GuardError (Guard.StopCapableGuard × GuardToken) → M GuardToken
  guarded_with (err e) p = (p, err (guarded e))
  guarded_with (ok (g, token)) p = (
    record {
      tx = record p.tx { stop_guard = g };
      held = record p.held { guard_token = some token };
    },
    ok token,
  )

  -- (4)
  unfoldable pub take_guard : M GuardToken
  unfolding guarded_with
  take_guard p = guarded_with (Guard.acquire p.tx.stop_guard request.target_key env.guard_secret) p

  unfoldable pub leased_with : Result LeaseError String → M (Option String)
  leased_with (err e) p = (p, err (leased e))
  leased_with (ok token) p =
      (record p { held = record p.held { lease_token = some token } }, ok (some token))

  -- (5): only a provider that owns a console takes the lease.
  unfoldable pub take_lease : M (Option String)
  unfolding leased_with
  take_lease p = elim env.capability.provides_console [
    | false ↦ (p, ok none)
    | true ↦
        let (leases, outcome) =
          manager_acquire p.tx.leases request.target_key LeaseOwner.transport env.lease_token in
        leased_with outcome (set_tx p (record p.tx { leases = leases }))
  ]
