-- ===== src/Coordination/Transaction/Parks.antt =====
-- A close of a parked target (src/kdive/coordination/transaction.py).
use linux_debug_mcp.Base.{
  ◌≡◌, ◌⊎◌, refl, inl, inr, Option-cases, ◌∙◌, String, true, false, ◌&&◌, Option, none, some, List,
  [], ◌∷◌, ok, arith,
}
use linux_debug_mcp.Seams.TransportState.{TransportSession, ExecutionState}
use linux_debug_mcp.Coordination.Registry.{RecoveryTombstone, read_tombstone}
use linux_debug_mcp.Coordination.Registry.Store.{read_tombstone-write_tombstone}
use linux_debug_mcp.Coordination.Registry.Reconcile.{tombstone_of}
use linux_debug_mcp.Coordination.Registry.Gates.{Gates}
use linux_debug_mcp.Coordination.Transaction.{TransportTransaction}
use linux_debug_mcp.Coordination.Transaction.Close.{
  Closing, CleanupError, record_by_session_id, is_parked, tear_down, raise_close_failures,
  close_record, close_session,
}
use linux_debug_mcp.Coordination.Transaction.Closed.{closing}
use linux_debug_mcp.Coordination.Transaction.TearsDown.{
  tear_down-errors, tear_down-tombstone, tear_down-Gates,
}

no_errors :
    (raised : Option String) (errors : List CleanupError)
    → raise_close_failures raised errors ≡ ok tt
    → errors ≡ []
unfolding raise_close_failures
no_errors none [] silent = refl
no_errors none (e ∷ es) silent = ground (arith, silent)
no_errors (some e) es silent = ground (arith, silent)

-- The kernel was stopped, or was not known to run.
abbrev pub MayBeStopped : ExecutionState → Type 0
MayBeStopped state = (state ≡ ExecutionState.halted) ⊎ (state ≡ ExecutionState.unknown)

MayBeStopped-is_parked : (state : ExecutionState) → MayBeStopped state → is_parked state ≡ true
unfolding is_parked
MayBeStopped-is_parked state (inl halted) = rw halted refl
MayBeStopped-is_parked state (inr unknown) = rw unknown refl

-- The tombstone that a close leaves of the session.
abbrev pub closed_tombstone : TransportSession → RecoveryTombstone
closed_tombstone r = record {
  target_key = r.target_key;
  generation = r.generation;
  reason = "closed_while_halted";
}

abbrev Parked : TransportSession → TransportTransaction → Type 0
Parked r after =
    (read_tombstone after.registry r.target_key ≡ some (closed_tombstone r))
    × Gates after.admission r.target_key r.generation

tear_down-Parked :
    (env : Closing) (r : TransportSession) (id : String) (t : TransportTransaction)
    → is_parked r.execution_state ≡ true
    → (tear_down env r id false t).errors ≡ []
    → Parked r (tear_down env r id false t).tx
tear_down-Parked env r id t parked silent =
    let parking : (is_parked r.execution_state && true) ≡ true = ground (arith, parked) in
    let writes = tear_down-errors env r id false t parking silent in
    let k = r.target_key in
    (
      tear_down-tombstone env r id false t k
          ∙ ground (
            arith,
            parked,
            writes,
            read_tombstone-write_tombstone t.registry (tombstone_of r "closed_while_halted") k,
          ),
      tear_down-Gates env r id false t parking writes,
    )

close_record-Parked :
    (env : Closing) (r : TransportSession) (id : String) (t : TransportTransaction)
    → is_parked r.execution_state ≡ true
    → (close_record env (some r) id false t).1 ≡ ok tt
    → Parked r (close_record env (some r) id false t).0
unfolding close_record closing
close_record-Parked env r id t parked silent = elim (Option-cases env.write_raises) [
  | inr (e, fails) ↦ ground (arith, rw fails at silent)
  | inl writes ↦ rw writes (
      tear_down-Parked env r id (closing t r) parked
        (no_errors env.close_raises _ (rw writes at silent)))
]

-- A close that is not forced and reports success leaves no parked kernel ungated: if the session was
-- HALTED or UNKNOWN, its target has a tombstone of the session's generation, and the admission cache
-- gates the target at that generation or a later one.
pub close_parks :
    (env : Closing) (id : String) (t : TransportTransaction) (r : TransportSession)
    → record_by_session_id t id ≡ some r
    → MayBeStopped r.execution_state
    → (close_session env id false t).1 ≡ ok tt
    → (read_tombstone (close_session env id false t).0.registry r.target_key
        ≡ some (closed_tombstone r))
      × Gates (close_session env id false t).0.admission r.target_key r.generation
unfolding close_session
close_parks env id t r known stopped silent = rw known (
    close_record-Parked env r id t (MayBeStopped-is_parked r.execution_state stopped)
      (rw known at silent))
