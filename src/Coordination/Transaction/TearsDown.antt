-- ===== src/Coordination/Transaction/TearsDown.antt =====
-- What the steps of a close change (src/kdive/coordination/transaction.py).
use linux_debug_mcp.Base.{
  ℕ, ◌≡◌, ◌≢◌, ◌⊎◌, refl, inl, inr, Option-cases, sym, ap, subst, ◌∙◌, String, Bool, true, false,
  not, ◌&&◌, Option, none, some, List, [], ◌∷◌, ◌++◌, arith,
}
use linux_debug_mcp.Seams.Target.{TargetKey}
use linux_debug_mcp.Seams.TransportState.{TransportSession}
use linux_debug_mcp.Coordination.Registry.{
  SessionRegistry, is_session, read_record, read_tombstone, delete_record, write_tombstone,
}
use linux_debug_mcp.Coordination.Registry.Store.{read_record-delete_record}
use linux_debug_mcp.Coordination.Admission.{AdmissionService}
use linux_debug_mcp.Coordination.Admission.Lifecycle.{mark_recovery_required}
use linux_debug_mcp.Coordination.Registry.Reconcile.{tombstone_of}
use linux_debug_mcp.Coordination.Registry.Gates.{Gates, mark-Gates}
use linux_debug_mcp.Coordination.Transaction.{
  TransportTransaction, pop, release_guard, release_lease,
}
use linux_debug_mcp.Coordination.Transaction.Disposed.{Completes, complete_handle-Completes}
use linux_debug_mcp.Coordination.Transaction.Close.{
  Closing, Cleanup, CleanupError, text, pop_token, pop_handle, is_parked, mark_recovery, park_if,
  clean_record, unsubscribe_if, tear_down,
}

append_some : (es : List CleanupError) (e : CleanupError) → es ++ e ∷ [] ≢ []
append_some [] e = ground arith
append_some (x ∷ es) e = ground arith

module _ (env : Closing) (r : TransportSession) (id : String) (force : Bool)
    (t : TransportTransaction) where
  abbrev k : TargetKey
  k = r.target_key

  abbrev end : TransportTransaction
  end = (tear_down env r id force t).tx

  pub tear_down-stop_guard : end.stop_guard ≡ (release_guard t k (t.tokens id)).stop_guard
  unfolding tear_down pop_token pop_handle park_if mark_recovery clean_record unsubscribe_if
      release_lease release_guard
  tear_down-stop_guard = ground arith

  pub tear_down-leases : end.leases ≡ (release_lease t k r.console_lease_token).leases
  unfolding tear_down pop_token pop_handle park_if mark_recovery clean_record unsubscribe_if
      release_lease release_guard
  tear_down-leases = ground arith

  pub tear_down-tokens : end.tokens id ≡ none
  unfolding tear_down pop_token pop_handle park_if mark_recovery clean_record unsubscribe_if
      release_lease release_guard
  tear_down-tokens = ground arith

  pub tear_down-handles : end.handles id ≡ none
  unfolding tear_down pop_token pop_handle park_if mark_recovery clean_record unsubscribe_if
      release_lease release_guard
  tear_down-handles = ground arith

  -- Whether the close parks the target.
  abbrev parks : Bool
  parks = is_parked r.execution_state && not force

  abbrev parked_registry : SessionRegistry → Bool → Option String → SessionRegistry
  parked_registry reg false e = reg
  parked_registry reg true (some e) = reg
  parked_registry reg true none = write_tombstone reg (tombstone_of r "closed_while_halted")

  abbrev deleted_registry : SessionRegistry → Option String → SessionRegistry
  deleted_registry reg none = delete_record reg k (some r.session_id)
  deleted_registry reg (some e) = reg

  tear_down-registry :
      end.registry
      ≡ deleted_registry (parked_registry t.registry parks env.tombstone_raises) env.delete_raises
  unfolding tear_down pop_token pop_handle park_if mark_recovery clean_record unsubscribe_if
      release_lease release_guard
  tear_down-registry = ground arith

  parked_owner :
      (reg : SessionRegistry) (b : Bool) (e : Option String) (j : TargetKey)
      → read_record (parked_registry reg b e) j ≡ read_record reg j
  unfolding read_record write_tombstone
  parked_owner reg false e j = refl
  parked_owner reg true none j = refl
  parked_owner reg true (some e) j = refl

  pub tear_down-no_record :
      env.delete_raises ≡ none
      → is_session (read_record t.registry k) r.session_id ≡ true
      → read_record end.registry k ≡ none
  unfolding is_session
  tear_down-no_record deletes own =
      ap (λ reg. read_record reg k)
        (tear_down-registry
          ∙ ap (λ e. deleted_registry (parked_registry t.registry parks env.tombstone_raises) e)
              deletes)
      ∙ read_record-delete_record _ k k r.session_id
      ∙ ground (arith, parked_owner t.registry parks env.tombstone_raises k, own)

  deleted_tombstone :
      (reg : SessionRegistry) (e : Option String) (j : TargetKey)
      → read_tombstone (deleted_registry reg e) j ≡ read_tombstone reg j
  unfolding read_tombstone delete_record
  deleted_tombstone reg none j = ground arith
  deleted_tombstone reg (some e) j = refl

  pub tear_down-tombstone :
      (j : TargetKey)
      → read_tombstone end.registry j
        ≡ read_tombstone (parked_registry t.registry parks env.tombstone_raises) j
  tear_down-tombstone j =
      ap (λ reg. read_tombstone reg j) tear_down-registry
      ∙ deleted_tombstone (parked_registry t.registry parks env.tombstone_raises) env.delete_raises
          j

  abbrev pub disposed : Cleanup
  disposed =
      pop_handle id
        (record { tx = pop_token (release_lease t k r.console_lease_token) k id; errors = [] })

  abbrev released : TransportTransaction
  released = pop_token (release_lease t k r.console_lease_token) k id

  released_rest : (released.admission ≡ t.admission) × (released.handles ≡ t.handles)
  unfolding pop_token release_lease release_guard
  released_rest = ground arith

  disposed_handle : Completes (t.handles id) t.admission disposed.tx.admission
  unfolding pop_handle
  disposed_handle =
      subst (λ s. Completes (t.handles id) s disposed.tx.admission) released_rest.0
        (subst
          (λ (handles : String → Option ℕ).
            Completes (handles id) released.admission disposed.tx.admission)
          released_rest.1
          (complete_handle-Completes (released.handles id)
            (record { tx = record released { handles = pop released.handles id }; errors = [] })))

  tear_down-marked :
      (end.admission ≡ disposed.tx.admission)
      ⊎ (end.admission ≡ mark_recovery_required disposed.tx.admission k r.generation)
  unfolding tear_down park_if mark_recovery clean_record unsubscribe_if
  tear_down-marked = ground arith

  tear_down-admission :
      parks ≡ true
      → env.tombstone_raises ≡ none
      → end.admission ≡ mark_recovery_required disposed.tx.admission k r.generation
  unfolding tear_down park_if mark_recovery clean_record unsubscribe_if
  tear_down-admission parking writes = ground (arith, parking, writes)

  -- The handle is completed, and the target may be gated after that.
  pub tear_down-Completed :
      (s : AdmissionService) × Completes (t.handles id) t.admission s
      × ((end.admission ≡ s) ⊎ (end.admission ≡ mark_recovery_required s k r.generation))
  tear_down-Completed = (disposed.tx.admission, disposed_handle, tear_down-marked)

  pub tear_down-subscribers : (env.has_dispatcher ≡ false) ⊎ (end.subscribers k id ≡ none)
  unfolding tear_down unsubscribe_if
  tear_down-subscribers = ground arith

  pub tear_down-Gates :
      parks ≡ true → env.tombstone_raises ≡ none → Gates end.admission k r.generation
  tear_down-Gates parking writes =
      subst (λ a. Gates a k r.generation) (sym (tear_down-admission parking writes))
        (mark-Gates disposed.tx.admission k r.generation)

  -- Only a tombstone that could be written leaves the close without an error.
  pub tear_down-errors :
      parks ≡ true → (tear_down env r id force t).errors ≡ [] → env.tombstone_raises ≡ none
  unfolding tear_down park_if mark_recovery clean_record unsubscribe_if
  tear_down-errors parking silent = elim (Option-cases env.tombstone_raises) [
    | inl writes ↦ writes
    | inr (e, fails) ↦ ground (
      arith,
      parking,
      fails,
      silent,
      append_some disposed.errors (text e),
      append_some (disposed.errors ++ text e ∷ []),
    )
  ]
