-- ===== src/Coordination/Transaction.antt =====
-- TransportTransaction (src/kdive/coordination/transaction.py): the state that it coordinates, the
-- resources that an open holds so far, and the rollback of a failed open.
pub mod Open
pub mod Close
pub mod Drop
pub mod Disposed
pub mod Frees
pub mod TearsDown
pub mod Closed
pub mod Parks
pub mod Dropped
pub mod Owed
pub mod Stages
pub mod Commits
pub mod Attaches
pub mod Promotes
pub mod Unwound
mod Tests
pub mod Rollback
pub mod Gives
pub mod Opened
use linux_debug_mcp.Base.{
  ℕ, String, Bool, true, false, Option, none, some, List, [], ◌∷◌, ◌++◌, Result, ok, err, ite,
  update, holds, String-discrete, if◌then◌else◌,
}
use linux_debug_mcp.Seams.Target.{TargetKey, TargetKey-discrete}
use linux_debug_mcp.Seams.TransportState.{TransportSession}
use linux_debug_mcp.Seams.Guard.{GuardToken, StopCapableGuard}
use linux_debug_mcp.Seams.Guard
use linux_debug_mcp.Coordination.Lease.{ConsoleLeaseManager, manager_release}
use linux_debug_mcp.Coordination.Admission.{AdmissionService, AdmissionError}
use linux_debug_mcp.Coordination.Admission.Bindings.{rollback}
use linux_debug_mcp.Coordination.Admission.Calls.{after}
use linux_debug_mcp.Coordination.Registry.{SessionRegistry, delete_record}

-- _OpenState. A handle is its reference.
pub record OpenState : Type 0 where
  pub guard_token : Option GuardToken
  pub lease_token : Option String
  pub session_id : Option String
  pub backend_pid : Option ℕ
  pub backend_start : Option String
  pub admission_handle : Option ℕ

abbrev pub nothing_held : OpenState
nothing_held = record {
  guard_token = none;
  lease_token = none;
  session_id = none;
  backend_pid = none;
  backend_start = none;
  admission_handle = none;
}

-- _SessionSubscriber. `killed` is its event `_killed`.
pub record SessionSubscriber : Type 0 where
  pub session : TransportSession
  pub state : OpenState
  pub killed : Bool

-- The services that a transaction coordinates, and its own dicts. `reaped` logs what
-- `reap_backend` was asked to kill.
pub record TransportTransaction : Type 0 where
  pub admission : AdmissionService
  pub registry : SessionRegistry
  pub stop_guard : StopCapableGuard
  pub leases : ConsoleLeaseManager
  pub tokens : String → Option GuardToken
  pub handles : String → Option ℕ
  pub subscribers : TargetKey → String → Option SessionSubscriber
  pub reaped : List (ℕ × Option String)

-- `self._tokens.pop(id, None)` and its like.
abbrev pub pop {ℓ} : {A : Type ℓ} → (String → Option A) → String → String → Option A
pop d id = update String-discrete d id none

abbrev pub set_subscriber :
    (TargetKey → String → Option SessionSubscriber)
    → TargetKey
    → String
    → Option SessionSubscriber
    → TargetKey
    → String
    → Option SessionSubscriber
set_subscriber subscribers k id value =
    update TargetKey-discrete subscribers k (update String-discrete (subscribers k) id value)

-- _best_effort_reap: what it raises is suppressed.
unfoldable pub best_effort_reap : TransportTransaction → OpenState → TransportTransaction
best_effort_reap t held = elim held.backend_pid [
  | none ↦ t
  | some pid ↦ record t { reaped = t.reaped ++ (pid, held.backend_start) ∷ [] }
]

unfoldable pub release_lease :
    TransportTransaction → TargetKey → Option String → TransportTransaction
release_lease t k none = t
release_lease t k (some token) = record t { leases = (manager_release t.leases k token).0 }

unfoldable pub release_guard :
    TransportTransaction → TargetKey → Option GuardToken → TransportTransaction
release_guard t k none = t
release_guard t k (some token) = record t { stop_guard = (Guard.release t.stop_guard k token).0 }

-- A delete that raises leaves the record, and the clean-up goes on.
unfoldable pub delete_unless :
    Option String → SessionRegistry → TargetKey → String → SessionRegistry
delete_unless none reg k id = delete_record reg k (some id)
delete_unless (some e) reg k id = reg

-- What is known of a session by its id. `delete_raises` is what the unlink raises.
unfoldable pub drop_session :
    Option String → TransportTransaction → TargetKey → Option String → TransportTransaction
unfolding delete_unless
drop_session delete_raises t k none = t
drop_session delete_raises t k (some id) = record t {
  tokens = pop t.tokens id;
  handles = pop t.handles id;
  registry = delete_unless delete_raises t.registry k id;
  subscribers = set_subscriber t.subscribers k id none;
}

-- _rollback, in reverse order; what a step raises is suppressed.
unfoldable pub roll_back :
    Option String → TransportTransaction → TargetKey → OpenState → ℕ → TransportTransaction
unfolding best_effort_reap release_lease release_guard drop_session
roll_back delete_raises t k held handle =
    let unwound =
      release_guard
        (release_lease (drop_session delete_raises (best_effort_reap t held) k held.session_id) k
          held.lease_token)
        k held.guard_token in
    record unwound { admission = after unwound.admission (rollback unwound.admission handle) }
