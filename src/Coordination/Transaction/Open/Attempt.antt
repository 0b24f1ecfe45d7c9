-- ===== src/Coordination/Transaction/Open/Attempt.antt =====
-- One attempt to open (TransportTransaction.open, src/kdive/coordination/transaction.py): a call on the
-- state that may raise. Its surroundings are a value: what uuid4, the clock, the secrets, the file
-- system and the backend give, which crash points are set, and which calls of the admission service
-- other threads make at each of them and behind the promotion of the handle.
use linux_debug_mcp.Base.{ℕ, String, Bool, true, false, Option, none, some, List, Result, ok, err}
use linux_debug_mcp.Seams.TransportState.{TransportRef, OpenRequest, Endpoint, ArtifactRef}
use linux_debug_mcp.Seams.Guard.{GuardError}
use linux_debug_mcp.Coordination.Lease.{LeaseError}
use linux_debug_mcp.Coordination.Selection.{BreakPolicy, SelectionError}
use linux_debug_mcp.Coordination.Admission.{AdmissionService, AdmissionError}
use linux_debug_mcp.Coordination.Admission.Gate.{admit, admit_recovery}
use linux_debug_mcp.Coordination.Admission.Calls.{Call}
use linux_debug_mcp.Coordination.EndpointSafety.{EndpointSafetyError, TransportCapability}
use linux_debug_mcp.Coordination.Transaction.{OpenState, TransportTransaction}

-- A label of `_crash`.
pub data CrashPoint : Type 0 where
  selected guard_held lease_held record_written ready_written : CrashPoint

pub data OpenError : Type 0 where
  refused : AdmissionError → OpenError
  unselected : SelectionError → OpenError
  guarded : GuardError → OpenError
  leased : LeaseError → OpenError
  unsafe_endpoint : EndpointSafetyError → OpenError
  raised : String → OpenError
  no_channel : OpenError
  simulated_crash : CrashPoint → OpenError

pub record BackendAttachment : Type 0 where
  pub console_endpoint : Option Endpoint
  pub rsp_endpoint : Option Endpoint
  pub backend_pid : Option ℕ
  pub backend_start_time : Option String
  pub console_artifact : Option ArtifactRef

-- A report of attach to `on_partial`: a backend process, with what the write of its record raises,
-- or a report of another label or of malformed data.
pub data Partial : Type 0 where
  backend_process : ℕ → Option String → Option String → Partial
  ignored : Partial

pub record Surroundings : Type 0 where
  pub capability : TransportCapability
  pub policy : BreakPolicy
  pub is_loopback : String → Bool
  pub handle_id : String
  pub now : ℕ
  pub guard_secret : String
  pub lease_token : String
  pub session_id : String
  pub created_at : ℕ
  pub secrets_raise : Option String
  pub opening_write_raises : Option String
  pub partials : List Partial
  pub attach : Result String BackendAttachment
  pub ready_write_raises : Option String
  pub clear_raises : Option String
  pub delete_raises : Option String
  pub crash_after : CrashPoint → Bool
  pub meanwhile : CrashPoint → List Call
  pub meanwhile_promoted : List Call
  pub has_dispatcher : Bool

-- The transaction and the resources that the call holds so far.
pub record Progress : Type 0 where
  pub tx : TransportTransaction
  pub held : OpenState

abbrev pub M : Type 0 → Type 0
M A = Progress → Progress × Result OpenError A

infixl 5 ◌>>=◌ ◌>>◌
unfoldable pub ◌>>=◌ : {A B : Type 0} → M A → (A → M B) → M B
◌>>=◌ m f p = let (q, r) = m p in elim r [ ok a ↦ f a q | err e ↦ (q, err e) ]

unfoldable pub ◌>>◌ : {B : Type 0} → M (Unit {0}) → M B → M B
unfolding ◌>>=◌
m >> k = m >>= λ _. k

unfoldable pub returns : {A : Type 0} → A → M A
returns a p = (p, ok a)

unfoldable pub raises : {A : Type 0} → OpenError → M A
raises e p = (p, err e)

unfoldable pub lift : {E A : Type 0} → (E → OpenError) → Result E A → M A
lift as_error (ok a) p = (p, ok a)
lift as_error (err e) p = (p, err (as_error e))

unfoldable pub raise_text : Option String → M (Unit {0})
raise_text none p = (p, ok tt)
raise_text (some e) p = (p, err (raised e))

abbrev pub set_tx : Progress → TransportTransaction → Progress
set_tx p tx = record p { tx = tx }

unfoldable pub admit_open :
    Bool
    → AdmissionService
    → OpenRequest
    → ℕ
    → String
    → Result AdmissionError (AdmissionService × ℕ)
admit_open true s request now handle_id = admit_recovery s request.target_key request now handle_id
admit_open false s request now handle_id = admit s request.target_key request now handle_id

unfoldable pub channel_of : Option TransportRef → M TransportRef
unfolding returns raises
channel_of none = raises no_channel
channel_of (some channel) = returns channel
