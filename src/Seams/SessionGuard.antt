-- ===== src/Seams/SessionGuard.antt =====
-- SessionGuard (src/kdive/seams/guard.py): the preconditions of a debug session and its teardown.
-- What the callbacks do is a parameter: they act on a world, and may raise. An exception is its
-- `repr`; logging is not modelled.
pub mod Teardown
mod Tests
use linux_debug_mcp.Base.{
  ℕ, String, Bool, true, false, Option, none, some, List, [], ◌∷◌, Result, ok, err, reverse, ite,
  if◌then◌else◌, set_item,
}
use linux_debug_mcp.Seams.Target.{TargetKey}
use linux_debug_mcp.Seams.TransportState.{TransportSession, ExecutionState}

pub data TeardownReason : Type 0 where
  ended attach_error : TeardownReason

pub record SessionGuardContext : Type 0 where
  pub target_key : TargetKey
  pub generation : ℕ
  pub session_id : Option String
  pub reason : TeardownReason

-- A `check` that raises names its precondition in the error.
pub record PreconditionError : Type 0 where
  pub message : String
  pub name : String

abbrev pub Action : Type 0 → Type 0
Action W = W → W × Option String

abbrev pub PreAttachPrecondition : Type 0 → Type 0
PreAttachPrecondition W = SessionGuardContext → W → W × Option PreconditionError

abbrev pub PostAttachPrecondition : Type 0 → Type 0
PostAttachPrecondition W = SessionGuardContext → TransportSession → W → W × Option PreconditionError

pub record TeardownStep (W : Type 0) : Type 0 where
  pub name : String
  pub teardown : SessionGuardContext → Action W

pub record SessionGuard (W : Type 0) : Type 0 where
  pub pre_attach : List (PreAttachPrecondition W)
  pub post_attach : List (PostAttachPrecondition W)
  pub teardown_steps : List (TeardownStep W)

pub record TeardownReport : Type 0 where
  pub step_errors : List (String × String)
  pub close_error : Option String
  pub resume_ok : Bool
  pub resume_detail : String

record_error : Option String → String → List (String × String) → List (String × String)
record_error none name errors = errors
record_error (some e) name errors = set_item name e errors

-- No record, or one that is not HALTED.
unfoldable pub resume_holds : Option TransportSession → Bool × String
resume_holds none = (true, "")
resume_holds (some session) = elim session.execution_state [
  | ExecutionState.halted ↦ (false, "durable record still reports HALTED with no owner")
  | _ ↦ (true, "")
]

report : List (String × String) → Option String → Bool × String → TeardownReport
report errors close_error (resume_ok, detail) = record {
  step_errors = errors;
  close_error = close_error;
  resume_ok = resume_ok;
  resume_detail = detail;
}

abbrev pub ReadRecord : Type 0 → Type 0
ReadRecord W = W → Result String (Option TransportSession)

abbrev pub Reported : Type 0 → Type 0
Reported W = W × Result String TeardownReport

module _ {W : Type 0} where
  stop_or :
      Option PreconditionError → W → W × Option PreconditionError → W × Option PreconditionError
  stop_or (some e) w rest = (w, some e)
  stop_or none w rest = rest

  -- The first failure aborts.
  unfoldable pub enter :
      List (PreAttachPrecondition W) → SessionGuardContext → W → W × Option PreconditionError
  unfolding stop_or
  enter [] ctx w = (w, none)
  enter (check ∷ checks) ctx w =
      let (w', raised) = check ctx w in let rest = enter checks ctx w' in stop_or raised w' rest

  unfoldable pub verify_attached :
      List (PostAttachPrecondition W)
      → SessionGuardContext
      → TransportSession
      → W
      → W × Option PreconditionError
  unfolding stop_or
  verify_attached [] ctx session w = (w, none)
  verify_attached (check ∷ checks) ctx session w =
      let (w', raised) = check ctx session w in
      let rest = verify_attached checks ctx session w' in stop_or raised w' rest

  -- The steps in the order given, each run whatever the others raised.
  unfoldable pub run_steps :
      List (TeardownStep W)
      → SessionGuardContext
      → W
      → List (String × String)
      → W × List (String × String)
  unfolding record_error
  run_steps [] ctx w errors = (w, errors)
  run_steps (step ∷ steps) ctx w errors =
      let (w', raised) = step.teardown ctx w in
      run_steps steps ctx w' (record_error raised step.name errors)

  -- After force_reap the record is read once more.
  recheck :
      Result String (Option TransportSession)
      → W
      → List (String × String)
      → Option String
      → Reported W
  unfolding report resume_holds
  recheck (err e) w errors close_error = (w, err e)
  recheck (ok session) w errors close_error =
      (w, ok (report errors close_error (resume_holds session)))

  finish :
      Bool
      → ReadRecord W
      → Action W
      → Option TransportSession
      → W
      → List (String × String)
      → Option String
      → Reported W
  unfolding report recheck resume_holds
  finish true read_record force_reap session w errors close_error =
      (w, ok (report errors close_error (resume_holds session)))
  finish false read_record force_reap session w errors close_error =
      let w' = (force_reap w).0 in recheck (read_record w') w' errors close_error

  check_resume :
      Result String (Option TransportSession)
      → ReadRecord W
      → Action W
      → W
      → List (String × String)
      → Option String
      → Reported W
  unfolding finish resume_holds
  check_resume (err e) read_record force_reap w errors close_error = (w, err e)
  check_resume (ok session) read_record force_reap w errors close_error =
      finish (resume_holds session).0 read_record force_reap session w errors close_error

  -- Steps in reverse order, then `close`, then the check of the durable record, with one
  -- `force_reap` if it fails. What `close` and `force_reap` raise is suppressed.
  unfoldable pub teardown :
      SessionGuard W → SessionGuardContext → Action W → ReadRecord W → Action W → W → Reported W
  unfolding run_steps check_resume
  teardown guard ctx close read_record force_reap w =
      let (w1, errors) = run_steps (reverse guard.teardown_steps) ctx w [] in
      let (w2, close_error) = close w1 in
      check_resume (read_record w2) read_record force_reap w2 errors close_error
