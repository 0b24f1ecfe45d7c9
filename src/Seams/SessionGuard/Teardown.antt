-- ===== src/Seams/SessionGuard/Teardown.antt =====
-- The teardown contract of SessionGuard (src/kdive/seams/guard.py).
use linux_debug_mcp.Base.{
  ◌≡◌, ◌↔◌, refl, String, true, ◌||◌, Option, none, some, List, [], ◌∷◌, ok, reverse, arith, elem,
  String-discrete, has_key, has_key-set_item, if◌then◌else◌,
}
use linux_debug_mcp.Seams.TransportState.{TransportSession, ExecutionState}
use linux_debug_mcp.Seams.SessionGuard.{
  SessionGuardContext, Action, TeardownStep, SessionGuard, TeardownReport, record_error, run_steps,
  resume_holds, report, check_resume, teardown,
}

-- A live record that still reports HALTED.
abbrev pub IsHalted : Option TransportSession → Type 0
IsHalted none = ⊥
IsHalted (some session) = session.execution_state ≡ ExecutionState.halted

resume_holds_iff :
    (session : Option TransportSession) → ((resume_holds session).0 ≡ true) ↔ ¬ IsHalted session
unfolding resume_holds
resume_holds_iff none = ((λ e h. h), λ h. refl)
resume_holds_iff (some session) = ((λ e h. ground arith), λ h. ground arith)

raises_as : Option String → String → List String → List String
raises_as none name names = names
raises_as (some e) name names = name ∷ names

has_key-record_error :
    (name key : String) (raised : Option String) (errors : List (String × String))
    → has_key name (record_error raised key errors)
      ≡ (has_key name errors || elem String-discrete name (raises_as raised key []))
unfolding record_error raises_as elem
has_key-record_error name key none errors = ground arith
has_key-record_error name key (some e) errors = ground (arith, has_key-set_item name key e errors)

module _ {W : Type 0} where
  -- The world after all the steps, and the names of those that raised.
  pub all_run : List (TeardownStep W) → SessionGuardContext → W → W
  all_run [] ctx w = w
  all_run (step ∷ steps) ctx w = all_run steps ctx (step.teardown ctx w).0

  pub raisers : List (TeardownStep W) → SessionGuardContext → W → List String
  raisers [] ctx w = []
  raisers (step ∷ steps) ctx w =
      raises_as (step.teardown ctx w).1 step.name (raisers steps ctx (step.teardown ctx w).0)

  run_steps-world :
      (steps : List (TeardownStep W)) (ctx : SessionGuardContext) (w : W)
      (errors : List (String × String))
      → (run_steps steps ctx w errors).0 ≡ all_run steps ctx w
  unfolding run_steps all_run
  run_steps-world [] ctx w errors = refl
  run_steps-world (step ∷ steps) ctx w errors = run_steps-world steps ctx (step.teardown ctx w).0 _

  run_steps-errors :
      (name : String) (steps : List (TeardownStep W)) (ctx : SessionGuardContext) (w : W)
      (errors : List (String × String))
      → has_key name (run_steps steps ctx w errors).1
        ≡ (has_key name errors || elem String-discrete name (raisers steps ctx w))
  unfolding run_steps raisers elem raises_as
  run_steps-errors name [] ctx w errors = ground arith
  run_steps-errors name (step ∷ steps) ctx w errors =
      let raised = (step.teardown ctx w).1 in
      let errors' = record_error raised step.name errors in
      ground (
        arith,
        run_steps-errors name steps ctx (step.teardown ctx w).0 errors',
        has_key-record_error name step.name raised errors,
      )

  -- What the teardown leaves when the record can be read: the world after `close`, or that world
  -- after one `force_reap` if `close` left the record HALTED.
  pub closed_world : SessionGuard W → SessionGuardContext → Action W → W → W
  unfolding all_run
  closed_world guard ctx close w = (close (all_run (reverse guard.teardown_steps) ctx w)).0

  pub final_world : (W → Option TransportSession) → Action W → W → W
  unfolding resume_holds
  final_world record_of force_reap w =
      if (resume_holds (record_of w)).0 then w else (force_reap w).0

  check_resume_lem :
      (record_of : W → Option TransportSession) (force_reap : Action W) (w : W)
      (errors : List (String × String)) (close_error : Option String)
      → let final = final_world record_of force_reap w in
        check_resume (ok (record_of w)) (λ v. ok (record_of v)) force_reap w errors close_error
        ≡ (final, ok (report errors close_error (resume_holds (record_of final))))
  unfolding check_resume final_world
  check_resume_lem record_of force_reap w errors close_error = ground arith

  -- Whatever the steps, `close` and `force_reap` raise, a teardown whose record reads succeed ends
  -- with a report. Every step has run, in reverse order; then `close`, and then `force_reap` just if
  -- the record was still HALTED. The report holds an error under each name of a step that raised
  -- and under no other, what `close` raised, and `resume_ok` just if the final record is not HALTED.
  pub teardown_lem :
      (guard : SessionGuard W) (ctx : SessionGuardContext) (close : Action W)
      (record_of : W → Option TransportSession) (force_reap : Action W) (w : W)
      → let steps = reverse guard.teardown_steps in
        let final = final_world record_of force_reap (closed_world guard ctx close w) in
        (r : TeardownReport) × (teardown guard ctx close (λ v. ok (record_of v)) force_reap w
          ≡ (final, ok r))
        × ((r.resume_ok ≡ true) ↔ ¬ IsHalted (record_of final))
        × (r.close_error ≡ (close (all_run steps ctx w)).1)
        × ((name : String)
            → has_key name r.step_errors ≡ elem String-discrete name (raisers steps ctx w))
  unfolding teardown final_world closed_world has_key
  teardown_lem guard ctx close record_of force_reap w =
      let steps = reverse guard.teardown_steps in
      let closing = close (all_run steps ctx w) in
      let final = final_world record_of force_reap closing.0 in
      let errors = (run_steps steps ctx w []).1 in
      (
        report errors closing.1 (resume_holds (record_of final)),
        rw (run_steps-world steps ctx w [])
            (check_resume_lem record_of force_reap closing.0 errors closing.1),
        resume_holds_iff (record_of final),
        refl,
        λ name. run_steps-errors name steps ctx w [],
      )
