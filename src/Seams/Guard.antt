-- ===== src/Seams/Guard.antt =====
-- InProcessStopCapableGuard (src/kdive/seams/guard.py): one stop-capable holder for each target.
-- Each method is one atomic step, since it runs under the lock. `secret` is the value of uuid4.
pub mod Fencing
mod Tests
use linux_debug_mcp.Base.{
  ℕ, ◌+◌, ◌≡◌, String, Bool, true, false, Option, none, some, Result, ok, err, ite, update, holds,
  String-discrete, ℕ_discrete, not, if◌then◌else◌,
}
use linux_debug_mcp.Seams.Target.{TargetKey, TargetKey-discrete}

pub record GuardToken : Type 0 where
  pub target_key : TargetKey
  pub fence : ℕ
  pub secret : String

pub data GuardError : Type 0 where
  guard_conflict : GuardError

pub record StopCapableGuard : Type 0 where
  pub holders : TargetKey → Option GuardToken
  pub fence : ℕ

unfoldable pub GuardToken-discrete : Discrete GuardToken
unfolding TargetKey-discrete ℕ_discrete String-discrete
GuardToken-discrete = hlevel (TargetKey-discrete, ℕ_discrete, String-discrete)

abbrev pub new_guard : StopCapableGuard
new_guard = record { holders = λ _. none; fence = 0 }

abbrev pub minted : StopCapableGuard → TargetKey → String → GuardToken
minted g k secret = record { target_key = k; fence = g.fence + 1; secret = secret }

acquire_if_free :
    Option GuardToken
    → StopCapableGuard
    → TargetKey
    → String
    → Result GuardError (StopCapableGuard × GuardToken)
acquire_if_free (some held) g k secret = err guard_conflict
acquire_if_free none g k secret = ok (
  record {
    holders = update TargetKey-discrete g.holders k (some (minted g k secret));
    fence = g.fence + 1;
  },
  minted g k secret,
)

unfoldable pub acquire :
    StopCapableGuard → TargetKey → String → Result GuardError (StopCapableGuard × GuardToken)
unfolding acquire_if_free
acquire g k secret = acquire_if_free (g.holders k) g k secret

abbrev pub freed : StopCapableGuard → TargetKey → StopCapableGuard
freed g k = record g { holders = update TargetKey-discrete g.holders k none }

release_current :
    Option GuardToken → StopCapableGuard → TargetKey → GuardToken → StopCapableGuard × Bool
release_current none g k token = (g, false)
release_current (some current) g k token =
    ite (GuardToken-discrete current token) (freed g k, true) (g, false)

unfoldable pub release : StopCapableGuard → TargetKey → GuardToken → StopCapableGuard × Bool
unfolding release_current
release g k token =
    ite (TargetKey-discrete token.target_key k) (release_current (g.holders k) g k token) (g, false)

unfoldable pub revoke : StopCapableGuard → TargetKey → StopCapableGuard
revoke g k = freed g k
