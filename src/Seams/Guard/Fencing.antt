-- ===== src/Seams/Guard/Fencing.antt =====
-- The fence of the stop-capable guard (src/kdive/seams/guard.py) over histories of its calls.
use linux_debug_mcp.Base.{
  ℕ, ◌≤◌, ◌≡◌, ◌≢◌, String, false, Option, none, some, List, [], ◌∷◌, Result, ok, err, arith, ap,
}
use linux_debug_mcp.Seams.Target.{TargetKey}
use linux_debug_mcp.Seams.Guard.{GuardToken, GuardError, StopCapableGuard, acquire, release, revoke}

pub data Call : Type 0 where
  acquires : TargetKey → String → Call
  releases : TargetKey → GuardToken → Call
  revokes : TargetKey → Call

abbrev after :
    StopCapableGuard → Result GuardError (StopCapableGuard × GuardToken) → StopCapableGuard
after g (ok (g', token)) = g'
after g (err e) = g

unfoldable pub step : StopCapableGuard → Call → StopCapableGuard
step g (acquires k secret) = after g (acquire g k secret)
step g (releases k token) = (release g k token).0
step g (revokes k) = revoke g k

unfoldable pub run : StopCapableGuard → List Call → StopCapableGuard
run g [] = g
run g (c ∷ cs) = run (step g c) cs

-- A holder's token names its target, and its fence has been given out.
abbrev pub HoldsFor : TargetKey → ℕ → Option GuardToken → Type 0
HoldsFor k fence none = Unit {0}
HoldsFor k fence (some token) = (token.target_key ≡ k) × (token.fence ≤ fence)

abbrev pub IsFenced : StopCapableGuard → Type 0
IsFenced g = (k : TargetKey) → HoldsFor k g.fence (g.holders k)

-- The token has been minted, and holds nothing any more.
abbrev pub IsSpent : GuardToken → StopCapableGuard → Type 0
IsSpent t g = (t.fence ≤ g.fence) × (g.holders t.target_key ≢ some t)

step-IsFenced : (g : StopCapableGuard) (c : Call) → IsFenced g → IsFenced (step g c)
unfolding step acquire release revoke
step-IsFenced g (acquires k secret) v j = ground (arith, v j)
step-IsFenced g (releases k token) v j = ground (arith, v j)
step-IsFenced g (revokes k) v j = ground (arith, v j)

-- Any history of calls keeps it that each holder's token names its own target under a fence that
-- has been given out.
pub run-IsFenced : (g : StopCapableGuard) (cs : List Call) → IsFenced g → IsFenced (run g cs)
unfolding run
run-IsFenced g [] v = v
run-IsFenced g (c ∷ cs) v = run-IsFenced (step g c) cs (step-IsFenced g c v)

step-IsSpent :
    (t : GuardToken) (g : StopCapableGuard) (c : Call) → IsSpent t g → IsSpent t (step g c)
unfolding step acquire release revoke
step-IsSpent t g (acquires k secret) (old, out) =
    (ground arith, λ e. ground (arith, ap (λ (o : Option GuardToken). o) e, out))
step-IsSpent t g (releases k token) (old, out) = (ground arith, λ e. ground arith)
step-IsSpent t g (revokes k) (old, out) = (ground arith, λ e. ground arith)

run-IsSpent :
    (t : GuardToken) (g : StopCapableGuard) (cs : List Call) → IsSpent t g → IsSpent t (run g cs)
unfolding run
run-IsSpent t g [] h = h
run-IsSpent t g (c ∷ cs) h = run-IsSpent t (step g c) cs (step-IsSpent t g c h)

-- A token that no longer holds its target frees nothing, for any target, after any history of
-- further calls: `release` answers False and changes nothing.
pub spent_token_frees_nothing :
    (t : GuardToken) (g : StopCapableGuard) (cs : List Call) (k : TargetKey)
    → IsSpent t g
    → release (run g cs) k t ≡ (run g cs, false)
unfolding release
spent_token_frees_nothing t g cs k h = let out = (run-IsSpent t g cs h).1 in ground arith
