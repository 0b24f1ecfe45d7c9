-- ===== src/Coordination/Lease/Tokens.antt =====
-- Who can free a console lease, and for how long (src/kdive/coordination/lease.py).
use linux_debug_mcp.Base.{
  ◌+◌, ◌≡◌, ◌≢◌, refl, String, true, false, none, some, List, [], ◌∷◌, Result, ok, err, arith, ◌↔◌,
}
use linux_debug_mcp.Coordination.Lease.{
  LeaseOwner, LeaseError, conflict, ConsoleLease, granted, acquire, release, revoke,
}

-- A lease is FREE just when it has no token.
abbrev pub IsValid : ConsoleLease → Type 0
IsValid l = (l.owner ≡ LeaseOwner.free) ↔ (l.token ≡ none)

-- The calls of one lease, each acquisition with the token that it mints.
pub data Call : Type 0 where
  acquires : LeaseOwner → String → Call
  releases : String → Call
  revokes : Call

abbrev after : ConsoleLease → Result LeaseError (ConsoleLease × String) → ConsoleLease
after l (ok (l', token)) = l'
after l (err e) = l

unfoldable pub step : ConsoleLease → Call → ConsoleLease
step l (acquires owner token) = after l (acquire l owner token)
step l (releases token) = (release l token).0
step l revokes = revoke l

unfoldable pub run : ConsoleLease → List Call → ConsoleLease
run l [] = l
run l (c ∷ cs) = run (step l c) cs

-- No acquisition among the calls mints this token again: what uuid4 is relied on for.
abbrev pub Mints : String → Call → Type 0
Mints t (acquires owner token) = token ≢ t
Mints t _ = Unit {0}

abbrev pub NeverMints : String → List Call → Type 0
NeverMints t [] = Unit {0}
NeverMints t (c ∷ cs) = Mints t c × NeverMints t cs

module _ (l : ConsoleLease) where
  step-IsValid : (c : Call) → IsValid l → IsValid (step l c)
  unfolding step acquire release revoke
  step-IsValid (acquires LeaseOwner.free token) v = v
  step-IsValid (acquires LeaseOwner.provisioner token) v = ground arith
  step-IsValid (acquires LeaseOwner.transport token) v = ground arith
  step-IsValid (releases token) v = ground arith
  step-IsValid revokes v = ground arith

  stays_out : (t : String) (c : Call) → Mints t c → l.token ≢ some t → (step l c).token ≢ some t
  unfolding step acquire release revoke
  stays_out t (acquires LeaseOwner.free token) m h = h
  stays_out t (acquires LeaseOwner.provisioner token) m h = ground arith
  stays_out t (acquires LeaseOwner.transport token) m h = ground arith
  stays_out t (releases token) m h = ground arith
  stays_out t revokes m h = ground arith

run_stays_out :
    (t : String) (l : ConsoleLease) (cs : List Call)
    → NeverMints t cs
    → l.token ≢ some t
    → (run l cs).token ≢ some t
unfolding run
run_stays_out t l [] m h = h
run_stays_out t l (c ∷ cs) m h = run_stays_out t (step l c) cs m.1 (stays_out l t c m.0 h)

-- Any history keeps it that the lease is FREE just when it has no token.
pub run-IsValid : (l : ConsoleLease) (cs : List Call) → IsValid l → IsValid (run l cs)
unfolding run
run-IsValid l [] v = v
run-IsValid l (c ∷ cs) v = run-IsValid (step l c) cs (step-IsValid l c v)

-- A token that is not the current one, be it released, revoked or foreign, frees nothing after any
-- history in which it is not minted anew: `release` answers False and changes nothing.
pub stale_token_frees_nothing :
    (t : String) (l : ConsoleLease) (cs : List Call)
    → NeverMints t cs
    → l.token ≢ some t
    → release (run l cs) t ≡ (run l cs, false)
unfolding release
stale_token_frees_nothing t l cs m h = ground (arith, run_stays_out t l cs m h)

-- An acquisition for a real owner succeeds just when the lease is FREE. It then returns the token
-- that is minted, under a new generation, and that token frees the lease again.
pub acquire_lem :
    (l : ConsoleLease) (owner : LeaseOwner) (token : String)
    → owner ≢ LeaseOwner.free
    → (l.owner ≡ LeaseOwner.free → acquire l owner token ≡ ok (granted l owner token, token))
      × (l.owner ≢ LeaseOwner.free → acquire l owner token ≡ err conflict)
      × (release (granted l owner token) token ≡ (
        record l { owner = LeaseOwner.free; token = none; generation = l.generation + 1 },
        true,
      ))
unfolding acquire release
acquire_lem l LeaseOwner.free token h = absurd (h refl)
acquire_lem l LeaseOwner.provisioner token h = (ground arith, ground arith, ground arith)
acquire_lem l LeaseOwner.transport token h = (ground arith, ground arith, ground arith)
