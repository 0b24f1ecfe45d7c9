-- ===== src/Coordination/Admission/Evolution.antt =====
-- How the state of src/kdive/coordination/admission.py moves under one call: handles keep their
-- identity and their fences, and epochs and generations never go back.
pub mod Admitting
pub mod Handles
pub mod Steps
pub mod Fences
use linux_debug_mcp.Base.{
  ℕ, ◌≤◌, ◌≡◌, refl, ◌∙◌, Bool, true, false, Option, none, some, String, arith,
}
use linux_debug_mcp.Seams.Target.{TargetKey, PlatformMetadata}
use linux_debug_mcp.Coordination.Admission.{
  AdmissionService, AdmissionHandle, AdmissionState, TargetSnapshot, is_live,
}

-- The identity and authority fields, which are bound at admission.
abbrev pub SameBinding : AdmissionHandle → AdmissionHandle → Type 0
SameBinding h h' =
    (h'.handle_id ≡ h.handle_id)
    × (h'.target_key ≡ h.target_key)
    × (h'.generation ≡ h.generation)
    × (h'.admit_epoch ≡ h.admit_epoch)
    × (h'.op ≡ h.op)
    × (h'.channel ≡ h.channel)
    × (h'.platform ≡ h.platform)
    × (h'.recovery ≡ h.recovery)

pub record Evolves (h h' : AdmissionHandle) : Type 0 where
  pub same : SameBinding h h'
  pub keeps_cancelled : h.cancelled ≡ true → h'.cancelled ≡ true
  pub keeps_reaped : h.reaped ≡ true → h'.reaped ≡ true
  pub keeps_end : is_live h.state ≡ false → h'.state ≡ h.state
  pub never_back : h'.state ≡ AdmissionState.pending → h.state ≡ AdmissionState.pending
  pub cancelled_unpromoted :
      h.cancelled ≡ true → h'.state ≡ AdmissionState.promoted → h.state ≡ AdmissionState.promoted
  pub cancelled_uncompleted :
      h.cancelled ≡ true → h'.state ≡ AdmissionState.completed → h.state ≡ AdmissionState.completed

abbrev pub EvolvesAt : Option AdmissionHandle → Option AdmissionHandle → Type 0
EvolvesAt none o' = Unit {0}
EvolvesAt (some h) none = ⊥
EvolvesAt (some h) (some h') = Evolves h h'

abbrev pub NotOlder : Option TargetSnapshot → Option TargetSnapshot → Type 0
NotOlder none o' = Unit {0}
NotOlder (some snapshot) none = ⊥
NotOlder (some snapshot) (some snapshot') = snapshot.generation ≤ snapshot'.generation

pub record Later (s s' : AdmissionService) : Type 0 where
  pub handles : (r : ℕ) → EvolvesAt (s.heap r) (s'.heap r)
  pub epochs : (k : TargetKey) → s.exec_epoch k ≤ s'.exec_epoch k
  pub generations : (k : TargetKey) → NotOlder (s.snapshots k) (s'.snapshots k)

pub EvolvesAt-refl : (o : Option AdmissionHandle) → EvolvesAt o o
EvolvesAt-refl none = tt
EvolvesAt-refl (some h) = ground arith

EvolvesAt-trans : (o p q : Option AdmissionHandle) → EvolvesAt o p → EvolvesAt p q → EvolvesAt o q
EvolvesAt-trans none p q e f = tt
EvolvesAt-trans (some h) none q e f = absurd e
EvolvesAt-trans (some h) (some h') none e f = absurd f
EvolvesAt-trans (some h) (some h') (some h'') e f = ground arith

NotOlder-trans : (o p q : Option TargetSnapshot) → NotOlder o p → NotOlder p q → NotOlder o q
NotOlder-trans none p q e f = tt
NotOlder-trans (some a) none q e f = absurd e
NotOlder-trans (some a) (some b) none e f = absurd f
NotOlder-trans (some a) (some b) (some c) e f = omega arith

NotOlder-refl : (o : Option TargetSnapshot) → NotOlder o o
NotOlder-refl none = tt
NotOlder-refl (some a) = omega arith

pub Later-refl : (s : AdmissionService) → Later s s
Later-refl s = record {
  handles = λ r. EvolvesAt-refl (s.heap r);
  epochs = λ k. omega arith;
  generations = λ k. NotOlder-refl (s.snapshots k);
}

pub Later-trans : (s t u : AdmissionService) → Later s t → Later t u → Later s u
Later-trans s t u l m = record {
  handles = λ r. EvolvesAt-trans (s.heap r) (t.heap r) (u.heap r) (l.handles r) (m.handles r);
  epochs = λ k. omega (arith, l.epochs k, m.epochs k);
  generations = λ k.
      NotOlder-trans (s.snapshots k) (t.snapshots k) (u.snapshots k) (l.generations k)
        (m.generations k);
}
