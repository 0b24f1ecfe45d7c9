-- ===== src/Coordination/Admission/Conditions.antt =====
-- What the gate of src/kdive/coordination/admission.py asks of a request, stated as conditions, and
-- that it admits just the requests that meet them.
use linux_debug_mcp.Base.{
  ℕ, ◌<◌, ◌+◌, ◌*◌, ◌≡◌, ◌≢◌, ◌⊎◌, List, [], ◌∷◌, ◌↔◌, Bool, true, false, Option, none, some, ok,
  arith, subset, String-discrete,
}
use linux_debug_mcp.Seams.Target.{TargetKey, TargetState, PlatformMetadata, LeaseInfo}
use linux_debug_mcp.Seams.Routing.{routing_eq}
use linux_debug_mcp.Seams.TransportState.{TransportRef, OpenRequest}
use linux_debug_mcp.Coordination.Admission.{AdmissionService, TargetSnapshot}
use linux_debug_mcp.Coordination.Admission.Gate.{
  non_live, bind_snapshot, rebind, wrong_lease, near_expiry, check_platform_drift, validate_open,
}

-- No tombstone stands, or the one that does is older than the snapshot.
abbrev pub Ungated : Option ℕ → ℕ → Type 0
Ungated none generation = Unit {0}
Ungated (some parked) generation = parked < generation

-- The snapshot's lease, if there is one, is the request's, and outlasts the time that it asks for.
abbrev pub HoldsLease : Option LeaseInfo → Option LeaseInfo → Type 0
HoldsLease none lease = Unit {0}
HoldsLease (some held) none = ⊥
HoldsLease (some held) (some lease) = lease.lease_id ≡ held.lease_id

abbrev pub ttl_or : Option ℕ → ℕ → ℕ
ttl_or none default = default
ttl_or (some ttl) default = ttl

abbrev pub OutlastsUntil : Option ℕ → ℕ → Type 0
OutlastsUntil none until = Unit {0}
OutlastsUntil (some expires_at) until = until < expires_at

abbrev pub Outlasts : Option LeaseInfo → ℕ → Type 0
Outlasts none until = Unit {0}
Outlasts (some held) until = OutlastsUntil held.expires_at until

abbrev pub IsLiveTarget : TargetState → Type 0
IsLiveTarget state = (state ≡ TargetState.ready) ⊎ (state ≡ TargetState.debugging)

-- What any request must meet.
pub record Fits (s : AdmissionService) (k : TargetKey) (snapshot : TargetSnapshot) (generation : ℕ)
    (platform : PlatformMetadata) (lease : Option LeaseInfo) (min_ttl : Option ℕ) (now : ℕ)
    : Type 0 where
  pub open_now : s.closed_at k ≡ none
  pub published : s.snapshots k ≡ some snapshot
  pub current : generation ≡ snapshot.generation
  pub same_platform : platform ≡ snapshot.platform
  pub holds_lease : HoldsLease snapshot.lease lease
  pub outlasts : Outlasts snapshot.lease (now + ttl_or min_ttl s.default_min_lease_ttl * 1000000)
  pub live : IsLiveTarget snapshot.state

bind_snapshot_iff :
    (s : AdmissionService) (k : TargetKey) (generation : ℕ) (snapshot : TargetSnapshot)
    → (bind_snapshot s k generation true ≡ ok snapshot) ↔ (
        (s.closed_at k ≡ none)
        × (s.snapshots k ≡ some snapshot)
        × (generation ≡ snapshot.generation))
unfolding bind_snapshot
bind_snapshot_iff s k generation snapshot = ground arith

bind_snapshot_gated_iff :
    (s : AdmissionService) (k : TargetKey) (generation : ℕ) (snapshot : TargetSnapshot)
    → (bind_snapshot s k generation false ≡ ok snapshot) ↔ (
        (s.closed_at k ≡ none)
        × (s.snapshots k ≡ some snapshot)
        × (generation ≡ snapshot.generation)
        × Ungated (s.recovery_required k) snapshot.generation)
unfolding bind_snapshot
bind_snapshot_gated_iff s k generation snapshot = ground arith

pub wrong_lease_iff :
    (held lease : Option LeaseInfo) → (wrong_lease held lease ≡ false) ↔ HoldsLease held lease
unfolding wrong_lease
wrong_lease_iff held lease = ground arith

pub near_expiry_iff :
    (held : Option LeaseInfo) (min_ttl : Option ℕ) (default now : ℕ)
    → (near_expiry held min_ttl default now ≡ false)
      ↔ Outlasts held (now + ttl_or min_ttl default * 1000000)
unfolding near_expiry
near_expiry_iff none min_ttl default now = ground arith
near_expiry_iff (some held) none default now = ground arith
near_expiry_iff (some held) (some ttl) default now = ground arith

pub non_live_iff : (state : TargetState) → (non_live state ≡ false) ↔ IsLiveTarget state
unfolding non_live
non_live_iff state = ground arith

pub drift_iff :
    (snapshot : TargetSnapshot) (platform : PlatformMetadata)
    → (check_platform_drift snapshot platform ≡ ok tt) ↔ (platform ≡ snapshot.platform)
unfolding check_platform_drift
drift_iff snapshot platform = ground arith

-- The first of the channels with the reference's provider and id is this one, and it agrees with the
-- reference on the target's routing, the line's role and the caps.
abbrev pub IsOffered : TransportRef → TransportRef → List TransportRef → Type 0
IsOffered ref channel [] = ⊥
IsOffered ref channel (offered ∷ rest) =
    ((offered ≡ channel)
      × (offered.provider ≡ ref.provider)
      × (offered.channel_id ≡ ref.channel_id)
      × (routing_eq offered.target_ref ref.target_ref ≡ true)
      × (offered.line_role ≡ ref.line_role)
      × (offered.caps ≡ ref.caps))
    ⊎ (((offered.provider ≢ ref.provider) ⊎ (offered.channel_id ≢ ref.channel_id))
        × IsOffered ref channel rest)

IsOffered-sound :
    (ref channel : TransportRef) (transports : List TransportRef)
    → rebind ref transports ≡ ok channel
    → IsOffered ref channel transports
unfolding rebind
IsOffered-sound ref channel [] h = ground arith
IsOffered-sound ref channel (offered ∷ rest) h = ground (arith, IsOffered-sound ref channel rest)

IsOffered-complete :
    (ref channel : TransportRef) (transports : List TransportRef)
    → IsOffered ref channel transports
    → rebind ref transports ≡ ok channel
unfolding rebind
IsOffered-complete ref channel [] h = absurd h
IsOffered-complete ref channel (offered ∷ rest) h =
    ground (arith, IsOffered-complete ref channel rest)

-- The channel part of an open request.
pub record FitsChannel (k : TargetKey) (snapshot : TargetSnapshot) (request : OpenRequest)
    (channel : TransportRef) : Type 0 where
  pub addressed : request.target_key ≡ k
  pub offered : IsOffered request.transport_ref channel snapshot.transports
  pub capable : subset String-discrete request.required_caps channel.caps ≡ true

abbrev pub FitsOpen :
    AdmissionService → TargetKey → TargetSnapshot → TransportRef → OpenRequest → ℕ → Type 0
FitsOpen s k snapshot channel request now =
    Fits s k snapshot request.generation request.platform request.lease request.min_lease_ttl now
    × FitsChannel k snapshot request channel

-- Recovery passes the tombstone by.
abbrev pub PassesTombstone : AdmissionService → TargetKey → TargetSnapshot → Bool → Type 0
PassesTombstone s k snapshot true = Unit {0}
PassesTombstone s k snapshot false = Ungated (s.recovery_required k) snapshot.generation

pub bound_iff :
    (s : AdmissionService) (k : TargetKey) (generation : ℕ) (recovery : Bool)
    (snapshot : TargetSnapshot)
    → (bind_snapshot s k generation recovery ≡ ok snapshot) ↔ (
        (s.closed_at k ≡ none)
        × (s.snapshots k ≡ some snapshot)
        × (generation ≡ snapshot.generation)
        × PassesTombstone s k snapshot recovery)
bound_iff s k generation true snapshot = ground (arith, bind_snapshot_iff s k generation snapshot)
bound_iff s k generation false snapshot =
    ground (arith, bind_snapshot_gated_iff s k generation snapshot)

module _ (s : AdmissionService) (k : TargetKey) (request : OpenRequest) (now : ℕ) (recovery : Bool)
    (snapshot : TargetSnapshot) (channel : TransportRef) where
  pub validate_open_sound :
      validate_open s k request now recovery ≡ ok (snapshot, channel)
      → FitsOpen s k snapshot channel request now × PassesTombstone s k snapshot recovery
  unfolding validate_open
  validate_open_sound h = ground (
    arith,
    IsOffered-sound request.transport_ref channel snapshot.transports,
    bound_iff s k request.generation recovery snapshot,
    drift_iff snapshot request.platform,
    wrong_lease_iff snapshot.lease request.lease,
    near_expiry_iff snapshot.lease request.min_lease_ttl s.default_min_lease_ttl now,
    non_live_iff snapshot.state,
  )

  pub validate_open_complete :
      FitsOpen s k snapshot channel request now
      → PassesTombstone s k snapshot recovery
      → validate_open s k request now recovery ≡ ok (snapshot, channel)
  unfolding validate_open
  validate_open_complete f p = ground (
    arith,
    IsOffered-complete request.transport_ref channel snapshot.transports,
    bound_iff s k request.generation recovery snapshot,
    drift_iff snapshot request.platform,
    wrong_lease_iff snapshot.lease request.lease,
    near_expiry_iff snapshot.lease request.min_lease_ttl s.default_min_lease_ttl now,
    non_live_iff snapshot.state,
  )
