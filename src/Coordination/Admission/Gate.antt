-- ===== src/Coordination/Admission/Gate.antt =====
-- The admission gate: admit and admit_recovery, with the checks that they run in order
-- (src/kdive/coordination/admission.py). `now` is in microseconds; `handle_id` is the value that
-- uuid4 gives.
use linux_debug_mcp.Base.{
  ℕ, ◌+◌, ◌*◌, String, Bool, true, false, not, ◌&&◌, Option, none, some, List, [], ◌∷◌, ◌++◌,
  Result, ok, err, ◌>>=◌, ◌>>◌, raise_if, if◌then◌else◌, leb, ◌==◌, holds, update, subset,
  String-discrete, ℕ_discrete,
}
use linux_debug_mcp.Seams.Target.{
  ErrorCategory, TargetKey, TargetKey-discrete, TargetState, TargetState-discrete, PlatformMetadata,
  PlatformMetadata-discrete, LeaseInfo,
}
use linux_debug_mcp.Seams.Routing.{routing_eq}
use linux_debug_mcp.Seams.TransportState.{
  TransportRef, OpenRequest, LineRole-discrete, Caps-discrete,
}
use linux_debug_mcp.Coordination.Admission.{
  AdmissionOp, AdmissionState, Code, AdmissionError, refusal, TargetSnapshot, AdmissionHandle,
  AdmissionService, Outcome,
}

abbrev pub raise_unready : Bool → Code → Result AdmissionError (Unit {0})
raise_unready test code = raise_if test (refusal ErrorCategory.readiness_failure code)

abbrev pub raise_bad_request : Bool → Code → Result AdmissionError (Unit {0})
raise_bad_request test code = raise_if test (refusal ErrorCategory.configuration_error code)

abbrev pub is_set {ℓ} : {A : Type ℓ} → Option A → Bool
is_set none = false
is_set (some a) = true

-- Members of _NON_LIVE_STATES.
unfoldable pub non_live : TargetState → Bool
non_live TargetState.ready = false
non_live TargetState.debugging = false
non_live _ = true

-- A tombstone gates ordinary admission unless it is older than the published snapshot.
unfoldable pub tombstone_gates : Option ℕ → Option TargetSnapshot → Bool
tombstone_gates none snapshot = false
tombstone_gates (some parked) none = true
tombstone_gates (some parked) (some snapshot) = leb snapshot.generation parked

current_generation : Option TargetSnapshot → ℕ → Result AdmissionError TargetSnapshot
current_generation none generation = err (refusal ErrorCategory.stale_handle Code.stale_handle)
current_generation (some snapshot) generation =
    if generation == snapshot.generation
    then ok snapshot
    else err (refusal ErrorCategory.stale_handle Code.stale_handle)

unfoldable pub bind_snapshot :
    AdmissionService → TargetKey → ℕ → Bool → Result AdmissionError TargetSnapshot
unfolding tombstone_gates current_generation
bind_snapshot s k generation recovery = do
  raise_unready (is_set (s.closed_at k)) Code.admission_closed
  raise_unready (not recovery && tombstone_gates (s.recovery_required k) (s.snapshots k))
      Code.recovery_required
  current_generation (s.snapshots k) generation

same_channel : TransportRef → TransportRef → Bool
same_channel offered ref =
    holds (String-discrete offered.provider ref.provider)
    && holds (String-discrete offered.channel_id ref.channel_id)

same_routing : TransportRef → TransportRef → Bool
unfolding routing_eq
same_routing offered ref =
    routing_eq offered.target_ref ref.target_ref
    && holds (LineRole-discrete offered.line_role ref.line_role)
    && holds (Caps-discrete offered.caps ref.caps)

-- The first offered channel of that provider and id decides.
unfoldable pub rebind : TransportRef → List TransportRef → Result AdmissionError TransportRef
unfolding same_channel same_routing
rebind ref [] = err (refusal ErrorCategory.configuration_error Code.foreign_ref)
rebind ref (offered ∷ rest) =
    let later = rebind ref rest in
    if same_channel offered ref
    then (if same_routing offered ref
        then ok offered
        else err (refusal ErrorCategory.configuration_error Code.foreign_ref))
    else later

unfoldable pub wrong_lease : Option LeaseInfo → Option LeaseInfo → Bool
wrong_lease none lease = false
wrong_lease (some held) none = true
wrong_lease (some held) (some lease) = not (holds (String-discrete lease.lease_id held.lease_id))

effective_ttl : Option ℕ → ℕ → ℕ
effective_ttl none default = default
effective_ttl (some ttl) default = ttl

expires_within : Option ℕ → ℕ → ℕ → Bool
expires_within none ttl now = false
expires_within (some expires_at) ttl now = leb expires_at (now + ttl * 1000000)

unfoldable pub near_expiry : Option LeaseInfo → Option ℕ → ℕ → ℕ → Bool
unfolding effective_ttl expires_within
near_expiry none min_ttl default now = false
near_expiry (some held) min_ttl default now =
    expires_within held.expires_at (effective_ttl min_ttl default) now

unfoldable pub check_platform_drift :
    TargetSnapshot → PlatformMetadata → Result AdmissionError (Unit {0})
check_platform_drift snapshot platform =
    raise_bad_request (not (holds (PlatformMetadata-discrete platform snapshot.platform)))
      Code.stale_platform

-- The checks of a request that carries a channel.
unfoldable pub validate_open :
    AdmissionService
    → TargetKey
    → OpenRequest
    → ℕ
    → Bool
    → Result AdmissionError (TargetSnapshot × TransportRef)
validate_open s k request now recovery = do
  raise_bad_request (not (holds (TargetKey-discrete request.target_key k))) Code.target_mismatch
  snapshot ← bind_snapshot s k request.generation recovery
  channel ← rebind request.transport_ref snapshot.transports
  raise_bad_request (not (subset String-discrete request.required_caps channel.caps))
      Code.insufficient_caps
  check_platform_drift snapshot request.platform
  raise_bad_request (wrong_lease snapshot.lease request.lease) Code.stale_lease
  raise_unready (near_expiry snapshot.lease request.min_lease_ttl s.default_min_lease_ttl now)
      Code.lease_near_expiry
  raise_unready (non_live snapshot.state) Code.target_not_ready
  ok (snapshot, channel)

-- A new pending handle, bound to the admitted generation and execution epoch.
unfoldable pub register :
    AdmissionService
    → TargetKey
    → AdmissionOp
    → Option TransportRef
    → TargetSnapshot
    → Bool
    → String
    → AdmissionService × ℕ
register s k op channel snapshot recovery handle_id = (
  record s {
    bindings = update TargetKey-discrete s.bindings k (s.bindings k ++ s.next_ref ∷ []);
    heap = update ℕ_discrete s.heap s.next_ref (some handle);
    next_ref = s.next_ref + 1;
  },
  s.next_ref,
)
  where
    handle : AdmissionHandle
    handle = record {
      handle_id = handle_id;
      target_key = k;
      generation = snapshot.generation;
      admit_epoch = s.exec_epoch k;
      op = op;
      channel = channel;
      platform = snapshot.platform;
      recovery = recovery;
      state = AdmissionState.pending;
      cancelled = false;
      reaped = false;
    }

-- transport.open: the target must be READY.
unfoldable pub admit : AdmissionService → TargetKey → OpenRequest → ℕ → String → Outcome ℕ
admit s k request now handle_id = do
  (snapshot, channel) ← validate_open s k request now false
  raise_unready (not (holds (TargetState-discrete snapshot.state TargetState.ready)))
      Code.target_not_ready
  ok (register s k AdmissionOp.transport_open (some channel) snapshot false handle_id)

lacks_tombstone : Option ℕ → ℕ → Bool
lacks_tombstone none generation = true
lacks_tombstone (some parked) generation = not (parked == generation)

-- The one entry while the target is recovery_required.
unfoldable pub admit_recovery : AdmissionService → TargetKey → OpenRequest → ℕ → String → Outcome ℕ
unfolding lacks_tombstone
admit_recovery s k request now handle_id = do
  (snapshot, channel) ← validate_open s k request now true
  raise_unready (lacks_tombstone (s.recovery_required k) snapshot.generation)
      Code.not_recovery_required
  ok (register s k AdmissionOp.transport_open (some channel) snapshot true handle_id)
