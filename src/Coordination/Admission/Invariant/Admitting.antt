-- ===== src/Coordination/Admission/Invariant/Admitting.antt =====
-- Publication and the three admissions of src/kdive/coordination/admission.py keep the invariant.
use linux_debug_mcp.Base.{
  ℕ, ◌≡◌, String, Bool, true, false, Option, none, some, arith, elem, elem-snoc, Distinct-snoc,
}
use linux_debug_mcp.Seams.Target.{TargetKey}
use linux_debug_mcp.Seams.TransportState.{TransportRef, OpenRequest}
use linux_debug_mcp.Coordination.Admission.{
  AdmissionService, AdmissionOp, TargetSnapshot, publish_snapshot, init, is_live,
}
use linux_debug_mcp.Coordination.Admission.Gate.{register, admit, admit_recovery}
use linux_debug_mcp.Coordination.Admission.SshTier.{SshRequest, admit_ssh_tier}
use linux_debug_mcp.Coordination.Admission.Admits.{
  admit_sound, admit_recovery_sound, admit_ssh_tier_sound,
}
use linux_debug_mcp.Coordination.Admission.Calls.{after, after_pair, after_pair-ok}
use linux_debug_mcp.Coordination.Admission.Invariant.{Inv}

pub init-Inv : (ttl : ℕ) → Inv (init ttl)
unfolding init elem
init-Inv ttl = record {
  table = λ r k. ground arith;
  distinct = λ k. tt;
  allocated = λ r h. ground arith;
  fenced = λ r. tt;
}

pub publish_snapshot-Inv :
    (s : AdmissionService) (k : TargetKey) (snapshot : TargetSnapshot)
    → Inv s
    → Inv (after s (publish_snapshot s k snapshot))
unfolding publish_snapshot
publish_snapshot-Inv s k snapshot v = record {
  table = λ q j. ground (arith, v.table q j);
  distinct = λ j. ground (arith, v.distinct j);
  allocated = λ q h. ground (arith, v.allocated q);
  fenced = λ q. ground (arith, v.fenced q);
}

module _ (s : AdmissionService) (k : TargetKey) (op : AdmissionOp) (channel : Option TransportRef)
    (snapshot : TargetSnapshot) (recovery : Bool) (id : String) where
  register-Inv :
      s.closed_at k ≡ none
      → s.snapshots k ≡ some snapshot
      → Inv s
      → Inv (register s k op channel snapshot recovery id).0
  unfolding register is_live
  register-Inv open_now published v = record {
    table = λ q j. ground (
      arith,
      v.table q j,
      v.table s.next_ref j,
      v.allocated s.next_ref,
      elem-snoc q s.next_ref (s.bindings k),
    );
    distinct = λ j. ground (
      arith,
      v.distinct j,
      v.table s.next_ref k,
      v.allocated s.next_ref,
      Distinct-snoc s.next_ref (s.bindings k),
    );
    allocated = λ q h. ground (arith, v.allocated q);
    fenced = λ q. ground (arith, v.fenced q);
  }

module _ (s : AdmissionService) (k : TargetKey) (request : OpenRequest) (now : ℕ)
    (id : String) where
  pub admit-Inv : Inv s → Inv (after_pair s (admit s k request now id))
  admit-Inv v = after_pair-ok Inv s (admit s k request now id) v λ out m.
      let (snapshot, channel, fits, registered) = admit_sound s k request now id out m in
      rw registered (
        register-Inv s k AdmissionOp.transport_open (some channel) snapshot false id
          fits.0.0.open_now fits.0.0.published v)

  pub admit_recovery-Inv : Inv s → Inv (after_pair s (admit_recovery s k request now id))
  admit_recovery-Inv v = after_pair-ok Inv s (admit_recovery s k request now id) v λ out m.
      let (snapshot, channel, fits, parked, registered) =
        admit_recovery_sound s k request now id out m in
      rw registered (
        register-Inv s k AdmissionOp.transport_open (some channel) snapshot true id fits.0.open_now
          fits.0.published v)

pub admit_ssh_tier-Inv :
    (s : AdmissionService) (k : TargetKey) (request : SshRequest) (now : ℕ) (id : String)
    → Inv s
    → Inv (after_pair s (admit_ssh_tier s k request now id))
admit_ssh_tier-Inv s k request now id v =
    after_pair-ok Inv s (admit_ssh_tier s k request now id) v λ out m.
      let (snapshot, fits, registered) = admit_ssh_tier_sound s k request now id out m in
      rw registered (
        register-Inv s k AdmissionOp.ssh_tier none snapshot false id fits.0.open_now
          fits.0.published v)
