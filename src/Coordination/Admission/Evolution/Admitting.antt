-- ===== src/Coordination/Admission/Evolution/Admitting.antt =====
-- Publication and admission (src/kdive/coordination/admission.py) only move the state forward.
use linux_debug_mcp.Base.{ℕ, Bool, true, false, Option, none, some, String, arith}
use linux_debug_mcp.Seams.Target.{TargetKey}
use linux_debug_mcp.Seams.TransportState.{TransportRef, OpenRequest}
use linux_debug_mcp.Coordination.Admission.{
  AdmissionService, AdmissionOp, TargetSnapshot, publish_snapshot,
}
use linux_debug_mcp.Coordination.Admission.Gate.{register, admit, admit_recovery}
use linux_debug_mcp.Coordination.Admission.SshTier.{SshRequest, admit_ssh_tier}
use linux_debug_mcp.Coordination.Admission.Admits.{
  admit_sound, admit_recovery_sound, admit_ssh_tier_sound,
}
use linux_debug_mcp.Coordination.Admission.Calls.{after, after_pair, after_pair-ok}
use linux_debug_mcp.Coordination.Admission.Invariant.{Inv}
use linux_debug_mcp.Coordination.Admission.Evolution.{Later, EvolvesAt-refl, Later-refl}

module _ (s : AdmissionService) where
  pub publish_snapshot-Later :
      (k : TargetKey) (snapshot : TargetSnapshot)
      → Later s (after s (publish_snapshot s k snapshot))
  unfolding publish_snapshot
  publish_snapshot-Later k snapshot = record {
    handles = λ r. ground (arith, EvolvesAt-refl (s.heap r));
    epochs = λ j. ground arith;
    generations = λ j. ground (arith, (Later-refl s).generations j);
  }

  register-Later :
      (k : TargetKey) (op : AdmissionOp) (channel : Option TransportRef) (snapshot : TargetSnapshot)
      (recovery : Bool) (id : String)
      → Inv s
      → Later s (register s k op channel snapshot recovery id).0
  unfolding register
  register-Later k op channel snapshot recovery id v = record {
    handles = λ r. ground (arith, EvolvesAt-refl (s.heap r), v.allocated r);
    epochs = λ j. ground arith;
    generations = λ j. ground (arith, (Later-refl s).generations j);
  }

  pub admit-Later :
      (k : TargetKey) (request : OpenRequest) (now : ℕ) (id : String)
      → Inv s
      → Later s (after_pair s (admit s k request now id))
  admit-Later k request now id v =
      after_pair-ok (Later s) s (admit s k request now id) (Later-refl s) λ out m.
        let (snapshot, channel, fits, at) = admit_sound s k request now id out m in
        rw at (register-Later k AdmissionOp.transport_open (some channel) snapshot false id v)

  pub admit_recovery-Later :
      (k : TargetKey) (request : OpenRequest) (now : ℕ) (id : String)
      → Inv s
      → Later s (after_pair s (admit_recovery s k request now id))
  admit_recovery-Later k request now id v =
      after_pair-ok (Later s) s (admit_recovery s k request now id) (Later-refl s) λ out m.
        let (snapshot, channel, fits, parked, at) = admit_recovery_sound s k request now id out m in
        rw at (register-Later k AdmissionOp.transport_open (some channel) snapshot true id v)

  pub admit_ssh_tier-Later :
      (k : TargetKey) (request : SshRequest) (now : ℕ) (id : String)
      → Inv s
      → Later s (after_pair s (admit_ssh_tier s k request now id))
  admit_ssh_tier-Later k request now id v =
      after_pair-ok (Later s) s (admit_ssh_tier s k request now id) (Later-refl s) λ out m.
        let (snapshot, fits, at) = admit_ssh_tier_sound s k request now id out m in
        rw at (register-Later k AdmissionOp.ssh_tier none snapshot false id v)
