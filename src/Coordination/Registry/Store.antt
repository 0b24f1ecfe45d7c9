-- ===== src/Coordination/Registry/Store.antt =====
-- What a read of the durable store gives after a write, and the shape of its listing
-- (src/kdive/coordination/registry.py).
use linux_debug_mcp.Base.{
  ◌≡◌, refl, String, Bool, true, false, not, ◌||◌, none, some, List, [], ◌∷◌, arith, if◌then◌else◌,
  ite, holds, keep_if, String-discrete,
}
use linux_debug_mcp.Seams.Target.{TargetKey, TargetKey-discrete}
use linux_debug_mcp.Seams.TransportState.{TransportSession}
use linux_debug_mcp.Coordination.Registry.{
  SessionRegistry, TombFile, RecoveryTombstone, put_owner, write_record, find_owner, read_record,
  is_owner_of, delete_record, put_tomb, write_tombstone, find_tomb, read_tombstone,
}

find_owner-put_owner :
    (k : TargetKey) (s : TransportSession) (rs : List TransportSession)
    → find_owner k (put_owner s rs)
      ≡ ite (TargetKey-discrete s.target_key k) (some s) (find_owner k rs)
unfolding find_owner put_owner
find_owner-put_owner k s [] = refl
find_owner-put_owner k s (r ∷ rs) = ground (arith, find_owner-put_owner k s rs)

pub read_record-write_record :
    (reg : SessionRegistry) (s : TransportSession) (k : TargetKey)
    → read_record (write_record reg s) k
      ≡ ite (TargetKey-discrete s.target_key k) (some s) (read_record reg k)
unfolding read_record write_record
read_record-write_record reg s k = find_owner-put_owner k s reg.owners

pub find_owner-unlink :
    (k j : TargetKey) (rs : List TransportSession)
    → find_owner k (keep_if (λ r. not (is_owner_of j r)) rs)
      ≡ ite (TargetKey-discrete j k) none (find_owner k rs)
unfolding find_owner keep_if
find_owner-unlink k j [] = ground arith
find_owner-unlink k j (r ∷ rs) = ground (arith, find_owner-unlink k j rs)

-- A fenced delete takes out the record of its session and of no other.
pub read_record-delete_record :
    (reg : SessionRegistry) (j k : TargetKey) (id : String)
    → read_record (delete_record reg j (some id)) k ≡ (
        if (elim (read_record reg j) [
          | none ↦ false
          | some r ↦ holds (String-discrete r.session_id id)
        ])
        then ite (TargetKey-discrete j k) none (read_record reg k)
        else read_record reg k)
unfolding read_record delete_record
read_record-delete_record reg j k id = ground (arith, find_owner-unlink k j reg.owners)

pub find_tomb-put_tomb :
    (k : TargetKey) (t : RecoveryTombstone) (fs : List TombFile)
    → find_tomb k (put_tomb t fs)
      ≡ ite (TargetKey-discrete t.target_key k) (some t) (find_tomb k fs)
unfolding find_tomb put_tomb
find_tomb-put_tomb k t [] = refl
find_tomb-put_tomb k t (f ∷ fs) = ground (arith, find_tomb-put_tomb k t fs)

pub read_tombstone-write_tombstone :
    (reg : SessionRegistry) (t : RecoveryTombstone) (k : TargetKey)
    → read_tombstone (write_tombstone reg t) k
      ≡ ite (TargetKey-discrete t.target_key k) (some t) (read_tombstone reg k)
unfolding read_tombstone write_tombstone
read_tombstone-write_tombstone reg t k = find_tomb-put_tomb k t reg.tombs

-- At most one record for each target, as one file name is.
abbrev pub owned : TargetKey → List TransportSession → Bool
owned k [] = false
owned k (r ∷ rs) = is_owner_of k r || owned k rs

abbrev pub DistinctOwners : List TransportSession → Type 0
DistinctOwners [] = Unit {0}
DistinctOwners (r ∷ rs) = (owned r.target_key rs ≡ false) × DistinctOwners rs

owned-put_owner :
    (k : TargetKey) (s : TransportSession) (rs : List TransportSession)
    → owned k (put_owner s rs) ≡ (is_owner_of k s || owned k rs)
unfolding put_owner
owned-put_owner k s [] = refl
owned-put_owner k s (r ∷ rs) = ground (arith, owned-put_owner k s rs)

pub put_owner-DistinctOwners :
    (s : TransportSession) (rs : List TransportSession)
    → DistinctOwners rs
    → DistinctOwners (put_owner s rs)
unfolding put_owner
put_owner-DistinctOwners s [] d = (refl, tt)
put_owner-DistinctOwners s (r ∷ rs) d =
    ground (arith, owned-put_owner r.target_key s rs, put_owner-DistinctOwners s rs d.1)

-- Nothing else is taken out of a listing that has no record of the target.
pub unlink_absent :
    (k : TargetKey) (rs : List TransportSession)
    → owned k rs ≡ false
    → keep_if (λ r. not (is_owner_of k r)) rs ≡ rs
unfolding keep_if
unlink_absent k [] h = refl
unlink_absent k (r ∷ rs) h = ground (arith, unlink_absent k rs)

pub owned_if_found :
    (k : TargetKey) (rs : List TransportSession) (r : TransportSession)
    → find_owner k rs ≡ some r
    → owned k rs ≡ true
unfolding find_owner
owned_if_found k [] r found = ground (arith, found)
owned_if_found k (x ∷ rs) r found = ground (arith, owned_if_found k rs r)
