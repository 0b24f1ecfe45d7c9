-- ===== src/Coordination/Registry.antt =====
-- SessionRegistry (src/kdive/coordination/registry.py): the durable records and recovery tombstones,
-- at most one of each for a target. The files of the directory stand in the order that `glob` gives.
-- A write is atomic. The instance lock and fsync are not modelled.
pub mod Reconcile
pub mod Store
pub mod Gates
pub mod Converges
pub mod Tests
use linux_debug_mcp.Base.{
  ℕ, String, Bool, true, false, not, Option, none, some, List, [], ◌∷◌, if◌then◌else◌, ite, ◌==◌,
  holds, keep_if, String-discrete,
}
use linux_debug_mcp.Seams.Target.{TargetKey, TargetKey-discrete}
use linux_debug_mcp.Seams.TransportState.{TransportSession}

pub record RecoveryTombstone : Type 0 where
  pub target_key : TargetKey
  pub generation : ℕ
  pub reason : String

-- A file `tomb-*.json`: the target of its name, and what it holds if that is not malformed.
pub record TombFile : Type 0 where
  pub path_key : TargetKey
  pub content : Option RecoveryTombstone

pub record SessionRegistry : Type 0 where
  pub owners : List TransportSession
  pub tombs : List TombFile

-- Replace the file of the target, or add one.
unfoldable pub put_owner : TransportSession → List TransportSession → List TransportSession
put_owner session [] = session ∷ []
put_owner session (r ∷ rs) =
    ite (TargetKey-discrete r.target_key session.target_key) (session ∷ rs)
      (r ∷ put_owner session rs)

unfoldable pub write_record : SessionRegistry → TransportSession → SessionRegistry
unfolding put_owner
write_record reg session = record reg { owners = put_owner session reg.owners }

unfoldable pub find_owner : TargetKey → List TransportSession → Option TransportSession
find_owner k [] = none
find_owner k (r ∷ rs) = ite (TargetKey-discrete r.target_key k) (some r) (find_owner k rs)

unfoldable pub read_record : SessionRegistry → TargetKey → Option TransportSession
unfolding find_owner
read_record reg k = find_owner k reg.owners

abbrev pub is_owner_of : TargetKey → TransportSession → Bool
is_owner_of k r = holds (TargetKey-discrete r.target_key k)

unlink_owner : SessionRegistry → TargetKey → SessionRegistry
unlink_owner reg k = record reg { owners = keep_if (λ r. not (is_owner_of k r)) reg.owners }

unfoldable pub is_session : Option TransportSession → String → Bool
is_session none id = false
is_session (some r) id = holds (String-discrete r.session_id id)

-- With an expected session, the record of another session stays.
unfoldable pub delete_record : SessionRegistry → TargetKey → Option String → SessionRegistry
unfolding unlink_owner is_session read_record
delete_record reg k none = unlink_owner reg k
delete_record reg k (some id) =
    if is_session (read_record reg k) id then unlink_owner reg k else reg

unfoldable pub put_tomb : RecoveryTombstone → List TombFile → List TombFile
put_tomb t [] = record { path_key = t.target_key; content = some t } ∷ []
put_tomb t (f ∷ fs) =
    ite (TargetKey-discrete f.path_key t.target_key)
      (record { path_key = t.target_key; content = some t } ∷ fs) (f ∷ put_tomb t fs)

unfoldable pub write_tombstone : SessionRegistry → RecoveryTombstone → SessionRegistry
unfolding put_tomb
write_tombstone reg t = record reg { tombs = put_tomb t reg.tombs }

unfoldable pub find_tomb : TargetKey → List TombFile → Option RecoveryTombstone
find_tomb k [] = none
find_tomb k (f ∷ fs) = ite (TargetKey-discrete f.path_key k) f.content (find_tomb k fs)

-- A malformed file reads as none.
unfoldable pub read_tombstone : SessionRegistry → TargetKey → Option RecoveryTombstone
unfolding find_tomb
read_tombstone reg k = find_tomb k reg.tombs

is_generation : Option RecoveryTombstone → ℕ → Bool
is_generation none generation = false
is_generation (some t) generation = t.generation == generation

unfoldable pub clear_tombstone : SessionRegistry → TargetKey → ℕ → SessionRegistry
unfolding is_generation read_tombstone
clear_tombstone reg k expected =
    if is_generation (read_tombstone reg k) expected
    then record reg {
      tombs = keep_if (λ f. not (holds (TargetKey-discrete f.path_key k))) reg.tombs;
    }
    else reg
