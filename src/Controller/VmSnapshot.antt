-- ===== src/Controller/VmSnapshot.antt =====
-- internal/controller/vmsnapshot_controller.go: the reconciler of a VMSnapShot. The snapshot itself is
-- taken by the daemon; the reconciler schedules it, and deletes its parts when the object is deleted.
pub mod Parts
use ch_vmm.Prelude.{
  String, ℕ, Bool, true, false, ◌&&◌, List, [], ◌∷◌, Option, none, some, if◌then◌else◌, ◌==◌,
}
use ch_vmm.Controller.Names.{Name, codes}
use ch_vmm.Controller.Program.{
  Answer, done, not_found, already_exists, conflict, refused, Result, ok, err, panicked, Outcome,
  settled, again, in_half_a_minute, in_a_minute, Program, ◌>>=◌, ◌>>◌, return, fail, must,
}

pub data Phase : Type 0 where
  none_yet scheduled in_progress failed other : Phase

-- `disks` are the names of the disks in the status.
pub record VmSnapshot : Type 0 where
  pub phase : Phase
  pub deleting : Bool
  pub guarded : Bool
  pub vm_name : Name
  pub skip_memory : Bool
  pub bucket : Name
  pub object_key : Name
  pub disks : List Name

-- The requests; the two stores of objects are asked like the API server.
pub data Request : Type 0 where
  get_snapshot add_finalizer remove_finalizer : Request
  get_vm delete_disk : Name → Request
  delete_from_s3 delete_from_gcs : Name → Name → Request
  update_status : Phase → Request
  event : String → Request

abbrev pub Trace : Type 0
Trace = List Request

-- The rest of a text behind a prefix that it has.
unfoldable pub behind_prefix : Name → Name → Option Name
behind_prefix [] s = some s
behind_prefix (c ∷ p) [] = none
behind_prefix (c ∷ p) (d ∷ s) = if c == d then behind_prefix p s else none

-- `strings.HasPrefix` and `strings.TrimPrefix`
abbrev pub has_prefix : Name → Name → Bool
has_prefix s p = elim (behind_prefix p s) [ none ↦ false | some r ↦ true ]

abbrev pub trim_prefix : Name → Name → Name
trim_prefix s p = elim (behind_prefix p s) [ none ↦ s | some r ↦ r ]

-- The request that deletes the snapshot of the memory.
unfoldable pub delete_object : VmSnapshot → Request
unfolding behind_prefix
delete_object s =
    if has_prefix s.bucket (codes "s3")
    then delete_from_s3 (trim_prefix s.bucket (codes "s3://")) s.object_key
    else delete_from_gcs (trim_prefix s.bucket (codes "gcs://")) s.object_key

module _ (answers : Trace → Request → Answer) where
  abbrev pub M : Type 0 → Type 0
  M A = Program Trace A

  abbrev pub call : Request → M Answer
  call r t = (ok (answers t r), r ∷ t)

  abbrev record_event : String → M (Unit {0})
  record_event reason t = (ok tt, event reason ∷ t)

  unfoldable pub tell_memory : Answer → M (Unit {0})
  tell_memory done = record_event "MemorySnapshotDeleted"
  tell_memory e = do record_event "MemorySnapshotDeleteFailed"; fail e

  unfoldable pub delete_memory : VmSnapshot → M (Unit {0})
  unfolding tell_memory
  delete_memory s =
      if s.skip_memory
      then return tt
      else (do deleted ← call (delete_object s); tell_memory deleted)

  unfoldable pub tell_disk : Answer → M (Unit {0})
  tell_disk done = record_event "VirtualDiskSnapshotDeleted"
  tell_disk not_found = record_event "VirtualDiskSnapshotDeleted"
  tell_disk e = do record_event "VirtualDiskSnapshotDeleteFailed"; fail e

  unfoldable pub delete_disks : List Name → M (Unit {0})
  unfolding tell_disk
  delete_disks [] = return tt
  delete_disks (d ∷ ds) = do deleted ← call (delete_disk d); tell_disk deleted; delete_disks ds

  -- `deleteSnapshot`
  unfoldable pub delete_snapshot : VmSnapshot → M (Unit {0})
  unfolding delete_memory delete_disks
  delete_snapshot s = do delete_memory s; delete_disks s.disks

  -- What follows the deletion of the parts.
  unfoldable pub release : Result (Unit {0}) → M Outcome
  release (ok x) = do updated ← call remove_finalizer; must updated; return settled
  release (err e) = return in_half_a_minute
  release panicked = λ t. (panicked, t)

  unfoldable pub is_under_way : Phase → Bool
  is_under_way scheduled = true
  is_under_way in_progress = true
  is_under_way p = false

  unfoldable pub reconcile_deleted : VmSnapshot → M Outcome
  unfolding delete_snapshot release is_under_way
  reconcile_deleted s t =
      if is_under_way s.phase
      then return in_a_minute t
      else (let (r, left) = delete_snapshot s t in release r left)

  -- A conflict asks for another call, for which a finalizer and a status wait differently.
  unfoldable pub guarded_or_again : Answer → M Outcome
  guarded_or_again done = return settled
  guarded_or_again conflict = return again
  guarded_or_again e = fail e

  unfoldable pub written_or_again : Answer → M Outcome
  written_or_again done = return settled
  written_or_again conflict = return in_half_a_minute
  written_or_again e = fail e

  -- The phase of a new snapshot, by the answer to the request for its machine.
  unfoldable pub first_phase : Answer → M Phase
  first_phase done = return scheduled
  first_phase not_found = do record_event "VMNotFound"; return failed
  first_phase e = return failed

  unfoldable pub schedule : VmSnapshot → M Outcome
  unfolding first_phase written_or_again
  schedule s = do
    found ← call (get_vm s.vm_name)
    phase ← first_phase found
    updated ← call (update_status phase)
    written_or_again updated

  unfoldable pub reconcile_kept : Phase → VmSnapshot → M Outcome
  unfolding schedule
  reconcile_kept none_yet s = schedule s
  reconcile_kept p s = return settled

  unfoldable pub found_snapshot : Answer → VmSnapshot → M Outcome
  unfolding guarded_or_again reconcile_deleted reconcile_kept
  found_snapshot done s =
      if s.deleting
      then reconcile_deleted s
      else if s.guarded
      then reconcile_kept s.phase s
      else (do updated ← call add_finalizer; guarded_or_again updated)
  found_snapshot not_found s = return settled
  found_snapshot e s = fail e

  -- `Reconcile`, where `s` is the snapshot that the server has if the answer is `done`.
  unfoldable pub reconcile : VmSnapshot → M Outcome
  unfolding found_snapshot
  reconcile s = do answered ← call get_snapshot; found_snapshot answered s
