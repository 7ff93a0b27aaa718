-- ===== src/Controller/Rollback.antt =====
-- internal/controller/vmrollback_controller.go: the reconciler of a VMRollback, which makes a machine
-- from a snapshot, and the recovery of a claim in pkg/volumeutil/volumeutil.go.
pub mod Unsuccessful
use ch_vmm.Prelude.{
  String, ◌<>◌, Bool, true, false, ◌||◌, List, [], ◌∷◌, ◌++◌, Option, none, some, if◌then◌else◌,
}
use ch_vmm.Api.{Volume, VolumeSource, VirtualMachineSpec}
use ch_vmm.Api.Quantity.{Quantities}
use ch_vmm.Webhook.Field.{is_set}
use ch_vmm.Controller.Program.{
  Answer, done, not_found, already_exists, conflict, Failure, refused, later, Result, ok, err,
  panicked, Outcome, settled, again, Program, ◌>>=◌, ◌>>◌, return, fail, must,
}

pub data Phase : Type 0 where
  none_yet scheduled succeeded failed other : Phase

-- A disk of a machine's snapshot, and what the reconciler reads of the snapshot.
pub record SnapshotDisk : Type 0 where
  pub name : String
  pub snapshot_name : String

pub record MachineSnapshot : Type 0 where
  pub vm_name : String
  pub disks : List SnapshotDisk
  pub bucket : String
  pub object_key : String

pub record VmRollback : Type 0 where
  pub phase : Phase
  pub snapshot : String

-- A claim to be made from a snapshot.
pub record RecoveredClaim : Type 0 where
  pub name : String
  pub data_source : String
  pub storage : String

abbrev no_source : VolumeSource
no_source = record {
  container_disk = none;
  cloud_init = none;
  container_rootfs = none;
  persistent_volume_claim = none;
  data_volume = none;
  virtual_disk = none;
  memory_snapshot = none;
}

-- The volume on the claim of a disk, and that of the memory.
unfoldable pub claim_volume : SnapshotDisk → Volume
claim_volume d = record {
  name = d.name;
  source = record no_source {
    persistent_volume_claim = some (record { claim_name = d.snapshot_name });
  };
}

unfoldable pub memory_volume : MachineSnapshot → Volume
memory_volume s = record {
  name = "memory";
  source = record no_source {
    memory_snapshot = some (record { bucket = s.bucket; key = s.object_key });
  };
}

-- The volumes of the old machine that are not on claims of their own.
unfoldable pub other_volumes : List Volume → List Volume
other_volumes [] = []
other_volumes (v ∷ vs) =
    if is_set v.source.data_volume || is_set v.source.persistent_volume_claim
    then other_volumes vs
    else v ∷ other_volumes vs

-- The phase that `Reconcile` writes, and whether it rolls back before.
unfoldable pub next_phase : Phase → Phase
next_phase none_yet = scheduled
next_phase p = p

abbrev pub rolls_back : Phase → Bool
rolls_back Phase.scheduled = true
rolls_back Phase.failed = true
rolls_back p = false

module _ (q : Quantities) where
  pub record NewVm : Type 0 where
    pub name : String
    pub spec : VirtualMachineSpec q

  pub data Request : Type 0 where
    get_rollback : Request
    get_snapshot get_restore get_claim : String → Request
    create_claim : RecoveredClaim → Request
    create_vm : NewVm → Request
    update_status : Phase → Request
    event : String → Request

  abbrev pub Trace : Type 0
  Trace = List Request

  pub record Server : Type 0 where
    pub answer : Trace → Request → Answer
    pub snapshot : Trace → MachineSnapshot
    pub restore : Trace → VirtualMachineSpec q

module _ {q : Quantities} (server : Server q) where
  abbrev M : Type 0 → Type 0
  M A = Program (Trace q) A

  abbrev pub call : Request q → M Answer
  call r t = (ok (server.answer t r), r ∷ t)

  abbrev record_event : String → M (Unit {0})
  record_event reason t = (ok tt, event reason ∷ t)

  -- `RecoverSnapShotToPVC`, by its error: a claim that exists is left as it is.
  unfoldable pub recover_if : Answer → SnapshotDisk → M Answer
  recover_if done d = return done
  recover_if e d = call (
      create_claim
        (record { name = d.snapshot_name; data_source = d.snapshot_name; storage = "20Gi" }))

  unfoldable pub recover : SnapshotDisk → M Answer
  unfolding recover_if
  recover d = do found ← call (get_claim d.snapshot_name); recover_if found d

  -- What the disks have come to so far: their volumes, and the first error.
  unfoldable pub note : Answer → SnapshotDisk → List Volume × Answer → M (List Volume × Answer)
  unfolding claim_volume
  note done d (volumes, e) = do
    record_event "RecoverSnapShotToPVCSucceeded"
    return (volumes ++ claim_volume d ∷ [], e)
  note e d (volumes, done) = do record_event "RecoverSnapShotToPVCFailed"; return (volumes, e)
  note e d (volumes, first) = do record_event "RecoverSnapShotToPVCFailed"; return (volumes, first)

  -- The group of goroutines, one after the other: all of them run, also behind one that fails.
  unfoldable pub recover_all : List SnapshotDisk → List Volume × Answer → M (List Volume × Answer)
  unfolding recover note
  recover_all [] noted = return noted
  recover_all (d ∷ ds) noted = do
    answered ← recover d
    next ← note answered d noted
    recover_all ds next

  -- The end of `reconcile`, by the answer to the creation of the machine. The rollback is a copy, and
  -- its phase that is set here is lost.
  unfoldable pub created : Answer → M (Unit {0})
  created done = return tt
  created already_exists = return tt
  created e = fail e

  -- An error that is only formatted into another has no meaning of its own.
  pub written : Answer → M (Unit {0})
  written done = return tt
  written e = fail Answer.failed

  -- A missing snapshot, or restore specification: this phase is written.
  pub give_up : String → M (Unit {0})
  give_up reason = do
    record_event reason
    updated ← call (update_status Phase.failed)
    written updated

  unfoldable pub make_vm : String → MachineSnapshot → VirtualMachineSpec q → M (Unit {0})
  unfolding recover_all other_volumes memory_volume created
  make_vm snapshot s spec = do
    noted ← recover_all s.disks ([], done)
    must noted.1
    answered ← call (
        create_vm (record {
          name = s.vm_name <> "-" <> snapshot;
          spec = record spec {
            volumes = noted.0 ++ other_volumes spec.volumes ++ memory_volume s ∷ [];
          };
        }))
    created answered

  unfoldable pub with_restore :
      Answer → String → MachineSnapshot → VirtualMachineSpec q → M (Unit {0})
  unfolding make_vm give_up
  with_restore done snapshot s spec = make_vm snapshot s spec
  with_restore e snapshot s spec = give_up "MissingRestoreSpec"

  unfoldable pub with_snapshot : Answer → String → MachineSnapshot → M (Unit {0})
  unfolding with_restore give_up
  with_snapshot done snapshot s t =
      (do
        restored ← call (get_restore snapshot)
        with_restore restored snapshot s (server.restore t))
        t
  with_snapshot e snapshot s t = give_up "MissingSnapshot" t

  -- `reconcile`
  unfoldable pub roll_back : String → M (Unit {0})
  unfolding with_snapshot
  roll_back snapshot t =
      (do found ← call (get_snapshot snapshot); with_snapshot found snapshot (server.snapshot t)) t

  -- The answer to the update of the status, which counts only if `reconcile` had no error but that
  -- the machine exists.
  unfoldable pub conclude : Result (Unit {0}) → Answer → M Outcome
  conclude (err (refused already_exists)) conflict = return again
  conclude (err (refused already_exists)) done = return settled
  conclude (err (refused already_exists)) e = fail e
  conclude (err x) e = return settled
  conclude panicked e = λ t. (panicked, t)
  conclude (ok x) done = return settled
  conclude (ok x) conflict = return again
  conclude (ok x) e = fail e

  -- The status is written each time, as that of a machine is.
  unfoldable pub finish : Phase → Result (Unit {0}) → M Outcome
  unfolding next_phase conclude
  finish p r = do updated ← call (update_status (next_phase p)); conclude r updated

  unfoldable pub found_rollback : Answer → VmRollback → M Outcome
  unfolding roll_back finish
  found_rollback done v t =
      if rolls_back v.phase
      then (let (r, s) = roll_back v.snapshot t in finish v.phase r s)
      else finish v.phase (ok tt) t
  found_rollback not_found v t = return settled t
  found_rollback e v t = fail e t

  -- `Reconcile`, where `v` is the rollback that the server has if the answer is `done`.
  unfoldable pub reconcile : VmRollback → M Outcome
  unfolding found_rollback
  reconcile v = do answered ← call get_rollback; found_rollback answered v
