-- ===== src/Tests/Snapshots.antt =====
-- The reconciler of a machine's snapshots on concrete input.
use ch_vmm.Prelude.{◌≡◌, refl, true, false, [], ◌∷◌}
use ch_vmm.Controller.Names.{codes}
use ch_vmm.Controller.Program.{Answer, done, settled, ok}
use ch_vmm.Controller.VmSnapshot.{
  Phase, VmSnapshot, Request, Trace, get_snapshot, delete_from_s3, delete_disk, remove_finalizer,
  event, delete_object, behind_prefix, reconcile, found_snapshot, reconcile_deleted, is_under_way,
  delete_snapshot, delete_memory, tell_memory, delete_disks, tell_disk, release,
}
use ch_vmm.Controller.VmSnapshot.Parts.{Protects, vm_snapshot-reconcile-Protects}

-- A snapshot in S3 with one disk, which is being deleted.
abbrev snapshot : VmSnapshot
snapshot = record {
  phase = Phase.other;
  deleting = true;
  guarded = true;
  vm_name = codes "web";
  skip_memory = false;
  bucket = codes "s3://b";
  object_key = codes "k";
  disks = codes "root" ∷ [];
}

abbrev willing : Trace → Request → Answer
willing t r = done

-- All parts are deleted, and then the finalizer is removed.
deleted : reconcile willing snapshot [] ≡ (
  ok settled,
  remove_finalizer
      ∷ event "VirtualDiskSnapshotDeleted"
      ∷ delete_disk (codes "root")
      ∷ event "MemorySnapshotDeleted"
      ∷ delete_from_s3 (codes "b") (codes "k")
      ∷ get_snapshot
      ∷ [],
)
unfolding reconcile found_snapshot reconcile_deleted is_under_way delete_snapshot delete_memory
    tell_memory delete_disks tell_disk release delete_object behind_prefix codes
deleted = refl

vm_snapshot-reconcile-Protects_example : Protects willing snapshot (reconcile willing snapshot []).1
unfolding Protects
vm_snapshot-reconcile-Protects_example = vm_snapshot-reconcile-Protects willing snapshot [] tt
