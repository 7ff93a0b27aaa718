-- ===== src/Tests/Disks.antt =====
-- The reconcilers of disks and disk snapshots on concrete input.
use ch_vmm.Prelude.{◌≡◌, ◌↔◌, ◌⊎◌, refl, true, false, [], ◌∷◌, none, some}
use ch_vmm.Controller.Names.{codes}
use ch_vmm.Controller.Program.{done, panicked}
use ch_vmm.Controller.Storage.{Meta, get_object, get_child, event, update_status, Trace}
use ch_vmm.Controller.Storage.Guards.{Guards, IsNamed}
use ch_vmm.Controller.Storage.Disk.{
  VirtualDisk, DataVolume, DiskStatus, DiskServer, reconcile_disk, settle, is_data_volume_ready,
  reconcile,
}
use ch_vmm.Controller.Storage.Disk.Laws.{
  ready, meta_of, disk-reconcile-Guards, reconcile_disk-settled,
}
use ch_vmm.Controller.Storage.Snapshot.{DiskSnapshot, SnapshotServer, VolumeSnapshotStatus}
use ch_vmm.Controller.Storage.Snapshot
use ch_vmm.Controller.Storage.Snapshot.Laws.{IsUnreadable, snapshot-reconcile-panics_iff}
use ch_vmm.Tests.Machines.{numbers}

abbrev meta : Meta
meta = record { name = codes "data"; labels = []; deleting = false; guarded = true }

-- A server on which the data volume has been imported.
abbrev imported : DiskServer numbers
imported = record { answer = λ t r. done; owned = λ n. done; child = λ t. "Succeeded" }

abbrev disk : VirtualDisk numbers
disk = record { meta = meta; source = none; storage = none; phase = "" }

disk-reconcile-Guards_example :
    Guards imported
      (codes "data")
      (reconcile numbers imported
        (some (record disk { meta = record meta { deleting = true } }))
        []).1
unfolding Guards IsNamed meta_of
disk-reconcile-Guards_example =
    disk-reconcile-Guards numbers imported (codes "data")
      (some (record disk { meta = record meta { deleting = true } })) [] refl tt

reconcile_disk-settled_example :
    let asked : Trace (DataVolume numbers) DiskStatus = get_child (codes "data") ∷ [] in
    (imported.answer [] (get_child (codes "data")) ≡ done)
    × (imported.child [] ≡ "Succeeded")
    × (((disk.phase ≡ "Ready") × ((reconcile_disk numbers imported disk []).1 ≡ asked))
        ⊎ ((imported.answer asked (update_status ready) ≡ done)
            × ((reconcile_disk numbers imported disk []).1
                ≡ event "VirtualDiskReady" ∷ update_status ready ∷ asked)))
unfolding reconcile_disk settle is_data_volume_ready
reconcile_disk-settled_example = reconcile_disk-settled numbers imported disk [] refl

-- A server whose volume snapshot has no status yet.
abbrev fresh : SnapshotServer
fresh = record { answer = λ t r. done; owned = λ n. done; child = λ t. none }

abbrev snapshot : DiskSnapshot
snapshot = record { meta = meta; virtual_disk = codes "data" }

snapshot-reconcile-panics_iff_example :
    ((Snapshot.reconcile fresh (some snapshot) []).0 ≡ panicked) ↔ (
      (fresh.answer [] get_object ≡ done)
      × (false ≡ false)
      × (true ≡ true)
      × (fresh.answer (get_object ∷ []) (get_child (codes "data")) ≡ done)
      × IsUnreadable none)
snapshot-reconcile-panics_iff_example = snapshot-reconcile-panics_iff fresh snapshot []
