-- ===== src/Controller/Storage/Disk/Laws.antt =====
-- What the reconciler of a VirtualDisk leaves: the finalizer, and the state of a disk.
use ch_vmm.Prelude.{String, ◌≡◌, ◌⊎◌, true, false, ◌∷◌, Option, none, some, arith, eq_iff}
use ch_vmm.Api.Quantity.{Quantities}
use ch_vmm.Controller.Program.{
  Answer, done, not_found, already_exists, conflict, failed, ok, present, must,
}
use ch_vmm.Controller.Shrink.{Requeue}
use ch_vmm.Controller.Names.{Name}
use ch_vmm.Controller.Storage.{
  Meta, get_object, get_child, update_status, event, Trace, create_owned,
}
use ch_vmm.Controller.Storage.Guards.{
  Guards, IsNamed, dispatch-Guards, bind-Guards, present-Guards, must-Guards, create_owned-Guards,
}
use ch_vmm.Controller.Storage.Disk.{
  VirtualDisk, DataVolume, DiskStatus, DiskServer, data_volume_of, is_data_volume_ready, settle,
  created, reconcile_disk, reconcile,
}

-- The status of a disk that is ready.
abbrev pub ready : DiskStatus
ready = record { phase = "Ready"; reason = "DataVolumeReady" }

module _ (q : Quantities) (server : DiskServer q) (name : Name) where
  abbrev Requests : Type 0
  Requests = Trace (DataVolume q) DiskStatus

  settle-Guards :
      (disk : VirtualDisk q) (phase : String) (t : Requests)
      → Guards server name t
      → Guards server name (settle q server disk phase t).1
  unfolding settle Guards
  settle-Guards disk phase t g =
      let asked : Requests = update_status ready ∷ t in
      let answer = server.answer t (update_status ready) in
      ground (
        arith,
        bind-Guards server name {B = Requeue} (must answer asked)
            (λ _ s. (ok 0, event "VirtualDiskReady" ∷ s)) (must-Guards server name answer asked g)
            (λ _ s h. h),
      )

  created-Guards :
      (a : Answer) (t : Requests)
      → Guards server name t
      → Guards server name (created q server a t).1
  unfolding created Guards
  created-Guards done t g = g
  created-Guards not_found t g = g
  created-Guards already_exists t g = g
  created-Guards conflict t g = g
  created-Guards failed t g = g

  reconcile_disk-Guards :
      (disk : VirtualDisk q) (t : Requests)
      → Guards server name t
      → Guards server name (reconcile_disk q server disk t).1
  unfolding reconcile_disk Guards
  reconcile_disk-Guards disk t g =
      let asked : Requests = get_child disk.meta.name ∷ t in
      let answer = server.answer t (get_child disk.meta.name) in
      bind-Guards server name (present answer asked) _ (present-Guards server name answer asked g)
        (elim [
          | true ↦ settle-Guards disk (server.child t)
          | false ↦ λ s h.
              bind-Guards server name (create_owned server disk.meta.name (data_volume_of q disk) s)
                _ (create_owned-Guards server name disk.meta.name (data_volume_of q disk) s h)
                created-Guards
        ])

  -- The metadata of the disk that is found, if one is.
  unfoldable pub meta_of : Option (VirtualDisk q) → Option Meta
  meta_of none = none
  meta_of (some disk) = some disk.meta

  -- A reconcile for a name keeps the rule that the finalizer of the disk of that name is removed only
  -- where the request before, but for events, was a deletion of the data volume of the same name that
  -- succeeded or found none. The disk that is found, if one is, has the name.
  pub disk-reconcile-Guards :
      (found : Option (VirtualDisk q)) (t : Requests)
      → IsNamed server name (meta_of found)
      → Guards server name t
      → Guards server name (reconcile q server found t).1
  unfolding reconcile Guards IsNamed meta_of
  disk-reconcile-Guards none t named g =
      dispatch-Guards server name (server.answer t get_object) none "DataVolumeDeleted" _
        (get_object ∷ t) tt (λ s h. h) g
  disk-reconcile-Guards (some disk) t named g =
      dispatch-Guards server name (server.answer t get_object) (some disk.meta) "DataVolumeDeleted"
        _ (get_object ∷ t) named (reconcile_disk-Guards disk) g

module _ (q : Quantities) (server : DiskServer q) where
  -- A reconcile that has nothing more to do leaves a disk that is ready: its data volume has been
  -- imported, and the disk was ready before or its status is now written so.
  pub reconcile_disk-settled :
      (disk : VirtualDisk q) (t : Trace (DataVolume q) DiskStatus)
      → (reconcile_disk q server disk t).0 ≡ ok 0
      → let asked : Trace (DataVolume q) DiskStatus = get_child disk.meta.name ∷ t in
        (server.answer t (get_child disk.meta.name) ≡ done)
        × (server.child t ≡ "Succeeded")
        × (((disk.phase ≡ "Ready") × ((reconcile_disk q server disk t).1 ≡ asked))
            ⊎ ((server.answer asked (update_status ready) ≡ done)
                × ((reconcile_disk q server disk t).1
                    ≡ event "VirtualDiskReady" ∷ update_status ready ∷ asked)))
  unfolding reconcile_disk settle is_data_volume_ready created
  reconcile_disk-settled disk t h =
      ground (arith, eq_iff (server.child t) "Succeeded", eq_iff disk.phase "Ready")
