-- ===== src/Controller/Storage/Snapshot/Laws.antt =====
-- What the reconciler of a VirtualDiskSnapshot leaves, and when it panics.
use ch_vmm.Prelude.{◌≡◌, ◌↔◌, true, false, ◌∷◌, Option, none, some, arith}
use ch_vmm.Controller.Program.{
  Answer, done, not_found, already_exists, conflict, failed, present, must, panicked,
}
use ch_vmm.Controller.Names.{Name}
use ch_vmm.Controller.Storage.{
  Meta, get_object, get_child, update_status, Trace, create_owned, create_if_owned, dispatch,
  handle_deletion,
}
use ch_vmm.Controller.Storage.Guards.{
  Guards, IsNamed, dispatch-Guards, bind-Guards, present-Guards, must-Guards, create_owned-Guards,
}
use ch_vmm.Controller.Storage.Snapshot.{
  DiskSnapshot, VolumeSnapshot, VolumeSnapshotStatus, SnapshotPhase, SnapshotStatus, SnapshotServer,
  holds, volume_snapshot_of, phase_of, is_volume_snapshot_ready, announce, condition_of, map_status,
  follow, created, reconcile_snapshot, reconcile, ready_to_use, error, in_progress, pending,
}

-- What the reconciler dereferences without a test: a `VolumeSnapshot` with no status yet, or with an
-- error that has no message and not ready.
pub IsUnreadable : Option VolumeSnapshotStatus → Type 0
IsUnreadable none = Unit
IsUnreadable (some s) = (holds s.ready_to_use ≡ false) × (s.error ≡ some none)

module _ (server : SnapshotServer) (name : Name) where
  abbrev Requests : Type 0
  Requests = Trace VolumeSnapshot SnapshotStatus

  announce-Guards :
      (p : SnapshotPhase) (t : Requests)
      → Guards server name t
      → Guards server name (announce server p t).1
  unfolding announce Guards
  announce-Guards ready_to_use t g = g
  announce-Guards error t g = g
  announce-Guards in_progress t g = g
  announce-Guards pending t g = g

  condition_of-Guards :
      (s : VolumeSnapshotStatus) (t : Requests)
      → Guards server name t
      → Guards server name (condition_of server s t).1
  unfolding condition_of
  condition_of-Guards s t g = ground arith

  map_status-Guards :
      (s : VolumeSnapshotStatus) (t : Requests)
      → Guards server name t
      → Guards server name (map_status server s t).1
  unfolding map_status
  map_status-Guards s t g =
      bind-Guards server name (condition_of server s t) _ (condition_of-Guards s t g) (λ r t' g'.
        bind-Guards server name (announce server (phase_of s) t') _
          (announce-Guards (phase_of s) t' g') (λ _ t'' h. h))

  follow-Guards :
      (s : Option VolumeSnapshotStatus) (t : Requests)
      → Guards server name t
      → Guards server name (follow server s t).1
  unfolding follow Guards
  follow-Guards none t g = g
  follow-Guards (some s) t g =
      bind-Guards server name (map_status server s t) _ (map_status-Guards s t g) (λ status t' g'.
        bind-Guards server name
          (must (server.answer t' (update_status status)) (update_status status ∷ t')) _
          (must-Guards server name (server.answer t' (update_status status))
            (update_status status ∷ t') g')
          (λ _ t'' h. ground arith))

  created-Guards :
      (a : Answer) (t : Requests) → Guards server name t → Guards server name (created server a t).1
  unfolding created Guards
  created-Guards done t g = g
  created-Guards not_found t g = g
  created-Guards already_exists t g = g
  created-Guards conflict t g = g
  created-Guards failed t g = g

  reconcile_snapshot-Guards :
      (s : DiskSnapshot) (t : Requests)
      → Guards server name t
      → Guards server name (reconcile_snapshot server s t).1
  unfolding reconcile_snapshot Guards
  reconcile_snapshot-Guards s t g =
      let asked : Requests = get_child s.meta.name ∷ t in
      let answer = server.answer t (get_child s.meta.name) in
      bind-Guards server name (present answer asked) _ (present-Guards server name answer asked g)
        (elim [
          | true ↦ follow-Guards (server.child t)
          | false ↦ λ t' h.
              bind-Guards server name (create_owned server s.meta.name (volume_snapshot_of s) t') _
                (create_owned-Guards server name s.meta.name (volume_snapshot_of s) t' h)
                created-Guards
        ])

  -- The metadata of the snapshot that is found, if one is.
  unfoldable pub meta_of : Option DiskSnapshot → Option Meta
  meta_of none = none
  meta_of (some s) = some s.meta

  -- A reconcile for a name keeps the rule that the finalizer of the disk snapshot of that name is
  -- removed only where the request before was a deletion of the volume snapshot of the same name that
  -- succeeded or found none.
  pub snapshot-reconcile-Guards :
      (found : Option DiskSnapshot) (t : Requests)
      → IsNamed server name (meta_of found)
      → Guards server name t
      → Guards server name (reconcile server found t).1
  unfolding reconcile Guards IsNamed meta_of
  snapshot-reconcile-Guards none t named g =
      dispatch-Guards server name (server.answer t get_object) none "VolumeSnapshotDeleted" _
        (get_object ∷ t) tt (λ s h. h) g
  snapshot-reconcile-Guards (some s) t named g =
      dispatch-Guards server name (server.answer t get_object) (some s.meta) "VolumeSnapshotDeleted"
        _ (get_object ∷ t) named (reconcile_snapshot-Guards s) g

module _ (server : SnapshotServer) where
  reconcile_snapshot-panics_iff :
      (s : DiskSnapshot) (t : Trace VolumeSnapshot SnapshotStatus)
      → ((reconcile_snapshot server s t).0 ≡ panicked)
        ↔ ((server.answer t (get_child s.meta.name) ≡ done) × IsUnreadable (server.child t))
  unfolding reconcile_snapshot create_owned create_if_owned created follow map_status condition_of
      announce phase_of is_volume_snapshot_ready IsUnreadable
  reconcile_snapshot-panics_iff s t = ground arith

  -- The reconciler of a disk snapshot panics exactly for a snapshot that is there, is not being
  -- deleted and has its finalizer, and whose volume snapshot is there and either has no status yet or
  -- is not ready and has an error without a message.
  pub snapshot-reconcile-panics_iff :
      (s : DiskSnapshot) (t : Trace VolumeSnapshot SnapshotStatus)
      → let asked : Trace VolumeSnapshot SnapshotStatus = get_object ∷ t in
        ((reconcile server (some s) t).0 ≡ panicked) ↔ (
          (server.answer t get_object ≡ done)
          × (s.meta.deleting ≡ false)
          × (s.meta.guarded ≡ true)
          × (server.answer asked (get_child s.meta.name) ≡ done)
          × IsUnreadable (server.child asked))
  unfolding reconcile dispatch handle_deletion
  snapshot-reconcile-panics_iff s t =
      ground (arith, reconcile_snapshot-panics_iff s (get_object ∷ t))
