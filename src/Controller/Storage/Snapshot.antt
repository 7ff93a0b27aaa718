-- ===== src/Controller/Storage/Snapshot.antt =====
-- internal/controller/virtualdisksnapshot_controller.go: the reconciler of a VirtualDiskSnapshot,
-- which has a `VolumeSnapshot` made of the claim of its disk.
pub mod Laws
use ch_vmm.Prelude.{
  String, ◌≡◌, refl, Bool, true, false, not, List, [], ◌∷◌, Option, none, some, if◌then◌else◌,
}
use ch_vmm.Controller.Names.{Name}
use ch_vmm.Controller.Program.{Answer, done, ok, panicked, ◌>>=◌, ◌>>◌, return, fail, must, present}
use ch_vmm.Controller.Shrink.{Requeue}
use ch_vmm.Controller.Storage.{
  get_object, get_child, update_status, Server, Meta, M, call, record_event, create_owned, dispatch,
}

-- The phases of a snapshot, those of the API that the reconciler sets.
pub data SnapshotPhase : Type 0 where
  error ready_to_use in_progress pending : SnapshotPhase

pub record DiskSnapshot : Type 0 where
  pub meta : Meta
  pub virtual_disk : Name

-- A `VolumeSnapshot` to be created.
pub record VolumeSnapshot : Type 0 where
  pub name : Name
  pub labels : List (Name × Name)
  pub claim : Name

-- `VolumeSnapshotStatus`, whose fields are all optional, as is the message of its error.
pub record VolumeSnapshotStatus : Type 0 where
  pub error : Option (Option String)
  pub ready_to_use : Option Bool
  pub created : Bool

-- The status that the reconciler writes: its phase and the reason of its one condition.
pub record SnapshotStatus : Type 0 where
  pub phase : SnapshotPhase
  pub reason : String

-- A `VolumeSnapshot` may have no status yet.
abbrev pub SnapshotServer : Type 0
SnapshotServer = Server VolumeSnapshot SnapshotStatus (Option VolumeSnapshotStatus)

-- `p != nil && *p`
abbrev pub holds : Option Bool → Bool
holds none = false
holds (some b) = b

pub volume_snapshot_of : DiskSnapshot → VolumeSnapshot
volume_snapshot_of s = record { name = s.meta.name; labels = s.meta.labels; claim = s.virtual_disk }

pub is_volume_snapshot_ready : VolumeSnapshotStatus → Bool
is_volume_snapshot_ready s = holds s.ready_to_use

-- `newPhase`
pub phase_of : VolumeSnapshotStatus → SnapshotPhase
phase_of s = elim s.error [
  | some e ↦ error
  | none ↦ if holds s.ready_to_use then ready_to_use else if s.created then in_progress else pending
]

module _ (server : SnapshotServer) where
  -- The events of `mapVolumeSnapshotStatusToVirtualDiskSnapshot`; the third case of its `switch` is
  -- no phase.
  pub announce : SnapshotPhase → M server (Unit {0})
  announce ready_to_use = record_event server "VirtualDiskSnapshotReady"
  announce error = record_event server "VirtualDiskSnapshotFailed"
  announce phase = return tt

  -- The reason of the new condition; the message of an error is read through its pointer.
  pub condition_of : VolumeSnapshotStatus → M server String
  unfolding is_volume_snapshot_ready
  condition_of s t =
      if is_volume_snapshot_ready s then (ok "VolumeSnapshotReady", t) else elim s.error [
        | none ↦ (ok "VolumeSnapshotCreating", t)
        | some none ↦ (panicked, t)
        | some (some message) ↦ (ok "VolumeSnapshotError", t)
      ]

  -- `mapVolumeSnapshotStatusToVirtualDiskSnapshot`, which always asks for an update, by the status
  -- that it leaves.
  pub map_status : VolumeSnapshotStatus → M server SnapshotStatus
  unfolding phase_of condition_of announce
  map_status s = do
    reason ← condition_of s
    announce (phase_of s)
    return (record { phase = phase_of s; reason = reason })

  -- The rest of `reconcileVirtualDiskSnapshot`, where the `VolumeSnapshot` exists.
  pub follow : Option VolumeSnapshotStatus → M server Requeue
  follow none t = (panicked, t)
  follow (some s) t =
      (do
        status ← map_status s
        updated ← call server (update_status status)
        must updated
        if is_volume_snapshot_ready s then return 0 else return 5)
        t

  pub created : Answer → M server Requeue
  created done = do record_event server "VolumeSnapshotCreated"; return 5
  created e = do record_event server "VolumeSnapshotCreationFailed"; fail e

  pub reconcile_snapshot : DiskSnapshot → M server Requeue
  unfolding volume_snapshot_of
  reconcile_snapshot s t =
      (do
        found ← call server (get_child s.meta.name)
        exists ← present found
        if exists then follow (server.child t) else do
          answered ← create_owned server s.meta.name (volume_snapshot_of s)
          created answered)
        t

  -- `Reconcile`; `found` is the object that the server has, if it has one.
  pub reconcile : Option DiskSnapshot → M server Requeue
  reconcile none = do
    answered ← call server get_object
    dispatch server answered none "VolumeSnapshotDeleted" (return 0)
  reconcile (some s) = do
    answered ← call server get_object
    dispatch server answered (some s.meta) "VolumeSnapshotDeleted" (reconcile_snapshot s)
