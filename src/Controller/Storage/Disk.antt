-- ===== src/Controller/Storage/Disk.antt =====
-- internal/controller/virtualdisk_controller.go: the reconciler of a VirtualDisk, which has its
-- contents imported by a `DataVolume`.
pub mod Laws
use ch_vmm.Prelude.{
  String, ◌≡◌, ◌≢◌, ◌⊎◌, refl, inl, inr, Bool, true, false, not, ◌||◌, List, [], ◌∷◌, Option, none,
  some, if◌then◌else◌, str_eq, arith,
}
use ch_vmm.Api.{ResourceList}
use ch_vmm.Api.Quantity.{Quantities}
use ch_vmm.Controller.Names.{Name}
use ch_vmm.Controller.Program.{
  Answer, done, not_found, already_exists, conflict, failed, ok, ◌>>=◌, ◌>>◌, return, fail, must,
  present,
}
use ch_vmm.Controller.Shrink.{Requeue}
use ch_vmm.Controller.Storage.{
  get_object, get_child, update_status, Trace, Server, Meta, M, call, record_event, create_owned,
  dispatch,
}

-- `VirtualDiskSource`: what is set of the four sources.
pub record DiskSource : Type 0 where
  pub http : Option String
  -- The URL and the pull method.
  pub registry : Option (String × String)
  pub disk_snapshot : Option Name
  pub empty : Bool

-- `DataVolumeSource`, one of four.
pub data VolumeSource : Type 0 where
  http : String → VolumeSource
  registry : String → String → VolumeSource
  snapshot : Name → VolumeSource
  blank : VolumeSource

-- `VirtualDiskSpec` and the phase of the status. `storage` is the resource requests of
-- `spec.storage`, where both are set.
pub record VirtualDisk (q : Quantities) : Type 0 where
  pub meta : Meta
  pub source : Option DiskSource
  pub storage : Option (ResourceList q)
  pub phase : String

-- A `DataVolume` to be created.
pub record DataVolume (q : Quantities) : Type 0 where
  pub name : Name
  pub labels : List (Name × Name)
  pub size : q.Quantity
  pub source : VolumeSource

-- A status with its one condition, by its reason.
pub record DiskStatus : Type 0 where
  pub phase : String
  pub reason : String

abbrev pub default_url : String
default_url = "https://cloud-images.ubuntu.com/jammy/current/jammy-server-cloudimg-amd64.img"

pub build_source : Option DiskSource → VolumeSource
build_source none = http default_url
build_source (some s) = elim s.http [
  | some url ↦ http url
  | none ↦ elim s.registry [
    | some (url, pull) ↦ registry url pull
    | none ↦ elim s.disk_snapshot [
      | some name ↦ snapshot name
      | none ↦ if s.empty then blank else http default_url
    ]
  ]
]

module _ (q : Quantities) where
  -- `storageRequest` before the default.
  pub requested_size : Option (ResourceList q) → q.Quantity
  requested_size none = q.zero_quantity
  requested_size (some none) = q.zero_quantity
  requested_size (some (some requests)) = elim (requests "storage") [
    | none ↦ q.zero_quantity
    | some size ↦ size
  ]

  pub storage_size : Option (ResourceList q) → q.Quantity
  unfolding requested_size
  storage_size storage =
      let size = requested_size storage in if q.is_zero size then q.must_parse "70Gi" else size

  pub data_volume_of : VirtualDisk q → DataVolume q
  unfolding storage_size build_source
  data_volume_of disk = record {
    name = disk.meta.name;
    labels = disk.meta.labels;
    size = storage_size disk.storage;
    source = build_source disk.source;
  }

  -- The phase of a `DataVolume`.
  abbrev pub DiskServer : Type 0
  DiskServer = Server (DataVolume q) DiskStatus String

  unfoldable pub is_data_volume_ready : String → Bool
  is_data_volume_ready phase = str_eq phase "Succeeded"

  module _ (server : DiskServer) where
    -- `reconcileVirtualDisk` where the `DataVolume` is missing: the event and the result for the
    -- answer of its creation.
    pub created : Answer → M server Requeue
    created done = do record_event server "DataVolumeCreated"; return 5
    created e = do record_event server "DataVolumeCreationFailed"; fail e

    -- The rest of `reconcileVirtualDisk`, where the `DataVolume` has the phase `phase`.
    unfoldable pub settle : VirtualDisk q → String → M server Requeue
    unfolding is_data_volume_ready
    settle disk phase =
        if not (is_data_volume_ready phase)
        then return 1
        else if str_eq disk.phase "Ready"
        then return 0
        else do
          updated ←
              call server (update_status (record { phase = "Ready"; reason = "DataVolumeReady" }))
          must updated
          record_event server "VirtualDiskReady"
          return 0

    unfoldable pub reconcile_disk : VirtualDisk q → M server Requeue
    unfolding data_volume_of
    reconcile_disk disk t =
        (do
          found ← call server (get_child disk.meta.name)
          exists ← present found
          if exists then settle disk (server.child t) else do
            answered ← create_owned server disk.meta.name (data_volume_of disk)
            created answered)
          t

    -- `Reconcile`; `found` is the object that the server has, if it has one.
    pub reconcile : Option (VirtualDisk q) → M server Requeue
    reconcile none = do
      answered ← call server get_object
      dispatch server answered none "DataVolumeDeleted" (return 0)
    reconcile (some disk) = do
      answered ← call server get_object
      dispatch server answered (some disk.meta) "DataVolumeDeleted" (reconcile_disk disk)
