-- ===== src/Api.antt =====
-- The API objects that the webhooks and the controllers read: types of the module `chvmm-api`,
-- with the fields that this repository's code uses (config/crd/bases has their schemas).
pub mod Quantity
use ch_vmm.Prelude.{ℕ, String, Bool, List, Option}
use Quantity.{Quantities}

pub record ContainerDiskVolumeSource : Type 0 where
  pub image : String

pub record CloudInitVolumeSource : Type 0 where
  pub user_data : String
  pub user_data_base64 : String
  pub user_data_secret_name : String
  pub network_data : String
  pub network_data_base64 : String
  pub network_data_secret_name : String

pub record ContainerRootfsVolumeSource : Type 0 where
  pub image : String

pub record PersistentVolumeClaimVolumeSource : Type 0 where
  pub claim_name : String

pub record DataVolumeVolumeSource : Type 0 where
  pub volume_name : String

pub record VirtualDiskVmSource : Type 0 where
  pub virtual_disk_name : String

pub record MemorySnapshotSource : Type 0 where
  pub bucket : String
  pub key : String

pub record VolumeSource : Type 0 where
  pub container_disk : Option ContainerDiskVolumeSource
  pub cloud_init : Option CloudInitVolumeSource
  pub container_rootfs : Option ContainerRootfsVolumeSource
  pub persistent_volume_claim : Option PersistentVolumeClaimVolumeSource
  pub data_volume : Option DataVolumeVolumeSource
  pub virtual_disk : Option VirtualDiskVmSource
  pub memory_snapshot : Option MemorySnapshotSource

pub record Volume : Type 0 where
  pub name : String
  pub source : VolumeSource

pub record MultusNetworkSource : Type 0 where
  pub network_name : String

-- `Pod` has no field that is read.
pub record NetworkSource : Type 0 where
  pub pod : Option (Unit {0})
  pub multus : Option MultusNetworkSource

pub record Network : Type 0 where
  pub name : String
  pub source : NetworkSource

pub record Masquerade : Type 0 where
  pub cidr : String

pub record InterfaceBindingMethod : Type 0 where
  pub bridge : Option (Unit {0})
  pub masquerade : Option Masquerade
  pub sriov : Option (Unit {0})
  pub vdpa : Option (Unit {0})
  pub vhost_user : Option (Unit {0})

pub record Interface : Type 0 where
  pub name : String
  pub mac : String
  pub binding : InterfaceBindingMethod

-- 32-bit words.
pub record Cpu : Type 0 where
  pub sockets : ℕ
  pub cores_per_socket : ℕ
  pub dedicated_cpu_placement : Bool

pub record Hugepages : Type 0 where
  pub page_size : String

pub record Kernel : Type 0 where
  pub image : String

pub record Disk : Type 0 where
  pub name : String

pub record FileSystem : Type 0 where
  pub name : String

pub record Gpu : Type 0 where
  pub resource_name : String
  pub resource_env_name : String

-- What holds a quantity is over the quantities of the Kubernetes library.
module _ (q : Quantities) where
  open q use {Quantity}

  pub record Memory : Type 0 where
    pub size : Quantity
    pub hugepages : Option Hugepages

  pub record Instance : Type 0 where
    pub cpu : Cpu
    pub memory : Memory
    pub kernel : Option Kernel
    pub disks : List Disk
    pub file_systems : List FileSystem
    pub interfaces : List Interface
    pub gpus : List Gpu

  -- A `ResourceList`: `none` is the nil map, and a missing name gives `none`.
  abbrev pub ResourceList : Type 0
  ResourceList = Option (String → Option Quantity)

  pub record Resources : Type 0 where
    pub requests : ResourceList
    pub limits : ResourceList

  pub record VirtualMachineSpec : Type 0 where
    pub run_policy : String
    pub instance_spec : Instance
    pub resources : Resources
    pub volumes : List Volume
    pub networks : List Network

  pub record VirtualMachine : Type 0 where
    pub namespace : String
    pub spec : VirtualMachineSpec
