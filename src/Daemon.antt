-- ===== src/Daemon.antt =====
-- pkg/daemon: the agent on each node, which drives the hypervisor and mounts volumes there. This
-- module has what it reads, the requests it makes, and its state.
pub mod Numbers
pub mod Cgroup
pub mod Records
pub mod Mounts
pub mod Umounts
pub mod Plugs
pub mod Migrate
pub mod Phases
pub mod Reconcile
pub mod Frame
pub mod Steps
pub mod Moves
pub mod Stays
pub mod Handover
pub mod Whole
pub mod Placed
pub mod Volumes
pub mod Calls
pub mod Snapshot
use ch_vmm.Prelude.{ℕ, String, ◌<>◌, Bool, List, [], ◌∷◌, Option, none, some, if◌then◌else◌}
use ch_vmm.Api.{Volume}
use ch_vmm.Webhook.Field.{is_blank}
use ch_vmm.Controller.Names.{Name}
use ch_vmm.Controller.Program.{Answer, Result, ok, Program, ◌>>=◌, ◌>>◌, return}
use ch_vmm.Controller.Machine.{PodPhase, VolumeStatus}

-- The phases of a machine that the daemon knows; `other` are those in which it does nothing.
pub data Phase : Type 0 where
  restoring scheduled running paused resumed snapshotting resizing succeeded failed other : Phase

pub data MigrationPhase : Type 0 where
  scheduled target_ready running sent succeeded failed other : MigrationPhase

pub data PowerAction : Type 0 where
  no_action power_off shutdown reset reboot other : PowerAction

pub record Migration : Type 0 where
  pub phase : MigrationPhase
  pub target_node : String
  pub target_ip : String
  pub target_port : ℕ
  pub target_pod_name : String
  pub target_pod_uid : String
  pub target_volume_pod_uid : String

pub record Status : Type 0 where
  pub phase : Phase
  pub power_action : PowerAction
  pub pod_name : String
  pub pod_uid : String
  pub node_name : String
  pub volumes : List VolumeStatus
  pub migration : Option Migration

-- A machine but for its status. The sockets and cores are 32-bit words, and `memory` is an `int64`,
-- by bit patterns; `halted` is whether the run policy says so.
pub record Vm : Type 0 where
  pub name : String
  pub uid : String
  pub deleting : Bool
  pub halted : Bool
  pub volumes : List Volume
  pub sockets : ℕ
  pub cores : ℕ
  pub memory : ℕ

-- The pod of a machine.
pub record Pod : Type 0 where
  pub phase : PodPhase
  pub deleting : Bool

-- What the hypervisor says of a machine. Numbers are bit patterns.
pub data VmmState : Type 0 where
  created running paused shutdown other : VmmState

pub record VmInfo : Type 0 where
  pub state : VmmState
  pub boot_vcpus : ℕ
  pub actual_memory : ℕ
  pub disks : List String

-- The configuration that the prerunner wrote, by whether it has devices, and the memory.
pub record VmConfig : Type 0 where
  pub has_devices : Bool
  pub has_vdpa : Bool
  pub memory : ℕ

-- What is recorded of a volume that is mounted for a machine, and an entry of `/proc/PID/mountinfo`.
pub record VolumeRecord : Type 0 where
  pub volume : String
  pub target : String

pub record MountInfo : Type 0 where
  pub major : ℕ
  pub minor : ℕ
  pub root : String
  pub mountpoint : String

-- A rule of a cgroup: a block or a character device, by its numbers, of which all accesses are allowed
-- or denied. Numbers are `int64` bit patterns, and -1 means any.
pub record Rule : Type 0 where
  pub is_block : Bool
  pub major : ℕ
  pub minor : ℕ
  pub allow : Bool

-- The calls of the hypervisor.
pub data Call : Type 0 where
  info boot pause resume shutdown power_button reboot delete restore : Call
  create : VmConfig → Call
  resize : ℕ → ℕ → Call
  add_disk : String → String → Call
  remove_device : String → Call
  snapshot : String → Call

-- All that the daemon asks of the API server, of the hypervisor and of the host. The first argument
-- of `vmm` is the hypervisor's socket.
pub data Request : Type 0 where
  get_vm : Request
  get_pod get_claim : String → Request
  update_status : Status → Request
  event : String → Request
  vmm : String → Call → Request
  stat open_file decode_config : String → Request
  pid_of : String → Request
  lock_memory : ℕ → Request
  open_record decode_record remove_record : String → Request
  make_dirs : String → Request
  write_record : String → List VolumeRecord → Request
  stat_numbers stat_kind : String → Request
  mknod : String → ℕ → ℕ → Request
  read_cgroup new_cgroup : ℕ → Request
  set_rules : List Rule → Request
  create_file remove_all : String → Request
  read_mounts : ℕ → Request
  is_mounted : String → Request
  mount : String → String → Request
  umount : String → Request
  load_ca : Request
  relay_in : String → Request
  relay_out : String → String → ℕ → Request
  start_receive start_send : String → Request
  poll_received poll_sent cancel_receive cancel_send : Request

abbrev pub Trace : Type 0
Trace = List Request

-- The API server, the hypervisor and the host: the answers, and what comes with them. `not_found` is
-- also the error of a file that is not there, and that of a machine that is not created.
pub record Server : Type 0 where
  pub answer : Trace → Request → Answer
  pub pod : Trace → Pod
  pub claim_is_block : Trace → Bool
  pub info : Trace → VmInfo
  pub config : Trace → VmConfig
  pub pid : Trace → ℕ
  pub records : Trace → List VolumeRecord
  pub output : Trace → Name
  pub mounts : Trace → List MountInfo
  pub mounted : Trace → Bool
  pub port : Trace → ℕ

-- The node, and what the code takes from other packages: a method of the API module, `strings.Contains`
-- and `strings.HasPrefix`, the twentieth part of an `int64` by way of a float, and how often a file is
-- looked for before a wait ends.
pub record Node : Type 0 where
  pub name : String
  pub ip : String
  pub is_hotpluggable : Volume → Bool
  pub contains : String → String → Bool
  pub has_prefix : String → String → Bool
  pub twentieth : ℕ → ℕ
  pub patience : ℕ
  -- `IsCgroup2UnifiedMode`, and a number in decimal digits.
  pub is_unified : Bool
  pub decimal : ℕ → String

-- What is kept of a migration between calls: whether there is a channel for the errors of sending and
-- of receiving, and a function that cancels each.
pub record ControlBlock : Type 0 where
  pub sending : Bool
  pub can_cancel_send : Bool
  pub receiving : Bool
  pub can_cancel_receive : Bool

-- The machine's status in memory, its control block, and all requests so far, the newest first.
pub record Memory : Type 0 where
  pub status : Status
  pub block : Option ControlBlock

abbrev pub State : Type 0
State = Memory × Trace

abbrev pub get_status : Program State Status
get_status s = (ok s.0.status, s)

abbrev pub modify : (Status → Status) → Program State (Unit {0})
modify f (m, t) = (ok tt, (record m { status = f m.status }, t))

abbrev pub set_phase : Phase → Program State (Unit {0})
set_phase p = modify (λ s. record s { phase = p })

abbrev pub record_event : String → Program State (Unit {0})
record_event reason (m, t) = (ok tt, (m, event reason ∷ t))

module _ (server : Server) where
  abbrev pub call : Request → Program State Answer
  call r (m, t) = (ok (server.answer t r), (m, r ∷ t))

  -- A call that reads, with what there is at the time.
  abbrev pub fetch : {A : Type 0} → Request → (Trace → A) → Program State (Answer × A)
  fetch r read (m, t) = (ok (server.answer t r, read t), (m, r ∷ t))

-- `filepath.Join` of two parts, of which either can be empty.
pub join : String → String → String
join a b = if is_blank a then b else if is_blank b then a else a <> "/" <> b

-- `getVMDataDirPath`, `getVMMemoryDataDirPath` and `getMigrationTargetVMSocketDirPath` of a pod.
pub pod_dir : String → String → String
unfolding join
pod_dir uid dir = join (join "/pods" uid) (join "volumes/kubernetes.io~empty-dir" dir)

pub data_dir : Status → String
unfolding pod_dir
data_dir s = pod_dir s.pod_uid "ch-vmm"

pub memory_dir : Status → String
unfolding pod_dir
memory_dir s = pod_dir s.pod_uid "memory"

-- The socket of the machine's hypervisor.
pub socket : Status → String
unfolding data_dir join
socket s = join (data_dir s) "vm.sock"
