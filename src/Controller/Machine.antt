-- ===== src/Controller/Machine.antt =====
-- internal/controller/virtualmachine_controller.go: the state of the reconciler of a VirtualMachine,
-- the pods that it reads and makes, and its requests.
pub mod Claims
pub mod Template
pub mod Networks
pub mod Build
pub mod Plugged
pub mod Hotplug
pub mod Resize
pub mod Conditions
pub mod Phases
pub mod Migrate
pub mod Reconcile
pub mod Silent
pub mod Graph
pub mod Moves
pub mod Transitions
pub mod Whole
pub mod Settles
pub mod Secrets
pub mod Collect
pub mod Migratable
use ch_vmm.Prelude.{
  ℕ, String, ◌<>◌, Bool, true, false, List, [], ◌∷◌, Option, none, some, if◌then◌else◌, str_eq,
}
use ch_vmm.Api.{Volume, VirtualMachineSpec, ResourceList, Resources}
use ch_vmm.Api.Quantity.{Quantities}
use ch_vmm.Controller.Program.{Answer, Result, ok, Program, ◌>>=◌, ◌>>◌, return}

-- The phases of a machine; `none_yet` is the empty one, and `resize` the one in which the daemon
-- resizes the machine.
pub data Phase : Type 0 where
  none_yet pending scheduling scheduled running pod_resize resize succeeded failed unknown : Phase

-- `other` stands for the phases that the daemon sets.
pub data MigrationPhase : Type 0 where
  none_yet pending scheduling scheduled failed other : MigrationPhase

pub data PodPhase : Type 0 where
  pending running succeeded failed unknown : PodPhase

pub data VolumePhase : Type 0 where
  none_yet pending attached_to_node mounted_to_pod ready detaching : VolumePhase

pub data RunPolicy : Type 0 where
  always rerun_on_failure once manual other : RunPolicy

-- A string map of the API, where `none` is the nil map.
abbrev pub StringMap : Type 0
StringMap = Option (List (String × String))

-- A volume of a pod.
pub data PodVolumeSource : Type 0 where
  empty_dir huge_pages : PodVolumeSource
  claim secret host_path : String → PodVolumeSource

pub record PodVolume : Type 0 where
  pub name : String
  pub source : PodVolumeSource

pub record PodCondition : Type 0 where
  pub kind : String
  pub status : String
  pub reason : String
  pub message : String

-- `HotplugVolumeStatus` and `VolumeStatus`.
pub record HotplugStatus : Type 0 where
  pub pod_name : String
  pub pod_uid : String

pub record VolumeStatus : Type 0 where
  pub name : String
  pub phase : VolumePhase
  pub hotplug : Option HotplugStatus

pub record Migration : Type 0 where
  pub phase : MigrationPhase
  pub target_pod_name : String
  pub target_pod_uid : String
  pub target_node_name : String
  pub target_volume_pod_uid : String

-- The conditions of a status with `FindStatusCondition` and `SetStatusCondition`, which are functions
-- of the Kubernetes library. (The times of changes are left out.)
pub record ConditionSets : Type 1 where
  pub Conditions : Type 0
  pub find : Conditions → String → Option PodCondition
  pub put : Conditions → PodCondition → Conditions

-- A claim, by whether its mode is `Block`.
pub record Claim : Type 0 where
  pub block : Bool

-- What `buildVMPod` reads of a `NetworkAttachmentDefinition`: an annotation, and its configuration,
-- or `none` where that is no JSON.
pub record NadConfig : Type 0 where
  pub kind : String
  pub socket_volume : String
  pub socket_name : String

pub record Nad : Type 0 where
  pub resource_name : String
  pub config : Option NadConfig

-- What a container mounts, its environment, and an init container.
pub record VolumeMount : Type 0 where
  pub name : String
  pub path : String

pub data EnvValue : Type 0 where
  text field : String → EnvValue

pub record EnvVar : Type 0 where
  pub name : String
  pub value : EnvValue

pub record InitContainer : Type 0 where
  pub name : String
  pub image : String
  pub privileged : Bool
  pub command : List String
  pub args : List String
  pub mounts : List VolumeMount

module _ (q : Quantities) where
  -- A machine but for its status.
  pub record Vm : Type 0 where
    pub name : String
    pub uid : String
    pub namespace : String
    pub deleting : Bool
    pub guarded : Bool
    pub labels : StringMap
    pub annotations : StringMap
    pub node_selector : StringMap
    pub spec : VirtualMachineSpec q

  -- A container of a pod, by its resources, and the status of one.
  pub record Container : Type 0 where
    pub name : String
    pub resources : Resources q

  pub record ContainerStatus : Type 0 where
    pub name : String
    pub resources : Option (Resources q)

  -- A pod that the server has. `controlled` is whether the machine controls it, `controller` the UID
  -- of its controller, and `age` orders the pods by their creation, the newest first.
  pub record Pod : Type 0 where
    pub name : String
    pub uid : String
    pub node_name : String
    pub phase : PodPhase
    pub deleting : Bool
    pub controlled : Bool
    pub controller : Option String
    pub age : ℕ
    pub volumes : List PodVolume
    pub conditions : List PodCondition
    pub resize : String
    pub containers : List Container
    pub container_statuses : List ContainerStatus

  -- A pod to be created: that of a machine, or one that holds hot-plugged volumes.
  -- `init_resources` are those of all its init containers, and `resources`, `mounts`, `devices` and `env` are those of its one container, and
  -- `apart_from` has the machines whose pods it must not share a node with.
  pub record PodTemplate : Type 0 where
    pub name : String
    pub labels : StringMap
    pub annotations : StringMap
    pub node_selector : StringMap
    pub volumes : List PodVolume
    pub init_containers : List InitContainer
    pub resources : Resources q
    pub init_resources : Resources q
    pub mounts : List VolumeMount
    pub devices : List VolumeMount
    pub env : List EnvVar
    pub apart_from : List String

  -- What the code takes from packages that are not part of the repository: methods and constants of
  -- the API module, and encodings of text.
  pub record World : Type 0 where
    pub is_hotpluggable : Volume → Bool
    pub pvc_name : Volume → String
    pub policy_of : String → RunPolicy
    pub ready_type : String
    pub migratable_type : String
    pub decimal : ℕ → String
    pub base64 : String → String
    -- `volume.ContainerRootfs.Size` in decimal digits.
    pub rootfs_size : Volume → String
    -- `json.Marshal` of the networks, by name, interface and MAC, and of the machine.
    pub networks_json : List (String × String × String) → Option String
    pub vm_json : Vm → Option String
    pub prerunner_image : String

module _ (q : Quantities) (sets : ConditionSets) where
  pub record VmStatus : Type 0 where
    pub phase : Phase
    pub power_on : Bool
    pub pod_name : String
    pub pod_uid : String
    pub node_name : String
    pub volumes : List VolumeStatus
    pub migration : Option Migration
    pub conditions : sets.Conditions

  pub data Request : Type 0 where
    get_vm add_finalizer remove_finalizer list_vm_pods list_pods : Request
    update_status : VmStatus → Request
    get_pod delete_pod get_claim is_populated get_nad : String → Request
    create_pod : PodTemplate q → Request
    create_volume_pod : PodTemplate q → Request
    resize_pod : Pod q → Request
    event : String → Request

  abbrev pub Trace : Type 0
  Trace = List Request

  -- The API server: the answers, and what it returns of the objects it has. `owned` is the answer of
  -- `SetControllerReference`, and `populated` that of `IsPopulated` for a claim.
  pub record Server : Type 0 where
    pub answer : Trace → Request → Answer
    pub owned : Answer
    pub pod : Trace → String → Pod q
    pub vm_pods : Trace → List (Pod q)
    pub pods : Trace → List (Pod q)
    pub claim_of : Trace → String → Claim
    pub populated : Trace → String → Bool
    pub nad : Trace → String → Nad
    -- `names.SimpleNameGenerator.GenerateName`
    pub generate_name : Trace → String → String

  -- The state of a reconcile: the machine's status in memory, and all requests so far, the newest
  -- first.
  abbrev pub State : Type 0
  State = VmStatus × Trace

module _ {q : Quantities} {sets : ConditionSets} where
  abbrev pub get_status : Program (State q sets) (VmStatus q sets)
  get_status s = (ok s.0, s)

  abbrev pub modify : (VmStatus q sets → VmStatus q sets) → Program (State q sets) (Unit {0})
  modify f (status, t) = (ok tt, (f status, t))

  abbrev pub set_phase : Phase → Program (State q sets) (Unit {0})
  set_phase p = modify (λ s. record s { phase = p })

  abbrev pub record_event : String → Program (State q sets) (Unit {0})
  record_event reason (status, t) = (ok tt, (status, event reason ∷ t))

  module _ (server : Server q sets) where
    abbrev pub call : Request q sets → Program (State q sets) Answer
    call r (status, t) = (ok (server.answer t r), (status, r ∷ t))

    -- A call that reads, with what the server has at the time.
    abbrev pub fetch :
        {A : Type 0} → Request q sets → (Trace q sets → A) → Program (State q sets) (Answer × A)
    fetch r read (status, t) = (ok (server.answer t r, read t), (status, r ∷ t))
