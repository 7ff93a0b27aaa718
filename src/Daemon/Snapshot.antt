-- ===== src/Daemon/Snapshot.antt =====
-- pkg/daemon/snapshot_controller.go: the agent on a machine's node takes the snapshots of the machine,
-- of its memory by way of the hypervisor, and of its disks by way of other objects.
pub mod Take
pub mod Reconcile
pub mod Calm
pub mod Taking
pub mod Steps
pub mod Turns
pub mod Whole
pub mod Resumed
pub mod Lost
pub mod Bare
pub mod Forgotten
use ch_vmm.Prelude.{String, ◌<>◌, Bool, true, false, List, [], ◌∷◌, Option, none, some}
use ch_vmm.Controller.Names.{Name}
use ch_vmm.Controller.Program.{Answer, Result, ok, err, panicked, Program}
use ch_vmm.Daemon.{Phase, Call}

pub data SnapshotPhase : Type 0 where
  scheduled in_progress created specified ready failed other : SnapshotPhase

pub record DiskStatus : Type 0 where
  pub name : String
  pub ready : Bool
  pub message : String
  pub reason : String

pub record MemoryStatus : Type 0 where
  pub bucket : Name
  pub object_key : String
  pub ready : Bool
  pub message : String
  pub reason : String

pub record SnapshotStatus : Type 0 where
  pub phase : SnapshotPhase
  pub memory : MemoryStatus
  pub disks : List DiskStatus

-- A snapshot but for its status.
pub record Snapshot : Type 0 where
  pub name : String
  pub namespace : String
  pub vm_name : String
  pub skip_memory : Bool
  pub bucket : Name

-- The phase of a disk's snapshot; any other is known by its text.
pub data DiskPhase : Type 0 where
  ready_to_use errored : DiskPhase
  pending : String → DiskPhase

-- A disk's snapshot that is to be made, with its labels.
pub record NewDisk : Type 0 where
  pub name : String
  pub vm : String
  pub snapshot : String
  pub volume : String
  pub disk : String

-- The requests; an update has the phase of the machine, or the status of the snapshot.
pub data Request : Type 0 where
  get_snapshot get_vm : Request
  update_vm : Phase → Request
  update_snapshot : SnapshotStatus → Request
  event : String → Request
  get_disk own_disk : String → Request
  create_disk : NewDisk → Request
  create_restore_spec : String → String → Request
  vmm : String → Call → Request
  stat make_dirs remove_all read_dir : String → Request
  create_archive : String → List String → Request
  upload_to_s3 upload_to_gcs : Name → String → String → Request

abbrev pub Trace : Type 0
Trace = List Request

-- The answers, and what comes with them: the phase of a disk's snapshot, the names in a directory, and
-- the text of the error of the last request.
pub record Server : Type 0 where
  pub answer : Trace → Request → Answer
  pub disk_phase : Trace → DiskPhase
  pub entries : Trace → List String
  pub error_text : Trace → String

-- The phase of the machine and the status of the snapshot in memory, and the requests so far.
pub record Memory : Type 0 where
  pub vm_phase : Phase
  pub status : SnapshotStatus

abbrev pub State : Type 0
State = Memory × Trace

abbrev pub get_phase : Program State Phase
get_phase s = (ok s.0.vm_phase, s)

abbrev pub set_vm_phase : Phase → Program State (Unit {0})
set_vm_phase p (m, t) = (ok tt, (record m { vm_phase = p }, t))

abbrev pub get_status : Program State SnapshotStatus
get_status s = (ok s.0.status, s)

abbrev pub modify : (SnapshotStatus → SnapshotStatus) → Program State (Unit {0})
modify f (m, t) = (ok tt, (record m { status = f m.status }, t))

abbrev pub set_phase : SnapshotPhase → Program State (Unit {0})
set_phase p = modify (λ s. record s { phase = p })

abbrev pub record_event : String → Program State (Unit {0})
record_event reason (m, t) = (ok tt, (m, event reason ∷ t))

module _ (server : Server) where
  abbrev pub call : Request → Program State Answer
  call r (m, t) = (ok (server.answer t r), (m, r ∷ t))

  abbrev pub fetch : {A : Type 0} → Request → (Trace → A) → Program State (Answer × A)
  fetch r read (m, t) = (ok (server.answer t r, read t), (m, r ∷ t))

  -- The text of the error of the last request.
  abbrev pub error_text : Program State String
  error_text (m, t) = (ok (server.error_text t), (m, t))

-- `rerr = …`: whether a part succeeds, where an error does not end the call.
unfoldable pub succeeds : Program State (Unit {0}) → Program State Bool
succeeds m s =
    let (r, s') = m s in
    elim r [ ok x ↦ (ok true, s') | err e ↦ (ok false, s') | panicked ↦ (panicked, s') ]
