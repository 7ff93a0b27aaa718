-- ===== src/Daemon/Snapshot/Reconcile.antt =====
-- pkg/daemon/snapshot_controller.go: the reconciler of a snapshot on the node of its machine.
use ch_vmm.Prelude.{String, ◌<>◌, Bool, true, false, ◌||◌, List, [], ◌∷◌, if◌then◌else◌}
use ch_vmm.Controller.Program.{
  Answer, done, not_found, conflict, Outcome, settled, in_five_seconds, Program, ◌>>=◌, ◌>>◌,
  return, fail,
}
use ch_vmm.Daemon.{Vm, Phase, Node}
use ch_vmm.Daemon.Reconcile.{is_mine}
use ch_vmm.Daemon.Snapshot.{
  Snapshot, SnapshotPhase, DiskStatus, DiskPhase, ready_to_use, errored, pending, get_snapshot,
  get_vm, get_disk, update_vm, update_snapshot, Server, State, get_phase, set_vm_phase, get_status,
  modify, set_phase, record_event, call, fetch, succeeds,
}
use ch_vmm.Daemon.Snapshot.Take.{create_snapshot, create_spec}

-- What a phase comes to: the end of the call, or the update of the status, and whether an error is left
-- for then.
pub data Turn : Type 0 where
  leave : Outcome → Turn
  proceed : Bool → Turn

-- What a look at a disk's snapshot finds.
pub data Finding : Type 0 where
  fine missing broken waiting : Finding

pub record Look : Type 0 where
  pub status : DiskStatus
  pub finding : Finding

pub is_broken : Finding → Bool
is_broken missing = true
is_broken broken = true
is_broken f = false

pub is_waiting : Finding → Bool
is_waiting waiting = true
is_waiting f = false

unfoldable pub any_look : (Finding → Bool) → List Look → Bool
any_look test [] = false
any_look test (l ∷ ls) = test l.finding || any_look test ls

unfoldable pub statuses : List Look → List DiskStatus
statuses [] = []
statuses (l ∷ ls) = l.status ∷ statuses ls

look_at : String → Bool → String → String → Finding → Look
look_at disk is_ready text why f = record {
  status = record { name = disk; ready = is_ready; message = text; reason = why };
  finding = f;
}

pub look_of : String → DiskPhase → Look
unfolding look_at
look_of disk ready_to_use =
    look_at disk true "VirtualDiskSnapshot is ready" "VirtualDiskSnapshotReady" fine
look_of disk errored =
    look_at disk false "VirtualDiskSnapshot failed" "VirtualDiskSnapshotError" broken
look_of disk (pending p) =
    look_at disk false ("VirtualDiskSnapshot is in " <> p <> " phase") "VirtualDiskSnapshotPending"
      waiting

pub look_missing : String → Look
unfolding look_at
look_missing disk =
    look_at disk false "VirtualDiskSnapshot was deleted" "VirtualDiskSnapshotNotFound" missing

abbrev pub is_running : Phase → Bool
is_running Phase.running = true
is_running p = false

module _ (server : Server) (node : Node) (vm : Vm) (vm_status : ch_vmm.Daemon.Status)
    (snap : Snapshot) where
  abbrev M : Type 0 → Type 0
  M A = Program State A

  unfoldable pub started_if : Answer → M Turn
  started_if done = do set_phase SnapshotPhase.in_progress; return (proceed false)
  started_if conflict = return (leave in_five_seconds)
  started_if e = return (proceed true)

  unfoldable pub reconcile_scheduled : M Turn
  unfolding started_if
  reconcile_scheduled = do
    p ← get_phase
    if is_running p
        then (do
          set_vm_phase Phase.snapshotting
          updated ← call server (update_vm Phase.snapshotting)
          started_if updated)
        else return (proceed true)

  unfoldable pub reconcile_in_progress : M Turn
  unfolding succeeds
  reconcile_in_progress = do
    taken ← succeeds (create_snapshot server vm vm_status snap)
    if taken
        then (do set_phase SnapshotPhase.created; return (proceed false))
        else (do set_phase SnapshotPhase.failed; return (proceed true))

  unfoldable pub reconcile_created : M Turn
  unfolding succeeds
  reconcile_created = do
    specified ← succeeds (create_spec server vm vm_status snap)
    if specified
        then (do set_phase SnapshotPhase.specified; return (proceed false))
        else return (proceed true)

  unfoldable pub look_if : String → Answer × DiskPhase → M Look
  unfolding look_of look_missing
  look_if disk (done, p) = return (look_of disk p)
  look_if disk (not_found, p) = return (look_missing disk)
  look_if disk (e, p) = fail e

  unfoldable pub look_all : List DiskStatus → M (List Look)
  unfolding look_if
  look_all [] = return []
  look_all (d ∷ ds) = do
    got ← fetch server (get_disk d.name) server.disk_phase
    look ← look_if d.name got
    rest ← look_all ds
    return (look ∷ rest)

  -- The phase is `failed` where a disk failed, until the last line.
  unfoldable pub finish : List Look → M Turn
  unfolding any_look
  finish looks =
      if any_look is_broken looks
      then (do
        set_phase SnapshotPhase.failed
        record_event "AllDiskSnapshotsReady"
        set_phase SnapshotPhase.ready
        return (proceed false))
      else if any_look is_waiting looks
      then return (leave in_five_seconds)
      else (do
        record_event "AllDiskSnapshotsReady"
        set_phase SnapshotPhase.ready
        return (proceed false))

  unfoldable pub reconcile_specified : M Turn
  unfolding look_all finish statuses
  reconcile_specified = do
    s ← get_status
    looks ← look_all s.disks
    modify (λ s. record s { disks = statuses looks })
    finish looks

  unfoldable pub reconcile_phase : SnapshotPhase → M Turn
  unfolding reconcile_scheduled reconcile_in_progress reconcile_created reconcile_specified
  reconcile_phase SnapshotPhase.scheduled = reconcile_scheduled
  reconcile_phase SnapshotPhase.in_progress = reconcile_in_progress
  reconcile_phase SnapshotPhase.created = reconcile_created
  reconcile_phase SnapshotPhase.specified = reconcile_specified
  reconcile_phase SnapshotPhase.failed = return (leave settled)
  reconcile_phase p = return (proceed false)

  unfoldable pub written_if : Answer → Bool → M Outcome
  written_if done false = return settled
  written_if done true = return in_five_seconds
  written_if conflict unwell = return in_five_seconds
  written_if e unwell = fail e

  -- The status is written each time.
  unfoldable pub conclude : Turn → M Outcome
  unfolding written_if
  conclude (leave o) = return o
  conclude (proceed unwell) = do
    s ← get_status
    updated ← call server (update_snapshot s)
    written_if updated unwell

  -- `updateVMStatus`, of which the error is dropped.
  unfoldable pub update_vm_status : State → State
  update_vm_status s = (call server (update_vm Phase.running) (set_vm_phase Phase.running s).1).1

  -- What is deferred while a snapshot is taken runs last, however the call ends.
  unfoldable pub deferred : SnapshotPhase → M Outcome → M Outcome
  unfolding update_vm_status
  deferred SnapshotPhase.in_progress m s = let (r, s') = m s in (r, update_vm_status s')
  deferred p m s = m s

  unfoldable pub work : SnapshotPhase → M Outcome
  unfolding reconcile_phase conclude deferred
  work p = deferred p (do turn ← reconcile_phase p; conclude turn)

  unfoldable pub found_vm : Answer → M Outcome
  unfolding work is_mine
  found_vm done = do s ← get_status; if is_mine node vm_status then work s.phase else return settled
  found_vm not_found = return settled
  found_vm e = fail e

  unfoldable pub found_snapshot : Answer → M Outcome
  unfolding found_vm
  found_snapshot done = do answered ← call server get_vm; found_vm answered
  found_snapshot not_found = return settled
  found_snapshot e = fail e

  -- `Reconcile`, where the memory has what the server has if the answers are `done`.
  unfoldable pub reconcile : M Outcome
  unfolding found_snapshot
  reconcile = do answered ← call server get_snapshot; found_snapshot answered
