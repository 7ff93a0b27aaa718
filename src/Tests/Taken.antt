-- ===== src/Tests/Taken.antt =====
-- The snapshots of machines that the daemon takes, on concrete input.
use ch_vmm.Prelude.{◌≡◌, refl, false, [], ◌∷◌, none, some}
use ch_vmm.Controller.Names.{codes}
use ch_vmm.Controller.Program.{done}
use ch_vmm.Daemon.{Phase, Vm, Status}
use ch_vmm.Daemon.Reconcile.{is_mine}
use ch_vmm.Daemon.Snapshot.{SnapshotPhase, Snapshot, ready_to_use, Server, State, succeeds}
use ch_vmm.Daemon.Snapshot.Take.{create_snapshot, create_spec}
use ch_vmm.Daemon.Snapshot.Reconcile.{
  reconcile, found_snapshot, found_vm, work, deferred, reconcile_phase, reconcile_created, conclude,
  written_if,
}
use ch_vmm.Daemon.Snapshot.Calm.{place, halted}
use ch_vmm.Daemon.Snapshot.Steps.{Step}
use ch_vmm.Daemon.Snapshot.Whole.{daemon-snapshot-Step}
use ch_vmm.Daemon.Snapshot.Resumed.{daemon-snapshot-Runs}
use ch_vmm.Daemon.Snapshot.Lost.{snapshot_and_vm_stuck}
use ch_vmm.Daemon.Snapshot.Forgotten.{no_call, next_call, disks_forgotten}
use ch_vmm.Tests.Daemons
use ch_vmm.Tests.Daemons.{node}

abbrev snapshot : Snapshot
snapshot = record {
  name = "s1";
  namespace = "default";
  vm_name = "web";
  skip_memory = false;
  bucket = codes "s3://b";
}

-- A machine with one disk.
abbrev vm : Vm
vm = record Daemons.vm {
  volumes =
      record {
        name = "root";
        source = record {
          container_disk = none;
          cloud_init = none;
          container_rootfs = none;
          persistent_volume_claim = none;
          data_volume = none;
          virtual_disk = some (record { virtual_disk_name = "d1" });
          memory_snapshot = none;
        };
      }
      ∷ [];
}

abbrev server : Server
server = record {
  answer = λ t r. done;
  disk_phase = λ t. ready_to_use;
  entries = λ t. "state.json" ∷ [];
  error_text = λ t. "";
}

abbrev start : SnapshotPhase → Phase → State
start p v = (
  record {
    vm_phase = v;
    status = record {
      phase = p;
      memory = record { bucket = []; object_key = ""; ready = false; message = ""; reason = "" };
      disks = [];
    };
  },
  [],
)

-- A snapshot in progress is created.
created :
    (reconcile server node vm Daemons.status snapshot
      (start SnapshotPhase.in_progress Phase.snapshotting)).1.0.status.phase
    ≡ SnapshotPhase.created
unfolding reconcile create_snapshot
created = refl

daemon-snapshot-Step_example :
    Step
      (SnapshotPhase.in_progress, Phase.snapshotting)
      (place
        (reconcile server node vm Daemons.status snapshot
          (start SnapshotPhase.in_progress Phase.snapshotting)).1)
daemon-snapshot-Step_example =
    daemon-snapshot-Step server node vm Daemons.status snapshot
      (start SnapshotPhase.in_progress Phase.snapshotting)

daemon-snapshot-Runs_example :
    halted server
      (reconcile server node vm Daemons.status snapshot
        (start SnapshotPhase.in_progress Phase.snapshotting)).1.1
    ≡ false
unfolding halted
daemon-snapshot-Runs_example =
    daemon-snapshot-Runs server node vm Daemons.status snapshot
      (start SnapshotPhase.in_progress Phase.snapshotting) refl

abbrev marked : ch_vmm.Daemon.State
marked =
    (record { status = record Daemons.status { phase = Phase.snapshotting }; block = none }, [])

snapshot_and_vm_stuck_example :
    (place
        (reconcile server node vm Daemons.status snapshot
          (start SnapshotPhase.scheduled Phase.snapshotting)).1
      ≡ (SnapshotPhase.scheduled, Phase.snapshotting))
    × ((ch_vmm.Daemon.Reconcile.reconcile Daemons.server node vm marked).1.0.status
        ≡ marked.0.status)
snapshot_and_vm_stuck_example =
    snapshot_and_vm_stuck server node vm Daemons.status snapshot Daemons.server
      (start SnapshotPhase.scheduled Phase.snapshotting) marked refl refl refl

-- The snapshot has been taken, and the objects for its disks were there.
abbrev taken : State
taken = start SnapshotPhase.created Phase.running

-- The next call.
abbrev next : State
next = (reconcile server node vm Daemons.status snapshot taken).1

specified : next.0.status.phase ≡ SnapshotPhase.specified
unfolding reconcile found_snapshot found_vm is_mine work deferred reconcile_phase reconcile_created
    create_spec succeeds conclude written_if
specified = refl

disks_forgotten_example :
    ((reconcile server node vm Daemons.status snapshot next).1.0.status.phase ≡ SnapshotPhase.ready)
    × ((reconcile server node vm Daemons.status snapshot next).1.0.status.disks ≡ [])
unfolding is_mine
disks_forgotten_example =
    disks_forgotten snapshot taken.0.status refl server node vm Daemons.status next
      (next_call server node vm Daemons.status Phase.running [] (λ t n. refl) no_call) (λ t n. refl)
      specified refl refl refl
