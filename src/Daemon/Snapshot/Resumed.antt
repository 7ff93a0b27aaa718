-- ===== src/Daemon/Snapshot/Resumed.antt =====
-- Whenever a machine is paused for its snapshot, it is told to resume.
use ch_vmm.Prelude.{◌≡◌, refl, Bool, true, false, List, if◌then◌else◌}
use ch_vmm.Controller.Program.{
  Answer, done, not_found, already_exists, conflict, failed, Result, ok, err, panicked, Program,
  bind, ◌>>=◌, ◌>>◌,
}
use ch_vmm.Daemon.{Vm, Phase, Node}
use ch_vmm.Daemon.Snapshot.{
  Snapshot, SnapshotPhase, SnapshotStatus, get_snapshot, Server, State, get_phase, set_vm_phase,
  modify,
}
use ch_vmm.Daemon.Snapshot.Reconcile.{
  Look, started_if, reconcile_scheduled, reconcile_in_progress, reconcile_created, finish,
  reconcile_specified, reconcile_phase, conclude, update_vm_status, deferred, work, found_vm,
  found_snapshot, reconcile,
}
use ch_vmm.Daemon.Snapshot.Calm.{
  halted, Calm, calm, return-Calm, call-Calm, event-Calm, get_status-Calm, disks-Calm,
}
use ch_vmm.Daemon.Snapshot.Taking.{create_snapshot-Calm, create_spec-Calm}
use ch_vmm.Daemon.Snapshot.Steps.{succeeds-Calm}
use ch_vmm.Daemon.Snapshot.Turns.{conclude-Calm, look_all-Calm}

-- A program that does not leave the machine paused.
record Runs (server : Server) {A : Type 0} (m : Program State A) : Type 0 where
  led : (s : State) → halted server s.1 ≡ false → halted server (m s).1.1 ≡ false

module _ {server : Server} where
  Calm-Runs : {A : Type 0} {m : Program State A} → Calm server m → Runs server m
  Calm-Runs h = record { led = λ s e. h.runs s e }

  bind-Runs :
      {A B : Type 0} {m : Program State A} {f : A → Program State B}
      → Runs server m
      → ((a : A) → Runs server (f a))
      → Runs server (m >>= f)
  bind-Runs {A} {B} {m} {f} h k = record { led = λ s e. behind (m s) (h.led s e) }
    where
      behind :
          (r : Result A × State)
          → halted server r.1.1 ≡ false
          → halted server (bind r f).1.1 ≡ false
      behind (ok a, t) e = (k a).led t e
      behind (err x, t) e = e
      behind (panicked, t) e = e

  then-Runs :
      {B : Type 0} {m : Program State (Unit {0})} {k : Program State B}
      → Runs server m
      → Runs server k
      → Runs server (m >> k)
  then-Runs h k = record { led = λ s. (bind-Runs h (λ _. k)).led s }

  if-Runs :
      {A : Type 0} {m k : Program State A} (b : Bool)
      → Runs server m
      → Runs server k
      → Runs server (if b then m else k)
  if-Runs true h k = h
  if-Runs false h k = k

  get_phase-Runs : Runs server get_phase
  get_phase-Runs = record { led = λ s e. e }

  vm_phase-Runs : (p : Phase) → Runs server (set_vm_phase p)
  vm_phase-Runs p = record { led = λ s e. e }

  modify-Runs : (f : SnapshotStatus → SnapshotStatus) → Runs server (modify f)
  modify-Runs f = record { led = λ s e. e }

ruleset running = (
  Calm-Runs, bind-Runs, then-Runs, if-Runs, get_phase-Runs, vm_phase-Runs, modify-Runs, return-Calm,
  call-Calm, event-Calm, get_status-Calm, disks-Calm,
)

module _ (server : Server) (node : Node) (vm : Vm) (st : ch_vmm.Daemon.Status)
    (snap : Snapshot) where
  started_if-Runs : (a : Answer) → Runs server (started_if server node vm st snap a)
  unfolding started_if
  started_if-Runs done = search running
  started_if-Runs not_found = search running
  started_if-Runs already_exists = search running
  started_if-Runs conflict = search running
  started_if-Runs failed = search running

  finish-Runs : (ls : List Look) → Runs server (finish server node vm st snap ls)
  unfolding finish
  finish-Runs ls = search running

  phase-Runs : (p : SnapshotPhase) → Runs server (reconcile_phase server node vm st snap p)
  unfolding reconcile_phase reconcile_scheduled reconcile_in_progress reconcile_created
      reconcile_specified halted
  phase-Runs SnapshotPhase.scheduled = search (running, started_if-Runs)
  phase-Runs SnapshotPhase.in_progress =
      search (running, succeeds-Calm (create_snapshot-Calm server vm st snap))
  phase-Runs SnapshotPhase.created =
      search (running, succeeds-Calm (create_spec-Calm server vm st snap))
  phase-Runs SnapshotPhase.specified =
      search (running, look_all-Calm server node vm st snap, finish-Runs)
  phase-Runs SnapshotPhase.failed = search running
  phase-Runs SnapshotPhase.ready = search running
  phase-Runs SnapshotPhase.other = search running

  turn-Runs :
      (p : SnapshotPhase)
      → Runs server
          (do turn ← reconcile_phase server node vm st snap p; conclude server node vm st snap turn)
  turn-Runs p =
      bind-Runs (phase-Runs p) (λ turn. Calm-Runs (conclude-Calm server node vm st snap turn))

  work-Runs : (p : SnapshotPhase) → Runs server (work server node vm st snap p)
  unfolding work deferred update_vm_status halted
  work-Runs SnapshotPhase.in_progress = record {
    led = λ s e. (turn-Runs SnapshotPhase.in_progress).led s e;
  }
  work-Runs SnapshotPhase.scheduled = turn-Runs SnapshotPhase.scheduled
  work-Runs SnapshotPhase.created = turn-Runs SnapshotPhase.created
  work-Runs SnapshotPhase.specified = turn-Runs SnapshotPhase.specified
  work-Runs SnapshotPhase.failed = turn-Runs SnapshotPhase.failed
  work-Runs SnapshotPhase.ready = turn-Runs SnapshotPhase.ready
  work-Runs SnapshotPhase.other = turn-Runs SnapshotPhase.other

  vm_found-Runs : (a : Answer) → Runs server (found_vm server node vm st snap a)
  unfolding found_vm
  vm_found-Runs done = search (running, work-Runs)
  vm_found-Runs not_found = search running
  vm_found-Runs already_exists = search (calm, Calm-Runs)
  vm_found-Runs conflict = search (calm, Calm-Runs)
  vm_found-Runs failed = search (calm, Calm-Runs)

  snapshot_found-Runs : (a : Answer) → Runs server (found_snapshot server node vm st snap a)
  unfolding found_snapshot
  snapshot_found-Runs done = search (running, vm_found-Runs)
  snapshot_found-Runs not_found = search running
  snapshot_found-Runs already_exists = search (calm, Calm-Runs)
  snapshot_found-Runs conflict = search (calm, Calm-Runs)
  snapshot_found-Runs failed = search (calm, Calm-Runs)

  -- Whatever the server, the hypervisor and the host answer, and however the call ends, one call of the
  -- daemon's reconciler of a snapshot leaves no pause of the machine that succeeded without a request to
  -- resume it behind, if there was none before.
  pub daemon-snapshot-Runs :
      (s : State)
      → halted server s.1 ≡ false
      → halted server (reconcile server node vm st snap s).1.1 ≡ false
  unfolding reconcile
  daemon-snapshot-Runs s =
      (bind-Runs (Calm-Runs (call-Calm get_snapshot refl)) snapshot_found-Runs).led s
