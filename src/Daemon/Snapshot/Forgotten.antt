-- ===== src/Daemon/Snapshot/Forgotten.antt =====
-- What becomes of a snapshot whose disks have been made, but are not in its status.
use ch_vmm.Prelude.{
  String, Bool, ◌≡◌, refl, sym, subst, ap, ◌∙◌, true, false, List, [], ◌∷◌, if◌then◌else◌,
}
use ch_vmm.Controller.Program.{
  Answer, done, not_found, already_exists, conflict, failed, ◌>>=◌, ◌>>◌, return,
}
use ch_vmm.Daemon.{Vm, Phase, Node}
use ch_vmm.Daemon.Reconcile.{is_mine}
use ch_vmm.Daemon.Snapshot.{
  Snapshot, SnapshotPhase, SnapshotStatus, get_snapshot, get_vm, get_disk, Trace, Server, State,
  set_phase,
}
use ch_vmm.Daemon.Snapshot.Reconcile.{
  Turn, Look, leave, proceed, started_if, reconcile_scheduled, reconcile_in_progress,
  reconcile_created, look_all, any_look, statuses, finish, reconcile_specified, reconcile_phase,
  written_if, conclude, update_vm_status, deferred, work, found_vm, found_snapshot, reconcile,
}
use ch_vmm.Daemon.Snapshot.Turns.{concluded}
use ch_vmm.Daemon.Snapshot.Bare.{
  Bare, bare, succeeds-Bare, bind-Bare, call-Bare, create_snapshot-Bare, spec-Bare,
}

module _ (server : Server) (node : Node) (vm : Vm) (st : ch_vmm.Daemon.Status)
    (snap : Snapshot) where
  started_if-Bare : (a : Answer) → Bare server (started_if server node vm st snap a)
  unfolding started_if
  started_if-Bare done = search bare
  started_if-Bare not_found = search bare
  started_if-Bare already_exists = search bare
  started_if-Bare conflict = search bare
  started_if-Bare failed = search bare

  finish-Bare : (ls : List Look) → Bare server (finish server node vm st snap ls)
  unfolding finish
  finish-Bare ls = search bare

  ended-Bare :
      (b : Bool)
      → Bare server (
          if b
          then (do set_phase SnapshotPhase.created; return (proceed false))
          else (do set_phase SnapshotPhase.failed; return (proceed true)))
  ended-Bare true = record { led = λ s e. e }
  ended-Bare false = record { led = λ s e. e }

  specified_if-Bare :
      (b : Bool)
      → Bare server (
          if b
          then (do set_phase SnapshotPhase.specified; return (proceed false))
          else return (proceed true))
  specified_if-Bare true = record { led = λ s e. e }
  specified_if-Bare false = record { led = λ s e. e }

  -- A status without disks has no disk to look at.
  specified-Bare : Bare server (reconcile_specified server node vm st snap)
  unfolding reconcile_specified look_all statuses
  specified-Bare = record {
    led = λ (m, t) e.
        rw (e, reconcile_specified, look_all, statuses)
          ((finish-Bare []).led (record m { status = record m.status { disks = [] } }, t) refl);
  }

  written_if-Bare : (a : Answer) (b : Bool) → Bare server (written_if server node vm st snap a b)
  unfolding written_if
  written_if-Bare done true = search bare
  written_if-Bare done false = search bare
  written_if-Bare conflict b = search bare
  written_if-Bare not_found b = search bare
  written_if-Bare already_exists b = search bare
  written_if-Bare failed b = search bare

  conclude-Bare : (turn : Turn) → Bare server (conclude server node vm st snap turn)
  unfolding conclude
  conclude-Bare (leave o) = search bare
  conclude-Bare (proceed b) = search (bare, written_if-Bare)

  work-ready :
      (s : State)
      → s.0.status.disks ≡ []
      → (work server node vm st snap SnapshotPhase.specified s).1.0.status.phase
        ≡ SnapshotPhase.ready
  unfolding work deferred reconcile_phase reconcile_specified look_all finish any_look
  work-ready s e =
      ap (λ x. x.0)
        (concluded server node vm st snap (reconcile_specified server node vm st snap) s)
      ∙ rw (e, reconcile_specified, look_all, finish, any_look) refl

  reconcile-ready :
      (s : State)
      → s.0.status.disks ≡ []
      → s.0.status.phase ≡ SnapshotPhase.specified
      → is_mine node st ≡ true
      → server.answer s.1 get_snapshot ≡ done
      → server.answer (get_snapshot ∷ s.1) get_vm ≡ done
      → (reconcile server node vm st snap s).1.0.status.phase ≡ SnapshotPhase.ready
  unfolding reconcile found_snapshot found_vm
  reconcile-ready (m, t) e p mine hs hv =
      rw (hs, reconcile, found_snapshot, hv, found_vm, mine)
        (subst
          (λ q.
            (work server node vm st snap q (m, get_vm ∷ get_snapshot ∷ t)).1.0.status.phase
            ≡ SnapshotPhase.ready)
          (sym p) (work-ready (m, get_vm ∷ get_snapshot ∷ t) e))

  module _ (made : (t : Trace) (n : String) → server.answer t (get_disk n) ≡ done) where
    phase-Bare : (p : SnapshotPhase) → Bare server (reconcile_phase server node vm st snap p)
    unfolding reconcile_phase reconcile_scheduled reconcile_in_progress reconcile_created
    phase-Bare SnapshotPhase.scheduled = search (bare, started_if-Bare)
    phase-Bare SnapshotPhase.in_progress =
        bind-Bare (succeeds-Bare (create_snapshot-Bare server vm st snap made)) ended-Bare
    phase-Bare SnapshotPhase.created =
        bind-Bare (succeeds-Bare (spec-Bare server vm st snap)) specified_if-Bare
    phase-Bare SnapshotPhase.specified = specified-Bare
    phase-Bare SnapshotPhase.failed = search bare
    phase-Bare SnapshotPhase.ready = search bare
    phase-Bare SnapshotPhase.other = search bare

    turn-Bare :
        (p : SnapshotPhase)
        → Bare server (do
          turn ← reconcile_phase server node vm st snap p
          conclude server node vm st snap turn)
    turn-Bare p = bind-Bare (phase-Bare p) conclude-Bare

    work-Bare : (p : SnapshotPhase) → Bare server (work server node vm st snap p)
    unfolding work deferred update_vm_status
    work-Bare SnapshotPhase.in_progress = record {
      led = λ s e. (turn-Bare SnapshotPhase.in_progress).led s e;
    }
    work-Bare SnapshotPhase.scheduled = turn-Bare SnapshotPhase.scheduled
    work-Bare SnapshotPhase.created = turn-Bare SnapshotPhase.created
    work-Bare SnapshotPhase.specified = turn-Bare SnapshotPhase.specified
    work-Bare SnapshotPhase.failed = turn-Bare SnapshotPhase.failed
    work-Bare SnapshotPhase.ready = turn-Bare SnapshotPhase.ready
    work-Bare SnapshotPhase.other = turn-Bare SnapshotPhase.other

    vm_found-Bare : (a : Answer) → Bare server (found_vm server node vm st snap a)
    unfolding found_vm
    vm_found-Bare done = search (bare, work-Bare)
    vm_found-Bare not_found = search bare
    vm_found-Bare already_exists = search bare
    vm_found-Bare conflict = search bare
    vm_found-Bare failed = search bare

    snapshot_found-Bare : (a : Answer) → Bare server (found_snapshot server node vm st snap a)
    unfolding found_snapshot
    snapshot_found-Bare done = search (bare, vm_found-Bare)
    snapshot_found-Bare not_found = search bare
    snapshot_found-Bare already_exists = search bare
    snapshot_found-Bare conflict = search bare
    snapshot_found-Bare failed = search bare

    forgotten :
        (s : State)
        → s.0.status.disks ≡ []
        → (reconcile server node vm st snap s).1.0.status.disks ≡ []
    unfolding reconcile
    forgotten s = (bind-Bare (call-Bare get_snapshot) snapshot_found-Bare).led s

-- A sequence of calls for one snapshot, by any daemons, each from the status that the last has left and
-- with the objects for all disks on the server, whatever else is answered.
pub data Calls (snap : Snapshot) (x : SnapshotStatus) : SnapshotStatus → Type 0 where
  no_call : Calls snap x x
  next_call :
      {y : SnapshotStatus} (server : Server) (node : Node) (vm : Vm) (st : ch_vmm.Daemon.Status)
      (v : Phase) (t : Trace)
      → ((t : Trace) (n : String) → server.answer t (get_disk n) ≡ done)
      → Calls snap x y
      → Calls snap x
          (reconcile server node vm st snap (record { vm_phase = v; status = y }, t)).1.0.status

module _ (snap : Snapshot) (x : SnapshotStatus) (bare : x.disks ≡ []) where
  Calls-bare : (y : SnapshotStatus) → Calls snap x y → y.disks ≡ []
  Calls-bare y no_call = bare
  Calls-bare y (next_call {y = z} server node vm st v t made calls) =
      forgotten server node vm st snap made (record { vm_phase = v; status = z }, t)
        (Calls-bare z calls)

  -- If a snapshot has no disks in its status, and the objects for its disks are there already, then after
  -- any calls of the daemon's reconciler of snapshots for it, however they are answered and end, a call
  -- that finds it specified, and its machine on this node, makes it ready with no disk in its status.
  pub disks_forgotten :
      (server : Server) (node : Node) (vm : Vm) (st : ch_vmm.Daemon.Status) (s : State)
      → Calls snap x s.0.status
      → ((t : Trace) (n : String) → server.answer t (get_disk n) ≡ done)
      → s.0.status.phase ≡ SnapshotPhase.specified
      → is_mine node st ≡ true
      → server.answer s.1 get_snapshot ≡ done
      → server.answer (get_snapshot ∷ s.1) get_vm ≡ done
      → let z = (reconcile server node vm st snap s).1.0.status in
        (z.phase ≡ SnapshotPhase.ready) × (z.disks ≡ [])
  disks_forgotten server node vm st s calls made p mine hs hv =
      let none_yet = Calls-bare s.0.status calls in
      (
        reconcile-ready server node vm st snap s none_yet p mine hs hv,
        forgotten server node vm st snap made s none_yet,
      )
