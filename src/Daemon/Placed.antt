-- ===== src/Daemon/Placed.antt =====
-- What the daemon does for a machine that is not being migrated leaves its place and its migration
-- alone; with the migrations, this gives how the two change in a call.
use mathlib.Core.Option
use ch_vmm.Prelude.{String, ◌≡◌, refl, ap, ◌⊎◌, inl, inr, Option, none, some, if◌then◌else◌, str_eq}
use ch_vmm.Controller.Program.{
  Answer, done, not_found, already_exists, conflict, Program, return, Keeps, return-Keeps,
  bind-Keeps, then-Keeps, must-Keeps, if-Keeps, Keeps-coarser,
}
use ch_vmm.Daemon.{
  Vm, VmInfo, VmmState, Status, Phase, PowerAction, Migration, Pod, Server, Node, State, Trace,
  set_phase, modify,
}
use ch_vmm.Daemon.Frame.{Frames, fail-Frames, event-Frames, get_status-Frames, call-Frames}
use ch_vmm.Daemon.Frame.Mounted.{cleanup-Frames, mount_volumes-Frames}
use ch_vmm.Daemon.Frame.Plugged.{reconcile_volumes-Frames}
use ch_vmm.Daemon.Phases.{
  reconcile_restoring, follow_created, start_if, reconcile_scheduled, resume_if, reconcile_resumed,
  resize_if, reconcile_resizing, serve, reconcile_serving, if_here, reconcile_running,
  reconcile_phase,
}
use ch_vmm.Daemon.Reconcile.{reconcile_deleting, delete_vm, reconcile}
use ch_vmm.Daemon.Steps.{
  ask-Frames, get_info-Frames, must_or_tell-Frames, create_vm-Frames, boot_vm-Frames,
  power_if-Frames, reconcile_paused-Frames,
}
use ch_vmm.Daemon.Migrate.{migrate}
use ch_vmm.Daemon.Moves.{Stepped, migrate-Moves}
use ch_vmm.Daemon.Handover.{Taken, migrate-Takes}
use ch_vmm.Daemon.Whole.{read, reconcile_relates, delete_if-Frames}

abbrev place : State → String × Option Migration
place s = (s.0.status.node_name, s.0.status.migration)

abbrev Places : {A : Type 0} → Program State A → Type 0
Places m = Keeps place m

Frames-Places : {A : Type 0} {m : Program State A} → Frames m → Places m
Frames-Places h = Keeps-coarser (λ f. (f.1, f.2)) h

set_phase-Places : (p : Phase) → Places (set_phase p)
set_phase-Places p = record { kept = λ s. refl }

power-Places : (a : PowerAction) → Places (modify (λ s. record s { power_action = a }))
power-Places a = record { kept = λ s. refl }

ruleset places = (
  return-Keeps, bind-Keeps, then-Keeps, must-Keeps, if-Keeps, Frames-Places, set_phase-Places,
  power-Places, fail-Frames, event-Frames, get_status-Frames, call-Frames, ask-Frames,
  get_info-Frames, must_or_tell-Frames,
)

module _ (server : Server) (node : Node) (vm : Vm) where
  restoring-Places : Places (reconcile_restoring server node vm)
  unfolding reconcile_restoring
  restoring-Places = search places depth 12

  follow_created-Places : (v : VmmState) → Places (follow_created server node vm v)
  unfolding follow_created
  follow_created-Places VmmState.created = Frames-Places (boot_vm-Frames server node vm)
  follow_created-Places VmmState.running = search places
  follow_created-Places VmmState.paused = search places
  follow_created-Places VmmState.shutdown = search places
  follow_created-Places VmmState.other = search places

  start_if-Places : (a : Answer × VmInfo) → Places (start_if server node vm a)
  unfolding start_if
  start_if-Places (done, i) = follow_created-Places i.state
  start_if-Places (not_found, i) = Frames-Places (create_vm-Frames server node vm)
  start_if-Places (already_exists, i) = search places
  start_if-Places (conflict, i) = search places
  start_if-Places (Answer.failed, i) = search places

  scheduled-Places : Places (reconcile_scheduled server node vm)
  unfolding reconcile_scheduled
  scheduled-Places = search (places, mount_volumes-Frames, start_if-Places) depth 8

  resume_if-Places : (v : VmmState) → Places (resume_if server node vm v)
  unfolding resume_if
  resume_if-Places VmmState.paused = search places depth 8
  resume_if-Places VmmState.created = search places
  resume_if-Places VmmState.running = search places
  resume_if-Places VmmState.shutdown = search places
  resume_if-Places VmmState.other = search places

  resumed-Places : Places (reconcile_resumed server node vm)
  unfolding reconcile_resumed
  resumed-Places = search (places, resume_if-Places) depth 8

  resize_if-Places : (i : VmInfo) → Places (resize_if server node vm i)
  unfolding resize_if
  resize_if-Places i = search places depth 8

  resizing-Places : Places (reconcile_resizing server node vm)
  unfolding reconcile_resizing
  resizing-Places =
      bind-Keeps (Frames-Places (get_info-Frames server node vm))
        (λ a. then-Keeps (must-Keeps a.0) (at_state a.1 a.1.state))
    where
      at_state :
          (i : VmInfo) (v : VmmState)
          → Places (elim v [
            | VmmState.running ↦ resize_if server node vm i
            | VmmState.paused ↦ resize_if server node vm i
            | _ ↦ return tt
          ])
      at_state i VmmState.running = resize_if-Places i
      at_state i VmmState.paused = resize_if-Places i
      at_state i VmmState.created = return-Keeps tt
      at_state i VmmState.shutdown = return-Keeps tt
      at_state i VmmState.other = return-Keeps tt

  serve-Places : (i : VmInfo) → Places (serve server node vm i)
  unfolding serve
  serve-Places i = search (places, reconcile_volumes-Frames, power_if-Frames) depth 10

  serving-Places : Places (reconcile_serving server node vm)
  unfolding reconcile_serving
  serving-Places =
      bind-Keeps (Frames-Places (get_info-Frames server node vm))
        (λ a. then-Keeps (must-Keeps a.0) (at_state a.1 a.1.state))
    where
      at_state :
          (i : VmInfo) (v : VmmState)
          → Places (elim v [
            | VmmState.running ↦ serve server node vm i
            | VmmState.paused ↦ serve server node vm i
            | _ ↦ set_phase Phase.succeeded
          ])
      at_state i VmmState.running = serve-Places i
      at_state i VmmState.paused = serve-Places i
      at_state i VmmState.created = set_phase-Places _
      at_state i VmmState.shutdown = set_phase-Places _
      at_state i VmmState.other = set_phase-Places _

  if_here-Places : {m : Program State (Unit {0})} → Places m → Places (if_here server node vm m)
  unfolding if_here
  if_here-Places {m = m} h =
      bind-Keeps (Frames-Places get_status-Frames) (λ s. at_migration s s.migration)
    where
      at_migration :
          (s : Status) (o : Option Migration)
          → Places (elim o [
            | some migration ↦ return tt
            | none ↦ if str_eq s.node_name node.name then m else return tt
          ])
      at_migration s (some migration) = return-Keeps tt
      at_migration s none = if-Keeps (str_eq s.node_name node.name) h (return-Keeps tt)

  deleting-Places : (pod : Pod) → Places (reconcile_deleting server node vm pod)
  unfolding reconcile_deleting delete_vm
  deleting-Places pod = search (places, delete_if-Frames, cleanup-Frames)

  -- A relation of the status before and after the work on a machine holds if it does wherever the
  -- place stays, and for a migration.
  work_relates :
      (R : Status → Status → Type 0) (s : State)
      → ((m : Program State (Unit {0})) → Places m → R s.0.status (m s).1.0.status)
      → ((m : Migration) (pod : Pod)
          → s.0.status.migration ≡ some m
          → R s.0.status (migrate server node vm m pod s).1.0.status)
      → (p : Phase) (pod : Pod) → R s.0.status (reconcile_phase server node vm p pod s).1.0.status
  unfolding reconcile_phase reconcile_running
  work_relates R s placed moved Phase.restoring pod = placed _ restoring-Places
  work_relates R s placed moved Phase.scheduled pod = placed _ scheduled-Places
  work_relates R s placed moved Phase.paused pod =
      placed _ (if_here-Places (Frames-Places (reconcile_paused-Frames server node vm)))
  work_relates R s placed moved Phase.resumed pod = placed _ (if_here-Places resumed-Places)
  work_relates R s placed moved Phase.resizing pod = placed _ (if_here-Places resizing-Places)
  work_relates R s placed moved Phase.succeeded pod =
      placed _ (Frames-Places (cleanup-Frames server node vm))
  work_relates R s placed moved Phase.failed pod =
      placed _ (Frames-Places (cleanup-Frames server node vm))
  work_relates R s placed moved Phase.snapshotting pod = placed _ (return-Keeps tt)
  work_relates R s placed moved Phase.other pod = placed _ (return-Keeps tt)
  work_relates R s placed moved Phase.running pod = at_migration s.0.status.migration refl
    where
      at_migration :
          (o : Option Migration)
          → s.0.status.migration ≡ o
          → R s.0.status
              ((elim o as (λ o. Program State (Unit {0})) [
                | some m ↦ migrate server node vm m pod
                | none ↦
                    if str_eq s.0.status.node_name node.name
                    then reconcile_serving server node vm
                    else return tt
              ])
                s).1.0.status
      at_migration (some m) e = moved m pod e
      at_migration none e =
          placed _
            (if-Keeps (str_eq s.0.status.node_name node.name) serving-Places (return-Keeps tt))

  -- How the phase of a migration changes.
  unfoldable pub Migrates : Status → Status → Type 0
  Migrates x y =
      (Option.map (λ m. m.phase) y.migration ≡ Option.map (λ m. m.phase) x.migration)
      ⊎ ((m : Migration) × (x.migration ≡ some m)
          × Stepped m.phase (Option.map (λ m'. m'.phase) y.migration))

  -- Whatever the server, the hypervisor and the host answer, and however the call ends, one call of
  -- the daemon's reconciler changes the phase of a migration only along the steps: one that is
  -- scheduled gets ready or fails, one that is ready begins to run, one that runs is sent or fails,
  -- and one that is sent succeeds.
  pub daemon-reconcile-Migrates :
      (s : State) → Migrates s.0.status (reconcile server node vm s).1.0.status
  unfolding Migrates
  daemon-reconcile-Migrates s =
      let placed = λ (m : Program State (Unit {0})) (h : Places m).
        inl (ap (λ x. Option.map (λ m. m.phase) x.1) (h.kept (read s))) in
      reconcile_relates server node vm Migrates (λ x. inl refl) s
        (λ pod.
          work_relates Migrates (read s) placed
            (λ m pod e. elim ((migrate-Moves server node vm m pod).changed (read s)) [
              | inl k ↦ inl k
              | inr st ↦ inr (m, e, st)
            ])
            s.0.status.phase pod)
        (λ pod d. placed _ (deleting-Places pod))

  -- How the node of a machine changes, where the trace is that at which the daemon has read all.
  unfoldable pub Relocates : Trace → Status → Status → Type 0
  unfolding Taken
  Relocates t x y =
      (y.node_name ≡ x.node_name)
      ⊎ ((m : Migration) × (x.migration ≡ some m) × Taken server node vm m t y.node_name)

  -- Whatever the server, the hypervisor and the host answer, one call of the daemon's reconciler
  -- leaves the machine on its node, or the machine is in a migration that has been sent to this node,
  -- is now here, and the hypervisor of the target, asked behind the requests for the machine and its
  -- pod, has said that it runs the machine.
  pub daemon-reconcile-Relocates :
      (s : State) → Relocates (read s).1 s.0.status (reconcile server node vm s).1.0.status
  unfolding Relocates
  daemon-reconcile-Relocates s =
      let R = Relocates (read s).1 in
      let placed =
        λ (m : Program State (Unit {0})) (h : Places m). inl (ap (λ x. x.0) (h.kept (read s))) in
      reconcile_relates server node vm R (λ x. inl refl) s
        (λ pod.
          work_relates R (read s) placed
            (λ m pod e. elim (migrate-Takes server node vm m pod (read s)) [
              | inl k ↦ inl k
              | inr st ↦ inr (m, e, st)
            ])
            s.0.status.phase pod)
        (λ pod d. placed _ (deleting-Places pod))
