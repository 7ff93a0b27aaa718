-- ===== src/Controller/Machine/Whole.antt =====
-- The reconciler of a machine as a whole: which phase it leaves.
use ch_vmm.Prelude.{◌≡◌, refl, sym, subst, true, not, ◌&&◌, List, [], ◌∷◌}
use ch_vmm.Api.Quantity.{Quantities}
use ch_vmm.Controller.Program.{
  settled, Answer, done, not_found, already_exists, conflict, failed, refused, later, Result, ok,
  err, panicked, return-Keeps, bind-Keeps, then-Keeps, must, must_or_missing-Keeps, if-Keeps,
  return, ◌>>=◌, ◌>>◌,
}
use ch_vmm.Controller.Machine.{
  ConditionSets, Phase, Pod, Vm, World, Server, State, call, VmStatus, remove_finalizer,
  add_finalizer, get_vm, delete_pod,
}
use ch_vmm.Controller.Machine.Silent.{Silent, silent, call-Silent, event-Silent}
use ch_vmm.Controller.Machine.Phases.{is_idle}
use ch_vmm.Controller.Machine.Resize.{reconcile_resize}
use ch_vmm.Controller.Machine.Migrate.{new_name}
use ch_vmm.Controller.Machine.Reconcile.{
  report, is_in_use, reconcile_pending, reconcile_scheduling, reconcile_running, reconcile_ended,
  reconcile_phase, collect_pods, gc_pods, conclude, reconcile_vm, add_guard, reconcile_deleted,
  dispatch, found_vm, reconcile,
}
use ch_vmm.Controller.Machine.Graph.{
  Step, schedule, is_active, phase_in, KeepsPhase, StepsFrom, Silent-KeepsPhase, if-StepsFrom,
  phases, get_status-KeepsPhase, stay_at, KeepsPhase-StepsFrom, behind-StepsFrom,
}
use ch_vmm.Controller.Machine.Transitions.{
  reconcile_ended-StepsFrom, reconcile_running-StepsFrom, reconcile_scheduling-Step,
  reconcile_resize-StepsFrom, delete_all_pods-Silent,
}

module _ {q : Quantities} {sets : ConditionSets} (server : Server q sets) (w : World q)
    (vm : Vm q) where
  scheduling-StepsFrom :
      (p : Phase) → is_active p ≡ true → StepsFrom p (reconcile_scheduling server w vm)
  scheduling-StepsFrom p active = record {
    led = λ s e.
        subst (λ x. Step x (phase_in (reconcile_scheduling server w vm s).1)) e
          (reconcile_scheduling-Step server w vm s
            (subst (λ x. is_active x ≡ true) (sym e) active));
  }

  -- The machine's phase changes in `reconcile` only as `Step` says.
  reconcile_phase-Step :
      (s : State q sets) → Step s.0.phase (phase_in (reconcile_phase server w vm s).1)
  unfolding reconcile_phase reconcile_pending new_name
  reconcile_phase-Step s = (at_phase s.0.phase).led s refl
    where
      at_phase :
          (p : Phase)
          → StepsFrom {q = q} {sets = sets} p (elim p [
            | Phase.pending ↦ reconcile_pending server w vm
            | Phase.scheduling ↦ reconcile_scheduling server w vm
            | Phase.scheduled ↦ reconcile_scheduling server w vm
            | Phase.pod_resize ↦ reconcile_resize server vm
            | Phase.running ↦ reconcile_running server w vm
            | Phase.none_yet ↦ reconcile_ended server w vm
            | Phase.succeeded ↦ reconcile_ended server w vm
            | Phase.failed ↦ reconcile_ended server w vm
            | _ ↦ return tt
          ])
      at_phase Phase.pending = record { led = λ s e. schedule }
      at_phase Phase.scheduling = scheduling-StepsFrom Phase.scheduling refl
      at_phase Phase.scheduled = scheduling-StepsFrom Phase.scheduled refl
      at_phase Phase.pod_resize = reconcile_resize-StepsFrom server w vm
      at_phase Phase.running = reconcile_running-StepsFrom server w vm
      at_phase Phase.none_yet = reconcile_ended-StepsFrom server w vm refl
      at_phase Phase.succeeded = reconcile_ended-StepsFrom server w vm refl
      at_phase Phase.failed = reconcile_ended-StepsFrom server w vm refl
      at_phase p = KeepsPhase-StepsFrom (return-Keeps tt)

  collect_pods-Silent :
      (status : VmStatus q sets) (ps : List (Pod q)) → Silent (collect_pods server w vm status ps)
  unfolding collect_pods
  collect_pods-Silent status [] = search silent
  collect_pods-Silent status (p ∷ ps) = if-Keeps p.deleting (collect_pods-Silent status ps) (
      if-Keeps (is_in_use server w vm status p.name) (collect_pods-Silent status ps) (
        bind-Keeps (call-Silent server (delete_pod p.name)) (λ deleted.
          then-Keeps (must_or_missing-Keeps deleted)
            (then-Keeps (event-Silent "GCDeletedVMPod") (collect_pods-Silent status ps)))))

  gc_pods-KeepsPhase : KeepsPhase (gc_pods server w vm)
  unfolding gc_pods
  gc_pods-KeepsPhase = search (phases, silent, collect_pods-Silent) depth 9

  conclude-KeepsPhase : (r : Result (Unit {0})) (a : Answer) → KeepsPhase (conclude server w vm r a)
  unfolding conclude
  conclude-KeepsPhase (ok x) done = then-Keeps gc_pods-KeepsPhase (return-Keeps _)
  conclude-KeepsPhase (ok x) conflict = return-Keeps _
  conclude-KeepsPhase (ok x) not_found = record { kept = λ s. refl }
  conclude-KeepsPhase (ok x) already_exists = record { kept = λ s. refl }
  conclude-KeepsPhase (ok x) failed = record { kept = λ s. refl }
  conclude-KeepsPhase (err later) a = return-Keeps _
  conclude-KeepsPhase (err (refused e)) a = record { kept = λ s. refl }
  conclude-KeepsPhase panicked a = record { kept = λ s. refl }

  report-KeepsPhase : (r : Result (Unit {0})) → KeepsPhase (report server w vm r)
  unfolding report
  report-KeepsPhase panicked = record { kept = λ s. refl }
  report-KeepsPhase (ok x) = search (phases, silent, conclude-KeepsPhase)
  report-KeepsPhase (err e) = search (phases, silent, conclude-KeepsPhase)

  reconcile_vm-Step : (p : Phase) → StepsFrom p (reconcile_vm server w vm)
  unfolding reconcile_vm
  reconcile_vm-Step p = record {
    led = λ s e.
        let left = reconcile_phase server w vm s in
        subst (λ x. Step p x) (sym ((report-KeepsPhase left.0).kept left.1))
          (subst (λ x. Step x (phase_in left.1)) e (reconcile_phase-Step s));
  }

  add_guard-KeepsPhase : (a : Answer) → KeepsPhase (add_guard server w vm a)
  unfolding add_guard
  add_guard-KeepsPhase done = record { kept = λ s. refl }
  add_guard-KeepsPhase not_found = record { kept = λ s. refl }
  add_guard-KeepsPhase already_exists = record { kept = λ s. refl }
  add_guard-KeepsPhase conflict = record { kept = λ s. refl }
  add_guard-KeepsPhase failed = record { kept = λ s. refl }

  removed-KeepsPhase :
      KeepsPhase (call server remove_finalizer >>= λ updated. must updated >> return settled)
  removed-KeepsPhase = search (phases, silent)

  reconcile_deleted-StepsFrom : (p : Phase) → StepsFrom p (reconcile_deleted server w vm)
  unfolding reconcile_deleted
  reconcile_deleted-StepsFrom p =
      behind-StepsFrom (Silent-KeepsPhase (delete_all_pods-Silent server w vm)) (λ deleted.
        if-StepsFrom deleted (KeepsPhase-StepsFrom removed-KeepsPhase) (reconcile_vm-Step p))

  dispatch-StepsFrom : (p : Phase) → StepsFrom p (dispatch server w vm)
  unfolding dispatch
  dispatch-StepsFrom p = behind-StepsFrom get_status-KeepsPhase (λ status.
      if-StepsFrom (not vm.deleting && not vm.guarded)
        (KeepsPhase-StepsFrom
          (bind-Keeps (Silent-KeepsPhase (call-Silent server add_finalizer)) add_guard-KeepsPhase))
        (if-StepsFrom (vm.deleting && is_idle status.phase) (reconcile_deleted-StepsFrom p)
          (reconcile_vm-Step p)))

  found_vm-StepsFrom : (p : Phase) (a : Answer) → StepsFrom p (found_vm server w vm a)
  unfolding found_vm
  found_vm-StepsFrom p done = dispatch-StepsFrom p
  found_vm-StepsFrom p not_found = record { led = λ s e. stay_at s e }
  found_vm-StepsFrom p already_exists = record { led = λ s e. stay_at s e }
  found_vm-StepsFrom p conflict = record { led = λ s e. stay_at s e }
  found_vm-StepsFrom p failed = record { led = λ s e. stay_at s e }

  -- Whatever the server answers, and however the call ends, one call of the reconciler of a machine
  -- changes the machine's phase only as `Step` says.
  pub reconcile-Step : (s : State q sets) → Step s.0.phase (phase_in (reconcile server w vm s).1)
  unfolding reconcile
  reconcile-Step s =
      (behind-StepsFrom (Silent-KeepsPhase (call-Silent server get_vm))
          (found_vm-StepsFrom s.0.phase)).led
        s refl
