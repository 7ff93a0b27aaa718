-- ===== src/Controller/Machine/Reconcile.antt =====
-- internal/controller/virtualmachine_controller.go: the reconciler itself.
use mathlib.Core.Option
use ch_vmm.Prelude.{
  String, Bool, true, false, not, ◌&&◌, ◌||◌, List, [], ◌∷◌, none, some, if◌then◌else◌, str_eq,
}
use ch_vmm.Api.Quantity.{Quantities}
use ch_vmm.Webhook.Field.{is_blank, is_set}
use ch_vmm.Controller.Program.{
  Outcome, settled, again, in_a_minute, Answer, done, not_found, conflict, refused, later, Result,
  ok, err, panicked, Program, ◌>>=◌, ◌>>◌, return, fail, must, must_or_missing,
}
use ch_vmm.Controller.Machine.{
  ConditionSets, Phase, VmStatus, Vm, Pod, World, get_vm, add_finalizer, remove_finalizer,
  list_vm_pods, update_status, delete_pod, Server, State, get_status, modify, set_phase,
  record_event, call, fetch,
}
use ch_vmm.Controller.Machine.Build.{build_vm_pod}
use ch_vmm.Controller.Machine.Hotplug.{update_hotplug_status, handle_hotplug}
use ch_vmm.Controller.Machine.Resize.{is_running, check_resize, reconcile_resize}
use ch_vmm.Controller.Machine.Conditions.{reconcile_conditions}
use ch_vmm.Controller.Machine.Phases.{all_attached, phase_of_pod, phase_of_running, runs, is_idle}
use ch_vmm.Controller.Machine.Migrate.{find_pod, create_named, new_name, migrate}

module _ {q : Quantities} {sets : ConditionSets} (server : Server q sets) (w : World q)
    (vm : Vm q) where
  abbrev M : Type 0 → Type 0
  M A = Program (State q sets) A

  -- The status with what is read of the pod.
  abbrev pub with_pod : Pod q → VmStatus q sets → VmStatus q sets
  with_pod pod s = record s { pod_uid = pod.uid; node_name = pod.node_name }

  abbrev pub with_pod_phase : Pod q → VmStatus q sets → VmStatus q sets
  with_pod_phase pod s = record s {
    phase =
        phase_of_pod s.phase pod.phase (all_attached w.is_hotpluggable vm.spec.volumes s.volumes);
  }

  abbrev pub with_conditions : Pod q → VmStatus q sets → VmStatus q sets
  with_conditions pod s = record s {
    conditions = reconcile_conditions sets w vm.spec pod.conditions s.conditions;
  }

  unfoldable pub reconcile_pending : M (Unit {0})
  reconcile_pending = do
    name ← new_name server w vm
    modify (λ s. record s { pod_name = name; phase = Phase.scheduling })

  -- A machine whose pod is missing.
  unfoldable pub create_missing : Phase → String → M (Unit {0})
  create_missing Phase.scheduling name = do
    pod ← build_vm_pod server w vm
    create_named server w vm name "CreatedVMPod" pod
  create_missing p name = set_phase Phase.failed

  unfoldable pub follow_pod : Pod q → M (Unit {0})
  follow_pod pod = do
    modify (with_pod pod)
    known ← get_status
    if is_blank pod.node_name then return tt else handle_hotplug server w vm known.volumes pod true
    modify (with_pod_phase pod)
    update_hotplug_status server w vm pod

  unfoldable pub reconcile_scheduling : M (Unit {0})
  unfolding create_missing follow_pod
  reconcile_scheduling = do
    status ← get_status
    found ← find_pod server w vm status.pod_name
    elim found [ none ↦ create_missing status.phase status.pod_name | some pod ↦ follow_pod pod ]

  -- The rest for a machine that goes on running in `pod`.
  unfoldable pub keep_running : Pod q → M (Unit {0})
  keep_running pod = do
    check_resize server vm pod
    modify (with_conditions pod)
    status ← get_status
    elim status.migration [
      | some m ↦ migrate server w vm m
      | none ↦ do
        handle_hotplug server w vm status.volumes pod false
        update_hotplug_status server w vm pod
    ]

  unfoldable pub reconcile_running : M (Unit {0})
  unfolding keep_running
  reconcile_running = do
    status ← get_status
    found ← find_pod server w vm status.pod_name
    let next = phase_of_running (Option.map (λ p. p.phase) found) (is_set status.migration)
    set_phase next
    if not (is_running next)
        then return tt
        else elim found [ none ↦ return tt | some pod ↦ keep_running pod ]

  -- The loop of `deleteAllVMPods`.
  unfoldable pub delete_pods : List (Pod q) → M (Unit {0})
  delete_pods [] = return tt
  delete_pods (p ∷ ps) =
      let rest = delete_pods ps in
      if p.deleting then rest else do
        deleted ← call server (delete_pod p.name)
        must_or_missing deleted
        record_event "DeletedVMPod"
        rest

  unfoldable pub delete_all_pods : M Bool
  unfolding delete_pods
  delete_all_pods = do
    listed ← fetch server list_vm_pods server.vm_pods
    must listed.0
    delete_pods listed.1
    return true

  unfoldable pub reconcile_ended : M (Unit {0})
  unfolding delete_all_pods
  reconcile_ended = do
    deleted ← delete_all_pods
    status ← get_status
    if deleted && runs (w.policy_of vm.spec.run_policy) status.phase status.power_on
        then set_phase Phase.pending
        else return tt

  -- `reconcile`, by the machine's phase.
  unfoldable pub reconcile_phase : M (Unit {0})
  unfolding reconcile_pending reconcile_scheduling reconcile_running reconcile_ended
  reconcile_phase = do
    status ← get_status
    elim status.phase [
      | Phase.pending ↦ reconcile_pending
      | Phase.scheduling ↦ reconcile_scheduling
      | Phase.scheduled ↦ reconcile_scheduling
      | Phase.pod_resize ↦ reconcile_resize server vm
      | Phase.running ↦ reconcile_running
      | Phase.none_yet ↦ reconcile_ended
      | Phase.succeeded ↦ reconcile_ended
      | Phase.failed ↦ reconcile_ended
      | _ ↦ return tt
    ]

  -- The loop of `gcVMPods`: the pods that are neither the machine's nor the target of its migration
  -- are deleted.
  unfoldable pub is_in_use : VmStatus q sets → String → Bool
  is_in_use status name =
      str_eq name status.pod_name
      || elim status.migration [ none ↦ false | some m ↦ str_eq name m.target_pod_name ]

  unfoldable pub collect_pods : VmStatus q sets → List (Pod q) → M (Unit {0})
  unfolding is_in_use
  collect_pods status [] = return tt
  collect_pods status (p ∷ ps) =
      let rest = collect_pods status ps in
      if p.deleting then rest else if is_in_use status p.name then rest else do
        deleted ← call server (delete_pod p.name)
        must_or_missing deleted
        record_event "GCDeletedVMPod"
        rest

  unfoldable pub gc_pods : M (Unit {0})
  unfolding collect_pods
  gc_pods = do
    listed ← fetch server list_vm_pods server.vm_pods
    must listed.0
    status ← get_status
    collect_pods status listed.1

  -- The end of `Reconcile`, by what `reconcile` returned and the answer to the update of the status.
  unfoldable pub conclude : Result (Unit {0}) → Answer → M Outcome
  unfolding gc_pods
  conclude (ok a) done = do gc_pods; return settled
  conclude (ok a) conflict = return again
  conclude (ok a) e = fail e
  conclude (err later) e = return in_a_minute
  conclude (err (refused e)) updated = do record_event "FailedReconcile"; fail e
  conclude panicked e = λ s. (panicked, s)

  -- What `Reconcile` does once `reconcile` has returned. The status is compared with a pointer to its
  -- old value, which is never equal: it is updated each time. A panic leaves before.
  unfoldable pub report : Result (Unit {0}) → M Outcome
  unfolding conclude
  report panicked = λ s. (panicked, s)
  report r = do
    status ← get_status
    updated ← call server (update_status status)
    conclude r updated

  -- `Reconcile` behind the finalizers.
  unfoldable pub reconcile_vm : M Outcome
  unfolding reconcile_phase report
  reconcile_vm s = let (r, t) = reconcile_phase s in report r t

  unfoldable pub add_guard : Answer → M Outcome
  add_guard done = return settled
  add_guard conflict = return again
  add_guard e = fail e

  unfoldable pub reconcile_deleted : M Outcome
  unfolding delete_all_pods reconcile_vm
  reconcile_deleted = do
    deleted ← delete_all_pods
    if deleted
        then (do updated ← call server remove_finalizer; must updated; return settled)
        else reconcile_vm

  -- `Reconcile` for a machine that the server has.
  unfoldable pub dispatch : M Outcome
  unfolding add_guard reconcile_deleted reconcile_vm
  dispatch = do
    status ← get_status
    if not vm.deleting && not vm.guarded
        then (do updated ← call server add_finalizer; add_guard updated)
        else if vm.deleting && is_idle status.phase
        then reconcile_deleted
        else reconcile_vm

  -- `Reconcile`, where `vm` is the machine that the server has if the answer is `done`.
  unfoldable pub found_vm : Answer → M Outcome
  unfolding dispatch
  found_vm done = dispatch
  found_vm not_found = return settled
  found_vm e = fail e

  unfoldable pub reconcile : M Outcome
  unfolding found_vm
  reconcile = do answered ← call server get_vm; found_vm answered
