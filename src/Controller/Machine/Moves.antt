-- ===== src/Controller/Machine/Moves.antt =====
-- Each part of the reconciler of a machine makes only changes of the phase that `Step` has.
use ch_vmm.Prelude.{refl, String, Bool, true, false, List, [], ◌∷◌, if◌then◌else◌}
use ch_vmm.Api.Quantity.{Quantities}
use ch_vmm.Controller.Program.{
  Answer, done, not_found, already_exists, conflict, failed, return-Keeps, bind-Keeps, then-Keeps,
  if-Keeps, option-Keeps, return, ◌>>=◌, ◌>>◌,
}
use ch_vmm.Controller.Machine.{
  ConditionSets, PodPhase, Migration, MigrationPhase, Pod, PodTemplate, Vm, World, Server,
}
use ch_vmm.Controller.Machine.Silent.{Silent, silent, later-Silent}
use ch_vmm.Controller.Machine.Silent.Pods.{build_target_pod-Silent}
use ch_vmm.Controller.Machine.Silent.Volumes.{
  hotplug_pods-Silent, handle_hotplug-Silent, leaving-Silent,
}
use ch_vmm.Api.{Volume}
use ch_vmm.Webhook.Field.{is_blank}
use ch_vmm.Controller.Machine.Plugged.{hotplug_volumes}
use ch_vmm.Controller.Machine.Build.{build_target_pod}
use ch_vmm.Controller.Machine.Phases.{has_ended}
use ch_vmm.Controller.Machine.Hotplug.{update_hotplug_status, handle_hotplug, hotplug_pods}
use ch_vmm.Controller.Machine.Migrate.{
  flattened, new_name, controlled, find_pod, create_named, set_migration, follow_target_volumes,
  target_attached, follow_target, begin_migration, schedule_migration, migrate,
}
use ch_vmm.Controller.Machine.Graph.{KeepsPhase, Silent-KeepsPhase, phases}

module _ {q : Quantities} {sets : ConditionSets} (server : Server q sets) (w : World q)
    (vm : Vm q) where
  controlled-Silent : (a : Answer × Pod q) → Silent (controlled server w vm a)
  unfolding controlled
  controlled-Silent (done, pod) = search silent
  controlled-Silent (not_found, pod) = search silent
  controlled-Silent (already_exists, pod) = search silent
  controlled-Silent (conflict, pod) = search silent
  controlled-Silent (failed, pod) = search silent

  pub find_pod-Silent : (name : String) → Silent (find_pod server w vm name)
  unfolding find_pod
  find_pod-Silent name = search (silent, controlled-Silent)

  pub create_named-Silent :
      (name reason : String) (pod : PodTemplate q)
      → Silent (create_named server w vm name reason pod)
  unfolding create_named
  create_named-Silent name reason pod = search silent

  pub update_hotplug-KeepsPhase : (pod : Pod q) → KeepsPhase (update_hotplug_status server w vm pod)
  unfolding update_hotplug_status
  update_hotplug-KeepsPhase pod =
      search (phases, hotplug_pods-Silent, leaving-Silent, later-Silent) depth 9

  set_migration-KeepsPhase : (f : Migration → Migration) → KeepsPhase (set_migration server w vm f)
  unfolding set_migration
  set_migration-KeepsPhase f = search phases

  follow_target_volumes-KeepsPhase :
      (ps : List (Pod q)) → KeepsPhase (follow_target_volumes server w vm ps)
  unfolding follow_target_volumes
  follow_target_volumes-KeepsPhase [] = search phases
  follow_target_volumes-KeepsPhase (p ∷ ps) = search (phases, set_migration-KeepsPhase)

  target_attached-KeepsPhase : (target : Pod q) → KeepsPhase (target_attached server w vm target)
  unfolding target_attached
  target_attached-KeepsPhase target =
      if-Keeps (has_ended target.phase) (search (phases, set_migration-KeepsPhase))
        (by_volumes (hotplug_volumes w target.volumes vm.spec.volumes))
    where
      by_volumes :
          (vs : List Volume)
          → KeepsPhase {q = q} {sets = sets} (elim vs [
            | [] ↦ return true
            | _ ↦ if is_blank target.node_name then return false else do
              handle_hotplug server w vm [] target true
              pods ← hotplug_pods server w target
              follow_target_volumes server w vm pods
          ])
      by_volumes [] = return-Keeps _
      by_volumes (v ∷ vs) =
          search
            (phases, handle_hotplug-Silent, hotplug_pods-Silent, follow_target_volumes-KeepsPhase)
            depth 9

  follow_target-KeepsPhase : (target : Pod q) → KeepsPhase (follow_target server w vm target)
  unfolding follow_target
  follow_target-KeepsPhase target =
      then-Keeps (set_migration-KeepsPhase _) (
        bind-Keeps (target_attached-KeepsPhase target) (λ attached. at_phase attached target.phase))
    where
      at_phase :
          (attached : Bool) (p : PodPhase)
          → KeepsPhase {q = q} {sets = sets} (elim p [
            | PodPhase.running ↦
                if attached
                then set_migration server w vm (λ m. record m { phase = MigrationPhase.scheduled })
                else return tt
            | _ ↦ return tt
          ])
      at_phase attached PodPhase.running = search (phases, set_migration-KeepsPhase)
      at_phase attached p = search phases

  begin_migration-KeepsPhase : KeepsPhase (begin_migration server w vm)
  unfolding begin_migration new_name set_migration
  begin_migration-KeepsPhase = record { kept = λ s. refl }

  schedule_migration-KeepsPhase : (m : Migration) → KeepsPhase (schedule_migration server w vm m)
  unfolding schedule_migration
  schedule_migration-KeepsPhase m =
      bind-Keeps (Silent-KeepsPhase (find_pod-Silent m.target_pod_name)) (λ found.
        option-Keeps found
          (bind-Keeps flat (λ pod. Silent-KeepsPhase (create_named-Silent _ _ pod)))
          follow_target-KeepsPhase)
    where
      flat : KeepsPhase (λ s. (let (r, t) = build_target_pod server w vm s in (flattened r, t)))
      flat = record { kept = λ s. (Silent-KeepsPhase (build_target_pod-Silent server w vm)).kept s }

  pub migrate-KeepsPhase : (m : Migration) → KeepsPhase (migrate server w vm m)
  unfolding migrate
  migrate-KeepsPhase m = at_phase m.phase
    where
      at_phase :
          (p : MigrationPhase)
          → KeepsPhase {q = q} {sets = sets} (elim p [
            | MigrationPhase.none_yet ↦ begin_migration server w vm
            | MigrationPhase.pending ↦ begin_migration server w vm
            | MigrationPhase.scheduling ↦ schedule_migration server w vm m
            | _ ↦ return tt
          ])
      at_phase MigrationPhase.none_yet = begin_migration-KeepsPhase
      at_phase MigrationPhase.pending = begin_migration-KeepsPhase
      at_phase MigrationPhase.scheduling = schedule_migration-KeepsPhase m
      at_phase p = return-Keeps _
