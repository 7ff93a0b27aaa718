-- ===== src/Controller/Machine/Migrate.antt =====
-- internal/controller/virtualmachine_controller.go: how a running machine is
-- prepared for its migration.
use mathlib.Core.Option
use ch_vmm.Prelude.{
  String, ◌<>◌, Bool, true, false, List, [], ◌∷◌, Option, none, some, if◌then◌else◌,
}
use ch_vmm.Api.Quantity.{Quantities}
use ch_vmm.Webhook.Field.{is_blank}
use ch_vmm.Controller.Program.{
  Answer, done, not_found, refused, Result, ok, err, panicked, Program, ◌>>=◌, ◌>>◌, return, fail,
  must,
}
use ch_vmm.Controller.Machine.{
  ConditionSets, PodPhase, MigrationPhase, Migration, Vm, Pod, PodTemplate, World, get_pod,
  create_pod, Server, State, modify, record_event, call, fetch,
}
use ch_vmm.Controller.Machine.Build.{build_target_pod}
use ch_vmm.Controller.Machine.Plugged.{hotplug_volumes}
use ch_vmm.Controller.Machine.Hotplug.{hotplug_pods, handle_hotplug}
use ch_vmm.Controller.Machine.Phases.{has_ended}

-- An error that is only formatted into another is no request to be called again.
pub flattened : {A : Type 0} → Result A → Result A
flattened (ok a) = ok a
flattened (err e) = err (refused Answer.failed)
flattened panicked = panicked

module _ {q : Quantities} {sets : ConditionSets} (server : Server q sets) (w : World q)
    (vm : Vm q) where
  abbrev M : Type 0 → Type 0
  M A = Program (State q sets) A

  -- A pod that the machine controls, or `none`.
  unfoldable pub controlled : Answer × Pod q → M (Option (Pod q))
  controlled (done, pod) = return (if pod.controlled then some pod else none)
  controlled (not_found, pod) = return none
  controlled (e, pod) = fail e

  unfoldable pub find_pod : String → M (Option (Pod q))
  unfolding controlled
  find_pod name = do
    answered ← fetch server (get_pod name) (λ t. server.pod t name)
    controlled answered

  unfoldable pub create_named : String → String → PodTemplate q → M (Unit {0})
  create_named name reason pod = do
    must server.owned
    created ← call server (create_pod (record pod { name = name }))
    must created
    record_event reason

  -- `vm-NAME-` with a suffix.
  unfoldable pub new_name : M String
  new_name (status, t) = (ok (server.generate_name t ("vm-" <> vm.name <> "-")), (status, t))

  unfoldable pub set_migration : (Migration → Migration) → M (Unit {0})
  set_migration f = modify (λ s. record s { migration = Option.map f s.migration })

  -- The volume pod of the target, the newest: whether it runs.
  unfoldable pub follow_target_volumes : List (Pod q) → M Bool
  unfolding set_migration
  follow_target_volumes [] = return false
  follow_target_volumes (p ∷ ps) = do
    set_migration (λ m. record m { target_volume_pod_uid = p.uid })
    if has_ended p.phase
        then (do set_migration (λ m. record m { phase = MigrationPhase.failed }); return false)
        else return (elim p.phase [ PodPhase.running ↦ true | _ ↦ false ])

  -- Whether the volumes are attached to the node of the target.
  unfoldable pub target_attached : Pod q → M Bool
  unfolding set_migration follow_target_volumes
  target_attached target =
      if has_ended target.phase
      then (do set_migration (λ m. record m { phase = MigrationPhase.failed }); return false)
      else elim (hotplug_volumes w target.volumes vm.spec.volumes) [
        | [] ↦ return true
        | _ ↦ if is_blank target.node_name then return false else do
          handle_hotplug server w vm [] target true
          pods ← hotplug_pods server w target
          follow_target_volumes pods
      ]

  unfoldable pub follow_target : Pod q → M (Unit {0})
  unfolding set_migration target_attached
  follow_target target = do
    set_migration
        (λ m. record m { target_pod_uid = target.uid; target_node_name = target.node_name })
    attached ← target_attached target
    elim target.phase [
      | PodPhase.running ↦
          if attached
          then set_migration (λ m. record m { phase = MigrationPhase.scheduled })
          else return tt
      | _ ↦ return tt
    ]

  unfoldable pub begin_migration : M (Unit {0})
  unfolding set_migration new_name
  begin_migration = do
    name ← new_name
    set_migration (λ m. record m { target_pod_name = name; phase = MigrationPhase.scheduling })

  unfoldable pub schedule_migration : Migration → M (Unit {0})
  unfolding find_pod create_named follow_target
  schedule_migration m = do
    found ← find_pod m.target_pod_name
    elim found [
      | none ↦ do
        pod ← λ s. (let (r, t) = build_target_pod server w vm s in (flattened r, t))
        create_named m.target_pod_name "CreatedTargetVMPod" pod
      | some target ↦ follow_target target
    ]

  -- The migration of a running machine.
  unfoldable pub migrate : Migration → M (Unit {0})
  unfolding begin_migration schedule_migration
  migrate m = elim m.phase [
    | MigrationPhase.none_yet ↦ begin_migration
    | MigrationPhase.pending ↦ begin_migration
    | MigrationPhase.scheduling ↦ schedule_migration m
    | _ ↦ return tt
  ]
