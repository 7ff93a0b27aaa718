-- ===== src/Controller/Machine/Conditions.antt =====
-- internal/controller/virtualmachine_controller.go: the conditions of a machine.
use ch_vmm.Prelude.{String, ◌&&◌, List, [], ◌∷◌, Option, none, some, if◌then◌else◌, str_eq}
use ch_vmm.Api.{Volume, Interface, Network, FileSystem, VirtualMachineSpec}
use ch_vmm.Api.Quantity.{Quantities}
use ch_vmm.Webhook.Field.{is_blank, is_set}
use ch_vmm.Controller.Machine.{ConditionSets, PodCondition, World}

-- Why a machine cannot be migrated: a reason and a message.
abbrev pub Obstacle : Type 0
Obstacle = Option (String × String)

-- The first of two obstacles.
unfoldable pub first_of : Obstacle → Obstacle → Obstacle
first_of none rest = rest
first_of (some o) rest = some o

unfoldable pub interface_obstacle : Network → Interface → Obstacle
interface_obstacle n i =
    if is_set n.source.pod && is_set i.binding.bridge
    then some (
      "InterfaceNotMigratable",
      "migration is disabled when VM has a bridged interface to the pod network",
    )
    else if is_set i.binding.sriov
    then some ("InterfaceNotMigratable", "migration is disabled when VM has a SR-IOV interface")
    else if is_set i.binding.vhost_user
    then some ("InterfaceNotMigratable", "migration is disable when VM has a vhost-user interface")
    else none

-- The interfaces of one network.
unfoldable pub network_obstacle : Network → List Interface → Obstacle
unfolding first_of interface_obstacle
network_obstacle n [] = none
network_obstacle n (i ∷ is) =
    if str_eq i.name n.name
    then first_of (interface_obstacle n i) (network_obstacle n is)
    else network_obstacle n is

unfoldable pub networks_obstacle : List Interface → List Network → Obstacle
unfolding network_obstacle
networks_obstacle is [] = none
networks_obstacle is (n ∷ ns) = first_of (network_obstacle n is) (networks_obstacle is ns)

unfoldable pub volumes_obstacle : List Volume → Obstacle
volumes_obstacle [] = none
volumes_obstacle (v ∷ vs) =
    if is_set v.source.container_rootfs
    then some ("VolumeNotMigratable", "migration is disabled when VM has a containerRootfs volume")
    else if is_set v.source.container_disk
    then some ("VolumeNotMigratable", "migration is disabled when VM has a containerDisk volume")
    else volumes_obstacle vs

unfoldable pub files_obstacle : List FileSystem → Obstacle
files_obstacle [] = none
files_obstacle (f ∷ fs) =
    some ("FileSystemNotMigratable", "migration is disabled when VM has a fileSystem")

module _ {q : Quantities} where
  -- The checks of `calculateMigratableCondition` in their order.
  unfoldable pub migration_obstacle : VirtualMachineSpec q → Obstacle
  unfolding first_of networks_obstacle volumes_obstacle files_obstacle
  migration_obstacle s =
      if s.instance_spec.cpu.dedicated_cpu_placement
      then some
          ("CPUNotMigratable", "migration is disabled when VM has enabled dedicated CPU placement")
      else first_of (networks_obstacle s.instance_spec.interfaces s.networks)
          (first_of (volumes_obstacle s.volumes) (files_obstacle s.instance_spec.file_systems))

  unfoldable pub migratable_condition : World q → VirtualMachineSpec q → PodCondition
  unfolding migration_obstacle
  migratable_condition w s = elim (migration_obstacle s) [
    | some (reason, message) ↦ record {
      kind = w.migratable_type;
      status = "False";
      reason = reason;
      message = message;
    }
    | none ↦ record {
      kind = w.migratable_type;
      status = "True";
      reason = "Migratable";
      message = "";
    }
  ]

  -- The pod's condition `Ready`, as that of the machine.
  pub ready_condition : World q → PodCondition → PodCondition
  ready_condition w c = record {
    kind = w.ready_type;
    status = c.status;
    reason = if is_blank c.reason then c.status else c.reason;
    message = c.message;
  }

module _ {q : Quantities} (sets : ConditionSets) (w : World q) where
  pub put_ready : List PodCondition → sets.Conditions → sets.Conditions
  unfolding ready_condition
  put_ready [] known = known
  put_ready (c ∷ cs) known =
      if str_eq c.kind "Ready"
      then put_ready cs (sets.put known (ready_condition w c))
      else put_ready cs known

  -- `reconcileVMConditions`: whether a machine can be migrated is calculated once.
  pub reconcile_conditions :
      VirtualMachineSpec q → List PodCondition → sets.Conditions → sets.Conditions
  unfolding put_ready migratable_condition
  reconcile_conditions s of_pod known =
      let updated = put_ready of_pod known in
      elim (sets.find updated w.migratable_type) [
        | none ↦ sets.put updated (migratable_condition w s)
        | some c ↦ updated
      ]
