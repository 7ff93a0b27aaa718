-- ===== src/Tests/Vms.antt =====
-- The reconciler of a machine on concrete input.
use ch_vmm.Prelude.{
  ◌*◌, ◌%◌, ◌^◌, ◌≡◌, ◌↔◌, ◌≢◌, refl, true, false, List, [], ◌∷◌, none, some, arith, eq_iff,
}
use ch_vmm.Api.{VirtualMachineSpec, CloudInitVolumeSource}
use ch_vmm.Controller.Program.{settled, done, ok}
use ch_vmm.Controller.Machine.{
  ConditionSets, Phase, MigrationPhase, PodPhase, RunPolicy, PodCondition, Pod, Vm, VmStatus, World,
  Server, list_vm_pods, remove_finalizer,
}
use ch_vmm.Controller.Machine.Conditions.{migratable_condition}
use ch_vmm.Controller.Machine.Resize.{desired_memory, needs_resize, desired_resources}
use ch_vmm.Controller.Machine.Template.{new_pod, user_mount, network_mount}
use ch_vmm.Controller.Machine.Reconcile.{reconcile_deleted, gc_pods, reconcile}
use ch_vmm.Controller.Machine.Graph.{Step, phase_in}
use ch_vmm.Controller.Machine.Whole.{reconcile-Step}
use ch_vmm.Controller.Machine.Migratable.{IsMigratable, migratable_condition_iff}
use ch_vmm.Controller.Machine.Settles.{CountLaws, desired-settles_iff}
use ch_vmm.Controller.Machine.Secrets.{init_mounts, in_secret, add_cloud_init-mounts}
use ch_vmm.Controller.Machine.Collect.{Spares, gc_pods-Spares, removed_while_terminating}
use ch_vmm.Tests.Machines
use ch_vmm.Tests.Machines.{numbers}

abbrev sets : ConditionSets
sets = record { Conditions = List PodCondition; find = λ cs kind. none; put = λ cs c. c ∷ cs }

abbrev spec : VirtualMachineSpec numbers
spec = record Machines.vm.spec {
  instance_spec = record Machines.vm.spec.instance_spec {
    cpu = record { sockets = 1; cores_per_socket = 2; dedicated_cpu_placement = false };
  };
}

abbrev vm : Vm numbers
vm = record {
  name = "web";
  uid = "u1";
  namespace = "default";
  deleting = true;
  guarded = true;
  labels = none;
  annotations = none;
  node_selector = none;
  spec = spec;
}

-- A pod of the machine that is terminating.
abbrev pod : Pod numbers
pod = record {
  name = "vm-web-1";
  uid = "p1";
  node_name = "node";
  phase = PodPhase.running;
  deleting = true;
  controlled = true;
  controller = some "u1";
  age = 0;
  volumes = [];
  conditions = [];
  resize = "";
  containers = [];
  container_statuses = [];
}

abbrev server : Server numbers sets
server = record {
  answer = λ t r. done;
  owned = done;
  pod = λ t n. pod;
  vm_pods = λ t. pod ∷ [];
  pods = λ t. [];
  claim_of = λ t n. record { block = false };
  populated = λ t n. true;
  nad = λ t n. record { resource_name = ""; config = none };
  generate_name = λ t n. n;
}

abbrev world : World numbers
world = record {
  is_hotpluggable = λ v. false;
  pvc_name = λ v. v.name;
  policy_of = λ s. RunPolicy.always;
  ready_type = "Ready";
  migratable_type = "Migratable";
  decimal = λ n. "0";
  base64 = λ s. s;
  rootfs_size = λ v. "0";
  networks_json = λ ns. none;
  vm_json = λ v. some "{}";
  prerunner_image = "prerunner";
}

abbrev status : Phase → VmStatus numbers sets
status p = record {
  phase = p;
  power_on = false;
  pod_name = "vm-web-1";
  pod_uid = "";
  node_name = "";
  volumes = [];
  migration = none;
  conditions = [];
}

reconcile-Step_example :
    Step Phase.running (phase_in (reconcile server world vm (status Phase.running, [])).1)
reconcile-Step_example = reconcile-Step server world vm (status Phase.running, [])

migratable_condition_iff_example :
    ((migratable_condition world spec).status ≡ "True") ↔ IsMigratable spec
migratable_condition_iff_example = migratable_condition_iff spec world

laws : CountLaws numbers
laws = record { same-refl = λ a. ground arith; is_zero-new_quantity_iff = λ n. ground arith }

desired-settles_iff_example :
    (needs_resize spec (desired_resources spec spec.resources) ≡ false) ↔ (1 * 2 % 2 ^ 32 ≢ 0)
unfolding desired_memory
desired-settles_iff_example = desired-settles_iff numbers laws spec spec.resources refl

-- The machine is being sent to another pod, and there is a third one.
abbrev sending : VmStatus numbers sets
sending = record (status Phase.running) {
  migration = some (record {
    phase = MigrationPhase.scheduled;
    target_pod_name = "vm-web-2";
    target_pod_uid = "p2";
    target_node_name = "node";
    target_volume_pod_uid = "";
  });
}

abbrev crowded : Server numbers sets
crowded = record server {
  vm_pods = λ t.
      record pod { deleting = false }
      ∷ record pod { name = "vm-web-2"; deleting = false }
      ∷ record pod { name = "vm-web-3"; deleting = false }
      ∷ [];
}

gc_pods-Spares_example : Spares sending (gc_pods crowded world vm (sending, [])).1.1
unfolding Spares
gc_pods-Spares_example = gc_pods-Spares crowded world vm (sending, []) tt

-- The network data stand in a secret.
abbrev cloud_init : CloudInitVolumeSource
cloud_init = record {
  user_data = "";
  user_data_base64 = "";
  user_data_secret_name = "user";
  network_data = "";
  network_data_base64 = "";
  network_data_secret_name = "network";
}

add_cloud_init-mounts_example :
    (init_mounts world vm "seed" cloud_init (new_pod vm) user_mount.name
      ≡ some (in_secret "" "" "user"))
    × (init_mounts world vm "seed" cloud_init (new_pod vm) network_mount.name ≡ some false)
add_cloud_init-mounts_example =
    add_cloud_init-mounts world vm "seed" cloud_init (new_pod vm)
      (λ e. cc ((eq_iff "seed" user_mount.name).1 e))
      (λ e. cc ((eq_iff "seed" network_mount.name).1 e))

removed_while_terminating_example :
    reconcile_deleted server world vm (status Phase.failed, [])
    ≡ (ok settled, (status Phase.failed, remove_finalizer ∷ list_vm_pods ∷ []))
removed_while_terminating_example =
    removed_while_terminating server world vm (status Phase.failed, []) refl (refl, tt) refl
