-- ===== src/Tests/Pools.antt =====
-- The reconciler of a VMPool on concrete input.
use ch_vmm.Controller.Program.{ok}
use ch_vmm.Prelude.{ℕ, ◌≡◌, refl, true, false, [], ◌∷◌, some}
use ch_vmm.Controller.Names.{codes}
use ch_vmm.Controller.Client.{list_vms, list_disks, remove_finalizer}
use ch_vmm.Controller.VmPool.{VmPool, handle_deletion}
use ch_vmm.Controller.VmPool.Trace.{vms_deleted, owned_deleted, handle_deletion-trace}
use ch_vmm.Tests.Sets.{vms, willing, willing-Deletes}

abbrev pool : ℕ → VmPool
pool replicas = record {
  name = codes "db";
  label = [];
  deleting = false;
  guarded = true;
  replicas = some replicas;
  selector_valid = true;
  disk_templates = record { name = codes "data"; annotations = [] } ∷ [];
  template_labels = [];
  template_volumes = [];
}

handle_deletion-trace_example : handle_deletion willing (pool 1) "v1" [] ≡ (
  ok 0,
  remove_finalizer
      ∷ owned_deleted
          (pool 1)
          "v1"
          (willing.listed_disks [])
          (list_disks ∷ vms_deleted vms (list_vms ∷ [])),
)
handle_deletion-trace_example =
    handle_deletion-trace willing willing-Deletes (pool 1) "v1" [] refl (λ t. refl) (λ t. refl)
      (λ t. refl)
