-- ===== src/Tests/Sets.antt =====
-- The controllers on concrete input.
use ch_vmm.Controller.Program.{Answer, done, not_found, ok, NoPanic}
use ch_vmm.Prelude.{ℕ, ◌≡◌, refl, inl, true, false, List, [], ◌∷◌, some, arith, drop}
use ch_vmm.Controller.Names.{Name, codes, get_ordinal, ordinal_name}
use ch_vmm.Controller.Names.RoundTrip.{get_ordinal-ordinal_name}
use ch_vmm.Controller.Client.{Vm, Request, get_vm, get_disk, Server}
use ch_vmm.Controller.Shrink.Laws.{removed_all}
use ch_vmm.Controller.VmSet.{VmSet, delete_on_scale, scale_down, reconcile}
use ch_vmm.Controller.VmSet.Safe.{Deletes, vm_removed, scale_down-trace}
use ch_vmm.Controller.VmSet.Panic.{reconcile-NoPanic}
use ch_vmm.Controller.VmSet.Creates.{Creates}
use ch_vmm.Controller.VmSet.Created.{reconcile-Creates}

get_ordinal-ordinal_name_example : get_ordinal (ordinal_name (codes "web-1") 42) ≡ 42
get_ordinal-ordinal_name_example = get_ordinal-ordinal_name (codes "web-1") 42 (omega arith)

abbrev pub vm : Name → Vm
vm n = record { name = n; phase = "Running" }

-- Machine 0 of three is lost.
abbrev pub vms : List Vm
vms = vm (ordinal_name (codes "web") 1) ∷ vm (ordinal_name (codes "web") 2) ∷ []

-- A server that does everything.
abbrev pub willing : Server
willing = record {
  answer = λ t r. done;
  owned = λ n. done;
  listed_vms = λ t. vms;
  listed_disks = λ t.
      record {
        name = codes "db-data-disk";
        controller = some (record { api_version = "v1"; kind = "VMPool"; name = codes "db" });
      }
      ∷ [];
}

pub willing-Deletes : Deletes willing
willing-Deletes = ((λ t n. inl refl), (λ t n. inl refl))

abbrev web : ℕ → VmSet
web replicas = record {
  name = codes "web";
  label = [];
  deleting = false;
  guarded = true;
  replicas = some replicas;
  selector_valid = true;
  disk_templates = record { name = codes "data"; annotations = [] } ∷ [];
  template_labels = [];
  template_volumes = [];
  retention = some (record { when_scaled = "Delete"; when_deleted = "Retain" });
}

scale_down-trace_example :
    scale_down willing (web 1) vms 1 []
    ≡ (ok 5, removed_all (vm_removed (web 1) (delete_on_scale (web 1))) (drop 1 vms) [])
scale_down-trace_example =
    scale_down-trace willing willing-Deletes (web 1) vms 1 [] (omega arith) (omega arith)

reconcile-NoPanic_example : NoPanic (reconcile willing (some (web 1)))
reconcile-NoPanic_example = reconcile-NoPanic willing (web 1) (λ t. omega arith) (omega arith)

-- A server that finds no machine and no disk by its name.
abbrev answer_to : Request → Answer
answer_to (get_vm n) = not_found
answer_to (get_disk n) = not_found
answer_to r = done

abbrev empty : Server
empty = record willing { answer = λ t r. answer_to r }

reconcile-Creates_example : Creates empty (web 3) (reconcile empty (some (web 3)) []).1
unfolding Creates
reconcile-Creates_example = reconcile-Creates empty (web 3) [] tt
