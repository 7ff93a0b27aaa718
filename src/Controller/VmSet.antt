-- ===== src/Controller/VmSet.antt =====
-- internal/controller/vmset_controller.go: the reconciler of a VMSet, a set of numbered machines.
pub mod Safe
pub mod Panic
pub mod Creates
pub mod Created
use ch_vmm.Controller.Program.{
  Answer, not_found, ◌>>=◌, ◌>>◌, return, fail, item_at, must, must_or_missing, must_or_exists,
  present,
}
use ch_vmm.Prelude.{
  ℕ, zero, suc, ◌+◌, ◌-◌, ◌%◌, ◌^◌, String, Bool, true, false, not, List, [], ◌∷◌, ◌++◌, Option,
  none, some, if◌then◌else◌, ltb, ◌==◌, str_eq, length, map,
}
use ch_vmm.Prelude.Int64.{sub32, lt32}
use ch_vmm.Controller.Names.{Name, dash, codes, same_name, format32, get_ordinal, ordinal_name}
use ch_vmm.Controller.Shrink.{Requeue, shrink}
use ch_vmm.Controller.Client.{
  Labels, VolumeRef, VmObject, DiskObject, Vm, Status, Request, get_set, get_vm, delete_vm,
  get_disk, delete_disk, create_vm, create_disk, list_vms, add_finalizer, remove_finalizer,
  update_status, M, Server, call,
}

pub record DiskTemplate : Type 0 where
  pub name : Name
  pub annotations : Labels

-- `VolumeClaimRetentionPolicy`
pub record Retention : Type 0 where
  pub when_scaled : String
  pub when_deleted : String

-- What the reconciler reads of a VMSet. `guarded` is whether it has the finalizer,
-- `selector_valid` whether `LabelSelectorAsSelector` takes its selector, and `label` is its own
-- label `VMSET_LABEL`, or the empty name. `replicas` is an `int32`.
pub record VmSet : Type 0 where
  pub name : Name
  pub label : Name
  pub deleting : Bool
  pub guarded : Bool
  pub replicas : Option ℕ
  pub selector_valid : Bool
  pub disk_templates : List DiskTemplate
  pub template_labels : Labels
  pub template_volumes : List VolumeRef
  pub retention : Option Retention

-- `labels[key] = value`
pub set_label : Name → Name → Labels → Labels
set_label key value [] = (key, value) ∷ []
set_label key value ((k, v) ∷ labels) =
    if same_name k key then (k, value) ∷ labels else (k, v) ∷ set_label key value labels

-- `fmt.Sprintf("%s-%s-%d", vmSet.Name, diskTemplate.MetaData.Name, ordinal)`
pub disk_name : Name → Name → ℕ → Name
disk_name set template ordinal = set ++ dash ∷ template ++ dash ∷ format32 ordinal

pub labels_for_ordinal : VmSet → ℕ → Labels
unfolding set_label
labels_for_ordinal set ordinal = set_label (codes "microbox-api/vmset-id") set.label (
    set_label (codes "cloudhypervisor.quill.today/vmset-ordinal") (format32 ordinal)
      (set_label (codes "cloudhypervisor.quill.today/vmset-name") set.name set.template_labels))

-- `injectVirtualDiskReferences`: for each template in turn, what names the template names its disk.
pub rename : Name → Name → VolumeRef → VolumeRef
rename from to v = elim v.virtual_disk [
  | none ↦ v
  | some d ↦ if same_name d from then record v { virtual_disk = some to } else v
]

pub inject : Name → ℕ → List DiskTemplate → List VolumeRef → List VolumeRef
unfolding rename
inject set ordinal [] volumes = volumes
inject set ordinal (d ∷ ds) volumes =
    inject set ordinal ds (map (rename d.name (disk_name set d.name ordinal)) volumes)

pub construct_vm : VmSet → ℕ → VmObject
unfolding labels_for_ordinal inject
construct_vm set ordinal = record {
  name = ordinal_name set.name ordinal;
  labels = labels_for_ordinal set ordinal;
  volumes = inject set.name ordinal set.disk_templates set.template_volumes;
  owner = set.name;
}

pub new_disk : VmSet → DiskTemplate → ℕ → DiskObject
unfolding labels_for_ordinal disk_name
new_disk set d ordinal = record {
  name = disk_name set.name d.name ordinal;
  labels = labels_for_ordinal set ordinal;
  annotations = d.annotations;
  owner = set.name;
}

pub delete_on_scale : VmSet → Bool
delete_on_scale set = elim set.retention [ none ↦ false | some r ↦ str_eq r.when_scaled "Delete" ]

pub delete_on_delete : VmSet → Bool
delete_on_delete set = elim set.retention [ none ↦ false | some r ↦ str_eq r.when_deleted "Delete" ]

-- `sort.Slice` by the ordinal: insertion before the first machine with a higher one. (Go leaves the
-- order of equal ordinals open.)
pub insert_vm : Vm → List Vm → List Vm
insert_vm v [] = v ∷ []
insert_vm v (w ∷ ws) =
    if lt32 (get_ordinal v.name) (get_ordinal w.name) then v ∷ w ∷ ws else w ∷ insert_vm v ws

pub sort_vms : List Vm → List Vm
unfolding insert_vm
sort_vms [] = []
sort_vms (v ∷ vs) = insert_vm v (sort_vms vs)

-- How many machines run: ready and available are the same test.
pub is_vm_ready : Vm → Bool
is_vm_ready v = str_eq v.phase "Running"

pub count_ready : List Vm → ℕ
unfolding is_vm_ready
count_ready [] = 0
count_ready (v ∷ vs) = (if is_vm_ready v then 1 else 0) + count_ready vs

-- The number of replicas that the set asks for.
abbrev pub desired_of : Option ℕ → ℕ
desired_of none = 0
desired_of (some n) = n

module _ (server : Server) where
  pub create_disks : VmSet → ℕ → List DiskTemplate → M (Unit {0})
  unfolding new_disk disk_name
  create_disks set ordinal [] = return tt
  create_disks set ordinal (d ∷ ds) =
      let rest = create_disks set ordinal ds in
      let name = disk_name set.name d.name ordinal in
      do
        found ← call server (get_disk name)
        exists ← present found
        if exists then rest else do
          must (server.owned name)
          created ← call server (create_disk (new_disk set d ordinal))
          must_or_exists created
          rest

  pub delete_disks : VmSet → ℕ → List DiskTemplate → M (Unit {0})
  unfolding disk_name
  delete_disks set ordinal [] = return tt
  delete_disks set ordinal (d ∷ ds) =
      let rest = delete_disks set ordinal ds in
      do
        deleted ← call server (delete_disk (disk_name set.name d.name ordinal))
        must_or_missing deleted
        rest

  -- The second half of `scaleUp`: the disks of machine `next`, then the machine.
  pub create_one : VmSet → ℕ → M Requeue
  unfolding create_disks construct_vm
  create_one set next = do
    create_disks set next set.disk_templates
    must (server.owned (ordinal_name set.name next))
    created ← call server (create_vm (construct_vm set next))
    must_or_exists created
    return 5

  pub scale_up : VmSet → List Vm → M Requeue
  scale_up set current = do
    found ← call server (get_vm (ordinal_name set.name (length current)))
    exists ← present found
    if exists then return 5 else create_one set (length current)

  -- One machine and, if the policy says so, its disks.
  pub remove_vm : VmSet → Bool → Vm → M (Unit {0})
  unfolding delete_disks
  remove_vm set with_disks v = do
    deleted ← call server (delete_vm v.name)
    must_or_missing deleted
    if with_disks then delete_disks set (get_ordinal v.name) set.disk_templates else return tt

  pub scale_down : VmSet → List Vm → ℕ → M Requeue
  unfolding remove_vm delete_on_scale
  scale_down set current desired = shrink (remove_vm set (delete_on_scale set)) current desired

  pub write_status : VmSet → List Vm → M Requeue
  unfolding count_ready
  write_status set current =
      let ready = count_ready current in
      do
        updated ← call server (
            update_status (record {
              replicas = length current;
              ready_replicas = ready;
              available_replicas = ready;
            }))
        must updated
        return 0

  -- `getCurrentVMs`
  pub current_vms : VmSet → M (List Vm)
  current_vms set t =
      if set.selector_valid
      then (do answered ← call server list_vms; must answered; return (server.listed_vms t)) t
      else fail Answer.failed t

  -- `reconcileVMSet` behind the listing: the machines are sorted and counted.
  pub scale : VmSet → List Vm → M Requeue
  scale set listed =
      let current = sort_vms listed in
      let desired : ℕ = desired_of set.replicas in
      if lt32 (length current) desired
      then scale_up set current
      else if lt32 desired (length current)
      then scale_down set current desired
      else write_status set current

  pub reconcile_set : VmSet → M Requeue
  reconcile_set set = do listed ← current_vms set; scale set listed

  pub remove_all : VmSet → List Vm → M (Unit {0})
  unfolding remove_vm delete_on_delete
  remove_all set [] = return tt
  remove_all set (v ∷ vs) =
      let rest = remove_all set vs in do remove_vm set (delete_on_delete set) v; rest

  pub handle_deletion : VmSet → M Requeue
  handle_deletion set = do
    current ← current_vms set
    remove_all set current
    updated ← call server remove_finalizer
    must updated
    return 0

  -- The rest of `Reconcile` behind the answer to `Get`.
  pub dispatch : Answer → Option VmSet → M Requeue
  dispatch Answer.done (some set) =
      if set.deleting
      then handle_deletion set
      else if set.guarded
      then reconcile_set set
      else (do updated ← call server add_finalizer; must updated; return 0)
  dispatch Answer.done none = return 0
  dispatch Answer.not_found found = return 0
  dispatch Answer.already_exists found = fail Answer.already_exists
  dispatch Answer.conflict found = fail Answer.conflict
  dispatch Answer.failed found = fail Answer.failed

  -- `Reconcile`; `found` is the object that the server has, if it has one.
  pub reconcile : Option VmSet → M Requeue
  reconcile found = do answered ← call server get_set; dispatch answered found
