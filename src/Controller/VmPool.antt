-- ===== src/Controller/VmPool.antt =====
-- internal/controller/vmpool_controller.go: the reconciler of a VMPool, a set of like machines with
-- random names.
pub mod Trace
pub mod Panic
use ch_vmm.Controller.Program.{
  Answer, ◌>>=◌, ◌>>◌, return, fail, must, must_or_missing, must_or_exists, present,
}
use ch_vmm.Prelude.{
  ℕ, String, ◌&&◌, ◌+◌, ◌/◌, ◌-◌, ◌%◌, Bool, true, false, List, [], ◌∷◌, ◌++◌, Option, none, some,
  if◌then◌else◌, ltb, length, map, take, str_eq,
}
use ch_vmm.Prelude.Int64.{sub32, lt32}
use ch_vmm.Controller.Names.{Name, dash, codes, same_name}
use ch_vmm.Controller.Client.{
  Labels, VolumeRef, VmObject, DiskObject, Vm, OwnerRef, ListedDisk, Status, get_set, get_vm,
  delete_vm, get_disk, delete_disk, create_vm, create_disk, list_vms, list_disks, add_finalizer,
  remove_finalizer, update_status, M, Server, call,
}
use ch_vmm.Controller.Shrink.{Requeue, shrink}
use ch_vmm.Controller.VmSet.{DiskTemplate, set_label, rename, desired_of}

-- What the reconciler reads of a VMPool, as of a VMSet.
pub record VmPool : Type 0 where
  pub name : Name
  pub label : Name
  pub deleting : Bool
  pub guarded : Bool
  pub replicas : Option ℕ
  pub selector_valid : Bool
  pub disk_templates : List DiskTemplate
  pub template_labels : Labels
  pub template_volumes : List VolumeRef

-- `fmt.Sprintf("%s-%s-disk", vmName, diskTemplate.MetaData.Name)`
pub disk_name : Name → Name → Name
disk_name vm template = vm ++ dash ∷ template ++ dash ∷ codes "disk"

pub labels_for_vm : VmPool → Name → Labels
labels_for_vm pool vm = set_label (codes "microbox-api/vmpool-id") pool.label (
    set_label (codes "vmpool.chvmm.io/vm-name") vm
      (set_label (codes "vmpool.chvmm.io/name") pool.name pool.template_labels))

pub inject : Name → List DiskTemplate → List VolumeRef → List VolumeRef
inject vm [] volumes = volumes
inject vm (d ∷ ds) volumes = inject vm ds (map (rename d.name (disk_name vm d.name)) volumes)

-- The nil slice of names is the one of a pool without disk templates.
pub construct_vm : VmPool → Name → List Name → VmObject
unfolding labels_for_vm inject
construct_vm pool vm disks = record {
  name = vm;
  labels = labels_for_vm pool vm;
  volumes = elim disks [
    | [] ↦ pool.template_volumes
    | d ∷ ds ↦ inject vm pool.disk_templates pool.template_volumes
  ];
  owner = pool.name;
}

pub new_disk : VmPool → DiskTemplate → Name → DiskObject
unfolding labels_for_vm disk_name
new_disk pool d vm = record {
  name = disk_name vm d.name;
  labels = labels_for_vm pool vm;
  annotations = d.annotations;
  owner = pool.name;
}

-- Two hexadecimal digits of a byte.
hex_digit : ℕ → ℕ
hex_digit n = if ltb n 10 then b'0' + n else b'a' + n - 10

hex : List ℕ → Name
unfolding hex_digit
hex [] = []
hex (b ∷ bs) = hex_digit (b / 16) ∷ hex_digit (b % 16) ∷ hex bs

-- `generateRandomVMName`, of the six bytes that `rand.Read` gives.
pub random_name : Name → List ℕ → Name
unfolding hex
random_name pool bytes = pool ++ dash ∷ take 8 (hex bytes)

-- Whether a disk's controller is the pool.
pub is_owned : VmPool → String → Option OwnerRef → Bool
is_owned pool version none = false
is_owned pool version (some o) =
    str_eq o.api_version version && str_eq o.kind "VMPool" && same_name o.name pool.name

pub is_pool_vm_ready : Vm → Bool
is_pool_vm_ready v = str_eq v.phase "Running"

pub count_pool_ready : List Vm → ℕ
unfolding is_pool_vm_ready
count_pool_ready [] = 0
count_pool_ready (v ∷ vs) = (if is_pool_vm_ready v then 1 else 0) + count_pool_ready vs

module _ (server : Server) where
  -- `createVirtualDisksForVM`, with the names that it returns.
  pub create_disks : VmPool → Name → List DiskTemplate → M (List Name)
  unfolding new_disk disk_name
  create_disks pool vm [] = return []
  create_disks pool vm (d ∷ ds) =
      let rest : M (List Name) = (do
        names ← create_disks pool vm ds
        return (disk_name vm d.name ∷ names)) in
      do
        found ← call server (get_disk (disk_name vm d.name))
        exists ← present found
        if exists then rest else do
          must (server.owned (disk_name vm d.name))
          created ← call server (create_disk (new_disk pool d vm))
          must_or_exists created
          rest

  -- `deleteVirtualDisksForVM`
  pub delete_disks : Name → List DiskTemplate → M (Unit {0})
  unfolding disk_name
  delete_disks vm [] = return tt
  delete_disks vm (d ∷ ds) =
      let rest = delete_disks vm ds in
      do deleted ← call server (delete_disk (disk_name vm d.name)); must_or_missing deleted; rest

  -- The second half of `scaleUp`: the disks, then the machine.
  pub create_one : VmPool → Name → M Requeue
  unfolding create_disks construct_vm
  create_one pool vm = do
    disks ← create_disks pool vm pool.disk_templates
    must (server.owned vm)
    created ← call server (create_vm (construct_vm pool vm disks))
    must_or_exists created
    return 5

  pub scale_up : VmPool → List ℕ → List Vm → ℕ → M Requeue
  unfolding random_name sub32 lt32
  scale_up pool bytes current desired =
      if lt32 0 (sub32 desired (length current))
      then (do
        found ← call server (get_vm (random_name pool.name bytes))
        exists ← present found
        if exists then return 5 else create_one pool (random_name pool.name bytes))
      else return 0

  -- One round of `scaleDown`: the disks of a machine, which have finalizers, and then the machine.
  pub remove_vm : VmPool → Vm → M (Unit {0})
  unfolding delete_disks
  remove_vm pool v = do
    delete_disks v.name pool.disk_templates
    deleted ← call server (delete_vm v.name)
    must_or_missing deleted
    return tt

  pub scale_down : VmPool → List Vm → ℕ → M Requeue
  unfolding remove_vm
  scale_down pool current desired = shrink (remove_vm pool) current desired

  pub write_status : VmPool → List Vm → M Requeue
  unfolding count_pool_ready
  write_status pool current =
      let ready = count_pool_ready current in
      do
        updated ← call server (
            update_status (record {
              replicas = length current;
              ready_replicas = ready;
              available_replicas = ready;
            }))
        must updated
        return 0

  -- `getCurrentVMs`
  pub current_vms : VmPool → M (List Vm)
  current_vms pool t =
      if pool.selector_valid
      then (do answered ← call server list_vms; must answered; return (server.listed_vms t)) t
      else fail Answer.failed t

  -- `reconcileVMPool` behind the listing.
  pub scale : VmPool → List ℕ → List Vm → M Requeue
  scale pool bytes current =
      let desired : ℕ = desired_of pool.replicas in
      if lt32 (length current) desired
      then scale_up pool bytes current desired
      else if lt32 desired (length current)
      then scale_down pool current desired
      else write_status pool current

  pub reconcile_pool : VmPool → List ℕ → M Requeue
  reconcile_pool pool bytes = do current ← current_vms pool; scale pool bytes current

  pub delete_vms : List Vm → M (Unit {0})
  delete_vms [] = return tt
  delete_vms (v ∷ vs) =
      let rest = delete_vms vs in
      do deleted ← call server (delete_vm v.name); must_or_missing deleted; rest

  pub delete_owned : VmPool → String → List ListedDisk → M (Unit {0})
  unfolding is_owned
  delete_owned pool version [] = return tt
  delete_owned pool version (d ∷ ds) =
      let rest = delete_owned pool version ds in
      if is_owned pool version d.controller
      then (do deleted ← call server (delete_disk d.name); must_or_missing deleted; rest)
      else rest

  -- `deleteAllVirtualDisks`
  pub delete_all_disks : VmPool → String → M (Unit {0})
  unfolding delete_owned
  delete_all_disks pool version t =
      (do
        answered ← call server list_disks
        must answered
        delete_owned pool version (server.listed_disks t))
        t

  pub handle_deletion : VmPool → String → M Requeue
  unfolding delete_vms
  handle_deletion pool version = do
    current ← current_vms pool
    delete_vms current
    delete_all_disks pool version
    updated ← call server remove_finalizer
    must updated
    return 0

  -- The rest of `Reconcile` behind the answer to `Get`.
  pub dispatch : String → List ℕ → Answer → Option VmPool → M Requeue
  dispatch version bytes Answer.done (some pool) =
      if pool.deleting
      then handle_deletion pool version
      else if pool.guarded
      then reconcile_pool pool bytes
      else (do updated ← call server add_finalizer; must updated; return 0)
  dispatch version bytes Answer.done none = return 0
  dispatch version bytes Answer.not_found found = return 0
  dispatch version bytes Answer.already_exists found = fail Answer.already_exists
  dispatch version bytes Answer.conflict found = fail Answer.conflict
  dispatch version bytes Answer.failed found = fail Answer.failed

  -- `Reconcile`; `version` is `v1beta1.GroupVersion.String()`, of the API's module, and `bytes` are
  -- the random bytes of this call.
  pub reconcile : String → List ℕ → Option VmPool → M Requeue
  reconcile version bytes found = do
    answered ← call server get_set
    dispatch version bytes answered found
