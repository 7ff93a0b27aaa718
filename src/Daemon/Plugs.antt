-- ===== src/Daemon/Plugs.antt =====
-- pkg/daemon/vm_controller.go: the disks that are plugged into a running machine, and out of it.
use ch_vmm.Prelude.{
  String, ◌<>◌, Bool, true, false, not, ◌&&◌, ◌||◌, List, [], ◌∷◌, Option, none, some,
  if◌then◌else◌, str_eq,
}
use ch_vmm.Api.{Volume}
use ch_vmm.Webhook.Field.{is_set}
use ch_vmm.Controller.Program.{Program, ◌>>=◌, ◌>>◌, return, must}
use ch_vmm.Controller.Machine.{VolumePhase, mounted_to_pod, ready, VolumeStatus}
use ch_vmm.Daemon.{
  Vm, VmInfo, add_disk, remove_device, vmm, Server, Node, State, get_status, modify, record_event,
  call, socket,
}
use ch_vmm.Daemon.Mounts.{is_block, mount_volumes}
use ch_vmm.Daemon.Umounts.{umount_volumes}

pub has_name : String → List String → Bool
has_name x [] = false
has_name x (y ∷ ys) = str_eq y x || has_name x ys

pub names_of : List Volume → List String
names_of [] = []
names_of (v ∷ vs) = v.name ∷ names_of vs

-- The last status of that name, and a change of it.
pub last_status : String → List VolumeStatus → Option VolumeStatus
last_status name [] = none
last_status name (s ∷ ss) = elim (last_status name ss) [
  | some last ↦ some last
  | none ↦ if str_eq s.name name then some s else none
]

pub update_last : String → VolumePhase → List VolumeStatus → List VolumeStatus
unfolding last_status
update_last name p [] = []
update_last name p (s ∷ ss) =
    if str_eq s.name name && not (is_set (last_status name ss))
    then record s { phase = p } ∷ ss
    else s ∷ update_last name p ss

abbrev pub is_mounted : VolumePhase → Bool
is_mounted mounted_to_pod = true
is_mounted p = false

module _ (server : Server) (node : Node) (vm : Vm) where
  abbrev M : Type 0 → Type 0
  M A = Program State A

  unfoldable pub disk_path : Bool → String → String
  disk_path true name = "/hotplug-volumes/" <> name
  disk_path false name = "/hotplug-volumes/" <> name <> ".img"

  unfoldable pub plug : Volume → M (Unit {0})
  unfolding disk_path
  plug v = do
    block ← is_block server node vm v
    status ← get_status
    added ← call server (vmm (socket status) (add_disk v.name (disk_path block v.name)))
    must added
    record_event "AddDiskToVM"

  unfoldable pub mark_ready : String → M (Unit {0})
  unfolding update_last
  mark_ready name = modify (λ s. record s { volumes = update_last name ready s.volumes })

  unfoldable pub add_known : Volume → VolumeStatus → VmInfo → M (Unit {0})
  unfolding plug mark_ready has_name
  add_known v s info =
      if is_mounted s.phase
      then (if has_name s.name info.disks
          then mark_ready v.name
          else (do plug v; mark_ready v.name))
      else return tt

  -- `addHotplugVolumesToVM`
  unfoldable pub add_volumes : List Volume → VmInfo → M (Unit {0})
  unfolding add_known last_status
  add_volumes [] info = return tt
  add_volumes (v ∷ vs) info =
      if node.is_hotpluggable v
      then (do
        status ← get_status
        elim (last_status v.name status.volumes) [ none ↦ return tt | some s ↦ add_known v s info ]
        add_volumes vs info)
      else add_volumes vs info

  -- The loop of `removeHotplugVolumesFromVM`.
  unfoldable pub remove_disks : List String → M (Unit {0})
  unfolding has_name names_of
  remove_disks [] = return tt
  remove_disks (d ∷ ds) = if has_name d (names_of vm.volumes) then remove_disks ds else (do
    status ← get_status
    removed ← call server (vmm (socket status) (remove_device d))
    must removed
    record_event "RemoveDiskFromVM"
    remove_disks ds)

  -- `reconcileHotplugVolumes`
  unfoldable pub reconcile_volumes : VmInfo → M (Unit {0})
  unfolding add_volumes remove_disks
  reconcile_volumes info = do
    mount_volumes server node vm "" ""
    add_volumes vm.volumes info
    remove_disks info.disks
    umount_volumes server node vm
