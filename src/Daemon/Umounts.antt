-- ===== src/Daemon/Umounts.antt =====
-- pkg/daemon/vm_controller.go: the volumes that are taken out of a machine's pod.
use ch_vmm.Prelude.{ℕ, Bool, true, false, List, [], ◌∷◌, Option, none, some, if◌then◌else◌}
use ch_vmm.Webhook.Field.{is_set}
use ch_vmm.Controller.Program.{Answer, done, Program, ◌>>=◌, ◌>>◌, return, must}
use ch_vmm.Daemon.{
  Vm, VolumeRecord, stat, stat_kind, remove_all, umount, Server, Node, State, get_status,
  record_event, call,
}
use ch_vmm.Daemon.Records.{get_records, write_records, remove_records}
use ch_vmm.Daemon.Cgroup.{numbers_of, new_manager, set_devices}
use ch_vmm.Daemon.Mounts.{exists_if, mounted_at, status_of, device_rule}

module _ (server : Server) (node : Node) (vm : Vm) where
  abbrev M : Type 0 → Type 0
  M A = Program State A

  unfoldable pub deny_device : Option ℕ → ℕ × ℕ → M (Unit {0})
  deny_device none numbers = return tt
  deny_device (some pid) numbers =
      set_devices server node vm pid (device_rule numbers.0 numbers.1 false ∷ [])

  unfoldable pub umount_block : Bool → VolumeRecord → M (Unit {0})
  unfolding deny_device
  umount_block false r = return tt
  umount_block true r = do
    numbers ← numbers_of server node vm 16 r.target
    manager ← new_manager server node vm
    deny_device manager numbers
    removed ← call server (remove_all r.target)
    must removed
    record_event "UmountVolumeFromPod"

  unfoldable pub umount_image : VolumeRecord → M (Unit {0})
  umount_image r = do
    mounted ← mounted_at server node vm r.target
    if mounted then (do answered ← call server (umount r.target); must answered) else return tt
    record_event "UmountVolumeFromPod"

  -- `umountHotplugVolume`; `isBlockFile` is false where it cannot ask.
  unfoldable pub umount_kind : Answer → VolumeRecord → M (Unit {0})
  unfolding umount_block umount_image exists_if
  umount_kind done r = do
    answered ← call server (stat r.target)
    exists ← exists_if server node vm answered
    umount_block exists r
  umount_kind e r = umount_image r

  unfoldable pub umount_volume : VolumeRecord → M (Unit {0})
  unfolding umount_kind
  umount_volume r = do answered ← call server (stat_kind r.target); umount_kind answered r

  -- The loop of `umountHotplugVolumes`: the records of volumes that still have a status are kept.
  unfoldable pub umount_gone : List VolumeRecord → M (List VolumeRecord)
  unfolding umount_volume status_of
  umount_gone [] = return []
  umount_gone (r ∷ rs) = do
    status ← get_status
    if is_set (status_of r.volume status.volumes)
        then (do rest ← umount_gone rs; return (r ∷ rest))
        else (do umount_volume r; umount_gone rs)

  unfoldable pub keep_records : List VolumeRecord → M (Unit {0})
  keep_records [] = remove_records server vm
  keep_records (r ∷ rs) = write_records server vm (r ∷ rs)

  unfoldable pub umount_volumes : M (Unit {0})
  unfolding umount_gone keep_records
  umount_volumes = do records ← get_records server vm; kept ← umount_gone records; keep_records kept

  unfoldable pub umount_each : List VolumeRecord → M (Unit {0})
  unfolding umount_volume
  umount_each [] = return tt
  umount_each (r ∷ rs) = do umount_volume r; record_event "UmountVolumeFromPod"; umount_each rs

  -- `umountAllHotplugVolumes`, which is `cleanup`.
  unfoldable pub cleanup : M (Unit {0})
  unfolding umount_each
  cleanup = do records ← get_records server vm; umount_each records; remove_records server vm
