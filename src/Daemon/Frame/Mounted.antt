-- ===== src/Daemon/Frame/Mounted.antt =====
-- Mounts leave the phase, the place and the migration alone.
use ch_vmm.Prelude.{ℕ, String, Bool, true, false, List, [], ◌∷◌, Option, none, some}
use ch_vmm.Api.{Volume}
use ch_vmm.Controller.Program.{
  Answer, done, not_found, already_exists, conflict, return-Keeps, bind-Keeps, then-Keeps, if-Keeps,
  option-Keeps,
}
use ch_vmm.Controller.Machine.{VolumeStatus}
use ch_vmm.Daemon.{Vm, VolumeRecord, MountInfo, Server, Node}
use ch_vmm.Daemon.Mounts.{
  status_of, is_block, exists_if, mounted_if, mounted_at, allow_device, make_node, mount_block,
  found_mount, image_source, create_if, mount_image, mount_one, mark_mounted, mount_known,
  mount_next, mount_all, mount_volumes,
}
use ch_vmm.Daemon.Umounts.{
  deny_device, umount_block, umount_image, umount_kind, umount_volume, umount_gone, keep_records,
  umount_volumes, umount_each, cleanup,
}
use ch_vmm.Daemon.Frame.{Frames, frames, panic-Frames, event-Frames, get_status-Frames, call-Frames}
use ch_vmm.Daemon.Frame.Devices.{
  numbers_of-Frames, new_manager-Frames, set_devices-Frames, get_records-Frames,
  write_records-Frames, remove_records-Frames, add_record-Frames,
}

module _ (server : Server) (node : Node) (vm : Vm) where
  pub is_block-Frames : (v : Volume) → Frames (is_block server node vm v)
  unfolding is_block
  is_block-Frames v = search frames

  exists_if-Frames : (a : Answer) → Frames (exists_if server node vm a)
  unfolding exists_if
  exists_if-Frames done = search frames
  exists_if-Frames not_found = search frames
  exists_if-Frames already_exists = search frames
  exists_if-Frames conflict = search frames
  exists_if-Frames Answer.failed = search frames

  mounted_at-Frames : (p : String) → Frames (mounted_at server node vm p)
  unfolding mounted_at mounted_if
  mounted_at-Frames p =
      bind-Keeps (call-Frames server _) (λ a. bind-Keeps (exists_if-Frames a) mounted)
    where
      mounted : (b : Bool) → Frames (mounted_if server node vm b p)
      mounted true = search frames
      mounted false = search frames

  allow_device-Frames : (m : Option ℕ) (a b : ℕ) → Frames (allow_device server node vm m a b)
  unfolding allow_device
  allow_device-Frames none a b = panic-Frames
  allow_device-Frames (some pid) a b = set_devices-Frames server node vm pid _

  make_node-Frames : (b : Bool) (t : String) (n : ℕ × ℕ) → Frames (make_node server node vm b t n)
  unfolding make_node
  make_node-Frames true t n = search frames
  make_node-Frames false t n = search frames

  mount_block-Frames :
      (v p w : String) (rs : List VolumeRecord) → Frames (mount_block server node vm v p w rs)
  unfolding mount_block
  mount_block-Frames v p w rs =
      search
        (
          frames, exists_if-Frames, numbers_of-Frames, add_record-Frames, make_node-Frames,
          new_manager-Frames, allow_device-Frames,
        )
        depth 12

  found_mount-Frames : (m : Option MountInfo) → Frames (found_mount server node vm m)
  unfolding found_mount
  found_mount-Frames none = search frames
  found_mount-Frames (some m) = search frames

  image_source-Frames : (v w : String) → Frames (image_source server node vm v w)
  unfolding image_source
  image_source-Frames v w = search (frames, found_mount-Frames) depth 14

  create_if-Frames : (b : Bool) (t : String) → Frames (create_if server node vm b t)
  unfolding create_if
  create_if-Frames true t = search frames
  create_if-Frames false t = search frames

  mount_image-Frames :
      (v p w : String) (rs : List VolumeRecord) → Frames (mount_image server node vm v p w rs)
  unfolding mount_image
  mount_image-Frames v p w rs =
      search
        (
          frames, mounted_at-Frames, image_source-Frames, add_record-Frames, exists_if-Frames,
          create_if-Frames,
        )
        depth 14

  mount_one-Frames :
      (v : Volume) (p w : String) (rs : List VolumeRecord)
      → Frames (mount_one server node vm v p w rs)
  unfolding mount_one
  mount_one-Frames v p w rs =
      search (frames, is_block-Frames, mount_block-Frames, mount_image-Frames)

  mark_mounted-Frames : (s : VolumeStatus) → Frames (mark_mounted server node vm s)
  unfolding mark_mounted
  mark_mounted-Frames s = search frames

  mount_known-Frames :
      (v : Volume) (s : VolumeStatus) (h p w : String) (rs : List VolumeRecord)
      → Frames (mount_known server node vm v s h p w rs)
  unfolding mount_known
  mount_known-Frames v s h p w rs = search (frames, mount_one-Frames, mark_mounted-Frames) depth 8

  mount_next-Frames :
      (v : Volume) (p w : String) (rs : List VolumeRecord) (o : Option VolumeStatus)
      → Frames (mount_next server node vm v p w rs o)
  unfolding mount_next
  mount_next-Frames v p w rs none = search frames
  mount_next-Frames v p w rs (some s) =
      option-Keeps s.hotplug (return-Keeps _) (λ h. mount_known-Frames v s h.pod_uid p w rs)

  mount_all-Frames :
      (vs : List Volume) (p w : String) (rs : List VolumeRecord)
      → Frames (mount_all server node vm vs p w rs)
  unfolding mount_all
  mount_all-Frames [] p w rs = search frames
  mount_all-Frames (v ∷ vs) p w rs =
      if-Keeps _
        (bind-Keeps get_status-Frames (λ s.
          bind-Keeps (mount_next-Frames v p w rs (status_of v.name s.volumes))
            (λ next. mount_all-Frames vs p next.0 next.1)))
        (mount_all-Frames vs p w rs)

  pub mount_volumes-Frames : (p w : String) → Frames (mount_volumes server node vm p w)
  unfolding mount_volumes
  mount_volumes-Frames p w = search (frames, get_records-Frames, mount_all-Frames)

  deny_device-Frames : (m : Option ℕ) (n : ℕ × ℕ) → Frames (deny_device server node vm m n)
  unfolding deny_device
  deny_device-Frames none n = search frames
  deny_device-Frames (some pid) n = set_devices-Frames server node vm pid _

  umount_block-Frames : (b : Bool) (r : VolumeRecord) → Frames (umount_block server node vm b r)
  unfolding umount_block
  umount_block-Frames false r = search frames
  umount_block-Frames true r =
      search (frames, numbers_of-Frames, new_manager-Frames, deny_device-Frames) depth 10

  umount_image-Frames : (r : VolumeRecord) → Frames (umount_image server node vm r)
  unfolding umount_image
  umount_image-Frames r = search (frames, mounted_at-Frames) depth 10

  umount_kind-Frames : (a : Answer) (r : VolumeRecord) → Frames (umount_kind server node vm a r)
  unfolding umount_kind
  umount_kind-Frames done r = search (frames, exists_if-Frames, umount_block-Frames)
  umount_kind-Frames not_found r = umount_image-Frames r
  umount_kind-Frames already_exists r = umount_image-Frames r
  umount_kind-Frames conflict r = umount_image-Frames r
  umount_kind-Frames Answer.failed r = umount_image-Frames r

  umount_volume-Frames : (r : VolumeRecord) → Frames (umount_volume server node vm r)
  unfolding umount_volume
  umount_volume-Frames r = search (frames, umount_kind-Frames)

  umount_gone-Frames : (rs : List VolumeRecord) → Frames (umount_gone server node vm rs)
  unfolding umount_gone
  umount_gone-Frames [] = search frames
  umount_gone-Frames (r ∷ rs) = bind-Keeps get_status-Frames (λ s.
      if-Keeps _ (bind-Keeps (umount_gone-Frames rs) (λ rest. return-Keeps _))
        (bind-Keeps (umount_volume-Frames r) (λ _. umount_gone-Frames rs)))

  keep_records-Frames : (rs : List VolumeRecord) → Frames (keep_records server node vm rs)
  unfolding keep_records
  keep_records-Frames [] = remove_records-Frames server node vm
  keep_records-Frames (r ∷ rs) = write_records-Frames server node vm _

  pub umount_volumes-Frames : Frames (umount_volumes server node vm)
  unfolding umount_volumes
  umount_volumes-Frames =
      search (frames, get_records-Frames, umount_gone-Frames, keep_records-Frames)

  umount_each-Frames : (rs : List VolumeRecord) → Frames (umount_each server node vm rs)
  unfolding umount_each
  umount_each-Frames [] = search frames
  umount_each-Frames (r ∷ rs) =
      then-Keeps (umount_volume-Frames r) (then-Keeps (event-Frames _) (umount_each-Frames rs))

  pub cleanup-Frames : Frames (cleanup server node vm)
  unfolding cleanup
  cleanup-Frames = search (frames, get_records-Frames, umount_each-Frames, remove_records-Frames)
