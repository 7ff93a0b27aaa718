-- ===== src/Daemon/Mounts.antt =====
-- pkg/daemon/vm_controller.go: the volumes that are mounted into a machine's pod while it runs.
use ch_vmm.Prelude.{
  ℕ, String, ◌<>◌, Bool, true, false, not, ◌||◌, ◌&&◌, List, [], ◌∷◌, Option, none, some,
  if◌then◌else◌, str_eq, ◌==◌,
}
use ch_vmm.Api.{Volume}
use ch_vmm.Webhook.Field.{is_blank}
use ch_vmm.Controller.Program.{
  Answer, done, not_found, panicked, Program, ◌>>=◌, ◌>>◌, return, fail, must,
}
use ch_vmm.Controller.Machine.{VolumePhase, attached_to_node, mounted_to_pod, VolumeStatus}
use ch_vmm.Controller.Machine.Claims.{claim_name}
use ch_vmm.Daemon.{
  Vm, Rule, VolumeRecord, MountInfo, get_claim, stat, pid_of, mknod, create_file, read_mounts,
  is_mounted, mount, Server, Node, State, get_status, modify, record_event, call, fetch, join,
  pod_dir,
}
use ch_vmm.Daemon.Records.{get_records, add_record}
use ch_vmm.Daemon.Cgroup.{numbers_of, new_manager, set_devices}

abbrev pub device_rule : ℕ → ℕ → Bool → Rule
device_rule major minor allow = record {
  is_block = true;
  major = major;
  minor = minor;
  allow = allow;
}

-- The targets of a volume, as a device and as an image, and the directory in the volume pod.
pub block_target : String → String → String
unfolding join pod_dir
block_target pod volume = join (pod_dir pod "hotplug-volumes") volume

pub image_target : String → String → String
image_target pod volume =
    "/pods/" <> pod <> "/volumes/kubernetes.io~empty-dir/hotplug-volumes/" <> volume <> ".img"

pub block_source : String → String → String
unfolding join pod_dir
block_source volume_pod volume = join (pod_dir volume_pod "hotplug") volume

-- Whether a mount on the host is that of a mount in the volume pod, in its directory.
pub is_source :
    (String → String → Bool) → (String → String → Bool) → MountInfo → String → MountInfo → Bool
is_source has_prefix contains inner volume_pod m =
    m.major == inner.major
    && m.minor == inner.minor
    && has_prefix inner.root m.root
    && contains m.mountpoint volume_pod

pub first_mount : (MountInfo → Bool) → List MountInfo → Option MountInfo
first_mount test [] = none
first_mount test (m ∷ ms) = if test m then some m else first_mount test ms

unfoldable pub status_of : String → List VolumeStatus → Option VolumeStatus
status_of name [] = none
status_of name (s ∷ ss) = if str_eq s.name name then some s else status_of name ss

-- A change of the first status of that name.
pub update_first : String → VolumePhase → List VolumeStatus → List VolumeStatus
update_first name p [] = []
update_first name p (s ∷ ss) =
    if str_eq s.name name then record s { phase = p } ∷ ss else s ∷ update_first name p ss

abbrev pub is_attached : VolumePhase → Bool
is_attached attached_to_node = true
is_attached p = false

module _ (server : Server) (node : Node) (vm : Vm) where
  abbrev M : Type 0 → Type 0
  M A = Program State A

  -- `volumeutil.IsBlock`
  unfoldable pub is_block : Volume → M Bool
  is_block v = if is_blank (claim_name v) then fail Answer.failed else do
    answered ← fetch server (get_claim (claim_name v)) server.claim_is_block
    must answered.0
    return answered.1

  -- Whether a file is there.
  unfoldable pub exists_if : Answer → M Bool
  exists_if done = return true
  exists_if not_found = return false
  exists_if e = fail e

  unfoldable pub mounted_if : Bool → String → M Bool
  mounted_if false path = return false
  mounted_if true path = do
    answered ← fetch server (is_mounted path) server.mounted
    must answered.0
    return answered.1

  -- `isMounted`
  unfoldable pub mounted_at : String → M Bool
  unfolding exists_if mounted_if
  mounted_at path = do
    answered ← call server (stat path)
    exists ← exists_if answered
    mounted_if exists path

  -- `cgroupManager.Set` on a manager that can be nil.
  unfoldable pub allow_device : Option ℕ → ℕ → ℕ → M (Unit {0})
  allow_device none major minor = λ s. (panicked, s)
  allow_device (some pid) major minor =
      set_devices server node vm pid (device_rule major minor true ∷ [])

  unfoldable pub make_node : Bool → String → ℕ × ℕ → M (Unit {0})
  make_node true target numbers = return tt
  make_node false target numbers = do
    made ← call server (mknod target numbers.0 numbers.1)
    must made

  -- `mountBlockVolume`
  unfoldable pub mount_block : String → String → String → List VolumeRecord → M (List VolumeRecord)
  unfolding exists_if make_node allow_device block_target block_source
  mount_block volume pod volume_pod records = do
    answered ← call server (stat (block_target pod volume))
    exists ← exists_if answered
    numbers ← numbers_of server node vm 16 (block_source volume_pod volume)
    records' ← add_record server vm volume (block_target pod volume) records
    make_node exists (block_target pod volume) numbers
    manager ← new_manager server node vm
    allow_device manager numbers.0 numbers.1
    return records'

  unfoldable pub found_mount : Option MountInfo → M MountInfo
  found_mount none = fail Answer.failed
  found_mount (some m) = return m

  -- `getHotplugVolumeSourcePathOnHost`
  unfoldable pub image_source : String → String → M String
  unfolding first_mount is_source found_mount
  image_source volume volume_pod = do
    process ←
        fetch server
          (pid_of ("/pods/" <> volume_pod <> "/volumes/kubernetes.io~empty-dir/hotplug/hp.sock"))
          server.pid
    must process.0
    inside ← fetch server (read_mounts process.1) server.mounts
    must inside.0
    inner ← found_mount (first_mount (λ m. str_eq m.mountpoint ("/mnt/" <> volume)) inside.1)
    outside ← fetch server (read_mounts 1) server.mounts
    must outside.0
    outer ←
        found_mount
          (first_mount (is_source node.has_prefix node.contains inner volume_pod) outside.1)
    return outer.mountpoint

  unfoldable pub create_if : Bool → String → M (Unit {0})
  create_if true target = return tt
  create_if false target = do made ← call server (create_file target); must made

  -- `mountFileSystemVolume`
  unfoldable pub mount_image : String → String → String → List VolumeRecord → M (List VolumeRecord)
  unfolding exists_if create_if image_target
  mount_image volume pod volume_pod records = do
    mounted ← mounted_at (image_target pod volume)
    if mounted then return records else do
      source ← image_source volume volume_pod
      records' ← add_record server vm volume (image_target pod volume) records
      answered ← call server (stat (image_target pod volume))
      exists ← exists_if answered
      create_if exists (image_target pod volume)
      answered' ← call server (mount (join source "disk.img") (image_target pod volume))
      must answered'
      return records'

  unfoldable pub mount_one : Volume → String → String → List VolumeRecord → M (List VolumeRecord)
  unfolding mount_block mount_image
  mount_one v pod volume_pod records = do
    block ← is_block v
    if block
        then mount_block v.name pod volume_pod records
        else mount_image v.name pod volume_pod records

  unfoldable pub mark_mounted : VolumeStatus → M (Unit {0})
  unfolding update_first
  mark_mounted s =
      if is_attached s.phase
      then (do
        modify (λ status. record status {
          volumes = update_first s.name mounted_to_pod status.volumes;
        })
        record_event "MountVolumeToPod")
      else return tt

  -- The body of the loop for a volume with a status; the volume pod that it leaves is that of the
  -- next volumes.
  unfoldable pub mount_known :
      Volume
      → VolumeStatus
      → String
      → String
      → String
      → List VolumeRecord
      → M (String × List VolumeRecord)
  unfolding mount_one mark_mounted
  mount_known v s hotplug_pod pod volume_pod records =
      if not (is_blank volume_pod) || is_attached s.phase
      then (let from = if is_blank volume_pod then hotplug_pod else volume_pod in
          do records' ← mount_one v pod from records; mark_mounted s; return (from, records'))
      else (do mark_mounted s; return (volume_pod, records))

  unfoldable pub mount_next :
      Volume
      → String
      → String
      → List VolumeRecord
      → Option VolumeStatus
      → M (String × List VolumeRecord)
  unfolding mount_known
  mount_next v pod volume_pod records none = return (volume_pod, records)
  mount_next v pod volume_pod records (some s) = elim s.hotplug [
    | none ↦ return (volume_pod, records)
    | some h ↦ mount_known v s h.pod_uid pod volume_pod records
  ]

  unfoldable pub mount_all : List Volume → String → String → List VolumeRecord → M (Unit {0})
  unfolding mount_next status_of
  mount_all [] pod volume_pod records = return tt
  mount_all (v ∷ vs) pod volume_pod records =
      if node.is_hotpluggable v
      then (do
        status ← get_status
        next ← mount_next v pod volume_pod records (status_of v.name status.volumes)
        mount_all vs pod next.0 next.1)
      else mount_all vs pod volume_pod records

  -- `mountHotplugVolumes`, where an empty text means the machine's own pod, and the volumes' pods.
  unfoldable pub mount_volumes : String → String → M (Unit {0})
  unfolding mount_all
  mount_volumes pod volume_pod = do
    status ← get_status
    records ← get_records server vm
    mount_all vm.volumes (if is_blank pod then status.pod_uid else pod) volume_pod records
