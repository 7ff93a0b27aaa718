-- ===== src/Daemon/Frame.antt =====
-- What the daemon does to volumes leaves the phase, the place and the migration of a machine alone.
pub mod Devices
pub mod Mounted
pub mod Plugged
use ch_vmm.Prelude.{ℕ, String, refl, Bool, true, false, List, [], ◌∷◌, ◌++◌, Option, none, some}
use ch_vmm.Api.{Volume}
use ch_vmm.Controller.Program.{
  Answer, done, not_found, already_exists, conflict, Result, ok, err, panicked, Program, fail,
  Keeps, return-Keeps, bind-Keeps, then-Keeps, must-Keeps, if-Keeps, option-Keeps,
}
use ch_vmm.Controller.Machine.{VolumeStatus}
use ch_vmm.Daemon.{
  Vm, VmInfo, Status, Phase, Migration, Rule, VolumeRecord, MountInfo, Request, Trace, Server, Node,
  State, get_status, modify, record_event, call, fetch,
}
use ch_vmm.Daemon.Cgroup.{
  found_numbers, numbers_of, with_process, new_manager, device_path, rule_if, volume_rules,
  set_devices,
}
use ch_vmm.Daemon.Records.{read_if, get_records, write_records, remove_records, add_record}
use ch_vmm.Daemon.Mounts.{
  status_of, is_block, exists_if, mounted_if, mounted_at, allow_device, make_node, mount_block,
  found_mount, image_source, create_if, mount_image, mount_one, mark_mounted, mount_known,
  mount_next, mount_all, mount_volumes,
}
use ch_vmm.Daemon.Umounts.{
  deny_device, umount_block, umount_image, umount_kind, umount_volume, umount_gone, keep_records,
  umount_volumes, umount_each, cleanup,
}
use ch_vmm.Daemon.Plugs.{
  last_status, plug, mark_ready, add_known, add_volumes, remove_disks, reconcile_volumes,
}

-- The phase, the node and the migration of the machine in memory.
abbrev pub frame : State → Phase × String × Option Migration
frame s = (s.0.status.phase, s.0.status.node_name, s.0.status.migration)

abbrev pub Frames : {A : Type 0} → Program State A → Type 0
Frames m = Keeps frame m

pub fail-Frames : {A : Type 0} (e : Answer) → Frames {A = A} (fail e)
fail-Frames e = record { kept = λ s. refl }

pub panic-Frames : {A : Type 0} → Frames {A = A} (λ s. (panicked, s))
panic-Frames = record { kept = λ s. refl }

pub event-Frames : (e : String) → Frames (record_event e)
event-Frames e = record { kept = λ s. refl }

pub get_status-Frames : Frames get_status
get_status-Frames = record { kept = λ s. refl }

pub volumes-Frames :
    (f : Status → List VolumeStatus) → Frames (modify (λ s. record s { volumes = f s }))
volumes-Frames f = record { kept = λ s. refl }

module _ (server : Server) where
  pub call-Frames : (r : Request) → Frames (call server r)
  call-Frames r = record { kept = λ s. refl }

  pub fetch-Frames : {A : Type 0} (r : Request) (read : Trace → A) → Frames (fetch server r read)
  fetch-Frames r read = record { kept = λ s. refl }

pub ruleset frames = (
  return-Keeps, bind-Keeps, then-Keeps, must-Keeps, if-Keeps, option-Keeps, fail-Frames,
  panic-Frames, event-Frames, get_status-Frames, volumes-Frames, call-Frames, fetch-Frames,
)
