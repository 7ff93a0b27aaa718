-- ===== src/Daemon/Frame/Devices.antt =====
-- The rules of cgroups and the records of mounts leave the phase, the place and the migration alone.
use ch_vmm.Prelude.{ℕ, String, List, [], ◌∷◌, ◌++◌, Option, none, some}
use ch_vmm.Api.{Volume}
use ch_vmm.Controller.Program.{
  Answer, done, not_found, already_exists, conflict, return-Keeps, bind-Keeps, if-Keeps,
}
use ch_vmm.Daemon.{Vm, Rule, VolumeRecord, Server, Node}
use ch_vmm.Daemon.Cgroup.{
  found_numbers, numbers_of, with_process, new_manager, device_path, rule_if, volume_rules,
  set_devices,
}
use ch_vmm.Daemon.Records.{read_if, get_records, write_records, remove_records, add_record}
use ch_vmm.Daemon.Frame.{Frames, frames, get_status-Frames, call-Frames}

module _ (server : Server) (node : Node) (vm : Vm) where
  pub found_numbers-Frames : (o : Option (ℕ × ℕ)) → Frames (found_numbers server node vm o)
  unfolding found_numbers
  found_numbers-Frames none = search frames
  found_numbers-Frames (some n) = search frames

  pub numbers_of-Frames : (base : ℕ) (path : String) → Frames (numbers_of server node vm base path)
  unfolding numbers_of
  numbers_of-Frames base path = search (frames, found_numbers-Frames)

  pub with_process-Frames :
      (a : Answer) (path : String) → Frames (with_process server node vm a path)
  unfolding with_process
  with_process-Frames done path = search frames depth 12
  with_process-Frames not_found path = search frames
  with_process-Frames already_exists path = search frames
  with_process-Frames conflict path = search frames
  with_process-Frames Answer.failed path = search frames

  pub new_manager-Frames : Frames (new_manager server node vm)
  unfolding new_manager
  new_manager-Frames = search (frames, with_process-Frames)

  pub rule_if-Frames : (a : Answer) (path : String) → Frames (rule_if server node vm a path)
  unfolding rule_if
  rule_if-Frames done path = search (frames, numbers_of-Frames)
  rule_if-Frames not_found path = search frames
  rule_if-Frames already_exists path = search frames
  rule_if-Frames conflict path = search frames
  rule_if-Frames Answer.failed path = search frames

  pub volume_rules-Frames :
      (pid : ℕ) (vs : List Volume) → Frames (volume_rules server node vm pid vs)
  unfolding volume_rules
  volume_rules-Frames pid [] = search frames
  volume_rules-Frames pid (v ∷ vs) =
      let rest = volume_rules-Frames pid vs in
      if-Keeps _
        (bind-Keeps get_status-Frames (λ s. bind-Keeps (call-Frames server _) (λ a.
          bind-Keeps (rule_if-Frames a (device_path server node vm pid s v))
            (λ rules. bind-Keeps rest (λ others. return-Keeps (rules ++ others))))))
        rest

  pub set_devices-Frames : (pid : ℕ) (rs : List Rule) → Frames (set_devices server node vm pid rs)
  unfolding set_devices
  set_devices-Frames pid rs = search (frames, volume_rules-Frames)

  pub read_if-Frames : (a : Answer) → Frames (read_if server vm a)
  unfolding read_if
  read_if-Frames done = search frames
  read_if-Frames not_found = search frames
  read_if-Frames already_exists = search frames
  read_if-Frames conflict = search frames
  read_if-Frames Answer.failed = search frames

  pub get_records-Frames : Frames (get_records server vm)
  unfolding get_records
  get_records-Frames = search (frames, read_if-Frames)

  pub write_records-Frames : (rs : List VolumeRecord) → Frames (write_records server vm rs)
  unfolding write_records
  write_records-Frames rs = search frames

  pub remove_records-Frames : Frames (remove_records server vm)
  unfolding remove_records
  remove_records-Frames = search frames

  pub add_record-Frames :
      (v t : String) (rs : List VolumeRecord) → Frames (add_record server vm v t rs)
  unfolding add_record
  add_record-Frames v t rs = search (frames, write_records-Frames)
