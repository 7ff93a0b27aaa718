-- ===== src/Daemon/Records.antt =====
-- pkg/daemon/vm_controller.go: the record of what is mounted for a machine, a file on the node.
use ch_vmm.Prelude.{String, Bool, true, false, List, [], ◌∷◌, ◌++◌, if◌then◌else◌, str_eq}
use ch_vmm.Controller.Program.{Answer, done, not_found, Program, ◌>>=◌, ◌>>◌, return, fail, must}
use ch_vmm.Daemon.{
  Vm, VolumeRecord, stat, open_record, decode_record, remove_record, make_dirs, write_record,
  Server, State, call, fetch, join,
}

abbrev record_dir : String
record_dir = "/var/run/ch-vmm/hotplug-volume-mount-record"

-- `getVMMountRecordFile`
pub record_file : Vm → String
unfolding join
record_file vm = join record_dir vm.uid

pub is_recorded : String → List VolumeRecord → Bool
is_recorded volume [] = false
is_recorded volume (r ∷ rs) = if str_eq r.volume volume then true else is_recorded volume rs

module _ (server : Server) (vm : Vm) where
  abbrev M : Type 0 → Type 0
  M A = Program State A

  unfoldable pub read_if : Answer → M (List VolumeRecord)
  unfolding record_file
  read_if done = do
    opened ← call server (open_record (record_file vm))
    must opened
    answered ← fetch server (decode_record (record_file vm)) server.records
    must answered.0
    return answered.1
  read_if not_found = return []
  read_if e = fail e

  -- `getVMMountRecord`
  unfoldable pub get_records : M (List VolumeRecord)
  unfolding read_if record_file
  get_records = do answered ← call server (stat (record_file vm)); read_if answered

  -- `writeVMMountRecord`, of which `json.Marshal` cannot fail.
  unfoldable pub write_records : List VolumeRecord → M (Unit {0})
  unfolding record_file
  write_records records = do
    made ← call server (make_dirs record_dir)
    must made
    written ← call server (write_record (record_file vm) records)
    must written

  -- `removeVMMountRecord`
  unfoldable pub remove_records : M (Unit {0})
  unfolding record_file
  remove_records = do removed ← call server (remove_record (record_file vm)); must removed

  -- `addVolumeToVMMountRecord`, by the records that it leaves in memory.
  unfoldable pub add_record : String → String → List VolumeRecord → M (List VolumeRecord)
  unfolding is_recorded write_records
  add_record volume target records = if is_recorded volume records then return records else (do
    write_records (records ++ record { volume = volume; target = target } ∷ [])
    return (records ++ record { volume = volume; target = target } ∷ []))
