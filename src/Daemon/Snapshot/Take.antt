-- ===== src/Daemon/Snapshot/Take.antt =====
-- pkg/daemon/snapshot_controller.go: how a snapshot is taken, of the memory and of the disks.
use ch_vmm.Prelude.{String, ◌<>◌, Bool, true, false, List, [], ◌∷◌, ◌++◌, none, some, if◌then◌else◌}
use ch_vmm.Api.{Volume}
use ch_vmm.Webhook.Field.{is_blank}
use ch_vmm.Controller.Names.{codes}
use ch_vmm.Controller.Program.{
  Answer, done, not_found, Program, ◌>>=◌, ◌>>◌, return, fail, must, must_or_exists,
}
use ch_vmm.Controller.VmSnapshot.{behind_prefix, has_prefix, trim_prefix}
use ch_vmm.Daemon.{Vm, Call, pause, resume, join, data_dir}
use ch_vmm.Daemon.Snapshot.{
  Snapshot, NewDisk, Request, vmm, stat, make_dirs, remove_all, read_dir, create_archive,
  upload_to_s3, upload_to_gcs, get_disk, own_disk, create_disk, create_restore_spec, Server, State,
  modify, record_event, call, fetch, error_text,
}

-- The names of the files in a directory.
pub paths_in : String → List String → List String
unfolding join
paths_in dir [] = []
paths_in dir (n ∷ ns) = join dir n ∷ paths_in dir ns

abbrev archive_of : Snapshot → String
archive_of snap = snap.name <> ".zstd.tar"

-- The request that stores the archive of the memory.
unfoldable pub upload_request : Snapshot → Request
unfolding behind_prefix
upload_request snap =
    if has_prefix snap.bucket (codes "s3")
    then upload_to_s3 (trim_prefix snap.bucket (codes "s3://")) (archive_of snap) (archive_of snap)
    else upload_to_gcs (trim_prefix snap.bucket (codes "gcs://")) (archive_of snap)
        (archive_of snap)

pub new_disk : Vm → Snapshot → Volume → String → NewDisk
new_disk vm snap v disk = record {
  name = v.name <> "-" <> snap.name <> "-vds";
  vm = vm.name;
  snapshot = snap.name;
  volume = v.name;
  disk = disk;
}

module _ (server : Server) (vm : Vm) (vm_status : ch_vmm.Daemon.Status) (snap : Snapshot) where
  abbrev M : Type 0 → Type 0
  M A = Program State A

  abbrev pub socket : String
  socket = ch_vmm.Daemon.socket vm_status

  abbrev directory : String
  directory = join (data_dir vm_status) snap.name

  -- The hypervisor's part, with the text of its error; the machine is always resumed.
  unfoldable pub taken_if : Answer → M (Answer × String)
  taken_if done = do
    taken ← call server (vmm socket (Call.snapshot ("file://" <> join "/var/run/ch-vmm" snap.name)))
    text ← error_text server
    _ ← call server (vmm socket resume)
    return (taken, text)
  taken_if e = do text ← error_text server; return (e, text)

  -- `chSnapshot`
  unfoldable pub ch_snapshot : M (Answer × String)
  unfolding taken_if
  ch_snapshot = do paused ← call server (vmm socket pause); taken_if paused

  unfoldable pub upload_if : Answer → M (String × Answer × String)
  unfolding upload_request
  upload_if done = do
    uploaded ← call server (upload_request snap)
    text ← error_text server
    _ ← call server (remove_all (archive_of snap))
    return (archive_of snap, uploaded, text)
  upload_if e = do
    text ← error_text server
    _ ← call server (remove_all (archive_of snap))
    return ("", e, text)

  unfoldable pub archive_if : Answer × List String → M (String × Answer × String)
  unfolding upload_if paths_in
  archive_if (done, names) = do
    archived ← call server (create_archive (archive_of snap) (paths_in directory names))
    upload_if archived
  archive_if (e, names) = do
    text ← error_text server
    return ("", e, "failed to read directory: " <> text)

  -- `uploadToBucket`: the key of the object, and the error with its text.
  unfoldable pub upload_to_bucket : M (String × Answer × String)
  unfolding archive_if
  upload_to_bucket = do listed ← fetch server (read_dir directory) server.entries; archive_if listed

  abbrev set_memory : String → Bool → String → String → M (Unit {0})
  set_memory key is_ready text why = modify (λ s. record s {
    memory = record {
      bucket = snap.bucket;
      object_key = key;
      ready = is_ready;
      message = text;
      reason = why;
    };
  })

  unfoldable pub stored_if : String × Answer × String → M (Unit {0})
  stored_if (key, done, text) = set_memory key true "" "MemorySnapshotCreated"
  stored_if (key, e, text) = do
    set_memory key false text "FailedToUploadToBucket"
    record_event "FailedToUploadMemorySnapshot"
    fail e

  unfoldable pub store_if : Answer × String → M (Unit {0})
  unfolding upload_to_bucket stored_if
  store_if (done, text) = do uploaded ← upload_to_bucket; stored_if uploaded
  store_if (e, text) = do
    set_memory "" false text "HypervisorSnapshotFailed"
    record_event "FailedToCreateMemorySnapshot"
    fail e

  unfoldable pub take_memory : M (Unit {0})
  unfolding ch_snapshot store_if
  take_memory = if snap.skip_memory then return tt else (do taken ← ch_snapshot; store_if taken)

  abbrev add_disk : String → String → String → M (Unit {0})
  add_disk disk text why = modify (λ s. record s {
    disks = s.disks ++ record { name = disk; ready = false; message = text; reason = why } ∷ [];
  })

  unfoldable pub made_if : Answer → NewDisk → M (Unit {0})
  made_if done n = do
    add_disk n.name "VirtualDiskSnapshotCreated" "VirtualDiskSnapshotCreated"
    record_event "VirtualDiskSnapshotCreated"
  made_if e n = do
    text ← error_text server
    add_disk n.name "VirtualDiskSnapshotCreationFailed" text
    record_event "VirtualDiskSnapshotCreationFailed"
    fail e

  unfoldable pub make_if : Answer → NewDisk → M (Unit {0})
  unfolding made_if
  make_if done n = return tt
  make_if not_found n = do
    owned ← call server (own_disk n.name)
    must owned
    made ← call server (create_disk n)
    made_if made n
  make_if e n = fail e

  unfoldable pub take_disk : NewDisk → M (Unit {0})
  unfolding make_if
  take_disk n = do got ← call server (get_disk n.name); make_if got n

  -- `snapshotDisks`
  unfoldable pub snapshot_disks : List Volume → M (Unit {0})
  unfolding take_disk new_disk
  snapshot_disks [] = return tt
  snapshot_disks (v ∷ vs) = elim v.source.virtual_disk [
    | none ↦ snapshot_disks vs
    | some d ↦ do take_disk (new_disk vm snap v d.virtual_disk_name); snapshot_disks vs
  ]

  unfoldable pub take : M (Unit {0})
  unfolding take_memory snapshot_disks
  take = do record_event "SnapShotInProgress"; take_memory; snapshot_disks vm.volumes

  -- What is deferred behind another part, however that ends.
  unfoldable pub then_remove : M (Unit {0}) → M (Unit {0})
  then_remove m s = let (r, s') = m s in (r, (call server (remove_all directory) s').1)

  unfoldable pub take_in : Answer → M (Unit {0})
  unfolding take then_remove
  take_in not_found = do made ← call server (make_dirs directory); must made; then_remove take
  take_in e = take

  -- `createVMSnapShot`
  unfoldable pub create_snapshot : M (Unit {0})
  unfolding take_in
  create_snapshot = do answered ← call server (stat directory); take_in answered

  -- `createRestoreSpec`
  unfoldable pub create_spec : M (Unit {0})
  create_spec = do
    created ← call server (
        create_restore_spec (if is_blank snap.namespace then "default" else snap.namespace)
          snap.name)
    must_or_exists created
