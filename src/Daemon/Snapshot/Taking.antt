-- ===== src/Daemon/Snapshot/Taking.antt =====
-- What takes a snapshot does not panic, resumes the machine, and leaves the phases alone.
use ch_vmm.Prelude.{
  String, ◌≡◌, ◌≢◌, refl, Bool-cases, inl, inr, false, List, [], ◌∷◌, Option, none, some,
}
use ch_vmm.Api.{Volume, VirtualDiskVmSource}
use ch_vmm.Controller.Program.{
  Answer, done, not_found, already_exists, conflict, failed, panicked, Program, ◌>>◌,
}
use ch_vmm.Controller.Names.{codes}
use ch_vmm.Controller.VmSnapshot.{has_prefix}
use ch_vmm.Daemon.{Vm, Phase, Call, pause, resume, join}
use ch_vmm.Daemon.Snapshot.{Snapshot, NewDisk, vmm, Memory, Trace, Server, State}
use ch_vmm.Daemon.Snapshot.Take.{
  socket, new_disk, upload_request, taken_if, ch_snapshot, upload_if, archive_if, upload_to_bucket,
  stored_if, store_if, take_memory, made_if, make_if, take_disk, snapshot_disks, take, then_remove,
  take_in, create_snapshot, create_spec,
}
use ch_vmm.Daemon.Snapshot.Calm.{halted, effect, keeps, place, Calm, calm, then-Calm}

module _ (server : Server) (vm : Vm) (st : ch_vmm.Daemon.Status) (snap : Snapshot) where
  -- The machine has been told to pause when this starts; in the end it runs.
  taken_if-runs :
      (m : Memory) (t : Trace) (a : Answer)
      → server.answer t (vmm (socket server vm st snap) pause) ≡ a
      → halted server t ≡ false
      → halted server
          (taken_if server vm st snap a (m, vmm (socket server vm st snap) pause ∷ t)).1.1
        ≡ false
  unfolding taken_if halted
  taken_if-runs m t done e h = refl
  taken_if-runs m t not_found e h = rw (e, halted) h
  taken_if-runs m t already_exists e h = rw (e, halted) h
  taken_if-runs m t conflict e h = rw (e, halted) h
  taken_if-runs m t failed e h = rw (e, halted) h

  taken_if-Calm :
      (a : Answer) (s : State)
      → (place (taken_if server vm st snap a s).1 ≡ place s)
        × ((taken_if server vm st snap a s).0 ≢ panicked)
  unfolding taken_if
  taken_if-Calm done s = (refl, λ e. cc)
  taken_if-Calm not_found s = (refl, λ e. cc)
  taken_if-Calm already_exists s = (refl, λ e. cc)
  taken_if-Calm conflict s = (refl, λ e. cc)
  taken_if-Calm failed s = (refl, λ e. cc)

  ch_snapshot-Calm : Calm server (ch_snapshot server vm st snap)
  unfolding ch_snapshot
  ch_snapshot-Calm = record {
    kept = λ (m, t). (taken_if-Calm _ (m, vmm (socket server vm st snap) pause ∷ t)).0;
    ends = λ (m, t). (taken_if-Calm _ (m, vmm (socket server vm st snap) pause ∷ t)).1;
    runs = λ (m, t) h. taken_if-runs m t _ refl h;
  }

  upload_request-keeps : effect (upload_request snap) ≡ keeps
  unfolding upload_request
  upload_request-keeps = elim (Bool-cases (has_prefix snap.bucket (codes "s3"))) [
    | inl e ↦ rw e refl
    | inr e ↦ rw e refl
  ]

  upload_if-Calm : (a : Answer) → Calm server (upload_if server vm st snap a)
  unfolding upload_if
  upload_if-Calm done = search (calm, upload_request-keeps)
  upload_if-Calm not_found = search calm
  upload_if-Calm already_exists = search calm
  upload_if-Calm conflict = search calm
  upload_if-Calm failed = search calm

  archive_if-Calm : (a : Answer × List String) → Calm server (archive_if server vm st snap a)
  unfolding archive_if
  archive_if-Calm (done, n) = search (calm, upload_if-Calm)
  archive_if-Calm (not_found, n) = search calm
  archive_if-Calm (already_exists, n) = search calm
  archive_if-Calm (conflict, n) = search calm
  archive_if-Calm (failed, n) = search calm

  upload_to_bucket-Calm : Calm server (upload_to_bucket server vm st snap)
  unfolding upload_to_bucket
  upload_to_bucket-Calm = search (calm, archive_if-Calm)

  stored_if-Calm : (a : String × Answer × String) → Calm server (stored_if server vm st snap a)
  unfolding stored_if
  stored_if-Calm (k, done, n) = search calm
  stored_if-Calm (k, not_found, n) = search calm
  stored_if-Calm (k, already_exists, n) = search calm
  stored_if-Calm (k, conflict, n) = search calm
  stored_if-Calm (k, failed, n) = search calm

  store_if-Calm : (a : Answer × String) → Calm server (store_if server vm st snap a)
  unfolding store_if
  store_if-Calm (done, n) = search (calm, upload_to_bucket-Calm, stored_if-Calm)
  store_if-Calm (not_found, n) = search calm
  store_if-Calm (already_exists, n) = search calm
  store_if-Calm (conflict, n) = search calm
  store_if-Calm (failed, n) = search calm

  take_memory-Calm : Calm server (take_memory server vm st snap)
  unfolding take_memory
  take_memory-Calm = search (calm, ch_snapshot-Calm, store_if-Calm)

  made_if-Calm : (a : Answer) (n : NewDisk) → Calm server (made_if server vm st snap a n)
  unfolding made_if
  made_if-Calm done n = search calm
  made_if-Calm not_found n = search calm
  made_if-Calm already_exists n = search calm
  made_if-Calm conflict n = search calm
  made_if-Calm failed n = search calm

  make_if-Calm : (a : Answer) (n : NewDisk) → Calm server (make_if server vm st snap a n)
  unfolding make_if
  make_if-Calm done n = search calm
  make_if-Calm not_found n = search (calm, made_if-Calm)
  make_if-Calm already_exists n = search calm
  make_if-Calm conflict n = search calm
  make_if-Calm failed n = search calm

  take_disk-Calm : (n : NewDisk) → Calm server (take_disk server vm st snap n)
  unfolding take_disk
  take_disk-Calm n = search (calm, make_if-Calm)

  snapshot_disks-Calm : (vs : List Volume) → Calm server (snapshot_disks server vm st snap vs)
  unfolding snapshot_disks
  snapshot_disks-Calm [] = search calm
  snapshot_disks-Calm (v ∷ vs) = by_source v.source.virtual_disk (snapshot_disks-Calm vs)
    where
      by_source :
          (o : Option VirtualDiskVmSource)
          → Calm server (snapshot_disks server vm st snap vs)
          → Calm server (elim o [
            | none ↦ snapshot_disks server vm st snap vs
            | some d ↦
                take_disk server vm st snap (new_disk vm snap v d.virtual_disk_name)
                >> snapshot_disks server vm st snap vs
          ])
      by_source none rest = rest
      by_source (some d) rest = then-Calm (take_disk-Calm _) rest

  take-Calm : Calm server (take server vm st snap)
  unfolding take
  take-Calm = search (calm, take_memory-Calm, snapshot_disks-Calm)

  then_remove-Calm :
      {m : Program State (Unit {0})} → Calm server m → Calm server (then_remove server vm st snap m)
  unfolding then_remove halted
  then_remove-Calm h = record { kept = λ s. h.kept s; ends = λ s. h.ends s; runs = λ s. h.runs s }

  take_in-Calm : (a : Answer) → Calm server (take_in server vm st snap a)
  unfolding take_in
  take_in-Calm not_found = search (calm, then_remove-Calm, take-Calm)
  take_in-Calm done = take-Calm
  take_in-Calm already_exists = take-Calm
  take_in-Calm conflict = take-Calm
  take_in-Calm failed = take-Calm

  pub create_snapshot-Calm : Calm server (create_snapshot server vm st snap)
  unfolding create_snapshot
  create_snapshot-Calm = search (calm, take_in-Calm)

  pub create_spec-Calm : Calm server (create_spec server vm st snap)
  unfolding create_spec
  create_spec-Calm = search calm
