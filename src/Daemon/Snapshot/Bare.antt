-- ===== src/Daemon/Snapshot/Bare.antt =====
-- Programs of the snapshots that put no disk into a status that has none.
use ch_vmm.Prelude.{
  String, ◌≡◌, Bool, true, false, List, [], ◌∷◌, Option, none, some, if◌then◌else◌,
}
use ch_vmm.Api.{Volume, VirtualDiskVmSource}
use ch_vmm.Controller.Program.{
  Answer, done, not_found, already_exists, conflict, failed, Result, ok, err, panicked, Program,
  bind, ◌>>=◌, ◌>>◌, return, fail, must, must_or_exists,
}
use ch_vmm.Daemon.{Vm, Phase, Node}
use ch_vmm.Daemon.Snapshot.{
  Snapshot, SnapshotPhase, SnapshotStatus, MemoryStatus, NewDisk, Request, get_disk, Trace, Server,
  State, get_phase, set_vm_phase, get_status, modify, set_phase, record_event, call, fetch,
  error_text, succeeds,
}
use ch_vmm.Daemon.Snapshot.Take.{
  new_disk, taken_if, ch_snapshot, upload_if, archive_if, upload_to_bucket, stored_if, store_if,
  take_memory, make_if, take_disk, snapshot_disks, take, then_remove, take_in, create_snapshot,
  create_spec,
}

-- A program that puts no disk into a status that has none.
pub record Bare (server : Server) {A : Type 0} (m : Program State A) : Type 0 where
  pub led : (s : State) → s.0.status.disks ≡ [] → (m s).1.0.status.disks ≡ []

module _ {server : Server} where
  pub return-Bare : {A : Type 0} (a : A) → Bare server (return a)
  return-Bare a = record { led = λ s e. e }

  pub bind-Bare :
      {A B : Type 0} {m : Program State A} {f : A → Program State B}
      → Bare server m
      → ((a : A) → Bare server (f a))
      → Bare server (m >>= f)
  bind-Bare {A} {B} {m} {f} h k = record { led = λ s e. behind (m s) (h.led s e) }
    where
      behind : (r : Result A × State) → r.1.0.status.disks ≡ [] → (bind r f).1.0.status.disks ≡ []
      behind (ok a, t) e = (k a).led t e
      behind (err x, t) e = e
      behind (panicked, t) e = e

  pub then-Bare :
      {B : Type 0} {m : Program State (Unit {0})} {k : Program State B}
      → Bare server m
      → Bare server k
      → Bare server (m >> k)
  then-Bare h k = record { led = λ s. (bind-Bare h (λ _. k)).led s }

  pub if-Bare :
      {A : Type 0} {m k : Program State A} (b : Bool)
      → Bare server m
      → Bare server k
      → Bare server (if b then m else k)
  if-Bare true h k = h
  if-Bare false h k = k

  pub fail-Bare : {A : Type 0} (e : Answer) → Bare server {A = A} (fail e)
  fail-Bare e = record { led = λ s e. e }

  pub event-Bare : (e : String) → Bare server (record_event e)
  event-Bare e = record { led = λ s e. e }

  pub get_status-Bare : Bare server get_status
  get_status-Bare = record { led = λ s e. e }

  pub get_phase-Bare : Bare server get_phase
  get_phase-Bare = record { led = λ s e. e }

  pub vm_phase-Bare : (p : Phase) → Bare server (set_vm_phase p)
  vm_phase-Bare p = record { led = λ s e. e }

  pub phase-Bare : (p : SnapshotPhase) → Bare server (set_phase p)
  phase-Bare p = record { led = λ s e. e }

  pub memory-Bare :
      (f : SnapshotStatus → MemoryStatus) → Bare server (modify (λ s. record s { memory = f s }))
  memory-Bare f = record { led = λ s e. e }

  pub must-Bare : (a : Answer) → Bare server (must a)
  must-Bare done = return-Bare tt
  must-Bare not_found = fail-Bare not_found
  must-Bare already_exists = fail-Bare already_exists
  must-Bare conflict = fail-Bare conflict
  must-Bare failed = fail-Bare failed

  pub must_or_exists-Bare : (a : Answer) → Bare server (must_or_exists a)
  must_or_exists-Bare done = return-Bare tt
  must_or_exists-Bare not_found = fail-Bare not_found
  must_or_exists-Bare already_exists = return-Bare tt
  must_or_exists-Bare conflict = fail-Bare conflict
  must_or_exists-Bare failed = fail-Bare failed

  pub call-Bare : (r : Request) → Bare server (call server r)
  call-Bare r = record { led = λ s e. e }

  pub fetch-Bare : {A : Type 0} (r : Request) (read : Trace → A) → Bare server (fetch server r read)
  fetch-Bare r read = record { led = λ s e. e }

  pub text-Bare : Bare server (error_text server)
  text-Bare = record { led = λ s e. e }

  pub succeeds-Bare : {m : Program State (Unit {0})} → Bare server m → Bare server (succeeds m)
  unfolding succeeds
  succeeds-Bare {m} h = record { led = λ s e. behind (m s) (h.led s e) }
    where
      behind :
          (r : Result (Unit {0}) × State)
          → r.1.0.status.disks ≡ []
          → (succeeds (λ s. r) r.1).1.0.status.disks ≡ []
      behind (ok a, t) e = e
      behind (err x, t) e = e
      behind (panicked, t) e = e

pub ruleset bare = (
  return-Bare, bind-Bare, then-Bare, if-Bare, fail-Bare, event-Bare, get_status-Bare,
  get_phase-Bare, vm_phase-Bare, phase-Bare, memory-Bare, must-Bare, must_or_exists-Bare, call-Bare,
  fetch-Bare, text-Bare, succeeds-Bare,
)

module _ (server : Server) (vm : Vm) (st : ch_vmm.Daemon.Status) (snap : Snapshot) where
  taken_if-Bare : (a : Answer) → Bare server (taken_if server vm st snap a)
  unfolding taken_if
  taken_if-Bare done = search bare
  taken_if-Bare not_found = search bare
  taken_if-Bare already_exists = search bare
  taken_if-Bare conflict = search bare
  taken_if-Bare failed = search bare

  upload_if-Bare : (a : Answer) → Bare server (upload_if server vm st snap a)
  unfolding upload_if
  upload_if-Bare done = search bare
  upload_if-Bare not_found = search bare
  upload_if-Bare already_exists = search bare
  upload_if-Bare conflict = search bare
  upload_if-Bare failed = search bare

  archive_if-Bare : (a : Answer × List String) → Bare server (archive_if server vm st snap a)
  unfolding archive_if
  archive_if-Bare (done, n) = search (bare, upload_if-Bare)
  archive_if-Bare (not_found, n) = search bare
  archive_if-Bare (already_exists, n) = search bare
  archive_if-Bare (conflict, n) = search bare
  archive_if-Bare (failed, n) = search bare

  stored_if-Bare : (a : String × Answer × String) → Bare server (stored_if server vm st snap a)
  unfolding stored_if
  stored_if-Bare (k, done, n) = search bare
  stored_if-Bare (k, not_found, n) = search bare
  stored_if-Bare (k, already_exists, n) = search bare
  stored_if-Bare (k, conflict, n) = search bare
  stored_if-Bare (k, failed, n) = search bare

  store_if-Bare : (a : Answer × String) → Bare server (store_if server vm st snap a)
  unfolding store_if upload_to_bucket
  store_if-Bare (done, n) = search (bare, archive_if-Bare, stored_if-Bare)
  store_if-Bare (not_found, n) = search bare
  store_if-Bare (already_exists, n) = search bare
  store_if-Bare (conflict, n) = search bare
  store_if-Bare (failed, n) = search bare

  take_memory-Bare : Bare server (take_memory server vm st snap)
  unfolding take_memory ch_snapshot
  take_memory-Bare = search (bare, taken_if-Bare, store_if-Bare)

  module _ (made : (t : Trace) (n : String) → server.answer t (get_disk n) ≡ done) where
    take_disk-Bare : (n : NewDisk) → Bare server (take_disk server vm st snap n)
    unfolding take_disk make_if
    take_disk-Bare n = record { led = λ (m, t) e. rw (made t n.name, take_disk, make_if) e }

    snapshot_disks-Bare : (vs : List Volume) → Bare server (snapshot_disks server vm st snap vs)
    unfolding snapshot_disks
    snapshot_disks-Bare [] = search bare
    snapshot_disks-Bare (v ∷ vs) = by_source v.source.virtual_disk (snapshot_disks-Bare vs)
      where
        by_source :
            (o : Option VirtualDiskVmSource)
            → Bare server (snapshot_disks server vm st snap vs)
            → Bare server (elim o [
              | none ↦ snapshot_disks server vm st snap vs
              | some d ↦
                  take_disk server vm st snap (new_disk vm snap v d.virtual_disk_name)
                  >> snapshot_disks server vm st snap vs
            ])
        by_source none rest = rest
        by_source (some d) rest = then-Bare (take_disk-Bare _) rest

    take-Bare : Bare server (take server vm st snap)
    unfolding take
    take-Bare = search (bare, take_memory-Bare, snapshot_disks-Bare)

    then_remove-Bare :
        {m : Program State (Unit {0})}
        → Bare server m
        → Bare server (then_remove server vm st snap m)
    unfolding then_remove
    then_remove-Bare h = record { led = λ s e. h.led s e }

    take_in-Bare : (a : Answer) → Bare server (take_in server vm st snap a)
    unfolding take_in
    take_in-Bare not_found = search (bare, then_remove-Bare, take-Bare)
    take_in-Bare done = take-Bare
    take_in-Bare already_exists = take-Bare
    take_in-Bare conflict = take-Bare
    take_in-Bare failed = take-Bare

    pub create_snapshot-Bare : Bare server (create_snapshot server vm st snap)
    unfolding create_snapshot
    create_snapshot-Bare = search (bare, take_in-Bare)

  pub spec-Bare : Bare server (create_spec server vm st snap)
  unfolding create_spec
  spec-Bare = search bare
