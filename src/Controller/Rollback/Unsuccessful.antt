-- ===== src/Controller/Rollback/Unsuccessful.antt =====
-- No rollback is ever marked as successful.
use ch_vmm.Prelude.{String, ◌≢◌, List, [], ◌∷◌, arith}
use ch_vmm.Api.{Volume, VirtualMachineSpec}
use ch_vmm.Api.Quantity.{Quantities}
use ch_vmm.Controller.Program.{
  Answer, done, not_found, already_exists, conflict, Result, ok, must, Program, Leads, bind-Leads,
  ◌>>=◌,
}
use ch_vmm.Controller.Rollback.{
  Phase, SnapshotDisk, MachineSnapshot, VmRollback, get_rollback, get_snapshot, get_restore,
  create_vm, update_status, Trace, Server, NewVm, call, recover_if, recover, note, recover_all,
  created, written, give_up, make_vm, with_restore, with_snapshot, roll_back, next_phase, conclude,
  finish, found_rollback, reconcile,
}

module _ {q : Quantities} where
  -- No request writes the phase of success.
  unfoldable pub NoSuccess : Trace q → Type 0
  NoSuccess [] = Unit {0}
  NoSuccess (update_status p ∷ t) = (p ≢ Phase.succeeded) × NoSuccess t
  NoSuccess (r ∷ t) = NoSuccess t

module _ {q : Quantities} (server : Server q) where
  -- A program that writes no success.
  abbrev Harmless : {A : Type 0} → Program (Trace q) A → Type 0
  Harmless m = Leads NoSuccess NoSuccess m

  bind-Harmless :
      {A B : Type 0} {m : Program (Trace q) A} {f : A → Program (Trace q) B}
      → Harmless m
      → ((a : A) → Harmless (f a))
      → Harmless (m >>= f)
  bind-Harmless h k = record { led = λ t. (bind-Leads h k (λ s e. e)).led t }

  recover-Harmless : (d : SnapshotDisk) → Harmless (recover server d)
  unfolding recover recover_if NoSuccess
  recover-Harmless d = record { led = λ t h. ground arith }

  note-Harmless :
      (a : Answer) (d : SnapshotDisk) (n : List Volume × Answer) → Harmless (note server a d n)
  unfolding note NoSuccess
  note-Harmless a d n = record { led = λ t h. ground arith }

  recover_all-Harmless :
      (ds : List SnapshotDisk) (n : List Volume × Answer) → Harmless (recover_all server ds n)
  unfolding recover_all
  recover_all-Harmless [] n = record { led = λ t h. h }
  recover_all-Harmless (d ∷ ds) n =
      bind-Harmless (recover-Harmless d)
        (λ a. bind-Harmless (note-Harmless a d n) (recover_all-Harmless ds))

  give_up-Harmless : (reason : String) → Harmless (give_up server reason)
  unfolding give_up written NoSuccess
  give_up-Harmless reason = record { led = λ t h. ground arith }

  create-Harmless : (vm : NewVm q) → Harmless (call server (create_vm vm) >>= created server)
  unfolding created NoSuccess
  create-Harmless vm = record { led = λ t h. ground arith }

  must-Harmless : (a : Answer) → Harmless (must a)
  must-Harmless a = record { led = λ t h. ground arith }

  make_vm-Harmless :
      (snapshot : String) (s : MachineSnapshot) (spec : VirtualMachineSpec q)
      → Harmless (make_vm server snapshot s spec)
  unfolding make_vm
  make_vm-Harmless snapshot s spec =
      bind-Harmless (recover_all-Harmless s.disks _)
        (λ noted. bind-Harmless (must-Harmless noted.1) (λ _. create-Harmless _))

  with_restore-Harmless :
      (a : Answer) (snapshot : String) (s : MachineSnapshot) (spec : VirtualMachineSpec q)
      → Harmless (with_restore server a snapshot s spec)
  unfolding with_restore
  with_restore-Harmless done snapshot s spec = make_vm-Harmless snapshot s spec
  with_restore-Harmless not_found snapshot s spec = give_up-Harmless "MissingRestoreSpec"
  with_restore-Harmless already_exists snapshot s spec = give_up-Harmless "MissingRestoreSpec"
  with_restore-Harmless conflict snapshot s spec = give_up-Harmless "MissingRestoreSpec"
  with_restore-Harmless Answer.failed snapshot s spec = give_up-Harmless "MissingRestoreSpec"

  with_snapshot-Harmless :
      (a : Answer) (snapshot : String) (s : MachineSnapshot)
      → Harmless (with_snapshot server a snapshot s)
  unfolding with_snapshot NoSuccess
  with_snapshot-Harmless done snapshot s = record {
    led = λ t h.
        (with_restore-Harmless (server.answer t (get_restore snapshot)) snapshot s
            (server.restore t)).led
          (get_restore snapshot ∷ t) h;
  }
  with_snapshot-Harmless not_found snapshot s = give_up-Harmless "MissingSnapshot"
  with_snapshot-Harmless already_exists snapshot s = give_up-Harmless "MissingSnapshot"
  with_snapshot-Harmless conflict snapshot s = give_up-Harmless "MissingSnapshot"
  with_snapshot-Harmless Answer.failed snapshot s = give_up-Harmless "MissingSnapshot"

  roll_back-Harmless : (snapshot : String) → Harmless (roll_back server snapshot)
  unfolding roll_back NoSuccess
  roll_back-Harmless snapshot = record {
    led = λ t h.
        (with_snapshot-Harmless (server.answer t (get_snapshot snapshot)) snapshot
            (server.snapshot t)).led
          (get_snapshot snapshot ∷ t) h;
  }

  next_phase-ne-succeeded : (p : Phase) → p ≢ Phase.succeeded → next_phase p ≢ Phase.succeeded
  unfolding next_phase
  next_phase-ne-succeeded p h = ground arith

  finish-Harmless :
      (p : Phase) (r : Result (Unit {0})) → p ≢ Phase.succeeded → Harmless (finish server p r)
  unfolding finish conclude NoSuccess
  finish-Harmless p r n = record { led = λ t h. ground (arith, next_phase-ne-succeeded p n) }

  -- Whatever the server answers, the reconciler of a rollback that is not marked as successful never
  -- writes that it is.
  pub reconcile-NoSuccess :
      (v : VmRollback) (t : Trace q)
      → v.phase ≢ Phase.succeeded
      → NoSuccess t
      → NoSuccess (reconcile server v t).1
  unfolding reconcile found_rollback NoSuccess
  reconcile-NoSuccess v t n h =
      let asked : Trace q = get_rollback ∷ t in
      let left = roll_back server v.snapshot asked in
      ground (
        arith,
        (finish-Harmless v.phase (ok tt) n).led asked h,
        (finish-Harmless v.phase left.0 n).led left.1 ((roll_back-Harmless v.snapshot).led asked h),
      )
