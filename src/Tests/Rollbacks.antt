-- ===== src/Tests/Rollbacks.antt =====
-- The reconciler of rollbacks on concrete input.
use ch_vmm.Prelude.{◌≡◌, ◌≢◌, refl, [], ◌∷◌, arith}
use ch_vmm.Api.{VirtualMachineSpec}
use ch_vmm.Controller.Program.{done, ok, settled}
use ch_vmm.Controller.Rollback.{
  Phase, MachineSnapshot, VmRollback, Server, reconcile, found_rollback, finish, roll_back,
  with_snapshot, with_restore, make_vm, recover_all, recover, recover_if, note, created, conclude,
  next_phase, other_volumes, claim_volume, memory_volume,
}
use ch_vmm.Controller.Rollback.Unsuccessful.{NoSuccess, reconcile-NoSuccess}
use ch_vmm.Tests.Machines.{numbers, vm}

-- A snapshot with one disk.
abbrev taken : MachineSnapshot
taken = record {
  vm_name = "web";
  disks = record { name = "root"; snapshot_name = "root-s-snapshot" } ∷ [];
  bucket = "b";
  object_key = "k";
}

-- A server that does all it is asked.
abbrev willing : VirtualMachineSpec numbers → Server numbers
willing spec = record { answer = λ t r. done; snapshot = λ t. taken; restore = λ t. spec }

abbrev rollback : VmRollback
rollback = record { phase = Phase.scheduled; snapshot = "s" }

rollback-ne-succeeded : rollback.phase ≢ Phase.succeeded
rollback-ne-succeeded = ground arith

reconcile-NoSuccess_example : NoSuccess (reconcile (willing vm.spec) rollback []).1
unfolding NoSuccess
reconcile-NoSuccess_example =
    reconcile-NoSuccess (willing vm.spec) rollback [] rollback-ne-succeeded tt

-- The machine is made, and the rollback stays as it is.
rolled_back : (reconcile (willing vm.spec) rollback []).0 ≡ ok settled
unfolding reconcile found_rollback finish roll_back with_snapshot with_restore make_vm recover_all
    recover recover_if note created conclude next_phase other_volumes claim_volume memory_volume
rolled_back = refl
