-- ===== src/Tests/Daemons.antt =====
-- The daemon on concrete input.
use ch_vmm.Prelude.{◌⊎◌, ◌<◌, ◌≡◌, ◌≢◌, ◌↔◌, refl, true, false, [], ◌∷◌, none, some, arith}
use ch_vmm.Controller.Names.{Name, codes}
use ch_vmm.Controller.Program.{panicked, Answer, done, not_found, ok}
use ch_vmm.Controller.Machine.{PodPhase}
use ch_vmm.Daemon.{
  Phase, MigrationPhase, PowerAction, Migration, Status, Vm, VmmState, Request, stat, Server, Node,
  State,
}
use ch_vmm.Daemon.Numbers.{
  device_numbers, fields, split_fields, in_first, parse_int32, scan_some, scan_base, digit_value,
  in_bound, minus, both,
}
use ch_vmm.Daemon.Numbers.Bases.{block_rule, rule_if-block_rule}
use ch_vmm.Daemon.Cgroup.{numbers_of, new_manager, rule_if}
use ch_vmm.Daemon.Records.{add_record}
use ch_vmm.Daemon.Mounts.{mount_block}
use ch_vmm.Daemon.Plugs.{remove_disks}
use ch_vmm.Daemon.Migrate.{migrate, migrate_part, take_over, hand_over, keep_block, set_migration}
use ch_vmm.Daemon.Phases.{reconcile_phase, reconcile_running}
use ch_vmm.Daemon.Reconcile.{reconcile, report, conclude, found_vm}
use ch_vmm.Daemon.Steps.{Step, phase_in}
use ch_vmm.Daemon.Whole.{read, daemon-reconcile-Step}
use ch_vmm.Daemon.Placed.{
  Migrates, Relocates, daemon-reconcile-Migrates, daemon-reconcile-Relocates,
}
use ch_vmm.Daemon.Calls.{no_call, next_call, HasLeft, Calls-Keep}
use ch_vmm.Daemon.Volumes.{surplus, removals, mount_block-fails, remove_disks-trace}

abbrev pub status : Status
status = record {
  phase = Phase.running;
  power_action = PowerAction.no_action;
  pod_name = "vm-web-1";
  pod_uid = "p1";
  node_name = "here";
  volumes = [];
  migration = none;
}

abbrev pub vm : Vm
vm = record {
  name = "web";
  uid = "u1";
  deleting = false;
  halted = false;
  volumes = [];
  sockets = 1;
  cores = 2;
  memory = 1024;
}

-- A migration to this node that has been sent.
abbrev migration : Migration
migration = record {
  phase = MigrationPhase.sent;
  target_node = "here";
  target_ip = "10.0.0.2";
  target_port = 4000;
  target_pod_name = "vm-web-2";
  target_pod_uid = "p2";
  target_volume_pod_uid = "";
}

abbrev pub node : Node
node = record {
  name = "here";
  ip = "10.0.0.2";
  is_hotpluggable = λ v. false;
  contains = λ s t. false;
  has_prefix = λ s t. false;
  twentieth = λ n. 51;
  patience = 3;
  is_unified = true;
  decimal = λ n. "0";
}

-- The hypervisor runs the machine with two disks; no file is there, and all else succeeds.
abbrev answer_to : Request → Answer
answer_to (stat path) = not_found
answer_to r = done

abbrev pub server : Server
server = record {
  answer = λ t r. answer_to r;
  pod = λ t. record { phase = PodPhase.running; deleting = false };
  claim_is_block = λ t. true;
  info = λ t. record {
    state = VmmState.running;
    boot_vcpus = 2;
    actual_memory = 1024;
    disks = "a" ∷ "b" ∷ [];
  };
  config = λ t. record { has_devices = false; has_vdpa = false; memory = 1024 };
  pid = λ t. 7;
  records = λ t. [];
  output = λ t. codes "fd,3,660,block special file";
  mounts = λ t. [];
  mounted = λ t. false;
  port = λ t. 4000;
}

abbrev start : State
start = (record { status = status; block = none }, [])

abbrev moving : State
moving = (
  record {
    status = record status { node_name = "there"; migration = some migration };
    block = none;
  },
  [],
)

-- The target takes the machine over.
moved : (reconcile server node vm moving).1.0.status.node_name ≡ "here"
unfolding reconcile reconcile_phase reconcile_running migrate migrate_part take_over hand_over
    keep_block report conclude set_migration found_vm
moved = refl

daemon-reconcile-Step_example :
    Step false Phase.running (phase_in (reconcile server node vm start).1)
daemon-reconcile-Step_example = daemon-reconcile-Step server node vm start

daemon-reconcile-Migrates_example :
    Migrates server node vm moving.0.status (reconcile server node vm moving).1.0.status
daemon-reconcile-Migrates_example = daemon-reconcile-Migrates server node vm moving

daemon-reconcile-Relocates_example :
    Relocates server node vm
      (read moving).1
      moving.0.status
      (reconcile server node vm moving).1.0.status
daemon-reconcile-Relocates_example = daemon-reconcile-Relocates server node vm moving

-- The device of a logical volume, which `stat` writes in base 16.
abbrev output : Name
output = codes "fd,3,660,block special file"

numbers : device_numbers 16 output ≡ some (253, 3)
unfolding device_numbers fields split_fields in_first parse_int32 scan_some scan_base digit_value
    in_bound minus both codes
numbers = refl

-- The same in base 26.
other_numbers : device_numbers 26 output ≡ some (403, 3)
unfolding device_numbers fields split_fields in_first parse_int32 scan_some scan_base digit_value
    in_bound minus both codes
other_numbers = refl

rule_if-block_rule_example :
    ((rule_if server node vm done "/dev/dm-3" start).0 ≡ ok (block_rule 253 3 ∷ []))
    ↔ ((253 < 16) × (3 < 16))
rule_if-block_rule_example =
    rule_if-block_rule server node vm "/dev/dm-3" start 253 3 refl numbers (omega arith)
      (omega arith)

-- The call of a method of the manager that is not there panics.
panics : (mount_block server node vm "data" "p1" "p2" [] start).0 ≡ panicked
unfolding mount_block numbers_of device_numbers codes add_record new_manager
panics = refl

mount_block-fails_example : (mount_block server node vm "data" "p1" "p2" [] start).0 ≢ ok []
mount_block-fails_example =
    mount_block-fails server node vm (λ t s. refl) "data" "p1" "p2" [] [] start

remove_disks-trace_example : remove_disks server node vm ("a" ∷ "b" ∷ []) start ≡ (
  ok tt,
  (start.0, removals server node vm status (surplus server node vm ("a" ∷ "b" ∷ [])) []),
)
remove_disks-trace_example =
    remove_disks-trace server node vm start.0 (λ t d. refl) ("a" ∷ "b" ∷ []) []

-- This node's daemon calls, for a machine that is sent from there.
Calls-Keep_example :
    HasLeft (reconcile server node vm moving).1.0.status
    ⊎ ((reconcile server node vm moving).1.0.status.node_name ≡ "there")
Calls-Keep_example =
    Calls-Keep vm moving.0.status (reconcile server node vm moving).1.0.status
      (next_call server node none [] no_call)
