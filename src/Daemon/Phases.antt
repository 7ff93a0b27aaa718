-- ===== src/Daemon/Phases.antt =====
-- pkg/daemon/vm_controller.go: what the daemon does for a machine in each of its phases.
use ch_vmm.Prelude.{
  ℕ, ◌*◌, ◌%◌, ◌^◌, String, Bool, true, false, not, ◌||◌, List, [], ◌∷◌, Option, none, some,
  if◌then◌else◌, str_eq, ◌==◌,
}
use ch_vmm.Prelude.Int64.{add64, sub64, lt64}
use ch_vmm.Api.{Volume}
use ch_vmm.Controller.Program.{Answer, done, not_found, Program, ◌>>=◌, ◌>>◌, return, fail, must}
use ch_vmm.Daemon.{
  Vm, Phase, PowerAction, Pod, Call, VmmState, VmInfo, VmConfig, stat, vmm, info, boot, pause,
  resume, create, resize, restore, open_file, decode_config, pid_of, lock_memory, Server, Node,
  State, get_status, modify, set_phase, record_event, call, fetch, join, data_dir, memory_dir,
  socket,
}
use ch_vmm.Daemon.Mounts.{mount_volumes}
use ch_vmm.Daemon.Umounts.{cleanup}
use ch_vmm.Daemon.Plugs.{reconcile_volumes}
use ch_vmm.Daemon.Migrate.{migrate}

pub restores : List Volume → Bool
restores [] = false
restores (v ∷ vs) = str_eq v.name "memory" || restores vs

-- The cores that a machine is to have, a product of 32-bit words.
pub desired_vcpus : Vm → ℕ
desired_vcpus vm = (vm.sockets * vm.cores) % 2 ^ 32

-- The distance of two `int64`.
pub distance : ℕ → ℕ → ℕ
distance a b = let d = sub64 a b in if lt64 d 0 then sub64 0 d else d

pub needs_resize : Node → Vm → VmInfo → Bool
unfolding desired_vcpus distance
needs_resize node vm i =
    not (i.boot_vcpus == desired_vcpus vm)
    || lt64 (node.twentieth vm.memory) (distance i.actual_memory vm.memory)

-- The call of the hypervisor for an action, and the events for its outcomes; none for another.
pub power_call : PowerAction → Option (Call × String × String)
power_call PowerAction.power_off = some (Call.power_button, "VMPoweredOff", "FailedVMPowerOff")
power_call PowerAction.shutdown = some (Call.shutdown, "VMShutdown", "FailedVMShutdown")
power_call PowerAction.reset = some (Call.reboot, "VMReset", "FailedVMReset")
power_call PowerAction.reboot = some (Call.reboot, "VMRebooted", "FailedVMReboot")
power_call _ = none

abbrev pub is_idle : PowerAction → Bool
is_idle PowerAction.no_action = true
is_idle _ = false

module _ (server : Server) (node : Node) (vm : Vm) where
  abbrev M : Type 0 → Type 0
  M A = Program State A

  -- A call of the machine's hypervisor.
  unfoldable pub ask : Call → M Answer
  ask c = do status ← get_status; call server (vmm (socket status) c)

  unfoldable pub get_info : M (Answer × VmInfo)
  get_info = do status ← get_status; fetch server (vmm (socket status) info) server.info

  -- Events for the outcomes of a call, of which the error is dropped.
  unfoldable pub tell : Answer → String → String → M (Unit {0})
  tell done success failure = record_event success
  tell e success failure = record_event failure

  -- An event before an error is returned.
  unfoldable pub must_or_tell : Answer → String → M (Unit {0})
  must_or_tell done failure = return tt
  must_or_tell e failure = do record_event failure; fail e

  unfoldable pub reconcile_restoring : M (Unit {0})
  unfolding ask must_or_tell
  reconcile_restoring = do
    status ← get_status
    prepared ← call server (stat (join (memory_dir status) "snap/done.txt"))
    must_or_tell prepared "PrerunnerStage"
    restored ← ask restore
    must_or_tell restored "VMRestoreFailed"
    set_phase Phase.resumed

  unfoldable pub open_if : Answer → M (Unit {0})
  open_if done = return tt
  open_if not_found = do record_event "PrerunnerStage"; fail Answer.failed
  open_if e = fail e

  unfoldable pub lock_if : VmConfig → M (Unit {0})
  lock_if c =
      if c.has_devices || c.has_vdpa
      then (do locked ← call server (lock_memory (add64 c.memory (2 ^ 30))); must locked)
      else return tt

  unfoldable pub boot_vm : M (Unit {0})
  unfolding ask
  boot_vm = do booted ← ask boot; must booted; record_event "VMBooted"

  unfoldable pub create_vm : M (Unit {0})
  unfolding open_if lock_if boot_vm ask data_dir join
  create_vm = do
    status ← get_status
    opened ← call server (open_file (join (data_dir status) "vm-config.json"))
    open_if opened
    config ← fetch server (decode_config (join (data_dir status) "vm-config.json")) server.config
    must config.0
    process ← call server (pid_of (socket status))
    must process
    lock_if config.1
    created ← ask (create config.1)
    must created
    record_event "VMCreated"
    boot_vm

  unfoldable pub follow_created : VmmState → M (Unit {0})
  unfolding boot_vm
  follow_created VmmState.created = boot_vm
  follow_created VmmState.running = set_phase Phase.running
  follow_created VmmState.paused = set_phase Phase.paused
  follow_created VmmState.shutdown = set_phase Phase.failed
  follow_created s = return tt

  unfoldable pub start_if : Answer × VmInfo → M (Unit {0})
  unfolding create_vm follow_created
  start_if (done, i) = follow_created i.state
  start_if (not_found, i) = create_vm
  start_if (e, i) = fail e

  unfoldable pub reconcile_scheduled : M (Unit {0})
  unfolding start_if get_info restores
  reconcile_scheduled = do
    mount_volumes server node vm "" ""
    if restores vm.volumes
        then set_phase Phase.restoring
        else (do answered ← get_info; start_if answered)

  unfoldable pub pause_if : VmmState → M (Unit {0})
  unfolding ask tell
  pause_if VmmState.running = do paused ← ask pause; tell paused "VMPaused" "FailedVMPause"
  pause_if s = return tt

  unfoldable pub reconcile_paused : M (Unit {0})
  unfolding pause_if get_info
  reconcile_paused = do answered ← get_info; must answered.0; pause_if answered.1.state

  unfoldable pub resume_if : VmmState → M (Unit {0})
  unfolding ask must_or_tell
  resume_if VmmState.paused = do
    resumed ← ask resume
    must_or_tell resumed "FailedResume"
    record_event "VMResumed"
    set_phase Phase.running
  resume_if s = return tt

  unfoldable pub reconcile_resumed : M (Unit {0})
  unfolding resume_if get_info
  reconcile_resumed = do answered ← get_info; must answered.0; resume_if answered.1.state

  -- The resize of a machine that runs or is paused.
  unfoldable pub resize_if : VmInfo → M (Unit {0})
  unfolding ask must_or_tell needs_resize
  resize_if i =
      if needs_resize node vm i
      then (do
        resized ← ask (resize (desired_vcpus vm) vm.memory)
        must_or_tell resized "VMResizeFailed"
        record_event "VMResizeInitiated")
      else (do set_phase Phase.running; record_event "VMResizeCompleted")

  unfoldable pub reconcile_resizing : M (Unit {0})
  unfolding resize_if get_info
  reconcile_resizing = do
    answered ← get_info
    must answered.0
    elim answered.1.state [
      | VmmState.running ↦ resize_if answered.1
      | VmmState.paused ↦ resize_if answered.1
      | _ ↦ return tt
    ]

  unfoldable pub power_if : Option (Call × String × String) → M (Unit {0})
  unfolding ask tell
  power_if none = return tt
  power_if (some (c, success, failure)) = do answered ← ask c; tell answered success failure

  -- A machine that is to be off, an action that was asked for, or the volumes.
  unfoldable pub serve : VmInfo → M (Unit {0})
  unfolding ask must_or_tell power_if power_call
  serve i = do
    status ← get_status
    if vm.halted
        then (do
          answered ← ask Call.shutdown
          must_or_tell answered "FailedVMPowerOff"
          reconcile_volumes server node vm i)
        else if is_idle status.power_action
        then reconcile_volumes server node vm i
        else (do
          power_if (power_call status.power_action)
          modify (λ s. record s { power_action = PowerAction.no_action }))

  unfoldable pub reconcile_serving : M (Unit {0})
  unfolding serve get_info
  reconcile_serving = do
    answered ← get_info
    must answered.0
    elim answered.1.state [
      | VmmState.running ↦ serve answered.1
      | VmmState.paused ↦ serve answered.1
      | _ ↦ set_phase Phase.succeeded
    ]

  -- What is done only without a migration, and on the node that has the machine.
  unfoldable pub if_here : M (Unit {0}) → M (Unit {0})
  if_here m = do
    status ← get_status
    elim status.migration [
      | some migration ↦ return tt
      | none ↦ if str_eq status.node_name node.name then m else return tt
    ]

  unfoldable pub reconcile_running : Pod → M (Unit {0})
  unfolding reconcile_serving
  reconcile_running pod = do
    status ← get_status
    elim status.migration [
      | some m ↦ migrate server node vm m pod
      | none ↦ if str_eq status.node_name node.name then reconcile_serving else return tt
    ]

  unfoldable pub reconcile_phase : Phase → Pod → M (Unit {0})
  unfolding reconcile_restoring reconcile_scheduled reconcile_paused reconcile_resumed
      reconcile_resizing reconcile_running if_here
  reconcile_phase Phase.restoring pod = reconcile_restoring
  reconcile_phase Phase.scheduled pod = reconcile_scheduled
  reconcile_phase Phase.paused pod = if_here reconcile_paused
  reconcile_phase Phase.resumed pod = if_here reconcile_resumed
  reconcile_phase Phase.resizing pod = if_here reconcile_resizing
  reconcile_phase Phase.running pod = reconcile_running pod
  reconcile_phase Phase.succeeded pod = cleanup server node vm
  reconcile_phase Phase.failed pod = cleanup server node vm
  reconcile_phase p pod = return tt
