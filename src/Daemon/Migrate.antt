-- ===== src/Daemon/Migrate.antt =====
-- pkg/daemon/vm_controller.go: the migration of a running machine, of which the daemons of both nodes
-- do their parts.
use mathlib.Core.Option
use ch_vmm.Prelude.{
  ℕ, zero, suc, String, Bool, true, false, Option, none, some, if◌then◌else◌, str_eq,
}
use ch_vmm.Controller.Program.{
  Answer, done, not_found, ok, Program, ◌>>=◌, ◌>>◌, return, fail, must,
}
use ch_vmm.Controller.Machine.{PodPhase}
use ch_vmm.Daemon.{
  Vm, Migration, MigrationPhase, scheduled, target_ready, running, sent, ControlBlock, Pod,
  VmmState, stat, vmm, info, load_ca, relay_in, relay_out, start_receive, start_send, poll_received,
  poll_sent, cancel_receive, cancel_send, Server, Node, State, get_status, modify, record_event,
  call, fetch, join, pod_dir, data_dir,
}
use ch_vmm.Daemon.Mounts.{mount_volumes}
use ch_vmm.Daemon.Umounts.{cleanup}

abbrev pub empty_block : ControlBlock
empty_block = record {
  sending = false;
  can_cancel_send = false;
  receiving = false;
  can_cancel_receive = false;
}

-- The directory of the target's hypervisor, and its socket.
pub target_dir : Migration → String
unfolding pod_dir
target_dir m = pod_dir m.target_pod_uid "ch-vmm"

pub target_socket : Migration → String
unfolding target_dir join
target_socket m = join (target_dir m) "vm.sock"

pub receive_socket : Migration → String
unfolding target_dir join
receive_socket m = join (target_dir m) "rx.sock"

-- Whether the control block is dropped: the migration is over for this node.
abbrev pub is_over : MigrationPhase → Bool → Bool
is_over MigrationPhase.failed here = true
is_over MigrationPhase.succeeded here = true
is_over MigrationPhase.sent here = here
is_over p here = false

module _ (server : Server) (node : Node) (vm : Vm) where
  abbrev M : Type 0 → Type 0
  M A = Program State A

  unfoldable pub set_migration : (Migration → Migration) → M (Unit {0})
  set_migration f = modify (λ s. record s { migration = Option.map f s.migration })

  abbrev pub set_migration_phase : MigrationPhase → M (Unit {0})
  set_migration_phase p = set_migration (λ m. record m { phase = p })

  -- `wait.PollImmediate` for a file, which ends also by an error: whether it was seen.
  unfoldable pub await_file : ℕ → String → M Bool
  await_file zero path = return false
  await_file (suc rounds) path = do
    answered ← call server (stat path)
    elim answered [ done ↦ return true | not_found ↦ await_file rounds path | _ ↦ return false ]

  -- The same for the socket of a receiver, unless it reports an error.
  unfoldable pub await_receiver : ℕ → String → M Bool
  await_receiver zero path = return false
  await_receiver (suc rounds) path = do
    polled ← call server poll_received
    elim polled [
      | done ↦ do
        answered ← call server (stat path)
        elim answered [
          | done ↦ return true
          | not_found ↦ await_receiver rounds path
          | _ ↦ return false
        ]
      | _ ↦ return false
    ]

  -- A migration that fails here ends the call; the control block is left as it was.
  unfoldable pub fail_migration : M (Option ControlBlock)
  fail_migration = do
    record_event "FailedVMMigrate"
    set_migration_phase MigrationPhase.failed
    return none

  -- The relay to the receiver, and the volumes.
  unfoldable pub prepare_target : Migration → ControlBlock → M (Option ControlBlock)
  unfolding receive_socket
  prepare_target m b = do
    loaded ← call server load_ca
    must loaded
    relayed ← fetch server (relay_in (receive_socket m)) server.port
    must relayed.0
    mount_volumes server node vm m.target_pod_uid m.target_volume_pod_uid
    set_migration (λ m'. record m' {
      target_port = relayed.1;
      target_ip = node.ip;
      phase = MigrationPhase.target_ready;
    })
    return (some b)

  unfoldable pub receive_if : Answer → Migration → ControlBlock → M (Option ControlBlock)
  unfolding prepare_target await_receiver fail_migration target_socket receive_socket
  receive_if done m b = prepare_target m b
  receive_if not_found m b = do
    _ ← call server (start_receive (target_socket m))
    came ← await_receiver node.patience (receive_socket m)
    if came then prepare_target m (record b { receiving = true }) else fail_migration
  receive_if e m b = fail e

  unfoldable pub receive : Migration → ControlBlock → M (Option ControlBlock)
  unfolding await_file receive_if fail_migration target_socket receive_socket
  receive m b = do
    came ← await_file node.patience (target_socket m)
    if came
        then (do
          answered ← call server (stat (receive_socket m))
          receive_if answered m (record b { can_cancel_receive = true }))
        else fail_migration

  unfoldable pub send : Migration → ControlBlock → M (Option ControlBlock)
  unfolding data_dir join
  send m b = do
    status ← get_status
    relayed ← call server (relay_out (join (data_dir status) "tx.sock") m.target_ip m.target_port)
    must relayed
    _ ← call server (start_send (join (data_dir status) "vm.sock"))
    set_migration_phase MigrationPhase.running
    return (some (record b { can_cancel_send = true; sending = true }))

  unfoldable pub finish_sending : ControlBlock → M (Option ControlBlock)
  finish_sending b =
      if b.can_cancel_send
      then (do _ ← call server cancel_send; return (some b))
      else return (some b)

  unfoldable pub sent_if : Answer → ControlBlock → M (Option ControlBlock)
  unfolding finish_sending
  sent_if done b = return none
  sent_if e b = do
    record_event "FailedVMMigrate"
    set_migration_phase MigrationPhase.failed
    finish_sending b

  unfoldable pub follow_sending : PodPhase → ControlBlock → M (Option ControlBlock)
  unfolding finish_sending sent_if
  follow_sending PodPhase.succeeded b = do
    cleanup server node vm
    set_migration_phase MigrationPhase.sent
    finish_sending b
  follow_sending p b =
      if b.sending
      then (do polled ← call server poll_sent; sent_if polled b)
      else (do set_migration_phase MigrationPhase.failed; finish_sending b)

  -- The machine moves to the target.
  unfoldable pub hand_over : Migration → ControlBlock → M (Option ControlBlock)
  hand_over m b = do
    set_migration_phase MigrationPhase.succeeded
    modify (λ s. record s {
      node_name = m.target_node;
      pod_name = m.target_pod_name;
      pod_uid = m.target_pod_uid;
    })
    if b.can_cancel_receive
        then (do _ ← call server cancel_receive; return (some b))
        else return (some b)

  unfoldable pub take_over : Migration → ControlBlock → M (Option ControlBlock)
  unfolding hand_over target_socket
  take_over m b = do
    answered ← fetch server (vmm (target_socket m) info) server.info
    must answered.0
    elim answered.1.state [ VmmState.running ↦ hand_over m b | _ ↦ return none ]

  -- The part of this node, by the phase of the migration.
  unfoldable pub migrate_part :
      MigrationPhase → Bool → Bool → Migration → PodPhase → ControlBlock → M (Option ControlBlock)
  unfolding receive send follow_sending take_over
  migrate_part scheduled here there m pod b = if there then receive m b else return (some b)
  migrate_part target_ready here there m pod b = if here then send m b else return (some b)
  migrate_part running here there m pod b = if here then follow_sending pod b else return (some b)
  migrate_part sent here there m pod b = if there then take_over m b else return (some b)
  migrate_part p here there m pod b = return (some b)

  abbrev pub set_block : Option ControlBlock → M (Unit {0})
  set_block b (m, t) = (ok tt, (record m { block = b }, t))

  abbrev pub block_of : Option ControlBlock → ControlBlock
  block_of none = empty_block
  block_of (some b) = b

  abbrev pub get_block : M ControlBlock
  get_block s = (ok (block_of s.0.block), s)

  -- The end, where the control block is stored or dropped.
  unfoldable pub keep_block : Option ControlBlock → M (Unit {0})
  keep_block none = return tt
  keep_block (some b) = do
    status ← get_status
    elim status.migration [
      | none ↦ return tt
      | some m ↦
          if is_over m.phase (str_eq status.node_name node.name)
          then set_block none
          else set_block (some b)
    ]

  -- The branch of a machine that is being migrated.
  unfoldable pub migrate : Migration → Pod → M (Unit {0})
  unfolding migrate_part keep_block
  migrate m pod = do
    b ← get_block
    status ← get_status
    kept ←
        migrate_part m.phase (str_eq status.node_name node.name) (str_eq m.target_node node.name) m
          pod.phase b
    keep_block kept
