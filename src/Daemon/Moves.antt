-- ===== src/Daemon/Moves.antt =====
-- The migration of a machine: its phases, and when the machine changes its node.
use mathlib.Core.Option
use ch_vmm.Prelude.{
  ℕ, zero, suc, String, ◌≡◌, refl, ap, ◌⊎◌, inl, inr, Bool, true, false, Option, none, some,
  if◌then◌else◌, str_eq,
}
use ch_vmm.Controller.Program.{
  Answer, done, not_found, already_exists, conflict, Program, return, return-Keeps, bind-Keeps,
  must-Keeps, if-Keeps, Keeps-coarser, Changes, Keeps-Changes, bind-Changes, then-Changes,
  if-Changes, ◌>>=◌, ◌>>◌,
}
use ch_vmm.Controller.Machine.{PodPhase}
use ch_vmm.Daemon.{
  Vm, VmmState, Status, Migration, MigrationPhase, scheduled, target_ready, running, sent,
  succeeded, failed, ControlBlock, Pod, vmm, info, Server, Node, State, modify, call, poll_sent,
  stat, relay_in, start_send, start_receive, join, data_dir,
}
use ch_vmm.Daemon.Frame.{
  Frames, frames, fail-Frames, event-Frames, get_status-Frames, call-Frames, fetch-Frames,
}
use ch_vmm.Daemon.Frame.Mounted.{cleanup-Frames, mount_volumes-Frames}
use ch_vmm.Daemon.Migrate.{
  set_migration, await_file, await_receiver, fail_migration, prepare_target, receive_if, receive,
  send, finish_sending, sent_if, follow_sending, hand_over, take_over, migrate_part, keep_block,
  migrate, target_socket, receive_socket, set_migration_phase, is_over, set_block, get_block,
}

-- The changes of a migration's phase that the daemons make.
pub data MigrationStep : MigrationPhase → MigrationPhase → Type 0 where
  ready : MigrationStep scheduled target_ready
  unready : MigrationStep scheduled failed
  begin : MigrationStep target_ready running
  leave : MigrationStep running sent
  lose : MigrationStep running failed
  arrive : MigrationStep sent succeeded

abbrev pub migration_in : State → Option MigrationPhase
migration_in s = Option.map (λ m. m.phase) s.0.status.migration

-- The phase of a migration that has gone a step from `p`.
abbrev pub Stepped : MigrationPhase → Option MigrationPhase → Type 0
Stepped p o = (q : MigrationPhase) × (o ≡ some q) × MigrationStep p q

abbrev pub Moves : {A : Type 0} → MigrationPhase → Program State A → Type 0
Moves p m = Changes migration_in (Stepped p) m

pub Frames-Moves : {A : Type 0} {m : Program State A} (p : MigrationPhase) → Frames m → Moves p m
Frames-Moves p h = Keeps-Changes (Keeps-coarser (λ f. Option.map (λ m. m.phase) f.2) h)

mapped :
    (p q : MigrationPhase) (f : Migration → Migration) (o : Option Migration)
    → ((m : Migration) → (f m).phase ≡ q)
    → MigrationStep p q
    → (Option.map (λ m. m.phase) (Option.map f o) ≡ Option.map (λ m. m.phase) o)
      ⊎ Stepped p (Option.map (λ m. m.phase) (Option.map f o))
mapped p q f none h st = inl refl
mapped p q f (some m) h st = inr (q, ap some (h m), st)

-- The outcomes of a look at a file, in a wait.
waited-Frames :
    {m : Program State Bool} (a : Answer)
    → Frames m
    → Frames (elim a [ done ↦ return true | not_found ↦ m | _ ↦ return false ])
waited-Frames done h = return-Keeps true
waited-Frames not_found h = h
waited-Frames already_exists h = return-Keeps false
waited-Frames conflict h = return-Keeps false
waited-Frames Answer.failed h = return-Keeps false

module _ (server : Server) (node : Node) (vm : Vm) where
  set-Moves :
      (p q : MigrationPhase) (f : Migration → Migration)
      → ((m : Migration) → (f m).phase ≡ q)
      → MigrationStep p q
      → Moves p (set_migration server node vm f)
  unfolding set_migration
  set-Moves p q f h st = record { changed = λ s. mapped p q f s.0.status.migration h st }

  pub await_file-Frames : (n : ℕ) (path : String) → Frames (await_file server node vm n path)
  unfolding await_file
  await_file-Frames zero path = search frames
  await_file-Frames (suc n) path =
      bind-Keeps (call-Frames server _) (λ a. waited-Frames a (await_file-Frames n path))

  pub await_receiver-Frames :
      (n : ℕ) (path : String) → Frames (await_receiver server node vm n path)
  unfolding await_receiver
  await_receiver-Frames zero path = search frames
  await_receiver-Frames (suc n) path = bind-Keeps (call-Frames server _) (λ polled. at_poll polled (
      bind-Keeps (call-Frames server (stat path))
        (λ a. waited-Frames a (await_receiver-Frames n path))))
    where
      at_poll :
          {m : Program State Bool} (a : Answer)
          → Frames m
          → Frames (elim a [ done ↦ m | _ ↦ return false ])
      at_poll done h = h
      at_poll not_found h = return-Keeps false
      at_poll already_exists h = return-Keeps false
      at_poll conflict h = return-Keeps false
      at_poll Answer.failed h = return-Keeps false

  pub finish_sending-Frames : (b : ControlBlock) → Frames (finish_sending server node vm b)
  unfolding finish_sending
  finish_sending-Frames b = search frames

  fail-Moves :
      (p : MigrationPhase) → MigrationStep p failed → Moves p (fail_migration server node vm)
  unfolding fail_migration
  fail-Moves p st =
      then-Changes (Frames-Moves p (event-Frames _))
        (then-Changes (set-Moves p failed _ (λ m. refl) st) (Frames-Moves p (return-Keeps none)))

  prepare-Moves :
      (m : Migration) (b : ControlBlock) → Moves scheduled (prepare_target server node vm m b)
  unfolding prepare_target
  prepare-Moves m b = bind-Changes (Frames-Moves _ (call-Frames server _)) (λ loaded.
      then-Changes (Frames-Moves _ (must-Keeps loaded)) (
        bind-Changes
          (Frames-Moves _ (fetch-Frames server (relay_in (receive_socket m)) server.port))
          (λ relayed. then-Changes (Frames-Moves _ (must-Keeps relayed.0)) (
            then-Changes
              (Frames-Moves _
                (mount_volumes-Frames server node vm m.target_pod_uid m.target_volume_pod_uid))
              (then-Changes
                (set-Moves _ target_ready
                  (λ m'. record m' {
                    target_port = relayed.1;
                    target_ip = node.ip;
                    phase = target_ready;
                  })
                  (λ m'. refl) ready)
                (Frames-Moves _ (return-Keeps (some b))))))))

  receive_if-Moves :
      (a : Answer) (m : Migration) (b : ControlBlock)
      → Moves scheduled (receive_if server node vm a m b)
  unfolding receive_if
  receive_if-Moves done m b = prepare-Moves m b
  receive_if-Moves not_found m b =
      bind-Changes (Frames-Moves _ (call-Frames server (start_receive (target_socket m)))) (λ _.
        bind-Changes (Frames-Moves _ (await_receiver-Frames node.patience (receive_socket m)))
          (λ came.
            if-Changes came (prepare-Moves m (record b { receiving = true }))
              (fail-Moves _ unready)))
  receive_if-Moves already_exists m b = Frames-Moves _ (fail-Frames _)
  receive_if-Moves conflict m b = Frames-Moves _ (fail-Frames _)
  receive_if-Moves Answer.failed m b = Frames-Moves _ (fail-Frames _)

  receive-Moves : (m : Migration) (b : ControlBlock) → Moves scheduled (receive server node vm m b)
  unfolding receive
  receive-Moves m b =
      bind-Changes (Frames-Moves _ (await_file-Frames node.patience (target_socket m))) (λ came.
        if-Changes came
          (bind-Changes (Frames-Moves _ (call-Frames server (stat (receive_socket m))))
            (λ a. receive_if-Moves a m (record b { can_cancel_receive = true })))
          (fail-Moves _ unready))

  send-Moves : (m : Migration) (b : ControlBlock) → Moves target_ready (send server node vm m b)
  unfolding send
  send-Moves m b = bind-Changes (Frames-Moves _ get_status-Frames) (λ s.
      bind-Changes (Frames-Moves _ (call-Frames server _)) (λ relayed.
        then-Changes (Frames-Moves _ (must-Keeps relayed)) (
          bind-Changes
            (Frames-Moves _ (call-Frames server (start_send (join (data_dir s) "vm.sock"))))
            (λ _.
              then-Changes
                (set-Moves _ running (λ m'. record m' { phase = running }) (λ m'. refl) begin)
                (Frames-Moves _
                  (return-Keeps (some (record b { can_cancel_send = true; sending = true }))))))))

  failing-Moves :
      (b : ControlBlock)
      → Moves running (set_migration_phase server node vm failed >> finish_sending server node vm b)
  failing-Moves b =
      then-Changes (set-Moves _ failed _ (λ m. refl) lose)
        (Frames-Moves _ (finish_sending-Frames b))

  sent_if-Moves : (a : Answer) (b : ControlBlock) → Moves running (sent_if server node vm a b)
  unfolding sent_if
  sent_if-Moves done b = Frames-Moves _ (return-Keeps none)
  sent_if-Moves not_found b = then-Changes (Frames-Moves _ (event-Frames _)) (failing-Moves b)
  sent_if-Moves already_exists b = then-Changes (Frames-Moves _ (event-Frames _)) (failing-Moves b)
  sent_if-Moves conflict b = then-Changes (Frames-Moves _ (event-Frames _)) (failing-Moves b)
  sent_if-Moves Answer.failed b = then-Changes (Frames-Moves _ (event-Frames _)) (failing-Moves b)

  polling-Moves :
      (b : ControlBlock)
      → Moves running (
          if b.sending
          then (do polled ← call server poll_sent; sent_if server node vm polled b)
          else (do set_migration_phase server node vm failed; finish_sending server node vm b))
  polling-Moves b =
      if-Changes b.sending
        (bind-Changes (Frames-Moves _ (call-Frames server _)) (λ a. sent_if-Moves a b))
        (failing-Moves b)

  follow_sending-Moves :
      (p : PodPhase) (b : ControlBlock) → Moves running (follow_sending server node vm p b)
  unfolding follow_sending
  follow_sending-Moves PodPhase.succeeded b =
      then-Changes (Frames-Moves _ (cleanup-Frames server node vm)) (
        then-Changes (set-Moves _ sent _ (λ m. refl) leave)
          (Frames-Moves _ (finish_sending-Frames b)))
  follow_sending-Moves PodPhase.pending b = polling-Moves b
  follow_sending-Moves PodPhase.running b = polling-Moves b
  follow_sending-Moves PodPhase.failed b = polling-Moves b
  follow_sending-Moves PodPhase.unknown b = polling-Moves b

  place-Moves :
      (m : Migration)
      → Moves sent (
          modify (λ s. record s {
            node_name = m.target_node;
            pod_name = m.target_pod_name;
            pod_uid = m.target_pod_uid;
          }))
  place-Moves m = record { changed = λ s. inl refl }

  hand_over-Moves : (m : Migration) (b : ControlBlock) → Moves sent (hand_over server node vm m b)
  unfolding hand_over
  hand_over-Moves m b = then-Changes (set-Moves _ succeeded _ (λ m'. refl) arrive) (
      then-Changes (place-Moves m) (
        Frames-Moves _ (
          if-Keeps b.can_cancel_receive
            (bind-Keeps (call-Frames server _) (λ _. return-Keeps (some b)))
            (return-Keeps (some b)))))

  take_over-Moves : (m : Migration) (b : ControlBlock) → Moves sent (take_over server node vm m b)
  unfolding take_over
  take_over-Moves m b =
      bind-Changes (Frames-Moves _ (fetch-Frames server (vmm (target_socket m) info) server.info))
        (λ a. then-Changes (Frames-Moves _ (must-Keeps a.0)) (at_state a.1.state))
    where
      at_state :
          (v : VmmState)
          → Moves {A = Option ControlBlock} sent
              (elim v [ VmmState.running ↦ hand_over server node vm m b | _ ↦ return none ])
      at_state VmmState.running = hand_over-Moves m b
      at_state VmmState.created = Frames-Moves _ (return-Keeps none)
      at_state VmmState.paused = Frames-Moves _ (return-Keeps none)
      at_state VmmState.shutdown = Frames-Moves _ (return-Keeps none)
      at_state VmmState.other = Frames-Moves _ (return-Keeps none)

  migrate_part-Moves :
      (p : MigrationPhase) (here there : Bool) (m : Migration) (pod : PodPhase) (b : ControlBlock)
      → Moves p (migrate_part server node vm p here there m pod b)
  unfolding migrate_part
  migrate_part-Moves scheduled here there m pod b =
      if-Changes there (receive-Moves m b) (Frames-Moves _ (return-Keeps _))
  migrate_part-Moves target_ready here there m pod b =
      if-Changes here (send-Moves m b) (Frames-Moves _ (return-Keeps _))
  migrate_part-Moves running here there m pod b =
      if-Changes here (follow_sending-Moves pod b) (Frames-Moves _ (return-Keeps _))
  migrate_part-Moves sent here there m pod b =
      if-Changes there (take_over-Moves m b) (Frames-Moves _ (return-Keeps _))
  migrate_part-Moves succeeded here there m pod b = Frames-Moves _ (return-Keeps _)
  migrate_part-Moves failed here there m pod b = Frames-Moves _ (return-Keeps _)
  migrate_part-Moves MigrationPhase.other here there m pod b = Frames-Moves _ (return-Keeps _)

  -- The control block is no part of the status.
  pub keep_block-Frames : (o : Option ControlBlock) → Frames (keep_block server node vm o)
  unfolding keep_block
  keep_block-Frames none = return-Keeps tt
  keep_block-Frames (some b) = bind-Keeps get_status-Frames (λ s. at_migration s s.migration)
    where
      at_migration :
          (s : Status) (o : Option Migration)
          → Frames (elim o [
            | none ↦ return tt
            | some m ↦
                if is_over m.phase (str_eq s.node_name node.name)
                then set_block server node vm none
                else set_block server node vm (some b)
          ])
      at_migration s none = return-Keeps tt
      at_migration s (some m) =
          if-Keeps (is_over m.phase (str_eq s.node_name node.name)) (record { kept = λ t. refl })
            (record { kept = λ t. refl })

  pub get_block-Frames : Frames (get_block server node vm)
  get_block-Frames = record { kept = λ s. refl }

  pub migrate-Moves : (m : Migration) (pod : Pod) → Moves m.phase (migrate server node vm m pod)
  unfolding migrate
  migrate-Moves m pod = bind-Changes (Frames-Moves _ get_block-Frames) (λ b.
      bind-Changes (Frames-Moves _ get_status-Frames) (λ s.
        bind-Changes
          (migrate_part-Moves m.phase (str_eq s.node_name node.name)
            (str_eq m.target_node node.name) m pod.phase b)
          (λ kept. Frames-Moves _ (keep_block-Frames kept))))
