-- ===== src/Daemon/Stays.antt =====
-- What a migration leaves alone before the machine moves.
use ch_vmm.Prelude.{String, refl, true, none, some, if◌then◌else◌}
use ch_vmm.Controller.Program.{
  Answer, done, not_found, already_exists, conflict, Program, Keeps, return-Keeps, bind-Keeps,
  then-Keeps, must-Keeps, if-Keeps, Keeps-coarser, ◌>>=◌, ◌>>◌,
}
use ch_vmm.Controller.Machine.{PodPhase}
use ch_vmm.Daemon.{
  Vm, Phase, Migration, target_ready, running, failed, ControlBlock, poll_sent, relay_in,
  start_send, start_receive, stat, Server, Node, State, call, join, data_dir,
}
use ch_vmm.Daemon.Frame.{
  Frames, fail-Frames, event-Frames, get_status-Frames, call-Frames, fetch-Frames,
}
use ch_vmm.Daemon.Frame.Mounted.{cleanup-Frames, mount_volumes-Frames}
use ch_vmm.Daemon.Migrate.{
  set_migration, fail_migration, prepare_target, receive_if, receive, send, finish_sending, sent_if,
  follow_sending, target_socket, receive_socket, set_migration_phase,
}
use ch_vmm.Daemon.Moves.{await_file-Frames, await_receiver-Frames, finish_sending-Frames}

abbrev pub node_in : State → String
node_in s = s.0.status.node_name

-- What leaves a part of the phase and the node of the machine as it is.
module _ (server : Server) (node : Node) (vm : Vm) {T : Type 0} (part : Phase → String → T) where
  abbrev pub Stays : {A : Type 0} → Program State A → Type 0
  Stays m = Keeps (λ s. part s.0.status.phase s.0.status.node_name) m

  pub Frames-Stays : {A : Type 0} {m : Program State A} → Frames m → Stays m
  Frames-Stays h = Keeps-coarser (λ f. part f.0 f.1) h

  pub set_migration-Stays : (f : Migration → Migration) → Stays (set_migration server node vm f)
  unfolding set_migration
  set_migration-Stays f = record { kept = λ s. refl }

  pub fail_migration-Stays : Stays (fail_migration server node vm)
  unfolding fail_migration
  fail_migration-Stays =
      then-Keeps (Frames-Stays (event-Frames _))
        (then-Keeps (set_migration-Stays _) (return-Keeps none))

  pub prepare_target-Stays :
      (m : Migration) (b : ControlBlock) → Stays (prepare_target server node vm m b)
  unfolding prepare_target
  prepare_target-Stays m b = bind-Keeps (Frames-Stays (call-Frames server _)) (λ loaded.
      then-Keeps (must-Keeps loaded) (
        bind-Keeps (Frames-Stays (fetch-Frames server (relay_in (receive_socket m)) server.port))
          (λ relayed. then-Keeps (must-Keeps relayed.0) (
            then-Keeps
              (Frames-Stays
                (mount_volumes-Frames server node vm m.target_pod_uid m.target_volume_pod_uid))
              (then-Keeps
                (set_migration-Stays (λ m'. record m' {
                  target_port = relayed.1;
                  target_ip = node.ip;
                  phase = target_ready;
                }))
                (return-Keeps (some b)))))))

  pub receive_if-Stays :
      (a : Answer) (m : Migration) (b : ControlBlock) → Stays (receive_if server node vm a m b)
  unfolding receive_if
  receive_if-Stays done m b = prepare_target-Stays m b
  receive_if-Stays not_found m b =
      bind-Keeps (Frames-Stays (call-Frames server (start_receive (target_socket m)))) (λ _.
        bind-Keeps
          (Frames-Stays (await_receiver-Frames server node vm node.patience (receive_socket m)))
          (λ came.
            if-Keeps came (prepare_target-Stays m (record b { receiving = true }))
              fail_migration-Stays))
  receive_if-Stays already_exists m b = Frames-Stays (fail-Frames _)
  receive_if-Stays conflict m b = Frames-Stays (fail-Frames _)
  receive_if-Stays Answer.failed m b = Frames-Stays (fail-Frames _)

  pub receive-Stays : (m : Migration) (b : ControlBlock) → Stays (receive server node vm m b)
  unfolding receive
  receive-Stays m b =
      bind-Keeps (Frames-Stays (await_file-Frames server node vm node.patience (target_socket m)))
        (λ came.
          if-Keeps came
            (bind-Keeps (Frames-Stays (call-Frames server (stat (receive_socket m))))
              (λ a. receive_if-Stays a m (record b { can_cancel_receive = true })))
            fail_migration-Stays)

  pub send-Stays : (m : Migration) (b : ControlBlock) → Stays (send server node vm m b)
  unfolding send
  send-Stays m b = bind-Keeps (Frames-Stays get_status-Frames) (λ s.
      bind-Keeps (Frames-Stays (call-Frames server _)) (λ relayed. then-Keeps (must-Keeps relayed) (
        bind-Keeps (Frames-Stays (call-Frames server (start_send (join (data_dir s) "vm.sock"))))
          (λ _.
            then-Keeps (set_migration-Stays (λ m'. record m' { phase = running }))
              (return-Keeps (some (record b { can_cancel_send = true; sending = true })))))))

  pub failing-Stays :
      (b : ControlBlock)
      → Stays (set_migration_phase server node vm failed >> finish_sending server node vm b)
  failing-Stays b =
      then-Keeps (set_migration-Stays _) (Frames-Stays (finish_sending-Frames server node vm b))

  pub sent_if-Stays : (a : Answer) (b : ControlBlock) → Stays (sent_if server node vm a b)
  unfolding sent_if
  sent_if-Stays done b = return-Keeps none
  sent_if-Stays not_found b = then-Keeps (Frames-Stays (event-Frames _)) (failing-Stays b)
  sent_if-Stays already_exists b = then-Keeps (Frames-Stays (event-Frames _)) (failing-Stays b)
  sent_if-Stays conflict b = then-Keeps (Frames-Stays (event-Frames _)) (failing-Stays b)
  sent_if-Stays Answer.failed b = then-Keeps (Frames-Stays (event-Frames _)) (failing-Stays b)

  pub polling-Stays :
      (b : ControlBlock)
      → Stays (
          if b.sending
          then (do polled ← call server poll_sent; sent_if server node vm polled b)
          else (do set_migration_phase server node vm failed; finish_sending server node vm b))
  polling-Stays b =
      if-Keeps b.sending (bind-Keeps (Frames-Stays (call-Frames server _)) (λ a. sent_if-Stays a b))
        (failing-Stays b)

  pub follow_sending-Stays :
      (p : PodPhase) (b : ControlBlock) → Stays (follow_sending server node vm p b)
  unfolding follow_sending
  follow_sending-Stays PodPhase.succeeded b =
      then-Keeps (Frames-Stays (cleanup-Frames server node vm))
        (then-Keeps (set_migration-Stays _) (Frames-Stays (finish_sending-Frames server node vm b)))
  follow_sending-Stays PodPhase.pending b = polling-Stays b
  follow_sending-Stays PodPhase.running b = polling-Stays b
  follow_sending-Stays PodPhase.failed b = polling-Stays b
  follow_sending-Stays PodPhase.unknown b = polling-Stays b
