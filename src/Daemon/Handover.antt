-- ===== src/Daemon/Handover.antt =====
-- A machine changes its node only when the hypervisor of the target says that it runs there.
use ch_vmm.Prelude.{
  String, ◌≡◌, refl, sym, subst, ◌∙◌, ◌⊎◌, inl, inr, Bool, true, false, ◌∷◌, Option, none, some,
  if◌then◌else◌, str_eq, eq_iff, arith,
}
use ch_vmm.Controller.Program.{
  Answer, done, not_found, already_exists, conflict, Result, ok, err, panicked, Program, return,
  bind, must, Keeps, return-Keeps, bind-Keeps, then-Keeps, must-Keeps, if-Keeps, ◌>>◌,
}
use ch_vmm.Controller.Machine.{PodPhase}
use ch_vmm.Daemon.{
  Vm, VmmState, Migration, MigrationPhase, scheduled, target_ready, running, sent, succeeded,
  failed, ControlBlock, Pod, Trace, vmm, info, Server, Node, State,
}
use ch_vmm.Daemon.Frame.{get_status-Frames, fetch-Frames}
use ch_vmm.Daemon.Migrate.{
  set_migration, hand_over, take_over, migrate_part, keep_block, migrate, target_socket, block_of,
}
use ch_vmm.Daemon.Moves.{keep_block-Frames, get_block-Frames}
use ch_vmm.Daemon.Stays.{Frames-Stays, receive-Stays, send-Stays, follow_sending-Stays, node_in}

module _ (server : Server) (node : Node) (vm : Vm) where
  -- The machine is now at the target of its migration, which said behind a trace that it runs it.
  unfoldable pub Taken : Migration → Trace → String → Type 0
  Taken m t x =
      (m.phase ≡ sent)
      × (x ≡ node.name)
      × (m.target_node ≡ node.name)
      × (server.answer t (vmm (target_socket m) info) ≡ done)
      × ((server.info t).state ≡ VmmState.running)

  -- A program that leaves the node, or takes the machine.
  abbrev Takes : {A : Type 0} → Migration → Program State A → State → Type 0
  Takes m k s = (node_in (k s).1 ≡ node_in s) ⊎ Taken m s.1 (node_in (k s).1)

  hand_over-node :
      (m : Migration) (b : ControlBlock) (s : State)
      → node_in (hand_over server node vm m b s).1 ≡ m.target_node
  unfolding hand_over set_migration
  hand_over-node m b s = ground arith

  taken_if :
      (m : Migration) (b : ControlBlock) (a : Answer) (v : VmmState) (s : State)
      → let s' =
          ((must a >> elim v as (λ v. Program State (Option ControlBlock)) [
            | VmmState.running ↦ hand_over server node vm m b
            | _ ↦ return none
          ])
            s).1 in
        (node_in s' ≡ node_in s)
        ⊎ ((node_in s' ≡ m.target_node) × (a ≡ done) × (v ≡ VmmState.running))
  taken_if m b done VmmState.running s = inr (hand_over-node m b s, refl, refl)
  taken_if m b done VmmState.created s = inl refl
  taken_if m b done VmmState.paused s = inl refl
  taken_if m b done VmmState.shutdown s = inl refl
  taken_if m b done VmmState.other s = inl refl
  taken_if m b not_found v s = inl refl
  taken_if m b already_exists v s = inl refl
  taken_if m b conflict v s = inl refl
  taken_if m b Answer.failed v s = inl refl

  take_over-Takes :
      (m : Migration) (b : ControlBlock) (s : State)
      → m.phase ≡ sent
      → m.target_node ≡ node.name
      → Takes m (take_over server node vm m b) s
  unfolding take_over Taken
  take_over-Takes m b s p n =
      elim (taken_if m b (server.answer s.1 (vmm (target_socket m) info)) (server.info s.1).state
        (s.0, vmm (target_socket m) info ∷ s.1)) [
          | inl e ↦ inl e
          | inr (e, a, v) ↦ inr (p, e ∙ n, n, a, v)
        ]

  part_if-Takes :
      (m : Migration) (there : Bool) (b : ControlBlock) (s : State)
      → m.phase ≡ sent
      → (there ≡ true → m.target_node ≡ node.name)
      → Takes m (if there then take_over server node vm m b else return (some b)) s
  part_if-Takes m true b s p n = take_over-Takes m b s p (n refl)
  part_if-Takes m false b s p n = inl refl

  migrate_part-Takes :
      (p : MigrationPhase) (m : Migration) (here : Bool) (pod : PodPhase) (b : ControlBlock)
      (s : State)
      → m.phase ≡ p
      → Takes m (migrate_part server node vm p here (str_eq m.target_node node.name) m pod b) s
  unfolding migrate_part
  migrate_part-Takes scheduled m here pod b s e = inl (
      (if-Keeps (str_eq m.target_node node.name) (receive-Stays server node vm (λ p n. n) m b)
          (return-Keeps (some b))).kept
        s)
  migrate_part-Takes target_ready m here pod b s e =
      inl
        ((if-Keeps here (send-Stays server node vm (λ p n. n) m b) (return-Keeps (some b))).kept s)
  migrate_part-Takes running m here pod b s e = inl (
      (if-Keeps here (follow_sending-Stays server node vm (λ p n. n) pod b)
          (return-Keeps (some b))).kept
        s)
  migrate_part-Takes sent m here pod b s e =
      part_if-Takes m (str_eq m.target_node node.name) b s e
        (λ t. (eq_iff m.target_node node.name).0 t)
  migrate_part-Takes succeeded m here pod b s e = inl refl
  migrate_part-Takes failed m here pod b s e = inl refl
  migrate_part-Takes MigrationPhase.other m here pod b s e = inl refl

  behind_node :
      {A B : Type 0} (r : Result A × State) (f : A → Program State B)
      → ((a : A) → Keeps node_in (f a))
      → node_in (bind r f).1 ≡ node_in r.1
  behind_node (ok a, s) f h = (h a).kept s
  behind_node (err e, s) f h = refl
  behind_node (panicked, s) f h = refl

  pub migrate-Takes :
      (m : Migration) (pod : Pod) (s : State) → Takes m (migrate server node vm m pod) s
  unfolding migrate
  migrate-Takes m pod s =
      let b = block_of server node vm s.0.block in
      let here = str_eq s.0.status.node_name node.name in
      let part =
        migrate_part server node vm m.phase here (str_eq m.target_node node.name) m pod.phase b in
      let same =
        behind_node (part s) (keep_block server node vm) (λ kept.
          Frames-Stays server node vm (λ p n. n) (keep_block-Frames server node vm kept)) in
      subst (λ x. (x ≡ node_in s) ⊎ Taken m s.1 x) (sym same)
        (migrate_part-Takes m.phase m here pod.phase b s refl)

  -- The phase of the machine is left alone.
  abbrev KeepsPhase : {A : Type 0} → Program State A → Type 0
  KeepsPhase m = Keeps (λ s. s.0.status.phase) m

  hand_over-KeepsPhase :
      (m : Migration) (b : ControlBlock) → KeepsPhase (hand_over server node vm m b)
  unfolding hand_over set_migration
  hand_over-KeepsPhase m b = record { kept = λ s. ground arith }

  take_over-KeepsPhase :
      (m : Migration) (b : ControlBlock) → KeepsPhase (take_over server node vm m b)
  unfolding take_over
  take_over-KeepsPhase m b =
      bind-Keeps
        (Frames-Stays server node vm (λ p n. p)
          (fetch-Frames server (vmm (target_socket m) info) server.info))
        (λ a. then-Keeps (must-Keeps a.0) (at_state a.1.state))
    where
      at_state :
          (v : VmmState)
          → KeepsPhase {A = Option ControlBlock}
              (elim v [ VmmState.running ↦ hand_over server node vm m b | _ ↦ return none ])
      at_state VmmState.running = hand_over-KeepsPhase m b
      at_state VmmState.created = return-Keeps none
      at_state VmmState.paused = return-Keeps none
      at_state VmmState.shutdown = return-Keeps none
      at_state VmmState.other = return-Keeps none

  migrate_part-KeepsPhase :
      (p : MigrationPhase) (here there : Bool) (m : Migration) (pod : PodPhase) (b : ControlBlock)
      → KeepsPhase (migrate_part server node vm p here there m pod b)
  unfolding migrate_part
  migrate_part-KeepsPhase scheduled here there m pod b =
      if-Keeps there (receive-Stays server node vm (λ p n. p) m b) (return-Keeps (some b))
  migrate_part-KeepsPhase target_ready here there m pod b =
      if-Keeps here (send-Stays server node vm (λ p n. p) m b) (return-Keeps (some b))
  migrate_part-KeepsPhase running here there m pod b =
      if-Keeps here (follow_sending-Stays server node vm (λ p n. p) pod b) (return-Keeps (some b))
  migrate_part-KeepsPhase sent here there m pod b =
      if-Keeps there (take_over-KeepsPhase m b) (return-Keeps (some b))
  migrate_part-KeepsPhase succeeded here there m pod b = return-Keeps (some b)
  migrate_part-KeepsPhase failed here there m pod b = return-Keeps (some b)
  migrate_part-KeepsPhase MigrationPhase.other here there m pod b = return-Keeps (some b)

  pub migrate-KeepsPhase : (m : Migration) (pod : Pod) → KeepsPhase (migrate server node vm m pod)
  unfolding migrate
  migrate-KeepsPhase m pod =
      bind-Keeps (Frames-Stays server node vm (λ p n. p) (get_block-Frames server node vm)) (λ b.
        bind-Keeps (Frames-Stays server node vm (λ p n. p) get_status-Frames) (λ s.
          bind-Keeps
            (migrate_part-KeepsPhase m.phase (str_eq s.node_name node.name)
              (str_eq m.target_node node.name) m pod.phase b)
            (λ kept.
              Frames-Stays server node vm (λ p n. p) (keep_block-Frames server node vm kept))))
