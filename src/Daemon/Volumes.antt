-- ===== src/Daemon/Volumes.antt =====
-- What becomes of the volumes on a node: a device that no manager can allow, and the disks that are
-- unplugged.
use ch_vmm.Prelude.{ℕ, String, ◌≡◌, ◌≢◌, refl, Bool-cases, inl, inr, List, [], ◌∷◌, if◌then◌else◌}
use ch_vmm.Controller.Program.{
  done, not_found, Result, ok, err, panicked, Program, bind, ◌>>=◌, ◌>>◌,
}
use ch_vmm.Daemon.{
  Vm, Status, VolumeRecord, remove_device, vmm, event, stat, Server, Node, State, call, Trace,
  socket, Memory,
}
use ch_vmm.Daemon.Cgroup.{new_manager, with_process, manager_socket, numbers_of}
use ch_vmm.Daemon.Mounts.{
  mount_block, allow_device, block_target, block_source, exists_if, make_node,
}
use ch_vmm.Daemon.Records.{add_record}
use ch_vmm.Daemon.Plugs.{remove_disks, has_name, names_of}

-- A program that does not succeed.
record Fails {A : Type 0} (m : Program State A) : Type 0 where
  fails : (s : State) (a : A) → (m s).0 ≢ ok a

bind-Fails :
    {A B : Type 0} (m : Program State A) {f : A → Program State B}
    → ((a : A) → Fails (f a))
    → Fails (m >>= f)
bind-Fails {A} {B} m {f} h = record { fails = λ s b. behind b (m s) }
  where
    behind : (b : B) (r : Result A × State) → (bind r f).0 ≢ ok b
    behind b (ok a, t) = (h a).fails t b
    behind b (err e, t) = λ e'. cc
    behind b (panicked, t) = λ e'. cc

then-Fails :
    {B : Type 0} (m : Program State (Unit {0})) {k : Program State B} → Fails k → Fails (m >> k)
then-Fails m h = record { fails = λ s b. (bind-Fails m (λ _. h)).fails s b }

module _ (server : Server) (node : Node) (vm : Vm) where
  no_manager :
      {B : Type 0}
      → ((t : Trace) (st : Status)
          → server.answer t (stat (manager_socket server node vm st)) ≡ not_found)
      → (major minor : ℕ) (b : B)
      → Fails (do
        manager ← new_manager server node vm
        allow_device server node vm manager major minor
        (λ s. (ok b, s)))
  unfolding new_manager with_process allow_device
  no_manager h major minor b = record { fails = λ (m, t) a. rw (h t m.status) (λ e. cc) }

  mount_block-Fails :
      ((t : Trace) (st : Status)
        → server.answer t (stat (manager_socket server node vm st)) ≡ not_found)
      → (volume pod volume_pod : String) (records : List VolumeRecord)
      → Fails (mount_block server node vm volume pod volume_pod records)
  unfolding mount_block
  mount_block-Fails h volume pod volume_pod records =
      bind-Fails (call server (stat (block_target pod volume))) (λ answered.
        bind-Fails (exists_if server node vm answered) (λ exists.
          bind-Fails (numbers_of server node vm 16 (block_source volume_pod volume)) (λ numbers.
            bind-Fails (add_record server vm volume (block_target pod volume) records) (λ records'.
              then-Fails (make_node server node vm exists (block_target pod volume) numbers)
                (no_manager h numbers.0 numbers.1 records')))))

  -- Where no pod has a socket in the directory in which the manager of devices looks for it, a call of
  -- `mountBlockVolume` does not succeed, whatever else the server and the host answer.
  pub mount_block-fails :
      ((t : Trace) (st : Status)
        → server.answer t (stat (manager_socket server node vm st)) ≡ not_found)
      → (volume pod volume_pod : String) (records kept : List VolumeRecord) (s : State)
      → (mount_block server node vm volume pod volume_pod records s).0 ≢ ok kept
  mount_block-fails h volume pod volume_pod records kept s =
      (mount_block-Fails h volume pod volume_pod records).fails s kept

  -- The disks that the hypervisor has and the machine has not.
  unfoldable pub surplus : List String → List String
  surplus [] = []
  surplus (d ∷ ds) =
      let rest = surplus ds in if has_name d (names_of vm.volumes) then rest else d ∷ rest

  unfoldable pub removals : Status → List String → Trace → Trace
  removals st [] t = t
  removals st (d ∷ ds) t =
      removals st ds (event "RemoveDiskFromVM" ∷ vmm (socket st) (remove_device d) ∷ t)

  -- If the hypervisor refuses no removal, the loop of `removeHotplugVolumesFromVM` removes exactly the
  -- disks that are not among the machine's volumes, in the hypervisor's order, and sends nothing else but
  -- an event behind each.
  pub remove_disks-trace :
      (m : Memory)
      → ((t : Trace) (d : String)
          → server.answer t (vmm (socket m.status) (remove_device d)) ≡ done)
      → (disks : List String) (t : Trace)
      → remove_disks server node vm disks (m, t) ≡ (ok tt, (m, removals m.status (surplus disks) t))
  unfolding remove_disks removals surplus
  remove_disks-trace m h [] t = refl
  remove_disks-trace m h (d ∷ ds) t = elim (Bool-cases (has_name d (names_of vm.volumes))) [
    | inl e ↦ rw (e, remove_disks, surplus) (remove_disks-trace m h ds t)
    | inr e ↦
        rw (e, remove_disks, surplus, h t d)
          (remove_disks-trace m h ds
            (event "RemoveDiskFromVM" ∷ vmm (socket m.status) (remove_device d) ∷ t))
  ]
