-- ===== src/Controller/VmPool/Panic.antt =====
-- The reconciler of a VMPool does not panic while `replicas` is not negative.
use ch_vmm.Controller.Program.{◌>>=◌, return, NoPanic, bind-NoPanic}
use ch_vmm.Prelude.{
  ℕ, ◌^◌, ◌≤◌, ◌<◌, ◌≡◌, refl, inl, inr, String, Bool, true, false, List, [], ◌∷◌, some,
  if◌then◌else◌, ltb, length, arith, Bool-cases, ltb→lt,
}
use ch_vmm.Prelude.Int64.{lt32_small}
use ch_vmm.Controller.Names.{Name}
use ch_vmm.Controller.Client.{
  Vm, ListedDisk, get_set, get_vm, delete_vm, get_disk, delete_disk, create_disk, list_vms,
  list_disks, Trace, Server,
}
use ch_vmm.Controller.Shrink.Laws.{shrink-NoPanic}
use ch_vmm.Controller.VmSet.{DiskTemplate, desired_of}
use ch_vmm.Controller.VmPool.{
  VmPool, disk_name, new_disk, random_name, create_disks, delete_disks, create_one, scale_up,
  remove_vm, scale_down, write_status, current_vms, scale, reconcile_pool, delete_vms, delete_owned,
  delete_all_disks, handle_deletion, dispatch, reconcile,
}

module _ (server : Server) (pool : VmPool) where
  delete_disks-NoPanic : (vm : Name) (ds : List DiskTemplate) → NoPanic (delete_disks server vm ds)
  unfolding delete_disks
  delete_disks-NoPanic vm [] t = λ e. cc
  delete_disks-NoPanic vm (d ∷ ds) t =
      ground (arith, delete_disks-NoPanic vm ds (delete_disk (disk_name vm d.name) ∷ t))

  remove_vm-NoPanic : (v : Vm) → NoPanic (remove_vm server pool v)
  unfolding remove_vm
  remove_vm-NoPanic v t =
      bind-NoPanic (delete_disks server v.name pool.disk_templates t) _
        (delete_disks-NoPanic v.name pool.disk_templates t) (λ _ t'. ground arith)

  name_disks-NoPanic :
      (vm : Name) (d : DiskTemplate) (ds : List DiskTemplate)
      → NoPanic (create_disks server pool vm ds)
      → NoPanic (do names ← create_disks server pool vm ds; return (disk_name vm d.name ∷ names))
  name_disks-NoPanic vm d ds h t =
      bind-NoPanic (create_disks server pool vm ds t) _ (h t) (λ names t'. λ e. cc)

  create_disks-NoPanic :
      (vm : Name) (ds : List DiskTemplate) → NoPanic (create_disks server pool vm ds)
  unfolding create_disks
  create_disks-NoPanic vm [] t = λ e. cc
  create_disks-NoPanic vm (d ∷ ds) t =
      let asked : Trace = get_disk (disk_name vm d.name) ∷ t in
      let rest = name_disks-NoPanic vm d ds (create_disks-NoPanic vm ds) in
      ground (arith, rest asked, rest (create_disk (new_disk pool d vm) ∷ asked))

  create_one-NoPanic : (vm : Name) → NoPanic (create_one server pool vm)
  unfolding create_one
  create_one-NoPanic vm t =
      bind-NoPanic (create_disks server pool vm pool.disk_templates t) _
        (create_disks-NoPanic vm pool.disk_templates t) (λ _ t'. ground arith)

  scale_up-NoPanic :
      (bytes : List ℕ) (current : List Vm) (desired : ℕ)
      → NoPanic (scale_up server pool bytes current desired)
  unfolding scale_up
  scale_up-NoPanic bytes current desired t =
      let vm = random_name pool.name bytes in ground (arith, create_one-NoPanic vm (get_vm vm ∷ t))

  scale_down-NoPanic :
      (current : List Vm) (desired : ℕ)
      → desired ≤ length current
      → length current < 2 ^ 31
      → NoPanic (scale_down server pool current desired)
  unfolding scale_down
  scale_down-NoPanic current = shrink-NoPanic (remove_vm server pool) remove_vm-NoPanic current

  write_status-NoPanic : (vs : List Vm) → NoPanic (write_status server pool vs)
  unfolding write_status
  write_status-NoPanic vs t = ground arith

  current_vms-NoPanic : NoPanic (current_vms server pool)
  unfolding current_vms
  current_vms-NoPanic t = ground arith

  scale_down_or_status :
      (current : List Vm) (b : Bool)
      → ltb (desired_of pool.replicas) (length current) ≡ b
      → length current < 2 ^ 31
      → NoPanic (
          if b
          then scale_down server pool current (desired_of pool.replicas)
          else write_status server pool current)
  scale_down_or_status current true e h =
      scale_down-NoPanic current (desired_of pool.replicas)
        (omega (arith, ltb→lt (desired_of pool.replicas) (length current) e)) h
  scale_down_or_status current false e h = write_status-NoPanic current

  scale-NoPanic :
      (bytes : List ℕ) (current : List Vm)
      → length current < 2 ^ 31
      → desired_of pool.replicas < 2 ^ 31
      → NoPanic (scale server pool bytes current)
  unfolding scale
  scale-NoPanic bytes current h k t =
      let d = desired_of pool.replicas in
      elim (Bool-cases (ltb (length current) d)) [
        | inl p ↦ rw (lt32_small (length current) d h k, p) (scale_up-NoPanic bytes current d t)
        | inr p ↦
            rw (lt32_small (length current) d h k, p, lt32_small d (length current) k h)
              (scale_down_or_status current (ltb d (length current)) refl h t)
      ]

  delete_vms-NoPanic : (vs : List Vm) → NoPanic (delete_vms server vs)
  unfolding delete_vms
  delete_vms-NoPanic [] t = λ e. cc
  delete_vms-NoPanic (v ∷ vs) t = ground (arith, delete_vms-NoPanic vs (delete_vm v.name ∷ t))

  delete_owned-NoPanic :
      (version : String) (ds : List ListedDisk) → NoPanic (delete_owned server pool version ds)
  unfolding delete_owned
  delete_owned-NoPanic version [] t = λ e. cc
  delete_owned-NoPanic version (d ∷ ds) t = ground (
    arith,
    delete_owned-NoPanic version ds t,
    delete_owned-NoPanic version ds (delete_disk d.name ∷ t),
  )

  delete_all_disks-NoPanic : (version : String) → NoPanic (delete_all_disks server pool version)
  unfolding delete_all_disks
  delete_all_disks-NoPanic version t =
      ground (arith, delete_owned-NoPanic version (server.listed_disks t) (list_disks ∷ t))

  handle_deletion-NoPanic : (version : String) → NoPanic (handle_deletion server pool version)
  unfolding handle_deletion
  handle_deletion-NoPanic version t =
      bind-NoPanic (current_vms server pool t) _ (current_vms-NoPanic t) λ vs t'.
        bind-NoPanic (delete_vms server vs t') _ (delete_vms-NoPanic vs t') λ _ t''.
          bind-NoPanic (delete_all_disks server pool version t'') _
            (delete_all_disks-NoPanic version t'') λ _ t3. ground arith

  reconcile_pool-NoPanic :
      (bytes : List ℕ)
      → ((t : Trace) → length (server.listed_vms t) < 2 ^ 31)
      → desired_of pool.replicas < 2 ^ 31
      → NoPanic (reconcile_pool server pool bytes)
  unfolding reconcile_pool current_vms
  reconcile_pool-NoPanic bytes h k t =
      ground (arith, scale-NoPanic bytes (server.listed_vms t) (h t) k (list_vms ∷ t))

  -- Whatever the server answers and the random source gives, the reconciler does not panic on a
  -- pool whose number of replicas is not negative, if fewer than 2 ^ 31 machines are listed.
  pub pool-reconcile-NoPanic :
      (version : String) (bytes : List ℕ)
      → ((t : Trace) → length (server.listed_vms t) < 2 ^ 31)
      → desired_of pool.replicas < 2 ^ 31
      → NoPanic (reconcile server version bytes (some pool))
  unfolding reconcile dispatch
  pool-reconcile-NoPanic version bytes h k t =
      let asked : Trace = get_set ∷ t in
      ground (arith, handle_deletion-NoPanic version asked, reconcile_pool-NoPanic bytes h k asked)
