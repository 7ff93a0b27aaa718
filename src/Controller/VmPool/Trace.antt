-- ===== src/Controller/VmPool/Trace.antt =====
-- What the reconciler of a VMPool asks of the server when it scales down and when it cleans up.
use ch_vmm.Controller.Program.{done, ok, panicked, must_or_missing-Gone}
use ch_vmm.Prelude.{
  ℕ, ◌+◌, ◌-◌, ◌^◌, ◌≤◌, ◌<◌, ◌≡◌, refl, inl, inr, String, true, List, [], ◌∷◌, if◌then◌else◌,
  length, drop, Bool-cases,
}
use ch_vmm.Controller.Names.{Name}
use ch_vmm.Controller.Client.{
  Vm, ListedDisk, delete_vm, delete_disk, list_vms, list_disks, remove_finalizer, Trace, Server,
}
use ch_vmm.Controller.Shrink.Laws.{removed_all, shrink-trace, shrink-panics}
use ch_vmm.Controller.VmSet.{DiskTemplate}
use ch_vmm.Controller.VmSet.Safe.{Deletes}
use ch_vmm.Controller.VmPool.{
  VmPool, disk_name, is_owned, delete_disks, remove_vm, scale_down, current_vms, delete_vms,
  delete_owned, delete_all_disks, handle_deletion,
}

-- The trace after the removal of the disks of a machine, and then of the machine.
pub disks_removed : Name → List DiskTemplate → Trace → Trace
disks_removed vm [] t = t
disks_removed vm (d ∷ ds) t = disks_removed vm ds (delete_disk (disk_name vm d.name) ∷ t)

pub vm_removed : VmPool → Vm → Trace → Trace
unfolding disks_removed
vm_removed pool v t = delete_vm v.name ∷ disks_removed v.name pool.disk_templates t

-- The trace after the deletion of machines, and of the pool's disks among the listed ones.
pub vms_deleted : List Vm → Trace → Trace
vms_deleted [] t = t
vms_deleted (v ∷ vs) t = vms_deleted vs (delete_vm v.name ∷ t)

pub owned_deleted : VmPool → String → List ListedDisk → Trace → Trace
owned_deleted pool version [] t = t
owned_deleted pool version (d ∷ ds) t =
    if is_owned pool version d.controller
    then owned_deleted pool version ds (delete_disk d.name ∷ t)
    else owned_deleted pool version ds t

module _ (server : Server) (deletes : Deletes server) where
  delete_disks-trace :
      (vm : Name) (ds : List DiskTemplate) (t : Trace)
      → delete_disks server vm ds t ≡ (ok tt, disks_removed vm ds t)
  unfolding delete_disks disks_removed
  delete_disks-trace vm [] t = refl
  delete_disks-trace vm (d ∷ ds) t =
      let name = disk_name vm d.name in
      rw
        (must_or_missing-Gone (server.answer t (delete_disk name)) (delete_disk name ∷ t)
          (deletes.1 t name))
        (delete_disks-trace vm ds (delete_disk name ∷ t))

  remove_vm-trace :
      (pool : VmPool) (v : Vm) (t : Trace)
      → remove_vm server pool v t ≡ (ok tt, vm_removed pool v t)
  unfolding remove_vm vm_removed
  remove_vm-trace pool v t =
      let t' = disks_removed v.name pool.disk_templates t in
      rw (delete_disks-trace v.name pool.disk_templates t) (
        rw
          (must_or_missing-Gone (server.answer t' (delete_vm v.name)) (delete_vm v.name ∷ t')
            (deletes.0 t' v.name))
          refl)

  -- A scale-down of a pool on which no deletion fails asks to delete the machines behind the first
  -- `desired` ones, the last one first, each after its disks, and nothing else.
  pub pool_scale_down-trace :
      (pool : VmPool) (current : List Vm) (desired : ℕ) (t : Trace)
      → desired ≤ length current
      → length current < 2 ^ 31
      → scale_down server pool current desired t
        ≡ (ok 5, removed_all (vm_removed pool) (drop desired current) t)
  unfolding scale_down
  pool_scale_down-trace pool current desired t h k =
      shrink-trace (remove_vm server pool) (vm_removed pool) (remove_vm-trace pool) current desired
        t h k

  -- A scale-down of a pool to a negative number of replicas, on which no deletion fails, panics.
  pub pool_scale_down-panics :
      (pool : VmPool) (current : List Vm) (desired : ℕ) (t : Trace)
      → 2 ^ 31 ≤ desired
      → desired < 2 ^ 32
      → length current + (2 ^ 32 - desired) < 2 ^ 31
      → (scale_down server pool current desired t).0 ≡ panicked
  unfolding scale_down
  pool_scale_down-panics pool current desired t h k l =
      shrink-panics (remove_vm server pool) (vm_removed pool) (remove_vm-trace pool) current desired
        t h k l

  delete_vms-trace : (vs : List Vm) (t : Trace) → delete_vms server vs t ≡ (ok tt, vms_deleted vs t)
  unfolding delete_vms vms_deleted
  delete_vms-trace [] t = refl
  delete_vms-trace (v ∷ vs) t =
      rw
        (must_or_missing-Gone (server.answer t (delete_vm v.name)) (delete_vm v.name ∷ t)
          (deletes.0 t v.name))
        (delete_vms-trace vs (delete_vm v.name ∷ t))

  delete_owned-trace :
      (pool : VmPool) (version : String) (ds : List ListedDisk) (t : Trace)
      → delete_owned server pool version ds t ≡ (ok tt, owned_deleted pool version ds t)
  unfolding delete_owned owned_deleted
  delete_owned-trace pool version [] t = refl
  delete_owned-trace pool version (d ∷ ds) t =
      elim (Bool-cases (is_owned pool version d.controller)) [
        | inl y ↦
            rw (y, delete_owned, owned_deleted)
              (rw
                (must_or_missing-Gone (server.answer t (delete_disk d.name))
                  (delete_disk d.name ∷ t) (deletes.1 t d.name))
                (delete_owned-trace pool version ds (delete_disk d.name ∷ t)))
        | inr n ↦ rw (n, delete_owned, owned_deleted) (delete_owned-trace pool version ds t)
      ]

  current_vms-trace :
      (pool : VmPool) (t : Trace)
      → pool.selector_valid ≡ true
      → server.answer t list_vms ≡ done
      → current_vms server pool t ≡ (ok (server.listed_vms t), list_vms ∷ t)
  unfolding current_vms
  current_vms-trace pool t valid listed = rw (valid, listed)

  delete_all_disks-trace :
      (pool : VmPool) (version : String) (t : Trace)
      → server.answer t list_disks ≡ done
      → delete_all_disks server pool version t
        ≡ (ok tt, owned_deleted pool version (server.listed_disks t) (list_disks ∷ t))
  unfolding delete_all_disks
  delete_all_disks-trace pool version t listed =
      rw listed (delete_owned-trace pool version (server.listed_disks t) (list_disks ∷ t))

  -- The clean-up of a deleted pool with a valid selector, on which no request fails, asks to delete
  -- each listed machine, then each listed disk whose controller is the pool, and to remove the
  -- finalizer last.
  pub handle_deletion-trace :
      (pool : VmPool) (version : String) (t : Trace)
      → pool.selector_valid ≡ true
      → ((u : Trace) → server.answer u list_vms ≡ done)
      → ((u : Trace) → server.answer u list_disks ≡ done)
      → ((u : Trace) → server.answer u remove_finalizer ≡ done)
      → let vms = vms_deleted (server.listed_vms t) (list_vms ∷ t) in
        handle_deletion server pool version t ≡ (
          ok 0,
          remove_finalizer
              ∷ owned_deleted pool version (server.listed_disks vms) (list_disks ∷ vms),
        )
  unfolding handle_deletion
  handle_deletion-trace pool version t valid listed disks removed =
      let t1 : Trace = vms_deleted (server.listed_vms t) (list_vms ∷ t) in
      let t2 : Trace = owned_deleted pool version (server.listed_disks t1) (list_disks ∷ t1) in
      rw (current_vms-trace pool t valid (listed t)) (
        rw (delete_vms-trace (server.listed_vms t) (list_vms ∷ t))
          (rw (delete_all_disks-trace pool version t1 (disks t1)) (rw (removed t2) refl)))
