-- ===== src/Controller/VmSet/Panic.antt =====
-- The reconciler of a VMSet does not panic while `replicas` is not negative.
use ch_vmm.Controller.Program.{NoPanic, bind-NoPanic}
use ch_vmm.Prelude.{
  ℕ, ◌^◌, ◌≤◌, ◌<◌, ◌≡◌, refl, inl, inr, Bool, true, false, List, [], ◌∷◌, some, if◌then◌else◌, ltb,
  length, arith, Bool-cases, ltb→lt,
}
use ch_vmm.Prelude.Int64.{lt32_small}
use ch_vmm.Controller.Names.{ordinal_name, get_ordinal}
use ch_vmm.Controller.Client.{
  Vm, get_vm, get_set, list_vms, delete_vm, get_disk, delete_disk, create_disk, Trace, Server,
}
use ch_vmm.Controller.Shrink.Laws.{shrink-NoPanic}
use ch_vmm.Controller.VmSet.{
  DiskTemplate, VmSet, disk_name, new_disk, delete_on_scale, delete_on_delete, sort_vms,
  create_disks, delete_disks, scale_up, create_one, remove_vm, scale_down, write_status, desired_of,
  scale, current_vms, reconcile_set, remove_all, handle_deletion, dispatch, reconcile,
}
use ch_vmm.Controller.VmSet.Creates.{length-sort_vms}

module _ (server : Server) (set : VmSet) where
  delete_disks-NoPanic : (o : ℕ) (ds : List DiskTemplate) → NoPanic (delete_disks server set o ds)
  unfolding delete_disks
  delete_disks-NoPanic o [] t = λ e. cc
  delete_disks-NoPanic o (d ∷ ds) t =
      ground (arith, delete_disks-NoPanic o ds (delete_disk (disk_name set.name d.name o) ∷ t))

  remove_vm-NoPanic : (b : Bool) (v : Vm) → NoPanic (remove_vm server set b v)
  unfolding remove_vm
  remove_vm-NoPanic b v t =
      ground
        (arith, delete_disks-NoPanic (get_ordinal v.name) set.disk_templates (delete_vm v.name ∷ t))

  create_disks-NoPanic : (o : ℕ) (ds : List DiskTemplate) → NoPanic (create_disks server set o ds)
  unfolding create_disks
  create_disks-NoPanic o [] t = λ e. cc
  create_disks-NoPanic o (d ∷ ds) t =
      let asked : Trace = get_disk (disk_name set.name d.name o) ∷ t in
      ground (
        arith,
        create_disks-NoPanic o ds asked,
        create_disks-NoPanic o ds (create_disk (new_disk set d o) ∷ asked),
      )

  create_one-NoPanic : (next : ℕ) → NoPanic (create_one server set next)
  unfolding create_one
  create_one-NoPanic next t =
      bind-NoPanic (create_disks server set next set.disk_templates t) _
        (create_disks-NoPanic next set.disk_templates t) (λ _ t'. ground arith)

  scale_up-NoPanic : (current : List Vm) → NoPanic (scale_up server set current)
  unfolding scale_up
  scale_up-NoPanic current t = ground (
    arith,
    create_one-NoPanic (length current) (get_vm (ordinal_name set.name (length current)) ∷ t),
  )

  scale_down-NoPanic :
      (current : List Vm) (desired : ℕ)
      → desired ≤ length current
      → length current < 2 ^ 31
      → NoPanic (scale_down server set current desired)
  unfolding scale_down
  scale_down-NoPanic current =
      shrink-NoPanic (remove_vm server set (delete_on_scale set))
        (remove_vm-NoPanic (delete_on_scale set)) current

  remove_all-NoPanic : (vs : List Vm) → NoPanic (remove_all server set vs)
  unfolding remove_all
  remove_all-NoPanic [] t = λ e. cc
  remove_all-NoPanic (v ∷ vs) t =
      bind-NoPanic (remove_vm server set (delete_on_delete set) v t) _
        (remove_vm-NoPanic (delete_on_delete set) v t) (λ _. remove_all-NoPanic vs)

  current_vms-NoPanic : NoPanic (current_vms server set)
  unfolding current_vms
  current_vms-NoPanic t = ground arith

  handle_deletion-NoPanic : NoPanic (handle_deletion server set)
  unfolding handle_deletion
  handle_deletion-NoPanic t =
      bind-NoPanic (current_vms server set t) _ (current_vms-NoPanic t) λ vs t'.
        bind-NoPanic (remove_all server set vs t') _ (remove_all-NoPanic vs t')
          λ _ t''. ground arith

  write_status-NoPanic : (vs : List Vm) → NoPanic (write_status server set vs)
  unfolding write_status
  write_status-NoPanic vs t = ground arith

  scale_down_or_status :
      (current : List Vm) (b : Bool)
      → ltb (desired_of set.replicas) (length current) ≡ b
      → length current < 2 ^ 31
      → desired_of set.replicas < 2 ^ 31
      → NoPanic (
          if b
          then scale_down server set current (desired_of set.replicas)
          else write_status server set current)
  scale_down_or_status current true e h k =
      scale_down-NoPanic current (desired_of set.replicas)
        (omega (arith, ltb→lt (desired_of set.replicas) (length current) e)) h
  scale_down_or_status current false e h k = write_status-NoPanic current

  scale-NoPanic :
      (vs : List Vm)
      → length vs < 2 ^ 31
      → desired_of set.replicas < 2 ^ 31
      → NoPanic (scale server set vs)
  unfolding scale
  scale-NoPanic vs h k t =
      let current = sort_vms vs in
      let n = length-sort_vms server set vs in
      let up = lt32_small (length current) (desired_of set.replicas) (omega arith) k in
      let down = lt32_small (desired_of set.replicas) (length current) k (omega arith) in
      elim (Bool-cases (ltb (length current) (desired_of set.replicas))) [
        | inl p ↦ rw (up, p) (scale_up-NoPanic current t)
        | inr p ↦
            rw (up, p, down)
              (scale_down_or_status current (ltb (desired_of set.replicas) (length current)) refl
                (omega arith) k t)
      ]

  reconcile_set-NoPanic :
      ((t : Trace) → length (server.listed_vms t) < 2 ^ 31)
      → desired_of set.replicas < 2 ^ 31
      → NoPanic (reconcile_set server set)
  unfolding reconcile_set current_vms
  reconcile_set-NoPanic h k t =
      ground (arith, scale-NoPanic (server.listed_vms t) (h t) k (list_vms ∷ t))

  -- Whatever the server answers, the reconciler does not panic on a set whose number of replicas is
  -- not negative (nor the number of machines too large for an `int32`).
  pub reconcile-NoPanic :
      ((t : Trace) → length (server.listed_vms t) < 2 ^ 31)
      → desired_of set.replicas < 2 ^ 31
      → NoPanic (reconcile server (some set))
  unfolding reconcile dispatch
  reconcile-NoPanic h k t =
      let asked : Trace = get_set ∷ t in
      ground (arith, handle_deletion-NoPanic asked, reconcile_set-NoPanic h k asked)
