-- ===== src/Controller/VmSet/Safe.antt =====
-- What the reconciler of a VMSet does to the machines: how it scales down, and when it panics.
use ch_vmm.Controller.Program.{ok, panicked, Gone, must_or_missing-Gone}
use mathlib.Core.List.{append_assoc}
use ch_vmm.Prelude.{
  ℕ, ◌+◌, ◌-◌, ◌^◌, ◌≤◌, ◌<◌, ◌≡◌, refl, Bool, true, false, List, [], ◌∷◌, ◌++◌, if◌then◌else◌,
  length, drop,
}
use ch_vmm.Controller.Names.{Name, dash, get_ordinal}
use ch_vmm.Controller.Client.{Vm, delete_vm, delete_disk, Trace, Server}
use ch_vmm.Controller.Shrink.Laws.{removed_all, shrink-trace, shrink-panics}
use ch_vmm.Controller.VmSet.{
  DiskTemplate, VmSet, disk_name, delete_on_scale, delete_disks, remove_vm, scale_down,
}

-- The disks of machine `a-b` of one set and machine `b-c` of another have one name: the name of a
-- disk does not tell where the set's name ends and the template's begins.
pub disk_name_clash :
    (set middle template : Name) (ordinal : ℕ)
    → disk_name set (middle ++ dash ∷ template) ordinal
      ≡ disk_name (set ++ dash ∷ middle) template ordinal
unfolding disk_name
disk_name_clash set middle template ordinal = simp append_assoc

-- A server on which every deletion finds the object gone.
abbrev pub Deletes : Server → Type 0
Deletes server =
    ((t : Trace) (n : Name) → Gone (server.answer t (delete_vm n)))
    × ((t : Trace) (n : Name) → Gone (server.answer t (delete_disk n)))

-- The trace after the removal of disks and of a machine.
pub disks_removed : VmSet → ℕ → List DiskTemplate → Trace → Trace
disks_removed set ordinal [] t = t
disks_removed set ordinal (d ∷ ds) t =
    disks_removed set ordinal ds (delete_disk (disk_name set.name d.name ordinal) ∷ t)

pub vm_removed : VmSet → Bool → Vm → Trace → Trace
vm_removed set with_disks v t =
    if with_disks
    then disks_removed set (get_ordinal v.name) set.disk_templates (delete_vm v.name ∷ t)
    else delete_vm v.name ∷ t

module _ (server : Server) (deletes : Deletes server) where
  delete_disks-trace :
      (set : VmSet) (ordinal : ℕ) (ds : List DiskTemplate) (t : Trace)
      → delete_disks server set ordinal ds t ≡ (ok tt, disks_removed set ordinal ds t)
  unfolding delete_disks disks_removed
  delete_disks-trace set ordinal [] t = refl
  delete_disks-trace set ordinal (d ∷ ds) t =
      let name = disk_name set.name d.name ordinal in
      rw
        (must_or_missing-Gone (server.answer t (delete_disk name)) (delete_disk name ∷ t)
          (deletes.1 t name))
        (delete_disks-trace set ordinal ds (delete_disk name ∷ t))

  remove_vm-trace :
      (set : VmSet) (with_disks : Bool) (v : Vm) (t : Trace)
      → remove_vm server set with_disks v t ≡ (ok tt, vm_removed set with_disks v t)
  unfolding remove_vm vm_removed
  remove_vm-trace set true v t =
      rw
        (must_or_missing-Gone (server.answer t (delete_vm v.name)) (delete_vm v.name ∷ t)
          (deletes.0 t v.name))
        (delete_disks-trace set (get_ordinal v.name) set.disk_templates (delete_vm v.name ∷ t))
  remove_vm-trace set false v t = rw (
      must_or_missing-Gone (server.answer t (delete_vm v.name)) (delete_vm v.name ∷ t)
        (deletes.0 t v.name))

module _ (server : Server) (deletes : Deletes server) (set : VmSet) (current : List Vm) where
  -- A scale-down on which no deletion fails asks to delete the machines behind the first `desired`
  -- ones, the last one first, each followed by its disks if the policy says so, and nothing else.
  pub scale_down-trace :
      (desired : ℕ) (t : Trace)
      → desired ≤ length current
      → length current < 2 ^ 31
      → scale_down server set current desired t
        ≡ (ok 5, removed_all (vm_removed set (delete_on_scale set)) (drop desired current) t)
  unfolding scale_down
  scale_down-trace desired t h k =
      shrink-trace (remove_vm server set (delete_on_scale set))
        (vm_removed set (delete_on_scale set))
        (remove_vm-trace server deletes set (delete_on_scale set)) current desired t h k

  -- A scale-down to a negative number of replicas, on which no deletion fails, panics.
  pub scale_down-panics :
      (desired : ℕ) (t : Trace)
      → 2 ^ 31 ≤ desired
      → desired < 2 ^ 32
      → length current + (2 ^ 32 - desired) < 2 ^ 31
      → (scale_down server set current desired t).0 ≡ panicked
  unfolding scale_down
  scale_down-panics desired t h k l =
      shrink-panics (remove_vm server set (delete_on_scale set))
        (vm_removed set (delete_on_scale set))
        (remove_vm-trace server deletes set (delete_on_scale set)) current desired t h k l
