-- ===== src/Controller/Machine/Collect.antt =====
-- Which pods of a machine are deleted: by the collection of what is left over, and before a machine is
-- started again or removed.
use ch_vmm.Prelude.{
  String, str_eq, ◌||◌, ◌≡◌, ◌≢◌, refl, true, false, List, [], ◌∷◌, Option, none, some, arith, All,
  eq_iff,
}
use ch_vmm.Api.Quantity.{Quantities}
use ch_vmm.Controller.Program.{settled, done, ok}
use ch_vmm.Controller.Machine.{
  ConditionSets, Pod, Vm, World, Server, State, VmStatus, Migration, Trace, remove_finalizer,
  list_vm_pods, delete_pod, event,
}
use ch_vmm.Controller.Machine.Reconcile.{
  reconcile_deleted, is_in_use, collect_pods, gc_pods, delete_pods, delete_all_pods,
}

-- A pod is not the target of the machine's migration, if it has one.
unfoldable pub IsNoTarget : String → Option Migration → Type 0
IsNoTarget name none = Unit {0}
IsNoTarget name (some m) = name ≢ m.target_pod_name

unlike-IsNoTarget :
    (name own : String) (migration : Option Migration)
    → (str_eq name own || elim migration [ none ↦ false | some m ↦ str_eq name m.target_pod_name ])
      ≡ false
    → (name ≢ own) × IsNoTarget name migration
unfolding IsNoTarget
unlike-IsNoTarget name own none h = ground (arith, eq_iff name own)
unlike-IsNoTarget name own (some m) h =
    ground (arith, eq_iff name own, eq_iff name m.target_pod_name)

module _ {q : Quantities} {sets : ConditionSets} where
  -- No request deletes the pod of the machine or the target of its migration.
  unfoldable pub Spares : VmStatus q sets → Trace q sets → Type 0
  unfolding IsNoTarget
  Spares status [] = Unit {0}
  Spares status (delete_pod n ∷ t) =
      (n ≢ status.pod_name) × IsNoTarget n status.migration × Spares status t
  Spares status (r ∷ t) = Spares status t

module _ {q : Quantities} {sets : ConditionSets} (server : Server q sets) (w : World q)
    (vm : Vm q) where
  -- A pod that is not in use is neither.
  unused-IsNoTarget :
      (status : VmStatus q sets) (name : String)
      → is_in_use server w vm status name ≡ false
      → (name ≢ status.pod_name) × IsNoTarget name status.migration
  unfolding is_in_use
  unused-IsNoTarget status name h = unlike-IsNoTarget name status.pod_name status.migration h

  collect_pods-Spares :
      (status : VmStatus q sets) (ps : List (Pod q)) (s : State q sets)
      → Spares status s.1
      → Spares status (collect_pods server w vm status ps s).1.1
  unfolding collect_pods Spares
  collect_pods-Spares status [] s h = h
  collect_pods-Spares status (p ∷ ps) s h =
      let asked : Trace q sets = delete_pod p.name ∷ s.1 in
      ground (
        arith,
        unused-IsNoTarget status p.name,
        collect_pods-Spares status ps s h,
        collect_pods-Spares status ps (s.0, event "GCDeletedVMPod" ∷ asked),
      )

  -- The collection keeps the rule that no request deletes the pod that the machine's status names, or
  -- the pod that is the target of its migration, if it has one.
  pub gc_pods-Spares : (s : State q sets) → Spares s.0 s.1 → Spares s.0 (gc_pods server w vm s).1.1
  unfolding gc_pods Spares
  gc_pods-Spares (status, t) h =
      ground (arith, collect_pods-Spares status (server.vm_pods t) (status, list_vm_pods ∷ t))

  delete_pods_terminating :
      (ps : List (Pod q)) (s : State q sets)
      → All (λ p. p.deleting ≡ true) ps
      → delete_pods server w vm ps s ≡ (ok tt, s)
  unfolding delete_pods
  delete_pods_terminating [] s h = refl
  delete_pods_terminating (p ∷ ps) s h = rw h.0 (delete_pods_terminating ps s h.1)

  -- Where all pods of a machine are still terminating, `deleteAllVMPods` answers that they are
  -- deleted, and asks for nothing but the list.
  pub delete_all_pods_terminating :
      (s : State q sets)
      → server.answer s.1 list_vm_pods ≡ done
      → All (λ p. p.deleting ≡ true) (server.vm_pods s.1)
      → delete_all_pods server w vm s ≡ (ok true, (s.0, list_vm_pods ∷ s.1))
  unfolding delete_all_pods
  delete_all_pods_terminating (status, t) listed gone =
      rw (listed, delete_pods_terminating (server.vm_pods t) (status, list_vm_pods ∷ t) gone)

  -- A machine that was deleted, while it is not with the daemon, loses its finalizer although pods of
  -- it are still terminating.
  pub removed_while_terminating :
      (s : State q sets)
      → let listed : Trace q sets = list_vm_pods ∷ s.1 in
        server.answer s.1 list_vm_pods ≡ done
        → All (λ p. p.deleting ≡ true) (server.vm_pods s.1)
        → server.answer listed remove_finalizer ≡ done
        → reconcile_deleted server w vm s ≡ (ok settled, (s.0, remove_finalizer ∷ listed))
  unfolding reconcile_deleted
  removed_while_terminating s listed gone removed =
      rw (delete_all_pods_terminating s listed gone, removed)
