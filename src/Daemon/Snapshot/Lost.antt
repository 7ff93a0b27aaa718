-- ===== src/Daemon/Snapshot/Lost.antt =====
-- What is lost where the update of a status is refused, between the two reconcilers of the daemon.
use ch_vmm.Prelude.{◌≡◌, refl, sym, subst, ap, ◌∙◌, Bool-cases, inl, inr, false, ◌∷◌}
use ch_vmm.Controller.Program.{Answer, done, not_found, already_exists, conflict, failed}
use ch_vmm.Daemon.{Vm, Phase, Node}
use ch_vmm.Daemon.Reconcile.{is_mine}
use ch_vmm.Daemon.Whole.{reconcile_relates}
use ch_vmm.Daemon.Snapshot.{Snapshot, SnapshotPhase, get_snapshot, get_vm, Server, State}
use ch_vmm.Daemon.Snapshot.Reconcile.{
  reconcile_scheduled, reconcile_phase, deferred, work, found_vm, found_snapshot, reconcile,
}
use ch_vmm.Daemon.Snapshot.Calm.{place}
use ch_vmm.Daemon.Snapshot.Turns.{concluded}

module _ (server : Server) (node : Node) (vm : Vm) (st : ch_vmm.Daemon.Status)
    (snap : Snapshot) where
  work-stuck :
      (s : State)
      → s.0.vm_phase ≡ Phase.snapshotting
      → place (work server node vm st snap SnapshotPhase.scheduled s).1 ≡ place s
  unfolding work deferred reconcile_phase reconcile_scheduled
  work-stuck s v =
      concluded server node vm st snap (reconcile_scheduled server node vm st snap) s
      ∙ rw (v, reconcile_scheduled) refl

  vm_found-stuck :
      (a : Answer) (s : State)
      → place s ≡ (SnapshotPhase.scheduled, Phase.snapshotting)
      → place (found_vm server node vm st snap a s).1 ≡ place s
  unfolding found_vm
  vm_found-stuck done s e = elim (Bool-cases (is_mine node st)) [
    | inl b ↦
        rw (b, found_vm)
          (subst (λ p. place (work server node vm st snap p s).1 ≡ place s) (sym (ap (λ x. x.0) e))
            (work-stuck s (ap (λ x. x.1) e)))
    | inr b ↦ rw (b, found_vm) refl
  ]
  vm_found-stuck not_found s e = refl
  vm_found-stuck already_exists s e = refl
  vm_found-stuck conflict s e = refl
  vm_found-stuck failed s e = refl

  snapshot_found-stuck :
      (a : Answer) (s : State)
      → place s ≡ (SnapshotPhase.scheduled, Phase.snapshotting)
      → place (found_snapshot server node vm st snap a s).1 ≡ place s
  unfolding found_snapshot
  snapshot_found-stuck done (m, t) e = vm_found-stuck (server.answer t get_vm) (m, get_vm ∷ t) e
  snapshot_found-stuck not_found s e = refl
  snapshot_found-stuck already_exists s e = refl
  snapshot_found-stuck conflict s e = refl
  snapshot_found-stuck failed s e = refl

  snapshot_stuck :
      (s : State)
      → place s ≡ (SnapshotPhase.scheduled, Phase.snapshotting)
      → place (reconcile server node vm st snap s).1 ≡ place s
  unfolding reconcile
  snapshot_stuck (m, t) e =
      snapshot_found-stuck (server.answer t get_snapshot) (m, get_snapshot ∷ t) e

  -- The other reconciler, for a machine that is marked so.
  vm_stuck :
      (daemon : ch_vmm.Daemon.Server) (s : ch_vmm.Daemon.State)
      → vm.deleting ≡ false
      → s.0.status.phase ≡ Phase.snapshotting
      → (ch_vmm.Daemon.Reconcile.reconcile daemon node vm s).1.0.status ≡ s.0.status
  unfolding ch_vmm.Daemon.Phases.reconcile_phase
  vm_stuck daemon s d p =
      reconcile_relates daemon node vm (λ x y. y ≡ x) (λ x. refl) s
        (λ pod. rw (p, ch_vmm.Daemon.Phases.reconcile_phase) refl) (λ pod d'. cc)

  -- A scheduled snapshot, whose machine is marked as being in a snapshot and is not being deleted, stays
  -- scheduled and the machine stays marked: whatever is answered, a call of the daemon's reconciler of
  -- snapshots changes neither phase, and a call of its reconciler of machines leaves the machine's status
  -- as it is.
  pub snapshot_and_vm_stuck :
      (daemon : ch_vmm.Daemon.Server) (s : State) (s' : ch_vmm.Daemon.State)
      → vm.deleting ≡ false
      → place s ≡ (SnapshotPhase.scheduled, Phase.snapshotting)
      → s'.0.status.phase ≡ Phase.snapshotting
      → (place (reconcile server node vm st snap s).1 ≡ place s)
        × ((ch_vmm.Daemon.Reconcile.reconcile daemon node vm s').1.0.status ≡ s'.0.status)
  snapshot_and_vm_stuck daemon s s' d e p = (snapshot_stuck s e, vm_stuck daemon s' d p)
