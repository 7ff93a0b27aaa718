-- ===== src/Daemon/Snapshot/Whole.antt =====
-- The reconciler of a snapshot as a whole: how the phases change in a call.
use ch_vmm.Prelude.{◌≡◌, refl, ap, ◌∙◌, inl, inr, Bool, Bool-cases, true, false, ◌∷◌, if◌then◌else◌}
use ch_vmm.Controller.Program.{
  Answer, done, not_found, already_exists, conflict, failed, Result, ok, err, panicked, Outcome,
  in_five_seconds, Program, bind, ◌>>=◌, ◌>>◌, return, Leads, bind-Leads, then-Leads,
}
use ch_vmm.Daemon.{Vm, Phase, Node}
use ch_vmm.Daemon.Reconcile.{is_mine}
use ch_vmm.Daemon.Snapshot.{Snapshot, SnapshotPhase, Server, State, set_phase, get_snapshot, get_vm}
use ch_vmm.Daemon.Snapshot.Reconcile.{
  Turn, leave, proceed, conclude, reconcile_in_progress, reconcile_phase, update_vm_status,
  deferred, work, found_vm, found_snapshot, reconcile,
}
use ch_vmm.Daemon.Snapshot.Calm.{place, return-Calm}
use ch_vmm.Daemon.Snapshot.Taking.{create_snapshot-Calm}
use ch_vmm.Daemon.Snapshot.Steps.{stay, take, lose, step_to, Calm-Goes, succeeds-cases, Step, Goes}
use ch_vmm.Daemon.Snapshot.Turns.{scheduled-Goes, created-Goes, specified-Goes, concluded}

module _ (server : Server) (node : Node) (vm : Vm) (st : ch_vmm.Daemon.Status)
    (snap : Snapshot) where
  in_progress_ends :
      (v : Phase) (s : State)
      → (q : SnapshotPhase) × ((reconcile_in_progress server node vm st snap s).1.0.status.phase
          ≡ q)
        × Step (SnapshotPhase.in_progress, v) (q, Phase.running)
  unfolding reconcile_in_progress
  in_progress_ends v s =
      let (b, u, taken, k, w) = succeeds-cases (create_snapshot-Calm server vm st snap) s in
      rw (taken, reconcile_in_progress) (by_result b u)
    where
      by_result :
          (b : Bool) (u : State)
          → let r : Result Turn × State =
              (if b
                  then (set_phase SnapshotPhase.created >> return (proceed false))
                  else (set_phase SnapshotPhase.failed >> return (proceed true)))
                u in
            (q : SnapshotPhase) × (r.1.0.status.phase ≡ q)
            × Step (SnapshotPhase.in_progress, v) (q, Phase.running)
      by_result true u = (SnapshotPhase.created, refl, take)
      by_result false u = (SnapshotPhase.failed, refl, lose)

  -- A turn that takes the phases a step, and what follows.
  turn-Step :
      (m : Program State Turn) (x : SnapshotPhase × Phase) (s : State)
      → Goes x m
      → place s ≡ x
      → Step x (place ((m >>= conclude server node vm st snap) s).1)
  turn-Step m x s h e = step_to (concluded server node vm st snap m s) (h.led s e)

  work-Step :
      (p : SnapshotPhase) (v : Phase) (s : State)
      → place s ≡ (p, v)
      → Step (p, v) (place (work server node vm st snap p s).1)
  unfolding work deferred update_vm_status reconcile_phase
  work-Step SnapshotPhase.in_progress v s e =
      let (q, k, st') = in_progress_ends v s in
      step_to
        (ap (λ x. (x.0, Phase.running))
            (concluded server node vm st snap (reconcile_in_progress server node vm st snap) s)
          ∙ ap (λ y. (y, Phase.running)) k)
        st'
  work-Step SnapshotPhase.scheduled v s e =
      turn-Step _ _ s (scheduled-Goes server node vm st snap v) e
  work-Step SnapshotPhase.created v s e = turn-Step _ _ s (created-Goes server node vm st snap v) e
  work-Step SnapshotPhase.specified v s e =
      turn-Step _ _ s (specified-Goes server node vm st snap v) e
  work-Step SnapshotPhase.failed v s e =
      turn-Step (return (leave ch_vmm.Controller.Program.settled)) _ s
        (Calm-Goes {server = server} _ (return-Calm _)) e
  work-Step SnapshotPhase.ready v s e =
      turn-Step (return (proceed false)) _ s (Calm-Goes {server = server} _ (return-Calm _)) e
  work-Step SnapshotPhase.other v s e =
      turn-Step (return (proceed false)) _ s (Calm-Goes {server = server} _ (return-Calm _)) e

  vm_found-Step :
      (a : Answer) (s : State) → Step (place s) (place (found_vm server node vm st snap a s).1)
  unfolding found_vm
  vm_found-Step done s = elim (Bool-cases (is_mine node st)) [
    | inl e ↦ rw (e, found_vm) (work-Step s.0.status.phase s.0.vm_phase s refl)
    | inr e ↦ rw (e, found_vm) stay
  ]
  vm_found-Step not_found s = stay
  vm_found-Step already_exists s = stay
  vm_found-Step conflict s = stay
  vm_found-Step failed s = stay

  snapshot_found-Step :
      (a : Answer) (s : State)
      → Step (place s) (place (found_snapshot server node vm st snap a s).1)
  unfolding found_snapshot
  snapshot_found-Step done (m, t) = vm_found-Step (server.answer t get_vm) (m, get_vm ∷ t)
  snapshot_found-Step not_found s = stay
  snapshot_found-Step already_exists s = stay
  snapshot_found-Step conflict s = stay
  snapshot_found-Step failed s = stay

  -- Whatever the server, the hypervisor and the host answer, and however the call ends, one call of the
  -- daemon's reconciler of a snapshot changes the phases of the snapshot and of its machine in memory
  -- only along the steps: a scheduled snapshot of a machine that runs gets in progress, while the
  -- machine's phase says so, or only the latter; one in progress is created or fails, and the machine runs
  -- again; one that is created is specified, and one that is specified is ready.
  pub daemon-snapshot-Step :
      (s : State) → Step (place s) (place (reconcile server node vm st snap s).1)
  unfolding reconcile
  daemon-snapshot-Step (m, t) =
      snapshot_found-Step (server.answer t get_snapshot) (m, get_snapshot ∷ t)
