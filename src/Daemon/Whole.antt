-- ===== src/Daemon/Whole.antt =====
-- The reconciler of the daemon as a whole: what it leaves of the phase, the migration and the node.
use ch_vmm.Prelude.{
  ◌≡◌, refl, sym, subst, inl, inr, Bool, true, false, ◌∷◌, Option, none, some, if◌then◌else◌,
  str_eq, arith,
}
use ch_vmm.Controller.Program.{
  Answer, Answer-cases, done, not_found, already_exists, conflict, Result, Program, return,
  return-Keeps, Keeps-Changes, then-Changes, bind-Changes, if-Changes, bind-Keeps,
}
use ch_vmm.Controller.Machine.{PodPhase}
use ch_vmm.Daemon.{Vm, Status, Phase, Migration, Pod, Server, Node, State, get_vm, get_pod}
use ch_vmm.Daemon.Frame.{Frames, fail-Frames, event-Frames, get_status-Frames}
use ch_vmm.Daemon.Frame.Mounted.{cleanup-Frames}
use ch_vmm.Daemon.Phases.{reconcile_serving, reconcile_running, reconcile_phase}
use ch_vmm.Daemon.Reconcile.{
  is_mine, deleted_if, delete_if, delete_vm, reconcile_deleting, with_pod, ch_reconcile, conclude,
  report, found_vm, reconcile,
}
use ch_vmm.Daemon.Steps.{
  Step, stay, remove, phase_in, Goes, Frames-Goes, set_phase-Goes, ask-Frames, restoring-Goes,
  scheduled-Goes, reconcile_paused-Frames, resumed-Goes, resizing-Goes, serving-Goes, if_here-Goes,
}
use ch_vmm.Daemon.Migrate.{migrate}
use ch_vmm.Daemon.Handover.{migrate-KeepsPhase}

-- The state in which the daemon has read a machine and its pod.
abbrev pub read : State → State
read (m, t) = (m, get_pod m.status.pod_name ∷ get_vm ∷ t)

module _ (server : Server) (node : Node) (vm : Vm) (R : Status → Status → Type 0)
    (same : (x : Status) → R x x) (s : State)
    (work : (pod : Pod)
      → R s.0.status (reconcile_phase server node vm s.0.status.phase pod (read s)).1.0.status)
    (removal : (pod : Pod)
      → vm.deleting ≡ true
      → R s.0.status (reconcile_deleting server node vm pod (read s)).1.0.status) where
  if_relates :
      {A : Type 0} (m k : Program State A) (b : Bool) (s' : State)
      → (b ≡ true → R s.0.status (m s').1.0.status)
      → (b ≡ false → R s.0.status (k s').1.0.status)
      → R s.0.status ((if b then m else k) s').1.0.status
  if_relates m k true s' h h' = h refl
  if_relates m k false s' h h' = h' refl

  with_pod_relates :
      (a : Answer × Pod) → R s.0.status (with_pod server node vm a (read s)).1.0.status
  unfolding with_pod
  with_pod_relates (done, pod) =
      if_relates _ _ vm.deleting (read s)
        (λ d.
          if_relates _ _ (str_eq s.0.status.node_name node.name) (read s) (λ _. removal pod d)
            (λ _. same s.0.status))
        (λ _. work pod)
  with_pod_relates (not_found, pod) = same s.0.status
  with_pod_relates (already_exists, pod) = same s.0.status
  with_pod_relates (conflict, pod) = same s.0.status
  with_pod_relates (Answer.failed, pod) = same s.0.status

  ch_reconcile_relates : R s.0.status (ch_reconcile server node vm (s.0, get_vm ∷ s.1)).1.0.status
  unfolding ch_reconcile
  ch_reconcile_relates =
      if_relates _ _ (is_mine node s.0.status) (s.0, get_vm ∷ s.1)
        (λ _.
          with_pod_relates
            (server.answer (get_vm ∷ s.1) (get_pod s.0.status.pod_name), server.pod (get_vm ∷ s.1)))
        (λ _. same s.0.status)

  report_status :
      (r : Result (Unit {0})) (s' : State) → (report server node vm r s').1.0.status ≡ s'.0.status
  unfolding report conclude
  report_status r s' = ground arith

  -- A relation of the status before and after a call holds if it does for the work on the machine,
  -- and for that on one that is being deleted.
  pub reconcile_relates : R s.0.status (reconcile server node vm s).1.0.status
  unfolding reconcile found_vm
  reconcile_relates = elim (Answer-cases (server.answer s.1 get_vm)) [
    | inl e ↦ rw e (
        let r = ch_reconcile server node vm (s.0, get_vm ∷ s.1) in
        subst (λ x. R s.0.status x) (sym (report_status r.0 r.1)) ch_reconcile_relates)
    | inr (inl e) ↦ rw e (same s.0.status)
    | inr (inr (inl e)) ↦ rw e (same s.0.status)
    | inr (inr (inr (inl e))) ↦ rw e (same s.0.status)
    | inr (inr (inr (inr e))) ↦ rw e (same s.0.status)
  ]

module _ (server : Server) (node : Node) (vm : Vm) where
  pub delete_if-Frames : (p : PodPhase) (b : Bool) → Frames (delete_if server node vm p b)
  unfolding delete_if deleted_if
  delete_if-Frames PodPhase.running true = return-Keeps tt
  delete_if-Frames PodPhase.running false = bind-Keeps (ask-Frames server node vm _) at_answer
    where
      at_answer : (a : Answer) → Frames (deleted_if server node vm a)
      at_answer done = event-Frames _
      at_answer not_found = event-Frames _
      at_answer already_exists = fail-Frames _
      at_answer conflict = fail-Frames _
      at_answer Answer.failed = fail-Frames _
  delete_if-Frames PodPhase.pending b = return-Keeps tt
  delete_if-Frames PodPhase.succeeded b = return-Keeps tt
  delete_if-Frames PodPhase.failed b = return-Keeps tt
  delete_if-Frames PodPhase.unknown b = return-Keeps tt

  running-Goes :
      (d : Bool) (pod : Pod) → Goes d Phase.running (reconcile_running server node vm pod)
  unfolding reconcile_running
  running-Goes d pod =
      bind-Changes (Frames-Goes d _ get_status-Frames) (λ s. at_migration s s.migration)
    where
      at_migration :
          (s : Status) (o : Option Migration)
          → Goes d Phase.running (elim o [
            | some m ↦ migrate server node vm m pod
            | none ↦
                if str_eq s.node_name node.name then reconcile_serving server node vm else return tt
          ])
      at_migration s (some m) = Keeps-Changes (migrate-KeepsPhase server node vm m pod)
      at_migration s none =
          if-Changes (str_eq s.node_name node.name) (serving-Goes server node vm d)
            (Frames-Goes d _ (return-Keeps tt))

  reconcile_phase-Goes :
      (d : Bool) (p : Phase) (pod : Pod) → Goes d p (reconcile_phase server node vm p pod)
  unfolding reconcile_phase
  reconcile_phase-Goes d Phase.restoring pod = restoring-Goes server node vm d
  reconcile_phase-Goes d Phase.scheduled pod = scheduled-Goes server node vm d
  reconcile_phase-Goes d Phase.paused pod =
      if_here-Goes server node vm d _ (Frames-Goes d _ (reconcile_paused-Frames server node vm))
  reconcile_phase-Goes d Phase.resumed pod =
      if_here-Goes server node vm d _ (resumed-Goes server node vm d)
  reconcile_phase-Goes d Phase.resizing pod =
      if_here-Goes server node vm d _ (resizing-Goes server node vm d)
  reconcile_phase-Goes d Phase.running pod = running-Goes d pod
  reconcile_phase-Goes d Phase.succeeded pod = Frames-Goes d _ (cleanup-Frames server node vm)
  reconcile_phase-Goes d Phase.failed pod = Frames-Goes d _ (cleanup-Frames server node vm)
  reconcile_phase-Goes d Phase.snapshotting pod = Frames-Goes d _ (return-Keeps tt)
  reconcile_phase-Goes d Phase.other pod = Frames-Goes d _ (return-Keeps tt)

  deleting-Goes :
      (p : Phase) (pod : Pod)
      → vm.deleting ≡ true
      → Goes vm.deleting p (reconcile_deleting server node vm pod)
  unfolding reconcile_deleting delete_vm
  deleting-Goes p pod d = then-Changes (Frames-Goes _ p (delete_if-Frames pod.phase pod.deleting)) (
      then-Changes (set_phase-Goes _ p Phase.succeeded (remove d))
        (Frames-Goes _ p (cleanup-Frames server node vm)))

  Goes-Step :
      (d : Bool) {m : Program State (Unit {0})} (s : State)
      → Goes d (phase_in s) m
      → Step d (phase_in s) (phase_in (m s).1)
  Goes-Step d s h = elim (h.changed s) [
    | inl e ↦ subst (λ x. Step d (phase_in s) x) (sym e) stay
    | inr st ↦ st
  ]

  -- Whatever the server, the hypervisor and the host answer, and however the call ends, one call of
  -- the daemon's reconciler changes the phase of a machine only along the steps: a scheduled machine
  -- is restored or runs, is paused or fails; one that is restored is resumed, one that is resumed or
  -- resized runs, one that runs ends, and any ends that is being deleted.
  pub daemon-reconcile-Step :
      (s : State) → Step vm.deleting s.0.status.phase (phase_in (reconcile server node vm s).1)
  daemon-reconcile-Step s =
      reconcile_relates server node vm (λ x y. Step vm.deleting x.phase y.phase) (λ x. stay) s
        (λ pod. Goes-Step vm.deleting (read s) (reconcile_phase-Goes vm.deleting (phase_in s) pod))
        (λ pod d. Goes-Step vm.deleting (read s) (deleting-Goes (phase_in s) pod d))
