-- ===== src/Daemon/Reconcile.antt =====
-- pkg/daemon/vm_controller.go: the reconciler of a machine on its node.
use ch_vmm.Prelude.{String, Bool, false, not, ◌&&◌, ◌||◌, none, some, if◌then◌else◌, str_eq}
use ch_vmm.Webhook.Field.{is_blank}
use ch_vmm.Controller.Program.{
  Answer, done, not_found, conflict, Result, ok, err, panicked, Outcome, again, settled,
  in_fifteen_seconds, Program, ◌>>=◌, ◌>>◌, return, fail,
}
use ch_vmm.Controller.Machine.{PodPhase}
use ch_vmm.Daemon.{
  Vm, Status, Phase, Pod, Call, get_vm, get_pod, update_status, Server, Node, State, get_status,
  set_phase, record_event, call, fetch,
}
use ch_vmm.Daemon.Umounts.{cleanup}
use ch_vmm.Daemon.Phases.{ask, reconcile_phase}

abbrev pub is_here : Node → String → Bool
is_here node name = not (is_blank name) && str_eq name node.name

-- Whether the machine is on this node, or comes to it.
unfoldable pub is_mine : Node → Status → Bool
is_mine node s =
    is_here node s.node_name
    || elim s.migration [ none ↦ false | some m ↦ is_here node m.target_node ]

module _ (server : Server) (node : Node) (vm : Vm) where
  abbrev M : Type 0 → Type 0
  M A = Program State A

  unfoldable pub deleted_if : Answer → M (Unit {0})
  deleted_if done = record_event "VMDeleted"
  deleted_if not_found = record_event "VMDeleted"
  deleted_if e = fail e

  unfoldable pub delete_if : PodPhase → Bool → M (Unit {0})
  unfolding deleted_if
  delete_if PodPhase.running false = do
    answered ← ask server node vm Call.delete
    deleted_if answered
  delete_if p deleting = return tt

  unfoldable pub delete_vm : Pod → M (Unit {0})
  unfolding delete_if
  delete_vm pod = delete_if pod.phase pod.deleting

  -- `reconcileDeletingVM`
  unfoldable pub reconcile_deleting : Pod → M (Unit {0})
  unfolding delete_vm
  reconcile_deleting pod = do delete_vm pod; set_phase Phase.succeeded; cleanup server node vm

  unfoldable pub with_pod : Answer × Pod → M (Unit {0})
  unfolding reconcile_deleting
  with_pod (done, pod) = do
    status ← get_status
    if vm.deleting
        then (if str_eq status.node_name node.name then reconcile_deleting pod else return tt)
        else reconcile_phase server node vm status.phase pod
  with_pod (not_found, pod) = return tt
  with_pod (e, pod) = fail e

  -- `chReconcile`
  unfoldable pub ch_reconcile : M (Unit {0})
  unfolding with_pod is_mine
  ch_reconcile = do
    status ← get_status
    if is_mine node status
        then (do answered ← fetch server (get_pod status.pod_name) server.pod; with_pod answered)
        else return tt

  -- The answer to the update of the status counts only where all else went well.
  unfoldable pub conclude : Result (Unit {0}) → Answer → M Outcome
  conclude (err e) updated = λ s. (err e, s)
  conclude panicked updated = λ s. (panicked, s)
  conclude (ok x) done = return in_fifteen_seconds
  conclude (ok x) conflict = return again
  conclude (ok x) e = fail e

  -- The status is written each time; nothing is written behind a panic.
  unfoldable pub report : Result (Unit {0}) → M Outcome
  unfolding conclude
  report panicked = λ s. (panicked, s)
  report r = do
    status ← get_status
    updated ← call server (update_status status)
    conclude r updated

  unfoldable pub found_vm : Answer → M Outcome
  unfolding ch_reconcile report
  found_vm done s = let (r, s') = ch_reconcile s in report r s'
  found_vm not_found s = return settled s
  found_vm e s = fail e s

  -- `Reconcile`, where the memory has the status that the server has if the answer is `done`.
  unfoldable pub reconcile : M Outcome
  unfolding found_vm
  reconcile = do answered ← call server get_vm; found_vm answered
