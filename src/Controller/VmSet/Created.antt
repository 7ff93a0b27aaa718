-- ===== src/Controller/VmSet/Created.antt =====
-- Which machines the reconciler of a VMSet creates, in a call as a whole.
use ch_vmm.Controller.Program.{
  Answer, done, not_found, already_exists, conflict, failed, bind, ◌>>=◌, ◌>>◌, return, fail, must,
}
use ch_vmm.Prelude.{
  ◌≡◌, refl, sym, ◌∙◌, Bool, true, false, List, [], ◌∷◌, some, if◌then◌else◌, length, arith,
}
use ch_vmm.Controller.Client.{
  Vm, Request, get_set, list_vms, add_finalizer, remove_finalizer, Trace, M, Server, call,
}
use ch_vmm.Controller.Shrink.{Requeue}
use ch_vmm.Controller.VmSet.{
  VmSet, delete_on_delete, sort_vms, scale_up, remove_vm, scale_down, write_status, desired_of,
  scale, current_vms, reconcile_set, remove_all, handle_deletion, dispatch, reconcile,
}
use ch_vmm.Prelude.Int64.{lt32}
use ch_vmm.Controller.VmSet.Creates.{
  counted, Creates, bind-Kept, remove_vm-Creates, length-sort_vms, scale_up-Creates,
  scale_down-Creates,
}

module _ (server : Server) (set : VmSet) where
  either-Creates :
      {A : Type 0} (b : Bool) (m k : M A) (t : Trace)
      → Creates server set (m t).1
      → Creates server set (k t).1
      → Creates server set ((if b then m else k) t).1
  either-Creates true m k t h h' = h
  either-Creates false m k t h h' = h'

  write_status-Creates :
      (vs : List Vm) (t : Trace)
      → Creates server set t
      → Creates server set (write_status server set vs t).1
  unfolding write_status Creates
  write_status-Creates vs t h = ground (arith, h)

  scale-Creates :
      (vs : List Vm) (t : Trace)
      → counted server set t ≡ length vs
      → Creates server set t
      → Creates server set (scale server set vs t).1
  unfolding scale
  scale-Creates vs t c h =
      let current = sort_vms vs in
      let desired = desired_of set.replicas in
      let down : M Requeue =
        (if lt32 desired (length current)
          then scale_down server set current desired
          else write_status server set current) in
      either-Creates (lt32 (length current) desired) (scale_up server set current) down t
        (scale_up-Creates server set current t (c ∙ sym (length-sort_vms server set vs)) h)
        (either-Creates (lt32 desired (length current)) (scale_down server set current desired)
          (write_status server set current) t (scale_down-Creates server set current desired t h)
          (write_status-Creates current t h))

  listed-Creates :
      {A : Type 0} (f : List Vm → M A) (t : Trace)
      → Creates server set t
      → ((vs : List Vm) (t : Trace)
          → counted server set t ≡ length vs
          → Creates server set t
          → Creates server set (f vs t).1)
      → Creates server set (bind (current_vms server set t) f).1
  unfolding current_vms Creates counted
  listed-Creates f t h k = by_test set.selector_valid (server.answer t list_vms) refl
    where
      by_test :
          (b : Bool) (a : Answer)
          → server.answer t list_vms ≡ a
          → Creates server set
              (bind
                (if b
                  then (do
                    answered ← call server list_vms
                    must answered
                    return (server.listed_vms t))
                      t
                  else fail Answer.failed t)
                f).1
      by_test false a e = h
      by_test true done e = rw e (k (server.listed_vms t) (list_vms ∷ t) refl h)
      by_test true not_found e = rw e h
      by_test true already_exists e = rw e h
      by_test true conflict e = rw e h
      by_test true failed e = rw e h

  reconcile_set-Creates :
      (t : Trace) → Creates server set t → Creates server set (reconcile_set server set t).1
  unfolding reconcile_set
  reconcile_set-Creates t h = listed-Creates (scale server set) t h scale-Creates

  remove_all-Creates :
      (vs : List Vm) (t : Trace)
      → Creates server set t
      → Creates server set (remove_all server set vs t).1
  unfolding remove_all
  remove_all-Creates [] t h = h
  remove_all-Creates (v ∷ vs) t h =
      bind-Kept (Creates server set) (Creates server set)
        (remove_vm server set (delete_on_delete set) v t) _ (remove_vm-Creates server set _ v t h)
        (λ t' k. k) (λ _. remove_all-Creates vs)

  updated-Creates :
      (r : Request) (t : Trace)
      → Creates server set (r ∷ t)
      → Creates server set ((do updated ← call server r; must updated; return {A = Requeue} 0) t).1
  updated-Creates r t h =
      bind-Kept (Creates server set) (Creates server set) (must (server.answer t r) (r ∷ t)) _
        (must-kept (server.answer t r)) (λ t' k. k) (λ _ t' k. k)
    where
      must-kept : (a : Answer) → Creates server set (must a (r ∷ t)).1
      must-kept done = h
      must-kept not_found = h
      must-kept already_exists = h
      must-kept conflict = h
      must-kept failed = h

  handle_deletion-Creates :
      (t : Trace) → Creates server set t → Creates server set (handle_deletion server set t).1
  unfolding handle_deletion Creates
  handle_deletion-Creates t h = listed-Creates _ t h (λ vs t' c h'.
      bind-Kept (Creates server set) (Creates server set) (remove_all server set vs t') _
        (remove_all-Creates vs t' h') (λ t'' k. k)
        (λ _ t'' k. updated-Creates remove_finalizer t'' k))

  dispatch-Creates :
      (a : Answer) (t : Trace)
      → Creates server set t
      → Creates server set (dispatch server a (some set) t).1
  unfolding dispatch Creates
  dispatch-Creates done t h =
      either-Creates set.deleting (handle_deletion server set) _ t (handle_deletion-Creates t h) (
        either-Creates set.guarded (reconcile_set server set) _ t (reconcile_set-Creates t h)
          (updated-Creates add_finalizer t h))
  dispatch-Creates not_found t h = h
  dispatch-Creates already_exists t h = h
  dispatch-Creates conflict t h = h
  dispatch-Creates failed t h = h

  -- Whatever the server answers, and however the call ends, the reconciler of a set keeps the rule that a
  -- machine is created only under the ordinal that is the number of the machines of the last list, and
  -- where the request for a machine of that name, with no creation since, has found none.
  pub reconcile-Creates :
      (t : Trace) → Creates server set t → Creates server set (reconcile server (some set) t).1
  unfolding reconcile Creates
  reconcile-Creates t h = dispatch-Creates (server.answer t get_set) (get_set ∷ t) h
