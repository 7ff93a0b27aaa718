-- ===== src/Controller/Machine/Transitions.antt =====
-- What the reconciler of a machine does in each phase: which phase it leaves.
use ch_vmm.Prelude.{
  ◌≡◌, refl, sym, subst, ◌⊎◌, inl, inr, String, true, false, not, ◌&&◌, List, [], ◌∷◌, Option, none,
  some, arith, if◌then◌else◌,
}
use mathlib.Core.Option
use ch_vmm.Api.Quantity.{Quantities}
use ch_vmm.Webhook.Field.{is_blank, is_set}
use ch_vmm.Controller.Program.{
  Program, return-Keeps, bind-Keeps, then-Keeps, must_or_missing-Keeps, if-Keeps, option-Keeps,
  return, ◌>>◌,
}
use ch_vmm.Controller.Machine.{
  ConditionSets, Phase, Pod, Vm, World, Server, State, set_phase, modify, delete_pod,
}
use ch_vmm.Controller.Machine.Silent.{Silent, silent, call-Silent, event-Silent}
use ch_vmm.Controller.Machine.Silent.Pods.{build_vm_pod-Silent}
use ch_vmm.Controller.Machine.Silent.Volumes.{handle_hotplug-Silent}
use ch_vmm.Controller.Machine.Phases.{phase_of_pod, phase_of_running, runs, all_attached}
use ch_vmm.Controller.Machine.Resize.{
  is_running, check_resize, resized, finish_resize, drive_resize, resize_found, reconcile_resize,
}
use ch_vmm.Controller.Machine.Reconcile.{
  with_pod, with_pod_phase, with_conditions, create_missing, follow_pod, reconcile_scheduling,
  keep_running, reconcile_running, delete_pods, delete_all_pods, reconcile_ended,
}
use ch_vmm.Controller.Machine.Graph.{
  Step, stay, start, grow, refuse, grown, lose, is_active, is_over, phase_of_pod-Step,
  phase_of_running-Step, phase_in, StepsFrom, Silent-KeepsPhase, finish, then-StepsFrom,
  if-StepsFrom, get_status-KeepsPhase, modify-KeepsPhase, KeepsPhase-StepsFrom, behind-StepsFrom,
  before-StepsFrom,
}
use ch_vmm.Controller.Machine.Moves.{
  find_pod-Silent, create_named-Silent, update_hotplug-KeepsPhase, migrate-KeepsPhase,
}

module _ {q : Quantities} {sets : ConditionSets} (server : Server q sets) (w : World q)
    (vm : Vm q) where
  check_resize_phase :
      (pod : Pod q) (s : State q sets)
      → s.0.phase ≡ Phase.running
      → let p = (check_resize server vm pod s).1.0.phase in
        (p ≡ Phase.running) ⊎ (p ≡ Phase.pod_resize)
  unfolding check_resize
  check_resize_phase pod s e = ground arith

  check_resize-StepsFrom : (pod : Pod q) → StepsFrom Phase.running (check_resize server vm pod)
  check_resize-StepsFrom pod = record {
    led = λ s e. elim (check_resize_phase pod s e) [
      | inl h ↦ subst (λ x. Step Phase.running x) (sym h) stay
      | inr h ↦ subst (λ x. Step Phase.running x) (sym h) grow
    ];
  }

  reconcile_resize_phase :
      (s : State q sets)
      → s.0.phase ≡ Phase.pod_resize
      → let p = (reconcile_resize server vm s).1.0.phase in
        (p ≡ Phase.pod_resize) ⊎ (p ≡ Phase.running) ⊎ (p ≡ Phase.resize) ⊎ (p ≡ Phase.failed)
  unfolding reconcile_resize resize_found drive_resize resized finish_resize
  reconcile_resize_phase s e = ground arith

  pub reconcile_resize-StepsFrom : StepsFrom Phase.pod_resize (reconcile_resize server vm)
  reconcile_resize-StepsFrom = record {
    led = λ s e. elim (reconcile_resize_phase s e) [
      | inl h ↦ subst (λ x. Step Phase.pod_resize x) (sym h) stay
      | inr (inl h) ↦ subst (λ x. Step Phase.pod_resize x) (sym h) refuse
      | inr (inr (inl h)) ↦ subst (λ x. Step Phase.pod_resize x) (sym h) grown
      | inr (inr (inr h)) ↦ subst (λ x. Step Phase.pod_resize x) (sym h) lose
    ];
  }

  keep_running-StepsFrom : (pod : Pod q) → StepsFrom Phase.running (keep_running server w vm pod)
  unfolding keep_running
  keep_running-StepsFrom pod = before-StepsFrom (check_resize-StepsFrom pod) (
      then-Keeps (modify-KeepsPhase (with_conditions server w vm pod) (λ s. refl)) (
        bind-Keeps get_status-KeepsPhase (λ status.
          option-Keeps status.migration
            (then-Keeps
              (Silent-KeepsPhase (handle_hotplug-Silent server w vm status.volumes pod false))
              (update_hotplug-KeepsPhase server w vm pod))
            (migrate-KeepsPhase server w vm))))

  -- The end of `reconcile` for a running machine, which stops unless the machine goes on running.
  set_phase-StepsFrom :
      (next : Phase) (k : Program (State q sets) (Unit {0}))
      → Step Phase.running next
      → StepsFrom Phase.running k
      → StepsFrom Phase.running (set_phase next >> (if not (is_running next) then return tt else k))
  set_phase-StepsFrom Phase.running k st h = record {
    led = λ s e. h.led (record s.0 { phase = Phase.running }, s.1) refl;
  }
  set_phase-StepsFrom p k st h = record { led = λ s e. st }

  pub reconcile_running-StepsFrom : StepsFrom Phase.running (reconcile_running server w vm)
  unfolding reconcile_running
  reconcile_running-StepsFrom = behind-StepsFrom get_status-KeepsPhase (λ status.
      behind-StepsFrom (Silent-KeepsPhase (find_pod-Silent server w vm status.pod_name)) (λ found.
        set_phase-StepsFrom
          (phase_of_running (Option.map (λ p. p.phase) found) (is_set status.migration))
          (elim found [ none ↦ return tt | some pod ↦ keep_running server w vm pod ])
          (phase_of_running-Step (Option.map (λ p. p.phase) found) (is_set status.migration))
          (rest found)))
    where
      rest :
          (found : Option (Pod q))
          → StepsFrom {q = q} {sets = sets} Phase.running
              (elim found [ none ↦ return tt | some pod ↦ keep_running server w vm pod ])
      rest none = KeepsPhase-StepsFrom (return-Keeps _)
      rest (some pod) = keep_running-StepsFrom pod

  with_pod_phase-StepsFrom :
      {p : Phase} (pod : Pod q)
      → is_active p ≡ true
      → StepsFrom p (modify (with_pod_phase server w vm pod))
  with_pod_phase-StepsFrom pod active = record {
    led = λ s e.
        let attached = all_attached w.is_hotpluggable vm.spec.volumes s.0.volumes in
        subst (λ x. Step x (phase_of_pod s.0.phase pod.phase attached)) e
          (phase_of_pod-Step s.0.phase pod.phase attached
            (subst (λ x. is_active x ≡ true) (sym e) active));
  }

  follow_pod-StepsFrom :
      {p : Phase} (pod : Pod q) → is_active p ≡ true → StepsFrom p (follow_pod server w vm pod)
  unfolding follow_pod
  follow_pod-StepsFrom {p} pod active =
      then-StepsFrom (modify-KeepsPhase (with_pod server w vm pod) (λ s. refl)) (
        behind-StepsFrom get_status-KeepsPhase (λ known.
          then-StepsFrom
            (if-Keeps (is_blank pod.node_name) (return-Keeps tt)
              (Silent-KeepsPhase (handle_hotplug-Silent server w vm known.volumes pod true)))
            (before-StepsFrom (with_pod_phase-StepsFrom pod active)
              (update_hotplug-KeepsPhase server w vm pod))))

  create_missing-StepsFrom :
      (p : Phase) (name : String)
      → is_active p ≡ true
      → StepsFrom p (create_missing server w vm p name)
  unfolding create_missing
  create_missing-StepsFrom Phase.scheduling name h = KeepsPhase-StepsFrom (
      bind-Keeps (Silent-KeepsPhase (build_vm_pod-Silent server w vm))
        (λ pod. Silent-KeepsPhase (create_named-Silent server w vm name "CreatedVMPod" pod)))
  create_missing-StepsFrom p name h = record { led = λ s e. finish h refl }

  pub reconcile_scheduling-Step :
      (s : State q sets)
      → is_active s.0.phase ≡ true
      → Step s.0.phase (phase_in (reconcile_scheduling server w vm s).1)
  unfolding reconcile_scheduling
  reconcile_scheduling-Step s active =
      (behind-StepsFrom (Silent-KeepsPhase (find_pod-Silent server w vm s.0.pod_name)) by_found).led
        s refl
    where
      by_found :
          (found : Option (Pod q))
          → StepsFrom {q = q} {sets = sets} s.0.phase (elim found [
            | none ↦ create_missing server w vm s.0.phase s.0.pod_name
            | some pod ↦ follow_pod server w vm pod
          ])
      by_found none = create_missing-StepsFrom s.0.phase s.0.pod_name active
      by_found (some pod) = follow_pod-StepsFrom pod active

  delete_pods-Silent : (ps : List (Pod q)) → Silent (delete_pods server w vm ps)
  unfolding delete_pods
  delete_pods-Silent [] = search silent
  delete_pods-Silent (p ∷ ps) = if-Keeps p.deleting (delete_pods-Silent ps) (
      bind-Keeps (call-Silent server (delete_pod p.name)) (λ deleted.
        then-Keeps (must_or_missing-Keeps deleted)
          (then-Keeps (event-Silent "DeletedVMPod") (delete_pods-Silent ps))))

  pub delete_all_pods-Silent : Silent (delete_all_pods server w vm)
  unfolding delete_all_pods
  delete_all_pods-Silent = search (silent, delete_pods-Silent)

  pub reconcile_ended-StepsFrom :
      {p : Phase} → is_over p ≡ true → StepsFrom p (reconcile_ended server w vm)
  unfolding reconcile_ended
  reconcile_ended-StepsFrom over =
      behind-StepsFrom (Silent-KeepsPhase delete_all_pods-Silent) (λ deleted.
        behind-StepsFrom get_status-KeepsPhase (λ status.
          if-StepsFrom {m = set_phase Phase.pending}
            (deleted && runs (w.policy_of vm.spec.run_policy) status.phase status.power_on)
            (record { led = λ s e. start over }) (KeepsPhase-StepsFrom (return-Keeps tt))))
