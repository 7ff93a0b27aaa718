-- ===== src/Controller/Machine/Resize.antt =====
-- internal/controller/virtualmachine_controller.go: how a change of a machine's CPUs or memory
-- reaches its pod.
use ch_vmm.Prelude.{
  String, Bool, true, false, not, ◌&&◌, ◌||◌, List, [], ◌∷◌, Option, none, some, if◌then◌else◌,
  str_eq,
}
use ch_vmm.Api.{ResourceList, Resources, VirtualMachineSpec}
use ch_vmm.Api.Quantity.{Quantities}
use ch_vmm.Webhook.Machine.{quantity_of, mul32}
use ch_vmm.Controller.Program.{
  Answer, done, not_found, conflict, failed, Program, ◌>>=◌, ◌>>◌, return, fail,
}
use ch_vmm.Controller.Machine.{
  ConditionSets, Phase, Container, ContainerStatus, Pod, Vm, get_pod, resize_pod, Server, State,
  get_status, set_phase, record_event, call, fetch,
}

abbrev pub is_running : Phase → Bool
is_running Phase.running = true
is_running p = false

-- `actual.IsZero() || !actual.Equal(desired)`
unfoldable pub differs : (q : Quantities) → q.Quantity → q.Quantity → Bool
differs q actual desired = q.is_zero actual || not (q.same actual desired)

-- `m[name] = value`, on a map that is made where it is nil.
unfoldable pub put_quantity :
    (q : Quantities) → String → q.Quantity → ResourceList q → ResourceList q
put_quantity q name value m =
    some (λ n. if str_eq n name then some value else elim m [ none ↦ none | some known ↦ known n ])

module _ {q : Quantities} where
  -- The resources of the first container "vm-manager" whose status has some.
  pub actual_resources : List (ContainerStatus q) → Option (Resources q)
  actual_resources [] = none
  actual_resources (c ∷ cs) =
      if str_eq c.name "vm-manager"
      then elim c.resources [ none ↦ actual_resources cs | some r ↦ some r ]
      else actual_resources cs

  -- Those of the first such container of the pod's specification.
  pub spec_resources : List (Container q) → Option (Resources q)
  spec_resources [] = none
  spec_resources (c ∷ cs) =
      if str_eq c.name "vm-manager" then some c.resources else spec_resources cs

  unfoldable pub desired_cpu : VirtualMachineSpec q → q.Quantity
  desired_cpu s =
      q.new_quantity (mul32 s.instance_spec.cpu.sockets s.instance_spec.cpu.cores_per_socket)

  unfoldable pub desired_memory : VirtualMachineSpec q → q.Quantity
  desired_memory s = q.plus s.instance_spec.memory.size (q.must_parse "256Mi")

  -- `cpuChanged || memoryChanged`, and `needsPodResize`.
  unfoldable pub needs_resize : VirtualMachineSpec q → Resources q → Bool
  unfolding differs desired_cpu desired_memory
  needs_resize s r =
      differs q (quantity_of q r.requests "cpu") (desired_cpu s)
      || differs q (quantity_of q r.requests "memory") (desired_memory s)

  unfoldable pub desired_resources : VirtualMachineSpec q → Resources q → Resources q
  unfolding put_quantity desired_cpu desired_memory
  desired_resources s r = record {
    requests =
        put_quantity q "memory" (desired_memory s)
          (put_quantity q "cpu" (desired_cpu s) r.requests);
    limits =
        put_quantity q "memory" (desired_memory s) (put_quantity q "cpu" (desired_cpu s) r.limits);
  }

  -- `podResizePatch`: the first container "vm-manager" is changed.
  pub patch_containers : VirtualMachineSpec q → List (Container q) → List (Container q)
  unfolding desired_resources
  patch_containers s [] = []
  patch_containers s (c ∷ cs) =
      if str_eq c.name "vm-manager"
      then record c { resources = desired_resources s c.resources } ∷ cs
      else c ∷ patch_containers s cs

module _ {q : Quantities} {sets : ConditionSets} (server : Server q sets) where
  abbrev M : Type 0 → Type 0
  M A = Program (State q sets) A

  -- `checkAndSetResizePhase`
  unfoldable pub check_resize : Vm q → Pod q → M (Unit {0})
  unfolding actual_resources needs_resize
  check_resize vm pod = do
    status ← get_status
    if not (is_running status.phase)
        then return tt
        else elim (actual_resources pod.container_statuses) [
          | none ↦ fail failed
          | some r ↦
              if needs_resize vm.spec r
              then (do set_phase Phase.pod_resize; record_event "VMResizeInitiated")
              else return tt
        ]

  -- The answer to the update of the resize subresource.
  unfoldable pub resized : Answer → M (Unit {0})
  resized done = record_event "VMResizePodInitiated"
  resized conflict = return tt
  resized e = do record_event "VMResizeFailed"; fail e

  -- The end of `reconcileVMPodResize`, where the pod asks for what the machine wants.
  unfoldable pub finish_resize : Vm q → Option (Resources q) → M (Unit {0})
  unfolding desired_cpu desired_memory
  finish_resize vm none = return tt
  finish_resize vm (some r) =
      if q.same (quantity_of q r.requests "cpu") (desired_cpu vm.spec)
        && q.same (quantity_of q r.requests "memory") (desired_memory vm.spec)
      then (do set_phase Phase.resize; record_event "VMResizeInProgress")
      else return tt

  -- The resources of the pod: those in force if known, else those of its specification.
  pub current_resources : Pod q → Option (Resources q)
  unfolding actual_resources spec_resources
  current_resources pod = elim (actual_resources pod.container_statuses) [
    | some r ↦ some r
    | none ↦ spec_resources pod.containers
  ]

  unfoldable pub drive_resize : Vm q → Pod q → M (Unit {0})
  unfolding current_resources needs_resize patch_containers resized finish_resize actual_resources
  drive_resize vm pod =
      if str_eq pod.resize "InProgress"
      then return tt
      else if str_eq pod.resize "Infeasible"
      then (do record_event "VMPodResizeInfeasible"; set_phase Phase.running)
      else elim (current_resources pod) [
        | none ↦ return tt
        | some r ↦
            if needs_resize vm.spec r
            then (do
              answered ←
                  call server (
                    resize_pod
                      (record pod { containers = patch_containers vm.spec pod.containers }))
              resized answered)
            else finish_resize vm (actual_resources pod.container_statuses)
      ]

  unfoldable pub resize_found : Vm q → Answer × Pod q → M (Unit {0})
  unfolding drive_resize
  resize_found vm (done, pod) = drive_resize vm pod
  resize_found vm (not_found, pod) = set_phase Phase.failed
  resize_found vm (e, pod) = fail e

  -- `reconcileVMPodResize`
  unfoldable pub reconcile_resize : Vm q → M (Unit {0})
  unfolding resize_found
  reconcile_resize vm = do
    status ← get_status
    answered ← fetch server (get_pod status.pod_name) (λ t. server.pod t status.pod_name)
    resize_found vm answered
