-- ===== src/Controller/Machine/Hotplug.antt =====
-- internal/controller/virtualmachine_controller.go: the pods that hold a machine's hot-plugged
-- volumes, and the status of these volumes.
use ch_vmm.Prelude.{
  ◌<>◌, Bool, true, false, ◌&&◌, List, [], ◌∷◌, ◌++◌, Option, none, some, if◌then◌else◌, ltb,
  length,
}
use ch_vmm.Api.{Volume}
use ch_vmm.Api.Quantity.{Quantities}
use ch_vmm.Controller.Program.{later, err, panicked, Program, ◌>>=◌, ◌>>◌, return, must}
use ch_vmm.Controller.Machine.{
  ConditionSets, empty_dir, claim, mounted_to_pod, ready, detaching, VolumeStatus, Vm, Pod,
  PodTemplate, World, list_pods, create_volume_pod, delete_pod, Server, State, get_status, modify,
  record_event, call, fetch,
}
use ch_vmm.Controller.Machine.Claims.{is_ready, is_block}
use ch_vmm.Controller.Machine.Plugged.{
  status_of, hotplug_volumes, owned_pods, plugged_statuses, left_statuses, leaving_pod,
  some_pending, split_pods,
}

module _ {q : Quantities} {sets : ConditionSets} (server : Server q sets) (w : World q) where
  abbrev M : Type 0 → Type 0
  M A = Program (State q sets) A

  unfoldable pub hotplug_pods : Pod q → M (List (Pod q))
  hotplug_pods pod = do
    answered ← fetch server list_pods server.pods
    must answered.0
    return (owned_pods pod.uid answered.1)

  -- The second loop of `updateHotplugVolumeStatus`. A status without a pod panics.
  unfoldable pub leaving : List VolumeStatus → List (Pod q) → M (List VolumeStatus)
  leaving [] pods = return []
  leaving (s ∷ ss) pods =
      let rest = leaving ss pods in
      elim (leaving_pod s.name none pods) [
        | none ↦ rest
        | some p ↦ elim s.hotplug [
          | none ↦ λ t. (panicked, t)
          | some h ↦ do
            others ← rest
            return (
                record {
                  name = s.name;
                  phase = detaching;
                  hotplug = some (record { pod_name = p.name; pod_uid = p.uid });
                }
                ∷ others)
        ]
      ]

  unfoldable pub update_hotplug_status : Vm q → Pod q → M (Unit {0})
  unfolding hotplug_pods leaving
  update_hotplug_status vm pod = do
    let want = hotplug_volumes w pod.volumes vm.spec.volumes
    status ← get_status
    pods ← hotplug_pods pod
    gone ← leaving (left_statuses want status.volumes) pods
    let volumes = plugged_statuses want status.volumes pods ++ gone
    modify (λ s. record s { volumes = volumes })
    if some_pending volumes then (λ s. (err later, s)) else return tt

  -- `buildHotplugVolumePod`: a volume that is not yet in the machine is mounted, or is a device.
  -- (Its name is the prefix of a name that the server completes; its tolerations, and its affinity to the machine's node, are left out.)
  pub is_held : Option VolumeStatus → Bool
  is_held none = false
  is_held (some s) = elim s.phase [ mounted_to_pod ↦ true | ready ↦ true | _ ↦ false ]

  unfoldable pub add_hotplug : List VolumeStatus → List Volume → PodTemplate q → M (PodTemplate q)
  unfolding is_held
  add_hotplug old [] pod = return pod
  add_hotplug old (v ∷ vs) pod =
      let added = record pod {
        volumes = pod.volumes ++ record { name = v.name; source = claim (w.pvc_name v) } ∷ [];
      } in
      if is_held (status_of v.name old) then add_hotplug old vs added else do
        block ← is_block server v
        let next : PodTemplate q =
            if block
            then record added {
              devices =
                  added.devices ++ record { name = v.name; path = "/hotplug/" <> v.name } ∷ [];
            }
            else record added {
              mounts = added.mounts ++ record { name = v.name; path = "/mnt/" <> v.name } ∷ [];
            }
        add_hotplug old vs next

  unfoldable pub build_hotplug_pod : Vm q → List VolumeStatus → List Volume → M (PodTemplate q)
  unfolding add_hotplug
  build_hotplug_pod vm old want = do
    pod ← add_hotplug old want (record {
      name = vm.name <> "-hotplug-volumes-";
      labels = none;
      annotations = none;
      node_selector = none;
      volumes = record { name = "hotplug"; source = empty_dir } ∷ [];
      init_containers = [];
      resources = record { requests = none; limits = none };
      init_resources = record { requests = none; limits = none };
      mounts = record { name = "hotplug"; path = "/hotplug" } ∷ [];
      devices = [];
      env = [];
      apart_from = [];
    })
    must server.owned
    return pod

  -- The volumes that are ready to be plugged in.
  unfoldable pub ready_volumes : List Volume → M (List Volume)
  ready_volumes [] = return []
  ready_volumes (v ∷ vs) =
      let rest = ready_volumes vs in
      do held ← is_ready server v; others ← rest; return (if held then v ∷ others else others)

  -- The pods that hold other volumes than the machine's are deleted.
  unfoldable pub delete_old : List (Pod q) → M (Unit {0})
  delete_old [] = return tt
  delete_old (p ∷ ps) =
      let rest = delete_old ps in
      if p.deleting then rest else do
        deleted ← call server (delete_pod p.name)
        must deleted
        record_event "DeletedHotplugVolumePod"
        rest

  -- The volume pod is created where none matches and some volume is ready.
  unfoldable pub create_held :
      Vm q → List VolumeStatus → Option (Pod q) → List Volume → M (Unit {0})
  unfolding build_hotplug_pod
  create_held vm old (some p) held = return tt
  create_held vm old none [] = return tt
  create_held vm old none (v ∷ vs) = do
    pod ← build_hotplug_pod vm old (v ∷ vs)
    created ← call server (create_volume_pod pod)
    must created
    record_event "CreatedHotplugVolumePod"

  -- `handleHotplugVolumes`, where `old` is the status of the machine's volumes.
  unfoldable pub handle_hotplug : Vm q → List VolumeStatus → Pod q → Bool → M (Unit {0})
  unfolding ready_volumes hotplug_pods create_held delete_old
  handle_hotplug vm old pod wait_all = do
    let want = hotplug_volumes w pod.volumes vm.spec.volumes
    held ← ready_volumes want
    if wait_all && ltb (length held) (length want) then return tt else do
      pods ← hotplug_pods pod
      let (current, others) = split_pods held pods
      create_held vm old current held
      delete_old others
