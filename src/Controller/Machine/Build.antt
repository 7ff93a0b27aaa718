-- ===== src/Controller/Machine/Build.antt =====
-- internal/controller/virtualmachine_controller.go: `buildVMPod` and `buildTargetVMPod`, with the
-- requests that they make.
use ch_vmm.Prelude.{String, ◌<>◌, List, [], ◌∷◌, ◌++◌, none, some, if◌then◌else◌}
use ch_vmm.Api.{Volume}
use ch_vmm.Api.Quantity.{Quantities}
use ch_vmm.Webhook.Field.{is_set}
use ch_vmm.Controller.Program.{failed, later, err, Program, ◌>>=◌, ◌>>◌, return, fail}
use ch_vmm.Controller.Machine.{
  ConditionSets, empty_dir, claim, text, PodTemplate, Vm, World, Server, State,
}
use ch_vmm.Controller.Machine.Claims.{is_ready, is_block}
use ch_vmm.Controller.Machine.Template.{
  add_volume, add_mount, add_device, add_env, mount_of, add_mounted, new_pod, add_devices,
  add_kernel, add_hugepages, add_filled, add_cloud_init, add_gpus, shared_vm,
}
use ch_vmm.Controller.Machine.Networks.{attach_networks, annotate_networks}

-- `strings.Join(names, ",")`
pub join_names : List String → String
join_names [] = ""
join_names (name ∷ []) = name
join_names (name ∷ names) = name <> "," <> join_names names

module _ {q : Quantities} {sets : ConditionSets} (server : Server q sets) (w : World q) where
  abbrev M : Type 0 → Type 0
  M A = Program (State q sets) A

  -- The volumes on claims: the pod, and the names of the block devices so far.
  unfoldable pub add_claimed :
      Volume → PodTemplate q × List String → M (PodTemplate q × List String)
  add_claimed v (pod, blocks) = do
    ready ← is_ready server v
    if ready then return tt else (λ s. (err later, s))
    block ← is_block server v
    let found : List String = if block then blocks ++ v.name ∷ [] else blocks
    let claimed = add_volume v.name (claim (w.pvc_name v)) pod
    return (
      if w.is_hotpluggable v
          then pod
          else if block
          then add_device (mount_of v.name) claimed
          else add_mount (mount_of v.name) claimed,
      found,
    )

  -- One round of the loop over the volumes.
  unfoldable pub add_source :
      Vm q → Volume → PodTemplate q × List String → M (PodTemplate q × List String)
  unfolding add_claimed
  add_source vm v (pod, blocks) = elim v.source.container_disk [
    | some d ↦
        return (add_filled v.name d.image (("/mnt/" <> v.name <> "/disk.raw") ∷ []) pod, blocks)
    | none ↦ elim v.source.cloud_init [
      | some c ↦ return (add_cloud_init w vm v.name c pod, blocks)
      | none ↦ elim v.source.container_rootfs [
        | some d ↦ return (
          add_filled v.name d.image (("/mnt/" <> v.name <> "/rootfs.raw") ∷ w.rootfs_size v ∷ [])
              pod,
          blocks,
        )
        | none ↦
            if is_set v.source.memory_snapshot
            then return (add_mounted v.name empty_dir (mount_of v.name) pod, blocks)
            else if is_set v.source.persistent_volume_claim
            then add_claimed v (pod, blocks)
            else if is_set v.source.data_volume
            then add_claimed v (pod, blocks)
            else if is_set v.source.virtual_disk
            then add_claimed v (pod, blocks)
            else return (pod, blocks)
      ]
    ]
  ]

  unfoldable pub add_sources :
      Vm q → List Volume → PodTemplate q × List String → M (PodTemplate q × List String)
  unfolding add_source
  add_sources vm [] made = return made
  add_sources vm (v ∷ vs) made = do next ← add_source vm v made; add_sources vm vs next

  -- The end of `buildVMPod`: the networks, the machine itself, and the maps that the init containers
  -- share with it.
  unfoldable pub finish_pod : Vm q → PodTemplate q → M (PodTemplate q)
  finish_pod vm pod = do
    attached ←
        attach_networks server w vm.spec.instance_spec.interfaces 0 vm.spec.networks
          (record { pod = add_gpus vm.spec.instance_spec.gpus pod; userspace = 0; selected = [] })
    annotated ← annotate_networks server w attached
    elim (w.vm_json (shared_vm vm annotated)) [
      | none ↦ fail failed
      | some json ↦ return (
          add_env "VM_DATA" (text (w.base64 json))
            (record annotated { init_resources = (shared_vm vm annotated).spec.resources }))
    ]

  unfoldable pub build_vm_pod : Vm q → M (PodTemplate q)
  unfolding add_sources finish_pod join_names
  build_vm_pod vm = do
    made ←
        add_sources vm vm.spec.volumes
          (add_hugepages vm (add_kernel vm (add_devices vm (new_pod vm))), [])
    finish_pod vm (elim made.1 [
      | [] ↦ made.0
      | _ ↦ add_env "BLOCK_VOLUMES" (text (join_names made.1)) made.0
    ])

  unfoldable pub build_target_pod : Vm q → M (PodTemplate q)
  unfolding build_vm_pod
  build_target_pod vm = do
    pod ← build_vm_pod vm
    return (record (add_env "RECEIVE_MIGRATION" (text "true") pod) {
      apart_from = pod.apart_from ++ vm.name ∷ [];
    })
