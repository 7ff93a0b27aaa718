-- ===== src/Controller/Machine/Silent/Volumes.antt =====
-- The pods of hot-plugged volumes: only `updateHotplugVolumeStatus` changes the status, and only that
-- of the volumes.
use ch_vmm.Prelude.{Bool, List, [], ◌∷◌, Option, none, some}
use ch_vmm.Api.{Volume}
use ch_vmm.Api.Quantity.{Quantities}
use ch_vmm.Controller.Program.{
  return-Keeps, option-Keeps, bind-Keeps, then-Keeps, must-Keeps, if-Keeps,
}
use ch_vmm.Controller.Machine.{
  ConditionSets, PodTemplate, Pod, Vm, World, Server, VolumeStatus, delete_pod,
}
use ch_vmm.Controller.Machine.Silent.{
  Silent, silent, call-Silent, event-Silent, is_block-Silent, is_ready-Silent,
}
use ch_vmm.Controller.Machine.Plugged.{leaving_pod}
use ch_vmm.Controller.Machine.Hotplug.{
  hotplug_pods, leaving, add_hotplug, build_hotplug_pod, ready_volumes, delete_old, create_held,
  handle_hotplug,
}

module _ {q : Quantities} {sets : ConditionSets} (server : Server q sets) (w : World q) where
  pub hotplug_pods-Silent : (pod : Pod q) → Silent (hotplug_pods server w pod)
  unfolding hotplug_pods
  hotplug_pods-Silent pod = search silent

  pub leaving-Silent :
      (ss : List VolumeStatus) (pods : List (Pod q)) → Silent (leaving server w ss pods)
  unfolding leaving
  leaving-Silent [] pods = search silent
  leaving-Silent (s ∷ ss) pods =
      option-Keeps (leaving_pod s.name none pods) (leaving-Silent ss pods)
        (λ p. option-Keeps s.hotplug (search silent) (λ h. search (silent, leaving-Silent ss)))

  add_hotplug-Silent :
      (old : List VolumeStatus) (vs : List Volume) (pod : PodTemplate q)
      → Silent (add_hotplug server w old vs pod)
  unfolding add_hotplug
  add_hotplug-Silent old [] pod = search silent
  add_hotplug-Silent old (v ∷ vs) pod = search (silent, add_hotplug-Silent old vs, is_block-Silent)

  build_hotplug_pod-Silent :
      (vm : Vm q) (old : List VolumeStatus) (vs : List Volume)
      → Silent (build_hotplug_pod server w vm old vs)
  unfolding build_hotplug_pod
  build_hotplug_pod-Silent vm old vs = search (silent, add_hotplug-Silent)

  ready_volumes-Silent : (vs : List Volume) → Silent (ready_volumes server w vs)
  unfolding ready_volumes
  ready_volumes-Silent [] = search silent
  ready_volumes-Silent (v ∷ vs) =
      bind-Keeps (is_ready-Silent server v)
        (λ held. bind-Keeps (ready_volumes-Silent vs) (λ others. return-Keeps _))

  delete_old-Silent : (ps : List (Pod q)) → Silent (delete_old server w ps)
  unfolding delete_old
  delete_old-Silent [] = search silent
  delete_old-Silent (p ∷ ps) = if-Keeps p.deleting (delete_old-Silent ps) (
      bind-Keeps (call-Silent server (delete_pod p.name)) (λ deleted.
        then-Keeps (must-Keeps deleted)
          (then-Keeps (event-Silent "DeletedHotplugVolumePod") (delete_old-Silent ps))))

  create_held-Silent :
      (vm : Vm q) (old : List VolumeStatus) (current : Option (Pod q)) (vs : List Volume)
      → Silent (create_held server w vm old current vs)
  unfolding create_held
  create_held-Silent vm old (some p) vs = search silent
  create_held-Silent vm old none [] = search silent
  create_held-Silent vm old none (v ∷ vs) = search (silent, build_hotplug_pod-Silent)

  pub handle_hotplug-Silent :
      (vm : Vm q) (old : List VolumeStatus) (pod : Pod q) (all : Bool)
      → Silent (handle_hotplug server w vm old pod all)
  unfolding handle_hotplug
  handle_hotplug-Silent vm old pod all =
      search
        (silent, ready_volumes-Silent, hotplug_pods-Silent, create_held-Silent, delete_old-Silent)
