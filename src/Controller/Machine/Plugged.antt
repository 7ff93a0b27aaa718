-- ===== src/Controller/Machine/Plugged.antt =====
-- internal/controller/virtualmachine_controller.go: which pods hold which of a machine's
-- hot-plugged volumes, and the status of these volumes, where the server is not asked.
use ch_vmm.Prelude.{
  ◌+◌, String, Bool, true, false, not, ◌&&◌, List, [], ◌∷◌, Option, none, some, if◌then◌else◌,
  str_eq, ◌==◌, ltb, length,
}
use ch_vmm.Api.{Volume}
use ch_vmm.Api.Quantity.{Quantities}
use ch_vmm.Controller.Machine.{
  claim, PodVolume, VolumePhase, none_yet, pending, attached_to_node, VolumeStatus, Pod, PodPhase,
  World,
}

-- Whether a pod has a volume of that name.
pub has_volume : String → List PodVolume → Bool
has_volume name [] = false
has_volume name (v ∷ vs) = if str_eq v.name name then true else has_volume name vs

-- `podVolumesMap`: the names of the volumes that are claims.
pub claim_names : List PodVolume → List String
claim_names [] = []
claim_names (v ∷ vs) = elim v.source [ claim c ↦ v.name ∷ claim_names vs | _ ↦ claim_names vs ]

-- `delete(m, name)`, on the keys of a map.
pub delete_name : String → List String → List String
delete_name name [] = []
delete_name name (n ∷ ns) = if str_eq n name then delete_name name ns else n ∷ delete_name name ns

pub delete_names : List Volume → List String → List String
unfolding delete_name
delete_names [] names = names
delete_names (v ∷ vs) names = delete_names vs (delete_name v.name names)

-- `len(pod.Spec.Volumes) - 2 != len(hotplugVolumes)` is a comparison of `int`s, which may be
-- negative: it is one of sums here.
pub is_pod_match : List PodVolume → List Volume → Bool
unfolding claim_names delete_names
is_pod_match have want =
    if not (length have == length want + 2)
    then false
    else elim (delete_names want (claim_names have)) [ [] ↦ true | _ ↦ false ]

-- The status of a volume by its name; a later entry of the list hides an earlier one in the map.
pub status_of : String → List VolumeStatus → Option VolumeStatus
status_of name [] = none
status_of name (s ∷ ss) = elim (status_of name ss) [
  | some found ↦ some found
  | none ↦ if str_eq s.name name then some s else none
]

-- `delete(volumeStatusMap, name)`.
pub drop_status : String → List VolumeStatus → List VolumeStatus
drop_status name [] = []
drop_status name (s ∷ ss) =
    if str_eq s.name name then drop_status name ss else s ∷ drop_status name ss

abbrev pub is_running : PodPhase → Bool
is_running PodPhase.running = true
is_running p = false

abbrev pub is_pending : VolumePhase → Bool
is_pending pending = true
is_pending p = false

abbrev pub begun : VolumePhase → VolumePhase
begun none_yet = pending
begun p = p

-- What is left of the map of statuses once the volumes are taken out of it: the last status of each
-- other name. (Go leaves the order open.)
pub is_wanted : String → List Volume → Bool
is_wanted name [] = false
is_wanted name (v ∷ vs) = if str_eq v.name name then true else is_wanted name vs

pub left_statuses : List Volume → List VolumeStatus → List VolumeStatus
unfolding is_wanted status_of
left_statuses want [] = []
left_statuses want (s ∷ ss) = elim (status_of s.name ss) [
  | some hiding ↦ left_statuses want ss
  | none ↦ if is_wanted s.name want then left_statuses want ss else s ∷ left_statuses want ss
]

pub some_pending : List VolumeStatus → Bool
some_pending [] = false
some_pending (s ∷ ss) = if is_pending s.phase then true else some_pending ss

-- Whether the first volume has the name.
abbrev pub starts : String → List PodVolume → Bool
starts name [] = false
starts name (v ∷ vs) = str_eq v.name name

module _ {q : Quantities} where
  pub hotplug_volumes : World q → List PodVolume → List Volume → List Volume
  unfolding has_volume
  hotplug_volumes w have [] = []
  hotplug_volumes w have (v ∷ vs) =
      if w.is_hotpluggable v && not (has_volume v.name have)
      then v ∷ hotplug_volumes w have vs
      else hotplug_volumes w have vs

  -- The pods that a pod controls, the newest first. (Go leaves the order of equal times open.)
  pub insert_pod : Pod q → List (Pod q) → List (Pod q)
  insert_pod p [] = p ∷ []
  insert_pod p (r ∷ rs) = if ltb r.age p.age then r ∷ insert_pod p rs else p ∷ r ∷ rs

  pub owned_pods : String → List (Pod q) → List (Pod q)
  unfolding insert_pod
  owned_pods uid [] = []
  owned_pods uid (p ∷ ps) = elim p.controller [
    | none ↦ owned_pods uid ps
    | some owner ↦ if str_eq owner uid then insert_pod p (owned_pods uid ps) else owned_pods uid ps
  ]

  -- The first pod that has a volume of that name.
  pub volume_pod : String → List (Pod q) → Option (Pod q)
  unfolding has_volume
  volume_pod name [] = none
  volume_pod name (p ∷ ps) = if has_volume name p.volumes then some p else volume_pod name ps

  -- The pod that matches the volumes, the first that does, and all others.
  pub split_pods : List Volume → List (Pod q) → Option (Pod q) × List (Pod q)
  unfolding is_pod_match
  split_pods want [] = (none, [])
  split_pods want (p ∷ ps) =
      if is_pod_match p.volumes want
      then (some p, ps)
      else (let (current, old) = split_pods want ps in (current, p ∷ old))

  -- The status of a volume that is to be plugged in, from that it had.
  pub plugged_status : String → Option VolumeStatus → Option (Pod q) → VolumeStatus
  plugged_status name old found =
      let phase : VolumePhase = elim old [ none ↦ pending | some s ↦ begun s.phase ] in
      let called : String = elim old [ none ↦ name | some s ↦ s.name ] in
      elim found [
        | none ↦ record {
          name = called;
          phase = pending;
          hotplug = some (record { pod_name = ""; pod_uid = "" });
        }
        | some p ↦ record {
          name = called;
          phase = if is_running p.phase && is_pending phase then attached_to_node else phase;
          hotplug = some (record { pod_name = p.name; pod_uid = p.uid });
        }
      ]

  -- The status that a volume had is taken out of the map with it: another volume of the same name
  -- starts afresh.
  pub plugged_statuses : List Volume → List VolumeStatus → List (Pod q) → List VolumeStatus
  unfolding status_of plugged_status volume_pod drop_status
  plugged_statuses [] old pods = []
  plugged_statuses (v ∷ vs) old pods =
      plugged_status v.name (status_of v.name old) (volume_pod v.name pods)
      ∷ plugged_statuses vs (drop_status v.name old) pods

  -- The pod of a volume that is to be unplugged. The search goes on behind a pod that has it: a later
  -- pod takes its place if its first volume is the one.
  pub leaving_pod : String → Option (Pod q) → List (Pod q) → Option (Pod q)
  unfolding has_volume
  leaving_pod name found [] = found
  leaving_pod name none (p ∷ ps) =
      leaving_pod name (if has_volume name p.volumes then some p else none) ps
  leaving_pod name (some found) (p ∷ ps) =
      leaving_pod name (some (if starts name p.volumes then p else found)) ps
