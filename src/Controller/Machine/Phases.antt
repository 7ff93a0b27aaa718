-- ===== src/Controller/Machine/Phases.antt =====
-- internal/controller/virtualmachine_controller.go: what decides the phase of a machine.
use ch_vmm.Prelude.{
  Bool, true, false, not, ◌&&◌, ◌||◌, List, [], ◌∷◌, Option, none, some, if◌then◌else◌,
}
use ch_vmm.Api.{Volume}
use ch_vmm.Controller.Machine.{
  Phase, RunPolicy, always, rerun_on_failure, once, manual, PodPhase, attached_to_node,
  VolumeStatus,
}
use ch_vmm.Controller.Machine.Plugged.{status_of}

-- Whether a volume that is to be plugged in is attached to the node.
abbrev pub is_attached : Option VolumeStatus → Bool
is_attached none = false
is_attached (some s) = elim s.phase [ attached_to_node ↦ true | _ ↦ false ]

pub all_attached : (Volume → Bool) → List Volume → List VolumeStatus → Bool
all_attached hotpluggable [] known = true
all_attached hotpluggable (v ∷ vs) known =
    if hotpluggable v && not (is_attached (status_of v.name known))
    then false
    else all_attached hotpluggable vs known

-- The phase of a machine that is not running yet, by that of its pod.
unfoldable pub phase_of_pod : Phase → PodPhase → Bool → Phase
phase_of_pod p PodPhase.succeeded attached = Phase.succeeded
phase_of_pod p PodPhase.failed attached = Phase.failed
phase_of_pod p PodPhase.unknown attached = Phase.unknown
phase_of_pod p PodPhase.pending attached = p
phase_of_pod Phase.scheduling PodPhase.running true = Phase.scheduled
phase_of_pod p PodPhase.running attached = p

-- That of a running machine, which outlives its pod while it is being migrated.
unfoldable pub phase_of_running : Option PodPhase → Bool → Phase
phase_of_running none migrating = Phase.failed
phase_of_running (some PodPhase.succeeded) migrating =
    if migrating then Phase.running else Phase.succeeded
phase_of_running (some PodPhase.failed) migrating = Phase.failed
phase_of_running (some PodPhase.unknown) migrating = Phase.unknown
phase_of_running (some p) migrating = Phase.running

-- Whether a machine that has ended, or was never started, is run.
abbrev pub is_new : Phase → Bool
is_new Phase.none_yet = true
is_new p = false

abbrev pub is_failed : Phase → Bool
is_failed Phase.failed = true
is_failed p = false

pub runs : RunPolicy → Phase → Bool → Bool
runs always p power_on = true
runs rerun_on_failure p power_on = is_failed p || is_new p || power_on
runs once p power_on = is_new p || power_on
runs manual p power_on = power_on
runs RunPolicy.other p power_on = false

-- Whether a deleted machine is removed here; one that runs is left to the daemon.
pub is_idle : Phase → Bool
is_idle Phase.none_yet = true
is_idle Phase.pending = true
is_idle Phase.scheduling = true
is_idle Phase.failed = true
is_idle Phase.succeeded = true
is_idle p = false

-- The phases of a pod behind which it does not run again.
abbrev pub has_ended : PodPhase → Bool
has_ended PodPhase.failed = true
has_ended PodPhase.succeeded = true
has_ended PodPhase.unknown = true
has_ended p = false
