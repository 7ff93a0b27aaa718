-- ===== src/Daemon/Steps.antt =====
-- Which phases of a machine follow which in one call of the daemon.
use ch_vmm.Prelude.{
  String, ◌≡◌, refl, inl, inr, Bool, true, Option, none, some, if◌then◌else◌, str_eq,
}
use ch_vmm.Controller.Program.{
  Answer, done, not_found, already_exists, conflict, Program, return-Keeps, then-Keeps, must-Keeps,
  Keeps-coarser, Changes, Keeps-Changes, bind-Changes, then-Changes, if-Changes, return,
}
use ch_vmm.Daemon.{
  Vm, VmInfo, VmConfig, VmmState, Status, Phase, PowerAction, Migration, Call, Server, Node, State,
  modify, set_phase,
}
use ch_vmm.Daemon.Frame.{Frames, frames, fail-Frames, event-Frames, get_status-Frames, call-Frames}
use ch_vmm.Daemon.Frame.Mounted.{mount_volumes-Frames}
use ch_vmm.Daemon.Frame.Plugged.{reconcile_volumes-Frames}
use ch_vmm.Daemon.Phases.{
  ask, get_info, tell, must_or_tell, reconcile_restoring, open_if, lock_if, boot_vm, create_vm,
  follow_created, start_if, reconcile_scheduled, restores, pause_if, reconcile_paused, resume_if,
  reconcile_resumed, resize_if, reconcile_resizing, power_if, serve, reconcile_serving, if_here,
  needs_resize, is_idle,
}

-- The changes of a machine's phase that the daemon makes, where the flag says whether the machine is
-- being deleted.
pub data Step (deleting : Bool) : Phase → Phase → Type 0 where
  stay : {p : Phase} → Step deleting p p
  restore : Step deleting Phase.scheduled Phase.restoring
  start : Step deleting Phase.scheduled Phase.running
  halt : Step deleting Phase.scheduled Phase.paused
  lose : Step deleting Phase.scheduled Phase.failed
  restored : Step deleting Phase.restoring Phase.resumed
  resume : Step deleting Phase.resumed Phase.running
  resized : Step deleting Phase.resizing Phase.running
  finish : Step deleting Phase.running Phase.succeeded
  remove : {p : Phase} → deleting ≡ true → Step deleting p Phase.succeeded

abbrev pub phase_in : State → Phase
phase_in s = s.0.status.phase

-- A program that takes the phase along a step from `p`, if it changes it.
abbrev pub Goes : {A : Type 0} → Bool → Phase → Program State A → Type 0
Goes d p m = Changes phase_in (Step d p) m

pub Frames-Goes : {A : Type 0} {m : Program State A} (d : Bool) (p : Phase) → Frames m → Goes d p m
Frames-Goes d p h = Keeps-Changes (Keeps-coarser (λ f. f.0) h)

pub set_phase-Goes : (d : Bool) (p q : Phase) → Step d p q → Goes d p (set_phase q)
set_phase-Goes d p q st = record { changed = λ s. inr st }

power-Goes :
    (d : Bool) (p : Phase) (a : PowerAction)
    → Goes d p (modify (λ s. record s { power_action = a }))
power-Goes d p a = record { changed = λ s. inl refl }

module _ (server : Server) (node : Node) (vm : Vm) where
  pub ask-Frames : (c : Call) → Frames (ask server node vm c)
  unfolding ask
  ask-Frames c = search frames

  pub get_info-Frames : Frames (get_info server node vm)
  unfolding get_info
  get_info-Frames = search frames

  tell-Frames : (a : Answer) (x y : String) → Frames (tell server node vm a x y)
  unfolding tell
  tell-Frames done x y = search frames
  tell-Frames not_found x y = search frames
  tell-Frames already_exists x y = search frames
  tell-Frames conflict x y = search frames
  tell-Frames Answer.failed x y = search frames

  pub must_or_tell-Frames : (a : Answer) (x : String) → Frames (must_or_tell server node vm a x)
  unfolding must_or_tell
  must_or_tell-Frames done x = search frames
  must_or_tell-Frames not_found x = search frames
  must_or_tell-Frames already_exists x = search frames
  must_or_tell-Frames conflict x = search frames
  must_or_tell-Frames Answer.failed x = search frames

  open_if-Frames : (a : Answer) → Frames (open_if server node vm a)
  unfolding open_if
  open_if-Frames done = search frames
  open_if-Frames not_found = search frames
  open_if-Frames already_exists = search frames
  open_if-Frames conflict = search frames
  open_if-Frames Answer.failed = search frames

  lock_if-Frames : (c : VmConfig) → Frames (lock_if server node vm c)
  unfolding lock_if
  lock_if-Frames c = search frames

  pub boot_vm-Frames : Frames (boot_vm server node vm)
  unfolding boot_vm
  boot_vm-Frames = search (frames, ask-Frames)

  pub create_vm-Frames : Frames (create_vm server node vm)
  unfolding create_vm
  create_vm-Frames =
      search (frames, open_if-Frames, lock_if-Frames, ask-Frames, boot_vm-Frames) depth 16

  pause_if-Frames : (v : VmmState) → Frames (pause_if server node vm v)
  unfolding pause_if
  pause_if-Frames VmmState.running = search (frames, ask-Frames, tell-Frames)
  pause_if-Frames VmmState.created = search frames
  pause_if-Frames VmmState.paused = search frames
  pause_if-Frames VmmState.shutdown = search frames
  pause_if-Frames VmmState.other = search frames

  pub reconcile_paused-Frames : Frames (reconcile_paused server node vm)
  unfolding reconcile_paused
  reconcile_paused-Frames = search (frames, get_info-Frames, pause_if-Frames)

  pub power_if-Frames : (o : Option (Call × String × String)) → Frames (power_if server node vm o)
  unfolding power_if
  power_if-Frames none = search frames
  power_if-Frames (some (c, x, y)) = search (frames, ask-Frames, tell-Frames)

module _ (server : Server) (node : Node) (vm : Vm) (d : Bool) where
  pub restoring-Goes : Goes d Phase.restoring (reconcile_restoring server node vm)
  unfolding reconcile_restoring
  restoring-Goes = bind-Changes (Frames-Goes d _ get_status-Frames) (λ s.
      bind-Changes (Frames-Goes d _ (call-Frames server _)) (λ a.
        then-Changes (Frames-Goes d _ (must_or_tell-Frames server node vm a "PrerunnerStage")) (
          bind-Changes (Frames-Goes d _ (ask-Frames server node vm Call.restore)) (λ b.
            then-Changes (Frames-Goes d _ (must_or_tell-Frames server node vm b "VMRestoreFailed"))
              (set_phase-Goes d Phase.restoring Phase.resumed restored)))))

  follow_created-Goes : (v : VmmState) → Goes d Phase.scheduled (follow_created server node vm v)
  unfolding follow_created
  follow_created-Goes VmmState.created = Frames-Goes d _ (boot_vm-Frames server node vm)
  follow_created-Goes VmmState.running = set_phase-Goes d _ _ start
  follow_created-Goes VmmState.paused = set_phase-Goes d _ _ halt
  follow_created-Goes VmmState.shutdown = set_phase-Goes d _ _ lose
  follow_created-Goes VmmState.other = Frames-Goes d _ (return-Keeps tt)

  start_if-Goes : (a : Answer × VmInfo) → Goes d Phase.scheduled (start_if server node vm a)
  unfolding start_if
  start_if-Goes (done, i) = follow_created-Goes i.state
  start_if-Goes (not_found, i) = Frames-Goes d _ (create_vm-Frames server node vm)
  start_if-Goes (already_exists, i) = Frames-Goes d _ (fail-Frames _)
  start_if-Goes (conflict, i) = Frames-Goes d _ (fail-Frames _)
  start_if-Goes (Answer.failed, i) = Frames-Goes d _ (fail-Frames _)

  pub scheduled-Goes : Goes d Phase.scheduled (reconcile_scheduled server node vm)
  unfolding reconcile_scheduled
  scheduled-Goes = then-Changes (Frames-Goes d _ (mount_volumes-Frames server node vm "" "")) (
      if-Changes (restores vm.volumes) (set_phase-Goes d _ _ restore)
        (bind-Changes (Frames-Goes d _ (get_info-Frames server node vm)) start_if-Goes))

  resume_if-Goes : (v : VmmState) → Goes d Phase.resumed (resume_if server node vm v)
  unfolding resume_if
  resume_if-Goes VmmState.paused =
      bind-Changes (Frames-Goes d _ (ask-Frames server node vm _)) (λ a.
        then-Changes (Frames-Goes d _ (must_or_tell-Frames server node vm a "FailedResume"))
          (then-Changes (Frames-Goes d _ (event-Frames "VMResumed")) (set_phase-Goes d _ _ resume)))
  resume_if-Goes VmmState.created = Frames-Goes d _ (return-Keeps tt)
  resume_if-Goes VmmState.running = Frames-Goes d _ (return-Keeps tt)
  resume_if-Goes VmmState.shutdown = Frames-Goes d _ (return-Keeps tt)
  resume_if-Goes VmmState.other = Frames-Goes d _ (return-Keeps tt)

  pub resumed-Goes : Goes d Phase.resumed (reconcile_resumed server node vm)
  unfolding reconcile_resumed
  resumed-Goes =
      bind-Changes (Frames-Goes d _ (get_info-Frames server node vm))
        (λ a. then-Changes (Frames-Goes d _ (must-Keeps a.0)) (resume_if-Goes a.1.state))

  resize_if-Goes : (i : VmInfo) → Goes d Phase.resizing (resize_if server node vm i)
  unfolding resize_if
  resize_if-Goes i =
      if-Changes (needs_resize node vm i)
        (bind-Changes (Frames-Goes d _ (ask-Frames server node vm _)) (λ a. Frames-Goes d _ (
          then-Keeps (must_or_tell-Frames server node vm a "VMResizeFailed")
            (event-Frames "VMResizeInitiated"))))
        (then-Changes (set_phase-Goes d _ _ resized)
          (Frames-Goes d _ (event-Frames "VMResizeCompleted")))

  pub resizing-Goes : Goes d Phase.resizing (reconcile_resizing server node vm)
  unfolding reconcile_resizing
  resizing-Goes =
      bind-Changes (Frames-Goes d _ (get_info-Frames server node vm))
        (λ a. then-Changes (Frames-Goes d _ (must-Keeps a.0)) (at_state a.1 a.1.state))
    where
      at_state :
          (i : VmInfo) (v : VmmState)
          → Goes d Phase.resizing (elim v [
            | VmmState.running ↦ resize_if server node vm i
            | VmmState.paused ↦ resize_if server node vm i
            | _ ↦ return tt
          ])
      at_state i VmmState.running = resize_if-Goes i
      at_state i VmmState.paused = resize_if-Goes i
      at_state i VmmState.created = Frames-Goes d _ (return-Keeps tt)
      at_state i VmmState.shutdown = Frames-Goes d _ (return-Keeps tt)
      at_state i VmmState.other = Frames-Goes d _ (return-Keeps tt)

  serve-Goes : (i : VmInfo) → Goes d Phase.running (serve server node vm i)
  unfolding serve
  serve-Goes i =
      let volumes = Frames-Goes d Phase.running (reconcile_volumes-Frames server node vm i) in
      bind-Changes (Frames-Goes d _ get_status-Frames) (λ s.
        if-Changes vm.halted
          (bind-Changes (Frames-Goes d _ (ask-Frames server node vm _)) (λ a.
            then-Changes (Frames-Goes d _ (must_or_tell-Frames server node vm a "FailedVMPowerOff"))
              volumes))
          (if-Changes (is_idle s.power_action) volumes
            (then-Changes (Frames-Goes d _ (power_if-Frames server node vm _)) (power-Goes d _ _))))

  pub serving-Goes : Goes d Phase.running (reconcile_serving server node vm)
  unfolding reconcile_serving
  serving-Goes =
      bind-Changes (Frames-Goes d _ (get_info-Frames server node vm))
        (λ a. then-Changes (Frames-Goes d _ (must-Keeps a.0)) (at_state a.1 a.1.state))
    where
      at_state :
          (i : VmInfo) (v : VmmState)
          → Goes d Phase.running (elim v [
            | VmmState.running ↦ serve server node vm i
            | VmmState.paused ↦ serve server node vm i
            | _ ↦ set_phase Phase.succeeded
          ])
      at_state i VmmState.running = serve-Goes i
      at_state i VmmState.paused = serve-Goes i
      at_state i VmmState.created = set_phase-Goes d _ _ finish
      at_state i VmmState.shutdown = set_phase-Goes d _ _ finish
      at_state i VmmState.other = set_phase-Goes d _ _ finish

  pub if_here-Goes :
      (p : Phase) {m : Program State (Unit {0})} → Goes d p m → Goes d p (if_here server node vm m)
  unfolding if_here
  if_here-Goes p {m = m} h =
      bind-Changes (Frames-Goes d p get_status-Frames) (λ s. at_migration s s.migration)
    where
      at_migration :
          (s : Status) (o : Option Migration)
          → Goes d p (elim o [
            | some migration ↦ return tt
            | none ↦ if str_eq s.node_name node.name then m else return tt
          ])
      at_migration s (some migration) = Frames-Goes d p (return-Keeps tt)
      at_migration s none =
          if-Changes (str_eq s.node_name node.name) h (Frames-Goes d p (return-Keeps tt))
