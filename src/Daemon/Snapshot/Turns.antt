-- ===== src/Daemon/Snapshot/Turns.antt =====
-- The turns of the phases of a snapshot, and that what follows them leaves the phases alone.
use ch_vmm.Prelude.{
  String, ◌≡◌, refl, sym, ap, ◌∙◌, ◌⊎◌, inl, inr, Bool, Bool-cases, true, false, List, [], ◌∷◌,
  if◌then◌else◌,
}
use ch_vmm.Controller.Program.{
  Answer, done, not_found, already_exists, conflict, failed, Result, ok, err, panicked,
  in_five_seconds, Program, bind, ◌>>=◌, ◌>>◌, return,
}
use ch_vmm.Daemon.{Vm, Phase, Node}
use ch_vmm.Daemon.Snapshot.{
  Snapshot, SnapshotPhase, DiskStatus, DiskPhase, update_vm, Server, State, set_phase, record_event,
}
use ch_vmm.Daemon.Snapshot.Reconcile.{
  Turn, Look, leave, proceed, is_running, is_broken, is_waiting, any_look, look_if, look_all,
  written_if, conclude, started_if, reconcile_scheduled, reconcile_created, statuses, finish,
  reconcile_specified,
}
use ch_vmm.Daemon.Snapshot.Calm.{
  place, Calm, calm, fetch-Calm, event-Calm, get_status-Calm, disks-Calm, return-Calm, bind-Calm,
}
use ch_vmm.Daemon.Snapshot.Taking.{create_spec-Calm}
use ch_vmm.Daemon.Snapshot.Steps.{
  stay, begin, refuse, specify, finish_all, is_running-running, step_to, Calm-Goes, behind-Goes,
  set-Goes, succeeds-Calm, Step, Goes,
}

module _ (server : Server) (node : Node) (vm : Vm) (st : ch_vmm.Daemon.Status)
    (snap : Snapshot) where
  pub written_if-Calm :
      (a : Answer) (b : Bool) → Calm server (written_if server node vm st snap a b)
  unfolding written_if
  written_if-Calm done true = search calm
  written_if-Calm done false = search calm
  written_if-Calm conflict b = search calm
  written_if-Calm not_found b = search calm
  written_if-Calm already_exists b = search calm
  written_if-Calm failed b = search calm

  pub conclude-Calm : (turn : Turn) → Calm server (conclude server node vm st snap turn)
  unfolding conclude
  conclude-Calm (leave o) = search calm
  conclude-Calm (proceed b) = search (calm, written_if-Calm)

  pub look_if-Calm :
      (n : String) (a : Answer × DiskPhase) → Calm server (look_if server node vm st snap n a)
  unfolding look_if
  look_if-Calm n (done, p) = search calm
  look_if-Calm n (not_found, p) = search calm
  look_if-Calm n (already_exists, p) = search calm
  look_if-Calm n (conflict, p) = search calm
  look_if-Calm n (failed, p) = search calm

  pub look_all-Calm : (ds : List DiskStatus) → Calm server (look_all server node vm st snap ds)
  unfolding look_all
  look_all-Calm [] = search calm
  look_all-Calm (d ∷ ds) = bind-Calm (fetch-Calm _ _ refl) (λ a.
      bind-Calm (look_if-Calm d.name a)
        (λ l. bind-Calm (look_all-Calm ds) (λ ls. return-Calm (l ∷ ls))))

  pub started_if-Step :
      (a : Answer) (s : State)
      → place s ≡ (SnapshotPhase.scheduled, Phase.snapshotting)
      → Step
          (SnapshotPhase.scheduled, Phase.running)
          (place (started_if server node vm st snap a s).1)
  unfolding started_if
  started_if-Step done s e = step_to (ap (λ x. (SnapshotPhase.in_progress, x.1)) e) begin
  started_if-Step not_found s e = step_to e refuse
  started_if-Step already_exists s e = step_to e refuse
  started_if-Step conflict s e = step_to e refuse
  started_if-Step failed s e = step_to e refuse

  pub scheduled-Goes :
      (v : Phase) → Goes (SnapshotPhase.scheduled, v) (reconcile_scheduled server node vm st snap)
  unfolding reconcile_scheduled
  scheduled-Goes v = record { led = λ s e. go s e (Bool-cases (is_running s.0.vm_phase)) }
    where
      go :
          (s : State)
          → place s ≡ (SnapshotPhase.scheduled, v)
          → (is_running s.0.vm_phase ≡ true) ⊎ (is_running s.0.vm_phase ≡ false)
          → Step
              (SnapshotPhase.scheduled, v)
              (place (reconcile_scheduled server node vm st snap s).1)
      go (m, t) e (inl b) =
          let runs : v ≡ Phase.running = sym (ap (λ x. x.1) e) ∙ is_running-running m.vm_phase b in
          rw (runs, b, reconcile_scheduled)
            (started_if-Step (server.answer t (update_vm Phase.snapshotting))
              (record m { vm_phase = Phase.snapshotting }, update_vm Phase.snapshotting ∷ t)
              (ap (λ x. (x.0, Phase.snapshotting)) e))
      go (m, t) e (inr b) = rw (b, reconcile_scheduled) (step_to e stay)

  pub created-Goes :
      (v : Phase) → Goes (SnapshotPhase.created, v) (reconcile_created server node vm st snap)
  unfolding reconcile_created
  created-Goes v =
      behind-Goes {server = server} _ (succeeds-Calm (create_spec-Calm server vm st snap))
        (λ b. by_result b)
    where
      by_result :
          (b : Bool)
          → Goes
              (SnapshotPhase.created, v)
              (if b
                then (set_phase SnapshotPhase.specified >> return (proceed false))
                else return (proceed true))
      by_result true =
          set-Goes {server = server} _ SnapshotPhase.specified v _ specify (return-Calm _)
      by_result false = Calm-Goes {server = server} _ (return-Calm _)

  pub finish-Goes :
      (v : Phase) (ls : List Look)
      → Goes (SnapshotPhase.specified, v) (finish server node vm st snap ls)
  unfolding finish
  finish-Goes v ls = by_broken (any_look is_broken ls) (any_look is_waiting ls)
    where
      settle :
          Goes
            (SnapshotPhase.specified, v)
            (record_event "AllDiskSnapshotsReady"
              >> (set_phase SnapshotPhase.ready >> return (proceed false)))
      settle = behind-Goes {server = server} _ (event-Calm "AllDiskSnapshotsReady") (λ _.
          set-Goes {server = server} SnapshotPhase.specified SnapshotPhase.ready v
            (return (proceed false)) finish_all (return-Calm (proceed false)))

      by_broken :
          (b w : Bool)
          → Goes
              (SnapshotPhase.specified, v)
              (if b
                then (do
                  set_phase SnapshotPhase.failed
                  record_event "AllDiskSnapshotsReady"
                  set_phase SnapshotPhase.ready
                  return (proceed false))
                else if w
                then return (leave in_five_seconds)
                else (do
                  record_event "AllDiskSnapshotsReady"
                  set_phase SnapshotPhase.ready
                  return (proceed false)))
      by_broken true w = record {
        led = λ s e. step_to (ap (λ x. (SnapshotPhase.ready, x.1)) e) finish_all;
      }
      by_broken false true = Calm-Goes {server = server} _ (return-Calm _)
      by_broken false false = record { led = λ s e. settle.led s e }

  pub specified-Goes :
      (v : Phase) → Goes (SnapshotPhase.specified, v) (reconcile_specified server node vm st snap)
  unfolding reconcile_specified
  specified-Goes v = behind-Goes {server = server} _ get_status-Calm (λ s.
      behind-Goes {server = server} _ (look_all-Calm s.disks) (λ ls. record {
        led = λ u e.
            (behind-Goes {server = server} _ (disks-Calm (λ _. statuses ls))
                (λ _. finish-Goes v ls)).led
              u e;
      }))

  -- Behind a turn, the phases stay.
  pub concluded :
      (m : Program State Turn) (s : State)
      → place ((m >>= conclude server node vm st snap) s).1 ≡ place (m s).1
  concluded m s = go (m s)
    where
      go :
          (r : Result Turn × State) → place (bind r (conclude server node vm st snap)).1 ≡ place r.1
      go (ok a, t) = (conclude-Calm a).kept t
      go (err e, t) = refl
      go (panicked, t) = refl
