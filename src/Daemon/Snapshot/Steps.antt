-- ===== src/Daemon/Snapshot/Steps.antt =====
-- Which phases of a snapshot and of its machine follow which in one call of the daemon.
use ch_vmm.Prelude.{◌≡◌, ◌≢◌, refl, sym, subst, ap, ◌∙◌, Bool, true, false}
use ch_vmm.Controller.Program.{Result, ok, err, panicked, Program, ◌>>=◌, ◌>>◌, Leads, bind-Leads}
use ch_vmm.Daemon.{Phase}
use ch_vmm.Daemon.Snapshot.{SnapshotPhase, Server, State, set_phase, succeeds}
use ch_vmm.Daemon.Snapshot.Reconcile.{is_running}
use ch_vmm.Daemon.Snapshot.Calm.{place, Calm, halted}

-- The changes of the two phases. Where the update of the machine is refused, its phase in memory has
-- changed alone.
pub data Step : SnapshotPhase × Phase → SnapshotPhase × Phase → Type 0 where
  stay : {x : SnapshotPhase × Phase} → Step x x
  begin :
      Step (SnapshotPhase.scheduled, Phase.running) (SnapshotPhase.in_progress, Phase.snapshotting)
  refuse :
      Step (SnapshotPhase.scheduled, Phase.running) (SnapshotPhase.scheduled, Phase.snapshotting)
  take : {p : Phase} → Step (SnapshotPhase.in_progress, p) (SnapshotPhase.created, Phase.running)
  lose : {p : Phase} → Step (SnapshotPhase.in_progress, p) (SnapshotPhase.failed, Phase.running)
  specify : {p : Phase} → Step (SnapshotPhase.created, p) (SnapshotPhase.specified, p)
  finish_all : {p : Phase} → Step (SnapshotPhase.specified, p) (SnapshotPhase.ready, p)

pub is_running-running : (p : Phase) → is_running p ≡ true → p ≡ Phase.running
is_running-running Phase.running e = refl
is_running-running Phase.restoring e = cc
is_running-running Phase.scheduled e = cc
is_running-running Phase.paused e = cc
is_running-running Phase.resumed e = cc
is_running-running Phase.snapshotting e = cc
is_running-running Phase.resizing e = cc
is_running-running Phase.succeeded e = cc
is_running-running Phase.failed e = cc
is_running-running Phase.other e = cc

pub step_to : {x y z : SnapshotPhase × Phase} → z ≡ y → Step x y → Step x z
step_to {x} e st = subst (λ y. Step x y) (sym e) st

-- A program that takes the phases along a step from `x`.
abbrev pub Goes : {A : Type 0} → SnapshotPhase × Phase → Program State A → Type 0
Goes x m = Leads (λ s. place s ≡ x) (λ s. Step x (place s)) m

module _ {server : Server} where
  pub Calm-Goes :
      {A : Type 0} {m : Program State A} (x : SnapshotPhase × Phase) → Calm server m → Goes x m
  Calm-Goes x h = record { led = λ s e. step_to (h.kept s ∙ e) stay }

  pub behind-Goes :
      {A B : Type 0} {m : Program State A} {f : A → Program State B} (x : SnapshotPhase × Phase)
      → Calm server m
      → ((a : A) → Goes x (f a))
      → Goes x (m >>= f)
  behind-Goes x h k =
      bind-Leads {R = λ s. place s ≡ x} (record { led = λ s e. h.kept s ∙ e }) k
        (λ s e. step_to e stay)

  pub set-Goes :
      {A : Type 0} (p q : SnapshotPhase) (v : Phase) (m : Program State A)
      → Step (p, v) (q, v)
      → Calm server m
      → Goes (p, v) (set_phase q >> m)
  set-Goes p q v m st h = record {
    led = λ s e.
        subst (λ y. Step (p, v) y) (sym (h.kept (set_phase q s).1 ∙ ap (λ x. (q, x.1)) e)) st;
  }

  pub succeeds-cases :
      {m : Program State (Unit {0})}
      → Calm server m
      → (s : State)
      → (b : Bool) × (u : State) × (succeeds m s ≡ (ok b, u))
        × (place u ≡ place s)
        × (halted server s.1 ≡ false → halted server u.1 ≡ false)
  unfolding succeeds
  succeeds-cases {m} h s = go (m s) (h.kept s) (h.ends s) (h.runs s)
    where
      go :
          (r : Result (Unit {0}) × State)
          → place r.1 ≡ place s
          → r.0 ≢ panicked
          → (halted server s.1 ≡ false → halted server r.1.1 ≡ false)
          → let r' : Result Bool × State = elim r.0 [
            | ok x ↦ (ok true, r.1)
            | err e ↦ (ok false, r.1)
            | panicked ↦ (panicked, r.1)
          ] in
            (b : Bool) × (u : State) × (r' ≡ (ok b, u))
            × (place u ≡ place s)
            × (halted server s.1 ≡ false → halted server u.1 ≡ false)
      go (ok x, u) e n w = (true, u, refl, e, w)
      go (err x, u) e n w = (false, u, refl, e, w)
      go (panicked, u) e n w = absurd (n refl)

  pub succeeds-Calm : {m : Program State (Unit {0})} → Calm server m → Calm server (succeeds m)
  succeeds-Calm h = record {
    kept = λ s. let (b, u, e, k, w) = succeeds-cases h s in ap (λ r. place r.1) e ∙ k;
    ends = λ s e'. let (b, u, e, k, w) = succeeds-cases h s in cc;
    runs = λ s r.
        let (b, u, e, k, w) = succeeds-cases h s in
        subst (λ r'. halted server r'.1.1 ≡ false) (sym e) (w r);
  }
