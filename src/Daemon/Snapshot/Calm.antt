-- ===== src/Daemon/Snapshot/Calm.antt =====
-- Programs of the snapshots that do not panic, do not leave the machine paused, and leave the phases of
-- the machine and of the snapshot alone.
use ch_vmm.Prelude.{String, ◌≡◌, ◌≢◌, refl, ◌∙◌, Bool, true, false, List, [], ◌∷◌, if◌then◌else◌}
use ch_vmm.Controller.Program.{
  Answer, done, not_found, already_exists, conflict, failed, Result, ok, err, panicked, Program,
  bind, ◌>>=◌, ◌>>◌, return, fail, must, must_or_exists,
}
use ch_vmm.Daemon.{Phase, Call}
use ch_vmm.Daemon.Snapshot.{
  SnapshotPhase, SnapshotStatus, DiskStatus, MemoryStatus, Request, vmm, Trace, Server, State,
  get_status, modify, record_event, call, fetch, error_text,
}

-- What a request does to the machine.
pub data Effect : Type 0 where
  pauses resumes keeps : Effect

abbrev pub effect : Request → Effect
effect (vmm socket Call.pause) = pauses
effect (vmm socket Call.resume) = resumes
effect r = keeps

-- Whether the machine has been paused, and has not been told to resume since.
unfoldable pub halted : Server → Trace → Bool
halted server [] = false
halted server (r ∷ t) = elim (effect r) [
  | pauses ↦ elim (server.answer t r) [ done ↦ true | _ ↦ halted server t ]
  | resumes ↦ false
  | keeps ↦ halted server t
]

-- The phases of the snapshot and of the machine.
abbrev pub place : State → SnapshotPhase × Phase
place s = (s.0.status.phase, s.0.vm_phase)

-- A program that leaves the phases alone, does not panic, and does not leave a machine paused.
pub record Calm (server : Server) {A : Type 0} (m : Program State A) : Type 0 where
  pub kept : (s : State) → place (m s).1 ≡ place s
  pub ends : (s : State) → (m s).0 ≢ panicked
  pub runs : (s : State) → halted server s.1 ≡ false → halted server (m s).1.1 ≡ false

module _ {server : Server} where
  pub return-Calm : {A : Type 0} (a : A) → Calm server (return a)
  return-Calm a = record { kept = λ s. refl; ends = λ s e. cc; runs = λ s e. e }

  pub bind-Calm :
      {A B : Type 0} {m : Program State A} {f : A → Program State B}
      → Calm server m
      → ((a : A) → Calm server (f a))
      → Calm server (m >>= f)
  bind-Calm {A} {B} {m} {f} h k = record {
    kept = λ s. kept_behind s (m s) (h.kept s);
    ends = λ s. ends_behind (m s) (h.ends s);
    runs = λ s e. runs_behind (m s) (h.runs s e);
  }
    where
      kept_behind :
          (s : State) (r : Result A × State) → place r.1 ≡ place s → place (bind r f).1 ≡ place s
      kept_behind s (ok a, t) e = (k a).kept t ∙ e
      kept_behind s (err x, t) e = e
      kept_behind s (panicked, t) e = e

      ends_behind : (r : Result A × State) → r.0 ≢ panicked → (bind r f).0 ≢ panicked
      ends_behind (ok a, t) e = (k a).ends t
      ends_behind (err x, t) e = λ e'. cc
      ends_behind (panicked, t) e = absurd (e refl)

      runs_behind :
          (r : Result A × State)
          → halted server r.1.1 ≡ false
          → halted server (bind r f).1.1 ≡ false
      runs_behind (ok a, t) e = (k a).runs t e
      runs_behind (err x, t) e = e
      runs_behind (panicked, t) e = e

  pub then-Calm :
      {B : Type 0} {m : Program State (Unit {0})} {k : Program State B}
      → Calm server m
      → Calm server k
      → Calm server (m >> k)
  then-Calm h k = record {
    kept = λ s. (bind-Calm h (λ _. k)).kept s;
    ends = λ s. (bind-Calm h (λ _. k)).ends s;
    runs = λ s. (bind-Calm h (λ _. k)).runs s;
  }

  pub if-Calm :
      {A : Type 0} {m k : Program State A} (b : Bool)
      → Calm server m
      → Calm server k
      → Calm server (if b then m else k)
  if-Calm true h k = h
  if-Calm false h k = k

  pub fail-Calm : {A : Type 0} (e : Answer) → Calm server {A = A} (fail e)
  fail-Calm e = record { kept = λ s. refl; ends = λ s e. cc; runs = λ s e. e }

  pub event-Calm : (e : String) → Calm server (record_event e)
  unfolding halted
  event-Calm e = record { kept = λ s. refl; ends = λ s e. cc; runs = λ s e. e }

  pub get_status-Calm : Calm server get_status
  get_status-Calm = record { kept = λ s. refl; ends = λ s e. cc; runs = λ s e. e }

  pub must-Calm : (a : Answer) → Calm server (must a)
  must-Calm done = return-Calm tt
  must-Calm not_found = fail-Calm not_found
  must-Calm already_exists = fail-Calm already_exists
  must-Calm conflict = fail-Calm conflict
  must-Calm failed = fail-Calm failed

  pub must_or_exists-Calm : (a : Answer) → Calm server (must_or_exists a)
  must_or_exists-Calm done = return-Calm tt
  must_or_exists-Calm not_found = fail-Calm not_found
  must_or_exists-Calm already_exists = return-Calm tt
  must_or_exists-Calm conflict = fail-Calm conflict
  must_or_exists-Calm failed = fail-Calm failed

  pub memory-Calm :
      (f : SnapshotStatus → MemoryStatus) → Calm server (modify (λ s. record s { memory = f s }))
  memory-Calm f = record { kept = λ s. refl; ends = λ s e. cc; runs = λ s e. e }

  pub disks-Calm :
      (f : SnapshotStatus → List DiskStatus) → Calm server (modify (λ s. record s { disks = f s }))
  disks-Calm f = record { kept = λ s. refl; ends = λ s e. cc; runs = λ s e. e }

  pub call-Calm : (r : Request) → effect r ≡ keeps → Calm server (call server r)
  unfolding halted
  call-Calm r k = record { kept = λ s. refl; ends = λ s e. cc; runs = λ s e. rw (k, halted) e }

  pub fetch-Calm :
      {A : Type 0} (r : Request) (read : Trace → A)
      → effect r ≡ keeps
      → Calm server (fetch server r read)
  unfolding halted
  fetch-Calm r read k = record {
    kept = λ s. refl;
    ends = λ s e. cc;
    runs = λ s e. rw (k, halted) e;
  }

  pub text-Calm : Calm server (error_text server)
  text-Calm = record { kept = λ s. refl; ends = λ s e. cc; runs = λ s e. e }

pub ruleset calm = (
  return-Calm, bind-Calm, then-Calm, if-Calm, fail-Calm, event-Calm, get_status-Calm, must-Calm,
  must_or_exists-Calm, memory-Calm, disks-Calm, call-Calm, fetch-Calm, text-Calm,
)
