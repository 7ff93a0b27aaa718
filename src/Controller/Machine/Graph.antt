-- ===== src/Controller/Machine/Graph.antt =====
-- Which phases of a machine follow which in one call of its reconciler.
use ch_vmm.Prelude.{
  ◌≡◌, refl, sym, subst, ◌∙◌, ◌⊎◌, inl, inr, ℕ, String, Bool, true, false, not, List, [], ◌∷◌,
  Option, none, some, if◌then◌else◌,
}
use ch_vmm.Api.Quantity.{Quantities}
use ch_vmm.Controller.Program.{
  Answer, done, not_found, already_exists, conflict, failed, Program, Result, ok, err, panicked,
  Keeps, return-Keeps, bind-Keeps, then-Keeps, must-Keeps, must_or_missing-Keeps, if-Keeps,
  option-Keeps, Keeps-coarser, Leads, bind-Leads, then-Leads, ◌>>=◌, ◌>>◌,
}
use ch_vmm.Controller.Machine.{ConditionSets, Phase, PodPhase, State, VmStatus, get_status, modify}
use ch_vmm.Controller.Machine.Silent.{Silent}
use ch_vmm.Controller.Machine.Phases.{phase_of_pod, phase_of_running}

-- The phases in which a machine's pod decides, and those in which it can leave a machine.
abbrev pub is_active : Phase → Bool
is_active Phase.scheduling = true
is_active Phase.scheduled = true
is_active Phase.running = true
is_active p = false

abbrev pub is_end : Phase → Bool
is_end Phase.succeeded = true
is_end Phase.failed = true
is_end Phase.unknown = true
is_end p = false

-- The phases from which a machine is started.
abbrev pub is_over : Phase → Bool
is_over Phase.none_yet = true
is_over Phase.succeeded = true
is_over Phase.failed = true
is_over p = false

-- The changes of a machine's phase that the controller makes. (The daemon makes a scheduled machine
-- run, and ends the phase `resize`.)
pub data Step : Phase → Phase → Type 0 where
  stay : {p : Phase} → Step p p
  start : {p : Phase} → is_over p ≡ true → Step p Phase.pending
  schedule : Step Phase.pending Phase.scheduling
  place : Step Phase.scheduling Phase.scheduled
  finish : {p e : Phase} → is_active p ≡ true → is_end e ≡ true → Step p e
  grow : Step Phase.running Phase.pod_resize
  refuse : Step Phase.pod_resize Phase.running
  grown : Step Phase.pod_resize Phase.resize
  lose : Step Phase.pod_resize Phase.failed

pub phase_of_pod-Step :
    (p : Phase) (c : PodPhase) (b : Bool) → is_active p ≡ true → Step p (phase_of_pod p c b)
unfolding phase_of_pod
phase_of_pod-Step p PodPhase.succeeded b h = finish h refl
phase_of_pod-Step p PodPhase.failed b h = finish h refl
phase_of_pod-Step p PodPhase.unknown b h = finish h refl
phase_of_pod-Step p PodPhase.pending b h = stay
phase_of_pod-Step Phase.scheduling PodPhase.running true h = place
phase_of_pod-Step p PodPhase.running b h = stay

pub phase_of_running-Step :
    (c : Option PodPhase) (b : Bool) → Step Phase.running (phase_of_running c b)
unfolding phase_of_running
phase_of_running-Step none b = finish refl refl
phase_of_running-Step (some PodPhase.succeeded) true = stay
phase_of_running-Step (some PodPhase.succeeded) false = finish refl refl
phase_of_running-Step (some PodPhase.failed) b = finish refl refl
phase_of_running-Step (some PodPhase.unknown) b = finish refl refl
phase_of_running-Step (some PodPhase.pending) b = stay
phase_of_running-Step (some PodPhase.running) b = stay

module _ {q : Quantities} {sets : ConditionSets} where
  -- The phase of the machine in memory.
  abbrev pub phase_in : State q sets → Phase
  phase_in s = s.0.phase

  abbrev pub KeepsPhase : {A : Type 0} → Program (State q sets) A → Type 0
  KeepsPhase m = Keeps phase_in m

  -- A program that starts in a phase, and ends in one that may follow it.
  abbrev pub StepsFrom : {A : Type 0} → Phase → Program (State q sets) A → Type 0
  StepsFrom p m = Leads (λ s. phase_in s ≡ p) (λ s. Step p (phase_in s)) m

  pub Silent-KeepsPhase : {A : Type 0} {m : Program (State q sets) A} → Silent m → KeepsPhase m
  Silent-KeepsPhase h = record { kept = λ s. (Keeps-coarser (λ status. status.phase) h).kept s }

  pub KeepsPhase-Leads :
      {A : Type 0} {m : Program (State q sets) A} {p : Phase}
      → KeepsPhase m
      → Leads (λ s. phase_in s ≡ p) (λ s. phase_in s ≡ p) m
  KeepsPhase-Leads h = record { led = λ s e. h.kept s ∙ e }

  pub stay_at : {p : Phase} (s : State q sets) → phase_in s ≡ p → Step p (phase_in s)
  stay_at {p} s e = subst (λ x. Step p x) (sym e) stay

  pub KeepsPhase-StepsFrom :
      {A : Type 0} {m : Program (State q sets) A} {p : Phase} → KeepsPhase m → StepsFrom p m
  KeepsPhase-StepsFrom {A} {m} h = record { led = λ s e. stay_at (m s).1 (h.kept s ∙ e) }

  -- A silent beginning.
  pub behind-StepsFrom :
      {A B : Type 0} {m : Program (State q sets) A} {f : A → Program (State q sets) B} {p : Phase}
      → KeepsPhase m
      → ((a : A) → StepsFrom p (f a))
      → StepsFrom p (m >>= f)
  behind-StepsFrom h k = record { led = λ s e. (bind-Leads (KeepsPhase-Leads h) k stay_at).led s e }

  pub then-StepsFrom :
      {B : Type 0} {m : Program (State q sets) (Unit {0})} {k : Program (State q sets) B}
      {p : Phase}
      → KeepsPhase m
      → StepsFrom p k
      → StepsFrom p (m >> k)
  then-StepsFrom h k = record { led = λ s e. (behind-StepsFrom h (λ _. k)).led s e }

  pub if-StepsFrom :
      {A : Type 0} {m k : Program (State q sets) A} {p : Phase} (b : Bool)
      → StepsFrom p m
      → StepsFrom p k
      → StepsFrom p (if b then m else k)
  if-StepsFrom true h k = h
  if-StepsFrom false h k = k

  -- An end that keeps the phase.
  pub before-StepsFrom :
      {B : Type 0} {m : Program (State q sets) (Unit {0})} {k : Program (State q sets) B}
      {p : Phase}
      → StepsFrom p m
      → KeepsPhase k
      → StepsFrom p (m >> k)
  before-StepsFrom {B} {m} {k} {p} h keeps = record {
    led = λ s e.
        (then-Leads h (record { led = λ t st. subst (λ x. Step p x) (sym (keeps.kept t)) st })
            (λ t st. st)).led
          s e;
  }

  pub get_status-KeepsPhase : KeepsPhase get_status
  get_status-KeepsPhase = record { kept = λ s. refl }

  pub modify-KeepsPhase :
      (f : VmStatus q sets → VmStatus q sets)
      → ((s : VmStatus q sets) → (f s).phase ≡ s.phase)
      → KeepsPhase (modify f)
  modify-KeepsPhase f h = record { kept = λ s. h s.0 }

  -- What keeps the phase by its parts.
  pub ruleset phases = (
    return-Keeps, bind-Keeps, then-Keeps, must-Keeps, must_or_missing-Keeps, if-Keeps,
    get_status-KeepsPhase, modify-KeepsPhase, Silent-KeepsPhase, refl,
  )
