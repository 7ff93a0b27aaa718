-- ===== src/Controller/Machine/Silent.antt =====
-- What reads the server, or asks it for changes, without a change of the status in memory.
pub mod Pods
pub mod Volumes
use ch_vmm.Prelude.{◌≡◌, refl, String, Bool, true, false, List, [], ◌∷◌, Option, none, some}
use ch_vmm.Api.{Volume}
use ch_vmm.Api.Quantity.{Quantities}
use ch_vmm.Controller.Program.{
  Answer, done, not_found, already_exists, conflict, failed, Program, Keeps, return-Keeps,
  option-Keeps, bind-Keeps, then-Keeps, must-Keeps, must_or_missing-Keeps, if-Keeps, Result, ok,
  err, panicked, fail, later,
}
use ch_vmm.Controller.Machine.{
  ConditionSets, Claim, Request, Trace, call, fetch, record_event, Server, State, VmStatus, World,
}
use ch_vmm.Controller.Machine.Claims.{found_claim, get_pvc, is_block, is_ready}

-- A program that leaves the status as it is.
abbrev pub Silent :
    {q : Quantities} {sets : ConditionSets} {A : Type 0} → Program (State q sets) A → Type 0
Silent m = Keeps (λ s. s.0) m

module _ {q : Quantities} {sets : ConditionSets} where
  pub fail-Silent : {A : Type 0} (e : Answer) → Silent {q = q} {sets = sets} {A = A} (fail e)
  fail-Silent e = record { kept = λ s. refl }

  pub event-Silent : (e : String) → Silent {q = q} {sets = sets} (record_event e)
  event-Silent e = record { kept = λ s. refl }

  -- A request to be called again.
  pub later-Silent : {A : Type 0} → Silent {q = q} {sets = sets} {A = A} (λ s. (err later, s))
  later-Silent = record { kept = λ s. refl }

  pub panic-Silent : {A : Type 0} → Silent {q = q} {sets = sets} {A = A} (λ s. (panicked, s))
  panic-Silent = record { kept = λ s. refl }

module _ {q : Quantities} {sets : ConditionSets} (server : Server q sets) where
  pub call-Silent : (r : Request q sets) → Silent (call server r)
  call-Silent r = record { kept = λ s. refl }

  pub fetch-Silent :
      {A : Type 0} (r : Request q sets) (read : Trace q sets → A) → Silent (fetch server r read)
  fetch-Silent r read = record { kept = λ s. refl }

  -- What is silent by its parts.
  pub ruleset silent = (
    return-Keeps, bind-Keeps, then-Keeps, must-Keeps, must_or_missing-Keeps, if-Keeps, option-Keeps,
    fail-Silent, event-Silent, later-Silent, panic-Silent, call-Silent, fetch-Silent,
  )

  found_claim-Silent : (a : Answer × Claim) → Silent (found_claim server a)
  unfolding found_claim
  found_claim-Silent (done, c) = return-Keeps _
  found_claim-Silent (not_found, c) = return-Keeps _
  found_claim-Silent (already_exists, c) = fail-Silent _
  found_claim-Silent (conflict, c) = fail-Silent _
  found_claim-Silent (failed, c) = fail-Silent _

  get_pvc-Silent : (v : Volume) → Silent (get_pvc server v)
  unfolding get_pvc
  get_pvc-Silent v = search (silent, found_claim-Silent)

  pub is_block-Silent : (v : Volume) → Silent (is_block server v)
  unfolding is_block
  is_block-Silent v =
      bind-Keeps (get_pvc-Silent v)
        (λ found. option-Keeps found (search silent) (λ c. search silent))

  pub is_ready-Silent : (v : Volume) → Silent (is_ready server v)
  unfolding is_ready
  is_ready-Silent v = if-Keeps _ (return-Keeps _) (
      bind-Keeps (get_pvc-Silent v)
        (λ found. option-Keeps found (search silent) (λ c. search silent)))
