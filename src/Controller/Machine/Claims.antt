-- ===== src/Controller/Machine/Claims.antt =====
-- pkg/volumeutil/volumeutil.go: the claim under a machine's volume.
use ch_vmm.Prelude.{String, Bool, true, false, ◌&&◌, not, Option, none, some, if◌then◌else◌}
use ch_vmm.Api.{Volume}
use ch_vmm.Api.Quantity.{Quantities}
use ch_vmm.Webhook.Field.{is_blank, is_set}
use ch_vmm.Controller.Program.{
  Answer, done, not_found, failed, Program, ◌>>=◌, ◌>>◌, return, fail, must,
}
use ch_vmm.Controller.Machine.{ConditionSets, Claim, get_claim, is_populated, Server, State, fetch}

-- `pvcName` of `getPVC`.
pub claim_name : Volume → String
claim_name v = elim v.source.persistent_volume_claim [
  | some c ↦ c.claim_name
  | none ↦ elim v.source.data_volume [
    | some d ↦ d.volume_name
    | none ↦ elim v.source.virtual_disk [ some d ↦ d.virtual_disk_name | none ↦ "" ]
  ]
]

module _ {q : Quantities} {sets : ConditionSets} (server : Server q sets) where
  abbrev M : Type 0 → Type 0
  M A = Program (State q sets) A

  -- The end of `getPVC`.
  unfoldable pub found_claim : Answer × Claim → M (Option Claim)
  found_claim (done, c) = return (some c)
  found_claim (not_found, c) = return none
  found_claim (e, c) = fail e

  unfoldable pub get_pvc : Volume → M (Option Claim)
  unfolding claim_name found_claim
  get_pvc v = if is_blank (claim_name v) then fail failed else do
    answered ← fetch server (get_claim (claim_name v)) (λ t. server.claim_of t (claim_name v))
    found_claim answered

  unfoldable pub is_block : Volume → M Bool
  is_block v = do found ← get_pvc v; elim found [ none ↦ fail failed | some c ↦ return c.block ]

  -- `IsPopulated` makes calls of its own, which are one request here.
  unfoldable pub is_ready : Volume → M Bool
  is_ready v =
      if not (is_set v.source.data_volume) && not (is_set v.source.virtual_disk)
      then return true
      else do
        found ← get_pvc v
        elim found [
          | none ↦ return false
          | some c ↦ do
            answered ←
                fetch server (is_populated (claim_name v)) (λ t. server.populated t (claim_name v))
            must answered.0
            return answered.1
        ]
