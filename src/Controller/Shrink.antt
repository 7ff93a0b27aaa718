-- ===== src/Controller/Shrink.antt =====
-- internal/controller/vmset_controller.go and vmpool_controller.go: the loop with which both
-- reconcilers delete machines from the end of a list.
pub mod Laws
use ch_vmm.Controller.Program.{
  ok, panicked, ◌>>=◌, ◌>>◌, return, item_at, NoPanic, bind-NoPanic, item_at-some, bind-panicked,
}
use ch_vmm.Prelude.{
  ℕ, zero, suc, ◌+◌, ◌-◌, ◌^◌, ◌≤◌, ◌<◌, ◌≡◌, refl, sym, ap, ◌∙◌, inl, inr, List, [], ◌∷◌, ◌++◌,
  some, if◌then◌else◌, ltb, length, arith, lt→ltb, ltb→lt, get_elem?, get_elem?-eq-some,
  take-drop-snoc, take, drop, take_of_length-le, length-drop, Bool-cases,
}
use ch_vmm.Prelude.Int64.{sub32, lt32}
use ch_vmm.Controller.Client.{Vm, Trace, M}

-- `ctrl.Result`: the seconds of `RequeueAfter`.
abbrev pub Requeue : Type 0
Requeue = ℕ

-- How often the loop of `scaleDown` runs: `toDelete` is an `int32`.
pub scale_down_rounds : ℕ → ℕ → ℕ
unfolding sub32 lt32
scale_down_rounds current desired =
    let to_delete = sub32 current desired in if lt32 0 to_delete then to_delete else 0

-- The loop from round `i`, with `rounds` to go. `len-1-i` is negative from round `len` on, and no
-- index.
unfoldable pub shrink_from : (Vm → M (Unit {0})) → List Vm → ℕ → ℕ → M (Unit {0})
shrink_from remove current i zero = return tt
shrink_from remove current i (suc rounds) =
    let rest = shrink_from remove current (i + 1) rounds in
    do
      v ←
          (if ltb i (length current)
            then item_at current (length current - 1 - i)
            else item_at [] 0)
      remove v
      rest

unfoldable pub shrink : (Vm → M (Unit {0})) → List Vm → ℕ → M Requeue
unfolding shrink_from scale_down_rounds
shrink remove current desired = do
  shrink_from remove current 0 (scale_down_rounds (length current) desired)
  return 5
