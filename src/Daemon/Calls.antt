-- ===== src/Daemon/Calls.antt =====
-- The calls of the daemons of all nodes, one after the other: where a machine is while it is migrated.
use mathlib.Core.Option
use ch_vmm.Prelude.{◌≡◌, refl, sym, ap, ◌∙◌, ◌⊎◌, inl, inr, Option, some, some_inj}
use ch_vmm.Daemon.{
  Vm, Status, MigrationPhase, sent, succeeded, ControlBlock, Trace, Server, Node, State,
}
use ch_vmm.Daemon.Reconcile.{reconcile}
use ch_vmm.Daemon.Moves.{MigrationStep, ready, unready, begin, leave, lose, arrive}
use ch_vmm.Daemon.Handover.{Taken}
use ch_vmm.Daemon.Placed.{
  Migrates, Relocates, daemon-reconcile-Migrates, daemon-reconcile-Relocates,
}
use ch_vmm.Daemon.Whole.{read}

-- A sequence of calls, each by any daemon and from the status that the last has left, with any control
-- block and any requests before.
pub data Calls (vm : Vm) (x : Status) : Status → Type 0 where
  no_call : Calls vm x x
  next_call :
      {y : Status} (server : Server) (node : Node) (b : Option ControlBlock) (t : Trace)
      → Calls vm x y
      → Calls vm x (reconcile server node vm (record { status = y; block = b }, t)).1.0.status

abbrev pub phase_of : Status → Option MigrationPhase
phase_of s = Option.map (λ m. m.phase) s.migration

-- Whether the machine has left for the target.
abbrev pub HasLeft : Status → Type 0
HasLeft s = (phase_of s ≡ some sent) ⊎ (phase_of s ≡ some succeeded)

sent-step : (p q : MigrationPhase) → p ≡ sent → MigrationStep p q → q ≡ succeeded
sent-step p q e arrive = refl
sent-step p q e ready = cc
sent-step p q e unready = cc
sent-step p q e begin = cc
sent-step p q e leave = cc
sent-step p q e lose = cc

succeeded-step : (p q : MigrationPhase) → p ≡ succeeded → MigrationStep p q → q ≡ succeeded
succeeded-step p q e arrive = cc
succeeded-step p q e ready = cc
succeeded-step p q e unready = cc
succeeded-step p q e begin = cc
succeeded-step p q e leave = cc
succeeded-step p q e lose = cc

-- A machine that has left stays so.
left-stays :
    (server : Server) (node : Node) (vm : Vm) (y z : Status)
    → Migrates server node vm y z
    → HasLeft y
    → HasLeft z
unfolding Migrates
left-stays server node vm y z (inl e) (inl l) = inl (e ∙ l)
left-stays server node vm y z (inl e) (inr l) = inr (e ∙ l)
left-stays server node vm y z (inr (m, e, (q, k, st))) (inl l) =
    inr
      (k ∙ ap some (sent-step m.phase q (some_inj (sym (ap (Option.map (λ m. m.phase)) e) ∙ l)) st))
left-stays server node vm y z (inr (m, e, (q, k, st))) (inr l) = inr (
    k
    ∙ ap some (succeeded-step m.phase q (some_inj (sym (ap (Option.map (λ m. m.phase)) e) ∙ l)) st))

module _ (vm : Vm) (x : Status) where
  stays_or_leaves :
      (server : Server) (node : Node) (t : Trace) (y z : Status)
      → Migrates server node vm y z
      → Relocates server node vm t y z
      → HasLeft y ⊎ (y.node_name ≡ x.node_name)
      → HasLeft z ⊎ (z.node_name ≡ x.node_name)
  unfolding Relocates Taken
  stays_or_leaves server node t y z h r (inl l) = inl (left-stays server node vm y z h l)
  stays_or_leaves server node t y z h (inl e) (inr k) = inr (e ∙ k)
  stays_or_leaves server node t y z h (inr (m, e, (s, a, b, c, d))) (inr k) =
      inl (left-stays server node vm y z h (inl (ap (Option.map (λ m. m.phase)) e ∙ ap some s)))

  -- Whatever daemons call their reconcilers of machines one after the other, each from the status that the
  -- last has left, and whatever they are answered: the machine is on the node on which it was, unless its
  -- migration has been sent or has succeeded.
  pub Calls-Keep : (y : Status) → Calls vm x y → HasLeft y ⊎ (y.node_name ≡ x.node_name)
  Calls-Keep y no_call = inr refl
  Calls-Keep y (next_call {y = w} server node b t h) =
      let s : State = (record { status = w; block = b }, t) in
      stays_or_leaves server node (read s).1 w _ (daemon-reconcile-Migrates server node vm s)
        (daemon-reconcile-Relocates server node vm s) (Calls-Keep w h)
