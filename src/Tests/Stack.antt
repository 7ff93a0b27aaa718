-- ===== src/Tests/Stack.antt =====
-- The bounded stack on concrete input.
use ch_vmm.Prelude.{ℕ, ◌≡◌, ◌⊎◌, refl, true, false, [], ◌∷◌, arith, take}
use ch_vmm.BoundedStack.{BoundedStack, pop, push, signal, recv_round, returned}
use ch_vmm.BoundedStack.View.{IsValid, read, view, view-push, view-pop}
use ch_vmm.BoundedStack.Wakeup.{System, Reach, here, next, store, notify, Awake, recv_round_newest}

-- Three cells, of which two are in use, the newer one wrapped around.
abbrev wrapped : BoundedStack ℕ
wrapped = record { notify = 2; buffer = 8 ∷ 0 ∷ 7 ∷ []; top = 0; size = 2 }

abbrev full : BoundedStack ℕ
full = record { notify = 3; buffer = 8 ∷ 9 ∷ 7 ∷ []; top = 1; size = 3 }

wrapped-IsValid : IsValid wrapped
wrapped-IsValid = record {
  positive = omega arith;
  top_within = omega arith;
  size_within = omega arith;
  notify_within = omega arith;
}

full-IsValid : IsValid full
full-IsValid = record {
  positive = omega arith;
  top_within = omega arith;
  size_within = omega arith;
  notify_within = omega arith;
}

wrapped-view : view 0 wrapped ≡ 8 ∷ 7 ∷ []
unfolding view read
wrapped-view = refl

view-push_example : view 0 (push full 5) ≡ take 3 (5 ∷ view 0 full)
view-push_example = view-push 0 full 5 full-IsValid

view-pop_example :
    ((view 0 wrapped ≡ []) × (pop 0 wrapped ≡ (wrapped, 0, false)))
    ⊎ ((x : ℕ) × (s : BoundedStack ℕ) × (pop 0 wrapped ≡ (s, x, true))
        × (view 0 wrapped ≡ x ∷ view 0 s))
view-pop_example = view-pop 0 wrapped wrapped-IsValid

abbrev empty : BoundedStack ℕ
empty = record { notify = 0; buffer = 0 ∷ 0 ∷ []; top = 0; size = 0 }

abbrev start : System ℕ
start = record { stack = empty; pushing = 0; holding = 0 }

start-Awake : Awake 0 start
start-Awake = record {
  valid = record {
    positive = omega arith;
    top_within = omega arith;
    size_within = omega arith;
    notify_within = omega arith;
  };
  covered = omega arith;
}

-- Two pushers store their items before either signals.
abbrev signalled : System ℕ
signalled = record { stack = signal (signal (push (push empty 4) 5)); pushing = 0; holding = 0 }

start-Reach-signalled : Reach 0 start signalled
start-Reach-signalled =
    next (next (next (next here (store start 4)) (store _ 5)) (notify _ 1 refl)) (notify _ 0 refl)

signalled-view : view 0 signalled.stack ≡ 5 ∷ 4 ∷ []
unfolding view read push signal
signalled-view = refl

recv_round_newest_example :
    (s : BoundedStack ℕ) × (recv_round 0 signalled.stack ≡ (returned 5, s)) × (view 0 s ≡ 4 ∷ [])
recv_round_newest_example =
    recv_round_newest 0 5 (4 ∷ []) start-Awake start-Reach-signalled refl refl signalled-view
