-- ===== src/BoundedStack/Wakeup.antt =====
-- Pushers and receivers as interleaved steps: no wake-up is lost.
use ch_vmm.Prelude.{
  ℕ, suc, ◌+◌, ◌-◌, ◌≤◌, ◌≡◌, refl, inl, inr, List, ◌∷◌, some, arith, length, ◌==◌, ltb, Bool-cases,
  cons≢nil, ltb→lt, ltb→le, ==_iff, ==-eq-false, none≢some, false, ap, sym, ◌∙◌,
}
use ch_vmm.BoundedStack.{BoundedStack, pop, push, signal, receive, returned, recv_round, after_pop}
use ch_vmm.BoundedStack.View.{
  IsValid, view, view-pop, length-view, view-notify, pop-IsValid, push-IsValid,
}

-- `pushing` calls of `Push` have stored their item and not yet signalled it; `holding` calls of
-- `Recv` have taken a token and not yet popped.
pub record System {ℓ} (A : Type ℓ) : Type ℓ where
  pub stack : BoundedStack A
  pub pushing : ℕ
  pub holding : ℕ

module _ {ℓ} {A : Type ℓ} where
  push-size :
      (s : BoundedStack A) (item : A)
      → ((push s item).size ≤ s.size + 1) × ((push s item).notify ≡ s.notify)
  unfolding push
  push-size s item = (omega arith, refl)

  signal-IsValid : (s : BoundedStack A) → IsValid s → IsValid (signal s)
  unfolding signal
  signal-IsValid s v = elim (Bool-cases (ltb s.notify (length s.buffer))) [
    | inl p ↦ rw p (record {
      positive = v.positive;
      top_within = v.top_within;
      size_within = v.size_within;
      notify_within = omega (arith, ltb→lt s.notify (length s.buffer) p);
    })
    | inr p ↦ rw p v
  ]

  signal_covers :
      (s : BoundedStack A) (k : ℕ)
      → IsValid s
      → s.size ≤ s.notify + suc k
      → (signal s).size ≤ (signal s).notify + k
  unfolding signal
  signal_covers s k v h = elim (Bool-cases (ltb s.notify (length s.buffer))) [
    | inl p ↦ rw p (omega arith)
    | inr p ↦ rw p (omega (arith, ltb→le s.notify (length s.buffer) p, v.size_within))
  ]

  receive_lem :
      (s s' : BoundedStack A)
      → receive s ≡ some s'
      → (suc s'.notify ≡ s.notify) × (s'.size ≡ s.size) × (IsValid s → IsValid s')
  unfolding receive
  receive_lem s s' e = elim (Bool-cases (s.notify == 0)) [
    | inl p ↦ absurd (none≢some (rw p at e))
    | inr p ↦
        let eq : record s { notify = s.notify - 1 } ≡ s' = cc (rw p at e) in
        rw (← eq) (
          ground arith,
          refl,
          λ v. record {
            positive = v.positive;
            top_within = v.top_within;
            size_within = v.size_within;
            notify_within = omega (arith, v.notify_within);
          },
        )
  ]

module _ {ℓ} {A : Type ℓ} (nil : A) where
  pop_covers : (s : BoundedStack A) (k : ℕ) → s.size ≤ k + 1 → (pop nil s).0.size ≤ k
  unfolding pop
  pop_covers s k h = elim (Bool-cases (s.size == 0)) [
    | inl p ↦ rw p (omega (arith, (==_iff s.size 0).0 p))
    | inr p ↦ rw p (omega arith)
  ]

  pop-notify : (s : BoundedStack A) → (pop nil s).0.notify ≡ s.notify
  unfolding pop
  pop-notify s = elim (Bool-cases (s.size == 0)) [ inl p ↦ rw p | inr p ↦ rw p ]

  pub data Step : System A → System A → Type ℓ where
    store :
        (y : System A) (item : A)
        → Step y (record y { stack = push y.stack item; pushing = suc y.pushing })
    notify :
        (y : System A) (n : ℕ)
        → y.pushing ≡ suc n
        → Step y (record y { stack = signal y.stack; pushing = n })
    wake :
        (y : System A) (s : BoundedStack A)
        → receive y.stack ≡ some s
        → Step y (record y { stack = s; holding = suc y.holding })
    fetch :
        (y : System A) (n : ℕ)
        → y.holding ≡ suc n
        → Step y (record y { stack = (pop nil y.stack).0; holding = n })

  pub data Reach (x : System A) : System A → Type ℓ where
    here : Reach x x
    next : {y z : System A} → Reach x y → Step y z → Reach x z

  -- Each stored item has a token, or a call under way that will see to it.
  pub record Awake (y : System A) : Type ℓ where
    pub valid : IsValid y.stack
    pub covered : y.stack.size ≤ y.stack.notify + y.pushing + y.holding

  pub Step-Awake : {y z : System A} → Step y z → Awake y → Awake z
  Step-Awake (store y item) a = record {
    valid = push-IsValid nil y.stack item a.valid;
    covered = omega (arith, push-size y.stack item);
  }
  Step-Awake (notify y n e) a = record {
    valid = signal-IsValid y.stack a.valid;
    covered = omega (arith, signal_covers y.stack (n + y.holding) a.valid (omega arith));
  }
  Step-Awake (wake y s e) a =
      let (n, z, v) = receive_lem y.stack s e in record { valid = v a.valid; covered = omega arith }
  Step-Awake (fetch y n e) a = record {
    valid = pop-IsValid nil y.stack a.valid;
    covered = omega (
      arith,
      pop-notify y.stack,
      pop_covers y.stack (y.stack.notify + y.pushing + n) (omega arith),
    );
  }

  round_newest :
      (s : BoundedStack A) (item : A) (rest : List A)
      → IsValid s
      → view nil s ≡ item ∷ rest
      → (s' : BoundedStack A) × (after_pop nil (pop nil s) ≡ (returned item, s'))
        × (view nil s' ≡ rest)
  unfolding after_pop
  round_newest s item rest v e = elim (view-pop nil s v) [
    | inl (empty, _) ↦ absurd (cons≢nil item rest (sym e ∙ empty))
    | inr (x, s', popped, split) ↦ (s', rw popped (cc (sym e ∙ split)), cc (sym e ∙ split))
  ]

  pub Reach-Awake : {x y : System A} → Awake x → Reach x y → Awake y
  Reach-Awake a here = a
  Reach-Awake a (next r st) = Step-Awake st (Reach-Awake a r)

  -- Whatever calls have run, interleaved in any order, from a valid stack with nothing under way
  -- and no item without a token: once all of them are over, a receiver gets the newest item if
  -- there is one.
  pub recv_round_newest :
      {x y : System A} (item : A) (rest : List A)
      → Awake x
      → Reach x y
      → y.pushing ≡ 0
      → y.holding ≡ 0
      → view nil y.stack ≡ item ∷ rest
      → (s : BoundedStack A) × (recv_round nil y.stack ≡ (returned item, s)) × (view nil s ≡ rest)
  unfolding recv_round receive
  recv_round_newest {x} {y} item rest a r p h e =
      let b = Reach-Awake a r in
      let n : y.stack.size ≡ suc (length rest) = sym (length-view nil y.stack) ∙ ap length e in
      let more : (y.stack.notify == 0) ≡ false =
        ==-eq-false y.stack.notify 0 (omega (arith, b.covered)) in
      rw (more, recv_round)
        (round_newest (record y.stack { notify = y.stack.notify - 1 }) item rest
          (record {
            positive = b.valid.positive;
            top_within = b.valid.top_within;
            size_within = b.valid.size_within;
            notify_within = omega (arith, b.valid.notify_within);
          })
          (view-notify nil y.stack (y.stack.notify - 1) ∙ e))
