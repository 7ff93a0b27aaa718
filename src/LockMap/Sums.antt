-- ===== src/LockMap/Sums.antt =====
-- Sums over the calls of a lock map.
use ch_vmm.Prelude.{
  ℕ, zero, suc, ◌+◌, ◌≤◌, ◌≡◌, refl, ap, ◌≢◌, ◌⊎◌, inl, inr, List, [], ◌∷◌, some, set, get_elem?,
  arith, none≢some, some_inj,
}
use ch_vmm.LockMap.{Call, holds, writes, sum}

pub sum-set :
    (f : Call → ℕ) (cs : List Call) (i : ℕ) (c c' : Call)
    → get_elem? cs i ≡ some c
    → sum f (set cs i c') + f c ≡ sum f cs + f c'
unfolding sum
sum-set f [] i c c' h = absurd (none≢some h)
sum-set f (x ∷ cs) zero c c' h = omega (arith, ap f (some_inj h))
sum-set f (x ∷ cs) (suc i) c c' h = omega (arith, sum-set f cs i c c' h)

pub sum-get_elem? :
    (f : Call → ℕ) (cs : List Call) (i : ℕ) (c : Call) → get_elem? cs i ≡ some c → f c ≤ sum f cs
unfolding sum
sum-get_elem? f [] i c h = absurd (none≢some h)
sum-get_elem? f (x ∷ cs) zero c h = omega (arith, ap f (some_inj h))
sum-get_elem? f (x ∷ cs) (suc i) c h = omega (arith, sum-get_elem? f cs i c h)

pub sum_two :
    (f : Call → ℕ) (cs : List Call) (i j : ℕ) (c d : Call)
    → get_elem? cs i ≡ some c
    → get_elem? cs j ≡ some d
    → i ≢ j
    → f c + f d ≤ sum f cs
unfolding sum
sum_two f [] i j c d h k ne = absurd (none≢some h)
sum_two f (x ∷ cs) zero zero c d h k ne = absurd (ne refl)
sum_two f (x ∷ cs) zero (suc j) c d h k ne =
    omega (arith, ap f (some_inj h), sum-get_elem? f cs j d k)
sum_two f (x ∷ cs) (suc i) zero c d h k ne =
    omega (arith, ap f (some_inj k), sum-get_elem? f cs i c h)
sum_two f (x ∷ cs) (suc i) (suc j) c d h k ne =
    omega (arith, sum_two f cs i j c d h k (λ e. ne (ap suc e)))

pub get_elem?-set :
    (cs : List Call) (i j : ℕ) (c d : Call)
    → get_elem? (set cs i c) j ≡ some d
    → (c ≡ d) ⊎ (get_elem? cs j ≡ some d)
get_elem?-set [] i j c d h = inr h
get_elem?-set (x ∷ cs) zero zero c d h = inl (some_inj h)
get_elem?-set (x ∷ cs) zero (suc j) c d h = inr h
get_elem?-set (x ∷ cs) (suc i) zero c d h = inr h
get_elem?-set (x ∷ cs) (suc i) (suc j) c d h = get_elem?-set cs i j c d h

pub writes-le-holds : (m : ℕ) (cs : List Call) → sum (writes m) cs ≤ sum (holds m) cs
unfolding sum
writes-le-holds m [] = omega arith
writes-le-holds m (c ∷ cs) = ground (arith, writes-le-holds m cs)
