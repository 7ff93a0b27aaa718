-- ===== src/Controller/Shrink/Laws.antt =====
-- What the loop of the two `scaleDown` methods removes, and when it panics.
use ch_vmm.Controller.Program.{ok, panicked, NoPanic, bind-NoPanic, item_at-some, bind-panicked}
use ch_vmm.Prelude.{
  ℕ, zero, suc, ◌+◌, ◌-◌, ◌^◌, ◌≤◌, ◌<◌, ◌≡◌, refl, sym, ap, ◌∙◌, inl, inr, List, [], ◌∷◌, ◌++◌,
  some, ltb, length, arith, lt→ltb, ltb→lt, get_elem?, get_elem?-eq-some, take-drop-snoc, take,
  drop, take_of_length-le, length-drop, Bool-cases,
}
use ch_vmm.Controller.Client.{Vm, Trace, M}
use ch_vmm.Controller.Shrink.{scale_down_rounds, shrink_from, shrink}

-- The trace after the removal of machines, the last of the list first.
abbrev pub removed_all : (Vm → Trace → Trace) → List Vm → Trace → Trace
removed_all removed [] t = t
removed_all removed (v ∷ vs) t = removed v (removed_all removed vs t)

removed_all-append :
    (removed : Vm → Trace → Trace) (xs ys : List Vm) (t : Trace)
    → removed_all removed (xs ++ ys) t ≡ removed_all removed xs (removed_all removed ys t)
removed_all-append removed [] ys t = refl
removed_all-append removed (x ∷ xs) ys t = ap (removed x) (removed_all-append removed xs ys t)

pub scale_down_rounds_up : (n d : ℕ) → d ≤ n → n < 2 ^ 31 → scale_down_rounds n d ≡ n - d
unfolding scale_down_rounds
scale_down_rounds_up n d h k = ground arith

scale_down_rounds_negative :
    (n d : ℕ)
    → 2 ^ 31 ≤ d
    → d < 2 ^ 32
    → n + (2 ^ 32 - d) < 2 ^ 31
    → scale_down_rounds n d ≡ n + (2 ^ 32 - d)
unfolding scale_down_rounds
scale_down_rounds_negative n d h k l = ground arith

rest_of_window :
    (current : List Vm) (desired : ℕ)
    → desired ≤ length current
    → take
        (length current - desired)
        (drop (length current - 0 - (length current - desired)) current)
      ≡ drop desired current
rest_of_window current desired h =
    ap (λ m. take (length current - desired) (drop m current))
      {x = length current - 0 - (length current - desired)} {y = desired} (omega arith)
    ∙ take_of_length-le (length current - desired) (drop desired current)
        (omega (arith, length-drop desired current))

removed_window :
    (removed : Vm → Trace → Trace) (xs : List Vm) (m m' n : ℕ) (v : Vm) (t : Trace)
    → m ≡ m'
    → get_elem? xs (m' + n) ≡ some v
    → removed_all removed (take n (drop m xs)) (removed v t)
      ≡ removed_all removed (take (suc n) (drop m' xs)) t
removed_window removed xs m m' n v t e h =
    rw (e, take-drop-snoc xs m' n v h)
      (sym (removed_all-append removed (take n (drop m' xs)) (v ∷ []) t))

module _ (remove : Vm → M (Unit {0})) (removed : Vm → Trace → Trace)
    (removes : (v : Vm) (t : Trace) → remove v t ≡ (ok tt, removed v t)) (current : List Vm) where
  -- One round of the loop.
  shrink_from-round :
      (i rounds : ℕ) (v : Vm) (t : Trace)
      → i < length current
      → get_elem? current (length current - 1 - i) ≡ some v
      → shrink_from remove current i (suc rounds) t
        ≡ shrink_from remove current (i + 1) rounds (removed v t)
  unfolding shrink_from
  shrink_from-round i rounds v t h e = rw (
    lt→ltb i (length current) h,
    item_at-some current (length current - 1 - i) v t e,
    removes v t,
  )

  shrink_from-trace :
      (i rounds : ℕ) (t : Trace)
      → i + rounds ≤ length current
      → shrink_from remove current i rounds t
        ≡ (ok tt, removed_all removed (take rounds (drop (length current - i - rounds) current)) t)
  unfolding shrink_from
  shrink_from-trace i zero t h = refl
  shrink_from-trace i (suc rounds) t h =
      let m = length current - i - suc rounds in
      let (v, e) = get_elem?-eq-some current (length current - 1 - i) (omega arith) in
      shrink_from-round i rounds v t (omega arith) e
      ∙ shrink_from-trace (i + 1) rounds (removed v t) (omega arith)
      ∙ ap (λ u. (ok tt, u))
          (removed_window removed current (length current - (i + 1) - rounds) m rounds v t
            (omega arith)
            (ap (get_elem? current) {x = m + rounds} {y = length current - 1 - i} (omega arith)
              ∙ e))

  -- If each removal succeeds, the machines behind the first `desired` ones are removed, the last
  -- one first.
  pub shrink-trace :
      (desired : ℕ) (t : Trace)
      → desired ≤ length current
      → length current < 2 ^ 31
      → shrink remove current desired t ≡ (ok 5, removed_all removed (drop desired current) t)
  unfolding shrink
  shrink-trace desired t h k =
      rw
        (
          scale_down_rounds_up (length current) desired h k,
          shrink_from-trace 0 (length current - desired) t (omega arith),
        )
        (ap (λ l. (ok 5, removed_all removed l t)) (rest_of_window current desired h))

  -- From round `len` on the index is negative.
  shrink_from-panics :
      (i rounds : ℕ) (t : Trace)
      → i ≤ length current
      → length current < i + rounds
      → (shrink_from remove current i rounds t).0 ≡ panicked
  unfolding shrink_from
  shrink_from-panics i zero t h k = absurd (omega arith)
  shrink_from-panics i (suc rounds) t h k = elim (Bool-cases (ltb i (length current))) [
    | inl p ↦
        let lt = ltb→lt i (length current) p in
        let (v, e) = get_elem?-eq-some current (length current - 1 - i) (omega arith) in
        ap (λ r. r.0) (shrink_from-round i rounds v t lt e)
        ∙ shrink_from-panics (i + 1) rounds (removed v t) (omega arith) (omega arith)
    | inr p ↦ rw p
  ]

  -- With a negative number of machines to keep the loop removes all of them, and then panics.
  pub shrink-panics :
      (desired : ℕ) (t : Trace)
      → 2 ^ 31 ≤ desired
      → desired < 2 ^ 32
      → length current + (2 ^ 32 - desired) < 2 ^ 31
      → (shrink remove current desired t).0 ≡ panicked
  unfolding shrink
  shrink-panics desired t h k l =
      bind-panicked (shrink_from remove current 0 (scale_down_rounds (length current) desired) t) _
        (rw (scale_down_rounds_negative (length current) desired h k l) (
          shrink_from-panics 0 (length current + (2 ^ 32 - desired)) t (omega arith) (omega arith)))

module _ (remove : Vm → M (Unit {0})) (removes : (v : Vm) → NoPanic (remove v))
    (current : List Vm) where
  shrink_from-NoPanic :
      (i rounds : ℕ) → i + rounds ≤ length current → NoPanic (shrink_from remove current i rounds)
  unfolding shrink_from
  shrink_from-NoPanic i zero h t = λ e. cc
  shrink_from-NoPanic i (suc rounds) h t =
      let (v, e) = get_elem?-eq-some current (length current - 1 - i) (omega arith) in
      rw
        (
          lt→ltb i (length current) (omega arith),
          item_at-some current (length current - 1 - i) v t e,
        )
        (bind-NoPanic (remove v t) _ (removes v t)
          (λ _. shrink_from-NoPanic (i + 1) rounds (omega arith)))

  pub shrink-NoPanic :
      (desired : ℕ)
      → desired ≤ length current
      → length current < 2 ^ 31
      → NoPanic (shrink remove current desired)
  unfolding shrink
  shrink-NoPanic desired h k t = rw (scale_down_rounds_up (length current) desired h k) (
      bind-NoPanic (shrink_from remove current 0 (length current - desired) t) _
        (shrink_from-NoPanic 0 (length current - desired) (omega arith) t) (λ _ t'. λ e. cc))
