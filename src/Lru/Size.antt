-- ===== src/Lru/Size.antt =====
-- The accounting of sizes: `current_size` is the total size of the values in the cache, and after
-- each operation it is within the maximum.
pub mod Bound
pub mod Purge
use ch_vmm.Prelude.{
  ℕ, zero, suc, ◌+◌, ◌-◌, ◌^◌, ◌≤◌, ◌<◌, ◌≡◌, refl, sym, ap, ◌∙◌, ◌⊎◌, inl, inr, Bool, true, false,
  not, List, [], ◌∷◌, ◌++◌, Option, none, some, if◌then◌else◌, ltb, ◌==◌, length, arith,
  Option-cases, Bool-cases, ltb→lt, ltb→le, ==_iff, none≢some, some_inj,
}
use ch_vmm.Prelude.Int64.{add64, sub64, lt64, add64_small, sub64_small, lt64_small}
use ch_vmm.Lru.{
  EvictionReason, Entry, Element, Lru, lookup_item, entry_at, remove_at, move_to_front, write_value,
  on_evict, add_item, back, remove_element, remove_oldest, trim, place, add, push_back, remove, get,
}

module _ {ℓ} {V : Type ℓ} where
  -- How often an address is in the list.
  unfoldable pub occurs : ℕ → List (Element V) → ℕ
  occurs p [] = 0
  occurs p ((q, e) ∷ es) = (if q == p then 1 else 0) + occurs p es

  pub occurs-remove_at : (p r : ℕ) (es : List (Element V)) → occurs r (remove_at p es) ≤ occurs r es
  unfolding occurs remove_at
  occurs-remove_at p r [] = omega arith
  occurs-remove_at p r ((q, e) ∷ es) = ground (arith, occurs-remove_at p r es)

  pub occurs-entry_at :
      (p : ℕ) (es : List (Element V)) (e : Entry V)
      → entry_at p es ≡ some e
      → occurs p (remove_at p es) + 1 ≡ occurs p es
  unfolding occurs remove_at entry_at
  occurs-entry_at p [] e h = absurd (none≢some h)
  occurs-entry_at p ((q, x) ∷ es) e h = elim (Bool-cases (q == p)) [
    | inl y ↦ rw (y) (omega arith)
    | inr n ↦ rw (n, occurs) (rw n (omega (arith, occurs-entry_at p es e (rw n at h))))
  ]

  pub length-remove_at :
      (p : ℕ) (es : List (Element V)) (e : Entry V)
      → entry_at p es ≡ some e
      → length (remove_at p es) + 1 ≡ length es
  unfolding remove_at entry_at
  length-remove_at p [] e h = absurd (none≢some h)
  length-remove_at p ((q, x) ∷ es) e h = elim (Bool-cases (q == p)) [
    | inl y ↦ rw y (omega arith)
    | inr n ↦ rw n (omega (arith, length-remove_at p es e (rw n at h)))
  ]

  -- The last element is found at its address if addresses are distinct.
  occurs-back :
      (es : List (Element V)) (p : ℕ) (e : Entry V) → back es ≡ some (p, e) → 0 < occurs p es
  unfolding back occurs
  occurs-back [] p e h = absurd (none≢some h)
  occurs-back ((q, x) ∷ []) p e h =
      rw ((==_iff q p).1 (ap (λ (z : Element V). z.0) (some_inj h))) (omega arith)
  occurs-back ((q, x) ∷ y ∷ es) p e h = omega (arith, occurs-back (y ∷ es) p e h)

  entry_at-back :
      (es : List (Element V)) (p : ℕ) (e : Entry V)
      → ((r : ℕ) → occurs r es ≤ 1)
      → back es ≡ some (p, e)
      → entry_at p es ≡ some e
  unfolding back occurs entry_at
  entry_at-back [] p e d h = absurd (none≢some h)
  entry_at-back ((q, x) ∷ []) p e d h =
      rw ((==_iff q p).1 (ap (λ (z : Element V). z.0) (some_inj h)))
        (ap (λ (z : Element V). some z.1) (some_inj h))
  entry_at-back ((q, x) ∷ y ∷ es) p e d h =
      let rest = entry_at-back (y ∷ es) p e (λ r. omega (arith, d r)) h in
      elim (Bool-cases (q == p)) [
        | inl hit ↦ absurd (once (rw (hit, occurs) at (d p)) (occurs-back (y ∷ es) p e h))
        | inr miss ↦ rw miss rest
      ]
    where
      once : 1 + occurs p (y ∷ es) ≤ 1 → 0 < occurs p (y ∷ es) → ⊥
      once a b = omega arith

module _ {ℓ} {V : Type ℓ} (size_fn : V → ℕ) where
  -- The total size of the values of a list.
  unfoldable pub total : List (Element V) → ℕ
  total [] = 0
  total ((q, e) ∷ es) = size_fn e.value + total es

  -- Addresses are distinct and below `next`, and the size is accounted for.
  pub record IsSized (c : Lru V) : Type ℓ where
    pub distinct : (r : ℕ) → occurs r c.evict_list ≤ 1
    pub fresh : (r : ℕ) → c.next ≤ r → occurs r c.evict_list ≡ 0
    pub accounted : c.current_size ≡ total c.evict_list

  pub total-remove_at :
      (p : ℕ) (es : List (Element V)) (e : Entry V)
      → entry_at p es ≡ some e
      → total (remove_at p es) + size_fn e.value ≡ total es
  unfolding total remove_at entry_at
  total-remove_at p [] e h = absurd (none≢some h)
  total-remove_at p ((q, x) ∷ es) e h = elim (Bool-cases (q == p)) [
    | inl y ↦
        let same : x ≡ e = some_inj (rw y at h) in
        rw y (omega (arith, ap (λ (z : Entry V). size_fn z.value) same))
    | inr n ↦ rw n (omega (arith, total-remove_at p es e (rw n at h)))
  ]

  pub total-append : (es fs : List (Element V)) → total (es ++ fs) ≡ total es + total fs
  unfolding total
  total-append [] fs = omega arith
  total-append ((q, e) ∷ es) fs = omega (arith, total-append es fs)

  pub total-move_to_front : (p : ℕ) (es : List (Element V)) → total (move_to_front p es) ≡ total es
  unfolding total move_to_front
  total-move_to_front p es = elim (Option-cases (entry_at p es)) [
    | inl n ↦ rw (n, move_to_front)
    | inr (e, h) ↦ rw (h, move_to_front) (omega (arith, total-remove_at p es e h))
  ]

  pub total-write_value :
      (p : ℕ) (v : V) (es : List (Element V)) (e : Entry V)
      → entry_at p es ≡ some e
      → total (write_value p v es) + size_fn e.value ≡ total es + size_fn v
  unfolding total write_value entry_at
  total-write_value p v [] e h = absurd (none≢some h)
  total-write_value p v ((q, x) ∷ es) e h = elim (Bool-cases (q == p)) [
    | inl y ↦
        let same : x ≡ e = some_inj (rw y at h) in
        rw y (omega (arith, ap (λ (z : Entry V). size_fn z.value) same))
    | inr n ↦ rw n (omega (arith, total-write_value p v es e (rw n at h)))
  ]

  pub on_evict-fields :
      (c : Lru V) (v : V) (r : EvictionReason)
      → ((on_evict v r c).evict_list ≡ c.evict_list)
        × ((on_evict v r c).current_size ≡ c.current_size)
        × ((on_evict v r c).max_size ≡ c.max_size)
        × ((on_evict v r c).next ≡ c.next)
        × ((on_evict v r c).update_in_place ≡ c.update_in_place)
  unfolding on_evict
  on_evict-fields c v r = elim (Bool-cases c.has_on_evict) [
    | inl y ↦ rw y (refl, refl, refl, refl, refl)
    | inr n ↦ rw n (refl, refl, refl, refl, refl)
  ]

  -- The parts that count, of a cache after the removal of an element.
  pub remove_element-fields :
      (c : Lru V) (p : ℕ) (e : Entry V) (r : EvictionReason)
      → let c' = remove_element size_fn (p, e) r c in
        (c'.evict_list ≡ remove_at p c.evict_list)
        × (c'.current_size ≡ sub64 c.current_size (size_fn e.value))
        × (c'.max_size ≡ c.max_size)
        × (c'.next ≡ c.next)
        × (c'.update_in_place ≡ c.update_in_place)
  unfolding remove_element
  remove_element-fields c p e r = on_evict-fields _ e.value r

  -- Removing an element that is in the cache keeps the account.
  pub remove_element-IsSized :
      (c : Lru V) (p : ℕ) (e : Entry V) (r : EvictionReason)
      → IsSized c
      → entry_at p c.evict_list ≡ some e
      → total c.evict_list < 2 ^ 63
      → IsSized (remove_element size_fn (p, e) r c)
  remove_element-IsSized c p e r s h b =
      let f = remove_element-fields c p e r in
      let less = total-remove_at p c.evict_list e h in
      record {
        distinct = λ a. rw f.0 (omega (arith, s.distinct a, occurs-remove_at p a c.evict_list));
        fresh = λ a le.
            rw f.0
              (omega (arith, s.fresh a (fresh_below (f.3) le), occurs-remove_at p a c.evict_list));
        accounted =
            rw (f.0, f.1, s.accounted)
              (sub64_small (total c.evict_list) (size_fn e.value) (omega arith) b ∙ omega arith);
      }
    where
      fresh_below : {m n a : ℕ} → m ≡ n → m ≤ a → n ≤ a
      fresh_below x y = omega arith

  back-cons : (x : Element V) (es : List (Element V)) → (y : Element V) × (back (x ∷ es) ≡ some y)
  unfolding back
  back-cons x [] = (x, refl)
  back-cons x (y ∷ es) = back-cons y es

  back-total : (es : List (Element V)) → 0 < total es → (y : Element V) × (back es ≡ some y)
  unfolding total
  back-total [] h = absurd (omega arith)
  back-total (x ∷ es) h = back-cons x es

  -- What a cache looks like between operations: sized, and within its maximum.
  pub record Fits (c : Lru V) : Type ℓ where
    pub sized : IsSized c
    pub within : c.current_size ≤ c.max_size

  -- Dropping the last element of a cache over its maximum.
  pub remove_oldest-IsSized :
      (c : Lru V)
      → IsSized c
      → total c.evict_list < 2 ^ 63
      → 0 < total c.evict_list
      → let c' = remove_oldest size_fn c in
        IsSized c'
        × (total c'.evict_list ≤ total c.evict_list)
        × (length c'.evict_list + 1 ≡ length c.evict_list)
        × (c'.max_size ≡ c.max_size)
  unfolding remove_oldest
  remove_oldest-IsSized c s b more =
      let ((a, e), last) = back-total c.evict_list more in
      let found = entry_at-back c.evict_list a e s.distinct last in
      let f = remove_element-fields c a e EvictionReason.size in
      rw (last, remove_oldest)
        (
          remove_element-IsSized c a e EvictionReason.size s found b,
          rw f.0 (omega (arith, total-remove_at a c.evict_list e found)),
          rw f.0 (length-remove_at a c.evict_list e found),
          f.2,
        )

  pub trim-Fits :
      (fuel : ℕ) (c : Lru V)
      → IsSized c
      → total c.evict_list < 2 ^ 63
      → c.max_size < 2 ^ 63
      → length c.evict_list < fuel
      → Fits (trim size_fn fuel c) × ((trim size_fn fuel c).max_size ≡ c.max_size)
  unfolding trim
  trim-Fits zero c s b m h = absurd (omega arith)
  trim-Fits (suc fuel) c s b m h =
      let over = lt64_small c.max_size c.current_size m (omega (arith, s.accounted)) in
      elim (Bool-cases (ltb c.max_size c.current_size)) [
        | inr p ↦
            rw (over, p) (record { sized = s; within = ltb→le c.max_size c.current_size p }, refl)
        | inl p ↦
            let more = ltb→lt c.max_size c.current_size p in
            let (s', t, l, k) = remove_oldest-IsSized c s b (omega (arith, s.accounted)) in
            let (f, g) =
              trim-Fits fuel (remove_oldest size_fn c) s' (omega arith) (omega arith)
                (omega arith) in
            rw (over, p) (f, g ∙ k)
      ]
