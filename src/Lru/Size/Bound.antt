-- ===== src/Lru/Size/Bound.antt =====
-- `Add` and `Remove` keep the account of the sizes, and the maximum.
use ch_vmm.Prelude.{
  ℕ, suc, ◌+◌, ◌^◌, ◌≤◌, ◌<◌, ◌≡◌, refl, ◌∙◌, inl, inr, Bool, true, false, List, [], ◌∷◌, some,
  if◌then◌else◌, ◌==◌, length, arith, Option-cases, Bool-cases,
}
use ch_vmm.Prelude.Int64.{add64, sub64, add64_small}
use ch_vmm.Lru.{
  EvictionReason, Entry, Element, Lru, lookup_item, entry_at, move_to_front, write_value, add_item,
  remove_element, place, add, remove,
}
use ch_vmm.Lru.Size.{
  occurs, occurs-remove_at, occurs-entry_at, total, IsSized, Fits, total-remove_at,
  total-move_to_front, total-write_value, remove_element-fields, remove_element-IsSized, trim-Fits,
}

both_ways {ℓ ℓ'} :
    {A : Type ℓ} → (P : A → Type ℓ') (b : Bool) {x y : A} → P x → P y → P (if b then x else y)
both_ways P true p q = p
both_ways P false p q = q

module _ {ℓ} {V : Type ℓ} where
  occurs-write_value :
      (p r : ℕ) (v : V) (es : List (Element V)) → occurs r (write_value p v es) ≡ occurs r es
  unfolding occurs write_value
  occurs-write_value p r v [] = refl
  occurs-write_value p r v ((q, e) ∷ es) = elim (Bool-cases (q == p)) [
    | inl y ↦ rw (y, occurs) refl
    | inr n ↦ rw (n, occurs) (omega (arith, occurs-write_value p r v es))
  ]

  occurs-move_to_front :
      (p r : ℕ) (es : List (Element V)) → occurs r (move_to_front p es) ≤ occurs r es
  unfolding move_to_front occurs
  occurs-move_to_front p r es = elim (Option-cases (entry_at p es)) [
    | inl n ↦ rw (n, move_to_front) (omega arith)
    | inr (e, h) ↦
        rw (h, move_to_front, occurs)
          (ground (arith, occurs-remove_at p r es, occurs-entry_at p es e h))
  ]

  entry_at-move_to_front :
      (p : ℕ) (es : List (Element V)) (e : Entry V)
      → entry_at p es ≡ some e
      → entry_at p (move_to_front p es) ≡ some e
  unfolding move_to_front entry_at
  entry_at-move_to_front p es e h = rw (h, move_to_front, entry_at) (ground arith)

module _ {ℓ} {V : Type ℓ} (size_fn : V → ℕ) where
  add_item-IsSized :
      (c : Lru V) (pk ck : ℕ) (v : V)
      → IsSized size_fn c
      → total size_fn c.evict_list + size_fn v < 2 ^ 63
      → IsSized size_fn (add_item pk ck v (size_fn v) true c)
  unfolding add_item occurs total
  add_item-IsSized c pk ck v s h = record {
    distinct = λ r. ground (arith, s.distinct r, s.fresh r);
    fresh = λ r le. ground (arith, s.fresh r);
    accounted =
        add64_small c.current_size (size_fn v) (omega (arith, s.accounted))
        ∙ omega (arith, s.accounted);
  }

  in_place-IsSized :
      (c : Lru V) (p : ℕ) (v : V) (e : Entry V)
      → IsSized size_fn c
      → entry_at p c.evict_list ≡ some e
      → total size_fn c.evict_list + size_fn v < 2 ^ 63
      → IsSized size_fn (record c {
        current_size = add64 c.current_size (sub64 (size_fn v) (size_fn e.value));
        evict_list = write_value p v (move_to_front p c.evict_list);
      })
  unfolding add64 sub64
  in_place-IsSized c p v e s h b =
      let es = c.evict_list in
      let t =
        total-write_value size_fn p v (move_to_front p es) e (entry_at-move_to_front p es e h) in
      let u = total-move_to_front size_fn p es in
      let w = total-remove_at size_fn p es e h in
      record {
        distinct = λ r.
            rw (occurs-write_value p r v (move_to_front p es))
              (omega (arith, s.distinct r, occurs-move_to_front p r es));
        fresh = λ r le.
            rw (occurs-write_value p r v (move_to_front p es))
              (omega (arith, s.fresh r le, occurs-move_to_front p r es));
        accounted = omega (arith, s.accounted);
      }

  -- `c'` comes from `c` by storing a value of size at most `sz` in addition.
  pub record Grown (c : Lru V) (sz : ℕ) (c' : Lru V) : Type ℓ where
    pub sized : IsSized size_fn c'
    pub at_most : total size_fn c'.evict_list ≤ total size_fn c.evict_list + sz
    pub same_max : c'.max_size ≡ c.max_size

  add_item-Grown :
      (c : Lru V) (pk ck : ℕ) (v : V)
      → IsSized size_fn c
      → total size_fn c.evict_list + size_fn v < 2 ^ 63
      → Grown c (size_fn v) (add_item pk ck v (size_fn v) true c)
  unfolding total add_item
  add_item-Grown c pk ck v s h = record {
    sized = add_item-IsSized c pk ck v s h;
    at_most = omega arith;
    same_max = refl;
  }

  replace-Grown :
      (c : Lru V) (p pk ck : ℕ) (v : V) (e : Entry V)
      → IsSized size_fn c
      → entry_at p c.evict_list ≡ some e
      → total size_fn c.evict_list + size_fn v < 2 ^ 63
      → Grown c (size_fn v) (
          add_item pk ck v
            (size_fn v)
            true
            (remove_element size_fn (p, e) EvictionReason.conflict c))
  replace-Grown c p pk ck v e s h b =
      let f = remove_element-fields size_fn c p e EvictionReason.conflict in
      let less : total size_fn (remove_element size_fn (p, e) EvictionReason.conflict c).evict_list
          ≤ total size_fn c.evict_list =
        rw f.0 (omega (arith, total-remove_at size_fn p c.evict_list e h)) in
      let s' = remove_element-IsSized size_fn c p e EvictionReason.conflict s h (omega arith) in
      let g =
        add_item-Grown (remove_element size_fn (p, e) EvictionReason.conflict c) pk ck v s'
          (omega arith) in
      record { sized = g.sized; at_most = omega (arith, g.at_most); same_max = g.same_max ∙ f.2 }

  in_place-Grown :
      (c : Lru V) (p : ℕ) (v : V) (e : Entry V)
      → IsSized size_fn c
      → entry_at p c.evict_list ≡ some e
      → total size_fn c.evict_list + size_fn v < 2 ^ 63
      → Grown c (size_fn v) (record c {
        current_size = add64 c.current_size (sub64 (size_fn v) (size_fn e.value));
        evict_list = write_value p v (move_to_front p c.evict_list);
      })
  in_place-Grown c p v e s h b = record {
    sized = in_place-IsSized c p v e s h b;
    at_most = omega (
      arith,
      total-move_to_front size_fn p c.evict_list,
      total-write_value size_fn p v (move_to_front p c.evict_list) e
          (entry_at-move_to_front p c.evict_list e h),
    );
    same_max = refl;
  }

  place-Grown :
      (c : Lru V) (pk ck : ℕ) (v : V)
      → IsSized size_fn c
      → total size_fn c.evict_list + size_fn v < 2 ^ 63
      → Grown c (size_fn v) (place size_fn pk ck v c)
  unfolding place
  place-Grown c pk ck v s b = elim (Option-cases (lookup_item c pk ck)) [
    | inl n ↦ rw (n, place) (add_item-Grown c pk ck v s b)
    | inr (p, found) ↦ elim (Option-cases (entry_at p c.evict_list)) [
      | inl n ↦
          rw (found, place) (rw n (record { sized = s; at_most = omega arith; same_max = refl }))
      | inr (e, h) ↦
          rw (found, place)
            (rw h (
              both_ways (Grown c (size_fn v)) c.update_in_place (in_place-Grown c p v e s h b)
                (replace-Grown c p pk ck v e s h b)))
    ]
  ]

  -- `Add` on a cache that accounts for its sizes and is within its maximum leaves such a cache,
  -- with the same maximum, if the maximum and the size of the value are below 2 ^ 62.
  pub add-Fits :
      (c : Lru V) (pk ck : ℕ) (v : V)
      → Fits size_fn c
      → c.max_size < 2 ^ 62
      → size_fn v < 2 ^ 62
      → Fits size_fn (add size_fn pk ck v c).0 × ((add size_fn pk ck v c).0.max_size ≡ c.max_size)
  unfolding add
  add-Fits c pk ck v f m z =
      let fits : total size_fn c.evict_list < 2 ^ 62 = omega (arith, f.within, f.sized.accounted) in
      let g = place-Grown c pk ck v f.sized (omega arith) in
      let placed = place size_fn pk ck v c in
      let (r, k) =
        trim-Fits size_fn (suc (length placed.evict_list)) placed g.sized (omega (arith, g.at_most))
          (omega (arith, g.same_max)) (omega arith) in
      (r, k ∙ g.same_max)

  -- `Remove` on a cache that accounts for its sizes and is within its maximum, below 2 ^ 63, leaves
  -- such a cache.
  pub remove-Fits :
      (c : Lru V) (pk ck : ℕ)
      → Fits size_fn c
      → c.max_size < 2 ^ 63
      → Fits size_fn (remove size_fn pk ck c).0
  unfolding remove
  remove-Fits c pk ck f m = elim (Option-cases (lookup_item c pk ck)) [
    | inl n ↦ rw (n, remove) f
    | inr (p, found) ↦ elim (Option-cases (entry_at p c.evict_list)) [
      | inl n ↦ rw (found, remove) (rw n f)
      | inr (e, h) ↦
          let less = total-remove_at size_fn p c.evict_list e h in
          let g = remove_element-fields size_fn c p e EvictionReason.manual in
          let smaller : total size_fn
                (remove_element size_fn (p, e) EvictionReason.manual c).evict_list
              ≤ total size_fn c.evict_list =
            rw g.0 (omega arith) in
          let s =
            remove_element-IsSized size_fn c p e EvictionReason.manual f.sized h
              (omega (arith, f.within, f.sized.accounted)) in
          rw (found, remove)
            (rw h (record {
              sized = s;
              within = omega (arith, s.accounted, g.2, f.within, f.sized.accounted, smaller);
            }))
    ]
  ]
