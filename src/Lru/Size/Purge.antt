-- ===== src/Lru/Size/Purge.antt =====
-- `Purge` empties the cache and leaves the account of the sizes.
use ch_vmm.Prelude.{
  ℕ, suc, ◌+◌, ◌^◌, ◌≤◌, ◌<◌, ◌≡◌, refl, ap, ◌∙◌, inl, inr, List, [], ◌∷◌, none, arith,
  Option-cases, le→ltb, lt→ltb, ==_iff, true, false,
}
use ch_vmm.Prelude.Int64.{sub64, add64_small, sub64_small, lt64, lt64_small}
use ch_vmm.Lru.{
  EvictionReason, Entry, Element, Lru, entry_at, on_evict, purge_bucket, purge_items, purge, place,
  lookup_item, bucket, add_item, trim, add, remove_oldest, back, remove_at,
}
use ch_vmm.Lru.Size.{Fits, on_evict-fields, remove_element-fields}

module _ {ℓ} {V : Type ℓ} (size_fn : V → ℕ) where
  purge_bucket-fields :
      (es : List (Element V)) (ps : List ℕ) (c : Lru V)
      → ((purge_bucket es ps c).current_size ≡ c.current_size)
        × ((purge_bucket es ps c).max_size ≡ c.max_size)
  unfolding purge_bucket
  purge_bucket-fields es [] c = (refl, refl)
  purge_bucket-fields es (p ∷ ps) c = elim (Option-cases (entry_at p es)) [
    | inl n ↦ rw (n, purge_bucket) (purge_bucket-fields es ps c)
    | inr (e, h) ↦
        let f = on_evict-fields size_fn c e.value EvictionReason.size in
        let (a, b) = purge_bucket-fields es ps (on_evict e.value EvictionReason.size c) in
        rw (h, purge_bucket) (a ∙ f.1, b ∙ f.2)
  ]

  purge_items-fields :
      (es : List (Element V)) (m : List (ℕ × List ℕ)) (c : Lru V)
      → ((purge_items es m c).current_size ≡ c.current_size)
        × ((purge_items es m c).max_size ≡ c.max_size)
  unfolding purge_items
  purge_items-fields es [] c = (refl, refl)
  purge_items-fields es ((k, ps) ∷ m) c =
      let (a, b) = purge_bucket-fields es ps c in
      let (x, y) = purge_items-fields es m (purge_bucket es ps c) in (x ∙ a, y ∙ b)

  pub purge_lem :
      (c : Lru V)
      → ((purge c).evict_list ≡ [])
        × ((purge c).items ≡ [])
        × ((purge c).current_size ≡ c.current_size)
        × ((purge c).max_size ≡ c.max_size)
  unfolding purge
  purge_lem c = let (a, b) = purge_items-fields c.evict_list c.items c in (refl, refl, a, b)

  trim-over :
      (n : ℕ) (c : Lru V)
      → lt64 c.max_size c.current_size ≡ true
      → trim size_fn (suc n) c ≡ trim size_fn n (remove_oldest size_fn c)
  unfolding trim
  trim-over n c h = rw (h, trim) refl

  trim-under :
      (n : ℕ) (c : Lru V) → lt64 c.max_size c.current_size ≡ false → trim size_fn (suc n) c ≡ c
  unfolding trim
  trim-under n c h = rw (h, trim) refl

  remove_oldest_single :
      (c : Lru V) (a : ℕ) (e : Entry V)
      → c.evict_list ≡ (a, e) ∷ []
      → let c' = remove_oldest size_fn c in
        (c'.evict_list ≡ [])
        × (c'.current_size ≡ sub64 c.current_size (size_fn e.value))
        × (c'.max_size ≡ c.max_size)
  unfolding remove_oldest back remove_at
  remove_oldest_single c a e l =
      let f = remove_element-fields size_fn c a e EvictionReason.size in
      let gone : remove_at a c.evict_list ≡ [] =
        rw (l, remove_at) (rw ((==_iff a a).1 refl) refl) in
      rw (l, remove_oldest) (f.0 ∙ gone, f.1, f.2)

  -- One value in an otherwise empty cache whose account is over the maximum.
  trim_single :
      (c : Lru V) (a : ℕ) (e : Entry V) (m : ℕ)
      → c.evict_list ≡ (a, e) ∷ []
      → c.current_size ≡ m + size_fn e.value
      → m ≤ c.max_size
      → c.max_size < m + size_fn e.value
      → c.max_size < 2 ^ 62
      → m + size_fn e.value < 2 ^ 63
      → (trim size_fn 2 c).evict_list ≡ []
  trim_single c a e m l s low over b d =
      let f = remove_oldest_single c a e l in
      let rest : (remove_oldest size_fn c).current_size ≡ m =
        f.1
        ∙ sub64_small c.current_size (size_fn e.value) (omega arith) (omega arith)
        ∙ omega arith in
      let high : lt64 c.max_size c.current_size ≡ true =
        lt64_small c.max_size c.current_size (omega arith) (omega arith)
        ∙ lt→ltb c.max_size c.current_size (omega arith) in
      let c' = remove_oldest size_fn c in
      let ends : lt64 c'.max_size c'.current_size ≡ false =
        lt64_small c'.max_size c'.current_size (omega (arith, f.2)) (omega arith)
        ∙ le→ltb c'.max_size c'.current_size (omega (arith, f.2)) in
      rw (trim-over 1 c high) (rw (trim-under 0 c' ends) f.0)

  place-purge :
      (c : Lru V) (pk ck : ℕ) (v : V)
      → place size_fn pk ck v (purge c) ≡ add_item pk ck v (size_fn v) true (purge c)
  unfolding place lookup_item
  place-purge c pk ck v =
      let absent : lookup_item (purge c) pk ck ≡ none =
        rw ((purge_lem c).1, lookup_item, bucket) refl in
      rw (absent, place) refl

  -- If a value would not have fitted beside what a cache within its maximum held, then its addition
  -- right after a purge evicts it again: the cache is empty afterwards. Sizes are below 2 ^ 62.
  pub add-purge :
      (c : Lru V) (pk ck : ℕ) (v : V)
      → Fits size_fn c
      → c.max_size < 2 ^ 62
      → size_fn v < 2 ^ 62
      → c.max_size < c.current_size + size_fn v
      → (add size_fn pk ck v (purge c)).0.evict_list ≡ []
  unfolding add add_item purge remove_oldest
  add-purge c pk ck v f m z over =
      let (l, i, s, x) = purge_lem c in
      let placed = add_item pk ck v (size_fn v) true (purge c) in
      let e : Entry V = record { key = pk; conflict_key = ck; value = v } in
      let list : placed.evict_list ≡ ((purge c).next, e) ∷ [] = ap (◌∷◌ ((purge c).next, e)) l in
      let size : placed.current_size ≡ c.current_size + size_fn v =
        add64_small (purge c).current_size (size_fn v) (omega (arith, s, f.within))
        ∙ omega (arith, s) in
      rw (add, place-purge c pk ck v)
        (rw list (
          trim_single placed (purge c).next e c.current_size list size (omega (arith, x, f.within))
            (omega (arith, x)) (omega (arith, x)) (omega (arith, f.within))))
