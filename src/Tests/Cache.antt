-- ===== src/Tests/Cache.antt =====
-- The cache on concrete input: its values are their own sizes.
use ch_vmm.Prelude.{ℕ, ◌≡◌, refl, true, false, [], ◌∷◌, arith}
use ch_vmm.Lru.{Lru, add, purge}
use ch_vmm.Lru.Size.{Fits, occurs, total}
use ch_vmm.Lru.Size.Bound.{add-Fits}
use ch_vmm.Lru.Size.Purge.{add-purge}

abbrev size_fn : ℕ → ℕ
size_fn v = v

-- Two values, of the sizes 4 and 5, and a maximum of 10.
abbrev two : Lru ℕ
two = record {
  evict_list =
      (1, record { key = 8; conflict_key = 2; value = 5 })
      ∷ (0, record { key = 7; conflict_key = 1; value = 4 })
      ∷ [];
  items = (7, 0 ∷ []) ∷ (8, 1 ∷ []) ∷ [];
  has_on_evict = true;
  calls = [];
  max_size = 10;
  current_size = 9;
  update_in_place = false;
  next = 2;
}

two-Fits : Fits size_fn two
unfolding occurs total
two-Fits = record {
  sized = record { distinct = λ r. ground arith; fresh = λ r h. ground arith; accounted = refl };
  within = omega arith;
}

-- The third value drives the first one out.
add-Fits_example :
    Fits size_fn (add size_fn 9 3 6 two).0 × ((add size_fn 9 3 6 two).0.max_size ≡ 10)
add-Fits_example = add-Fits size_fn two 9 3 6 two-Fits (omega arith) (omega arith)

add-purge_example : (add size_fn 9 3 6 (purge two)).0.evict_list ≡ []
add-purge_example = add-purge size_fn two 9 3 6 two-Fits (omega arith) (omega arith) (omega arith)
