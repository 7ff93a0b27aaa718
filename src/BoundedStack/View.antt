-- ===== src/BoundedStack/View.antt =====
-- The stack as the list of its items, newest first.
use ch_vmm.Prelude.{
  ℕ, zero, suc, ◌+◌, ◌-◌, ◌%◌, ◌^◌, ◌≤◌, ◌<◌, min, ◌≡◌, refl, sym, ap, ◌∙◌, ◌≢◌, ◌⊎◌, inl, inr,
  true, false, List, [], ◌∷◌, none, some, arith, length, get_or, set, take, ltb, ◌==◌,
  if◌then◌else◌, length-set, get_or-set_self, get_or-set_ne, length-replicate, ℕ_discrete,
  Bool-cases, ==_iff, replicate,
}
use native.Mathlib.Nat.{mod-eq_of_lt, mod-eq-sub-mod, mod-lt}
use ch_vmm.Prelude.Int64.{lt64}
use ch_vmm.BoundedStack.{BoundedStack, new, pop, push}

pub record IsValid {ℓ} {A : Type ℓ} (s : BoundedStack A) : Type ℓ where
  pub positive : 0 < length s.buffer
  pub top_within : s.top < length s.buffer
  pub size_within : s.size ≤ length s.buffer
  pub notify_within : s.notify ≤ length s.buffer

wrap_mod : (a l : ℕ) → l ≤ a → a < l + l → a % l ≡ a - l
wrap_mod a l h k = mod-eq-sub-mod h ∙ mod-eq_of_lt (omega arith)

-- The indices below and above `t` in a ring of `l` cells.
abbrev below : ℕ → ℕ → ℕ
below t l = if t == 0 then l - 1 else t - 1

abbrev above : ℕ → ℕ → ℕ
above t l = if t + 1 == l then 0 else t + 1

-- How many steps down lead from `t` to `p`.
abbrev dist : ℕ → ℕ → ℕ → ℕ
dist t p l = if ltb t p then t + l - p else t - p

pred_mod : (t l : ℕ) → t < l → (t + l - 1) % l ≡ below t l
pred_mod t l h = elim (ℕ_discrete t 0) [
  | yes p ↦ mod-eq_of_lt {n = t + l - 1} (omega arith) ∙ ground arith
  | no p ↦ wrap_mod (t + l - 1) l (omega arith) (omega arith) ∙ ground arith
]

suc_mod : (t l : ℕ) → t < l → (t + 1) % l ≡ above t l
suc_mod t l h = elim (ℕ_discrete (t + 1) l) [
  | yes p ↦ wrap_mod (t + 1) l (omega arith) (omega arith) ∙ ground arith
  | no p ↦ mod-eq_of_lt {n = t + 1} (omega arith) ∙ ground arith
]

below-lt : (t l : ℕ) → t < l → below t l < l
below-lt t l h = ground arith

above-lt : (t l : ℕ) → t < l → above t l < l
above-lt t l h = ground arith

below-above : (t l : ℕ) → t < l → below (above t l) l ≡ t
below-above t l h = ground arith

dist-above : (t l : ℕ) → t < l → l - 1 ≤ dist t (above t l) l
dist-above t l h = ground arith

dist-below : (t l n : ℕ) → t < l → n < l → n ≤ dist (below t l) t l
dist-below t l n h k = ground arith

dist_step :
    (t p l n : ℕ) → t < l → p < l → suc n ≤ dist t p l → (p ≢ t) × (n ≤ dist (below t l) p l)
dist_step t p l n ht hp h = ground arith

module _ {ℓ} {A : Type ℓ} (nil : A) where
  -- `n` items downwards from index `t` of a ring of `l` cells.
  unfoldable pub read : List A → ℕ → ℕ → ℕ → List A
  read buffer l t zero = []
  read buffer l t (suc n) = get_or buffer t nil ∷ read buffer l (below t l) n

  unfoldable pub view : BoundedStack A → List A
  unfolding read
  view s = read s.buffer (length s.buffer) s.top s.size

  read-set :
      (buffer : List A) (l t p n : ℕ) (v : A)
      → t < l
      → p < l
      → n ≤ dist t p l
      → read (set buffer p v) l t n ≡ read buffer l t n
  unfolding read
  read-set buffer l t p zero v ht hp h = refl
  read-set buffer l t p (suc n) v ht hp h =
      let (ne, le) = dist_step t p l n ht hp h in
      rw (get_or-set_ne buffer p t v nil ne) (
        ap (◌∷◌ (get_or buffer t nil))
          (read-set buffer l (below t l) p n v (below-lt t l ht) hp le))

  take-read :
      (buffer : List A) (l t n m : ℕ) → take n (read buffer l t m) ≡ read buffer l t (min n m)
  unfolding read
  take-read buffer l t zero m = rw (ap (read buffer l t) {x = min 0 m} {y = 0} (omega arith))
  take-read buffer l t (suc n) zero =
      rw (ap (read buffer l t) {x = min (suc n) 0} {y = 0} (omega arith))
  take-read buffer l t (suc n) (suc m) =
      rw (ap (read buffer l t) {x = min (suc n) (suc m)} {y = suc (min n m)} (omega arith))
        (ap (◌∷◌ (get_or buffer t nil)) (take-read buffer l (below t l) n m))

  length-read : (buffer : List A) (l t n : ℕ) → length (read buffer l t n) ≡ n
  unfolding read
  length-read buffer l t zero = refl
  length-read buffer l t (suc n) = ap suc (length-read buffer l (below t l) n)

  pub length-view : (s : BoundedStack A) → length (view s) ≡ s.size
  unfolding view
  length-view s = length-read s.buffer (length s.buffer) s.top s.size

  pub view-notify : (s : BoundedStack A) (n : ℕ) → view (record s { notify = n }) ≡ view s
  unfolding view
  view-notify s n = refl

  read-above :
      (buffer : List A) (t n k : ℕ) (x : A)
      → length buffer ≡ suc k
      → t < suc k
      → read (set buffer (above t (suc k)) x) (suc k) (above t (suc k)) (min (n + 1) (suc k))
        ≡ take (suc k) (x ∷ read buffer (suc k) t n)
  unfolding read
  read-above buffer t n k x e h =
      let l : ℕ = suc k in
      let t' : ℕ = above t l in
      let low = above-lt t l h in
      rw (ap (read (set buffer t' x) l t') {x = min (n + 1) l} {y = suc (min k n)} (omega arith)) (
        rw (get_or-set_self buffer t' x nil (rw e low), below-above t l h)
          (ap (◌∷◌ x) (
            read-set buffer l t t' (min k n) x h low (omega (arith, dist-above t l h))
            ∙ sym (take-read buffer l t k n))))

  read-below :
      (buffer : List A) (l t n : ℕ)
      → t < l
      → n < l
      → read (set buffer t nil) l (below t l) n ≡ read buffer l (below t l) n
  read-below buffer l t n h k =
      read-set buffer l (below t l) t n nil (below-lt t l h) h (dist-below t l n h k)

  -- What `new` gives for an `int` by its bit pattern: an error for a capacity that is zero or
  -- negative, and else a valid empty stack of that capacity.
  pub new_total :
      (capacity : ℕ)
      → capacity < 2 ^ 64
      → (((capacity ≡ 0) ⊎ (2 ^ 63 ≤ capacity)) × (new nil capacity ≡ none))
        ⊎ ((s : BoundedStack A) × (new nil capacity ≡ some s)
            × IsValid s
            × (view s ≡ [])
            × (length s.buffer ≡ capacity))
  unfolding new view read lt64
  new_total capacity h = elim (Bool-cases (lt64 0 capacity)) [
    | inr p ↦ inl (ground arith, rw p)
    | inl p ↦
        let e = length-replicate capacity nil in
        inr (
          record { notify = 0; buffer = replicate capacity nil; top = 0; size = 0 },
          rw p,
          record {
            positive = ground (arith, e);
            top_within = ground (arith, e);
            size_within = omega arith;
            notify_within = omega arith;
          },
          refl,
          e,
        )
  ]

  -- On a valid stack `push` puts the item on top, and keeps the newest items that fit.
  pub view-push :
      (s : BoundedStack A) (item : A)
      → IsValid s
      → view (push s item) ≡ take (length s.buffer) (item ∷ view s)
  unfolding push view
  view-push s item v =
      let l = length s.buffer in
      let e : l ≡ suc (l - 1) = omega arith in
      rw (length-set s.buffer ((s.top + 1) % l) item, suc_mod s.top l v.top_within, e)
        (read-above s.buffer s.top s.size (l - 1) item e (omega arith))

  -- A push keeps a stack valid.
  pub push-IsValid : (s : BoundedStack A) (item : A) → IsValid s → IsValid (push s item)
  unfolding push
  push-IsValid s item v =
      let l = length s.buffer in
      let e = length-set s.buffer ((s.top + 1) % l) item in
      record {
        positive = omega (arith, e);
        top_within = omega (arith, e, mod-lt (s.top + 1) v.positive);
        size_within = omega (arith, e);
        notify_within = omega (arith, e);
      }

  -- On a valid stack `pop` fails exactly on the empty one, and otherwise splits off the newest item.
  pub view-pop :
      (s : BoundedStack A)
      → IsValid s
      → ((view s ≡ []) × (pop nil s ≡ (s, nil, false)))
        ⊎ ((x : A) × (s' : BoundedStack A) × (pop nil s ≡ (s', x, true)) × (view s ≡ x ∷ view s'))
  unfolding pop view
  view-pop s v = elim (Bool-cases (s.size == 0)) [
    | inl p ↦ inl (ap (read s.buffer (length s.buffer) s.top) ((==_iff s.size 0).0 p), rw p)
    | inr p ↦
        let l = length s.buffer in
        let e : s.size ≡ suc (s.size - 1) = ground arith in
        inr (
          get_or s.buffer s.top nil,
          record s {
            buffer = set s.buffer s.top nil;
            top = (s.top + l - 1) % l;
            size = s.size - 1;
          },
          rw p,
          ap (read s.buffer l s.top) e
              ∙ ap (◌∷◌ (get_or s.buffer s.top nil)) (
                  rw (length-set s.buffer s.top nil, pred_mod s.top l v.top_within)
                    (sym (read-below s.buffer l s.top (s.size - 1) v.top_within (omega arith)))),
        )
  ]

  -- A pop keeps a stack valid.
  pub pop-IsValid : (s : BoundedStack A) → IsValid s → IsValid (pop nil s).0
  unfolding pop
  pop-IsValid s v = elim (Bool-cases (s.size == 0)) [
    | inl p ↦ rw p v
    | inr p ↦
        let l = length s.buffer in
        let e = length-set s.buffer s.top nil in
        rw p (record {
          positive = omega (arith, e);
          top_within = omega (arith, e, mod-lt (s.top + l - 1) v.positive);
          size_within = omega (arith, e);
          notify_within = omega (arith, e);
        })
  ]
