-- ===== src/LockMap/Exclusive.antt =====
-- Calls with one key exclude each other, whatever the collector has deleted.
use ch_vmm.Prelude.{
  ℕ, zero, suc, ◌+◌, ◌<◌, ◌≡◌, refl, sym, ap, ◌∙◌, ◌≢◌, inl, inr, Bool, ◌∷◌, none, some, ◌==◌,
  ==_iff, ==-eq-false, get_elem?, arith, Bool-cases, Option-cases, none≢some, some_inj,
}
use ch_vmm.LockMap.{
  waiting, reading, writing, Call, LockMap, put, new_locks, enter, collect, holds, writes, refers,
  sum, Step, start, lock, read_lock, unlock, read_unlock, leave, gc, Reach, here, next,
}
use ch_vmm.LockMap.Sums.{sum-get_elem?, sum_two}
use ch_vmm.LockMap.Counted.{
  IsCounted, lock-IsCounted, read_lock-IsCounted, unlock-IsCounted, read_unlock-IsCounted,
  leave-IsCounted,
}

-- The mutex of a call under way has a reference.
referred :
    (p : LockMap) (i : ℕ) (c : Call)
    → IsCounted p
    → get_elem? p.calls i ≡ some c
    → 0 < refers c.mutex c
    → 0 < p.count c.mutex
referred p i c w h u =
    omega (arith, u, w.counted c.mutex, sum-get_elem? (refers c.mutex) p.calls i c h)

unused_key :
    (p : LockMap) (key m i : ℕ) (c : Call)
    → IsCounted p
    → p.mutexes key ≡ some m
    → p.count m ≡ 0
    → get_elem? p.calls i ≡ some c
    → 0 < refers c.mutex c
    → c.key ≢ key
unused_key p key m i c w e z h u same =
    let own : c.mutex ≡ m = some_inj (sym (w.current i c h u) ∙ ap p.mutexes same ∙ e) in
    absurd (none_left (referred p i c w h u) (ap p.count own ∙ z))
  where
    none_left : 0 < p.count c.mutex → p.count c.mutex ≡ 0 → ⊥
    none_left a b = omega arith

collect-IsCounted : (p : LockMap) (key : ℕ) → IsCounted p → IsCounted (collect p key)
unfolding collect
collect-IsCounted p key w = elim (Option-cases (p.mutexes key)) [
  | inl n ↦ rw (n, collect) w
  | inr (m, e) ↦ elim (Bool-cases (p.count m == 0)) [
    | inr n ↦ rw (e, collect) (rw n w)
    | inl z ↦ rw (e, collect) (rw z (removed m e ((==_iff (p.count m) 0).0 z)))
  ]
]
  where
    removed :
        (m : ℕ)
        → p.mutexes key ≡ some m
        → p.count m ≡ 0
        → IsCounted (record p { mutexes = put p.mutexes key none })
    removed m e z = record {
      counted = w.counted;
      current = λ i c h u.
          rw (==-eq-false c.key key (unused_key p key m i c w e z h u)) (w.current i c h u);
      below = λ k m' f. elim (Bool-cases (k == key)) [
        | inl y ↦ absurd (none≢some (rw y at f))
        | inr n ↦ w.below k m' (rw n at f)
      ];
      fresh = w.fresh;
      alone = w.alone;
    }

abbrev entered : ℕ → ℕ → Bool → Call
entered key m exclusive = record { key = key; mutex = m; exclusive = exclusive; phase = waiting }

enter_found :
    (p : LockMap) (key m : ℕ) (exclusive : Bool)
    → IsCounted p
    → p.mutexes key ≡ some m
    → IsCounted (record p {
      count = put p.count m (p.count m + 1);
      calls = entered key m exclusive ∷ p.calls;
    })
unfolding sum
enter_found p key m exclusive w e = record {
  counted = λ a. elim (Bool-cases (a == m)) [
    | inl y ↦
        let same : a ≡ m = (==_iff a m).0 y in
        ground (arith, w.counted a, w.counted m, ap p.count same)
    | inr n ↦ ground (arith, w.counted a)
  ];
  current = go;
  below = w.below;
  fresh = λ a le. ground (arith, w.fresh a le, w.below key m e);
  alone = λ a pos. omega (arith, w.alone a (omega arith));
}
  where
    go :
        (i : ℕ) (c : Call)
        → get_elem? (entered key m exclusive ∷ p.calls) i ≡ some c
        → 0 < refers c.mutex c
        → p.mutexes c.key ≡ some c.mutex
    go zero c h u = rw (← some_inj h) e
    go (suc i) c h u = w.current i c h u

enter_made :
    (p : LockMap) (key : ℕ) (exclusive : Bool)
    → IsCounted p
    → p.mutexes key ≡ none
    → IsCounted (record {
      mutexes = put p.mutexes key (some p.next);
      count = put p.count p.next 1;
      next = suc p.next;
      calls = entered key p.next exclusive ∷ p.calls;
    })
unfolding sum
enter_made p key exclusive w e = record {
  counted = λ a. elim (Bool-cases (a == p.next)) [
    | inl y ↦ ground (arith, w.fresh a)
    | inr n ↦ ground (arith, w.counted a)
  ];
  current = go;
  below = λ k m f. elim (Bool-cases (k == key)) [
    | inl y ↦ let same : p.next ≡ m = some_inj (rw y at f) in omega arith
    | inr n ↦ omega (arith, w.below k m (rw n at f))
  ];
  fresh = λ a le. ground (arith, w.fresh a);
  alone = λ a pos. omega (arith, w.alone a (omega arith));
}
  where
    go :
        (i : ℕ) (c : Call)
        → get_elem? (entered key p.next exclusive ∷ p.calls) i ≡ some c
        → 0 < refers c.mutex c
        → put p.mutexes key (some p.next) c.key ≡ some c.mutex
    go zero c h u = rw (← some_inj h) (rw ((==_iff key key).1 refl) refl)
    go (suc i) c h u = elim (Bool-cases (c.key == key)) [
      | inl y ↦
          absurd
            (none≢some (sym e ∙ sym (ap p.mutexes ((==_iff c.key key).0 y)) ∙ w.current i c h u))
      | inr n ↦ rw n (w.current i c h u)
    ]

enter-IsCounted :
    (p : LockMap) (key : ℕ) (exclusive : Bool) → IsCounted p → IsCounted (enter p key exclusive)
unfolding enter
enter-IsCounted p key exclusive w = elim (Option-cases (p.mutexes key)) [
  | inl n ↦ rw (n, enter) (enter_made p key exclusive w n)
  | inr (m, e) ↦ rw (e, enter) (enter_found p key m exclusive w e)
]

pub Step-IsCounted : {p q : LockMap} → Step p q → IsCounted p → IsCounted q
Step-IsCounted (start p key exclusive) w = enter-IsCounted p key exclusive w
Step-IsCounted (lock p i c h e x free) w = lock-IsCounted p i c w h e free
Step-IsCounted (read_lock p i c h e x free) w = read_lock-IsCounted p i c w h e free
Step-IsCounted (unlock p i c h x e) w = unlock-IsCounted p i c w h e
Step-IsCounted (read_unlock p i c h x e) w = read_unlock-IsCounted p i c w h e
Step-IsCounted (leave p i c h e) w = leave-IsCounted p i c w h e
Step-IsCounted (gc p key) w = collect-IsCounted p key w

new_locks-IsCounted : IsCounted new_locks
unfolding new_locks sum
new_locks-IsCounted = record {
  counted = λ m. refl;
  current = λ i c h u. absurd (none≢some h);
  below = λ k m f. absurd (none≢some f);
  fresh = λ m le. refl;
  alone = λ m pos. absurd (omega arith);
}

-- The invariant holds whatever calls and rounds of the collector have run, in any order: counts are
-- right, each call under way has the mutex that the map has for its key, and a writer is alone.
pub Reach-IsCounted : {p : LockMap} → Reach new_locks p → IsCounted p
Reach-IsCounted here = new_locks-IsCounted
Reach-IsCounted (next r st) = Step-IsCounted st (Reach-IsCounted r)

-- Two calls under way with one key have one mutex.
one_mutex :
    (p : LockMap) (i j : ℕ) (c d : Call)
    → IsCounted p
    → get_elem? p.calls i ≡ some c
    → get_elem? p.calls j ≡ some d
    → c.key ≡ d.key
    → 0 < refers c.mutex c
    → 0 < refers d.mutex d
    → c.mutex ≡ d.mutex
one_mutex p i j c d w h k same u v =
    some_inj (sym (w.current i c h u) ∙ ap p.mutexes same ∙ w.current j d k v)

only_holder :
    (p : LockMap) (i j : ℕ) (c d : Call)
    → IsCounted p
    → get_elem? p.calls i ≡ some c
    → get_elem? p.calls j ≡ some d
    → i ≢ j
    → 0 < writes c.mutex c
    → holds c.mutex d ≡ 0
only_holder p i j c d w h k ne u =
    let one = w.alone c.mutex (omega (arith, sum-get_elem? (writes c.mutex) p.calls i c h)) in
    omega (arith, one, sum_two (holds c.mutex) p.calls i j c d h k ne, held)
  where
    held : 0 < holds c.mutex c
    held = ground arith

-- Whatever calls and rounds of the collector have run, in any order: while a call of `Lock` holds
-- the mutex of its key, no other call with that key holds its mutex.
pub writing_alone :
    {p : LockMap} (i j : ℕ) (c d : Call)
    → Reach new_locks p
    → get_elem? p.calls i ≡ some c
    → get_elem? p.calls j ≡ some d
    → i ≢ j
    → c.key ≡ d.key
    → c.phase ≡ writing
    → (d.phase ≢ writing) × (d.phase ≢ reading)
writing_alone {p} i j c d r h k ne same e =
    let w = Reach-IsCounted r in
    let zero_held = only_holder p i j c d w h k ne (rw e (ground arith)) in
    (
      (λ x.
          let m = one_mutex p i j c d w h k same (rw e (ground arith)) (rw x (ground arith)) in
          not_held m zero_held (rw x (ground arith))),
      (λ x.
          let m = one_mutex p i j c d w h k same (rw e (ground arith)) (rw x (ground arith)) in
          not_held m zero_held (rw x (ground arith))),
    )
  where
    not_held : c.mutex ≡ d.mutex → holds c.mutex d ≡ 0 → 0 < holds d.mutex d → ⊥
    not_held m z u = omega (arith, rw m at z)
