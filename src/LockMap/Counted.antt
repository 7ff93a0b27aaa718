-- ===== src/LockMap/Counted.antt =====
-- The invariant of a lock map, and the steps of a call that has its mutex.
use ch_vmm.Prelude.{
  ℕ, ◌+◌, ◌-◌, ◌≤◌, ◌<◌, ◌≡◌, refl, ap, inl, inr, some, if◌then◌else◌, ◌==◌, ==_iff, set, get_elem?,
  arith, Bool-cases,
}
use ch_vmm.LockMap.{
  Phase, waiting, reading, writing, unlocked, over, Call, LockMap, put, advance, holds, writes,
  refers, sum,
}
use ch_vmm.LockMap.Sums.{sum-set, get_elem?-set, writes-le-holds}

-- The counts are those of the calls, each call under way has the mutex that the map has for its
-- key, addresses in use are below `next`, and a writer of a mutex is its only holder.
pub record IsCounted (p : LockMap) : Type 0 where
  pub counted : (m : ℕ) → p.count m ≡ sum (refers m) p.calls
  pub current :
      (i : ℕ) (c : Call)
      → get_elem? p.calls i ≡ some c
      → 0 < refers c.mutex c
      → p.mutexes c.key ≡ some c.mutex
  pub below : (k m : ℕ) → p.mutexes k ≡ some m → m < p.next
  pub fresh : (m : ℕ) → p.next ≤ m → sum (refers m) p.calls ≡ 0
  pub alone : (m : ℕ) → 0 < sum (writes m) p.calls → sum (holds m) p.calls ≡ 1

-- A call under way goes on to a phase; what is left to show is about the counts.
advance_current :
    (p : LockMap) (i : ℕ) (c : Call) (phase : Phase)
    → IsCounted p
    → get_elem? p.calls i ≡ some c
    → 0 < refers c.mutex c
    → (j : ℕ) (d : Call) → get_elem? (set p.calls i (record c { phase = phase })) j ≡ some d
    → 0 < refers d.mutex d
    → p.mutexes d.key ≡ some d.mutex
advance_current p i c phase w h used j d g u =
    elim (get_elem?-set p.calls i j (record c { phase = phase }) d g) [
      | inl e ↦
          rw (← ap (λ (x : Call). x.key) e, ← ap (λ (x : Call). x.mutex) e) (w.current i c h used)
      | inr old ↦ w.current j d old u
    ]

-- A step that keeps the references.
advance-IsCounted :
    (p : LockMap) (i : ℕ) (c : Call) (phase : Phase)
    → IsCounted p
    → get_elem? p.calls i ≡ some c
    → 0 < refers c.mutex c
    → ((m : ℕ) → refers m (record c { phase = phase }) ≡ refers m c)
    → ((m : ℕ)
        → 0 < sum (writes m) (set p.calls i (record c { phase = phase }))
        → sum (holds m) (set p.calls i (record c { phase = phase })) ≡ 1)
    → IsCounted (advance p i c phase)
advance-IsCounted p i c phase w h used same alone =
    let c' : Call = record c { phase = phase } in
    record {
      counted = λ m. omega (arith, w.counted m, sum-set (refers m) p.calls i c c' h, same m);
      current = advance_current p i c phase w h used;
      below = w.below;
      fresh = λ m le. omega (arith, w.fresh m le, sum-set (refers m) p.calls i c c' h, same m);
      alone = alone;
    }

pub lock-IsCounted :
    (p : LockMap) (i : ℕ) (c : Call)
    → IsCounted p
    → get_elem? p.calls i ≡ some c
    → c.phase ≡ waiting
    → sum (holds c.mutex) p.calls ≡ 0
    → IsCounted (advance p i c writing)
lock-IsCounted p i c w h e free =
    advance-IsCounted p i c writing w h (rw e (ground arith)) (λ m. rw e refl)
      (λ m pos.
        let c' : Call = record c { phase = writing } in
        let eh = rw e at (sum-set (holds m) p.calls i c c' h) in
        let ew = rw e at (sum-set (writes m) p.calls i c c' h) in alone_after m pos eh ew)
  where
    alone_after :
        (m : ℕ)
        → 0 < sum (writes m) (set p.calls i (record c { phase = writing }))
        → sum (holds m) (set p.calls i (record c { phase = writing })) + 0
          ≡ sum (holds m) p.calls + (if c.mutex == m then 1 else 0)
        → sum (writes m) (set p.calls i (record c { phase = writing })) + 0
          ≡ sum (writes m) p.calls + (if c.mutex == m then 1 else 0)
        → sum (holds m) (set p.calls i (record c { phase = writing })) ≡ 1
    alone_after m pos eh ew = elim (Bool-cases (c.mutex == m)) [
      | inl y ↦
          let same : c.mutex ≡ m = (==_iff c.mutex m).0 y in
          omega (arith, rw y at eh, rw same at free)
      | inr n ↦ omega (arith, rw n at eh, rw n at ew, w.alone m (omega (arith, rw n at ew)))
    ]

pub read_lock-IsCounted :
    (p : LockMap) (i : ℕ) (c : Call)
    → IsCounted p
    → get_elem? p.calls i ≡ some c
    → c.phase ≡ waiting
    → sum (writes c.mutex) p.calls ≡ 0
    → IsCounted (advance p i c reading)
read_lock-IsCounted p i c w h e free =
    advance-IsCounted p i c reading w h (rw e (ground arith)) (λ m. rw e refl)
      (λ m pos.
        let c' : Call = record c { phase = reading } in
        let eh = rw e at (sum-set (holds m) p.calls i c c' h) in
        let ew = rw e at (sum-set (writes m) p.calls i c c' h) in
        elim (Bool-cases (c.mutex == m)) [
          | inl y ↦
              let same : c.mutex ≡ m = (==_iff c.mutex m).0 y in
              absurd (not_free m pos (rw same at free) ew)
          | inr n ↦ omega (arith, rw n at eh, w.alone m (omega (arith, ew)))
        ])
  where
    not_free :
        (m : ℕ)
        → 0 < sum (writes m) (set p.calls i (record c { phase = reading }))
        → sum (writes m) p.calls ≡ 0
        → sum (writes m) (set p.calls i (record c { phase = reading })) + 0
          ≡ sum (writes m) p.calls + 0
        → ⊥
    not_free m pos free ew = omega arith

pub unlock-IsCounted :
    (p : LockMap) (i : ℕ) (c : Call)
    → IsCounted p
    → get_elem? p.calls i ≡ some c
    → c.phase ≡ writing
    → IsCounted (advance p i c unlocked)
unlock-IsCounted p i c w h e =
    advance-IsCounted p i c unlocked w h (rw e (ground arith)) (λ m. rw e refl)
      (λ m pos.
        let c' : Call = record c { phase = unlocked } in
        let eh = rw e at (sum-set (holds m) p.calls i c c' h) in
        let ew = rw e at (sum-set (writes m) p.calls i c c' h) in
        let le = writes-le-holds m (set p.calls i c') in
        elim (Bool-cases (c.mutex == m)) [
          | inl y ↦ omega (arith, le, rw y at eh, rw y at ew, w.alone m (omega (arith, rw y at ew)))
          | inr n ↦ omega (arith, le, rw n at eh, rw n at ew, w.alone m (omega (arith, rw n at ew)))
        ])

pub read_unlock-IsCounted :
    (p : LockMap) (i : ℕ) (c : Call)
    → IsCounted p
    → get_elem? p.calls i ≡ some c
    → c.phase ≡ reading
    → IsCounted (advance p i c unlocked)
read_unlock-IsCounted p i c w h e =
    advance-IsCounted p i c unlocked w h (rw e (ground arith)) (λ m. rw e refl)
      (λ m pos.
        let c' : Call = record c { phase = unlocked } in
        let eh = rw e at (sum-set (holds m) p.calls i c c' h) in
        let ew = rw e at (sum-set (writes m) p.calls i c c' h) in
        let le = writes-le-holds m (set p.calls i c') in
        elim (Bool-cases (c.mutex == m)) [
          | inl y ↦ omega (arith, le, rw y at eh, ew, w.alone m (omega (arith, ew)))
          | inr n ↦ omega (arith, le, rw n at eh, ew, w.alone m (omega (arith, ew)))
        ])

pub leave-IsCounted :
    (p : LockMap) (i : ℕ) (c : Call)
    → IsCounted p
    → get_elem? p.calls i ≡ some c
    → c.phase ≡ unlocked
    → IsCounted (record (advance p i c over) { count = put p.count c.mutex (p.count c.mutex - 1) })
leave-IsCounted p i c w h e =
    let c' : Call = record c { phase = over } in
    record {
      counted = λ m.
          let er = rw e at (sum-set (refers m) p.calls i c c' h) in
          elim (Bool-cases (c.mutex == m)) [
            | inl y ↦
                let same : c.mutex ≡ m = (==_iff c.mutex m).0 y in
                ground (arith, rw y at er, w.counted m, w.counted c.mutex, ap p.count same)
            | inr n ↦ ground (arith, rw n at er, w.counted m)
          ];
      current = advance_current p i c over w h (rw e (ground arith));
      below = w.below;
      fresh = λ m le. omega (arith, rw e at (sum-set (refers m) p.calls i c c' h), w.fresh m le);
      alone = λ m pos.
          let eh = rw e at (sum-set (holds m) p.calls i c c' h) in
          let ew = rw e at (sum-set (writes m) p.calls i c c' h) in
          omega (arith, eh, ew, w.alone m (omega (arith, ew)));
    }
