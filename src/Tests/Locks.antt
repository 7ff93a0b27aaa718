-- ===== src/Tests/Locks.antt =====
-- The lock map on concrete input.
use ch_vmm.Prelude.{ℕ, ◌≡◌, ◌≢◌, refl, true, false, some, get_elem?, arith}
use ch_vmm.LockMap.{
  waiting, reading, writing, Call, LockMap, new_locks, enter, advance, sum, start, lock, Reach,
  here, next,
}
use ch_vmm.LockMap.Counted.{IsCounted}
use ch_vmm.LockMap.Exclusive.{Reach-IsCounted, writing_alone}

-- A writer of key 5 that has its mutex, and a reader that waits for it.
abbrev writer : Call
writer = record { key = 5; mutex = 0; exclusive = true; phase = waiting }

abbrev reader : Call
reader = record { key = 5; mutex = 0; exclusive = false; phase = waiting }

contended : LockMap
contended = enter (advance (enter new_locks 5 true) 0 writer writing) 5 false

contended-Reach : Reach new_locks contended
unfolding contended enter new_locks sum
contended-Reach =
    next (next (next here (start new_locks 5 true)) (lock _ 0 writer refl refl refl refl))
      (start _ 5 false)

writer_has : get_elem? contended.calls 1 ≡ some (record writer { phase = writing })
unfolding contended enter new_locks
writer_has = refl

reader_waits : get_elem? contended.calls 0 ≡ some reader
unfolding contended enter new_locks
reader_waits = refl

one_ne_zero : ◌≢◌ {A = ℕ} 1 0
one_ne_zero e = omega arith

Reach-IsCounted_example : IsCounted contended
Reach-IsCounted_example = Reach-IsCounted contended-Reach

writing_alone_example : (reader.phase ≢ writing) × (reader.phase ≢ reading)
writing_alone_example =
    writing_alone 1 0 (record writer { phase = writing }) reader contended-Reach writer_has
      reader_waits one_ne_zero refl refl
