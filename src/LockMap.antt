-- ===== src/LockMap.antt =====
-- pkg/util/lockmap/lockmap.go: a mutex for each key, with a collector of those that are not in use.
pub mod Sums
pub mod Counted
pub mod Exclusive
use ch_vmm.Prelude.{
  ℕ, suc, ◌+◌, ◌-◌, ◌≡◌, Bool, true, false, List, [], ◌∷◌, ◌++◌, Option, none, some, if◌then◌else◌,
  ◌==◌, set, get_elem?,
}

-- Where a call of `Lock` or `RLock` and of the function that it returns is: behind `bigLock`, in
-- possession of its mutex, behind the unlocking of it, and behind the decrement of the count.
pub data Phase : Type 0 where
  waiting reading writing unlocked over : Phase

-- A call: its key, the address of the mutex that it loaded or stored, whether it is of `Lock`.
pub record Call : Type 0 where
  pub key : ℕ
  pub mutex : ℕ
  pub exclusive : Bool
  pub phase : Phase

-- `mutexes` is the map from keys to addresses of mutexes, `count` the counts of references by
-- address, `next` an address not in use, and `calls` all calls so far.
pub record LockMap : Type 0 where
  pub mutexes : ℕ → Option ℕ
  pub count : ℕ → ℕ
  pub next : ℕ
  pub calls : List Call

abbrev pub put {ℓ} : {A : Type ℓ} → (ℕ → A) → ℕ → A → ℕ → A
put f k x j = if j == k then x else f j

-- `New`
unfoldable pub new_locks : LockMap
new_locks = record { mutexes = λ k. none; count = λ m. 0; next = 0; calls = [] }

-- The start of `Lock` and `RLock`, under `bigLock`: `LoadOrStore` and `Inc`.
unfoldable pub enter : LockMap → ℕ → Bool → LockMap
enter p key exclusive = elim (p.mutexes key) [
  | none ↦ record {
    mutexes = put p.mutexes key (some p.next);
    count = put p.count p.next 1;
    next = suc p.next;
    calls = record { key = key; mutex = p.next; exclusive = exclusive; phase = waiting } ∷ p.calls;
  }
  | some m ↦ record p {
    count = put p.count m (p.count m + 1);
    calls = record { key = key; mutex = m; exclusive = exclusive; phase = waiting } ∷ p.calls;
  }
]

-- What the collector does to a key that it comes to, under `bigLock`. (The value that it was given
-- is still the key's: only the collector deletes.)
pub collect : LockMap → ℕ → LockMap
collect p key = elim (p.mutexes key) [
  | none ↦ p
  | some m ↦ if p.count m == 0 then record p { mutexes = put p.mutexes key none } else p
]

-- A call goes on to its next phase.
abbrev pub advance : LockMap → ℕ → Call → Phase → LockMap
advance p i c phase = record p { calls = set p.calls i (record c { phase = phase }) }

-- Whether a call holds the mutex, and whether it holds it for itself.
abbrev pub holds : ℕ → Call → ℕ
holds m c = elim c.phase [
  | reading ↦ if c.mutex == m then 1 else 0
  | writing ↦ if c.mutex == m then 1 else 0
  | _ ↦ 0
]

abbrev pub writes : ℕ → Call → ℕ
writes m c = elim c.phase [ writing ↦ if c.mutex == m then 1 else 0 | _ ↦ 0 ]

-- Whether a call counts as a reference of the mutex.
abbrev pub refers : ℕ → Call → ℕ
refers m c = elim c.phase [ over ↦ 0 | _ ↦ if c.mutex == m then 1 else 0 ]

unfoldable pub sum : (Call → ℕ) → List Call → ℕ
sum f [] = 0
sum f (c ∷ cs) = f c + sum f cs

-- The steps of calls and of the collector, in any order. A `sync.RWMutex` lets a writer in when
-- nobody holds it, and a reader when no writer does.
pub data Step : LockMap → LockMap → Type 0 where
  start : (p : LockMap) (key : ℕ) (exclusive : Bool) → Step p (enter p key exclusive)
  lock :
      (p : LockMap) (i : ℕ) (c : Call)
      → get_elem? p.calls i ≡ some c
      → c.phase ≡ waiting
      → c.exclusive ≡ true
      → sum (holds c.mutex) p.calls ≡ 0
      → Step p (advance p i c writing)
  read_lock :
      (p : LockMap) (i : ℕ) (c : Call)
      → get_elem? p.calls i ≡ some c
      → c.phase ≡ waiting
      → c.exclusive ≡ false
      → sum (writes c.mutex) p.calls ≡ 0
      → Step p (advance p i c reading)
  unlock :
      (p : LockMap) (i : ℕ) (c : Call)
      → get_elem? p.calls i ≡ some c
      → c.exclusive ≡ true
      → c.phase ≡ writing
      → Step p (advance p i c unlocked)
  read_unlock :
      (p : LockMap) (i : ℕ) (c : Call)
      → get_elem? p.calls i ≡ some c
      → c.exclusive ≡ false
      → c.phase ≡ reading
      → Step p (advance p i c unlocked)
  leave :
      (p : LockMap) (i : ℕ) (c : Call)
      → get_elem? p.calls i ≡ some c
      → c.phase ≡ unlocked
      → Step p (record (advance p i c over) { count = put p.count c.mutex (p.count c.mutex - 1) })
  gc : (p : LockMap) (key : ℕ) → Step p (collect p key)

pub data Reach (p : LockMap) : LockMap → Type 0 where
  here : Reach p p
  next : {q r : LockMap} → Reach p q → Step q r → Reach p r
