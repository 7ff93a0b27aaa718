-- ===== src/BoundedStack.antt =====
-- pkg/util/boundedstack/boundedstack.go: a stack in a ring buffer that drops its bottom item when
-- it is full, and the channel that wakes its receivers.
pub mod View
pub mod Wakeup
use ch_vmm.Prelude.Int64.{lt64}
use ch_vmm.Prelude.{
  ℕ, ◌+◌, ◌-◌, ◌%◌, min, Bool, true, false, List, Option, none, some, length, get_or, set,
  replicate, ltb, ◌==◌, if◌then◌else◌,
}

-- `notify` is the number of tokens in `recvNotify`, whose buffer has the stack's capacity.
pub record BoundedStack {ℓ} (A : Type ℓ) : Type ℓ where
  pub notify : ℕ
  pub buffer : List A
  pub top : ℕ
  pub size : ℕ

-- `nil` stands for the zero value of `T`.
module _ {ℓ} {A : Type ℓ} (nil : A) where
  -- `New`; a capacity of zero or less, an `int`, is an error.
  pub new : ℕ → Option (BoundedStack A)
  unfolding lt64
  new capacity =
      if lt64 0 capacity
      then some (record { notify = 0; buffer = replicate capacity nil; top = 0; size = 0 })
      else none

  -- `pop`, under the mutex.
  pub pop : BoundedStack A → BoundedStack A × A × Bool
  pop s = if s.size == 0 then (s, nil, false) else (
    record s {
      buffer = set s.buffer s.top nil;
      top = (s.top + length s.buffer - 1) % length s.buffer;
      size = s.size - 1;
    },
    get_or s.buffer s.top nil,
    true,
  )

module _ {ℓ} {A : Type ℓ} where
  -- `push`, under the mutex.
  unfoldable pub push : BoundedStack A → A → BoundedStack A
  push s item =
      let top' : ℕ = (s.top + 1) % length s.buffer in
      record s {
        top = top';
        buffer = set s.buffer top' item;
        size = min (s.size + 1) (length s.buffer);
      }

  -- The `select` with a `default` of `Push`: a token is dropped if the channel is full.
  unfoldable pub signal : BoundedStack A → BoundedStack A
  signal s = if ltb s.notify (length s.buffer) then record s { notify = s.notify + 1 } else s

  -- The channel receive of `Recv`: it blocks while there is no token.
  pub receive : BoundedStack A → Option (BoundedStack A)
  receive s = if s.notify == 0 then none else some (record s { notify = s.notify - 1 })

-- What one round of the loop of `Recv` does, `ctx` not being cancelled: it blocks, pops nothing
-- and goes on, or returns an item.
pub data Round {ℓ} (A : Type ℓ) : Type ℓ where
  blocked again : Round A
  returned : A → Round A

module _ {ℓ} {A : Type ℓ} (nil : A) where
  after_pop : BoundedStack A × A × Bool → Round A × BoundedStack A
  after_pop (s, item, true) = (returned item, s)
  after_pop (s, item, false) = (again, s)

  -- A round that no other call comes in between.
  pub recv_round : BoundedStack A → Round A × BoundedStack A
  unfolding receive pop after_pop
  recv_round s = elim (receive s) [ none ↦ (blocked, s) | some s' ↦ after_pop (pop nil s') ]
