-- ===== src/BufferPool.antt =====
-- BufferPool.h: the pool that the buffers of directory enumerations are taken from.
pub mod Steps
use pathwinder.Base.{
  ℕ, zero, suc, ◌+◌, List, [], ◌∷◌, Option, none, some, ◌==◌, if◌then◌else◌, length,
}

-- Buffers are numbered in the order in which `new` makes them, so that no two have one number. The
-- last of the available buffers is the first of the list.
pub record BufferPool : Type 0 where
  pub available_buffers : List ℕ
  pub next_buffer : ℕ

-- kAllocationGranularity and kPoolSize.
module _ (granularity pool_size : ℕ) where
  -- The loop of AllocateMoreBuffers, for the rounds that are left.
  unfoldable pub allocate_more : ℕ → BufferPool → BufferPool
  allocate_more zero p = p
  allocate_more (suc rounds) p =
      let rest = allocate_more rounds (record {
        available_buffers = p.next_buffer ∷ p.available_buffers;
        next_buffer = suc p.next_buffer;
      }) in
      if length p.available_buffers == pool_size then p else rest

  unfoldable pub new_pool : BufferPool
  unfolding allocate_more
  new_pool = allocate_more granularity (record { available_buffers = []; next_buffer = 0 })

  -- Where no buffer is available after all, the array is read out of range: `none`.
  unfoldable pub allocate : BufferPool → Option (ℕ × BufferPool)
  unfolding allocate_more
  allocate p =
      let q = if length p.available_buffers == 0 then allocate_more granularity p else p in
      elim q.available_buffers [
        | [] ↦ none
        | b ∷ bs ↦ some (b, record q { available_buffers = bs })
      ]

  unfoldable pub free : BufferPool → ℕ → BufferPool
  free p b =
      if length p.available_buffers == pool_size
      then p
      else record p { available_buffers = b ∷ p.available_buffers }
