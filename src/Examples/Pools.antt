-- ===== src/Examples/Pools.antt =====
-- A run of the pool of buffers with room for two, and an instance of its theorem.
use pathwinder.Base.{ℕ, ◌≤◌, ◌≡◌, refl, [], ◌∷◌, some, length, arith}
use pathwinder.BufferPool.{BufferPool, new_pool, allocate_more, allocate, free}
use pathwinder.BufferPool.Steps.{count, Run, done, next, allocated, freed, pool_lem}

abbrev one_left : BufferPool
one_left = record { available_buffers = 0 ∷ []; next_buffer = 2 }

abbrev none_left : BufferPool
none_left = record { available_buffers = []; next_buffer = 2 }

-- Buffer 1 is given first, then 0, then 1 comes back.
abbrev one_back : BufferPool
one_back = record { available_buffers = 1 ∷ []; next_buffer = 2 }

three_calls-Run : Run 2 2 (new_pool 2 2) [] one_back (0 ∷ [])
unfolding new_pool allocate_more allocate free
three_calls-Run =
    next (new_pool 2 2) one_left one_back [] (1 ∷ []) (0 ∷ [])
      (allocated (new_pool 2 2) one_left [] 1 refl)
      (next one_left none_left one_back (1 ∷ []) (0 ∷ 1 ∷ []) (0 ∷ [])
        (allocated one_left none_left (1 ∷ []) 0 refl)
        (next none_left one_back one_back (0 ∷ 1 ∷ []) (0 ∷ []) (0 ∷ [])
          (freed none_left (0 ∷ []) [] 1) (done one_back (0 ∷ []))))

pool_lem_example :
    ((x : ℕ) → count x (0 ∷ []) ≤ 1)
    × (length one_back.available_buffers ≤ 2)
    × ((b : ℕ) × (r : BufferPool) × (allocate 2 2 one_back ≡ some (b, r)) × (count b (0 ∷ []) ≡ 0))
pool_lem_example = pool_lem 2 2 one_back (0 ∷ []) (omega arith) (omega arith) three_calls-Run
