-- ===== src/BufferPool/Steps.antt =====
-- Runs of the pool: calls of Allocate, and of Free with buffers in use, in any order.
use pathwinder.Base.{
  ℕ, zero, suc, ◌+◌, ◌≤◌, ◌<◌, ◌≡◌, refl, Bool-cases, inl, inr, List, [], ◌∷◌, ◌++◌, some, ◌==◌,
  if◌then◌else◌, length, arith, ap, subst,
}
use pathwinder.BufferPool.{BufferPool, allocate_more, new_pool, allocate, free}

-- How often a buffer stands in a list.
pub count : ℕ → List ℕ → ℕ
count x [] = 0
count x (y ∷ ys) = let rest = count x ys in if x == y then suc rest else rest

count-append : (x : ℕ) (xs ys : List ℕ) → count x (xs ++ ys) ≡ count x xs + count x ys
unfolding count
count-append x [] ys = omega arith
count-append x (z ∷ xs) ys = ground (arith, count-append x xs ys)

module _ (granularity pool_size : ℕ) where
  -- A call, on the pool and the buffers in use.
  pub data Step : BufferPool → List ℕ → BufferPool → List ℕ → Type 0 where
    allocated :
        (p q : BufferPool) (used : List ℕ) (b : ℕ)
        → allocate granularity pool_size p ≡ some (b, q)
        → Step p used q (b ∷ used)
    freed :
        (p : BufferPool) (before after : List ℕ) (b : ℕ)
        → Step p (before ++ b ∷ after) (free granularity pool_size p b) (before ++ after)

  pub data Run : BufferPool → List ℕ → BufferPool → List ℕ → Type 0 where
    done : (p : BufferPool) (used : List ℕ) → Run p used p used
    next :
        (p q r : BufferPool) (used used' used'' : List ℕ)
        → Step p used q used'
        → Run q used' r used''
        → Run p used r used''

  -- No buffer is in the pool or in use twice or both, all were made, and the pool keeps its size.
  pub record IsSound (p : BufferPool) (used : List ℕ) : Type 0 where
    pub single : (x : ℕ) → count x p.available_buffers + count x used ≤ 1
    pub made : (x : ℕ) → p.next_buffer ≤ x → count x p.available_buffers + count x used ≡ 0
    pub bounded : length p.available_buffers ≤ pool_size

  more-IsSound :
      (rounds : ℕ) (p : BufferPool) (used : List ℕ)
      → IsSound p used
      → IsSound (allocate_more granularity pool_size rounds p) used
  unfolding allocate_more count
  more-IsSound zero p used sound = sound
  more-IsSound (suc rounds) p used sound =
      let q : BufferPool = record {
        available_buffers = p.next_buffer ∷ p.available_buffers;
        next_buffer = suc p.next_buffer;
      } in
      elim (Bool-cases (length p.available_buffers == pool_size)) [
        | inl full ↦ rw full sound
        | inr room ↦ rw room (
            more-IsSound rounds q used (record {
              single = λ x. ground (arith, sound.single x, sound.made x);
              made = λ x h. ground (arith, sound.made x (omega arith));
              bounded = ground (arith, room, sound.bounded);
            }))
      ]

  more-grows :
      (rounds : ℕ) (p : BufferPool)
      → length p.available_buffers
        ≤ length (allocate_more granularity pool_size rounds p).available_buffers
  unfolding allocate_more
  more-grows zero p = omega arith
  more-grows (suc rounds) p =
      let q : BufferPool = record {
        available_buffers = p.next_buffer ∷ p.available_buffers;
        next_buffer = suc p.next_buffer;
      } in
      ground (arith, more-grows rounds q)

  -- After AllocateMoreBuffers on an empty pool there is one.
  more-available :
      (rounds : ℕ) (p : BufferPool)
      → 0 < rounds
      → 0 < pool_size
      → length p.available_buffers ≡ 0
      → 0 < length (allocate_more granularity pool_size rounds p).available_buffers
  unfolding allocate_more
  more-available zero p some_rounds some_room empty = absurd (omega arith)
  more-available (suc rounds) p some_rounds some_room empty =
      let q : BufferPool = record {
        available_buffers = p.next_buffer ∷ p.available_buffers;
        next_buffer = suc p.next_buffer;
      } in
      ground (arith, empty, some_room, more-grows rounds q)

  -- The pool that Allocate takes a buffer from.
  abbrev filled : BufferPool → BufferPool
  filled p =
      if length p.available_buffers == 0
      then allocate_more granularity pool_size granularity p
      else p

  filled-IsSound : (p : BufferPool) (used : List ℕ) → IsSound p used → IsSound (filled p) used
  filled-IsSound p used sound = elim (Bool-cases (length p.available_buffers == 0)) [
    | inl empty ↦ rw empty (more-IsSound granularity p used sound)
    | inr some_left ↦ rw some_left sound
  ]

  -- What Allocate does with that pool.
  allocated-IsSound :
      (p q : BufferPool) (used available : List ℕ) (b : ℕ)
      → (filled p).available_buffers ≡ available
      → IsSound (filled p) used
      → allocate granularity pool_size p ≡ some (b, q)
      → IsSound q (b ∷ used)
  unfolding allocate count
  allocated-IsSound p q used [] b same sound e = absurd (ground (arith, same, e))
  allocated-IsSound p q used (c ∷ cs) b same sound e =
      let here : b ≡ c = ground (arith, same, e) in
      let rest : q.available_buffers ≡ cs = ground (arith, same, e) in
      let numbers : q.next_buffer ≡ (filled p).next_buffer = ground (arith, same, e) in
      record {
        single = λ x.
            rw (rest, here)
              (ground (arith, subst (λ l. count x l + count x used ≤ 1) same (sound.single x)));
        made = λ x h.
            rw (rest, here)
              (ground (
                arith,
                subst (λ l. count x l + count x used ≡ 0) same
                    (sound.made x (omega (arith, h, numbers))),
              ));
        bounded =
            omega (arith, ap length rest, subst (λ l. length l ≤ pool_size) same sound.bounded);
      }

  freed-IsSound :
      (p : BufferPool) (before after : List ℕ) (b : ℕ)
      → IsSound p (before ++ b ∷ after)
      → IsSound (free granularity pool_size p b) (before ++ after)
  unfolding free count
  freed-IsSound p before after b sound =
      elim (Bool-cases (length p.available_buffers == pool_size)) [
        | inl full ↦ rw full (record {
          single = λ x. ground (
            arith,
            sound.single x,
            count-append x before (b ∷ after),
            count-append x before after,
          );
          made = λ x h. ground (
            arith,
            sound.made x h,
            count-append x before (b ∷ after),
            count-append x before after,
          );
          bounded = sound.bounded;
        })
        | inr room ↦ rw room (record {
          single = λ x. ground (
            arith,
            sound.single x,
            count-append x before (b ∷ after),
            count-append x before after,
          );
          made = λ x h. ground (
            arith,
            sound.made x h,
            count-append x before (b ∷ after),
            count-append x before after,
          );
          bounded = ground (arith, room, sound.bounded);
        })
      ]

  Step-IsSound :
      (p q : BufferPool) (used used' : List ℕ)
      → Step p used q used'
      → IsSound p used
      → IsSound q used'
  Step-IsSound _ _ _ _ (allocated p q used b e) sound =
      allocated-IsSound p q used (filled p).available_buffers b refl (filled-IsSound p used sound) e
  Step-IsSound _ _ _ _ (freed p before after b) sound = freed-IsSound p before after b sound

  Run-IsSound :
      (p q : BufferPool) (used used' : List ℕ)
      → Run p used q used'
      → IsSound p used
      → IsSound q used'
  Run-IsSound _ _ _ _ (done p used) sound = sound
  Run-IsSound _ _ _ _ (next p q r used used' used'' step run) sound =
      Run-IsSound q r used' used'' run (Step-IsSound p q used used' step sound)

  new-IsSound : IsSound (new_pool granularity pool_size) []
  unfolding new_pool count
  new-IsSound =
      more-IsSound granularity _ []
        (record { single = λ x. omega arith; made = λ x h. refl; bounded = omega arith })

  gives :
      (p : BufferPool) (used available : List ℕ)
      → (filled p).available_buffers ≡ available
      → 0 < granularity
      → 0 < pool_size
      → IsSound (filled p) used
      → (b : ℕ) × (r : BufferPool) × (allocate granularity pool_size p ≡ some (b, r))
        × (count b used ≡ 0)
  unfolding allocate count
  gives p used [] same some_rounds some_room sound =
      absurd (ground (arith, ap length same, more-available granularity p some_rounds some_room))
  gives p used (b ∷ bs) same some_rounds some_room sound = (
    b,
    record (filled p) { available_buffers = bs },
    ground (arith, same),
    ground (arith, subst (λ l. count b l + count b used ≤ 1) same (sound.single b)),
  )

  -- After any calls of Allocate and Free on a new pool, of which Free gets buffers in use: no
  -- buffer is in use twice, the pool holds no more buffers than its size, and Allocate gives a
  -- buffer that is not in use. The granularity and the size are not 0.
  pub pool_lem :
      (q : BufferPool) (used : List ℕ)
      → 0 < granularity
      → 0 < pool_size
      → Run (new_pool granularity pool_size) [] q used
      → ((x : ℕ) → count x used ≤ 1)
        × (length q.available_buffers ≤ pool_size)
        × ((b : ℕ) × (r : BufferPool) × (allocate granularity pool_size q ≡ some (b, r))
            × (count b used ≡ 0))
  pool_lem q used some_rounds some_room run =
      let sound = Run-IsSound (new_pool granularity pool_size) q [] used run new-IsSound in
      (
        λ x. omega (arith, sound.single x),
        sound.bounded,
        gives q used (filled q).available_buffers refl some_rounds some_room
            (filled-IsSound q used sound),
      )
