-- ===== src/Executor/Advance/Loop.antt =====
-- The loop that advances an enumeration.
use pathwinder.Base.{
  ℕ, zero, suc, ◌+◌, ◌-◌, ◌≤◌, ◌<◌, ◌≡◌, ◌⊎◌, refl, ap, sym, ◌∙◌, subst, false, List, [], ◌∷◌, ◌++◌,
  some, ltb, length, take, arith, Bool-cases, inl, inr, append-nil,
}
use pathwinder.Infra.{Infra}
use pathwinder.FileInformation.{FileInformationStructLayout}
use pathwinder.Queue.{DirectoryOperationQueue, FileInformation, Presents}
use pathwinder.Executor.Advance.{Delivered, is_enumerated, deliver_loop}
use pathwinder.Executor.Advance.Names.{
  unique, drop_enumerated, unique-drop, drop-IsFresh, drop-length-le, IsFresh, names_with,
  total_size, AreWhole, drop_enumerated-AreWhole,
}
use pathwinder.Executor.Advance.Rounds.{Copied, Copied-cons, front-Presents}

module _ ⦃i : Infra⦄ {Queue : Type 0} (ops : DirectoryOperationQueue Queue) where
  -- Why the loop stops: nothing is left, the given number of elements is reached, or the next
  -- structure has no room.
  abbrev pub Stops : ℕ → ℕ → Delivered Queue → List FileInformation → Type 0
  Stops size max_elements d [] = Unit
  Stops size max_elements d (y ∷ ys) =
      (max_elements ≤ d.elements_written) ⊎ (size - d.bytes_written < length y.structure)

module _ ⦃i : Infra⦄ {Queue : Type 0} (ops : DirectoryOperationQueue Queue)
    (layout : FileInformationStructLayout) where
  -- What the loop makes of a queue that presents some structures: it writes the first of those
  -- with new names, and leaves the others.
  abbrev pub Delivers :
      ℕ
      → ℕ
      → Delivered Queue
      → List FileInformation
      → Delivered Queue
      → List FileInformation
      → List FileInformation
      → Type 0
  Delivers size max_elements d xs d' written rest =
      Presents ops d'.queue rest
      × (unique d.filenames xs ≡ written ++ unique d'.filenames rest)
      × IsFresh d'.filenames rest
      × (d'.filenames ≡ names_with d.filenames written)
      × (d'.bytes_written ≡ d.bytes_written + total_size written)
      × (d'.elements_written ≡ d.elements_written + length written)
      × (d'.status ≡ ops.enumeration_status d'.queue)
      × Stops ops size max_elements d' rest
      × Copied ops layout d d' written

  after_front :
      (size max_elements : ℕ) (d d₁ d' : Delivered Queue) (x : FileInformation)
      (xs written rest : List FileInformation)
      → is_enumerated d.filenames x.file_name ≡ false
      → d₁.filenames ≡ x.file_name ∷ d.filenames
      → d₁.bytes_written ≡ d.bytes_written + length x.structure
      → d₁.elements_written ≡ d.elements_written + 1
      → Copied ops layout d d₁ (x ∷ [])
      → Delivers size max_elements d₁
          (drop_enumerated (x.file_name ∷ d.filenames) xs)
          d'
          written
          rest
      → Delivers size max_elements d (x ∷ xs) d' (x ∷ written) rest
  unfolding unique
  after_front size max_elements d d₁ d' x xs written rest fresh names bytes elements copied given =
      let others = drop_enumerated (x.file_name ∷ d.filenames) xs in
      let split : unique (x.file_name ∷ d.filenames) xs ≡ written ++ unique d'.filenames rest =
        sym (unique-drop (x.file_name ∷ d.filenames) xs)
        ∙ ap (λ ns. unique ns others) (sym names)
        ∙ given.1 in
      (
        given.0,
        rw fresh (ap (◌∷◌ x) split),
        given.2,
        given.3 ∙ ap (λ ns. names_with ns written) names,
        omega (arith, given.4, bytes),
        omega (arith, given.5, elements),
        given.6,
        given.7,
        Copied-cons ops layout d d₁ d' x written bytes copied given.8,
      )

  pub loop-Delivers :
      (fuel size max_elements : ℕ) (d : Delivered Queue) (xs : List FileInformation)
      → Presents ops d.queue xs
      → length xs < fuel
      → d.status ≡ ops.enumeration_status d.queue
      → IsFresh d.filenames xs
      → AreWhole layout xs
      → size ≤ length d.output
      → (d' : Delivered Queue) × (written : List FileInformation) × (rest : List FileInformation)
        × (deliver_loop ops fuel layout size max_elements d ≡ some d')
        × Delivers size max_elements d xs d' written rest
  unfolding deliver_loop unique
  loop-Delivers zero size max_elements d xs p enough live fresh whole buffer = absurd (omega arith)
  loop-Delivers (suc fuel) size max_elements d [] p enough live fresh whole buffer = (
    d,
    [],
    [],
    ground (arith, p, live),
    (
      p,
      refl,
      tt,
      refl,
      omega arith,
      omega arith,
      live,
      tt,
      (sym (append-nil (take d.bytes_written d.output)), refl, refl),
    ),
  )
  loop-Delivers (suc fuel) size max_elements d (x ∷ xs) p enough live fresh whole buffer =
      elim (Bool-cases (ltb d.elements_written max_elements)) [
        | inr full ↦ (
          d,
          [],
          x ∷ xs,
          ground (arith, full),
          (
            p,
            refl,
            fresh,
            refl,
            omega arith,
            omega arith,
            live,
            inl (ground (arith, full)),
            (sym (append-nil (take d.bytes_written d.output)), refl, refl),
          ),
        )
        | inl more ↦ elim (Bool-cases (ltb (size - d.bytes_written) (length x.structure))) [
          | inl no_room ↦ (
            d,
            [],
            x ∷ xs,
            ground (arith, more, no_room, p.2),
            (
              p,
              refl,
              fresh,
              refl,
              omega arith,
              omega arith,
              live,
              inr (ground (arith, no_room)),
              (sym (append-nil (take d.bytes_written d.output)), refl, refl),
            ),
          )
          | inr room ↦
              let fits : length x.structure ≤ size - d.bytes_written = ground (arith, room) in
              let (d₁, front, names, bytes, elements, status, next, copied) =
                front-Presents ops layout fuel size d x xs p (omega arith) fits whole.0 buffer in
              let others = drop_enumerated (x.file_name ∷ d.filenames) xs in
              let new_names : IsFresh d₁.filenames others =
                subst (λ ns. IsFresh ns others) (sym names)
                  (drop-IsFresh (x.file_name ∷ d.filenames) xs) in
              let (d', written, rest, loop, given) =
                loop-Delivers fuel size max_elements d₁ others next
                  (omega (arith, drop-length-le (x.file_name ∷ d.filenames) xs)) status new_names
                  (drop_enumerated-AreWhole layout (x.file_name ∷ d.filenames) xs whole.1)
                  (omega (arith, buffer, copied.1)) in
              (
                d',
                x ∷ written,
                rest,
                ground (arith, live, p.0, p.2, more, room, front, loop),
                after_front size max_elements d d₁ d' x xs written rest fresh names bytes elements
                    copied given,
              )
        ]
      ]
