-- ===== src/Executor/Advance/Rounds.antt =====
-- One round of the loop that advances an enumeration.
use pathwinder.Base.{
  ℕ, zero, suc, ◌+◌, ◌-◌, ◌≤◌, ◌<◌, ◌≡◌, refl, ap, sym, ◌∙◌, List, [], ◌∷◌, ◌++◌, some, length,
  take, arith, Bool-cases, inl, inr, append-nil, append_assoc,
}
use pathwinder.Text.{Text}
use pathwinder.Infra.{Infra}
use pathwinder.FileInformation.{FileInformationStructLayout, update_next_entry_offset, write_bytes}
use pathwinder.FileInformation.Memory.{take-all}
use pathwinder.FileInformation.Copies.{
  IsWhole, with_next, take-copied, length-copied, segments, last_from,
}
use pathwinder.Queue.{DirectoryOperationQueue, FileInformation, Presents}
use pathwinder.Executor.Advance.{Delivered, is_enumerated, skip_enumerated, deliver_front}
use pathwinder.Executor.Advance.Names.{drop_enumerated, structures}

module _ ⦃i : Infra⦄ {Queue : Type 0} (ops : DirectoryOperationQueue Queue) where
  skip-Presents :
      (fuel : ℕ) (names : List Text) (xs : List FileInformation) (q : Queue)
      → length xs < fuel
      → Presents ops q xs
      → (q' : Queue) × (skip_enumerated ops fuel names q ≡ some q')
        × Presents ops q' (drop_enumerated names xs)
  unfolding skip_enumerated drop_enumerated
  skip-Presents zero names xs q enough p = absurd (omega arith)
  skip-Presents (suc fuel) names [] q enough p = (q, ground (arith, p), p)
  skip-Presents (suc fuel) names (x ∷ xs) q enough p =
      let (q', pop, next) = p.4 in
      let name = p.1 in
      elim (Bool-cases (is_enumerated names x.file_name)) [
        | inl seen ↦
            let (q'', found, after) = skip-Presents fuel names xs q' (omega arith) next in
            rw seen
              (q'', ground (arith, p.0, ap (is_enumerated names) name, seen, pop, found), after)
        | inr new ↦ rw new (q, ground (arith, p.0, ap (is_enumerated names) name, new), p)
      ]

module _ ⦃i : Infra⦄ {Queue : Type 0} (ops : DirectoryOperationQueue Queue)
    (layout : FileInformationStructLayout) where
  -- The bytes that were written are those of before and then the structures, and the last position is
  -- that of the last of them.
  abbrev pub Copied : Delivered Queue → Delivered Queue → List FileInformation → Type 0
  Copied d d' written =
      (take d'.bytes_written d'.output
        ≡ take d.bytes_written d.output ++ segments layout (structures written))
      × (length d'.output ≡ length d.output)
      × (d'.last_position ≡ last_from layout d.bytes_written d.last_position (structures written))

  pub Copied-cons :
      (d d₁ d' : Delivered Queue) (x : FileInformation) (written : List FileInformation)
      → d₁.bytes_written ≡ d.bytes_written + length x.structure
      → Copied d d₁ (x ∷ [])
      → Copied d₁ d' written
      → Copied d d' (x ∷ written)
  Copied-cons d d₁ d' x written bytes (copied, same_length, last) (copied', same_length', last') =
      let before = take d.bytes_written d.output in
      let segment = with_next layout x.structure (length x.structure) in
      (
        copied'
            ∙ ap (λ t. t ++ segments layout (structures written))
                (copied ∙ ap (λ t. before ++ t) (append-nil segment))
            ∙ append_assoc before segment (segments layout (structures written)),
        same_length' ∙ same_length,
        last'
            ∙ ap (λ p. last_from layout p d₁.last_position (structures written)) bytes
            ∙ ap
                (λ p.
                  last_from layout (d.bytes_written + length x.structure) p (structures written))
                last,
      )

  -- One round of the loop.
  pub front-Presents :
      (fuel size : ℕ) (d : Delivered Queue) (x : FileInformation) (xs : List FileInformation)
      → Presents ops d.queue (x ∷ xs)
      → length xs < fuel
      → length x.structure ≤ size - d.bytes_written
      → IsWhole layout x.structure
      → size ≤ length d.output
      → (d' : Delivered Queue) × (deliver_front ops fuel layout size d ≡ some d')
        × (d'.filenames ≡ x.file_name ∷ d.filenames)
        × (d'.bytes_written ≡ d.bytes_written + length x.structure)
        × (d'.elements_written ≡ d.elements_written + 1)
        × (d'.status ≡ ops.enumeration_status d'.queue)
        × Presents ops d'.queue (drop_enumerated (x.file_name ∷ d.filenames) xs)
        × Copied d d' (x ∷ [])
  unfolding deliver_front
  front-Presents fuel size d x xs (live, name, sized, copy, (popped, pop, next)) enough fits whole
        room =
      let (q, found, after) =
        skip-Presents ops fuel (x.file_name ∷ d.filenames) xs popped enough next in
      let copied : ops.copy_front d.queue (size - d.bytes_written) ≡ x.structure =
        copy (size - d.bytes_written) ∙ take-all (size - d.bytes_written) x.structure fits in
      let copied_bytes =
        take-copied layout d.output d.bytes_written x.structure whole
          (omega (arith, whole.has_length, room, fits))
        ∙ ap (λ t. take d.bytes_written d.output ++ t)
            (sym (append-nil (with_next layout x.structure (length x.structure)))) in
      let same_length = length-copied layout d.output d.bytes_written x.structure in
      (
        record {
          queue = q;
          filenames = x.file_name ∷ d.filenames;
          output =
              update_next_entry_offset layout (write_bytes d.output d.bytes_written x.structure)
                d.bytes_written;
          bytes_written = d.bytes_written + length x.structure;
          elements_written = d.elements_written + 1;
          last_position = some d.bytes_written;
          status = ops.enumeration_status q;
        },
        ground (arith, pop, name, copied, found),
        refl,
        refl,
        refl,
        refl,
        after,
        (copied_bytes, same_length, refl),
      )
