-- ===== src/Queue/Enumeration/Batches.antt =====
-- The batches of structures that the system gives of a directory.
use pathwinder.Base.{
  ℕ, ◌+◌, ◌%◌, ◌^◌, ◌≡◌, refl, sym, ap, true, false, List, [], ◌∷◌, ◌++◌, some, ◌==◌, if_false,
  subst, ◌∙◌, take, drop, length, arith,
}
use pathwinder.Infra.{Infra}
use pathwinder.Windows.{nt_success, more_entries, no_more_files}
use pathwinder.FileInformation.{
  Bytes, FileInformationStructLayout, read_next_entry_offset, read_file_name, size_of_struct,
}
use pathwinder.FileInformation.Memory.{take-take}
use pathwinder.Queue.{FileInformation}
use pathwinder.Queue.Enumeration.{
  bytes_per_buffer, DirectorySystem, EnumerationQueue, take_batch, advance_queue_contents,
  front_name, front_size, front_copy, pop_one,
}

-- A buffer holds structures, each with the offset of the next, from a position on.
module _ (l : FileInformationStructLayout) (buffer : Bytes) where
  abbrev Stands : ℕ → FileInformation → Type 0
  Stands p x =
      (read_file_name l buffer p ≡ x.file_name)
      × (size_of_struct l buffer p ≡ length x.structure)
      × (take (length x.structure) (drop p buffer) ≡ x.structure)

  abbrev pub Chain : ℕ → List FileInformation → Type 0
  Chain p [] = ⊥
  Chain p (x ∷ []) = Stands p x × (read_next_entry_offset l buffer p ≡ 0)
  Chain p (x ∷ y ∷ xs) =
      Stands p x
      × ((read_next_entry_offset l buffer p == 0) ≡ false)
      × Chain ((p + read_next_entry_offset l buffer p) % 2 ^ 32) (y ∷ xs)

  Chain-Stands :
      (p : ℕ) (x : FileInformation) (b : List FileInformation) → Chain p (x ∷ b) → Stands p x
  Chain-Stands p x [] c = c.0
  Chain-Stands p x (y ∷ b) c = c.0

abbrev pub concat : List (List FileInformation) → List FileInformation
concat [] = []
concat (b ∷ bs) = b ++ concat bs

module _ ⦃i : Infra⦄ {Handle : Type 0} (system : DirectorySystem Handle) where
  -- What the system documents of an answer, for a directory that still holds these structures in
  -- these batches: a buffer with the next batch, and no more files when none is left.
  abbrev pub Answers :
      FileInformationStructLayout → ℕ → ℕ × Bytes × Handle → List (List FileInformation) → Type 0
  Answers l c answer [] = answer.0 ≡ no_more_files
  Answers l c answer (b ∷ bs) =
      (nt_success answer.0 ≡ true)
      × Chain l answer.1 0 b
      × Answers l c
          (system.partial_enumerate_directory_contents answer.2 c bytes_per_buffer false []) bs

  -- The structures that are left, the current batch first.
  abbrev pub Remains : EnumerationQueue Handle → List (List FileInformation) → Type 0
  Remains q [] = q.status ≡ no_more_files
  Remains q (b ∷ bs) =
      (q.status ≡ more_entries)
      × Chain q.file_information_struct_layout q.enumeration_buffer
          q.enumeration_buffer_byte_position b
      × ((handle : Handle) × (q.directory_handle ≡ some handle)
          × Answers q.file_information_struct_layout q.file_information_class
              (system.partial_enumerate_directory_contents handle q.file_information_class
                bytes_per_buffer false [])
              bs)

  pub take-Remains :
      (q : EnumerationQueue Handle) (answer : ℕ × Bytes × Handle) (bs : List (List FileInformation))
      → Answers q.file_information_struct_layout q.file_information_class answer bs
      → Remains (take_batch system q answer) bs
  unfolding take_batch
  take-Remains q answer [] a = ground (arith, a)
  take-Remains q answer (b ∷ bs) a = rw (a.0) (refl, a.1, (answer.2, refl, a.2))

  -- The batches without the first structure.
  abbrev pub rest_of :
      List FileInformation → List (List FileInformation) → List (List FileInformation)
  rest_of [] bs = bs
  rest_of (x ∷ xs) bs = (x ∷ xs) ∷ bs

  popped_within :
      (q : EnumerationQueue Handle)
      → (read_next_entry_offset q.file_information_struct_layout q.enumeration_buffer
            q.enumeration_buffer_byte_position
          == 0)
        ≡ false
      → pop_one system q ≡ record q {
        enumeration_buffer_byte_position =
            (q.enumeration_buffer_byte_position
              + read_next_entry_offset q.file_information_struct_layout q.enumeration_buffer
                  q.enumeration_buffer_byte_position)
            % 2 ^ 32;
      }
  unfolding pop_one
  popped_within q h = if_false _ _ h

  pub pop-Remains :
      (q : EnumerationQueue Handle) (x : FileInformation) (b : List FileInformation)
      (bs : List (List FileInformation))
      → Remains q ((x ∷ b) ∷ bs)
      → Remains (pop_one system q) (rest_of b bs)
  unfolding pop_one advance_queue_contents
  pop-Remains q x [] bs (s, c, (handle, e, a)) = rw (c.1, e) (take-Remains q _ bs a)
  pop-Remains q x (y ∷ b) bs (s, c, (handle, e, a)) =
      subst (λ q'. Remains q' ((y ∷ b) ∷ bs)) (sym (popped_within q c.1)) (s, c.2, (handle, e, a))

  pub concat-rest_of :
      (b : List FileInformation) (bs : List (List FileInformation))
      → concat (rest_of b bs) ≡ b ++ concat bs
  concat-rest_of [] bs = refl
  concat-rest_of (x ∷ b) bs = refl

  pub take-instruction :
      (q : EnumerationQueue Handle) (answer : ℕ × Bytes × Handle)
      → (take_batch system q answer).match_instruction ≡ q.match_instruction
  unfolding take_batch
  take-instruction q answer = ground arith

  pub pop-instruction :
      (q : EnumerationQueue Handle) → (pop_one system q).match_instruction ≡ q.match_instruction
  unfolding pop_one advance_queue_contents take_batch
  pop-instruction q = ground arith

  -- The front of a queue with something left.
  pub front-Stands :
      (q : EnumerationQueue Handle) (x : FileInformation) (b : List FileInformation)
      → Chain q.file_information_struct_layout q.enumeration_buffer
          q.enumeration_buffer_byte_position
          (x ∷ b)
      → (front_name system q ≡ x.file_name)
        × (front_size system q ≡ length x.structure)
        × ((capacity : ℕ) → front_copy system q capacity ≡ take capacity x.structure)
  unfolding front_name front_size front_copy
  front-Stands q x b c =
      let (name, size, bytes) =
        Chain-Stands q.file_information_struct_layout q.enumeration_buffer
          q.enumeration_buffer_byte_position x b c in
      (
        name,
        size,
        λ capacity. rw size (
            take-take capacity (length x.structure)
              (drop q.enumeration_buffer_byte_position q.enumeration_buffer)
            ∙ ap (take capacity) bytes),
      )
