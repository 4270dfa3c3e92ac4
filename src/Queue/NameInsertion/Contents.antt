-- ===== src/Queue/NameInsertion/Contents.antt =====
-- What a NameInsertionQueue gives, from what the system says of the directories that it asks about.
use pathwinder.Base.{
  ℕ, zero, suc, ◌+◌, ◌-◌, ◌*◌, ◌≤◌, ◌≡◌, ◌⊎◌, refl, sym, ◌∙◌, true, false, List, [], ◌∷◌, none,
  some, take, drop, length, map, if◌then◌else◌, arith, Bool-cases, inl, inr,
}
use Prim.Native.Nat.{◌/◌}
use pathwinder.Text.{Text}
use pathwinder.Infra.{Infra}
use pathwinder.Windows.{nt_success, more_entries, no_more_files}
use pathwinder.Strings.{file_name_matches_pattern}
use pathwinder.Instruction.{SingleDirectoryNameInsertion, file_name_to_insert}
use pathwinder.FileInformation.{
  Bytes, FileInformationStructLayout, layout_for_file_information_class, read_file_name,
  size_of_struct, write_file_name, hypothetical_size_for_file_name_length,
}
use pathwinder.FileInformation.Memory.{AreWide, take-take, length-take, take-all}
use pathwinder.FileInformation.Names.{
  IsRegular, layout-IsRegular, write_file_name_round_trip, length-write_file_name,
}
use pathwinder.Queue.{FileInformation, Presents, is_not_there}
use pathwinder.Queue.Enumeration.{bytes_per_buffer}
use pathwinder.Queue.NameInsertion.{
  directory_information_source_directory_part, directory_information_source_file_part,
  SingleFileQuery, NameInsertionQueue, insert_next, advance_insertions, insertion_copy,
  insertion_operations, new_name_insertion_queue, restart_insertions, initial_insertions,
}

module _ ⦃i : Infra⦄ (query : SingleFileQuery) (l : FileInformationStructLayout) (c : ℕ) where
  -- The structure that the system gives for a directory, with the name to insert.
  abbrev named : SingleDirectoryNameInsertion → Bytes → Bytes
  named n buffer = write_file_name l buffer 0 (file_name_to_insert n) bytes_per_buffer

  abbrev inserted_item : SingleDirectoryNameInsertion → Bytes → FileInformation
  inserted_item n buffer = record {
    file_name = file_name_to_insert n;
    structure = take (size_of_struct l (named n buffer) 0) (named n buffer);
  }

  abbrev answer_for : SingleDirectoryNameInsertion → Text → ℕ × Bytes
  answer_for n directory =
      query directory (directory_information_source_file_part n) c bytes_per_buffer

  -- The insertions whose names match the pattern and whose directories are there.
  pub inserted : Text → List SingleDirectoryNameInsertion → List FileInformation
  inserted pattern_ [] = []
  inserted pattern_ (n ∷ rest) =
      if file_name_matches_pattern (file_name_to_insert n) pattern_
      then (elim (directory_information_source_directory_part n) [
        | none ↦ inserted pattern_ rest
        | some directory ↦
            if is_not_there (answer_for n directory).0
            then inserted pattern_ rest
            else inserted_item n (answer_for n directory).1 ∷ inserted pattern_ rest
      ])
      else inserted pattern_ rest

  -- What an answer may be: that the directory is not there, or a buffer, in which the name has room.
  abbrev IsAnswered : SingleDirectoryNameInsertion → Type 0
  IsAnswered n =
      (directory : Text) × (directory_information_source_directory_part n ≡ some directory)
      × AreWide (file_name_to_insert n)
      × (l.offset_of_file_name + length (file_name_to_insert n) * 2 ≤ 65536)
      × ((is_not_there (answer_for n directory).0 ≡ true)
          ⊎ ((is_not_there (answer_for n directory).0 ≡ false)
              × (nt_success (answer_for n directory).0 ≡ true)
              × (length (answer_for n directory).1 ≡ 65536)))

  abbrev pub AreAnswered : List SingleDirectoryNameInsertion → Type 0
  AreAnswered [] = Unit
  AreAnswered (n ∷ rest) = IsAnswered n × AreAnswered rest

  module _ (regular : IsRegular l) where
    named-name :
        (n : SingleDirectoryNameInsertion) (buffer : Bytes)
        → AreWide (file_name_to_insert n)
        → l.offset_of_file_name + length (file_name_to_insert n) * 2 ≤ 65536
        → length buffer ≡ 65536
        → (read_file_name l (named n buffer) 0 ≡ file_name_to_insert n)
          × (size_of_struct l (named n buffer) 0 ≤ 65536)
    unfolding hypothetical_size_for_file_name_length
    named-name n buffer wide room full =
        let name = file_name_to_insert n in
        let trip =
          write_file_name_round_trip l regular buffer 0 name 65536 (omega arith) (omega arith)
            (omega arith) wide in
        let whole = take-all ((65536 - l.offset_of_file_name) / 2) name (omega arith) in
        (trip.0 ∙ whole, ground (arith, trip.1, whole, regular.small))

    drop-next :
        (k p : ℕ) (ns : List SingleDirectoryNameInsertion) (n : SingleDirectoryNameInsertion)
        (rest : List SingleDirectoryNameInsertion)
        → k ≡ suc p
        → drop p ns ≡ n ∷ rest
        → drop k ns ≡ rest
    drop-next k zero [] n rest e d = absurd (cc)
    drop-next k zero (m ∷ ms) n rest e d = rw e (cc)
    drop-next k (suc p) [] n rest e d = absurd (cc)
    drop-next k (suc p) (m ∷ ms) n rest e d = rw e (drop-next (suc p) p ms n rest refl d)

    module _ (pattern_ : Text) (ns : List SingleDirectoryNameInsertion) where
      -- The queue at a position of its list.
      abbrev queue_at : ℕ → Bytes → ℕ → NameInsertionQueue
      queue_at position buffer status = record {
        file_pattern = pattern_;
        name_insertion_queue = ns;
        name_insertion_queue_position = position;
        file_information_class = c;
        file_information_struct_layout = l;
        enumeration_buffer = buffer;
        status = status;
      }

      next-Presents :
          (rest : List SingleDirectoryNameInsertion) (p : ℕ) (buffer : Bytes) (status : ℕ)
          → drop p ns ≡ rest
          → AreAnswered rest
          → (q' : NameInsertionQueue) × (insert_next query rest (queue_at p buffer status)
              ≡ some q')
            × Presents (insertion_operations query) q' (inserted pattern_ rest)
      unfolding insert_next inserted advance_insertions insertion_copy file_name_matches_pattern
      next-Presents [] p buffer status d a = (queue_at p buffer no_more_files, refl, refl)
      next-Presents (n ∷ rest) p buffer status d ((directory, parent, wide, room, answer), a) =
          let next = drop-next (p + 1) p ns n rest (omega arith) d in
          elim (Bool-cases (file_name_matches_pattern (file_name_to_insert n) pattern_)) [
            | inr other ↦ rw other (next-Presents rest (p + 1) buffer status next a)
            | inl same ↦ elim answer [
              | inl gone ↦
                  rw (same, parent, gone)
                    (next-Presents rest (p + 1) (answer_for n directory).1 status next a)
              | inr (there, good, full) ↦
                  let given = named n (answer_for n directory).1 in
                  let (name, small) = named-name n (answer_for n directory).1 wide room full in
                  let (q', found, after) = next-Presents rest (p + 1) given more_entries next a in
                  let size_fits : size_of_struct l given 0 ≤ length given = omega (
                    arith,
                    small,
                    full,
                    length-write_file_name l (answer_for n directory).1 0 (file_name_to_insert n)
                        bytes_per_buffer,
                  ) in
                  rw (same, parent, there, good)
                    (
                      queue_at (p + 1) given more_entries,
                      refl,
                      (
                        refl,
                        name,
                        sym (length-take (size_of_struct l given 0) given size_fits),
                        λ capacity. take-take capacity (size_of_struct l given 0) given,
                        (q', rw next found, after),
                      ),
                    )
            ]
          ]

  -- If the system answers each query for a directory that a name stands for with a structure, in
  -- which there is room for the name, or with a status for what is not there, the queue presents
  -- the names that match the pattern, in upper case, and whose directories are there, in the order
  -- of the instruction. Each structure is the one that the system gave, with the name written in.
  pub new_insertion_queue-Presents :
      (ns : List SingleDirectoryNameInsertion) (query_file_pattern : Text)
      → layout_for_file_information_class c ≡ some l
      → AreAnswered ns
      → (q : NameInsertionQueue) × (new_name_insertion_queue query ns c query_file_pattern ≡ some q)
        × Presents (insertion_operations query) q (inserted (map i.to_upper query_file_pattern) ns)
  unfolding new_name_insertion_queue restart_insertions advance_insertions inserted
  new_insertion_queue-Presents [] s known a =
      (initial_insertions [] c l no_more_files, ground (arith, known), refl)
  new_insertion_queue-Presents (n ∷ ns) [] known a =
      let (q', found, presents) =
        next-Presents (layout-IsRegular c l known) [] (n ∷ ns) (n ∷ ns) 0 [] 0 refl a in
      (q', ground (arith, known, found), presents)
  new_insertion_queue-Presents (n ∷ ns) (d ∷ s) known a =
      let (q', found, presents) =
        next-Presents (layout-IsRegular c l known) (map i.to_upper (d ∷ s)) (n ∷ ns) (n ∷ ns) 0 [] 0
          refl a in
      (q', ground (arith, known, found), presents)
