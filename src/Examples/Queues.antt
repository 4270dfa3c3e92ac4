-- ===== src/Examples/Queues.antt =====
-- Buffers and queues with one or two names, and instances of the theorems on them.
use mathlib.Core.List.{Perm}
use Prim.Native.Nat.{◌/◌}
use pathwinder.Base.{
  ℕ, suc, zero, ◌-◌, ◌<◌, ◌≡◌, refl, inr, Bool, true, false, not, ◌||◌, List, [], ◌∷◌, ◌++◌, some,
  arith, if◌then◌else◌, length, take, drop, replicate, map, is_empty, none, ◌*◌,
}
use pathwinder.Infra.{ascii}
use pathwinder.Windows.{success, more_entries, no_more_files, value}
use pathwinder.Rule.{get_target_directory_parent, get_origin_directory_name}
use pathwinder.Instruction.{
  SingleDirectoryEnumeration, SingleDirectoryNameInsertion, include_all_filenames, associated_path,
  file_name_to_insert,
}
use pathwinder.FileInformation.{
  Bytes, FileInformationStructLayout, layout_for_file_information_class, find_layout,
  read_file_name, read_file_name_length, read_next_entry_offset, size_of_struct, write_file_name,
  hypothetical_size_for_file_name_length, read_number, number_of, characters_of,
}
use pathwinder.FileInformation.Structures.{structure_size, offset_of}
use pathwinder.FileInformation.Names.{IsRegular, layout-IsRegular, write_file_name_round_trip}
use pathwinder.Queue.{DirectoryOperationQueue, FileInformation, Presents, is_not_there}
use pathwinder.Queue.Enumeration.{
  DirectorySystem, EnumerationQueue, new_enumeration_queue, enumeration_operations,
}
use pathwinder.Queue.Enumeration.Contents.{included, new_queue-Presents}
use pathwinder.Queue.Enumeration.Batches.{concat}
use pathwinder.Queue.NameInsertion.{
  directory_information_source_directory_part, SingleFileQuery, NameInsertionQueue,
  new_name_insertion_queue, insertion_operations,
}
use pathwinder.Queue.NameInsertion.Contents.{inserted, new_insertion_queue-Presents}
use pathwinder.Queue.Merged.{new_merged_queue, merged_operations}
use pathwinder.Queue.Merged.Selection
use pathwinder.Queue.Merged.Selection.{AreSorted}
use pathwinder.Queue.Merged.Merge.{merged-Presents}
use pathwinder.Executor.Advance.{
  Enumeration, Advanced, advance_directory_enumeration, is_enumerated,
}
use pathwinder.FileInformation.Copies.{encoded}
use pathwinder.Executor.Advance.Names.{unique, IsFresh, names_with, total_size, structures}
use pathwinder.Executor.Advance.Delivery.{StopsAt, advance_delivers}
use pathwinder.Examples.Data.{text, text_rule}

-- SFileNamesInformation.
abbrev pub names_layout : FileInformationStructLayout
names_layout = record {
  file_information_class = 12;
  structure_base_size_bytes = 16;
  offset_of_next_entry_offset = 0;
  offset_of_file_name_length = 8;
  offset_of_file_name = 12;
}

pub known : layout_for_file_information_class 12 ≡ some names_layout
unfolding layout_for_file_information_class find_layout structure_size offset_of
known = refl

layout-IsRegular_example : IsRegular names_layout
layout-IsRegular_example = layout-IsRegular 12 names_layout known

-- The name ab goes whole into 20 bytes.
write_file_name_round_trip_example :
    let written = take ((20 - 12) / 2) (text "ab") in
    let m = write_file_name names_layout (replicate 20 0) 0 (text "ab") 20 in
    (read_file_name names_layout m 0 ≡ written)
    × (size_of_struct names_layout m 0
        ≡ hypothetical_size_for_file_name_length names_layout (length written * 2))
    × (read_next_entry_offset names_layout m 0 ≡ size_of_struct names_layout m 0)
write_file_name_round_trip_example =
    write_file_name_round_trip names_layout (layout-IsRegular 12 names_layout known)
      (replicate 20 0) 0 (text "ab") 20 (omega arith) (omega arith) (omega arith)
      (omega arith, (omega arith, tt))

-- An entry whose name is one letter.
abbrev pub entry : ℕ → ℕ → Bytes
entry next c = next ∷ 0 ∷ 0 ∷ 0 ∷ 0 ∷ 0 ∷ 0 ∷ 0 ∷ 2 ∷ 0 ∷ 0 ∷ 0 ∷ c ∷ 0 ∷ 0 ∷ 0 ∷ []

abbrev pub a_item : FileInformation
a_item = record { file_name = text "a"; structure = entry 16 97 }

abbrev pub b_item : FileInformation
b_item = record { file_name = text "b"; structure = entry 0 98 }

-- A directory with a and b. The state of the scan says whether they were given.
abbrev pub two_names : DirectorySystem Bool
two_names = record {
  open_directory_for_enumeration = λ path. value false;
  partial_enumerate_directory_contents = λ given c capacity restart file_pattern.
      if restart || not given
      then (success, entry 16 97 ++ entry 0 98, true)
      else (no_more_files, [], true);
}

abbrev pub all_names : SingleDirectoryEnumeration
all_names = include_all_filenames associated_path

new_queue-Presents_example :
    (q : EnumerationQueue Bool) × (new_enumeration_queue ⦃i = ascii⦄ two_names 5 all_names
        (text "C:\\g")
        12
        []
      ≡ some q)
    × Presents
        (enumeration_operations ⦃i = ascii⦄ two_names 5)
        q
        (included ⦃i = ascii⦄ all_names (concat ((a_item ∷ b_item ∷ []) ∷ [])))
unfolding read_file_name read_file_name_length read_next_entry_offset size_of_struct read_number
    number_of characters_of hypothetical_size_for_file_name_length
new_queue-Presents_example =
    new_queue-Presents ⦃i = ascii⦄ two_names 5 all_names (text "C:\\g") 12 [] names_layout false
      ((a_item ∷ b_item ∷ []) ∷ []) known refl
      (refl, ((refl, refl, refl), refl, ((refl, refl, refl), refl)), refl) (omega arith)

abbrev insertion_of_text_rule : SingleDirectoryNameInsertion
insertion_of_text_rule = record { filesystem_rule = text_rule }

-- A buffer of zeros.
abbrev pub zeros : SingleFileQuery
zeros directory file c capacity = (success, replicate 65536 0)

length-replicate : (n : ℕ) → length {A = ℕ} (replicate n 0) ≡ n
length-replicate zero = refl
length-replicate (suc n) = omega (arith, length-replicate n)

new_insertion_queue-Presents_example :
    (q : NameInsertionQueue) × (new_name_insertion_queue ⦃i = ascii⦄ zeros
        (insertion_of_text_rule ∷ [])
        12
        []
      ≡ some q)
    × Presents (insertion_operations ⦃i = ascii⦄ zeros) q (
        inserted ⦃i = ascii⦄ zeros names_layout 12
          (map (ascii.to_upper) [])
          (insertion_of_text_rule ∷ []))
unfolding directory_information_source_directory_part file_name_to_insert is_not_there
    get_target_directory_parent get_origin_directory_name
new_insertion_queue-Presents_example =
    new_insertion_queue-Presents ⦃i = ascii⦄ zeros names_layout 12 (insertion_of_text_rule ∷ []) []
      known
      (
        (text "D:", refl, (omega arith, tt), omega arith, inr (refl, refl, length-replicate 65536)),
        tt,
      )

abbrev front_of : List FileInformation → FileInformation
front_of [] = record { file_name = []; structure = [] }
front_of (x ∷ xs) = x

-- A queue that is the list of what it gives.
abbrev list_queue : DirectoryOperationQueue (List FileInformation)
list_queue = record {
  copy_front = λ q capacity. take capacity (front_of q).structure;
  enumeration_status = λ q. if is_empty q then no_more_files else more_entries;
  file_name_of_front = λ q. (front_of q).file_name;
  pop_front = λ q. some (drop 1 q);
  restart = λ q file_pattern. some q;
  size_of_front = λ q. length (front_of q).structure;
}

merged-Presents_example :
    (xs : List FileInformation) × Presents
      (merged_operations ⦃i = ascii⦄ list_queue)
      (new_merged_queue ⦃i = ascii⦄ list_queue
        (some (b_item ∷ []) ∷ none ∷ some (a_item ∷ b_item ∷ []) ∷ []))
      xs
    × Perm (Selection.concat ((b_item ∷ []) ∷ [] ∷ (a_item ∷ b_item ∷ []) ∷ [])) xs
    × AreSorted ⦃i = ascii⦄ xs
unfolding ascii
merged-Presents_example =
    merged-Presents ⦃i = ascii⦄ list_queue
      (some (b_item ∷ []) ∷ none ∷ some (a_item ∷ b_item ∷ []) ∷ [])
      ((b_item ∷ []) ∷ [] ∷ (a_item ∷ b_item ∷ []) ∷ [])
      (
        (refl, refl, refl, λ capacity. refl, ([], refl, refl)),
        (
          (
            refl,
            refl,
            refl,
            λ capacity. refl,
            (b_item ∷ [], refl, (refl, refl, refl, λ capacity. refl, ([], refl, refl))),
          ),
          tt,
        ),
      )
      (tt, (tt, ((refl, tt), tt)))

-- The enumeration of a, with b given before.
abbrev half_way : Enumeration (List FileInformation)
half_way = record {
  queue = some (a_item ∷ b_item ∷ []);
  file_information_struct_layout = names_layout;
  enumerated_filenames = text "b" ∷ [];
  is_first_invocation = false;
}

advance_delivers_example :
    (a : Advanced (List FileInformation)) × (q' : List FileInformation) × (written : List
      FileInformation)
    × (rest : List FileInformation) × (advance_directory_enumeration ⦃i = ascii⦄ list_queue 5
          half_way
          (a_item ∷ b_item ∷ [])
          (replicate 40 0)
          40
          0
        ≡ some a)
    × (a.status ≡ success)
    × (0 < length written)
    × (a.information ≡ total_size written)
    × (take (total_size written) a.output ≡ encoded names_layout (structures written))
    × (a.enumeration ≡ record half_way {
      queue = some q';
      enumerated_filenames = names_with (text "b" ∷ []) written;
      is_first_invocation = false;
    })
    × Presents list_queue q' rest
    × (unique ⦃i = ascii⦄ (text "b" ∷ []) (a_item ∷ b_item ∷ [])
        ≡ written ++ unique ⦃i = ascii⦄ (names_with (text "b" ∷ []) written) rest)
    × IsFresh ⦃i = ascii⦄ (names_with (text "b" ∷ []) written) rest
    × StopsAt 40 0 written rest
unfolding is_enumerated ascii size_of_struct read_file_name_length read_number number_of
    hypothetical_size_for_file_name_length
advance_delivers_example =
    advance_delivers ⦃i = ascii⦄ list_queue 5 40 0 half_way (a_item ∷ b_item ∷ []) (replicate 40 0)
      a_item (b_item ∷ [])
      (
        refl,
        refl,
        refl,
        λ capacity. refl,
        (b_item ∷ [], refl, (refl, refl, refl, λ capacity. refl, ([], refl, refl))),
      )
      refl (omega arith) (omega arith)
      (
        record { has_length = omega arith; tells_size = refl },
        (record { has_length = omega arith; tells_size = refl }, tt),
      )
      (omega arith)
