-- ===== src/FileInformation.antt =====
-- FileInformationStruct.h and FileInformationStruct.cpp: the file information structures that a
-- directory enumeration fills a buffer with, read and written in the bytes of the buffer.
pub mod Structures
pub mod Memory
pub mod Names
pub mod Copies
use Prim.Native.Nat.{◌/◌}
use pathwinder.Base.{
  ℕ, zero, suc, ◌+◌, ◌-◌, ◌*◌, ◌%◌, ◌^◌, List, [], ◌∷◌, ◌++◌, Option, none, some, ltb, leb, ◌==◌,
  if◌then◌else◌, length, take, drop,
}
use pathwinder.Text.{Text}
use pathwinder.FileInformation.Structures.{
  Field, structure_size, offset_of, file_directory_information, file_full_directory_information,
  file_both_directory_information, file_names_information, file_id_both_directory_information,
  file_id_full_directory_information, file_id_global_tx_directory_information,
  file_id_extd_directory_information, file_id_extd_both_directory_information,
}

abbrev pub Bytes : Type 0
Bytes = List ℕ

-- The bytes of a little-endian number.
unfoldable pub bytes_of : ℕ → ℕ → Bytes
bytes_of zero n = []
bytes_of (suc k) n = n % 256 ∷ bytes_of k (n / 256)

unfoldable pub number_of : Bytes → ℕ
number_of [] = 0
number_of (b ∷ bs) = b + 256 * number_of bs

-- A number of `size` bytes at a position. Reads and writes outside the memory have no defined result;
-- here they stop at its end.
unfoldable pub read_number : Bytes → ℕ → ℕ → ℕ
unfolding number_of
read_number memory position size = number_of (take size (drop position memory))

-- std::memcpy to a position.
unfoldable pub write_bytes : Bytes → ℕ → Bytes → Bytes
write_bytes [] position source = []
write_bytes (b ∷ bs) (suc position) source = b ∷ write_bytes bs position source
write_bytes (b ∷ bs) zero [] = b ∷ bs
write_bytes (b ∷ bs) zero (c ∷ source) = c ∷ write_bytes bs zero source

-- The characters of a wchar_t array, two bytes each.
unfoldable pub characters_of : Bytes → Text
characters_of (low ∷ high ∷ rest) = (low + 256 * high) ∷ characters_of rest
characters_of _ = []

unfoldable pub bytes_of_text : Text → Bytes
bytes_of_text [] = []
bytes_of_text (c ∷ cs) = c % 256 ∷ c / 256 ∷ bytes_of_text cs

pub record FileInformationStructLayout : Type 0 where
  pub file_information_class : ℕ
  pub structure_base_size_bytes : ℕ
  pub offset_of_next_entry_offset : ℕ
  pub offset_of_file_name_length : ℕ
  pub offset_of_file_name : ℕ

-- FILE_INFORMATION_LAYOUT_STRUCT_KEY_VALUE_PAIR_DEFINITION, by the positions of the fields
-- fileNameLength and fileName. nextEntryOffset is the first field.
abbrev layout_of : ℕ → List Field → ℕ → ℕ → FileInformationStructLayout
layout_of class_number fields length_field name_field = record {
  file_information_class = class_number;
  structure_base_size_bytes = structure_size fields;
  offset_of_next_entry_offset = offset_of fields 0;
  offset_of_file_name_length = offset_of fields length_field;
  offset_of_file_name = offset_of fields name_field;
}

abbrev pub known_layouts : List FileInformationStructLayout
known_layouts =
    layout_of 1 file_directory_information 9 10
    ∷ layout_of 2 file_full_directory_information 9 11
    ∷ layout_of 3 file_both_directory_information 9 13
    ∷ layout_of 12 file_names_information 2 3
    ∷ layout_of 37 file_id_both_directory_information 9 14
    ∷ layout_of 38 file_id_full_directory_information 9 12
    ∷ layout_of 50 file_id_global_tx_directory_information 9 13
    ∷ layout_of 60 file_id_extd_directory_information 9 13
    ∷ layout_of 63 file_id_extd_both_directory_information 9 15
    ∷ []

unfoldable pub find_layout :
    ℕ → List FileInformationStructLayout → Option FileInformationStructLayout
find_layout class_number [] = none
find_layout class_number (l ∷ ls) =
    if l.file_information_class == class_number then some l else find_layout class_number ls

unfoldable pub layout_for_file_information_class : ℕ → Option FileInformationStructLayout
unfolding find_layout structure_size offset_of
layout_for_file_information_class class_number = find_layout class_number known_layouts

module _ (l : FileInformationStructLayout) where
  -- An unsigned int has 32 bits.
  unfoldable pub hypothetical_size_for_file_name_length : ℕ → ℕ
  hypothetical_size_for_file_name_length length_bytes =
      let end_of_name = (l.offset_of_file_name + length_bytes) % 2 ^ 32 in
      if ltb l.structure_base_size_bytes end_of_name
      then end_of_name
      else l.structure_base_size_bytes

  unfoldable pub hypothetical_size_for_file_name : Text → ℕ
  unfolding hypothetical_size_for_file_name_length
  hypothetical_size_for_file_name file_name =
      hypothetical_size_for_file_name_length (length file_name * 2 % 2 ^ 32)

  -- A structure stands in the memory from a position on.
  unfoldable pub read_next_entry_offset : Bytes → ℕ → ℕ
  unfolding read_number
  read_next_entry_offset memory p = read_number memory (p + l.offset_of_next_entry_offset) 4

  unfoldable pub read_file_name_length : Bytes → ℕ → ℕ
  unfolding read_number
  read_file_name_length memory p = read_number memory (p + l.offset_of_file_name_length) 4

  unfoldable pub read_file_name : Bytes → ℕ → Text
  unfolding read_file_name_length characters_of
  read_file_name memory p =
      characters_of
        (take (read_file_name_length memory p / 2 * 2) (drop (p + l.offset_of_file_name) memory))

  unfoldable pub size_of_struct : Bytes → ℕ → ℕ
  unfolding hypothetical_size_for_file_name_length read_file_name_length
  size_of_struct memory p = hypothetical_size_for_file_name_length (read_file_name_length memory p)

  unfoldable pub clear_next_entry_offset : Bytes → ℕ → Bytes
  unfolding write_bytes bytes_of
  clear_next_entry_offset memory p =
      write_bytes memory (p + l.offset_of_next_entry_offset) (bytes_of 4 0)

  unfoldable pub update_next_entry_offset : Bytes → ℕ → Bytes
  unfolding write_bytes bytes_of size_of_struct
  update_next_entry_offset memory p =
      write_bytes memory (p + l.offset_of_next_entry_offset) (bytes_of 4 (size_of_struct memory p))

  -- WriteFileNameLengthInternal, and WriteFileNameLength, which updates the next entry offset too.
  unfoldable pub write_file_name_length_internal : Bytes → ℕ → ℕ → Bytes
  unfolding write_bytes bytes_of
  write_file_name_length_internal memory p length_bytes =
      write_bytes memory (p + l.offset_of_file_name_length) (bytes_of 4 length_bytes)

  unfoldable pub write_file_name_length : Bytes → ℕ → ℕ → Bytes
  unfolding update_next_entry_offset write_file_name_length_internal
  write_file_name_length memory p length_bytes =
      update_next_entry_offset (write_file_name_length_internal memory p length_bytes) p

  -- As many characters as the capacity has room for. The capacity covers the fixed part.
  unfoldable pub write_file_name_internal : Bytes → ℕ → Text → ℕ → Bytes
  unfolding write_file_name_length_internal write_bytes bytes_of_text
  write_file_name_internal memory p file_name capacity_bytes =
      let capacity_chars = (capacity_bytes - l.offset_of_file_name) / 2 in
      let written = take capacity_chars file_name in
      write_file_name_length_internal
        (write_bytes memory (p + l.offset_of_file_name) (bytes_of_text written)) p
        (length written * 2)

  unfoldable pub write_file_name : Bytes → ℕ → Text → ℕ → Bytes
  unfolding update_next_entry_offset write_file_name_internal
  write_file_name memory p file_name capacity_bytes =
      update_next_entry_offset (write_file_name_internal memory p file_name capacity_bytes) p
