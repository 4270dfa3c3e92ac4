-- ===== src/FileInformation/Names.antt =====
-- Reading back the file name that was written into a file information structure.
use Prim.Native.Nat.{◌/◌}
use pathwinder.Base.{
  ℕ, ◌+◌, ◌-◌, ◌*◌, ◌^◌, ◌≤◌, ◌<◌, ◌≡◌, sym, ap, ◌∙◌, List, [], ◌∷◌, some, length, take, drop,
  arith,
}
use pathwinder.Text.{Text}
use pathwinder.FileInformation.Structures.{structure_size, offset_of}
use pathwinder.FileInformation.{
  Bytes, bytes_of, write_bytes, characters_of, bytes_of_text, FileInformationStructLayout,
  known_layouts, find_layout, layout_for_file_information_class,
  hypothetical_size_for_file_name_length, read_next_entry_offset, read_file_name_length,
  read_file_name, size_of_struct, update_next_entry_offset, write_file_name_length_internal,
  write_file_name_internal, write_file_name,
}
use pathwinder.FileInformation.Memory.{
  length-write, read-write, length-bytes_of, read_number-write, read_number-write_behind,
  drop-write_behind, AreWide, characters_of-bytes_of_text, length-bytes_of_text, AreWide-take,
  length-take-le,
}

-- The next entry offset, the length of the file name and the file name follow one another, and the
-- name starts within the fixed part.
pub record IsRegular (l : FileInformationStructLayout) : Type 0 where
  pub next_first : l.offset_of_next_entry_offset + 4 ≤ l.offset_of_file_name_length
  pub length_second : l.offset_of_file_name_length + 4 ≤ l.offset_of_file_name
  pub name_within : l.offset_of_file_name + 2 ≤ l.structure_base_size_bytes
  pub small : l.structure_base_size_bytes ≤ 120

AreRegular : List FileInformationStructLayout → Type 0
AreRegular [] = Unit
AreRegular (l ∷ ls) = IsRegular l × AreRegular ls

known_layouts-AreRegular : AreRegular known_layouts
unfolding AreRegular structure_size offset_of
known_layouts-AreRegular = omega arith

find-IsRegular :
    (c : ℕ) (ls : List FileInformationStructLayout) (l : FileInformationStructLayout)
    → AreRegular ls
    → find_layout c ls ≡ some l
    → IsRegular l
unfolding find_layout AreRegular
find-IsRegular c [] l regular found = cc
find-IsRegular c (k ∷ ks) l regular found = ground (arith, find-IsRegular c ks l regular.1)

-- In each of the structures that a class of file information stands for, the field of the file name
-- follows that of its length, and that follows the offset of the next entry.
pub layout-IsRegular :
    (c : ℕ) (l : FileInformationStructLayout)
    → layout_for_file_information_class c ≡ some l
    → IsRegular l
unfolding layout_for_file_information_class
layout-IsRegular c l found = find-IsRegular c known_layouts l known_layouts-AreRegular found

size-lt :
    (l : FileInformationStructLayout) (n : ℕ)
    → IsRegular l
    → hypothetical_size_for_file_name_length l n < 2 ^ 32
unfolding hypothetical_size_for_file_name_length
size-lt l n regular = ground (arith, regular.small)

module _ (l : FileInformationStructLayout) (regular : IsRegular l) (m : Bytes) (p : ℕ) (name : Text)
    (capacity : ℕ) (room : p + capacity ≤ length m) (fixed : l.offset_of_file_name ≤ capacity)
    (bounded : capacity < 2 ^ 32) (wide : AreWide name) where
  abbrev written : Text
  written = take ((capacity - l.offset_of_file_name) / 2) name

  abbrev with_name : Bytes
  with_name = write_bytes m (p + l.offset_of_file_name) (bytes_of_text written)

  abbrev with_length : Bytes
  with_length =
      write_bytes with_name (p + l.offset_of_file_name_length) (bytes_of 4 (length written * 2))

  written_fits : length written * 2 ≤ capacity - l.offset_of_file_name
  written_fits = omega (arith, length-take-le ((capacity - l.offset_of_file_name) / 2) name)

  -- The last of the three writes.
  abbrev finished : ℕ → Bytes
  finished size = write_bytes with_length (p + l.offset_of_next_entry_offset) (bytes_of 4 size)

  length-written : read_file_name_length l with_length p ≡ length written * 2
  unfolding read_file_name_length
  length-written =
      read_number-write with_name (p + l.offset_of_file_name_length) (length written * 2)
        (omega (
          arith,
          regular.length_second,
          length-write m (p + l.offset_of_file_name) (bytes_of_text written),
        ))
        (omega (arith, written_fits))

  -- The length is read behind the last write, the name behind the last two.
  finished-length : (size : ℕ) → read_file_name_length l (finished size) p ≡ length written * 2
  unfolding read_file_name_length
  finished-length size =
      read_number-write_behind with_length (p + l.offset_of_next_entry_offset) size
        (p + l.offset_of_file_name_length) 4 (omega (arith, regular.next_first))
      ∙ length-written

  finished_name : (size : ℕ) → read_file_name l (finished size) p ≡ written
  unfolding read_file_name
  finished_name size =
      let name_at = p + l.offset_of_file_name in
      let bytes = bytes_of_text written in
      let count : read_file_name_length l (finished size) p / 2 * 2 ≡ length bytes =
        omega (arith, finished-length size, length-bytes_of_text written) in
      let behind : drop name_at (finished size) ≡ drop name_at with_name =
        drop-write_behind with_length (p + l.offset_of_next_entry_offset) (bytes_of 4 size) name_at
          (omega (arith, regular.next_first, regular.length_second, length-bytes_of 4 size))
        ∙ drop-write_behind with_name (p + l.offset_of_file_name_length)
            (bytes_of 4 (length written * 2)) name_at
            (omega (arith, regular.length_second, length-bytes_of 4 (length written * 2))) in
      rw (count, behind)
        (ap characters_of
            (read-write m name_at bytes (omega (arith, written_fits, length-bytes_of_text written)))
          ∙ characters_of-bytes_of_text written
              (AreWide-take ((capacity - l.offset_of_file_name) / 2) name wide))

  finished_next : (size : ℕ) → size < 2 ^ 32 → read_next_entry_offset l (finished size) p ≡ size
  unfolding read_next_entry_offset
  finished_next size small =
      read_number-write with_length (p + l.offset_of_next_entry_offset) size
        (omega (
          arith,
          regular.next_first,
          regular.length_second,
          length-write m (p + l.offset_of_file_name) (bytes_of_text written),
          length-write with_name (p + l.offset_of_file_name_length)
              (bytes_of 4 (length written * 2)),
        ))
        small

  -- A file name that is written into a structure, cut to the room that the capacity leaves for it,
  -- is the file name that is read; the offset of the next entry is the size of the structure, which
  -- is that for a name of this length.
  pub write_file_name_round_trip :
      let written' = take ((capacity - l.offset_of_file_name) / 2) name in
      let m' = write_file_name l m p name capacity in
      (read_file_name l m' p ≡ written')
      × (size_of_struct l m' p ≡ hypothetical_size_for_file_name_length l (length written' * 2))
      × (read_next_entry_offset l m' p ≡ size_of_struct l m' p)
  unfolding write_file_name write_file_name_internal write_file_name_length_internal
      update_next_entry_offset size_of_struct
  write_file_name_round_trip =
      let size = size_of_struct l with_length p in
      let small : size < 2 ^ 32 = size-lt l (read_file_name_length l with_length p) regular in
      let kept : size_of_struct l (finished size) p
          ≡ hypothetical_size_for_file_name_length l (length written * 2) =
        ap (hypothetical_size_for_file_name_length l) (finished-length size) in
      let before : size ≡ hypothetical_size_for_file_name_length l (length written * 2) =
        ap (hypothetical_size_for_file_name_length l) length-written in
      (finished_name size, kept, finished_next size small ∙ before ∙ sym kept)

pub length-write_file_name :
    (l : FileInformationStructLayout) (m : Bytes) (p : ℕ) (name : Text) (capacity : ℕ)
    → length (write_file_name l m p name capacity) ≡ length m
unfolding write_file_name write_file_name_internal write_file_name_length_internal
    update_next_entry_offset
length-write_file_name l m p name capacity =
    length-write _ _ _ ∙ length-write _ _ _ ∙ length-write m _ _
