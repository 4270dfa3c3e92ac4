-- ===== src/Queue/Enumeration.antt =====
-- EnumerationQueue: the contents of one directory, without the names that the instruction leaves out.
pub mod Batches
pub mod Contents
use pathwinder.Base.{
  ℕ, zero, suc, ◌+◌, ◌%◌, ◌^◌, Bool, true, false, not, ◌&&◌, List, [], ◌∷◌, Option, none, some,
  ◌==◌, take, drop, ltb, if◌then◌else◌,
}
use pathwinder.Text.{Text}
use pathwinder.Infra.{Infra}
use pathwinder.Windows.{
  ValueOrError, value, error, nt_success, more_entries, no_more_files, invalid_info_class,
}
use pathwinder.Instruction.{SingleDirectoryEnumeration, should_include_in_directory_enumeration}
use pathwinder.FileInformation.{
  Bytes, FileInformationStructLayout, layout_for_file_information_class, read_next_entry_offset,
  read_file_name, size_of_struct,
}
use pathwinder.Queue.{DirectoryOperationQueue, is_not_there}

-- kBytesPerBuffer.
abbrev pub bytes_per_buffer : ℕ
bytes_per_buffer = 65536

-- kInvalidEnumerationBufferBytePosition.
abbrev invalid_byte_position : ℕ
invalid_byte_position = 0xffffffff

-- FilesystemOperations::OpenDirectoryForEnumeration and PartialEnumerateDirectoryContents. A handle
-- is the state of the scan that belongs to it. The second takes the class, the capacity of the
-- buffer, whether to restart the scan, and a pattern.
pub record DirectorySystem (Handle : Type 0) : Type 0 where
  pub open_directory_for_enumeration : Text → ValueOrError Handle
  pub partial_enumerate_directory_contents : Handle → ℕ → ℕ → Bool → Text → ℕ × Bytes × Handle

pub record EnumerationQueue (Handle : Type 0) : Type 0 where
  pub match_instruction : SingleDirectoryEnumeration
  pub directory_handle : Option Handle
  pub file_information_class : ℕ
  pub file_information_struct_layout : FileInformationStructLayout
  pub enumeration_buffer : Bytes
  pub enumeration_buffer_byte_position : ℕ
  pub status : ℕ

abbrev pub no_layout : FileInformationStructLayout
no_layout = record {
  file_information_class = 0;
  structure_base_size_bytes = 0;
  offset_of_next_entry_offset = 0;
  offset_of_file_name_length = 0;
  offset_of_file_name = 0;
}

-- The members as the constructor initialises them, with a handle and a status.
abbrev pub started :
    {Handle : Type 0}
    → SingleDirectoryEnumeration
    → ℕ
    → FileInformationStructLayout
    → Option Handle
    → ℕ
    → EnumerationQueue Handle
started instruction class_number layout handle status = record {
  match_instruction = instruction;
  directory_handle = handle;
  file_information_class = class_number;
  file_information_struct_layout = layout;
  enumeration_buffer = [];
  enumeration_buffer_byte_position = 0;
  status = status;
}

module _ ⦃i : Infra⦄ {Handle : Type 0} (system : DirectorySystem Handle) where
  -- What AdvanceQueueContentsInternal does with the answer of the system.
  unfoldable pub take_batch : EnumerationQueue Handle → ℕ × Bytes × Handle → EnumerationQueue Handle
  take_batch q (result, buffer, handle) =
      if nt_success result
      then record q {
        directory_handle = some handle;
        enumeration_buffer = buffer;
        enumeration_buffer_byte_position = 0;
        status = more_entries;
      }
      else record q {
        directory_handle = some handle;
        enumeration_buffer = buffer;
        enumeration_buffer_byte_position = invalid_byte_position;
        status = result;
      }

  unfoldable pub advance_queue_contents :
      EnumerationQueue Handle → Bool → Text → EnumerationQueue Handle
  unfolding take_batch
  advance_queue_contents q restart_scan file_pattern = elim q.directory_handle [
    | none ↦ record q {
      enumeration_buffer_byte_position = invalid_byte_position;
      status = no_more_files;
    }
    | some handle ↦ take_batch q (
        system.partial_enumerate_directory_contents handle q.file_information_class bytes_per_buffer
          restart_scan file_pattern)
  ]

  -- FileNameOfFront, SizeOfFront and CopyFront.
  unfoldable pub front_name : EnumerationQueue Handle → Text
  front_name q =
      read_file_name q.file_information_struct_layout q.enumeration_buffer
        q.enumeration_buffer_byte_position

  unfoldable pub front_size : EnumerationQueue Handle → ℕ
  front_size q =
      size_of_struct q.file_information_struct_layout q.enumeration_buffer
        q.enumeration_buffer_byte_position

  unfoldable pub front_copy : EnumerationQueue Handle → ℕ → Bytes
  unfolding front_size
  front_copy q capacity_bytes =
      take (if ltb capacity_bytes (front_size q) then capacity_bytes else front_size q)
        (drop q.enumeration_buffer_byte_position q.enumeration_buffer)

  -- PopFrontInternal.
  unfoldable pub pop_one : EnumerationQueue Handle → EnumerationQueue Handle
  unfolding read_next_entry_offset advance_queue_contents
  pop_one q =
      let increment =
        read_next_entry_offset q.file_information_struct_layout q.enumeration_buffer
          q.enumeration_buffer_byte_position in
      if increment == 0 then advance_queue_contents q false [] else record q {
        enumeration_buffer_byte_position =
            (q.enumeration_buffer_byte_position + increment) % 2 ^ 32;
      }

  -- SkipNonMatchingItemsInternal.
  unfoldable pub skip_non_matching : ℕ → EnumerationQueue Handle → Option (EnumerationQueue Handle)
  unfolding pop_one front_name should_include_in_directory_enumeration
  skip_non_matching zero q = none
  skip_non_matching (suc fuel) q =
      elim (nt_success q.status
        && not (should_include_in_directory_enumeration q.match_instruction (front_name q))) [
          | true ↦ skip_non_matching fuel (pop_one q)
          | false ↦ some q
        ]

  unfoldable pub pop_matching : ℕ → EnumerationQueue Handle → Option (EnumerationQueue Handle)
  unfolding skip_non_matching
  pop_matching fuel q = skip_non_matching fuel (pop_one q)

  unfoldable pub restart_scan_of :
      ℕ → EnumerationQueue Handle → Text → Option (EnumerationQueue Handle)
  unfolding skip_non_matching advance_queue_contents
  restart_scan_of fuel q file_pattern =
      skip_non_matching fuel (advance_queue_contents q true file_pattern)

  -- The constructor.
  unfoldable pub new_enumeration_queue :
      ℕ → SingleDirectoryEnumeration → Text → ℕ → Text → Option (EnumerationQueue Handle)
  unfolding restart_scan_of is_not_there
  new_enumeration_queue fuel instruction path class_number file_pattern =
      elim (layout_for_file_information_class class_number) [
        | none ↦ some (started instruction class_number no_layout none invalid_info_class)
        | some layout ↦ elim (system.open_directory_for_enumeration path) [
          | error e ↦
              if is_not_there e
              then restart_scan_of fuel (started instruction class_number layout none 0)
                  file_pattern
              else some (started instruction class_number layout none e)
          | value handle ↦
              restart_scan_of fuel (started instruction class_number layout (some handle) 0)
                file_pattern
        ]
      ]

  abbrev pub enumeration_operations : ℕ → DirectoryOperationQueue (EnumerationQueue Handle)
  enumeration_operations fuel = record {
    copy_front = front_copy;
    enumeration_status = λ q. q.status;
    file_name_of_front = front_name;
    pop_front = pop_matching fuel;
    restart = restart_scan_of fuel;
    size_of_front = front_size;
  }
