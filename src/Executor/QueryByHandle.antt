-- ===== src/Executor/QueryByHandle.antt =====
-- QueryByHandle and CloseHandle of FilesystemExecutor.cpp: asking for the name of an open file, and
-- closing it.
pub mod Name
use pathwinder.Base.{
  ℕ, ◌+◌, ◌-◌, ◌*◌, ◌%◌, ◌^◌, Bool, true, false, ◌||◌, Option, none, some, ◌==◌, ltb, length,
  if◌then◌else◌,
}
use pathwinder.Text.{Text}
use pathwinder.Windows.{nt_success, success, buffer_overflow}
use pathwinder.FileInformation.{
  Bytes, FileInformationStructLayout, read_file_name_length, write_file_name_internal,
  write_file_name_length_internal,
}
use pathwinder.OpenHandleStore.{
  HandleData, OpenHandleStore, get_data_for_handle, remove_and_close_handle,
}

-- The fields of SFileNameInformation. It has no offset of a next entry.
abbrev pub file_name_information : FileInformationStructLayout
file_name_information = record {
  file_information_class = 9;
  structure_base_size_bytes = 8;
  offset_of_next_entry_offset = 0;
  offset_of_file_name_length = 0;
  offset_of_file_name = 4;
}

-- Where it stands in the structure of a class: SFileNameInformation itself, also for the normalized
-- name, and the last field of SFileAllInformation.
unfoldable pub file_name_information_position : ℕ → Option ℕ
file_name_information_position c =
    if c == 9 || c == 48 then some 0 else if c == 18 then some 96 else none

-- The status that is returned, the two fields of the I/O status block, and the buffer.
pub record Queried : Type 0 where
  pub status : ℕ
  pub information : ℕ
  pub io_status : ℕ
  pub buffer : Bytes

-- A size_t has 64 bits.
abbrev pub minus_64 : ℕ → ℕ → ℕ
minus_64 a b = (2 ^ 64 + a - b) % 2 ^ 64

-- The fields of the I/O status block, by the new and the old length of the name in bytes and the
-- capacity for it.
unfoldable pub with_new_length : ℕ → ℕ → ℕ → ℕ → ℕ → Bytes → Queried
with_new_length buffer_length capacity old_length new_length information buffer =
    if ltb capacity new_length
    then record {
      status = buffer_overflow;
      information = buffer_length;
      io_status = buffer_overflow;
      buffer = buffer;
    }
    else record {
      status = success;
      information =
          if ltb capacity old_length
          then minus_64 information (capacity - new_length)
          else if ltb old_length new_length
          then (information + (new_length - old_length)) % 2 ^ 64
          else minus_64 information (old_length - new_length);
      io_status = success;
      buffer = buffer;
    }

-- The name in the buffer is replaced, where it stands at a position.
unfoldable pub replace_name : ℕ → ℕ → Text → Queried → Queried
unfolding with_new_length
replace_name buffer_length p name answer =
    let available = minus_64 buffer_length p in
    let written =
      write_file_name_internal file_name_information answer.buffer p name (available % 2 ^ 32) in
    with_new_length buffer_length (available - 4)
      (read_file_name_length file_name_information answer.buffer p) (length name * 2)
      answer.information
      (write_file_name_length_internal file_name_information written p (length name * 2 % 2 ^ 32))

module _ {Queue Layout : Type 0} where
  -- `answer` is what the underlying system call leaves, and `transform` is the function that makes
  -- a name of the associated path.
  unfoldable pub query_by_handle :
      OpenHandleStore Queue Layout → ℕ → ℕ → ℕ → (Text → Text) → Queried → Queried
  unfolding file_name_information_position replace_name
  query_by_handle s h buffer_length c transform answer =
      if answer.status == buffer_overflow || nt_success answer.status
      then (elim (file_name_information_position c) [
        | none ↦ answer
        | some p ↦
            if ltb (minus_64 buffer_length p) 8 then answer else elim (get_data_for_handle s h) [
              | none ↦ answer
              | some entry ↦ replace_name buffer_length p (transform entry.associated_path) answer
            ]
      ])
      else answer

  -- CloseHandle: the status and the store. `close` is the system's function. `none` is where
  -- RemoveAndCloseHandle has no result.
  unfoldable pub close_handle :
      (ℕ → ℕ) → OpenHandleStore Queue Layout → ℕ → Option (OpenHandleStore Queue Layout × ℕ)
  unfolding remove_and_close_handle
  close_handle close s h = elim (get_data_for_handle s h) [
    | none ↦ some (s, close h)
    | some entry ↦ elim (remove_and_close_handle close s h) [
      | none ↦ none
      | some (t, removed, status) ↦ some (t, status)
    ]
  ]
