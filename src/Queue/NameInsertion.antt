-- ===== src/Queue/NameInsertion.antt =====
-- NameInsertionQueue: the directory names that an instruction inserts into an enumeration.
pub mod Contents
use pathwinder.Base.{
  ℕ, ◌+◌, Bool, true, false, List, [], ◌∷◌, Option, none, some, take, drop, ltb, map, is_empty,
  if◌then◌else◌,
}
use pathwinder.Text.{Text}
use pathwinder.Infra.{Infra}
use pathwinder.Windows.{nt_success, more_entries, no_more_files, invalid_info_class}
use pathwinder.Strings.{file_name_matches_pattern}
use pathwinder.Rule.{get_target_directory_name, get_target_directory_parent}
use pathwinder.Instruction.{SingleDirectoryNameInsertion, file_name_to_insert}
use pathwinder.FileInformation.{
  Bytes, FileInformationStructLayout, layout_for_file_information_class, read_file_name,
  size_of_struct, write_file_name,
}
use pathwinder.Queue.{DirectoryOperationQueue, is_not_there}
use pathwinder.Queue.Enumeration.{bytes_per_buffer, no_layout}

-- DirectoryInformationSourceDirectoryPart, `none` where the rule's function has no defined result,
-- and DirectoryInformationSourceFilePart.
unfoldable pub directory_information_source_directory_part :
    SingleDirectoryNameInsertion → Option Text
directory_information_source_directory_part n = get_target_directory_parent n.filesystem_rule

unfoldable pub directory_information_source_file_part : SingleDirectoryNameInsertion → Text
directory_information_source_file_part n = get_target_directory_name n.filesystem_rule

-- FilesystemOperations::QuerySingleFileDirectoryInformation, of a directory, a file name, a class
-- and a capacity: its status and the buffer.
abbrev pub SingleFileQuery : Type 0
SingleFileQuery = Text → Text → ℕ → ℕ → ℕ × Bytes

pub record NameInsertionQueue : Type 0 where
  pub file_pattern : Text
  pub name_insertion_queue : List SingleDirectoryNameInsertion
  pub name_insertion_queue_position : ℕ
  pub file_information_class : ℕ
  pub file_information_struct_layout : FileInformationStructLayout
  pub enumeration_buffer : Bytes
  pub status : ℕ

-- The members as the constructor initialises them, with a status.
abbrev pub initial_insertions :
    List SingleDirectoryNameInsertion → ℕ → FileInformationStructLayout → ℕ → NameInsertionQueue
initial_insertions insertions class_number layout status = record {
  file_pattern = [];
  name_insertion_queue = insertions;
  name_insertion_queue_position = 0;
  file_information_class = class_number;
  file_information_struct_layout = layout;
  enumeration_buffer = [];
  status = status;
}

module _ ⦃i : Infra⦄ (query : SingleFileQuery) where
  -- The loop of AdvanceQueueContentsInternal, over the insertions from the position on.
  unfoldable pub insert_next :
      List SingleDirectoryNameInsertion → NameInsertionQueue → Option NameInsertionQueue
  insert_next [] q = some (record q { status = no_more_files })
  insert_next (n ∷ rest) q =
      let passed = record q {
        name_insertion_queue_position = q.name_insertion_queue_position + 1;
      } in
      elim (file_name_matches_pattern (file_name_to_insert n) q.file_pattern) [
        | false ↦ insert_next rest passed
        | true ↦ elim (directory_information_source_directory_part n) [
          | none ↦ none
          | some directory ↦
              let (result, buffer) =
                query directory (directory_information_source_file_part n) q.file_information_class
                  bytes_per_buffer in
              elim (is_not_there result) [
                | true ↦ insert_next rest (record passed { enumeration_buffer = buffer })
                | false ↦
                    if nt_success result
                    then some (record passed {
                      enumeration_buffer =
                          write_file_name q.file_information_struct_layout buffer 0
                            (file_name_to_insert n) bytes_per_buffer;
                      status = more_entries;
                    })
                    else some (record q { enumeration_buffer = buffer; status = result })
              ]
        ]
      ]

  unfoldable pub advance_insertions : NameInsertionQueue → Option NameInsertionQueue
  unfolding insert_next
  advance_insertions q = insert_next (drop q.name_insertion_queue_position q.name_insertion_queue) q

  unfoldable pub restart_insertions : NameInsertionQueue → Text → Option NameInsertionQueue
  unfolding advance_insertions
  restart_insertions q query_file_pattern =
      if is_empty q.name_insertion_queue
      then some (record q { status = no_more_files })
      else advance_insertions (record q {
        file_pattern =
            if is_empty query_file_pattern
            then q.file_pattern
            else map i.to_upper query_file_pattern;
        name_insertion_queue_position = 0;
      })

  -- The constructor.
  unfoldable pub new_name_insertion_queue :
      List SingleDirectoryNameInsertion → ℕ → Text → Option NameInsertionQueue
  unfolding restart_insertions
  new_name_insertion_queue insertions class_number query_file_pattern =
      elim (layout_for_file_information_class class_number) [
        | none ↦ some (initial_insertions insertions class_number no_layout invalid_info_class)
        | some layout ↦
            restart_insertions (initial_insertions insertions class_number layout 0)
              query_file_pattern
      ]

  unfoldable pub insertion_copy : NameInsertionQueue → ℕ → Bytes
  insertion_copy q capacity_bytes =
      let size = size_of_struct q.file_information_struct_layout q.enumeration_buffer 0 in
      take (if ltb capacity_bytes size then capacity_bytes else size) q.enumeration_buffer

  abbrev pub insertion_operations : DirectoryOperationQueue NameInsertionQueue
  insertion_operations = record {
    copy_front = insertion_copy;
    enumeration_status = λ q. q.status;
    file_name_of_front =
        λ q. read_file_name q.file_information_struct_layout q.enumeration_buffer 0;
    pop_front = advance_insertions;
    restart = restart_insertions;
    size_of_front = λ q. size_of_struct q.file_information_struct_layout q.enumeration_buffer 0;
  }
