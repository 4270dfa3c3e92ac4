-- ===== src/Executor/Advance.antt =====
-- Advancing a directory enumeration: AdvanceDirectoryEnumerationOperation and
-- DirectoryEnumerationAdvance of FilesystemExecutor.cpp.
pub mod Names
pub mod Rounds
pub mod Loop
pub mod Delivery
use mathlib.Core.Option
use Prim.Native.Nat.{bit_and}
use pathwinder.Base.{
  ℕ, zero, suc, ◌+◌, ◌-◌, ◌*◌, ◌%◌, ◌^◌, Bool, true, false, not, ◌&&◌, ◌||◌, List, [], ◌∷◌, none,
  some, ◌==◌, ltb, if◌then◌else◌, length,
}
use pathwinder.Base.{Option as Maybe}
use pathwinder.Text.{Text}
use pathwinder.Infra.{Infra}
use pathwinder.Windows.{
  ValueOrError, value, error, nt_success, success, pending, more_entries, no_more_files,
  no_such_file, buffer_overflow, invalid_parameter, internal_error,
}
use pathwinder.FileInformation.{
  Bytes, FileInformationStructLayout, write_bytes, clear_next_entry_offset,
  update_next_entry_offset, write_file_name_length,
}
use pathwinder.OpenHandleStore.{InProgressDirectoryEnumeration}
use pathwinder.Queue.{DirectoryOperationQueue}

-- The query flags that the program reads.
abbrev pub sl_restart_scan : ℕ
sl_restart_scan = 1

abbrev pub sl_return_single_entry : ℕ
sl_return_single_entry = 2

abbrev pub Enumeration : Type 0 → Type 0
Enumeration Queue = InProgressDirectoryEnumeration Queue FileInformationStructLayout

-- EInputOutputMode.
pub data InputOutputMode : Type 0 where
  unknown asynchronous synchronous count : InputOutputMode

-- FILE_SYNCHRONOUS_IO_ALERT and FILE_SYNCHRONOUS_IO_NONALERT.
abbrev synchronous_io_mask : ℕ
synchronous_io_mask = 0x30

-- `mode` is what FilesystemOperations::QueryFileHandleMode says of the handle.
unfoldable pub get_io_mode_for_handle : ValueOrError ℕ → InputOutputMode
get_io_mode_for_handle (error e) = unknown
get_io_mode_for_handle (value mode) =
    if bit_and mode synchronous_io_mask == 0 then asynchronous else synchronous

-- What an advance leaves: the state of the enumeration, the application's buffer, the number of
-- bytes for the I/O status block, and the status.
pub record Advanced (Queue : Type 0) : Type 0 where
  pub enumeration : Enumeration Queue
  pub output : Bytes
  pub information : ℕ
  pub status : ℕ

-- maxElementsToWrite.
abbrev pub max_elements_of : ℕ → ℕ
max_elements_of query_flags =
    if bit_and query_flags sl_return_single_entry == 0 then 2 ^ 32 - 1 else 1

-- The variables of the loop.
pub record Delivered (Queue : Type 0) : Type 0 where
  pub queue : Queue
  pub filenames : List Text
  pub output : Bytes
  pub bytes_written : ℕ
  pub elements_written : ℕ
  pub last_position : Maybe ℕ
  pub status : ℕ

-- std::set with CaseInsensitiveLessThanComparator: contains.
unfoldable pub is_enumerated : ⦃i : Infra⦄ → List Text → Text → Bool
is_enumerated [] name = false
is_enumerated ⦃i⦄ (n ∷ ns) name = i.equals_case_insensitive n name || is_enumerated ns name

module _ ⦃i : Infra⦄ {Queue : Type 0} (ops : DirectoryOperationQueue Queue) where
  -- The inner loop: names that were already given are passed over.
  unfoldable pub skip_enumerated : ℕ → List Text → Queue → Maybe Queue
  unfolding is_enumerated
  skip_enumerated zero filenames q = none
  skip_enumerated (suc fuel) filenames q =
      elim (nt_success (ops.enumeration_status q)
        && is_enumerated filenames (ops.file_name_of_front q)) [
          | false ↦ some q
          | true ↦ elim (ops.pop_front q) [
            | none ↦ none
            | some q' ↦ skip_enumerated fuel filenames q'
          ]
        ]

  -- One round: the front is copied behind what was written, and the queue moves on to a name that
  -- was not given yet.
  unfoldable pub deliver_front :
      ℕ → FileInformationStructLayout → ℕ → Delivered Queue → Maybe (Delivered Queue)
  unfolding skip_enumerated
  deliver_front fuel layout size d =
      let copied = ops.copy_front d.queue (size - d.bytes_written) in
      let filenames = ops.file_name_of_front d.queue ∷ d.filenames in
      elim (ops.pop_front d.queue) [
        | none ↦ none
        | some popped ↦
            Option.map
              (λ q. record {
                queue = q;
                filenames = filenames;
                output =
                    update_next_entry_offset layout (write_bytes d.output d.bytes_written copied)
                      d.bytes_written;
                bytes_written = d.bytes_written + length copied;
                elements_written = d.elements_written + 1;
                last_position = some d.bytes_written;
                status = ops.enumeration_status q;
              })
              (skip_enumerated fuel filenames popped)
      ]

  -- The outer loop.
  unfoldable pub deliver_loop :
      ℕ → FileInformationStructLayout → ℕ → ℕ → Delivered Queue → Maybe (Delivered Queue)
  unfolding deliver_front
  deliver_loop zero layout size max_elements d = none
  deliver_loop (suc fuel) layout size max_elements d =
      elim (nt_success d.status
        && (ltb d.elements_written max_elements
            && not (ltb (size - d.bytes_written) (ops.size_of_front d.queue)))) [
              | false ↦ some d
              | true ↦ elim (deliver_front fuel layout size d) [
                | none ↦ none
                | some d' ↦ deliver_loop fuel layout size max_elements d'
              ]
            ]

  -- What follows the loop.
  unfoldable pub finish_delivery : Enumeration Queue → Delivered Queue → Advanced Queue
  finish_delivery e d = record {
    enumeration = record e {
      queue = some d.queue;
      enumerated_filenames = d.filenames;
      is_first_invocation = false;
    };
    output = elim d.last_position [
      | none ↦ d.output
      | some p ↦ clear_next_entry_offset e.file_information_struct_layout d.output p
    ];
    information = d.bytes_written;
    status = if d.status == more_entries || d.status == no_more_files then success else d.status;
  }

  -- AdvanceDirectoryEnumerationOperation, for an enumeration whose queue is `q`.
  unfoldable pub advance_directory_enumeration :
      ℕ → Enumeration Queue → Queue → Bytes → ℕ → ℕ → Maybe (Advanced Queue)
  unfolding deliver_loop finish_delivery
  advance_directory_enumeration fuel e q output size query_flags =
      let layout = e.file_information_struct_layout in
      let status = ops.enumeration_status q in
      let continued : Enumeration Queue = record e {
        queue = some q;
        is_first_invocation = false;
      } in
      if not (nt_success status)
      then some (record {
        enumeration = continued;
        output = output;
        information = 0;
        status = if e.is_first_invocation && status == no_more_files then no_such_file else status;
      })
      else if ltb size (ops.size_of_front q)
      then some (record {
        enumeration = continued;
        output =
            write_file_name_length layout
              (clear_next_entry_offset layout (write_bytes output 0 (ops.copy_front q size)) 0) 0
              (length (ops.file_name_of_front q) * 2 % 2 ^ 32);
        information = length (ops.copy_front q size);
        status = buffer_overflow;
      })
      else Option.map (finish_delivery e) (
          deliver_loop fuel layout size (max_elements_of query_flags) (record {
            queue = q;
            filenames = e.enumerated_filenames;
            output = output;
            bytes_written = 0;
            elements_written = 0;
            last_position = none;
            status = status;
          }))

  -- The answer to the application: the status, and what the operation leaves, where it ran. In
  -- asynchronous mode it runs later: then the enumeration is the one that the operation will start
  -- with, and the buffer is as it was.
  pub data AdvanceAnswer : Type 0 where
    answered : ℕ → Maybe (Enumeration Queue) → AdvanceAnswer
    advanced : Advanced Queue → AdvanceAnswer
    submitted : Enumeration Queue → Queue → AdvanceAnswer

  -- DirectoryEnumerationAdvance, on the enumeration of the handle. `submit` says whether the thread
  -- pool takes the operation, and `pattern` is the query file pattern.
  unfoldable pub directory_enumeration_advance :
      ℕ → ValueOrError ℕ → Bool → Enumeration Queue → Bytes → ℕ → ℕ → Text → Maybe AdvanceAnswer
  unfolding get_io_mode_for_handle advance_directory_enumeration
  directory_enumeration_advance fuel mode submit e output size query_flags file_pattern =
      elim e.queue [
        | none ↦ some (answered internal_error none)
        | some q ↦
            let restarted : Maybe (Enumeration Queue × Queue) =
              if bit_and query_flags sl_restart_scan == 0
              then some (e, q)
              else Option.map
                  (λ q'. (
                    record e {
                      queue = some q';
                      enumerated_filenames = [];
                      is_first_invocation = true;
                    },
                    q',
                  ))
                  (ops.restart q file_pattern) in
            elim restarted [
              | none ↦ none
              | some (e', q') ↦ elim (get_io_mode_for_handle mode) [
                | synchronous ↦
                    Option.map advanced
                      (advance_directory_enumeration fuel e' q' output size query_flags)
                | asynchronous ↦
                    if submit
                    then some (submitted e' q')
                    else some (answered internal_error (some e'))
                | _ ↦ some (answered invalid_parameter (some e'))
              ]
            ]
      ]
