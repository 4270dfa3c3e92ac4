-- ===== src/Executor/Rename.antt =====
-- RenameByHandle of FilesystemExecutor.cpp: a file that an open handle names gets another path.
pub mod Outcome
use pathwinder.Base.{
  ℕ, zero, suc, ◌+◌, ◌*◌, Bool, true, false, not, ◌&&◌, List, [], ◌∷◌, ◌++◌, Option, none, some,
  ◌==◌, ltb, if◌then◌else◌, is_empty, length,
}
use pathwinder.Text.{Text, backslash}
use pathwinder.Infra.{Infra}
use pathwinder.Windows.{nt_success, object_path_not_found}
use pathwinder.Strings.{path_get_parent_directory, path_begins_with_drive_letter}
use pathwinder.Director.{FileAccessMode, delete_only, create_new_file}
use pathwinder.Instruction.{FileOperationInstruction}
use pathwinder.OpenHandleStore.{OpenHandleStore, get_data_for_handle}
use pathwinder.Windows.{ValueOrError, value, error}
use pathwinder.Executor.{
  FileOperationContext, System, InstructionSource, create_file_operation_context,
  execute_extra_pre_operations, select_file_operations_to_try, should_try_next_filename,
  select_filename_and_update_open_handle,
}

-- SFileRenameInformation: its union, its root directory, and the characters of its file name, as
-- many as its length field says.
pub record FileRenameInformation : Type 0 where
  pub flags : ℕ
  pub root_directory : ℕ
  pub file_name : Text

-- SizeOfStructByType, in a 64-bit process: the name stands at offset 20 of a structure of 24 bytes.
unfoldable pub size_of_rename_information : FileRenameInformation → ℕ
size_of_rename_information information =
    let end_of_name = 20 + length information.file_name * 2 in
    if ltb end_of_name 24 then 24 else end_of_name

-- The call of NtSetInformationFile: its status and the system after it.
abbrev pub RenameCall : Type 0 → Type 0
RenameCall World = World → ℕ → FileRenameInformation → ℕ → ℕ × World

-- A structure to try: the application's, or the redirected one, which is in a local buffer.
pub record RenameStructure : Type 0 where
  pub is_local : Bool
  pub information : FileRenameInformation

-- A view of the name in a structure: its characters while the structure is there.
pub record PathView : Type 0 where
  pub is_local : Bool
  pub characters : Text

-- So many characters from the start of some memory.
unfoldable pub read_memory : (ℕ → ℕ) → ℕ → Text
read_memory memory zero = []
read_memory memory (suc n) = memory 0 ∷ read_memory (λ k. memory (suc k)) n

-- What a view reads as once the block of the loop has ended and the local buffer is destroyed. The
-- view keeps its length, and `freed` is what stands in the memory of the buffer by then.
unfoldable pub read_after_block : (ℕ → ℕ) → PathView → Text
unfolding read_memory
read_after_block freed v =
    if v.is_local then read_memory freed (length v.characters) else v.characters

-- The variables of the loop.
pub record RenameAttempt (World : Type 0) : Type 0 where
  pub world : World
  pub system_call_result : ℕ
  pub last_attempted_path : PathView

pub data RenameLooped (World : Type 0) : Type 0 where
  forced : ℕ → World → RenameLooped World
  attempted : RenameAttempt World → RenameLooped World

pub record Renamed (Queue Layout World : Type 0) : Type 0 where
  pub status : ℕ
  pub store : OpenHandleStore Queue Layout
  pub system : World

module _ ⦃infra : Infra⦄ {Queue Layout : Type 0} where
  -- unredirectedPath: a relative path without a root directory is taken from the directory of the
  -- file, by the path that is stored for its handle or else the one that the system knows.
  -- `query_absolute_path` is FilesystemOperations::QueryAbsolutePathByHandle.
  unfoldable pub unredirected_target :
      (ℕ → Option Text) → OpenHandleStore Queue Layout → ℕ → FileRenameInformation → Text
  unredirected_target query_absolute_path s h information =
      let beside =
        λ (path : Text). path_get_parent_directory path ++ (backslash ∷ information.file_name) in
      if information.root_directory == 0
        && not (path_begins_with_drive_letter information.file_name)
      then elim (get_data_for_handle s h) [
        | some entry ↦ beside entry.associated_path
        | none ↦ elim (query_absolute_path h) [
          | some path ↦ beside path
          | none ↦ information.file_name
        ]
      ]
      else information.file_name

module _ {World : Type 0} (invoke : RenameCall World) (h : ℕ) where
  -- The loop over the structures to try.
  unfoldable pub try_renames :
      List (ValueOrError RenameStructure) → RenameAttempt World → RenameLooped World
  unfolding size_of_rename_information
  try_renames [] a = attempted a
  try_renames (error e ∷ rest) a = forced e a.world
  try_renames (value to_try ∷ rest) a =
      let information = to_try.information in
      let (status, w) = invoke a.world h information (size_of_rename_information information) in
      let next : RenameAttempt World = record {
        world = w;
        system_call_result = status;
        last_attempted_path = record {
          is_local = to_try.is_local;
          characters = information.file_name;
        };
      } in
      elim (should_try_next_filename status) [
        | true ↦ try_renames rest next
        | false ↦ attempted next
      ]

  -- The structures are tried only if there is a redirected file name.
  unfoldable pub renames_of :
      FileOperationInstruction → World → FileRenameInformation → RenameLooped World
  unfolding try_renames select_file_operations_to_try
  renames_of i w information =
      let before : RenameAttempt World = record {
        world = w;
        system_call_result = object_path_not_found;
        last_attempted_path = record { is_local = false; characters = [] };
      } in
      elim i.redirected_filename [
        | none ↦ attempted before
        | some name ↦
            try_renames
              (select_file_operations_to_try i
                (record { is_local = false; information = information })
                (record { is_local = true; information = record information { file_name = name } }))
              before
      ]

  module _ ⦃infra : Infra⦄ {Queue Layout : Type 0} (s : OpenHandleStore Queue Layout) where
    -- What follows the last call.
    unfoldable pub update_store :
        FileOperationInstruction → Text → Text → ℕ × World → Renamed Queue Layout World
    unfolding select_filename_and_update_open_handle
    update_store i last_attempted unredirected_path (status, w) = record {
      status = status;
      store =
          if nt_success status
          then select_filename_and_update_open_handle s h i last_attempted unredirected_path
          else s;
      system = w;
    }

    unfoldable pub conclude_rename :
        (ℕ → ℕ)
        → FileOperationInstruction
        → Text
        → FileRenameInformation
        → ℕ
        → RenameLooped World
        → Renamed Queue Layout World
    unfolding update_store read_after_block
    conclude_rename freed i unredirected_path information given_length (forced e w) = record {
      status = e;
      store = s;
      system = w;
    }
    conclude_rename freed i unredirected_path information given_length (attempted a) =
        update_store i (read_after_block freed a.last_attempted_path) unredirected_path (
          if is_empty a.last_attempted_path.characters
          then invoke a.world h information given_length
          else (a.system_call_result, a.world))

    unfoldable pub rename_by_handle :
        (ℕ → ℕ)
        → System World
        → (ℕ → Option Text)
        → World
        → FileRenameInformation
        → ℕ
        → InstructionSource
        → Renamed Queue Layout World
    unfolding unredirected_target create_file_operation_context execute_extra_pre_operations
        renames_of conclude_rename
    rename_by_handle freed system query_absolute_path w information given_length source =
        let path = unredirected_target query_absolute_path s h information in
        let context =
          create_file_operation_context s information.root_directory path delete_only
            create_new_file source in
        let (prepared, w') = execute_extra_pre_operations system w context.instruction in
        elim (nt_success prepared) [
          | false ↦ record { status = prepared; store = s; system = w' }
          | true ↦
              conclude_rename freed context.instruction path information given_length
                (renames_of context.instruction w' information)
        ]
