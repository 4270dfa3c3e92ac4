-- ===== src/Executor.antt =====
-- FilesystemExecutor.cpp: how an instruction of the director is carried out. Here are the parts that
-- its functions share; each function stands in a file of its own below Executor.
pub mod NewFileHandle
pub mod Rename
pub mod Query
pub mod QueryByHandle
pub mod Advance
pub mod Prepare
use pathwinder.Base.{
  ℕ, ◌+◌, Bool, true, false, ◌&&◌, ◌||◌, not, List, [], ◌∷◌, ◌++◌, Option, none, some, ◌==◌,
  if◌then◌else◌, is_empty, is_some,
}
use Prim.Native.Nat.{bit_and}
use pathwinder.Text.{Text, backslash}
use pathwinder.Infra.{Infra}
use pathwinder.Windows.{
  ValueOrError, value, error, nt_success, success, object_name_invalid, object_name_not_found,
  object_path_invalid, object_path_not_found, internal_error, file_supersede, file_open,
  file_create, file_open_if, file_overwrite, file_overwrite_if,
}
use pathwinder.Strings.{
  UnicodeString, nt_convert_string_view_to_unicode_string, nt_convert_unicode_string_to_string_view,
}
use pathwinder.Director.{
  CreateDisposition, FileAccessMode, create_new_file, create_new_or_open_existing_file,
  open_existing_file,
}
use pathwinder.Instruction.{
  AssociateNameWithHandle, no_name, whichever_was_successful, unredirected, redirected,
  CreateDispositionPreference, no_preference, prefer_create_new_file, prefer_open_existing_file,
  TryFiles, unredirected_only, unredirected_first, redirected_first, redirected_only,
  ExtraPreOperation, ensure_path_hierarchy_exists, FileOperationInstruction,
  no_redirection_or_interception,
}
use pathwinder.OpenHandleStore.{
  HandleData, OpenHandleStore, get_data_for_handle, insert_handle, insert_or_update_handle,
  remove_handle,
}

-- OBJECT_ATTRIBUTES: the fields that the program reads or changes, and what it copies. A null handle
-- is 0.
pub record ObjectAttributes : Type 0 where
  pub root_directory : ℕ
  pub object_name : UnicodeString
  pub attributes : ℕ

-- SFileOperationContext.
pub record FileOperationContext : Type 0 where
  pub instruction : FileOperationInstruction
  pub composed_input_path : Option Text

-- SCreateDispositionToTry::ECondition.
pub data Condition : Type 0 where
  unconditional file_must_exist file_must_not_exist : Condition

pub record CreateDispositionToTry : Type 0 where
  pub condition : Condition
  pub nt_param_create_disposition : ℕ

-- FilesystemOperations::CreateDirectoryHierarchy and FilesystemOperations::Exists, on a state of the
-- system.
pub record System (World : Type 0) : Type 0 where
  pub exists_at : World → Text → Bool
  pub create_directory_hierarchy : World → Text → ℕ × World

-- The function that asks the director.
abbrev pub InstructionSource : Type 0
InstructionSource = Text → FileAccessMode → CreateDisposition → FileOperationInstruction

unfoldable pub create_disposition_from_nt_parameter : ℕ → CreateDisposition
create_disposition_from_nt_parameter d =
    if d == file_create
    then create_new_file
    else if d == file_supersede || (d == file_open_if || d == file_overwrite_if)
    then create_new_or_open_existing_file
    else open_existing_file

-- GENERIC_READ, FILE_READ_DATA, FILE_READ_ATTRIBUTES, FILE_READ_EA, READ_CONTROL and FILE_EXECUTE,
-- the last one also FILE_TRAVERSE.
abbrev read_access_mask : ℕ
read_access_mask = 0x800200a9

-- GENERIC_WRITE, FILE_WRITE_DATA, FILE_WRITE_ATTRIBUTES, FILE_WRITE_EA, FILE_APPEND_DATA, WRITE_DAC,
-- WRITE_OWNER and FILE_DELETE_CHILD.
abbrev write_access_mask : ℕ
write_access_mask = 0x400c0156

-- DELETE.
abbrev delete_access_mask : ℕ
delete_access_mask = 0x10000

unfoldable pub file_access_mode_from_nt_parameter : ℕ → FileAccessMode
file_access_mode_from_nt_parameter desired = record {
  allows_read = not (bit_and desired read_access_mask == 0);
  allows_write = not (bit_and desired write_access_mask == 0);
  allows_delete = not (bit_and desired delete_access_mask == 0);
}

module _ {Queue Layout : Type 0} where
  -- A root directory whose handle is stored is put before the file name; with one that is not
  -- stored nothing is asked.
  unfoldable pub create_file_operation_context :
      OpenHandleStore Queue Layout
      → ℕ
      → Text
      → FileAccessMode
      → CreateDisposition
      → InstructionSource
      → FileOperationContext
  create_file_operation_context s root file_name mode disposition source =
      let from_file_name : FileOperationContext = elim (root == 0) [
        | true ↦ record {
          instruction = source file_name mode disposition;
          composed_input_path = none;
        }
        | false ↦ record {
          instruction = no_redirection_or_interception;
          composed_input_path = none;
        }
      ] in
      elim (if root == 0 then none else get_data_for_handle s root) [
        | none ↦ from_file_name
        | some entry ↦
            let full = entry.associated_path ++ (backslash ∷ file_name) in
            record { instruction = source full mode disposition; composed_input_path = some full }
      ]

-- The comparison with NoRedirectionOrInterception.
abbrev is_unredirected_only : TryFiles → Bool
is_unredirected_only unredirected_only = true
is_unredirected_only _ = false

abbrev is_no_preference : CreateDispositionPreference → Bool
is_no_preference no_preference = true
is_no_preference _ = false

abbrev is_no_name : AssociateNameWithHandle → Bool
is_no_name no_name = true
is_no_name _ = false

unfoldable pub is_no_redirection_or_interception : FileOperationInstruction → Bool
is_no_redirection_or_interception i =
    not (is_some i.redirected_filename)
    && (is_unredirected_only i.filenames_to_try
        && (is_no_preference i.create_disposition_preference
            && (is_no_name i.filename_handle_association
                && (is_empty i.extra_pre_operations && is_empty i.extra_pre_operation_operand))))

abbrev contains_ensure_path_hierarchy_exists : List ExtraPreOperation → Bool
contains_ensure_path_hierarchy_exists [] = false
contains_ensure_path_hierarchy_exists (ensure_path_hierarchy_exists ∷ rest) = true
contains_ensure_path_hierarchy_exists (_ ∷ rest) = contains_ensure_path_hierarchy_exists rest

unfoldable pub execute_extra_pre_operations :
    {World : Type 0} → System World → World → FileOperationInstruction → ℕ × World
execute_extra_pre_operations system w i =
    if contains_ensure_path_hierarchy_exists i.extra_pre_operations
    then system.create_directory_hierarchy w i.extra_pre_operation_operand
    else (success, w)

-- The redirected object, where there is a redirected file name, and otherwise the zeros that the
-- caller's structure starts with.
unfoldable pub fill_redirected_object_name_and_attributes :
    FileOperationContext → ObjectAttributes → ObjectAttributes
fill_redirected_object_name_and_attributes context from_app =
    elim context.instruction.redirected_filename [
      | none ↦ record {
        root_directory = 0;
        object_name = nt_convert_string_view_to_unicode_string [];
        attributes = 0;
      }
      | some name ↦ record {
        root_directory = 0;
        object_name = nt_convert_string_view_to_unicode_string name;
        attributes = from_app.attributes;
      }
    ]

unfoldable pub fill_unredirected_object_name_and_attributes :
    FileOperationContext → ObjectAttributes → ObjectAttributes
fill_unredirected_object_name_and_attributes context from_app = elim context.composed_input_path [
  | none ↦ from_app
  | some full ↦ record {
    root_directory = 0;
    object_name = nt_convert_string_view_to_unicode_string full;
    attributes = from_app.attributes;
  }
]

abbrev pub to_try : Condition → ℕ → ValueOrError CreateDispositionToTry
to_try condition d = value (record { condition = condition; nt_param_create_disposition = d })

-- The two switches over the create disposition of the application.
unfoldable pub dispositions_preferring_new : ℕ → List (ValueOrError CreateDispositionToTry)
dispositions_preferring_new d =
    if d == file_open_if
    then to_try unconditional file_create ∷ to_try unconditional file_open ∷ []
    else if d == file_overwrite_if
    then to_try unconditional file_create ∷ to_try unconditional file_overwrite ∷ []
    else if d == file_supersede
    then to_try unconditional file_create ∷ to_try unconditional file_supersede ∷ []
    else to_try unconditional d ∷ []

unfoldable pub dispositions_preferring_existing : ℕ → List (ValueOrError CreateDispositionToTry)
dispositions_preferring_existing d =
    if d == file_open_if
    then to_try unconditional file_open ∷ to_try unconditional file_create ∷ []
    else if d == file_overwrite_if
    then to_try unconditional file_overwrite ∷ to_try unconditional file_create ∷ []
    else if d == file_supersede
    then to_try file_must_exist file_supersede ∷ to_try unconditional file_supersede ∷ []
    else to_try unconditional d ∷ []

unfoldable pub select_create_dispositions_to_try :
    FileOperationInstruction → ℕ → List (ValueOrError CreateDispositionToTry)
unfolding dispositions_preferring_new dispositions_preferring_existing
select_create_dispositions_to_try i d = elim i.create_disposition_preference [
  | no_preference ↦ to_try unconditional d ∷ []
  | prefer_create_new_file ↦ dispositions_preferring_new d
  | prefer_open_existing_file ↦ dispositions_preferring_existing d
  | _ ↦ error internal_error ∷ []
]

unfoldable pub select_file_operations_to_try :
    {A : Type 0} → FileOperationInstruction → A → A → List (ValueOrError A)
select_file_operations_to_try i unredirected_object redirected_object = elim i.filenames_to_try [
  | unredirected_only ↦ value unredirected_object ∷ []
  | unredirected_first ↦ value unredirected_object ∷ value redirected_object ∷ []
  | redirected_first ↦ value redirected_object ∷ value unredirected_object ∷ []
  | redirected_only ↦ value redirected_object ∷ []
  | _ ↦ error internal_error ∷ []
]

unfoldable pub should_try_next_filename : ℕ → Bool
should_try_next_filename status =
    status == object_name_invalid
    || (status == object_name_not_found
        || (status == object_path_invalid || status == object_path_not_found))

abbrev pub or_empty : Option Text → Text
or_empty none = []
or_empty (some s) = s

-- The name that SelectFilenameAndStoreNewlyOpenedHandle and SelectFilenameAndUpdateOpenHandle choose.
-- An absent redirected file name reads as an empty text.
unfoldable pub selected_path : FileOperationInstruction → Text → Text → Text
selected_path i successful_path unredirected_path = elim i.filename_handle_association [
  | whichever_was_successful ↦ successful_path
  | unredirected ↦ unredirected_path
  | redirected ↦ or_empty i.redirected_filename
  | _ ↦ []
]

module _ ⦃infra : Infra⦄ {Queue Layout : Type 0} where
  unfoldable pub select_filename_and_store_newly_opened_handle :
      OpenHandleStore Queue Layout
      → ℕ
      → FileOperationInstruction
      → Text
      → Text
      → OpenHandleStore Queue Layout
  unfolding selected_path
  select_filename_and_store_newly_opened_handle s h i successful_path unredirected_path =
      let selected = selected_path i successful_path unredirected_path in
      if is_empty selected
      then s
      else insert_handle s h (infra.remove_trailing selected backslash)
          (infra.remove_trailing successful_path backslash)

  unfoldable pub select_filename_and_update_open_handle :
      OpenHandleStore Queue Layout
      → ℕ
      → FileOperationInstruction
      → Text
      → Text
      → OpenHandleStore Queue Layout
  unfolding selected_path
  select_filename_and_update_open_handle s h i successful_path unredirected_path =
      let selected = selected_path i successful_path unredirected_path in
      let t : OpenHandleStore Queue Layout =
        if is_no_name i.filename_handle_association then (remove_handle s h).0 else s in
      if is_empty selected
      then t
      else insert_or_update_handle t h (infra.remove_trailing selected backslash)
          (infra.remove_trailing successful_path backslash)
