-- ===== src/Examples/Opening.antt =====
-- Files that are opened, renamed and asked about on a small system, and instances of the theorems.
use pathwinder.Base.{
  ◌≡◌, refl, inr, Bool, false, ◌||◌, List, [], ◌∷◌, none, some, ◌==◌, is_empty, arith,
  if◌then◌else◌, map,
}
use pathwinder.Text.{Text, text_eq}
use pathwinder.Infra.{ascii}
use pathwinder.Windows.{
  nt_success, success, object_name_not_found, file_open, file_create, file_open_if, value,
}
use pathwinder.Strings.{
  nt_convert_string_view_to_unicode_string, nt_convert_unicode_string_to_string_view,
}
use pathwinder.Instruction.{
  FileOperationInstruction, AssociateNameWithHandle, unredirected, prefer_open_existing_file,
  overlay_redirect_to,
}
use pathwinder.OpenHandleStore.{OpenHandleStore, empty_store, new_handle_data, get_data_for_handle}
use pathwinder.Executor.{
  ObjectAttributes, System, CreateDispositionToTry, unconditional, execute_extra_pre_operations,
  should_try_next_filename, create_file_operation_context, is_no_redirection_or_interception,
  select_create_dispositions_to_try, select_file_operations_to_try,
  dispositions_preferring_existing, fill_redirected_object_name_and_attributes,
  file_access_mode_from_nt_parameter, create_disposition_from_nt_parameter,
}
use pathwinder.Executor.NewFileHandle.{
  SystemCall, no_attempt, attempt, attempted, should_try, absolute_path, try_operations,
  try_dispositions, conclude, return_from, open_by_instruction, new_file_handle,
}
use pathwinder.Executor.NewFileHandle.Calls.{
  is_not_found, calls, first_conclusive, dispositions-conclusive,
}
use pathwinder.Executor.NewFileHandle.Overlay.{
  OpensFiles, path_of, redirected_object, opening_call, stored_as, overlay_opens,
}
use pathwinder.Executor.NewFileHandle.Store.{other_handles_kept}
use pathwinder.Examples.Data.{text, games}

-- The paths of the files that there are.
abbrev Files : Type 0
Files = List Text

abbrev is_file : Files → Text → Bool
unfolding text_eq
is_file [] path = false
is_file (f ∷ fs) path = text_eq f path || is_file fs path

-- A file that is there is opened as 5, and one that is created gets 7.
abbrev open_file : SystemCall Files
open_file w object d =
    let path = nt_convert_unicode_string_to_string_view object.object_name in
    if is_file w path
    then (success, 5, w)
    else if d == file_create
    then (success, 7, path ∷ w)
    else (object_name_not_found, 0, w)

abbrev small_system : System Files
small_system = record { exists_at = is_file; create_directory_hierarchy = λ w path. (success, w) }

open_file-OpensFiles : OpensFiles open_file is_file
unfolding should_try_next_filename
open_file-OpensFiles = record {
  found = λ w object h. ground (arith, h);
  missing = λ w object h. ground (arith, h);
  unchanged = λ w object h. ground (arith, h);
}

abbrev asked_file : ObjectAttributes
asked_file = record {
  root_directory = 0;
  object_name = nt_convert_string_view_to_unicode_string (text "C:\\g\\a");
  attributes = 64;
}

abbrev other_file : ObjectAttributes
other_file = record asked_file {
  object_name = nt_convert_string_view_to_unicode_string (text "D:\\o\\a");
}

abbrev overlay_instruction : FileOperationInstruction
overlay_instruction =
    overlay_redirect_to (text "D:\\o\\a") unredirected prefer_open_existing_file [] []

abbrev no_handles : OpenHandleStore Unit Unit
no_handles = empty_store

-- Nothing to prepare.
ready : execute_extra_pre_operations small_system [] overlay_instruction ≡ (success, [])
unfolding execute_extra_pre_operations overlay_redirect_to
ready = refl

created : should_try_next_filename (open_file [] other_file file_create).0 ≡ false
unfolding should_try_next_filename nt_convert_string_view_to_unicode_string
    nt_convert_unicode_string_to_string_view is_file
created = refl

asked_path : is_empty (path_of asked_file) ≡ false
unfolding nt_convert_string_view_to_unicode_string nt_convert_unicode_string_to_string_view
asked_path = refl

other_path : is_empty (path_of (redirected_object asked_file (text "D:\\o\\a"))) ≡ false
unfolding nt_convert_string_view_to_unicode_string nt_convert_unicode_string_to_string_view
other_path = refl

-- No file is there: D:\o\a is created, as handle 7.
overlay_opens_example :
    let a = opening_call open_file is_file [] asked_file (text "D:\\o\\a") in
    let o =
      new_file_handle small_system open_file ⦃infra = ascii⦄ no_handles [] 1 asked_file file_open_if
        (λ path mode d. overlay_instruction) in
    (o.status ≡ a.system_call_result)
    × (o.file_handle ≡ some a.newly_opened_handle)
    × (o.system ≡ a.world)
    × (o.store ≡ (
        if nt_success a.system_call_result
        then stored_as ⦃infra = ascii⦄ no_handles AssociateNameWithHandle.unredirected
            a.newly_opened_handle a.last_attempted_path
            (path_of asked_file)
            (text "D:\\o\\a")
        else no_handles))
overlay_opens_example =
    overlay_opens ⦃infra = ascii⦄ small_system open_file no_handles is_file open_file-OpensFiles
      (text "D:\\o\\a") unredirected [] [] [] [] success 1 asked_file
      (λ path mode d. overlay_instruction) refl refl ready refl created asked_path other_path

-- What that call gives, by evaluation.
new_file_test :
    let a = opening_call open_file is_file [] asked_file (text "D:\\o\\a") in
    (a.newly_opened_handle ≡ 7) × (a.system_call_result ≡ success)
unfolding nt_convert_string_view_to_unicode_string nt_convert_unicode_string_to_string_view is_file
new_file_test = (refl, refl)

abbrev two_dispositions : List CreateDispositionToTry
two_dispositions =
    record { condition = unconditional; nt_param_create_disposition = file_open }
    ∷ record { condition = unconditional; nt_param_create_disposition = file_create }
    ∷ []

dispositions-conclusive_example :
    try_dispositions small_system open_file none
      (map value (other_file ∷ asked_file ∷ []))
      (map value two_dispositions)
      (no_attempt [])
    ≡ attempted (
        first_conclusive small_system open_file none
          (calls two_dispositions (other_file ∷ asked_file ∷ []))
          (no_attempt []))
unfolding is_not_found
dispositions-conclusive_example =
    dispositions-conclusive small_system open_file none (other_file ∷ asked_file ∷ [])
      two_dispositions (no_attempt []) refl

-- C:\g is open as handle 5 when D:\o\a is created as handle 7.
abbrev five_is_open : OpenHandleStore Unit Unit
five_is_open = record { open_handles = (5, new_handle_data games games) ∷ [] }

opened_as_seven :
    (new_file_handle small_system open_file ⦃infra = ascii⦄ five_is_open [] 1 asked_file
      file_open_if
      (λ path mode d. overlay_instruction)).file_handle
    ≡ some 7
unfolding new_file_handle create_file_operation_context is_no_redirection_or_interception
    overlay_redirect_to execute_extra_pre_operations open_by_instruction return_from conclude
    try_dispositions try_operations select_create_dispositions_to_try select_file_operations_to_try
    dispositions_preferring_existing fill_redirected_object_name_and_attributes should_try attempt
    absolute_path should_try_next_filename nt_convert_string_view_to_unicode_string
    nt_convert_unicode_string_to_string_view file_access_mode_from_nt_parameter
    create_disposition_from_nt_parameter is_file
opened_as_seven = refl

other_handles_kept_example :
    get_data_for_handle
      (new_file_handle small_system open_file ⦃infra = ascii⦄ five_is_open [] 1 asked_file
        file_open_if
        (λ path mode d. overlay_instruction)).store
      5
    ≡ get_data_for_handle five_is_open 5
other_handles_kept_example =
    other_handles_kept ⦃infra = ascii⦄ small_system open_file five_is_open 5 [] 1 file_open_if
      asked_file (λ path mode d. overlay_instruction)
      (inr (λ e. absurd (ground (arith, e, opened_as_seven))))
