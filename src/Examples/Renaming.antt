-- ===== src/Examples/Renaming.antt =====
-- A file that is renamed, a file that is asked about, and instances of the theorems on them.
use Prim.Native.Nat.{◌/◌}
use pathwinder.Base.{
  ℕ, ◌+◌, ◌-◌, ◌*◌, ◌≡◌, refl, false, [], ◌∷◌, Option, none, ltb, take, drop, replicate,
  if◌then◌else◌, length, arith,
}
use pathwinder.Text.{Text}
use pathwinder.Windows.{buffer_overflow, success, object_name_not_found}
use pathwinder.Strings.{
  nt_convert_string_view_to_unicode_string, nt_convert_unicode_string_to_string_view,
}
use pathwinder.Instruction.{unredirected, no_preference, overlay_redirect_to}
use pathwinder.OpenHandleStore.{OpenHandleStore, find_handle, new_handle_data, get_data_for_handle}
use pathwinder.Executor.{
  ObjectAttributes, System, execute_extra_pre_operations, should_try_next_filename,
}
use pathwinder.Executor.Rename.{FileRenameInformation, RenameCall}
use pathwinder.Executor.Query.{QueryCall, query_by_object_attributes, overlay_query_lem}
use pathwinder.FileInformation.{read_file_name_length, read_number, number_of, characters_of}
use pathwinder.Executor.QueryByHandle.{
  Queried, file_name_information, file_name_information_position, query_by_handle,
}
use pathwinder.Executor.QueryByHandle.Name.{query_by_handle_lem}
use pathwinder.Examples.Data.{text}

-- Every rename succeeds, and nothing changes.
abbrev rename_file : RenameCall Unit
rename_file w h information given_length = (success, w)

abbrev still_system : System Unit
still_system = record {
  exists_at = λ w path. false;
  create_directory_hierarchy = λ w path. (success, w);
}

abbrev renamed_to : FileRenameInformation
renamed_to = record { flags = 0; root_directory = 0; file_name = text "C:\\g\\b" }

abbrev redirected_to : FileRenameInformation
redirected_to = record renamed_to { file_name = text "D:\\t\\b" }

abbrev open_as : OpenHandleStore Unit Unit
open_as = record { open_handles = (5, new_handle_data (text "C:\\g\\a") (text "D:\\t\\a")) ∷ [] }

abbrev no_absolute_path : ℕ → Option Text
no_absolute_path h = none

-- What the memory of a destroyed buffer holds.
abbrev overwritten : ℕ → ℕ
overwritten n = 88

-- Nothing is found.
abbrev find_file : QueryCall Unit
find_file w object = (object_name_not_found, w)

abbrev asked_file : ObjectAttributes
asked_file = record {
  root_directory = 0;
  object_name = nt_convert_string_view_to_unicode_string (text "C:\\g\\a");
  attributes = 64;
}

overlay_query_lem_example :
    query_by_object_attributes find_file still_system open_as tt asked_file 1
      (λ path mode d. overlay_redirect_to (text "D:\\o\\a") unredirected no_preference [] [])
    ≡ (if should_try_next_filename object_name_not_found
        then find_file tt asked_file
        else (object_name_not_found, tt))
unfolding execute_extra_pre_operations overlay_redirect_to nt_convert_string_view_to_unicode_string
    nt_convert_unicode_string_to_string_view
overlay_query_lem_example =
    overlay_query_lem find_file still_system open_as tt tt asked_file 1 success
      (λ path mode d. overlay_redirect_to (text "D:\\o\\a") unredirected no_preference [] [])
      (text "D:\\o\\a") unredirected no_preference [] [] refl refl refl refl refl refl

-- The system gives an empty name in 40 bytes.
abbrev empty_name : Queried
empty_name = record {
  status = success;
  information = 4;
  io_status = success;
  buffer = replicate 40 0;
}

query_by_handle_lem_example :
    let name = text "C:\\g\\a" in
    let kept = take ((40 - 0 - 4) / 2) name in
    let o = query_by_handle open_as 5 40 9 (λ path. path) empty_name in
    (read_file_name_length file_name_information o.buffer 0 ≡ length name * 2)
    × (characters_of (take (length kept * 2) (drop (0 + 4) o.buffer)) ≡ kept)
    × (o.status ≡ (if ltb (40 - 0 - 4) (length name * 2) then buffer_overflow else success))
    × (o.io_status ≡ o.status)
    × (o.information ≡ (if ltb (40 - 0 - 4) (length name * 2) then 40 else 0 + 4 + length name * 2))
unfolding get_data_for_handle find_handle file_name_information_position read_file_name_length
    read_number number_of
query_by_handle_lem_example =
    query_by_handle_lem open_as 5 40 9 0 (λ path. path) empty_name
      (new_handle_data (text "C:\\g\\a") (text "D:\\t\\a")) refl refl refl refl (omega arith)
      (omega arith)
      (omega arith, (omega arith, (omega arith, (omega arith, (omega arith, (omega arith, tt))))))
      (omega arith) refl
