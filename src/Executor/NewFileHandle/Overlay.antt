-- ===== src/Executor/NewFileHandle/Overlay.antt =====
-- What NewFileHandle opens by an instruction in overlay mode, and what it does to the store.
use pathwinder.Base.{
  ℕ, ◌≡◌, refl, sym, subst, ◌∙◌, Bool, true, false, List, none, some, is_empty, arith,
  if◌then◌else◌,
}
use pathwinder.Text.{Text, backslash}
use pathwinder.Infra.{Infra}
use pathwinder.Windows.{nt_success, file_open, file_create, file_open_if}
use pathwinder.Strings.{
  nt_convert_string_view_to_unicode_string, nt_convert_unicode_string_to_string_view,
}
use pathwinder.Instruction.{
  AssociateNameWithHandle, whichever_was_successful, unredirected, redirected, ExtraPreOperation,
  prefer_open_existing_file, FileOperationInstruction, overlay_redirect_to,
}
use pathwinder.OpenHandleStore.{OpenHandleStore, insert_handle}
use pathwinder.Executor.{
  ObjectAttributes, System, InstructionSource, should_try_next_filename,
  create_file_operation_context, is_no_redirection_or_interception, execute_extra_pre_operations,
  create_disposition_from_nt_parameter, file_access_mode_from_nt_parameter,
  fill_redirected_object_name_and_attributes, select_create_dispositions_to_try,
  select_file_operations_to_try, dispositions_preferring_existing, selected_path,
  select_filename_and_store_newly_opened_handle,
}
use pathwinder.Executor.NewFileHandle.{
  SystemCall, Attempt, Opened, absolute_path, should_try, attempt, try_operations, try_dispositions,
  conclude, return_from, open_by_instruction, new_file_handle,
}

-- What NtCreateFile documents of FILE_OPEN, for the files that are there: with no file at the path
-- the status is one of those for a file that is not found, and nothing changes.
pub record OpensFiles {World : Type 0} (invoke : SystemCall World) (files : World → Text → Bool)
    : Type 0 where
  pub found :
      (w : World) (object : ObjectAttributes)
      → files w (nt_convert_unicode_string_to_string_view object.object_name) ≡ true
      → should_try_next_filename (invoke w object file_open).0 ≡ false
  pub missing :
      (w : World) (object : ObjectAttributes)
      → files w (nt_convert_unicode_string_to_string_view object.object_name) ≡ false
      → should_try_next_filename (invoke w object file_open).0 ≡ true
  pub unchanged :
      (w : World) (object : ObjectAttributes)
      → files w (nt_convert_unicode_string_to_string_view object.object_name) ≡ false
      → (invoke w object file_open).2 ≡ w

abbrev pub path_of : ObjectAttributes → Text
path_of object = nt_convert_unicode_string_to_string_view object.object_name

abbrev pub redirected_object : ObjectAttributes → Text → ObjectAttributes
redirected_object object r = record {
  root_directory = 0;
  object_name = nt_convert_string_view_to_unicode_string r;
  attributes = object.attributes;
}

-- A call that is made, and what it gives.
abbrev pub made : {World : Type 0} → SystemCall World → World → ObjectAttributes → ℕ → Attempt World
made invoke w object d =
    let (status, handle, w') = invoke w object d in
    record {
      world = w';
      system_call_result = status;
      newly_opened_handle = handle;
      last_attempted_path = path_of object;
    }

-- The call that opens the file: on an existing redirected file, else on an existing file at the path
-- that was asked for, else the one that creates the redirected file.
abbrev pub opening_call :
    {World : Type 0}
    → SystemCall World
    → (World → Text → Bool)
    → World
    → ObjectAttributes
    → Text
    → Attempt World
opening_call invoke files w object r =
    let other = redirected_object object r in
    if files w (path_of other)
    then made invoke w other file_open
    else if files w (path_of object)
    then made invoke w object file_open
    else made invoke w other file_create

-- The store behind an opened file: its handle is known by the path that was opened, by the one that
-- was asked for or by the redirected one, as the instruction says, and the path that was opened
-- stands beside it. Without an association nothing is stored.
abbrev pub stored_as :
    ⦃infra : Infra⦄
    → {Queue Layout : Type 0} → OpenHandleStore Queue Layout
    → AssociateNameWithHandle
    → ℕ
    → Text
    → Text
    → Text
    → OpenHandleStore Queue Layout
stored_as ⦃infra⦄ s association h opened asked r =
    let stored : Text → OpenHandleStore _ _ = λ name.
      insert_handle s h (infra.remove_trailing name backslash)
        (infra.remove_trailing opened backslash) in
    elim association [
      | whichever_was_successful ↦ stored opened
      | unredirected ↦ stored asked
      | redirected ↦ stored r
      | _ ↦ s
    ]

module _ {World Queue Layout : Type 0} ⦃infra : Infra⦄ (system : System World)
    (invoke : SystemCall World) (s : OpenHandleStore Queue Layout) where
  intercepted :
      (w w' : World) (prepared desired d : ℕ) (object : ObjectAttributes)
      (source : InstructionSource) (i : FileOperationInstruction)
      → object.root_directory ≡ 0
      → source
          (path_of object)
          (file_access_mode_from_nt_parameter desired)
          (create_disposition_from_nt_parameter d)
        ≡ i
      → is_no_redirection_or_interception i ≡ false
      → execute_extra_pre_operations system w i ≡ (prepared, w')
      → nt_success prepared ≡ true
      → new_file_handle system invoke s w desired object d source
        ≡ open_by_instruction system invoke s
            (record { instruction = i; composed_input_path = none })
            w'
            object
            d
  unfolding new_file_handle create_file_operation_context
  intercepted w w' prepared desired d object source i at_root told kept ready good =
      ground (arith, at_root, told, kept, ready, good)

  module _ (files : World → Text → Bool) (laws : OpensFiles invoke files) (r : Text)
      (association : AssociateNameWithHandle) (operations : List ExtraPreOperation)
      (operand : Text) where
    abbrev overlaid : FileOperationInstruction
    overlaid = overlay_redirect_to r association prefer_open_existing_file operations operand

    overlay_attempts :
        (w : World) (object : ObjectAttributes)
        → object.root_directory ≡ 0
        → should_try_next_filename (invoke w (redirected_object object r) file_create).0 ≡ false
        → open_by_instruction system invoke s
            (record { instruction = overlaid; composed_input_path = none })
            w
            object
            file_open_if
          ≡ conclude system invoke s overlaid
              (path_of object)
              object
              file_open_if
              (opening_call invoke files w object r)
    unfolding open_by_instruction return_from try_dispositions try_operations should_try attempt
        absolute_path select_create_dispositions_to_try select_file_operations_to_try
        overlay_redirect_to dispositions_preferring_existing
        fill_redirected_object_name_and_attributes
    overlay_attempts w object at_root created =
        let other = redirected_object object r in
        ground (
          arith,
          at_root,
          laws.found w other,
          laws.missing w other,
          laws.unchanged w other,
          laws.found w object,
          laws.missing w object,
          laws.unchanged w object,
        )

    non_empty :
        (object : ObjectAttributes)
        → is_empty (path_of (redirected_object object r)) ≡ false
        → is_empty r ≡ false
    unfolding nt_convert_string_view_to_unicode_string nt_convert_unicode_string_to_string_view
    non_empty object h = ground (arith, h)

    opening_path :
        (w : World) (object : ObjectAttributes)
        → is_empty (path_of object) ≡ false
        → is_empty (path_of (redirected_object object r)) ≡ false
        → is_empty (opening_call invoke files w object r).last_attempted_path ≡ false
    opening_path w object asked other = ground (arith, asked, other)

    abbrev Opens : ObjectAttributes → Attempt World → Opened Queue Layout World → Type 0
    Opens object a o =
        (o.status ≡ a.system_call_result)
        × (o.file_handle ≡ some a.newly_opened_handle)
        × (o.system ≡ a.world)
        × (o.store ≡ (
            if nt_success a.system_call_result
            then stored_as s association a.newly_opened_handle a.last_attempted_path
                (path_of object) r
            else s))

    conclude-Opens :
        (object : ObjectAttributes) (a : Attempt World)
        → is_empty (path_of object) ≡ false
        → is_empty r ≡ false
        → is_empty a.last_attempted_path ≡ false
        → Opens object a (conclude system invoke s overlaid (path_of object) object file_open_if a)
    unfolding conclude overlay_redirect_to select_filename_and_store_newly_opened_handle
        selected_path
    conclude-Opens object a asked other tried = (
      ground (arith, tried),
      ground (arith, tried),
      ground (arith, tried),
      elim association [
        | whichever_was_successful ↦ ground (arith, tried)
        | unredirected ↦ ground (arith, tried, asked)
        | redirected ↦ ground (arith, tried, other)
        | _ ↦ ground (arith, tried)
      ],
    )

    -- A file that is opened or else created (FILE_OPEN_IF) by an absolute path, with an instruction
    -- to overlay it with a redirected file and to prefer an existing one, is the redirected file if
    -- that is there, else the file at its own path if that is there, else a new redirected file.
    -- What is there is seen after the preparation, which has succeeded; the creation does not
    -- report that a file was not found, the system opens what is there as it documents, and neither
    -- path reads as an empty one. The status, the handle and the system are those of that one call,
    -- and if it succeeded the handle is stored by the name that the instruction associates.
    pub overlay_opens :
        (w w' : World) (prepared desired : ℕ) (object : ObjectAttributes)
        (source : InstructionSource)
        → object.root_directory ≡ 0
        → source
            (path_of object)
            (file_access_mode_from_nt_parameter desired)
            (create_disposition_from_nt_parameter file_open_if)
          ≡ overlaid
        → execute_extra_pre_operations system w overlaid ≡ (prepared, w')
        → nt_success prepared ≡ true
        → should_try_next_filename (invoke w' (redirected_object object r) file_create).0 ≡ false
        → is_empty (path_of object) ≡ false
        → is_empty (path_of (redirected_object object r)) ≡ false
        → let a = opening_call invoke files w' object r in
          let o = new_file_handle system invoke s w desired object file_open_if source in
          (o.status ≡ a.system_call_result)
          × (o.file_handle ≡ some a.newly_opened_handle)
          × (o.system ≡ a.world)
          × (o.store ≡ (
              if nt_success a.system_call_result
              then stored_as s association a.newly_opened_handle a.last_attempted_path
                  (path_of object)
                  r
              else s))
    unfolding is_no_redirection_or_interception overlay_redirect_to
    overlay_opens w w' prepared desired object source at_root told ready good created asked other =
        subst (Opens object (opening_call invoke files w' object r))
          (sym (
            intercepted w w' prepared desired file_open_if object source overlaid at_root told refl
              ready good
            ∙ overlay_attempts w' object at_root created))
          (conclude-Opens object (opening_call invoke files w' object r) asked
            (non_empty object other) (opening_path w' object asked other))
