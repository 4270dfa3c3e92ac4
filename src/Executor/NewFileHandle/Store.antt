-- ===== src/Executor/NewFileHandle/Store.antt =====
-- What NewFileHandle does to the store of open handles.
use pathwinder.Base.{ℕ, ◌≡◌, ◌≢◌, refl, ◌⊎◌, false, some, arith}
use pathwinder.Text.{Text, backslash}
use pathwinder.Infra.{Infra}
use pathwinder.Windows.{nt_success}
use pathwinder.Strings.{nt_convert_unicode_string_to_string_view}
use pathwinder.Instruction.{FileOperationInstruction}
use pathwinder.OpenHandleStore.{OpenHandleStore, get_data_for_handle}
use pathwinder.OpenHandleStore.Laws.{get-insert}
use pathwinder.Executor.{
  ObjectAttributes, FileOperationContext, System, InstructionSource, selected_path,
  select_filename_and_store_newly_opened_handle, create_file_operation_context,
  file_access_mode_from_nt_parameter, create_disposition_from_nt_parameter,
  execute_extra_pre_operations, select_file_operations_to_try, select_create_dispositions_to_try,
  fill_redirected_object_name_and_attributes,
}
use pathwinder.Executor.NewFileHandle.{
  SystemCall, Attempt, Looped, forced, attempted, Opened, passed_on, conclude, return_from,
  open_by_instruction, try_dispositions, no_attempt, unredirected_path_of, new_file_handle,
}

module _ {World Queue Layout : Type 0} ⦃infra : Infra⦄ (system : System World)
    (invoke : SystemCall World) (s : OpenHandleStore Queue Layout) (q : ℕ) where
  -- The handle is not one that was opened.
  abbrev IsOther : Opened Queue Layout World → Type 0
  IsOther o = (nt_success o.status ≡ false) ⊎ (o.file_handle ≢ some q)

  abbrev Keeps : Opened Queue Layout World → Type 0
  Keeps o = get_data_for_handle o.store q ≡ get_data_for_handle s q

  conclude-Keeps :
      (i : FileOperationInstruction) (unredirected : Text) (object : ObjectAttributes) (d : ℕ)
      (a : Attempt World)
      → IsOther (conclude system invoke s i unredirected object d a)
      → Keeps (conclude system invoke s i unredirected object d a)
  unfolding conclude passed_on select_filename_and_store_newly_opened_handle
  conclude-Keeps i unredirected object d a other = ground (
    arith,
    get-insert s a.newly_opened_handle q
        (infra.remove_trailing (selected_path i a.last_attempted_path unredirected) backslash)
        (infra.remove_trailing a.last_attempted_path backslash),
  )

  return-Keeps :
      (context : FileOperationContext) (object : ObjectAttributes) (d : ℕ) (l : Looped World)
      → IsOther (return_from system invoke s context object d l)
      → Keeps (return_from system invoke s context object d l)
  unfolding return_from
  return-Keeps context object d (forced e w) other = refl
  return-Keeps context object d (attempted a) other =
      conclude-Keeps context.instruction (unredirected_path_of context object) object d a other

  -- Whatever the instruction and the system's answers: NewFileHandle changes what is known of no
  -- other handle than the one that it gives to the application, and none if its status is an error.
  pub other_handles_kept :
      (w : World) (desired d : ℕ) (object : ObjectAttributes) (source : InstructionSource)
      → let o = new_file_handle system invoke s w desired object d source in
        (nt_success o.status ≡ false) ⊎ (o.file_handle ≢ some q)
        → get_data_for_handle o.store q ≡ get_data_for_handle s q
  unfolding new_file_handle open_by_instruction passed_on
  other_handles_kept w desired d object source other =
      let context =
        create_file_operation_context s object.root_directory
          (nt_convert_unicode_string_to_string_view object.object_name)
          (file_access_mode_from_nt_parameter desired) (create_disposition_from_nt_parameter d)
          source in
      let (prepared, w') = execute_extra_pre_operations system w context.instruction in
      ground (
        arith,
        return-Keeps context object d (
            try_dispositions system invoke context.composed_input_path
              (select_file_operations_to_try context.instruction object
                (fill_redirected_object_name_and_attributes context object))
              (select_create_dispositions_to_try context.instruction d) (no_attempt w')),
      )
