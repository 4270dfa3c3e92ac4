-- ===== src/Executor/Query.antt =====
-- QueryByObjectAttributes of FilesystemExecutor.cpp: asking about a file by its path.
use pathwinder.Base.{ℕ, ◌≡◌, true, false, List, [], ◌∷◌, is_empty, arith, if◌then◌else◌}
use pathwinder.Text.{Text}
use pathwinder.Windows.{nt_success, object_path_not_found}
use pathwinder.Strings.{
  nt_convert_string_view_to_unicode_string, nt_convert_unicode_string_to_string_view,
}
use pathwinder.Director.{open_existing_file}
use pathwinder.Instruction.{
  AssociateNameWithHandle, CreateDispositionPreference, ExtraPreOperation, overlay_redirect_to,
}
use pathwinder.OpenHandleStore.{OpenHandleStore}
use pathwinder.Windows.{ValueOrError, value, error}
use pathwinder.Executor.{
  ObjectAttributes, System, InstructionSource, file_access_mode_from_nt_parameter,
  create_file_operation_context, is_no_redirection_or_interception, execute_extra_pre_operations,
  fill_redirected_object_name_and_attributes, fill_unredirected_object_name_and_attributes,
  select_file_operations_to_try, should_try_next_filename,
}

-- A call such as NtQueryAttributesFile: its status and the system after it.
abbrev pub QueryCall : Type 0 → Type 0
QueryCall World = World → ObjectAttributes → ℕ × World

-- The variables of the loop.
pub record QueryAttempt (World : Type 0) : Type 0 where
  pub world : World
  pub system_call_result : ℕ
  pub last_attempted_path : Text

pub data QueryLooped (World : Type 0) : Type 0 where
  forced : ℕ → World → QueryLooped World
  attempted : QueryAttempt World → QueryLooped World

module _ {World : Type 0} (invoke : QueryCall World) where
  -- The loop over the files.
  unfoldable pub try_queries :
      List (ValueOrError ObjectAttributes) → QueryAttempt World → QueryLooped World
  try_queries [] a = attempted a
  try_queries (error e ∷ rest) a = forced e a.world
  try_queries (value object ∷ rest) a =
      let (status, w) = invoke a.world object in
      let next : QueryAttempt World = record {
        world = w;
        system_call_result = status;
        last_attempted_path = nt_convert_unicode_string_to_string_view object.object_name;
      } in
      elim (should_try_next_filename status) [
        | true ↦ try_queries rest next
        | false ↦ attempted next
      ]

  -- What follows the loop.
  unfoldable pub conclude_query : ObjectAttributes → QueryLooped World → ℕ × World
  conclude_query object (forced e w) = (e, w)
  conclude_query object (attempted a) =
      if is_empty a.last_attempted_path
      then invoke a.world object
      else (a.system_call_result, a.world)

  unfoldable pub query_by_object_attributes :
      {Queue Layout : Type 0}
      → System World
      → OpenHandleStore Queue Layout
      → World
      → ObjectAttributes
      → ℕ
      → InstructionSource
      → ℕ × World
  unfolding try_queries conclude_query create_file_operation_context
      is_no_redirection_or_interception execute_extra_pre_operations select_file_operations_to_try
      fill_redirected_object_name_and_attributes fill_unredirected_object_name_and_attributes
      file_access_mode_from_nt_parameter
  query_by_object_attributes system s w object desired source =
      let context =
        create_file_operation_context s object.root_directory
          (nt_convert_unicode_string_to_string_view object.object_name)
          (file_access_mode_from_nt_parameter desired) open_existing_file source in
      elim (is_no_redirection_or_interception context.instruction) [
        | true ↦ invoke w (fill_unredirected_object_name_and_attributes context object)
        | false ↦
            let (prepared, w') = execute_extra_pre_operations system w context.instruction in
            elim (nt_success prepared) [
              | false ↦ (prepared, w')
              | true ↦ conclude_query object (
                  try_queries
                    (select_file_operations_to_try context.instruction object
                      (fill_redirected_object_name_and_attributes context object))
                    (record {
                      world = w';
                      system_call_result = object_path_not_found;
                      last_attempted_path = [];
                    }))
            ]
      ]

  -- A query by an absolute path that is overlaid with a redirected file is answered by the redirected
  -- file, and if the system does not find that, by the file at the path itself. Neither path is
  -- empty, and the preparation has succeeded.
  pub overlay_query_lem :
      {Queue Layout : Type 0} (system : System World) (s : OpenHandleStore Queue Layout)
      (w w' : World) (object : ObjectAttributes) (desired prepared : ℕ) (source : InstructionSource)
      (r : Text) (association : AssociateNameWithHandle) (wish : CreateDispositionPreference)
      (operations : List ExtraPreOperation) (operand : Text)
      → let path = nt_convert_unicode_string_to_string_view object.object_name in
        let other = record object {
          root_directory = 0;
          object_name = nt_convert_string_view_to_unicode_string r;
        } in
        let i = overlay_redirect_to r association wish operations operand in
        let (status, w'') = invoke w' other in
        object.root_directory ≡ 0
        → is_empty path ≡ false
        → is_empty (nt_convert_unicode_string_to_string_view other.object_name) ≡ false
        → source path (file_access_mode_from_nt_parameter desired) open_existing_file ≡ i
        → execute_extra_pre_operations system w i ≡ (prepared, w')
        → nt_success prepared ≡ true
        → query_by_object_attributes system s w object desired source
          ≡ (if should_try_next_filename status then invoke w'' object else (status, w''))
  unfolding query_by_object_attributes create_file_operation_context try_queries conclude_query
      is_no_redirection_or_interception select_file_operations_to_try overlay_redirect_to
      fill_redirected_object_name_and_attributes
  overlay_query_lem system s w w' object desired prepared source r association wish operations
        operand at_root named renamed told ready good =
      ground (arith, at_root, named, renamed, told, ready, good)
