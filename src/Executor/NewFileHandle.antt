-- ===== src/Executor/NewFileHandle.antt =====
-- NewFileHandle of FilesystemExecutor.cpp: opening or creating a file by the director's instruction.
pub mod Calls
pub mod Overlay
pub mod Store
use pathwinder.Base.{
  ℕ, Bool, true, false, not, List, [], ◌∷◌, Option, none, some, if◌then◌else◌, is_empty, ◌==◌,
}
use pathwinder.Text.{Text}
use pathwinder.Infra.{Infra}
use pathwinder.Windows.{nt_success, object_path_not_found}
use pathwinder.Strings.{nt_convert_unicode_string_to_string_view}
use pathwinder.Instruction.{FileOperationInstruction}
use pathwinder.OpenHandleStore.{OpenHandleStore}
use pathwinder.Windows.{ValueOrError, value, error}
use pathwinder.Executor.{
  ObjectAttributes, FileOperationContext, Condition, unconditional, file_must_exist,
  file_must_not_exist, CreateDispositionToTry, System, InstructionSource,
  create_disposition_from_nt_parameter, file_access_mode_from_nt_parameter,
  create_file_operation_context, is_no_redirection_or_interception, execute_extra_pre_operations,
  fill_redirected_object_name_and_attributes, fill_unredirected_object_name_and_attributes,
  select_create_dispositions_to_try, select_file_operations_to_try, should_try_next_filename,
  or_empty, select_filename_and_store_newly_opened_handle,
}

-- The call of NtCreateFile or NtOpenFile: its status, the handle that it writes, and the system
-- after it.
abbrev pub SystemCall : Type 0 → Type 0
SystemCall World = World → ObjectAttributes → ℕ → ℕ × ℕ × World

-- The variables of the loops.
pub record Attempt (World : Type 0) : Type 0 where
  pub world : World
  pub system_call_result : ℕ
  pub newly_opened_handle : ℕ
  pub last_attempted_path : Text

-- How the loops end: by a return with a forced status, or behind them.
pub data Looped (World : Type 0) : Type 0 where
  forced : ℕ → World → Looped World
  attempted : Attempt World → Looped World

-- What NewFileHandle returns, the handle that it writes for the application (`none` if it writes
-- none), and the store and the system that it leaves.
pub record Opened (Queue Layout World : Type 0) : Type 0 where
  pub status : ℕ
  pub file_handle : Option ℕ
  pub store : OpenHandleStore Queue Layout
  pub system : World

-- fileToTryAbsolutePath. A composed path is there wherever the root directory is not null.
unfoldable pub absolute_path : Option Text → ObjectAttributes → Text
absolute_path composed object =
    if object.root_directory == 0
    then nt_convert_unicode_string_to_string_view object.object_name
    else or_empty composed

-- The variables before the loops.
abbrev pub no_attempt : {World : Type 0} → World → Attempt World
no_attempt w = record {
  world = w;
  system_call_result = object_path_not_found;
  newly_opened_handle = 0;
  last_attempted_path = [];
}

-- unredirectedPath.
abbrev pub unredirected_path_of : FileOperationContext → ObjectAttributes → Text
unredirected_path_of context object = elim context.composed_input_path [
  | none ↦ nt_convert_unicode_string_to_string_view object.object_name
  | some full ↦ full
]

unfoldable pub should_try : {World : Type 0} → System World → World → Condition → Text → Bool
should_try system w unconditional path = true
should_try system w file_must_exist path = system.exists_at w path
should_try system w file_must_not_exist path = not (system.exists_at w path)

module _ {World : Type 0} (invoke : SystemCall World) where
  -- One call in the loops, and what it leaves in their variables.
  unfoldable pub attempt : World → Text → ObjectAttributes → ℕ → Attempt World
  attempt w path object d =
      let (status, handle, w') = invoke w object d in
      record {
        world = w';
        system_call_result = status;
        newly_opened_handle = handle;
        last_attempted_path = path;
      }

module _ {World : Type 0} (system : System World) (invoke : SystemCall World) where
  -- The inner loop, over the files.
  unfoldable pub try_operations :
      Option Text
      → CreateDispositionToTry
      → List (ValueOrError ObjectAttributes)
      → Attempt World
      → Looped World
  try_operations composed d [] a = attempted a
  try_operations composed d (error e ∷ rest) a = forced e a.world
  try_operations composed d (value object ∷ rest) a =
      elim (should_try system a.world d.condition (absolute_path composed object)) [
        | false ↦ try_operations composed d rest a
        | true ↦
            let next =
              attempt invoke a.world (absolute_path composed object) object
                d.nt_param_create_disposition in
            elim (should_try_next_filename next.system_call_result) [
              | true ↦ try_operations composed d rest next
              | false ↦ attempted next
            ]
      ]

  -- The outer loop, over the create dispositions.
  unfoldable pub try_dispositions :
      Option Text
      → List (ValueOrError ObjectAttributes)
      → List (ValueOrError CreateDispositionToTry)
      → Attempt World
      → Looped World
  try_dispositions composed objects [] a = attempted a
  try_dispositions composed objects (error e ∷ rest) a = forced e a.world
  try_dispositions composed objects (value d ∷ rest) a =
      elim (try_operations composed d objects a) [
        | forced e w ↦ forced e w
        | attempted next ↦ elim (should_try_next_filename next.system_call_result) [
          | true ↦ try_dispositions composed objects rest next
          | false ↦ attempted next
        ]
      ]

  module _ ⦃infra : Infra⦄ {Queue Layout : Type 0} (s : OpenHandleStore Queue Layout) where
    -- A call that the application's own parameters go to.
    unfoldable pub passed_on : World → ObjectAttributes → ℕ → Opened Queue Layout World
    passed_on w object d =
        let (status, handle, w') = invoke w object d in
        record { status = status; file_handle = some handle; store = s; system = w' }

    -- What follows the loops.
    unfoldable pub conclude :
        FileOperationInstruction
        → Text
        → ObjectAttributes
        → ℕ
        → Attempt World
        → Opened Queue Layout World
    unfolding passed_on select_filename_and_store_newly_opened_handle
    conclude i unredirected_path object d a =
        if is_empty a.last_attempted_path then passed_on a.world object d else record {
          status = a.system_call_result;
          file_handle = some a.newly_opened_handle;
          store =
              if nt_success a.system_call_result
              then select_filename_and_store_newly_opened_handle s a.newly_opened_handle i
                  a.last_attempted_path unredirected_path
              else s;
          system = a.world;
        }

    -- The returns from the loops and behind them.
    unfoldable pub return_from :
        FileOperationContext → ObjectAttributes → ℕ → Looped World → Opened Queue Layout World
    unfolding conclude
    return_from context object d (forced e w) = record {
      status = e;
      file_handle = none;
      store = s;
      system = w;
    }
    return_from context object d (attempted a) =
        conclude context.instruction (unredirected_path_of context object) object d a

    -- What follows the preparation.
    unfoldable pub open_by_instruction :
        FileOperationContext → World → ObjectAttributes → ℕ → Opened Queue Layout World
    unfolding try_dispositions select_create_dispositions_to_try select_file_operations_to_try
        fill_redirected_object_name_and_attributes return_from
    open_by_instruction context w object d = return_from context object d (
        try_dispositions context.composed_input_path
          (select_file_operations_to_try context.instruction object
            (fill_redirected_object_name_and_attributes context object))
          (select_create_dispositions_to_try context.instruction d) (no_attempt w))

    unfoldable pub new_file_handle :
        World → ℕ → ObjectAttributes → ℕ → InstructionSource → Opened Queue Layout World
    unfolding create_file_operation_context is_no_redirection_or_interception passed_on
        fill_unredirected_object_name_and_attributes execute_extra_pre_operations
        open_by_instruction file_access_mode_from_nt_parameter create_disposition_from_nt_parameter
    new_file_handle w desired_access object d source =
        let context =
          create_file_operation_context s object.root_directory
            (nt_convert_unicode_string_to_string_view object.object_name)
            (file_access_mode_from_nt_parameter desired_access)
            (create_disposition_from_nt_parameter d) source in
        elim (is_no_redirection_or_interception context.instruction) [
          | true ↦ passed_on w (fill_unredirected_object_name_and_attributes context object) d
          | false ↦
              let (prepared, w') = execute_extra_pre_operations system w context.instruction in
              elim (nt_success prepared) [
                | false ↦ record { status = prepared; file_handle = none; store = s; system = w' }
                | true ↦ open_by_instruction context w' object d
              ]
        ]
