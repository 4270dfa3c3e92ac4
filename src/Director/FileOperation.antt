-- ===== src/Director/FileOperation.antt =====
-- FilesystemDirector.cpp: GetInstructionForFileOperation.
-- `none` is what has no defined result: a rule container without rules.
use pathwinder.Base.{
  ℕ, ◌+◌, Bool, true, false, List, [], ◌∷◌, Option, none, some, if◌then◌else◌, take, drop, length,
}
use mathlib.Core.Bool.{◌||◌}
use pathwinder.Text.{Text, backslash, find_last_of, ends_with}
use pathwinder.Infra.{Infra}
use pathwinder.Strings.{path_get_windows_namespace_prefix, path_begins_with_drive_letter}
use pathwinder.Rule.{
  FilesystemRule, RedirectMode, simple, overlay, directory_compare_with_origin,
  redirect_path_origin_to_target,
}
use pathwinder.RuleContainer.{RelatedFilesystemRuleContainer, any_rule}
use pathwinder.Instruction.{
  FileOperationInstruction, ExtraPreOperation, ensure_path_hierarchy_exists, no_preference,
  prefer_open_existing_file, AssociateNameWithHandle, no_redirection_or_interception,
  intercept_without_redirection, simple_redirect_to, overlay_redirect_to,
}
use pathwinder.Director.{
  FilesystemDirector, CreateDisposition, FileAccessMode, is_equal, select_rules_for_path,
  is_prefix_for_any_rule, has_rule_with_origin_directory,
}

-- A queried path, taken apart: `path`, its namespace prefix, the backslash that the redirected path
-- ends with again, and the rest without trailing backslashes.
pub record Query : Type 0 where
  pub path : Text
  pub windows_namespace_prefix : Text
  pub extra_suffix : Text
  pub trimmed : Text

unfoldable pub make_query : ⦃i : Infra⦄ → Text → Query
make_query ⦃i⦄ s = record {
  path = s;
  windows_namespace_prefix = path_get_windows_namespace_prefix s;
  extra_suffix = if ends_with backslash s then backslash ∷ [] else [];
  trimmed = i.remove_trailing (drop (length (path_get_windows_namespace_prefix s)) s) backslash;
}

-- What the function knows once a rule has redirected the path.
pub record Selection : Type 0 where
  pub rule : FilesystemRule
  pub directory_part : Text
  pub directory_part_with_windows_namespace_prefix : Text
  pub redirected : Text

module _ ⦃i : Infra⦄ where
  -- The loop over the rules of the container.
  unfoldable pub first_redirection :
      List FilesystemRule → Text → Text → Text → Text → Option (FilesystemRule × Text)
  first_redirection [] directory file namespace_prefix suffix = none
  first_redirection (r ∷ rs) directory file namespace_prefix suffix =
      elim (redirect_path_origin_to_target r directory file namespace_prefix suffix) [
        | none ↦ first_redirection rs directory file namespace_prefix suffix
        | some redirected ↦ some (r, redirected)
      ]

  -- The path is the origin directory: the first rule redirects it, with no file part.
  unfoldable pub select_for_origin : Query → FilesystemRule → Option Selection
  select_for_origin q r =
      elim (redirect_path_origin_to_target r q.trimmed [] q.windows_namespace_prefix
        q.extra_suffix) [
          | none ↦ none
          | some redirected ↦ some (record {
            rule = r;
            directory_part = q.trimmed;
            directory_part_with_windows_namespace_prefix =
                take (length q.windows_namespace_prefix + length q.trimmed) q.path;
            redirected = redirected;
          })
        ]

  -- Another path: it is cut at its last separator, and the first rule that redirects it is taken.
  unfoldable pub select_among : Query → ℕ → List FilesystemRule → Option Selection
  select_among q last rules =
      elim (first_redirection rules (take last q.trimmed) (drop (1 + last) q.trimmed)
        q.windows_namespace_prefix q.extra_suffix) [
          | none ↦ none
          | some (r, redirected) ↦ some (record {
            rule = r;
            directory_part = take last q.trimmed;
            directory_part_with_windows_namespace_prefix =
                take (length q.windows_namespace_prefix + last) q.path;
            redirected = redirected;
          })
        ]

  -- `any` is AnyRule of the container.
  unfoldable pub select_redirection :
      Query → ℕ → RelatedFilesystemRuleContainer → FilesystemRule → Option Selection
  select_redirection q last c any =
      if is_equal (directory_compare_with_origin any q.trimmed)
      then select_for_origin q any
      else select_among q last c.filesystem_rules

  -- The operand of the pre-operation where a file may be created: the redirected path's parent.
  unfoldable pub hierarchy_of : Text → Text
  hierarchy_of redirected =
      i.remove_trailing
        (elim (find_last_of backslash (i.remove_trailing redirected backslash)) [
          | none ↦ redirected
          | some position ↦ take position redirected
        ])
        backslash

  -- The pre-operations and their operand. `is_directory` is FilesystemOperations::IsDirectory.
  unfoldable pub extra_pre_operations_for :
      (Text → Bool)
      → FilesystemDirector
      → CreateDisposition
      → Query
      → Selection
      → List ExtraPreOperation × Text
  extra_pre_operations_for is_directory d disposition q s =
      elim disposition.allows_create_new_file [
        | true ↦
            if has_rule_with_origin_directory d s.directory_part
              || is_directory s.directory_part_with_windows_namespace_prefix
            then (ensure_path_hierarchy_exists ∷ [], hierarchy_of s.redirected)
            else ([], [])
        | false ↦
            if is_directory q.trimmed
            then (ensure_path_hierarchy_exists ∷ [], i.remove_trailing s.redirected backslash)
            else ([], [])
      ]

  -- The switch on the redirect mode.
  unfoldable pub instruction_for_selection :
      CreateDisposition → Selection → List ExtraPreOperation × Text → FileOperationInstruction
  instruction_for_selection disposition s (operations, operand) = elim s.rule.redirect_mode [
    | overlay ↦
        overlay_redirect_to s.redirected AssociateNameWithHandle.unredirected
          (if disposition.allows_create_new_file then prefer_open_existing_file else no_preference)
          operations operand
    | simple ↦
        simple_redirect_to s.redirected AssociateNameWithHandle.unredirected operations operand
    | RedirectMode.count ↦ no_redirection_or_interception
  ]

  -- The function from the selection of a rule container on.
  unfoldable pub instruction_with_rules :
      (Text → Bool)
      → FilesystemDirector
      → CreateDisposition
      → Query
      → ℕ
      → RelatedFilesystemRuleContainer
      → Option FileOperationInstruction
  instruction_with_rules is_directory d disposition q last c = elim (any_rule c) [
    | none ↦ none
    | some any ↦ elim (select_redirection q last c any) [
      | none ↦ some no_redirection_or_interception
      | some s ↦ some (
          instruction_for_selection disposition s
            (extra_pre_operations_for is_directory d disposition q s))
    ]
  ]

  -- No rule's origin directory is a prefix of the path.
  unfoldable pub instruction_without_rules : FilesystemDirector → Query → FileOperationInstruction
  instruction_without_rules d q =
      if is_prefix_for_any_rule d q.trimmed
      then intercept_without_redirection AssociateNameWithHandle.unredirected [] []
      else no_redirection_or_interception

  -- GetInstructionForFileOperation. It does not read its file access mode.
  unfoldable pub get_instruction_for_file_operation :
      (Text → Bool)
      → FilesystemDirector
      → Text
      → FileAccessMode
      → CreateDisposition
      → Option FileOperationInstruction
  get_instruction_for_file_operation is_directory d path mode disposition =
      let q = make_query path in
      elim (path_begins_with_drive_letter q.trimmed) [
        | false ↦ some no_redirection_or_interception
        | true ↦ elim (find_last_of backslash q.trimmed) [
          | none ↦ some no_redirection_or_interception
          | some last ↦ elim (select_rules_for_path d q.trimmed) [
            | none ↦ some (instruction_without_rules d q)
            | some c ↦ instruction_with_rules is_directory d disposition q last c
          ]
        ]
      ]
