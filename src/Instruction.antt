-- ===== src/Instruction.antt =====
-- FilesystemInstruction.h and FilesystemInstruction.cpp: what a director tells an executor to do.
-- A pointer to a rule or to a container is the rule or the container: neither changes.
use pathwinder.Base.{
  ℕ, Bool, true, false, not, List, [], ◌∷◌, Option, none, some, ◌==◌, if◌then◌else◌, ◌&&◌, is_some,
}
use pathwinder.Text.{Text}
use pathwinder.Infra.{Infra}
use pathwinder.Rule.{
  FilesystemRule, RedirectMode, overlay, file_name_matches_any_pattern, get_origin_directory_name,
}
use pathwinder.RuleContainer.{
  RelatedFilesystemRuleContainer, rule_matching_file_name, get_rule_by_index,
}

-- EAssociateNameWithHandle.
pub data AssociateNameWithHandle : Type 0 where
  no_name whichever_was_successful unredirected redirected count : AssociateNameWithHandle

-- ECreateDispositionPreference.
pub data CreateDispositionPreference : Type 0 where
  no_preference prefer_create_new_file : CreateDispositionPreference
  prefer_open_existing_file count : CreateDispositionPreference

-- EDirectoryPathSource.
pub data DirectoryPathSource : Type 0 where
  no_source associated_path real_opened_path : DirectoryPathSource
  file_pattern_source_origin_directory : DirectoryPathSource
  file_pattern_source_target_directory count : DirectoryPathSource

-- EExtraPreOperation.
pub data ExtraPreOperation : Type 0 where
  ensure_path_hierarchy_exists count : ExtraPreOperation

-- EFilePatternMatchCondition.
pub data FilePatternMatchCondition : Type 0 where
  single_rule_only match_any match_by_redirect_mode_invert_overlay : FilePatternMatchCondition
  match_by_position_invert_all_prior_to_selected count : FilePatternMatchCondition

-- ETryFiles.
pub data TryFiles : Type 0 where
  unredirected_only unredirected_first redirected_first redirected_only count : TryFiles

-- UFilePatternSource, with the pointer's tag that the match condition gives.
pub data FilePatternSource : Type 0 where
  null : FilePatternSource
  single_rule : FilesystemRule → FilePatternSource
  multiple_rules : RelatedFilesystemRuleContainer → FilePatternSource

pub record SingleDirectoryEnumeration : Type 0 where
  file_pattern_source : FilePatternSource
  invert_matches : Bool
  file_pattern_match_condition : FilePatternMatchCondition
  file_pattern_match_rule_index : ℕ
  directory_path_source : DirectoryPathSource

unfoldable pub include_all_filenames : DirectoryPathSource → SingleDirectoryEnumeration
include_all_filenames source = record {
  file_pattern_source = null;
  invert_matches = false;
  file_pattern_match_condition = single_rule_only;
  file_pattern_match_rule_index = 0;
  directory_path_source = source;
}

-- The constructor with one rule.
unfoldable pub with_single_rule :
    DirectoryPathSource → FilesystemRule → Bool → SingleDirectoryEnumeration
with_single_rule source r invert = record {
  file_pattern_source = single_rule r;
  invert_matches = invert;
  file_pattern_match_condition = single_rule_only;
  file_pattern_match_rule_index = 0;
  directory_path_source = source;
}

-- The constructor with a container.
unfoldable pub with_multiple_rules :
    DirectoryPathSource
    → RelatedFilesystemRuleContainer
    → Bool
    → FilePatternMatchCondition
    → ℕ
    → SingleDirectoryEnumeration
with_multiple_rules source c invert condition index = record {
  file_pattern_source = multiple_rules c;
  invert_matches = invert;
  file_pattern_match_condition = condition;
  file_pattern_match_rule_index = index;
  directory_path_source = source;
}

unfoldable pub include_only_matching_filenames :
    DirectoryPathSource → FilesystemRule → SingleDirectoryEnumeration
include_only_matching_filenames source r = with_single_rule source r false

unfoldable pub include_only_matching_filenames_of :
    DirectoryPathSource
    → RelatedFilesystemRuleContainer
    → FilePatternMatchCondition
    → ℕ
    → SingleDirectoryEnumeration
include_only_matching_filenames_of source c condition index =
    with_multiple_rules source c false condition index

unfoldable pub include_all_except_matching_filenames :
    DirectoryPathSource → FilesystemRule → SingleDirectoryEnumeration
include_all_except_matching_filenames source r = with_single_rule source r true

unfoldable pub include_all_except_matching_filenames_of :
    DirectoryPathSource
    → RelatedFilesystemRuleContainer
    → FilePatternMatchCondition
    → ℕ
    → SingleDirectoryEnumeration
include_all_except_matching_filenames_of source c condition index =
    with_multiple_rules source c true condition index

-- The rule that SelectDirectoryPath reads a directory of. The pointers that it follows without a
-- test are `none` where they are null.
unfoldable pub selected_rule : SingleDirectoryEnumeration → Option FilesystemRule
selected_rule e = elim e.file_pattern_source [
  | null ↦ none
  | single_rule r ↦ some r
  | multiple_rules c ↦ get_rule_by_index c e.file_pattern_match_rule_index
]

abbrev origin_of : Option FilesystemRule → Option Text
origin_of none = none
origin_of (some r) = some r.origin_directory_full_path

abbrev pub target_of : Option FilesystemRule → Option Text
target_of none = none
target_of (some r) = some r.target_directory_full_path

-- SelectDirectoryPath.
unfoldable pub select_directory_path : SingleDirectoryEnumeration → Text → Text → Option Text
select_directory_path e associated real_opened = elim e.directory_path_source [
  | associated_path ↦ some associated
  | real_opened_path ↦ some real_opened
  | file_pattern_source_origin_directory ↦ origin_of (selected_rule e)
  | file_pattern_source_target_directory ↦ target_of (selected_rule e)
  | _ ↦ some []
]

abbrev is_overlay : RedirectMode → Bool
is_overlay overlay = true
is_overlay _ = false

abbrev bool_ne : Bool → Bool → Bool
bool_ne true b = not b
bool_ne false b = b

-- The switch of ShouldIncludeInDirectoryEnumeration, for a rule found at a position.
unfoldable pub include_by_condition :
    FilePatternMatchCondition → ℕ → Bool → FilesystemRule → ℕ → Bool
include_by_condition match_any selected found r position = found
include_by_condition match_by_redirect_mode_invert_overlay selected found r position =
    if is_overlay r.redirect_mode then not found else found
include_by_condition match_by_position_invert_all_prior_to_selected selected found r position =
    if position == selected then found else not found
include_by_condition _ selected found r position = false

-- ShouldIncludeInDirectoryEnumeration.
unfoldable pub should_include_in_directory_enumeration :
    ⦃i : Infra⦄ → SingleDirectoryEnumeration → Text → Bool
should_include_in_directory_enumeration e filename = elim e.file_pattern_source [
  | null ↦ true
  | single_rule r ↦ bool_ne (file_name_matches_any_pattern r filename) e.invert_matches
  | multiple_rules c ↦
      let (matching, position) =
        rule_matching_file_name c filename e.file_pattern_match_rule_index in
      elim matching [
        | none ↦ e.invert_matches
        | some r ↦
            include_by_condition e.file_pattern_match_condition e.file_pattern_match_rule_index
              (not e.invert_matches) r position
      ]
]

abbrev is_null : FilePatternSource → Bool
is_null null = true
is_null _ = false

abbrev is_single_rule_only : FilePatternMatchCondition → Bool
is_single_rule_only single_rule_only = true
is_single_rule_only _ = false

abbrev is_real_opened_path : DirectoryPathSource → Bool
is_real_opened_path real_opened_path = true
is_real_opened_path _ = false

-- SingleDirectoryNameInsertion: the rule that it holds.
pub record SingleDirectoryNameInsertion : Type 0 where
  pub filesystem_rule : FilesystemRule

unfoldable directory_information_source_absolute_path : SingleDirectoryNameInsertion → Text
directory_information_source_absolute_path n = n.filesystem_rule.target_directory_full_path

unfoldable pub file_name_to_insert : SingleDirectoryNameInsertion → Text
file_name_to_insert n = get_origin_directory_name n.filesystem_rule

pub record DirectoryEnumerationInstruction : Type 0 where
  pub directories_to_enumerate : List SingleDirectoryEnumeration
  pub directory_names_to_insert : Option (List SingleDirectoryNameInsertion)

unfoldable pub pass_through_unmodified_query : DirectoryEnumerationInstruction
pass_through_unmodified_query = record {
  directories_to_enumerate = include_all_filenames real_opened_path ∷ [];
  directory_names_to_insert = none;
}

-- The comparison with PassThroughUnmodifiedQuery.
abbrev is_all_real_opened : SingleDirectoryEnumeration → Bool
is_all_real_opened e =
    is_null e.file_pattern_source
    && (not e.invert_matches
        && (is_single_rule_only e.file_pattern_match_condition
            && (e.file_pattern_match_rule_index == 0
                && is_real_opened_path e.directory_path_source)))

abbrev are_all_real_opened : List SingleDirectoryEnumeration → Bool
are_all_real_opened (e ∷ []) = is_all_real_opened e
are_all_real_opened _ = false

unfoldable pub is_pass_through_unmodified_query : DirectoryEnumerationInstruction → Bool
is_pass_through_unmodified_query instruction =
    not (is_some instruction.directory_names_to_insert)
    && are_all_real_opened instruction.directories_to_enumerate

-- BitSetEnum of the pre-operations is the list of those that are set.
pub record FileOperationInstruction : Type 0 where
  pub redirected_filename : Option Text
  pub filenames_to_try : TryFiles
  pub create_disposition_preference : CreateDispositionPreference
  pub filename_handle_association : AssociateNameWithHandle
  pub extra_pre_operations : List ExtraPreOperation
  pub extra_pre_operation_operand : Text

unfoldable pub no_redirection_or_interception : FileOperationInstruction
no_redirection_or_interception = record {
  redirected_filename = none;
  filenames_to_try = unredirected_only;
  create_disposition_preference = no_preference;
  filename_handle_association = no_name;
  extra_pre_operations = [];
  extra_pre_operation_operand = [];
}

unfoldable pub intercept_without_redirection :
    AssociateNameWithHandle → List ExtraPreOperation → Text → FileOperationInstruction
intercept_without_redirection association operations operand = record {
  redirected_filename = none;
  filenames_to_try = unredirected_only;
  create_disposition_preference = no_preference;
  filename_handle_association = association;
  extra_pre_operations = operations;
  extra_pre_operation_operand = operand;
}

unfoldable pub simple_redirect_to :
    Text → AssociateNameWithHandle → List ExtraPreOperation → Text → FileOperationInstruction
simple_redirect_to filename association operations operand = record {
  redirected_filename = some filename;
  filenames_to_try = redirected_only;
  create_disposition_preference = no_preference;
  filename_handle_association = association;
  extra_pre_operations = operations;
  extra_pre_operation_operand = operand;
}

unfoldable pub overlay_redirect_to :
    Text
    → AssociateNameWithHandle
    → CreateDispositionPreference
    → List ExtraPreOperation
    → Text
    → FileOperationInstruction
overlay_redirect_to filename association preference operations operand = record {
  redirected_filename = some filename;
  filenames_to_try = redirected_first;
  create_disposition_preference = preference;
  filename_handle_association = association;
  extra_pre_operations = operations;
  extra_pre_operation_operand = operand;
}
