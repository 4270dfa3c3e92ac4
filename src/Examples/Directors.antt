-- ===== src/Examples/Directors.antt =====
-- The director: runs of its instructions, and instances of their theorems.
use pathwinder.Base.{true, List, [], ◌∷◌, ◌≡◌, inl, inr, refl, some, arith}
use pathwinder.Text.{text_eq, find_last_of, find_first_of, ends_with}
use pathwinder.Strings.{
  path_begins_with_drive_letter, path_get_windows_namespace_prefix, file_name_matches_pattern,
}
use pathwinder.PrefixTree.{longest_matching_prefix, tree_contains}
use pathwinder.Infra.{ascii}
use pathwinder.Rule.{
  FilesystemRule, directory_compare_with_origin, directory_compare, redirect_path_origin_to_target,
  redirect_path, is_redirected, first_component, matches_any_pattern, matches_some_pattern,
  file_name_matches_any_pattern,
}
use pathwinder.RuleContainer.{RelatedFilesystemRuleContainer, any_rule, count_of_rules}
use pathwinder.RuleContainer.Matching.{IsAmong}
use pathwinder.Instruction.{
  FileOperationInstruction, redirected_first, prefer_open_existing_file,
  ensure_path_hierarchy_exists, AssociateNameWithHandle, SingleDirectoryNameInsertion,
  overlay_redirect_to, simple_redirect_to,
}
use pathwinder.Director.{
  create_new_or_open_existing_file, read_only, select_rules_for_path,
  select_rule_for_directory_name_insertion_source, first_with_target_directory,
  has_rule_with_origin_directory,
}
use pathwinder.Director.FileOperation.{
  make_query, get_instruction_for_file_operation, first_redirection, hierarchy_of,
  instruction_with_rules, select_redirection, select_for_origin, select_among,
  extra_pre_operations_for, instruction_for_selection,
}
use pathwinder.Director.DirectoryEnumeration.{target_side, origin_side}
use pathwinder.Director.FirstMatch.{
  first_match, redirecting_rule, ShareOrigin, first_redirection-first_match,
}
use pathwinder.Director.TargetSide.{listed_from, target_side-listed}
use pathwinder.Director.OriginSide.{origin_side-listed}
use pathwinder.Director.Redirection.{tries_for, preference_for, redirection_sound}
use pathwinder.Director.Selected.{Redirects}
use pathwinder.Director.Preparation.{Prepares, preparation_safe}
use pathwinder.Examples.Data.{text, games, text_rule, overlay_rule, two_rules, director, nowhere}

-- C:\g\a goes to D:\o\a, where an existing file is preferred, and D:\o is created: C:\g is the
-- origin directory of a rule.
abbrev expected : FileOperationInstruction
expected = record {
  redirected_filename = some (text "D:\\o\\a");
  filenames_to_try = redirected_first;
  create_disposition_preference = prefer_open_existing_file;
  filename_handle_association = AssociateNameWithHandle.unredirected;
  extra_pre_operations = ensure_path_hierarchy_exists ∷ [];
  extra_pre_operation_operand = text "D:\\o";
}

file_operation_test :
    get_instruction_for_file_operation ⦃i = ascii⦄ nowhere director
      (text "C:\\g\\a")
      read_only
      create_new_or_open_existing_file
    ≡ some expected
unfolding ascii get_instruction_for_file_operation path_begins_with_drive_letter
    path_get_windows_namespace_prefix make_query find_last_of ends_with select_rules_for_path
    longest_matching_prefix instruction_with_rules any_rule select_redirection
    directory_compare_with_origin directory_compare select_for_origin select_among first_redirection
    redirect_path_origin_to_target redirect_path is_redirected first_component find_first_of
    matches_any_pattern matches_some_pattern file_name_matches_pattern extra_pre_operations_for
    hierarchy_of instruction_for_selection overlay_redirect_to simple_redirect_to
    has_rule_with_origin_directory tree_contains
file_operation_test = refl

redirection_sound_example :
    (c : RelatedFilesystemRuleContainer) × (r : FilesystemRule) × (select_rules_for_path ⦃i = ascii⦄
        director
        (make_query ⦃i = ascii⦄ (text "C:\\g\\a")).trimmed
      ≡ some c)
    × IsAmong r c.filesystem_rules
    × Redirects ⦃i = ascii⦄ (make_query ⦃i = ascii⦄ (text "C:\\g\\a")) r (text "D:\\o\\a")
    × (redirected_first ≡ tries_for ⦃i = ascii⦄ r.redirect_mode)
    × (prefer_open_existing_file ≡ preference_for ⦃i = ascii⦄ r.redirect_mode true)
    × (AssociateNameWithHandle.unredirected ≡ AssociateNameWithHandle.unredirected)
redirection_sound_example =
    redirection_sound ⦃i = ascii⦄ nowhere director (text "C:\\g\\a") read_only
      create_new_or_open_existing_file expected (text "D:\\o\\a") file_operation_test refl

preparation_safe_example :
    (c : RelatedFilesystemRuleContainer) × (select_rules_for_path ⦃i = ascii⦄ director
        (make_query ⦃i = ascii⦄ (text "C:\\g\\a")).trimmed
      ≡ some c)
    × Prepares ⦃i = ascii⦄ nowhere director create_new_or_open_existing_file
        (make_query ⦃i = ascii⦄ (text "C:\\g\\a"))
        c
        (text "D:\\o")
        (text "D:\\o\\a")
        (ensure_path_hierarchy_exists ∷ [])
        (text "D:\\o")
unfolding find_last_of
preparation_safe_example =
    preparation_safe ⦃i = ascii⦄ nowhere director (text "C:\\g\\a") read_only
      create_new_or_open_existing_file expected (text "D:\\o") b'a' [] 0 refl file_operation_test
      refl

share_origin : ShareOrigin ⦃i = ascii⦄ games two_rules.filesystem_rules
unfolding ascii directory_compare_with_origin directory_compare
share_origin = (refl, (refl, tt))

first_redirection-first_match_example :
    redirecting_rule ⦃i = ascii⦄
      (first_redirection ⦃i = ascii⦄ two_rules.filesystem_rules games (text "tx") [] [])
    ≡ first_match ⦃i = ascii⦄ (text "tx") two_rules.filesystem_rules
first_redirection-first_match_example =
    first_redirection-first_match ⦃i = ascii⦄ two_rules.filesystem_rules games (text "tx") [] []
      share_origin refl

target_side-listed_example :
    listed_from ⦃i = ascii⦄ (text "tx") games (text "D:\\t") (target_side two_rules text_rule)
    ≡ some (text "D:\\t") ∷ []
unfolding ascii file_name_matches_any_pattern count_of_rules matches_any_pattern
    matches_some_pattern file_name_matches_pattern
target_side-listed_example =
    target_side-listed ⦃i = ascii⦄ two_rules text_rule (text "tx") games (text "D:\\t")
      (omega arith) (λ one. absurd (cc))

origin_side-listed_example :
    listed_from ⦃i = ascii⦄ (text "tx") games (text "D:\\t") (origin_side two_rules text_rule) ≡ []
unfolding ascii file_name_matches_any_pattern count_of_rules matches_any_pattern
    matches_some_pattern file_name_matches_pattern
origin_side-listed_example =
    origin_side-listed ⦃i = ascii⦄ two_rules text_rule (text "tx") games (text "D:\\t")
      (omega arith) (inl refl, (inr refl, tt)) (λ one. absurd (cc))

abbrev two_names : List SingleDirectoryNameInsertion
two_names = record { filesystem_rule = text_rule } ∷ record { filesystem_rule = overlay_rule } ∷ []

source_test :
    select_rule_for_directory_name_insertion_source (text_eq (text "D:\\o")) two_rules
    ≡ some overlay_rule
unfolding select_rule_for_directory_name_insertion_source first_with_target_directory text_eq
source_test = refl
