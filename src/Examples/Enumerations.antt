-- ===== src/Examples/Enumerations.antt =====
-- Enumerations of directories, paths that are left alone, and instances of the theorems on them.
use pathwinder.Base.{false, [], ◌∷◌, ◌≡◌, inl, inr, refl, none, some, arith}
use pathwinder.Text.{text_eq, find_last_of, find_first_of, ends_with}
use pathwinder.Infra.{ascii, path_delimiters}
use pathwinder.Strings.{
  path_begins_with_drive_letter, path_get_windows_namespace_prefix, file_name_matches_pattern,
}
use pathwinder.PrefixTree.{node, nil, cons, longest_matching_prefix, traverse_to}
use pathwinder.Rule.{
  directory_compare_with_origin, directory_compare_with_target, directory_compare,
  redirect_path_origin_to_target, redirect_path, is_redirected, first_component,
  matches_any_pattern, matches_some_pattern, file_name_matches_any_pattern,
}
use pathwinder.RuleContainer.{any_rule, count_of_rules}
use pathwinder.Instruction.{
  DirectoryEnumerationInstruction, include_only_matching_filenames_of, include_all_filenames,
  include_all_except_matching_filenames_of, file_pattern_source_target_directory, associated_path,
  real_opened_path, match_by_position_invert_all_prior_to_selected,
  match_by_redirect_mode_invert_overlay, no_redirection_or_interception,
}
use pathwinder.Director.{
  FilesystemDirector, create_new_or_open_existing_file, read_only, select_rules_for_path, is_equal,
  identify_rule_that_performed_redirection,
}
use pathwinder.Director.FileOperation.{
  make_query, get_instruction_for_file_operation, first_redirection, instruction_with_rules,
  select_redirection, select_for_origin, select_among,
}
use pathwinder.Director.DirectoryEnumeration.{
  get_instruction_for_directory_enumeration, directories_to_enumerate_for, enumerate_with_rules,
  target_side, target_sides_of_rules, origin_side, counted_modes, count_modes, count_mode,
  directory_names_to_insert_for, present_insertions, insertions_of_children,
  make_enumeration_instruction, trimmed_for_query, enumerate_descendant,
}
use pathwinder.Director.TargetSide.{listed_from}
use pathwinder.Director.Listing.{origin_enumeration_lem, descendant_enumeration_lem}
use pathwinder.Director.Completeness.{NoneRedirects, redirection_complete}
use pathwinder.Examples.Data.{text, games, text_rule, overlay_rule, two_rules, director, nowhere}

-- C:\g was opened as D:\t: each rule's target is listed for the names it is the first to match, and
-- C:\g for those that no simple rule takes.
abbrev merged : DirectoryEnumerationInstruction
merged = record {
  directories_to_enumerate =
      include_only_matching_filenames_of file_pattern_source_target_directory two_rules
        match_by_position_invert_all_prior_to_selected 0
      ∷ include_only_matching_filenames_of file_pattern_source_target_directory two_rules
          match_by_position_invert_all_prior_to_selected 1
      ∷ include_all_except_matching_filenames_of associated_path two_rules
          match_by_redirect_mode_invert_overlay 255
      ∷ [];
  directory_names_to_insert = none;
}

merged_test :
    get_instruction_for_directory_enumeration ⦃i = ascii⦄ nowhere director games (text "D:\\t")
    ≡ some merged
unfolding ascii text_eq get_instruction_for_directory_enumeration directories_to_enumerate_for
    trimmed_for_query path_get_windows_namespace_prefix select_rules_for_path
    longest_matching_prefix identify_rule_that_performed_redirection directory_compare_with_target
    directory_compare any_rule enumerate_with_rules directory_compare_with_origin target_side
    target_sides_of_rules origin_side counted_modes count_modes count_mode count_of_rules
    make_enumeration_instruction directory_names_to_insert_for present_insertions
    insertions_of_children traverse_to
merged_test = refl

origin_enumeration_lem_example :
    listed_from ⦃i = ascii⦄ (text "a") games (text "D:\\t") merged.directories_to_enumerate
    ≡ some (text "D:\\o") ∷ some games ∷ []
unfolding ascii text_eq trimmed_for_query path_get_windows_namespace_prefix select_rules_for_path
    longest_matching_prefix identify_rule_that_performed_redirection directory_compare_with_target
    directory_compare any_rule directory_compare_with_origin count_of_rules
    file_name_matches_any_pattern matches_any_pattern matches_some_pattern file_name_matches_pattern
origin_enumeration_lem_example =
    origin_enumeration_lem ⦃i = ascii⦄ nowhere director games (text "D:\\t") (text "a") two_rules
      text_rule text_rule merged refl refl refl refl refl (omega arith) (inl refl, (inr refl, tt))
      merged_test

-- C:\g\x was opened as D:\o\x.
abbrev overlaid : DirectoryEnumerationInstruction
overlaid = record {
  directories_to_enumerate =
      include_all_filenames real_opened_path ∷ include_all_filenames associated_path ∷ [];
  directory_names_to_insert = none;
}

overlaid_test :
    get_instruction_for_directory_enumeration ⦃i = ascii⦄ nowhere director
      (text "C:\\g\\x")
      (text "D:\\o\\x")
    ≡ some overlaid
unfolding ascii text_eq get_instruction_for_directory_enumeration directories_to_enumerate_for
    trimmed_for_query path_get_windows_namespace_prefix select_rules_for_path
    longest_matching_prefix identify_rule_that_performed_redirection directory_compare_with_target
    directory_compare any_rule enumerate_with_rules directory_compare_with_origin find_last_of
    enumerate_descendant make_enumeration_instruction directory_names_to_insert_for traverse_to
overlaid_test = refl

descendant_enumeration_lem_example :
    listed_from ⦃i = ascii⦄
      (text "a")
      (text "C:\\g\\x")
      (text "D:\\o\\x")
      overlaid.directories_to_enumerate
    ≡ some (text "D:\\o\\x") ∷ some (text "C:\\g\\x") ∷ []
unfolding ascii text_eq trimmed_for_query path_get_windows_namespace_prefix select_rules_for_path
    longest_matching_prefix identify_rule_that_performed_redirection directory_compare_with_target
    directory_compare any_rule directory_compare_with_origin find_last_of
descendant_enumeration_lem_example =
    descendant_enumeration_lem ⦃i = ascii⦄ nowhere director (text "C:\\g\\x") (text "D:\\o\\x")
      (text "a") two_rules overlay_rule text_rule overlaid refl refl refl refl (inl refl) (inr refl)
      overlaid_test

-- Only text files are redirected here.
abbrev text_director : FilesystemDirector
text_director = record director {
  filesystem_rules_by_origin_directory = record {
    root = node none (
        cons (text "C:")
          (node none
            (cons (text "g") (node (some (record { filesystem_rules = text_rule ∷ [] })) nil) nil))
          nil);
    delimiters = path_delimiters;
  };
}

left_alone_test :
    get_instruction_for_file_operation ⦃i = ascii⦄ nowhere text_director
      (text "C:\\g\\a")
      read_only
      create_new_or_open_existing_file
    ≡ some no_redirection_or_interception
unfolding ascii get_instruction_for_file_operation path_begins_with_drive_letter
    path_get_windows_namespace_prefix make_query find_last_of ends_with select_rules_for_path
    longest_matching_prefix instruction_with_rules any_rule select_redirection
    directory_compare_with_origin directory_compare select_for_origin select_among first_redirection
    redirect_path_origin_to_target redirect_path is_redirected first_component find_first_of
    matches_any_pattern matches_some_pattern file_name_matches_pattern
left_alone_test = refl

redirection_complete_example :
    (is_equal (directory_compare_with_origin ⦃i = ascii⦄ text_rule (text "C:\\g\\a")) ≡ false)
    × NoneRedirects ⦃i = ascii⦄ (make_query ⦃i = ascii⦄ (text "C:\\g\\a")) 4 (text_rule ∷ [])
unfolding ascii path_begins_with_drive_letter path_get_windows_namespace_prefix make_query
    find_last_of select_rules_for_path longest_matching_prefix any_rule
    no_redirection_or_interception
redirection_complete_example =
    redirection_complete ⦃i = ascii⦄ nowhere text_director (text "C:\\g\\a") read_only
      create_new_or_open_existing_file no_redirection_or_interception 4
      (record { filesystem_rules = text_rule ∷ [] }) text_rule refl refl refl refl (inl refl, tt)
      left_alone_test refl
