-- ===== src/Director/DirectoryEnumeration.antt =====
-- FilesystemDirector.cpp: GetInstructionForDirectoryEnumeration.
-- `none` is what has no defined result: a rule container without rules.
use pathwinder.Base.{
  ℕ, ◌+◌, ◌%◌, Bool, true, false, ◌&&◌, List, [], ◌∷◌, ◌++◌, Option, none, some, ◌==◌,
  if◌then◌else◌, drop, length,
}
use pathwinder.Text.{Text, backslash, text_eq}
use pathwinder.Infra.{Infra}
use pathwinder.Strings.{path_get_windows_namespace_prefix}
use pathwinder.Rule.{
  FilesystemRule, RedirectMode, simple, overlay, directory_compare_with_origin, has_file_patterns,
  equal, candidate_is_child, candidate_is_descendant,
}
use pathwinder.RuleContainer.{RelatedFilesystemRuleContainer, any_rule, count_of_rules, is_lt}
use pathwinder.Instruction.{
  SingleDirectoryEnumeration, real_opened_path, associated_path,
  file_pattern_source_target_directory, match_by_position_invert_all_prior_to_selected,
  match_by_redirect_mode_invert_overlay, include_all_filenames, include_only_matching_filenames,
  include_only_matching_filenames_of, include_all_except_matching_filenames,
  include_all_except_matching_filenames_of, SingleDirectoryNameInsertion, file_name_to_insert,
  DirectoryEnumerationInstruction, pass_through_unmodified_query,
}
use pathwinder.PrefixTree.{Children, node, nil, cons, children, traverse_to}
use pathwinder.Director.{
  FilesystemDirector, case_insensitive_keys, select_rules_for_path,
  identify_rule_that_performed_redirection, select_rule_for_directory_name_insertion_source,
}

-- The counts that the loop over the rules keeps. The number of rules is at most 64.
pub record ModeCounts : Type 0 where
  pub simple_rules : ℕ
  pub overlay_rules : ℕ
  pub contains_simple_rule_with_no_file_patterns : Bool

abbrev pub no_counts : ModeCounts
no_counts = record {
  simple_rules = 0;
  overlay_rules = 0;
  contains_simple_rule_with_no_file_patterns = false;
}

-- The switch on one rule's mode.
unfoldable pub count_mode : FilesystemRule → ModeCounts → ModeCounts
count_mode r n = elim r.redirect_mode [
  | simple ↦ record n {
    simple_rules = n.simple_rules + 1;
    contains_simple_rule_with_no_file_patterns =
        if has_file_patterns r then n.contains_simple_rule_with_no_file_patterns else true;
  }
  | overlay ↦ record n { overlay_rules = n.overlay_rules + 1 }
  | RedirectMode.count ↦ n
]

unfoldable pub count_modes : List FilesystemRule → ModeCounts → ModeCounts
count_modes [] n = n
count_modes (r ∷ rs) n = count_modes rs (count_mode r n)

-- The target side of the only rule.
unfoldable pub target_side_of_rule : FilesystemRule → SingleDirectoryEnumeration
target_side_of_rule r =
    if has_file_patterns r
    then include_only_matching_filenames real_opened_path r
    else include_all_filenames real_opened_path

-- The target sides of several rules, from a position on. The position wraps at 8 bits.
unfoldable pub target_sides_of_rules :
    RelatedFilesystemRuleContainer → ℕ → List FilesystemRule → List SingleDirectoryEnumeration
target_sides_of_rules c index [] = []
target_sides_of_rules c index (r ∷ rs) =
    include_only_matching_filenames_of file_pattern_source_target_directory c
      match_by_position_invert_all_prior_to_selected index
    ∷ target_sides_of_rules c ((index + 1) % 256) rs

unfoldable pub target_side :
    RelatedFilesystemRuleContainer → FilesystemRule → List SingleDirectoryEnumeration
target_side c original =
    if count_of_rules c == 1
    then target_side_of_rule original ∷ []
    else target_sides_of_rules c 0 c.filesystem_rules

-- The modes that were counted: of the rule that redirected, where it is the only one.
unfoldable pub counted_modes : RelatedFilesystemRuleContainer → FilesystemRule → ModeCounts
counted_modes c original =
    if count_of_rules c == 1
    then count_mode original no_counts
    else count_modes c.filesystem_rules no_counts

-- The default position of a single enumeration: the largest index.
abbrev last_index : ℕ
last_index = pathwinder.RuleContainer.maximum_rules_index

-- The enumeration of the origin side, unless its contents are completely replaced.
unfoldable pub origin_side :
    RelatedFilesystemRuleContainer → FilesystemRule → List SingleDirectoryEnumeration
origin_side c original =
    let n = counted_modes c original in
    if n.overlay_rules == 0 && n.contains_simple_rule_with_no_file_patterns
    then []
    else (if n.simple_rules == 0
        then include_all_filenames associated_path ∷ []
        else (if count_of_rules c == 1
            then include_all_except_matching_filenames associated_path original ∷ []
            else include_all_except_matching_filenames_of associated_path c
                match_by_redirect_mode_invert_overlay last_index
              ∷ []))

-- The directory is a descendant of the origin directory: only the rule that redirected counts.
unfoldable pub enumerate_descendant : FilesystemRule → Option (List SingleDirectoryEnumeration)
enumerate_descendant original = elim original.redirect_mode [
  | simple ↦ some (include_all_filenames real_opened_path ∷ [])
  | overlay ↦
      some (include_all_filenames real_opened_path ∷ include_all_filenames associated_path ∷ [])
  | RedirectMode.count ↦ none
]

module _ ⦃i : Infra⦄ where
  -- The path without its namespace prefix.
  unfoldable pub trimmed_for_query : Text → Text
  trimmed_for_query s = drop (length (path_get_windows_namespace_prefix s)) s

  -- Parts 1 and 2, with the rules and the rule that redirected. The inner `none` is a query that
  -- passes through unmodified.
  unfoldable pub enumerate_with_rules :
      Text
      → RelatedFilesystemRuleContainer
      → FilesystemRule
      → FilesystemRule
      → Option (List SingleDirectoryEnumeration)
  enumerate_with_rules unredirected c original any =
      elim (directory_compare_with_origin any unredirected) [
        | equal ↦ some (target_side c original ++ origin_side c original)
        | candidate_is_child ↦ enumerate_descendant original
        | candidate_is_descendant ↦ enumerate_descendant original
        | _ ↦ none
      ]

  -- Parts 1 and 2.
  unfoldable pub directories_to_enumerate_for :
      FilesystemDirector → Text → Text → Option (Option (List SingleDirectoryEnumeration))
  directories_to_enumerate_for d associated real_opened = elim (text_eq associated real_opened) [
    | true ↦ some (some (include_all_filenames real_opened_path ∷ []))
    | false ↦ elim (select_rules_for_path d (trimmed_for_query associated)) [
      | none ↦ some none
      | some c ↦
          elim (identify_rule_that_performed_redirection c.filesystem_rules
            (trimmed_for_query real_opened)) [
              | none ↦ some none
              | some original ↦ elim (any_rule c) [
                | none ↦ none
                | some any ↦
                    some (enumerate_with_rules (trimmed_for_query associated) c original any)
              ]
            ]
    ]
  ]

  -- std::sort by CompareCaseInsensitive of the names. Names that compare equal keep their order.
  unfoldable pub insert_sorted :
      SingleDirectoryNameInsertion
      → List SingleDirectoryNameInsertion
      → List SingleDirectoryNameInsertion
  insert_sorted n [] = n ∷ []
  insert_sorted n (m ∷ ms) =
      if is_lt (i.compare_case_insensitive (file_name_to_insert m) (file_name_to_insert n))
      then m ∷ insert_sorted n ms
      else n ∷ m ∷ ms

  unfoldable pub sort_insertions :
      List SingleDirectoryNameInsertion → List SingleDirectoryNameInsertion
  sort_insertions [] = []
  sort_insertions (n ∷ ns) = insert_sorted n (sort_insertions ns)

abbrev prepend_insertion :
    Option FilesystemRule
    → Option (List SingleDirectoryNameInsertion)
    → Option (List SingleDirectoryNameInsertion)
prepend_insertion (some r) (some ns) = some (record { filesystem_rule = r } ∷ ns)
prepend_insertion _ _ = none

-- The loop over the children of the directory's node.
unfoldable pub insertions_of_children :
    (Text → Bool)
    → Children RelatedFilesystemRuleContainer
    → Option (List SingleDirectoryNameInsertion)
insertions_of_children is_directory nil = some []
insertions_of_children is_directory (cons k (node none _) cs) =
    insertions_of_children is_directory cs
insertions_of_children is_directory (cons k (node (some c) _) cs) =
    prepend_insertion (select_rule_for_directory_name_insertion_source is_directory c)
      (insertions_of_children is_directory cs)

module _ ⦃i : Infra⦄ where
  -- A list that was never begun is absent, and is not sorted.
  unfoldable pub present_insertions :
      List SingleDirectoryNameInsertion → Option (List SingleDirectoryNameInsertion)
  present_insertions [] = none
  present_insertions (n ∷ ns) = some (sort_insertions (n ∷ ns))

  -- Part 3.
  unfoldable pub directory_names_to_insert_for :
      (Text → Bool)
      → FilesystemDirector
      → Text
      → Option (Option (List SingleDirectoryNameInsertion))
  directory_names_to_insert_for is_directory d associated =
      elim (traverse_to ⦃e = case_insensitive_keys⦄ i.tokenize
        d.filesystem_rules_by_origin_directory (trimmed_for_query associated)) [
          | none ↦ some none
          | some l ↦ elim (insertions_of_children is_directory (children l.here)) [
            | none ↦ none
            | some ns ↦ some (present_insertions ns)
          ]
        ]

  unfoldable pub make_enumeration_instruction :
      Option (List SingleDirectoryEnumeration)
      → Option (Option (List SingleDirectoryNameInsertion))
      → Option DirectoryEnumerationInstruction
  make_enumeration_instruction none names = some pass_through_unmodified_query
  make_enumeration_instruction (some directories) none = none
  make_enumeration_instruction (some directories) (some names) =
      some (record { directories_to_enumerate = directories; directory_names_to_insert = names })

  -- GetInstructionForDirectoryEnumeration.
  unfoldable pub get_instruction_for_directory_enumeration :
      (Text → Bool) → FilesystemDirector → Text → Text → Option DirectoryEnumerationInstruction
  get_instruction_for_directory_enumeration is_directory d associated real_opened =
      let a = i.remove_trailing associated backslash in
      let o = i.remove_trailing real_opened backslash in
      elim (directories_to_enumerate_for d a o) [
        | none ↦ none
        | some directories ↦
            make_enumeration_instruction directories
              (directory_names_to_insert_for is_directory d a)
      ]
