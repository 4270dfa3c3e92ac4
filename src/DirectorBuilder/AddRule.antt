-- ===== src/DirectorBuilder/AddRule.antt =====
-- FilesystemDirectorBuilder.cpp: AddRule.
use pathwinder.Base.{ℕ, true, false, not, List, ◌∷◌, Option, none, some, if◌then◌else◌, is_some}
use mathlib.Core.Bool.{◌||◌}
use pathwinder.Text.{Text, text_eq}
use pathwinder.Infra.{Infra}
use pathwinder.PrefixTree.{PrefixTree, insert, zip_up, set_data, data_of}
use pathwinder.Rule.{FilesystemRule, RedirectMode, make_rule}
use pathwinder.RuleContainer.{RelatedFilesystemRuleContainer, empty_container, emplace_rule}
use pathwinder.Director.{case_insensitive_keys, find_by_name}
use pathwinder.DirectorBuilder.{
  FilesystemDirectorBuilder, set_contains, set_emplace, has_origin_directory, has_target_directory,
  full_path_of, are_valid_patterns,
}

-- A node that Emplace returned has data.
abbrev pub container_or_empty :
    Option RelatedFilesystemRuleContainer → RelatedFilesystemRuleContainer
container_or_empty none = empty_container
container_or_empty (some c) = c

-- std::map::emplace. The order of names is not kept.
unfoldable pub emplace_by_name :
    FilesystemRule → List (Text × FilesystemRule) → List (Text × FilesystemRule)
emplace_by_name r rules = if is_some (find_by_name r.name rules) then rules else (r.name, r) ∷ rules

module _ ⦃i : Infra⦄ where
  -- Emplace in the tree, and EmplaceRule in the container that it leads to.
  unfoldable pub place_in_tree :
      PrefixTree RelatedFilesystemRuleContainer
      → Text
      → FilesystemRule
      → PrefixTree RelatedFilesystemRuleContainer × Option FilesystemRule
  place_in_tree tree origin r =
      let (grown, l, added) =
        insert ⦃e = case_insensitive_keys⦄ i.tokenize tree origin empty_container in
      let (c, there, created) = emplace_rule (container_or_empty (data_of l.here)) r in
      (
        record grown { root = zip_up ⦃e = case_insensitive_keys⦄ (set_data c l.here) l.parents },
        there,
      )

  -- AddRule, from the checks on. The texts of a rule are those that the sets own.
  unfoldable pub place_rule :
      FilesystemDirectorBuilder
      → Text
      → Text
      → Text
      → List Text
      → RedirectMode
      → FilesystemDirectorBuilder × Option FilesystemRule
  place_rule b name origin target patterns mode =
      let (origins, owned_origin) =
        set_emplace i.equals_case_insensitive origin b.origin_directories in
      let (targets, owned_target) =
        set_emplace i.equals_case_insensitive target b.target_directories in
      let (names, owned_name) = set_emplace text_eq name b.filesystem_rule_names in
      let (tree, there) =
        place_in_tree b.filesystem_rules_by_origin_directory owned_origin
          (make_rule owned_name owned_origin owned_target patterns mode) in
      let placed : FilesystemDirectorBuilder = record {
        origin_directories = origins;
        target_directories = targets;
        filesystem_rule_names = names;
        filesystem_rules_by_origin_directory = tree;
        filesystem_rules_by_name = b.filesystem_rules_by_name;
      } in
      elim there [
        | none ↦ (placed, none)
        | some r ↦ (
          record placed { filesystem_rules_by_name = emplace_by_name r b.filesystem_rules_by_name },
          some r,
        )
      ]

  -- The checks on the target directory.
  unfoldable pub add_rule_with_origin :
      (Text → Option Text)
      → ℕ
      → FilesystemDirectorBuilder
      → Text
      → Text
      → Text
      → List Text
      → RedirectMode
      → FilesystemDirectorBuilder × Option FilesystemRule
  add_rule_with_origin resolve_all_references capacity b name origin target patterns mode =
      elim (full_path_of resolve_all_references capacity target) [
        | none ↦ (b, none)
        | some full ↦ elim (has_origin_directory b full || has_target_directory b full) [
          | true ↦ (b, none)
          | false ↦ place_rule b name origin full patterns mode
        ]
      ]

  unfoldable pub add_rule :
      (Text → Option Text)
      → ℕ
      → FilesystemDirectorBuilder
      → Text
      → Text
      → Text
      → List Text
      → RedirectMode
      → FilesystemDirectorBuilder × Option FilesystemRule
  add_rule resolve_all_references capacity b name origin target patterns mode =
      elim (set_contains text_eq name b.filesystem_rule_names
        || not (are_valid_patterns patterns)) [
          | true ↦ (b, none)
          | false ↦ elim (full_path_of resolve_all_references capacity origin) [
            | none ↦ (b, none)
            | some full ↦ elim (has_target_directory b full) [
              | true ↦ (b, none)
              | false ↦
                  add_rule_with_origin resolve_all_references capacity b name full target patterns
                    mode
            ]
          ]
        ]
