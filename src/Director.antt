-- ===== src/Director.antt =====
-- FilesystemDirector.h and FilesystemDirector.cpp: the director's data and its queries. The
-- instructions that it gives are Director/FileOperation and Director/DirectoryEnumeration.
pub mod FileOperation
pub mod DirectoryEnumeration
pub mod FirstMatch
pub mod TargetSide
pub mod ModeCounts
pub mod OriginSide
pub mod Insertions
pub mod Selected
pub mod Redirection
pub mod Preparation
pub mod Completeness
pub mod Listing
use pathwinder.Base.{ℕ, Bool, true, false, List, [], ◌∷◌, Option, none, some, if◌then◌else◌, length}
use pathwinder.Text.{Text, text_eq}
use pathwinder.Infra.{Infra}
use pathwinder.Rule.{
  FilesystemRule, DirectoryCompareResult, equal, candidate_is_child, candidate_is_descendant,
  directory_compare_with_target,
}
use pathwinder.Rule.Compare.{equals_refl, equals_sym, equals_trans}
use pathwinder.RuleContainer.{RelatedFilesystemRuleContainer, any_rule}
use pathwinder.PrefixTree.{
  KeyEq, PrefixTree, data_of, tree_contains, has_path_for_prefix, longest_matching_prefix,
}

-- The bits of ECreateDisposition.
pub record CreateDisposition : Type 0 where
  pub allows_create_new_file : Bool
  allows_open_existing_file : Bool

abbrev pub create_new_file : CreateDisposition
create_new_file = record { allows_create_new_file = true; allows_open_existing_file = false }

abbrev pub create_new_or_open_existing_file : CreateDisposition
create_new_or_open_existing_file = record {
  allows_create_new_file = true;
  allows_open_existing_file = true;
}

abbrev pub open_existing_file : CreateDisposition
open_existing_file = record { allows_create_new_file = false; allows_open_existing_file = true }

-- The bits of EFileAccessMode.
pub record FileAccessMode : Type 0 where
  pub allows_read : Bool
  pub allows_write : Bool
  pub allows_delete : Bool

abbrev pub read_only : FileAccessMode
read_only = record { allows_read = true; allows_write = false; allows_delete = false }

abbrev pub delete_only : FileAccessMode
delete_only = record { allows_read = false; allows_write = false; allows_delete = true }

-- The maps and sets that only a builder and a reader by name use are lists.
pub record FilesystemDirector : Type 0 where
  pub origin_directories : List Text
  pub target_directories : List Text
  pub filesystem_rule_names : List Text
  pub filesystem_rules_by_origin_directory : PrefixTree RelatedFilesystemRuleContainer
  pub filesystem_rules_by_name : List (Text × FilesystemRule)

unfoldable director_count_of_rules : FilesystemDirector → ℕ
director_count_of_rules d = length d.filesystem_rules_by_name

-- std::map::find, by a case-sensitive name.
unfoldable pub find_by_name : Text → List (Text × FilesystemRule) → Option FilesystemRule
find_by_name name [] = none
find_by_name name ((key, r) ∷ rs) = if text_eq key name then some r else find_by_name name rs

unfoldable find_rule_by_name : FilesystemDirector → Text → Option FilesystemRule
find_rule_by_name d name = find_by_name name d.filesystem_rules_by_name

abbrev pub is_equal : DirectoryCompareResult → Bool
is_equal equal = true
is_equal _ = false

abbrev is_at_or_below : DirectoryCompareResult → Bool
is_at_or_below equal = true
is_at_or_below candidate_is_child = true
is_at_or_below candidate_is_descendant = true
is_at_or_below _ = false

abbrev data_at :
    Option (pathwinder.PrefixTree.Loc RelatedFilesystemRuleContainer)
    → Option RelatedFilesystemRuleContainer
data_at none = none
data_at (some l) = data_of l.here

module _ ⦃i : Infra⦄ where
  -- CaseInsensitiveEqualityComparator.
  abbrev pub case_insensitive_keys : KeyEq
  case_insensitive_keys = record {
    same = i.equals_case_insensitive;
    same_refl = equals_refl;
    same_sym = equals_sym;
    same_trans = equals_trans;
  }

  unfoldable pub has_rule_with_origin_directory : FilesystemDirector → Text → Bool
  has_rule_with_origin_directory d directory =
      tree_contains ⦃e = case_insensitive_keys⦄ i.tokenize d.filesystem_rules_by_origin_directory
        directory

  unfoldable pub is_prefix_for_any_rule : FilesystemDirector → Text → Bool
  is_prefix_for_any_rule d path =
      has_path_for_prefix ⦃e = case_insensitive_keys⦄ i.tokenize
        d.filesystem_rules_by_origin_directory path

  unfoldable pub select_rules_for_path :
      FilesystemDirector → Text → Option RelatedFilesystemRuleContainer
  select_rules_for_path d path = data_at (
      longest_matching_prefix ⦃e = case_insensitive_keys⦄ i.tokenize
        d.filesystem_rules_by_origin_directory path)

  -- IdentifyRuleThatPerformedRedirection.
  unfoldable pub identify_rule_that_performed_redirection :
      List FilesystemRule → Text → Option FilesystemRule
  identify_rule_that_performed_redirection [] redirected = none
  identify_rule_that_performed_redirection (r ∷ rs) redirected =
      if is_at_or_below (directory_compare_with_target r redirected)
      then some r
      else identify_rule_that_performed_redirection rs redirected

-- The loop of SelectRuleForDirectoryNameInsertionSource.
unfoldable pub first_with_target_directory :
    (Text → Bool) → List FilesystemRule → Option FilesystemRule
first_with_target_directory is_directory [] = none
first_with_target_directory is_directory (r ∷ rs) =
    if is_directory r.target_directory_full_path
    then some r
    else first_with_target_directory is_directory rs

-- SelectRuleForDirectoryNameInsertionSource. `is_directory` is FilesystemOperations::IsDirectory.
unfoldable pub select_rule_for_directory_name_insertion_source :
    (Text → Bool) → RelatedFilesystemRuleContainer → Option FilesystemRule
select_rule_for_directory_name_insertion_source is_directory c =
    elim (first_with_target_directory is_directory c.filesystem_rules) [
      | none ↦ any_rule c
      | some r ↦ some r
    ]
