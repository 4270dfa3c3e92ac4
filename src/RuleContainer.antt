-- ===== src/RuleContainer.antt =====
-- FilesystemRule.h: RelatedFilesystemRuleContainer, the rules that share an origin directory.
pub mod Matching
pub mod Order
use pathwinder.Base.{
  ℕ, zero, suc, ◌+◌, ◌%◌, Bool, true, false, List, [], ◌∷◌, Option, none, some, ltb, leb, ◌==◌,
  is_some, if◌then◌else◌, length, Ordering,
}
use pathwinder.Text.{Text}
use pathwinder.Infra.{Infra}
use pathwinder.Rule.{FilesystemRule, file_name_matches_any_pattern}

-- The std::set, in its order.
pub record RelatedFilesystemRuleContainer : Type 0 where
  pub filesystem_rules : List FilesystemRule

abbrev pub maximum_filesystem_rule_count : ℕ
maximum_filesystem_rule_count = 64

-- The largest value of TFilesystemRulesIndex, an unsigned number of 8 bits.
abbrev pub maximum_rules_index : ℕ
maximum_rules_index = 255

abbrev pub empty_container : RelatedFilesystemRuleContainer
empty_container = record { filesystem_rules = [] }

abbrev pub is_lt : Ordering → Bool
is_lt Ordering.lt = true
is_lt _ = false

module _ ⦃i : Infra⦄ where
  -- OrderedFilesystemRuleLessThanComparator.
  unfoldable pub less_than : FilesystemRule → FilesystemRule → Bool
  less_than a b =
      if length a.file_patterns == length b.file_patterns
      then is_lt (i.compare_case_insensitive a.name b.name)
      else ltb (length b.file_patterns) (length a.file_patterns)

  -- std::set::emplace: the elements, the element that stands there now, and whether it is new.
  unfoldable pub emplace_ordered :
      FilesystemRule → List FilesystemRule → List FilesystemRule × FilesystemRule × Bool
  emplace_ordered r [] = (r ∷ [], r, true)
  emplace_ordered r (x ∷ xs) =
      let (rest, there, added) = emplace_ordered r xs in
      if less_than r x
      then (r ∷ x ∷ xs, r, true)
      else (if less_than x r then (x ∷ rest, there, added) else (x ∷ xs, x, false))

  -- EmplaceRule, and with it InsertRule.
  unfoldable pub emplace_rule :
      RelatedFilesystemRuleContainer
      → FilesystemRule
      → RelatedFilesystemRuleContainer × Option FilesystemRule × Bool
  emplace_rule c r =
      if leb maximum_filesystem_rule_count (length c.filesystem_rules)
      then (c, none, false)
      else (let (rules, there, added) = emplace_ordered r c.filesystem_rules in
          (record { filesystem_rules = rules }, some there, added))

  -- The loop of RuleMatchingFileName. The index wraps at 8 bits.
  unfoldable pub matching_loop : Text → ℕ → ℕ → List FilesystemRule → Option FilesystemRule × ℕ
  matching_loop file_name stop index [] = (none, 0)
  matching_loop file_name stop index (r ∷ rs) =
      let rest = matching_loop file_name stop ((index + 1) % 256) rs in
      if file_name_matches_any_pattern r file_name
      then (some r, index)
      else (if index == stop then (none, 0) else rest)

  unfoldable pub rule_matching_file_name :
      RelatedFilesystemRuleContainer → Text → ℕ → Option FilesystemRule × ℕ
  rule_matching_file_name c file_name stop = matching_loop file_name stop 0 c.filesystem_rules

  unfoldable has_rule_matching_file_name : RelatedFilesystemRuleContainer → Text → ℕ → Bool
  has_rule_matching_file_name c file_name stop =
      is_some (rule_matching_file_name c file_name stop).0

unfoldable pub count_of_rules : RelatedFilesystemRuleContainer → ℕ
count_of_rules c = length c.filesystem_rules

-- AnyRule: the first rule. On an empty container `*cbegin()` has no defined result: `none`.
unfoldable pub any_rule : RelatedFilesystemRuleContainer → Option FilesystemRule
any_rule c = elim c.filesystem_rules [ [] ↦ none | r ∷ rs ↦ some r ]

-- The loop of GetRuleByIndex.
pub index_loop : ℕ → ℕ → List FilesystemRule → Option FilesystemRule
index_loop desired index [] = none
index_loop desired index (r ∷ rs) =
    if index == desired then some r else index_loop desired ((index + 1) % 256) rs

pub get_rule_by_index : RelatedFilesystemRuleContainer → ℕ → Option FilesystemRule
get_rule_by_index c desired = index_loop desired 0 c.filesystem_rules
