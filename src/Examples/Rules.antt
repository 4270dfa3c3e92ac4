-- ===== src/Examples/Rules.antt =====
-- Paths, rules and rule containers: instances of their theorems.
use pathwinder.Base.{◌≤◌, ◌<◌, true, false, [], ◌++◌, ◌≡◌, ◌↔◌, ◌⊎◌, refl, none, some, arith}
use pathwinder.Text.{Text}
use pathwinder.Infra.{ascii}
use pathwinder.Strings.{file_name_matches_pattern}
use pathwinder.Rule.{
  FilesystemRule, directory_compare, candidate_is_child, redirect_path,
  redirect_path_origin_to_target, redirect_path_target_to_origin, is_redirected,
  matches_any_pattern, matches_some_pattern,
}
use pathwinder.Rule.Compare.{directory_compare_iff, compare_suffix}
use pathwinder.Rule.Redirect.{redirect_path_iff, redirect_round_trip, is_covered, file_part}
use pathwinder.RuleContainer.{less_than, emplace_rule, rule_matching_file_name, get_rule_by_index}
use pathwinder.RuleContainer.Matching.{
  FirstMatch, rule_matching_file_name_iff, get_rule_by_index_lem,
}
use pathwinder.RuleContainer.Order.{IsValid, IsEmplaced, emplace_rule-IsValid, emplace_rule_outcome}
use pathwinder.Examples.Data.{text, games, text_rule, overlay_rule, two_rules}

directory_compare_iff_example :
    (directory_compare ⦃i = ascii⦄ (text "c:\\G\\a") games ≡ candidate_is_child) ↔ (
      (p : Text) × (s : Text) × (text "c:\\G\\a" ≡ p ++ s)
      × (ascii.equals_case_insensitive p games ≡ true)
      × (compare_suffix ⦃i = ascii⦄ s ≡ candidate_is_child))
directory_compare_iff_example =
    directory_compare_iff ⦃i = ascii⦄ (text "c:\\G\\a") games candidate_is_child refl

redirect_path_iff_example :
    (redirect_path ⦃i = ascii⦄ games (text "a") games (text "D:\\o") [] [] []
      ≡ some (text "D:\\o\\a"))
    ↔ ((p : Text) × (s : Text) × (games ≡ p ++ s)
        × (ascii.equals_case_insensitive p games ≡ true)
        × (is_covered ⦃i = ascii⦄ s (text "a") [] ≡ true)
        × (text "D:\\o\\a"
            ≡ [] ++ (text "D:\\o" ++ (s ++ (file_part ⦃i = ascii⦄ (text "a") ++ [])))))
redirect_path_iff_example =
    redirect_path_iff ⦃i = ascii⦄ games (text "a") games (text "D:\\o") [] [] [] (text "D:\\o\\a")

redirected_test :
    redirect_path_origin_to_target ⦃i = ascii⦄ text_rule games (text "tx") [] []
    ≡ some (text "D:\\t\\tx")
unfolding ascii redirect_path_origin_to_target redirect_path is_redirected directory_compare
    matches_any_pattern matches_some_pattern file_name_matches_pattern
redirected_test = refl

redirect_round_trip_example :
    (s : Text) × (p : Text) × (games ≡ p ++ s)
    × (ascii.equals_case_insensitive p games ≡ true)
    × (text "D:\\t\\tx" ≡ [] ++ (text "D:\\t" ++ (s ++ (file_part ⦃i = ascii⦄ (text "tx") ++ []))))
    × (redirect_path_target_to_origin ⦃i = ascii⦄ text_rule (text "D:\\t" ++ s) (text "tx") [] []
        ≡ some ([] ++ (games ++ (s ++ (file_part ⦃i = ascii⦄ (text "tx") ++ [])))))
redirect_round_trip_example =
    redirect_round_trip ⦃i = ascii⦄ text_rule games (text "tx") [] [] (text "D:\\t\\tx")
      redirected_test

rule_matching_file_name_iff_example :
    (rule_matching_file_name ⦃i = ascii⦄ two_rules (text "a") 255 ≡ (some overlay_rule, 1))
    ↔ ((1 ≤ 255) × FirstMatch ⦃i = ascii⦄ (text "a") two_rules.filesystem_rules 1 overlay_rule)
rule_matching_file_name_iff_example =
    rule_matching_file_name_iff ⦃i = ascii⦄ two_rules (text "a") 255 1 overlay_rule (omega arith)

get_rule_by_index_lem_example : get_rule_by_index two_rules 1 ≡ some overlay_rule
get_rule_by_index_lem_example = get_rule_by_index_lem two_rules 1 (omega arith)

two_rules-IsValid : IsValid ⦃i = ascii⦄ two_rules
unfolding ascii less_than
two_rules-IsValid = record { ordered = ((refl, tt), (tt, tt)); bounded = omega arith }

emplace_rule-IsValid_example :
    IsValid ⦃i = ascii⦄ (emplace_rule ⦃i = ascii⦄ two_rules overlay_rule).0
emplace_rule-IsValid_example =
    emplace_rule-IsValid ⦃i = ascii⦄ two_rules overlay_rule two_rules-IsValid

emplace_rule_outcome_example :
    ((64 ≤ 2) × (emplace_rule ⦃i = ascii⦄ two_rules text_rule ≡ (two_rules, none, false)))
    ⊎ ((2 < 64)
        × ((there : FilesystemRule) × ((emplace_rule ⦃i = ascii⦄ two_rules text_rule).1
              ≡ some there)
            × IsEmplaced ⦃i = ascii⦄ text_rule two_rules.filesystem_rules (
              (emplace_rule ⦃i = ascii⦄ two_rules text_rule).0.filesystem_rules,
              there,
              (emplace_rule ⦃i = ascii⦄ two_rules text_rule).2,
            )))
emplace_rule_outcome_example = emplace_rule_outcome ⦃i = ascii⦄ two_rules text_rule
