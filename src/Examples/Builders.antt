-- ===== src/Examples/Builders.antt =====
-- The director builder: a rule that is added, and instances of its theorems.
use pathwinder.Base.{true, false, [], ◌∷◌, Option, none, some, ◌≡◌, ◌⊎◌, refl, is_some, arith}
use pathwinder.Text.{Text, text_eq, contains, find_first_of, find_first_not_of, ends_with}
use pathwinder.Infra.{ascii}
use pathwinder.Rule.{simple, make_rule}
use pathwinder.Director.{read_only, open_existing_file}
use pathwinder.Director.FileOperation.{get_instruction_for_file_operation}
use pathwinder.DirectorBuilder.{
  FilesystemDirectorBuilder, empty_builder, resolve_components, join_components, set_contains,
  full_path_of, are_valid_patterns, has_origin_directory, has_target_directory,
  path_resolve_relative_to_absolute, is_valid_directory_string, has_two_backslashes,
  are_valid_components, are_allowed,
}
use pathwinder.DirectorBuilder.AddRule.{add_rule}
use pathwinder.DirectorBuilder.Containers.{
  Reachable, empty, added, Refused, Reachable-HasUsableContainers, built_director_total,
}
use pathwinder.DirectorBuilder.Outcome.{Records, Places, add_rule_outcome}
use pathwinder.DirectorBuilder.Usable.{HasUsableContainers}
use pathwinder.DirectorBuilder.Paths.{IsResolved, resolve_components_lem}
use pathwinder.Examples.Data.{text, games, nowhere}

-- A resolver without references.
abbrev as_it_is : Text → Option Text
as_it_is s = some s

full_path_test : full_path_of ⦃i = ascii⦄ as_it_is 128 (text "C:\\a\\..\\g\\") ≡ some games
unfolding ascii full_path_of path_resolve_relative_to_absolute resolve_components join_components
    ends_with text_eq is_valid_directory_string has_two_backslashes are_valid_components are_allowed
    contains find_first_of find_first_not_of
full_path_test = refl

resolved_test :
    resolve_components 128 (text "C:" ∷ text "a" ∷ text ".." ∷ text "b" ∷ []) [] 0
    ≡ some (text "b" ∷ text "C:" ∷ [], 5)
unfolding resolve_components text_eq
resolved_test = refl

nothing-IsResolved : IsResolved 128 [] 0
unfolding join_components
nothing-IsResolved = record { resolved = tt; bounded = omega arith; sized = refl }

resolve_components_lem_example : IsResolved 128 (text "b" ∷ text "C:" ∷ []) 5
resolve_components_lem_example =
    resolve_components_lem 128 (text "C:" ∷ text "a" ∷ text ".." ∷ text "b" ∷ []) [] 0
      (text "b" ∷ text "C:" ∷ []) 5 nothing-IsResolved resolved_test

abbrev one_rule : FilesystemDirectorBuilder
one_rule =
    (add_rule ⦃i = ascii⦄ as_it_is 128 empty_builder (text "t") games (text "D:\\t")
      (text "t*" ∷ []) simple).0

one_rule-Reachable : Reachable ⦃i = ascii⦄ as_it_is 128 one_rule
one_rule-Reachable =
    added empty_builder (text "t") games (text "D:\\t") (text "t*" ∷ []) simple empty

Reachable-HasUsableContainers_example :
    HasUsableContainers ⦃i = ascii⦄ one_rule.filesystem_rules_by_origin_directory
Reachable-HasUsableContainers_example =
    Reachable-HasUsableContainers ⦃i = ascii⦄ as_it_is 128 one_rule one_rule-Reachable

built_director_total_example :
    is_some (
      get_instruction_for_file_operation ⦃i = ascii⦄ nowhere one_rule games read_only
        open_existing_file)
    ≡ true
built_director_total_example =
    built_director_total ⦃i = ascii⦄ as_it_is 128 nowhere one_rule games read_only
      open_existing_file one_rule-Reachable

add_rule_outcome_example :
    let (b', result) =
      add_rule ⦃i = ascii⦄ as_it_is 128 empty_builder (text "t") games (text "D:\\t") [] simple in
    ((b' ≡ empty_builder)
      × (result ≡ none)
      × Refused ⦃i = ascii⦄ as_it_is 128 empty_builder (text "t") games (text "D:\\t") [])
    ⊎ ((o : Text) × (t : Text) × (owned : Text) × (full_path_of ⦃i = ascii⦄ as_it_is 128 games
          ≡ some o)
        × (full_path_of ⦃i = ascii⦄ as_it_is 128 (text "D:\\t") ≡ some t)
        × (set_contains text_eq (text "t") [] ≡ false)
        × (are_valid_patterns ⦃i = ascii⦄ [] ≡ true)
        × (has_target_directory ⦃i = ascii⦄ empty_builder o ≡ false)
        × (has_origin_directory ⦃i = ascii⦄ empty_builder t ≡ false)
        × (has_target_directory ⦃i = ascii⦄ empty_builder t ≡ false)
        × (ascii.equals_case_insensitive owned o ≡ true)
        × Records ⦃i = ascii⦄ empty_builder b' (text "t") o t
        × Places ⦃i = ascii⦄ empty_builder b'
            (make_rule ⦃i = ascii⦄ (text "t") owned t [] simple)
            result)
add_rule_outcome_example =
    add_rule_outcome ⦃i = ascii⦄ as_it_is 128 empty_builder (text "t") games (text "D:\\t") []
      simple
