-- ===== src/DirectorBuilder.antt =====
-- FilesystemDirectorBuilder.h and FilesystemDirectorBuilder.cpp: the checks that a rule must pass
-- and AddRule. An error message is `none`.
pub mod Paths
pub mod AddRule
pub mod Usable
pub mod Containers
pub mod Recorded
pub mod Outcome
use pathwinder.Base.{
  ℕ, ◌+◌, ◌-◌, Bool, true, false, not, ◌&&◌, List, [], ◌∷◌, ◌++◌, Option, none, some, ltb, ◌==◌,
  if◌then◌else◌, length, is_empty, is_some, take,
}
use mathlib.Core.Bool.{◌||◌}
use pathwinder.Text.{Text, backslash, text_eq, ends_with, contains, find_first_not_of, starts_with}
use pathwinder.Infra.{Infra, path_delimiters}
use pathwinder.PrefixTree.{PrefixTree, Loc, insert, zip_up, set_data, data_of}
use pathwinder.Rule.{FilesystemRule, RedirectMode, make_rule}
use pathwinder.RuleContainer.{RelatedFilesystemRuleContainer, empty_container, emplace_rule}
use pathwinder.Director.{FilesystemDirector, case_insensitive_keys, find_by_name}

-- The builder's members are the director's.
abbrev pub FilesystemDirectorBuilder : Type 0
FilesystemDirectorBuilder = FilesystemDirector

abbrev pub empty_builder : FilesystemDirectorBuilder
empty_builder = record {
  origin_directories = [];
  target_directories = [];
  filesystem_rule_names = [];
  filesystem_rules_by_origin_directory = record {
    root = pathwinder.PrefixTree.empty_node;
    delimiters = path_delimiters;
  };
  filesystem_rules_by_name = [];
}

abbrev pub dot : Text
dot = b'.' ∷ []

abbrev pub dot_dot : Text
dot_dot = b'.' ∷ b'.' ∷ []

-- The loop of PathResolveRelativeToAbsolute: the components so far, the last one first, and the
-- length that they will have. `capacity` is that of Infra::TemporaryVector.
unfoldable pub resolve_components : ℕ → List Text → List Text → ℕ → Option (List Text × ℕ)
resolve_components capacity [] stack size = some (stack, size)
resolve_components capacity (t ∷ ts) stack size = elim (is_empty t || text_eq t dot) [
  | true ↦ resolve_components capacity ts stack size
  | false ↦ elim (text_eq t dot_dot) [
    | true ↦ elim stack [
      | [] ↦ none
      | c ∷ cs ↦ elim (is_empty cs || ltb size (length c + 1)) [
        | true ↦ none
        | false ↦ resolve_components capacity ts cs (size - (length c + 1))
      ]
    ]
    | false ↦ elim (length stack == capacity) [
      | true ↦ none
      | false ↦ resolve_components capacity ts (t ∷ stack) (size + (length t + 1))
    ]
  ]
]

-- The components, the last one first, joined by backslashes after text that is already there.
unfoldable pub join_components : List Text → Text
join_components [] = []
join_components (t ∷ ts) = join_components ts ++ (t ++ (backslash ∷ []))

abbrev drop_last : Text → Text
drop_last s = take (length s - 1) s

unfoldable pub path_resolve_relative_to_absolute : ⦃i : Infra⦄ → ℕ → Text → Option Text
path_resolve_relative_to_absolute ⦃i⦄ capacity path =
    elim (resolve_components capacity (i.tokenize path path_delimiters) [] 0) [
      | none ↦ none
      | some (stack, size) ↦ some (
          if is_empty stack
          then []
          else (if ends_with backslash path
              then join_components stack
              else drop_last (join_components stack)))
    ]

-- L"/*?\"<>|"
abbrev disallowed_directory_characters : Text
disallowed_directory_characters = b'/' ∷ b'*' ∷ b'?' ∷ 0x22 ∷ b'<' ∷ b'>' ∷ b'|' ∷ []

-- L"\\/:\"<>|"
abbrev disallowed_pattern_characters : Text
disallowed_pattern_characters = 0x5c ∷ b'/' ∷ b':' ∷ 0x22 ∷ b'<' ∷ b'>' ∷ b'|' ∷ []

-- candidateDirectory.contains(L"\\\\")
unfoldable pub has_two_backslashes : Text → Bool
has_two_backslashes [] = false
has_two_backslashes (c ∷ []) = false
has_two_backslashes (c ∷ d ∷ s) = c == backslash && d == backslash || has_two_backslashes (d ∷ s)

module _ ⦃i : Infra⦄ where
  -- The loop over characters.
  unfoldable pub are_allowed : Text → Text → Bool
  are_allowed disallowed [] = true
  are_allowed disallowed (c ∷ s) =
      if not (i.is_print c) || contains c disallowed then false else are_allowed disallowed s

  -- The loop over path components.
  unfoldable pub are_valid_components : List Text → Bool
  are_valid_components [] = true
  are_valid_components (t ∷ ts) =
      if is_empty t
      then are_valid_components ts
      else (if are_allowed disallowed_directory_characters t && is_some (find_first_not_of b'.' t)
          then are_valid_components ts
          else false)

  abbrev starts_with_drive : Text → Bool
  starts_with_drive (a ∷ b ∷ s) = i.is_alpha a && b == b':'
  starts_with_drive _ = false

  unfoldable pub is_valid_directory_string : Text → Bool
  is_valid_directory_string s =
      starts_with_drive s
      && not (has_two_backslashes s)
      && are_valid_components (i.tokenize s path_delimiters)

  unfoldable pub is_valid_file_pattern_string : Text → Bool
  is_valid_file_pattern_string s = not (is_empty s) && are_allowed disallowed_pattern_characters s

  unfoldable pub are_valid_patterns : List Text → Bool
  are_valid_patterns [] = true
  are_valid_patterns (p ∷ ps) = is_valid_file_pattern_string p && are_valid_patterns ps

-- Sets of texts: a test, and emplace with the element that then stands there.
unfoldable pub set_contains : (Text → Text → Bool) → Text → List Text → Bool
set_contains same s [] = false
set_contains same s (t ∷ ts) = same t s || set_contains same s ts

unfoldable pub set_emplace : (Text → Text → Bool) → Text → List Text → List Text × Text
set_emplace same s [] = (s ∷ [], s)
set_emplace same s (t ∷ ts) =
    let (rest, there) = set_emplace same s ts in if same t s then (t ∷ ts, t) else (t ∷ rest, there)

module _ ⦃i : Infra⦄ where
  unfoldable pub has_origin_directory : FilesystemDirectorBuilder → Text → Bool
  has_origin_directory b s = set_contains i.equals_case_insensitive s b.origin_directories

  unfoldable pub has_target_directory : FilesystemDirectorBuilder → Text → Bool
  has_target_directory b s = set_contains i.equals_case_insensitive s b.target_directories

  -- The part of AddRule that makes a full path of a directory. `resolve_all_references` is the
  -- resolver of Infra, with the definitions that are configured.
  unfoldable pub full_path_of : (Text → Option Text) → ℕ → Text → Option Text
  full_path_of resolve_all_references capacity directory = elim (resolve_all_references directory) [
    | none ↦ none
    | some resolved ↦ elim (path_resolve_relative_to_absolute capacity resolved) [
      | none ↦ none
      | some absolute ↦
          let full = i.remove_trailing absolute backslash in
          if is_valid_directory_string absolute && contains backslash full then some full else none
    ]
  ]
