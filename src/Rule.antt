-- ===== src/Rule.antt =====
-- FilesystemRule.h and FilesystemRule.cpp: one redirection rule.
pub mod Compare
pub mod Redirect
use Prim.Native.Nat.Ordering.{lt, eq, gt}
use mathlib.Core.Option
use pathwinder.Base.{
  ℕ, ◌+◌, ◌-◌, Bool, true, false, not, ◌&&◌, List, [], ◌∷◌, ◌++◌, map, none, some, compare, ◌==◌,
  if◌then◌else◌, is_some, is_empty, take, drop, length, get_elem?,
}
use pathwinder.Base.{Option as Maybe}
use pathwinder.Text.{Text, backslash, find_first_of, find_last_of, find_first_not_of}
use pathwinder.Infra.{Infra}
use pathwinder.Strings.{file_name_matches_pattern}

-- EDirectoryCompareResult.
pub data DirectoryCompareResult : Type 0 where
  equal unrelated candidate_is_parent candidate_is_child : DirectoryCompareResult
  candidate_is_ancestor candidate_is_descendant count : DirectoryCompareResult

-- ERedirectMode.
pub data RedirectMode : Type 0 where
  simple overlay count : RedirectMode

pub record FilesystemRule : Type 0 where
  pub name : Text
  pub redirect_mode : RedirectMode
  pub origin_directory_separator : Maybe ℕ
  pub target_directory_separator : Maybe ℕ
  pub origin_directory_full_path : Text
  pub target_directory_full_path : Text
  pub file_patterns : List Text

-- `c == s[n]`, at a position that lies in the text.
abbrev pub char_at_is : Text → ℕ → ℕ → Bool
char_at_is s n c = elim (get_elem? s n) [ none ↦ false | some x ↦ x == c ]

-- `0 == position`, where npos is not 0.
abbrev pub is_position_zero : Maybe ℕ → Bool
is_position_zero none = false
is_position_zero (some n) = n == 0

-- DirectoryCompareInternal.
unfoldable pub directory_compare : ⦃i : Infra⦄ → Text → Text → DirectoryCompareResult
directory_compare ⦃i⦄ candidate target = elim (compare (length candidate) (length target)) [
  | eq ↦ if i.equals_case_insensitive candidate target then equal else unrelated
  | lt ↦
      if i.starts_with_case_insensitive target candidate
        && char_at_is target (length candidate) backslash
      then if is_position_zero (find_last_of backslash (drop (length candidate) target))
        then candidate_is_parent
        else candidate_is_ancestor
      else unrelated
  | gt ↦
      if i.starts_with_case_insensitive candidate target
        && char_at_is candidate (length target) backslash
      then if is_position_zero (find_last_of backslash (drop (length target) candidate))
        then candidate_is_child
        else candidate_is_descendant
      else unrelated
]

unfoldable pub file_pattern_matches_everything : Text → Bool
file_pattern_matches_everything pattern = not (is_some (find_first_not_of b'*' pattern))

unfoldable pub final_separator_position : Text → Maybe ℕ
final_separator_position = find_last_of backslash

module _ ⦃i : Infra⦄ where
  -- The loop of FileNameMatchesAnyPatternInternal.
  unfoldable pub matches_some_pattern : Text → List Text → Bool
  matches_some_pattern file_name [] = false
  matches_some_pattern file_name (p ∷ ps) =
      if file_name_matches_pattern file_name p then true else matches_some_pattern file_name ps

  -- FileNameMatchesAnyPatternInternal.
  unfoldable pub matches_any_pattern : Text → List Text → Bool
  matches_any_pattern file_name patterns =
      if is_empty patterns then true else matches_some_pattern file_name patterns

  -- The part of a path up to its first backslash.
  unfoldable pub first_component : Text → Text
  first_component s = elim (find_first_of backslash s) [
    | none ↦ s
    | some position ↦ take (length s - (length s - position)) s
  ]

  -- The switch of RedirectPathInternal: whether there is a redirection.
  unfoldable pub is_redirected : Text → Text → Text → List Text → Bool
  is_redirected directory file from patterns =
      let in_scope =
        matches_any_pattern (first_component (drop (1 + length from) directory)) patterns in
      elim (directory_compare directory from) [
        | equal ↦
            if not (is_empty file) && not (matches_any_pattern file patterns) then false else true
        | candidate_is_child ↦ in_scope
        | candidate_is_descendant ↦ in_scope
        | _ ↦ false
      ]

  -- RedirectPathInternal.
  unfoldable pub redirect_path : Text → Text → Text → Text → List Text → Text → Text → Maybe Text
  redirect_path directory file from to patterns namespace_prefix extra_suffix =
      if is_redirected directory file from patterns
      then some (
          namespace_prefix
          ++ (to
              ++ (drop (length from) directory
                  ++ ((if is_empty file then [] else backslash ∷ file) ++ extra_suffix))))
      else none

  -- The loop of the constructor: `none` once a pattern matches everything.
  unfoldable pub upper_case_patterns : List Text → Maybe (List Text)
  upper_case_patterns [] = some []
  upper_case_patterns (p ∷ ps) =
      if file_pattern_matches_everything p
      then none
      else Option.map (◌∷◌ (map i.to_upper p)) (upper_case_patterns ps)

  -- The constructor.
  unfoldable pub make_rule : Text → Text → Text → List Text → RedirectMode → FilesystemRule
  make_rule name origin target patterns mode = record {
    name = name;
    redirect_mode = mode;
    origin_directory_separator = final_separator_position origin;
    target_directory_separator = final_separator_position target;
    origin_directory_full_path = origin;
    target_directory_full_path = target;
    file_patterns = elim (upper_case_patterns patterns) [ none ↦ [] | some upper ↦ upper ];
  }

  unfoldable pub directory_compare_with_origin : FilesystemRule → Text → DirectoryCompareResult
  directory_compare_with_origin r candidate =
      directory_compare candidate r.origin_directory_full_path

  unfoldable pub directory_compare_with_target : FilesystemRule → Text → DirectoryCompareResult
  directory_compare_with_target r candidate =
      directory_compare candidate r.target_directory_full_path

  unfoldable pub file_name_matches_any_pattern : FilesystemRule → Text → Bool
  file_name_matches_any_pattern r file_name = matches_any_pattern file_name r.file_patterns

  unfoldable pub redirect_path_origin_to_target :
      FilesystemRule → Text → Text → Text → Text → Maybe Text
  redirect_path_origin_to_target r directory file =
      redirect_path directory file r.origin_directory_full_path r.target_directory_full_path
        r.file_patterns

  pub redirect_path_target_to_origin : FilesystemRule → Text → Text → Text → Text → Maybe Text
  redirect_path_target_to_origin r directory file =
      redirect_path directory file r.target_directory_full_path r.origin_directory_full_path
        r.file_patterns

unfoldable pub has_file_patterns : FilesystemRule → Bool
has_file_patterns r = not (is_empty r.file_patterns)

unfoldable pub get_origin_directory_name : FilesystemRule → Text
get_origin_directory_name r = elim r.origin_directory_separator [
  | none ↦ r.origin_directory_full_path
  | some position ↦ drop (1 + position) r.origin_directory_full_path
]

unfoldable get_origin_directory_parent : FilesystemRule → Text
get_origin_directory_parent r = elim r.origin_directory_separator [
  | none ↦ []
  | some position ↦
      let s = r.origin_directory_full_path in take (length s - (length s - position)) s
]

unfoldable pub get_target_directory_name : FilesystemRule → Text
get_target_directory_name r = elim r.target_directory_separator [
  | none ↦ r.target_directory_full_path
  | some position ↦ drop (1 + position) r.target_directory_full_path
]

-- The code tests the origin's separator and cuts at the target's. Where the target has none the cut
-- is longer than the text, which has no defined result: `none`.
unfoldable pub get_target_directory_parent : FilesystemRule → Maybe Text
get_target_directory_parent r = elim r.origin_directory_separator [
  | none ↦ some []
  | some _ ↦ elim r.target_directory_separator [
    | none ↦ none
    | some position ↦
        let s = r.target_directory_full_path in some (take (length s - (length s - position)) s)
  ]
]
