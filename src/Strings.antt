-- ===== src/Strings.antt =====
-- Source/Strings.cpp: the functions on paths and file names.
pub mod Trailing
pub mod Paths
use pathwinder.Base.{
  ℕ, ◌+◌, ◌-◌, ◌*◌, ◌%◌, Bool, true, false, not, ◌&&◌, List, [], ◌∷◌, ◌++◌, none, some, ltb, ◌==◌,
  if◌then◌else◌, is_empty, take, drop, length, Option, get_elem?,
}
use Prim.Native.Nat.{◌/◌}
use pathwinder.Text.{Text, backslash, find_last_of, ends_with, starts_with}
use pathwinder.Infra.{Infra}

-- UNICODE_STRING: the lengths are in bytes, each an unsigned number of 16 bits.
pub record UnicodeString : Type 0 where
  length_bytes : ℕ
  maximum_length : ℕ
  buffer : Text

-- A wchar_t has two bytes. Longer texts lose their high bits in the cast.
unfoldable pub nt_convert_string_view_to_unicode_string : Text → UnicodeString
nt_convert_string_view_to_unicode_string s = record {
  length_bytes = (length s * 2) % 65536;
  maximum_length = (length s * 2) % 65536;
  buffer = s;
}

unfoldable pub nt_convert_unicode_string_to_string_view : UnicodeString → Text
nt_convert_unicode_string_to_string_view u = take (u.length_bytes / 2) u.buffer

-- RtlIsNameInExpression sees the two texts through their UNICODE_STRINGs.
unfoldable pub file_name_matches_pattern : ⦃i : Infra⦄ → Text → Text → Bool
unfolding nt_convert_string_view_to_unicode_string nt_convert_unicode_string_to_string_view
file_name_matches_pattern ⦃i⦄ file_name pattern =
    if is_empty pattern
    then true
    else i.is_name_in_expression
        (nt_convert_unicode_string_to_string_view
          (nt_convert_string_view_to_unicode_string pattern))
        (nt_convert_unicode_string_to_string_view
          (nt_convert_string_view_to_unicode_string file_name))

-- L"\\??\\"
abbrev pub namespace_prefix_to_prepend : Text
namespace_prefix_to_prepend = 0x5c ∷ 0x3f ∷ 0x3f ∷ 0x5c ∷ []

-- L"\\??\\", L"\\\\?\\" and L"\\\\.\\"
abbrev known_windows_namespace_prefixes : List Text
known_windows_namespace_prefixes =
    namespace_prefix_to_prepend
    ∷ (0x5c ∷ 0x5c ∷ 0x3f ∷ 0x5c ∷ [])
    ∷ (0x5c ∷ 0x5c ∷ 0x2e ∷ 0x5c ∷ [])
    ∷ []

pub path_add_windows_namespace_prefix : Text → Text
path_add_windows_namespace_prefix absolute_path = namespace_prefix_to_prepend ++ absolute_path

-- The loop over the known prefixes.
pub first_prefix : List Text → Text → Text
unfolding starts_with
first_prefix [] s = []
first_prefix (p ∷ ps) s = if starts_with s p then take (length p) s else first_prefix ps s

unfoldable pub path_get_windows_namespace_prefix : Text → Text
unfolding first_prefix
path_get_windows_namespace_prefix = first_prefix known_windows_namespace_prefixes

unfoldable path_has_windows_namespace_prefix : Text → Bool
unfolding path_get_windows_namespace_prefix
path_has_windows_namespace_prefix s = not (length (path_get_windows_namespace_prefix s) == 0)

abbrev path_drive_letter_prefix_length_chars : ℕ
path_drive_letter_prefix_length_chars = 3

-- The test of the first three characters; the length has been tested before it.
abbrev drive_letter : ⦃i : Infra⦄ → Text → Bool
drive_letter ⦃i⦄ (a ∷ b ∷ c ∷ rest) = i.is_alpha a && b == b':' && c == backslash
drive_letter _ = false

unfoldable pub path_begins_with_drive_letter : ⦃i : Infra⦄ → Text → Bool
unfolding path_get_windows_namespace_prefix
path_begins_with_drive_letter absolute_path =
    let rest = drop (length (path_get_windows_namespace_prefix absolute_path)) absolute_path in
    if ltb (length rest) path_drive_letter_prefix_length_chars then false else drive_letter rest

-- The `while` that takes the trailing backslashes from a text, from its end: the text without
-- them, and how many they were.
pub trim_backslashes : Text → Text × ℕ
trim_backslashes [] = ([], 0)
trim_backslashes (c ∷ s) =
    let (t, n) = trim_backslashes s in
    if is_empty t && c == backslash then ([], n + 1) else (c ∷ t, n)

pub path_get_parent_directory : Text → Text
unfolding path_get_windows_namespace_prefix trim_backslashes find_last_of
path_get_parent_directory path =
    let (trimmed, number) =
      trim_backslashes (drop (length (path_get_windows_namespace_prefix path)) path) in
    elim (find_last_of backslash trimmed) [
      | none ↦ []
      | some last ↦ take (length path - (length trimmed - last + number)) path
    ]

unfoldable path_is_volume_root : ⦃i : Infra⦄ → Text → Bool
unfolding path_begins_with_drive_letter path_get_windows_namespace_prefix
path_is_volume_root s =
    path_begins_with_drive_letter s
    && path_drive_letter_prefix_length_chars + length (path_get_windows_namespace_prefix s)
      == length s
