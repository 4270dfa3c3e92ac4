-- ===== src/Strings/Paths.antt =====
-- The functions of Source/Strings.cpp on paths: the parent of a directory, namespace prefixes, and
-- texts as UNICODE_STRINGs.
use pathwinder.Base.{
  ℕ, zero, suc, ◌+◌, ◌-◌, ◌<◌, ◌≡◌, refl, sym, ap, ◌∙◌, false, [], ◌∷◌, ◌++◌, none, some, take,
  drop, length, replicate, arith, append_assoc, length-append, take-append, drop-append,
}
use pathwinder.Text.{Text, backslash, find_last_of, ends_with, text_eq, starts_with}
use pathwinder.Text.Search.{find_last_of-append, ends_with-append, ends_with-none}
use pathwinder.Strings.Trailing.{trim-append}
use pathwinder.Strings.{
  nt_convert_string_view_to_unicode_string, nt_convert_unicode_string_to_string_view,
  path_get_parent_directory, path_get_windows_namespace_prefix, path_add_windows_namespace_prefix,
  namespace_prefix_to_prepend, first_prefix, trim_backslashes,
}

pub take_all : (s : Text) → take (length s) s ≡ s
take_all [] = refl
take_all (c ∷ s) = ap (◌∷◌ c) (take_all s)

-- A text of fewer than 32768 characters keeps its value as a UNICODE_STRING.
pub unicode_round_trip :
    (s : Text)
    → length s < 32768
    → nt_convert_unicode_string_to_string_view (nt_convert_string_view_to_unicode_string s) ≡ s
unfolding nt_convert_unicode_string_to_string_view nt_convert_string_view_to_unicode_string
unicode_round_trip s h = ap (λ n. take n s) {y = length s} (omega arith) ∙ take_all s

-- A prefixed path has the prefix that was added, and the path after it.
pub add_prefix_round_trip :
    (s : Text)
    → (path_get_windows_namespace_prefix (path_add_windows_namespace_prefix s)
        ≡ namespace_prefix_to_prepend)
      × (drop
            (length (path_get_windows_namespace_prefix (path_add_windows_namespace_prefix s)))
            (path_add_windows_namespace_prefix s)
          ≡ s)
unfolding path_get_windows_namespace_prefix path_add_windows_namespace_prefix first_prefix
    starts_with text_eq
add_prefix_round_trip s = (refl, refl)

length-replicate : (n c : ℕ) → length (replicate n c) ≡ n
length-replicate zero c = refl
length-replicate (suc n) c = ap suc (length-replicate n c)

ends_with_last :
    (x c : ℕ) (name : Text)
    → find_last_of backslash (c ∷ name) ≡ none
    → ends_with backslash (x ∷ c ∷ name) ≡ false
unfolding ends_with
ends_with_last x c name h = ends_with-none backslash (c ∷ name) h

-- A path whose last component is not empty does not end with a backslash.
pub ends_with_component :
    (p : Text) (c : ℕ) (name : Text)
    → find_last_of backslash (c ∷ name) ≡ none
    → ends_with backslash (p ++ (backslash ∷ c ∷ name)) ≡ false
ends_with_component p c name h =
    ends_with-append backslash p backslash (c ∷ name) ∙ ends_with_last backslash c name h

-- The lengths that the cut is made of.
cut_length :
    (prefix p name : Text) (n : ℕ)
    → length (prefix ++ ((p ++ (backslash ∷ name)) ++ replicate n backslash))
        - (length (p ++ (backslash ∷ name)) - length p + n)
      ≡ length (prefix ++ p)
cut_length prefix p name n = omega (
  arith,
  length-append prefix ((p ++ (backslash ∷ name)) ++ replicate n backslash),
  length-append (p ++ (backslash ∷ name)) (replicate n backslash),
  length-append p (backslash ∷ name),
  length-append prefix p,
  length-replicate n backslash,
)

parent_step :
    (path prefix trimmed : Text) (number last : ℕ)
    → path_get_windows_namespace_prefix path ≡ prefix
    → trim_backslashes (drop (length prefix) path) ≡ (trimmed, number)
    → find_last_of backslash trimmed ≡ some last
    → path_get_parent_directory path ≡ take (length path - (length trimmed - last + number)) path
unfolding path_get_parent_directory
parent_step path prefix trimmed number last at trim found =
    let trim' : trim_backslashes (drop (length (path_get_windows_namespace_prefix path)) path)
        ≡ (trimmed, number) =
      ap (λ n. trim_backslashes (drop (length n) path)) at ∙ trim in
    rw (path_get_parent_directory, ap (λ t. find_last_of backslash t.0) trim' ∙ found)
      (ap (λ t. take (length path - (length t.0 - last + t.1)) path) trim')

-- The parent of a directory below another, after any namespace prefix and before any number of
-- trailing backslashes, is that other, with the prefix. The last component has no backslash and is
-- not empty.
pub parent_directory_lem :
    (prefix p : Text) (c : ℕ) (name : Text) (n : ℕ)
    → path_get_windows_namespace_prefix
        (prefix ++ ((p ++ (backslash ∷ c ∷ name)) ++ replicate n backslash))
      ≡ prefix
    → find_last_of backslash (c ∷ name) ≡ none
    → path_get_parent_directory (prefix ++ ((p ++ (backslash ∷ c ∷ name)) ++ replicate n backslash))
      ≡ prefix ++ p
parent_directory_lem prefix p c name n at plain =
    let u = p ++ (backslash ∷ c ∷ name) in
    let whole = prefix ++ (u ++ replicate n backslash) in
    let end : ends_with backslash u ≡ false = ends_with_component p c name plain in
    let cut : take (length (prefix ++ p)) whole ≡ prefix ++ p =
      ap (take (length (prefix ++ p)))
        {y = (prefix ++ p) ++ (backslash ∷ c ∷ name ++ replicate n backslash)}
        (ap (◌++◌ prefix) (append_assoc p (backslash ∷ c ∷ name) (replicate n backslash))
          ∙ sym (append_assoc prefix p (backslash ∷ c ∷ name ++ replicate n backslash)))
      ∙ take-append (prefix ++ p) (backslash ∷ c ∷ name ++ replicate n backslash) in
    parent_step whole prefix u n (length p) at
      (ap trim_backslashes (drop-append prefix (u ++ replicate n backslash)) ∙ trim-append u n end)
      (find_last_of-append backslash p (c ∷ name) plain)
    ∙ ap (λ k. take k whole) (cut_length prefix p (c ∷ name) n)
    ∙ cut
