-- ===== src/Rule/Redirect.antt =====
-- RedirectPathInternal: what is redirected and to where, and that a redirection can be undone.
use pathwinder.Base.{
  ℕ, suc, ◌+◌, ◌≡◌, refl, sym, ap, ◌∙◌, ◌↔◌, Bool, true, ◌&&◌, ◌||◌, zero, List, [], ◌∷◌, ◌++◌,
  some, ◌==◌, if◌then◌else◌, is_empty, take, drop, length, arith, take-append-drop, drop-append,
}
use pathwinder.Text.{Text, backslash}
use pathwinder.Infra.{Infra}
use pathwinder.Rule.{
  FilesystemRule, directory_compare, matches_any_pattern, first_component, is_redirected,
  redirect_path, redirect_path_origin_to_target, redirect_path_target_to_origin,
}
use pathwinder.Rule.Compare.{
  is_in_scope, in_scope_equals, directory_compare-append, equals_refl, equals_length,
}

module _ ⦃i : Infra⦄ where
  -- The file name that the patterns of a rule are asked about, if the directory goes on with the
  -- given text after the rule's directory: the file itself, or the first directory below.
  abbrev pub is_covered : Text → Text → List Text → Bool
  is_covered [] file patterns = is_empty file || matches_any_pattern file patterns
  is_covered (c ∷ s) file patterns =
      c == backslash && matches_any_pattern (first_component s) patterns

  drop-suc : (n : ℕ) (d : Text) → drop (suc n) d ≡ drop 1 (drop n d)
  drop-suc zero d = refl
  drop-suc (suc n) [] = refl
  drop-suc (suc n) (c ∷ d) = drop-suc n d

  is_redirected-append :
      (p s from file : Text) (patterns : List Text)
      → i.equals_case_insensitive p from ≡ true
      → is_redirected (p ++ s) file from patterns ≡ is_covered s file patterns
  unfolding is_redirected
  is_redirected-append p [] from file patterns h =
      ground (arith, directory_compare-append p [] from h)
  is_redirected-append p (c ∷ s) from file patterns h =
      let rest : drop (1 + length from) (p ++ (c ∷ s)) ≡ s =
        ap (λ n. drop n (p ++ (c ∷ s))) {y = suc (length p)} (omega (arith, equals_length p from h))
        ∙ drop-suc (length p) (p ++ (c ∷ s))
        ∙ ap (drop 1) (drop-append p (c ∷ s)) in
      ground (arith, directory_compare-append p (c ∷ s) from h, rest)

  is_redirected_scope :
      (d file from : Text) (patterns : List Text)
      → is_redirected d file from patterns ≡ true
      → is_in_scope (directory_compare d from) ≡ true
  unfolding is_redirected
  is_redirected_scope d file from patterns h = ground arith

  abbrev pub file_part : Text → Text
  file_part file = if is_empty file then [] else backslash ∷ file

  redirect_path-append :
      (p s file from to : Text) (patterns : List Text) (prefix suffix : Text)
      → i.equals_case_insensitive p from ≡ true
      → is_covered s file patterns ≡ true
      → redirect_path (p ++ s) file from to patterns prefix suffix
        ≡ some (prefix ++ (to ++ (s ++ (file_part file ++ suffix))))
  unfolding redirect_path
  redirect_path-append p s file from to patterns prefix suffix same covered =
      let rest : drop (length from) (p ++ s) ≡ s =
        ap (λ n. drop n (p ++ s)) (sym (equals_length p from same)) ∙ drop-append p s in
      rw (is_redirected-append p s from file patterns same ∙ covered, rest)

  redirect_path_split :
      (d file from to : Text) (patterns : List Text) (prefix suffix out : Text)
      → redirect_path d file from to patterns prefix suffix ≡ some out
      → (is_redirected d file from patterns ≡ true)
        × (out ≡ prefix ++ (to ++ (drop (length from) d ++ (file_part file ++ suffix))))
  unfolding redirect_path
  redirect_path_split d file from to patterns prefix suffix out h = ground arith

  -- A path is redirected exactly if its directory is the rule's directory (up to case) followed by
  -- a text for which the patterns cover the file. The result is then the other directory, followed
  -- by the same text and the file, between the prefix and the suffix.
  pub redirect_path_iff :
      (d file from to : Text) (patterns : List Text) (prefix suffix out : Text)
      → (redirect_path d file from to patterns prefix suffix ≡ some out) ↔ (
          (p : Text) × (s : Text) × (d ≡ p ++ s)
          × (i.equals_case_insensitive p from ≡ true)
          × (is_covered s file patterns ≡ true)
          × (out ≡ prefix ++ (to ++ (s ++ (file_part file ++ suffix)))))
  unfolding redirect_path
  redirect_path_iff d file from to patterns prefix suffix out = (
    λ h.
        let (redirected, result) =
          redirect_path_split d file from to patterns prefix suffix out h in
        let p = take (length from) d in
        let s = drop (length from) d in
        let split : d ≡ p ++ s = sym (take-append-drop (length from) d) in
        let same = in_scope_equals d from (is_redirected_scope d file from patterns redirected) in
        (
          p,
          s,
          split,
          same,
          sym (is_redirected-append p s from file patterns same)
              ∙ ap (λ u. is_redirected u file from patterns) (sym split)
              ∙ redirected,
          result,
        ),
    λ (p, s, split, same, covered, result).
        ap (λ u. redirect_path u file from to patterns prefix suffix) split
        ∙ redirect_path-append p s file from to patterns prefix suffix same covered
        ∙ ap some (sym result),
  )

  -- A rule's redirection can be undone: the directory on the target side, with the same file, is
  -- redirected by the same rule to the directory on the origin side that it came from.
  pub redirect_round_trip :
      (r : FilesystemRule) (d file prefix suffix out : Text)
      → redirect_path_origin_to_target r d file prefix suffix ≡ some out
      → (s : Text) × (p : Text) × (d ≡ p ++ s)
        × (i.equals_case_insensitive p r.origin_directory_full_path ≡ true)
        × (out ≡ prefix ++ (r.target_directory_full_path ++ (s ++ (file_part file ++ suffix))))
        × (redirect_path_target_to_origin r (r.target_directory_full_path ++ s) file prefix suffix
            ≡ some (prefix ++ (r.origin_directory_full_path ++ (s ++ (file_part file ++ suffix)))))
  unfolding redirect_path_origin_to_target redirect_path_target_to_origin
  redirect_round_trip r d file prefix suffix out h =
      let (p, s, split, same, covered, result) =
        (redirect_path_iff d file r.origin_directory_full_path r.target_directory_full_path
            r.file_patterns prefix suffix out).0
          h in
      (
        s,
        p,
        split,
        same,
        result,
        redirect_path-append r.target_directory_full_path s file r.target_directory_full_path
            r.origin_directory_full_path r.file_patterns prefix suffix
            (equals_refl r.target_directory_full_path) covered,
      )
