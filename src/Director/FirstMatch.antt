-- ===== src/Director/FirstMatch.antt =====
-- The rule that decides about a file name in the rules' own origin directory: the first whose
-- patterns match it. The searches of a container and of a file operation find that rule.
use pathwinder.Base.{
  ℕ, zero, suc, ◌+◌, ◌%◌, ◌≤◌, ◌≡◌, refl, ap, Bool, false, List, [], ◌∷◌, none, some, ◌==◌,
  if◌then◌else◌, length, is_empty, arith,
}
use pathwinder.Base.{Option as Maybe}
use pathwinder.Text.{Text}
use pathwinder.Infra.{Infra}
use pathwinder.Rule.{
  FilesystemRule, file_name_matches_any_pattern, directory_compare_with_origin,
  redirect_path_origin_to_target, redirect_path, is_redirected, equal,
}
use pathwinder.RuleContainer.{matching_loop, maximum_rules_index}
use pathwinder.Director.FileOperation.{first_redirection}

module _ ⦃i : Infra⦄ where
  abbrev pub first_match : Text → List FilesystemRule → Maybe FilesystemRule
  first_match f [] = none
  first_match f (r ∷ rs) = if file_name_matches_any_pattern r f then some r else first_match f rs

  -- The rule at the position is the first that matches.
  abbrev pub is_first : Text → List FilesystemRule → ℕ → Bool
  is_first f [] k = false
  is_first f (r ∷ rs) zero = file_name_matches_any_pattern r f
  is_first f (r ∷ rs) (suc k) = if file_name_matches_any_pattern r f then false else is_first f rs k

  pub matching_loop-first_match :
      (f : Text) (index : ℕ) (rs : List FilesystemRule)
      → index + length rs ≤ 255
      → (matching_loop f maximum_rules_index index rs).0 ≡ first_match f rs
  unfolding matching_loop
  matching_loop-first_match f index [] room = refl
  matching_loop-first_match f index (r ∷ rs) room =
      let rest = matching_loop-first_match f ((index + 1) % 256) rs (omega arith) in
      ground (arith, rest)

  -- The result of a search is a rule at the position where it stopped.
  abbrev is_found_at : ℕ → Maybe FilesystemRule × ℕ → Bool
  is_found_at k (none, p) = false
  is_found_at k (some r, p) = p == k

  pub matching_loop-is_first :
      (f : Text) (index k : ℕ) (rs : List FilesystemRule)
      → index + length rs ≤ 255
      → is_found_at (index + k) (matching_loop f (index + k) index rs) ≡ is_first f rs k
  unfolding matching_loop
  matching_loop-is_first f index k [] room = refl
  matching_loop-is_first f index zero (r ∷ rs) room = ground arith
  matching_loop-is_first f index (suc k) (r ∷ rs) room =
      let next : (index + 1) % 256 ≡ index + 1 = omega arith in
      let stop : index + suc k ≡ index + 1 + k = omega arith in
      let rest = matching_loop-is_first f (index + 1) k rs (omega arith) in
      ground (
        arith,
        ap (λ n. is_found_at (index + suc k) (matching_loop f (index + suc k) n rs)) next,
        ap (λ n. is_found_at n (matching_loop f n (index + 1) rs)) stop,
        rest,
      )

  -- Every rule's origin directory is the directory.
  abbrev pub ShareOrigin : Text → List FilesystemRule → Type 0
  ShareOrigin d [] = Unit
  ShareOrigin d (r ∷ rs) = (directory_compare_with_origin r d ≡ equal) × ShareOrigin d rs

  abbrev pub redirecting_rule : Maybe (FilesystemRule × Text) → Maybe FilesystemRule
  redirecting_rule none = none
  redirecting_rule (some (r, out)) = some r

  -- For a file in the origin directory that the rules share, a file operation uses the first rule
  -- whose patterns match the file's name, and is not redirected if there is none.
  pub first_redirection-first_match :
      (rs : List FilesystemRule) (d file prefix suffix : Text)
      → ShareOrigin d rs
      → is_empty file ≡ false
      → redirecting_rule (first_redirection rs d file prefix suffix) ≡ first_match file rs
  unfolding first_redirection redirect_path_origin_to_target redirect_path is_redirected
      directory_compare_with_origin file_name_matches_any_pattern
  first_redirection-first_match [] d file prefix suffix origin h = refl
  first_redirection-first_match (r ∷ rs) d file prefix suffix (here, origin) h =
      let rest = first_redirection-first_match rs d file prefix suffix origin h in
      ground (arith, rest, here, h)
