-- ===== src/Director/TargetSide.antt =====
-- The enumerations of target directories: each file name is listed from one target directory, that
-- of the rule which redirects it, or from none.
use pathwinder.Base.{
  ℕ, zero, suc, ◌+◌, ◌%◌, ◌≤◌, ◌≡◌, refl, sym, ap, ◌∙◌, inl, inr, Bool, true, false, List, [], ◌∷◌,
  Option, none, some, ◌==◌, if◌then◌else◌, length, get_elem?, arith, Bool-cases,
}
use pathwinder.Text.{Text}
use pathwinder.Infra.{Infra}
use pathwinder.Rule.{
  FilesystemRule, file_name_matches_any_pattern, has_file_patterns, matches_any_pattern,
}
use pathwinder.RuleContainer.{
  RelatedFilesystemRuleContainer, rule_matching_file_name, count_of_rules,
  maximum_filesystem_rule_count,
}
use pathwinder.RuleContainer.Matching.{get_rule_by_index_lem}
use pathwinder.Instruction.{
  SingleDirectoryEnumeration, include_all_filenames, include_only_matching_filenames,
  include_only_matching_filenames_of, with_single_rule, with_multiple_rules, target_of,
  should_include_in_directory_enumeration, select_directory_path, selected_rule,
  include_by_condition, file_pattern_source_target_directory,
  match_by_position_invert_all_prior_to_selected,
}
use pathwinder.Director.DirectoryEnumeration.{
  target_side_of_rule, target_sides_of_rules, target_side,
}
use pathwinder.Director.FirstMatch.{first_match, is_first, matching_loop-is_first}

module _ ⦃i : Infra⦄ where
  -- The directories that a file name is listed from, as far as the file names' scopes say.
  abbrev pub listed_from : Text → Text → Text → List SingleDirectoryEnumeration → List (Option Text)
  listed_from f associated opened [] = []
  listed_from f associated opened (e ∷ es) =
      if should_include_in_directory_enumeration e f
      then select_directory_path e associated opened ∷ listed_from f associated opened es
      else listed_from f associated opened es

  -- The targets of those rules, from a position on, that are the first to match.
  abbrev collect : (ℕ → Bool) → (ℕ → Option Text) → ℕ → ℕ → List (Option Text)
  collect p q index zero = []
  collect p q index (suc n) =
      if p index then q index ∷ collect p q (suc index) n else collect p q (suc index) n

  collect-suc :
      (p : ℕ → Bool) (q : ℕ → Option Text) (index n : ℕ)
      → collect p q (suc index) n ≡ collect (λ k. p (suc k)) (λ k. q (suc k)) index n
  collect-suc p q index zero = refl
  collect-suc p q index (suc n) = rw (collect-suc p q (suc index) n)

  collect_none :
      (p : ℕ → Bool) (q : ℕ → Option Text) (index n : ℕ)
      → ((k : ℕ) → p k ≡ false)
      → collect p q index n ≡ []
  collect_none p q index zero h = refl
  collect_none p q index (suc n) h = rw (h index) (collect_none p q (suc index) n h)

  abbrev singleton_target : Option FilesystemRule → List (Option Text)
  singleton_target none = []
  singleton_target (some r) = some r.target_directory_full_path ∷ []

  collect-first_match :
      (f : Text) (rs : List FilesystemRule)
      → collect (is_first f rs) (λ k. target_of (get_elem? rs k)) 0 (length rs)
        ≡ singleton_target (first_match f rs)
  collect-first_match f [] = refl
  collect-first_match f (r ∷ rs) =
      let shift =
        collect-suc (is_first f (r ∷ rs)) (λ k. target_of (get_elem? (r ∷ rs) k)) 0 (length rs) in
      elim (Bool-cases (file_name_matches_any_pattern r f)) [
        | inl hit ↦
            rw (shift, hit)
              (ap (◌∷◌ (some r.target_directory_full_path)) (
                collect_none (λ k. if true then false else is_first f rs k)
                  (λ k. target_of (get_elem? rs k)) 0 (length rs) (λ k. refl)))
        | inr miss ↦ rw (shift, miss) (collect-first_match f rs)
      ]

  abbrev side_at : RelatedFilesystemRuleContainer → ℕ → SingleDirectoryEnumeration
  side_at c k =
      include_only_matching_filenames_of file_pattern_source_target_directory c
        match_by_position_invert_all_prior_to_selected k

  side_includes :
      (c : RelatedFilesystemRuleContainer) (f : Text) (k : ℕ)
      → length c.filesystem_rules ≤ maximum_filesystem_rule_count
      → should_include_in_directory_enumeration (side_at c k) f ≡ is_first f c.filesystem_rules k
  unfolding should_include_in_directory_enumeration include_only_matching_filenames_of
      with_multiple_rules rule_matching_file_name include_by_condition
  side_includes c f k room =
      let loop = matching_loop-is_first f 0 k c.filesystem_rules (omega arith) in
      ground (arith, loop)

  side_path :
      (c : RelatedFilesystemRuleContainer) (associated opened : Text) (k : ℕ)
      → length c.filesystem_rules ≤ maximum_filesystem_rule_count
      → select_directory_path (side_at c k) associated opened
        ≡ target_of (get_elem? c.filesystem_rules k)
  unfolding select_directory_path include_only_matching_filenames_of with_multiple_rules
      selected_rule
  side_path c associated opened k room = ap target_of (get_rule_by_index_lem c k room)

  listed_from-sides :
      (c : RelatedFilesystemRuleContainer) (f associated opened : Text) (index : ℕ)
      (rs : List FilesystemRule)
      → length c.filesystem_rules ≤ maximum_filesystem_rule_count
      → index + length rs ≤ 255
      → listed_from f associated opened (target_sides_of_rules c index rs)
        ≡ collect
            (is_first f c.filesystem_rules)
            (λ k. target_of (get_elem? c.filesystem_rules k))
            index
            (length rs)
  unfolding target_sides_of_rules
  listed_from-sides c f associated opened index [] room small = refl
  listed_from-sides c f associated opened index (r ∷ rs) room small =
      let next : (index + 1) % 256 ≡ suc index = omega arith in
      rw (
        next,
        side_includes c f index room,
        side_path c associated opened index room,
        listed_from-sides c f associated opened (suc index) rs room (omega arith),
      )

  -- The directory that the target side of one rule is read from: it is already open if the rule is
  -- the only one.
  abbrev pub read_from : ℕ → Text → Option FilesystemRule → List (Option Text)
  read_from number opened none = []
  read_from number opened (some r) =
      if number == 1 then some opened ∷ [] else some r.target_directory_full_path ∷ []

  target_side_of_rule-listed :
      (r : FilesystemRule) (f associated opened : Text)
      → listed_from f associated opened (target_side_of_rule r ∷ [])
        ≡ (if file_name_matches_any_pattern r f then some opened ∷ [] else [])
  unfolding target_side_of_rule include_only_matching_filenames include_all_filenames
      with_single_rule should_include_in_directory_enumeration select_directory_path
      has_file_patterns file_name_matches_any_pattern matches_any_pattern
  target_side_of_rule-listed r f associated opened = ground arith

  only_rule :
      (rs : List FilesystemRule) (r : FilesystemRule) (f opened : Text)
      → get_elem? rs 0 ≡ some r
      → length rs ≡ 1
      → (if file_name_matches_any_pattern r f then some opened ∷ [] else [])
        ≡ read_from 1 opened (first_match f rs)
  only_rule [] r f opened h one = cc
  only_rule (x ∷ []) r f opened h one = ground (arith, h)
  only_rule (x ∷ y ∷ rs) r f opened h one = absurd (omega arith)

  several_rules :
      (n : ℕ) (o : Option FilesystemRule) (opened : Text)
      → (n == 1) ≡ false
      → singleton_target o ≡ read_from n opened o
  several_rules n none opened h = refl
  several_rules n (some r) opened h = rw h

  -- In the origin directory of the at most 64 rules of a container, the first of which is taken for
  -- the one that redirected if there is no other, a file name is listed from the target directory of
  -- the first rule that matches it (the directory that is open already, where the rule is the only
  -- one), from no other target directory, and from none if no rule matches.
  pub target_side-listed :
      (c : RelatedFilesystemRuleContainer) (original : FilesystemRule) (f associated opened : Text)
      → length c.filesystem_rules ≤ maximum_filesystem_rule_count
      → (count_of_rules c ≡ 1 → get_elem? c.filesystem_rules 0 ≡ some original)
      → listed_from f associated opened (target_side c original)
        ≡ read_from (count_of_rules c) opened (first_match f c.filesystem_rules)
  unfolding target_side count_of_rules
  target_side-listed c original f associated opened room sole =
      elim (Bool-cases (length c.filesystem_rules == 1)) [
        | inl one ↦
            let n : length c.filesystem_rules ≡ 1 = ground (arith, one) in
            rw one (
              target_side_of_rule-listed original f associated opened
              ∙ only_rule c.filesystem_rules original f opened (sole n) n
              ∙ ap (λ m. read_from m opened (first_match f c.filesystem_rules)) (sym n))
        | inr more ↦ rw more (
            listed_from-sides c f associated opened 0 c.filesystem_rules room (omega arith)
            ∙ collect-first_match f c.filesystem_rules
            ∙ several_rules (length c.filesystem_rules) (first_match f c.filesystem_rules) opened
                more)
      ]
