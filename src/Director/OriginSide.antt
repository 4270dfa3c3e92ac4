-- ===== src/Director/OriginSide.antt =====
-- The enumeration of the origin directory: a file name is listed from it unless the rule which
-- redirects it hides it, being in simple mode.
use pathwinder.Base.{
  ◌≤◌, ◌≡◌, refl, sym, ap, ◌∙◌, inl, inr, Bool, true, false, not, ◌&&◌, List, [], ◌∷◌, Option, none,
  some, ◌==◌, if◌then◌else◌, length, get_elem?, arith, Bool-cases,
}
use pathwinder.Text.{Text}
use pathwinder.Infra.{Infra}
use pathwinder.Rule.{FilesystemRule, file_name_matches_any_pattern}
use pathwinder.RuleContainer.{
  RelatedFilesystemRuleContainer, rule_matching_file_name, count_of_rules,
  maximum_filesystem_rule_count, maximum_rules_index, matching_loop,
}
use pathwinder.Instruction.{
  SingleDirectoryEnumeration, include_all_filenames, include_all_except_matching_filenames,
  include_all_except_matching_filenames_of, with_single_rule, with_multiple_rules,
  should_include_in_directory_enumeration, select_directory_path, include_by_condition,
  associated_path, match_by_redirect_mode_invert_overlay,
}
use pathwinder.Director.DirectoryEnumeration.{
  no_counts, count_mode, count_modes, counted_modes, origin_side,
}
use pathwinder.Director.FirstMatch.{first_match, matching_loop-first_match}
use pathwinder.Director.TargetSide.{listed_from}
use pathwinder.Director.ModeCounts.{HasMode, HaveModes, is_hiding, no_simple_rules, replaced}

module _ ⦃i : Infra⦄ where
  all_except_rule :
      (r : FilesystemRule) (f : Text)
      → should_include_in_directory_enumeration
          (include_all_except_matching_filenames associated_path r)
          f
        ≡ not (file_name_matches_any_pattern r f)
  unfolding should_include_in_directory_enumeration include_all_except_matching_filenames
      with_single_rule
  all_except_rule r f = ground arith

  HaveModes-first_match :
      (f : Text) (rs : List FilesystemRule) (r : FilesystemRule)
      → HaveModes rs
      → first_match f rs ≡ some r
      → HasMode r
  HaveModes-first_match f [] r modes h = cc
  HaveModes-first_match f (x ∷ rs) r (mode, modes) h =
      elim (Bool-cases (file_name_matches_any_pattern x f)) [
        | inl hit ↦ ground (arith, mode, hit, h)
        | inr miss ↦ HaveModes-first_match f rs r modes (ground (arith, miss, h))
      ]

  all_except_rules :
      (c : RelatedFilesystemRuleContainer) (f : Text)
      → length c.filesystem_rules ≤ maximum_filesystem_rule_count
      → HaveModes c.filesystem_rules
      → should_include_in_directory_enumeration
          (include_all_except_matching_filenames_of associated_path c
            match_by_redirect_mode_invert_overlay maximum_rules_index)
          f
        ≡ not (is_hiding (first_match f c.filesystem_rules))
  unfolding should_include_in_directory_enumeration include_all_except_matching_filenames_of
      with_multiple_rules rule_matching_file_name include_by_condition
  all_except_rules c f room modes =
      let loop = matching_loop-first_match f 0 c.filesystem_rules (omega arith) in
      go (first_match f c.filesystem_rules) loop
        (λ r. HaveModes-first_match f c.filesystem_rules r modes)
    where
      go :
          (o : Option FilesystemRule)
          → (matching_loop f maximum_rules_index 0 c.filesystem_rules).0 ≡ o
          → ((r : FilesystemRule) → o ≡ some r → HasMode r)
          → should_include_in_directory_enumeration
              (include_all_except_matching_filenames_of associated_path c
                match_by_redirect_mode_invert_overlay maximum_rules_index)
              f
            ≡ not (is_hiding o)
      go none h mode = ground (arith, h)
      go (some r) h mode = ground (arith, h, mode r refl)

  sole_rule :
      (c : RelatedFilesystemRuleContainer) (original : FilesystemRule)
      → (count_of_rules c ≡ 1 → get_elem? c.filesystem_rules 0 ≡ some original)
      → count_of_rules c ≡ 1
      → c.filesystem_rules ≡ original ∷ []
  unfolding count_of_rules
  sole_rule c original sole one = go c.filesystem_rules one (sole one)
    where
      go :
          (rs : List FilesystemRule)
          → length rs ≡ 1
          → get_elem? rs 0 ≡ some original
          → rs ≡ original ∷ []
      go [] one first = absurd (omega arith)
      go (r ∷ []) one first = ground (arith, first)
      go (r ∷ x ∷ rs) one first = absurd (omega arith)

  counted_modes_lem :
      (c : RelatedFilesystemRuleContainer) (original : FilesystemRule)
      → (count_of_rules c ≡ 1 → get_elem? c.filesystem_rules 0 ≡ some original)
      → counted_modes c original ≡ count_modes c.filesystem_rules no_counts
  unfolding counted_modes count_of_rules count_modes
  counted_modes_lem c original sole = elim (Bool-cases (length c.filesystem_rules == 1)) [
    | inl one ↦ rw one (
        ap (λ rs. count_modes rs no_counts) (sym (sole_rule c original sole (ground (arith, one)))))
    | inr more ↦ rw more
  ]

  listed_if :
      (e : SingleDirectoryEnumeration) (f associated opened : Text) (hide : Bool)
      → should_include_in_directory_enumeration e f ≡ not hide
      → select_directory_path e associated opened ≡ some associated
      → listed_from f associated opened (e ∷ []) ≡ (if hide then [] else some associated ∷ [])
  listed_if e f associated opened hide h p = ground (arith, h, p)

  from_origin :
      (c : RelatedFilesystemRuleContainer) (r : FilesystemRule) (associated opened f : Text)
      → (select_directory_path (include_all_filenames associated_path) associated opened
          ≡ some associated)
        × (should_include_in_directory_enumeration (include_all_filenames associated_path) f ≡ true)
        × (select_directory_path
              (include_all_except_matching_filenames associated_path r)
              associated
              opened
            ≡ some associated)
        × (select_directory_path
              (include_all_except_matching_filenames_of associated_path c
                match_by_redirect_mode_invert_overlay maximum_rules_index)
              associated
              opened
            ≡ some associated)
  unfolding select_directory_path should_include_in_directory_enumeration include_all_filenames
      include_all_except_matching_filenames include_all_except_matching_filenames_of
      with_single_rule with_multiple_rules
  from_origin c r associated opened f = (refl, refl, refl, refl)

  only_hides :
      (r : FilesystemRule) (f : Text)
      → ((count_modes (r ∷ []) no_counts).simple_rules == 0) ≡ false
      → not (file_name_matches_any_pattern r f) ≡ not (is_hiding (first_match f (r ∷ [])))
  unfolding count_modes count_mode
  only_hides r f h = ground (arith, h)

  -- In the origin directory of the at most 64 rules of a container, each in one of the two modes,
  -- the first of which is taken for the one that redirected if there is no other, a file name is
  -- listed from the origin directory once, or not at all if the first rule that matches it is in
  -- simple mode.
  pub origin_side-listed :
      (c : RelatedFilesystemRuleContainer) (original : FilesystemRule) (f associated opened : Text)
      → length c.filesystem_rules ≤ maximum_filesystem_rule_count
      → HaveModes c.filesystem_rules
      → (count_of_rules c ≡ 1 → get_elem? c.filesystem_rules 0 ≡ some original)
      → listed_from f associated opened (origin_side c original)
        ≡ (if is_hiding (first_match f c.filesystem_rules) then [] else some associated ∷ [])
  unfolding origin_side
  origin_side-listed c original f associated opened room modes sole =
      let rs = c.filesystem_rules in
      let n = count_modes rs no_counts in
      let from = from_origin c original associated opened f in
      let unhidden : (n.simple_rules == 0) ≡ true → is_hiding (first_match f rs) ≡ false =
        λ h. (no_simple_rules rs no_counts f modes (ground (arith, h))).1 in
      rw (counted_modes_lem c original sole)
        (elim (Bool-cases (n.overlay_rules == 0 && n.contains_simple_rule_with_no_file_patterns)) [
          | inl all ↦
              rw (
                all,
                replaced rs no_counts f modes refl (ground (arith, all)) (ground (arith, all)),
              )
          | inr some_left ↦ rw some_left (elim (Bool-cases (n.simple_rules == 0)) [
            | inl none_simple ↦ rw none_simple (
                listed_if (include_all_filenames associated_path) f associated opened
                  (is_hiding (first_match f rs)) (from.1 ∙ ap not (sym (unhidden none_simple)))
                  from.0)
            | inr some_simple ↦ rw some_simple (elim (Bool-cases (count_of_rules c == 1)) [
              | inl one ↦
                  let alone = sole_rule c original sole (ground (arith, one)) in
                  rw one (
                    listed_if (include_all_except_matching_filenames associated_path original) f
                      associated opened (is_hiding (first_match f rs))
                      (all_except_rule original f
                        ∙ only_hides original f (
                            ap (λ l. (count_modes l no_counts).simple_rules == 0) (sym alone)
                            ∙ some_simple)
                        ∙ ap (λ l. not (is_hiding (first_match f l))) (sym alone))
                      from.2)
              | inr more ↦ rw more (
                  listed_if
                    (include_all_except_matching_filenames_of associated_path c
                      match_by_redirect_mode_invert_overlay maximum_rules_index)
                    f associated opened (is_hiding (first_match f rs))
                    (all_except_rules c f room modes) from.3)
            ])
          ])
        ])
