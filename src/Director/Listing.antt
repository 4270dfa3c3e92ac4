-- ===== src/Director/Listing.antt =====
-- GetInstructionForDirectoryEnumeration: the directories that a file name is listed from.
use pathwinder.Base.{
  ◌≤◌, ◌≡◌, refl, ap, ◌∙◌, inl, inr, ◌⊎◌, Bool, false, List, [], ◌∷◌, ◌++◌, some, if◌then◌else◌,
  length, get_elem?, arith, Bool-cases, Option-cases,
}
use pathwinder.Text.{Text, backslash, text_eq}
use pathwinder.Infra.{Infra}
use pathwinder.Rule.{
  FilesystemRule, directory_compare_with_origin, equal, candidate_is_child, candidate_is_descendant,
}
use pathwinder.RuleContainer.{
  RelatedFilesystemRuleContainer, any_rule, count_of_rules, maximum_filesystem_rule_count,
}
use pathwinder.Instruction.{
  SingleDirectoryEnumeration, DirectoryEnumerationInstruction, include_all_filenames,
  should_include_in_directory_enumeration, select_directory_path,
}
use pathwinder.Director.{
  FilesystemDirector, select_rules_for_path, identify_rule_that_performed_redirection,
}
use pathwinder.Director.DirectoryEnumeration.{
  target_side, origin_side, enumerate_descendant, enumerate_with_rules, trimmed_for_query,
  directories_to_enumerate_for, directory_names_to_insert_for, make_enumeration_instruction,
  get_instruction_for_directory_enumeration,
}
use pathwinder.Director.FirstMatch.{first_match}
use pathwinder.Director.TargetSide.{listed_from, read_from, target_side-listed}
use pathwinder.Director.OriginSide.{origin_side-listed}
use pathwinder.Director.ModeCounts.{HasMode, HaveModes, is_hiding}

module _ ⦃i : Infra⦄ where
  listed_from-append :
      (f associated opened : Text) (es fs : List SingleDirectoryEnumeration)
      → listed_from f associated opened (es ++ fs)
        ≡ listed_from f associated opened es ++ listed_from f associated opened fs
  listed_from-append f associated opened [] fs = refl
  listed_from-append f associated opened (e ∷ es) fs =
      elim (Bool-cases (should_include_in_directory_enumeration e f)) [
        | inl held ↦ rw (held, listed_from-append f associated opened es fs) refl
        | inr missing ↦ rw missing (listed_from-append f associated opened es fs)
      ]

  identified_first :
      (rs : List FilesystemRule) (opened : Text) (original : FilesystemRule)
      → identify_rule_that_performed_redirection rs opened ≡ some original
      → length rs ≡ 1
      → get_elem? rs 0 ≡ some original
  unfolding identify_rule_that_performed_redirection
  identified_first [] opened original h one = absurd (omega arith)
  identified_first (r ∷ []) opened original h one = ground (arith, h)
  identified_first (r ∷ x ∷ rs) opened original h one = absurd (omega arith)

  abbrev untrailed : Text → Text
  untrailed s = i.remove_trailing s backslash

  -- The directories that the enumeration is told of, where a redirection took place.
  instruction_directories :
      (is_directory : Text → Bool) (d : FilesystemDirector) (associated opened : Text)
      (c : RelatedFilesystemRuleContainer) (original any : FilesystemRule)
      (ins : DirectoryEnumerationInstruction) (es : List SingleDirectoryEnumeration)
      → text_eq (untrailed associated) (untrailed opened) ≡ false
      → select_rules_for_path d (trimmed_for_query (untrailed associated)) ≡ some c
      → identify_rule_that_performed_redirection c.filesystem_rules
          (trimmed_for_query (untrailed opened))
        ≡ some original
      → any_rule c ≡ some any
      → enumerate_with_rules (trimmed_for_query (untrailed associated)) c original any ≡ some es
      → get_instruction_for_directory_enumeration is_directory d associated opened ≡ some ins
      → ins.directories_to_enumerate ≡ es
  unfolding get_instruction_for_directory_enumeration directories_to_enumerate_for
      make_enumeration_instruction
  instruction_directories is_directory d associated opened c original any ins es differ selected
        identified first step h =
      let a = i.remove_trailing associated backslash in
      elim (Option-cases (directory_names_to_insert_for is_directory d a)) [
        | inl e ↦ absurd (ground (arith, differ, selected, identified, first, step, h, e))
        | inr (names, e) ↦ ground (arith, differ, selected, identified, first, step, h, e)
      ]

  -- The enumeration of a directory that is the selected rules' origin directory, and was opened
  -- through one of them, lists a file name from the target directory of the first rule that matches
  -- it, if any (the directory that is open, where there is only one rule), and from the origin
  -- directory unless that rule is in simple mode. There are at most 64 rules, in the two modes.
  pub origin_enumeration_lem :
      (is_directory : Text → Bool) (d : FilesystemDirector) (associated opened f : Text)
      (c : RelatedFilesystemRuleContainer) (original any : FilesystemRule)
      (ins : DirectoryEnumerationInstruction)
      → text_eq (untrailed associated) (untrailed opened) ≡ false
      → select_rules_for_path d (trimmed_for_query (untrailed associated)) ≡ some c
      → identify_rule_that_performed_redirection c.filesystem_rules
          (trimmed_for_query (untrailed opened))
        ≡ some original
      → any_rule c ≡ some any
      → directory_compare_with_origin any (trimmed_for_query (untrailed associated)) ≡ equal
      → length c.filesystem_rules ≤ maximum_filesystem_rule_count
      → HaveModes c.filesystem_rules
      → get_instruction_for_directory_enumeration is_directory d associated opened ≡ some ins
      → listed_from f (untrailed associated) (untrailed opened) ins.directories_to_enumerate
        ≡ read_from (count_of_rules c) (untrailed opened) (first_match f c.filesystem_rules)
          ++ (if is_hiding (first_match f c.filesystem_rules)
              then []
              else some (untrailed associated) ∷ [])
  unfolding enumerate_with_rules count_of_rules
  origin_enumeration_lem is_directory d associated opened f c original any ins differ selected
        identified first here room modes h =
      let a = untrailed associated in
      let o = untrailed opened in
      let sole : count_of_rules c ≡ 1 → get_elem? c.filesystem_rules 0 ≡ some original =
        λ one. identified_first c.filesystem_rules (trimmed_for_query o) original identified one in
      let step : enumerate_with_rules (trimmed_for_query a) c original any
          ≡ some (target_side c original ++ origin_side c original) =
        ground (arith, here) in
      ap (listed_from f a o) (
        instruction_directories is_directory d associated opened c original any ins
          (target_side c original ++ origin_side c original) differ selected identified first step
          h)
      ∙ listed_from-append f a o (target_side c original) (origin_side c original)
      ∙ ap (λ l. l ++ listed_from f a o (origin_side c original))
          (target_side-listed c original f a o room sole)
      ∙ ap (λ l. read_from (count_of_rules c) o (first_match f c.filesystem_rules) ++ l)
          (origin_side-listed c original f a o room modes sole)

  descendant_listed :
      (original : FilesystemRule) (es : List SingleDirectoryEnumeration) (f a o : Text)
      → enumerate_descendant original ≡ some es
      → listed_from f a o es
        ≡ (if is_hiding (some original) then some o ∷ [] else some o ∷ some a ∷ [])
  unfolding enumerate_descendant include_all_filenames should_include_in_directory_enumeration
      select_directory_path
  descendant_listed original es f a o h = ground (arith, h)

  -- The enumeration of a directory below the selected rules' origin directory, opened through one of
  -- them, lists every file name from the open directory, and if that rule is in overlay mode also
  -- from the directory that the application asked for.
  pub descendant_enumeration_lem :
      (is_directory : Text → Bool) (d : FilesystemDirector) (associated opened f : Text)
      (c : RelatedFilesystemRuleContainer) (original any : FilesystemRule)
      (ins : DirectoryEnumerationInstruction)
      → text_eq (untrailed associated) (untrailed opened) ≡ false
      → select_rules_for_path d (trimmed_for_query (untrailed associated)) ≡ some c
      → identify_rule_that_performed_redirection c.filesystem_rules
          (trimmed_for_query (untrailed opened))
        ≡ some original
      → any_rule c ≡ some any
      → (directory_compare_with_origin any (trimmed_for_query (untrailed associated))
          ≡ candidate_is_child)
        ⊎ (directory_compare_with_origin any (trimmed_for_query (untrailed associated))
            ≡ candidate_is_descendant)
      → HasMode original
      → get_instruction_for_directory_enumeration is_directory d associated opened ≡ some ins
      → listed_from f (untrailed associated) (untrailed opened) ins.directories_to_enumerate ≡ (
          if is_hiding (some original)
          then some (untrailed opened) ∷ []
          else some (untrailed opened) ∷ some (untrailed associated) ∷ [])
  unfolding enumerate_with_rules enumerate_descendant
  descendant_enumeration_lem is_directory d associated opened f c original any ins differ selected
        identified first below mode h =
      elim (Option-cases (enumerate_descendant original)) [
        | inl e ↦ absurd (ground (arith, e, mode))
        | inr (es, e) ↦
            let step : enumerate_with_rules (trimmed_for_query (untrailed associated)) c original
                  any
                ≡ some es =
              ground (arith, below, e) in
            ap (listed_from f (untrailed associated) (untrailed opened)) (
              instruction_directories is_directory d associated opened c original any ins es differ
                selected identified first step h)
            ∙ descendant_listed original es f (untrailed associated) (untrailed opened) e
      ]
