-- ===== src/DirectorBuilder/Outcome.antt =====
-- AddRule of FilesystemDirectorBuilder.cpp: what it checks, and what it records of a rule.
use pathwinder.Base.{
  ℕ, ◌≤◌, ◌<◌, ◌≡◌, refl, sym, ap, subst, inl, inr, ◌⊎◌, Bool, true, false, List, Option, none,
  some, or_else, if◌then◌else◌, length, arith,
}
use mathlib.Core.Bool.{◌||◌}
use pathwinder.Text.{Text, text_eq}
use pathwinder.Infra.{Infra}
use pathwinder.Rule.{FilesystemRule, RedirectMode, make_rule}
use pathwinder.Rule.Compare.{equals_refl, equals_trans}
use pathwinder.RuleContainer.{
  RelatedFilesystemRuleContainer, emplace_rule, maximum_filesystem_rule_count,
}
use pathwinder.RuleContainer.Order.{IsEmplaced, emplace_rule_outcome}
use pathwinder.PrefixTree.Lookup.{same_path}
use pathwinder.Director.{case_insensitive_keys, find_by_name}
use pathwinder.DirectorBuilder.{
  FilesystemDirectorBuilder, set_contains, set_emplace, has_origin_directory, has_target_directory,
  full_path_of, are_valid_patterns,
}
use pathwinder.DirectorBuilder.AddRule.{container_or_empty, place_rule, add_rule}
use pathwinder.DirectorBuilder.Containers.{Refused, add_rule_checks}
use pathwinder.DirectorBuilder.Recorded.{
  set_contains-set_emplace, set_emplace_new, set_emplace_same, text_eq_trans, find-emplace_by_name,
  key_of, rules_at, lookup-place_in_tree, place_in_tree_there,
}

module _ ⦃i : Infra⦄ where
  -- The sets of a builder after the directories and the name of a rule were added.
  abbrev pub Records :
      FilesystemDirectorBuilder → FilesystemDirectorBuilder → Text → Text → Text → Type 0
  Records b b' name o t =
      ((x : Text)
        → set_contains text_eq x b'.filesystem_rule_names
          ≡ (text_eq name x || set_contains text_eq x b.filesystem_rule_names))
      × ((x : Text)
          → has_origin_directory b' x ≡ (i.equals_case_insensitive o x || has_origin_directory b x))
      × ((x : Text)
          → has_target_directory b' x ≡ (i.equals_case_insensitive t x || has_target_directory b x))

  -- The tree and the rules by name after a rule came to the rules of its origin directory: with 64
  -- of them there it is refused, and else it stands among them or an equivalent rule did before.
  abbrev pub Places :
      FilesystemDirectorBuilder
      → FilesystemDirectorBuilder
      → FilesystemRule
      → Option FilesystemRule
      → Type 0
  Places b b' r result =
      let key = key_of b r.origin_directory_full_path in
      (before : RelatedFilesystemRuleContainer) × (after : RelatedFilesystemRuleContainer) × (before
        ≡ container_or_empty (rules_at b key))
      × ((ks : List Text)
          → rules_at b' ks
            ≡ (if same_path ⦃e = case_insensitive_keys⦄ key ks then some after else rules_at b ks))
      × (((maximum_filesystem_rule_count ≤ length before.filesystem_rules)
            × (after ≡ before)
            × (result ≡ none)
            × (b'.filesystem_rules_by_name ≡ b.filesystem_rules_by_name))
          ⊎ ((length before.filesystem_rules < maximum_filesystem_rule_count)
              × (there : FilesystemRule) × (added : Bool) × (result ≡ some there)
              × IsEmplaced r before.filesystem_rules (after.filesystem_rules, there, added)
              × ((n : Text)
                  → find_by_name n b'.filesystem_rules_by_name
                    ≡ or_else (find_by_name n b.filesystem_rules_by_name)
                        (if text_eq there.name n then some there else none))))

  owned_origin_of : FilesystemDirectorBuilder → Text → Text
  owned_origin_of b o = (set_emplace i.equals_case_insensitive o b.origin_directories).1

  owned_origin-same :
      (b : FilesystemDirectorBuilder) (o : Text)
      → i.equals_case_insensitive (owned_origin_of b o) o ≡ true
  unfolding owned_origin_of
  owned_origin-same b o =
      set_emplace_same i.equals_case_insensitive o b.origin_directories (equals_refl o)

  place_rule-Records :
      (b : FilesystemDirectorBuilder) (name o t : Text) (patterns : List Text) (mode : RedirectMode)
      → Records b (place_rule b name o t patterns mode).0 name o t
  unfolding place_rule has_origin_directory has_target_directory
  place_rule-Records b name o t patterns mode = (
    λ x.
        ground
          (arith, set_contains-set_emplace text_eq text_eq_trans name x b.filesystem_rule_names),
    λ x. ground (
      arith,
      set_contains-set_emplace i.equals_case_insensitive equals_trans o x b.origin_directories,
    ),
    λ x. ground (
      arith,
      set_contains-set_emplace i.equals_case_insensitive equals_trans t x b.target_directories,
    ),
  )

  place_rule-Places :
      (b : FilesystemDirectorBuilder) (name o t : Text) (patterns : List Text) (mode : RedirectMode)
      → set_contains text_eq name b.filesystem_rule_names ≡ false
      → has_target_directory b t ≡ false
      → let placed = place_rule b name o t patterns mode in
        Places b placed.0 (make_rule name (owned_origin_of b o) t patterns mode) placed.1
  unfolding place_rule has_target_directory owned_origin_of make_rule
  place_rule-Places b name o t patterns mode new_name new_target =
      let owned = owned_origin_of b o in
      let r = make_rule name owned t patterns mode in
      let c = container_or_empty (rules_at b (key_of b owned)) in
      let same_name = set_emplace_new text_eq name b.filesystem_rule_names new_name in
      let same_target =
        set_emplace_new i.equals_case_insensitive t b.target_directories new_target in
      let there_is = place_in_tree_there b owned r in
      (
        c,
        (emplace_rule c r).0,
        refl,
        λ ks. ground (arith, same_name, same_target, lookup-place_in_tree b owned r ks),
        elim (emplace_rule_outcome c r) [
          | inl (full, e) ↦ inl (
            full,
            ap (λ p. p.0) e,
            ground (arith, same_name, same_target, there_is, e),
            ground (arith, same_name, same_target, there_is, e),
          )
          | inr (room, (there, e, emplaced)) ↦ inr (
            room,
            there,
            (emplace_rule c r).2,
            ground (arith, same_name, same_target, there_is, e),
            emplaced,
            λ n. ground (
              arith,
              same_name,
              same_target,
              there_is,
              e,
              find-emplace_by_name there n b.filesystem_rules_by_name,
            ),
          )
        ],
      )

  -- AddRule refuses a rule and leaves the builder as it was, and then its name is taken, one of its
  -- patterns is not valid, or one of its directories has no full path or is in use. Else its
  -- name and its directories are recorded, next to those that were there, and the rule comes to the
  -- rules of its origin directory, with the spelling that the builder has of that directory. If
  -- there are 64 of them already, no rule is returned and the rules stay as they were, but the name
  -- and the directories are recorded all the same. With fewer, the rule is put among them or an
  -- equivalent rule was there already; the one that is there is returned, and it is found by its
  -- name unless that name was in use.
  pub add_rule_outcome :
      (resolve_all_references : Text → Option Text) (capacity : ℕ) (b : FilesystemDirectorBuilder)
      (name origin target : Text) (patterns : List Text) (mode : RedirectMode)
      → let (b', result) =
          add_rule resolve_all_references capacity b name origin target patterns mode in
        ((b' ≡ b)
          × (result ≡ none)
          × Refused resolve_all_references capacity b name origin target patterns)
        ⊎ ((o : Text) × (t : Text) × (owned : Text) × (full_path_of resolve_all_references capacity
                origin
              ≡ some o)
            × (full_path_of resolve_all_references capacity target ≡ some t)
            × (set_contains text_eq name b.filesystem_rule_names ≡ false)
            × (are_valid_patterns patterns ≡ true)
            × (has_target_directory b o ≡ false)
            × (has_origin_directory b t ≡ false)
            × (has_target_directory b t ≡ false)
            × (i.equals_case_insensitive owned o ≡ true)
            × Records b b' name o t
            × Places b b' (make_rule name owned t patterns mode) result)
  add_rule_outcome resolve_all_references capacity b name origin target patterns mode =
      elim (add_rule_checks resolve_all_references capacity b name origin target patterns mode) [
        | inl (same, refused) ↦ inl (ap (λ p. p.0) same, ap (λ p. p.1) same, refused)
        | inr (o, t, same, full, full', free, valid, unused, unused', unused'') ↦ inr (
          o,
          t,
          owned_origin_of b o,
          full,
          full',
          free,
          valid,
          unused,
          unused',
          unused'',
          owned_origin-same b o,
          subst (λ p. Records b p.0 name o t) (sym same)
              (place_rule-Records b name o t patterns mode),
          subst (λ p. Places b p.0 (make_rule name (owned_origin_of b o) t patterns mode) p.1)
              (sym same) (place_rule-Places b name o t patterns mode free unused''),
        )
      ]
