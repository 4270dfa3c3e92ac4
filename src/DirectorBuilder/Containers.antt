-- ===== src/DirectorBuilder/Containers.antt =====
-- The containers of a builder: AddRule keeps them in order, within their limit and not empty, so a
-- director that is built from it always gives an instruction.
use pathwinder.Base.{
  ℕ, ◌≡◌, sym, subst, ◌∙◌, inl, inr, ◌⊎◌, Bool, true, false, not, List, [], ◌∷◌, map, Option, none,
  some, is_some, arith, Bool-cases, Option-cases,
}
use mathlib.Core.Bool.{◌||◌}
use pathwinder.Text.{Text, text_eq}
use pathwinder.Infra.{Infra}
use pathwinder.Rule.{FilesystemRule, RedirectMode, make_rule}
use pathwinder.RuleContainer.{RelatedFilesystemRuleContainer}
use pathwinder.PrefixTree.{PrefixTree, Node, nil, insert, data_of, longest_matching_prefix}
use pathwinder.PrefixTree.Lookup.{lookup, inits, last_some}
use pathwinder.PrefixTree.Laws.{path, longest_matching_prefix_lem}
use pathwinder.Director.{
  FilesystemDirector, CreateDisposition, FileAccessMode, case_insensitive_keys,
  select_rules_for_path,
}
use pathwinder.Director.FileOperation.{make_query, get_instruction_for_file_operation}
use pathwinder.Director.Completeness.{instruction_total}
use pathwinder.DirectorBuilder.{
  FilesystemDirectorBuilder, empty_builder, set_contains, set_emplace, has_origin_directory,
  has_target_directory, full_path_of, are_valid_patterns,
}
use pathwinder.DirectorBuilder.AddRule.{place_in_tree, place_rule, add_rule_with_origin, add_rule}
use pathwinder.DirectorBuilder.Usable.{
  IsUsable, HasUsableContainers, place_in_tree-HasUsableContainers,
}

module _ ⦃i : Infra⦄ where
  place_rule_tree :
      (b : FilesystemDirectorBuilder) (name origin target : Text) (patterns : List Text)
      (mode : RedirectMode)
      → HasUsableContainers b.filesystem_rules_by_origin_directory
      → HasUsableContainers
          (place_rule b name origin target patterns mode).0.filesystem_rules_by_origin_directory
  unfolding place_rule
  place_rule_tree b name origin target patterns mode usable =
      let owned_origin = (set_emplace i.equals_case_insensitive origin b.origin_directories).1 in
      let owned_target = (set_emplace i.equals_case_insensitive target b.target_directories).1 in
      let owned_name = (set_emplace text_eq name b.filesystem_rule_names).1 in
      let r = make_rule owned_name owned_origin owned_target patterns mode in
      let tree = b.filesystem_rules_by_origin_directory in
      elim (Option-cases (place_in_tree tree owned_origin r).1) [
        | inl e ↦ rw (e, place_rule) (place_in_tree-HasUsableContainers tree owned_origin r usable)
        | inr (there, e) ↦
            rw (e, place_rule) (place_in_tree-HasUsableContainers tree owned_origin r usable)
      ]

  -- Why AddRule refuses a rule: its name is taken, a file pattern is not valid, a directory has no
  -- full path, the origin directory is a target directory, or the target directory is an origin or
  -- a target directory.
  abbrev pub Refused :
      (Text → Option Text) → ℕ → FilesystemDirectorBuilder → Text → Text → Text → List Text → Type 0
  Refused resolve_all_references capacity b name origin target patterns =
      (set_contains text_eq name b.filesystem_rule_names ≡ true)
      ⊎ ((are_valid_patterns patterns ≡ false)
          ⊎ ((full_path_of resolve_all_references capacity origin ≡ none)
              ⊎ (((o : Text) × (full_path_of resolve_all_references capacity origin ≡ some o)
                    × (has_target_directory b o ≡ true))
                  ⊎ ((full_path_of resolve_all_references capacity target ≡ none)
                      ⊎ ((t : Text) × (full_path_of resolve_all_references capacity target ≡ some t)
                          × ((has_origin_directory b t || has_target_directory b t) ≡ true))))))

  -- AddRule fails and leaves the builder as it was, or all its checks pass.
  pub add_rule_checks :
      (resolve_all_references : Text → Option Text) (capacity : ℕ) (b : FilesystemDirectorBuilder)
      (name origin target : Text) (patterns : List Text) (mode : RedirectMode)
      → ((add_rule resolve_all_references capacity b name origin target patterns mode ≡ (b, none))
          × Refused resolve_all_references capacity b name origin target patterns)
        ⊎ ((o : Text) × (t : Text) × (add_rule resolve_all_references capacity b name origin target
                patterns mode
              ≡ place_rule b name o t patterns mode)
            × (full_path_of resolve_all_references capacity origin ≡ some o)
            × (full_path_of resolve_all_references capacity target ≡ some t)
            × (set_contains text_eq name b.filesystem_rule_names ≡ false)
            × (are_valid_patterns patterns ≡ true)
            × (has_target_directory b o ≡ false)
            × (has_origin_directory b t ≡ false)
            × (has_target_directory b t ≡ false))
  unfolding add_rule add_rule_with_origin
  add_rule_checks resolve_all_references capacity b name origin target patterns mode =
      elim (Bool-cases
        (set_contains text_eq name b.filesystem_rule_names || not (are_valid_patterns patterns))) [
          | inl bad ↦ inl (
            ground (arith, bad),
            elim (Bool-cases (set_contains text_eq name b.filesystem_rule_names)) [
              | inl taken ↦ inl taken
              | inr free ↦ inr (inl (ground (arith, bad, free)))
            ],
          )
          | inr good ↦ elim (Option-cases (full_path_of resolve_all_references capacity origin)) [
            | inl e ↦ inl (ground (arith, good, e), inr (inr (inl e)))
            | inr (o, e) ↦ elim (Bool-cases (has_target_directory b o)) [
              | inl used ↦ inl (ground (arith, good, e, used), inr (inr (inr (inl (o, e, used)))))
              | inr free ↦
                  elim (Option-cases (full_path_of resolve_all_references capacity target)) [
                    | inl e' ↦
                        inl (ground (arith, good, e, free, e'), inr (inr (inr (inr (inl e')))))
                    | inr (t, e') ↦
                        elim (Bool-cases (has_origin_directory b t || has_target_directory b t)) [
                          | inl used' ↦ inl (
                            ground (arith, good, e, free, e', used'),
                            inr (inr (inr (inr (inr (t, e', used'))))),
                          )
                          | inr free' ↦ inr (
                            o,
                            t,
                            ground (arith, good, e, free, e', free'),
                            e,
                            e',
                            ground (arith, good),
                            ground (arith, good),
                            free,
                            ground (arith, free'),
                            ground (arith, free'),
                          )
                        ]
                  ]
            ]
          ]
        ]

  -- The builders that AddRule makes of the empty one, whatever it is asked to add.
  pub data Reachable (resolve_all_references : Text → Option Text) (capacity : ℕ)
      : FilesystemDirectorBuilder → Type 0 where
    empty : Reachable resolve_all_references capacity empty_builder
    added :
        (b : FilesystemDirectorBuilder) (name origin target : Text) (patterns : List Text)
        (mode : RedirectMode)
        → Reachable resolve_all_references capacity b
        → Reachable resolve_all_references capacity
            (add_rule resolve_all_references capacity b name origin target patterns mode).0

  empty_lookup :
      (ks : List Text) (c : RelatedFilesystemRuleContainer)
      → lookup ⦃e = case_insensitive_keys⦄ ks
          empty_builder.filesystem_rules_by_origin_directory.root
        ≡ some c
      → IsUsable c
  unfolding lookup pathwinder.PrefixTree.find_entry
  empty_lookup [] c h = cc
  empty_lookup (k ∷ ks) c h = cc

  -- In every builder that AddRule makes each container of rules is in order, within its limit and
  -- not empty, also after errors.
  pub Reachable-HasUsableContainers :
      (resolve_all_references : Text → Option Text) (capacity : ℕ) (b : FilesystemDirectorBuilder)
      → Reachable resolve_all_references capacity b
      → HasUsableContainers b.filesystem_rules_by_origin_directory
  Reachable-HasUsableContainers resolve capacity b empty = empty_lookup
  Reachable-HasUsableContainers resolve capacity b
        (added a name origin target patterns mode before) =
      let usable = Reachable-HasUsableContainers resolve capacity a before in
      let tree_of : FilesystemDirectorBuilder × Option FilesystemRule
          → PrefixTree RelatedFilesystemRuleContainer =
        λ p. p.0.filesystem_rules_by_origin_directory in
      elim (add_rule_checks resolve capacity a name origin target patterns mode) [
        | inl (same, _) ↦ subst (λ p. HasUsableContainers (tree_of p)) (sym same) usable
        | inr (o, t, same, _, _, _, _, _, _, _) ↦
            subst (λ p. HasUsableContainers (tree_of p)) (sym same)
              (place_rule_tree a name o t patterns mode usable)
      ]

  last_some_found :
      (g : List Text → Option RelatedFilesystemRuleContainer) (ps : List (List Text))
      (c : RelatedFilesystemRuleContainer)
      → last_some (map g ps) ≡ some c
      → (p : List Text) × (g p ≡ some c)
  unfolding last_some
  last_some_found g [] c h = cc
  last_some_found g (p ∷ ps) c h = elim (Option-cases (last_some (map g ps))) [
    | inl e ↦ (p, ground (arith, h, e))
    | inr (d, e) ↦ last_some_found g ps c (e ∙ ground (arith, h, e))
  ]

  selected-IsUsable :
      (d : FilesystemDirector) (s : Text) (c : RelatedFilesystemRuleContainer)
      → HasUsableContainers d.filesystem_rules_by_origin_directory
      → select_rules_for_path d s ≡ some c
      → IsUsable c
  unfolding select_rules_for_path
  selected-IsUsable d s c usable h =
      let tree = d.filesystem_rules_by_origin_directory in
      let (p, at) =
        last_some_found (λ p. lookup ⦃e = case_insensitive_keys⦄ p tree.root)
          (inits (path ⦃e = case_insensitive_keys⦄ i.tokenize tree s)) c
          (sym (longest_matching_prefix_lem ⦃e = case_insensitive_keys⦄ i.tokenize tree s) ∙ h) in
      usable p c at

  -- A director whose rules AddRule added has an instruction for every file operation.
  pub built_director_total :
      (resolve_all_references : Text → Option Text) (capacity : ℕ) (is_directory : Text → Bool)
      (d : FilesystemDirector) (path : Text) (mode : FileAccessMode)
      (disposition : CreateDisposition)
      → Reachable resolve_all_references capacity d
      → is_some (get_instruction_for_file_operation is_directory d path mode disposition) ≡ true
  built_director_total resolve capacity is_directory d path mode disposition built =
      instruction_total is_directory d path mode disposition (λ c h.
        (selected-IsUsable d (make_query path).trimmed c
          (Reachable-HasUsableContainers resolve capacity d built) h).1)
