-- ===== src/DirectorBuilder/Usable.antt =====
-- Placing a rule in the tree of a builder leaves containers that can be used.
use pathwinder.Base.{
  ◌≡◌, refl, sym, ap, subst, ◌∙◌, inl, inr, true, false, List, [], ◌∷◌, Option, none, some, leb,
  if◌then◌else◌, is_empty, or_else, length, arith, Bool-cases,
}
use pathwinder.Text.{Text}
use pathwinder.Infra.{Infra}
use pathwinder.Rule.{FilesystemRule}
use pathwinder.RuleContainer.{
  RelatedFilesystemRuleContainer, empty_container, emplace_rule, emplace_ordered,
  maximum_filesystem_rule_count,
}
use pathwinder.RuleContainer.Order.{IsValid, emplace_rule-IsValid}
use pathwinder.PrefixTree.{PrefixTree, insert, data_of}
use pathwinder.PrefixTree.Lookup.{lookup, modify_at, lookup-modify_at, same_path}
use pathwinder.PrefixTree.Laws.{path, write-insert, data-insert}
use pathwinder.Director.{case_insensitive_keys}
use pathwinder.DirectorBuilder.AddRule.{container_or_empty, place_in_tree}

module _ ⦃i : Infra⦄ where
  abbrev pub IsUsable : RelatedFilesystemRuleContainer → Type 0
  IsUsable c = IsValid c × (is_empty c.filesystem_rules ≡ false)

  -- Every container in the tree is valid and has a rule.
  abbrev pub HasUsableContainers : PrefixTree RelatedFilesystemRuleContainer → Type 0
  HasUsableContainers tree =
      (ks : List Text) (c : RelatedFilesystemRuleContainer)
      → lookup ⦃e = case_insensitive_keys⦄ ks tree.root ≡ some c
      → IsUsable c

  emplace_ordered_some :
      (r : FilesystemRule) (xs : List FilesystemRule) → is_empty (emplace_ordered r xs).0 ≡ false
  unfolding emplace_ordered
  emplace_ordered_some r [] = refl
  emplace_ordered_some r (x ∷ xs) = ground arith

  emplace_rule_some :
      (c : RelatedFilesystemRuleContainer) (r : FilesystemRule)
      → is_empty (emplace_rule c r).0.filesystem_rules ≡ false
  unfolding emplace_rule
  emplace_rule_some c r =
      elim (Bool-cases (leb maximum_filesystem_rule_count (length c.filesystem_rules))) [
        | inl full ↦ rw (full, emplace_rule) (full_some c.filesystem_rules full)
        | inr room ↦ rw (room, emplace_rule) (emplace_ordered_some r c.filesystem_rules)
      ]
    where
      full_some :
          (rs : List FilesystemRule)
          → leb maximum_filesystem_rule_count (length rs) ≡ true
          → is_empty rs ≡ false
      full_some [] h = cc
      full_some (x ∷ rs) h = refl

  container_or_empty-IsValid :
      (o : Option RelatedFilesystemRuleContainer)
      → ((c : RelatedFilesystemRuleContainer) → o ≡ some c → IsUsable c)
      → IsValid (container_or_empty (or_else o (some empty_container)))
  container_or_empty-IsValid none h = record { ordered = tt; bounded = omega arith }
  container_or_empty-IsValid (some c) h = (h c refl).0

  pub place_in_tree_root :
      (tree : PrefixTree RelatedFilesystemRuleContainer) (origin : Text) (r : FilesystemRule)
      → (place_in_tree tree origin r).0.root
        ≡ modify_at ⦃e = case_insensitive_keys⦄
            (path ⦃e = case_insensitive_keys⦄ i.tokenize tree origin)
            (λ _.
              some
                (emplace_rule
                  (container_or_empty (
                    or_else
                      (lookup ⦃e = case_insensitive_keys⦄
                        (path ⦃e = case_insensitive_keys⦄ i.tokenize tree origin)
                        tree.root)
                      (some empty_container)))
                  r).0)
            tree.root
  unfolding place_in_tree
  place_in_tree_root tree origin r =
      write-insert ⦃e = case_insensitive_keys⦄ i.tokenize tree origin empty_container
        (emplace_rule
          (container_or_empty (
            data_of
              (insert ⦃e = case_insensitive_keys⦄ i.tokenize tree origin empty_container).1.here))
          r).0
      ∙ ap
          (λ o.
            modify_at ⦃e = case_insensitive_keys⦄
              (path ⦃e = case_insensitive_keys⦄ i.tokenize tree origin)
              (λ _. some (emplace_rule (container_or_empty o) r).0) tree.root)
          (data-insert ⦃e = case_insensitive_keys⦄ i.tokenize tree origin empty_container)

  pub place_in_tree-HasUsableContainers :
      (tree : PrefixTree RelatedFilesystemRuleContainer) (origin : Text) (r : FilesystemRule)
      → HasUsableContainers tree
      → HasUsableContainers (place_in_tree tree origin r).0
  place_in_tree-HasUsableContainers tree origin r usable ks c h =
      let p = path ⦃e = case_insensitive_keys⦄ i.tokenize tree origin in
      let old =
        container_or_empty
          (or_else (lookup ⦃e = case_insensitive_keys⦄ p tree.root) (some empty_container)) in
      let new = (emplace_rule old r).0 in
      let found : (if same_path ⦃e = case_insensitive_keys⦄ p ks
            then some new
            else lookup ⦃e = case_insensitive_keys⦄ ks tree.root)
          ≡ some c =
        sym (
          ap (lookup ⦃e = case_insensitive_keys⦄ ks) (place_in_tree_root tree origin r)
          ∙ lookup-modify_at ⦃e = case_insensitive_keys⦄ p ks (λ _. some new) tree.root)
        ∙ h in
      elim (Bool-cases (same_path ⦃e = case_insensitive_keys⦄ p ks)) [
        | inl same ↦
            let at : new ≡ c = ground (arith, found, same) in
            subst IsUsable at (
              emplace_rule-IsValid old r (
                  container_or_empty-IsValid (lookup ⦃e = case_insensitive_keys⦄ p tree.root)
                    (usable p)),
              emplace_rule_some old r,
            )
        | inr other ↦ usable ks c (ground (arith, found, other))
      ]
