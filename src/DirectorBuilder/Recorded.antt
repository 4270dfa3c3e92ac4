-- ===== src/DirectorBuilder/Recorded.antt =====
-- The sets, the tree and the rules by name of a builder, after an entry was added to them.
use pathwinder.Base.{
  ◌≡◌, refl, ap, ◌∙◌, inl, inr, Bool, true, false, List, [], ◌∷◌, Option, none, some, or_else,
  if◌then◌else◌, arith, Bool-cases,
}
use mathlib.Core.Bool.{◌||◌}
use pathwinder.Text.{Text, text_eq}
use pathwinder.Text.Search.{text_eq_iff}
use pathwinder.Infra.{Infra}
use pathwinder.Rule.{FilesystemRule}
use pathwinder.RuleContainer.{RelatedFilesystemRuleContainer, empty_container, emplace_rule}
use pathwinder.PrefixTree.Lookup.{lookup, same_path, lookup-modify_at}
use pathwinder.PrefixTree.Laws.{path, data-insert}
use pathwinder.Director.{case_insensitive_keys, find_by_name}
use pathwinder.DirectorBuilder.{FilesystemDirectorBuilder, set_contains, set_emplace}
use pathwinder.DirectorBuilder.AddRule.{container_or_empty, emplace_by_name, place_in_tree}
use pathwinder.DirectorBuilder.Usable.{place_in_tree_root}

module _ (same : Text → Text → Bool)
    (trans : (a b c : Text) → same a b ≡ true → same b c ≡ true → same a c ≡ true) where
  pub set_contains-set_emplace :
      (s x : Text) (ts : List Text)
      → set_contains same x (set_emplace same s ts).0 ≡ (same s x || set_contains same x ts)
  unfolding set_contains set_emplace
  set_contains-set_emplace s x [] = ground arith
  set_contains-set_emplace s x (t ∷ ts) =
      ground (arith, trans t s x, set_contains-set_emplace s x ts)

pub set_emplace_new :
    (same : Text → Text → Bool) (s : Text) (ts : List Text)
    → set_contains same s ts ≡ false
    → (set_emplace same s ts).1 ≡ s
unfolding set_contains set_emplace
set_emplace_new same s [] h = refl
set_emplace_new same s (t ∷ ts) h = ground (arith, h, set_emplace_new same s ts)

pub set_emplace_same :
    (same : Text → Text → Bool) (s : Text) (ts : List Text)
    → same s s ≡ true
    → same (set_emplace same s ts).1 s ≡ true
unfolding set_emplace
set_emplace_same same s [] h = h
set_emplace_same same s (t ∷ ts) h = ground (arith, h, set_emplace_same same s ts h)

pub text_eq_trans : (a b c : Text) → text_eq a b ≡ true → text_eq b c ≡ true → text_eq a c ≡ true
text_eq_trans a b c h k = (text_eq_iff a c).1 ((text_eq_iff a b).0 h ∙ (text_eq_iff b c).0 k)

pub find-emplace_by_name :
    (r : FilesystemRule) (n : Text) (rules : List (Text × FilesystemRule))
    → find_by_name n (emplace_by_name r rules)
      ≡ or_else (find_by_name n rules) (if text_eq r.name n then some r else none)
unfolding find_by_name emplace_by_name
find-emplace_by_name r n rules = elim (Bool-cases (text_eq r.name n)) [
  | inl e ↦
      let at : find_by_name r.name rules ≡ find_by_name n rules =
        ap (λ m. find_by_name m rules) ((text_eq_iff r.name n).0 e) in
      ground (arith, e, at)
  | inr e ↦ ground (arith, e)
]

module _ ⦃i : Infra⦄ where
  container_or_empty-or_else :
      (o : Option RelatedFilesystemRuleContainer)
      → container_or_empty (or_else o (some empty_container)) ≡ container_or_empty o
  container_or_empty-or_else none = refl
  container_or_empty-or_else (some c) = refl

  -- The components of an origin directory, and the rules that the tree has for it.
  abbrev pub key_of : FilesystemDirectorBuilder → Text → List Text
  key_of b origin =
      path ⦃e = case_insensitive_keys⦄ i.tokenize b.filesystem_rules_by_origin_directory origin

  abbrev pub rules_at :
      FilesystemDirectorBuilder → List Text → Option RelatedFilesystemRuleContainer
  rules_at b ks = lookup ⦃e = case_insensitive_keys⦄ ks b.filesystem_rules_by_origin_directory.root

  pub lookup-place_in_tree :
      (b : FilesystemDirectorBuilder) (origin : Text) (r : FilesystemRule) (ks : List Text)
      → lookup ⦃e = case_insensitive_keys⦄ ks
          (place_in_tree b.filesystem_rules_by_origin_directory origin r).0.root
        ≡ (if same_path ⦃e = case_insensitive_keys⦄ (key_of b origin) ks
            then some (emplace_rule (container_or_empty (rules_at b (key_of b origin))) r).0
            else rules_at b ks)
  lookup-place_in_tree b origin r ks =
      let tree = b.filesystem_rules_by_origin_directory in
      let old = or_else (rules_at b (key_of b origin)) (some empty_container) in
      ap (lookup ⦃e = case_insensitive_keys⦄ ks) (place_in_tree_root tree origin r)
      ∙ lookup-modify_at ⦃e = case_insensitive_keys⦄ (key_of b origin) ks
          (λ _. some (emplace_rule (container_or_empty old) r).0) tree.root
      ∙ ap
          (λ c.
            if same_path ⦃e = case_insensitive_keys⦄ (key_of b origin) ks
            then some (emplace_rule c r).0
            else rules_at b ks)
          (container_or_empty-or_else (rules_at b (key_of b origin)))

  pub place_in_tree_there :
      (b : FilesystemDirectorBuilder) (origin : Text) (r : FilesystemRule)
      → (place_in_tree b.filesystem_rules_by_origin_directory origin r).1
        ≡ (emplace_rule (container_or_empty (rules_at b (key_of b origin))) r).1
  unfolding place_in_tree
  place_in_tree_there b origin r =
      ap (λ o. (emplace_rule (container_or_empty o) r).1)
        (data-insert ⦃e = case_insensitive_keys⦄ i.tokenize b.filesystem_rules_by_origin_directory
          origin empty_container)
      ∙ ap (λ c. (emplace_rule c r).1) (container_or_empty-or_else (rules_at b (key_of b origin)))
