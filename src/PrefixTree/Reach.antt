-- ===== src/PrefixTree/Reach.antt =====
-- HasPathForPrefix: in a valid tree a node stands at a path only if there is data at or below it.
use pathwinder.Base.{
  false, true, List, [], ◌∷◌, ◌++◌, Option, none, some, ◌≡◌, refl, sym, ◌∙◌, ◌↔◌, ◌≢◌, is_some,
}
use pathwinder.Text.{Text}
use pathwinder.PrefixTree.{
  Node, node, nil, cons, KeyEq, PrefixTree, at_root, children, find_entry, has_path_for_prefix,
  traverse_to,
}
use pathwinder.PrefixTree.Entries.{is_dead}
use pathwinder.PrefixTree.Valid.{IsValid, find_entry-IsValid}
use pathwinder.PrefixTree.Lookup.{below, lookup, subnode}
use pathwinder.PrefixTree.Loops.{traverse_tokens-subnode}
use pathwinder.PrefixTree.Laws.{path}

module _ {ℓ} {D : Type ℓ} ⦃e : KeyEq⦄ where
  -- Some path below a node that is not dead has data.
  abbrev pub HasData : List Text → Node D → Type ℓ
  HasData ks n = (qs : List Text) × (d : D) × (lookup (ks ++ qs) n ≡ some d)

  alive_HasData : (n : Node D) → IsValid n → is_dead n ≡ false → HasData [] n
  unfolding lookup find_entry
  alive_HasData (node (some d) cs) v a = ([], d, refl)
  alive_HasData (node none nil) v a = cc
  alive_HasData (node none (cons k m cs)) v a =
      let (qs, d, h) = alive_HasData m v.2 v.1 in (k ∷ qs, d, rw (e.same_refl k) h)

  child_HasData :
      (ks : List Text) (o : Option (Text × Node D))
      → ((j : Text) (n : Node D) → o ≡ some (j, n) → is_some (subnode ks n) ≡ true → HasData ks n)
      → is_some (below (subnode ks) o) ≡ true
      → (qs : List Text) × (d : D) × (below (lookup (ks ++ qs)) o ≡ some d)
  child_HasData ks none ih h = cc
  child_HasData ks (some (j, n)) ih h = ih j n refl h

  subnode-HasData :
      (ks : List Text) (n : Node D)
      → IsValid n
      → is_dead n ≡ false
      → is_some (subnode ks n) ≡ true
      → HasData ks n
  unfolding subnode lookup
  subnode-HasData [] n v a h = alive_HasData n v a
  subnode-HasData (k ∷ ks) (node d cs) v a h =
      child_HasData ks (find_entry k cs)
        (λ j m o. let (v', a') = find_entry-IsValid k j m cs v o in subnode-HasData ks m v' a') h

  root_HasData :
      (ks : List Text) (n : Node D)
      → IsValid n
      → ks ≢ []
      → is_some (subnode ks n) ≡ true
      → HasData ks n
  unfolding subnode lookup
  root_HasData [] n v some_path h = absurd (some_path refl)
  root_HasData (k ∷ ks) (node d cs) v some_path h =
      child_HasData ks (find_entry k cs)
        (λ j m o. let (v', a') = find_entry-IsValid k j m cs v o in subnode-HasData ks m v' a') h

  below-subnode :
      (ks qs : List Text) (d : D) (o : Option (Text × Node D))
      → ((n : Node D) → lookup (ks ++ qs) n ≡ some d → is_some (subnode ks n) ≡ true)
      → below (lookup (ks ++ qs)) o ≡ some d
      → is_some (below (subnode ks) o) ≡ true
  below-subnode ks qs d none ih h = cc
  below-subnode ks qs d (some (j, n)) ih h = ih n h

  HasData-subnode :
      (ks qs : List Text) (d : D) (n : Node D)
      → lookup (ks ++ qs) n ≡ some d
      → is_some (subnode ks n) ≡ true
  unfolding subnode lookup
  HasData-subnode [] qs d n h = refl
  HasData-subnode (k ∷ ks) qs d n h =
      below-subnode ks qs d (find_entry k (children n)) (HasData-subnode ks qs d) h

  -- In a valid tree a string with a component is a path exactly if some extension of its
  -- components has data.
  pub has_path_iff :
      (tokenize : Text → List Text → List Text) (t : PrefixTree D) (s : Text)
      → IsValid t.root
      → path tokenize t s ≢ []
      → (has_path_for_prefix tokenize t s ≡ true) ↔ HasData (path tokenize t s) t.root
  unfolding has_path_for_prefix traverse_to
  has_path_iff tokenize t s v some_path =
      let step = traverse_tokens-subnode (tokenize s t.delimiters) (at_root t) in
      (
        λ h. root_HasData (path tokenize t s) t.root v some_path (sym step ∙ h),
        λ d. step ∙ HasData-subnode (path tokenize t s) d.0 d.1 t.root d.2,
      )
