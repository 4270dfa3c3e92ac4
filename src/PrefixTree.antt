-- ===== src/PrefixTree.antt =====
-- Include/Pathwinder/Internal/PrefixTree.h: a tree indexed by delimited strings.
-- A `Node*` is a `Loc`: the node, and the chain of its ancestors that the parent pointers lead
-- through, nearest first, each with the key of the child below it. A write through such a pointer
-- is read in the tree after `zip_up`.
pub mod Entries
pub mod Valid
pub mod Lookup
pub mod Loops
pub mod Nodes
pub mod Laws
pub mod Reach
use pathwinder.Base.{
  Bool, true, false, not, ◌&&◌, List, [], ◌∷◌, Option, none, some, ◌≡◌, if◌then◌else◌, is_some,
  is_empty,
}
use pathwinder.Text.{Text}

-- The template's EqualityComparator: an equivalence, as the standard asks of it.
pub record KeyEq : Type 0 where
  pub same : Text → Text → Bool
  pub same_refl : (a : Text) → same a a ≡ true
  pub same_sym : (a b : Text) → same a b ≡ true → same b a ≡ true
  pub same_trans : (a b c : Text) → same a b ≡ true → same b c ≡ true → same a c ≡ true

mutual
  pub data Node {ℓ} (D : Type ℓ) : Type ℓ where
    node : Option D → Children D → Node D

  -- std::unordered_map from a child's key to the child, in the order of insertion.
  pub data Children {ℓ} (D : Type ℓ) : Type ℓ where
    nil : Children D
    cons : Text → Node D → Children D → Children D

module _ {ℓ} {D : Type ℓ} where
  abbrev pub data_of : Node D → Option D
  data_of (node d cs) = d

  abbrev pub children : Node D → Children D
  children (node d cs) = cs

  abbrev no_children : Children D → Bool
  no_children nil = true
  no_children (cons k n cs) = false

  abbrev pub has_children : Node D → Bool
  has_children (node d cs) = not (no_children cs)

  abbrev pub has_data : Node D → Bool
  has_data (node d cs) = is_some d

  -- Also EmplaceData: an argument pack is the datum that it constructs.
  abbrev pub set_data : D → Node D → Node D
  set_data d (node _ cs) = node (some d) cs

  abbrev pub clear_data : Node D → Node D
  clear_data (node _ cs) = node none cs

  abbrev pub empty_node : Node D
  empty_node = node none nil

pub record Loc {ℓ} (D : Type ℓ) : Type ℓ where
  pub here : Node D
  pub parents : List (Text × Node D)

abbrev pub keep_longest {ℓ} : {D : Type ℓ} → Loc D → Option (Loc D) → Option (Loc D)
keep_longest l best = if has_data l.here then some l else best

-- The tree object. Its delimiters do not change once it is built.
pub record PrefixTree {ℓ} (D : Type ℓ) : Type ℓ where
  pub root : Node D
  pub delimiters : List Text

module _ {ℓ} {D : Type ℓ} ⦃e : KeyEq⦄ where
  -- The map's `find`: the stored key (GetParentKey of the child) and the child.
  unfoldable pub find_entry : Text → Children D → Option (Text × Node D)
  find_entry k nil = none
  find_entry k (cons j n cs) = if e.same j k then some (j, n) else find_entry k cs

  pub append_entry : Text → Node D → Children D → Children D
  append_entry k n nil = cons k n nil
  append_entry k n (cons j m cs) = cons j m (append_entry k n cs)

  -- A write to the child that a pointer names.
  pub put_entry : Text → Node D → Children D → Children D
  put_entry k n nil = nil
  put_entry k n (cons j m cs) = if e.same j k then cons j n cs else cons j m (put_entry k n cs)

  -- EraseChild.
  pub erase_child : Text → Children D → Children D
  erase_child k nil = nil
  erase_child k (cons j n cs) = if e.same j k then cs else cons j n (erase_child k cs)

  -- FindChild, as a step of a pointer down the tree.
  pub find_child : Text → Loc D → Option (Loc D)
  find_child k l = elim (find_entry k (children l.here)) [
    | none ↦ none
    | some (j, n) ↦ some (record { here = n; parents = (j, l.here) ∷ l.parents })
  ]

  -- FindOrEmplaceChild.
  pub find_or_emplace_child : Text → Loc D → Loc D
  find_or_emplace_child k l = elim (find_entry k (children l.here)) [
    | none ↦ record {
      here = empty_node;
      parents =
          (k, node (data_of l.here) (append_entry k empty_node (children l.here))) ∷ l.parents;
    }
    | some (j, n) ↦ record { here = n; parents = (j, l.here) ∷ l.parents }
  ]

  -- The whole tree, from a node that may have been written to and its ancestors.
  pub zip_up : Node D → List (Text × Node D) → Node D
  zip_up n [] = n
  zip_up n ((k, p) ∷ ps) = zip_up (node (data_of p) (put_entry k n (children p))) ps

  -- GetClosestAncestor.
  unfoldable get_closest_ancestor : List (Text × Node D) → Option (Loc D)
  get_closest_ancestor [] = none
  get_closest_ancestor ((k, p) ∷ ps) =
      if has_data p then some (record { here = p; parents = ps }) else get_closest_ancestor ps

  unfoldable has_ancestor : Loc D → Bool
  unfolding get_closest_ancestor
  has_ancestor l = is_some (get_closest_ancestor l.parents)

  -- The loop of TraverseTo.
  pub traverse_tokens : List Text → Loc D → Option (Loc D)
  traverse_tokens [] l = some l
  traverse_tokens (t ∷ ts) l = elim (is_empty t) [
    | true ↦ traverse_tokens ts l
    | false ↦ elim (find_child t l) [ none ↦ none | some next ↦ traverse_tokens ts next ]
  ]

  -- The loop of PrefixPathCreateInternal.
  pub create_tokens : List Text → Loc D → Loc D
  create_tokens [] l = l
  create_tokens (t ∷ ts) l = elim (is_empty t) [
    | true ↦ create_tokens ts l
    | false ↦ create_tokens ts (find_or_emplace_child t l)
  ]

  -- The loop of LongestMatchingPrefix, with the test that follows it.
  pub longest_tokens : List Text → Loc D → Option (Loc D) → Option (Loc D)
  longest_tokens [] l best = keep_longest l best
  longest_tokens (t ∷ ts) l best = elim (is_empty t) [
    | true ↦ longest_tokens ts l best
    | false ↦ elim (find_child t l) [
      | none ↦ keep_longest l (keep_longest l best)
      | some next ↦ longest_tokens ts next (keep_longest l best)
    ]
  ]

  -- The loop of Erase, from the cleared node up.
  pub prune : Node D → List (Text × Node D) → Node D
  prune n [] = n
  prune n ((k, p) ∷ ps) =
      if not (has_data n) && not (has_children n)
      then prune (node (data_of p) (erase_child k (children p))) ps
      else zip_up n ((k, p) ∷ ps)

abbrev pub at_root {ℓ} : {D : Type ℓ} → PrefixTree D → Loc D
at_root t = record { here = t.root; parents = [] }

-- `tokenize` is Infra::Strings::Tokenizer.
module _ {ℓ} {D : Type ℓ} ⦃e : KeyEq⦄ (tokenize : Text → List Text → List Text) where
  unfoldable pub traverse_to : PrefixTree D → Text → Option (Loc D)
  unfolding traverse_tokens find_child find_entry
  traverse_to t prefix = traverse_tokens (tokenize prefix t.delimiters) (at_root t)

  unfoldable pub find : PrefixTree D → Text → Option (Loc D)
  unfolding traverse_to
  find t prefix = elim (traverse_to t prefix) [
    | none ↦ none
    | some l ↦ if has_data l.here then some l else none
  ]

  unfoldable pub tree_contains : PrefixTree D → Text → Bool
  unfolding find
  tree_contains t prefix = is_some (find t prefix)

  pub has_path_for_prefix : PrefixTree D → Text → Bool
  unfolding traverse_to
  has_path_for_prefix t prefix = is_some (traverse_to t prefix)

  unfoldable pub longest_matching_prefix : PrefixTree D → Text → Option (Loc D)
  unfolding longest_tokens find_child find_entry
  longest_matching_prefix t s = longest_tokens (tokenize s t.delimiters) (at_root t) none

  pub prefix_path_create : PrefixTree D → Text → Loc D
  unfolding create_tokens find_or_emplace_child append_entry find_entry
  prefix_path_create t prefix = create_tokens (tokenize prefix t.delimiters) (at_root t)

  abbrev store : PrefixTree D → Loc D → PrefixTree D
  unfolding zip_up put_entry
  store t l = record t { root = zip_up l.here l.parents }

  -- Insert and Emplace: the tree, the node of the prefix and whether the datum was stored.
  pub insert : PrefixTree D → Text → D → PrefixTree D × Loc D × Bool
  unfolding prefix_path_create store zip_up put_entry
  insert t prefix d =
      let l = prefix_path_create t prefix in
      let l' : Loc D = record l { here = set_data d l.here } in
      if has_data l.here then (store t l, l, false) else (store t l', l', true)

  pub update : PrefixTree D → Text → D → PrefixTree D × Loc D
  unfolding prefix_path_create store zip_up put_entry
  update t prefix d =
      let l = prefix_path_create t prefix in
      let l' : Loc D = record l { here = set_data d l.here } in (store t l', l')

  pub erase : PrefixTree D → Text → PrefixTree D × Bool
  unfolding find prune zip_up put_entry erase_child
  erase t prefix = elim (find t prefix) [
    | none ↦ (t, false)
    | some l ↦ (record t { root = prune (clear_data l.here) l.parents }, true)
  ]
