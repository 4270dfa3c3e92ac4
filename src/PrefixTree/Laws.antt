-- ===== src/PrefixTree/Laws.antt =====
-- What the operations of the tree promise, over strings: each is a change or a question of the map
-- from paths to data that `find` reads.
use pathwinder.Base.{
  true, false, not, List, map, Option, none, some, ◌≡◌, refl, ap, sym, ◌∙◌, inl, inr, if◌then◌else◌,
  is_some, or_else, arith, Bool-cases, Option-cases,
}
use pathwinder.Text.{Text, non_empty}
use pathwinder.PrefixTree.{
  Node, node, KeyEq, Loc, PrefixTree, at_root, data_of, children, has_data, set_data, traverse_to,
  traverse_tokens, create_tokens, zip_up, prune, store, find, longest_matching_prefix,
  prefix_path_create, insert, update, erase,
}
use pathwinder.PrefixTree.Valid.{IsValid}
use pathwinder.PrefixTree.Lookup.{
  lookup, same_path, modify_at, erase_at, deepest, inits, last_some, deepest-inits,
  lookup-modify_at, lookup-erase_at, lookup-same_path, modify_at-IsValid, erase_at-IsValid,
}
use pathwinder.PrefixTree.Loops.{
  datum, traverse_tokens-lookup, create_tokens-lookup, create_tokens-modify, longest_tokens-deepest,
  prune-erase_at,
}
use pathwinder.PrefixTree.Nodes.{
  set_data_lem, or_else-some, or_else-none, has_data_lem, is_some-datum,
}

module _ {ℓ} {D : Type ℓ} ⦃e : KeyEq⦄ (tokenize : Text → List Text → List Text) where
  -- The components of a string: its tokens, but for the empty ones.
  abbrev pub path : PrefixTree D → Text → List Text
  path t s = non_empty (tokenize s t.delimiters)

  -- `find` reads the datum at the string's components.
  pub find_lem :
      (t : PrefixTree D) (s : Text) → datum (find tokenize t s) ≡ lookup (path t s) t.root
  unfolding find traverse_to
  find_lem t s =
      is_some-datum (traverse_to tokenize t s)
      ∙ traverse_tokens-lookup (tokenize s t.delimiters) (at_root t)

  insert_root :
      (t : PrefixTree D) (s : Text) (d : D)
      → (insert tokenize t s d).0.root ≡ modify_at (path t s) (λ o. or_else o (some d)) t.root
  unfolding insert prefix_path_create store
  insert_root t s d =
      go (create_tokens (tokenize s t.delimiters) (at_root t)).here refl
        (create_tokens-modify (tokenize s t.delimiters) (λ o. or_else o (some d)) (at_root t))
    where
      go :
          (n : Node D)
          → (create_tokens (tokenize s t.delimiters) (at_root t)).here ≡ n
          → zip_up
              (node (or_else (data_of n) (some d)) (children n))
              (create_tokens (tokenize s t.delimiters) (at_root t)).parents
            ≡ modify_at (path t s) (λ o. or_else o (some d)) t.root
          → (insert tokenize t s d).0.root ≡ modify_at (path t s) (λ o. or_else o (some d)) t.root
      go (node none cs) h same = rw h same
      go (node (some x) cs) h same = rw h same

  insert_delimiters :
      (t : PrefixTree D) (s : Text) (d : D) → (insert tokenize t s d).0.delimiters ≡ t.delimiters
  unfolding insert
  insert_delimiters t s d = ground arith

  insert_flag :
      (t : PrefixTree D) (s : Text) (d : D)
      → (insert tokenize t s d).2 ≡ not (is_some (lookup (path t s) t.root))
  unfolding insert prefix_path_create
  insert_flag t s d =
      rw (← create_tokens-lookup (tokenize s t.delimiters) (at_root t))
        (go (create_tokens (tokenize s t.delimiters) (at_root t)).here refl)
    where
      go :
          (n : Node D)
          → (create_tokens (tokenize s t.delimiters) (at_root t)).here ≡ n
          → (insert tokenize t s d).2
            ≡ not (is_some (data_of (create_tokens (tokenize s t.delimiters) (at_root t)).here))
      go (node none cs) h = rw h
      go (node (some x) cs) h = rw h

  -- After an insertion a string with the same components (up to the comparator) finds what it
  -- found before or, if that was nothing, the new datum; every other string finds what it did. The
  -- returned flag is true exactly if nothing was found before.
  pub find-insert :
      (t : PrefixTree D) (s : Text) (d : D) (q : Text)
      → (datum (find tokenize (insert tokenize t s d).0 q) ≡ (
          if same_path (path t s) (path t q)
          then or_else (datum (find tokenize t q)) (some d)
          else datum (find tokenize t q)))
        × ((insert tokenize t s d).2 ≡ not (is_some (datum (find tokenize t s))))
  find-insert t s d q = (
    find_lem (insert tokenize t s d).0 q
        ∙ rw (insert_delimiters t s d, insert_root t s d, find_lem t q)
            (lookup-modify_at (path t s) (path t q) (λ o. or_else o (some d)) t.root),
    insert_flag t s d ∙ ap (λ o. not (is_some o)) (sym (find_lem t s)),
  )

  -- A write through the pointer that an insertion returns, as Data gives it.
  pub write-insert :
      (t : PrefixTree D) (s : Text) (d x : D)
      → zip_up (set_data x (insert tokenize t s d).1.here) (insert tokenize t s d).1.parents
        ≡ modify_at (path t s) (λ _. some x) t.root
  unfolding insert prefix_path_create
  write-insert t s d x =
      go (create_tokens (tokenize s t.delimiters) (at_root t)).here refl
        (create_tokens-modify (tokenize s t.delimiters) (λ _. some x) (at_root t))
    where
      go :
          (n : Node D)
          → (create_tokens (tokenize s t.delimiters) (at_root t)).here ≡ n
          → zip_up
              (node (some x) (children n))
              (create_tokens (tokenize s t.delimiters) (at_root t)).parents
            ≡ modify_at (path t s) (λ _. some x) t.root
          → zip_up (set_data x (insert tokenize t s d).1.here) (insert tokenize t s d).1.parents
            ≡ modify_at (path t s) (λ _. some x) t.root
      go (node none cs) h same = rw h same
      go (node (some y) cs) h same = rw h (
          ap
            (λ m.
              zip_up (set_data x m) (create_tokens (tokenize s t.delimiters) (at_root t)).parents)
            h
          ∙ same)

  pub data-insert :
      (t : PrefixTree D) (s : Text) (d : D)
      → data_of (insert tokenize t s d).1.here ≡ or_else (lookup (path t s) t.root) (some d)
  unfolding insert prefix_path_create
  data-insert t s d =
      rw (← create_tokens-lookup (tokenize s t.delimiters) (at_root t))
        (go (create_tokens (tokenize s t.delimiters) (at_root t)).here refl)
    where
      go :
          (n : Node D)
          → (create_tokens (tokenize s t.delimiters) (at_root t)).here ≡ n
          → data_of (insert tokenize t s d).1.here
            ≡ or_else (data_of (create_tokens (tokenize s t.delimiters) (at_root t)).here) (some d)
      go (node none cs) h = rw h refl
      go (node (some x) cs) h = rw h (ap data_of h)

  update_root :
      (t : PrefixTree D) (s : Text) (d : D)
      → (update tokenize t s d).0.root ≡ modify_at (path t s) (λ _. some d) t.root
  unfolding update prefix_path_create store
  update_root t s d =
      let l = create_tokens (tokenize s t.delimiters) (at_root t) in
      ap (λ n. zip_up n l.parents) (set_data_lem d l.here)
      ∙ create_tokens-modify (tokenize s t.delimiters) (λ _. some d) (at_root t)

  update_delimiters :
      (t : PrefixTree D) (s : Text) (d : D) → (update tokenize t s d).0.delimiters ≡ t.delimiters
  unfolding update
  update_delimiters t s d = refl

  -- After an update a string with the same components finds the new datum, whatever was there, and
  -- every other string finds what it did.
  pub find-update :
      (t : PrefixTree D) (s : Text) (d : D) (q : Text)
      → datum (find tokenize (update tokenize t s d).0 q)
        ≡ (if same_path (path t s) (path t q) then some d else datum (find tokenize t q))
  find-update t s d q =
      find_lem (update tokenize t s d).0 q
      ∙ rw (update_delimiters t s d, update_root t s d, find_lem t q)
          (lookup-modify_at (path t s) (path t q) (λ _. some d) t.root)

  erase_absent :
      (t : PrefixTree D) (s : Text) → find tokenize t s ≡ none → erase tokenize t s ≡ (t, false)
  unfolding erase
  erase_absent t s h = rw (h, erase)

  find-some :
      (t : PrefixTree D) (s : Text) (l : Loc D)
      → find tokenize t s ≡ some l
      → traverse_tokens (tokenize s t.delimiters) (at_root t) ≡ some l
  unfolding find traverse_to
  find-some t s l h = go (traverse_tokens (tokenize s t.delimiters) (at_root t)) h
    where
      go :
          (o : Option (Loc D))
          → elim o [ none ↦ none | some m ↦ if has_data m.here then some m else none ] ≡ some l
          → o ≡ some l
      go none h = cc
      go (some m) h = ground (arith, h)

  erase_found :
      (t : PrefixTree D) (s : Text) (l : Loc D)
      → find tokenize t s ≡ some l
      → erase tokenize t s ≡ (record t { root = erase_at (path t s) t.root }, true)
  unfolding erase prune
  erase_found t s l h =
      rw (h, erase)
        (ap (λ n. (record t { root = n }, true))
          (prune-erase_at (tokenize s t.delimiters) (at_root t) l (find-some t s l h)))

  found_data :
      (t : PrefixTree D) (s : Text) (l : Loc D)
      → find tokenize t s ≡ some l
      → is_some (datum (find tokenize t s)) ≡ true
  unfolding find
  found_data t s l h = rw h (go (traverse_to tokenize t s) h)
    where
      go :
          (o : Option (Loc D))
          → elim o [ none ↦ none | some m ↦ if has_data m.here then some m else none ] ≡ some l
          → is_some (data_of l.here) ≡ true
      go none h = cc
      go (some m) h = elim (Bool-cases (has_data m.here)) [
        | inl d ↦
            let same : m ≡ l = ground (arith, d, h) in rw (← same) (sym (has_data_lem m.here) ∙ d)
        | inr d ↦ absurd (ground (arith, d, h))
      ]

  nothing_there :
      (t : PrefixTree D) (s q : Text)
      → find tokenize t s ≡ none
      → datum (find tokenize t q)
        ≡ (if same_path (path t s) (path t q) then none else datum (find tokenize t q))
  nothing_there t s q h = elim (Bool-cases (same_path (path t s) (path t q))) [
    | inl same ↦ rw same (
        find_lem t q
        ∙ sym (lookup-same_path (path t s) (path t q) t.root same)
        ∙ sym (find_lem t s)
        ∙ ap datum h)
    | inr differ ↦ rw differ
  ]

  -- In a tree whose keys differ, after an erasure a string with the same components finds nothing
  -- and every other string finds what it did. The returned flag is true exactly if there was
  -- something to erase.
  pub find-erase :
      (t : PrefixTree D) (s q : Text)
      → IsValid t.root
      → (datum (find tokenize (erase tokenize t s).0 q)
          ≡ (if same_path (path t s) (path t q) then none else datum (find tokenize t q)))
        × ((erase tokenize t s).1 ≡ is_some (datum (find tokenize t s)))
  find-erase t s q v = elim (Option-cases (find tokenize t s)) [
    | inl h ↦ (rw (erase_absent t s h) (nothing_there t s q h), rw (erase_absent t s h, h))
    | inr (l, h) ↦ (
      rw (erase_found t s l h, find_lem t q)
          (find_lem (record t { root = erase_at (path t s) t.root }) q
            ∙ lookup-erase_at (path t s) (path t q) t.root v),
      rw (erase_found t s l h) (sym (found_data t s l h)),
    )
  ]

  -- Insertion, update and erasure keep the invariant: no two children of a node share a key, and
  -- every node below the root has data or a child. So an erasure leaves no branch without data.
  pub operations-IsValid :
      (t : PrefixTree D) (s : Text) (d : D)
      → IsValid t.root
      → IsValid (insert tokenize t s d).0.root
        × IsValid (update tokenize t s d).0.root
        × IsValid (erase tokenize t s).0.root
  operations-IsValid t s d v = (
    rw (insert_root t s d) (modify_at-IsValid (path t s) _ (or_else-some d) t.root v),
    rw (update_root t s d) (modify_at-IsValid (path t s) _ (λ _. refl) t.root v),
    elim (Option-cases (find tokenize t s)) [
      | inl h ↦ rw (erase_absent t s h) v
      | inr (l, h) ↦ rw (erase_found t s l h) (erase_at-IsValid (path t s) t.root v)
    ],
  )

  -- The longest matching prefix is the last datum among those found at the prefixes of the
  -- string's components, the shortest prefix first.
  pub longest_matching_prefix_lem :
      (t : PrefixTree D) (s : Text)
      → datum (longest_matching_prefix tokenize t s)
        ≡ last_some (map (λ p. lookup p t.root) (inits (path t s)))
  unfolding longest_matching_prefix
  longest_matching_prefix_lem t s =
      longest_tokens-deepest (tokenize s t.delimiters) (at_root t) none
      ∙ or_else-none (deepest (path t s) t.root)
      ∙ deepest-inits (path t s) t.root
