-- ===== src/PrefixTree/Loops.antt =====
-- Each loop over tokens with parent pointers, as the recursion on the path of its non-empty tokens.
use pathwinder.Base.{
  false, List, [], ◌∷◌, Option, none, some, ◌≡◌, refl, ap, sym, ◌∙◌, inl, inr, is_some, or_else,
  arith, Bool-cases, Option-cases, if_true, if_false,
}
use pathwinder.Text.{Text, non_empty}
use pathwinder.PrefixTree.{
  Node, node, Children, nil, cons, KeyEq, Loc, find_entry, put_entry, children, data_of, clear_data,
  empty_node, append_entry, zip_up, prune, find_child, find_or_emplace_child, traverse_tokens,
  create_tokens, longest_tokens, keep_longest,
}
use pathwinder.PrefixTree.Entries.{
  is_dead, shrink_entry, put_entry-modify, append_entry-modify, put_entry-shrink,
}
use pathwinder.PrefixTree.Lookup.{lookup, subnode, modify_at, erase_at, deepest, lookup-empty_node}

module _ {ℓ} {D : Type ℓ} where
  -- The datum at the node that a pointer, if it is not null, points to.
  abbrev pub datum : Option (Loc D) → Option D
  datum none = none
  datum (some l) = data_of l.here

  keep_longest-datum :
      (l : Loc D) (best : Option (Loc D))
      → datum (keep_longest l best) ≡ or_else (data_of l.here) (datum best)
  keep_longest-datum l best = go l.here refl
    where
      go :
          (n : Node D)
          → l.here ≡ n
          → datum (keep_longest l best) ≡ or_else (data_of l.here) (datum best)
      go (node none cs) h = rw h
      go (node (some d) cs) h = rw h

  or_else_twice : (o p : Option D) → or_else o (or_else o p) ≡ or_else o p
  or_else_twice none p = refl
  or_else_twice (some d) p = refl

  or_else_assoc : (o p q : Option D) → or_else (or_else o p) q ≡ or_else o (or_else p q)
  or_else_assoc none p q = refl
  or_else_assoc (some d) p q = refl

module _ {ℓ} {D : Type ℓ} ⦃e : KeyEq⦄ where
  abbrev down : Text → Node D → Loc D → Loc D
  down j n l = record { here = n; parents = (j, l.here) ∷ l.parents }

  abbrev grown : Text → Loc D → Loc D
  grown k l = record {
    here = empty_node;
    parents = (k, node (data_of l.here) (append_entry k empty_node (children l.here))) ∷ l.parents;
  }

  find_child-none :
      (k : Text) (l : Loc D) → find_entry k (children l.here) ≡ none → find_child k l ≡ none
  unfolding find_child
  find_child-none k l h = rw (h, find_child)

  find_child-some :
      (k j : Text) (n : Node D) (l : Loc D)
      → find_entry k (children l.here) ≡ some (j, n)
      → find_child k l ≡ some (down j n l)
  unfolding find_child
  find_child-some k j n l h = rw (h, find_child)

  emplace_none :
      (k : Text) (l : Loc D)
      → find_entry k (children l.here) ≡ none
      → find_or_emplace_child k l ≡ grown k l
  unfolding find_or_emplace_child
  emplace_none k l h = rw (h, find_or_emplace_child)

  emplace_some :
      (k j : Text) (n : Node D) (l : Loc D)
      → find_entry k (children l.here) ≡ some (j, n)
      → find_or_emplace_child k l ≡ down j n l
  unfolding find_or_emplace_child
  emplace_some k j n l h = rw (h, find_or_emplace_child)

  pub traverse_tokens-lookup :
      (ts : List Text) (l : Loc D) → datum (traverse_tokens ts l) ≡ lookup (non_empty ts) l.here
  unfolding traverse_tokens non_empty lookup
  traverse_tokens-lookup [] l = refl
  traverse_tokens-lookup ([] ∷ ts) l = traverse_tokens-lookup ts l
  traverse_tokens-lookup ((c ∷ cs) ∷ ts) l =
      elim (Option-cases (find_entry (c ∷ cs) (children l.here))) [
        | inl h ↦ rw (find_child-none _ l h, h, traverse_tokens)
        | inr ((j, n), h) ↦
            rw (find_child-some _ j n l h, h, traverse_tokens)
              (traverse_tokens-lookup ts (down j n l))
      ]

  pub traverse_tokens-subnode :
      (ts : List Text) (l : Loc D)
      → is_some (traverse_tokens ts l) ≡ is_some (subnode (non_empty ts) l.here)
  unfolding traverse_tokens non_empty subnode
  traverse_tokens-subnode [] l = refl
  traverse_tokens-subnode ([] ∷ ts) l = traverse_tokens-subnode ts l
  traverse_tokens-subnode ((c ∷ cs) ∷ ts) l =
      elim (Option-cases (find_entry (c ∷ cs) (children l.here))) [
        | inl h ↦ rw (find_child-none _ l h, h, traverse_tokens)
        | inr ((j, n), h) ↦
            rw (find_child-some _ j n l h, h, traverse_tokens)
              (traverse_tokens-subnode ts (down j n l))
      ]

  pub create_tokens-lookup :
      (ts : List Text) (l : Loc D)
      → data_of (create_tokens ts l).here ≡ lookup (non_empty ts) l.here
  unfolding create_tokens non_empty lookup
  create_tokens-lookup [] l = refl
  create_tokens-lookup ([] ∷ ts) l = create_tokens-lookup ts l
  create_tokens-lookup ((c ∷ cs) ∷ ts) l =
      elim (Option-cases (find_entry (c ∷ cs) (children l.here))) [
        | inl h ↦
            rw (emplace_none _ l h, h)
              (create_tokens-lookup ts (grown (c ∷ cs) l) ∙ lookup-empty_node (non_empty ts))
        | inr ((j, n), h) ↦ rw (emplace_some _ j n l h, h) (create_tokens-lookup ts (down j n l))
      ]

  pub create_tokens-modify :
      (ts : List Text) (g : Option D → Option D) (l : Loc D)
      → let l' = create_tokens ts l in
        zip_up (node (g (data_of l'.here)) (children l'.here)) l'.parents
        ≡ zip_up (modify_at (non_empty ts) g l.here) l.parents
  unfolding create_tokens non_empty modify_at
  create_tokens-modify [] g l = refl
  create_tokens-modify ([] ∷ ts) g l = create_tokens-modify ts g l
  create_tokens-modify ((c ∷ cs) ∷ ts) g l =
      elim (Option-cases (find_entry (c ∷ cs) (children l.here))) [
        | inl h ↦ rw (emplace_none _ l h) (
            create_tokens-modify ts g (grown (c ∷ cs) l)
            ∙ unfold zip_up in
              ap (λ m. zip_up (node (data_of l.here) m) l.parents)
                (append_entry-modify (modify_at (non_empty ts) g) (c ∷ cs) (children l.here) h))
        | inr ((j, n), h) ↦ rw (emplace_some _ j n l h) (
            create_tokens-modify ts g (down j n l)
            ∙ unfold zip_up in
              ap (λ m. zip_up (node (data_of l.here) m) l.parents)
                (put_entry-modify (modify_at (non_empty ts) g) (c ∷ cs) j n (children l.here) h))
      ]

  pub longest_tokens-deepest :
      (ts : List Text) (l : Loc D) (best : Option (Loc D))
      → datum (longest_tokens ts l best) ≡ or_else (deepest (non_empty ts) l.here) (datum best)
  unfolding longest_tokens non_empty deepest
  longest_tokens-deepest [] l best = keep_longest-datum l best
  longest_tokens-deepest ([] ∷ ts) l best = longest_tokens-deepest ts l best
  longest_tokens-deepest ((c ∷ cs) ∷ ts) l best =
      elim (Option-cases (find_entry (c ∷ cs) (children l.here))) [
        | inl h ↦
            rw (find_child-none _ l h, h, longest_tokens)
              (keep_longest-datum l (keep_longest l best)
                ∙ ap (or_else (data_of l.here)) (keep_longest-datum l best)
                ∙ or_else_twice (data_of l.here) (datum best))
        | inr ((j, n), h) ↦
            rw (find_child-some _ j n l h, h, longest_tokens)
              (longest_tokens-deepest ts (down j n l) (keep_longest l best)
                ∙ ap (or_else (deepest (non_empty ts) n)) (keep_longest-datum l best)
                ∙ sym (or_else_assoc (deepest (non_empty ts) n) (data_of l.here) (datum best)))
      ]

  prune_alive :
      (n : Node D) (ps : List (Text × Node D)) → is_dead n ≡ false → prune n ps ≡ zip_up n ps
  unfolding prune zip_up
  prune_alive n [] h = refl
  prune_alive n ((k, p) ∷ ps) h = rw h

  put_entry_alive :
      (k j : Text) (m n : Node D) (d : Option D) (cs : Children D)
      → find_entry k cs ≡ some (j, m)
      → is_dead (node d (put_entry j n cs)) ≡ false
  unfolding find_entry put_entry
  put_entry_alive k j m n d nil h = cc
  put_entry_alive k j m n d (cons i o cs) h = ground arith

  prune_step :
      (k j : Text) (n : Node D) (f : Node D → Node D) (l : Loc D)
      → find_entry k (children l.here) ≡ some (j, n)
      → prune (f n) ((j, l.here) ∷ l.parents)
        ≡ prune (node (data_of l.here) (shrink_entry k f (children l.here))) l.parents
  unfolding prune zip_up
  prune_step k j n f l h =
      let shrinks = put_entry-shrink f k j n (children l.here) h in
      elim (Bool-cases (is_dead (f n))) [
        | inl d ↦
            rw d
              (ap (λ m. prune (node (data_of l.here) m) l.parents) (sym (if_true _ _ d) ∙ shrinks))
        | inr d ↦ rw d (
            sym (
              prune_alive _ l.parents
                (put_entry_alive k j n (f n) (data_of l.here) (children l.here) h))
            ∙ ap (λ m. prune (node (data_of l.here) m) l.parents) (sym (if_false _ _ d) ∙ shrinks))
      ]

  clear_data_lem : (n : Node D) → clear_data n ≡ node none (children n)
  clear_data_lem (node d cs) = refl

  pub prune-erase_at :
      (ts : List Text) (l l' : Loc D)
      → traverse_tokens ts l ≡ some l'
      → prune (clear_data l'.here) l'.parents ≡ prune (erase_at (non_empty ts) l.here) l.parents
  unfolding traverse_tokens non_empty erase_at
  prune-erase_at [] l l' h =
      let same : l ≡ l' = cc in rw (← same) (ap (λ n. prune n l.parents) (clear_data_lem l.here))
  prune-erase_at ([] ∷ ts) l l' h = prune-erase_at ts l l' h
  prune-erase_at ((c ∷ cs) ∷ ts) l l' h =
      elim (Option-cases (find_entry (c ∷ cs) (children l.here))) [
        | inl o ↦ absurd (cc (rw (find_child-none _ l o, traverse_tokens) at h))
        | inr ((j, n), o) ↦
            prune-erase_at ts (down j n l) l' (rw (find_child-some _ j n l o, traverse_tokens) at h)
            ∙ prune_step (c ∷ cs) j n (erase_at (non_empty ts)) l o
      ]
