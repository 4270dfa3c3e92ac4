-- ===== src/PrefixTree/Lookup.antt =====
-- The tree as a function from paths (lists of non-empty tokens) to data, and the change that each
-- operation makes, by recursion on the path.
use pathwinder.Base.{
  Bool, true, false, ◌&&◌, List, [], ◌∷◌, map, Option, none, some, ◌≡◌, refl, ap, sym, ◌∙◌, inl,
  inr, if◌then◌else◌, is_some, or_else, arith, Bool-cases, if_true, if_false,
}
use pathwinder.Text.{Text}
use pathwinder.PrefixTree.{
  Node, node, Children, nil, cons, KeyEq, find_entry, children, data_of, empty_node, has_children,
}
use pathwinder.PrefixTree.Entries.{
  is_dead, modify_entry, modified, shrink_entry, shrunk, find-modify_entry, find_entry-eq,
}
use pathwinder.PrefixTree.Valid.{
  IsValid, find-shrink_entry, modify_entry-AreValid, shrink_entry-AreValid, find_entry-IsValid,
}

module _ {ℓ κ} {D : Type ℓ} {B : Type κ} where
  abbrev pub below : (Node D → Option B) → Option (Text × Node D) → Option B
  below f none = none
  below f (some (j, n)) = f n

-- The prefixes of a list, the shortest first.
unfoldable pub inits {ℓ} : {A : Type ℓ} → List A → List (List A)
inits [] = [] ∷ []
inits (x ∷ xs) = [] ∷ map (◌∷◌ x) (inits xs)

-- The last datum of a list of results.
unfoldable pub last_some {ℓ} : {A : Type ℓ} → List (Option A) → Option A
last_some [] = none
last_some (o ∷ os) = or_else (last_some os) o

module _ ⦃e : KeyEq⦄ where
  -- Two paths that the comparator does not tell apart.
  unfoldable pub same_path : List Text → List Text → Bool
  same_path [] [] = true
  same_path (k ∷ ks) (q ∷ qs) = e.same k q && same_path ks qs
  same_path _ _ = false

module _ {ℓ} {D : Type ℓ} ⦃e : KeyEq⦄ where
  -- The datum at a path.
  unfoldable pub lookup : List Text → Node D → Option D
  unfolding find_entry
  lookup [] n = data_of n
  lookup (k ∷ ks) n = below (lookup ks) (find_entry k (children n))

  -- The node at a path.
  unfoldable pub subnode : List Text → Node D → Option (Node D)
  unfolding find_entry
  subnode [] n = some n
  subnode (k ∷ ks) n = below (subnode ks) (find_entry k (children n))

  unfoldable pub modify_at : List Text → (Option D → Option D) → Node D → Node D
  modify_at [] g n = node (g (data_of n)) (children n)
  modify_at (k ∷ ks) g n = node (data_of n) (modify_entry k (modify_at ks g) (children n))

  unfoldable pub erase_at : List Text → Node D → Node D
  erase_at [] n = node none (children n)
  erase_at (k ∷ ks) n = node (data_of n) (shrink_entry k (erase_at ks) (children n))

  -- The datum of the deepest node on a path that has one.
  unfoldable pub deepest : List Text → Node D → Option D
  unfolding find_entry
  deepest [] n = data_of n
  deepest (k ∷ ks) n = or_else (below (deepest ks) (find_entry k (children n))) (data_of n)

  -- Equal paths read the same datum.
  lookup-below_eq :
      (ks qs : List Text) (o : Option (Text × Node D))
      → ((n : Node D) → lookup ks n ≡ lookup qs n)
      → below (lookup ks) o ≡ below (lookup qs) o
  lookup-below_eq ks qs none ih = refl
  lookup-below_eq ks qs (some (j, n)) ih = ih n

  pub lookup-same_path :
      (ks qs : List Text) (n : Node D) → same_path ks qs ≡ true → lookup ks n ≡ lookup qs n
  unfolding lookup same_path
  lookup-same_path [] [] n h = refl
  lookup-same_path [] (q ∷ qs) n h = cc
  lookup-same_path (k ∷ ks) [] n h = cc
  lookup-same_path (k ∷ ks) (q ∷ qs) n h =
      let s : e.same k q ≡ true = ground (arith, h) in
      rw (find_entry-eq k q (children n) s) (
        lookup-below_eq ks qs (find_entry q (children n))
          (λ m. lookup-same_path ks qs m (ground (arith, h))))

  pub lookup-empty_node : (qs : List Text) → lookup qs empty_node ≡ none
  unfolding lookup
  lookup-empty_node [] = refl
  lookup-empty_node (q ∷ qs) = refl

  lookup-modified :
      (ks qs : List Text) (g : Option D → Option D) (k : Text) (o : Option (Text × Node D))
      → ((n : Node D)
          → lookup qs (modify_at ks g n)
            ≡ (if same_path ks qs then g (lookup qs n) else lookup qs n))
      → below (lookup qs) (modified k (modify_at ks g) o)
        ≡ (if same_path ks qs then g (below (lookup qs) o) else below (lookup qs) o)
  lookup-modified ks qs g k none ih = rw (ih empty_node, lookup-empty_node qs)
  lookup-modified ks qs g k (some (j, n)) ih = ih n

  -- A write at a path changes what is read there, and nothing else.
  pub lookup-modify_at :
      (ks qs : List Text) (g : Option D → Option D) (n : Node D)
      → lookup qs (modify_at ks g n) ≡ (if same_path ks qs then g (lookup qs n) else lookup qs n)
  unfolding lookup modify_at same_path
  lookup-modify_at [] [] g n = refl
  lookup-modify_at [] (q ∷ qs) g n = refl
  lookup-modify_at (k ∷ ks) [] g n = refl
  lookup-modify_at (k ∷ ks) (q ∷ qs) g n =
      let step = find-modify_entry (modify_at ks g) k q (children n) in
      elim (Bool-cases (e.same k q)) [
        | inl s ↦
            rw (s, step ∙ if_true _ _ s, ← find_entry-eq k q (children n) s)
              (lookup-modified ks qs g k (find_entry k (children n)) (lookup-modify_at ks qs g))
        | inr s ↦ rw (s, step ∙ if_false _ _ s)
      ]

  lookup_dead : (qs : List Text) (n : Node D) → is_dead n ≡ true → lookup qs n ≡ none
  unfolding lookup
  lookup_dead [] (node none cs) h = refl
  lookup_dead [] (node (some d) cs) h = cc
  lookup_dead (q ∷ qs) (node none nil) h = refl
  lookup_dead (q ∷ qs) (node none (cons k n cs)) h = cc
  lookup_dead (q ∷ qs) (node (some d) cs) h = cc

  lookup-shrunk :
      (qs : List Text) (f : Node D → Node D) (o : Option (Text × Node D))
      → below (lookup qs) (shrunk f o) ≡ below (λ n. lookup qs (f n)) o
  lookup-shrunk qs f none = refl
  lookup-shrunk qs f (some (j, n)) = elim (Bool-cases (is_dead (f n))) [
    | inl d ↦ rw d (sym (lookup_dead qs (f n) d))
    | inr d ↦ rw d
  ]

  lookup-below :
      (ks qs : List Text) (o : Option (Text × Node D))
      → ((j : Text) (n : Node D)
          → o ≡ some (j, n)
          → lookup qs (erase_at ks n) ≡ (if same_path ks qs then none else lookup qs n))
      → below (λ n. lookup qs (erase_at ks n)) o
        ≡ (if same_path ks qs then none else below (lookup qs) o)
  lookup-below ks qs none ih = ground arith
  lookup-below ks qs (some (j, n)) ih = ih j n refl

  -- An erasure at a path takes away what is read there, and nothing else.
  pub lookup-erase_at :
      (ks qs : List Text) (n : Node D)
      → IsValid n
      → lookup qs (erase_at ks n) ≡ (if same_path ks qs then none else lookup qs n)
  unfolding lookup erase_at same_path
  lookup-erase_at [] [] (node d cs) v = refl
  lookup-erase_at [] (q ∷ qs) (node d cs) v = refl
  lookup-erase_at (k ∷ ks) [] (node d cs) v = refl
  lookup-erase_at (k ∷ ks) (q ∷ qs) (node d cs) v =
      let step = find-shrink_entry (erase_at ks) k q cs v in
      elim (Bool-cases (e.same k q)) [
        | inl s ↦
            rw (s, step ∙ if_true _ _ s, ← find_entry-eq k q cs s)
              (lookup-shrunk qs (erase_at ks) (find_entry k cs)
                ∙ lookup-below ks qs (find_entry k cs)
                    (λ j n h. lookup-erase_at ks qs n (find_entry-IsValid k j n cs v h).0))
        | inr s ↦ rw (s, step ∙ if_false _ _ s)
      ]

  modify_entry_lives :
      (k : Text) (f : Node D → Node D) (cs : Children D)
      → has_children (node none (modify_entry k f cs)) ≡ true
  unfolding modify_entry
  modify_entry_lives k f nil = refl
  modify_entry_lives k f (cons i m cs) = ground arith

  modify_at_lives :
      (ks : List Text) (g : Option D → Option D)
      → ((o : Option D) → is_some (g o) ≡ true)
      → (n : Node D) → is_dead (modify_at ks g n) ≡ false
  unfolding modify_at
  modify_at_lives [] g some_out n = rw (some_out (data_of n))
  modify_at_lives (k ∷ ks) g some_out (node d cs) =
      ground (arith, modify_entry_lives k (modify_at ks g) cs)

  pub modify_at-IsValid :
      (ks : List Text) (g : Option D → Option D)
      → ((o : Option D) → is_some (g o) ≡ true)
      → (n : Node D) → IsValid n
      → IsValid (modify_at ks g n)
  unfolding modify_at
  modify_at-IsValid [] g some_out (node d cs) v = v
  modify_at-IsValid (k ∷ ks) g some_out (node d cs) v =
      modify_entry-AreValid (modify_at ks g) k cs (modify_at-IsValid ks g some_out)
        (modify_at_lives ks g some_out) v

  pub erase_at-IsValid : (ks : List Text) (n : Node D) → IsValid n → IsValid (erase_at ks n)
  unfolding erase_at
  erase_at-IsValid [] (node d cs) v = v
  erase_at-IsValid (k ∷ ks) (node d cs) v =
      shrink_entry-AreValid (erase_at ks) k cs (erase_at-IsValid ks) v

  map-below :
      (k : Text) (n : Node D) (ps : List (List Text))
      → map (λ p. lookup p n) (map (◌∷◌ k) ps)
        ≡ map (λ p. below (lookup p) (find_entry k (children n))) ps
  unfolding lookup
  map-below k n [] = refl
  map-below k n (p ∷ ps) = cc (map-below k n ps)

  none-below : (ps : List (List Text)) → last_some {A = D} (map (λ p. none) ps) ≡ none
  unfolding last_some
  none-below [] = refl
  none-below (p ∷ ps) = rw (none-below ps)

  deepest-below :
      (o : Option (Text × Node D)) (ps : List (List Text)) (f : Node D → Option D)
      → ((n : Node D) → f n ≡ last_some (map (λ p. lookup p n) ps))
      → below f o ≡ last_some (map (λ p. below (lookup p) o) ps)
  deepest-below none ps f h = sym (none-below ps)
  deepest-below (some (j, n)) ps f h = h n

  -- The walk down a path ends with the last datum among the path's prefixes.
  pub deepest-inits :
      (ks : List Text) (n : Node D) → deepest ks n ≡ last_some (map (λ p. lookup p n) (inits ks))
  unfolding deepest inits last_some lookup
  deepest-inits [] n = refl
  deepest-inits (k ∷ ks) n =
      ap (λ o. or_else o (data_of n))
        (deepest-below (find_entry k (children n)) (inits ks) (deepest ks) (deepest-inits ks)
          ∙ sym (ap last_some (map-below k n (inits ks))))
