-- ===== src/PrefixTree/Entries.antt =====
-- The children of a node as a map up to the key comparator, and the two ways in which an operation
-- on the tree changes the child that it reaches.
use pathwinder.Base.{
  Bool, true, false, not, ◌&&◌, Option, none, some, ◌≡◌, refl, inl, inr, if◌then◌else◌, arith,
  Bool-cases,
}
use pathwinder.Text.{Text}
use pathwinder.PrefixTree.{
  Node, Children, nil, cons, KeyEq, find_entry, append_entry, put_entry, erase_child, empty_node,
  has_data, has_children,
}

abbrev pub is_dead {ℓ} : {D : Type ℓ} → Node D → Bool
is_dead n = not (has_data n) && not (has_children n)

module _ ⦃e : KeyEq⦄ where
  -- The comparator gives one answer on two equal keys.
  pub same_left : (a b c : Text) → e.same a b ≡ true → e.same a c ≡ e.same b c
  same_left a b c h = elim (Bool-cases (e.same b c)) [
    | inl p ↦ rw p (e.same_trans a b c h p)
    | inr p ↦ elim (Bool-cases (e.same a c)) [
      | inl q ↦ absurd (cc (e.same_trans b a c (e.same_sym a b h) q))
      | inr q ↦ rw (p, q)
    ]
  ]

  pub same_right : (a b c : Text) → e.same a b ≡ true → e.same c a ≡ e.same c b
  same_right a b c h = elim (Bool-cases (e.same c b)) [
    | inl p ↦ rw p (e.same_trans c b a p (e.same_sym a b h))
    | inr p ↦ elim (Bool-cases (e.same c a)) [
      | inl q ↦ absurd (cc (e.same_trans c a b q h))
      | inr q ↦ rw (p, q)
    ]
  ]

  pub same_sym_false : (a b : Text) → e.same a b ≡ false → e.same b a ≡ false
  same_sym_false a b h = ground (arith, e.same_sym b a)

module _ {ℓ} {D : Type ℓ} ⦃e : KeyEq⦄ where
  -- The change that a write under the key `k` makes, the child created where it is not there.
  unfoldable pub modify_entry : Text → (Node D → Node D) → Children D → Children D
  modify_entry k f nil = cons k (f empty_node) nil
  modify_entry k f (cons j n cs) =
      if e.same j k then cons j (f n) cs else cons j n (modify_entry k f cs)

  -- The change that an erasure under the key `k` makes: a child that it leaves dead goes.
  unfoldable pub shrink_entry : Text → (Node D → Node D) → Children D → Children D
  shrink_entry k f nil = nil
  shrink_entry k f (cons j n cs) =
      if e.same j k
      then if is_dead (f n) then cs else cons j (f n) cs
      else cons j n (shrink_entry k f cs)

  find_entry-same :
      (k : Text) (cs : Children D) (j : Text) (n : Node D)
      → find_entry k cs ≡ some (j, n)
      → e.same j k ≡ true
  unfolding find_entry
  find_entry-same k nil j n h = cc
  find_entry-same k (cons i m cs) j n h = ground (arith, find_entry-same k cs j n)

  -- Two equal keys find the same child.
  pub find_entry-eq :
      (j k : Text) (cs : Children D) → e.same j k ≡ true → find_entry j cs ≡ find_entry k cs
  unfolding find_entry
  find_entry-eq j k nil h = refl
  find_entry-eq j k (cons i m cs) h = rw (same_right j k i h, find_entry-eq j k cs h)

  put_entry-eq :
      (j k : Text) (n : Node D) (cs : Children D)
      → e.same j k ≡ true
      → put_entry j n cs ≡ put_entry k n cs
  unfolding put_entry
  put_entry-eq j k n nil h = refl
  put_entry-eq j k n (cons i m cs) h = rw (same_right j k i h, put_entry-eq j k n cs h)

  erase_child-eq :
      (j k : Text) (cs : Children D) → e.same j k ≡ true → erase_child j cs ≡ erase_child k cs
  unfolding erase_child
  erase_child-eq j k nil h = refl
  erase_child-eq j k (cons i m cs) h = rw (same_right j k i h, erase_child-eq j k cs h)

  put_entry-modify_at :
      (f : Node D → Node D) (k j : Text) (n : Node D) (cs : Children D)
      → find_entry k cs ≡ some (j, n)
      → put_entry k (f n) cs ≡ modify_entry k f cs
  unfolding find_entry put_entry modify_entry
  put_entry-modify_at f k j n nil h = cc
  put_entry-modify_at f k j n (cons i m cs) h = ground (arith, put_entry-modify_at f k j n cs)

  pub put_entry-modify :
      (f : Node D → Node D) (k j : Text) (n : Node D) (cs : Children D)
      → find_entry k cs ≡ some (j, n)
      → put_entry j (f n) cs ≡ modify_entry k f cs
  put_entry-modify f k j n cs h =
      rw (put_entry-eq j k (f n) cs (find_entry-same k cs j n h)) (put_entry-modify_at f k j n cs h)

  pub append_entry-modify :
      (f : Node D → Node D) (k : Text) (cs : Children D)
      → find_entry k cs ≡ none
      → put_entry k (f empty_node) (append_entry k empty_node cs) ≡ modify_entry k f cs
  unfolding find_entry put_entry modify_entry append_entry
  append_entry-modify f k nil h = rw (e.same_refl k)
  append_entry-modify f k (cons i m cs) h = ground (arith, append_entry-modify f k cs)

  put_entry-shrink_at :
      (f : Node D → Node D) (k j : Text) (n : Node D) (cs : Children D)
      → find_entry k cs ≡ some (j, n)
      → (if is_dead (f n) then erase_child k cs else put_entry k (f n) cs) ≡ shrink_entry k f cs
  unfolding find_entry put_entry shrink_entry erase_child
  put_entry-shrink_at f k j n nil h = cc
  put_entry-shrink_at f k j n (cons i m cs) h = ground (arith, put_entry-shrink_at f k j n cs)

  pub put_entry-shrink :
      (f : Node D → Node D) (k j : Text) (n : Node D) (cs : Children D)
      → find_entry k cs ≡ some (j, n)
      → (if is_dead (f n) then erase_child j cs else put_entry j (f n) cs) ≡ shrink_entry k f cs
  put_entry-shrink f k j n cs h =
      let s = find_entry-same k cs j n h in
      rw (put_entry-eq j k (f n) cs s, erase_child-eq j k cs s) (put_entry-shrink_at f k j n cs h)

  abbrev pub modified : Text → (Node D → Node D) → Option (Text × Node D) → Option (Text × Node D)
  modified k f none = some (k, f empty_node)
  modified k f (some (j, n)) = some (j, f n)

  pub find-modify_entry :
      (f : Node D → Node D) (k q : Text) (cs : Children D)
      → find_entry q (modify_entry k f cs)
        ≡ (if e.same k q then modified k f (find_entry k cs) else find_entry q cs)
  unfolding find_entry modify_entry
  find-modify_entry f k q nil = ground arith
  find-modify_entry f k q (cons i m cs) = elim (Bool-cases (e.same i k)) [
    | inl s ↦ rw (s, same_left i k q s) (ground (arith, same_left i k q s))
    | inr s ↦
        ground
          (arith, find-modify_entry f k q cs, same_left k q i, e.same_sym k q, same_right k q i)
  ]

  pub find-modify_entry-none :
      (f : Node D → Node D) (k q : Text) (cs : Children D)
      → e.same k q ≡ false
      → find_entry q cs ≡ none
      → find_entry q (modify_entry k f cs) ≡ none
  find-modify_entry-none f k q cs s h = rw (find-modify_entry f k q cs, s) h

  abbrev pub shrunk : (Node D → Node D) → Option (Text × Node D) → Option (Text × Node D)
  shrunk f none = none
  shrunk f (some (j, n)) = if is_dead (f n) then none else some (j, f n)
