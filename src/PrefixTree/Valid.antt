-- ===== src/PrefixTree/Valid.antt =====
-- The invariant of a tree: the keys below one node differ, and below the root every node has
-- data or a child.
use pathwinder.Base.{
  false, none, some, ◌≡◌, refl, sym, ap, ◌∙◌, inl, inr, if◌then◌else◌, arith, Bool-cases, if_true,
  if_false,
}
use pathwinder.Text.{Text}
use pathwinder.PrefixTree.{Node, node, Children, nil, cons, KeyEq, find_entry, empty_node}
use pathwinder.PrefixTree.Entries.{
  is_dead, modify_entry, shrink_entry, shrunk, same_left, same_right, same_sym_false,
  find-modify_entry-none, find_entry-eq,
}

module _ {ℓ} {D : Type ℓ} ⦃e : KeyEq⦄ where
  abbrev mutual
    pub IsValid : Node D → Type ℓ
    IsValid (node d cs) = AreValid cs

    pub AreValid : Children D → Type ℓ
    AreValid nil = Unit
    AreValid (cons k n cs) =
        (find_entry k cs ≡ none) × (is_dead n ≡ false) × IsValid n × AreValid cs

  pub find_entry-IsValid :
      (k j : Text) (n : Node D) (cs : Children D)
      → AreValid cs
      → find_entry k cs ≡ some (j, n)
      → IsValid n × (is_dead n ≡ false)
  unfolding find_entry
  find_entry-IsValid k j n nil v h = cc
  find_entry-IsValid k j n (cons i m cs) v h = elim (Bool-cases (e.same i k)) [
    | inl s ↦ let q : m ≡ n = ground (arith, s) in rw (← q) (v.2, v.1)
    | inr s ↦ find_entry-IsValid k j n cs v.3 (ground (arith, s))
  ]

  pub modify_entry-AreValid :
      (f : Node D → Node D) (k : Text) (cs : Children D)
      → ((n : Node D) → IsValid n → IsValid (f n))
      → ((n : Node D) → is_dead (f n) ≡ false)
      → AreValid cs
      → AreValid (modify_entry k f cs)
  unfolding modify_entry find_entry
  modify_entry-AreValid f k nil keeps lives v = (refl, lives empty_node, keeps empty_node tt, tt)
  modify_entry-AreValid f k (cons i m cs) keeps lives v = elim (Bool-cases (e.same i k)) [
    | inl s ↦ rw s (v.0, lives m, keeps m v.2, v.3)
    | inr s ↦ rw s (
      find-modify_entry-none f k i cs (same_sym_false i k s) v.0,
      v.1,
      v.2,
      modify_entry-AreValid f k cs keeps lives v.3,
    )
  ]

  find-shrink_entry-none :
      (f : Node D → Node D) (k q : Text) (cs : Children D)
      → find_entry q cs ≡ none
      → find_entry q (shrink_entry k f cs) ≡ none
  unfolding shrink_entry find_entry
  find-shrink_entry-none f k q nil h = refl
  find-shrink_entry-none f k q (cons i m cs) h = ground (arith, find-shrink_entry-none f k q cs)

  shrink_hit :
      (f : Node D → Node D) (i q : Text) (m : Node D) (cs : Children D)
      → find_entry i cs ≡ none
      → find_entry q (if is_dead (f m) then cs else cons i (f m) cs) ≡ (
          if e.same i q
          then shrunk f (some (i, m))
          else (if e.same i q then some (i, m) else find_entry q cs))
  unfolding find_entry
  shrink_hit f i q m cs h = elim (Bool-cases (e.same i q)) [
    | inl t ↦ elim (Bool-cases (is_dead (f m))) [
      | inl d ↦ rw (t, d) (sym (find_entry-eq i q cs t) ∙ h)
      | inr d ↦ rw (t, d, t)
    ]
    | inr t ↦ rw t (ground (arith, t))
  ]

  pub find-shrink_entry :
      (f : Node D → Node D) (k q : Text) (cs : Children D)
      → AreValid cs
      → find_entry q (shrink_entry k f cs)
        ≡ (if e.same k q then shrunk f (find_entry k cs) else find_entry q cs)
  unfolding find_entry shrink_entry
  find-shrink_entry f k q nil v = ground arith
  find-shrink_entry f k q (cons i m cs) v = elim (Bool-cases (e.same i k)) [
    | inl s ↦ rw (s, ← same_left i k q s) (shrink_hit f i q m cs v.0)
    | inr s ↦ elim (Bool-cases (e.same k q)) [
      | inl t ↦
          rw (s, t, sym (same_right k q i t) ∙ s) (find-shrink_entry f k q cs v.3 ∙ if_true _ _ t)
      | inr t ↦
          rw (s, t)
            (ap (λ o. if e.same i q then some (i, m) else o)
              (find-shrink_entry f k q cs v.3 ∙ if_false _ _ t))
    ]
  ]

  pub shrink_entry-AreValid :
      (f : Node D → Node D) (k : Text) (cs : Children D)
      → ((n : Node D) → IsValid n → IsValid (f n))
      → AreValid cs
      → AreValid (shrink_entry k f cs)
  unfolding shrink_entry find_entry
  shrink_entry-AreValid f k nil keeps v = tt
  shrink_entry-AreValid f k (cons i m cs) keeps v = elim (Bool-cases (e.same i k)) [
    | inl s ↦ rw s (elim (Bool-cases (is_dead (f m))) [
      | inl d ↦ rw d v.3
      | inr d ↦ rw d (v.0, d, keeps m v.2, v.3)
    ])
    | inr s ↦
        rw s (find-shrink_entry-none f k i cs v.0, v.1, v.2, shrink_entry-AreValid f k cs keeps v.3)
  ]
