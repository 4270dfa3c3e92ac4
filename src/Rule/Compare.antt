-- ===== src/Rule/Compare.antt =====
-- DirectoryCompareInternal: which relation it finds, and that it is read backwards when the two
-- directories change places.
use pathwinder.Base.{
  ℕ, zero, suc, ◌<◌, ◌≡◌, refl, sym, ap, ◌∙◌, ◌↔◌, Bool, true, false, [], ◌∷◌, ◌++◌, map, ◌==◌,
  if◌then◌else◌, is_some, take, drop, length, arith, length-append, length-map, take-append,
  drop-append, take-append-drop, append-nil,
}
use pathwinder.Text.{Text, backslash, find_first_of, find_last_of, contains}
use pathwinder.Text.Search.{text_eq_iff, text_eq_refl}
use pathwinder.Infra.{Infra}
use pathwinder.Rule.{
  DirectoryCompareResult, equal, unrelated, candidate_is_parent, candidate_is_child,
  candidate_is_ancestor, candidate_is_descendant, directory_compare, is_position_zero, char_at_is,
}

module _ ⦃i : Infra⦄ where
  pub equals_refl : (a : Text) → i.equals_case_insensitive a a ≡ true
  equals_refl a = i.equals_fold a a ∙ text_eq_refl (map i.fold a)

  equals_fold_eq : (a b : Text) → i.equals_case_insensitive a b ≡ true → map i.fold a ≡ map i.fold b
  equals_fold_eq a b h = (text_eq_iff (map i.fold a) (map i.fold b)).0 (sym (i.equals_fold a b) ∙ h)

  fold_eq_equals : (a b : Text) → map i.fold a ≡ map i.fold b → i.equals_case_insensitive a b ≡ true
  fold_eq_equals a b h = i.equals_fold a b ∙ (text_eq_iff (map i.fold a) (map i.fold b)).1 h

  pub equals_sym :
      (a b : Text) → i.equals_case_insensitive a b ≡ true → i.equals_case_insensitive b a ≡ true
  equals_sym a b h = fold_eq_equals b a (sym (equals_fold_eq a b h))

  pub equals_trans :
      (a b c : Text)
      → i.equals_case_insensitive a b ≡ true
      → i.equals_case_insensitive b c ≡ true
      → i.equals_case_insensitive a c ≡ true
  equals_trans a b c h k = fold_eq_equals a c (equals_fold_eq a b h ∙ equals_fold_eq b c k)

  pub equals_length : (a b : Text) → i.equals_case_insensitive a b ≡ true → length a ≡ length b
  equals_length a b h =
      sym (length-map i.fold a) ∙ ap length (equals_fold_eq a b h) ∙ length-map i.fold b

  -- The relation that is found when the two directories change places.
  abbrev pub reversed : DirectoryCompareResult → DirectoryCompareResult
  reversed candidate_is_parent = candidate_is_child
  reversed candidate_is_child = candidate_is_parent
  reversed candidate_is_ancestor = candidate_is_descendant
  reversed candidate_is_descendant = candidate_is_ancestor
  reversed other = other

  -- Comparing the other way round gives the reverse relation: child for parent, descendant for
  -- ancestor, and the same where the two are equal or unrelated.
  pub directory_compare-reversed :
      (a b : Text) → directory_compare b a ≡ reversed (directory_compare a b)
  unfolding directory_compare
  directory_compare-reversed a b = ground (arith, equals_sym a b, equals_sym b a)

  -- How a directory compares with a target after which it goes on with the text given.
  abbrev pub compare_suffix : Text → DirectoryCompareResult
  compare_suffix [] = equal
  compare_suffix (c ∷ s) =
      if c == backslash
      then (if contains backslash s then candidate_is_descendant else candidate_is_child)
      else unrelated

  abbrev pub is_in_scope : DirectoryCompareResult → Bool
  is_in_scope equal = true
  is_in_scope candidate_is_child = true
  is_in_scope candidate_is_descendant = true
  is_in_scope _ = false

  contains_last : (c : ℕ) (s : Text) → contains c s ≡ is_some (find_last_of c s)
  unfolding find_last_of contains find_first_of
  contains_last c [] = refl
  contains_last c (x ∷ s) = ground (arith, contains_last c s)

  last_of_head :
      (c : ℕ) (s : Text)
      → is_position_zero (find_last_of c (c ∷ s)) ≡ (if contains c s then false else true)
  unfolding find_last_of contains
  last_of_head c s = ground (arith, contains_last c s)

  char_at-append :
      (p : Text) (c : ℕ) (s : Text) (d : ℕ) → char_at_is (p ++ (c ∷ s)) (length p) d ≡ (c == d)
  char_at-append [] c s d = refl
  char_at-append (x ∷ p) c s d = char_at-append p c s d

  pub directory_compare-append :
      (p s t : Text)
      → i.equals_case_insensitive p t ≡ true
      → directory_compare (p ++ s) t ≡ compare_suffix s
  unfolding directory_compare
  directory_compare-append p [] t h = rw (append-nil p) (ground (arith, equals_length p t h))
  directory_compare-append p (c ∷ s) t h =
      let longer : length t < length (p ++ (c ∷ s)) =
        omega (arith, length-append p (c ∷ s), equals_length p t h) in
      let n = equals_length p t h in
      let starts : i.starts_with_case_insensitive (p ++ (c ∷ s)) t ≡ true =
        i.starts_with_equals (p ++ (c ∷ s)) t
        ∙ ap (λ k. i.equals_case_insensitive (take k (p ++ (c ∷ s))) t) (sym n)
        ∙ ap (λ u. i.equals_case_insensitive u t) (take-append p (c ∷ s))
        ∙ h in
      let next : char_at_is (p ++ (c ∷ s)) (length t) backslash ≡ (c == backslash) =
        ap (λ k. char_at_is (p ++ (c ∷ s)) k backslash) (sym n) ∙ char_at-append p c s backslash in
      let rest : drop (length t) (p ++ (c ∷ s)) ≡ c ∷ s =
        ap (λ k. drop k (p ++ (c ∷ s))) (sym n) ∙ drop-append p (c ∷ s) in
      ground (arith, starts, next, rest, longer, last_of_head backslash s)

  take_all : (n : ℕ) (s : Text) → length s ≡ n → take n s ≡ s
  take_all zero [] h = refl
  take_all zero (c ∷ s) h = absurd (omega arith)
  take_all (suc n) [] h = refl
  take_all (suc n) (c ∷ s) h = ap (◌∷◌ c) (take_all n s (omega arith))

  pub in_scope_equals :
      (d t : Text)
      → is_in_scope (directory_compare d t) ≡ true
      → i.equals_case_insensitive (take (length t) d) t ≡ true
  unfolding directory_compare
  in_scope_equals d t h = ground (arith, i.starts_with_equals d t, take_all (length t) d)

  -- A directory is equal to the target, its child or its descendant exactly if it is the target (up
  -- to case), followed by nothing, by a backslash and a text with no other, or by a backslash and a
  -- text with another.
  pub directory_compare_iff :
      (d t : Text) (r : DirectoryCompareResult)
      → is_in_scope r ≡ true
      → (directory_compare d t ≡ r) ↔ (
          (p : Text) × (s : Text) × (d ≡ p ++ s)
          × (i.equals_case_insensitive p t ≡ true)
          × (compare_suffix s ≡ r))
  directory_compare_iff d t r scope = (
    λ h.
        let p = take (length t) d in
        let s = drop (length t) d in
        let split : d ≡ p ++ s = sym (take-append-drop (length t) d) in
        let same = in_scope_equals d t (ap is_in_scope h ∙ scope) in
        (
          p,
          s,
          split,
          same,
          sym (directory_compare-append p s t same)
              ∙ ap (λ u. directory_compare u t) (sym split)
              ∙ h,
        ),
    λ (p, s, split, same, suffix).
        ap (λ u. directory_compare u t) split ∙ directory_compare-append p s t same ∙ suffix,
  )
