-- ===== src/RuleContainer/Order.antt =====
-- EmplaceRule: the container stays in order and within its limit, rules without patterns come last,
-- and a rule is added, refused for the limit, or dropped for an equivalent one.
use pathwinder.Base.{
  ℕ, zero, suc, ◌≤◌, ◌<◌, ◌≡◌, refl, ap, inl, inr, ◌⊎◌, Bool, true, false, List, [], ◌∷◌, ◌++◌,
  none, some, leb, if◌then◌else◌, length, arith, Bool-cases, get_elem?, take, drop,
}
use pathwinder.Text.{Text}
use pathwinder.Infra.{Infra}
use pathwinder.Rule.{FilesystemRule}
use pathwinder.RuleContainer.{
  RelatedFilesystemRuleContainer, less_than, emplace_ordered, emplace_rule, is_lt,
  maximum_filesystem_rule_count,
}

module _ ⦃i : Infra⦄ where
  -- The rule comes before every rule of the list.
  abbrev IsBelow : FilesystemRule → List FilesystemRule → Type 0
  IsBelow r [] = Unit
  IsBelow r (x ∷ xs) = (less_than r x ≡ true) × IsBelow r xs

  abbrev IsOrdered : List FilesystemRule → Type 0
  IsOrdered [] = Unit
  IsOrdered (x ∷ xs) = IsBelow x xs × IsOrdered xs

  pub record IsValid (c : RelatedFilesystemRuleContainer) : Type 0 where
    pub ordered : IsOrdered c.filesystem_rules
    pub bounded : length c.filesystem_rules ≤ maximum_filesystem_rule_count

  compare_trans :
      (a b c : Text)
      → is_lt (i.compare_case_insensitive a b) ≡ true
      → is_lt (i.compare_case_insensitive b c) ≡ true
      → is_lt (i.compare_case_insensitive a c) ≡ true
  compare_trans a b c h k = ground (arith, i.compare_lt_trans a b c)

  less_than_trans :
      (a b c : FilesystemRule) → less_than a b ≡ true → less_than b c ≡ true → less_than a c ≡ true
  unfolding less_than
  less_than_trans a b c h k = ground (arith, compare_trans a.name b.name c.name)

  IsBelow-trans :
      (r x : FilesystemRule) (xs : List FilesystemRule)
      → less_than r x ≡ true
      → IsBelow x xs
      → IsBelow r xs
  IsBelow-trans r x [] h b = tt
  IsBelow-trans r x (y ∷ xs) h b = (less_than_trans r x y h b.0, IsBelow-trans r x xs h b.1)

  IsBelow-emplace :
      (y r : FilesystemRule) (xs : List FilesystemRule)
      → less_than y r ≡ true
      → IsBelow y xs
      → IsBelow y (emplace_ordered r xs).0
  unfolding emplace_ordered
  IsBelow-emplace y r [] h b = (h, tt)
  IsBelow-emplace y r (x ∷ xs) h b = elim (Bool-cases (less_than r x)) [
    | inl first ↦ rw first (h, b)
    | inr later ↦ rw later (elim (Bool-cases (less_than x r)) [
      | inl after ↦ rw after (b.0, IsBelow-emplace y r xs h b.1)
      | inr same ↦ rw same b
    ])
  ]

  emplace_ordered-IsOrdered :
      (r : FilesystemRule) (xs : List FilesystemRule)
      → IsOrdered xs
      → IsOrdered (emplace_ordered r xs).0
  unfolding emplace_ordered
  emplace_ordered-IsOrdered r [] o = (tt, tt)
  emplace_ordered-IsOrdered r (x ∷ xs) o = elim (Bool-cases (less_than r x)) [
    | inl first ↦ rw first ((first, IsBelow-trans r x xs first o.0), o)
    | inr later ↦ rw later (elim (Bool-cases (less_than x r)) [
      | inl after ↦ rw after (IsBelow-emplace x r xs after o.0, emplace_ordered-IsOrdered r xs o.1)
      | inr same ↦ rw same o
    ])
  ]

  emplace_ordered-length :
      (r : FilesystemRule) (xs : List FilesystemRule)
      → length (emplace_ordered r xs).0
        ≡ (if (emplace_ordered r xs).2 then suc (length xs) else length xs)
  unfolding emplace_ordered
  emplace_ordered-length r [] = refl
  emplace_ordered-length r (x ∷ xs) = ground (arith, emplace_ordered-length r xs)

  -- An insertion keeps the rules strictly in order and at most 64 in number.
  pub emplace_rule-IsValid :
      (c : RelatedFilesystemRuleContainer) (r : FilesystemRule)
      → IsValid c
      → IsValid (emplace_rule c r).0
  unfolding emplace_rule
  emplace_rule-IsValid c r v =
      elim (Bool-cases (leb maximum_filesystem_rule_count (length c.filesystem_rules))) [
        | inl full ↦ rw (full, emplace_rule) v
        | inr room ↦
            rw (room, emplace_rule)
              (record {
                ordered = emplace_ordered-IsOrdered r c.filesystem_rules v.ordered;
                bounded = ground (arith, room, emplace_ordered-length r c.filesystem_rules);
              })
      ]

  IsBelow-get_elem :
      (r : FilesystemRule) (xs : List FilesystemRule) (k : ℕ) (b : FilesystemRule)
      → IsBelow r xs
      → get_elem? xs k ≡ some b
      → less_than r b ≡ true
  IsBelow-get_elem r [] k b below h = cc
  IsBelow-get_elem r (x ∷ xs) zero b below h = ground (arith, h, below.0)
  IsBelow-get_elem r (x ∷ xs) (suc k) b below h = IsBelow-get_elem r xs k b below.1 h

  patterns_fall :
      (xs : List FilesystemRule) (j k : ℕ) (a b : FilesystemRule)
      → IsOrdered xs
      → j < k
      → get_elem? xs j ≡ some a
      → get_elem? xs k ≡ some b
      → length b.file_patterns ≤ length a.file_patterns
  unfolding less_than
  patterns_fall [] j k a b o lt ha hb = cc
  patterns_fall (x ∷ xs) zero zero a b o lt ha hb = absurd (omega arith)
  patterns_fall (x ∷ xs) zero (suc k) a b o lt ha hb =
      ground (arith, ha, IsBelow-get_elem x xs k b o.0 hb)
  patterns_fall (x ∷ xs) (suc j) zero a b o lt ha hb = absurd (omega arith)
  patterns_fall (x ∷ xs) (suc j) (suc k) a b o lt ha hb =
      patterns_fall xs j k a b o.1 (omega arith) ha hb

  -- In a valid container an earlier rule has at least as many file patterns as a later one, so the
  -- rules without patterns, which match every name, come last.
  pub rules_without_patterns_last :
      (c : RelatedFilesystemRuleContainer) (j k : ℕ) (a b : FilesystemRule)
      → IsValid c
      → j < k
      → get_elem? c.filesystem_rules j ≡ some a
      → get_elem? c.filesystem_rules k ≡ some b
      → (length b.file_patterns ≤ length a.file_patterns)
        × (a.file_patterns ≡ [] → b.file_patterns ≡ [])
  rules_without_patterns_last c j k a b v lt ha hb =
      let fall = patterns_fall c.filesystem_rules j k a b v.ordered lt ha hb in
      (fall, λ h. no_patterns b.file_patterns (ground (arith, fall, ap length h)))
    where
      no_patterns : (ps : List Text) → length ps ≡ 0 → ps ≡ []
      no_patterns [] h = refl
      no_patterns (p ∷ ps) h = absurd (omega arith)

  -- What an insertion into the ordered set did: the rule stands where it belongs, or an equivalent
  -- one was there and nothing changed.
  abbrev pub IsEmplaced :
      FilesystemRule → List FilesystemRule → List FilesystemRule × FilesystemRule × Bool → Type 0
  IsEmplaced r xs (ys, there, added) =
      ((added ≡ true) × (there ≡ r) × ((k : ℕ) × (ys ≡ take k xs ++ (r ∷ drop k xs))))
      ⊎ ((added ≡ false)
          × (ys ≡ xs)
          × (less_than r there ≡ false)
          × (less_than there r ≡ false)
          × ((k : ℕ) × (get_elem? xs k ≡ some there)))

  emplace_ordered-IsEmplaced :
      (r : FilesystemRule) (xs : List FilesystemRule) → IsEmplaced r xs (emplace_ordered r xs)
  unfolding emplace_ordered
  emplace_ordered-IsEmplaced r [] = inl (refl, refl, (0, refl))
  emplace_ordered-IsEmplaced r (x ∷ xs) = elim (Bool-cases (less_than r x)) [
    | inl first ↦ rw first (inl (refl, refl, (0, refl)))
    | inr later ↦ rw later (elim (Bool-cases (less_than x r)) [
      | inl after ↦ rw after (elim (emplace_ordered-IsEmplaced r xs) [
        | inl (added, there, (k, at)) ↦ inl (added, there, (suc k, ap (◌∷◌ x) at))
        | inr (added, same, below, above, (k, at)) ↦
            inr (added, ap (◌∷◌ x) same, below, above, (suc k, at))
      ])
      | inr same ↦ rw same (inr (refl, refl, later, same, (0, refl)))
    ])
  ]

  -- An insertion into a container with 64 rules changes nothing and returns no rule. With fewer
  -- rules it puts the rule among the others and returns it, or it changes nothing and returns a rule
  -- of the container that is neither less nor greater.
  pub emplace_rule_outcome :
      (c : RelatedFilesystemRuleContainer) (r : FilesystemRule)
      → ((maximum_filesystem_rule_count ≤ length c.filesystem_rules)
          × (emplace_rule c r ≡ (c, none, false)))
        ⊎ ((length c.filesystem_rules < maximum_filesystem_rule_count)
            × ((there : FilesystemRule) × ((emplace_rule c r).1 ≡ some there)
                × IsEmplaced r c.filesystem_rules
                    ((emplace_rule c r).0.filesystem_rules, there, (emplace_rule c r).2)))
  unfolding emplace_rule
  emplace_rule_outcome c r =
      elim (Bool-cases (leb maximum_filesystem_rule_count (length c.filesystem_rules))) [
        | inl full ↦ inl (ground (arith, full), rw (full, emplace_rule) refl)
        | inr room ↦ inr (
          ground (arith, room),
          rw (room, emplace_rule)
              (
                (emplace_ordered r c.filesystem_rules).1,
                refl,
                emplace_ordered-IsEmplaced r c.filesystem_rules,
              ),
        )
      ]
