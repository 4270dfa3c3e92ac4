-- ===== src/RuleContainer/Matching.antt =====
-- RuleMatchingFileName and GetRuleByIndex: which rule they find.
use pathwinder.Base.{
  ℕ, zero, suc, ◌+◌, ◌%◌, ◌≤◌, ◌≡◌, refl, ap, subst, ◌∙◌, inl, inr, ◌↔◌, true, false, List, [], ◌∷◌,
  Option, none, some, ◌==◌, get_elem?, take, length, arith, Bool-cases,
}
use pathwinder.Text.{Text}
use pathwinder.Infra.{Infra}
use pathwinder.Rule.{FilesystemRule, file_name_matches_any_pattern}
use pathwinder.RuleContainer.{
  RelatedFilesystemRuleContainer, matching_loop, rule_matching_file_name, index_loop,
  get_rule_by_index, any_rule, maximum_filesystem_rule_count,
}

module _ ⦃i : Infra⦄ where
  -- None of the rules matches the file name.
  abbrev NoneMatches : Text → List FilesystemRule → Type 0
  NoneMatches f [] = Unit
  NoneMatches f (r ∷ rs) = (file_name_matches_any_pattern r f ≡ false) × NoneMatches f rs

  -- The rule at a position matches the file name, and no rule before it does.
  abbrev pub FirstMatch : Text → List FilesystemRule → ℕ → FilesystemRule → Type 0
  FirstMatch f rs k r =
      (get_elem? rs k ≡ some r)
      × (file_name_matches_any_pattern r f ≡ true)
      × NoneMatches f (take k rs)

  found_loop :
      (f : Text) (stop index k : ℕ) (rs : List FilesystemRule) (r : FilesystemRule)
      → index + length rs ≤ 255
      → index ≤ stop
      → matching_loop f stop index rs ≡ (some r, k)
      → (j : ℕ) × (k ≡ index + j) × (k ≤ stop) × FirstMatch f rs j r
  unfolding matching_loop
  found_loop f stop index k [] r room le h = absurd (ground (arith, h))
  found_loop f stop index k (x ∷ rs) r room le h =
      elim (Bool-cases (file_name_matches_any_pattern x f)) [
        | inl hit ↦ (
          0,
          ground (arith, h, hit),
          ground (arith, h, hit),
          (ground (arith, h, hit), ground (arith, h, hit), tt),
        )
        | inr miss ↦ elim (Bool-cases (index == stop)) [
          | inl last ↦ absurd (ground (arith, h, miss, last))
          | inr more ↦
              let (j, at, le', first) =
                found_loop f stop ((index + 1) % 256) k rs r (omega arith) (ground arith)
                  (ground (arith, h, miss, more)) in
              (suc j, omega arith, le', (first.0, first.1, (miss, first.2)))
        ]
      ]

  loop_finds :
      (f : Text) (stop index j : ℕ) (rs : List FilesystemRule) (r : FilesystemRule)
      → index + length rs ≤ 255
      → index + j ≤ stop
      → FirstMatch f rs j r
      → matching_loop f stop index rs ≡ (some r, index + j)
  unfolding matching_loop
  loop_finds f stop index j [] r room le (e, hit, before) = cc
  loop_finds f stop index zero (x ∷ rs) r room le (e, hit, before) = ground arith
  loop_finds f stop index (suc j) (x ∷ rs) r room le (e, hit, (miss, before)) =
      let rest =
        loop_finds f stop ((index + 1) % 256) j rs r (omega arith) (omega arith) (e, hit, before) in
      ground (arith, rest, miss)

  -- In a container of at most 64 rules the search for a file name returns a rule and a position
  -- exactly if that rule stands at that position, the position is at most the one to stop at, the
  -- rule matches the name, and no rule before it does.
  pub rule_matching_file_name_iff :
      (c : RelatedFilesystemRuleContainer) (f : Text) (stop k : ℕ) (r : FilesystemRule)
      → length c.filesystem_rules ≤ maximum_filesystem_rule_count
      → (rule_matching_file_name c f stop ≡ (some r, k))
        ↔ ((k ≤ stop) × FirstMatch f c.filesystem_rules k r)
  unfolding rule_matching_file_name
  rule_matching_file_name_iff c f stop k r room = (
    λ h.
        let (j, at, le, first) =
          found_loop f stop 0 k c.filesystem_rules r (omega arith) (omega arith) h in
        let same : j ≡ k = omega arith in
        (le, subst (λ n. FirstMatch f c.filesystem_rules n r) same first),
    λ (le, first).
        loop_finds f stop 0 k c.filesystem_rules r (omega arith) (omega arith) first
        ∙ ap (λ n. (some r, n)) (omega arith),
  )

index_loop_lem :
    (index j : ℕ) (rs : List FilesystemRule)
    → index + length rs ≤ 255
    → index_loop (index + j) index rs ≡ get_elem? rs j
unfolding index_loop
index_loop_lem index j [] room = refl
index_loop_lem index zero (r ∷ rs) room = ground arith
index_loop_lem index (suc j) (r ∷ rs) room =
    let rest = index_loop_lem (index + 1) j rs (omega arith) in
    let wrap : (index + 1) % 256 ≡ index + 1 = omega arith in
    let goal : index + suc j ≡ index + 1 + j = omega arith in
    ground (
      arith,
      ap (λ n. index_loop (index + suc j) n rs) wrap,
      ap (λ n. index_loop n (index + 1) rs) goal,
      rest,
    )

-- In a container of at most 64 rules the rule of an index is the one at that position.
pub get_rule_by_index_lem :
    (c : RelatedFilesystemRuleContainer) (k : ℕ)
    → length c.filesystem_rules ≤ maximum_filesystem_rule_count
    → get_rule_by_index c k ≡ get_elem? c.filesystem_rules k
unfolding get_rule_by_index
get_rule_by_index_lem c k room =
    ap (λ n. index_loop n 0 c.filesystem_rules) (omega arith)
    ∙ index_loop_lem 0 k c.filesystem_rules (omega arith)

-- The rule stands in the list.
abbrev pub IsAmong : FilesystemRule → List FilesystemRule → Type 0
IsAmong r rs = (k : ℕ) × (get_elem? rs k ≡ some r)

pub any_rule-IsAmong :
    (c : RelatedFilesystemRuleContainer) (any : FilesystemRule)
    → any_rule c ≡ some any
    → IsAmong any c.filesystem_rules
unfolding any_rule
any_rule-IsAmong c any h = go c.filesystem_rules h
  where
    go :
        (rs : List FilesystemRule)
        → (elim rs as (λ x. Option FilesystemRule) [ [] ↦ none | r ∷ rs' ↦ some r ]) ≡ some any
        → IsAmong any rs
    go [] h' = cc
    go (r ∷ rs) h' = (0, h')
