-- ===== src/Director/ModeCounts.antt =====
-- What the counted modes say of the rules with one origin directory.
use pathwinder.Base.{
  ◌≤◌, ◌≡◌, refl, inl, inr, ◌⊎◌, Bool, true, false, List, [], ◌∷◌, Option, none, some, is_empty,
  arith, Bool-cases,
}
use pathwinder.Text.{Text}
use pathwinder.Infra.{Infra}
use pathwinder.Rule.{
  FilesystemRule, RedirectMode, simple, overlay, file_name_matches_any_pattern, has_file_patterns,
  matches_any_pattern,
}
use pathwinder.Director.DirectoryEnumeration.{ModeCounts, count_mode, count_modes}
use pathwinder.Director.FirstMatch.{first_match}

-- The rule is in one of the two modes.
abbrev pub HasMode : FilesystemRule → Type 0
HasMode r = (r.redirect_mode ≡ simple) ⊎ (r.redirect_mode ≡ overlay)

abbrev pub HaveModes : List FilesystemRule → Type 0
HaveModes [] = Unit
HaveModes (r ∷ rs) = HasMode r × HaveModes rs

abbrev is_simple : RedirectMode → Bool
is_simple simple = true
is_simple _ = false

-- The rule found hides the origin's files.
abbrev pub is_hiding : Option FilesystemRule → Bool
is_hiding none = false
is_hiding (some r) = is_simple r.redirect_mode

module _ ⦃i : Infra⦄ where
  pub no_simple_rules :
      (rs : List FilesystemRule) (n : ModeCounts) (f : Text)
      → HaveModes rs
      → (count_modes rs n).simple_rules ≡ 0
      → (n.simple_rules ≡ 0) × (is_hiding (first_match f rs) ≡ false)
  unfolding count_modes count_mode
  no_simple_rules [] n f modes h = (h, refl)
  no_simple_rules (r ∷ rs) n f (mode, modes) h =
      let (before, rest) = no_simple_rules rs (count_mode r n) f modes h in
      elim mode [
        | inl e ↦ absurd (ground (arith, before, e))
        | inr e ↦ (ground (arith, before, e), ground (arith, rest, e))
      ]

  overlay_grows :
      (rs : List FilesystemRule) (n : ModeCounts)
      → n.overlay_rules ≤ (count_modes rs n).overlay_rules
  unfolding count_modes count_mode
  overlay_grows [] n = omega arith
  overlay_grows (r ∷ rs) n = ground (arith, overlay_grows rs (count_mode r n))

  -- The rules are all simple, and one of them matches everything.
  pub replaced :
      (rs : List FilesystemRule) (n : ModeCounts) (f : Text)
      → HaveModes rs
      → n.contains_simple_rule_with_no_file_patterns ≡ false
      → (count_modes rs n).overlay_rules ≡ 0
      → (count_modes rs n).contains_simple_rule_with_no_file_patterns ≡ true
      → is_hiding (first_match f rs) ≡ true
  unfolding count_modes count_mode has_file_patterns file_name_matches_any_pattern
      matches_any_pattern
  replaced [] n f modes fresh none_over h = cc
  replaced (r ∷ rs) n f (mode, modes) fresh none_over h = elim mode [
    | inl e ↦ elim (Bool-cases (is_empty r.file_patterns)) [
      | inl all ↦ ground (arith, e, all)
      | inr some_patterns ↦
          let rest =
            replaced rs (count_mode r n) f modes (ground (arith, e, some_patterns, fresh)) none_over
              h in
          ground (arith, e, rest)
    ]
    | inr e ↦ absurd (ground (arith, e, none_over, overlay_grows rs (count_mode r n)))
  ]
