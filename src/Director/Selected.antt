-- ===== src/Director/Selected.antt =====
-- The rule that a file operation is redirected by, and where it leads.
use pathwinder.Base.{
  ℕ, suc, ◌+◌, ◌≡◌, sym, ap, subst, ◌∙◌, inl, inr, true, false, List, [], ◌∷◌, ◌++◌, some, take,
  drop, arith, Bool-cases, Option-cases, append_assoc, append-nil,
}
use pathwinder.Text.{Text, backslash, find_last_of, ends_with}
use pathwinder.Text.Search.{find_last_of_split, ends_with-append}
use pathwinder.Infra.{Infra}
use pathwinder.Rule.{FilesystemRule, directory_compare_with_origin, redirect_path_origin_to_target}
use pathwinder.Rule.Redirect.{redirect_path_iff, file_part}
use pathwinder.RuleContainer.{RelatedFilesystemRuleContainer, any_rule}
use pathwinder.RuleContainer.Matching.{IsAmong, any_rule-IsAmong}
use pathwinder.Director.{is_equal}
use pathwinder.Director.FileOperation.{
  Query, Selection, first_redirection, select_for_origin, select_among, select_redirection,
}

module _ ⦃i : Infra⦄ where
  -- The rule takes the query to the redirected path: without its namespace prefix and trailing
  -- backslashes the path is the rule's origin directory (up to case), followed by a text. The
  -- redirected path is the target directory followed by that text, between the same prefix and a
  -- backslash if the path ended with one.
  abbrev pub Redirects : Query → FilesystemRule → Text → Type 0
  Redirects q r out =
      (p : Text) × (s : Text) × (q.trimmed ≡ p ++ s)
      × (i.equals_case_insensitive p r.origin_directory_full_path ≡ true)
      × (out
          ≡ q.windows_namespace_prefix ++ (r.target_directory_full_path ++ (s ++ q.extra_suffix)))

  first_redirection-IsAmong :
      (rs : List FilesystemRule) (d file prefix suffix : Text) (r : FilesystemRule) (out : Text)
      → first_redirection rs d file prefix suffix ≡ some (r, out)
      → IsAmong r rs × (redirect_path_origin_to_target r d file prefix suffix ≡ some out)
  unfolding first_redirection
  first_redirection-IsAmong [] d file prefix suffix r out h = cc
  first_redirection-IsAmong (x ∷ rs) d file prefix suffix r out h =
      elim (Option-cases (redirect_path_origin_to_target x d file prefix suffix)) [
        | inl miss ↦
            let ((k, at), result) =
              first_redirection-IsAmong rs d file prefix suffix r out (ground (arith, h, miss)) in
            ((suc k, at), result)
        | inr (t, hit) ↦ ((0, ground (arith, h, hit)), ground (arith, h, hit))
      ]

  rule-Redirects :
      (q : Query) (r : FilesystemRule) (d file out : Text)
      → q.trimmed ≡ d ++ file_part file
      → redirect_path_origin_to_target r d file q.windows_namespace_prefix q.extra_suffix ≡ some out
      → Redirects q r out
  unfolding redirect_path_origin_to_target
  rule-Redirects q r d file out whole h =
      let (p, s, split, same, covered, result) =
        (redirect_path_iff d file r.origin_directory_full_path r.target_directory_full_path
            r.file_patterns q.windows_namespace_prefix q.extra_suffix out).0
          h in
      (
        p,
        s ++ file_part file,
        whole ∙ ap (λ u. u ++ file_part file) split ∙ append_assoc p s (file_part file),
        same,
        result
            ∙ ap (λ u. q.windows_namespace_prefix ++ (r.target_directory_full_path ++ u))
                (sym (append_assoc s (file_part file) q.extra_suffix)),
      )

  origin-Redirects :
      (q : Query) (r : FilesystemRule) (s : Selection)
      → select_for_origin q r ≡ some s
      → (s.rule ≡ r) × Redirects q r s.redirected
  unfolding select_for_origin
  origin-Redirects q r s h =
      elim (Option-cases
        (redirect_path_origin_to_target r q.trimmed [] q.windows_namespace_prefix q.extra_suffix)) [
          | inl miss ↦ absurd (ground (arith, h, miss))
          | inr (t, hit) ↦
              let same : s.redirected ≡ t = ground (arith, h, hit) in
              (
                ground (arith, h, hit),
                rule-Redirects q r q.trimmed [] s.redirected (sym (append-nil q.trimmed))
                    (hit ∙ ap some (sym same)),
              )
        ]

  -- A path without trailing backslashes, cut at its last backslash.
  cut_whole :
      (s : Text) (last : ℕ)
      → find_last_of backslash s ≡ some last
      → ends_with backslash s ≡ false
      → s ≡ take last s ++ file_part (drop (1 + last) s)
  unfolding ends_with
  cut_whole s last found end =
      let (split, rest) = find_last_of_split backslash s last found in
      let at : drop (1 + last) s ≡ drop (suc last) s =
        ap (λ n. drop n s) {y = suc last} (omega arith) in
      go (drop (suc last) s) split ∙ ap (λ f. take last s ++ file_part f) (sym at)
    where
      go : (f : Text) → s ≡ take last s ++ (backslash ∷ f) → s ≡ take last s ++ file_part f
      go [] split =
          let ends =
            ap (ends_with backslash) split
            ∙ ends_with-append backslash (take last s) backslash [] in
          absurd (ground (arith, ends, end))
      go (c ∷ f) split = split

  IsAmong-Redirects :
      (q : Query) (last : ℕ) (rules : List FilesystemRule) (s : Selection)
      → find_last_of backslash q.trimmed ≡ some last
      → ends_with backslash q.trimmed ≡ false
      → select_among q last rules ≡ some s
      → IsAmong s.rule rules × Redirects q s.rule s.redirected
  unfolding select_among
  IsAmong-Redirects q last rules s found end h =
      elim (Option-cases (
        first_redirection rules (take last q.trimmed) (drop (1 + last) q.trimmed)
          q.windows_namespace_prefix q.extra_suffix)) [
            | inl miss ↦ absurd (ground (arith, h, miss))
            | inr ((r, t), hit) ↦
                let rule : r ≡ s.rule = ground (arith, h, hit) in
                let out : t ≡ s.redirected = ground (arith, h, hit) in
                let (among, result) =
                  first_redirection-IsAmong rules (take last q.trimmed) (drop (1 + last) q.trimmed)
                    q.windows_namespace_prefix q.extra_suffix s.rule s.redirected
                    (hit ∙ ap some (ap (λ x. (x, t)) rule ∙ ap (λ x. (s.rule, x)) out)) in
                (
                  among,
                  rule-Redirects q s.rule (take last q.trimmed) (drop (1 + last) q.trimmed)
                      s.redirected (cut_whole q.trimmed last found end) result,
                )
          ]

  pub selection-Redirects :
      (q : Query) (last : ℕ) (c : RelatedFilesystemRuleContainer) (any : FilesystemRule)
      (s : Selection)
      → find_last_of backslash q.trimmed ≡ some last
      → ends_with backslash q.trimmed ≡ false
      → any_rule c ≡ some any
      → select_redirection q last c any ≡ some s
      → IsAmong s.rule c.filesystem_rules × Redirects q s.rule s.redirected
  unfolding select_redirection
  selection-Redirects q last c any s found end first h =
      elim (Bool-cases (is_equal (directory_compare_with_origin any q.trimmed))) [
        | inl here ↦
            let (rule, redirects) = origin-Redirects q any s (ground (arith, h, here)) in
            let (k, at) = any_rule-IsAmong c any first in
            (
              (k, at ∙ ap some (sym rule)),
              subst (λ r. Redirects q r s.redirected) (sym rule) redirects,
            )
        | inr below ↦
            IsAmong-Redirects q last c.filesystem_rules s found end (ground (arith, h, below))
      ]
