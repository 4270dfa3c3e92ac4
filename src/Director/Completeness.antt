-- ===== src/Director/Completeness.antt =====
-- GetInstructionForFileOperation: when there is an instruction, and when there is no redirection.
use pathwinder.Base.{
  ℕ, zero, suc, ◌+◌, ◌≡◌, ap, inl, inr, Bool, true, false, List, [], ◌∷◌, none, some, take, drop,
  get_elem?, is_some, is_empty, arith, Bool-cases, Option-cases,
}
use pathwinder.Text.{Text, backslash, find_last_of}
use pathwinder.Infra.{Infra}
use pathwinder.Strings.{path_begins_with_drive_letter}
use pathwinder.Rule.{
  FilesystemRule, directory_compare_with_origin, redirect_path, is_redirected,
  redirect_path_origin_to_target,
}
use pathwinder.RuleContainer.{RelatedFilesystemRuleContainer, any_rule}
use pathwinder.Instruction.{
  FileOperationInstruction, ExtraPreOperation, simple_redirect_to, overlay_redirect_to,
}
use pathwinder.Director.{
  FilesystemDirector, CreateDisposition, FileAccessMode, is_equal, select_rules_for_path,
}
use pathwinder.Director.FileOperation.{
  Query, make_query, Selection, first_redirection, select_for_origin, select_among,
  select_redirection, extra_pre_operations_for, instruction_for_selection, instruction_with_rules,
  get_instruction_for_file_operation,
}
use pathwinder.Director.ModeCounts.{HasMode, HaveModes}
use pathwinder.Director.Redirection.{make_query_end}
use pathwinder.Director.Selected.{selection-Redirects}

module _ ⦃i : Infra⦄ where
  -- No rule redirects the path, cut at the position.
  abbrev pub NoneRedirects : Query → ℕ → List FilesystemRule → Type 0
  NoneRedirects q last [] = Unit
  NoneRedirects q last (r ∷ rs) =
      (redirect_path_origin_to_target r (take last q.trimmed) (drop (1 + last) q.trimmed)
          q.windows_namespace_prefix q.extra_suffix
        ≡ none)
      × NoneRedirects q last rs

  first_redirection-NoneRedirects :
      (q : Query) (last : ℕ) (rs : List FilesystemRule)
      → first_redirection rs
          (take last q.trimmed)
          (drop (1 + last) q.trimmed)
          q.windows_namespace_prefix
          q.extra_suffix
        ≡ none
      → NoneRedirects q last rs
  unfolding first_redirection
  first_redirection-NoneRedirects q last [] h = tt
  first_redirection-NoneRedirects q last (r ∷ rs) h =
      elim (Option-cases (
        redirect_path_origin_to_target r (take last q.trimmed) (drop (1 + last) q.trimmed)
          q.windows_namespace_prefix q.extra_suffix)) [
            | inl miss ↦ (miss, first_redirection-NoneRedirects q last rs (ground (arith, h, miss)))
            | inr (t, hit) ↦ absurd (ground (arith, h, hit))
          ]

  origin_selected :
      (q : Query) (r : FilesystemRule)
      → is_equal (directory_compare_with_origin r q.trimmed) ≡ true
      → is_some (select_for_origin q r) ≡ true
  unfolding select_for_origin redirect_path_origin_to_target redirect_path is_redirected
      directory_compare_with_origin
  origin_selected q r h = ground (arith, h)

  nothing_selected :
      (q : Query) (last : ℕ) (c : RelatedFilesystemRuleContainer) (any : FilesystemRule)
      → select_redirection q last c any ≡ none
      → (is_equal (directory_compare_with_origin any q.trimmed) ≡ false)
        × NoneRedirects q last c.filesystem_rules
  unfolding select_redirection select_among
  nothing_selected q last c any h =
      elim (Bool-cases (is_equal (directory_compare_with_origin any q.trimmed))) [
        | inl here ↦ absurd (ground (arith, h, here, origin_selected q any here))
        | inr below ↦ (
          below,
          first_redirection-NoneRedirects q last c.filesystem_rules (ground (arith, h, below)),
        )
      ]

  HaveModes-IsAmong :
      (rs : List FilesystemRule) (k : ℕ) (r : FilesystemRule)
      → HaveModes rs
      → get_elem? rs k ≡ some r
      → HasMode r
  HaveModes-IsAmong [] k r modes h = cc
  HaveModes-IsAmong (x ∷ rs) zero r (mode, modes) h = ground (arith, mode, h)
  HaveModes-IsAmong (x ∷ rs) (suc k) r (mode, modes) h = HaveModes-IsAmong rs k r modes h

  selection_redirected :
      (disposition : CreateDisposition) (s : Selection) (operations : List ExtraPreOperation × Text)
      → HasMode s.rule
      → (instruction_for_selection disposition s operations).redirected_filename ≡ some s.redirected
  unfolding instruction_for_selection overlay_redirect_to simple_redirect_to
  selection_redirected disposition s operations mode = ground (arith, mode)

  -- If the path has a drive letter and a backslash, and rules in one of the two modes are selected
  -- for it, it is left alone only if it is not the origin directory of the first rule and none of
  -- the rules redirects it.
  pub redirection_complete :
      (is_directory : Text → Bool) (d : FilesystemDirector) (path : Text) (mode : FileAccessMode)
      (disposition : CreateDisposition) (ins : FileOperationInstruction) (last : ℕ)
      (c : RelatedFilesystemRuleContainer) (any : FilesystemRule)
      → path_begins_with_drive_letter (make_query path).trimmed ≡ true
      → find_last_of backslash (make_query path).trimmed ≡ some last
      → select_rules_for_path d (make_query path).trimmed ≡ some c
      → any_rule c ≡ some any
      → HaveModes c.filesystem_rules
      → get_instruction_for_file_operation is_directory d path mode disposition ≡ some ins
      → ins.redirected_filename ≡ none
      → (is_equal (directory_compare_with_origin any (make_query path).trimmed) ≡ false)
        × NoneRedirects (make_query path) last c.filesystem_rules
  unfolding get_instruction_for_file_operation instruction_with_rules
  redirection_complete is_directory d path mode disposition ins last c any drive found selected
        first modes h out =
      let q = make_query path in
      elim (Option-cases (select_redirection q last c any)) [
        | inl e ↦ nothing_selected q last c any e
        | inr (s, e) ↦
            let operations = extra_pre_operations_for is_directory d disposition q s in
            let ((k, at), redirects) =
              selection-Redirects q last c any s found (make_query_end path) first e in
            let there =
              selection_redirected disposition s operations
                (HaveModes-IsAmong c.filesystem_rules k s.rule modes at) in
            let same : ins ≡ instruction_for_selection disposition s operations =
              ground (arith, h, drive, found, selected, first, e) in
            absurd (ground (arith, there, out, ap (λ n. n.redirected_filename) same))
      ]

  -- There is an instruction for every path, unless the rules selected for it are none at all.
  pub instruction_total :
      (is_directory : Text → Bool) (d : FilesystemDirector) (path : Text) (mode : FileAccessMode)
      (disposition : CreateDisposition)
      → ((c : RelatedFilesystemRuleContainer)
          → select_rules_for_path d (make_query path).trimmed ≡ some c
          → is_empty c.filesystem_rules ≡ false)
      → is_some (get_instruction_for_file_operation is_directory d path mode disposition) ≡ true
  unfolding get_instruction_for_file_operation instruction_with_rules any_rule
  instruction_total is_directory d path mode disposition h =
      elim (Option-cases (select_rules_for_path d (make_query path).trimmed)) [
        | inl e ↦ ground (arith, e)
        | inr (c, e) ↦ ground (arith, e, h c e)
      ]
