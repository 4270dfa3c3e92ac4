-- ===== src/Director/Redirection.antt =====
-- GetInstructionForFileOperation: where a path is redirected to, by which rule, and which files the
-- executor then tries.
use pathwinder.Base.{
  ℕ, ◌≡◌, sym, ap, subst, inl, inr, Bool, true, false, List, none, some, length, drop, arith,
  Bool-cases, Option-cases,
}
use pathwinder.Text.{Text, backslash, find_last_of, ends_with}
use pathwinder.Infra.{Infra}
use pathwinder.Strings.{path_begins_with_drive_letter, path_get_windows_namespace_prefix}
use pathwinder.Rule.{FilesystemRule, RedirectMode, simple, overlay}
use pathwinder.RuleContainer.{RelatedFilesystemRuleContainer, any_rule}
use pathwinder.RuleContainer.Matching.{IsAmong}
use pathwinder.Instruction.{
  FileOperationInstruction, TryFiles, unredirected_only, redirected_first, redirected_only,
  ExtraPreOperation, CreateDispositionPreference, no_preference, prefer_open_existing_file,
  no_redirection_or_interception, intercept_without_redirection, simple_redirect_to,
  overlay_redirect_to, AssociateNameWithHandle,
}
use pathwinder.Director.{
  FilesystemDirector, CreateDisposition, FileAccessMode, select_rules_for_path,
}
use pathwinder.Director.FileOperation.{
  Query, make_query, Selection, select_redirection, extra_pre_operations_for,
  instruction_for_selection, instruction_with_rules, instruction_without_rules,
  get_instruction_for_file_operation,
}
use pathwinder.Director.Selected.{Redirects, selection-Redirects}

module _ ⦃i : Infra⦄ where
  -- The files to try in a redirect mode.
  abbrev pub tries_for : RedirectMode → TryFiles
  tries_for overlay = redirected_first
  tries_for simple = redirected_only
  tries_for RedirectMode.count = unredirected_only

  abbrev pub preference_for : RedirectMode → Bool → CreateDispositionPreference
  preference_for overlay true = prefer_open_existing_file
  preference_for _ _ = no_preference

  -- What an instruction says of its selection.
  abbrev Follows : CreateDisposition → Selection → FileOperationInstruction → Type 0
  Follows disposition s ins =
      (t : Text)
      → ins.redirected_filename ≡ some t
      → (t ≡ s.redirected)
        × (ins.filenames_to_try ≡ tries_for s.rule.redirect_mode)
        × (ins.create_disposition_preference
            ≡ preference_for s.rule.redirect_mode disposition.allows_create_new_file)
        × (ins.filename_handle_association ≡ AssociateNameWithHandle.unredirected)

  selection-Follows :
      (disposition : CreateDisposition) (s : Selection) (operations : List ExtraPreOperation × Text)
      → Follows disposition s (instruction_for_selection disposition s operations)
  unfolding instruction_for_selection overlay_redirect_to simple_redirect_to
      no_redirection_or_interception
  selection-Follows disposition s operations t h =
      (ground (arith, h), ground (arith, h), ground (arith, h), ground (arith, h))

  without_rules :
      (d : FilesystemDirector) (q : Query)
      → (instruction_without_rules d q).redirected_filename ≡ none
  unfolding instruction_without_rules intercept_without_redirection no_redirection_or_interception
  without_rules d q = ground arith

  pub with_rules_split :
      (is_directory : Text → Bool) (d : FilesystemDirector) (disposition : CreateDisposition)
      (q : Query) (last : ℕ) (c : RelatedFilesystemRuleContainer) (ins : FileOperationInstruction)
      (t : Text)
      → instruction_with_rules is_directory d disposition q last c ≡ some ins
      → ins.redirected_filename ≡ some t
      → (any : FilesystemRule) × (s : Selection) × (any_rule c ≡ some any)
        × (select_redirection q last c any ≡ some s)
        × (ins
            ≡ instruction_for_selection disposition s
                (extra_pre_operations_for is_directory d disposition q s))
  unfolding instruction_with_rules no_redirection_or_interception
  with_rules_split is_directory d disposition q last c ins t h out =
      elim (Option-cases (any_rule c)) [
        | inl e ↦ absurd (ground (arith, h, e))
        | inr (any, e) ↦ elim (Option-cases (select_redirection q last c any)) [
          | inl e' ↦
              let none_out : ins.redirected_filename ≡ none = ground (arith, h, e, e') in
              absurd (ground (arith, none_out, out))
          | inr (s, e') ↦ (any, s, e, e', ground (arith, h, e, e'))
        ]
      ]

  pub get_split :
      (is_directory : Text → Bool) (d : FilesystemDirector) (path : Text) (mode : FileAccessMode)
      (disposition : CreateDisposition) (ins : FileOperationInstruction) (t : Text)
      → get_instruction_for_file_operation is_directory d path mode disposition ≡ some ins
      → ins.redirected_filename ≡ some t
      → (last : ℕ) × (c : RelatedFilesystemRuleContainer) × (find_last_of backslash
            (make_query path).trimmed
          ≡ some last)
        × (select_rules_for_path d (make_query path).trimmed ≡ some c)
        × (instruction_with_rules is_directory d disposition (make_query path) last c ≡ some ins)
  unfolding get_instruction_for_file_operation no_redirection_or_interception
  get_split is_directory d path mode disposition ins t h out =
      let q = make_query path in
      elim (Bool-cases (path_begins_with_drive_letter q.trimmed)) [
        | inr e ↦
            let none_out : ins.redirected_filename ≡ none = ground (arith, h, e) in
            absurd (ground (arith, none_out, out))
        | inl e ↦ elim (Option-cases (find_last_of backslash q.trimmed)) [
          | inl e' ↦
              let none_out : ins.redirected_filename ≡ none = ground (arith, h, e, e') in
              absurd (ground (arith, none_out, out))
          | inr (last, e') ↦ elim (Option-cases (select_rules_for_path d q.trimmed)) [
            | inl e'' ↦
                let same : ins ≡ instruction_without_rules d q = ground (arith, h, e, e', e'') in
                absurd
                  (ground (arith, ap (λ n. n.redirected_filename) same, without_rules d q, out))
            | inr (c, e'') ↦ (last, c, e', e'', ground (arith, h, e, e', e''))
          ]
        ]
      ]

  pub make_query_end : (path : Text) → ends_with backslash (make_query path).trimmed ≡ false
  unfolding make_query
  make_query_end path =
      i.remove_trailing_end (drop (length (path_get_windows_namespace_prefix path)) path) backslash

  -- A file operation that is redirected goes to the target directory of one of the rules that are
  -- selected for the path, followed by what the path has below that rule's origin directory. The
  -- redirected file is the only one tried in simple mode and the first in overlay mode, where an
  -- existing file is preferred if a new one may be created. A new handle has the path's own name.
  pub redirection_sound :
      (is_directory : Text → Bool) (d : FilesystemDirector) (path : Text) (mode : FileAccessMode)
      (disposition : CreateDisposition) (ins : FileOperationInstruction) (t : Text)
      → get_instruction_for_file_operation is_directory d path mode disposition ≡ some ins
      → ins.redirected_filename ≡ some t
      → (c : RelatedFilesystemRuleContainer) × (r : FilesystemRule) × (select_rules_for_path d
            (make_query path).trimmed
          ≡ some c)
        × IsAmong r c.filesystem_rules
        × Redirects (make_query path) r t
        × (ins.filenames_to_try ≡ tries_for r.redirect_mode)
        × (ins.create_disposition_preference
            ≡ preference_for r.redirect_mode disposition.allows_create_new_file)
        × (ins.filename_handle_association ≡ AssociateNameWithHandle.unredirected)
  redirection_sound is_directory d path mode disposition ins t h out =
      let q = make_query path in
      let (last, c, found, selected, step) =
        get_split is_directory d path mode disposition ins t h out in
      let (any, s, first, selection, result) =
        with_rules_split is_directory d disposition q last c ins t step out in
      let (among, redirects) =
        selection-Redirects q last c any s found (make_query_end path) first selection in
      let (same, tries, preference, association) =
        subst (Follows disposition s) (sym result)
          (selection-Follows disposition s
            (extra_pre_operations_for is_directory d disposition q s))
          t out in
      (
        c,
        s.rule,
        selected,
        among,
        subst (Redirects q s.rule) (sym same) redirects,
        tries,
        preference,
        association,
      )
