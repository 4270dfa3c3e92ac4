-- ===== src/Director/Preparation.antt =====
-- GetInstructionForFileOperation: the directories that an executor is told to create on the target
-- side before it tries a file.
use pathwinder.Base.{
  ℕ, ◌+◌, refl, if◌then◌else◌, ◌≡◌, sym, ap, subst, ◌∙◌, inl, inr, ◌⊎◌, Bool, true, false, List, [],
  ◌∷◌, ◌++◌, none, some, length, take, drop, replicate, arith, Bool-cases, Option-cases,
  append_assoc, take-append,
}
use mathlib.Core.Bool.{◌||◌}
use pathwinder.Text.{Text, backslash, find_last_of}
use pathwinder.Text.Search.{find_last_of-append}
use pathwinder.Strings.Trailing.{remove_trailing-append}
use pathwinder.Strings.Paths.{ends_with_component, take_all}
use pathwinder.Infra.{Infra}
use pathwinder.Rule.{
  FilesystemRule, redirect_path_origin_to_target, directory_compare, directory_compare_with_origin,
}
use pathwinder.Rule.Compare.{equals_length}
use pathwinder.RuleContainer.{RelatedFilesystemRuleContainer, any_rule}
use pathwinder.Instruction.{
  FileOperationInstruction, ExtraPreOperation, ensure_path_hierarchy_exists,
  no_redirection_or_interception, simple_redirect_to, overlay_redirect_to,
}
use pathwinder.Director.{
  FilesystemDirector, CreateDisposition, FileAccessMode, has_rule_with_origin_directory, is_equal,
  select_rules_for_path,
}
use pathwinder.Director.FileOperation.{
  Query, make_query, Selection, hierarchy_of, extra_pre_operations_for, instruction_for_selection,
  select_for_origin, select_among, select_redirection, first_redirection,
  get_instruction_for_file_operation,
}
use pathwinder.Director.Redirection.{get_split, with_rules_split}

module _ ⦃i : Infra⦄ where
  -- The hierarchy to create for a file that may be created is the directory that holds it, whatever
  -- number of backslashes the file's path ends with. The file's name has no backslash.
  pub hierarchy_of_lem :
      (base : Text) (c : ℕ) (name : Text) (n : ℕ)
      → find_last_of backslash (c ∷ name) ≡ none
      → hierarchy_of ((base ++ (backslash ∷ c ∷ name)) ++ replicate n backslash)
        ≡ i.remove_trailing base backslash
  unfolding hierarchy_of
  hierarchy_of_lem base c name n plain =
      let u = base ++ (backslash ∷ c ∷ name) in
      let whole = u ++ replicate n backslash in
      let trimmed : i.remove_trailing whole backslash ≡ u =
        remove_trailing-append u n (ends_with_component base c name plain) in
      let at =
        ap (find_last_of backslash) trimmed ∙ find_last_of-append backslash base (c ∷ name) plain in
      let cut : take (length base) whole ≡ base =
        ap (take (length base)) (append_assoc base (backslash ∷ c ∷ name) (replicate n backslash))
        ∙ take-append base (backslash ∷ c ∷ name ++ replicate n backslash) in
      rw (hierarchy_of, at) (ap (λ v. i.remove_trailing v backslash) cut)

  -- Where the directory part of a path ends: behind the whole path if it is the origin directory of
  -- the rules that are selected for it, else at its last backslash.
  abbrev pub EndsAt : Query → RelatedFilesystemRuleContainer → ℕ → Type 0
  EndsAt q c n =
      (any : FilesystemRule) × (rs : List FilesystemRule) × (c.filesystem_rules ≡ any ∷ rs)
      × (((i.equals_case_insensitive q.trimmed any.origin_directory_full_path ≡ true)
            × (n ≡ length q.trimmed))
          ⊎ ((i.equals_case_insensitive q.trimmed any.origin_directory_full_path ≡ false)
              × (find_last_of backslash q.trimmed ≡ some n)))

  abbrev IsCut : Query → RelatedFilesystemRuleContainer → Selection → Type 0
  IsCut q c s =
      (n : ℕ) × EndsAt q c n
      × (s.directory_part ≡ take n q.trimmed)
      × (s.directory_part_with_windows_namespace_prefix
          ≡ take (length q.windows_namespace_prefix + n) q.path)

  first_rule :
      (c : RelatedFilesystemRuleContainer) (any : FilesystemRule)
      → any_rule c ≡ some any
      → (rs : List FilesystemRule) × (c.filesystem_rules ≡ any ∷ rs)
  unfolding any_rule
  first_rule c any h = head_of c.filesystem_rules (ground (arith, h))
    where
      head_of :
          (xs : List FilesystemRule)
          → (elim xs [ [] ↦ none | r ∷ rs ↦ some r ]) ≡ some any
          → (rs : List FilesystemRule) × (xs ≡ any ∷ rs)
      head_of [] e = absurd (ground (arith, e))
      head_of (r ∷ rs) e = (rs, ground (arith, e))

  equal_iff :
      (r : FilesystemRule) (p : Text)
      → is_equal (directory_compare_with_origin r p)
        ≡ i.equals_case_insensitive p r.origin_directory_full_path
  unfolding directory_compare_with_origin directory_compare
  equal_iff r p = elim (Bool-cases (i.equals_case_insensitive p r.origin_directory_full_path)) [
    | inl same ↦ ground (arith, same, equals_length p r.origin_directory_full_path same)
    | inr other ↦ ground (arith, other)
  ]

  selection-IsCut :
      (q : Query) (last : ℕ) (c : RelatedFilesystemRuleContainer) (any : FilesystemRule)
      (s : Selection)
      → find_last_of backslash q.trimmed ≡ some last
      → any_rule c ≡ some any
      → select_redirection q last c any ≡ some s
      → IsCut q c s
  unfolding select_redirection select_for_origin select_among
  selection-IsCut q last c any s found first h =
      let (rs, rules) = first_rule c any first in
      elim (Bool-cases (is_equal (directory_compare_with_origin any q.trimmed))) [
        | inl here ↦
            elim (Option-cases (
              redirect_path_origin_to_target any q.trimmed [] q.windows_namespace_prefix
                q.extra_suffix)) [
                  | inl e ↦ absurd (ground (arith, h, here, e))
                  | inr (t, e) ↦ (
                    length q.trimmed,
                    (any, rs, rules, inl (sym (equal_iff any q.trimmed) ∙ here, refl)),
                    ground (arith, h, here, e, take_all q.trimmed),
                    ground (arith, h, here, e),
                  )
                ]
        | inr below ↦
            elim (Option-cases (
              first_redirection c.filesystem_rules (take last q.trimmed) (drop (1 + last) q.trimmed)
                q.windows_namespace_prefix q.extra_suffix)) [
                  | inl e ↦ absurd (ground (arith, h, below, e))
                  | inr ((r, t), e) ↦ (
                    last,
                    (any, rs, rules, inr (sym (equal_iff any q.trimmed) ∙ below, found)),
                    ground (arith, h, below, e),
                    ground (arith, h, below, e),
                  )
                ]
      ]

  -- The preparation of a redirected path below `base`, by the container of rules of the path. If a
  -- file may be created, the directory part is asked for: it is there if it is a directory, or the
  -- origin directory of a rule. If not, the path itself is asked for. What is there on the origin
  -- side makes one hierarchy to create, and what is not makes none.
  abbrev pub Prepares :
      (Text → Bool)
      → FilesystemDirector
      → CreateDisposition
      → Query
      → RelatedFilesystemRuleContainer
      → Text
      → Text
      → List ExtraPreOperation
      → Text
      → Type 0
  Prepares is_directory d disposition q c base t operations operand =
      (n : ℕ) × EndsAt q c n
      × (let there =
            if disposition.allows_create_new_file
            then has_rule_with_origin_directory d (take n q.trimmed)
              || is_directory (take (length q.windows_namespace_prefix + n) q.path)
            else is_directory q.trimmed in
          let hierarchy =
            if disposition.allows_create_new_file
            then i.remove_trailing base backslash
            else i.remove_trailing t backslash in
          (operations ≡ (if there then ensure_path_hierarchy_exists ∷ [] else []))
          × (operand ≡ (if there then hierarchy else [])))

  operations-Prepares :
      (is_directory : Text → Bool) (d : FilesystemDirector) (disposition : CreateDisposition)
      (q : Query) (c : RelatedFilesystemRuleContainer) (s : Selection) (base : Text)
      → hierarchy_of s.redirected ≡ i.remove_trailing base backslash
      → IsCut q c s
      → Prepares is_directory d disposition q c base s.redirected
          (extra_pre_operations_for is_directory d disposition q s).0
          (extra_pre_operations_for is_directory d disposition q s).1
  unfolding extra_pre_operations_for
  operations-Prepares is_directory d disposition q c s base parent (n, ends, part, prefixed) = (
    n,
    ends,
    (
      ground (arith, ap (has_rule_with_origin_directory d) part, ap is_directory prefixed),
      ground (arith, parent, ap (has_rule_with_origin_directory d) part, ap is_directory prefixed),
    ),
  )

  selection_operations :
      (disposition : CreateDisposition) (s : Selection) (operations : List ExtraPreOperation × Text)
      (t : Text)
      → (instruction_for_selection disposition s operations).redirected_filename ≡ some t
      → (t ≡ s.redirected)
        × ((instruction_for_selection disposition s operations).extra_pre_operations ≡ operations.0)
        × ((instruction_for_selection disposition s operations).extra_pre_operation_operand
            ≡ operations.1)
  unfolding instruction_for_selection overlay_redirect_to simple_redirect_to
      no_redirection_or_interception
  selection_operations disposition s operations t h =
      (ground (arith, h), ground (arith, h), ground (arith, h))

  -- A redirected file operation is told to create one hierarchy of directories exactly if what it
  -- stands for is there on the origin side. If a file may be created, that is the directory part of
  -- the path, which is the whole path if it is an origin directory and else ends at the last
  -- backslash; it is there as a directory or as the origin directory of a rule, and the hierarchy is
  -- the one down to the directory that holds the redirected path. If no file may be created, it is
  -- the path itself, as a directory, and the hierarchy is the one down to the redirected path. The
  -- redirected path is some text, a backslash, a name without one, and any number of backslashes.
  pub preparation_safe :
      (is_directory : Text → Bool) (d : FilesystemDirector) (path : Text) (mode : FileAccessMode)
      (disposition : CreateDisposition) (ins : FileOperationInstruction) (base : Text) (x : ℕ)
      (name : Text) (k : ℕ)
      → let t = (base ++ (backslash ∷ x ∷ name)) ++ replicate k backslash in
        find_last_of backslash (x ∷ name) ≡ none
        → get_instruction_for_file_operation is_directory d path mode disposition ≡ some ins
        → ins.redirected_filename ≡ some t
        → (c : RelatedFilesystemRuleContainer) × (select_rules_for_path d (make_query path).trimmed
            ≡ some c)
          × Prepares is_directory d disposition
              (make_query path)
              c
              base
              t
              ins.extra_pre_operations
              ins.extra_pre_operation_operand
  preparation_safe is_directory d path mode disposition ins base x name k plain h out =
      let t = (base ++ (backslash ∷ x ∷ name)) ++ replicate k backslash in
      let q = make_query path in
      let (last, c, found, selected, step) =
        get_split is_directory d path mode disposition ins t h out in
      let (any, s, first, selection, result) =
        with_rules_split is_directory d disposition q last c ins t step out in
      let operations = extra_pre_operations_for is_directory d disposition q s in
      let (same, list, operand) =
        selection_operations disposition s operations t
          (ap (λ n. n.redirected_filename) (sym result) ∙ out) in
      let parent : hierarchy_of s.redirected ≡ i.remove_trailing base backslash =
        ap hierarchy_of (sym same) ∙ hierarchy_of_lem base x name k plain in
      let prepared =
        operations-Prepares is_directory d disposition q c s base parent
          (selection-IsCut q last c any s found first selection) in
      (
        c,
        selected,
        subst
            (λ u.
              Prepares is_directory d disposition q c base u ins.extra_pre_operations
                ins.extra_pre_operation_operand)
            (sym same)
            (subst
              (λ u.
                Prepares is_directory d disposition q c base s.redirected u
                  ins.extra_pre_operation_operand)
              (sym (ap (λ n. n.extra_pre_operations) result ∙ list))
              (subst (λ u. Prepares is_directory d disposition q c base s.redirected operations.0 u)
                (sym (ap (λ n. n.extra_pre_operation_operand) result ∙ operand)) prepared)),
      )
