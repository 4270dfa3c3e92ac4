-- ===== src/Infra/Defs.antt =====
-- What Pathwinder takes from outside the repository: Infra::Strings of the submodule
-- ThirdParty/Infra, with what its documentation says of each function, and the wildcard matcher
-- and the character tables of the system.
use pathwinder.Base.{
  ℕ, ◌≡◌, ◌↔◌, Bool, true, false, List, [], ◌∷◌, ◌++◌, map, take, length, replicate, none, Ordering,
  ◌==◌,
}
use pathwinder.Text.{Text, backslash, find_first_of, ends_with, non_empty, text_eq}

-- The delimiters of a filesystem path: PrefixTree's default.
abbrev pub path_delimiters : List Text
path_delimiters = (backslash ∷ []) ∷ []

-- The functions that the model calls.
pub record Functions : Type 0 where
  -- Infra::Strings::Tokenizer.
  pub tokenize : Text → List Text → List Text
  pub equals_case_insensitive : Text → Text → Bool
  pub starts_with_case_insensitive : Text → Text → Bool
  -- The sign of CompareCaseInsensitive.
  pub compare_case_insensitive : Text → Text → Ordering
  pub remove_trailing : Text → ℕ → Text
  -- RtlIsNameInExpression, of an upper-case pattern and a name.
  pub is_name_in_expression : Text → Text → Bool
  -- std::towupper, std::iswalpha and std::iswprint: the tables are the process's locale.
  pub to_upper : ℕ → ℕ
  pub is_alpha : ℕ → Bool
  pub is_print : ℕ → Bool

-- Their documented behaviour.
pub record IsLawful (f : Functions) : Type 0 where
  -- The case that comparisons ignore, character by character. A backslash has none.
  pub fold : ℕ → ℕ
  pub fold_backslash : (c : ℕ) → (fold c == backslash) ≡ (c == backslash)
  pub equals_fold : (a b : Text) → f.equals_case_insensitive a b ≡ text_eq (map fold a) (map fold b)
  pub starts_with_equals :
      (s p : Text)
      → f.starts_with_case_insensitive s p ≡ f.equals_case_insensitive (take (length p) s) p
  pub compare_eq_iff :
      (a b : Text)
      → (f.compare_case_insensitive a b ≡ Ordering.eq) ↔ (f.equals_case_insensitive a b ≡ true)
  pub compare_lt_iff :
      (a b : Text)
      → (f.compare_case_insensitive a b ≡ Ordering.lt)
        ↔ (f.compare_case_insensitive b a ≡ Ordering.gt)
  pub compare_lt_trans :
      (a b c : Text)
      → f.compare_case_insensitive a b ≡ Ordering.lt
      → f.compare_case_insensitive b c ≡ Ordering.lt
      → f.compare_case_insensitive a c ≡ Ordering.lt
  -- The tokens, the empty ones apart, of a path.
  pub tokens_nil : non_empty (f.tokenize [] path_delimiters) ≡ []
  pub tokens_word :
      (c : ℕ) (w : Text)
      → find_first_of backslash (c ∷ w) ≡ none
      → non_empty (f.tokenize (c ∷ w) path_delimiters) ≡ (c ∷ w) ∷ []
  pub tokens_append :
      (a b : Text)
      → non_empty (f.tokenize (a ++ (backslash ∷ b)) path_delimiters)
        ≡ non_empty (f.tokenize a path_delimiters) ++ non_empty (f.tokenize b path_delimiters)
  -- RemoveTrailing takes away all of the trailing characters, and nothing else.
  pub remove_trailing_split :
      (s : Text) (c : ℕ) → (n : ℕ) × (s ≡ f.remove_trailing s c ++ replicate n c)
  pub remove_trailing_end : (s : Text) (c : ℕ) → ends_with c (f.remove_trailing s c) ≡ false

pub record Infra : Type 0 where
  pub functions : Functions
  pub open functions use *
  pub lawful : IsLawful functions
  pub open lawful use *
