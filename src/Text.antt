-- ===== src/Text.antt =====
-- std::wstring_view, as the list of its characters' codes, and those of its members that
-- Pathwinder calls. A position that is not found (npos) is `none`.
pub mod Search
use mathlib.Core.Option
use pathwinder.Base.{
  ℕ, zero, suc, ◌≡◌, refl, Bool, true, false, ◌&&◌, ◌||◌, List, [], ◌∷◌, ◌++◌, none, some, ◌==◌,
  if◌then◌else◌, is_some, is_empty, take, length, arith,
}
use pathwinder.Base.{Option as Maybe}

abbrev pub Text : Type 0
Text = List ℕ

-- L'\\'
abbrev pub backslash : ℕ
backslash = 0x5c

-- find_first_of, for one character.
unfoldable pub find_first_of : ℕ → Text → Maybe ℕ
find_first_of c [] = none
find_first_of c (x ∷ xs) = if x == c then some 0 else Option.map suc (find_first_of c xs)

-- find_last_of, for one character.
unfoldable pub find_last_of : ℕ → Text → Maybe ℕ
find_last_of c [] = none
find_last_of c (x ∷ xs) = elim (find_last_of c xs) [
  | some i ↦ some (suc i)
  | none ↦ if x == c then some 0 else none
]

-- find_first_not_of, for one character.
unfoldable pub find_first_not_of : ℕ → Text → Maybe ℕ
find_first_not_of c [] = none
find_first_not_of c (x ∷ xs) = if x == c then Option.map suc (find_first_not_of c xs) else some 0

unfoldable pub contains : ℕ → Text → Bool
unfolding find_first_of
contains c s = is_some (find_first_of c s)

unfoldable pub ends_with : ℕ → Text → Bool
ends_with c [] = false
ends_with c (x ∷ xs) = if is_empty xs then x == c else ends_with c xs

-- Equality of two views.
unfoldable pub text_eq : Text → Text → Bool
text_eq [] [] = true
text_eq (x ∷ xs) (y ∷ ys) = x == y && text_eq xs ys
text_eq _ _ = false

unfoldable pub starts_with : Text → Text → Bool
unfolding text_eq
starts_with s p = text_eq (take (length p) s) p

-- The tokens that a loop with `if (token.empty()) continue;` works on.
unfoldable pub non_empty : List Text → List Text
non_empty [] = []
non_empty (t ∷ ts) = if is_empty t then non_empty ts else t ∷ non_empty ts
