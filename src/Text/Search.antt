-- ===== src/Text/Search.antt =====
-- Laws of the searches in a text.
use pathwinder.Base.{
  ℕ, suc, ◌≡◌, refl, sym, ap, ◌∙◌, inl, inr, ◌↔◌, true, false, [], ◌∷◌, ◌++◌, none, some, ◌==◌,
  is_empty, take, drop, length, arith, Bool-cases, Option-cases,
}
use pathwinder.Text.{Text, find_first_of, find_last_of, ends_with, text_eq}

pub is_empty_nil : (s : Text) → is_empty s ≡ true → s ≡ []
is_empty_nil [] h = refl
is_empty_nil (c ∷ s) h = cc

pub find_first_of-none :
    (b c : ℕ) (w : Text)
    → find_first_of b (c ∷ w) ≡ none
    → ((c == b) ≡ false) × (find_first_of b w ≡ none)
unfolding find_first_of
find_first_of-none b c w h = elim (Bool-cases (c == b)) [
  | inl e ↦ absurd (ground (arith, e, h))
  | inr e ↦ elim (Option-cases (find_first_of b w)) [
    | inl o ↦ (e, o)
    | inr (i, o) ↦ absurd (ground (arith, e, h, o))
  ]
]

pub text_eq_refl : (a : Text) → text_eq a a ≡ true
unfolding text_eq
text_eq_refl [] = refl
text_eq_refl (x ∷ a) = ground (arith, text_eq_refl a)

text_eq_eq : (a b : Text) → text_eq a b ≡ true → a ≡ b
unfolding text_eq
text_eq_eq [] [] h = refl
text_eq_eq [] (y ∷ b) h = cc
text_eq_eq (x ∷ a) [] h = cc
text_eq_eq (x ∷ a) (y ∷ b) h = ground (arith, text_eq_eq a b, h)

pub text_eq_iff : (a b : Text) → (text_eq a b ≡ true) ↔ (a ≡ b)
text_eq_iff a b = (text_eq_eq a b, λ h. ap (text_eq a) (sym h) ∙ text_eq_refl a)

-- The last occurrence of a character cuts a text in two, the second part being without it.
pub find_last_of_split :
    (c : ℕ) (s : Text) (n : ℕ)
    → find_last_of c s ≡ some n
    → (s ≡ take n s ++ (c ∷ drop (suc n) s)) × (find_last_of c (drop (suc n) s) ≡ none)
unfolding find_last_of
find_last_of_split c [] n h = cc
find_last_of_split c (x ∷ s) n h = elim (Option-cases (find_last_of c s)) [
  | inl none_later ↦ elim (Bool-cases (x == c)) [
    | inl here ↦ (ground (arith, h, none_later, here), ground (arith, h, none_later, here))
    | inr there ↦ absurd (ground (arith, h, none_later, there))
  ]
  | inr (m, later) ↦
      let (split, rest) = find_last_of_split c s m later in
      let at : n ≡ suc m = ground (arith, h, later) in rw at (ap (◌∷◌ x) split, rest)
]

pub find_last_of-append :
    (c : ℕ) (a b : Text) → find_last_of c b ≡ none → find_last_of c (a ++ (c ∷ b)) ≡ some (length a)
unfolding find_last_of
find_last_of-append c [] b h = ground (arith, h)
find_last_of-append c (x ∷ a) b h = ground (arith, find_last_of-append c a b h)

pub ends_with-append :
    (c : ℕ) (a : Text) (x : ℕ) (b : Text) → ends_with c (a ++ (x ∷ b)) ≡ ends_with c (x ∷ b)
unfolding ends_with
ends_with-append c [] x b = refl
ends_with-append c (y ∷ []) x b = refl
ends_with-append c (y ∷ z ∷ a) x b = ends_with-append c (z ∷ a) x b

-- A text without a character does not end with it.
pub ends_with-none : (c : ℕ) (s : Text) → find_last_of c s ≡ none → ends_with c s ≡ false
unfolding find_last_of ends_with
ends_with-none c [] h = refl
ends_with-none c (x ∷ []) h = ground (arith, h)
ends_with-none c (x ∷ y ∷ s) h = elim (Option-cases (find_last_of c (y ∷ s))) [
  | inl o ↦ ends_with-none c (y ∷ s) o
  | inr (m, o) ↦ absurd (ground (arith, h, o))
]
