-- ===== src/Infra/Ascii.antt =====
-- An implementation of the interface, for texts in which the letters A to Z have a lower case. It
-- shows that the documented behaviour can be met, and runs in the tests.
use pathwinder.Base.{
  ℕ, zero, suc, ◌+◌, ◌-◌, ◌≡◌, ◌↔◌, refl, ap, ◌∙◌, inl, inr, Bool, true, false, ◌&&◌, ◌||◌, List,
  [], ◌∷◌, ◌++◌, map, take, length, replicate, none, Ordering, compare, ◌==◌, leb, if◌then◌else◌,
  is_empty, arith, Bool-cases,
}
use pathwinder.Text.{Text, backslash, find_first_of, ends_with, non_empty, text_eq}
use pathwinder.Text.Search.{find_first_of-none, is_empty_nil}
use pathwinder.Infra.Defs.{Functions, IsLawful, Infra, path_delimiters}

fold_ascii : ℕ → ℕ
fold_ascii c = if leb 65 c && leb c 90 then c + 32 else c

fold_ascii-backslash : (c : ℕ) → (fold_ascii c == backslash) ≡ (c == backslash)
unfolding fold_ascii
fold_ascii-backslash c = ground arith

is_delimiter : List Text → ℕ → Bool
unfolding text_eq
is_delimiter [] c = false
is_delimiter (d ∷ ds) c = text_eq d (c ∷ []) || is_delimiter ds c

cons_head : ℕ → List Text → List Text
cons_head c [] = (c ∷ []) ∷ []
cons_head c (t ∷ ts) = (c ∷ t) ∷ ts

split : List Text → Text → List Text
unfolding is_delimiter cons_head
split ds [] = [] ∷ []
split ds (c ∷ s) = if is_delimiter ds c then [] ∷ split ds s else cons_head c (split ds s)

strip : Text → ℕ → Text
strip [] c = []
strip (x ∷ xs) c = if is_empty (strip xs c) && x == c then [] else x ∷ strip xs c

lexicographic : Text → Text → Ordering
lexicographic [] [] = Ordering.eq
lexicographic [] (y ∷ ys) = Ordering.lt
lexicographic (x ∷ xs) [] = Ordering.gt
lexicographic (x ∷ xs) (y ∷ ys) = elim (compare x y) [
  | Ordering.lt ↦ Ordering.lt
  | Ordering.gt ↦ Ordering.gt
  | Ordering.eq ↦ lexicographic xs ys
]

-- The wildcards * and ?, on an upper-case pattern.
matches : ℕ → Text → Text → Bool
matches zero p s = false
matches (suc f) [] s = is_empty s
matches (suc f) (p ∷ ps) [] = let rest = matches f ps [] in if p == b'*' then rest else false
matches (suc f) (p ∷ ps) (c ∷ s) =
    let skip = matches f ps (c ∷ s) in
    let stay = matches f (p ∷ ps) s in
    let next = matches f ps s in
    if p == b'*'
    then (if skip then true else stay)
    else (if p == b'?' || fold_ascii p == fold_ascii c then next else false)

unfoldable pub ascii_functions : Functions
unfolding split strip lexicographic matches fold_ascii text_eq
ascii_functions = record {
  tokenize = λ s ds. split ds s;
  equals_case_insensitive = λ a b. text_eq (map fold_ascii a) (map fold_ascii b);
  starts_with_case_insensitive =
      λ s p. text_eq (map fold_ascii (take (length p) s)) (map fold_ascii p);
  compare_case_insensitive = λ a b. lexicographic (map fold_ascii a) (map fold_ascii b);
  remove_trailing = strip;
  is_name_in_expression = λ p s. matches (suc (length p + length s)) p s;
  to_upper = λ c. if leb 97 c && leb c 122 then c - 32 else c;
  is_alpha = λ c. (leb 65 c && leb c 90) || (leb 97 c && leb c 122);
  is_print = λ c. leb 32 c && leb c 126;
}

split_shape : (ds : List Text) (s : Text) → (t : Text) × (ts : List Text) × (split ds s ≡ t ∷ ts)
unfolding split
split_shape ds [] = ([], [], refl)
split_shape ds (c ∷ s) = elim (Bool-cases (is_delimiter ds c)) [
  | inl h ↦ ([], split ds s, rw h)
  | inr h ↦ let (t, ts, e) = split_shape ds s in (c ∷ t, ts, rw (h, e))
]

split-append :
    (a b : Text)
    → split path_delimiters (a ++ (backslash ∷ b))
      ≡ split path_delimiters a ++ split path_delimiters b
unfolding split is_delimiter text_eq
split-append [] b = refl
split-append (c ∷ a) b =
    let (t, ts, e) = split_shape path_delimiters a in
    elim (Bool-cases (is_delimiter path_delimiters c)) [
      | inl h ↦ rw (h, split-append a b)
      | inr h ↦ rw (h, split-append a b, e)
    ]

split_word : (w : Text) → find_first_of backslash w ≡ none → split path_delimiters w ≡ w ∷ []
unfolding split is_delimiter find_first_of text_eq
split_word [] h = refl
split_word (c ∷ w) h =
    let (other, rest) = find_first_of-none backslash c w h in
    ground (arith, other, split_word w rest)

non_empty-append : (a b : List Text) → non_empty (a ++ b) ≡ non_empty a ++ non_empty b
unfolding non_empty
non_empty-append [] b = refl
non_empty-append (t ∷ a) b = ground (arith, non_empty-append a b)

strip_split : (s : Text) (c : ℕ) → (n : ℕ) × (s ≡ strip s c ++ replicate n c)
unfolding strip
strip_split [] c = (0, refl)
strip_split (x ∷ xs) c =
    let (n, h) = strip_split xs c in
    elim (Bool-cases (is_empty (strip xs c) && x == c)) [
      | inl e ↦
          let gone : strip xs c ≡ [] = is_empty_nil (strip xs c) (ground (arith, e)) in
          let same : x ≡ c = ground (arith, e) in
          let rest : xs ≡ replicate n c = h ∙ ap (λ t. t ++ replicate n c) gone in
          (suc n, rw e (cc (same, rest)))
      | inr e ↦ (n, rw e (ap (◌∷◌ x) h))
    ]

strip_end : (s : Text) (c : ℕ) → ends_with c (strip s c) ≡ false
unfolding strip ends_with
strip_end [] c = refl
strip_end (x ∷ xs) c = ground (arith, strip_end xs c)

lexicographic-eq : (a b : Text) → (lexicographic a b ≡ Ordering.eq) ↔ (text_eq a b ≡ true)
unfolding lexicographic text_eq
lexicographic-eq [] [] = (λ h. refl, λ h. refl)
lexicographic-eq [] (y ∷ b) = (λ h. cc, λ h. cc)
lexicographic-eq (x ∷ a) [] = (λ h. cc, λ h. cc)
lexicographic-eq (x ∷ a) (y ∷ b) =
    let (l, r) = lexicographic-eq a b in (λ h. ground (arith, l, h), λ h. ground (arith, r, h))

lexicographic-lt :
    (a b : Text) → (lexicographic a b ≡ Ordering.lt) ↔ (lexicographic b a ≡ Ordering.gt)
unfolding lexicographic
lexicographic-lt [] [] = (λ h. cc, λ h. cc)
lexicographic-lt [] (y ∷ b) = (λ h. refl, λ h. refl)
lexicographic-lt (x ∷ a) [] = (λ h. cc, λ h. cc)
lexicographic-lt (x ∷ a) (y ∷ b) =
    let (l, r) = lexicographic-lt a b in (λ h. ground (arith, l, h), λ h. ground (arith, r, h))

lexicographic_trans :
    (a b c : Text)
    → lexicographic a b ≡ Ordering.lt
    → lexicographic b c ≡ Ordering.lt
    → lexicographic a c ≡ Ordering.lt
unfolding lexicographic
lexicographic_trans [] [] c h k = cc
lexicographic_trans [] (y ∷ b) [] h k = cc
lexicographic_trans [] (y ∷ b) (z ∷ c) h k = refl
lexicographic_trans (x ∷ a) [] c h k = cc
lexicographic_trans (x ∷ a) (y ∷ b) [] h k = cc
lexicographic_trans (x ∷ a) (y ∷ b) (z ∷ c) h k = ground (arith, lexicographic_trans a b c)

pub ascii-IsLawful : IsLawful ascii_functions
unfolding ascii_functions
ascii-IsLawful = record {
  fold = fold_ascii;
  fold_backslash = fold_ascii-backslash;
  equals_fold = λ a b. refl;
  starts_with_equals = λ s p. refl;
  compare_eq_iff = λ a b. lexicographic-eq (map fold_ascii a) (map fold_ascii b);
  compare_lt_iff = λ a b. lexicographic-lt (map fold_ascii a) (map fold_ascii b);
  compare_lt_trans =
      λ a b c. lexicographic_trans (map fold_ascii a) (map fold_ascii b) (map fold_ascii c);
  tokens_nil = unfold non_empty in refl;
  tokens_word = λ c w h. ap non_empty (split_word (c ∷ w) h) ∙ unfold non_empty in refl;
  tokens_append = λ a b. ap non_empty (split-append a b) ∙ non_empty-append _ _;
  remove_trailing_split = strip_split;
  remove_trailing_end = strip_end;
}

instance unfoldable pub ascii : Infra
unfolding ascii_functions
ascii = record { functions = ascii_functions; lawful = ascii-IsLawful }
