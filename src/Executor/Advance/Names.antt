-- ===== src/Executor/Advance/Names.antt =====
-- The names and the bytes of the structures that an enumeration gives.
use pathwinder.Base.{
  ℕ, ◌+◌, ◌≤◌, ◌≡◌, refl, false, List, [], ◌∷◌, if◌then◌else◌, length, arith, Bool-cases, inl, inr,
}
use pathwinder.Text.{Text}
use pathwinder.Infra.{Infra}
use pathwinder.FileInformation.{Bytes, FileInformationStructLayout}
use pathwinder.FileInformation.Copies.{IsWhole, total}
use pathwinder.Queue.{FileInformation}
use pathwinder.Executor.Advance.{is_enumerated}

-- The names that were given, with those of a list.
abbrev pub names_with : List Text → List FileInformation → List Text
names_with names [] = names
names_with names (x ∷ xs) = names_with (x.file_name ∷ names) xs

-- The bytes of the structures of a list.
abbrev pub total_size : List FileInformation → ℕ
total_size [] = 0
total_size (x ∷ xs) = length x.structure + total_size xs

module _ ⦃i : Infra⦄ where
  -- The structures whose names were not given before, nor stand earlier in the list.
  unfoldable pub unique : List Text → List FileInformation → List FileInformation
  unique names [] = []
  unique names (x ∷ xs) =
      if is_enumerated names x.file_name
      then unique names xs
      else x ∷ unique (x.file_name ∷ names) xs

  unfoldable pub drop_enumerated : List Text → List FileInformation → List FileInformation
  drop_enumerated names [] = []
  drop_enumerated names (x ∷ xs) =
      if is_enumerated names x.file_name then drop_enumerated names xs else x ∷ xs

  -- The first name was not given before.
  abbrev pub IsFresh : List Text → List FileInformation → Type 0
  IsFresh names [] = Unit
  IsFresh names (x ∷ xs) = is_enumerated names x.file_name ≡ false

  pub unique-drop :
      (names : List Text) (xs : List FileInformation)
      → unique names (drop_enumerated names xs) ≡ unique names xs
  unfolding unique drop_enumerated
  unique-drop names [] = refl
  unique-drop names (x ∷ xs) = elim (Bool-cases (is_enumerated names x.file_name)) [
    | inl seen ↦ rw seen (unique-drop names xs)
    | inr new ↦ rw new (rw new refl)
  ]

  pub drop-IsFresh :
      (names : List Text) (xs : List FileInformation) → IsFresh names (drop_enumerated names xs)
  unfolding drop_enumerated
  drop-IsFresh names [] = tt
  drop-IsFresh names (x ∷ xs) = elim (Bool-cases (is_enumerated names x.file_name)) [
    | inl seen ↦ rw seen (drop-IsFresh names xs)
    | inr new ↦ rw new new
  ]

  pub drop-length-le :
      (names : List Text) (xs : List FileInformation)
      → length (drop_enumerated names xs) ≤ length xs
  unfolding drop_enumerated
  drop-length-le names [] = omega arith
  drop-length-le names (x ∷ xs) = ground (arith, drop-length-le names xs)

-- The bytes of each structure.
abbrev pub structures : List FileInformation → List Bytes
structures [] = []
structures (x ∷ xs) = x.structure ∷ structures xs

module _ (l : FileInformationStructLayout) where
  abbrev pub AreWhole : List FileInformation → Type 0
  AreWhole [] = Unit
  AreWhole (x ∷ xs) = IsWhole l x.structure × AreWhole xs

  pub total_size-total : (xs : List FileInformation) → total_size xs ≡ total l (structures xs)
  total_size-total [] = refl
  total_size-total (x ∷ xs) = omega (arith, total_size-total xs)

  pub drop_enumerated-AreWhole :
      ⦃i : Infra⦄ (names : List Text) (xs : List FileInformation)
      → AreWhole xs
      → AreWhole (drop_enumerated names xs)
  unfolding drop_enumerated
  drop_enumerated-AreWhole names [] whole = tt
  drop_enumerated-AreWhole names (x ∷ xs) whole =
      elim (Bool-cases (is_enumerated names x.file_name)) [
        | inl seen ↦ rw seen (drop_enumerated-AreWhole names xs whole.1)
        | inr new ↦ rw new whole
      ]
