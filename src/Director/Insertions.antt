-- ===== src/Director/Insertions.antt =====
-- The directory names that an enumeration inserts: their order, and the rules they are taken from.
use mathlib.Core.List.{Perm}
use mathlib.Core.List.Perm
use pathwinder.Base.{ℕ, ◌<◌, ◌≡◌, Bool, true, false, List, [], ◌∷◌, some, get_elem?}
use pathwinder.Text.{Text}
use pathwinder.Infra.{Infra}
use pathwinder.Rule.{FilesystemRule}
use pathwinder.RuleContainer.{is_lt}
use pathwinder.Instruction.{SingleDirectoryNameInsertion, file_name_to_insert}

module _ ⦃i : Infra⦄ where
  abbrev name_less : SingleDirectoryNameInsertion → SingleDirectoryNameInsertion → Bool
  name_less a b = is_lt (i.compare_case_insensitive (file_name_to_insert a) (file_name_to_insert b))

  -- No name is less than the one before it.
  abbrev pub AreSorted : List SingleDirectoryNameInsertion → Type 0
  AreSorted [] = Unit
  AreSorted (a ∷ []) = Unit
  AreSorted (a ∷ b ∷ ns) = (name_less b a ≡ false) × AreSorted (b ∷ ns)

-- The rule at some position has its target directory, and the ones before it do not.
abbrev pub IsFirstPresent : (Text → Bool) → List FilesystemRule → FilesystemRule → Type 0
IsFirstPresent is_directory rs r =
    (k : ℕ) × (get_elem? rs k ≡ some r)
    × (is_directory r.target_directory_full_path ≡ true)
    × ((j : ℕ) (x : FilesystemRule)
        → j < k
        → get_elem? rs j ≡ some x
        → is_directory x.target_directory_full_path ≡ false)
