-- ===== src/Examples/Insertions.antt =====
-- The directory names that an enumeration inserts: instances of the theorems on them.
use pathwinder.Base.{Bool, List, [], ◌∷◌}
use pathwinder.Text.{Text, text_eq}
use pathwinder.Instruction.{SingleDirectoryNameInsertion}
use pathwinder.Examples.Data.{text, text_rule, overlay_rule}

-- The names g and a, out of order.
abbrev two_names : List SingleDirectoryNameInsertion
two_names =
    record { filesystem_rule = text_rule }
    ∷ record { filesystem_rule = record overlay_rule { origin_directory_full_path = text "C:\\a" } }
    ∷ []

-- Only D:\o is there.
abbrev is_overlay_target : Text → Bool
is_overlay_target s = text_eq s (text "D:\\o")
