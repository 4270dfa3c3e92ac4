-- ===== src/Executor/Rename/Outcome.antt =====
-- What RenameByHandle returns, and what it leaves in the system and in the store of open handles.
use pathwinder.Base.{ℕ, ◌≡◌, false, Option, some, is_empty, List, ◌&&◌, ◌==◌, if◌then◌else◌}
use pathwinder.Text.{Text, backslash}
use pathwinder.Infra.{Infra}
use pathwinder.Windows.{nt_success}
use pathwinder.Instruction.{ExtraPreOperation}
use pathwinder.OpenHandleStore.{HandleData, OpenHandleStore, get_data_for_handle}
use pathwinder.OpenHandleStore.Laws.{updated}
use pathwinder.Executor.{System, InstructionSource}
use pathwinder.Executor.Rename.{FileRenameInformation, RenameCall, unredirected_target}

module _ {World Queue Layout : Type 0} ⦃infra : Infra⦄ (invoke : RenameCall World) (h : ℕ)
    (s : OpenHandleStore Queue Layout) (system : System World)
    (query_absolute_path : ℕ → Option Text) (freed : ℕ → ℕ) (w w' : World)
    (prepared given_length : ℕ) (information : FileRenameInformation) (source : InstructionSource)
    (operations : List ExtraPreOperation) (operand : Text)
    (at_root : information.root_directory ≡ 0)
    (named : is_empty (unredirected_target query_absolute_path s h information) ≡ false) where
  abbrev path : Text
  path = unredirected_target query_absolute_path s h information

  -- What the store says of a handle behind a rename with some status: if that is a success, the
  -- renamed handle is known by the path that was asked for and by the one given as opened; whatever
  -- else is stored stays.
  abbrev entry_after : ℕ → Text → ℕ → Option (HandleData Queue Layout)
  entry_after status real_opened other_handle =
      if nt_success status && h == other_handle
      then some
          (updated (infra.remove_trailing path backslash) real_opened (get_data_for_handle s h))
      else get_data_for_handle s other_handle
