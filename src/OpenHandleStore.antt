-- ===== src/OpenHandleStore.antt =====
-- OpenHandleStore.h and OpenHandleStore.cpp: the open handles and what is known of each.
-- The mutex makes every member function one step. Debug assertions are not compiled in.
pub mod Entries
pub mod Laws
pub mod Steps
use pathwinder.Base.{
  ℕ, Bool, true, false, List, [], ◌∷◌, Option, none, some, ◌==◌, if◌then◌else◌, is_empty, length,
}
use pathwinder.Text.{Text}
use pathwinder.Windows.{nt_success}

-- `Queue` is what a unique_ptr to an IDirectoryOperationQueue may hold, and `Layout` is
-- FileInformationStructLayout.
module _ (Queue Layout : Type 0) where
  pub record InProgressDirectoryEnumeration : Type 0 where
    pub queue : Option Queue
    pub file_information_struct_layout : Layout
    pub enumerated_filenames : List Text
    pub is_first_invocation : Bool

  pub record HandleData : Type 0 where
    pub associated_path : Text
    pub real_opened_path : Text
    pub directory_enumeration : Option InProgressDirectoryEnumeration

  -- std::unordered_map from a HANDLE to its data.
  pub record OpenHandleStore : Type 0 where
    pub open_handles : List (ℕ × HandleData)

module _ {Queue Layout : Type 0} where
  abbrev pub empty_store : OpenHandleStore Queue Layout
  empty_store = record { open_handles = [] }

  abbrev pub new_handle_data : Text → Text → HandleData Queue Layout
  new_handle_data associated real_opened = record {
    associated_path = associated;
    real_opened_path = real_opened;
    directory_enumeration = none;
  }

  -- find, emplace at a new key, a write to the value of a key, and erase.
  unfoldable pub find_handle :
      ℕ → List (ℕ × HandleData Queue Layout) → Option (HandleData Queue Layout)
  find_handle h [] = none
  find_handle h ((k, entry) ∷ rest) = if k == h then some entry else find_handle h rest

  pub write_handle :
      ℕ
      → HandleData Queue Layout
      → List (ℕ × HandleData Queue Layout)
      → List (ℕ × HandleData Queue Layout)
  write_handle h new [] = []
  write_handle h new ((k, entry) ∷ rest) =
      if k == h then (k, new) ∷ rest else (k, entry) ∷ write_handle h new rest

  unfoldable pub erase_handle :
      ℕ → List (ℕ × HandleData Queue Layout) → List (ℕ × HandleData Queue Layout)
  erase_handle h [] = []
  erase_handle h ((k, entry) ∷ rest) = if k == h then rest else (k, entry) ∷ erase_handle h rest

  pub associate_directory_enumeration_state :
      OpenHandleStore Queue Layout → ℕ → Option Queue → Layout → OpenHandleStore Queue Layout
  associate_directory_enumeration_state s h queue layout = elim (find_handle h s.open_handles) [
    | none ↦ s
    | some entry ↦ record {
      open_handles =
          write_handle h
            (record entry {
              directory_enumeration = some (record {
                queue = queue;
                file_information_struct_layout = layout;
                enumerated_filenames = [];
                is_first_invocation = true;
              });
            })
            s.open_handles;
    }
  ]

  unfoldable store_empty : OpenHandleStore Queue Layout → Bool
  store_empty s = is_empty s.open_handles

  unfoldable pub get_data_for_handle :
      OpenHandleStore Queue Layout → ℕ → Option (HandleData Queue Layout)
  get_data_for_handle s h = find_handle h s.open_handles

  unfoldable pub insert_handle :
      OpenHandleStore Queue Layout → ℕ → Text → Text → OpenHandleStore Queue Layout
  insert_handle s h associated real_opened = elim (find_handle h s.open_handles) [
    | none ↦ record { open_handles = (h, new_handle_data associated real_opened) ∷ s.open_handles }
    | some entry ↦ s
  ]

  unfoldable pub insert_or_update_handle :
      OpenHandleStore Queue Layout → ℕ → Text → Text → OpenHandleStore Queue Layout
  insert_or_update_handle s h associated real_opened = elim (find_handle h s.open_handles) [
    | none ↦ record { open_handles = (h, new_handle_data associated real_opened) ∷ s.open_handles }
    | some entry ↦ record {
      open_handles =
          write_handle h
            (record entry { associated_path = associated; real_opened_path = real_opened })
            s.open_handles;
    }
  ]

  -- The store, the removed data that a caller may ask for, and whether the handle was there.
  unfoldable pub remove_handle :
      OpenHandleStore Queue Layout
      → ℕ
      → OpenHandleStore Queue Layout × Option (HandleData Queue Layout) × Bool
  remove_handle s h = elim (find_handle h s.open_handles) [
    | none ↦ (s, none, false)
    | some entry ↦ (record { open_handles = erase_handle h s.open_handles }, some entry, true)
  ]

  -- `close` is FilesystemOperations::CloseHandle. Erasing a handle that is not stored has no defined
  -- result: `none`.
  unfoldable pub remove_and_close_handle :
      (ℕ → ℕ)
      → OpenHandleStore Queue Layout
      → ℕ
      → Option (OpenHandleStore Queue Layout × Option (HandleData Queue Layout) × ℕ)
  remove_and_close_handle close s h = elim (nt_success (close h)) [
    | false ↦ some (s, none, close h)
    | true ↦ elim (find_handle h s.open_handles) [
      | none ↦ none
      | some entry ↦
          some (record { open_handles = erase_handle h s.open_handles }, some entry, close h)
    ]
  ]

  unfoldable store_size : OpenHandleStore Queue Layout → ℕ
  store_size s = length s.open_handles
