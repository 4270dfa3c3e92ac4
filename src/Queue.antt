-- ===== src/Queue.antt =====
-- DirectoryOperationQueue.h and DirectoryOperationQueue.cpp: the queues that a directory enumeration
-- takes its file information structures from. Here is their common interface; each kind of queue
-- stands in a file of its own below Queue.
pub mod Enumeration
pub mod NameInsertion
pub mod Merged
use pathwinder.Base.{ℕ, ◌≡◌, Bool, List, [], ◌∷◌, Option, none, some, take, length, ◌==◌, ◌||◌}
use pathwinder.Text.{Text}
use pathwinder.FileInformation.{Bytes}
use pathwinder.Windows.{
  more_entries, no_more_files, no_such_file, object_name_invalid, object_name_not_found,
  object_path_invalid, object_path_not_found,
}

-- IDirectoryOperationQueue. CopyFront gives the bytes that it copies. PopFront and Restart of a
-- queue may loop, for as long as the fuel lasts that the queue's functions are given: `none` means
-- that it ran out.
pub record DirectoryOperationQueue (Queue : Type 0) : Type 0 where
  pub copy_front : Queue → ℕ → Bytes
  pub enumeration_status : Queue → ℕ
  pub file_name_of_front : Queue → Text
  pub pop_front : Queue → Option Queue
  pub restart : Queue → Text → Option Queue
  pub size_of_front : Queue → ℕ

-- A file information structure: its file name, and its bytes.
pub record FileInformation : Type 0 where
  pub file_name : Text
  pub structure : Bytes

-- What a queue promises: it gives these file information structures one after another, and then has
-- no more files.
abbrev pub Presents :
    {Queue : Type 0} → DirectoryOperationQueue Queue → Queue → List FileInformation → Type 0
Presents ops q [] = ops.enumeration_status q ≡ no_more_files
Presents {Queue} ops q (x ∷ xs) =
    (ops.enumeration_status q ≡ more_entries)
    × (ops.file_name_of_front q ≡ x.file_name)
    × (ops.size_of_front q ≡ length x.structure)
    × ((capacity : ℕ) → ops.copy_front q capacity ≡ take capacity x.structure)
    × ((q' : Queue) × (ops.pop_front q ≡ some q') × Presents ops q' xs)

-- The statuses for what is not there, which the queues do not report.
unfoldable pub is_not_there : ℕ → Bool
is_not_there status =
    status == no_such_file
    || (status == object_name_invalid
        || (status == object_name_not_found
            || (status == object_path_invalid || status == object_path_not_found)))
