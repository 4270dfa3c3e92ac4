-- ===== src/Executor/Prepare.antt =====
-- Preparing a directory enumeration: CreateDirectoryOperationQueue and DirectoryEnumerationPrepare of
-- FilesystemExecutor.cpp.
pub mod Dispatch
pub mod Created
use mathlib.Core.Option
use pathwinder.Base.{ℕ, true, false, List, [], ◌∷◌, ◌++◌, map, none, some, ltb, if◌then◌else◌}
use pathwinder.Base.{Option as Maybe}
use pathwinder.Text.{Text}
use pathwinder.Infra.{Infra}
use pathwinder.Windows.{success, info_length_mismatch}
use pathwinder.Instruction.{
  SingleDirectoryEnumeration, DirectoryEnumerationInstruction, select_directory_path,
  is_pass_through_unmodified_query,
}
use pathwinder.FileInformation.{FileInformationStructLayout, layout_for_file_information_class}
use pathwinder.OpenHandleStore.{
  OpenHandleStore, get_data_for_handle, associate_directory_enumeration_state,
}
use pathwinder.Queue.{DirectoryOperationQueue}
use pathwinder.Queue.Enumeration.{
  DirectorySystem, EnumerationQueue, new_enumeration_queue, enumeration_operations,
}
use pathwinder.Queue.NameInsertion.{
  SingleFileQuery, NameInsertionQueue, new_name_insertion_queue, insertion_operations,
}
use pathwinder.Queue.Merged.{MergedFileInformationQueue, new_merged_queue, merged_operations}

-- The subclasses of IDirectoryOperationQueue that are merged, and those that a handle may have.
pub data UnderlyingQueue (Handle : Type 0) : Type 0 where
  enumeration : EnumerationQueue Handle → UnderlyingQueue Handle
  insertion : NameInsertionQueue → UnderlyingQueue Handle

pub data HandleQueue (Handle : Type 0) : Type 0 where
  single : UnderlyingQueue Handle → HandleQueue Handle
  merged : MergedFileInformationQueue (UnderlyingQueue Handle) → HandleQueue Handle

module _ ⦃i : Infra⦄ {Handle : Type 0} (system : DirectorySystem Handle) (query : SingleFileQuery)
    (fuel : ℕ) where
  -- Dynamic dispatch.
  abbrev by_underlying :
      {A : Type 0}
      → (EnumerationQueue Handle → A)
      → (NameInsertionQueue → A)
      → UnderlyingQueue Handle
      → A
  by_underlying f g (enumeration q) = f q
  by_underlying f g (insertion q) = g q

  abbrev of_enumerations : DirectoryOperationQueue (EnumerationQueue Handle)
  of_enumerations = enumeration_operations system fuel

  abbrev of_insertions : DirectoryOperationQueue NameInsertionQueue
  of_insertions = insertion_operations query

  abbrev pub underlying_operations : DirectoryOperationQueue (UnderlyingQueue Handle)
  underlying_operations = record {
    copy_front = by_underlying of_enumerations.copy_front of_insertions.copy_front;
    enumeration_status =
        by_underlying of_enumerations.enumeration_status of_insertions.enumeration_status;
    file_name_of_front =
        by_underlying of_enumerations.file_name_of_front of_insertions.file_name_of_front;
    pop_front =
        by_underlying (λ q. Option.map enumeration (of_enumerations.pop_front q))
          (λ q. Option.map insertion (of_insertions.pop_front q));
    restart =
        by_underlying (λ q s. Option.map enumeration (of_enumerations.restart q s))
          (λ q s. Option.map insertion (of_insertions.restart q s));
    size_of_front = by_underlying of_enumerations.size_of_front of_insertions.size_of_front;
  }

  abbrev of_merged : DirectoryOperationQueue (MergedFileInformationQueue (UnderlyingQueue Handle))
  of_merged = merged_operations underlying_operations

  abbrev by_kind :
      {A : Type 0}
      → (UnderlyingQueue Handle → A)
      → (MergedFileInformationQueue (UnderlyingQueue Handle) → A)
      → HandleQueue Handle
      → A
  by_kind f g (single q) = f q
  by_kind f g (merged q) = g q

  abbrev pub handle_operations : DirectoryOperationQueue (HandleQueue Handle)
  handle_operations = record {
    copy_front = by_kind underlying_operations.copy_front of_merged.copy_front;
    enumeration_status =
        by_kind underlying_operations.enumeration_status of_merged.enumeration_status;
    file_name_of_front =
        by_kind underlying_operations.file_name_of_front of_merged.file_name_of_front;
    pop_front =
        by_kind (λ q. Option.map single (underlying_operations.pop_front q))
          (λ q. Option.map merged (of_merged.pop_front q));
    restart =
        by_kind (λ q s. Option.map single (underlying_operations.restart q s))
          (λ q s. Option.map merged (of_merged.restart q s));
    size_of_front = by_kind underlying_operations.size_of_front of_merged.size_of_front;
  }

  -- The loop over the directories to enumerate. Where a path has no defined result, nor has the
  -- loop.
  unfoldable pub create_enumeration_queues :
      ℕ
      → Text
      → Text
      → Text
      → List SingleDirectoryEnumeration
      → Maybe (List (UnderlyingQueue Handle))
  create_enumeration_queues class_number file_pattern associated real_opened [] = some []
  create_enumeration_queues class_number file_pattern associated real_opened (e ∷ es) =
      elim (select_directory_path e associated real_opened) [
        | none ↦ none
        | some path ↦ elim (new_enumeration_queue system fuel e path class_number file_pattern) [
          | none ↦ none
          | some q ↦
              Option.map (◌∷◌ (enumeration q))
                (create_enumeration_queues class_number file_pattern associated real_opened es)
        ]
      ]

  -- All the queues that are created.
  unfoldable pub create_queues :
      ℕ
      → Text
      → Text
      → Text
      → DirectoryEnumerationInstruction
      → Maybe (List (UnderlyingQueue Handle))
  unfolding create_enumeration_queues
  create_queues class_number file_pattern associated real_opened instruction =
      elim (create_enumeration_queues class_number file_pattern associated real_opened
        instruction.directories_to_enumerate) [
          | none ↦ none
          | some qs ↦ elim instruction.directory_names_to_insert [
            | none ↦ some qs
            | some names ↦
                Option.map (λ q. qs ++ (insertion q ∷ []))
                  (new_name_insertion_queue query names class_number file_pattern)
          ]
        ]

  -- The switch over their number. `none` is a null pointer.
  unfoldable pub combine_queues : List (UnderlyingQueue Handle) → Maybe (HandleQueue Handle)
  combine_queues [] = none
  combine_queues (q ∷ []) = some (single q)
  combine_queues (q ∷ q' ∷ qs) =
      some (merged (new_merged_queue underlying_operations (map some (q ∷ q' ∷ qs))))

  -- CreateDirectoryOperationQueue.
  unfoldable pub create_directory_operation_queue :
      DirectoryEnumerationInstruction → ℕ → Text → Text → Text → Maybe (Maybe (HandleQueue Handle))
  unfolding create_queues combine_queues is_pass_through_unmodified_query
  create_directory_operation_queue instruction class_number file_pattern associated real_opened =
      elim (is_pass_through_unmodified_query instruction) [
        | true ↦ some none
        | false ↦
            Option.map combine_queues
              (create_queues class_number file_pattern associated real_opened instruction)
      ]

  abbrev pub Store : Type 0
  Store = OpenHandleStore (HandleQueue Handle) FileInformationStructLayout

  -- The answer once the enumeration state is there: a null queue is passed to the system.
  unfoldable pub prepared_answer : Store → ℕ → Maybe ℕ
  prepared_answer s h = elim (get_data_for_handle s h) [
    | none ↦ none
    | some entry ↦ elim entry.directory_enumeration [
      | none ↦ none
      | some e ↦ elim e.queue [ none ↦ none | some q ↦ some success ]
    ]
  ]

  -- DirectoryEnumerationPrepare: the answer, where it is not left to the system, and the store.
  unfoldable pub directory_enumeration_prepare :
      Store
      → ℕ
      → ℕ
      → ℕ
      → Text
      → (Text → Text → DirectoryEnumerationInstruction)
      → Maybe (Maybe ℕ × Store)
  unfolding create_directory_operation_queue prepared_answer
  directory_enumeration_prepare s h length_bytes class_number file_pattern source =
      elim (layout_for_file_information_class class_number) [
        | none ↦ some (none, s)
        | some layout ↦ elim (get_data_for_handle s h) [
          | none ↦ some (none, s)
          | some entry ↦
              if ltb length_bytes layout.structure_base_size_bytes
              then some (some info_length_mismatch, s)
              else elim entry.directory_enumeration [
                | some e ↦ some (prepared_answer s h, s)
                | none ↦
                    Option.map
                      (λ queue.
                        let t = associate_directory_enumeration_state s h queue layout in
                        (prepared_answer t h, t))
                      (create_directory_operation_queue
                        (source entry.associated_path entry.real_opened_path) class_number
                        file_pattern entry.associated_path entry.real_opened_path)
              ]
        ]
      ]
