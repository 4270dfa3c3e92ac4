-- ===== src/Executor/Prepare/Created.antt =====
-- What the queue gives that CreateDirectoryOperationQueue makes of an instruction.
use pathwinder.Base.{
  ℕ, ◌<◌, ◌≡◌, ◌≢◌, refl, true, false, List, [], ◌∷◌, ◌++◌, map, none, some, length, arith,
}
use pathwinder.Base.{Option as Maybe}
use pathwinder.Text.{Text}
use pathwinder.Infra.{Infra}
use pathwinder.Windows.{value}
use pathwinder.Instruction.{
  SingleDirectoryEnumeration, SingleDirectoryNameInsertion, DirectoryEnumerationInstruction,
  select_directory_path, is_pass_through_unmodified_query,
}
use pathwinder.FileInformation.{FileInformationStructLayout, layout_for_file_information_class}
use pathwinder.Queue.{FileInformation, Presents}
use pathwinder.Queue.Enumeration.{bytes_per_buffer, DirectorySystem}
use pathwinder.Queue.Enumeration.Contents.{included, new_queue-Presents}
use pathwinder.Queue.Enumeration.Batches.{Answers}
use pathwinder.Queue.Enumeration.Batches
use pathwinder.Queue.NameInsertion.{SingleFileQuery}
use pathwinder.Queue.NameInsertion.Contents.{inserted, AreAnswered, new_insertion_queue-Presents}
use pathwinder.Queue.Merged.Selection.{AllSorted, PresentAll}
use pathwinder.Executor.Prepare.{
  UnderlyingQueue, enumeration, insertion, HandleQueue, underlying_operations,
  create_enumeration_queues, create_queues, combine_queues, create_directory_operation_queue,
}
use pathwinder.Executor.Prepare.Dispatch.{
  enumeration-Presents, insertion-Presents, GivesAll, any-GivesAll,
}

module _ ⦃i : Infra⦄ {Handle : Type 0} (system : DirectorySystem Handle) (query : SingleFileQuery)
    (fuel : ℕ) where
  module _ (l : FileInformationStructLayout) (c : ℕ)
      (known : layout_for_file_information_class c ≡ some l)
      (file_pattern associated real_opened : Text) where
    -- The contents of the directories, as the system gives them in batches.
    abbrev pub AreListed :
        List SingleDirectoryEnumeration → List (List (List FileInformation)) → Type 0
    AreListed [] [] = Unit
    AreListed (e ∷ es) (bs ∷ bss) =
        ((path : Text) × (handle : Handle) × (select_directory_path e associated real_opened
            ≡ some path)
          × (system.open_directory_for_enumeration path ≡ value handle)
          × Answers system l c
              (system.partial_enumerate_directory_contents handle c bytes_per_buffer true
                file_pattern)
              bs
          × (length (Batches.concat bs) < fuel))
        × AreListed es bss
    AreListed _ _ = ⊥

    -- The names of each directory that its instruction includes.
    abbrev pub listed :
        List SingleDirectoryEnumeration
        → List (List (List FileInformation))
        → List (List FileInformation)
    listed (e ∷ es) (bs ∷ bss) = included e (Batches.concat bs) ∷ listed es bss
    listed _ _ = []

    -- With those of the names to insert whose directories are there.
    abbrev pub listed_with :
        List SingleDirectoryEnumeration
        → List (List (List FileInformation))
        → Maybe (List SingleDirectoryNameInsertion)
        → List (List FileInformation)
    listed_with es bss none = listed es bss
    listed_with es bss (some ns) =
        listed es bss ++ (inserted query l c (map i.to_upper file_pattern) ns ∷ [])

    abbrev pub InsertionsAnswered : Maybe (List SingleDirectoryNameInsertion) → Type 0
    InsertionsAnswered none = Unit
    InsertionsAnswered (some ns) = AreAnswered query l c ns

    enumerations-PresentAll :
        (es : List SingleDirectoryEnumeration) (bss : List (List (List FileInformation)))
        → AreListed es bss
        → (qs : List (UnderlyingQueue Handle)) × (create_enumeration_queues system query fuel c
              file_pattern associated real_opened es
            ≡ some qs)
          × PresentAll (underlying_operations system query fuel) (map some qs) (listed es bss)
    unfolding create_enumeration_queues
    enumerations-PresentAll [] [] a = ([], refl, tt)
    enumerations-PresentAll [] (bs ∷ bss) a = absurd a
    enumerations-PresentAll (e ∷ es) [] a = absurd a
    enumerations-PresentAll (e ∷ es) (bs ∷ bss)
          ((path, handle, selected, opened, answers, enough), a) =
        let (q, created, presents) =
          new_queue-Presents system fuel e path c file_pattern l handle bs known opened answers
            enough in
        let (qs, others, present) = enumerations-PresentAll es bss a in
        (
          enumeration q ∷ qs,
          ground (arith, selected, created, others),
          (
            enumeration-Presents system query fuel (included e (Batches.concat bs)) q presents,
            present,
          ),
        )

    PresentAll-append :
        (qs : List (UnderlyingQueue Handle)) (ls : List (List FileInformation))
        (q : UnderlyingQueue Handle) (xs : List FileInformation)
        → PresentAll (underlying_operations system query fuel) (map some qs) ls
        → Presents (underlying_operations system query fuel) q xs
        → PresentAll
            (underlying_operations system query fuel)
            (map some (qs ++ (q ∷ [])))
            (ls ++ (xs ∷ []))
    PresentAll-append [] [] q xs p presents = (presents, tt)
    PresentAll-append [] (l' ∷ ls) q xs p presents = absurd p
    PresentAll-append (q' ∷ qs) [] q xs p presents = absurd p
    PresentAll-append (q' ∷ qs) (l' ∷ ls) q xs (first, p) presents =
        (first, PresentAll-append qs ls q xs p presents)

    created-PresentAll :
        (es : List SingleDirectoryEnumeration) (names : Maybe (List SingleDirectoryNameInsertion))
        (bss : List (List (List FileInformation)))
        → AreListed es bss
        → InsertionsAnswered names
        → (qs : List (UnderlyingQueue Handle)) × (create_queues system query fuel c file_pattern
              associated real_opened
              (record { directories_to_enumerate = es; directory_names_to_insert = names })
            ≡ some qs)
          × PresentAll
              (underlying_operations system query fuel)
              (map some qs)
              (listed_with es bss names)
    unfolding create_queues
    created-PresentAll es none bss a b =
        let (qs, created, present) = enumerations-PresentAll es bss a in
        (qs, ground (arith, created), present)
    created-PresentAll es (some ns) bss a b =
        let (qs, created, present) = enumerations-PresentAll es bss a in
        let (q, made, presents) = new_insertion_queue-Presents query l c ns file_pattern known b in
        let names = inserted query l c (map i.to_upper file_pattern) ns in
        (
          qs ++ (insertion q ∷ []),
          ground (arith, created, made),
          PresentAll-append qs (listed es bss) (insertion q) names present
              (insertion-Presents system query fuel names q presents),
        )

    -- The system can open each directory that an instruction lists, and gives its contents in
    -- batches; each directory that a name to insert stands for is there, or a status says that it
    -- is not. If the instruction asks for anything other than the unmodified query, lists at least
    -- one directory or names to insert, and what it lists of each is in order, then the queue that
    -- is made of it gives exactly that, as often as the directories hold it and with the inserted
    -- names, in order. The fuel exceeds the number of structures in a directory.
    pub created_queue-GivesAll :
        (es : List SingleDirectoryEnumeration) (names : Maybe (List SingleDirectoryNameInsertion))
        (bss : List (List (List FileInformation)))
        → let instruction : DirectoryEnumerationInstruction = record {
          directories_to_enumerate = es;
          directory_names_to_insert = names;
        } in
          is_pass_through_unmodified_query instruction ≡ false
          → AreListed es bss
          → InsertionsAnswered names
          → AllSorted (listed_with es bss names)
          → listed_with es bss names ≢ []
          → (queue : Maybe (HandleQueue Handle)) × (create_directory_operation_queue system query
                fuel instruction c file_pattern associated real_opened
              ≡ some queue)
            × GivesAll system query fuel queue (listed_with es bss names)
    unfolding create_directory_operation_queue
    created_queue-GivesAll es names bss changed a b s some_list =
        let (qs, created, present) = created-PresentAll es names bss a b in
        (
          combine_queues system query fuel qs,
          ground (arith, changed, created),
          any-GivesAll system query fuel qs (listed_with es bss names) present s some_list,
        )
