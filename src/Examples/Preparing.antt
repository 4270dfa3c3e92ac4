-- ===== src/Examples/Preparing.antt =====
-- An enumeration of two directories, and an instance of the theorem on its queue.
use pathwinder.Base.{◌≡◌, refl, Bool, false, List, [], ◌∷◌, Option, none, some, arith}
use pathwinder.Infra.{ascii}
use pathwinder.Instruction.{
  SingleDirectoryEnumeration, include_all_filenames, real_opened_path, select_directory_path,
  is_pass_through_unmodified_query, should_include_in_directory_enumeration,
}
use pathwinder.FileInformation.{
  read_file_name, read_file_name_length, read_next_entry_offset, size_of_struct, read_number,
  number_of, characters_of, hypothetical_size_for_file_name_length,
}
use pathwinder.Queue.{FileInformation}
use pathwinder.Queue.Enumeration.Contents.{included}
use pathwinder.Executor.Prepare.{HandleQueue, create_directory_operation_queue}
use pathwinder.Executor.Prepare.Created.{listed_with, AreListed, created_queue-GivesAll}
use pathwinder.Executor.Prepare.Dispatch.{GivesAll}
use pathwinder.Examples.Data.{text, games}
use pathwinder.Examples.Queues.{a_item, b_item, two_names, zeros, names_layout, known, all_names}

abbrev both_directories : List SingleDirectoryEnumeration
both_directories = all_names ∷ include_all_filenames real_opened_path ∷ []

-- Each of them holds a and b.
abbrev contents : List (List (List FileInformation))
contents = ((a_item ∷ b_item ∷ []) ∷ []) ∷ ((a_item ∷ b_item ∷ []) ∷ []) ∷ []

both-AreListed :
    AreListed ⦃i = ascii⦄ two_names zeros 5 names_layout 12 known [] games
      (text "D:\\t")
      both_directories
      contents
unfolding read_file_name read_file_name_length read_next_entry_offset size_of_struct read_number
    number_of characters_of hypothetical_size_for_file_name_length select_directory_path
    include_all_filenames
both-AreListed = (
  (
    games,
    false,
    refl,
    refl,
    (refl, ((refl, refl, refl), refl, ((refl, refl, refl), refl)), refl),
    omega arith,
  ),
  (
    (
      text "D:\\t",
      false,
      refl,
      refl,
      (refl, ((refl, refl, refl), refl, ((refl, refl, refl), refl)), refl),
      omega arith,
    ),
    tt,
  ),
)

created_queue-GivesAll_example :
    (queue : Option (HandleQueue Bool)) × (create_directory_operation_queue ⦃i = ascii⦄ two_names
        zeros 5
        (record { directories_to_enumerate = both_directories; directory_names_to_insert = none })
        12
        []
        games
        (text "D:\\t")
      ≡ some queue)
    × GivesAll ⦃i = ascii⦄ two_names zeros 5 queue (
        listed_with ⦃i = ascii⦄ two_names zeros 5 names_layout 12 known [] games
          (text "D:\\t")
          both_directories
          contents
          none)
unfolding included should_include_in_directory_enumeration include_all_filenames ascii
    is_pass_through_unmodified_query
created_queue-GivesAll_example =
    created_queue-GivesAll ⦃i = ascii⦄ two_names zeros 5 names_layout 12 known [] games
      (text "D:\\t") both_directories none contents refl both-AreListed tt
      (((refl, tt)), ((refl, tt), tt)) (λ e. absurd (cc))
