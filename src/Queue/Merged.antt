-- ===== src/Queue/Merged.antt =====
-- MergedFileInformationQueue: several queues as one.
pub mod Selection
pub mod Contents
pub mod Merge
use mathlib.Core.Option
use pathwinder.Base.{
  ℕ, suc, ◌+◌, Bool, true, false, ◌&&◌, ◌||◌, List, [], ◌∷◌, none, some, ◌==◌, if◌then◌else◌, set,
  get_elem?,
}
use pathwinder.Base.{Option as Maybe}
use pathwinder.Text.{Text}
use pathwinder.Infra.{Infra}
use pathwinder.FileInformation.{Bytes}
use pathwinder.Windows.{nt_success, more_entries, no_more_files}
use pathwinder.RuleContainer.{is_lt}
use pathwinder.Queue.{DirectoryOperationQueue}

-- The pointer to the queue with the front element is its position, `none` where it is null. The
-- queues to merge may be null pointers.
pub record MergedFileInformationQueue (Queue : Type 0) : Type 0 where
  pub queues_to_merge : List (Maybe Queue)
  pub front_element_source_queue : Maybe ℕ

-- GetUnderlyingQueue, as far as a pointer leads to it.
abbrev pub pointed_to : {Queue : Type 0} → Maybe (Maybe Queue) → Maybe Queue
pointed_to none = none
pointed_to (some q) = q

module _ ⦃i : Infra⦄ {Queue : Type 0} (ops : DirectoryOperationQueue Queue) where
  -- The queue's front comes before that of the candidate, if there is one.
  abbrev pub precedes : Queue → Maybe (ℕ × Queue) → Bool
  precedes q none = true
  precedes q (some (k, candidate)) =
      is_lt
        (i.compare_case_insensitive (ops.file_name_of_front q) (ops.file_name_of_front candidate))

  -- The loop of SelectFrontElementSourceQueueInternal, with the position of the queue that it looks
  -- at and the candidate.
  unfoldable pub select_loop : List (Maybe Queue) → ℕ → Maybe (ℕ × Queue) → Maybe (ℕ × Queue)
  select_loop [] position candidate = candidate
  select_loop (none ∷ qs) position candidate = select_loop qs (position + 1) candidate
  select_loop (some q ∷ qs) position candidate = select_loop qs (position + 1) (
      if ops.enumeration_status q == more_entries && precedes q candidate
      then some (position, q)
      else candidate)

  -- The constructor, and what every change of the queues ends with.
  unfoldable pub new_merged_queue : List (Maybe Queue) → MergedFileInformationQueue Queue
  unfolding select_loop
  new_merged_queue qs = record {
    queues_to_merge = qs;
    front_element_source_queue = Option.map (λ (k, q). k) (select_loop qs 0 none);
  }

  -- The first status that is an error.
  unfoldable pub first_error : List (Maybe Queue) → Maybe ℕ
  first_error [] = none
  first_error (none ∷ qs) = first_error qs
  first_error (some q ∷ qs) =
      let status = ops.enumeration_status q in
      if status == more_entries || (status == no_more_files || nt_success status)
      then first_error qs
      else some status

  unfoldable pub merged_status : MergedFileInformationQueue Queue → ℕ
  unfolding first_error
  merged_status m = elim (first_error m.queues_to_merge) [
    | some status ↦ status
    | none ↦ elim m.front_element_source_queue [ none ↦ no_more_files | some k ↦ more_entries ]
  ]

  -- The queue behind the pointer.
  unfoldable pub front_queue : MergedFileInformationQueue Queue → Maybe Queue
  front_queue m = elim m.front_element_source_queue [
    | none ↦ none
    | some k ↦ pointed_to (get_elem? m.queues_to_merge k)
  ]

  -- Calls through a null pointer have no defined result: no bytes, no name, no size, no queue.
  unfoldable pub merged_copy : MergedFileInformationQueue Queue → ℕ → Bytes
  unfolding front_queue
  merged_copy m capacity = elim (front_queue m) [ none ↦ [] | some q ↦ ops.copy_front q capacity ]

  unfoldable pub merged_name : MergedFileInformationQueue Queue → Text
  unfolding front_queue
  merged_name m = elim (front_queue m) [ none ↦ [] | some q ↦ ops.file_name_of_front q ]

  unfoldable pub merged_size : MergedFileInformationQueue Queue → ℕ
  unfolding front_queue
  merged_size m = elim (front_queue m) [ none ↦ 0 | some q ↦ ops.size_of_front q ]

  -- The queue that the pointer leads to is changed where it stands.
  unfoldable pub merged_pop :
      MergedFileInformationQueue Queue → Maybe (MergedFileInformationQueue Queue)
  unfolding new_merged_queue
  merged_pop m = elim m.front_element_source_queue [
    | none ↦ none
    | some k ↦ elim (pointed_to (get_elem? m.queues_to_merge k)) [
      | none ↦ none
      | some q ↦
          Option.map (λ q'. new_merged_queue (set m.queues_to_merge k (some q'))) (ops.pop_front q)
    ]
  ]

  unfoldable pub restart_all : List (Maybe Queue) → Text → Maybe (List (Maybe Queue))
  restart_all [] file_pattern = some []
  restart_all (none ∷ qs) file_pattern = Option.map (◌∷◌ none) (restart_all qs file_pattern)
  restart_all (some q ∷ qs) file_pattern = elim (ops.restart q file_pattern) [
    | none ↦ none
    | some q' ↦ Option.map (◌∷◌ (some q')) (restart_all qs file_pattern)
  ]

  unfoldable pub merged_restart :
      MergedFileInformationQueue Queue → Text → Maybe (MergedFileInformationQueue Queue)
  unfolding restart_all new_merged_queue
  merged_restart m file_pattern =
      Option.map new_merged_queue (restart_all m.queues_to_merge file_pattern)

  abbrev pub merged_operations : DirectoryOperationQueue (MergedFileInformationQueue Queue)
  merged_operations = record {
    copy_front = merged_copy;
    enumeration_status = merged_status;
    file_name_of_front = merged_name;
    pop_front = merged_pop;
    restart = merged_restart;
    size_of_front = merged_size;
  }
