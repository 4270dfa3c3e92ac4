-- ===== src/Examples/Handles.antt =====
-- The store of open handles: a run of three calls, and instances of its theorems.
use pathwinder.Base.{ℕ, List, [], ◌∷◌, some, ◌≡◌, refl}
use pathwinder.OpenHandleStore.{
  HandleData, OpenHandleStore, empty_store, new_handle_data, get_data_for_handle, insert_handle,
  insert_or_update_handle, remove_handle, remove_and_close_handle, find_handle, erase_handle,
}
use pathwinder.OpenHandleStore.Entries.{IsValid}
use pathwinder.OpenHandleStore.Steps.{
  Call, insert, insert_or_update, remove_and_close, Run, done, next, Step, inserted, updated_step,
  closed, run_lem,
}
use pathwinder.Examples.Data.{text, games}

abbrev no_handles : OpenHandleStore Unit Unit
no_handles = empty_store

abbrev one_handle : OpenHandleStore Unit Unit
one_handle = record { open_handles = (7, new_handle_data games (text "D:\\o")) ∷ [] }

abbrev two_handles : OpenHandleStore Unit Unit
two_handles = record {
  open_handles =
      (8, new_handle_data (text "C:\\a") (text "C:\\a"))
      ∷ (7, new_handle_data games (text "D:\\o"))
      ∷ [];
}

abbrev three_calls : List (Call Unit Unit)
three_calls =
    insert 7 games (text "D:\\o")
    ∷ insert_or_update 8 (text "C:\\a") (text "C:\\a")
    ∷ remove_and_close 7 0
    ∷ []

abbrev last_handle : OpenHandleStore Unit Unit
last_handle = record { open_handles = (8, new_handle_data (text "C:\\a") (text "C:\\a")) ∷ [] }

three_calls-Run : Run no_handles three_calls last_handle
unfolding insert_handle insert_or_update_handle remove_and_close_handle remove_handle find_handle
    erase_handle
three_calls-Run =
    next no_handles one_handle last_handle _ _ (inserted no_handles 7 games (text "D:\\o")) (
      next one_handle two_handles last_handle _ _
        (updated_step one_handle 8 (text "C:\\a") (text "C:\\a"))
        (next two_handles last_handle last_handle _ _
          (closed two_handles last_handle 7 0 (some (new_handle_data games (text "D:\\o"))) refl)
          (done last_handle)))

run_lem_example :
    IsValid last_handle
    × ((q : ℕ)
        → get_data_for_handle last_handle q
          ≡ pathwinder.OpenHandleStore.Steps.fate q three_calls (get_data_for_handle no_handles q))
run_lem_example = run_lem no_handles last_handle three_calls three_calls-Run tt
