-- ===== src/OpenHandleStore/Laws.antt =====
-- The store is a map from handles to data: what each operation does to it.
use pathwinder.Base.{
  ℕ, ◌≡◌, ap, inl, inr, true, [], Option, none, some, ◌==◌, if◌then◌else◌, or_else, arith,
  Option-cases,
}
use pathwinder.Text.{Text}
use pathwinder.OpenHandleStore.{
  HandleData, OpenHandleStore, new_handle_data, find_handle, associate_directory_enumeration_state,
  get_data_for_handle, insert_handle, insert_or_update_handle, remove_handle,
}
use pathwinder.OpenHandleStore.Entries.{
  IsValid, find-write, find-erase, write-AreDistinct, erase-AreDistinct,
}

module _ {Queue Layout : Type 0} where
  abbrev started : Option Queue → Layout → HandleData Queue Layout → HandleData Queue Layout
  started queue layout entry = record entry {
    directory_enumeration = some (record {
      queue = queue;
      file_information_struct_layout = layout;
      enumerated_filenames = [];
      is_first_invocation = true;
    });
  }

  abbrev pub updated : Text → Text → Option (HandleData Queue Layout) → HandleData Queue Layout
  updated associated real_opened none = new_handle_data associated real_opened
  updated associated real_opened (some entry) = record entry {
    associated_path = associated;
    real_opened_path = real_opened;
  }

  abbrev pub start :
      Option Queue → Layout → Option (HandleData Queue Layout) → Option (HandleData Queue Layout)
  start queue layout none = none
  start queue layout (some entry) = some (started queue layout entry)

  pub get-insert :
      (s : OpenHandleStore Queue Layout) (h q : ℕ) (associated real_opened : Text)
      → get_data_for_handle (insert_handle s h associated real_opened) q ≡ (
          if h == q
          then or_else (get_data_for_handle s q) (some (new_handle_data associated real_opened))
          else get_data_for_handle s q)
  unfolding get_data_for_handle insert_handle find_handle
  get-insert s h q associated real_opened = elim (Option-cases (find_handle h s.open_handles)) [
    | inl e ↦ ground (arith, e, ap (λ n. find_handle n s.open_handles) {x = h} {y = q})
    | inr (entry, e) ↦ ground (arith, e, ap (λ n. find_handle n s.open_handles) {x = h} {y = q})
  ]

  pub get-insert_or_update :
      (s : OpenHandleStore Queue Layout) (h q : ℕ) (associated real_opened : Text)
      → get_data_for_handle (insert_or_update_handle s h associated real_opened) q ≡ (
          if h == q
          then some (updated associated real_opened (get_data_for_handle s q))
          else get_data_for_handle s q)
  unfolding get_data_for_handle insert_or_update_handle find_handle
  get-insert_or_update s h q associated real_opened =
      elim (Option-cases (find_handle h s.open_handles)) [
        | inl e ↦ ground (arith, e, ap (λ n. find_handle n s.open_handles) {x = h} {y = q})
        | inr (entry, e) ↦ ground (
          arith,
          e,
          find-write h q (updated associated real_opened (some entry)) entry s.open_handles e,
          ap (λ n. find_handle n s.open_handles) {x = h} {y = q},
        )
      ]

  pub get-associate :
      (s : OpenHandleStore Queue Layout) (h q : ℕ) (queue : Option Queue) (layout : Layout)
      → get_data_for_handle (associate_directory_enumeration_state s h queue layout) q
        ≡ (if h == q then start queue layout (get_data_for_handle s q) else get_data_for_handle s q)
  unfolding get_data_for_handle associate_directory_enumeration_state
  get-associate s h q queue layout = elim (Option-cases (find_handle h s.open_handles)) [
    | inl e ↦ ground (arith, e, ap (λ n. find_handle n s.open_handles) {x = h} {y = q})
    | inr (entry, e) ↦ ground (
      arith,
      e,
      find-write h q (started queue layout entry) entry s.open_handles e,
      ap (λ n. find_handle n s.open_handles) {x = h} {y = q},
    )
  ]

  pub get-remove :
      (s : OpenHandleStore Queue Layout) (h q : ℕ)
      → IsValid s
      → get_data_for_handle (remove_handle s h).0 q
        ≡ (if h == q then none else get_data_for_handle s q)
  unfolding get_data_for_handle remove_handle
  get-remove s h q v = elim (Option-cases (find_handle h s.open_handles)) [
    | inl e ↦ ground (arith, e, ap (λ n. find_handle n s.open_handles) {x = h} {y = q})
    | inr (entry, e) ↦ ground (arith, e, find-erase h q s.open_handles v)
  ]

  pub insert-IsValid :
      (s : OpenHandleStore Queue Layout) (h : ℕ) (a o : Text)
      → IsValid s
      → IsValid (insert_handle s h a o)
  unfolding insert_handle
  insert-IsValid s h a o v = elim (Option-cases (find_handle h s.open_handles)) [
    | inl e ↦ rw (e, insert_handle) (e, v)
    | inr (entry, e) ↦ rw (e, insert_handle) v
  ]

  pub insert_or_update-IsValid :
      (s : OpenHandleStore Queue Layout) (h : ℕ) (a o : Text)
      → IsValid s
      → IsValid (insert_or_update_handle s h a o)
  unfolding insert_or_update_handle
  insert_or_update-IsValid s h a o v = elim (Option-cases (find_handle h s.open_handles)) [
    | inl e ↦ rw (e, insert_or_update_handle) (e, v)
    | inr (entry, e) ↦
        rw (e, insert_or_update_handle)
          (write-AreDistinct h (updated a o (some entry)) s.open_handles v)
  ]

  pub associate-IsValid :
      (s : OpenHandleStore Queue Layout) (h : ℕ) (queue : Option Queue) (layout : Layout)
      → IsValid s
      → IsValid (associate_directory_enumeration_state s h queue layout)
  unfolding associate_directory_enumeration_state
  associate-IsValid s h queue layout v = elim (Option-cases (find_handle h s.open_handles)) [
    | inl e ↦ rw (e, associate_directory_enumeration_state) v
    | inr (entry, e) ↦
        rw (e, associate_directory_enumeration_state)
          (write-AreDistinct h (started queue layout entry) s.open_handles v)
  ]

  pub remove-IsValid :
      (s : OpenHandleStore Queue Layout) (h : ℕ) → IsValid s → IsValid ((remove_handle s h).0)
  unfolding remove_handle
  remove-IsValid s h v = elim (Option-cases (find_handle h s.open_handles)) [
    | inl e ↦ rw (e, remove_handle) v
    | inr (entry, e) ↦ rw (e, remove_handle) (erase-AreDistinct h s.open_handles v)
  ]
