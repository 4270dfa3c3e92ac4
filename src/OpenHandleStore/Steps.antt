-- ===== src/OpenHandleStore/Steps.antt =====
-- Threads that share the store: their calls are steps, in the order in which they get the lock.
use pathwinder.Base.{
  ℕ, ◌≡◌, refl, sym, ap, subst, ◌∙◌, inl, inr, List, [], ◌∷◌, Option, none, some, ◌==◌,
  if◌then◌else◌, or_else, arith, Bool-cases, Option-cases,
}
use pathwinder.Text.{Text}
use pathwinder.Windows.{nt_success}
use pathwinder.OpenHandleStore.{
  HandleData, OpenHandleStore, new_handle_data, associate_directory_enumeration_state,
  get_data_for_handle, insert_handle, insert_or_update_handle, remove_handle,
  remove_and_close_handle, find_handle,
}
use pathwinder.OpenHandleStore.Entries.{IsValid}
use pathwinder.OpenHandleStore.Laws.{
  updated, start, get-insert, get-insert_or_update, get-associate, get-remove, insert-IsValid,
  insert_or_update-IsValid, associate-IsValid, remove-IsValid,
}

module _ (Queue Layout : Type 0) where
  -- A call that changes the store. The last one has the status that the system gave.
  pub data Call : Type 0 where
    insert : ℕ → Text → Text → Call
    insert_or_update : ℕ → Text → Text → Call
    associate : ℕ → Option Queue → Layout → Call
    remove : ℕ → Call
    remove_and_close : ℕ → ℕ → Call

module _ {Queue Layout : Type 0} where
  pub data Step
      : OpenHandleStore Queue Layout
        → Call Queue Layout
        → OpenHandleStore Queue Layout
        → Type 0 where
    inserted :
        (s : OpenHandleStore Queue Layout) (h : ℕ) (a o : Text)
        → Step s (insert h a o) (insert_handle s h a o)
    updated_step :
        (s : OpenHandleStore Queue Layout) (h : ℕ) (a o : Text)
        → Step s (insert_or_update h a o) (insert_or_update_handle s h a o)
    associated :
        (s : OpenHandleStore Queue Layout) (h : ℕ) (queue : Option Queue) (layout : Layout)
        → Step s (associate h queue layout) (associate_directory_enumeration_state s h queue layout)
    removed : (s : OpenHandleStore Queue Layout) (h : ℕ) → Step s (remove h) (remove_handle s h).0
    closed :
        (s t : OpenHandleStore Queue Layout) (h status : ℕ)
        (entry : Option (HandleData Queue Layout))
        → remove_and_close_handle (λ _. status) s h ≡ some (t, entry, status)
        → Step s (remove_and_close h status) t

  pub data Run
      : OpenHandleStore Queue Layout
        → List (Call Queue Layout)
        → OpenHandleStore Queue Layout
        → Type 0 where
    done : (s : OpenHandleStore Queue Layout) → Run s [] s
    next :
        (s t u : OpenHandleStore Queue Layout) (call : Call Queue Layout)
        (calls : List (Call Queue Layout))
        → Step s call t
        → Run t calls u
        → Run s (call ∷ calls) u

  abbrev handle_of : Call Queue Layout → ℕ
  handle_of (insert h a o) = h
  handle_of (insert_or_update h a o) = h
  handle_of (associate h queue layout) = h
  handle_of (remove h) = h
  handle_of (remove_and_close h status) = h

  -- What a call does to the data of its own handle.
  abbrev effect :
      Call Queue Layout → Option (HandleData Queue Layout) → Option (HandleData Queue Layout)
  effect (insert h a o) entry = or_else entry (some (new_handle_data a o))
  effect (insert_or_update h a o) entry = some (updated a o entry)
  effect (associate h queue layout) entry = start queue layout entry
  effect (remove h) entry = none
  effect (remove_and_close h status) entry = if nt_success status then none else entry

  -- The data of a handle after some calls: those on other handles do not matter.
  abbrev pub fate :
      ℕ
      → List (Call Queue Layout)
      → Option (HandleData Queue Layout)
      → Option (HandleData Queue Layout)
  fate q [] entry = entry
  fate q (call ∷ calls) entry =
      fate q calls (if handle_of call == q then effect call entry else entry)

  closed_store :
      (s t : OpenHandleStore Queue Layout) (h status : ℕ) (entry : Option (HandleData Queue Layout))
      → remove_and_close_handle (λ _. status) s h ≡ some (t, entry, status)
      → t ≡ (if nt_success status then (remove_handle s h).0 else s)
  unfolding remove_and_close_handle remove_handle
  closed_store s t h status entry e = elim (Bool-cases (nt_success status)) [
    | inr failed ↦ ground (arith, e, failed)
    | inl success ↦ elim (Option-cases (find_handle h s.open_handles)) [
      | inl e' ↦ absurd (ground (arith, e, success, e'))
      | inr (found, e') ↦ ground (arith, e, success, e')
    ]
  ]

  -- What a step does to the data of every handle.
  abbrev Acts :
      OpenHandleStore Queue Layout → Call Queue Layout → OpenHandleStore Queue Layout → Type 0
  Acts s call t =
      (q : ℕ)
      → get_data_for_handle t q ≡ (
          if handle_of call == q
          then effect call (get_data_for_handle s q)
          else get_data_for_handle s q)

  closed-Acts :
      (s : OpenHandleStore Queue Layout) (h status : ℕ)
      → IsValid s
      → Acts s (remove_and_close h status) (if nt_success status then (remove_handle s h).0 else s)
  closed-Acts s h status v q = elim (Bool-cases (nt_success status)) [
    | inl success ↦ rw success (get-remove s h q v)
    | inr failed ↦ rw failed (ground arith)
  ]

  closed-IsValid :
      (s : OpenHandleStore Queue Layout) (h status : ℕ)
      → IsValid s
      → IsValid (if nt_success status then (remove_handle s h).0 else s)
  closed-IsValid s h status v = elim (Bool-cases (nt_success status)) [
    | inl success ↦ rw success (remove-IsValid s h v)
    | inr failed ↦ rw failed v
  ]

  step_lem :
      (s t : OpenHandleStore Queue Layout) (call : Call Queue Layout)
      → Step s call t
      → IsValid s
      → IsValid t × Acts s call t
  step_lem s t call (inserted _ h a o) v = (insert-IsValid s h a o v, λ q. get-insert s h q a o)
  step_lem s t call (updated_step _ h a o) v =
      (insert_or_update-IsValid s h a o v, λ q. get-insert_or_update s h q a o)
  step_lem s t call (associated _ h queue layout) v =
      (associate-IsValid s h queue layout v, λ q. get-associate s h q queue layout)
  step_lem s t call (removed _ h) v = (remove-IsValid s h v, λ q. get-remove s h q v)
  step_lem s t call (closed _ _ h status entry e) v =
      let at = closed_store s t h status entry e in
      (
        subst IsValid (sym at) (closed-IsValid s h status v),
        subst (Acts s (remove_and_close h status)) (sym at) (closed-Acts s h status v),
      )

  -- From a valid store the calls of any number of threads, in the order in which they get the lock,
  -- lead to a valid store. In it each handle has the data that the calls on that handle alone, in
  -- this order, make of the data it had.
  pub run_lem :
      (s u : OpenHandleStore Queue Layout) (calls : List (Call Queue Layout))
      → Run s calls u
      → IsValid s
      → IsValid u × ((q : ℕ) → get_data_for_handle u q ≡ fate q calls (get_data_for_handle s q))
  run_lem s u calls (done _) v = (v, λ q. refl)
  run_lem s u calls (next _ t _ call rest step run) v =
      let (v', acts) = step_lem s t call step v in
      let (v'', fates) = run_lem t u rest run v' in (v'', λ q. fates q ∙ ap (fate q rest) (acts q))
