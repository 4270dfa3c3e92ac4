-- ===== src/OpenHandleStore/Entries.antt =====
-- The list of handles as a map: lookups after a write and after an erasure.
use pathwinder.Base.{
  ℕ, ◌≡◌, refl, ap, inl, inr, List, [], ◌∷◌, none, some, ◌==◌, if◌then◌else◌, arith, Bool-cases,
}
use pathwinder.OpenHandleStore.{
  HandleData, OpenHandleStore, find_handle, write_handle, erase_handle,
}

module _ {Queue Layout : Type 0} where
  -- No handle is stored twice.
  abbrev AreDistinct : List (ℕ × HandleData Queue Layout) → Type 0
  AreDistinct [] = Unit
  AreDistinct ((k, entry) ∷ rest) = (find_handle k rest ≡ none) × AreDistinct rest

  abbrev pub IsValid : OpenHandleStore Queue Layout → Type 0
  IsValid s = AreDistinct s.open_handles

  pub find-write :
      (h q : ℕ) (new old : HandleData Queue Layout) (l : List (ℕ × HandleData Queue Layout))
      → find_handle h l ≡ some old
      → find_handle q (write_handle h new l) ≡ (if h == q then some new else find_handle q l)
  unfolding find_handle write_handle
  find-write h q new old [] e = cc
  find-write h q new old ((k, entry) ∷ rest) e = ground (arith, e, find-write h q new old rest)

  find-write_other :
      (h q : ℕ) (new : HandleData Queue Layout) (l : List (ℕ × HandleData Queue Layout))
      → find_handle q l ≡ none
      → find_handle q (write_handle h new l) ≡ none
  unfolding find_handle write_handle
  find-write_other h q new [] e = refl
  find-write_other h q new ((k, entry) ∷ rest) e = ground (arith, e, find-write_other h q new rest)

  pub write-AreDistinct :
      (h : ℕ) (new : HandleData Queue Layout) (l : List (ℕ × HandleData Queue Layout))
      → AreDistinct l
      → AreDistinct (write_handle h new l)
  unfolding write_handle
  write-AreDistinct h new [] v = tt
  write-AreDistinct h new ((k, entry) ∷ rest) v = elim (Bool-cases (k == h)) [
    | inl e ↦ rw e v
    | inr e ↦ rw e (find-write_other h k new rest v.0, write-AreDistinct h new rest v.1)
  ]

  find-erase_other :
      (h q : ℕ) (l : List (ℕ × HandleData Queue Layout))
      → find_handle q l ≡ none
      → find_handle q (erase_handle h l) ≡ none
  unfolding find_handle erase_handle
  find-erase_other h q [] e = refl
  find-erase_other h q ((k, entry) ∷ rest) e = ground (arith, e, find-erase_other h q rest)

  pub find-erase :
      (h q : ℕ) (l : List (ℕ × HandleData Queue Layout))
      → AreDistinct l
      → find_handle q (erase_handle h l) ≡ (if h == q then none else find_handle q l)
  unfolding find_handle erase_handle
  find-erase h q [] v = ground arith
  find-erase h q ((k, entry) ∷ rest) v = elim (Bool-cases (k == h)) [
    | inl e ↦ ground (arith, e, v.0, ap (λ n. find_handle n rest) {x = k} {y = q})
    | inr e ↦ ground (arith, e, find-erase h q rest v.1)
  ]

  pub erase-AreDistinct :
      (h : ℕ) (l : List (ℕ × HandleData Queue Layout))
      → AreDistinct l
      → AreDistinct (erase_handle h l)
  unfolding erase_handle
  erase-AreDistinct h [] v = tt
  erase-AreDistinct h ((k, entry) ∷ rest) v = elim (Bool-cases (k == h)) [
    | inl e ↦ rw e v.1
    | inr e ↦ rw e (find-erase_other h k rest v.0, erase-AreDistinct h rest v.1)
  ]
