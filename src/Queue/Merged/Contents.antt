-- ===== src/Queue/Merged/Contents.antt =====
-- What a MergedFileInformationQueue gives, from what the merged queues give.
use mathlib.Core.List.{Perm, perm_middle}
use mathlib.Core.List.Perm
use pathwinder.Base.{
  ℕ, zero, suc, ◌≡◌, ◌⊎◌, refl, ap, subst, false, List, [], ◌∷◌, ◌++◌, Option, none, some, set,
  get_elem?, length, length-append, arith, inl, inr,
}
use pathwinder.Infra.{Infra}
use pathwinder.Queue.{DirectoryOperationQueue, FileInformation, Presents}
use pathwinder.Queue.Merged.{
  select_loop, new_merged_queue, first_error, merged_status, front_queue, merged_copy, merged_name,
  merged_size, merged_pop, merged_operations,
}
use pathwinder.Queue.Merged.Selection.{
  concat, Heads, AreEmpty, less, AreSorted, AllSorted, PresentAll,
}

pub concat-empty : (ls : List (List FileInformation)) → AreEmpty ls → concat ls ≡ []
concat-empty [] h = refl
concat-empty ([] ∷ ls) h = concat-empty ls h
concat-empty ((x ∷ xs) ∷ ls) h = absurd h

-- An element is taken from the front of one list.
pub concat-Perm :
    (ls : List (List FileInformation)) (j : ℕ) (x : FileInformation) (xs : List FileInformation)
    → get_elem? ls j ≡ some (x ∷ xs)
    → Perm (concat ls) (x ∷ concat (set ls j xs))
concat-Perm [] j x xs at = cc
concat-Perm (l ∷ ls) zero x xs at =
    let taken : x ∷ xs ≡ l = cc in
    subst (λ l'. Perm (l' ++ concat ls) (x ∷ (xs ++ concat ls))) taken
      (Perm.refl (x ∷ (xs ++ concat ls)))
concat-Perm (l ∷ ls) (suc j) x xs at =
    Perm.trans (Perm.append_left l (concat-Perm ls j x xs at))
      (perm_middle l (concat (set ls j xs)))

pub concat-length :
    (ls : List (List FileInformation)) (j : ℕ) (x : FileInformation) (xs : List FileInformation)
    → get_elem? ls j ≡ some (x ∷ xs)
    → length (concat ls) ≡ suc (length (concat (set ls j xs)))
concat-length [] j x xs at = cc
concat-length (l ∷ ls) zero x xs at =
    let taken : l ≡ x ∷ xs = cc in ap (λ l'. length (l' ++ concat ls)) taken
concat-length (l ∷ ls) (suc j) x xs at = omega (
  arith,
  length-append {0} l (concat ls),
  length-append {0} l (concat (set ls j xs)),
  concat-length ls j x xs at,
)

pub list-cases :
    (l : List FileInformation)
    → (l ≡ []) ⊎ ((x : FileInformation) × (xs : List FileInformation) × (l ≡ x ∷ xs))
list-cases [] = inl refl
list-cases (x ∷ xs) = inr (x, xs, refl)

pub Heads-set :
    (P : FileInformation → Type 0) (ls : List (List FileInformation)) (j : ℕ)
    (xs : List FileInformation)
    → Heads P ls
    → Heads P (xs ∷ [])
    → Heads P (set ls j xs)
Heads-set P [] j xs h k = tt
Heads-set P ([] ∷ ls) zero [] h k = h
Heads-set P ([] ∷ ls) zero (y ∷ ys) h k = (k.0, h)
Heads-set P ((z ∷ zs) ∷ ls) zero [] h k = h.1
Heads-set P ((z ∷ zs) ∷ ls) zero (y ∷ ys) h k = (k.0, h.1)
Heads-set P ([] ∷ ls) (suc j) xs h k = Heads-set P ls j xs h k
Heads-set P ((z ∷ zs) ∷ ls) (suc j) xs h k = (h.0, Heads-set P ls j xs h.1 k)

pub Heads-at :
    (P : FileInformation → Type 0) (ls : List (List FileInformation)) (j : ℕ) (x : FileInformation)
    (xs : List FileInformation)
    → get_elem? ls j ≡ some (x ∷ xs)
    → Heads P ls
    → P x
Heads-at P [] j x xs at h = cc
Heads-at P ([] ∷ ls) zero x xs at h = absurd (cc)
Heads-at P ((z ∷ zs) ∷ ls) zero x xs at h = subst P (cc) h.0
Heads-at P ([] ∷ ls) (suc j) x xs at h = Heads-at P ls j x xs at h
Heads-at P ((z ∷ zs) ∷ ls) (suc j) x xs at h = Heads-at P ls j x xs at h.1

module _ ⦃i : Infra⦄ where
  pub sorted-at :
      (ls : List (List FileInformation)) (j : ℕ) (l : List FileInformation)
      → get_elem? ls j ≡ some l
      → AllSorted ls
      → AreSorted l
  sorted-at [] j l at s = cc
  sorted-at (k ∷ ls) zero l at s = subst AreSorted (cc) s.0
  sorted-at (k ∷ ls) (suc j) l at s = sorted-at ls j l at s.1

  pub sorted-set :
      (ls : List (List FileInformation)) (j : ℕ) (l : List FileInformation)
      → AllSorted ls
      → AreSorted l
      → AllSorted (set ls j l)
  sorted-set [] j l s t = tt
  sorted-set (k ∷ ls) zero l s t = (t, s.1)
  sorted-set (k ∷ ls) (suc j) l s t = (s.0, sorted-set ls j l s.1 t)

  pub sorted-tail :
      (x : FileInformation) (xs : List FileInformation) → AreSorted (x ∷ xs) → AreSorted xs
  sorted-tail x [] s = tt
  sorted-tail x (y ∷ xs) s = s.1

  pub sorted-head :
      (x : FileInformation) (xs : List FileInformation)
      → AreSorted (x ∷ xs)
      → Heads (λ y. less y.file_name x.file_name ≡ false) (xs ∷ [])
  sorted-head x [] s = tt
  sorted-head x (y ∷ xs) s = (s.0, tt)

  pub sorted-cons :
      (x : FileInformation) (xs : List FileInformation)
      → Heads (λ y. less y.file_name x.file_name ≡ false) (xs ∷ [])
      → AreSorted xs
      → AreSorted (x ∷ xs)
  sorted-cons x [] h s = tt
  sorted-cons x (y ∷ xs) h s = (h.0, s)

  module _ {Queue : Type 0} (ops : DirectoryOperationQueue Queue) where
    -- A live queue presents a list that is not empty.
    pub list-at :
        (qs : List (Option Queue)) (ls : List (List FileInformation)) (j : ℕ) (q : Queue)
        → PresentAll ops qs ls
        → get_elem? qs j ≡ some (some q)
        → (l : List FileInformation) × (get_elem? ls j ≡ some l) × Presents ops q l
    list-at [] ls j q p at = cc
    list-at (none ∷ qs) [] j q p at = absurd p
    list-at (some c ∷ qs) [] j q p at = absurd p
    list-at (none ∷ qs) ((x ∷ l) ∷ ls) j q p at = absurd p
    list-at (none ∷ qs) ([] ∷ ls) zero q p at = absurd (cc)
    list-at (none ∷ qs) ([] ∷ ls) (suc j) q p at = list-at qs ls j q p at
    list-at (some c ∷ qs) (l ∷ ls) zero q p at = (l, refl, subst (λ d. Presents ops d l) (cc) p.0)
    list-at (some c ∷ qs) (l ∷ ls) (suc j) q p at = list-at qs ls j q p.1 at

    pub present-set :
        (qs : List (Option Queue)) (ls : List (List FileInformation)) (j : ℕ) (q q' : Queue)
        (l : List FileInformation)
        → PresentAll ops qs ls
        → get_elem? qs j ≡ some (some q)
        → Presents ops q' l
        → PresentAll ops (set qs j (some q')) (set ls j l)
    present-set [] ls j q q' l p at new = cc
    present-set (none ∷ qs) [] j q q' l p at new = absurd p
    present-set (some c ∷ qs) [] j q q' l p at new = absurd p
    present-set (none ∷ qs) ((x ∷ k) ∷ ls) j q q' l p at new = absurd p
    present-set (none ∷ qs) ([] ∷ ls) zero q q' l p at new = absurd (cc)
    present-set (none ∷ qs) ([] ∷ ls) (suc j) q q' l p at new = present-set qs ls j q q' l p at new
    present-set (some c ∷ qs) (k ∷ ls) zero q q' l p at new = (new, p.1)
    present-set (some c ∷ qs) (k ∷ ls) (suc j) q q' l p at new =
        (p.0, present-set qs ls j q q' l p.1 at new)

    pub no_errors :
        (qs : List (Option Queue)) (ls : List (List FileInformation))
        → PresentAll ops qs ls
        → first_error ops qs ≡ none
    unfolding first_error
    no_errors [] ls p = refl
    no_errors (none ∷ qs) [] p = absurd p
    no_errors (some c ∷ qs) [] p = absurd p
    no_errors (none ∷ qs) ((x ∷ l) ∷ ls) p = absurd p
    no_errors (none ∷ qs) ([] ∷ ls) p = no_errors qs ls p
    no_errors (some c ∷ qs) ([] ∷ ls) p = ground (arith, p.0, no_errors qs ls p.1)
    no_errors (some c ∷ qs) ((x ∷ l) ∷ ls) p = ground (arith, p.0.0, no_errors qs ls p.1)

    -- The pointer and the queue behind it, once the queue at a position is selected.
    pointer :
        (qs : List (Option Queue)) (j : ℕ) (q : Queue)
        → select_loop ops qs 0 none ≡ some (j, q)
        → (new_merged_queue ops qs).front_element_source_queue ≡ some j
    unfolding new_merged_queue
    pointer qs j q e = rw e refl

    front_is :
        (qs : List (Option Queue)) (j : ℕ) (q : Queue)
        → select_loop ops qs 0 none ≡ some (j, q)
        → get_elem? qs j ≡ some (some q)
        → front_queue ops (new_merged_queue ops qs) ≡ some q
    unfolding front_queue new_merged_queue
    front_is qs j q e at = ground (arith, e, at)

    popped :
        (qs : List (Option Queue)) (j : ℕ) (q q' : Queue)
        → select_loop ops qs 0 none ≡ some (j, q)
        → get_elem? qs j ≡ some (some q)
        → ops.pop_front q ≡ some q'
        → merged_pop ops (new_merged_queue ops qs)
          ≡ some (new_merged_queue ops (set qs j (some q')))
    unfolding merged_pop new_merged_queue
    popped qs j q q' e at pop = ground (arith, e, at, pop)

    -- If the front is taken from a selected queue, and the rest is presented, so is the whole.
    pub front-Presents :
        (qs : List (Option Queue)) (ls : List (List FileInformation)) (j : ℕ) (q q' : Queue)
        (x : FileInformation) (l xs : List FileInformation)
        → PresentAll ops qs ls
        → select_loop ops qs 0 none ≡ some (j, q)
        → get_elem? qs j ≡ some (some q)
        → Presents ops q (x ∷ l)
        → ops.pop_front q ≡ some q'
        → Presents (merged_operations ops) (new_merged_queue ops (set qs j (some q'))) xs
        → Presents (merged_operations ops) (new_merged_queue ops qs) (x ∷ xs)
    unfolding merged_status merged_copy merged_name merged_size new_merged_queue
    front-Presents qs ls j q q' x l xs p e at (live, name, size, copy, next) pop rest =
        let behind = front_is qs j q e at in
        (
          ground (arith, no_errors qs ls p, pointer qs j q e),
          ground (arith, behind, name),
          ground (arith, behind, size),
          λ capacity. ground (arith, behind, copy capacity),
          (new_merged_queue ops (set qs j (some q')), popped qs j q q' e at pop, rest),
        )
