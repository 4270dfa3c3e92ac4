-- ===== src/Queue/Merged/Selection.antt =====
-- Which of the merged queues gives the next element, and what its removal leaves.
use pathwinder.Base.{
  ℕ, suc, ◌+◌, ◌≡◌, ◌⊎◌, refl, ap, sym, subst, ◌∙◌, Bool, true, false, List, [], ◌∷◌, ◌++◌, Option,
  none, some, get_elem?, arith, Bool-cases, inl, inr,
}
use pathwinder.Text.{Text}
use pathwinder.Infra.{Infra}
use pathwinder.Windows.{more_entries}
use pathwinder.RuleContainer.{is_lt}
use pathwinder.Queue.{DirectoryOperationQueue, FileInformation, Presents}
use pathwinder.Queue.Merged.{precedes, select_loop}

abbrev pub concat : List (List FileInformation) → List FileInformation
concat [] = []
concat (l ∷ ls) = l ++ concat ls

-- The first elements of the lists have the property.
abbrev pub Heads : (FileInformation → Type 0) → List (List FileInformation) → Type 0
Heads P [] = Unit
Heads P ([] ∷ ls) = Heads P ls
Heads P ((x ∷ xs) ∷ ls) = P x × Heads P ls

abbrev pub AreEmpty : List (List FileInformation) → Type 0
AreEmpty [] = Unit
AreEmpty ([] ∷ ls) = AreEmpty ls
AreEmpty ((x ∷ xs) ∷ ls) = ⊥

Heads-cons :
    (P : FileInformation → Type 0) (l : List FileInformation) (ls : List (List FileInformation))
    → Heads P (l ∷ [])
    → Heads P ls
    → Heads P (l ∷ ls)
Heads-cons P [] ls h k = k
Heads-cons P (x ∷ l) ls h k = (h.0, k)

AreEmpty-cons :
    (l : List FileInformation) (ls : List (List FileInformation))
    → AreEmpty (l ∷ [])
    → AreEmpty ls
    → AreEmpty (l ∷ ls)
AreEmpty-cons [] ls h k = k
AreEmpty-cons (x ∷ l) ls h k = h

module _ ⦃i : Infra⦄ where
  abbrev pub less : Text → Text → Bool
  less a b = is_lt (i.compare_case_insensitive a b)

  -- Without regard to case, no name is less than the one before it.
  abbrev pub AreSorted : List FileInformation → Type 0
  AreSorted [] = Unit
  AreSorted (x ∷ []) = Unit
  AreSorted (x ∷ y ∷ xs) = (less y.file_name x.file_name ≡ false) × AreSorted (y ∷ xs)

  abbrev pub AllSorted : List (List FileInformation) → Type 0
  AllSorted [] = Unit
  AllSorted (l ∷ ls) = AreSorted l × AllSorted ls

  less_irrefl : (a : Text) → less a a ≡ false
  less_irrefl a = ground (arith, (i.compare_lt_iff a a).0)

  less_trans : (a b c : Text) → less a b ≡ true → less b c ≡ true → less a c ≡ true
  less_trans a b c h k = ground (arith, h, k, i.compare_lt_trans a b c)

  module _ {Queue : Type 0} (ops : DirectoryOperationQueue Queue) where
    -- Each queue presents its list; a null pointer presents nothing.
    abbrev pub PresentAll : List (Option Queue) → List (List FileInformation) → Type 0
    PresentAll [] [] = Unit
    PresentAll (none ∷ qs) ([] ∷ ls) = PresentAll qs ls
    PresentAll (some q ∷ qs) (l ∷ ls) = Presents ops q l × PresentAll qs ls
    PresentAll _ _ = ⊥

    abbrev pub front : Queue → Text
    front q = ops.file_name_of_front q

    abbrev pub NotBefore : Queue → FileInformation → Type 0
    NotBefore q x = less x.file_name (front q) ≡ false

    -- The selection took a queue of the list, at a position, whose front comes before the
    -- candidate's.
    abbrev pub Taken : List (Option Queue) → ℕ → Option (ℕ × Queue) → ℕ → Queue → Type 0
    Taken qs position candidate k q =
        (j : ℕ) × (k ≡ position + j)
        × (get_elem? qs j ≡ some (some q))
        × (ops.enumeration_status q ≡ more_entries)
        × (precedes ops q candidate ≡ true)

    abbrev pub Chosen :
        List (Option Queue) → List (List FileInformation) → ℕ → Option (ℕ × Queue) → Type 0
    Chosen qs ls position candidate =
        ((select_loop ops qs position candidate ≡ none) × (candidate ≡ none) × AreEmpty ls)
        ⊎ ((k : ℕ) × (q : Queue) × (select_loop ops qs position candidate ≡ some (k, q))
            × Heads (NotBefore q) ls
            × ((candidate ≡ some (k, q)) ⊎ Taken qs position candidate k q))

    -- The loop passes by an element and keeps its candidate.
    passed_by :
        (q₀ : Option Queue) (l : List FileInformation) (qs : List (Option Queue))
        (ls : List (List FileInformation)) (position : ℕ) (candidate : Option (ℕ × Queue))
        → select_loop ops (q₀ ∷ qs) position candidate ≡ select_loop ops qs (position + 1) candidate
        → (candidate ≡ none → AreEmpty (l ∷ []))
        → ((k : ℕ) (q : Queue)
            → (candidate ≡ some (k, q)) ⊎ (precedes ops q candidate ≡ true)
            → Heads (NotBefore q) (l ∷ []))
        → Chosen qs ls (position + 1) candidate
        → Chosen (q₀ ∷ qs) (l ∷ ls) position candidate
    passed_by q₀ l qs ls position candidate step empty head (inl (e, n, z)) =
        inl (step ∙ e, n, AreEmpty-cons l ls (empty n) z)
    passed_by q₀ l qs ls position candidate step empty head (inr (k, q, e, h, inl same)) =
        inr (k, q, step ∙ e, Heads-cons (NotBefore q) l ls (head k q (inl same)) h, inl same)
    passed_by q₀ l qs ls position candidate step empty head
          (inr (k, q, e, h, inr (j, at, there, live, before))) =
        inr (
          k,
          q,
          step ∙ e,
          Heads-cons (NotBefore q) l ls (head k q (inr before)) h,
          inr (suc j, omega arith, there, live, before),
        )

    precedes_trans :
        (q c : Queue) (k : ℕ) (candidate : Option (ℕ × Queue))
        → precedes ops q (some (k, c)) ≡ true
        → precedes ops c candidate ≡ true
        → precedes ops q candidate ≡ true
    precedes_trans q c k none h g = refl
    precedes_trans q c k (some (j, d)) h g = less_trans (front q) (front c) (front d) h g

    less_asym : (a b : Text) → less a b ≡ true → less b a ≡ false
    less_asym a b h = ground (arith, h, (i.compare_lt_iff a b).0)

    -- What does not come before the candidate does not come before what is chosen over it.
    not_before :
        (a : Text) (c q : Queue) (k j : ℕ) (candidate : Option (ℕ × Queue))
        → front c ≡ a
        → precedes ops c candidate ≡ false
        → (candidate ≡ some (k, q)) ⊎ (precedes ops q candidate ≡ true)
        → less a (front q) ≡ false
    not_before a c q k j none e no_ chosen = absurd (cc)
    not_before a c q k j (some (m, d)) e no_ (inl same) = ground (arith, e, no_, same)
    not_before a c q k j (some (m, d)) e no_ (inr before) = elim (Bool-cases (less a (front q))) [
      | inr done ↦ done
      | inl less_ ↦ absurd (cc (e, no_, less_trans a (front q) (front d) less_ before))
    ]

    pub select-Chosen :
        (qs : List (Option Queue)) (ls : List (List FileInformation)) (position : ℕ)
        (candidate : Option (ℕ × Queue))
        → PresentAll qs ls
        → Chosen qs ls position candidate
    unfolding select_loop
    select-Chosen [] [] position none p = inl (refl, refl, tt)
    select-Chosen [] [] position (some (k, q)) p = inr (k, q, refl, tt, inl refl)
    select-Chosen [] (l ∷ ls) position candidate p = absurd p
    select-Chosen (none ∷ qs) [] position candidate p = absurd p
    select-Chosen (some q ∷ qs) [] position candidate p = absurd p
    select-Chosen (none ∷ qs) ((x ∷ l) ∷ ls) position candidate p = absurd p
    select-Chosen (none ∷ qs) ([] ∷ ls) position candidate p =
        passed_by none [] qs ls position candidate refl (λ n. tt) (λ k q b. tt)
          (select-Chosen qs ls (position + 1) candidate p)
    select-Chosen (some c ∷ qs) ([] ∷ ls) position candidate p =
        passed_by (some c) [] qs ls position candidate (ground (arith, p.0)) (λ n. tt) (λ k q b. tt)
          (select-Chosen qs ls (position + 1) candidate p.1)
    select-Chosen (some c ∷ qs) ((x ∷ l) ∷ ls) position candidate (c_presents, p) =
        let named : front c ≡ x.file_name = c_presents.1 in
        elim (Bool-cases (precedes ops c candidate)) [
          | inr no_ ↦
              passed_by (some c) (x ∷ l) qs ls position candidate
                (ground (arith, c_presents.0, no_)) (λ n. absurd (cc (ap (precedes ops c) n, no_)))
                (λ k q chosen. (not_before x.file_name c q k 0 candidate named no_ chosen, tt))
                (select-Chosen qs ls (position + 1) candidate p)
          | inl yes_ ↦
              let step : select_loop ops (some c ∷ qs) position candidate
                  ≡ select_loop ops qs (position + 1) (some (position, c)) =
                ground (arith, c_presents.0, yes_) in
              elim (select-Chosen qs ls (position + 1) (some (position, c)) p) [
                | inl (e, bad, z) ↦ absurd (cc)
                | inr (k, q, e, h, inl same) ↦
                    let same_queue : q ≡ c = cc in
                    inr (
                      position,
                      c,
                      step ∙ e ∙ sym same,
                      (
                        rw (sym named) (less_irrefl (front c)),
                        subst (λ d. Heads (NotBefore d) ls) same_queue h,
                      ),
                      inr (0, omega arith, refl, c_presents.0, yes_),
                    )
                | inr (k, q, e, h, inr (j, at, there, live, before)) ↦ inr (
                  k,
                  q,
                  step ∙ e,
                  (rw (sym named) (less_asym (front q) (front c) before), h),
                  inr (
                    suc j,
                    omega arith,
                    there,
                    live,
                    precedes_trans q c position candidate before yes_,
                  ),
                )
              ]
        ]
