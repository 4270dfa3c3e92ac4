-- ===== src/Queue/Merged/Merge.antt =====
-- The merge of queues is a merge: nothing is lost, and sorted lists stay sorted.
use mathlib.Core.List.{Perm}
use mathlib.Core.List.Perm
use pathwinder.Base.{
  ℕ, zero, suc, ◌≡◌, refl, subst, false, List, [], ◌∷◌, Option, none, some, set, get_elem?, length,
  arith, inl, inr,
}
use pathwinder.Text.{Text}
use pathwinder.Infra.{Infra}
use pathwinder.Windows.{no_more_files}
use pathwinder.Queue.{DirectoryOperationQueue, FileInformation, Presents}
use pathwinder.Queue.Merged.{select_loop, new_merged_queue, merged_status, merged_operations}
use pathwinder.Queue.Merged.Selection.{
  concat, Heads, less, AreSorted, AllSorted, PresentAll, select-Chosen,
}
use pathwinder.Queue.Merged.Contents.{
  concat-empty, concat-Perm, concat-length, list-cases, Heads-set, Heads-at, sorted-at, sorted-set,
  sorted-tail, sorted-head, sorted-cons, list-at, present-set, no_errors, front-Presents,
}

module _ ⦃i : Infra⦄ {Queue : Type 0} (ops : DirectoryOperationQueue Queue) where
  -- No name comes before the text.
  abbrev From : Text → FileInformation → Type 0
  From b x = less x.file_name b ≡ false

  -- What is merged, and from which name on.
  abbrev Merged : List (Option Queue) → List (List FileInformation) → Type 0
  Merged qs ls =
      (xs : List FileInformation) × Presents (merged_operations ops) (new_merged_queue ops qs) xs
      × Perm (concat ls) xs
      × AreSorted xs
      × ((b : Text) → Heads (From b) ls → Heads (From b) (xs ∷ []))

  merge_step :
      (qs : List (Option Queue)) (ls : List (List FileInformation)) (j : ℕ) (q q' : Queue)
      (x : FileInformation) (l : List FileInformation)
      → PresentAll ops qs ls
      → AllSorted ls
      → select_loop ops qs 0 none ≡ some (j, q)
      → Heads (From x.file_name) ls
      → get_elem? qs j ≡ some (some q)
      → get_elem? ls j ≡ some (x ∷ l)
      → Presents ops q (x ∷ l)
      → ops.pop_front q ≡ some q'
      → Merged (set qs j (some q')) (set ls j l)
      → Merged qs ls
  merge_step qs ls j q q' x l p s e h at at_l front pop (xs, rest, perm, sorted, from) =
      let sorted_list = sorted-at ls j (x ∷ l) at_l s in
      (
        x ∷ xs,
        front-Presents ops qs ls j q q' x l xs p e at front pop rest,
        Perm.trans (concat-Perm ls j x l at_l) (Perm.cons x perm),
        sorted-cons x xs
            (from x.file_name (Heads-set (From x.file_name) ls j l h (sorted-head x l sorted_list)))
            sorted,
        λ b heads. (Heads-at (From b) ls j x l at_l heads, tt),
      )

  nothing_left :
      (qs : List (Option Queue)) (ls : List (List FileInformation))
      → PresentAll ops qs ls
      → select_loop ops qs 0 none ≡ none
      → merged_status ops (new_merged_queue ops qs) ≡ no_more_files
  unfolding merged_status new_merged_queue
  nothing_left qs ls p e = ground (arith, e, no_errors ops qs ls p)

  -- The selection, and a merge of what its removal leaves.
  merge_by :
      (qs : List (Option Queue)) (ls : List (List FileInformation))
      → PresentAll ops qs ls
      → AllSorted ls
      → ((qs' : List (Option Queue)) (ls' : List (List FileInformation))
          → length (concat ls) ≡ suc (length (concat ls'))
          → PresentAll ops qs' ls'
          → AllSorted ls'
          → Merged qs' ls')
      → Merged qs ls
  merge_by qs ls p s smaller = elim (select-Chosen ops qs ls 0 none p) [
    | inl (e, _, empty) ↦
        ([], nothing_left qs ls p e, rw (concat-empty ls empty) (Perm.refl []), tt, λ b heads. tt)
    | inr (k, q, e, h, inl bad) ↦ absurd (cc)
    | inr (k, q, e, h, inr (j, at, there, live, _)) ↦
        let here : k ≡ j = omega arith in
        let chosen = subst (λ m. select_loop ops qs 0 none ≡ some (m, q)) here e in
        let (l, at_l, presents) = list-at ops qs ls j q p there in
        elim (list-cases l) [
          | inl nil ↦ absurd (omega (arith, subst (Presents ops q) nil presents, live))
          | inr (x, xs, cons_) ↦
              let front = subst (Presents ops q) cons_ presents in
              let at_cons = subst (λ m. get_elem? ls j ≡ some m) cons_ at_l in
              let (q', pop, next) = front.4 in
              merge_step qs ls j q q' x xs p s chosen (subst (λ a. Heads (From a) ls) (front.1) h)
                there at_cons front pop
                (smaller (set qs j (some q')) (set ls j xs) (concat-length ls j x xs at_cons)
                  (present-set ops qs ls j q q' xs p there next)
                  (sorted-set ls j xs s (sorted-tail x xs (sorted-at ls j (x ∷ xs) at_cons s))))
        ]
  ]

  merge_all :
      (n : ℕ) (qs : List (Option Queue)) (ls : List (List FileInformation))
      → length (concat ls) ≡ n
      → PresentAll ops qs ls
      → AllSorted ls
      → Merged qs ls
  merge_all zero qs ls size p s = merge_by qs ls p s (λ qs' ls' smaller p' s'. absurd (omega arith))
  merge_all (suc n) qs ls size p s =
      merge_by qs ls p s (λ qs' ls' smaller p' s'. merge_all n qs' ls' (omega arith) p' s')

  -- Queues of any kind that each present a list, in order without regard to case, make a merged
  -- queue that presents all their structures, as often as they do, in order. Null pointers count
  -- for nothing.
  pub merged-Presents :
      (qs : List (Option Queue)) (ls : List (List FileInformation))
      → PresentAll ops qs ls
      → AllSorted ls
      → (xs : List FileInformation) × Presents (merged_operations ops) (new_merged_queue ops qs) xs
        × Perm (concat ls) xs
        × AreSorted xs
  merged-Presents qs ls p s =
      let (xs, presents, perm, sorted, from) = merge_all (length (concat ls)) qs ls refl p s in
      (xs, presents, perm, sorted)
