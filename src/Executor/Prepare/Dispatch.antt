-- ===== src/Executor/Prepare/Dispatch.antt =====
-- Dynamic dispatch and the choice between one queue and a merged one.
use mathlib.Core.List.{Perm}
use mathlib.Core.List.Perm
use mathlib.Core.Option
use pathwinder.Base.{ℕ, ◌≡◌, ◌≢◌, refl, ap, List, [], ◌∷◌, map, some, append-nil}
use pathwinder.Base.{Option as Maybe}
use pathwinder.Infra.{Infra}
use pathwinder.Queue.{FileInformation, Presents}
use pathwinder.Queue.Enumeration.{DirectorySystem, EnumerationQueue, enumeration_operations}
use pathwinder.Queue.NameInsertion.{SingleFileQuery, NameInsertionQueue, insertion_operations}
use pathwinder.Queue.Merged.{MergedFileInformationQueue, merged_operations}
use pathwinder.Queue.Merged.Selection.{concat, AreSorted, AllSorted, PresentAll}
use pathwinder.Queue.Merged.Merge.{merged-Presents}
use pathwinder.Executor.Prepare.{
  UnderlyingQueue, enumeration, insertion, HandleQueue, single, merged, underlying_operations,
  handle_operations, combine_queues,
}

module _ ⦃i : Infra⦄ {Handle : Type 0} (system : DirectorySystem Handle) (query : SingleFileQuery)
    (fuel : ℕ) where
  -- Dynamic dispatch keeps what a queue presents.
  pub enumeration-Presents :
      (xs : List FileInformation) (q : EnumerationQueue Handle)
      → Presents (enumeration_operations system fuel) q xs
      → Presents (underlying_operations system query fuel) (enumeration q) xs
  enumeration-Presents [] q p = p
  enumeration-Presents (x ∷ xs) q (live, name, size, copy, (q', pop, next)) = (
    live,
    name,
    size,
    copy,
    (enumeration q', ap (Option.map enumeration) pop, enumeration-Presents xs q' next),
  )

  pub insertion-Presents :
      (xs : List FileInformation) (q : NameInsertionQueue)
      → Presents (insertion_operations query) q xs
      → Presents (underlying_operations system query fuel) (insertion q) xs
  insertion-Presents [] q p = p
  insertion-Presents (x ∷ xs) q (live, name, size, copy, (q', pop, next)) = (
    live,
    name,
    size,
    copy,
    (insertion q', ap (Option.map insertion) pop, insertion-Presents xs q' next),
  )

  single-Presents :
      (xs : List FileInformation) (q : UnderlyingQueue Handle)
      → Presents (underlying_operations system query fuel) q xs
      → Presents (handle_operations system query fuel) (single q) xs
  single-Presents [] q p = p
  single-Presents (x ∷ xs) q (live, name, size, copy, (q', pop, next)) =
      (live, name, size, copy, (single q', ap (Option.map single) pop, single-Presents xs q' next))

  merged_kind-Presents :
      (xs : List FileInformation) (q : MergedFileInformationQueue (UnderlyingQueue Handle))
      → Presents (merged_operations (underlying_operations system query fuel)) q xs
      → Presents (handle_operations system query fuel) (merged q) xs
  merged_kind-Presents [] q p = p
  merged_kind-Presents (x ∷ xs) q (live, name, size, copy, (q', pop, next)) = (
    live,
    name,
    size,
    copy,
    (merged q', ap (Option.map merged) pop, merged_kind-Presents xs q' next),
  )

  -- A queue that gives the lists together.
  abbrev pub GivesAll : Maybe (HandleQueue Handle) → List (List FileInformation) → Type 0
  GivesAll queue ls =
      (q : HandleQueue Handle) × (xs : List FileInformation) × (queue ≡ some q)
      × Presents (handle_operations system query fuel) q xs
      × Perm (concat ls) xs
      × AreSorted xs

  combined-GivesAll :
      (q : UnderlyingQueue Handle) (qs : List (UnderlyingQueue Handle))
      (ls : List (List FileInformation))
      → PresentAll (underlying_operations system query fuel) (map some (q ∷ qs)) ls
      → AllSorted ls
      → GivesAll (combine_queues system query fuel (q ∷ qs)) ls
  unfolding combine_queues
  combined-GivesAll q [] (l ∷ []) p s =
      (single q, l, refl, single-Presents l q p.0, rw (append-nil l) (Perm.refl l), s.0)
  combined-GivesAll q [] [] p s = absurd p
  combined-GivesAll q [] (l ∷ l' ∷ ls) p s = absurd (p.1)
  combined-GivesAll q (q' ∷ qs) ls p s =
      let (xs, presents, perm, sorted) =
        merged-Presents (underlying_operations system query fuel) (map some (q ∷ q' ∷ qs)) ls p s in
      (merged _, xs, refl, merged_kind-Presents xs _ presents, perm, sorted)

  pub any-GivesAll :
      (qs : List (UnderlyingQueue Handle)) (ls : List (List FileInformation))
      → PresentAll (underlying_operations system query fuel) (map some qs) ls
      → AllSorted ls
      → ls ≢ []
      → GivesAll (combine_queues system query fuel qs) ls
  any-GivesAll [] [] p s some_list = absurd (some_list refl)
  any-GivesAll [] (l ∷ ls) p s some_list = absurd p
  any-GivesAll (q ∷ qs) ls p s some_list = combined-GivesAll q qs ls p s
