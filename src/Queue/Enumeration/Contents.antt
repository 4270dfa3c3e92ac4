-- ===== src/Queue/Enumeration/Contents.antt =====
-- What an EnumerationQueue gives, from what the system says that the directory holds.
use pathwinder.Base.{
  ℕ, zero, suc, ◌<◌, ◌≡◌, refl, ap, true, List, [], ◌∷◌, some, if◌then◌else◌, ◌∙◌, take, length,
  arith, Bool-cases, inl, inr,
}
use pathwinder.Text.{Text}
use pathwinder.Infra.{Infra}
use pathwinder.Windows.{value}
use pathwinder.Instruction.{SingleDirectoryEnumeration, should_include_in_directory_enumeration}
use pathwinder.FileInformation.{FileInformationStructLayout, layout_for_file_information_class}
use pathwinder.Queue.{FileInformation, Presents}
use pathwinder.Queue.Enumeration.{
  bytes_per_buffer, DirectorySystem, EnumerationQueue, take_batch, advance_queue_contents,
  front_name, pop_one, skip_non_matching, pop_matching, restart_scan_of, enumeration_operations,
  started, new_enumeration_queue,
}
use pathwinder.Queue.Enumeration.Batches.{
  Remains, take-Remains, rest_of, pop-Remains, concat-rest_of, take-instruction, pop-instruction,
  front-Stands, Answers, concat,
}

-- The structures whose names the instruction includes.
unfoldable pub included :
    ⦃i : Infra⦄ → SingleDirectoryEnumeration → List FileInformation → List FileInformation
included e [] = []
included e (x ∷ xs) =
    if should_include_in_directory_enumeration e x.file_name
    then x ∷ included e xs
    else included e xs

module _ ⦃i : Infra⦄ {Handle : Type 0} (system : DirectorySystem Handle) where
  -- With enough fuel the skipping ends, at the first structure that is included, and from there on
  -- the queue presents all that are.
  skip-Presents :
      (outer fuel : ℕ) (e : SingleDirectoryEnumeration) (xs : List FileInformation)
      (bs : List (List FileInformation)) (q : EnumerationQueue Handle)
      → concat bs ≡ xs
      → length xs < outer
      → length xs < fuel
      → q.match_instruction ≡ e
      → Remains system q bs
      → (q' : EnumerationQueue Handle) × (skip_non_matching system fuel q ≡ some q')
        × Presents (enumeration_operations system outer) q' (included e xs)
  unfolding skip_non_matching included pop_matching
  skip-Presents outer zero e xs bs q same lo lf m r = absurd (omega arith)
  skip-Presents outer (suc fuel) e [] [] q same lo lf m r = (q, ground (arith, r), r)
  skip-Presents outer (suc fuel) e (x ∷ xs) [] q same lo lf m r = absurd (cc)
  skip-Presents outer (suc fuel) e xs ([] ∷ bs) q same lo lf m r = absurd (r.1)
  skip-Presents outer (suc fuel) e [] ((y ∷ b) ∷ bs) q same lo lf m r = absurd (cc)
  skip-Presents outer (suc fuel) e (x ∷ xs) ((y ∷ b) ∷ bs) q same lo lf m r =
      let first : y ≡ x = cc in
      let others : concat (rest_of system b bs) ≡ xs = cc (concat-rest_of system b bs) in
      let (name, size, copy) = front-Stands system q y b r.1 in
      let test : should_include_in_directory_enumeration q.match_instruction (front_name system q)
          ≡ should_include_in_directory_enumeration e x.file_name =
        cc (name, m, first) in
      let popped = pop-Remains system q y b bs r in
      let kept = pop-instruction system q ∙ m in
      elim (Bool-cases (should_include_in_directory_enumeration e x.file_name)) [
        | inl yes_ ↦
            let (q', found, after) =
              skip-Presents outer outer e xs (rest_of system b bs) (pop_one system q) others
                (omega arith) (omega arith) kept popped in
            rw yes_ (
              q,
              ground (arith, r.0, test, yes_),
              (
                r.0,
                name ∙ ap (λ z. z.file_name) first,
                size ∙ ap (λ z. length z.structure) first,
                λ capacity. copy capacity ∙ ap (λ z. take capacity z.structure) first,
                (q', found, after),
              ),
            )
        | inr no_ ↦
            let (q', found, after) =
              skip-Presents outer fuel e xs (rest_of system b bs) (pop_one system q) others
                (omega arith) (omega arith) kept popped in
            rw no_ (q', ground (arith, r.0, test, no_, found), after)
      ]

  -- A directory that can be opened, and whose contents the system gives in these batches for the
  -- pattern, makes a queue that presents them in their order, without the names that the
  -- instruction leaves out. The fuel exceeds the number of structures.
  pub new_queue-Presents :
      (fuel : ℕ) (e : SingleDirectoryEnumeration) (path : Text) (c : ℕ) (pattern_ : Text)
      (l : FileInformationStructLayout) (handle : Handle) (bs : List (List FileInformation))
      → layout_for_file_information_class c ≡ some l
      → system.open_directory_for_enumeration path ≡ value handle
      → Answers system l c
          (system.partial_enumerate_directory_contents handle c bytes_per_buffer true pattern_)
          bs
      → length (concat bs) < fuel
      → (q : EnumerationQueue Handle) × (new_enumeration_queue system fuel e path c pattern_
          ≡ some q)
        × Presents (enumeration_operations system fuel) q (included e (concat bs))
  unfolding new_enumeration_queue restart_scan_of advance_queue_contents
  new_queue-Presents fuel e path c pattern_ l handle bs known opened answers enough =
      let q = started e c l (some handle) 0 in
      let answer =
        system.partial_enumerate_directory_contents handle c bytes_per_buffer true pattern_ in
      let (q', found, presents) =
        skip-Presents fuel fuel e (concat bs) bs (take_batch system q answer) refl enough enough
          (take-instruction system q answer) (take-Remains system q answer bs answers) in
      (q', ground (arith, known, opened, found), presents)
