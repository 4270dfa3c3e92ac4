-- ===== src/Executor/Advance/Delivery.antt =====
-- What the calls that advance an enumeration give to the application.
use Prim.Native.Nat.{bit_and}
use pathwinder.Base.{
  ℕ, ◌≤◌, ◌<◌, ◌≡◌, ◌⊎◌, inl, inr, ◌^◌, ◌-◌, Bool-cases, refl, ap, sym, ◌∙◌, subst, true, false,
  ◌||◌, List, [], ◌∷◌, ◌++◌, none, some, ◌==◌, length, take, arith,
}
use pathwinder.Text.{Text}
use pathwinder.Infra.{Infra}
use pathwinder.Windows.{success, more_entries, no_more_files}
use pathwinder.FileInformation.{Bytes, FileInformationStructLayout}
use pathwinder.FileInformation.Copies.{segments, encoded, cleared, cleared-elim, clear-encoded}
use pathwinder.Queue.{DirectoryOperationQueue, FileInformation, Presents}
use pathwinder.Executor.Advance.{
  Enumeration, Advanced, max_elements_of, sl_return_single_entry, advance_directory_enumeration,
  finish_delivery, Delivered, is_enumerated,
}
use pathwinder.Executor.Advance.Names.{
  unique, IsFresh, names_with, total_size, structures, AreWhole, total_size-total,
}
use pathwinder.Executor.Advance.Rounds.{Copied}
use pathwinder.Executor.Advance.Loop.{Stops, Delivers, loop-Delivers}

-- Why a call that gave some structures stops: nothing is left, the application asked for a single
-- entry, the count is at its greatest value, or the next structure has no room behind the given
-- ones.
abbrev pub StopsAt : ℕ → ℕ → List FileInformation → List FileInformation → Type 0
StopsAt size query_flags written [] = Unit
StopsAt size query_flags written (y ∷ ys) =
    (((bit_and query_flags sl_return_single_entry == 0) ≡ false) × (1 ≤ length written))
    ⊎ ((2 ^ 32 - 1 ≤ length written) ⊎ (size - total_size written < length y.structure))

module _ ⦃i : Infra⦄ {Queue : Type 0} (ops : DirectoryOperationQueue Queue) where
  status_of_rest :
      (q : Queue) (xs : List FileInformation)
      → Presents ops q xs
      → (ops.enumeration_status q == more_entries || ops.enumeration_status q == no_more_files)
        ≡ true
  status_of_rest q [] p = ground (arith, p)
  status_of_rest q (x ∷ xs) p = ground (arith, p.0)

module _ ⦃i : Infra⦄ {Queue : Type 0} (ops : DirectoryOperationQueue Queue)
    (layout : FileInformationStructLayout) where
  -- The first structure has room, so it is given.
  progress :
      (size query_flags : ℕ) (names : List Text) (before d : Delivered Queue) (x : FileInformation)
      (xs written rest : List FileInformation)
      → before.filenames ≡ names
      → before.bytes_written ≡ 0
      → before.elements_written ≡ 0
      → is_enumerated names x.file_name ≡ false
      → length x.structure ≤ size
      → Delivers ops layout size (max_elements_of query_flags) before (x ∷ xs) d written rest
      → 0 < length written
  unfolding unique
  progress size flags names before d x xs (w ∷ written) rest n b e fresh room given = omega arith
  progress size flags names before d x xs [] [] n b e fresh room given =
      let seen : is_enumerated before.filenames x.file_name ≡ false =
        ap (λ ns. is_enumerated ns x.file_name) n ∙ fresh in
      absurd (ground (arith, given.1, seen))
  progress size flags names before d x xs [] (y ∷ rest) n b e fresh room given =
      let seen : is_enumerated before.filenames x.file_name ≡ false =
        ap (λ ns. is_enumerated ns x.file_name) n ∙ fresh in
      let first : x ≡ y = ground (arith, given.1, seen, given.2) in
      let sizes : length x.structure ≡ length y.structure = ap (λ z. length z.structure) first in
      absurd (ground (arith, given.7, given.5, given.4, b, e, sizes, room))

module _ ⦃i : Infra⦄ {Queue : Type 0} (ops : DirectoryOperationQueue Queue) where
  finish-cleared :
      (e : Enumeration Queue) (d : Delivered Queue)
      → (finish_delivery ops e d).output
        ≡ cleared e.file_information_struct_layout d.last_position d.output
  unfolding finish_delivery
  finish-cleared e d = cleared-elim e.file_information_struct_layout d.last_position d.output

  -- What the application's buffer holds after a call that gave some structures.
  finish-encoded :
      (e : Enumeration Queue) (before d : Delivered Queue) (written : List FileInformation)
      → before.bytes_written ≡ 0
      → 0 < length written
      → d.bytes_written ≡ total_size written
      → Copied ops e.file_information_struct_layout before d written
      → take (total_size written) (finish_delivery ops e d).output
        ≡ encoded e.file_information_struct_layout (structures written)
  unfolding finish_delivery
  finish-encoded e before d [] none_before some_written bytes copied = absurd (omega arith)
  finish-encoded e before d (x ∷ written) none_before some_written bytes (copied, same, last) =
      let l = e.file_information_struct_layout in
      let ss = structures written in
      let k = total_size (x ∷ written) in
      let whole : take k d.output ≡ segments l (x.structure ∷ ss) =
        subst
          (λ n.
            take n d.output
            ≡ take before.bytes_written before.output ++ segments l (x.structure ∷ ss))
          bytes copied
        ∙ ap (λ n. take n before.output ++ segments l (x.structure ∷ ss)) none_before in
      ap (take k) (finish-cleared e d)
      ∙ ap (λ p. take k (cleared l p d.output)) last
      ∙ clear-encoded l d.output [] before.bytes_written k before.last_position x.structure ss
          (sym none_before) (omega (arith, none_before, total_size-total l (x ∷ written))) whole

  Stops-StopsAt :
      (size query_flags : ℕ) (d : Delivered Queue) (written rest : List FileInformation)
      → d.bytes_written ≡ total_size written
      → d.elements_written ≡ length written
      → Stops ops size (max_elements_of query_flags) d rest
      → StopsAt size query_flags written rest
  Stops-StopsAt size query_flags d written [] bytes elements stops = tt
  Stops-StopsAt size query_flags d written (y ∷ ys) bytes elements (inr no_room) =
      inr (inr (omega (arith, bytes, no_room)))
  Stops-StopsAt size query_flags d written (y ∷ ys) bytes elements (inl full) =
      elim (Bool-cases (bit_and query_flags sl_return_single_entry == 0)) [
        | inl many ↦ inr (inl (ground (arith, many, full, elements)))
        | inr single ↦ inl (single, ground (arith, single, full, elements))
      ]

  -- A call that advances an enumeration whose queue still presents structures, the first of them
  -- with a name that was not given before and with room in the buffer, succeeds. It gives the first
  -- structures with new names, at least one: the buffer starts with them, one behind the other,
  -- each with the offset of the next one and the last with 0, and the number of bytes in the I/O
  -- status is their size. The enumeration that it leaves is no longer at its first invocation, its
  -- names are the earlier ones and those that were given, and its queue presents what is still to
  -- be given, the next name a new one. The call stops only for lack of room or structures, after one
  -- structure if the application asked for a single entry, or at the greatest count. The fuel exceeds the number of structures, each structure says
  -- its size, and the application's buffer has the size that it is said to have.
  pub advance_delivers :
      (fuel size query_flags : ℕ) (e : Enumeration Queue) (q : Queue) (output : Bytes)
      (x : FileInformation) (xs : List FileInformation)
      → Presents ops q (x ∷ xs)
      → is_enumerated e.enumerated_filenames x.file_name ≡ false
      → length x.structure ≤ size
      → length (x ∷ xs) < fuel
      → AreWhole e.file_information_struct_layout (x ∷ xs)
      → size ≤ length output
      → (a : Advanced Queue) × (q' : Queue) × (written : List FileInformation) × (rest : List
          FileInformation)
        × (advance_directory_enumeration ops fuel e q output size query_flags ≡ some a)
        × (a.status ≡ success)
        × (0 < length written)
        × (a.information ≡ total_size written)
        × (take (total_size written) a.output
            ≡ encoded e.file_information_struct_layout (structures written))
        × (a.enumeration ≡ record e {
          queue = some q';
          enumerated_filenames = names_with e.enumerated_filenames written;
          is_first_invocation = false;
        })
        × Presents ops q' rest
        × (unique e.enumerated_filenames (x ∷ xs)
            ≡ written ++ unique (names_with e.enumerated_filenames written) rest)
        × IsFresh (names_with e.enumerated_filenames written) rest
        × StopsAt size query_flags written rest
  unfolding advance_directory_enumeration finish_delivery
  advance_delivers fuel size query_flags e q output x xs p fresh room enough whole buffer =
      let l = e.file_information_struct_layout in
      let before : Delivered Queue = record {
        queue = q;
        filenames = e.enumerated_filenames;
        output = output;
        bytes_written = 0;
        elements_written = 0;
        last_position = none;
        status = ops.enumeration_status q;
      } in
      let (d, written, rest, loop, given) =
        loop-Delivers ops l fuel size (max_elements_of query_flags) before (x ∷ xs) p enough refl
          fresh whole buffer in
      let bytes : d.bytes_written ≡ total_size written = omega (arith, given.4) in
      let some_written =
        progress ops l size query_flags e.enumerated_filenames before d x xs written rest refl refl
          refl fresh room given in
      (
        finish_delivery ops e d,
        d.queue,
        written,
        rest,
        ground (arith, p.0, p.2, loop),
        ground (arith, given.6, status_of_rest ops d.queue rest given.0),
        some_written,
        bytes,
        finish-encoded e before d written refl some_written bytes given.8,
        ap
            (λ ns. record e {
              queue = some d.queue;
              enumerated_filenames = ns;
              is_first_invocation = false;
            })
            given.3,
        given.0,
        given.1 ∙ ap (λ ns. written ++ unique ns rest) given.3,
        subst (λ ns. IsFresh ns rest) given.3 given.2,
        Stops-StopsAt size query_flags d written rest bytes (omega (arith, given.5)) given.7,
      )
