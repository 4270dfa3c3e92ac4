-- ===== src/Executor/QueryByHandle/Name.antt =====
-- The name that QueryByHandle gives to the application.
use Prim.Native.Nat.{◌/◌}
use pathwinder.Base.{
  ℕ, ◌+◌, ◌-◌, ◌*◌, ◌%◌, ◌^◌, ◌≤◌, ◌<◌, ◌≡◌, refl, sym, ap, ◌∙◌, true, false, ◌||◌, some, ◌==◌, ltb,
  length, take, drop, if◌then◌else◌, arith,
}
use pathwinder.Text.{Text}
use pathwinder.Windows.{nt_success, success, buffer_overflow}
use pathwinder.FileInformation.{
  Bytes, bytes_of, write_bytes, characters_of, bytes_of_text, read_file_name_length,
  write_file_name_internal, write_file_name_length_internal,
}
use pathwinder.FileInformation.Memory.{
  length-write, read-write, length-bytes_of, read_number-write, drop-write_behind, AreWide,
  characters_of-bytes_of_text, length-bytes_of_text, AreWide-take, length-take-le,
}
use pathwinder.OpenHandleStore.{HandleData, OpenHandleStore, get_data_for_handle}
use pathwinder.Executor.QueryByHandle.{
  minus_64, Queried, file_name_information, file_name_information_position, with_new_length,
  replace_name, query_by_handle,
}

module _ (m : Bytes) (p n : ℕ) (name : Text) (size : length m ≡ n) (bounded : n < 2 ^ 32)
    (room : p + 8 ≤ n) (wide : AreWide name) (short : length name * 2 < 2 ^ 32) where
  abbrev capacity : ℕ
  capacity = n - p - 4

  abbrev kept : Text
  kept = take (capacity / 2) name

  -- The buffer after the two writes.
  abbrev replaced : Bytes
  replaced =
      write_file_name_length_internal file_name_information
        (write_file_name_internal file_name_information m p name (n - p)) p (length name * 2)

  abbrev with_name : Bytes
  with_name = write_bytes m (p + 4) (bytes_of_text kept)

  abbrev with_length : Bytes
  with_length = write_bytes with_name (p + 0) (bytes_of 4 (length kept * 2))

  replaced-length : read_file_name_length file_name_information replaced p ≡ length name * 2
  unfolding read_file_name_length write_file_name_length_internal write_file_name_internal
  replaced-length =
      read_number-write with_length (p + 0) (length name * 2)
        (omega (
          arith,
          room,
          size,
          length-write m (p + 4) (bytes_of_text kept),
          length-write with_name (p + 0) (bytes_of 4 (length kept * 2)),
        ))
        short

  replaced_name : characters_of (take (length kept * 2) (drop (p + 4) replaced)) ≡ kept
  unfolding write_file_name_length_internal write_file_name_internal
  replaced_name =
      let bytes = bytes_of_text kept in
      let behind : drop (p + 4) replaced ≡ drop (p + 4) with_name =
        drop-write_behind with_length (p + 0) (bytes_of 4 (length name * 2)) (p + 4)
          (omega (arith, length-bytes_of 4 (length name * 2)))
        ∙ drop-write_behind with_name (p + 0) (bytes_of 4 (length kept * 2)) (p + 4)
            (omega (arith, length-bytes_of 4 (length kept * 2))) in
      rw (behind, sym (length-bytes_of_text kept))
        (ap characters_of (
            read-write m (p + 4) bytes (
              omega
                (arith, room, size, length-bytes_of_text kept, length-take-le (capacity / 2) name)))
          ∙ characters_of-bytes_of_text kept (AreWide-take (capacity / 2) name wide))

  abbrev old_length : ℕ
  old_length = read_file_name_length file_name_information m p

  replace-with_new_length :
      (answer : Queried)
      → answer.buffer ≡ m
      → replace_name n p name answer
        ≡ with_new_length n capacity old_length (length name * 2) answer.information replaced
  unfolding replace_name
  replace-with_new_length answer same =
      let available : minus_64 n p ≡ n - p = omega arith in
      let cast : (n - p) % 2 ^ 32 ≡ n - p = omega arith in
      let cast_length : length name * 2 % 2 ^ 32 ≡ length name * 2 = omega arith in
      rw (same, available, cast, cast_length) refl

  -- The number of bytes that the system reports for a name of some length.
  abbrev pub reported : ℕ → ℕ
  reported name_length = if ltb (n - p - 4) name_length then n else p + 4 + name_length

  new_information :
      (information : ℕ)
      → information ≡ reported old_length
      → let o = with_new_length n capacity old_length (length name * 2) information replaced in
        (o.status ≡ (if ltb capacity (length name * 2) then buffer_overflow else success))
        × (o.io_status ≡ o.status)
        × (o.information ≡ reported (length name * 2))
        × (o.buffer ≡ replaced)
  unfolding with_new_length
  new_information information told =
      (ground arith, ground arith, ground (arith, told), ground arith)

module _ {Queue Layout : Type 0} (s : OpenHandleStore Queue Layout) (h n c p : ℕ)
    (transform : Text → Text) (answer : Queried) (entry : HandleData Queue Layout) where
  -- A query for the name of a stored handle, of a class that has one, with a buffer that has room for
  -- its fixed part, to which the system gave a success or said that the name is too long: the name
  -- that the buffer then has is the one made of the associated path, cut to the room for it, and
  -- its length is the whole one. The status says whether it was cut, and the number of bytes is
  -- what the system would report for this name, as it did for its own.
  pub query_by_handle_lem :
      get_data_for_handle s h ≡ some entry
      → file_name_information_position c ≡ some p
      → (answer.status == buffer_overflow || nt_success answer.status) ≡ true
      → length answer.buffer ≡ n
      → n < 2 ^ 32
      → p + 8 ≤ n
      → AreWide (transform entry.associated_path)
      → length (transform entry.associated_path) * 2 < 2 ^ 32
      → answer.information ≡ (
          let old_length = read_file_name_length file_name_information answer.buffer p in
          if ltb (n - p - 4) old_length then n else p + 4 + old_length)
      → let name = transform entry.associated_path in
        let kept = take ((n - p - 4) / 2) name in
        let o = query_by_handle s h n c transform answer in
        (read_file_name_length file_name_information o.buffer p ≡ length name * 2)
        × (characters_of (take (length kept * 2) (drop (p + 4) o.buffer)) ≡ kept)
        × (o.status ≡ (if ltb (n - p - 4) (length name * 2) then buffer_overflow else success))
        × (o.io_status ≡ o.status)
        × (o.information
            ≡ (if ltb (n - p - 4) (length name * 2) then n else p + 4 + length name * 2))
  unfolding query_by_handle
  query_by_handle_lem stored placed good size bounded room wide short told =
      let name = transform entry.associated_path in
      let replaces =
        replace-with_new_length answer.buffer p n name size bounded room wide short answer refl in
      let after =
        new_information answer.buffer p n name size bounded room wide short answer.information
          told in
      let available : ltb (minus_64 n p) 8 ≡ false = ground arith in
      let o : query_by_handle s h n c transform answer ≡ replace_name n p name answer =
        rw (good, placed, available, stored) refl in
      rw (o, replaces, after.3)
        (
          replaced-length answer.buffer p n name size bounded room wide short,
          replaced_name answer.buffer p n name size bounded room wide short,
          after.0,
          after.1,
          after.2,
        )
