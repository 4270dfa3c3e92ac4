-- ===== src/FileInformation/Copies.antt =====
-- Structures that are copied one behind the other, with the offset of the next one in each.
use pathwinder.Base.{
  ℕ, zero, suc, ◌+◌, ◌≤◌, ◌≡◌, refl, sym, ap, ◌∙◌, List, [], ◌∷◌, ◌++◌, Option, none, some, length,
  length-append, take, drop, arith, append_assoc, append-nil,
}
use pathwinder.FileInformation.{
  Bytes, FileInformationStructLayout, bytes_of, number_of, read_number, write_bytes,
  hypothetical_size_for_file_name_length, read_file_name_length, size_of_struct,
  clear_next_entry_offset, update_next_entry_offset,
}
use pathwinder.FileInformation.Memory.{length-bytes_of, length-write, length-take}

take-write :
    (k : ℕ) (m : Bytes) (p : ℕ) (source : Bytes)
    → take k (write_bytes m p source) ≡ write_bytes (take k m) p source
unfolding write_bytes
take-write zero m p source = refl
take-write (suc k) [] p source = refl
take-write (suc k) (b ∷ bs) (suc p) source = ap (◌∷◌ b) (take-write k bs p source)
take-write (suc k) (b ∷ bs) zero [] = refl
take-write (suc k) (b ∷ bs) zero (c ∷ source) = ap (◌∷◌ c) (take-write k bs zero source)

write-append :
    (a s : Bytes) (k p o : ℕ) (source : Bytes)
    → length a ≡ p
    → k ≡ p + o
    → write_bytes (a ++ s) k source ≡ a ++ write_bytes s o source
unfolding write_bytes
write-append [] s k p o source here e = ap (λ q. write_bytes s q source) (omega arith)
write-append (b ∷ a) s zero p o source here e = absurd (omega arith)
write-append (b ∷ a) s (suc k) p o source here e =
    ap (◌∷◌ b) (write-append a s k (length a) o source refl (omega arith))

drop-append : (a s : Bytes) (k p o : ℕ) → length a ≡ p → k ≡ p + o → drop k (a ++ s) ≡ drop o s
drop-append [] s k p o here e = ap (λ q. drop q s) (omega arith)
drop-append (b ∷ a) s zero p o here e = absurd (omega arith)
drop-append (b ∷ a) s (suc k) p o here e = drop-append a s k (length a) o refl (omega arith)

take-write_copy :
    (m : Bytes) (p k : ℕ) (s : Bytes)
    → p + length s ≤ length m
    → k ≡ p + length s
    → take k (write_bytes m p s) ≡ take p m ++ s
unfolding write_bytes
take-write_copy m zero zero [] h e = refl
take-write_copy m zero (suc k) [] h e = absurd (omega arith)
take-write_copy m zero zero (c ∷ s) h e = absurd (omega arith)
take-write_copy [] zero (suc k) (c ∷ s) h e = absurd (omega arith)
take-write_copy (b ∷ bs) zero (suc k) (c ∷ s) h e =
    ap (◌∷◌ c) (take-write_copy bs zero k s (omega arith) (omega arith))
take-write_copy m (suc p) zero s h e = absurd (omega arith)
take-write_copy [] (suc p) (suc k) s h e = absurd (omega arith)
take-write_copy (b ∷ bs) (suc p) (suc k) s h e =
    ap (◌∷◌ b) (take-write_copy bs p k s (omega arith) (omega arith))

write-write :
    (m : Bytes) (p : ℕ) (a b : Bytes)
    → length a ≡ length b
    → write_bytes (write_bytes m p a) p b ≡ write_bytes m p b
unfolding write_bytes
write-write [] p a b e = refl
write-write (x ∷ m) (suc p) a b e = ap (◌∷◌ x) (write-write m p a b e)
write-write (x ∷ m) zero [] [] e = refl
write-write (x ∷ m) zero [] (c ∷ b) e = absurd (omega arith)
write-write (x ∷ m) zero (c ∷ a) [] e = absurd (omega arith)
write-write (x ∷ m) zero (c ∷ a) (d ∷ b) e = ap (◌∷◌ d) (write-write m zero a b (omega arith))

read_take : (m : Bytes) (q n k : ℕ) → q + n ≤ k → take n (drop q m) ≡ take n (drop q (take k m))
read_take m q zero k h = refl
read_take [] zero (suc n) zero h = refl
read_take [] zero (suc n) (suc k) h = refl
read_take [] (suc q) (suc n) zero h = refl
read_take [] (suc q) (suc n) (suc k) h = refl
read_take (b ∷ m) zero (suc n) zero h = absurd (omega arith)
read_take (b ∷ m) zero (suc n) (suc k) h = ap (◌∷◌ b) (read_take m zero n k (omega arith))
read_take (b ∷ m) (suc q) (suc n) zero h = absurd (omega arith)
read_take (b ∷ m) (suc q) (suc n) (suc k) h = read_take m q (suc n) k (omega arith)

module _ (l : FileInformationStructLayout) where
  -- A structure with another offset of the next one.
  abbrev pub with_next : Bytes → ℕ → Bytes
  with_next s n = write_bytes s l.offset_of_next_entry_offset (bytes_of 4 n)

  -- A structure whose length field is in it and says how long it is.
  pub record IsWhole (s : Bytes) : Type 0 where
    pub has_length : l.offset_of_file_name_length + 4 ≤ length s
    pub tells_size : size_of_struct l s 0 ≡ length s

  copied_size :
      (m : Bytes) (p : ℕ) (s : Bytes)
      → IsWhole s
      → p + length s ≤ length m
      → size_of_struct l (write_bytes m p s) p ≡ length s
  unfolding size_of_struct read_file_name_length read_number
  copied_size m p s whole room =
      let o = l.offset_of_file_name_length in
      let w = write_bytes m p s in
      let k = p + length s in
      let cut : take 4 (drop (p + o) w) ≡ take 4 (drop (p + o) (take k w)) =
        read_take w (p + o) 4 k (omega (arith, whole.has_length)) in
      let prefix : take k w ≡ take p m ++ s = take-write_copy m p k s room refl in
      let behind : drop (p + o) (take p m ++ s) ≡ drop (0 + o) s =
        drop-append (take p m) s (p + o) p (0 + o) (length-take p m (omega arith)) (omega arith) in
      ap (λ bytes. hypothetical_size_for_file_name_length l (number_of bytes))
        (cut ∙ ap (λ t. take 4 (drop (p + o) t)) prefix ∙ ap (take 4) behind)
      ∙ whole.tells_size

  -- The bytes up to the end of a structure that was copied to a position.
  pub take-copied :
      (m : Bytes) (p : ℕ) (s : Bytes)
      → IsWhole s
      → p + length s ≤ length m
      → take (p + length s) (update_next_entry_offset l (write_bytes m p s) p)
        ≡ take p m ++ with_next s (length s)
  unfolding update_next_entry_offset
  take-copied m p s whole room =
      let k = p + length s in
      let w = write_bytes m p s in
      let source = bytes_of 4 (size_of_struct l w p) in
      take-write k w (p + l.offset_of_next_entry_offset) source
      ∙ ap (λ t. write_bytes t (p + l.offset_of_next_entry_offset) source)
          (take-write_copy m p k s room refl)
      ∙ write-append (take p m) s (p + l.offset_of_next_entry_offset) p
          l.offset_of_next_entry_offset source (length-take p m (omega arith)) refl
      ∙ ap (λ n. take p m ++ with_next s n) (copied_size m p s whole room)

  pub length-copied :
      (m : Bytes) (p : ℕ) (s : Bytes)
      → length (update_next_entry_offset l (write_bytes m p s) p) ≡ length m
  unfolding update_next_entry_offset
  length-copied m p s = length-write _ _ _ ∙ length-write m p s

  -- Structures one behind the other, each with the offset of the one behind it.
  abbrev pub segments : List Bytes → Bytes
  segments [] = []
  segments (s ∷ ss) = with_next s (length s) ++ segments ss

  -- The last one has no next.
  abbrev pub encoded : List Bytes → Bytes
  encoded [] = []
  encoded (s ∷ []) = with_next s 0
  encoded (s ∷ t ∷ ss) = with_next s (length s) ++ encoded (t ∷ ss)

  abbrev pub total : List Bytes → ℕ
  total [] = 0
  total (s ∷ ss) = length s + total ss

  -- Where the last one stands, if the first stands at a position.
  abbrev pub last_from : ℕ → Option ℕ → List Bytes → Option ℕ
  last_from p before [] = before
  last_from p before (s ∷ ss) = last_from (p + length s) (some p) ss

  abbrev pub cleared : Option ℕ → Bytes → Bytes
  cleared none m = m
  cleared (some p) m = clear_next_entry_offset l m p

  pub cleared-elim :
      (last : Option ℕ) (m : Bytes)
      → (elim last [ none ↦ m | some p ↦ clear_next_entry_offset l m p ]) ≡ cleared last m
  cleared-elim none m = refl
  cleared-elim (some p) m = refl

  pub clear-encoded :
      (m a : Bytes) (p k : ℕ) (before : Option ℕ) (s : Bytes) (ss : List Bytes)
      → length a ≡ p
      → k ≡ p + total (s ∷ ss)
      → take k m ≡ a ++ segments (s ∷ ss)
      → take k (cleared (last_from p before (s ∷ ss)) m) ≡ a ++ encoded (s ∷ ss)
  unfolding clear_next_entry_offset
  clear-encoded m a p k before s [] here e same =
      let next = l.offset_of_next_entry_offset in
      let four = bytes_of 4 (length s) in
      take-write k m (p + next) (bytes_of 4 0)
      ∙ ap (λ t. write_bytes t (p + next) (bytes_of 4 0))
          (same ∙ ap (λ t. a ++ t) (append-nil (with_next s (length s))))
      ∙ write-append a (with_next s (length s)) (p + next) p next (bytes_of 4 0) here refl
      ∙ ap (λ t. a ++ t)
          (write-write s next four (bytes_of 4 0)
            (length-bytes_of 4 (length s) ∙ sym (length-bytes_of 4 0)))
  clear-encoded m a p k before s (t ∷ ss) here e same =
      let segment = with_next s (length s) in
      clear-encoded m (a ++ segment) (p + length s) k (some p) t ss
        (omega (
          arith,
          here,
          length-append {0} a segment,
          length-write s l.offset_of_next_entry_offset (bytes_of 4 (length s)),
        ))
        (omega (arith, e)) (same ∙ sym (append_assoc a segment (segments (t ∷ ss))))
      ∙ append_assoc a segment (encoded (t ∷ ss))
