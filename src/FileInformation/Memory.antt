-- ===== src/FileInformation/Memory.antt =====
-- Reading back what was written to memory, there and elsewhere.
use Prim.Native.Nat.{◌/◌}
use pathwinder.Base.{
  ℕ, zero, suc, ◌+◌, ◌*◌, ◌^◌, ◌≤◌, ◌<◌, ◌≡◌, refl, ap, subst, ◌∙◌, [], ◌∷◌, length, take, drop,
  ltb, if◌then◌else◌, arith,
}
use pathwinder.Text.{Text}
use pathwinder.FileInformation.{
  Bytes, bytes_of, number_of, read_number, write_bytes, characters_of, bytes_of_text,
}

pub length-write : (m : Bytes) (p : ℕ) (source : Bytes) → length (write_bytes m p source) ≡ length m
unfolding write_bytes
length-write [] p source = refl
length-write (b ∷ bs) (suc p) source = ap suc (length-write bs p source)
length-write (b ∷ bs) zero [] = refl
length-write (b ∷ bs) zero (c ∷ source) = ap suc (length-write bs zero source)

-- What was written is read.
pub read-write :
    (m : Bytes) (p : ℕ) (source : Bytes)
    → p + length source ≤ length m
    → take (length source) (drop p (write_bytes m p source)) ≡ source
unfolding write_bytes
read-write [] zero [] h = refl
read-write [] (suc p) [] h = refl
read-write [] p (c ∷ source) h = absurd (omega arith)
read-write (b ∷ bs) (suc p) source h = read-write bs p source (omega arith)
read-write (b ∷ bs) zero [] h = refl
read-write (b ∷ bs) zero (c ∷ source) h = ap (◌∷◌ c) (read-write bs zero source (omega arith))

take-write-before :
    (m : Bytes) (p : ℕ) (source : Bytes) (n : ℕ)
    → n ≤ p
    → take n (write_bytes m p source) ≡ take n m
unfolding write_bytes
take-write-before m p source zero h = refl
take-write-before [] p source (suc n) h = refl
take-write-before (b ∷ bs) zero source (suc n) h = absurd (omega arith)
take-write-before (b ∷ bs) (suc p) source (suc n) h =
    ap (◌∷◌ b) (take-write-before bs p source n (omega arith))

-- What ends before the written bytes, or starts behind them, is as it was.
pub read-write_before :
    (m : Bytes) (p : ℕ) (source : Bytes) (q n : ℕ)
    → q + n ≤ p
    → take n (drop q (write_bytes m p source)) ≡ take n (drop q m)
unfolding write_bytes
read-write_before m p source zero n h = take-write-before m p source n (omega arith)
read-write_before [] p source (suc q) n h = refl
read-write_before (b ∷ bs) zero source (suc q) n h = absurd (omega arith)
read-write_before (b ∷ bs) (suc p) source (suc q) n h =
    read-write_before bs p source q n (omega arith)

pub drop-write_behind :
    (m : Bytes) (p : ℕ) (source : Bytes) (q : ℕ)
    → p + length source ≤ q
    → drop q (write_bytes m p source) ≡ drop q m
unfolding write_bytes
drop-write_behind [] p source q h = refl
drop-write_behind (b ∷ bs) zero [] q h = refl
drop-write_behind (b ∷ bs) zero (c ∷ source) zero h = absurd (omega arith)
drop-write_behind (b ∷ bs) zero (c ∷ source) (suc q) h =
    drop-write_behind bs zero source q (omega arith)
drop-write_behind (b ∷ bs) (suc p) source zero h = absurd (omega arith)
drop-write_behind (b ∷ bs) (suc p) source (suc q) h = drop-write_behind bs p source q (omega arith)

pub number_of-bytes_of : (n : ℕ) → n < 2 ^ 32 → number_of (bytes_of 4 n) ≡ n
unfolding number_of bytes_of
number_of-bytes_of n h = omega arith

-- Every character has 16 bits.
abbrev pub AreWide : Text → Type 0
AreWide [] = Unit
AreWide (c ∷ cs) = c < 65536 × AreWide cs

pub characters_of-bytes_of_text : (s : Text) → AreWide s → characters_of (bytes_of_text s) ≡ s
unfolding characters_of bytes_of_text
characters_of-bytes_of_text [] h = refl
characters_of-bytes_of_text (c ∷ cs) h = ground (arith, characters_of-bytes_of_text cs h.1)

pub length-bytes_of_text : (s : Text) → length (bytes_of_text s) ≡ length s * 2
unfolding bytes_of_text
length-bytes_of_text [] = refl
length-bytes_of_text (c ∷ cs) = omega (arith, length-bytes_of_text cs)

pub AreWide-take : (n : ℕ) (s : Text) → AreWide s → AreWide (take n s)
AreWide-take zero s h = tt
AreWide-take (suc n) [] h = tt
AreWide-take (suc n) (c ∷ cs) h = (h.0, AreWide-take n cs h.1)

pub length-take-le : (n : ℕ) (s : Text) → length (take n s) ≤ n
length-take-le zero s = omega arith
length-take-le (suc n) [] = omega arith
length-take-le (suc n) (c ∷ cs) = omega (arith, length-take-le n cs)

pub length-bytes_of : (k n : ℕ) → length (bytes_of k n) ≡ k
unfolding bytes_of
length-bytes_of zero n = refl
length-bytes_of (suc k) n = ap suc (length-bytes_of k (n / 256))

-- A number of 32 bits.
pub read_number-write :
    (m : Bytes) (p n : ℕ)
    → p + 4 ≤ length m
    → n < 2 ^ 32
    → read_number (write_bytes m p (bytes_of 4 n)) p 4 ≡ n
unfolding read_number
read_number-write m p n room small =
    let four = length-bytes_of 4 n in
    let read = read-write m p (bytes_of 4 n) (omega arith) in
    ap number_of
      (subst (λ k. take k (drop p (write_bytes m p (bytes_of 4 n))) ≡ bytes_of 4 n) four read)
    ∙ number_of-bytes_of n small

pub read_number-write_behind :
    (m : Bytes) (p n q k : ℕ)
    → p + 4 ≤ q
    → read_number (write_bytes m p (bytes_of 4 n)) q k ≡ read_number m q k
unfolding read_number
read_number-write_behind m p n q k apart =
    ap (λ rest. number_of (take k rest))
      (drop-write_behind m p (bytes_of 4 n) q (omega (arith, length-bytes_of 4 n)))

-- The two bounds that a copy is cut at.
pub take-take : (c n : ℕ) (s : Bytes) → take (if ltb c n then c else n) s ≡ take c (take n s)
take-take zero zero s = refl
take-take zero (suc n) s = ground arith
take-take (suc c) zero s = ground arith
take-take (suc c) (suc n) [] = ground arith
take-take (suc c) (suc n) (b ∷ bs) = ground (arith, take-take c n bs)

pub length-take : (n : ℕ) (s : Bytes) → n ≤ length s → length (take n s) ≡ n
length-take zero s h = refl
length-take (suc n) [] h = absurd (omega arith)
length-take (suc n) (b ∷ bs) h = ap suc (length-take n bs (omega arith))

pub take-all : (n : ℕ) (s : Text) → length s ≤ n → take n s ≡ s
take-all zero [] h = refl
take-all (suc n) [] h = refl
take-all zero (c ∷ cs) h = absurd (omega arith)
take-all (suc n) (c ∷ cs) h = ap (◌∷◌ c) (take-all n cs (omega arith))
