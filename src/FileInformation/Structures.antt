-- ===== src/FileInformation/Structures.antt =====
-- The structures at the end of FileInformationStruct.h, as the compiler lays them out.
use Prim.Native.Nat.{◌/◌}
use pathwinder.Base.{ℕ, zero, suc, ◌+◌, ◌-◌, ◌*◌, List, [], ◌∷◌, ltb, if◌then◌else◌}

-- The type of a field: the bytes that it takes, and the multiple that its offset is of.
pub record Field : Type 0 where
  pub size : ℕ
  pub alignment : ℕ

-- ULONG, LARGE_INTEGER, CCHAR, WCHAR[1], WCHAR[12], GUID, and FILE_ID_128, an array of bytes.
abbrev ulong : Field
ulong = record { size = 4; alignment = 4 }

abbrev large_integer : Field
large_integer = record { size = 8; alignment = 8 }

abbrev cchar : Field
cchar = record { size = 1; alignment = 1 }

abbrev wchar_1 : Field
wchar_1 = record { size = 2; alignment = 2 }

abbrev wchar_12 : Field
wchar_12 = record { size = 24; alignment = 2 }

abbrev guid : Field
guid = record { size = 16; alignment = 4 }

abbrev file_id_128 : Field
file_id_128 = record { size = 16; alignment = 1 }

-- The next multiple of an alignment.
unfoldable pub align_up : ℕ → ℕ → ℕ
align_up a n = (n + (a - 1)) / a * a

-- offsetof the field at a position, with the fields before it laid out from `start`.
unfoldable pub offset_from : ℕ → List Field → ℕ → ℕ
unfolding align_up
offset_from start [] k = start
offset_from start (f ∷ fs) zero = align_up f.alignment start
offset_from start (f ∷ fs) (suc k) = offset_from (align_up f.alignment start + f.size) fs k

unfoldable pub offset_of : List Field → ℕ → ℕ
unfolding offset_from
offset_of fs k = offset_from 0 fs k

unfoldable pub end_from : ℕ → List Field → ℕ
unfolding align_up
end_from start [] = start
end_from start (f ∷ fs) = end_from (align_up f.alignment start + f.size) fs

unfoldable pub greatest_alignment : List Field → ℕ
greatest_alignment [] = 1
greatest_alignment (f ∷ fs) =
    let rest = greatest_alignment fs in if ltb rest f.alignment then f.alignment else rest

-- sizeof.
unfoldable pub structure_size : List Field → ℕ
unfolding align_up end_from greatest_alignment
structure_size fs = align_up (greatest_alignment fs) (end_from 0 fs)

-- nextEntryOffset, fileIndex, six times and sizes, fileAttributes and fileNameLength: the fields 0 to
-- 9 that all but one of the structures start with.
abbrev common_fields : List Field → List Field
common_fields rest =
    ulong ∷ ulong ∷ large_integer ∷ large_integer ∷ large_integer ∷ large_integer ∷ large_integer
    ∷ large_integer ∷ ulong ∷ ulong ∷ rest

abbrev pub file_directory_information : List Field
file_directory_information = common_fields (wchar_1 ∷ [])

abbrev pub file_full_directory_information : List Field
file_full_directory_information = common_fields (ulong ∷ wchar_1 ∷ [])

abbrev pub file_both_directory_information : List Field
file_both_directory_information = common_fields (ulong ∷ cchar ∷ wchar_12 ∷ wchar_1 ∷ [])

abbrev pub file_names_information : List Field
file_names_information = ulong ∷ ulong ∷ ulong ∷ wchar_1 ∷ []

abbrev pub file_id_both_directory_information : List Field
file_id_both_directory_information =
    common_fields (ulong ∷ cchar ∷ wchar_12 ∷ large_integer ∷ wchar_1 ∷ [])

abbrev pub file_id_full_directory_information : List Field
file_id_full_directory_information = common_fields (ulong ∷ large_integer ∷ wchar_1 ∷ [])

abbrev pub file_id_global_tx_directory_information : List Field
file_id_global_tx_directory_information =
    common_fields (large_integer ∷ guid ∷ ulong ∷ wchar_1 ∷ [])

abbrev pub file_id_extd_directory_information : List Field
file_id_extd_directory_information = common_fields (ulong ∷ ulong ∷ file_id_128 ∷ wchar_1 ∷ [])

abbrev pub file_id_extd_both_directory_information : List Field
file_id_extd_both_directory_information =
    common_fields (ulong ∷ ulong ∷ file_id_128 ∷ cchar ∷ wchar_12 ∷ wchar_1 ∷ [])
