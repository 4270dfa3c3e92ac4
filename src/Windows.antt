-- ===== src/Windows.antt =====
-- ApiWindows.h: the status codes, and the parameters of the Windows API that the program reads.
-- Their values are those that the Windows headers document.
use pathwinder.Base.{ℕ, Bool, ltb}

-- NT_SUCCESS, of a status written as an unsigned number of 32 bits.
abbrev pub nt_success : ℕ → Bool
nt_success status = ltb status 0x80000000

-- namespace NtStatus.
abbrev pub success : ℕ
success = 0

abbrev pub pending : ℕ
pending = 0x103

abbrev pub more_entries : ℕ
more_entries = 0x105

abbrev pub buffer_overflow : ℕ
buffer_overflow = 0x80000005

abbrev pub no_more_files : ℕ
no_more_files = 0x80000006

abbrev pub invalid_info_class : ℕ
invalid_info_class = 0xc0000003

abbrev pub info_length_mismatch : ℕ
info_length_mismatch = 0xc0000004

abbrev pub invalid_parameter : ℕ
invalid_parameter = 0xc000000d

abbrev pub no_such_file : ℕ
no_such_file = 0xc000000f

abbrev pub object_name_invalid : ℕ
object_name_invalid = 0xc0000033

abbrev pub object_name_not_found : ℕ
object_name_not_found = 0xc0000034

abbrev pub object_path_invalid : ℕ
object_path_invalid = 0xc0000039

abbrev pub object_path_not_found : ℕ
object_path_not_found = 0xc000003a

abbrev pub internal_error : ℕ
internal_error = 0xc00000e5

-- The create dispositions of NtCreateFile.
abbrev pub file_supersede : ℕ
file_supersede = 0

abbrev pub file_open : ℕ
file_open = 1

abbrev pub file_create : ℕ
file_create = 2

abbrev pub file_open_if : ℕ
file_open_if = 3

abbrev pub file_overwrite : ℕ
file_overwrite = 4

abbrev pub file_overwrite_if : ℕ
file_overwrite_if = 5

-- Infra::ValueOrError, with an NTSTATUS for its error.
pub data ValueOrError (A : Type 0) : Type 0 where
  value : A → ValueOrError A
  error : ℕ → ValueOrError A
