-- ===== src/Infra.antt =====
-- The interface to the code outside the repository, and one implementation of it.
pub mod Defs
pub mod Ascii
pub use Defs.{Functions, IsLawful, Infra, path_delimiters}
unfoldable pub use Ascii.{ascii}
