-- ===== src/Nlss/Tables.antt =====
-- nlss/secretshare.go: the tables that a share is drawn from, in the order of the source.
pub mod Rows
pub mod La
pub mod V8
unfoldable pub use Rows.{v4, generator}
unfoldable pub use La.{la}
unfoldable pub use V8.{v8}
