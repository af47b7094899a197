-- ===== src/Prelude/Query.antt =====
-- Tables as lists of rows, and what the queries of the repositories do with them.
mod Rows
mod Counts
mod Found
unfoldable pub use Rows.{find, update_where, count_where, delete_where, sort_by}
pub use Rows.*
pub use Counts.*
pub use Found.*
