-- ===== src/Prelude/Order.antt =====
-- Total orders given by a test, and Python's stable sort by a key.
mod Defs
mod Sort
unfoldable pub use Defs.*
unfoldable pub use Sort.*
