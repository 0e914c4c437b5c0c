-- ===== src/Api/Zero.antt =====
-- The zero values of the types: what Go gives a field that a literal leaves out.
mod Meta
mod Server
mod Route
mod Upstream
unfoldable pub use Meta.*
unfoldable pub use Server.*
unfoldable pub use Route.*
unfoldable pub use Upstream.*
