-- ===== src/Text.antt =====
-- Rust's `str` and `String`: a text is the list of its scalar values, and its `len` counts the
-- bytes of its UTF-8 form. Only the standard library's operations that the program calls are here.
mod Scalars
pub mod Utf8
pub mod Order
unfoldable pub use Scalars.*
