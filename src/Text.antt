-- ===== src/Text.antt =====
-- The operations of Rust's `str` and byte slices that the source uses, on lists of bytes.
mod Equal
mod Affix
mod Split
mod Trim
mod Utf8
mod Parts
mod Number
mod Assoc
mod Words
unfoldable pub use Equal.*
unfoldable pub use Affix.*
unfoldable pub use Split.*
unfoldable pub use Trim.*
unfoldable pub use Utf8.*
unfoldable pub use Number.*
unfoldable pub use Assoc.*
unfoldable pub use Words.*
pub use Parts.*
