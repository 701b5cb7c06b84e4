-- ===== src/Prelude/Strings.antt =====
-- What the program uses of Go's packages `strings` and `strconv`, on byte lists. White space and
-- letter case are those of ASCII; bytes from 128 on are neither space nor letter.
mod Search
pub mod Split
mod Space
pub mod Decimal
unfoldable pub use Search.{has_prefix, has_suffix, contains, index, trim_prefix, trim_suffix}
unfoldable pub use Split.{split, split_n, join, cut, has_byte}
pub use Split.{split-part, has_byte-append}
unfoldable pub use Space.{is_space, trim_space, trim_right_byte, fields, to_lower}
pub use Space.{
  fields_two, fields_more, IsInk, trim_space-indent, trim_space-ink, trim_space-behind,
  trim_space-space,
}
unfoldable pub use Decimal.{itoa, atoi}
