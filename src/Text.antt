-- ===== src/Text.antt =====
-- Python's `str` as far as the gateway uses it: a text is the list of its code points.
-- Letter case is that of ASCII: no other character changes under `upper` and `lower`.
mod Defs
pub mod Laws
pub mod Sort
pub mod Split
pub use Defs.{Text, txt, Fields}
unfoldable pub use Defs.{
  is_space, lstrip, strip, upper_char, upper, lower_char, lower, text_eq, mem_text, starts_with,
  contains, is_digit, digits_of, show_ℕ, show_ℤ, get, get_text, join, split_at, split, leb_text,
  insert_text, sort_text, int_of_text,
}
