-- ===== src/Common.antt =====
-- The names that the other modules share: those of the libraries, passed on, and those of its
-- children (tests on numbers, lists, byte strings, options, decimal numerals). Bits has its own users.
pub mod Tests
pub mod Lists
pub mod ByteString
pub mod Options
pub mod Decimal
pub mod Bits
pub use Tests.*
pub use Options.*
unfoldable pub use Decimal.{decimal, is_digit}
pub use Decimal.{
  decimal-injective, decimal-AllTrue, decimal-nonempty, decimal_short, value-decimal, value_from,
}
pub use Lists.{
  at_or, length, take, drop, length-append, take-append, drop-append, take-length, take-append_eq,
  take-length_eq, drop-append_next, AllTrue, nil, cons, AllTrue-append, AllTrue-mono,
}
unfoldable pub use ByteString.{
  Bytes, codes, is_empty, beq, find_char, differs, compare_bytes, starts_with, split_last,
}
pub use ByteString.{
  beq_iff, compare_bytes-eq_iff, beq_refl, beq_sym, find_char-append, find_char-none,
  find_char_skip, starts_with-take,
}
pub use Prim.Native.Nat.{ℕ, zero, suc, ◌+◌, ◌-◌, ◌*◌, ◌/◌, ◌%◌, ◌^◌, ◌≤◌, ◌<◌, compare, Ordering}
pub use mathlib.Core.Path.{◌≡◌, refl, sym, ap, subst, ◌∙◌}
pub use mathlib.Core.Logic.{◌≢◌, ◌↔◌, ◌⊎◌, inl, inr}
pub use mathlib.Core.Bool.{Bool, true, false, not, ◌&&◌, ◌||◌}
pub use mathlib.Core.Option.{Option, none, some}
pub use mathlib.Core.List.{List, [], ◌∷◌, ◌++◌, map}
pub use native.Mathlib.Omega.{arith}
