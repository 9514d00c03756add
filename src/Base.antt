-- ===== src/Base.antt =====
-- What the components share: the library's names, tests, lists, texts as byte lists, Go maps.
pub mod Tests
pub mod Lists
pub mod Strings
pub mod Maps
pub mod Int
pub mod Decimal
pub mod Replace
pub mod Split
pub mod Paths
pub mod Extensions
pub use Tests.{ltb, leb, nat_beq, nat_beq_iff, if◌then◌else◌, Bool-cases, Option-cases, if-both}
pub use Lists.{
  length, take, drop, length-append, drop-append, take-append, append_cancel, All, All-append,
  All-zip, All-mono, All-map, length-map,
}
unfoldable pub use Strings.{text_beq, has_prefix}
pub use Strings.{
  Text, codes, text_beq_iff, has_prefix-append, has_prefix_refl, append-drop_of_prefix,
  has_prefix-eq_nil, Lacks,
}
unfoldable pub use Maps.{lookup, insert, erase}
pub use Maps.{
  Key, ◌==◌, nat_eq, text_eq, lookup-insert, lookup-erase, All-insert, All-erase, All-lookup,
  Distinct, insert-Distinct, erase-Distinct, fresh-All, lookup-All,
}
pub use Prim.Native.Nat.{ℕ, zero, suc, ◌+◌, ◌-◌, ◌*◌, ◌/◌, ◌%◌, ◌^◌, ◌≤◌, ◌<◌}
pub use mathlib.Core.Path.{◌≡◌, refl, sym, ap, ◌∙◌}
pub use mathlib.Core.Logic.{◌≢◌, ◌↔◌, ◌⊎◌, inl, inr}
pub use mathlib.Core.Bool.{Bool, true, false, not, ◌&&◌, ◌||◌}
pub use mathlib.Core.Option.{Option, none, some}
pub use mathlib.Core.List.{List, [], ◌∷◌, ◌++◌, map}
pub use native.Mathlib.Omega.{arith}
unfoldable pub use Int.{to_int64, wrap_int64}
pub use Int.{
  ℤ, pos, negsuc, pos_part, neg_part, sub_ℕ, ◌+ℤ◌, ◌-ℤ◌, ◌≤ℤ◌, ◌<ℤ◌, ltb_ℤ, neg, quot, rem, scale,
  int64_mod, int64_max, to_int64_exact,
}
unfoldable pub use Decimal.{decimal, decimal_ℤ, parse_digits, parse_int}
pub use Decimal.{is_digit, decimal-cons, decimal-AllDigits, parse_digits-decimal, parse_int-decimal}
unfoldable pub use Replace.{replace_all, swap_byte}
pub use Replace.{replace_all_byte}
unfoldable pub use Split.{split, trim}
pub use Split.{trim_plain, trim-cons, split-cons, split_one, join_byte, join-split, split-Lacks}
unfoldable pub use Paths.{
  has_byte, contains_text, has_suffix, base_name, ext, dir_name, without_ext,
}
pub use Extensions.{ext_of_name, without_ext_of_name, has_byte-ext}
pub use Paths.{contains_text-append, dir_name-join, ext_suffix, without_ext-append}
