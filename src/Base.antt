-- ===== src/Base.antt =====
-- The names that the other modules share: the libraries', passed on, and those of the children.
pub mod Tests
pub mod Int
pub mod Text
pub mod Lists
pub use Tests.*
pub use Lists.{length, count, length-append, count-append}
pub use Text.{
  str_eq, starts_with, concat, concat_assoc, str_eq_iff, trim_space-eq-nil, lookup, insert,
  lookup-insert, Entries, lookup-Entries,
}
unfoldable pub use Text.{is_space, trim_space, all_space}
unfoldable pub use Int.{◌+ℤ◌, ◌-ℤ◌, neg, incr}
pub use Int.{
  ℤ, pos, negsuc, pos_part, neg_part, sub_ℕ, ◌≤ℤ◌, leb_ℤ, int_limit, +ℤ_parts, -ℤ_parts, neg_parts,
  eq_of_parts,
}
pub use Int.{int_laws}
pub use Prim.Native.Nat.{ℕ, zero, suc, ◌+◌, ◌-◌, ◌*◌, ◌≤◌, ◌<◌}
pub use Prim.Native.String.{String}
pub use mathlib.Core.Path.{◌≡◌, refl, sym, ap, subst, ◌∙◌}
pub use mathlib.Core.Logic.{◌≢◌, ◌↔◌, ◌⊎◌, inl, inr}
pub use mathlib.Core.Bool.{Bool, true, false, not, ◌&&◌, ◌||◌}
pub use mathlib.Core.Option.{Option, none, some}
pub use mathlib.Core.List.{List, [], ◌∷◌, ◌++◌, map, append-nil, append_assoc}
pub use native.Mathlib.Omega.{arith}
