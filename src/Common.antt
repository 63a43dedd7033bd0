-- ===== src/Common.antt =====
-- What the components share: the libraries' names, passed on, machine words, tests, lists, results.
pub mod Tests
pub mod Lists
pub mod Sorting
pub mod Fallible
pub mod Word
pub mod Int
pub use Tests.{
  ltb, leb, ◌==◌, if◌then◌else◌, ltb→lt, leb→le, ==_iff, Bool-cases, lt_cases, Option-cases,
}
pub use Lists.{
  length, All, length-append, sum_by-append, All-keep, keep-All, All-sort_by, All-zip, All-map,
  map-All, All-impl, All-trivial, length-map, IsSortedBy,
}
unfoldable pub use Lists.{keep, find_first, any, insert_by, sort_by, sum_by}
pub use Sorting.{sum_by-sort_by, sort_by-IsSortedBy}
pub use Fallible.{
  Result, ok, err, ◌>>=◌, ◌>>◌, reject_if, ok_or, ok_of_not_err, ok_of_bind, passed, some_of_ok,
}
pub use Word.{u32_mod, u64_mod, u64_max, u32, u64, checked_add, checked_sub, sat_add, sat_mul}
pub use Int.{ℤ, pos, negsuc, inflow-neg, outflow-neg}
unfoldable pub use Int.{neg, inflow, outflow}
pub use Prim.Native.Nat.{ℕ, zero, suc, ◌+◌, ◌-◌, ◌*◌, ◌/◌, ◌%◌, ◌^◌, ◌≤◌, ◌<◌, min, max}
pub use mathlib.Core.Path.{◌≡◌, refl, sym, ap, subst, ◌∙◌}
pub use mathlib.Core.Logic.{◌≢◌, ◌↔◌, ◌⊎◌, inl, inr}
pub use mathlib.Core.Bool.{Bool, true, false, not, ◌&&◌, ◌||◌}
pub use mathlib.Core.Option.{Option, none, some}
pub use mathlib.Core.List.{List, [], ◌∷◌, ◌++◌, map}
pub use native.Mathlib.Omega.{arith}
