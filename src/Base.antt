-- ===== src/Base.antt =====
-- The names that the other modules share: the libraries', passed on, and those of the children,
-- which model the Python built-ins that the sources use (str, dict, list, int).
mod Tests
mod Lists
mod Strings
mod Dicts
mod Splits
mod Results
pub use Tests.*
pub use Lists.*
pub use Strings.*
pub use Dicts.*
pub use Splits.*
pub use Results.*
unfoldable pub use Strings.{
  text_eq, starts_with, drop_prefix, alnum, slug, is_token, is_uid, decimal,
}
unfoldable pub use Dicts.{lookup, insert, contains, map_values, values}
unfoldable pub use Splits.{partition, split, ends_with, has_part}
unfoldable pub use Results.{raise_if, expect}
pub use Prim.Native.Nat.{ℕ, zero, suc, ◌+◌, ◌-◌, ◌*◌, ◌/◌, ◌%◌, ◌^◌, ◌≤◌, ◌<◌, min, max}
pub use mathlib.Core.Path.{◌≡◌, refl, sym, ap, ◌∙◌}
pub use mathlib.Core.Logic.{◌≢◌, ◌↔◌, ◌⊎◌, inl, inr}
pub use mathlib.Core.Bool.{Bool, true, false, not, ◌&&◌, ◌||◌}
pub use mathlib.Core.Option.{Option, none, some}
pub use mathlib.Core.List.{Memᴰ}
pub use mathlib.Core.List.{List, [], ◌∷◌, ◌++◌, map}
pub use native.Mathlib.Omega.{arith}
