-- ===== src/Base.antt =====
-- The names that the other modules share: the libraries', passed on, and those of the children.
mod Tests
mod Text
mod Lists
mod Dicts
mod Raising
mod Slices
pub use Tests.*
unfoldable pub use Text.{String-discrete}
pub use Text.{text_differs}
pub use Lists.*
unfoldable pub use Lists.{elem, subset, keep_if, remove}
unfoldable pub use Dicts.{set_item, has_key, get_item, pop_item, find_item}
pub use Dicts.{
  has_key-set_item, get_item-set_item, get_item-pop_item, has_key-pop_item, find_item-set_item,
}
pub use Raising.*
pub use Slices.*
unfoldable pub use Slices.{take, drop}
pub use Prim.Native.Nat.{ℕ, zero, suc, ◌+◌, ◌-◌, ◌*◌, ◌/◌, ◌%◌, ◌^◌, ◌≤◌, ◌<◌}
pub use Prim.Native.String.{String}
pub use mathlib.Core.Path.{◌≡◌, refl, sym, ap, subst, ◌∙◌}
pub use mathlib.Core.Logic.{◌≢◌, ◌↔◌, ◌⊎◌, inl, inr, ite, if_pos, if_neg}
pub use mathlib.Core.Bool.{Bool, true, false, not, ◌&&◌, ◌||◌}
pub use mathlib.Core.Option.{Option, none, some}
pub use mathlib.Core.List.{List, [], ◌∷◌, ◌++◌, map, reverse, append_assoc, append-nil}
pub use native.Mathlib.Omega.{arith}
unfoldable pub use native.Mathlib.Decide.{dec_lt, dec_le, ℕ_discrete}
